-- ===== src/Contamination/Reports/Recorded.antt =====
-- The reports that a job leaves in the table (backend/app/services/contamination_engine.py,
-- `_store_report`), one for each corpus.
use eval_ledger.Base.{
  ℕ, ◌≡◌, refl, ◌∙◌, true, false, some, inl, inr, List, [], ◌∷◌, arith, any, select, select-passes,
  select-append_none, select-update_where, selects_a_row, selects_no_row, select-append_other,
  select-update_other, Bool-cases, ◌==◌, ==_self, All, map,
}
use eval_ledger.Contamination.Score.{Score}
use eval_ledger.Contamination.Classify.{overlap_score, classify}
use eval_ledger.Contamination.Detection.{Bundle, Tally}
use eval_ledger.Contamination.Reports.{
  Report, of_key, overwrite, store_report, store_reports, report_of, status_of,
}

-- A row that has the values of another one.
abbrev pub SameValues : Report → Report → Type 0
SameValues row new =
    (row.status ≡ new.status)
    × (row.overlap ≡ new.overlap)
    × (row.num_flagged_examples ≡ new.num_flagged_examples)
    × (row.flagged_examples ≡ new.flagged_examples)
    × (row.minhash_threshold ≡ new.minhash_threshold)
    × (row.job_started_at ≡ new.job_started_at)
    × (row.job_completed_at ≡ new.job_completed_at)

stored_row :
    (new : Report) (reports : List Report)
    → (row : Report) × (select (of_key new.version_id new.corpus_id) (store_report new reports)
        ≡ some row)
      × SameValues row new
unfolding store_report
stored_row new reports =
    let p = of_key new.version_id new.corpus_id in
    elim (Bool-cases (any p reports)) [
      | inl e ↦
          let (old, found) = selects_a_row p reports e in
          (
            overwrite new old,
            rw e (
                select-update_where p p (overwrite new) reports (λ a _. refl) old found
                ∙ rw (select-passes p reports old found) refl),
            (refl, refl, refl, refl, refl, refl, refl),
          )
      | inr e ↦ (
        new,
        rw e (
            select-append_none p reports (new ∷ []) (selects_no_row p reports e)
            ∙ rw (==_self new.version_id, ==_self new.corpus_id) refl),
        (refl, refl, refl, refl, refl, refl, refl),
      )
    ]

other_corpus :
    (v c d : ℕ) (row : Report) → (d == c) ≡ false → of_key v d row ≡ true → of_key v c row ≡ false
other_corpus v c d row apart h = ground arith

other_kept :
    (new : Report) (c : ℕ) (reports : List Report)
    → (new.corpus_id == c) ≡ false
    → select (of_key new.version_id c) (store_report new reports)
      ≡ select (of_key new.version_id c) reports
unfolding store_report
other_kept new c reports apart =
    let p = of_key new.version_id c in
    let q = of_key new.version_id new.corpus_id in
    elim (Bool-cases (any q reports)) [
      | inl e ↦ rw e (
          select-update_other p q (overwrite new) reports (λ a. refl)
            (λ a. other_corpus new.version_id c new.corpus_id a apart))
      | inr e ↦ rw e (select-append_other p reports new (ground (arith, apart)))
    ]

-- Corpora with different ids.
abbrev pub DistinctCorpora : {M : Type 0} → List (Bundle M) → Type 0
DistinctCorpora [] = Unit
DistinctCorpora (b ∷ bs) = All (λ b'. (b'.corpus_id == b.corpus_id) ≡ false) bs × DistinctCorpora bs

module _ {M : Type 0} (threshold : Score) (version : ℕ) (ids : ℕ → ℕ) (started_at : ℕ)
    (clock : ℕ → ℕ) (total : ℕ) where
  -- The table has a report on the version and the tally's corpus: with the tally's count and samples,
  -- the flagged share of all examples and its verdict, and the settings and times of the run.
  abbrev pub Recorded : List Report → Tally M → Type 0
  Recorded reports t =
      (row : Report) × (select (of_key version t.bundle.corpus_id) reports ≡ some row)
      × (row.status ≡ classify (overlap_score t.flagged_count total))
      × (row.overlap ≡ overlap_score t.flagged_count total)
      × (row.num_flagged_examples ≡ t.flagged_count)
      × (row.flagged_examples ≡ t.flagged_samples)
      × (row.minhash_threshold ≡ threshold)
      × (row.job_started_at ≡ started_at)
      × (row.job_completed_at ≡ clock t.bundle.corpus_id)

  abbrev report_on : Tally M → Report
  report_on t =
      report_of threshold version (ids t.bundle.corpus_id) started_at (clock t.bundle.corpus_id)
        total t

  abbrev store_all : List (Tally M) → List Report → List Report
  store_all = store_reports threshold version ids started_at clock total

  store_reports-other :
      (ts : List (Tally M)) (c : ℕ) (reports : List Report)
      → All (λ t. (t.bundle.corpus_id == c) ≡ false) ts
      → select (of_key version c) (store_all ts reports) ≡ select (of_key version c) reports
  unfolding store_reports report_of
  store_reports-other [] c reports apart = refl
  store_reports-other (t ∷ ts) c reports apart =
      store_reports-other ts c (store_report (report_on t) reports) apart.1
      ∙ other_kept (report_on t) c reports apart.0

  first-Recorded :
      (t : Tally M) (ts : List (Tally M)) (reports : List Report)
      → All (λ t'. (t'.bundle.corpus_id == t.bundle.corpus_id) ≡ false) ts
      → Recorded (store_all ts (store_report (report_on t) reports)) t
  unfolding report_of status_of
  first-Recorded t ts reports apart =
      let (row, found, same) = stored_row (report_on t) reports in
      (
        row,
        store_reports-other ts t.bundle.corpus_id (store_report (report_on t) reports) apart
            ∙ found,
        same.0,
        same.1,
        same.2,
        same.3,
        same.4,
        same.5,
        same.6,
      )

module _ {M : Type 0} (threshold : Score) (version : ℕ) (ids : ℕ → ℕ) (started_at : ℕ)
    (clock : ℕ → ℕ) (total : ℕ) (tally_of : Bundle M → Tally M)
    (of_bundle : (b : Bundle M) → (tally_of b).bundle ≡ b) where
  tallies_apart :
      (bs : List (Bundle M)) (c : ℕ)
      → All (λ b. (b.corpus_id == c) ≡ false) bs
      → All (λ t. (t.bundle.corpus_id == c) ≡ false) (map tally_of bs)
  tallies_apart [] c h = tt
  tallies_apart (b ∷ bs) c h = (rw (of_bundle b) h.0, tallies_apart bs c h.1)

  pub store_reports-Recorded :
      (bs : List (Bundle M)) (reports : List Report)
      → DistinctCorpora bs
      → All
          (Recorded threshold version ids started_at clock total
            (store_reports threshold version ids started_at clock total (map tally_of bs) reports))
          (map tally_of bs)
  unfolding store_reports
  store_reports-Recorded [] reports distinct = tt
  store_reports-Recorded (b ∷ bs) reports distinct = (
    first-Recorded threshold version ids started_at clock total (tally_of b) (map tally_of bs)
        reports (rw (of_bundle b) (tallies_apart bs b.corpus_id distinct.0)),
    store_reports-Recorded bs _ distinct.1,
  )
