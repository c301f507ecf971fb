-- ===== src/Contamination/Reports/Verdict.antt =====
-- What a finished job leaves in the tables.
use eval_ledger.Base.{
  ℕ, ◌≤◌, ◌≡◌, refl, ap, ◌∙◌, Bool, false, Option, none, some, List, [], ◌∷◌, map, arith, String,
  Text, select, select-update_where, ◌==◌, ==_self, ◌⊎◌, inl, inr, true, All, any,
}
use eval_ledger.Contamination.Classify.{Status, clean, worst_status, worst_status_bounds, rank}
use eval_ledger.Contamination.Examples.{Readers, extract_examples}
use eval_ledger.Contamination.Detection.{Engine, Bundle, Progress, detect}
use eval_ledger.Contamination.Reports.{
  Version, Tables, Sources, Result, of_version, find_version, set_status, result_of, record_results,
  load_bundles, select_corpora, run_detection, ◌>>=◌,
}

>>=-eq-some {ℓ κ} :
    {A : Type ℓ} {B : Type κ} (m : Option A) (f : A → Option B) {b : B}
    → (m >>= f) ≡ some b
    → (a : A) × (m ≡ some a) × (f a ≡ some b)
>>=-eq-some none f h = cc
>>=-eq-some (some a) f h = (a, refl, h)

All-map {ℓ κ μ} :
    {A : Type ℓ} {B : Type κ} (f : A → B) (P : B → Type μ) (xs : List A)
    → All P (map f xs)
    → All (λ x. P (f x)) xs
All-map f P [] h = tt
All-map f P (x ∷ xs) h = (h.0, All-map f P xs h.1)

any-map {ℓ κ} :
    {A : Type ℓ} {B : Type κ} (f : A → B) (p : B → Bool) (xs : List A)
    → any (λ x. p (f x)) xs ≡ any p (map f xs)
any-map f p [] = refl
any-map f p (x ∷ xs) = ground (arith, any-map f p xs)

pub set_status-select :
    (v : ℕ) (s : Status) (rows : List Version) (row : Version)
    → select (of_version v) rows ≡ some row
    → select (of_version v) (set_status row.id s rows)
      ≡ some (record row { contamination_status = s })
unfolding set_status
set_status-select v s rows row h =
    select-update_where (of_version v) (of_version row.id)
      (λ r. record r { contamination_status = s }) rows (λ a e. refl) row h
    ∙ rw (==_self row.id)

pub set_status-other :
    (v w : ℕ) (s : Status) (rows : List Version)
    → (w == v) ≡ false
    → select (of_version v) (set_status w s rows) ≡ select (of_version v) rows
unfolding set_status
set_status-other v w s [] h = refl
set_status-other v w s (r ∷ rows) h = ground (arith, set_status-other v w s rows)

module _ {Bytes M : Type 0} (is_word : ℕ → Bool) (lower : Text → Text) (compute_minhash : Text → M)
    (engine : Engine) (readers : Readers Bytes) (sources : Sources Bytes M) (artifact_name : Text)
    (artifact_location : String) (corpus_ids : List ℕ) (ids : ℕ → ℕ) (started_at : ℕ)
    (clock : ℕ → ℕ) (db db' : Tables) (results : List Result) where
  abbrev pub run : Option ℕ → Option (Tables × List Result)
  run version_id =
      run_detection is_word lower compute_minhash engine readers sources artifact_name
        artifact_location corpus_ids version_id ids started_at clock db

  -- A run that returns went through the whole pass.
  run_inversion :
      (version_id : Option ℕ)
      → run version_id ≡ some (db', results)
      → (p : Progress M) × (db'
          ≡ record_results engine.threshold
              (find_version version_id db.versions)
              ids
              started_at
              clock
              p
              db)
        × (results ≡ map (result_of p.total_examples) p.tallies)
  unfolding run_detection
  run_inversion version_id h =
      let after_pass = λ (p : Progress M). some (
        record_results engine.threshold (find_version version_id db.versions) ids started_at clock p
            db,
        map (result_of p.total_examples) p.tallies,
      ) in
      let pass = λ (bytes : Bytes) (bundles : List (Bundle M)).
        detect is_word lower compute_minhash engine bundles
          (extract_examples lower readers artifact_name bytes) in
      let corpora = select_corpora corpus_ids db.corpora in
      let (bytes, _, h₁) =
        >>=-eq-some (sources.read_bytes artifact_location)
          (λ bytes. load_bundles sources corpora >>= λ bundles. pass bytes bundles >>= after_pass)
          h in
      let (bundles, _, h₂) =
        >>=-eq-some (load_bundles sources corpora) (λ bundles. pass bytes bundles >>= after_pass)
          h₁ in
      let (p, _, h₃) = >>=-eq-some (pass bytes bundles) after_pass h₂ in
      (p, ground (arith, h₃), ground (arith, h₃))

  -- A job for a version that exists, when it returns, has given it a status that is clean, flagged or
  -- contaminated, at least as bad as the verdict on each corpus, and clean or as bad as the verdict on
  -- one of them; and no other version another status.
  pub run_detection_verdict :
      (version : Version) (other : ℕ)
      → select (of_version version.id) db.versions ≡ some version
      → run (some version.id) ≡ some (db', results)
      → (version.id == other) ≡ false
      → (status : Status) × (select (of_version version.id) db'.versions
          ≡ some (record version { contamination_status = status }))
        × (1 ≤ rank status)
        × All (λ r. rank r.result_status ≤ rank status) results
        × ((status ≡ clean) ⊎ (any (λ r. rank r.result_status == rank status) results ≡ true))
        × (select (of_version other) db'.versions ≡ select (of_version other) db.versions)
  unfolding record_results
  run_detection_verdict version other found ran differs =
      let (p, e, e') = run_inversion (some version.id) ran in
      let status = worst_status (map (λ r. r.result_status) results) in
      let bounds = worst_status_bounds (map (λ r. r.result_status) results) in
      rw (e, found)
        (
          status,
          rw e' (set_status-select version.id _ db.versions version found),
          unfold worst_status in ground arith,
          All-map (λ r. r.result_status) (λ s. rank s ≤ rank status) results bounds.0,
          elim bounds.1 [
            | inl e₁ ↦ inl e₁
            | inr e₁ ↦
                inr (any-map (λ r. r.result_status) (λ s. rank s == rank status) results ∙ e₁)
          ],
          set_status-other other version.id _ db.versions differs,
        )

  -- A job without a version, or for one that is gone, writes nothing.
  pub run_detection_adhoc :
      (version_id : Option ℕ)
      → find_version version_id db.versions ≡ none
      → run version_id ≡ some (db', results)
      → db' ≡ db
  unfolding record_results
  run_detection_adhoc version_id missing ran =
      let (p, e, _) = run_inversion version_id ran in
      e ∙ ap (λ o. record_results engine.threshold o ids started_at clock p db) missing
