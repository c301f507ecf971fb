-- ===== src/Contamination/Reports/Completion.antt =====
-- When a job completes, and with what.
use mathlib.Core.Option
use eval_ledger.Base.{
  ℕ, ◌≡◌, refl, ap, ◌∙◌, Bool, Option, none, some, All, length, List, map, String, Text,
}
use eval_ledger.Contamination.Examples.{Readers, extract_examples}
use eval_ledger.Contamination.Detection.{Engine, Bundle, Progress}
use eval_ledger.Contamination.Detection.Streaming.{first_examples, summary, detect_lem}
use eval_ledger.Contamination.Reports.Recorded.{Recorded, DistinctCorpora, store_reports-Recorded}
use eval_ledger.Contamination.Reports.{
  Version, Tables, Sources, find_version, result_of, record_results, load_bundles, select_corpora,
  run_detection,
}

module _ {Bytes M : Type 0} (is_word : ℕ → Bool) (lower : Text → Text) (compute_minhash : Text → M)
    (engine : Engine) (readers : Readers Bytes) (sources : Sources Bytes M) where
  -- What a job has written: without a version nothing; for a version, one report with the results of
  -- the pass on each corpus, and nothing in the table of corpora.
  abbrev pub Written :
      (ℕ → ℕ) → ℕ → (ℕ → ℕ) → Progress M → Option Version → Tables → Tables → Type 0
  Written ids started_at clock p none db db' = db' ≡ db
  Written ids started_at clock p (some version) db db' =
      All (Recorded engine.threshold version.id ids started_at clock p.total_examples db'.reports)
        p.tallies
      × (db'.corpora ≡ db.corpora)

  record_results-Written :
      (found : Option Version) (ids : ℕ → ℕ) (started_at : ℕ) (clock : ℕ → ℕ)
      (bundles : List (Bundle M)) (examples : List Text) (db : Tables)
      → DistinctCorpora bundles
      → let p = summary is_word lower compute_minhash engine bundles examples in
        Written ids started_at clock p found db
          (record_results engine.threshold found ids started_at clock p db)
  unfolding record_results summary
  record_results-Written none ids started_at clock bundles examples db distinct = refl
  record_results-Written (some version) ids started_at clock bundles examples db distinct = (
    store_reports-Recorded engine.threshold version.id ids started_at clock (length examples) _
        (λ b. refl) bundles db.reports distinct,
    refl,
  )

  -- A job completes if the artifact and the index of every requested corpus can be read, these corpora
  -- have different ids, the first `max_examples` examples decode, and so does what the generator reads
  -- until it yields one more or stops. It has then written, for a version, one report on each corpus,
  -- with the results of the pass over these examples, and returns these results; without a version it
  -- has written nothing.
  pub run_detection_returns :
      (artifact_name : Text) (artifact_location : String) (corpus_ids : List ℕ)
      (version_id : Option ℕ) (ids : ℕ → ℕ) (started_at : ℕ) (clock : ℕ → ℕ) (db : Tables)
      (bytes : Bytes) (bundles : List (Bundle M)) (examples : List Text)
      → sources.read_bytes artifact_location ≡ some bytes
      → load_bundles sources (select_corpora corpus_ids db.corpora) ≡ some bundles
      → first_examples engine.max_examples (extract_examples lower readers artifact_name bytes)
        ≡ some examples
      → DistinctCorpora bundles
      → let p = summary is_word lower compute_minhash engine bundles examples in
        (db' : Tables) × (run_detection is_word lower compute_minhash engine readers sources
            artifact_name artifact_location corpus_ids version_id ids started_at clock db
          ≡ some (db', map (result_of p.total_examples) p.tallies))
        × Written ids started_at clock p (find_version version_id db.versions) db db'
  unfolding run_detection
  run_detection_returns artifact_name artifact_location corpus_ids version_id ids started_at clock
        db bytes bundles examples read loaded decoded distinct =
      let stream = extract_examples lower readers artifact_name bytes in
      let pass =
        detect_lem is_word lower compute_minhash engine bundles stream
        ∙ ap (Option.map (summary is_word lower compute_minhash engine bundles)) decoded in
      let p = summary is_word lower compute_minhash engine bundles examples in
      let found = find_version version_id db.versions in
      (
        record_results engine.threshold found ids started_at clock p db,
        rw (read, loaded, pass) refl,
        record_results-Written found ids started_at clock bundles examples db distinct,
      )
