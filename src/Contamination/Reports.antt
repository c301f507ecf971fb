-- ===== src/Contamination/Reports.antt =====
-- `_store_report`, `_load_bundle` and `run_detection` of
-- backend/app/services/contamination_engine.py, on the tables that they read and write. The clock
-- readings and the names of new rows are arguments; storage and the LSH index are `Sources`.
pub mod Upsert
pub mod Verdict
pub mod Recorded
pub mod Completion
use eval_ledger.Base.{
  ℕ, zero, suc, ◌+◌, Bool, true, false, ◌&&◌, Option, none, some, List, [], ◌∷◌, ◌++◌, map, length,
  any, filter, ◌==◌, if◌then◌else◌, String, Text, select, update_where,
}
use eval_ledger.Contamination.Score.{Score}
use eval_ledger.Contamination.Classify.{Status, overlap_score, classify, worst_status}
use eval_ledger.Contamination.Examples.{Readers, extract_examples}
use eval_ledger.Contamination.Detection.{Engine, Bundle, FlaggedExample, Tally, Progress, detect}

pub record Corpus : Type 0 where
  pub id : ℕ
  pub name : String
  pub minhash_index_path : Option String

-- A row of contamination_reports.
pub record Report : Type 0 where
  pub report_id : ℕ
  pub version_id : ℕ
  pub corpus_id : ℕ
  pub status : Status
  pub overlap : Score
  pub num_flagged_examples : ℕ
  pub flagged_examples : List FlaggedExample
  pub minhash_threshold : Score
  pub job_started_at : ℕ
  pub job_completed_at : ℕ

pub record Version : Type 0 where
  pub id : ℕ
  pub contamination_status : Status

pub record Tables : Type 0 where
  pub corpora : List Corpus
  pub versions : List Version
  pub reports : List Report

abbrev pub of_key : ℕ → ℕ → Report → Bool
of_key v c r = (r.version_id == v) && (r.corpus_id == c)

-- The columns that ON CONFLICT sets: all but the key and the row's own id.
abbrev overwrite : Report → Report → Report
overwrite new old = record new {
  report_id = old.report_id;
  version_id = old.version_id;
  corpus_id = old.corpus_id;
}

-- INSERT … ON CONFLICT (version_id, corpus_id) DO UPDATE.
unfoldable pub store_report : Report → List Report → List Report
store_report new reports =
    if any (of_key new.version_id new.corpus_id) reports
    then update_where (of_key new.version_id new.corpus_id) (overwrite new) reports
    else reports ++ new ∷ []

-- What the engine reads from outside of the database: object storage, and the corpus index that a
-- file of it holds. `none` is an exception.
pub record Sources (Bytes M : Type 0) : Type 0 where
  pub read_bytes : String → Option Bytes
  pub load_corpus_index : Bytes → Option ((M → List Text) × List (Text × Text))

-- One result of the job's payload.
pub record Result : Type 0 where
  pub result_corpus_id : ℕ
  pub result_status : Status
  pub result_overlap : Score
  pub result_num_flagged : ℕ

unfoldable pub status_of : ℕ → ℕ → Status
unfolding overlap_score classify
status_of flagged_count total_examples = classify (overlap_score flagged_count total_examples)

-- The values of the report on one bundle.
unfoldable pub report_of : {M : Type 0} → Score → ℕ → ℕ → ℕ → ℕ → ℕ → Tally M → Report
unfolding status_of
report_of threshold version new_id started_at completed_at total t = record {
  report_id = new_id;
  version_id = version;
  corpus_id = t.bundle.corpus_id;
  status = status_of t.flagged_count total;
  overlap = overlap_score t.flagged_count total;
  num_flagged_examples = t.flagged_count;
  flagged_examples = t.flagged_samples;
  minhash_threshold = threshold;
  job_started_at = started_at;
  job_completed_at = completed_at;
}

abbrev pub result_of : {M : Type 0} → ℕ → Tally M → Result
result_of total t = record {
  result_corpus_id = t.bundle.corpus_id;
  result_status = status_of t.flagged_count total;
  result_overlap = overlap_score t.flagged_count total;
  result_num_flagged = t.flagged_count;
}

-- The reports of a version on all bundles, stored in turn. `ids` names the rows that are inserted.
unfoldable pub store_reports :
    {M : Type 0}
    → Score
    → ℕ
    → (ℕ → ℕ)
    → ℕ
    → (ℕ → ℕ)
    → ℕ
    → List (Tally M)
    → List Report
    → List Report
unfolding store_report report_of
store_reports threshold version ids started_at clock total [] reports = reports
store_reports threshold version ids started_at clock total (t ∷ ts) reports =
    store_reports threshold version ids started_at clock total ts (
      store_report
        (report_of threshold version (ids t.bundle.corpus_id) started_at (clock t.bundle.corpus_id)
          total t)
        reports)

abbrev pub of_version : ℕ → Version → Bool
of_version v row = row.id == v

unfoldable pub set_status : ℕ → Status → List Version → List Version
set_status v status =
    update_where (of_version v) (λ row. record row { contamination_status = status })

-- `session.get(BenchmarkVersion, version_id)`, if a version is named.
abbrev find_version : Option ℕ → List Version → Option Version
find_version none versions = none
find_version (some v) versions = select (of_version v) versions

-- `select(ReferenceCorpus).where(ReferenceCorpus.id.in_(corpus_ids))`
abbrev pub select_corpora : List ℕ → List Corpus → List Corpus
select_corpora corpus_ids = filter (λ c. any (λ i. i == c.id) corpus_ids)

-- The writes at the end of the job: none without a version.
unfoldable pub record_results :
    {M : Type 0} → Score → Option Version → (ℕ → ℕ) → ℕ → (ℕ → ℕ) → Progress M → Tables → Tables
unfolding store_reports set_status worst_status
record_results threshold none ids started_at clock p db = db
record_results threshold (some version) ids started_at clock p db = record db {
  reports =
      store_reports threshold version.id ids started_at clock p.total_examples p.tallies db.reports;
  versions =
      set_status version.id
        (worst_status (map (λ r. r.result_status) (map (result_of p.total_examples) p.tallies)))
        db.versions;
}

module _ {Bytes M : Type 0} (sources : Sources Bytes M) where
  bundle_of : Corpus → Option ((M → List Text) × List (Text × Text)) → Option (Bundle M)
  bundle_of corpus none = none
  bundle_of corpus (some (query, entries)) = some (record {
    corpus_id = corpus.id;
    corpus_name = corpus.name;
    lsh_query = query;
    entries = entries;
  })

  load_index : Corpus → Option Bytes → Option (Bundle M)
  unfolding bundle_of
  load_index corpus none = none
  load_index corpus (some raw_bytes) = bundle_of corpus (sources.load_corpus_index raw_bytes)

  -- A corpus without an index has the empty one.
  load_bundle : Corpus → Option (Bundle M)
  unfolding load_index bundle_of
  load_bundle corpus = elim corpus.minhash_index_path [
    | none ↦ bundle_of corpus (some (λ m. [], []))
    | some path ↦ load_index corpus (sources.read_bytes path)
  ]

  cons_bundle : Option (Bundle M) → Option (List (Bundle M)) → Option (List (Bundle M))
  cons_bundle none bs = none
  cons_bundle (some b) none = none
  cons_bundle (some b) (some bs) = some (b ∷ bs)

  unfoldable pub load_bundles : List Corpus → Option (List (Bundle M))
  unfolding load_bundle cons_bundle
  load_bundles [] = some []
  load_bundles (c ∷ cs) = cons_bundle (load_bundle c) (load_bundles cs)

abbrev pub ◌>>=◌ {ℓ κ} : {A : Type ℓ} {B : Type κ} → Option A → (A → Option B) → Option B
none >>= f = none
some a >>= f = f a

infixl 5 ◌>>=◌
module _ {Bytes M : Type 0} (is_word : ℕ → Bool) (lower : Text → Text) (compute_minhash : Text → M)
    (engine : Engine) (readers : Readers Bytes) (sources : Sources Bytes M) where
  -- `none` is an exception: the session is dropped and nothing is written.
  unfoldable pub run_detection :
      Text
      → String
      → List ℕ
      → Option ℕ
      → (ℕ → ℕ)
      → ℕ
      → (ℕ → ℕ)
      → Tables
      → Option (Tables × List Result)
  unfolding load_bundles record_results detect extract_examples
  run_detection artifact_name artifact_location corpus_ids version_id ids started_at clock db = do
    artifact_bytes ← sources.read_bytes artifact_location
    bundles ← load_bundles sources (select_corpora corpus_ids db.corpora)
    let version = find_version version_id db.versions
    p ←
        detect is_word lower compute_minhash engine bundles
          (extract_examples lower readers artifact_name artifact_bytes)
    some (
      record_results engine.threshold version ids started_at clock p db,
      map (result_of p.total_examples) p.tallies,
    )
