-- ===== src/Scripts/Artifacts.antt =====
-- The reconciliation of the database with the object storage: backend/app/scripts/check_artifacts.py.
pub mod Reconciled
use eval_ledger.Base.{
  ℕ, zero, suc, ◌+◌, Bool, true, false, not, ◌&&◌, ◌||◌, Option, none, some, List, [], ◌∷◌, ◌++◌,
  map, Text, codes, text_eq, is_empty, if◌then◌else◌, ◌==◌,
}

pub data Kind : Type 0 where
  benchmark_version corpus_index : Kind

pub record ArtifactEntry : Type 0 where
  pub kind : Kind
  pub ref_id : Text
  pub storage_key : Text
  pub exists : Bool
  pub error : Text

pub record ReconciliationReport : Type 0 where
  pub total : ℕ
  pub found : ℕ
  pub missing : ℕ
  pub errors : ℕ
  pub missing_entries : List ArtifactEntry
  pub error_entries : List ArtifactEntry

abbrev pub empty_report : ReconciliationReport
empty_report = record {
  total = 0;
  found = 0;
  missing = 0;
  errors = 0;
  missing_entries = [];
  error_entries = [];
}

-- `ReconciliationReport.add`
unfoldable pub add : ArtifactEntry → ReconciliationReport → ReconciliationReport
add entry report =
    if not (is_empty entry.error)
    then record report {
      total = report.total + 1;
      errors = report.errors + 1;
      error_entries = report.error_entries ++ entry ∷ [];
    }
    else if entry.exists
    then record report { total = report.total + 1; found = report.found + 1 }
    else record report {
      total = report.total + 1;
      missing = report.missing + 1;
      missing_entries = report.missing_entries ++ entry ∷ [];
    }

unfoldable pub is_ok : ReconciliationReport → Bool
is_ok report = (report.missing == 0) && (report.errors == 0)

-- The answer to `head_object`: it is there, a ClientError with its code and its description, or another
-- exception with its text.
pub data Head : Type 0 where
  head_ok : Head
  client_error : Text → Text → Head
  other_error : Text → Head

-- `Path.exists`, or the text of its exception.
pub data Stat : Type 0 where
  stat : Bool → Stat
  stat_error : Text → Stat

unfoldable pub check_s3_key : Head → Bool × Text
check_s3_key head_ok = (true, [])
check_s3_key (client_error code message) =
    if text_eq code (codes "404") || text_eq code (codes "NoSuchKey")
    then (false, [])
    else (false, codes "S3 error " ++ code ++ codes ": " ++ message)
check_s3_key (other_error text) = (false, text)

unfoldable pub check_local_path : Stat → Bool × Text
check_local_path (stat exists) = (exists, [])
check_local_path (stat_error text) = (false, text)

-- The storage that the environment names. `boto3.client` may raise.
pub data Storage : Type 0 where
  local_files : (Text → Stat) → Storage
  s3_bucket : (Text → Head) → Storage

unfoldable pub check_key : Storage → Text → Bool × Text
unfolding check_s3_key check_local_path
check_key (local_files stat_of) key = check_local_path (stat_of key)
check_key (s3_bucket head_of) key = check_s3_key (head_of key)

unfoldable pub entry_of : Storage → Kind × Text × Text → ArtifactEntry
unfolding check_key
entry_of storage (kind, ref_id, key) =
    let (exists, error) = check_key storage key in
    record { kind = kind; ref_id = ref_id; storage_key = key; exists = exists; error = error }

unfoldable pub add_all : List ArtifactEntry → ReconciliationReport → ReconciliationReport
unfolding add
add_all [] report = report
add_all (e ∷ entries) report = add_all entries (add e report)

unfoldable pub all_refs : List (Text × Text) → List (Text × Text) → List (Kind × Text × Text)
all_refs version_refs corpus_refs =
    map (λ (ref_id, key). (benchmark_version, ref_id, key)) version_refs
    ++ map (λ (ref_id, key). (corpus_index, ref_id, key)) corpus_refs

unfoldable pub reconcile : Storage → List (Text × Text) → List (Text × Text) → ReconciliationReport
unfolding entry_of add_all all_refs
reconcile storage version_refs corpus_refs =
    add_all (map (entry_of storage) (all_refs version_refs corpus_refs)) empty_report

-- Without a storage client, which is made for each reference, only an empty list can be checked.
unfoldable pub without_client : List (Kind × Text × Text) → ℕ
without_client [] = 0
without_client (r ∷ refs) = 2

-- The exit code. No references is a query that raises, no storage an S3 client that cannot be made.
unfoldable pub main : Option (List (Text × Text) × List (Text × Text)) → Option Storage → ℕ
unfolding reconcile is_ok without_client all_refs
main none storage = 2
main (some (version_refs, corpus_refs)) none = without_client (all_refs version_refs corpus_refs)
main (some (version_refs, corpus_refs)) (some storage) =
    if is_ok (reconcile storage version_refs corpus_refs) then 0 else 1
