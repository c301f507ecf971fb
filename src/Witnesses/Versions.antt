-- ===== src/Witnesses/Versions.antt =====
-- Submissions of versions.
use eval_ledger.Base.{
  ◌≡◌, refl, true, false, none, some, [], ◌∷◌, ◌++◌, if◌then◌else◌, codes, select, strip, path_name,
  suffix_of, any,
}
use eval_ledger.Witnesses.Services.{lower}
use eval_ledger.Errors
use eval_ledger.Uploads.{
  validate_upload_file, validate_upload_name, is_unsafe_name, is_allowed_suffix,
}
use eval_ledger.Errors.{Raised, app, unexpected}
use eval_ledger.Contamination.Classify.{pending, unchecked}
use eval_ledger.Registry.Db.{Benchmark, BenchmarkVersion, has_slug, is_version_of}
use eval_ledger.Registry.Session.{visible, returns, raises, request}
use eval_ledger.Registry.Versions.{
  Env, VersionForm, StoredArtifact, malformed, create_version, invalid_metadata,
  invalid_release_date, parse_released_at, admit, insert_version, parse_json_field, version_record,
  version_task, may_submit,
}
use eval_ledger.Registry.Versions.Refusals.{create_version_refused}
use eval_ledger.Registry.Versions.Acceptance.{Acceptable}
use eval_ledger.Registry.Versions.Broker.{broker_failure_keeps_version}
use eval_ledger.Registry.Versions.Success.{create_version_returned}
use eval_ledger.Registry.Versions.Orphan.{invalid_release_date_orphans}
use eval_ledger.Witnesses.Rows.{alice, suite, db, world}

abbrev artifact : StoredArtifact
artifact = record { storage_reference = "s3://a1"; sha256 = "ab"; size_bytes = 50 }

abbrev env : Env
env = record {
  limits = record {
    allowed_artifact_extensions = codes ".jsonl" ∷ [];
    max_authenticated_upload_bytes = 1000;
    max_public_upload_bytes = 100;
  };
  worker_enabled = true;
  lower = lower;
  is_semver = λ v. true;
  loads = λ raw. malformed;
  parse_iso = λ raw. none;
  stored = some artifact;
  delete_works = true;
  delay_works = true;
  citation = λ b v. "citation";
}

abbrev form : VersionForm
form = record {
  version = "1.0.0";
  artifact_name = some (codes "set.jsonl");
  artifact_size = 50;
  num_examples = some 3;
  splits = none;
  language = none;
  license = none;
  paper_url = none;
  paper_arxiv_id = none;
  github_url = none;
  metadata = none;
  release_notes = none;
  released_at = none;
}

abbrev bad_metadata : VersionForm
bad_metadata = record form { metadata = some (codes "{") }

abbrev bad_date : VersionForm
bad_date = record form { released_at = some (codes "soon") }

refused_late :
    (request (create_version env 9 100 bad_metadata alice "suite") world).0
    ≡ raises (app invalid_metadata)
unfolding request create_version validate_upload_file validate_upload_name is_unsafe_name strip
    path_name is_allowed_suffix suffix_of parse_released_at insert_version parse_json_field
refused_late = refl

no_date : parse_released_at env none ≡ Errors.ok none
unfolding parse_released_at
no_date = refl

create_version_refused_example :
    visible (request (create_version env 9 100 bad_metadata alice "suite") world).1 ≡ visible world
create_version_refused_example =
    create_version_refused env 9 100 bad_metadata alice "suite" world (app invalid_metadata) none
      refl refl no_date (λ stored e. refl) refused_late

acceptable : Acceptable env 9 100 form alice "suite" world suite
unfolding validate_upload_file validate_upload_name is_unsafe_name strip path_name is_allowed_suffix
    suffix_of
acceptable = record {
  found = refl;
  allowed = refl;
  semver = refl;
  new_name = refl;
  in_range = refl;
  descriptor = record { filename = codes "set.jsonl"; suffix = codes ".jsonl"; size_bytes = 50 };
  valid = refl;
}

-- The same deployment while the broker is down.
abbrev down : Env
down = record env { delay_works = false }

down_no_date : parse_released_at down none ≡ Errors.ok none
unfolding parse_released_at
down_no_date = refl

down_no_field : parse_json_field down none ≡ Errors.ok none
unfolding parse_json_field
down_no_field = refl

down-Acceptable : Acceptable down 9 100 form alice "suite" world suite
down-Acceptable = record {
  found = refl;
  allowed = refl;
  semver = refl;
  new_name = refl;
  in_range = refl;
  descriptor = acceptable.descriptor;
  valid = acceptable.valid;
}

broker_failure_keeps_version_example :
    let (r, w') = request (create_version down 9 100 form alice "suite") world in
    (kept : BenchmarkVersion) × (r ≡ raises unexpected)
    × (w'.committed.versions ≡ db.versions ++ kept ∷ [])
    × (kept.contamination_status ≡ pending)
    × (kept.artifact_url ≡ some "s3://a1")
    × (w'.objects ≡ [] ++ "s3://a1" ∷ [])
    × (w'.tasks ≡ [])
broker_failure_keeps_version_example =
    broker_failure_keeps_version down 9 100 form alice "suite" world suite artifact none none none
      down-Acceptable refl down_no_date down_no_field down_no_field refl refl

abbrev row : BenchmarkVersion
row = version_record env 9 100 form alice suite artifact none none none

submitted : (request (create_version env 9 100 form alice "suite") world).0 ≡ returns row
unfolding request create_version validate_upload_file validate_upload_name is_unsafe_name strip
    path_name is_allowed_suffix suffix_of parse_released_at insert_version parse_json_field
submitted = refl

create_version_returned_example :
    let w' = (request (create_version env 9 100 form alice "suite") world).1 in
    (b : Benchmark) × (stored : StoredArtifact) × (select (has_slug "suite") db.benchmarks ≡ some b)
    × (may_submit alice b ≡ true)
    × (any (is_version_of b.id "1.0.0") db.versions ≡ false)
    × (some artifact ≡ some stored)
    × (w'.committed.versions ≡ db.versions ++ row ∷ [])
    × (w'.objects ≡ [] ++ stored.storage_reference ∷ [])
    × (w'.tasks ≡ (if true then [] ++ version_task stored row ∷ [] else []))
    × (row.artifact_sha256 ≡ some stored.sha256)
    × (row.artifact_url ≡ some stored.storage_reference)
    × (row.contamination_status ≡ (if true then pending else unchecked))
create_version_returned_example =
    create_version_returned env 9 100 form alice "suite" world row submitted

admitted :
    (admit env 9 100 bad_date alice "suite" (record world { working = db })).0 ≡ returns suite
unfolding admit validate_upload_file validate_upload_name is_unsafe_name strip path_name
    is_allowed_suffix suffix_of
admitted = refl

not_a_date : parse_released_at env (some (codes "soon")) ≡ Errors.err invalid_release_date
unfolding parse_released_at
not_a_date = refl

invalid_release_date_orphans_example :
    let (r, w') = request (create_version env 9 100 bad_date alice "suite") world in
    (r ≡ raises (app invalid_release_date))
    × (w'.committed ≡ db)
    × (w'.tasks ≡ [])
    × (w'.objects ≡ [] ++ "s3://a1" ∷ [])
invalid_release_date_orphans_example =
    invalid_release_date_orphans env 9 100 bad_date alice "suite" world suite artifact
      invalid_release_date admitted refl not_a_date
