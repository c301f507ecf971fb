-- ===== src/Registry/Versions.antt =====
-- `create_version` of backend/app/routers/versions.py, with `_parse_json_field` and
-- `_parse_language_field`.
pub mod Refusals
pub mod Success
pub mod Orphan
pub mod Acceptance
pub mod Broker
use eval_ledger.Base.{
  ℕ, zero, suc, ◌+◌, ◌≡◌, refl, Bool, true, false, not, ◌&&◌, ◌||◌, Option, none, some, List, [],
  ◌∷◌, ◌++◌, String, str_eq, str_append, if◌then◌else◌, select, update_where, any, filter, ◌==◌,
  is_some, ltb, Text, split, stripped_items, strip, is_empty,
}
use eval_ledger.Errors.{AppError, Raised, app_error, app, integrity, unexpected}
use eval_ledger.Errors
use eval_ledger.Contamination.Classify.{Status, pending, unchecked}
use eval_ledger.Uploads.{Limits, UploadDescriptor, validate_upload_file}
use eval_ledger.Registry.Db.{
  Db, User, Benchmark, BenchmarkVersion, VersionMetadata, AuditEvent, has_slug, benchmark_has_id,
  is_version_of,
}
use eval_ledger.Registry.Session.{
  World, Task, Outcome, returns, raises, Action, pure, raise, lift, require, ensure, query, write,
  insert_unless, commit, record_audit_event, ◌>>=◌, ◌>>◌,
}
use eval_ledger.Registry.Auth.{forbidden}
use eval_ledger.Registry.Benchmarks.{benchmark_not_found}

-- `json.loads` on a form field: not JSON, an object, or another value.
pub data JsonField : Type 0 where
  malformed json_object other_value : JsonField

-- The form of the request. The file is its name and its size.
pub record VersionForm : Type 0 where
  pub version : String
  pub artifact_name : Option Text
  pub artifact_size : ℕ
  pub num_examples : Option ℕ
  pub splits : Option Text
  pub language : Option Text
  pub license : Option String
  pub paper_url : Option String
  pub paper_arxiv_id : Option String
  pub github_url : Option String
  pub metadata : Option Text
  pub release_notes : Option String
  pub released_at : Option Text

-- What `StorageService.upload_upload_file` answers.
pub record StoredArtifact : Type 0 where
  pub storage_reference : String
  pub sha256 : String
  pub size_bytes : ℕ

-- Settings, and what the handler calls outside of the program: semver, json, ISO dates, the storage
-- service (`stored` is none if the upload raises), whether its DELETE works, and whether the message
-- broker of Celery takes a task.
pub record Env : Type 0 where
  pub limits : Limits
  pub worker_enabled : Bool
  pub lower : Text → Text
  pub is_semver : String → Bool
  pub loads : Text → JsonField
  pub parse_iso : Text → Option ℕ
  pub stored : Option StoredArtifact
  pub delete_works : Bool
  pub delay_works : Bool
  pub citation : Benchmark → String → String

abbrev pub invalid_version : AppError
invalid_version = app_error "invalid_version" 400

abbrev pub version_exists : AppError
version_exists = app_error "version_exists" 409

abbrev pub invalid_metadata : AppError
invalid_metadata = app_error "invalid_metadata" 400

abbrev pub invalid_release_date : AppError
invalid_release_date = app_error "invalid_release_date" 400

module _ (env : Env) where
  -- A blank field counts as absent.
  unfoldable pub parse_json_field : Option Text → Errors.Result (Option Text)
  parse_json_field none = Errors.ok none
  parse_json_field (some raw) =
      if is_empty (strip raw) then Errors.ok none else elim (env.loads raw) [
        | malformed ↦ Errors.err invalid_metadata
        | other_value ↦ Errors.err invalid_metadata
        | json_object ↦ Errors.ok (some raw)
      ]

  unfoldable pub parse_language_field : Option Text → Option (List Text)
  parse_language_field none = none
  parse_language_field (some raw) =
      if is_empty (strip raw) then none else some (stripped_items (split b',' raw))

  unfoldable pub parse_released_at : Option Text → Errors.Result (Option ℕ)
  parse_released_at none = Errors.ok none
  parse_released_at (some raw) = if is_empty raw then Errors.ok none else elim (env.parse_iso raw) [
    | none ↦ Errors.err invalid_release_date
    | some t ↦ Errors.ok (some t)
  ]

-- An ownerless benchmark becomes the caller's; otherwise the caller is its owner or an admin.
abbrev pub may_submit : User → Benchmark → Bool
may_submit user b = elim b.submitter_id [ none ↦ true | some i ↦ (i == user.id) || user.is_admin ]

abbrev pub claim : User → Benchmark → Benchmark
claim user b = record b {
  submitter_id = elim b.submitter_id [ none ↦ some user.id | some i ↦ some i ];
}

abbrev pub update_benchmark_row : ℕ → (Benchmark → Benchmark) → Db → Db
update_benchmark_row i f db = record db {
  benchmarks = update_where (benchmark_has_id i) f db.benchmarks;
}

-- `try: body except Exception: cleanup; raise`
module _ {A : Type 0} where
  abbrev recover : Outcome A → (World → World) → Action A
  recover (returns a) cleanup w = (returns a, w)
  recover (raises e) cleanup w = (raises e, cleanup w)

  abbrev pub rescue : Action A → (World → World) → Action A
  rescue body cleanup w = let (r, w') = body w in recover r cleanup w'

unfoldable pub put_object : String → World → World
put_object reference w = record w { objects = w.objects ++ reference ∷ [] }

-- `storage_service.delete`, whose own failure is logged and swallowed.
unfoldable pub delete_object : Bool → String → World → World
delete_object works reference w =
    if works then record w { objects = filter (λ o. not (str_eq o reference)) w.objects } else w

-- `if settings.worker_enabled: run_contamination_check.delay(location, version_id)`, where `delay` raises
-- if the broker does not take the task.
abbrev pub enqueue_if : Bool → Bool → Task → Action Unit
enqueue_if false works task w = (returns tt, w)
enqueue_if true false task w = (raises unexpected, w)
enqueue_if true true task w = (returns tt, record w { tasks = w.tasks ++ task ∷ [] })

-- `num_examples` is an Integer column of 32 bits; the driver refuses a larger number.
abbrev pub fits_integer : Option ℕ → Bool
fits_integer none = true
fits_integer (some n) = ltb n 2147483648

abbrev pub refuse_unless : Bool → Action Unit
refuse_unless true w = (returns tt, w)
refuse_unless false w = (raises unexpected, w)

abbrev pub version_task : StoredArtifact → BenchmarkVersion → Task
version_task stored row = record {
  artifact_location = stored.storage_reference;
  version_id = some row.id;
}

module _ (env : Env) (new_id now : ℕ) (form : VersionForm) (current_user : User) where
  abbrev pub version_event : Benchmark → BenchmarkVersion → AuditEvent
  version_event benchmark version = record {
    actor_user_id = some current_user.id;
    benchmark_id = some benchmark.id;
    version_id = some version.id;
    action = "version.created";
    resource_type = "version";
    resource_id = some version.id;
    resource_slug = some (str_append benchmark.slug (str_append ":" version.version));
  }

  abbrev pub version_record :
      Benchmark → StoredArtifact → Option ℕ → Option Text → Option Text → BenchmarkVersion
  version_record benchmark stored released_at splits metadata = record {
    id = new_id;
    benchmark_id = benchmark.id;
    version = form.version;
    artifact_sha256 = some stored.sha256;
    artifact_url = some stored.storage_reference;
    artifact_size_bytes = some stored.size_bytes;
    details = record {
      num_examples = form.num_examples;
      splits = splits;
      language = parse_language_field env form.language;
      license = form.license;
      paper_url = form.paper_url;
      paper_arxiv_id = form.paper_arxiv_id;
      github_url = form.github_url;
      metadata_json = metadata;
      release_notes = form.release_notes;
    };
    citation_string = some (env.citation benchmark form.version);
    released_at = released_at;
    created_at = now;
    submitter_id = some current_user.id;
    contamination_status = if env.worker_enabled then pending else unchecked;
  }

  -- The body of the `try`. (benchmark_id, version) is a unique pair of columns.
  unfoldable pub insert_version : Benchmark → StoredArtifact → Option ℕ → Action BenchmarkVersion
  unfolding record_audit_event commit
  insert_version benchmark stored released_at = do
    splits ← lift (parse_json_field env form.splits)
    metadata ← lift (parse_json_field env form.metadata)
    let row = version_record benchmark stored released_at splits metadata
    taken ← query (λ db. any (is_version_of benchmark.id form.version) db.versions)
    refuse_unless (fits_integer form.num_examples)
    insert_unless taken (λ db. record db { versions = db.versions ++ row ∷ [] })
    write (
        update_benchmark_row benchmark.id (λ b. record b { total_versions = b.total_versions + 1 }))
    record_audit_event (version_event benchmark row)
    commit
    pure row

  -- What comes before the upload: it reads, and writes only to the transaction.
  unfoldable pub admit : String → Action Benchmark
  admit slug = do
    found ← query (λ db. select (has_slug slug) db.benchmarks)
    benchmark ← require found benchmark_not_found
    ensure (may_submit current_user benchmark) forbidden
    write (update_benchmark_row benchmark.id (claim current_user))
    ensure (env.is_semver form.version) invalid_version
    existing ← query (λ db. any (is_version_of benchmark.id form.version) db.versions)
    ensure (not existing) version_exists
    lift (validate_upload_file env.lower env.limits form.artifact_name form.artifact_size true)
    pure (claim current_user benchmark)

  unfoldable pub upload : Action StoredArtifact
  unfolding put_object
  upload w = elim env.stored [
    | none ↦ (raises unexpected, w)
    | some stored ↦ (returns stored, put_object stored.storage_reference w)
  ]

  -- Note that `released_at` is parsed after the upload and before the `try`.
  unfoldable pub register : Benchmark → StoredArtifact → Action BenchmarkVersion
  register benchmark stored = do
    released_at ← lift (parse_released_at env form.released_at)
    rescue (insert_version benchmark stored released_at)
        (delete_object env.delete_works stored.storage_reference)

  -- What follows the upload.
  unfoldable pub submit : Benchmark → StoredArtifact → Action BenchmarkVersion
  unfolding register
  submit benchmark stored = do
    row ← register benchmark stored
    enqueue_if env.worker_enabled env.delay_works (version_task stored row)
    pure row

  unfoldable pub create_version : String → Action BenchmarkVersion
  unfolding admit submit upload
  create_version slug = do benchmark ← admit slug; stored ← upload; submit benchmark stored
