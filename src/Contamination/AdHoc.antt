-- ===== src/Contamination/AdHoc.antt =====
-- Checks of an artifact that belongs to no version: backend/app/routers/contamination.py. The rate limit
-- comes before a handler and is not part of it. Celery's `delay` answers with a task id or (none) raises;
-- `precedes` is the database's order of names.
pub mod Queued
use eval_ledger.Base.{
  ℕ, zero, suc, ◌+◌, ◌≡◌, Bool, true, false, not, Option, none, some, List, [], ◌∷◌, ◌++◌, map,
  filter, String, Text, codes, is_empty, if◌then◌else◌, length, starts_with, split, stripped_items,
  or_else, path_name, is_some,
}
use eval_ledger.Errors
use eval_ledger.Errors.{AppError, app_error, ◌>>=◌, ◌>>◌}
use eval_ledger.Uploads.{Limits, UploadDescriptor, validate_upload_file, given_name}
use eval_ledger.Storage
use eval_ledger.Storage.{Store, Hash, Backend, storage_reference, upload_bytes}
use eval_ledger.Contamination.Shingles.{is_nil}
use eval_ledger.Contamination.JsonFile.{
  Value, null, float, int, str, arr, obj, Values, nil, cons, Members, Document, to_str,
}

-- A row of reference_corpora, as far as it is listed.
pub record Corpus : Type 0 where
  pub id : ℕ
  pub name : Text
  pub is_active : Bool

-- A queued call of `run_contamination_check`.
pub record CheckTask : Type 0 where
  pub filename : Text
  pub location : Text
  pub corpus_ids : List Text
  pub version_id : Option ℕ

-- Object storage and the queue.
pub record Services : Type 0 where
  pub store : Store
  pub queue : List CheckTask

pub data CheckStatus : Type 0 where
  unavailable queued : CheckStatus

pub record CheckResponse : Type 0 where
  pub job_id : Text
  pub status : CheckStatus
  pub filename : Text
  pub corpus_ids : List Text

-- The handler answers, refuses with an AppError, or fails with an exception that it does not expect.
pub data Answer : Type 0 where
  answered : CheckResponse → Answer
  refused : AppError → Answer
  failed : Answer

-- The form: the file's name and contents, and the list of corpora.
pub record CheckForm : Type 0 where
  pub artifact_name : Option Text
  pub artifact : Text
  pub corpus_ids : Option Text

pub record Env : Type 0 where
  pub worker_enabled : Bool
  pub limits : Limits
  pub storage : Storage.Settings
  pub lower : Text → Text
  pub document : Document Text
  pub show_id : ℕ → Text
  pub precedes : Text → Text → Bool

abbrev pub invalid_corpora : AppError
invalid_corpora = app_error "invalid_corpora" 400

-- Insertion into a list in the order of names; rows of one name stay in the order of the table.
unfoldable pub insert_by : (Text → Text → Bool) → Corpus → List Corpus → List Corpus
insert_by precedes corpus [] = corpus ∷ []
insert_by precedes corpus (c ∷ cs) =
    let rest = insert_by precedes corpus cs in
    if precedes c.name corpus.name then c ∷ rest else corpus ∷ c ∷ cs

unfoldable pub order_by_name : (Text → Text → Bool) → List Corpus → List Corpus
unfolding insert_by
order_by_name precedes [] = []
order_by_name precedes (c ∷ cs) = insert_by precedes c (order_by_name precedes cs)

module _ (env : Env) where
  unfoldable pub texts_of : Values → List Text
  unfolding to_str
  texts_of nil = []
  texts_of (cons v values) = to_str env.document v ∷ texts_of values

  unfoldable pub ids_of_json : Option Value → Errors.Result (List Text)
  unfolding texts_of
  ids_of_json (some (arr values)) = Errors.ok (texts_of values)
  ids_of_json _ = Errors.err invalid_corpora

  unfoldable pub parse_raw_ids : Text → Errors.Result (List Text)
  unfolding ids_of_json
  parse_raw_ids raw_value =
      if is_empty raw_value
      then Errors.ok []
      else if starts_with (codes "[") raw_value
      then ids_of_json (env.document.loads raw_value)
      else Errors.ok (stripped_items (split b',' raw_value))

  -- `_parse_corpus_ids`
  unfoldable pub parse_corpus_ids : Option Text → Errors.Result (List Text)
  unfolding parse_raw_ids
  parse_corpus_ids none = Errors.ok []
  parse_corpus_ids (some raw_value) = parse_raw_ids raw_value

  unfoldable pub list_corpora : List Corpus → List Corpus
  unfolding order_by_name
  list_corpora corpora = order_by_name env.precedes (filter (λ c. c.is_active) corpora)

  -- All active corpora, if the form selects none.
  unfoldable pub selected : List Corpus → List Text → List Text
  unfolding list_corpora
  selected corpora ids =
      if is_nil ids then map (λ c. env.show_id c.id) (list_corpora corpora) else ids

  -- What comes before the upload.
  unfoldable pub accept : CheckForm → Bool → Errors.Result (UploadDescriptor × List Text)
  unfolding parse_corpus_ids
  accept form authenticated = do
    descriptor ←
        validate_upload_file env.lower env.limits form.artifact_name (length form.artifact)
          authenticated
    ids ← parse_corpus_ids form.corpus_ids
    Errors.ok (descriptor, ids)

  unfoldable pub check_task : Text → Text → List Text → CheckTask
  check_task filename location ids = record {
    filename = if is_empty filename then path_name location else filename;
    location = location;
    corpus_ids = ids;
    version_id = none;
  }

  unfoldable pub enqueue :
      Option Text → CheckTask → Text → Store → List CheckTask → Answer × Services
  enqueue none task filename store queue = (failed, record { store = store; queue = queue })
  enqueue (some job_id) task filename store queue = (
    answered (record {
      job_id = job_id;
      status = queued;
      filename = filename;
      corpus_ids = task.corpus_ids;
    }),
    record { store = store; queue = queue ++ task ∷ [] },
  )

  abbrev pub unavailable_response : CheckForm → CheckResponse
  unavailable_response form = record {
    job_id = [];
    status = unavailable;
    filename = elim form.artifact_name [
      | none ↦ codes "unknown"
      | some name ↦ if is_empty name then codes "unknown" else name
    ];
    corpus_ids = [];
  }

  module _ {H : Type 0} (hash : Hash H) where
    unfoldable pub submit :
        CheckForm
        → Text
        → Option Text
        → List Corpus
        → UploadDescriptor
        → List Text
        → Services
        → Answer × Services
    unfolding enqueue check_task selected
    submit form uuid delay corpora descriptor ids services =
        let (stored, store') =
          upload_bytes env.storage hash (codes "checks/adhoc") uuid descriptor.filename
            form.artifact services.store in
        let location = storage_reference env.storage.storage_backend stored in
        enqueue delay (check_task descriptor.filename location (selected corpora ids))
          descriptor.filename store' services.queue

    unfoldable pub accepted_or_refused :
        CheckForm
        → Text
        → Option Text
        → List Corpus
        → Errors.Result (UploadDescriptor × List Text)
        → Services
        → Answer × Services
    unfolding submit
    accepted_or_refused form uuid delay corpora (Errors.err e) services = (refused e, services)
    accepted_or_refused form uuid delay corpora (Errors.ok (descriptor, ids)) services =
        submit form uuid delay corpora descriptor ids services

    unfoldable pub run_check :
        CheckForm → Bool → Text → Option Text → List Corpus → Services → Answer × Services
    unfolding accept accepted_or_refused
    run_check form authenticated uuid delay corpora services =
        if env.worker_enabled
        then accepted_or_refused form uuid delay corpora (accept form authenticated) services
        else (answered (unavailable_response form), services)

-- What Celery's result backend says of a job: the state, and its result or error.
pub data JobResult : Type 0 where
  failure : Text → JobResult
  success : Text → JobResult
  other_state : Text → JobResult

pub record JobStatus : Type 0 where
  pub status : Text
  pub result : Option Text
  pub error : Option Text

unfoldable pub get_job_status : Bool → (Text → Text) → JobResult → JobStatus
get_job_status false lower r = record {
  status = codes "unavailable";
  result = none;
  error = some (codes "Background processing is not available on the current deployment.");
}
get_job_status true lower (failure e) = record {
  status = codes "failed";
  result = none;
  error = some e;
}
get_job_status true lower (success r) = record {
  status = codes "completed";
  result = some r;
  error = none;
}
get_job_status true lower (other_state s) = record { status = lower s; result = none; error = none }
