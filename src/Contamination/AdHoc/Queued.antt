-- ===== src/Contamination/AdHoc/Queued.antt =====
-- What an ad hoc check leaves behind (backend/app/routers/contamination.py).
use eval_ledger.Base.{
  ◌≡◌, refl, sym, ◌∙◌, subst, if◌then◌else◌, ◌⊎◌, inl, inr, Bool, true, false, Option, none, some,
  List, [], ◌∷◌, ◌++◌, Text, codes, Bool-cases, length,
}
use eval_ledger.Errors
use eval_ledger.Uploads.{UploadDescriptor, validate_upload_file}
use eval_ledger.Storage.{Hash, storage_reference, upload_bytes, read_bytes}
use eval_ledger.Storage.RoundTrip.{uploaded_is_readable}
use eval_ledger.Contamination.AdHoc.{
  Env, CheckForm, CheckTask, Services, Answer, answered, refused, failed, Corpus, accept, submit,
  enqueue, check_task, accepted_or_refused, run_check, selected, parse_corpus_ids,
  unavailable_response, queued, unavailable,
}

if_true : {A : Type 0} (b : Bool) (x y : A) → b ≡ true → (if b then x else y) ≡ x
if_true b x y h = rw h refl

if_false : {A : Type 0} (b : Bool) (x y : A) → b ≡ false → (if b then x else y) ≡ y
if_false b x y h = rw h refl

module _ {H : Type 0} (env : Env) (hash : Hash H) where
  -- The one task that was queued names a file of the storage with the uploaded bytes, and no version.
  pub record Queues (form : CheckForm) (services services' : Services) : Type 0 where
    pub task : CheckTask
    pub queue : services'.queue ≡ services.queue ++ task ∷ []
    pub readable : read_bytes env.storage task.location services'.store ≡ some form.artifact
    pub no_version : task.version_id ≡ none

  unfoldable pub Ended : CheckForm → Bool → Answer → Services → Services → Type 0
  Ended form authenticated (refused e) services services' =
      (services' ≡ services) × (accept env form authenticated ≡ Errors.err e)
  Ended form authenticated failed services services' = services'.queue ≡ services.queue
  Ended form authenticated (answered response) services services' =
      ((services' ≡ services) × (response.status ≡ unavailable) × (env.worker_enabled ≡ false))
      ⊎ (Queues form services services'
          × (response.status ≡ queued)
          × ((d : UploadDescriptor) × (validate_upload_file env.lower env.limits form.artifact_name
                  (length form.artifact) authenticated
                ≡ Errors.ok d)))

  submitted :
      (form : CheckForm) (authenticated : Bool) (uuid : Text) (delay : Option Text)
      (corpora : List Corpus) (descriptor : UploadDescriptor) (ids : List Text)
      (services : Services)
      → validate_upload_file env.lower env.limits form.artifact_name
          (length form.artifact)
          authenticated
        ≡ Errors.ok descriptor
      → let (answer, services') = submit env hash form uuid delay corpora descriptor ids services in
        Ended form authenticated answer services services'
  unfolding submit enqueue check_task Ended
  submitted form authenticated uuid none corpora descriptor ids services valid = refl
  submitted form authenticated uuid (some job_id) corpora descriptor ids services valid =
      let task =
        check_task env descriptor.filename
          (storage_reference env.storage.storage_backend
            (upload_bytes env.storage hash (codes "checks/adhoc") uuid descriptor.filename
              form.artifact services.store).0)
          (selected env corpora ids) in
      inr (
        record {
          task = task;
          queue = refl;
          readable =
              uploaded_is_readable env.storage hash (codes "checks/adhoc") uuid descriptor.filename
                form.artifact services.store;
          no_version = refl;
        },
        refl,
        (descriptor, valid),
      )

  valid_if_accepted :
      (form : CheckForm) (authenticated : Bool) (d : UploadDescriptor) (ids : List Text)
      → accept env form authenticated ≡ Errors.ok (d, ids)
      → validate_upload_file env.lower env.limits form.artifact_name
          (length form.artifact)
          authenticated
        ≡ Errors.ok d
  unfolding accept
  valid_if_accepted form authenticated d ids h =
      elim (Errors.Result-cases (
        validate_upload_file env.lower env.limits form.artifact_name (length form.artifact)
          authenticated)) [
            | inr (e, bad) ↦ cc (rw bad at h)
            | inl (d', good) ↦ elim (Errors.Result-cases (parse_corpus_ids env form.corpus_ids)) [
              | inr (e, bad) ↦ cc (rw (good, bad) at h)
              | inl (ids', parsed) ↦
                  let same : d' ≡ d = cc (rw (good, parsed) at h) in good ∙ rw same refl
            ]
          ]

  accepted_ends :
      (form : CheckForm) (authenticated : Bool) (uuid : Text) (delay : Option Text)
      (corpora : List Corpus) (services : Services)
      → let r =
          accepted_or_refused env hash form uuid delay corpora
            (accept env form authenticated)
            services in
        Ended form authenticated r.0 services r.1
  unfolding accepted_or_refused Ended
  accepted_ends form authenticated uuid delay corpora services =
      elim (Errors.Result-cases (accept env form authenticated)) [
        | inr (e, refusal) ↦ rw refusal (refl, refusal)
        | inl ((descriptor, ids), accepted) ↦ rw accepted (
            submitted form authenticated uuid delay corpora descriptor ids services
              (valid_if_accepted form authenticated descriptor ids accepted))
      ]

  run_check_on :
      (form : CheckForm) (authenticated : Bool) (uuid : Text) (delay : Option Text)
      (corpora : List Corpus) (services : Services)
      → env.worker_enabled ≡ true
      → run_check env hash form authenticated uuid delay corpora services
        ≡ accepted_or_refused env hash form uuid delay corpora
            (accept env form authenticated)
            services
  unfolding run_check
  run_check_on form authenticated uuid delay corpora services h = if_true _ _ _ h

  run_check_off :
      (form : CheckForm) (authenticated : Bool) (uuid : Text) (delay : Option Text)
      (corpora : List Corpus) (services : Services)
      → env.worker_enabled ≡ false
      → run_check env hash form authenticated uuid delay corpora services
        ≡ (answered (unavailable_response env form), services)
  unfolding run_check
  run_check_off form authenticated uuid delay corpora services h = if_false _ _ _ h

  -- An ad hoc check is refused, with the error that validation of its file and its corpus ids gives, and
  -- then changes neither storage nor queue; or it is answered, without such a change either, as
  -- unavailable, and there are no workers; or it is answered as queued, and then it has queued one task,
  -- which names no version and a file of the storage whose contents are the upload, which passed
  -- validation; or the broker failed, and nothing is queued.
  pub run_check_lem :
      (form : CheckForm) (authenticated : Bool) (uuid : Text) (delay : Option Text)
      (corpora : List Corpus) (services : Services)
      → let (answer, services') =
          run_check env hash form authenticated uuid delay corpora services in
        Ended form authenticated answer services services'
  unfolding Ended
  run_check_lem form authenticated uuid delay corpora services =
      elim (Bool-cases env.worker_enabled) [
        | inr off ↦
            subst (λ r. Ended form authenticated r.0 services r.1)
              (sym (run_check_off form authenticated uuid delay corpora services off))
              (inl (refl, refl, off))
        | inl on ↦
            subst (λ r. Ended form authenticated r.0 services r.1)
              (sym (run_check_on form authenticated uuid delay corpora services on))
              (accepted_ends form authenticated uuid delay corpora services)
      ]
