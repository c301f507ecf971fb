-- ===== src/Registry/Versions/Success.antt =====
-- What a submission that is accepted has stored.
use eval_ledger.Base.{
  ℕ, ◌≡◌, refl, sym, ap, ◌∙◌, Bool, true, false, Option, some, [], ◌∷◌, ◌++◌, String, arith, select,
  any, if◌then◌else◌, Option-cases, inl, inr,
}
use eval_ledger.Errors.{AppError, Raised, app}
use eval_ledger.Errors
use eval_ledger.Contamination.Classify.{pending, unchecked}
use eval_ledger.Registry.Db.{User, Benchmark, BenchmarkVersion, has_slug, is_version_of}
use eval_ledger.Registry.Session.{
  World, Task, Visible, Outcome-cases, returns, request, pure, ◌>>◌, record_audit_event, commit,
}
use eval_ledger.Registry.Versions.{
  Env, VersionForm, StoredArtifact, admit, register, submit, create_version, insert_version,
  put_object, parse_released_at, may_submit, claim, enqueue_if, version_task,
}
use eval_ledger.Registry.Versions.Refusals.{admit-visible, upload-some, upload-none}

module _ (env : Env) (new_id now : ℕ) (form : VersionForm) (current_user : User) where
  admit-returned :
      (slug : String) (w : World) (claimed : Benchmark)
      → (admit env new_id now form current_user slug w).0 ≡ returns claimed
      → (b : Benchmark) × (select (has_slug slug) w.working.benchmarks ≡ some b)
        × (may_submit current_user b ≡ true)
        × (any (is_version_of b.id form.version) w.working.versions ≡ false)
        × (claimed ≡ claim current_user b)
        × ((admit env new_id now form current_user slug w).1.working.versions ≡ w.working.versions)
  unfolding admit
  admit-returned slug w claimed k =
      elim (Option-cases (select (has_slug slug) w.working.benchmarks)) [
        | inl missing ↦ cc (rw missing at k)
        | inr (b, found) ↦ (
          b,
          found,
          ground (arith, found, k),
          ground (arith, found, k),
          ground (arith, found, k),
          ground arith,
        )
      ]

  -- What has been stored when the row of a version is committed in a world.
  pub record Stored (b : Benchmark) (stored : StoredArtifact) (row : BenchmarkVersion)
      (w w' : World) : Type 0 where
    pub versions : w'.committed.versions ≡ w.working.versions ++ row ∷ []
    pub objects : w'.objects ≡ w.objects
    pub sha256 : row.artifact_sha256 ≡ some stored.sha256
    pub url : row.artifact_url ≡ some stored.storage_reference
    pub status : row.contamination_status ≡ (if env.worker_enabled then pending else unchecked)
    pub row_id : row.id ≡ new_id
    pub tasks : w'.tasks ≡ w.tasks

  insert_version-returned :
      (b : Benchmark) (stored : StoredArtifact) (released : Option ℕ) (w : World)
      (row : BenchmarkVersion)
      → (insert_version env new_id now form current_user b stored released w).0 ≡ returns row
      → Stored b stored row w
          (insert_version env new_id now form current_user b stored released w).1
  unfolding insert_version commit record_audit_event
  insert_version-returned b stored released w row k = record {
    versions = ground arith;
    objects = ground arith;
    sha256 = ground arith;
    url = ground arith;
    status = ground arith;
    row_id = ground arith;
    tasks = ground arith;
  }

  pub register-returned :
      (b : Benchmark) (stored : StoredArtifact) (w : World) (row : BenchmarkVersion)
      → (register env new_id now form current_user b stored w).0 ≡ returns row
      → Stored b stored row w (register env new_id now form current_user b stored w).1
  unfolding register
  register-returned b stored w row k =
      elim (Errors.Result-cases (parse_released_at env form.released_at)) [
        | inr (e, bad) ↦ cc (rw bad at k)
        | inl (released, parsed) ↦
            elim (Outcome-cases
              (insert_version env new_id now form current_user b stored released w).0) [
                | inr (e, failed) ↦ cc (rw (parsed, failed) at k)
                | inl (row', done) ↦
                    rw (parsed, done)
                      (insert_version-returned b stored released w row
                        (done ∙ rw (parsed, done) at k))
              ]
      ]

  -- The last step, if it answers, does so with the row, and has queued its check if there are workers.
  queued :
      (worker works : Bool) (task : Task) (row row' : BenchmarkVersion) (w : World)
      → ((enqueue_if worker works task >> pure row') w).0 ≡ returns row
      → (enqueue_if worker works task >> pure row') w
        ≡ (returns row', record w { tasks = if worker then w.tasks ++ task ∷ [] else w.tasks })
  queued true true task row row' w h = refl
  queued true false task row row' w h = cc
  queued false works task row row' w h = refl

  record Submitted (b : Benchmark) (stored : StoredArtifact) (row : BenchmarkVersion) (w w' : World)
      : Type 0 where
    pub versions : w'.committed.versions ≡ w.working.versions ++ row ∷ []
    pub objects : w'.objects ≡ w.objects
    pub tasks :
        w'.tasks ≡ (if env.worker_enabled then w.tasks ++ version_task stored row ∷ [] else w.tasks)
    pub sha256 : row.artifact_sha256 ≡ some stored.sha256
    pub url : row.artifact_url ≡ some stored.storage_reference
    pub status : row.contamination_status ≡ (if env.worker_enabled then pending else unchecked)

  submit-returned :
      (b : Benchmark) (stored : StoredArtifact) (w : World) (row : BenchmarkVersion)
      → (submit env new_id now form current_user b stored w).0 ≡ returns row
      → Submitted b stored row w (submit env new_id now form current_user b stored w).1
  unfolding submit
  submit-returned b stored w row k =
      let registered = register env new_id now form current_user b stored w in
      elim (Outcome-cases registered.0) [
        | inr (e, failed) ↦ cc (rw failed at k)
        | inl (row', done) ↦
            let last =
              queued env.worker_enabled env.delay_works (version_task stored row') row row'
                registered.1 (rw done at k) in
            let same : row' ≡ row = cc (rw (done, last) at k) in
            let kept = register-returned b stored w row' done in
            rw (done, last)
              (record {
                versions = kept.versions ∙ rw same;
                objects = kept.objects;
                tasks = rw (kept.tasks, same) refl;
                sha256 = ap BenchmarkVersion.artifact_sha256 (sym same) ∙ kept.sha256;
                url = ap BenchmarkVersion.artifact_url (sym same) ∙ kept.url;
                status = ap BenchmarkVersion.contamination_status (sym same) ∙ kept.status;
              })
      ]

  -- A submission that is answered with a version was for a benchmark that exists and that the caller
  -- may submit to, under a version name that it did not have; the committed table of versions has got
  -- that row and no other, with the hash and the place of the artifact that the upload stored; the
  -- object storage has got that artifact; and the check of the version is queued, and its status
  -- pending, exactly if there are workers.
  pub create_version_returned :
      (slug : String) (w : World) (row : BenchmarkVersion)
      → (request (create_version env new_id now form current_user slug) w).0 ≡ returns row
      → let w' = (request (create_version env new_id now form current_user slug) w).1 in
        (b : Benchmark) × (stored : StoredArtifact) × (select (has_slug slug) w.committed.benchmarks
          ≡ some b)
        × (may_submit current_user b ≡ true)
        × (any (is_version_of b.id form.version) w.committed.versions ≡ false)
        × (env.stored ≡ some stored)
        × (w'.committed.versions ≡ w.committed.versions ++ row ∷ [])
        × (w'.objects ≡ w.objects ++ stored.storage_reference ∷ [])
        × (w'.tasks
            ≡ (if env.worker_enabled then w.tasks ++ version_task stored row ∷ [] else w.tasks))
        × (row.artifact_sha256 ≡ some stored.sha256)
        × (row.artifact_url ≡ some stored.storage_reference)
        × (row.contamination_status ≡ (if env.worker_enabled then pending else unchecked))
  unfolding request create_version put_object
  create_version_returned slug w row k =
      let w0 : World = record w { working = w.committed } in
      let w1 = (admit env new_id now form current_user slug w0).1 in
      let seen = admit-visible env new_id now form current_user slug w0 in
      elim (Outcome-cases (admit env new_id now form current_user slug w0).0) [
        | inr (e, refused) ↦ cc (rw refused at k)
        | inl (claimed, admitted) ↦ elim (Option-cases env.stored) [
          | inl no_upload ↦
              cc (rw (admitted, upload-none env new_id now form current_user w1 no_upload) at k)
          | inr (stored, uploaded) ↦
              let step = upload-some env new_id now form current_user stored w1 uploaded in
              let (b, found, allowed, new_name, claims, kept) =
                admit-returned slug w0 claimed admitted in
              let w2 = put_object stored.storage_reference w1 in
              let sub = submit-returned claimed stored w2 row (rw (admitted, step) at k) in
              (
                b,
                stored,
                found,
                allowed,
                new_name,
                uploaded,
                rw (admitted, step) (sub.versions ∙ rw kept),
                rw (admitted, step) (sub.objects ∙ rw (ap Visible.objects seen)),
                rw (admitted, step) (sub.tasks ∙ rw (ap Visible.tasks seen)),
                sub.sha256,
                sub.url,
                sub.status,
              )
        ]
      ]
