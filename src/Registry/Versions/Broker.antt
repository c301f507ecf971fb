-- ===== src/Registry/Versions/Broker.antt =====
-- What a broker that does not take the check of a version leaves.
use eval_ledger.Base.{ℕ, ◌≡◌, refl, ◌∙◌, true, false, Option, some, [], ◌∷◌, ◌++◌, String, Text}
use eval_ledger.Errors
use eval_ledger.Errors.{unexpected}
use eval_ledger.Contamination.Classify.{pending}
use eval_ledger.Registry.Db.{User, Benchmark, BenchmarkVersion}
use eval_ledger.Registry.Session.{World, raises, returns, request}
use eval_ledger.Registry.Versions.{
  Env, VersionForm, StoredArtifact, register, submit, create_version, put_object, claim,
  parse_released_at, parse_json_field, version_record, update_benchmark_row,
}
use eval_ledger.Registry.Versions.Refusals.{upload-some}
use eval_ledger.Registry.Versions.Success.{register-returned}
use eval_ledger.Registry.Versions.Acceptance.{Acceptable, admit-accepts, register-accepts}

module _ (env : Env) (new_id now : ℕ) (form : VersionForm) (current_user : User) where
  submit_raises :
      (b : Benchmark) (stored : StoredArtifact) (row : BenchmarkVersion) (w : World)
      → env.worker_enabled ≡ true
      → env.delay_works ≡ false
      → (register env new_id now form current_user b stored w).0 ≡ returns row
      → submit env new_id now form current_user b stored w
        ≡ (raises unexpected, (register env new_id now form current_user b stored w).1)
  unfolding submit
  submit_raises b stored row w on down done = rw (done, on, down) refl

  -- A submission that meets every condition, on a deployment with workers whose broker does not take
  -- the task, raises; and yet its row is committed, with the status pending, and its artifact is kept,
  -- while no check of it is queued.
  pub broker_failure_keeps_version :
      (slug : String) (w : World) (b : Benchmark) (stored : StoredArtifact) (released : Option ℕ)
      (splits metadata : Option Text)
      → Acceptable env new_id now form current_user slug w b
      → env.stored ≡ some stored
      → parse_released_at env form.released_at ≡ Errors.ok released
      → parse_json_field env form.splits ≡ Errors.ok splits
      → parse_json_field env form.metadata ≡ Errors.ok metadata
      → env.worker_enabled ≡ true
      → env.delay_works ≡ false
      → let (r, w') = request (create_version env new_id now form current_user slug) w in
        (row : BenchmarkVersion) × (r ≡ raises unexpected)
        × (w'.committed.versions ≡ w.committed.versions ++ row ∷ [])
        × (row.contamination_status ≡ pending)
        × (row.artifact_url ≡ some stored.storage_reference)
        × (w'.objects ≡ w.objects ++ stored.storage_reference ∷ [])
        × (w'.tasks ≡ w.tasks)
  unfolding request create_version put_object
  broker_failure_keeps_version slug w b stored released splits metadata a uploaded r s m on down =
      let w1 : World = record w {
        working = update_benchmark_row b.id (claim current_user) w.committed;
      } in
      let w2 = put_object stored.storage_reference w1 in
      let b' = claim current_user b in
      let row =
        version_record env new_id now form current_user b' stored released splits metadata in
      let done =
        register-accepts env new_id now form current_user b' stored released splits metadata w2 r s
          m a.new_name a.in_range in
      let kept = register-returned env new_id now form current_user b' stored w2 row done in
      rw
        (
          admit-accepts env new_id now form current_user slug w b a,
          upload-some env new_id now form current_user stored w1 uploaded,
          submit_raises b' stored row w2 on down done,
        )
        (row, refl, kept.versions, kept.status ∙ rw on refl, kept.url, kept.objects, kept.tasks)
