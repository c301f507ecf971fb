-- ===== src/Registry/Versions/Orphan.antt =====
-- What a bad `released_at` leaves in the object storage.
use eval_ledger.Base.{ℕ, ◌≡◌, refl, ap, some, [], ◌∷◌, ◌++◌, String}
use eval_ledger.Errors.{AppError, Raised, app}
use eval_ledger.Errors
use eval_ledger.Registry.Db.{User, Benchmark}
use eval_ledger.Registry.Session.{World, Visible, returns, raises, request}
use eval_ledger.Registry.Versions.{
  Env, VersionForm, StoredArtifact, admit, register, submit, create_version, put_object,
  parse_released_at,
}
use eval_ledger.Registry.Versions.Refusals.{admit-visible, upload-some}

module _ (env : Env) (new_id now : ℕ) (form : VersionForm) (current_user : User) where
  submit-orphan :
      (b : Benchmark) (stored : StoredArtifact) (e : AppError) (w : World)
      → parse_released_at env form.released_at ≡ Errors.err e
      → submit env new_id now form current_user b stored w ≡ (raises (app e), w)
  unfolding submit register
  submit-orphan b stored e w refused = rw refused

  -- A submission that passes every check before the upload and whose `released_at` is not a date is
  -- refused, and the uploaded artifact stays in the object storage although no version names it.
  pub invalid_release_date_orphans :
      (slug : String) (w : World) (b : Benchmark) (stored : StoredArtifact) (e : AppError)
      → (admit env new_id now form current_user slug (record w { working = w.committed })).0
        ≡ returns b
      → env.stored ≡ some stored
      → parse_released_at env form.released_at ≡ Errors.err e
      → let (r, w') = request (create_version env new_id now form current_user slug) w in
        (r ≡ raises (app e))
        × (w'.committed ≡ w.committed)
        × (w'.tasks ≡ w.tasks)
        × (w'.objects ≡ w.objects ++ stored.storage_reference ∷ [])
  unfolding request create_version put_object
  invalid_release_date_orphans slug w b stored e admitted uploaded refused =
      let w0 : World = record w { working = w.committed } in
      let admitted_world = (admit env new_id now form current_user slug w0).1 in
      let seen = admit-visible env new_id now form current_user slug w0 in
      rw
        (
          admitted,
          upload-some env new_id now form current_user stored admitted_world uploaded,
          submit-orphan b stored e (put_object stored.storage_reference admitted_world) refused,
          ap Visible.committed seen,
          ap Visible.objects seen,
          ap Visible.tasks seen,
        )
        (refl, refl, refl, refl)
