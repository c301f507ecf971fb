-- ===== src/Registry/Versions/Refusals.antt =====
-- A submission that is refused leaves nothing behind.
use eval_ledger.Base.{
  ℕ, ◌≡◌, refl, ap, ◌∙◌, Bool, true, false, not, ◌&&◌, Option, none, some, List, [], ◌∷◌, ◌++◌,
  String, str_eq, str_eq_self, any, filter, arith, Bool-cases, Option-cases, inl, inr,
}
use eval_ledger.Errors.{AppError, Raised, app, unexpected}
use eval_ledger.Errors
use eval_ledger.Registry.Db.{User, Benchmark}
use eval_ledger.Registry.Session.{
  World, Visible, visible, Outcome-cases, returns, raises, commit, request,
}
use eval_ledger.Registry.Versions.{
  Env, VersionForm, StoredArtifact, admit, upload, register, submit, create_version, insert_version,
  delete_object, put_object, parse_released_at,
}

remove_fresh :
    (reference : String) (objects : List String)
    → any (λ o. str_eq o reference) objects ≡ false
    → filter (λ o. not (str_eq o reference)) (objects ++ reference ∷ []) ≡ objects
remove_fresh reference [] h = rw (str_eq_self reference)
remove_fresh reference (o ∷ objects) h = ground (arith, remove_fresh reference objects)

-- A deletion that works takes back an upload under a fresh name.
delete-visible :
    (works : Bool) (reference : String) (w w' : World)
    → works ≡ true
    → any (λ o. str_eq o reference) w.objects ≡ false
    → visible w' ≡ visible (put_object reference w)
    → visible (delete_object works reference w') ≡ visible w
unfolding delete_object put_object
delete-visible false reference w w' works fresh same = cc
delete-visible true reference w w' works fresh same =
    rw
      (
        ap Visible.committed same,
        ap Visible.objects same,
        ap Visible.tasks same,
        remove_fresh reference w.objects fresh,
      )
      refl

module _ (env : Env) (new_id now : ℕ) (form : VersionForm) (current_user : User) where
  -- Every refusal of `admit` is a rollback of what it wrote.
  pub admit-visible :
      (slug : String) (w : World)
      → visible (admit env new_id now form current_user slug w).1 ≡ visible w
  unfolding admit
  admit-visible slug w = ground arith

  insert_version-visible :
      (b : Benchmark) (stored : StoredArtifact) (released : Option ℕ) (w : World) (e : Raised)
      → (insert_version env new_id now form current_user b stored released w).0 ≡ raises e
      → visible (insert_version env new_id now form current_user b stored released w).1 ≡ visible w
  unfolding insert_version commit
  insert_version-visible b stored released w e k = ground arith

  register-visible :
      (b : Benchmark) (stored : StoredArtifact) (released : Option ℕ) (w : World) (e : Raised)
      → env.delete_works ≡ true
      → parse_released_at env form.released_at ≡ Errors.ok released
      → any (λ o. str_eq o stored.storage_reference) w.objects ≡ false
      → (register env new_id now form current_user b stored
          (put_object stored.storage_reference w)).0
        ≡ raises e
      → visible
          (register env new_id now form current_user b stored
            (put_object stored.storage_reference w)).1
        ≡ visible w
  unfolding register delete_object put_object
  register-visible b stored released w e works parsed fresh k =
      let w1 = put_object stored.storage_reference w in
      elim (Outcome-cases
        (insert_version env new_id now form current_user b stored released w1).0) [
          | inl (row, done) ↦ cc (rw (parsed, done) at k)
          | inr (e', failed) ↦
              rw (parsed, failed)
                (delete-visible env.delete_works stored.storage_reference w _ works fresh
                  (insert_version-visible b stored released w1 e' failed))
        ]

  -- The handler from its upload on.
  submit-visible :
      (b : Benchmark) (stored : StoredArtifact) (released : Option ℕ) (w : World) (e : Raised)
      → env.delete_works ≡ true
      → (env.worker_enabled && not env.delay_works) ≡ false
      → parse_released_at env form.released_at ≡ Errors.ok released
      → any (λ o. str_eq o stored.storage_reference) w.objects ≡ false
      → (submit env new_id now form current_user b stored (put_object stored.storage_reference w)).0
        ≡ raises e
      → visible
          (submit env new_id now form current_user b stored
            (put_object stored.storage_reference w)).1
        ≡ visible w
  unfolding submit
  submit-visible b stored released w e works queues parsed fresh k =
      let registered =
        register env new_id now form current_user b stored
          (put_object stored.storage_reference w) in
      elim (Outcome-cases registered.0) [
        | inr (e', failed) ↦
            rw failed (register-visible b stored released w e' works parsed fresh failed)
        | inl (row, done) ↦ elim (Bool-cases env.worker_enabled) [
          | inr off ↦ cc (rw (done, off) at k)
          | inl on ↦ elim (Bool-cases env.delay_works) [
            | inl up ↦ cc (rw (done, on, up) at k)
            | inr down ↦ cc (rw (on, down) at queues)
          ]
        ]
      ]

  pub upload-none :
      (w : World)
      → env.stored ≡ none
      → upload env new_id now form current_user w ≡ (raises unexpected, w)
  unfolding upload
  upload-none w h = rw h

  pub upload-some :
      (stored : StoredArtifact) (w : World)
      → env.stored ≡ some stored
      → upload env new_id now form current_user w
        ≡ (returns stored, put_object stored.storage_reference w)
  unfolding upload
  upload-some stored w h = rw h

  -- A submission that raises, whatever for, leaves the database, the object storage and the queue as
  -- they were, provided that the storage can delete, the broker takes tasks where there are workers, the
  -- upload's name is new, and `released_at` is a date or absent.
  pub create_version_refused :
      (slug : String) (w : World) (e : Raised) (released : Option ℕ)
      → env.delete_works ≡ true
      → (env.worker_enabled && not env.delay_works) ≡ false
      → parse_released_at env form.released_at ≡ Errors.ok released
      → ((stored : StoredArtifact)
          → env.stored ≡ some stored
          → any (λ o. str_eq o stored.storage_reference) w.objects ≡ false)
      → (request (create_version env new_id now form current_user slug) w).0 ≡ raises e
      → visible (request (create_version env new_id now form current_user slug) w).1 ≡ visible w
  unfolding request create_version
  create_version_refused slug w e released works queues parsed fresh k =
      let w0 : World = record w { working = w.committed } in
      let admitted_world = (admit env new_id now form current_user slug w0).1 in
      let seen = admit-visible slug w0 in
      elim (Outcome-cases (admit env new_id now form current_user slug w0).0) [
        | inr (e', refused) ↦ rw refused seen
        | inl (b, admitted) ↦ elim (Option-cases env.stored) [
          | inl no_upload ↦ rw (admitted, upload-none admitted_world no_upload) seen
          | inr (stored, uploaded) ↦
              rw (admitted, upload-some stored admitted_world uploaded)
                (submit-visible b stored released admitted_world e works queues parsed
                    (rw (ap Visible.objects seen) (fresh stored uploaded))
                    (rw (admitted, upload-some stored admitted_world uploaded) at k)
                  ∙ seen)
        ]
      ]
