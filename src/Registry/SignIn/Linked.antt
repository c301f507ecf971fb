-- ===== src/Registry/SignIn/Linked.antt =====
-- A sign-in that succeeds links its identity to its account.
use eval_ledger.Base.{
  ℕ, ◌≡◌, refl, ap, sym, ◌∙◌, Bool, true, ◌||◌, Option, none, some, List, [], ◌∷◌, ◌++◌, String,
  str_eq_self, if◌then◌else◌, select, select-passes, select-append_none, select-update_where,
  selects_a_row, update_where, any, any-append, arith, ◌==◌, ==→≡, ==_self, Bool-cases,
  Option-cases, inl, inr,
}
use eval_ledger.Registry.Db.{Db, User, UserIdentity, user_has_id}
use eval_ledger.Registry.Session.{World, Outcome-cases, returns, record_audit_event}
use eval_ledger.Registry.SignIn.{
  Naming, Profile, given_email, is_identity, sync_email, sync_admin, known_user, unknown_user,
  register_user, new_identity, find_or_create_oauth_user, has_email, has_username, new_user,
  find_by_email,
}

-- The identity is linked to the account with id `user_id`, and that account exists.
pub record Linked (profile : Profile) (user_id : ℕ) (db : Db) : Type 0 where
  pub identity : UserIdentity
  pub found :
      select (is_identity profile.provider profile.provider_user_id) db.identities ≡ some identity
  pub owner : identity.user_id ≡ user_id
  pub user : User
  pub exists : select (user_has_id identity.user_id) db.users ≡ some user

select-any {ℓ} :
    {A : Type ℓ} (p q : A → Bool) (xs : List A) (a : A)
    → select p xs ≡ some a
    → q a ≡ true
    → any q xs ≡ true
select-any p q [] a h k = cc
select-any p q (x ∷ xs) a h k = ground (arith, select-any p q xs a, h, k)

module _ (naming : Naming) where
  find_by_email-any :
      (email : Option String) (db : Db) (u : User)
      → find_by_email naming email db ≡ some u
      → any (user_has_id u.id) db.users ≡ true
  find_by_email-any none db u h = cc
  find_by_email-any (some e) db u h =
      select-any (has_email e) (user_has_id u.id) db.users u h (==_self u.id)

  link-Linked :
      (profile : Profile) (u : User) (db : Db)
      → any (user_has_id u.id) db.users ≡ true
      → select (is_identity profile.provider profile.provider_user_id) db.identities ≡ none
      → Linked profile u.id
          (record db { identities = db.identities ++ new_identity naming u.id profile ∷ [] })
  link-Linked profile u db there absent =
      let (user, exists) = selects_a_row (user_has_id u.id) db.users there in
      let this = new_identity naming u.id profile in
      record {
        identity = this;
        found =
            select-append_none (is_identity profile.provider profile.provider_user_id) db.identities
              (this ∷ []) absent
            ∙ rw (str_eq_self profile.provider, str_eq_self profile.provider_user_id) refl;
        owner = refl;
        user = user;
        exists = exists;
      }

  register-Linked :
      (profile : Profile) (new_id : ℕ) (w : World) (u : User)
      → select (is_identity profile.provider profile.provider_user_id) w.working.identities ≡ none
      → (register_user naming new_id profile w).0 ≡ returns u
      → (any (user_has_id u.id) (register_user naming new_id profile w).1.working.users ≡ true)
        × (select
              (is_identity profile.provider profile.provider_user_id)
              (register_user naming new_id profile w).1.working.identities
            ≡ none)
  unfolding register_user record_audit_event
  register-Linked profile new_id w u absent ok =
      let user = new_user naming new_id profile w.working.users in
      let taken =
        any (has_email user.email) w.working.users
        || any (has_username user.username) w.working.users in
      elim (Bool-cases taken) [
        | inl e ↦ cc (rw e at ok)
        | inr e ↦
            let same : user ≡ u = cc (rw e at ok) in
            rw (e, sym same)
              (
                any-append (user_has_id new_id) w.working.users (user ∷ [])
                    ∙ ground (arith, ==_self new_id),
                absent,
              )
      ]

  -- The account of a sign-in that succeeds is linked to the identity from then on.
  unknown-Linked :
      (profile : Profile) (new_id : ℕ) (w : World) (u : User)
      → select (is_identity profile.provider profile.provider_user_id) w.working.identities ≡ none
      → (unknown_user naming new_id profile w).0 ≡ returns u
      → Linked profile u.id (unknown_user naming new_id profile w).1.working
  unfolding unknown_user
  unknown-Linked profile new_id w u absent ok =
      elim (Option-cases (find_by_email naming (given_email profile.email) w.working)) [
        | inr (l, by_email) ↦
            let same : l ≡ u = cc (rw by_email at ok) in
            rw (by_email, sym same)
              (link-Linked profile l w.working
                (find_by_email-any (given_email profile.email) w.working l by_email) absent)
        | inl no_email ↦ elim (Outcome-cases (register_user naming new_id profile w).0) [
          | inr (e, failed) ↦ cc (rw (no_email, failed) at ok)
          | inl (v, done) ↦
              let same : v ≡ u = cc (rw (no_email, done) at ok) in
              let (there, still_absent) = register-Linked profile new_id w v absent done in
              rw (no_email, done, sym same)
                (link-Linked profile v (register_user naming new_id profile w).1.working there
                  still_absent)
        ]
      ]

  pub sync_admin-id : (email : Option String) (u : User) → (sync_admin naming email u).id ≡ u.id
  sync_admin-id none u = refl
  sync_admin-id (some e) u = refl

  sync_email-keeps :
      (provider provider_user_id : String) (email : Option String) (x : UserIdentity)
      → (is_identity provider provider_user_id (sync_email naming email x)
          ≡ is_identity provider provider_user_id x)
        × ((sync_email naming email x).user_id ≡ x.user_id)
  sync_email-keeps p i none x = (refl, refl)
  sync_email-keeps p i (some e) x = (refl, refl)

  synced-Linked :
      (profile : Profile) (x : UserIdentity) (user : User) (db : Db)
      → select (is_identity profile.provider profile.provider_user_id) db.identities ≡ some x
      → select (user_has_id x.user_id) db.users ≡ some user
      → let email = given_email profile.email in
        Linked profile user.id (record db {
          identities =
              update_where
                (is_identity profile.provider profile.provider_user_id)
                (sync_email naming email)
                db.identities;
          users = update_where (user_has_id user.id) (sync_admin naming email) db.users;
        })
  synced-Linked profile x user db found exists =
      let email = given_email profile.email in
      let p = is_identity profile.provider profile.provider_user_id in
      let keeps = sync_email-keeps profile.provider profile.provider_user_id email in
      record {
        identity = sync_email naming email x;
        found =
            select-update_where p p (sync_email naming email) db.identities (λ a _. (keeps a).0) x
              found
            ∙ rw (select-passes p db.identities x found) refl;
        owner =
            (keeps x).1
            ∙ sym (
                ==→≡ user.id x.user_id
                  (select-passes (user_has_id x.user_id) db.users user exists));
        user = if user_has_id user.id user then sync_admin naming email user else user;
        exists = rw (keeps x).1 (
            select-update_where (user_has_id x.user_id) (user_has_id user.id)
              (sync_admin naming email) db.users
              (λ a _. ap (λ (k : ℕ). k == x.user_id) (sync_admin-id email a)) user exists);
      }

  known-Linked :
      (profile : Profile) (x : UserIdentity) (w : World) (u : User)
      → select (is_identity profile.provider profile.provider_user_id) w.working.identities ≡ some x
      → (known_user naming profile x w).0 ≡ returns u
      → Linked profile u.id (known_user naming profile x w).1.working
  unfolding known_user
  known-Linked profile x w u found ok =
      elim (Option-cases (select (user_has_id x.user_id) w.working.users)) [
        | inl missing ↦ cc (rw missing at ok)
        | inr (user, exists) ↦
            let same : sync_admin naming (given_email profile.email) user ≡ u =
              cc (rw exists at ok) in
            let same_id : user.id ≡ u.id =
              sym (sync_admin-id (given_email profile.email) user) ∙ ap User.id same in
            rw (exists, sym same_id) (synced-Linked profile x user w.working found exists)
      ]

  pub sign_in-Linked :
      (profile : Profile) (new_id : ℕ) (w : World) (u : User)
      → (find_or_create_oauth_user naming new_id profile w).0 ≡ returns u
      → Linked profile u.id (find_or_create_oauth_user naming new_id profile w).1.working
  unfolding find_or_create_oauth_user
  sign_in-Linked profile new_id w u ok =
      let p = is_identity profile.provider profile.provider_user_id in
      elim (Option-cases (select p w.working.identities)) [
        | inl absent ↦ rw absent (unknown-Linked profile new_id w u absent (rw absent at ok))
        | inr (x, found) ↦ rw found (known-Linked profile x w u found (rw found at ok))
      ]
