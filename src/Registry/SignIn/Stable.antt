-- ===== src/Registry/SignIn/Stable.antt =====
-- An OAuth identity keeps its account.
use eval_ledger.Base.{ℕ, some, select, ◌≡◌, refl, ◌∙◌, select-passes, ==→≡}
use eval_ledger.Registry.Db.{User, user_has_id}
use eval_ledger.Registry.Session.{World, returns}
use eval_ledger.Registry.SignIn.{
  Naming, Profile, given_email, sync_admin, is_identity, known_user, find_or_create_oauth_user,
}
use eval_ledger.Registry.SignIn.Linked.{Linked, sync_admin-id, sign_in-Linked}

module _ (naming : Naming) where
  -- A sign-in with an identity that is linked answers with its account.
  Linked-signs_in :
      (profile : Profile) (new_id user_id : ℕ) (w : World)
      → (linked : Linked profile user_id w.working)
      → (find_or_create_oauth_user naming new_id profile w).0
        ≡ returns (sync_admin naming (given_email profile.email) linked.user)
  unfolding find_or_create_oauth_user known_user
  Linked-signs_in profile new_id user_id w linked = rw (linked.found, linked.exists) refl

  -- Once an OAuth identity has signed in to an account, a sign-in with it in any later state of the
  -- database that still has the identity's row and a row of the account, whatever address and name the
  -- provider then reports, succeeds and answers with that same account.
  pub sign_in_stable :
      (profile later : Profile) (new_id later_id : ℕ) (w w' : World) (u row : User)
      → (find_or_create_oauth_user naming new_id profile w).0 ≡ returns u
      → later.provider ≡ profile.provider
      → later.provider_user_id ≡ profile.provider_user_id
      → select (is_identity profile.provider profile.provider_user_id) w'.working.identities
        ≡ select
            (is_identity profile.provider profile.provider_user_id)
            (find_or_create_oauth_user naming new_id profile w).1.working.identities
      → select (user_has_id u.id) w'.working.users ≡ some row
      → (v : User) × ((find_or_create_oauth_user naming later_id later w').0 ≡ returns v)
        × (v.id ≡ u.id)
  sign_in_stable profile later new_id later_id w w' u row ok same_provider same_id kept there =
      let linked = sign_in-Linked naming profile new_id w u ok in
      let again : Linked later u.id w'.working = record {
        identity = linked.identity;
        found = rw (same_provider, same_id) (kept ∙ linked.found);
        owner = linked.owner;
        user = row;
        exists = rw linked.owner there;
      } in
      (
        sync_admin naming (given_email later.email) row,
        Linked-signs_in later later_id u.id w' again,
        sync_admin-id naming (given_email later.email) row
            ∙ ==→≡ row.id u.id (select-passes (user_has_id u.id) w'.working.users row there),
      )
