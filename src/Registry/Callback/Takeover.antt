-- ===== src/Registry/Callback/Takeover.antt =====
-- An address that the provider has not verified never reaches an account that exists
-- (backend/app/routers/oauth.py, `google_oauth_callback` and `_verified_primary_email`).
use eval_ledger.Base.{
  ℕ, ◌≡◌, refl, ◌⊎◌, inl, inr, false, ◌||◌, none, some, [], ◌∷◌, ◌++◌, Text, String, Bool-cases,
  any, select,
}
use eval_ledger.Security.{Jwt}
use eval_ledger.Registry.Db.{User}
use eval_ledger.Registry.Session.{
  World, visible, Outcome, returns, request, commit, record_audit_event,
}
use eval_ledger.Registry.SignIn.{
  Naming, Profile, find_or_create_oauth_user, unknown_user, register_user, new_user, given_email,
  is_identity, has_email, has_username,
}
use eval_ledger.Registry.Callback.{
  Redirect, login_error, account_failed, signed_in, Times, sign_in, token_of, answer, finish,
}
use eval_ledger.Registry.Providers.{GoogleUser, google_email, google_profile, optional_text}

module _ (naming : Naming) (subject_of : ℕ → Text) (jwt : Jwt) (jwt_expiration_minutes : ℕ)
    (times : Times) (new_id : ℕ) where
  -- The sign-in makes a new account beside those that there are, or it fails and changes nothing.
  abbrev pub OnlyNew : Outcome Redirect × World → World → Type 0
  OnlyNew (r, w') w =
      ((r ≡ returns (login_error account_failed)) × (visible w' ≡ visible w))
      ⊎ ((r
            ≡ returns (
                signed_in
                  (token_of naming subject_of jwt jwt_expiration_minutes times new_id new_id)))
          × ((u : User) × (u.id ≡ new_id) × (w'.committed.users ≡ w.committed.users ++ u ∷ [])))

  no_email-OnlyNew :
      (profile : Profile) (w : World)
      → given_email profile.email ≡ none
      → select (is_identity profile.provider profile.provider_user_id) w.committed.identities ≡ none
      → OnlyNew
          (request
            (finish naming subject_of jwt jwt_expiration_minutes times new_id (some profile))
            w)
          w
  unfolding request finish sign_in answer commit find_or_create_oauth_user unknown_user
      register_user record_audit_event
  no_email-OnlyNew profile w no_email absent =
      let user = new_user naming new_id profile w.committed.users in
      elim (Bool-cases (
        any (has_email user.email) w.committed.users
        || any (has_username user.username) w.committed.users)) [
          | inl taken ↦ rw (absent, no_email, taken) (inl (refl, refl))
          | inr free ↦ rw (absent, no_email, free) (inr (refl, (user, refl, refl)))
        ]

  -- A Google profile whose address is not verified, with an identity that no account has yet, signs in
  -- to a new account beside those that there are, whatever the address is, or it fails and changes
  -- nothing.
  pub unverified_google_is_new :
      (g_user : GoogleUser) (sub : String) (w : World)
      → g_user.sub ≡ some sub
      → g_user.email_verified ≡ false
      → select (is_identity "google" sub) w.committed.identities ≡ none
      → OnlyNew
          (request
            (finish naming subject_of jwt jwt_expiration_minutes times new_id
              (google_profile naming.render g_user))
            w)
          w
  unfolding google_profile google_email optional_text
  unverified_google_is_new g_user sub w known unverified absent =
      rw (known, unverified) (no_email-OnlyNew _ w refl absent)
