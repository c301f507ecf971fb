-- ===== src/Registry/Callback/Settling.antt =====
-- Each guard of a callback of backend/app/routers/oauth.py keeps this: it signs in, or leaves no trace.
use eval_ledger.Base.{
  ℕ, ◌≡◌, refl, ◌⊎◌, inl, inr, Bool, true, false, Option, none, some, List, Text, String, arith,
  Bool-cases, Option-cases, select, ◌==◌,
}
use eval_ledger.Registry.Session.{
  World, visible, Outcome, returns, raises, Action, pure, ◌>>=◌, record_audit_event,
}
use eval_ledger.Registry.SignIn.{
  Naming, Profile, find_or_create_oauth_user, known_user, unknown_user, register_user, EmailEntry,
  primary_email_of, is_identity,
}
use eval_ledger.Registry.SignIn.Linked.{Linked}
use eval_ledger.Registry.Callback.{
  Redirect, consent, login_error, signed_in, LoginError, received, body, unless_over, when_ok,
  when_given, listed_email,
}
use eval_ledger.Registry.Providers.{Reply}

module _ (naming : Naming) where
  visible-known_user :
      (profile : Profile) (x : _) (w : World)
      → visible (known_user naming profile x w).1 ≡ visible w
  unfolding known_user
  visible-known_user profile x w = ground arith

  visible-register_user :
      (profile : Profile) (n : ℕ) (w : World)
      → visible (register_user naming n profile w).1 ≡ visible w
  unfolding register_user record_audit_event
  visible-register_user profile n w = ground arith

  visible-unknown_user :
      (profile : Profile) (n : ℕ) (w : World)
      → visible (unknown_user naming n profile w).1 ≡ visible w
  unfolding unknown_user
  visible-unknown_user profile n w = ground (arith, visible-register_user profile n w)

  pub find_or_create_is_invisible :
      (new_id : ℕ) (profile : Profile) (w : World)
      → visible (find_or_create_oauth_user naming new_id profile w).1 ≡ visible w
  unfolding find_or_create_oauth_user
  find_or_create_is_invisible new_id profile w =
      elim (Option-cases
        (select (is_identity profile.provider profile.provider_user_id) w.working.identities)) [
          | inl e ↦ rw e (visible-unknown_user profile new_id w)
          | inr (x, e) ↦ rw e (visible-known_user profile x w)
        ]

-- What a step of a callback comes to: it answers with a token for an account that the database then
-- links to a profile that the provider has reported, or it answers without one and others see no change.
unfoldable pub SignsIn : (Profile → Type 0) → (ℕ → Text) → Outcome Redirect → World → Type 0
SignsIn Reported token r w =
    (profile : Profile) × Reported profile
    × ((user_id : ℕ) × (r ≡ returns (signed_in (token user_id)))
        × Linked profile user_id w.committed)

unfoldable pub has_token : Outcome Redirect → Bool
has_token (returns (consent url params)) = false
has_token (returns (login_error e)) = false
has_token (returns (signed_in token)) = true
has_token (raises e) = false

abbrev pub Settles : (Profile → Type 0) → (ℕ → Text) → Outcome Redirect → World → World → Type 0
Settles Reported token r w w' =
    SignsIn Reported token r w' ⊎ ((has_token r ≡ false) × (visible w' ≡ visible w))

abbrev pub Settling : (Profile → Type 0) → (ℕ → Text) → Action Redirect → Type 0
Settling Reported token m = (w : World) → Settles Reported token (m w).0 w (m w).1

module _ (Reported : Profile → Type 0) (token : ℕ → Text) where
  pub pure-Settling : (e : LoginError) → Settling Reported token (pure (login_error e))
  unfolding has_token
  pure-Settling e w = inr (refl, refl)

  pub received-Settling :
      {A : Type 0} (reply : Option (Reply A)) (next : Reply A → Action Redirect)
      → ((a : Reply A) → reply ≡ some a → Settling Reported token (next a))
      → Settling Reported token (received reply >>= next)
  unfolding received has_token
  received-Settling none next h w = inr (refl, refl)
  received-Settling (some a) next h w = h a refl w

  pub body-Settling :
      {A : Type 0} (json : Option A) (next : A → Action Redirect)
      → ((a : A) → json ≡ some a → Settling Reported token (next a))
      → Settling Reported token (body json >>= next)
  unfolding body has_token
  body-Settling none next h w = inr (refl, refl)
  body-Settling (some a) next h w = h a refl w

  pub when_given-Settling :
      (t : Option Text) (e : LoginError) (next : Text → Action Redirect)
      → ((a : Text) → t ≡ some a → Settling Reported token (next a))
      → Settling Reported token (when_given t e next)
  unfolding when_given has_token
  when_given-Settling none e next h w = inr (refl, refl)
  when_given-Settling (some a) e next h w = h a refl w

  pub when_ok-Settling :
      {A : Type 0} (reply : Reply A) (e : LoginError) (next : A → Action Redirect)
      → ((a : A) → reply.json ≡ some a → Settling Reported token (next a))
      → Settling Reported token (when_ok reply e next)
  unfolding when_ok
  when_ok-Settling reply e next h w = elim (Bool-cases (reply.status_code == 200)) [
    | inl ok_ ↦ rw ok_ (body-Settling reply.json next h w)
    | inr not_ok ↦ rw not_ok (pure-Settling e w)
  ]

  pub listed_email-Settling :
      (reply : Reply (Option (List EmailEntry))) (next : Option String → Action Redirect)
      → ((a : Option String) → Settling Reported token (next a))
      → Settling Reported token (listed_email reply >>= next)
  unfolding listed_email body has_token
  listed_email-Settling reply next h w = elim (Bool-cases (reply.status_code == 200)) [
    | inl ok_ ↦ elim (Option-cases reply.json) [
      | inl absent ↦ rw (ok_, absent) (inr (refl, refl))
      | inr (entries, e) ↦ rw (ok_, e) (h (primary_email_of entries) w)
    ]
    | inr not_ok ↦ rw not_ok (h none w)
  ]

  pub unless_over-Settling :
      (limited : Option Redirect) (m : Action Redirect)
      → ((r : Redirect) → limited ≡ some r → has_token (returns r) ≡ false)
      → Settling Reported token m
      → Settling Reported token (unless_over limited m)
  unfolding unless_over has_token
  unless_over-Settling none m early h w = h w
  unless_over-Settling (some r) m early h w = inr (early r refl, refl)
