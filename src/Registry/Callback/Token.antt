-- ===== src/Registry/Callback/Token.antt =====
-- The token that a callback hands out (backend/app/routers/oauth.py), used as a bearer token
-- (backend/app/dependencies.py).
use eval_ledger.Base.{
  ℕ, ◌+◌, ◌*◌, ◌≡◌, refl, subst, Option-cases, Bool, true, false, Option, none, some, inl, inr,
  ◌++◌, Text, codes, String, arith, is_empty, select, leb, ltb, is_some, if◌then◌else◌,
}
use eval_ledger.Errors.{ok, app}
use eval_ledger.Security.{
  Jwt, Claims, DecodesSigned, create_access_token, decode_access_token, session_claims,
}
use eval_ledger.Registry.Db.{User, user_has_id}
use eval_ledger.Registry.Session.{World, Outcome, returns, raises}
use eval_ledger.Registry.Auth.{
  authenticate_bearer, get_current_user, partition_space, user_of_subject, find_user,
  account_deleted, user_not_found,
}
use eval_ledger.Registry.SignIn.{Naming, Profile}
use eval_ledger.Registry.SignIn.Linked.{Linked}
use eval_ledger.RateLimit.Identity.{Request}
use eval_ledger.RateLimit.Limiter.{Redis}
use eval_ledger.Registry.Callback.{
  Times, token_of, Callback, Redirect, signed_in, google_oauth_callback,
}
use eval_ledger.Registry.Providers.{Google}
use eval_ledger.Registry.Callback.Settling.{has_token, SignsIn}
use eval_ledger.Registry.Callback.Atomic.{Outcomes, GoogleReports, google_oauth_callback_lem}

-- A live account is returned; a deleted one, and one that is gone, are refused.
unfoldable pub live : Option User → Outcome User
live none = raises (app user_not_found)
live (some u) = if is_some u.deleted_at then raises (app account_deleted) else returns u

user_of_subject-live :
    (user_id : ℕ) (w : World)
    → user_of_subject (some user_id) w ≡ (live (select (user_has_id user_id) w.working.users), w)
unfolding user_of_subject find_user live
user_of_subject-live user_id w =
    elim (Option-cases (select (user_has_id user_id) w.working.users)) [
      | inl e ↦ rw e refl
      | inr (u, e) ↦ ground (arith, e)
    ]

module _ (hash_api_key : String → String) (lower : Text → Text) (jwt : Jwt)
    (parse_id : Text → Option ℕ) (naming : Naming) (subject_of : ℕ → Text)
    (jwt_expiration_minutes : ℕ) (times : Times) (new_id : ℕ) where
  abbrev token : ℕ → Text
  token = token_of naming subject_of jwt jwt_expiration_minutes times new_id

  decode_token :
      DecodesSigned jwt
      → (user_id now : ℕ) → leb times.issued_at now ≡ true
      → ltb now (times.issued_at + jwt_expiration_minutes * 60) ≡ true
      → decode_access_token jwt (token user_id) now
        ≡ ok (session_claims jwt_expiration_minutes (subject_of user_id) times.issued_at)
  unfolding decode_access_token token_of create_access_token
  decode_token sound user_id now after before = ground (
    arith,
    sound (session_claims jwt_expiration_minutes (subject_of user_id) times.issued_at) now,
  )

  callback_token_authenticates :
      DecodesSigned jwt
      → lower (codes "Bearer") ≡ codes "bearer"
      → (user_id now : ℕ) (w : World) → parse_id (subject_of user_id) ≡ some user_id
      → is_empty (token user_id) ≡ false
      → leb times.issued_at now ≡ true
      → ltb now (times.issued_at + jwt_expiration_minutes * 60) ≡ true
      → get_current_user hash_api_key lower jwt parse_id none
          (some (codes "Bearer " ++ token user_id))
          now
          w
        ≡ (live (select (user_has_id user_id) w.working.users), w)
  unfolding get_current_user authenticate_bearer partition_space
  callback_token_authenticates sound lowers user_id now w reads nonempty after before =
      rw (lowers, nonempty, decode_token sound user_id now after before, reads)
        (user_of_subject-live user_id w)

-- What is used of a later session: it starts at what is committed.
abbrev pub later : World → World
later w = record w { working = w.committed }

module _ {S : Type 0} (limiter : Option (Redis S)) (rate_limit_enabled : Bool) (decimal : ℕ → Text)
    (lower sha256_prefix : Text → Text) (jwt : Jwt) (trusted_proxy_count : ℕ) (naming : Naming)
    (subject_of : ℕ → Text) (jwt_expiration_minutes : ℕ) (times : Times) (new_id : ℕ)
    (req : Request) (query : Callback) (hash_api_key : String → String) (parse_id : Text → Option ℕ)
    (sound : DecodesSigned jwt) (nonempty : (c : Claims) → is_empty (jwt.encode c) ≡ false)
    (lowers : lower (codes "Bearer") ≡ codes "bearer")
    (reads : (i : ℕ) → parse_id (subject_of i) ≡ some i) where
  token_nonempty :
      (i : ℕ)
      → is_empty (token_of naming subject_of jwt jwt_expiration_minutes times new_id i) ≡ false
  unfolding token_of create_access_token
  token_nonempty i = nonempty (session_claims jwt_expiration_minutes (subject_of i) times.issued_at)

  Outcomes-authenticate :
      (Reports : Text → Profile → Type 0) (r : Outcome Redirect) (w w' : World) (t : Text) (now : ℕ)
      (at : World)
      → Outcomes Reports jwt times.verified_at
          (token_of naming subject_of jwt jwt_expiration_minutes times new_id)
          query
          r
          w
          w'
      → r ≡ returns (signed_in t)
      → leb times.issued_at now ≡ true
      → ltb now (times.issued_at + jwt_expiration_minutes * 60) ≡ true
      → (code : Text) × (profile : Profile) × (user_id : ℕ) × (query.code ≡ some code)
        × Reports code profile
        × Linked profile user_id w'.committed
        × (get_current_user hash_api_key lower jwt parse_id none
              (some (codes "Bearer " ++ t))
              now
              (later at)
            ≡ (live (select (user_has_id user_id) at.committed.users), later at))
  unfolding Outcomes has_token SignsIn
  Outcomes-authenticate Reports r w w' t now at (inr (quiet, _)) answers after before =
      ground (arith, quiet, answers)
  Outcomes-authenticate Reports r w w' t now at (inl (state, code, _, _, given, signs)) answers
        after before =
      let (profile, reported, (user_id, e, linked)) = signs in
      let same : token_of naming subject_of jwt jwt_expiration_minutes times new_id user_id ≡ t =
        ground (arith, e, answers) in
      (
        code,
        profile,
        user_id,
        given,
        reported,
        linked,
        subst
            (λ x.
              get_current_user hash_api_key lower jwt parse_id none (some (codes "Bearer " ++ x))
                now (later at)
              ≡ (live (select (user_has_id user_id) at.committed.users), later at))
            same
            (callback_token_authenticates hash_api_key lower jwt parse_id naming subject_of
              jwt_expiration_minutes times new_id sound lowers user_id now (later at)
              (reads user_id) (token_nonempty user_id) after before),
      )

  -- The token that a Google callback answers with names the account that the callback linked to the
  -- identity that Google reported for the code of its query. Sent as a bearer token until it expires,
  -- whatever the database has become by then, it authenticates as that account's row of the time; it is
  -- refused if that row is stamped deleted, or gone.
  pub google_token_authenticates :
      (google : Google) (s : S) (w : World) (t : Text) (now : ℕ) (at : World)
      → let (r, w') =
          (google_oauth_callback limiter rate_limit_enabled decimal lower sha256_prefix jwt
            trusted_proxy_count naming subject_of jwt_expiration_minutes times new_id req query
            google s w).0 in
        r ≡ returns (signed_in t)
        → leb times.issued_at now ≡ true
        → ltb now (times.issued_at + jwt_expiration_minutes * 60) ≡ true
        → (code : Text) × (profile : Profile) × (user_id : ℕ) × (query.code ≡ some code)
          × GoogleReports google code profile
          × Linked profile user_id w'.committed
          × (get_current_user hash_api_key lower jwt parse_id none
                (some (codes "Bearer " ++ t))
                now
                (later at)
              ≡ (live (select (user_has_id user_id) at.committed.users), later at))
  google_token_authenticates google s w t now at answers after before =
      Outcomes-authenticate (GoogleReports google) _ w _ t now at
        (google_oauth_callback_lem limiter rate_limit_enabled decimal lower sha256_prefix jwt
          trusted_proxy_count naming subject_of jwt_expiration_minutes times new_id req query google
          s w)
        answers after before
