-- ===== src/Security.antt =====
-- backend/app/security.py and the OAuth state tokens of backend/app/routers/oauth.py. Signing and
-- verification (PyJWT) are the parameter `Jwt`, whose laws are stated where they are used.
use eval_ledger.Base.{
  ℕ, ◌+◌, ◌*◌, ◌≡◌, Bool, false, Option, none, some, Text, codes, text_eq, arith, if◌then◌else◌,
  ltb, leb, ◌&&◌,
}
use eval_ledger.Errors.{Result, ok, err, AppError, app_error}

-- The payload of a token. `purpose` is the one extra claim that the program sets.
pub record Claims : Type 0 where
  pub sub : Text
  pub iss : Text
  pub iat : ℕ
  pub exp : ℕ
  pub purpose : Option Text

-- PyJWT with the server's key and algorithm. `decode issuer token now` is none where `jwt.decode`
-- raises a `PyJWTError`.
pub record Jwt : Type 0 where
  pub encode : Claims → Text
  pub decode : Text → Text → ℕ → Option Claims

-- What PyJWT documents: a token that it signed decodes to its payload for the expected issuer from the
-- time of issue until it expires, and is refused at any other time.
abbrev pub DecodesSigned : Jwt → Type 0
DecodesSigned jwt =
    (c : Claims) (now : ℕ)
    → jwt.decode c.iss (jwt.encode c) now
      ≡ (if leb c.iat now && ltb now c.exp then some c else none)

abbrev pub jwt_issuer : Text
jwt_issuer = codes "evalledger"

-- `create_access_token`; the time is in seconds.
unfoldable pub create_access_token : Jwt → ℕ → Text → Option Text → Option ℕ → ℕ → Text
create_access_token jwt jwt_expiration_minutes subject extra_purpose expiry_minutes now =
    let minutes : ℕ = elim expiry_minutes [ none ↦ jwt_expiration_minutes | some m ↦ m ] in
    jwt.encode (record {
      sub = subject;
      iss = jwt_issuer;
      iat = now;
      exp = now + minutes * 60;
      purpose = extra_purpose;
    })

abbrev pub invalid_token : AppError
invalid_token = app_error "invalid_token" 401

unfoldable pub decode_access_token : Jwt → Text → ℕ → Result Claims
decode_access_token jwt token now = elim (jwt.decode jwt_issuer token now) [
  | none ↦ err invalid_token
  | some payload ↦ ok payload
]

abbrev pub state_purpose : Text
state_purpose = codes "oauth_state"

abbrev pub state_ttl_minutes : ℕ
state_ttl_minutes = 5

-- `_make_state_token`
unfoldable pub make_state_token : Jwt → ℕ → ℕ → Text
unfolding create_access_token
make_state_token jwt jwt_expiration_minutes now =
    create_access_token jwt jwt_expiration_minutes state_purpose (some state_purpose)
      (some state_ttl_minutes) now

abbrev pub invalid_oauth_state : AppError
invalid_oauth_state = app_error "invalid_oauth_state" 400

abbrev has_purpose : Option Text → Bool
has_purpose none = false
has_purpose (some p) = text_eq p state_purpose

-- `_verify_state_token`
unfoldable pub verify_state_token : Jwt → Text → ℕ → Result (Unit {0})
unfolding decode_access_token
verify_state_token jwt state now = elim (decode_access_token jwt state now) [
  | err e ↦ err invalid_oauth_state
  | ok payload ↦ if has_purpose payload.purpose then ok tt else err invalid_oauth_state
]

abbrev pub state_claims : ℕ → Claims
state_claims issued = record {
  sub = state_purpose;
  iss = jwt_issuer;
  iat = issued;
  exp = issued + state_ttl_minutes * 60;
  purpose = some state_purpose;
}

abbrev pub session_claims : ℕ → Text → ℕ → Claims
session_claims minutes subject issued = record {
  sub = subject;
  iss = jwt_issuer;
  iat = issued;
  exp = issued + minutes * 60;
  purpose = none;
}

module _ (jwt : Jwt) (sound : DecodesSigned jwt) (jwt_expiration_minutes : ℕ) where
  -- The callback accepts a state token for the five minutes after its issue and at no other time, and
  -- it never accepts a session token, so neither can stand in for the other there.
  pub verify_state_token_lem :
      (issued now : ℕ) (subject : Text)
      → (verify_state_token jwt (make_state_token jwt jwt_expiration_minutes issued) now
          ≡ (if leb issued now && ltb now (issued + 300) then ok tt else err invalid_oauth_state))
        × (verify_state_token jwt
              (create_access_token jwt jwt_expiration_minutes subject none none issued)
              now
            ≡ err invalid_oauth_state)
  unfolding verify_state_token make_state_token
  verify_state_token_lem issued now subject = (
    ground (arith, sound (state_claims issued) now),
    ground (arith, sound (session_claims jwt_expiration_minutes subject issued) now),
  )
