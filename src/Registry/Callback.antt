-- ===== src/Registry/Callback.antt =====
-- The OAuth routes of backend/app/routers/oauth.py: the redirect to a provider's consent screen, and
-- the callback that exchanges the code, finds or creates the account and hands out a token. The two
-- providers' HTTP interfaces are the parameters of Registry/Providers.antt.
pub mod Settling
pub mod Atomic
pub mod Takeover
pub mod Token
use eval_ledger.Base.{
  ℕ, Bool, true, false, not, Option, none, some, List, [], ◌∷◌, ◌++◌, String, str_eq, Text, codes,
  is_empty, split, get_elem?, or_else, ◌==◌, if◌then◌else◌,
}
use eval_ledger.Errors
use eval_ledger.Errors.{ok, err, app, app_error, AppError, unexpected}
use eval_ledger.Security.{Jwt, create_access_token, make_state_token, verify_state_token}
use eval_ledger.RateLimit.Identity.{Request, get_client_id}
use eval_ledger.RateLimit.Limiter.{Redis, Clock, Checked, inactive, allowed, throttled, check_with}
use eval_ledger.Registry.Db.{User}
use eval_ledger.Registry.Session.{
  World, Outcome, returns, raises, Action, pure, raise, ensure, commit, request, ◌>>=◌, ◌>>◌,
}
use eval_ledger.Registry.Providers.{
  Reply, GithubUser, GoogleUser, Github, Google, given_text, or_first, optional_text,
  github_profile, google_email, before_at, google_hint, google_profile,
}
use eval_ledger.Registry.SignIn.{
  Naming, Profile, EmailEntry, primary_email_of, find_or_create_oauth_user,
}

-- One for each message that `_frontend_error_redirect` is called with.
pub data LoginError : Type 0 where
  too_many_attempts : LoginError
  denied : Text → LoginError
  missing_params : LoginError
  state_mismatch : LoginError
  token_exchange_failed : LoginError
  no_access_token : LoginError
  profile_failed : LoginError
  account_failed : LoginError

-- The three kinds of redirect: to a consent screen with its query, to the frontend's login page with
-- an error, and to the frontend with a token.
pub data Redirect : Type 0 where
  consent : String → List (String × Text) → Redirect
  login_error : LoginError → Redirect
  signed_in : Text → Redirect

-- The query of a callback.
pub record Callback : Type 0 where
  pub code : Option Text
  pub state : Option Text
  pub error : Option Text

-- The times at which one call reads the clock.
pub record Times : Type 0 where
  pub limiter : Clock
  pub identified_at : ℕ
  pub verified_at : ℕ
  pub issued_at : ℕ

-- An exception of httpx is not caught.
unfoldable pub received : {A : Type 0} → Option (Reply A) → Action (Reply A)
received none = raise unexpected
received (some reply) = pure reply

unfoldable pub body : {A : Type 0} → Option A → Action A
body none = raise unexpected
body (some a) = pure a

-- The guards that end a callback early with a redirect.
unfoldable pub unless_over : Option Redirect → Action Redirect → Action Redirect
unless_over (some limited) rest = pure limited
unless_over none rest = rest

unfoldable pub unless_denied : Option Text → Action Redirect → Action Redirect
unless_denied (some error) rest = pure (login_error (denied error))
unless_denied none rest = rest

unfoldable pub if_verified : Errors.Result (Unit {0}) → Action Redirect → Action Redirect
if_verified (err e) rest = pure (login_error state_mismatch)
if_verified (ok _) rest = rest

unfoldable pub when_ok :
    {A : Type 0} → Reply A → LoginError → (A → Action Redirect) → Action Redirect
unfolding body
when_ok reply message next =
    let go : Action Redirect = (do a ← body reply.json; next a) in
    if reply.status_code == 200 then go else pure (login_error message)

unfoldable pub when_given : Option Text → LoginError → (Text → Action Redirect) → Action Redirect
when_given none message next = pure (login_error message)
when_given (some t) message next = next t

-- The list of addresses, if GitHub answers the request for it.
unfoldable pub listed_email : Reply (Option (List EmailEntry)) → Action (Option String)
unfolding body
listed_email reply =
    let read : Action (Option String) = (do
      entries ← body reply.json
      pure (primary_email_of entries)) in
    if reply.status_code == 200 then read else pure none

module _ (naming : Naming) (subject_of : ℕ → Text) (jwt : Jwt) (jwt_expiration_minutes : ℕ)
    (times : Times) (new_id : ℕ) where
  -- The body of the `try`; no profile is the KeyError of an absent id.
  unfoldable pub sign_in : Option Profile → Action User
  unfolding commit
  sign_in none = raise unexpected
  sign_in (some profile) = do
    user ← find_or_create_oauth_user naming new_id profile
    commit
    pure user

  unfoldable pub token_of : ℕ → Text
  token_of user_id =
      create_access_token jwt jwt_expiration_minutes (subject_of user_id) none none times.issued_at

  unfoldable pub answer : Outcome User × World → Outcome Redirect × World
  answer (returns user, w) = (returns (signed_in (token_of user.id)), w)
  answer (raises e, w) = (returns (login_error account_failed), w)

  -- Every exception of the sign-in is caught.
  unfoldable pub finish : Option Profile → Action Redirect
  unfolding sign_in answer
  finish profile w = answer (sign_in profile w)

  unfoldable pub github_exchange : Github → Text → Action Redirect
  unfolding finish when_ok when_given received body listed_email
  github_exchange github code = do
    token_resp ← received (github.post_token code)
    access_token ← body token_resp.json
    when_given (given_text access_token) no_access_token (λ github_token. do
      user_resp ← received (github.get_user github_token)
      when_ok user_resp profile_failed (λ gh_user. do
        emails_resp ← received (github.get_emails github_token)
        email ← listed_email emails_resp
        finish (github_profile naming.render email gh_user)))

  unfoldable pub google_exchange : Google → Text → Action Redirect
  unfolding finish when_ok when_given received
  google_exchange google code = do
    token_resp ← received (google.post_token code)
    when_ok token_resp token_exchange_failed (λ token_data.
        when_given (given_text token_data) no_access_token (λ access_token. do
          info_resp ← received (google.get_userinfo access_token)
          when_ok info_resp profile_failed
              (λ g_user. finish (google_profile naming.render g_user))))

  -- With a state that verifies, the code is exchanged.
  unfoldable pub with_state : (Text → Action Redirect) → Text → Text → Action Redirect
  unfolding if_verified
  with_state exchange code state =
      if_verified (verify_state_token jwt state times.verified_at) (exchange code)

  unfoldable pub with_code : (Text → Action Redirect) → Option Text → Option Text → Action Redirect
  unfolding with_state
  with_code exchange (some code) (some state) = with_state exchange code state
  with_code exchange _ _ = pure (login_error missing_params)

  unfoldable pub callback : (Text → Action Redirect) → Callback → Action Redirect
  unfolding with_code given_text unless_denied
  callback exchange query =
      unless_denied (given_text query.error)
        (with_code exchange (given_text query.code) (given_text query.state))

unfoldable pub limit_redirect : Checked → Option Redirect
limit_redirect inactive = none
limit_redirect (allowed state) = none
limit_redirect (throttled retry_after) = some (login_error too_many_attempts)

abbrev pub oauth_not_configured : AppError
oauth_not_configured = app_error "oauth_not_configured" 503

module _ {S : Type 0} (limiter : Option (Redis S)) (rate_limit_enabled : Bool) (decimal : ℕ → Text)
    (lower sha256_prefix : Text → Text) (jwt : Jwt) (trusted_proxy_count : ℕ) where
  unfoldable pub oauth_rate_limit : Text → Times → Request → S → Option Redirect × S
  unfolding limit_redirect check_with
  oauth_rate_limit bucket times req s =
      let client_id =
        get_client_id lower sha256_prefix jwt trusted_proxy_count times.identified_at req in
      let (checked, s') =
        check_with limiter decimal rate_limit_enabled bucket client_id 20 60 times.limiter s in
      (limit_redirect checked, s')

  module _ (jwt_expiration_minutes : ℕ) (client_id app_url : Text) (times : Times)
      (req : Request) where
    -- The state token goes to the consent screen with the query.
    unfoldable pub consent_redirect :
        String → Text → List (String × Text) → List (String × Text) → Action Redirect
    consent_redirect url path before after = do
      ensure (not (is_empty client_id)) oauth_not_configured
      pure (
          consent url (
            ("client_id", client_id) ∷ ("redirect_uri", app_url ++ path) ∷ before
            ++ ("state", make_state_token jwt jwt_expiration_minutes times.issued_at) ∷ after))

    unfoldable pub github_oauth_start : S → World → (Outcome Redirect × World) × S
    unfolding oauth_rate_limit unless_over consent_redirect
    github_oauth_start s w =
        let (limited, s') = oauth_rate_limit (codes "oauth_start_github") times req s in
        (
          unless_over limited
              (consent_redirect "https://github.com/login/oauth/authorize"
                (codes "/auth/oauth/github/callback") (("scope", codes "user:email") ∷ []) [])
              w,
          s',
        )

    unfoldable pub google_oauth_start : S → World → (Outcome Redirect × World) × S
    unfolding oauth_rate_limit unless_over consent_redirect
    google_oauth_start s w =
        let (limited, s') = oauth_rate_limit (codes "oauth_start_google") times req s in
        (
          unless_over limited
              (consent_redirect "https://accounts.google.com/o/oauth2/v2/auth"
                (codes "/auth/oauth/google/callback")
                (("response_type", codes "code") ∷ ("scope", codes "openid email profile") ∷ [])
                (("access_type", codes "online") ∷ []))
              w,
          s',
        )

  module _ (naming : Naming) (subject_of : ℕ → Text) (jwt_expiration_minutes : ℕ) (times : Times)
      (new_id : ℕ) (req : Request) (query : Callback) where
    unfoldable pub github_oauth_callback : Github → S → World → (Outcome Redirect × World) × S
    unfolding oauth_rate_limit unless_over callback github_exchange request
    github_oauth_callback github s w =
        let (limited, s') = oauth_rate_limit (codes "oauth_callback_github") times req s in
        let exchange =
          github_exchange naming subject_of jwt jwt_expiration_minutes times new_id github in
        let handler =
          callback naming subject_of jwt jwt_expiration_minutes times new_id exchange query in
        (request (unless_over limited handler) w, s')

    unfoldable pub google_oauth_callback : Google → S → World → (Outcome Redirect × World) × S
    unfolding oauth_rate_limit unless_over callback google_exchange request
    google_oauth_callback google s w =
        let (limited, s') = oauth_rate_limit (codes "oauth_callback_google") times req s in
        let exchange =
          google_exchange naming subject_of jwt jwt_expiration_minutes times new_id google in
        let handler =
          callback naming subject_of jwt jwt_expiration_minutes times new_id exchange query in
        (request (unless_over limited handler) w, s')
