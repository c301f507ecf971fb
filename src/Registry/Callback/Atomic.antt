-- ===== src/Registry/Callback/Atomic.antt =====
-- The callbacks of backend/app/routers/oauth.py sign in or leave no trace.
use eval_ledger.Base.{
  ℕ, ◌≡◌, refl, ap, ◌∙◌, String, ◌⊎◌, inl, inr, Bool, false, Option, none, some, Text, arith,
  Option-cases,
}
use eval_ledger.Errors.{ok, Result-cases}
use eval_ledger.Security.{Jwt, verify_state_token}
use eval_ledger.RateLimit.Identity.{Request}
use eval_ledger.RateLimit.Limiter.{Redis, Checked, inactive, allowed, throttled}
use eval_ledger.Registry.Session.{
  World, visible, Outcome, returns, Outcome-cases, Action, request, commit,
}
use eval_ledger.Registry.SignIn.{Naming, Profile, find_or_create_oauth_user}
use eval_ledger.Registry.SignIn.Linked.{sign_in-Linked}
use eval_ledger.Registry.Callback.{
  Redirect, Callback, Times, unless_denied, if_verified, unless_over, limit_redirect, sign_in,
  token_of, answer, finish, github_exchange, google_exchange, with_state, with_code, callback,
  oauth_rate_limit, github_oauth_callback, google_oauth_callback,
}
use eval_ledger.Registry.Providers.{
  Reply, GithubUser, GoogleUser, Github, Google, given_text, github_profile, google_profile,
}
use eval_ledger.Registry.Callback.Settling.{
  SignsIn, has_token, Settling, find_or_create_is_invisible, received-Settling, body-Settling,
  when_given-Settling, when_ok-Settling, listed_email-Settling,
}

-- GitHub reported the profile in the exchange of a code: the profile's identity is GitHub's, and the id
-- is the one in the reply to a request with an access token that GitHub gave for the code.
abbrev pub GithubReports : Github → Text → Profile → Type 0
GithubReports github code profile =
    (token_resp : Reply (Option Text)) × (access_token : Text) × (github.post_token code
      ≡ some token_resp)
    × (token_resp.json ≡ some (some access_token))
    × ((user_resp : Reply GithubUser) × (gh_user : GithubUser) × (github.get_user access_token
          ≡ some user_resp)
        × (user_resp.json ≡ some gh_user)
        × (gh_user.id ≡ some profile.provider_user_id)
        × (profile.provider ≡ "github"))

abbrev pub GoogleReports : Google → Text → Profile → Type 0
GoogleReports google code profile =
    (token_resp : Reply (Option Text)) × (access_token : Text) × (google.post_token code
      ≡ some token_resp)
    × (token_resp.json ≡ some (some access_token))
    × ((info_resp : Reply GoogleUser) × (g_user : GoogleUser) × (google.get_userinfo access_token
          ≡ some info_resp)
        × (info_resp.json ≡ some g_user)
        × (g_user.sub ≡ some profile.provider_user_id)
        × (profile.provider ≡ "google"))

given_text-some : (o : Option Text) (t : Text) → given_text o ≡ some t → o ≡ some t
unfolding given_text
given_text-some none t h = h
given_text-some (some x) t h = ground arith

github_profile-identity :
    (render : Text → String) (email : Option String) (gh_user : GithubUser) (profile : Profile)
    → github_profile render email gh_user ≡ some profile
    → (gh_user.id ≡ some profile.provider_user_id) × (profile.provider ≡ "github")
unfolding github_profile
github_profile-identity render email gh_user profile h = elim (Option-cases gh_user.id) [
  | inl e ↦ cc (rw e at h)
  | inr (id, e) ↦ (ground (arith, e, h), ground (arith, e, h))
]

google_profile-identity :
    (render : Text → String) (g_user : GoogleUser) (profile : Profile)
    → google_profile render g_user ≡ some profile
    → (g_user.sub ≡ some profile.provider_user_id) × (profile.provider ≡ "google")
unfolding google_profile
google_profile-identity render g_user profile h = elim (Option-cases g_user.sub) [
  | inl e ↦ cc (rw e at h)
  | inr (id, e) ↦ (ground (arith, e, h), ground (arith, e, h))
]

module _ (naming : Naming) (subject_of : ℕ → Text) (jwt : Jwt) (jwt_expiration_minutes : ℕ)
    (times : Times) (new_id : ℕ) where
  abbrev issued : ℕ → Text
  issued = token_of naming subject_of jwt jwt_expiration_minutes times new_id

  finish-Settling :
      (Reported : Profile → Type 0) (profile : Option Profile)
      → ((p : Profile) → profile ≡ some p → Reported p)
      → Settling Reported issued
          (finish naming subject_of jwt jwt_expiration_minutes times new_id profile)
  unfolding finish sign_in answer has_token SignsIn commit
  finish-Settling Reported none h w = inr (refl, refl)
  finish-Settling Reported (some profile) h w =
      elim (Outcome-cases (find_or_create_oauth_user naming new_id profile w).0) [
        | inl (u, e) ↦ rw e (
            inl (profile, h profile refl, (u.id, refl, sign_in-Linked naming profile new_id w u e)))
        | inr (f, e) ↦ rw e (inr (refl, find_or_create_is_invisible naming new_id profile w))
      ]

  github_exchange-Settling :
      (github : Github) (code : Text)
      → Settling
          (GithubReports github code)
          issued
          (github_exchange naming subject_of jwt jwt_expiration_minutes times new_id github code)
  unfolding github_exchange
  github_exchange-Settling github code =
      let R = GithubReports github code in
      received-Settling R issued (github.post_token code) _ (λ token_resp replied.
        body-Settling R issued token_resp.json _ (λ access_token read.
          when_given-Settling R issued (given_text access_token) _ _ (λ github_token given.
            received-Settling R issued (github.get_user github_token) _ (λ user_resp answered.
              when_ok-Settling R issued user_resp _ _ (λ gh_user is_json.
                received-Settling R issued (github.get_emails github_token) _ (λ emails_resp _.
                  listed_email-Settling R issued emails_resp _ (λ email.
                    finish-Settling R (github_profile naming.render email gh_user) (λ profile made.
                      (
                        token_resp,
                        github_token,
                        replied,
                        read ∙ ap some (given_text-some access_token github_token given),
                        (
                          user_resp,
                          gh_user,
                          answered,
                          is_json,
                          (github_profile-identity naming.render email gh_user profile made).0,
                          (github_profile-identity naming.render email gh_user profile made).1,
                        ),
                      )))))))))

  google_exchange-Settling :
      (google : Google) (code : Text)
      → Settling
          (GoogleReports google code)
          issued
          (google_exchange naming subject_of jwt jwt_expiration_minutes times new_id google code)
  unfolding google_exchange
  google_exchange-Settling google code =
      let R = GoogleReports google code in
      received-Settling R issued (google.post_token code) _ (λ token_resp replied.
        when_ok-Settling R issued token_resp _ _ (λ access_token read.
          when_given-Settling R issued (given_text access_token) _ _ (λ token given.
            received-Settling R issued (google.get_userinfo token) _ (λ info_resp answered.
              when_ok-Settling R issued info_resp _ _ (λ g_user is_json.
                finish-Settling R (google_profile naming.render g_user) (λ profile made. (
                  token_resp,
                  token,
                  replied,
                  read ∙ ap some (given_text-some access_token token given),
                  (
                    info_resp,
                    g_user,
                    answered,
                    is_json,
                    (google_profile-identity naming.render g_user profile made).0,
                    (google_profile-identity naming.render g_user profile made).1,
                  ),
                )))))))

-- The callback of a query signs in, with a state that verifies and as the provider reports for its code,
-- or answers without a token and leaves no trace.
unfoldable pub Outcomes :
    (Text → Profile → Type 0)
    → Jwt
    → ℕ
    → (ℕ → Text)
    → Callback
    → Outcome Redirect
    → World
    → World
    → Type 0
Outcomes Reports jwt now token query r w w' =
    ((state : Text) × (code : Text) × (query.state ≡ some state)
      × (verify_state_token jwt state now ≡ ok tt)
      × (query.code ≡ some code)
      × SignsIn (Reports code) token r w')
    ⊎ ((has_token r ≡ false) × (visible w' ≡ visible w))

module _ (naming : Naming) (subject_of : ℕ → Text) (jwt : Jwt) (jwt_expiration_minutes : ℕ)
    (times : Times) (new_id : ℕ) (query : Callback) (exchange : Text → Action Redirect)
    (Reports : Text → Profile → Type 0)
    (settling : (code : Text)
      → Settling
          (Reports code)
          (issued naming subject_of jwt jwt_expiration_minutes times new_id)
          (exchange code)) where
  abbrev token_for : ℕ → Text
  token_for = issued naming subject_of jwt jwt_expiration_minutes times new_id

  abbrev handler : Action Redirect
  handler = callback naming subject_of jwt jwt_expiration_minutes times new_id exchange query

  abbrev End : Outcome Redirect × World → World → Type 0
  End r w = Outcomes Reports jwt times.verified_at token_for query r.0 w r.1

  with_state_outcomes :
      (code state : Text) (w : World)
      → query.state ≡ some state
      → query.code ≡ some code
      → End
          (with_state naming subject_of jwt jwt_expiration_minutes times new_id exchange code state
            w)
          w
  unfolding with_state if_verified Outcomes has_token
  with_state_outcomes code state w given given_code =
      elim (Result-cases (verify_state_token jwt state times.verified_at)) [
        | inr (f, e) ↦ rw e (inr (refl, refl))
        | inl (u, e) ↦ elim (settling code w) [
          | inl signs ↦ rw e (inl (state, code, given, e, given_code, signs))
          | inr quiet ↦ rw e (inr quiet)
        ]
      ]

  with_code_outcomes :
      (code state : Option Text) (w : World)
      → ((t : Text) → state ≡ some t → query.state ≡ some t)
      → ((t : Text) → code ≡ some t → query.code ≡ some t)
      → End
          (with_code naming subject_of jwt jwt_expiration_minutes times new_id exchange code state
            w)
          w
  unfolding with_code Outcomes has_token
  with_code_outcomes none state w given given_code = inr (refl, refl)
  with_code_outcomes (some code) none w given given_code = inr (refl, refl)
  with_code_outcomes (some code) (some state) w given given_code =
      with_state_outcomes code state w (given state refl) (given_code code refl)

  callback_outcomes : (w : World) → End (handler w) w
  unfolding callback unless_denied Outcomes has_token
  callback_outcomes w = elim (Option-cases (given_text query.error)) [
    | inr (e, h) ↦ rw h (inr (refl, refl))
    | inl h ↦ rw h (
        with_code_outcomes (given_text query.code) (given_text query.state) w
          (given_text-some query.state) (given_text-some query.code))
  ]

  limited_outcomes :
      (limited : Option Redirect) (w : World)
      → ((r : Redirect) → limited ≡ some r → has_token (returns r) ≡ false)
      → End (request (unless_over limited handler) w) w
  unfolding request unless_over Outcomes callback SignsIn
  limited_outcomes none w early = callback_outcomes (record w { working = w.committed })
  limited_outcomes (some r) w early = inr (early r refl, refl)

limit_redirect_has_no_token :
    (checked : Checked) (r : Redirect)
    → limit_redirect checked ≡ some r
    → has_token (returns r) ≡ false
unfolding limit_redirect has_token
limit_redirect_has_no_token inactive r h = cc
limit_redirect_has_no_token (allowed state) r h = cc
limit_redirect_has_no_token (throttled n) r h = ground arith

module _ {S : Type 0} (limiter : Option (Redis S)) (rate_limit_enabled : Bool) (decimal : ℕ → Text)
    (lower sha256_prefix : Text → Text) (jwt : Jwt) (trusted_proxy_count : ℕ) (naming : Naming)
    (subject_of : ℕ → Text) (jwt_expiration_minutes : ℕ) (times : Times) (new_id : ℕ)
    (req : Request) (query : Callback) where
  -- A GitHub callback hands out a token only when its state token verifies, and then only for an account
  -- that the database links to the GitHub identity whose id GitHub reported for an access token that it
  -- gave for the code of the query; any other answer, an exception
  -- included, carries no token and leaves the database, the storage and the queue as they were.
  pub github_oauth_callback_lem :
      (github : Github) (s : S) (w : World)
      → let (r, w') =
          (github_oauth_callback limiter rate_limit_enabled decimal lower sha256_prefix jwt
            trusted_proxy_count naming subject_of jwt_expiration_minutes times new_id req query
            github s w).0 in
        Outcomes
          (GithubReports github)
          jwt
          times.verified_at
          (token_of naming subject_of jwt jwt_expiration_minutes times new_id)
          query
          r
          w
          w'
  unfolding github_oauth_callback oauth_rate_limit
  github_oauth_callback_lem github s w =
      limited_outcomes naming subject_of jwt jwt_expiration_minutes times new_id query
        (github_exchange naming subject_of jwt jwt_expiration_minutes times new_id github)
        (GithubReports github)
        (github_exchange-Settling naming subject_of jwt jwt_expiration_minutes times new_id github)
        _ w (limit_redirect_has_no_token _)

  -- The same of a Google callback.
  pub google_oauth_callback_lem :
      (google : Google) (s : S) (w : World)
      → let (r, w') =
          (google_oauth_callback limiter rate_limit_enabled decimal lower sha256_prefix jwt
            trusted_proxy_count naming subject_of jwt_expiration_minutes times new_id req query
            google s w).0 in
        Outcomes
          (GoogleReports google)
          jwt
          times.verified_at
          (token_of naming subject_of jwt jwt_expiration_minutes times new_id)
          query
          r
          w
          w'
  unfolding google_oauth_callback oauth_rate_limit
  google_oauth_callback_lem google s w =
      limited_outcomes naming subject_of jwt jwt_expiration_minutes times new_id query
        (google_exchange naming subject_of jwt jwt_expiration_minutes times new_id google)
        (GoogleReports google)
        (google_exchange-Settling naming subject_of jwt jwt_expiration_minutes times new_id google)
        _ w (limit_redirect_has_no_token _)
