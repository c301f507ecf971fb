-- ===== src/Witnesses/Callback.antt =====
-- A sign-in with Google, and one with GitHub.
use eval_ledger.Base.{
  ℕ, ◌≡◌, refl, true, false, Option, none, some, [], ◌∷◌, ◌++◌, Text, codes, select,
}
use eval_ledger.Security.{make_state_token, verify_state_token}
use eval_ledger.RateLimit.Identity.{Request}
use eval_ledger.RateLimit.Limiter.{Redis}
use eval_ledger.Registry.Session.{returns, request}
use eval_ledger.Registry.Db.{user_has_id}
use eval_ledger.Registry.Auth.{get_current_user}
use eval_ledger.Registry.SignIn.{
  Profile, find_or_create_oauth_user, unknown_user, register_user, unique_username,
  slugify_username, is_admin_email,
}
use eval_ledger.Registry.SignIn.Linked.{Linked}
use eval_ledger.Registry.Callback.{
  Times, Callback, signed_in, token_of, finish, google_oauth_callback, github_oauth_callback,
}
use eval_ledger.Registry.Providers.{GoogleUser, Google, Github, google_profile}
use eval_ledger.Registry.Callback.Atomic.{
  Outcomes, GithubReports, GoogleReports, github_oauth_callback_lem,
}
use eval_ledger.Registry.Callback.Takeover.{OnlyNew, unverified_google_is_new}
use eval_ledger.Registry.Callback.Token.{live, later, google_token_authenticates}
use eval_ledger.Witnesses.Services.{jwt, jwt-DecodesSigned, lower}
use eval_ledger.Witnesses.Rows.{world}
use eval_ledger.Witnesses.SignIn.{naming}

abbrev no_limiter : Option (Redis Unit)
no_limiter = none

abbrev subject_of : ℕ → Text
subject_of i = i ∷ []

abbrev parse_id : Text → Option ℕ
parse_id [] = none
parse_id (i ∷ t) = some i

abbrev times : Times
times = record {
  limiter = record { at_slot = 1000; at_expire = 1000; at_reset = 1000 };
  identified_at = 1000;
  verified_at = 1001;
  issued_at = 1002;
}

abbrev visitor : Request
visitor = record {
  authorization = none;
  x_api_key = none;
  x_forwarded_for = none;
  client_host = some (codes "10.0.0.1");
}

abbrev query : Callback
query = record {
  code = some (codes "c");
  state = some (make_state_token jwt 60 1000);
  error = none;
}

abbrev decimal : ℕ → Text
decimal n = codes "n"

abbrev g_user : GoogleUser
g_user = record {
  sub = some "77";
  email = some (codes "alice@example.org");
  email_verified = false;
  name = some (codes "Mallory");
}

abbrev google : Google
google = record {
  post_token = λ code. some (record { status_code = 200; json = some (some (codes "t")) });
  get_userinfo = λ token. some (record { status_code = 200; json = some g_user });
}

abbrev github : Github
github = record {
  post_token = λ code. some (record { status_code = 200; json = some (some (codes "t")) });
  get_user = λ token. some (record {
    status_code = 200;
    json = some (record { id = some "5"; name = none; login = some (codes "bob") });
  });
  get_emails = λ token. some (record { status_code = 404; json = none });
}

unverified_google_is_new_example :
    OnlyNew naming subject_of jwt 60 times 40
      (request
        (finish naming subject_of jwt 60 times 40 (google_profile naming.render g_user))
        world)
      world
unverified_google_is_new_example =
    unverified_google_is_new naming subject_of jwt 60 times 40 g_user "77" world refl refl refl

github_oauth_callback_lem_example :
    let (r, w') =
      (github_oauth_callback no_limiter true decimal lower lower jwt 1 naming subject_of 60 times 40
        visitor query github tt world).0 in
    Outcomes
      (GithubReports github)
      jwt
      1001
      (token_of naming subject_of jwt 60 times 40)
      query
      r
      world
      w'
github_oauth_callback_lem_example =
    github_oauth_callback_lem no_limiter true decimal lower lower jwt 1 naming subject_of 60 times
      40 visitor query github tt world

google_answers :
    (google_oauth_callback no_limiter true decimal lower lower jwt 1 naming subject_of 60 times 40
      visitor query google tt world).0.0
    ≡ returns (signed_in (token_of naming subject_of jwt 60 times 40 40))
unfolding google_oauth_callback find_or_create_oauth_user unknown_user register_user unique_username
    slugify_username is_admin_email verify_state_token make_state_token google_profile
google_answers = refl

google_token_authenticates_example :
    let (r, w') =
      (google_oauth_callback no_limiter true decimal lower lower jwt 1 naming subject_of 60 times 40
        visitor query google tt world).0 in
    let t = token_of naming subject_of jwt 60 times 40 40 in
    (code : Text) × (profile : Profile) × (user_id : ℕ) × (some (codes "c") ≡ some code)
    × GoogleReports google code profile
    × Linked profile user_id w'.committed
    × (get_current_user
          (λ k. k)
          lower
          jwt
          parse_id
          none
          (some (codes "Bearer " ++ t))
          1003
          (later world)
        ≡ (live (select (user_has_id user_id) world.committed.users), later world))
google_token_authenticates_example =
    google_token_authenticates no_limiter true decimal lower lower jwt 1 naming subject_of 60 times
      40 visitor query (λ k. k) parse_id jwt-DecodesSigned (λ c. refl) refl (λ i. refl) google tt
      world (token_of naming subject_of jwt 60 times 40 40) 1003 world google_answers refl refl
