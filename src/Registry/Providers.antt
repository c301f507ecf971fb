-- ===== src/Registry/Providers.antt =====
-- The providers of OAuth sign-ins as backend/app/routers/oauth.py reads them: their replies, and the
-- profile that a callback makes of what they report. None is an exception of httpx; a reply whose body
-- is not the JSON that the handler goes on to read has none as its `json`.
use eval_ledger.Base.{
  ℕ, Bool, Option, none, some, List, [], String, Text, codes, is_empty, split, get_elem?, or_else,
  if◌then◌else◌,
}
use eval_ledger.Registry.SignIn.{Profile, EmailEntry}

pub record Reply (A : Type 0) : Type 0 where
  pub status_code : ℕ
  pub json : Option A

-- `login` and `name` of GitHub's profile, `id` as a string.
pub record GithubUser : Type 0 where
  pub id : Option String
  pub name : Option Text
  pub login : Option Text

pub record GoogleUser : Type 0 where
  pub sub : Option String
  pub email : Option Text
  pub email_verified : Bool
  pub name : Option Text

-- The body of the reply to the exchange is its `access_token`; the one of the addresses is none if it is
-- JSON but not a list.
pub record Github : Type 0 where
  pub post_token : Text → Option (Reply (Option Text))
  pub get_user : Text → Option (Reply GithubUser)
  pub get_emails : Text → Option (Reply (Option (List EmailEntry)))

pub record Google : Type 0 where
  pub post_token : Text → Option (Reply (Option Text))
  pub get_userinfo : Text → Option (Reply GoogleUser)

-- A text that is there and not empty.
unfoldable pub given_text : Option Text → Option Text
given_text none = none
given_text (some t) = if is_empty t then none else some t

unfoldable pub or_first : Option Text → Option Text → Option Text
or_first none b = b
or_first (some a) b = some a

unfoldable pub optional_text : (Text → String) → Option Text → Option String
optional_text render none = none
optional_text render (some t) = some (render t)

unfoldable pub github_profile : (Text → String) → Option String → GithubUser → Option Profile
unfolding given_text or_first optional_text
github_profile render email gh_user = elim gh_user.id [
  | none ↦ none
  | some id ↦ some (record {
    provider = "github";
    provider_user_id = id;
    email = email;
    display_name = optional_text render (or_first (given_text gh_user.name) gh_user.login);
    username_hint = or_else gh_user.login (codes "githubuser");
  })
]

-- Only an address that Google has verified counts.
unfoldable pub google_email : GoogleUser → Option Text
google_email g_user = if g_user.email_verified then g_user.email else none

unfoldable pub before_at : Text → Text
unfolding split
before_at email = or_else (get_elem? (split b'@' email) 0) []

unfoldable pub google_hint : Option Text → Text → Text
google_hint (some email) name =
    let prefix = before_at email in if is_empty prefix then codes "googleuser" else prefix
google_hint none name = if is_empty name then codes "googleuser" else name

unfoldable pub google_profile : (Text → String) → GoogleUser → Option Profile
unfolding google_email google_hint given_text optional_text
google_profile render g_user = elim g_user.sub [
  | none ↦ none
  | some sub ↦ some (record {
    provider = "google";
    provider_user_id = sub;
    email = optional_text render (google_email g_user);
    display_name = optional_text render (given_text g_user.name);
    username_hint = google_hint (given_text (google_email g_user)) (or_else g_user.name []);
  })
]
