-- ===== src/Registry/SignIn.antt =====
-- backend/app/services/oauth.py, and `_verified_primary_email` of backend/app/routers/oauth.py: which
-- account an OAuth identity signs in to. The exchange with the provider comes before it.
pub mod Linked
pub mod Stable
pub mod Addresses
use eval_ledger.Base.{
  ℕ, zero, suc, ◌+◌, Bool, true, false, not, ◌&&◌, ◌||◌, Option, none, some, List, [], ◌∷◌, ◌++◌,
  String, str_eq, str_append, Text, codes, is_empty, if◌then◌else◌, select, update_where, any,
  filter, take, leb, ◌==◌, is_some,
}
use eval_ledger.Errors.{unexpected}
use eval_ledger.Registry.Db.{Db, User, UserIdentity, AuditEvent, user_has_id}
use eval_ledger.Registry.Session.{
  Action, pure, raise, query, write, insert_unless, record_audit_event, ◌>>=◌, ◌>>◌,
}
use eval_ledger.Registry.Account.{account_event}

-- The setting `admin_emails`, and Python's str.lower and str on numbers; `render` is the string with
-- the given code points, `uuid_hex` the eight digits of the last resort.
pub record Naming : Type 0 where
  pub admin_emails : List String
  pub lower_string : String → String
  pub lower : Text → Text
  pub decimal : ℕ → Text
  pub render : Text → String
  pub uuid_hex : Text

-- What the provider says of the caller.
pub record Profile : Type 0 where
  pub provider : String
  pub provider_user_id : String
  pub email : Option String
  pub display_name : Option String
  pub username_hint : Text

-- An email that is there and not empty.
abbrev pub given_email : Option String → Option String
given_email none = none
given_email (some e) = if str_eq e "" then none else some e

abbrev pub is_safe : ℕ → Bool
is_safe c = (leb b'a' c && leb c b'z') || ((leb b'0' c && leb c b'9') || (c == b'_'))

abbrev pub has_username : String → User → Bool
has_username username u = str_eq u.username username

abbrev pub has_email : String → User → Bool
has_email email u = str_eq u.email email

abbrev pub is_identity : String → String → UserIdentity → Bool
is_identity provider provider_user_id x =
    str_eq x.provider provider && str_eq x.provider_user_id provider_user_id

-- `assert user is not None`
abbrev pub assert_some : Option User → Action User
assert_some none = raise unexpected
assert_some (some u) = pure u

module _ (naming : Naming) where
  unfoldable pub is_admin_email : String → Bool
  is_admin_email email =
      any (λ e. str_eq (naming.lower_string email) (naming.lower_string e)) naming.admin_emails

  unfoldable pub slugify_username : Text → Text
  slugify_username raw =
      let cleaned = filter is_safe (naming.lower raw) in
      take 28 (if is_empty cleaned then codes "user" else cleaned)

  -- The candidates i, i + 1, … that the loop still has to try.
  unfoldable pub numbered_username : ℕ → ℕ → Text → List User → String
  numbered_username zero i base users = naming.render (take 20 base ++ b'_' ∷ naming.uuid_hex)
  numbered_username (suc n) i base users =
      let rest = numbered_username n (i + 1) base users in
      let candidate = naming.render (take 32 (base ++ naming.decimal i)) in
      if any (has_username candidate) users then rest else candidate

  unfoldable pub unique_username : Text → List User → String
  unique_username hint users =
      let base = slugify_username hint in
      if any (has_username (naming.render base)) users
      then numbered_username 9999 1 base users
      else naming.render base

  -- `if email and identity.provider_email != email: identity.provider_email = email`
  abbrev pub sync_email : Option String → UserIdentity → UserIdentity
  sync_email none x = x
  sync_email (some e) x = record x { provider_email = some e }

  abbrev pub sync_admin : Option String → User → User
  sync_admin none u = u
  sync_admin (some e) u = record u { is_admin = is_admin_email e }

  unfoldable pub known_user : Profile → UserIdentity → Action User
  known_user profile identity = do
    found ← query (λ db. select (user_has_id identity.user_id) db.users)
    user ← assert_some found
    let email = given_email profile.email
    write (λ db. record db {
      identities =
          update_where (is_identity profile.provider profile.provider_user_id) (sync_email email)
            db.identities;
      users = update_where (user_has_id user.id) (sync_admin email) db.users;
    })
    pure (sync_admin email user)

  abbrev pub fallback_email : Profile → String
  fallback_email profile = elim (given_email profile.email) [
    | some e ↦ e
    | none ↦
        str_append profile.provider
          (str_append "_" (str_append profile.provider_user_id "@noreply.evalledger.app"))
  ]

  abbrev pub new_user : ℕ → Profile → List User → User
  new_user new_id profile users = record {
    id = new_id;
    email = fallback_email profile;
    username = unique_username profile.username_hint users;
    password_hash = none;
    display_name = profile.display_name;
    bio = none;
    website = none;
    affiliation = none;
    is_verified = false;
    is_admin = is_admin_email (fallback_email profile);
    deleted_at = none;
  }

  -- `email` and `username` are unique columns.
  unfoldable pub register_user : ℕ → Profile → Action User
  unfolding record_audit_event
  register_user new_id profile = do
    users ← query (λ db. db.users)
    let user = new_user new_id profile users
    insert_unless (any (has_email user.email) users || any (has_username user.username) users)
        (λ db. record db { users = db.users ++ user ∷ [] })
    record_audit_event (account_event new_id "user.registered" "user" new_id (some user.username))
    pure user

  abbrev find_by_email : Option String → Db → Option User
  find_by_email none db = none
  find_by_email (some e) db = select (has_email e) db.users

  abbrev pub new_identity : ℕ → Profile → UserIdentity
  new_identity user_id profile = record {
    user_id = user_id;
    provider = profile.provider;
    provider_user_id = profile.provider_user_id;
    provider_email = profile.email;
  }

  abbrev linked_or_new : ℕ → Profile → Option User → Action User
  linked_or_new new_id profile (some linked_user) = pure linked_user
  linked_or_new new_id profile none = register_user new_id profile

  unfoldable pub unknown_user : ℕ → Profile → Action User
  unknown_user new_id profile = do
    linked ← query (find_by_email (given_email profile.email))
    user ← linked_or_new new_id profile linked
    write (λ db. record db { identities = db.identities ++ new_identity user.id profile ∷ [] })
    pure user

  abbrev by_identity : ℕ → Profile → Option UserIdentity → Action User
  by_identity new_id profile (some identity) = known_user profile identity
  by_identity new_id profile none = unknown_user new_id profile

  -- `new_id` is the id of the user that it may create.
  unfoldable pub find_or_create_oauth_user : ℕ → Profile → Action User
  find_or_create_oauth_user new_id profile = do
    identity ←
        query (λ db. select (is_identity profile.provider profile.provider_user_id) db.identities)
    by_identity new_id profile identity

-- An entry of GitHub's list of addresses.
pub record EmailEntry : Type 0 where
  pub email : Option String
  pub primary : Bool
  pub verified : Bool

unfoldable pub verified_primary_email : List EmailEntry → Option String
verified_primary_email [] = none
verified_primary_email (entry ∷ entries) =
    let rest = verified_primary_email entries in
    if entry.primary && entry.verified
    then elim (given_email entry.email) [ some e ↦ some e | none ↦ rest ]
    else rest

-- A payload that is not a list names no address.
unfoldable pub primary_email_of : Option (List EmailEntry) → Option String
unfolding verified_primary_email
primary_email_of none = none
primary_email_of (some entries) = verified_primary_email entries
