-- ===== src/Registry/Auth.antt =====
-- Authentication: backend/app/dependencies.py. `hash_api_key` is SHA-256, `lower` is `str.lower`, and
-- `parse_id` reads a token's subject as a user id (none: the database refuses the comparison).
use eval_ledger.Base.{
  ℕ, Bool, not, ◌&&◌, Option, none, some, List, [], ◌∷◌, String, str_eq, Text, codes, text_eq,
  is_empty, is_some, if◌then◌else◌, select, update_where, any, ◌==◌,
}
use eval_ledger.Errors.{AppError, app_error, app, unexpected}
use eval_ledger.Security.{Jwt, decode_access_token}
use eval_ledger.Registry.Db.{Db, User, ApiKey, user_has_id}
use eval_ledger.Registry.Session.{
  Outcome, returns, raises, Action, pure, raise, lift, require, ensure, query, write, commit, ◌>>=◌,
  ◌>>◌,
}

abbrev pub invalid_api_key : AppError
invalid_api_key = app_error "invalid_api_key" 401

abbrev pub account_deleted : AppError
account_deleted = app_error "account_deleted" 401

abbrev pub not_authenticated : AppError
not_authenticated = app_error "not_authenticated" 401

abbrev pub invalid_auth_header : AppError
invalid_auth_header = app_error "invalid_auth_header" 401

abbrev pub user_not_found : AppError
user_not_found = app_error "user_not_found" 401

abbrev pub forbidden : AppError
forbidden = app_error "forbidden" 403

-- An active key with that hash, of a user that exists.
abbrev pub usable_key : String → List User → ApiKey → Bool
usable_key hash users k = str_eq k.key_hash hash && k.is_active && any (user_has_id k.user_id) users

unfoldable pub key_owner : String → Db → Option (ApiKey × User)
key_owner hash db = elim (select (usable_key hash db.users) db.api_keys) [
  | none ↦ none
  | some k ↦ elim (select (user_has_id k.user_id) db.users) [ none ↦ none | some u ↦ some (k, u) ]
]

unfoldable pub touch_key : ℕ → ℕ → Db → Db
touch_key key_id now db = record db {
  api_keys =
      update_where (λ k. k.id == key_id) (λ k. record k { last_used_at = some now }) db.api_keys;
}

unfoldable pub authenticate_api_key : (String → String) → String → ℕ → Action User
unfolding touch_key commit
authenticate_api_key hash_api_key api_key now = do
  found ← query (key_owner (hash_api_key api_key))
  record_ ← require found invalid_api_key
  ensure (not (is_some record_.1.deleted_at)) account_deleted
  write (touch_key record_.0.id now)
  commit
  pure record_.1

-- `authorization.partition(" ")`: what stands before the first space, and after it.
unfoldable pub partition_space : Text → Text × Text
partition_space [] = ([], [])
partition_space (c ∷ s) =
    let (scheme, token) = partition_space s in if c == 32 then ([], s) else (c ∷ scheme, token)

unfoldable pub find_user : Option ℕ → Action (Option User)
find_user none = raise unexpected
find_user (some i) = query (λ db. select (user_has_id i) db.users)

-- The user that a valid token names.
unfoldable pub user_of_subject : Option ℕ → Action User
unfolding find_user
user_of_subject subject = do
  found ← find_user subject
  user ← require found user_not_found
  ensure (not (is_some user.deleted_at)) account_deleted
  pure user

module _ (hash_api_key : String → String) (lower : Text → Text) (jwt : Jwt)
    (parse_id : Text → Option ℕ) where
  unfoldable pub authenticate_bearer : Text → ℕ → Action User
  authenticate_bearer authorization now = do
    let (scheme, token) = partition_space authorization
    ensure (text_eq (lower scheme) (codes "bearer") && not (is_empty token)) invalid_auth_header
    payload ← lift (decode_access_token jwt token now)
    user_of_subject (parse_id payload.sub)

  -- The two headers; an empty one counts as absent.
  unfoldable pub get_current_user : Option String → Option Text → ℕ → Action User
  get_current_user (some x_api_key) authorization now =
      if str_eq x_api_key ""
      then elim authorization [
        | none ↦ raise (app not_authenticated)
        | some a ↦ if is_empty a then raise (app not_authenticated) else authenticate_bearer a now
      ]
      else authenticate_api_key hash_api_key x_api_key now
  get_current_user none none now = raise (app not_authenticated)
  get_current_user none (some a) now =
      if is_empty a then raise (app not_authenticated) else authenticate_bearer a now

  anonymous_on_error : Outcome User → Outcome (Option User)
  anonymous_on_error (returns u) = returns (some u)
  anonymous_on_error (raises (app e)) = returns none
  anonymous_on_error (raises e) = raises e

  unfoldable pub get_optional_user : Option String → Option Text → ℕ → Action (Option User)
  unfolding anonymous_on_error
  get_optional_user x_api_key authorization now w =
      let (r, w') = get_current_user x_api_key authorization now w in (anonymous_on_error r, w')

unfoldable pub get_admin_user : User → Action User
get_admin_user current_user = do ensure current_user.is_admin forbidden; pure current_user
