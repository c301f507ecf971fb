-- ===== src/Registry/Account.antt =====
-- API keys (backend/app/routers/auth.py) and the erasure of an account (`delete_user` of
-- backend/app/services/account.py).
pub mod Erasure
use eval_ledger.Base.{
  ℕ, ◌≡◌, refl, Bool, true, false, not, ◌&&◌, Option, none, some, List, [], ◌∷◌, ◌++◌, String,
  str_eq, if◌then◌else◌, select, update_where, any, filter, ◌==◌,
}
use eval_ledger.Errors.{AppError, app_error}
use eval_ledger.Registry.Db.{
  Db, User, ApiKey, UserIdentity, AuditEvent, user_has_id, key_of_user, identity_of_user,
}
use eval_ledger.Registry.Session.{
  World, Action, pure, require, query, write, insert_unless, commit, record_audit_event, ◌>>=◌,
  ◌>>◌,
}

abbrev pub api_key_not_found : AppError
api_key_not_found = app_error "api_key_not_found" 404

-- The audit event of an operation on the caller's own account.
abbrev pub account_event : ℕ → String → String → ℕ → Option String → AuditEvent
account_event actor action resource_type resource_id resource_slug = record {
  actor_user_id = some actor;
  benchmark_id = none;
  version_id = none;
  action = action;
  resource_type = resource_type;
  resource_id = some resource_id;
  resource_slug = resource_slug;
}

-- `new_id` names the row, `key_hash` is the hash of the key that was generated.
unfoldable pub create_api_key : ℕ → String → String → User → Action ApiKey
unfolding record_audit_event commit
create_api_key new_id key_hash name current_user = do
  let key : ApiKey = record {
    id = new_id;
    user_id = current_user.id;
    key_hash = key_hash;
    name = some name;
    last_used_at = none;
    is_active = true;
  }
  taken ← query (λ db. any (λ k. str_eq k.key_hash key_hash) db.api_keys)
  insert_unless taken (λ db. record db { api_keys = db.api_keys ++ key ∷ [] })
  record_audit_event (account_event current_user.id "api_key.created" "api_key" new_id (some name))
  commit
  pure key

abbrev pub own_key : ℕ → ℕ → ApiKey → Bool
own_key api_key_id user_id k = (k.id == api_key_id) && (k.user_id == user_id)

unfoldable pub revoke_key : ℕ → Db → Db
revoke_key api_key_id db = record db {
  api_keys =
      update_where (λ k. k.id == api_key_id) (λ k. record k { is_active = false }) db.api_keys;
}

unfoldable pub deactivate_api_key : ℕ → User → Action Unit
unfolding revoke_key record_audit_event commit
deactivate_api_key api_key_id current_user = do
  found ← query (λ db. select (own_key api_key_id current_user.id) db.api_keys)
  key ← require found api_key_not_found
  write (revoke_key key.id)
  record_audit_event (account_event current_user.id "api_key.revoked" "api_key" key.id key.name)
  commit

-- The tombstone that replaces a user; `email` and `username` are `deleted-{id}@deleted.evalledger.app`
-- and `deleted_{uuid}`.
abbrev pub tombstone : String → String → ℕ → User → User
tombstone email username now user = record {
  id = user.id;
  email = email;
  username = username;
  password_hash = none;
  display_name = none;
  bio = none;
  website = none;
  affiliation = none;
  is_verified = false;
  is_admin = false;
  deleted_at = some now;
}

unfoldable pub erase : String → String → ℕ → ℕ → Db → Db
erase email username now user_id db = record db {
  users = update_where (user_has_id user_id) (tombstone email username now) db.users;
  api_keys = update_where (key_of_user user_id) (λ k. record k { is_active = false }) db.api_keys;
  identities = filter (λ x. not (identity_of_user user_id x)) db.identities;
}

unfoldable pub delete_user : String → String → ℕ → User → Action Unit
unfolding erase record_audit_event
delete_user email username now user = do
  write (erase email username now user.id)
  record_audit_event (account_event user.id "user.deleted" "user" user.id none)

unfoldable pub delete_my_account : String → String → ℕ → User → Action Unit
unfolding delete_user commit
delete_my_account email username now current_user = do
  delete_user email username now current_user
  commit
