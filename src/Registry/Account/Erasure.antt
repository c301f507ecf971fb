-- ===== src/Registry/Account/Erasure.antt =====
-- What the erasure of an account guarantees, at once and for every later request.
use eval_ledger.Base.{
  ℕ, ◌≡◌, refl, ap, Bool, ◌∙◌, true, false, not, ◌&&◌, Option, none, some, List, [], ◌∷◌, ◌++◌,
  String, str_eq, Text, select, select-All, select-update_where, update_where, filter, ◌==◌,
  ==_self, is_some, is_empty, All, arith, Bool-cases, Option-cases, inl, inr, text_eq, codes,
}
use eval_ledger.Errors
use eval_ledger.Errors.{Raised, app}
use eval_ledger.Security.{Jwt, decode_access_token}
use eval_ledger.Registry.Db.{
  Db, User, ApiKey, UserIdentity, user_has_id, key_of_user, identity_of_user,
}
use eval_ledger.Registry.Session.{World, returns, request}
use eval_ledger.Registry.Auth.{
  key_owner, authenticate_api_key, authenticate_bearer, get_current_user, user_of_subject,
  usable_key, partition_space,
}
use eval_ledger.Registry.Account.{tombstone, delete_my_account, account_event}

-- Nothing of user i is left: the account is stamped deleted, its keys are revoked, its OAuth
-- identities are unlinked.
pub record Erased (i : ℕ) (db : Db) : Type 0 where
  pub users : All (λ (u : User). user_has_id i u ≡ true → is_some u.deleted_at ≡ true) db.users
  pub api_keys : All (λ (k : ApiKey). key_of_user i k ≡ true → k.is_active ≡ false) db.api_keys
  pub identities : All (λ (x : UserIdentity). identity_of_user i x ≡ false) db.identities

users_erased :
    (email username : String) (now i : ℕ) (us : List User)
    → All
        (λ (u : User). user_has_id i u ≡ true → is_some u.deleted_at ≡ true)
        (update_where (user_has_id i) (tombstone email username now) us)
users_erased email username now i [] = tt
users_erased email username now i (u ∷ us) = elim (Bool-cases (user_has_id i u)) [
  | inl e ↦ rw e (λ _. refl, users_erased email username now i us)
  | inr e ↦ rw e (λ h. cc (e, h), users_erased email username now i us)
]

keys_erased :
    (i : ℕ) (ks : List ApiKey)
    → All
        (λ (k : ApiKey). key_of_user i k ≡ true → k.is_active ≡ false)
        (update_where (key_of_user i) (λ k. record k { is_active = false }) ks)
keys_erased i [] = tt
keys_erased i (k ∷ ks) = elim (Bool-cases (key_of_user i k)) [
  | inl e ↦ rw e (λ _. refl, keys_erased i ks)
  | inr e ↦ rw e (λ h. cc (e, h), keys_erased i ks)
]

identities_erased :
    (i : ℕ) (xs : List UserIdentity)
    → All
        (λ (x : UserIdentity). identity_of_user i x ≡ false)
        (filter (λ x. not (identity_of_user i x)) xs)
identities_erased i [] = tt
identities_erased i (x ∷ xs) = elim (Bool-cases (identity_of_user i x)) [
  | inl e ↦ rw e (identities_erased i xs)
  | inr e ↦ rw e (e, identities_erased i xs)
]

select_other :
    (i j : ℕ) (f : User → User) (us : List User)
    → ((u : User) → (f u).id ≡ u.id)
    → (i == j) ≡ false
    → select (user_has_id j) (update_where (user_has_id i) f us) ≡ select (user_has_id j) us
select_other i j f [] keeps h = refl
select_other i j f (u ∷ us) keeps h = ground (arith, keeps u, select_other i j f us keeps h)

filter-update_where :
    {A : Type 0} (p : A → Bool) (f : A → A) (xs : List A)
    → ((x : A) → p (f x) ≡ p x)
    → filter (λ x. not (p x)) (update_where p f xs) ≡ filter (λ x. not (p x)) xs
filter-update_where p f [] keeps = refl
filter-update_where p f (x ∷ xs) keeps = elim (Bool-cases (p x)) [
  | inl e ↦ rw (e, keeps x, e) (filter-update_where p f xs keeps)
  | inr e ↦ rw (e, e) (ap (λ ys. x ∷ ys) (filter-update_where p f xs keeps))
]

filter-filter : {A : Type 0} (p : A → Bool) (xs : List A) → filter p (filter p xs) ≡ filter p xs
filter-filter p [] = refl
filter-filter p (x ∷ xs) = elim (Bool-cases (p x)) [
  | inl e ↦ rw (e, e) (ap (λ ys. x ∷ ys) (filter-filter p xs))
  | inr e ↦ rw e (filter-filter p xs)
]

-- A request to delete the account of a row that the table has always succeeds. After it the row has its
-- id, the new address and name, the time of deletion, and nothing else of the person: no password,
-- display name, bio, website, affiliation or privilege; its keys are revoked and its identities gone.
-- The rows of all other users, their keys and their identities, in their order, all benchmarks,
-- versions and abuse reports, the object storage and the queue are as they were, and the audit trail
-- has one event more.
pub delete_my_account_erases :
    (email username : String) (now : ℕ) (user : User) (other : ℕ) (w : World)
    → select (user_has_id user.id) w.committed.users ≡ some user
    → (user.id == other) ≡ false
    → let (r, w') = request (delete_my_account email username now user) w in
      (r ≡ returns tt)
      × Erased user.id w'.committed
      × (select (user_has_id user.id) w'.committed.users
          ≡ some (record {
            id = user.id;
            email = email;
            username = username;
            password_hash = none;
            display_name = none;
            bio = none;
            website = none;
            affiliation = none;
            is_verified = false;
            is_admin = false;
            deleted_at = some now;
          }))
      × (select (user_has_id other) w'.committed.users
          ≡ select (user_has_id other) w.committed.users)
      × (filter (λ u. not (user_has_id user.id u)) w'.committed.users
          ≡ filter (λ u. not (user_has_id user.id u)) w.committed.users)
      × (filter (λ k. not (key_of_user user.id k)) w'.committed.api_keys
          ≡ filter (λ k. not (key_of_user user.id k)) w.committed.api_keys)
      × (filter (λ x. not (identity_of_user user.id x)) w'.committed.identities
          ≡ filter (λ x. not (identity_of_user user.id x)) w.committed.identities)
      × (w'.committed.reports ≡ w.committed.reports)
      × (w'.objects ≡ w.objects)
      × (w'.tasks ≡ w.tasks)
      × (w'.committed.benchmarks ≡ w.committed.benchmarks)
      × (w'.committed.versions ≡ w.committed.versions)
      × (w'.committed.audit_events
          ≡ w.committed.audit_events
            ++ account_event user.id "user.deleted" "user" user.id none ∷ [])
unfolding request delete_my_account
delete_my_account_erases email username now user other w found differs = (
  refl,
  record {
    users = users_erased email username now user.id w.committed.users;
    api_keys = keys_erased user.id w.committed.api_keys;
    identities = identities_erased user.id w.committed.identities;
  },
  select-update_where (user_has_id user.id) (user_has_id user.id) (tombstone email username now)
        w.committed.users (λ u e. refl) user found
      ∙ rw (==_self user.id),
  select_other user.id other (tombstone email username now) w.committed.users (λ u. refl) differs,
  filter-update_where (user_has_id user.id) (tombstone email username now) w.committed.users
      (λ u. refl),
  filter-update_where (key_of_user user.id) (λ k. record k { is_active = false })
      w.committed.api_keys (λ k. refl),
  filter-filter (λ x. not (identity_of_user user.id x)) w.committed.identities,
  refl,
  refl,
  refl,
  refl,
  refl,
  refl,
)

abbrev Alive : ℕ → User → Type 0
Alive i u = user_has_id i u ≡ true → is_some u.deleted_at ≡ true

key_owner-All :
    (i : ℕ) (hash : String) (db : Db) (k : ApiKey) (u : User)
    → All (Alive i) db.users
    → key_owner hash db ≡ some (k, u)
    → Alive i u
unfolding key_owner
key_owner-All i hash db k u h e =
    elim (Option-cases (select (usable_key hash db.users) db.api_keys)) [
      | inl none_usable ↦ ground (arith, e, none_usable)
      | inr (key, usable) ↦
          select-All (Alive i) (user_has_id key.user_id) db.users u h (ground (arith, e, usable))
    ]

-- A user that is alive under `Erased i` is not i.
Alive-differs : (i : ℕ) (u : User) → Alive i u → is_some u.deleted_at ≡ false → (u.id == i) ≡ false
Alive-differs i u h e = elim (Bool-cases (u.id == i)) [
  | inl same ↦ cc (h same, e)
  | inr other ↦ other
]

api_key_differs :
    (hash_api_key : String → String) (key : String) (now i : ℕ) (w : World) (v : User)
    → All (Alive i) w.working.users
    → (authenticate_api_key hash_api_key key now w).0 ≡ returns v
    → (v.id == i) ≡ false
unfolding authenticate_api_key
api_key_differs hash key now i w v h ok = elim (Option-cases (key_owner (hash key) w.working)) [
  | inl e ↦ ground (arith, e, ok)
  | inr ((k, u), e) ↦
      let alive = key_owner-All i (hash key) w.working k u h e in
      elim (Bool-cases (is_some u.deleted_at)) [
        | inl gone ↦ ground (arith, e, ok, gone)
        | inr here ↦ ground (arith, e, ok, here, Alive-differs i u alive here)
      ]
]

subject_differs :
    (subject : Option ℕ) (i : ℕ) (w : World) (v : User)
    → All (Alive i) w.working.users
    → (user_of_subject subject w).0 ≡ returns v
    → (v.id == i) ≡ false
unfolding user_of_subject
subject_differs none i w v h ok = cc
subject_differs (some j) i w v h ok = elim (Option-cases (select (user_has_id j) w.working.users)) [
  | inl e ↦ ground (arith, e, ok)
  | inr (u, e) ↦
      let alive = select-All (Alive i) (user_has_id j) w.working.users u h e in
      elim (Bool-cases (is_some u.deleted_at)) [
        | inl gone ↦ ground (arith, e, ok, gone)
        | inr here ↦ ground (arith, e, ok, here, Alive-differs i u alive here)
      ]
]

bearer_differs :
    (hash_api_key : String → String) (lower : Text → Text) (jwt : Jwt) (parse_id : Text → Option ℕ)
    (authorization : Text) (now i : ℕ) (w : World) (v : User)
    → All (Alive i) w.working.users
    → (authenticate_bearer hash_api_key lower jwt parse_id authorization now w).0 ≡ returns v
    → (v.id == i) ≡ false
unfolding authenticate_bearer
bearer_differs hash lower jwt parse_id a now i w v h ok =
    let header = partition_space a in
    let valid = text_eq (lower header.0) (codes "bearer") && not (is_empty header.1) in
    elim (Bool-cases valid) [
      | inr bad ↦ cc (rw bad at ok)
      | inl good ↦ elim (Errors.Result-cases (decode_access_token jwt header.1 now)) [
        | inr (e, refused) ↦ cc (rw (good, refused) at ok)
        | inl (payload, decoded) ↦
            subject_differs (parse_id payload.sub) i w v h (rw (good, decoded) at ok)
      ]
    ]

header_differs :
    (hash_api_key : String → String) (lower : Text → Text) (jwt : Jwt) (parse_id : Text → Option ℕ)
    (x_api_key : Option String) (authorization : Option Text) (now i : ℕ) (w : World) (v : User)
    → All (Alive i) w.working.users
    → (get_current_user hash_api_key lower jwt parse_id x_api_key authorization now w).0 ≡ returns v
    → (v.id == i) ≡ false
unfolding get_current_user
header_differs hash lower jwt parse_id none none now i w v h ok = cc
header_differs hash lower jwt parse_id none (some a) now i w v h ok =
    elim (Bool-cases (is_empty a)) [
      | inl e ↦ cc (rw e at ok)
      | inr e ↦ bearer_differs hash lower jwt parse_id a now i w v h (rw e at ok)
    ]
header_differs hash lower jwt parse_id (some x) none now i w v h ok =
    elim (Bool-cases (str_eq x "")) [
      | inl e ↦ cc (rw e at ok)
      | inr e ↦ api_key_differs hash x now i w v h (rw e at ok)
    ]
header_differs hash lower jwt parse_id (some x) (some a) now i w v h ok =
    elim (Bool-cases (str_eq x "")) [
      | inr e ↦ api_key_differs hash x now i w v h (rw e at ok)
      | inl e ↦ elim (Bool-cases (is_empty a)) [
        | inl e' ↦ cc (rw (e, e') at ok)
        | inr e' ↦ bearer_differs hash lower jwt parse_id a now i w v h (rw (e, e') at ok)
      ]
    ]

-- No request authenticates as an erased user, whatever key or token it sends.
pub Erased-never_authenticates :
    (hash_api_key : String → String) (lower : Text → Text) (jwt : Jwt) (parse_id : Text → Option ℕ)
    (x_api_key : Option String) (authorization : Option Text) (now i : ℕ) (w : World) (v : User)
    → Erased i w.committed
    → (request (get_current_user hash_api_key lower jwt parse_id x_api_key authorization now) w).0
      ≡ returns v
    → (v.id == i) ≡ false
unfolding request
Erased-never_authenticates hash lower jwt parse_id x a now i w v erased ok =
    header_differs hash lower jwt parse_id x a now i (record w { working = w.committed }) v
      erased.users ok
