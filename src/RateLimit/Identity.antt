-- ===== src/RateLimit/Identity.antt =====
-- Client identity: `_bearer_token`, `_valid_bearer_token`, `_client_ip`, `get_client_id` and
-- `is_authenticated` of backend/app/ratelimit.py. `lower` is `str.lower`, and `sha256_prefix` the first
-- 16 hexadecimal digits of a SHA-256 digest.
use eval_ledger.Base.{
  ℕ, ◌-◌, Bool, Option, none, some, List, [], ◌++◌, if◌then◌else◌, Text, codes, is_empty, is_some,
  strip, split, stripped_items, starts_with, drop, length, get_elem?, or_else, max,
}
use eval_ledger.Errors.{Result, ok, err}
use eval_ledger.Security.{Jwt, Claims, decode_access_token}

-- What the limiter reads of a request; an absent header is none.
pub record Request : Type 0 where
  pub authorization : Option Text
  pub x_api_key : Option Text
  pub x_forwarded_for : Option Text
  pub client_host : Option Text

module _ (lower : Text → Text) where
  unfoldable pub bearer_of : Text → Option Text
  unfolding starts_with strip
  bearer_of auth =
      if starts_with (codes "bearer ") (lower auth)
      then (if is_empty (strip (drop 7 auth)) then none else some (strip (drop 7 auth)))
      else none

  unfoldable pub bearer_token : Request → Option Text
  unfolding bearer_of
  bearer_token request = bearer_of (or_else request.authorization [])

  unfoldable pub accepted : Option Text → (Text → Result Claims) → Option Text
  accepted none decode = none
  accepted (some token) decode = elim (decode token) [ ok payload ↦ some token | err e ↦ none ]

  unfoldable pub valid_bearer_token : Jwt → ℕ → Request → Option Text
  unfolding bearer_token accepted
  valid_bearer_token jwt now request =
      accepted (bearer_token request) (λ token. decode_access_token jwt token now)

-- The hop that the outermost trusted proxy saw: `hops[max(0, len(hops) - max(1, count))]`.
unfoldable pub trusted_hop : ℕ → List Text → Option Text
trusted_hop trusted_proxy_count hops = get_elem? hops (length hops - max 1 trusted_proxy_count)

unfoldable pub direct_peer : Request → Text
direct_peer request = or_else request.client_host (codes "unknown")

-- The hop that the X-Forwarded-For header gives, if it has a usable one.
unfoldable pub forwarded_ip : ℕ → Option Text → Option Text
forwarded_ip trusted_proxy_count none = none
forwarded_ip trusted_proxy_count (some header) =
    if is_empty header
    then none
    else trusted_hop trusted_proxy_count (stripped_items (split b',' header))

unfoldable pub client_ip : ℕ → Request → Text
unfolding forwarded_ip direct_peer
client_ip trusted_proxy_count request =
    or_else (forwarded_ip trusted_proxy_count request.x_forwarded_for) (direct_peer request)

module _ (lower : Text → Text) (jwt : Jwt) where
  unfoldable pub is_authenticated : ℕ → Request → Bool
  is_authenticated now request = is_some (valid_bearer_token lower jwt now request)

module _ (lower sha256_prefix : Text → Text) (jwt : Jwt) (trusted_proxy_count : ℕ) where
  unfoldable pub get_client_id : ℕ → Request → Text
  get_client_id now request = elim (valid_bearer_token lower jwt now request) [
    | some token ↦ codes "tok:" ++ sha256_prefix token
    | none ↦ codes "ip:" ++ client_ip trusted_proxy_count request
  ]
