-- ===== src/RateLimit/Limiter.antt =====
-- `RateLimiter.check` and the dependency `RateLimit.__call__` of backend/app/ratelimit.py. Redis is the
-- parameter `Redis`; each call of it may fail, and the clock is read where the code reads it.
use eval_ledger.Base.{
  ℕ, ◌-◌, ◌*◌, ◌/◌, ◌%◌, Bool, true, false, Option, none, some, ◌++◌, if◌then◌else◌, ltb, ◌==◌, max,
  Text, codes,
}
use eval_ledger.RateLimit.Identity.{Request, get_client_id, is_authenticated}
use eval_ledger.Security.{Jwt}

-- The two commands that the limiter sends, on a server whose state is S; `none` is an exception.
-- `incr key now` answers the counter, `expire key ttl now` sets the time to live.
pub record Redis (S : Type 0) : Type 0 where
  pub incr : Text → ℕ → S → Option (ℕ × S)
  pub expire : Text → ℕ → ℕ → S → Option S

pub record RateLimitState : Type 0 where
  pub limit : ℕ
  pub remaining : ℕ
  pub reset_seconds : ℕ

-- `check` returns None, returns a state, or raises `RateLimitError(retry_after)`.
pub data Checked : Type 0 where
  inactive : Checked
  allowed : RateLimitState → Checked
  throttled : ℕ → Checked

-- The times at which one call of `check` reads the clock.
pub record Clock : Type 0 where
  pub at_slot : ℕ
  pub at_expire : ℕ
  pub at_reset : ℕ

-- `f"rl:{name}:{client_id}:{window_slot}"`; `decimal` is `str` on integers.
unfoldable pub bucket_key : (ℕ → Text) → Text → Text → ℕ → Text
bucket_key decimal name client_id window_slot =
    codes "rl:" ++ name ++ codes ":" ++ client_id ++ codes ":" ++ decimal window_slot

unfoldable pub reset_after : ℕ → ℕ → ℕ
reset_after window_seconds now = max 1 (window_seconds - now % window_seconds)

unfoldable pub verdict : ℕ → ℕ → ℕ → Checked
verdict limit count reset_seconds =
    if ltb limit count
    then throttled reset_seconds
    else allowed
        (record { limit = limit; remaining = limit - count; reset_seconds = reset_seconds })

module _ {S : Type 0} (redis : Redis S) where
  -- The time to live is set on the first increment only.
  unfoldable pub expire_first : Text → ℕ → ℕ → ℕ × S → Option (ℕ × S)
  expire_first key window_seconds now (count, s) =
      if count == 1
      then elim (redis.expire key (window_seconds * 2) now s) [
        | none ↦ none
        | some s' ↦ some (count, s')
      ]
      else some (count, s)

  -- What `incr` did stays done when `expire` fails.
  unfoldable pub after_incr : Text → ℕ → ℕ → Clock → Option (ℕ × S) → S → Checked × S
  unfolding expire_first
  after_incr key limit window_seconds clock none s = (inactive, s)
  after_incr key limit window_seconds clock (some (count, s₁)) s =
      elim (expire_first key window_seconds clock.at_expire (count, s₁)) [
        | none ↦ (inactive, s₁)
        | some (n, s₂) ↦ (verdict limit n (reset_after window_seconds clock.at_reset), s₂)
      ]

  unfoldable pub check : (ℕ → Text) → Bool → Text → Text → ℕ → ℕ → Clock → S → Checked × S
  unfolding after_incr
  check decimal enabled name client_id limit window_seconds clock s =
      let key = bucket_key decimal name client_id (clock.at_slot / window_seconds) in
      if enabled
      then after_incr key limit window_seconds clock (redis.incr key clock.at_slot s) s
      else (inactive, s)

-- A limiter without a client is inactive.
unfoldable pub check_with :
    {S : Type 0}
    → Option (Redis S)
    → (ℕ → Text)
    → Bool
    → Text
    → Text
    → ℕ
    → ℕ
    → Clock
    → S
    → Checked × S
unfolding check
check_with none decimal enabled name client_id limit window_seconds clock s = (inactive, s)
check_with (some redis) decimal enabled name client_id limit window_seconds clock s =
    check redis decimal enabled name client_id limit window_seconds clock s

-- The arguments of `RateLimit(name, anon_limit=…, auth_limit=…, window_seconds=…)`.
pub record Route : Type 0 where
  pub name : Text
  pub anon_limit : ℕ
  pub auth_limit : Option ℕ
  pub window_seconds : ℕ

-- The X-RateLimit-* headers of the response.
pub record RateHeaders : Type 0 where
  pub limit_header : ℕ
  pub remaining_header : ℕ
  pub reset_header : ℕ

-- The request goes on, with headers or without, or ends in status 429.
pub data Admission : Type 0 where
  admitted : Option RateHeaders → Admission
  too_many_requests : ℕ → Admission

unfoldable pub admission : Checked → Admission
admission inactive = admitted none
admission (allowed state) = admitted (
    some (record {
      limit_header = state.limit;
      remaining_header = state.remaining;
      reset_header = state.reset_seconds;
    }))
admission (throttled retry_after) = too_many_requests retry_after

abbrev pub limit_of : Route → Bool → ℕ
limit_of route true = elim route.auth_limit [ none ↦ route.anon_limit | some n ↦ n ]
limit_of route false = route.anon_limit

module _ {S : Type 0} (limiter : Option (Redis S)) (rate_limit_enabled : Bool) (decimal : ℕ → Text)
    (lower sha256_prefix : Text → Text) (jwt : Jwt) (trusted_proxy_count : ℕ) where
  unfoldable pub call : Route → ℕ → Clock → Request → S → Admission × S
  unfolding check_with admission is_authenticated get_client_id
  call route now clock request s =
      let client_id = get_client_id lower sha256_prefix jwt trusted_proxy_count now request in
      let limit = limit_of route (is_authenticated lower jwt now request) in
      let (checked, s') =
        check_with limiter decimal rate_limit_enabled route.name client_id limit
          route.window_seconds clock s in
      (admission checked, s')
