-- ===== src/RateLimit/Window.antt =====
-- What the fixed window promises: in one window a bucket admits its limit and no more.
use mathlib.Core.Path.{ap₂}
use native.Mathlib.Nat.{div-add-mod, mod-lt}
use eval_ledger.Base.{
  ℕ, zero, suc, ◌+◌, ◌-◌, ◌*◌, ◌/◌, ◌≤◌, ◌<◌, ◌≡◌, refl, ap, Bool, true, false, Option, none, some,
  List, [], ◌∷◌, arith, if◌then◌else◌, leb, ◌==◌, min, Text, All, length, filter,
}
use eval_ledger.RateLimit.Limiter.{
  Redis, Clock, Checked, inactive, allowed, throttled, bucket_key, reset_after, verdict, after_incr,
  check,
}

-- How a Redis server keeps counters: a key has a stored counter and perhaps a deadline, and counts as
-- absent once that has passed. These are the documented effects of INCR and EXPIRE.
pub record Counters {S : Type 0} (redis : Redis S) : Type 0 where
  pub stored : S → Text → ℕ
  pub deadline : S → Text → Option ℕ

abbrev pub expired : Option ℕ → ℕ → Bool
expired none now = false
expired (some d) now = leb d now

module _ {S : Type 0} {redis : Redis S} (c : Counters redis) where
  abbrev pub live : S → Text → ℕ → ℕ
  live s key now = if expired (c.deadline s key) now then 0 else c.stored s key

  pub record Laws : Type 0 where
    pub incr_up :
        (key : Text) (now : ℕ) (s : S)
        → (s' : S) × (redis.incr key now s ≡ some (live s key now + 1, s'))
          × (c.stored s' key ≡ live s key now + 1)
          × (c.deadline s' key ≡ (if live s key now == 0 then none else c.deadline s key))
    pub expire_up :
        (key : Text) (ttl now : ℕ) (s : S)
        → (s' : S) × (redis.expire key ttl now s ≡ some s')
          × (c.stored s' key ≡ c.stored s key)
          × (c.deadline s' key ≡ some (now + ttl))

same_window : (w slot t t' e : ℕ) → 0 < w → t / w ≡ slot → t' / w ≡ slot → t ≤ e → t' < e + w * 2
same_window w slot t t' e h p q le = omega (
  arith,
  div-add-mod t w,
  div-add-mod t' w,
  mod-lt t' h,
  ap (λ (k : ℕ). w * k) p,
  ap (λ (k : ℕ). w * k) q,
)

module _ {S : Type 0} (redis : Redis S) (c : Counters redis) (laws : Laws c) (decimal : ℕ → Text)
    (name client_id : Text) (limit window_seconds slot : ℕ) (positive : 0 < window_seconds) where
  abbrev pub key : Text
  key = bucket_key decimal name client_id slot

  -- At every moment of the window, i requests of the bucket have been counted.
  abbrev pub Counted : ℕ → S → Type 0
  Counted i s = (now : ℕ) → now / window_seconds ≡ slot → live c s key now ≡ i

  -- A call reads the clock in order, and for the slot within the window.
  abbrev pub InWindow : Clock → Type 0
  InWindow clock = (clock.at_slot / window_seconds ≡ slot) × (clock.at_slot ≤ clock.at_expire)

  -- What other callers do to the server between two calls leaves this bucket's key alone.
  abbrev pub LeavesKey : (S → S) → Type 0
  LeavesKey env =
      (s : S)
      → (c.stored (env s) key ≡ c.stored s key) × (c.deadline (env s) key ≡ c.deadline s key)

  LeavesKey-Counted :
      (env : S → S) (i : ℕ) (s : S) → LeavesKey env → Counted i s → Counted i (env s)
  LeavesKey-Counted env i s keeps h now in_slot = rw ((keeps s).0, (keeps s).1) (h now in_slot)

  abbrev this_check : Clock → S → Checked × S
  this_check = check redis decimal true name client_id limit window_seconds

  abbrev reset_at : Clock → ℕ
  reset_at clock = reset_after window_seconds clock.at_reset

  abbrev counted : Clock → Option (ℕ × S) → S → Checked × S
  counted clock = after_incr redis key limit window_seconds clock

  check_in_slot :
      (clock : Clock) (s : S)
      → clock.at_slot / window_seconds ≡ slot
      → this_check clock s ≡ counted clock (redis.incr key clock.at_slot s) s
  unfolding check
  check_in_slot clock s w =
      ap
        (λ (n : ℕ).
          let k = bucket_key decimal name client_id n in
          after_incr redis k limit window_seconds clock (redis.incr k clock.at_slot s) s)
        w

  first_check :
      (clock : Clock) (s s₁ s₂ : S)
      → redis.expire key (window_seconds * 2) clock.at_expire s₁ ≡ some s₂
      → counted clock (some (1, s₁)) s ≡ (verdict limit 1 (reset_at clock), s₂)
  unfolding after_incr
  first_check clock s s₁ s₂ e = rw e

  later_check :
      (clock : Clock) (n : ℕ) (s s₁ : S)
      → (n == 1) ≡ false
      → counted clock (some (n, s₁)) s ≡ (verdict limit n (reset_at clock), s₁)
  unfolding after_incr
  later_check clock n s s₁ e = ground arith

  check_counts :
      (clock : Clock) (i : ℕ) (s : S)
      → InWindow clock
      → Counted i s
      → ((this_check clock s).0 ≡ verdict limit (i + 1) (reset_at clock))
        × Counted (i + 1) (this_check clock s).1
  check_counts clock zero s w h =
      let (s₁, e₁, st₁, d₁) = laws.incr_up key clock.at_slot s in
      let (s₂, e₂, st₂, d₂) = laws.expire_up key (window_seconds * 2) clock.at_expire s₁ in
      let here = h clock.at_slot w.0 in
      rw (check_in_slot clock s w.0, e₁, here, first_check clock s s₁ s₂ e₂)
        (
          refl,
          λ now in_slot.
              let later =
                same_window window_seconds slot clock.at_slot now clock.at_expire positive w.0
                  in_slot w.1 in
              rw (d₂, st₂, st₁, here) (ground (arith, later)),
        )
  check_counts clock (suc i) s w h =
      let (s₁, e₁, st₁, d₁) = laws.incr_up key clock.at_slot s in
      let here = h clock.at_slot w.0 in
      rw (check_in_slot clock s w.0, e₁, here, later_check clock (suc i + 1) s s₁ (ground arith))
        (refl, λ now in_slot. rw (d₁, st₁, here) (ground (arith, h now in_slot)))

  -- Calls of this bucket, in order; before each one the rest of the world moves the server on.
  abbrev pub History : Type 0
  History = List (Clock × (S → S))

  pub serve : History → S → List Checked
  serve [] s = []
  serve ((clock, env) ∷ history) s =
      let (checked, s') = this_check clock (env s) in checked ∷ serve history s'

  -- The i-th request of the window, counted from 1, is let through if i ≤ limit.
  pub verdicts : ℕ → History → List Checked
  verdicts i [] = []
  verdicts i ((clock, env) ∷ history) =
      verdict limit (i + 1) (reset_at clock) ∷ verdicts (i + 1) history

  abbrev pub is_allowed : Checked → Bool
  is_allowed (allowed state) = true
  is_allowed inactive = false
  is_allowed (throttled retry_after) = false

  abbrev pub Orderly : Clock × (S → S) → Type 0
  Orderly (clock, env) = InWindow clock × LeavesKey env

  serve-verdicts :
      (history : History) (i : ℕ) (s : S)
      → All Orderly history
      → Counted i s
      → serve history s ≡ verdicts i history
  unfolding serve verdicts
  serve-verdicts [] i s o h = refl
  serve-verdicts ((clock, env) ∷ history) i s o h =
      let step = check_counts clock i (env s) o.0.0 (LeavesKey-Counted env i s o.0.1 h) in
      ap₂ ◌∷◌ step.0 (serve-verdicts history (i + 1) (this_check clock (env s)).1 o.1 step.1)

  allowed_verdicts :
      (history : History) (i : ℕ)
      → length (filter is_allowed (verdicts i history)) ≡ min (limit - i) (length history)
  unfolding verdicts verdict
  allowed_verdicts [] i = omega arith
  allowed_verdicts ((clock, env) ∷ history) i = ground (arith, allowed_verdicts history (i + 1))

  -- A bucket whose key is fresh, while Redis is up: of the requests of one window exactly the first
  -- `limit` get through, the i-th with `limit - i` remaining, whatever traffic of other buckets comes
  -- between them.
  pub window_admits_limit :
      (history : History) (s : S)
      → All Orderly history
      → Counted 0 s
      → (serve history s ≡ verdicts 0 history)
        × (length (filter is_allowed (serve history s)) ≡ min limit (length history))
  window_admits_limit history s o h =
      let e = serve-verdicts history 0 s o h in
      (e, rw e (omega (arith, allowed_verdicts history 0)))
