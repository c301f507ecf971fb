-- ===== src/Contamination/Score.antt =====
-- Similarities and overlap ratios, which the program computes as floats `n / d`: here the exact
-- fraction, with a positive denominator, compared by cross multiplication.
use native.Mathlib.Nat.{le_of_mul-le-mul_left, mul-le-mul_right}
use eval_ledger.Base.{ℕ, ◌*◌, ◌≤◌, ◌<◌, ◌≡◌, Bool, true, false, arith, ltb, leb}

pub record Score : Type 0 where
  pub num : ℕ
  pub den : ℕ

-- `a > b` and `a >= b` on two scores.
unfoldable pub score_gt : Score → Score → Bool
score_gt a b = ltb (b.num * a.den) (a.num * b.den)

unfoldable pub score_ge : Score → Score → Bool
score_ge a b = leb (b.num * a.den) (a.num * b.den)

abbrev pub IsPositive : Score → Type 0
IsPositive s = 0 < s.den

-- Cross multiplication is transitive over a positive denominator.
cross_trans : (a b c p q r : ℕ) → 0 < q → a * q ≤ b * p → b * r ≤ c * q → a * r ≤ c * p
cross_trans a b c p q r pos h k = le_of_mul-le-mul_left {m = a * r} {n = c * p} {k = q} step pos
  where
    first : a * q * r ≤ b * p * r
    first = mul-le-mul_right r h

    second : b * r * p ≤ c * q * p
    second = mul-le-mul_right p k

    step : q * (a * r) ≤ q * (c * p)
    step = omega (arith, first, second)

pub score_ge_trans :
    (a b c : Score) → IsPositive b → score_ge b a ≡ true → score_ge c b ≡ true → score_ge c a ≡ true
unfolding score_ge
score_ge_trans a b c p h k = ground (arith, cross_trans a.num b.num c.num a.den b.den c.den p)

pub score_ge_of_gt : (a b : Score) → score_gt a b ≡ true → score_ge a b ≡ true
unfolding score_ge score_gt
score_ge_of_gt a b h = ground arith

pub score_ge_of_not_gt : (a b : Score) → score_gt a b ≡ false → score_ge b a ≡ true
unfolding score_ge score_gt
score_ge_of_not_gt a b h = ground arith

pub score_ge_refl : (a : Score) → score_ge a a ≡ true
unfolding score_ge
score_ge_refl a = ground arith
