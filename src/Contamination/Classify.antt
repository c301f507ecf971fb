-- ===== src/Contamination/Classify.antt =====
-- `_classify` and the worst status over the corpora, of
-- backend/app/services/contamination_engine.py. An overlap score is the exact fraction of flagged
-- examples; the float comparisons agree with it up to the cap of 100,000 examples.
use eval_ledger.Base.{
  ℕ, ◌≤◌, ◌≡◌, refl, ◌⊎◌, inl, inr, Bool, true, false, List, [], ◌∷◌, arith, any, All,
  if◌then◌else◌, Bool-cases, ◌==◌,
}
use eval_ledger.Contamination.Score.{
  Score, IsPositive, score_gt, score_ge, score_ge_trans, score_ge_of_not_gt,
}

-- The values of `contamination_status`.
pub data Status : Type 0 where
  unchecked pending clean flagged contaminated error : Status

-- `flagged_count / total_examples if total_examples else 0.0`
unfoldable pub overlap_score : ℕ → ℕ → Score
overlap_score flagged_count total_examples =
    if total_examples == 0
    then record { num = 0; den = 1 }
    else record { num = flagged_count; den = total_examples }

abbrev five_percent : Score
five_percent = record { num = 1; den = 20 }

abbrev twenty_percent : Score
twenty_percent = record { num = 1; den = 5 }

unfoldable pub classify : Score → Status
classify overlap =
    if score_gt five_percent overlap
    then clean
    else if score_ge twenty_percent overlap
    then flagged
    else contaminated

abbrev pub is_contaminated : Status → Bool
is_contaminated contaminated = true
is_contaminated _ = false

abbrev pub is_flagged : Status → Bool
is_flagged flagged = true
is_flagged _ = false

unfoldable pub worst_status : List Status → Status
worst_status statuses =
    if any is_contaminated statuses
    then contaminated
    else if any is_flagged statuses
    then flagged
    else clean

-- How bad a verdict is.
abbrev pub rank : Status → ℕ
rank clean = 1
rank flagged = 2
rank contaminated = 3
rank _ = 0

overlap_score-IsPositive : (f n : ℕ) → IsPositive (overlap_score f n)
unfolding overlap_score
overlap_score-IsPositive f n = ground arith

not_gt_of_ge : (a b : Score) → score_ge b a ≡ true → score_gt a b ≡ false
unfolding score_ge score_gt
not_gt_of_ge a b h = ground arith

gt_of_gt_ge :
    (a b c : Score) → IsPositive a → score_ge b a ≡ true → score_gt c b ≡ true → score_gt c a ≡ true
gt_of_gt_ge a b c p h k = elim (Bool-cases (score_gt c a)) [
  | inl e ↦ e
  | inr e ↦
      let wrong = score_ge_trans c a b p (score_ge_of_not_gt c a e) h in cc (not_gt_of_ge c b wrong)
]

-- A larger share of flagged examples never gets a milder verdict.
pub classify_mono :
    (a b : Score)
    → IsPositive a
    → IsPositive b
    → score_ge b a ≡ true
    → rank (classify a) ≤ rank (classify b)
unfolding classify
classify_mono a b pa pb h =
    ground (arith, gt_of_gt_ge a b five_percent pa h, score_ge_trans a b twenty_percent pb h)

rank_le :
    (x : Status) (w : ℕ)
    → (is_contaminated x ≡ true → 3 ≤ w)
    → (is_flagged x ≡ true → 2 ≤ w)
    → 1 ≤ w
    → rank x ≤ w
rank_le unchecked w c f h = omega arith
rank_le pending w c f h = omega arith
rank_le clean w c f h = h
rank_le flagged w c f h = f refl
rank_le contaminated w c f h = c refl
rank_le error w c f h = omega arith

ranks_le :
    (xs : List Status) (w : ℕ)
    → (any is_contaminated xs ≡ true → 3 ≤ w)
    → (any is_flagged xs ≡ true → 2 ≤ w)
    → 1 ≤ w
    → All (λ x. rank x ≤ w) xs
ranks_le [] w c f h = tt
ranks_le (x ∷ xs) w c f h = (
  rank_le x w (λ e. c (ground arith)) (λ e. f (ground arith)) h,
  ranks_le xs w (λ e. c (ground arith)) (λ e. f (ground arith)) h,
)

worst_ge :
    (xs : List Status)
    → (any is_contaminated xs ≡ true → 3 ≤ rank (worst_status xs))
      × (any is_flagged xs ≡ true → 2 ≤ rank (worst_status xs))
      × (1 ≤ rank (worst_status xs))
unfolding worst_status
worst_ge xs = (λ e. ground arith, λ e. ground arith, ground arith)

flagged_rank : (xs : List Status) → any is_flagged xs ≡ true → any (λ x. rank x == 2) xs ≡ true
flagged_rank [] h = h
flagged_rank (x ∷ xs) h = ground (arith, flagged_rank xs)

contaminated_rank :
    (xs : List Status) → any is_contaminated xs ≡ true → any (λ x. rank x == 3) xs ≡ true
contaminated_rank [] h = h
contaminated_rank (x ∷ xs) h = ground (arith, contaminated_rank xs)

-- The verdict on an artifact is at least as bad as each of its verdicts, and it is clean or as bad as
-- one of them.
pub worst_status_bounds :
    (statuses : List Status)
    → All (λ x. rank x ≤ rank (worst_status statuses)) statuses
      × ((worst_status statuses ≡ clean)
          ⊎ (any (λ x. rank x == rank (worst_status statuses)) statuses ≡ true))
worst_status_bounds xs = (
  ranks_le xs (rank (worst_status xs)) (worst_ge xs).0 (worst_ge xs).1 (worst_ge xs).2,
  unfold worst_status in ground (arith, contaminated_rank xs, flagged_rank xs),
)
