-- ===== src/Contamination/Detection/Matching.antt =====
-- What it takes for an example to be flagged against a corpus.
use eval_ledger.Base.{
  is_some, ℕ, ◌*◌, ◌<◌, ◌≡◌, refl, Bool, false, ◌||◌, Option, none, some, List, [], ◌∷◌, arith, any,
  Text,
}
use native.Mathlib.Nat.{zero-mul}
use eval_ledger.Contamination.Score.{
  Score, IsPositive, score_ge, score_ge_trans, score_ge_of_gt, score_ge_of_not_gt,
}
use eval_ledger.Contamination.Shingles.{jaccard_shingles_range}
use eval_ledger.Contamination.Detection.{
  Engine, Bundle, Best, get_entry, no_match, similarity_to, take_candidate, best_loop, best_match,
  flagged_example,
}

mul-lt-mul-pos : (a b : ℕ) → 0 < a → 0 < b → 0 < a * b
mul-lt-mul-pos a b h k = grind arith

module _ {M : Type 0} (is_word : ℕ → Bool) (lower : Text → Text) (compute_minhash : Text → M)
    (engine : Engine) where
  abbrev similarity : Text → Text → Score
  similarity = similarity_to is_word lower compute_minhash engine

  -- The entry under a candidate key is as similar to the example as the threshold asks.
  abbrev pub reaches_threshold : Text → Option Text → Bool
  reaches_threshold example none = false
  reaches_threshold example (some text) = score_ge (similarity example text) engine.threshold

  -- A best match without a text has score 0.
  abbrev IsBest : Best → Type 0
  IsBest best = IsPositive best.best_score × (best.best_match_text ≡ none → best.best_score.num ≡ 0)

  similarity-IsPositive : (a b : Text) → IsPositive (similarity a b)
  unfolding similarity_to
  similarity-IsPositive a b = (jaccard_shingles_range is_word lower engine.shingle_size a b).0

  abbrev after_candidate : Text → Best → Option Text → Best
  after_candidate = take_candidate is_word lower compute_minhash engine

  take_candidate-IsBest :
      (example : Text) (best : Best) (o : Option Text)
      → IsBest best
      → IsBest (after_candidate example best o)
  unfolding take_candidate
  take_candidate-IsBest example best none h = h
  take_candidate-IsBest example best (some t) h = ground (arith, similarity-IsPositive example t)

  take_candidate-reaches :
      (example : Text) (best : Best) (o : Option Text)
      → IsBest best
      → score_ge (after_candidate example best o).best_score engine.threshold
        ≡ (score_ge best.best_score engine.threshold || reaches_threshold example o)
  unfolding take_candidate
  take_candidate-reaches example best none h = ground arith
  take_candidate-reaches example best (some t) h = ground (
    arith,
    score_ge_trans engine.threshold best.best_score (similarity example t) h.0,
    score_ge_trans engine.threshold (similarity example t) best.best_score
        (similarity-IsPositive example t),
    score_ge_of_gt (similarity example t) best.best_score,
    score_ge_of_not_gt (similarity example t) best.best_score,
  )

  best_loop_lem :
      (example : Text) (entries : List (Text × Text)) (keys : List Text) (best : Best)
      → IsBest best
      → IsBest (best_loop is_word lower compute_minhash engine example entries keys best)
        × (score_ge
              (best_loop is_word lower compute_minhash engine example entries keys best).best_score
              engine.threshold
            ≡ (score_ge best.best_score engine.threshold
                || any (λ key. reaches_threshold example (get_entry key entries)) keys))
  unfolding best_loop
  best_loop_lem example entries [] best h = (h, ground arith)
  best_loop_lem example entries (key ∷ keys) best h =
      let o = get_entry key entries in
      let rest =
        best_loop_lem example entries keys (after_candidate example best o)
          (take_candidate-IsBest example best o h) in
      (rest.0, ground (arith, rest.1, take_candidate-reaches example best o h))

  zero_below :
      (s : Score)
      → s.num ≡ 0
      → 0 < s.den
      → 0 < engine.threshold.num
      → score_ge s engine.threshold ≡ false
  unfolding score_ge
  zero_below s e p h =
      rw e (
        ground
          (arith, mul-lt-mul-pos engine.threshold.num s.den h p, zero-mul engine.threshold.den))

  -- With a positive threshold, the streaming search for the best candidate flags an example exactly
  -- if some candidate of the LSH index has an entry whose similarity reaches the threshold.
  pub flagged_example_lem :
      (example : Text) (index : ℕ) (bundle : Bundle M)
      → 0 < engine.threshold.num
      → is_some (
          flagged_example {M = M} is_word lower compute_minhash engine example index
            (best_match is_word lower compute_minhash engine example bundle))
        ≡ any
            (λ key. reaches_threshold example (get_entry key bundle.entries))
            (bundle.lsh_query (compute_minhash example))
  unfolding flagged_example best_match
  flagged_example_lem example index bundle h =
      let loop =
        best_loop_lem example bundle.entries (bundle.lsh_query (compute_minhash example)) no_match
          (omega arith, λ e. refl) in
      let best = best_match is_word lower compute_minhash engine example bundle in
      ground (
        arith,
        loop.1,
        zero_below best.best_score,
        zero_below no_match.best_score refl (omega arith) h,
        loop.0.0,
        loop.0.1,
      )
