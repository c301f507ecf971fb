-- ===== src/Contamination/Detection.antt =====
-- The detection pass of `ContaminationEngine.run_detection` in
-- backend/app/services/contamination_engine.py: each example against each corpus, in one streaming
-- pass, with a cap on the examples and on the flagged samples that are kept.
-- `compute_minhash` and a bundle's `lsh_query` stand for the datasketch library.
pub mod Matching
pub mod Streaming
use eval_ledger.Base.{
  ℕ, zero, suc, ◌+◌, Bool, true, false, ◌&&◌, Option, none, some, List, [], ◌∷◌, ◌++◌, map, length,
  take, ltb, leb, if◌then◌else◌, is_some, String, Text, text_eq,
}
use eval_ledger.Contamination.Score.{Score, score_gt, score_ge}
use eval_ledger.Contamination.Shingles.{jaccard_shingles}
use eval_ledger.Contamination.Examples.{Stream, stop, raises, yields}

-- The settings of an engine.
pub record Engine : Type 0 where
  pub threshold : Score
  pub shingle_size : ℕ
  pub max_examples : ℕ
  pub max_flagged_examples : ℕ
  pub max_example_chars : ℕ

pub record Bundle (M : Type 0) : Type 0 where
  pub corpus_id : ℕ
  pub corpus_name : String
  pub lsh_query : M → List Text
  pub entries : List (Text × Text)

pub record FlaggedExample : Type 0 where
  pub example_index : ℕ
  pub benchmark_example : Text
  pub corpus_match : Text
  pub similarity : Score

-- `flagged_counts[i]` and `flagged_samples[i]` of one bundle.
pub record Tally (M : Type 0) : Type 0 where
  pub bundle : Bundle M
  pub flagged_count : ℕ
  pub flagged_samples : List FlaggedExample

pub record Progress (M : Type 0) : Type 0 where
  pub total_examples : ℕ
  pub tallies : List (Tally M)

pub record Best : Type 0 where
  pub best_match_text : Option Text
  pub best_score : Score

-- `entries.get(key)`
unfoldable pub get_entry : Text → List (Text × Text) → Option Text
get_entry key [] = none
get_entry key ((k, text) ∷ entries) = if text_eq k key then some text else get_entry key entries

abbrev no_match : Best
no_match = record { best_match_text = none; best_score = record { num = 0; den = 1 } }

empty_tally : {M : Type 0} → Bundle M → Tally M
empty_tally b = record { bundle = b; flagged_count = 0; flagged_samples = [] }

module _ {M : Type 0} (is_word : ℕ → Bool) (lower : Text → Text) (compute_minhash : Text → M)
    (engine : Engine) where
  pub similarity_to : Text → Text → Score
  similarity_to example candidate_text =
      jaccard_shingles is_word lower engine.shingle_size example candidate_text

  -- The body of the loop over the candidates.
  take_candidate : Text → Best → Option Text → Best
  unfolding similarity_to
  take_candidate example best none = best
  take_candidate example best (some candidate_text) =
      let score = similarity_to example candidate_text in
      if score_gt score best.best_score
      then record { best_match_text = some candidate_text; best_score = score }
      else best

  best_loop : Text → List (Text × Text) → List Text → Best → Best
  unfolding take_candidate get_entry
  best_loop example entries [] best = best
  best_loop example entries (key ∷ candidates) best =
      best_loop example entries candidates (take_candidate example best (get_entry key entries))

  unfoldable pub best_match : Text → Bundle M → Best
  unfolding best_loop
  best_match example bundle =
      best_loop example bundle.entries (bundle.lsh_query (compute_minhash example)) no_match

  unfoldable pub flagged_example : Text → ℕ → Best → Option FlaggedExample
  flagged_example example index best = elim best.best_match_text [
    | none ↦ none
    | some text ↦
        if score_ge best.best_score engine.threshold
        then some (record {
          example_index = index;
          benchmark_example = take engine.max_example_chars example;
          corpus_match = take engine.max_example_chars text;
          similarity = best.best_score;
        })
        else none
  ]

  count_flagged : Option FlaggedExample → Tally M → Tally M
  count_flagged none t = t
  count_flagged (some f) t = record t {
    flagged_count = t.flagged_count + 1;
    flagged_samples =
        if ltb (length t.flagged_samples) engine.max_flagged_examples
        then t.flagged_samples ++ f ∷ []
        else t.flagged_samples;
  }

  check_example : Text → ℕ → Tally M → Tally M
  unfolding count_flagged
  check_example example index t =
      count_flagged (flagged_example example index (best_match example t.bundle)) t

  -- The loop over the examples; `none` is the exception that the generator raises.
  detect_loop : Stream → Progress M → Option (Progress M)
  unfolding check_example
  detect_loop stop p = some p
  detect_loop raises p = none
  detect_loop (yields example rest) p =
      let go = detect_loop rest (record {
        total_examples = p.total_examples + 1;
        tallies = map (check_example example p.total_examples) p.tallies;
      }) in
      if leb engine.max_examples p.total_examples then some p else go

  unfoldable pub detect : List (Bundle M) → Stream → Option (Progress M)
  unfolding detect_loop empty_tally best_match flagged_example
  detect bundles examples =
      detect_loop examples (record { total_examples = 0; tallies = map empty_tally bundles })
