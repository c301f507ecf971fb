-- ===== src/Contamination/Detection/Streaming.antt =====
-- The streaming pass computes what a pass over the whole list of the first examples would.
use mathlib.Core.Path.{ap₂}
use native.Mathlib.Nat.{add-zero, zero-add, sub-zero}
use mathlib.Core.List.{append-nil, append_assoc}
use mathlib.Core.Option
use eval_ledger.Base.{
  ℕ, zero, suc, ◌+◌, ◌-◌, ◌≡◌, refl, sym, ap, ◌∙◌, Bool, true, Option, none, some, List, [], ◌∷◌,
  ◌++◌, map, length, take, ltb, leb, if◌then◌else◌, arith, Text, length-append, Bool-cases,
  Option-cases, inl, inr,
}
use eval_ledger.Contamination.Examples.{Stream, stop, raises, yields}
use eval_ledger.Contamination.Detection.{
  Engine, Bundle, FlaggedExample, Tally, Progress, best_match, flagged_example, count_flagged,
  check_example, detect_loop, empty_tally, detect,
}

-- The first n examples; `none` if the generator raises before it has yielded n + 1.
unfoldable pub first_examples : ℕ → Stream → Option (List Text)
first_examples n stop = some []
first_examples n raises = none
first_examples zero (yields t rest) = some []
first_examples (suc n) (yields t rest) = Option.map (λ ts. t ∷ ts) (first_examples n rest)

count_step : (n m : ℕ) → n + suc m ≡ n + 1 + m
count_step n m = omega arith

-- Samples are kept while there is room for them.
module _ {A : Type 0} (limit : ℕ) where
  abbrev keep_samples : List A → List A → List A
  keep_samples kept fs = kept ++ take (limit - length kept) fs

  take_nil : (n : ℕ) → ◌≡◌ {A = List A} (take n []) []
  take_nil zero = refl
  take_nil (suc n) = refl

  keep_samples_nil : (kept : List A) → keep_samples kept [] ≡ kept
  keep_samples_nil kept = ap (◌++◌ kept) (take_nil (limit - length kept)) ∙ append-nil kept

  take_room : (n m : ℕ) (f : A) (fs : List A) → n ≡ suc m → take n (f ∷ fs) ≡ f ∷ take m fs
  take_room n m f fs h = rw h

  take_full : (n : ℕ) (fs : List A) → n ≡ 0 → ◌≡◌ {A = List A} (take n fs) []
  take_full n fs h = rw h

  keep_samples_step :
      (kept : List A) (f : A) (fs : List A)
      → keep_samples kept (f ∷ fs)
        ≡ keep_samples (if ltb (length kept) limit then kept ++ f ∷ [] else kept) fs
  keep_samples_step kept f fs = elim (Bool-cases (ltb (length kept) limit)) [
    | inl e ↦
        rw (e, take_room (limit - length kept) (limit - length (kept ++ f ∷ [])) f fs (room e))
          (sym (append_assoc kept (f ∷ []) (take (limit - length (kept ++ f ∷ [])) fs)))
    | inr e ↦ rw (
      e,
      take_full (limit - length kept) (f ∷ fs) (ground arith),
      take_full (limit - length kept) fs (ground arith),
    )
  ]
    where
      room :
          ltb (length kept) limit ≡ true
          → limit - length kept ≡ suc (limit - length (kept ++ f ∷ []))
      room e = ground (arith, length-append kept (f ∷ []))

module _ {M : Type 0} (is_word : ℕ → Bool) (lower : Text → Text) (compute_minhash : Text → M)
    (engine : Engine) where
  abbrev flag_of : Bundle M → ℕ → Text → Option FlaggedExample
  flag_of b i t =
      flagged_example {M = M} is_word lower compute_minhash engine t i
        (best_match is_word lower compute_minhash engine t b)

  abbrev add_flag : Option FlaggedExample → List FlaggedExample → List FlaggedExample
  add_flag none fs = fs
  add_flag (some f) fs = f ∷ fs

  -- The flagged examples of a list whose first element has index `i`.
  pub flags : Bundle M → ℕ → List Text → List FlaggedExample
  flags b i [] = []
  flags b i (t ∷ ts) = add_flag (flag_of b i t) (flags b (i + 1) ts)

  abbrev extend_tally : ℕ → List Text → Tally M → Tally M
  extend_tally i ts y = record {
    bundle = y.bundle;
    flagged_count = y.flagged_count + length (flags y.bundle i ts);
    flagged_samples =
        keep_samples engine.max_flagged_examples y.flagged_samples (flags y.bundle i ts);
  }

  abbrev extend : Progress M → List Text → Progress M
  extend p ts = record {
    total_examples = p.total_examples + length ts;
    tallies = map (extend_tally p.total_examples ts) p.tallies;
  }

  tally_step :
      (i : ℕ) (t : Text) (ts : List Text) (y : Tally M)
      → extend_tally i (t ∷ ts) y
        ≡ extend_tally (i + 1) ts (check_example is_word lower compute_minhash engine t i y)
  unfolding check_example count_flagged flags
  tally_step i t ts y = elim (Option-cases (flag_of y.bundle i t)) [
    | inl e ↦ rw e
    | inr (f, e) ↦ rw e λ k. record {
      bundle = y.bundle;
      flagged_count = count_step y.flagged_count (length (flags y.bundle (i + 1) ts)) k;
      flagged_samples =
          keep_samples_step engine.max_flagged_examples y.flagged_samples f
            (flags y.bundle (i + 1) ts) k;
    }
  ]

  tally_stop : (i : ℕ) (y : Tally M) → extend_tally i [] y ≡ y
  unfolding flags
  tally_stop i y k = record {
    bundle = y.bundle;
    flagged_count = add-zero y.flagged_count k;
    flagged_samples = keep_samples_nil engine.max_flagged_examples y.flagged_samples k;
  }

  map_stop : (i : ℕ) (ys : List (Tally M)) → map (extend_tally i []) ys ≡ ys
  map_stop i [] = refl
  map_stop i (y ∷ ys) = ap₂ ◌∷◌ (tally_stop i y) (map_stop i ys)

  map_step :
      (i : ℕ) (t : Text) (ts : List Text) (ys : List (Tally M))
      → map (extend_tally i (t ∷ ts)) ys
        ≡ map
            (extend_tally (i + 1) ts)
            (map (check_example is_word lower compute_minhash engine t i) ys)
  map_step i t ts [] = refl
  map_step i t ts (y ∷ ys) = ap₂ ◌∷◌ (tally_step i t ts y) (map_step i t ts ys)

  extend_stop : (p : Progress M) → extend p [] ≡ p
  extend_stop p k = record {
    total_examples = add-zero p.total_examples k;
    tallies = map_stop p.total_examples p.tallies k;
  }

  abbrev next : Text → Progress M → Progress M
  next t p = record {
    total_examples = p.total_examples + 1;
    tallies = map (check_example is_word lower compute_minhash engine t p.total_examples) p.tallies;
  }

  extend_step :
      (p : Progress M) (t : Text) (ts : List Text) → extend p (t ∷ ts) ≡ extend (next t p) ts
  extend_step p t ts k = record {
    total_examples = count_step p.total_examples (length ts) k;
    tallies = map_step p.total_examples t ts p.tallies k;
  }

  map-extend_step :
      (p : Progress M) (t : Text) (o : Option (List Text))
      → Option.map (extend p) (Option.map (λ ts. t ∷ ts) o) ≡ Option.map (extend (next t p)) o
  map-extend_step p t none = refl
  map-extend_step p t (some ts) = ap some (extend_step p t ts)

  first_examples_full :
      (n : ℕ) (t : Text) (s : Stream) → n ≡ 0 → first_examples n (yields t s) ≡ some []
  unfolding first_examples
  first_examples_full n t s h = rw h

  first_examples_room :
      (n m : ℕ) (t : Text) (s : Stream)
      → n ≡ suc m
      → first_examples n (yields t s) ≡ Option.map (λ ts. t ∷ ts) (first_examples m s)
  unfolding first_examples
  first_examples_room n m t s h = rw h

  loop_lem :
      (s : Stream) (p : Progress M)
      → detect_loop is_word lower compute_minhash engine s p
        ≡ Option.map (extend p) (first_examples (engine.max_examples - p.total_examples) s)
  unfolding detect_loop first_examples
  loop_lem stop p = ap some (sym (extend_stop p))
  loop_lem raises p = refl
  loop_lem (yields t rest) p = elim (Bool-cases (leb engine.max_examples p.total_examples)) [
    | inl e ↦
        rw (e, first_examples_full (engine.max_examples - p.total_examples) t rest (ground arith))
          (ap some (sym (extend_stop p)))
    | inr e ↦
        rw
          (
            e,
            first_examples_room (engine.max_examples - p.total_examples)
                (engine.max_examples - (p.total_examples + 1)) t rest (ground arith),
          )
          (loop_lem rest (next t p)
            ∙ sym (
                map-extend_step p t
                  (first_examples (engine.max_examples - (p.total_examples + 1)) rest)))
  ]

  abbrev pub summary_tally : List Text → Bundle M → Tally M
  summary_tally ts b = record {
    bundle = b;
    flagged_count = length (flags b 0 ts);
    flagged_samples = take engine.max_flagged_examples (flags b 0 ts);
  }

  -- What the pass amounts to, over the list of the examples that it reads.
  unfoldable pub summary : List (Bundle M) → List Text → Progress M
  summary bundles ts = record {
    total_examples = length ts;
    tallies = map (summary_tally ts) bundles;
  }

  tally_summary :
      (b : Bundle M) (ts : List Text) → extend_tally 0 ts (empty_tally b) ≡ summary_tally ts b
  unfolding empty_tally
  tally_summary b ts k = record {
    bundle = b;
    flagged_count = zero-add (length (flags b 0 ts)) k;
    flagged_samples =
        ap (λ (n : ℕ). take n (flags b 0 ts)) (sub-zero engine.max_flagged_examples) k;
  }

  summaries :
      (bundles : List (Bundle M)) (ts : List Text)
      → map (extend_tally 0 ts) (map empty_tally bundles) ≡ map (summary_tally ts) bundles
  summaries [] ts = refl
  summaries (b ∷ bs) ts = ap₂ ◌∷◌ (tally_summary b ts) (summaries bs ts)

  summary-extend :
      (bundles : List (Bundle M)) (ts : List Text)
      → extend (record { total_examples = 0; tallies = map empty_tally bundles }) ts
        ≡ summary bundles ts
  unfolding summary
  summary-extend bundles ts k = record {
    total_examples = zero-add (length ts) k;
    tallies = summaries bundles ts k;
  }

  map-summary :
      (bundles : List (Bundle M)) (o : Option (List Text))
      → Option.map (extend (record { total_examples = 0; tallies = map empty_tally bundles })) o
        ≡ Option.map (summary bundles) o
  map-summary bundles none = refl
  map-summary bundles (some ts) = ap some (summary-extend bundles ts)

  -- The streaming pass fails exactly if the generator raises within the examples that it asks for.
  -- Otherwise it has read the first `max_examples` examples, and for each corpus it has counted all
  -- flagged examples among them and kept the first `max_flagged_examples` of these.
  pub detect_lem :
      (bundles : List (Bundle M)) (s : Stream)
      → detect is_word lower compute_minhash engine bundles s
        ≡ Option.map (summary bundles) (first_examples engine.max_examples s)
  unfolding detect
  detect_lem bundles s =
      loop_lem s (record { total_examples = 0; tallies = map empty_tally bundles })
      ∙ ap
          (λ (n : ℕ).
            Option.map (extend (record { total_examples = 0; tallies = map empty_tally bundles }))
              (first_examples n s))
          (sub-zero engine.max_examples)
      ∙ map-summary bundles (first_examples engine.max_examples s)
