-- ===== src/Contamination/Shingles.antt =====
-- backend/app/utils/minhash.py: words, word n-grams (shingles) and the exact Jaccard similarity.
-- `is_word` and `lower` stand for the Unicode tables behind `\w` and for `str.lower`. A Python set of
-- texts is a list without repetitions.
use mathlib.Core.List.{reverse, append-nil}
use native.Mathlib.Numerals.{add-one}
use eval_ledger.Base.{
  ℕ, zero, suc, ◌+◌, ◌-◌, ◌≤◌, ◌<◌, ◌≡◌, ◌≢◌, refl, sym, ap, Bool, true, false, not, ◌||◌, List, [],
  ◌∷◌, ◌++◌, arith, length, take, drop, any, filter, ltb, if◌then◌else◌, length-append,
  length-filter-le, Text, text_eq, text_eq_self, join, is_empty,
}
use eval_ledger.Contamination.Score.{Score, IsPositive}

module _ (is_word : ℕ → Bool) (lower : Text → Text) where
  -- `re.findall(r"\w+", s)`; `word` is what was read of the current match, in reverse.
  words_loop : Text → Text → List Text
  words_loop [] [] = []
  words_loop (w ∷ word) [] = reverse (w ∷ word) ∷ []
  words_loop word (c ∷ s) =
      let inside = words_loop (c ∷ word) s in
      let next = words_loop [] s in
      if is_word c then inside else if is_empty word then next else reverse word ∷ next

  unfoldable pub tokenize : Text → List Text
  unfolding words_loop
  tokenize text = words_loop [] (lower text)

-- `tokens[i : i + size] for i in range(n)`, each joined by a space.
abbrev windows : ℕ → ℕ → List Text → List Text
windows size zero tokens = []
windows size (suc n) tokens = join (32 ∷ []) (take size tokens) ∷ windows size n (drop 1 tokens)

-- `shingles`, of the tokens.
unfoldable pub shingles_of : ℕ → List Text → List Text
shingles_of size [] = []
shingles_of size (t ∷ ts) =
    if ltb (length (t ∷ ts)) size
    then join (32 ∷ []) (t ∷ ts) ∷ []
    else windows size (length (t ∷ ts) - size + 1) (t ∷ ts)

abbrev pub mem : Text → List Text → Bool
mem t = any (text_eq t)

-- `set(xs)`
unfoldable pub to_set : List Text → List Text
to_set [] = []
to_set (x ∷ xs) = let rest = to_set xs in if mem x rest then rest else x ∷ rest

unfoldable pub intersection : List Text → List Text → List Text
intersection left right = filter (λ t. mem t right) left

unfoldable pub union : List Text → List Text → List Text
union left right = left ++ filter (λ t. not (mem t left)) right

abbrev pub is_nil {ℓ} : {A : Type ℓ} → List A → Bool
is_nil [] = true
is_nil (x ∷ xs) = false

-- `len(left_set & right_set) / len(left_set | right_set)`, or 0.0 if a set is empty.
unfoldable pub jaccard_sets : List Text → List Text → Score
unfolding intersection union
jaccard_sets left right =
    if is_nil left || is_nil right
    then record { num = 0; den = 1 }
    else record { num = length (intersection left right); den = length (union left right) }

unfoldable pub jaccard_tokens : List Text → List Text → Score
unfolding to_set jaccard_sets
jaccard_tokens left right = jaccard_sets (to_set left) (to_set right)

module _ (is_word : ℕ → Bool) (lower : Text → Text) where
  unfoldable pub shingles : ℕ → Text → List Text
  unfolding tokenize shingles_of
  shingles size text = shingles_of size (tokenize is_word lower text)

  unfoldable pub jaccard_shingles : ℕ → Text → Text → Score
  unfolding jaccard_tokens
  jaccard_shingles size left_text right_text =
      jaccard_tokens (shingles size left_text) (shingles size right_text)

jaccard_sets-IsPositive : (left right : List Text) → IsPositive (jaccard_sets left right)
unfolding jaccard_sets
jaccard_sets-IsPositive [] right = omega arith
jaccard_sets-IsPositive (x ∷ xs) [] = omega arith
jaccard_sets-IsPositive (x ∷ xs) (y ∷ ys) = omega arith

jaccard_sets_le :
    (left right : List Text) → (jaccard_sets left right).num ≤ (jaccard_sets left right).den
unfolding jaccard_sets
jaccard_sets_le [] right = omega arith
jaccard_sets_le (x ∷ xs) [] = omega arith
jaccard_sets_le (x ∷ xs) (y ∷ ys) = omega (
  arith,
  length-filter-le (λ t. mem t (y ∷ ys)) (x ∷ xs),
  length-append (x ∷ xs) (filter (λ t. not (mem t (x ∷ xs))) (y ∷ ys)),
)

filter_all :
    (p : Text → Bool) (xs : List Text)
    → ((t : Text) → mem t xs ≡ true → p t ≡ true)
    → filter p xs ≡ xs
filter_all p [] h = refl
filter_all p (x ∷ xs) h =
    ground (arith, h x, text_eq_self x, filter_all p xs (λ t m. h t (ground arith)))

filter_none :
    (p : Text → Bool) (xs : List Text)
    → ((t : Text) → mem t xs ≡ true → p t ≡ false)
    → filter p xs ≡ []
filter_none p [] h = refl
filter_none p (x ∷ xs) h =
    ground (arith, h x, text_eq_self x, filter_none p xs (λ t m. h t (ground arith)))

jaccard_sets_self : (xs : List Text) → xs ≢ [] → (jaccard_sets xs xs).num ≡ (jaccard_sets xs xs).den
unfolding jaccard_sets
jaccard_sets_self [] h = absurd (h refl)
jaccard_sets_self (x ∷ xs) h =
    rw
      (
        filter_all (λ t. mem t (x ∷ xs)) (x ∷ xs) (λ t m. m),
        filter_none (λ t. not (mem t (x ∷ xs))) (x ∷ xs) (λ t m. ground arith),
      )
      (ap length (sym (append-nil (x ∷ xs))))

to_set-is_nil : (xs : List Text) → is_nil (to_set xs) ≡ is_nil xs
unfolding to_set
to_set-is_nil [] = refl
to_set-is_nil (x ∷ []) = refl
to_set-is_nil (x ∷ y ∷ ys) = ground (arith, to_set-is_nil (y ∷ ys))

shingles_of-is_nil : (size : ℕ) (ts : List Text) → is_nil (shingles_of size ts) ≡ is_nil ts
unfolding shingles_of
shingles_of-is_nil size [] = refl
shingles_of-is_nil size (t ∷ ts) = ground (arith, add-one (length (t ∷ ts) - size))

not_nil : (xs : List Text) → is_nil xs ≡ false → xs ≢ []
not_nil [] h e = cc
not_nil (x ∷ xs) h e = cc

jaccard_self_if :
    (xs : List Text)
    → (jaccard_sets (to_set xs) (to_set xs)).num
      ≡ (if is_nil xs then 0 else (jaccard_sets (to_set xs) (to_set xs)).den)
jaccard_self_if [] = unfold jaccard_sets to_set in refl
jaccard_self_if (x ∷ xs) =
    jaccard_sets_self (to_set (x ∷ xs)) (not_nil (to_set (x ∷ xs)) (to_set-is_nil (x ∷ xs)))

jaccard_empty_if :
    (xs ys : List Text)
    → (jaccard_sets (to_set xs) (to_set ys)).num
      ≡ (if is_nil xs || is_nil ys then 0 else (jaccard_sets (to_set xs) (to_set ys)).num)
unfolding jaccard_sets
jaccard_empty_if xs ys = ground (arith, to_set-is_nil xs, to_set-is_nil ys)

module _ (is_word : ℕ → Bool) (lower : Text → Text) where
  shingles-eq_nil :
      (size : ℕ) (t : Text)
      → is_nil (shingles is_word lower size t) ≡ is_nil (tokenize is_word lower t)
  unfolding shingles
  shingles-eq_nil size t = shingles_of-is_nil size (tokenize is_word lower t)

  -- A similarity is a fraction in [0, 1] with a positive denominator.
  pub jaccard_shingles_range :
      (size : ℕ) (a b : Text)
      → let s = jaccard_shingles is_word lower size a b in (0 < s.den) × (s.num ≤ s.den)
  unfolding jaccard_shingles jaccard_tokens
  jaccard_shingles_range size a b = (
    jaccard_sets-IsPositive (to_set (shingles is_word lower size a))
        (to_set (shingles is_word lower size b)),
    jaccard_sets_le (to_set (shingles is_word lower size a))
        (to_set (shingles is_word lower size b)),
  )

  -- A text that has a word is at similarity 1 to itself, one that has none at 0 to every text.
  pub jaccard_shingles_self :
      (size : ℕ) (a b : Text)
      → let s = jaccard_shingles is_word lower size in
        ((s a a).num ≡ (if is_nil (tokenize is_word lower a) then 0 else (s a a).den))
        × ((s a b).num ≡ (
            if is_nil (tokenize is_word lower a) || is_nil (tokenize is_word lower b)
            then 0
            else (s a b).num))
  unfolding jaccard_shingles jaccard_tokens
  jaccard_shingles_self size a b = (
    rw (← shingles-eq_nil size a) (jaccard_self_if (shingles is_word lower size a)),
    rw (← shingles-eq_nil size a, ← shingles-eq_nil size b)
        (jaccard_empty_if (shingles is_word lower size a) (shingles is_word lower size b)),
  )
