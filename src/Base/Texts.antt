-- ===== src/Base/Texts.antt =====
-- Texts that the program takes apart: lists of code points, with the methods of Python's `str`.
use Prim.Native.Nat.{ℕ}
use Prim.Native.Char.{code}
use Prim.Native.String.{String}
use mathlib.Core.Path.{◌≡◌, refl}
use mathlib.Core.Logic.{◌↔◌}
use mathlib.Core.Bool.{Bool, true, false, ◌&&◌, ◌||◌}
use mathlib.Core.List.{List, [], ◌∷◌, ◌++◌, reverse}
use native.Mathlib.Omega.{arith}
use eval_ledger.Base.Tests.{leb, ◌==◌, if◌then◌else◌}

abbrev pub Text : Type 0
Text = List ℕ

abbrev pub codes : String → Text
codes String.[] = []
codes (String.◌∷◌ c s) = code c ∷ codes s

abbrev pub text_eq : Text → Text → Bool
text_eq [] [] = true
text_eq [] (y ∷ ys) = false
text_eq (x ∷ xs) [] = false
text_eq (x ∷ xs) (y ∷ ys) = (x == y) && text_eq xs ys

pub text_eq→≡ : (a b : Text) → text_eq a b ≡ true → a ≡ b
text_eq→≡ [] [] h = refl
text_eq→≡ [] (y ∷ ys) h = cc
text_eq→≡ (x ∷ xs) [] h = cc
text_eq→≡ (x ∷ xs) (y ∷ ys) h = ground (arith, text_eq→≡ xs ys)

pub text_eq_self : (a : Text) → text_eq a a ≡ true
text_eq_self [] = refl
text_eq_self (x ∷ xs) = ground (arith, text_eq_self xs)

pub text_eq_iff : (a b : Text) → (text_eq a b ≡ true) ↔ (a ≡ b)
text_eq_iff a b = (text_eq→≡ a b, λ e. rw e (text_eq_self b))

abbrev pub is_empty : Text → Bool
is_empty [] = true
is_empty (x ∷ xs) = false

-- What `str.isspace` is true of.
abbrev pub is_space : ℕ → Bool
is_space c =
    (leb 9 c && leb c 13)
    || (leb 28 c && leb c 32)
    || c == 133
    || c == 160
    || c == 5760
    || (leb 8192 c && leb c 8202)
    || c == 8232
    || c == 8233
    || c == 8239
    || c == 8287
    || c == 12288

unfoldable pub lstrip : Text → Text
lstrip [] = []
lstrip (c ∷ s) = let rest = lstrip s in if is_space c then rest else c ∷ s

-- `s.strip()`
unfoldable pub strip : Text → Text
unfolding lstrip
strip s = reverse (lstrip (reverse (lstrip s)))

-- `sep.join(parts)`
unfoldable pub join : Text → List Text → Text
join sep [] = []
join sep (p ∷ []) = p
join sep (p ∷ q ∷ ps) = p ++ sep ++ join sep (q ∷ ps)

-- `s.split(c)` for one character; `piece` is what was read since the last one, in reverse.
unfoldable pub split_loop : ℕ → Text → Text → List Text
split_loop c piece [] = reverse piece ∷ []
split_loop c piece (x ∷ s) =
    let at_sep = reverse piece ∷ split_loop c [] s in
    let inside = split_loop c (x ∷ piece) s in if x == c then at_sep else inside

unfoldable pub split : ℕ → Text → List Text
unfolding split_loop
split c s = split_loop c [] s

-- `[item.strip() for item in s.split(",") if item.strip()]`
unfoldable pub stripped_items : List Text → List Text
unfolding strip
stripped_items [] = []
stripped_items (t ∷ ts) =
    let rest = stripped_items ts in if is_empty (strip t) then rest else strip t ∷ rest

-- `s.startswith(prefix)`
unfoldable pub starts_with : Text → Text → Bool
starts_with [] s = true
starts_with (p ∷ ps) [] = false
starts_with (p ∷ ps) (c ∷ s) = (p == c) && starts_with ps s

strip_example : strip (codes "  a b ") ≡ codes "a b"
unfolding strip
strip_example = refl

split_example :
    stripped_items (split b',' (codes "a, b ,,c")) ≡ codes "a" ∷ codes "b" ∷ codes "c" ∷ []
unfolding split stripped_items
split_example = refl
