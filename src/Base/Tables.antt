-- ===== src/Base/Tables.antt =====
-- A database table is the list of its rows. `select` returns the first row that passes the test of
-- its WHERE clause, `update_where` writes the rows that pass.
use mathlib.Core.Path.{◌≡◌, refl}
use mathlib.Core.Bool.{false, Bool, true}
use mathlib.Core.Logic.{inl, inr}
use mathlib.Core.Option.{Option, none, some}
use mathlib.Core.List.{List, [], ◌∷◌, ◌++◌}
use native.Mathlib.Omega.{arith}
use eval_ledger.Base.Tests.{Bool-cases, if◌then◌else◌}
use eval_ledger.Base.Lists.{any, All}

module _ {ℓ} {A : Type ℓ} where
  abbrev pub select : (A → Bool) → List A → Option A
  select p [] = none
  select p (x ∷ xs) = if p x then some x else select p xs

  abbrev pub update_where : (A → Bool) → (A → A) → List A → List A
  update_where p f [] = []
  update_where p f (x ∷ xs) = (if p x then f x else x) ∷ update_where p f xs

  -- A selected row passes the test.
  pub select-passes : (p : A → Bool) (xs : List A) (a : A) → select p xs ≡ some a → p a ≡ true
  select-passes p [] a h = cc
  select-passes p (x ∷ xs) a h = ground (arith, select-passes p xs a)

  -- What holds of every row holds of a selected one.
  pub select-All {κ} :
      (P : A → Type κ) (p : A → Bool) (xs : List A) (a : A) → All P xs → select p xs ≡ some a → P a
  select-All P p [] a h e = cc
  select-All P p (x ∷ xs) a h e = ground (arith, select-All P p xs a h.1)

  pub select-append_none :
      (p : A → Bool) (xs ys : List A) → select p xs ≡ none → select p (xs ++ ys) ≡ select p ys
  select-append_none p [] ys h = refl
  select-append_none p (x ∷ xs) ys h = ground (arith, select-append_none p xs ys)

  pub select-append_some :
      (p : A → Bool) (xs ys : List A) (a : A) → select p xs ≡ some a → select p (xs ++ ys) ≡ some a
  select-append_some p [] ys a h = cc
  select-append_some p (x ∷ xs) ys a h = ground (arith, select-append_some p xs ys a)

  pub All-append {κ} : (P : A → Type κ) (xs ys : List A) → All P xs → All P ys → All P (xs ++ ys)
  All-append P [] ys h k = k
  All-append P (x ∷ xs) ys h k = (h.0, All-append P xs ys h.1 k)

  -- A write keeps what it keeps of each row that it writes.
  pub All-update_where {κ} :
      (P : A → Type κ) (p : A → Bool) (f : A → A) (xs : List A)
      → ((a : A) → p a ≡ true → P a → P (f a))
      → All P xs
      → All P (update_where p f xs)
  All-update_where P p f [] keep h = h
  All-update_where P p f (x ∷ xs) keep h =
      ground (arith, keep x, All-update_where P p f xs keep h.1)

  -- Writing the rows that pass `p` leaves a selection by `q` alone, if the write keeps `q`.
  pub select-update_where :
      (q p : A → Bool) (f : A → A) (xs : List A)
      → ((a : A) → p a ≡ true → q (f a) ≡ q a)
      → (a : A) → select q xs ≡ some a
      → select q (update_where p f xs) ≡ some (if p a then f a else a)
  select-update_where q p f [] keep a h = cc
  select-update_where q p f (x ∷ xs) keep a h =
      ground (arith, keep x, select-update_where q p f xs keep a)

  pub select-update_none :
      (q p : A → Bool) (f : A → A) (xs : List A)
      → ((a : A) → p a ≡ true → q (f a) ≡ q a)
      → select q xs ≡ none
      → select q (update_where p f xs) ≡ none
  select-update_none q p f [] keep h = refl
  select-update_none q p f (x ∷ xs) keep h =
      ground (arith, keep x, select-update_none q p f xs keep)

  pub selects_a_row :
      (p : A → Bool) (xs : List A) → any p xs ≡ true → (b : A) × (select p xs ≡ some b)
  selects_a_row p [] h = cc
  selects_a_row p (x ∷ xs) h = elim (Bool-cases (p x)) [
    | inl e ↦ (x, rw e refl)
    | inr e ↦ let (b, k) = selects_a_row p xs (ground arith) in (b, rw e k)
  ]

  pub selects_no_row : (p : A → Bool) (xs : List A) → any p xs ≡ false → select p xs ≡ none
  selects_no_row p [] h = refl
  selects_no_row p (x ∷ xs) h = ground (arith, selects_no_row p xs)

  pub select-append_other :
      (p : A → Bool) (xs : List A) (y : A) → p y ≡ false → select p (xs ++ y ∷ []) ≡ select p xs
  select-append_other p [] y h = rw h refl
  select-append_other p (x ∷ xs) y h = ground (arith, select-append_other p xs y h)

  pub select-update_other :
      (p q : A → Bool) (f : A → A) (xs : List A)
      → ((a : A) → p (f a) ≡ p a)
      → ((a : A) → q a ≡ true → p a ≡ false)
      → select p (update_where q f xs) ≡ select p xs
  select-update_other p q f [] keep apart = refl
  select-update_other p q f (x ∷ xs) keep apart =
      ground (arith, keep x, apart x, select-update_other p q f xs keep apart)
