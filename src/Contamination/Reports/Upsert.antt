-- ===== src/Contamination/Reports/Upsert.antt =====
-- Reports of a job that is delivered more than once.
use mathlib.Core.Path.{ap₂}
use eval_ledger.Base.{
  ==→≡, ℕ, ◌+◌, ◌≤◌, ◌≡◌, refl, ap, Bool, true, false, ◌&&◌, inl, inr, List, [], ◌∷◌, ◌++◌, arith,
  any, any-append, filter, filter-append, length, length-append, update_where, Bool-cases, ◌==◌,
  if◌then◌else◌, ==_self,
}
use eval_ledger.Contamination.Reports.{Report, of_key, overwrite, store_report}

any_update {ℓ} :
    {A : Type ℓ} (p q : A → Bool) (f : A → A) (xs : List A)
    → ((a : A) → p (f a) ≡ p a)
    → any p (update_where q f xs) ≡ any p xs
any_update p q f [] keep = refl
any_update p q f (x ∷ xs) keep = ground (arith, keep x, any_update p q f xs keep)

count_update {ℓ} :
    {A : Type ℓ} (p q : A → Bool) (f : A → A) (xs : List A)
    → ((a : A) → p (f a) ≡ p a)
    → length (filter p (update_where q f xs)) ≡ length (filter p xs)
count_update p q f [] keep = refl
count_update p q f (x ∷ xs) keep = ground (arith, keep x, count_update p q f xs keep)

-- A second write of the same columns changes nothing.
update_twice {ℓ} :
    {A : Type ℓ} (p : A → Bool) (f g : A → A) (xs : List A)
    → ((a : A) → p (g a) ≡ p a)
    → ((a : A) → p a ≡ true → f (g a) ≡ g a)
    → update_where p f (update_where p g xs) ≡ update_where p g xs
update_twice p f g [] keep same = refl
update_twice p f g (x ∷ xs) keep same =
    ground (arith, keep x, same x, update_twice p f g xs keep same)

update_none {ℓ} :
    {A : Type ℓ} (p : A → Bool) (f : A → A) (xs : List A)
    → any p xs ≡ false
    → update_where p f xs ≡ xs
update_none p f [] h = refl
update_none p f (x ∷ xs) h = ground (arith, update_none p f xs)

update-append {ℓ} :
    {A : Type ℓ} (p : A → Bool) (f : A → A) (xs ys : List A)
    → update_where p f (xs ++ ys) ≡ update_where p f xs ++ update_where p f ys
update-append p f [] ys = refl
update-append p f (x ∷ xs) ys = ap (◌∷◌ (if p x then f x else x)) (update-append p f xs ys)

none_counted {ℓ} :
    {A : Type ℓ} (p : A → Bool) (xs : List A) → any p xs ≡ false → length (filter p xs) ≡ 0
none_counted p [] h = refl
none_counted p (x ∷ xs) h = ground (arith, none_counted p xs)

some_counted {ℓ} :
    {A : Type ℓ} (p : A → Bool) (xs : List A) → any p xs ≡ true → 1 ≤ length (filter p xs)
some_counted p [] h = cc
some_counted p (x ∷ xs) h = ground (arith, some_counted p xs)

abbrev key_of : Report → Report → Bool
key_of new = of_key new.version_id new.corpus_id

of_key_self : (r : Report) → key_of r r ≡ true
of_key_self r = ground (arith, ==_self r.version_id, ==_self r.corpus_id)

-- A job that is delivered again and measures the same stores the same table, whatever id its second
-- report would have had.
pub store_report_redelivered :
    (new : Report) (second_id : ℕ) (reports : List Report)
    → store_report (record new { report_id = second_id }) (store_report new reports)
      ≡ store_report new reports
unfolding store_report
store_report_redelivered new second_id reports = elim (Bool-cases (any (key_of new) reports)) [
  | inl e ↦
      rw (e, any_update (key_of new) (key_of new) (overwrite new) reports (λ a. refl), e)
        (update_twice (key_of new) _ (overwrite new) reports (λ a. refl) (λ a _. refl))
  | inr e ↦ rw (
    e,
    any-append (key_of new) reports (new ∷ []),
    e,
    of_key_self new,
    update-append (key_of new) (overwrite (record new { report_id = second_id })) reports
        (new ∷ []),
    update_none (key_of new) (overwrite (record new { report_id = second_id })) reports e,
    of_key_self new,
  )
]

same_key :
    (new : Report) (v c : ℕ) (reports : List Report)
    → of_key v c new ≡ true
    → any (key_of new) reports ≡ any (of_key v c) reports
same_key new v c reports h =
    ap₂ (λ (i j : ℕ). any (of_key i j) reports) (==→≡ new.version_id v (ground arith))
      (==→≡ new.corpus_id c (ground arith))

store_report_replaces :
    (new : Report) (v c : ℕ) (reports : List Report)
    → any (key_of new) reports ≡ true
    → length (filter (of_key v c) (store_report new reports)) ≡ length (filter (of_key v c) reports)
unfolding store_report
store_report_replaces new v c reports e =
    rw e (count_update (of_key v c) (key_of new) (overwrite new) reports (λ a. refl))

store_report_appends :
    (new : Report) (v c : ℕ) (reports : List Report)
    → any (key_of new) reports ≡ false
    → length (filter (of_key v c) (store_report new reports))
      ≡ length (filter (of_key v c) reports) + (if of_key v c new then 1 else 0)
unfolding store_report
store_report_appends new v c reports e =
    rw (e, filter-append (of_key v c) reports (new ∷ []))
      (ground (arith, length-append (filter (of_key v c) reports) (filter (of_key v c) (new ∷ []))))

-- A store leaves one report for its own version and corpus, if there was at most one, and as many as
-- before for every other version and corpus.
pub store_report_count :
    (new : Report) (v c : ℕ) (reports : List Report)
    → length (filter (of_key v c) reports) ≤ 1
    → length (filter (of_key v c) (store_report new reports)) ≡ (
        if (new.version_id == v) && (new.corpus_id == c)
        then 1
        else length (filter (of_key v c) reports))
store_report_count new v c reports h = elim (Bool-cases (any (key_of new) reports)) [
  | inl e ↦ ground (
    arith,
    store_report_replaces new v c reports e,
    same_key new v c reports,
    some_counted (of_key v c) reports,
  )
  | inr e ↦ ground (
    arith,
    store_report_appends new v c reports e,
    same_key new v c reports,
    none_counted (of_key v c) reports,
  )
]
