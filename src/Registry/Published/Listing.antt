-- ===== src/Registry/Published/Listing.antt =====
-- The order and the contents of a benchmark's list of versions (backend/app/routers/versions.py,
-- `list_versions`).
use eval_ledger.Base.{
  ℕ, ◌+◌, ◌≤◌, ◌≡◌, refl, ◌∙◌, Bool, ◌&&◌, some, List, [], ◌∷◌, String, arith, filter, Bool-cases,
  inl, inr, length, All, leb, select, if◌then◌else◌,
}
use eval_ledger.Registry.Db.{Benchmark, BenchmarkVersion, has_slug, of_benchmark}
use eval_ledger.Registry.Session.{World, returns}
use eval_ledger.Registry.Published.{fetch_benchmark, insert_newest, newest_first, list_versions}

abbrev pub IsOlder : BenchmarkVersion → BenchmarkVersion → Type 0
IsOlder v u = u.created_at ≤ v.created_at

-- Each version is as new as all that follow it.
abbrev pub Descending : List BenchmarkVersion → Type 0
Descending [] = Unit
Descending (v ∷ vs) = All (IsOlder v) vs × Descending vs

All-IsOlder :
    (v u : BenchmarkVersion) (us : List BenchmarkVersion)
    → IsOlder v u
    → All (IsOlder u) us
    → All (IsOlder v) us
All-IsOlder v u [] h k = tt
All-IsOlder v u (x ∷ us) h k = (omega (arith, h, k.0), All-IsOlder v u us h k.1)

All-insert_newest :
    (v u : BenchmarkVersion) (us : List BenchmarkVersion)
    → IsOlder v u
    → All (IsOlder v) us
    → All (IsOlder v) (insert_newest u us)
unfolding insert_newest
All-insert_newest v u [] h k = (h, tt)
All-insert_newest v u (x ∷ us) h k = ground (arith, h, k, All-insert_newest v u us h k.1)

insert_newest-Descending :
    (v : BenchmarkVersion) (us : List BenchmarkVersion)
    → Descending us
    → Descending (insert_newest v us)
unfolding insert_newest
insert_newest-Descending v [] d = (tt, tt)
insert_newest-Descending v (u ∷ us) d = elim (Bool-cases (leb u.created_at v.created_at)) [
  | inl newer ↦
      let older : IsOlder v u = ground (arith, newer) in
      rw newer ((older, All-IsOlder v u us older d.0), d)
  | inr not_newer ↦
      let older : IsOlder u v = ground (arith, not_newer) in
      rw not_newer (All-insert_newest u v us older d.0, insert_newest-Descending v us d.1)
]

newest_first-Descending : (vs : List BenchmarkVersion) → Descending (newest_first vs)
unfolding newest_first
newest_first-Descending [] = tt
newest_first-Descending (v ∷ vs) =
    insert_newest-Descending v (newest_first vs) (newest_first-Descending vs)

module _ (p : BenchmarkVersion → Bool) where
  abbrev count : List BenchmarkVersion → ℕ
  count vs = length (filter p vs)

  count-insert_newest :
      (v : BenchmarkVersion) (us : List BenchmarkVersion)
      → count (insert_newest v us) ≡ (if p v then 1 else 0) + count us
  unfolding insert_newest
  count-insert_newest v [] = ground arith
  count-insert_newest v (u ∷ us) = ground (arith, count-insert_newest v us)

  count-newest_first : (vs : List BenchmarkVersion) → count (newest_first vs) ≡ count vs
  unfolding newest_first
  count-newest_first [] = refl
  count-newest_first (v ∷ vs) =
      ground (arith, count-insert_newest v (newest_first vs), count-newest_first vs)

  count_both :
      (q : BenchmarkVersion → Bool) (vs : List BenchmarkVersion)
      → count (filter q vs) ≡ length (filter (λ v. q v && p v) vs)
  count_both q [] = refl
  count_both q (v ∷ vs) = ground (arith, count_both q vs)

  -- The list of a benchmark that exists changes nothing, has the newest version first, and for any test
  -- it has as many versions that pass as the table has of that benchmark.
  pub list_versions_lem :
      (slug : String) (w : World) (b : Benchmark)
      → select (has_slug slug) w.working.benchmarks ≡ some b
      → (vs : List BenchmarkVersion) × (list_versions slug w ≡ (returns vs, w))
        × Descending vs
        × (length (filter p vs)
            ≡ length (filter (λ v. of_benchmark b.id v && p v) w.working.versions))
  unfolding list_versions fetch_benchmark
  list_versions_lem slug w b found =
      let rows = filter (of_benchmark b.id) w.working.versions in
      (
        newest_first rows,
        rw found refl,
        newest_first-Descending rows,
        count-newest_first rows ∙ count_both (of_benchmark b.id) w.working.versions,
      )
