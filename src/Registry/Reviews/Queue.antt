-- ===== src/Registry/Reviews/Queue.antt =====
-- The review queue against the dashboard, and the way of a benchmark out of the queue.
use eval_ledger.Base.{
  ℕ, ◌+◌, ◌≡◌, refl, Bool, true, false, not, ◌&&◌, Option, none, some, List, [], ◌∷◌, ◌++◌, String,
  arith, length, length-take, min, select, update_where, filter, any,
}
use eval_ledger.Registry.Db.{Db, User, Benchmark, has_slug, benchmark_has_id}
use eval_ledger.Registry.Session.{World, returns, request, commit, record_audit_event}
use eval_ledger.Registry.Benchmarks.{benchmark_event}
use eval_ledger.Registry.Reviews.{
  admin_stats, count, unreviewed, verified, base_benchmark_query, review_queue,
  set_benchmark_verification, reviewed, write_benchmark,
}

count-partition {ℓ} :
    {A : Type ℓ} (p : A → Bool) (xs : List A) → count (λ x. not (p x)) xs + count p xs ≡ length xs
count-partition p [] = refl
count-partition p (x ∷ xs) = ground (arith, count-partition p xs)

filter-true :
    (p : Benchmark → Bool) (xs : List Benchmark) → filter (λ b. p b && true) xs ≡ filter p xs
filter-true p [] = refl
filter-true p (x ∷ xs) = ground (arith, filter-true p xs)

-- The dashboard and the queue agree: the benchmarks are the unverified and the verified ones, and the
-- queue of the unverified ones, cut at `limit`, is as long as their count allows.
pub queue_agrees_with_stats :
    (limit : ℕ) (db : Db)
    → let stats = admin_stats db in
      (stats.unverified_count + stats.verified_count ≡ stats.total_benchmarks)
      × (length (review_queue limit unreviewed none db) ≡ min limit stats.unverified_count)
      × (length (review_queue limit verified none db) ≡ min limit stats.verified_count)
unfolding admin_stats review_queue base_benchmark_query
queue_agrees_with_stats limit db = (
  count-partition (λ (b : Benchmark). b.is_verified) db.benchmarks,
  rw (filter-true (λ b. not b.is_verified) db.benchmarks) (length-take limit _),
  rw (filter-true (λ b. b.is_verified) db.benchmarks) (length-take limit _),
)

drops_row :
    (i : ℕ) (remark : Option String) (now : ℕ) (reviewer : User) (xs : List Benchmark)
    → any (benchmark_has_id i) (
        filter
          (λ b. not b.is_verified && true)
          (update_where (benchmark_has_id i) (reviewed true remark now reviewer) xs))
      ≡ false
drops_row i remark now reviewer [] = refl
drops_row i remark now reviewer (x ∷ xs) = ground (arith, drops_row i remark now reviewer xs)

-- A decision to verify takes the benchmark out of the queue of the unverified ones, records it in the
-- audit trail under the reviewer's name, and answers with the row as written.
pub verification_leaves_queue :
    (slug : String) (note : Option String) (now : ℕ) (admin : User) (w : World) (b : Benchmark)
    → select (has_slug slug) w.committed.benchmarks ≡ some b
    → let (r, w') = request (set_benchmark_verification slug true note now admin) w in
      (r ≡ returns (reviewed true note now admin b))
      × (any (benchmark_has_id b.id) (base_benchmark_query unreviewed none w'.committed) ≡ false)
      × (w'.committed.audit_events
          ≡ w.committed.audit_events ++ benchmark_event admin b "benchmark.verified" ∷ [])
      × (w'.committed.versions ≡ w.committed.versions)
unfolding request set_benchmark_verification base_benchmark_query commit record_audit_event
    write_benchmark
verification_leaves_queue slug note now admin w b found =
    rw found (refl, drops_row b.id note now admin w.committed.benchmarks, refl, refl)
