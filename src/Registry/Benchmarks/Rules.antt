-- ===== src/Registry/Benchmarks/Rules.antt =====
-- Who may register and edit a benchmark.
use eval_ledger.Base.{
  ℕ, ◌≡◌, ◌⊎◌, refl, ◌∙◌, true, some, [], ◌∷◌, ◌++◌, String, str_eq_self, if◌then◌else◌, select,
  select-append_none, update_where, is_some, Bool-cases, Option-cases, inl, inr,
}
use eval_ledger.Errors.{Raised, app, integrity}
use eval_ledger.Registry.Db.{User, Benchmark, has_slug, benchmark_has_id}
use eval_ledger.Registry.Auth.{forbidden}
use eval_ledger.Registry.Session.{
  World, visible, returns, raises, request, commit, record_audit_event,
}
use eval_ledger.Registry.Benchmarks.{
  BenchmarkCreate, BenchmarkUpdate, new_benchmark, create_benchmark, update_benchmark, apply_update,
  benchmark_exists, benchmark_not_found, benchmark_event, is_submitter, breaks_not_null,
  add_benchmark,
}

-- A slug that the table has is refused with a conflict and the database is left alone; any other is
-- accepted, and then the row is in the table, can be selected by its slug, belongs to the caller, and
-- its registration is in the audit trail. The object storage and the queue are not touched.
pub create_benchmark_lem :
    (new_id now : ℕ) (payload : BenchmarkCreate) (user : User) (w : World)
    → let (r, w') = request (create_benchmark new_id now payload user) w in
      let b = new_benchmark new_id now payload user in
      let existing = select (has_slug payload.slug) w.committed.benchmarks in
      (r ≡ (if is_some existing then raises (app benchmark_exists) else returns b))
      × (w'.committed.benchmarks
          ≡ (if is_some existing then w.committed.benchmarks else w.committed.benchmarks ++ b ∷ []))
      × (select (has_slug payload.slug) w'.committed.benchmarks
          ≡ (if is_some existing then existing else some b))
      × (w'.committed.audit_events ≡ (
          if is_some existing
          then w.committed.audit_events
          else w.committed.audit_events ++ benchmark_event user b "benchmark.created" ∷ []))
      × (w'.objects ≡ w.objects)
      × (w'.tasks ≡ w.tasks)
unfolding request create_benchmark commit record_audit_event add_benchmark
create_benchmark_lem new_id now payload user w =
    let existing = select (has_slug payload.slug) w.committed.benchmarks in
    let b = new_benchmark new_id now payload user in
    elim (Option-cases existing) [
      | inr (b', found) ↦ rw found (refl, refl, found, refl, refl, refl)
      | inl fresh ↦ rw fresh (
          rw fresh (
            refl,
            refl,
            select-append_none (has_slug payload.slug) w.committed.benchmarks (b ∷ []) fresh
                ∙ rw (str_eq_self payload.slug),
            refl,
            refl,
            refl,
          ))
    ]

-- An edit is refused, and then nothing is written, or it is made by the submitter, writes the fields
-- that were sent to the row of the benchmark, and answers with that row.
pub update_benchmark_lem :
    (slug : String) (payload : BenchmarkUpdate) (user : User) (w : World)
    → let (r, w') = request (update_benchmark slug payload user) w in
      ((e : Raised) × (r ≡ raises e) × (visible w' ≡ visible w))
      ⊎ ((b : Benchmark) × (r ≡ returns (apply_update payload b))
          × (select (has_slug slug) w.committed.benchmarks ≡ some b)
          × (is_submitter user b ≡ true)
          × (w'.committed.benchmarks
              ≡ update_where (benchmark_has_id b.id) (apply_update payload) w.committed.benchmarks))
unfolding request update_benchmark commit record_audit_event
update_benchmark_lem slug payload user w =
    elim (Option-cases (select (has_slug slug) w.committed.benchmarks)) [
      | inl missing ↦ inl (app benchmark_not_found, rw missing refl, rw missing refl)
      | inr (b, found) ↦ elim (Bool-cases (is_submitter user b)) [
        | inr other ↦ inl (app forbidden, rw (found, other) refl, rw (found, other) refl)
        | inl owner ↦ elim (Bool-cases (breaks_not_null payload)) [
          | inl null ↦ inl (integrity, rw (found, owner, null) refl, rw (found, owner, null) refl)
          | inr full ↦
              inr (b, rw (found, owner, full) refl, found, owner, rw (found, owner, full) refl)
        ]
      ]
    ]
