-- ===== src/Registry/Reviews.antt =====
-- backend/app/routers/admin.py: the counts of the dashboard, the review queue, the decision on a
-- benchmark and the reviewers' notes. Summaries and metadata of the audit events are not modelled.
pub mod Queue
use eval_ledger.Base.{
  ℕ, ◌≡◌, refl, Bool, true, false, not, ◌&&◌, ◌||◌, Option, none, some, List, [], ◌∷◌, ◌++◌, String,
  str_eq, length, take, if◌then◌else◌, select, update_where, filter, any, ◌==◌,
}
use eval_ledger.Contamination.Classify.{
  Status, pending, clean, flagged, contaminated, error, unchecked, is_contaminated, is_flagged,
}
use eval_ledger.Registry.Db.{
  Db, User, Benchmark, BenchmarkVersion, AuditEvent, has_slug, benchmark_has_id, of_benchmark,
}
use eval_ledger.Registry.Session.{
  World, Action, pure, require, query, write, commit, record_audit_event, ◌>>=◌, ◌>>◌,
}
use eval_ledger.Registry.Benchmarks.{benchmark_not_found, benchmark_event}

pub record AdminStats : Type 0 where
  pub total_benchmarks : ℕ
  pub unverified_count : ℕ
  pub verified_count : ℕ
  pub contamination_pending_count : ℕ
  pub contamination_flagged_count : ℕ

abbrev pub is_pending : Status → Bool
is_pending pending = true
is_pending _ = false

-- `func.count()` over the rows that a WHERE clause selects.
abbrev pub count {ℓ} : {A : Type ℓ} → (A → Bool) → List A → ℕ
count p rows = length (filter p rows)

unfoldable pub admin_stats : Db → AdminStats
admin_stats db = record {
  total_benchmarks = length db.benchmarks;
  unverified_count = count (λ b. not b.is_verified) db.benchmarks;
  verified_count = count (λ b. b.is_verified) db.benchmarks;
  contamination_pending_count = count (λ v. is_pending v.contamination_status) db.versions;
  contamination_flagged_count =
      count (λ v. is_flagged v.contamination_status || is_contaminated v.contamination_status)
        db.versions;
}

pub data QueueStatus : Type 0 where
  unreviewed verified everything : QueueStatus

abbrev passes_status : QueueStatus → Benchmark → Bool
passes_status unreviewed b = not b.is_verified
passes_status verified b = b.is_verified
passes_status everything b = true

-- The filter on any version's status; `matches` tests it.
abbrev passes_contamination : Option (Status → Bool) → List BenchmarkVersion → Benchmark → Bool
passes_contamination none versions b = true
passes_contamination (some matches) versions b =
    any (λ v. of_benchmark b.id v && matches v.contamination_status) versions

-- `_base_benchmark_query`, on the benchmarks in the order of their creation.
unfoldable pub base_benchmark_query : QueueStatus → Option (Status → Bool) → Db → List Benchmark
base_benchmark_query status contamination db =
    filter (λ b. passes_status status b && passes_contamination contamination db.versions b)
      db.benchmarks

unfoldable pub review_queue : ℕ → QueueStatus → Option (Status → Bool) → Db → List Benchmark
unfolding base_benchmark_query
review_queue limit status contamination db =
    take limit (base_benchmark_query status contamination db)

-- An empty note is no note.
abbrev keep_note : Option String → Option String → Option String
keep_note none old = old
keep_note (some note) old = if str_eq note "" then old else some note

abbrev pub reviewed : Bool → Option String → ℕ → User → Benchmark → Benchmark
reviewed is_verified note now reviewer b = record b {
  is_verified = is_verified;
  review_note = keep_note note b.review_note;
  reviewed_at = some now;
  reviewed_by_id = some reviewer.id;
}

unfoldable pub write_benchmark : ℕ → (Benchmark → Benchmark) → Db → Db
write_benchmark i f db = record db {
  benchmarks = update_where (benchmark_has_id i) f db.benchmarks;
}

unfoldable pub set_benchmark_verification :
    String → Bool → Option String → ℕ → User → Action Benchmark
unfolding record_audit_event commit write_benchmark
set_benchmark_verification slug is_verified note now current_user = do
  found ← query (λ db. select (has_slug slug) db.benchmarks)
  benchmark ← require found benchmark_not_found
  let decide = reviewed is_verified note now current_user
  write (write_benchmark benchmark.id decide)
  let action = if is_verified then "benchmark.verified" else "benchmark.unverified"
  record_audit_event (benchmark_event current_user benchmark action)
  commit
  pure (decide benchmark)

abbrev pub noted : String → ℕ → User → Benchmark → Benchmark
noted note now reviewer b = record b {
  review_note = some note;
  reviewed_at = some now;
  reviewed_by_id = some reviewer.id;
}

unfoldable pub add_review_note : String → String → ℕ → User → Action Benchmark
unfolding record_audit_event commit write_benchmark
add_review_note slug note now current_user = do
  found ← query (λ db. select (has_slug slug) db.benchmarks)
  benchmark ← require found benchmark_not_found
  write (write_benchmark benchmark.id (noted note now current_user))
  record_audit_event (benchmark_event current_user benchmark "benchmark.review_note")
  commit
  pure (noted note now current_user benchmark)
