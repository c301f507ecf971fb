-- ===== src/Registry/Benchmarks.antt =====
-- backend/app/routers/benchmarks.py: registration and editing of a benchmark, and the pages of the
-- list. Rate limits and request validation come before a handler and are not part of it.
pub mod Rules
use eval_ledger.Base.{
  ℕ, zero, suc, ◌+◌, ◌-◌, ◌*◌, ◌≡◌, refl, Bool, true, false, not, Option, none, some, List, [], ◌∷◌,
  ◌++◌, String, str_eq, if◌then◌else◌, select, update_where, any, ◌==◌, is_some, take, drop,
}
use eval_ledger.Errors.{AppError, Raised, app_error, integrity}
use eval_ledger.Registry.Db.{Db, User, Benchmark, AuditEvent, has_slug, benchmark_has_id}
use eval_ledger.Registry.Session.{
  World, Action, pure, raise, require, ensure, query, write, insert_unless, commit,
  record_audit_event, ◌>>=◌, ◌>>◌,
}
use eval_ledger.Registry.Auth.{forbidden}

abbrev pub benchmark_not_found : AppError
benchmark_not_found = app_error "benchmark_not_found" 404

abbrev pub benchmark_exists : AppError
benchmark_exists = app_error "benchmark_exists" 409

pub record BenchmarkCreate : Type 0 where
  pub name : String
  pub slug : String
  pub description : String
  pub domain : List String
  pub task_type : String

-- A field that is unset is none; one that was sent as null is `some none`. `website`, which the table
-- has no column for, is left out.
pub record BenchmarkUpdate : Type 0 where
  pub name : Option (Option String)
  pub description : Option (Option String)
  pub domain : Option (Option (List String))
  pub task_type : Option (Option String)

abbrev pub benchmark_event : User → Benchmark → String → AuditEvent
benchmark_event actor benchmark action = record {
  actor_user_id = some actor.id;
  benchmark_id = some benchmark.id;
  version_id = none;
  action = action;
  resource_type = "benchmark";
  resource_id = some benchmark.id;
  resource_slug = some benchmark.slug;
}

abbrev pub new_benchmark : ℕ → ℕ → BenchmarkCreate → User → Benchmark
new_benchmark new_id now payload current_user = record {
  id = new_id;
  slug = payload.slug;
  name = payload.name;
  description = some payload.description;
  domain = payload.domain;
  task_type = some payload.task_type;
  submitter_id = some current_user.id;
  created_at = now;
  is_verified = false;
  total_versions = 0;
  total_citations = 0;
  review_note = none;
  reviewed_at = none;
  reviewed_by_id = none;
}

unfoldable pub add_benchmark : Benchmark → Db → Db
add_benchmark benchmark db = record db { benchmarks = db.benchmarks ++ benchmark ∷ [] }

-- The slug is a unique column, so the INSERT is checked once more.
unfoldable pub create_benchmark : ℕ → ℕ → BenchmarkCreate → User → Action Benchmark
unfolding record_audit_event commit add_benchmark
create_benchmark new_id now payload current_user = do
  existing ← query (λ db. select (has_slug payload.slug) db.benchmarks)
  ensure (not (is_some existing)) benchmark_exists
  let benchmark = new_benchmark new_id now payload current_user
  taken ← query (λ db. is_some (select (has_slug payload.slug) db.benchmarks))
  insert_unless taken (add_benchmark benchmark)
  record_audit_event (benchmark_event current_user benchmark "benchmark.created")
  commit
  pure benchmark

abbrev given {ℓ} : {A : Type ℓ} → Option A → A → A
given none old = old
given (some new) old = new

-- `setattr` for each field that was sent.
unfoldable pub apply_update : BenchmarkUpdate → Benchmark → Benchmark
apply_update payload b = record b {
  name = elim payload.name [ some (some n) ↦ n | _ ↦ b.name ];
  description = given payload.description b.description;
  domain = elim payload.domain [ some (some d) ↦ d | _ ↦ b.domain ];
  task_type = given payload.task_type b.task_type;
}

abbrev is_null {ℓ} : {A : Type ℓ} → Option (Option A) → Bool
is_null (some none) = true
is_null (some (some a)) = false
is_null none = false

-- A null in a NOT NULL column.
abbrev pub breaks_not_null : BenchmarkUpdate → Bool
breaks_not_null payload = if is_null payload.name then true else is_null payload.domain

abbrev pub is_submitter : User → Benchmark → Bool
is_submitter user b = elim b.submitter_id [ none ↦ false | some i ↦ i == user.id ]

unfoldable pub update_benchmark : String → BenchmarkUpdate → User → Action Benchmark
unfolding record_audit_event commit apply_update
update_benchmark slug payload current_user = do
  found ← query (λ db. select (has_slug slug) db.benchmarks)
  benchmark ← require found benchmark_not_found
  ensure (is_submitter current_user benchmark) forbidden
  insert_unless (breaks_not_null payload) (λ db. record db {
    benchmarks = update_where (benchmark_has_id benchmark.id) (apply_update payload) db.benchmarks;
  })
  record_audit_event (benchmark_event current_user benchmark "benchmark.updated")
  commit
  pure (apply_update payload benchmark)
