-- ===== src/Witnesses/Rows.antt =====
-- Rows and a world of the registry.
use eval_ledger.Base.{true, false, none, some, [], ◌∷◌}
use eval_ledger.Registry.Db.{Db, User, Benchmark}
use eval_ledger.Registry.Session.{World}

abbrev pub alice : User
alice = record {
  id = 1;
  email = "alice@example.org";
  username = "alice";
  password_hash = none;
  display_name = some "Alice";
  bio = none;
  website = none;
  affiliation = none;
  is_verified = true;
  is_admin = false;
  deleted_at = none;
}

abbrev pub bob : User
bob = record alice { id = 2; username = "bob"; email = "bob@example.org"; is_admin = true }

abbrev pub suite : Benchmark
suite = record {
  id = 5;
  slug = "suite";
  name = "Suite";
  description = some "A suite of tasks";
  domain = "nlp" ∷ [];
  task_type = some "qa";
  submitter_id = some 1;
  created_at = 10;
  is_verified = false;
  total_versions = 0;
  total_citations = 0;
  review_note = none;
  reviewed_at = none;
  reviewed_by_id = none;
}

abbrev pub db : Db
db = record {
  users = alice ∷ bob ∷ [];
  api_keys =
      record {
        id = 3;
        user_id = 1;
        key_hash = "k";
        name = none;
        last_used_at = none;
        is_active = true;
      }
      ∷ [];
  identities =
      record { user_id = 1; provider = "github"; provider_user_id = "77"; provider_email = none }
      ∷ [];
  benchmarks = suite ∷ [];
  versions = [];
  audit_events = [];
  reports = [];
}

abbrev pub world : World
world = record { committed = db; working = db; objects = []; tasks = [] }
