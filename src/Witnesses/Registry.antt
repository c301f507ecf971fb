-- ===== src/Witnesses/Registry.antt =====
-- Accounts, benchmarks, reviews and reports.
use eval_ledger.Base.{
  not, filter, ◌+◌, ◌≡◌, refl, true, false, none, some, List, [], ◌∷◌, ◌++◌, String, min, All,
  length, select, ◌==◌,
}
use eval_ledger.Witnesses.Services.{lower, jwt}
use eval_ledger.Registry.Db.{identity_of_user, key_of_user, dismissed, user_has_id}
use eval_ledger.Registry.Session.{World, returns, request}
use eval_ledger.Registry.Auth.{get_current_user, authenticate_api_key, key_owner}
use eval_ledger.Registry.Account.{tombstone, delete_my_account, account_event}
use eval_ledger.Registry.Account.Erasure.{
  Erased, delete_my_account_erases, Erased-never_authenticates,
}
use eval_ledger.Registry.Benchmarks.{BenchmarkCreate, BenchmarkUpdate}
use eval_ledger.Registry.Reports.Moderation.{
  Moderation, file, decide, run_all, Consistent, run_all-Consistent,
}
use eval_ledger.Registry.Reviews.{admin_stats, review_queue, unreviewed, verified}
use eval_ledger.Registry.Reviews.Queue.{queue_agrees_with_stats}
use eval_ledger.Witnesses.Rows.{alice, bob, db, world}

delete_my_account_erases_example :
    let (r, w') = request (delete_my_account "d1" "deleted_1" 100 alice) world in
    (r ≡ returns tt)
    × Erased 1 w'.committed
    × (select (user_has_id 1) w'.committed.users
        ≡ some (record {
          id = 1;
          email = "d1";
          username = "deleted_1";
          password_hash = none;
          display_name = none;
          bio = none;
          website = none;
          affiliation = none;
          is_verified = false;
          is_admin = false;
          deleted_at = some 100;
        }))
    × (select (user_has_id 2) w'.committed.users ≡ select (user_has_id 2) db.users)
    × (filter (λ u. not (user_has_id 1 u)) w'.committed.users
        ≡ filter (λ u. not (user_has_id 1 u)) db.users)
    × (filter (λ k. not (key_of_user 1 k)) w'.committed.api_keys
        ≡ filter (λ k. not (key_of_user 1 k)) db.api_keys)
    × (filter (λ x. not (identity_of_user 1 x)) w'.committed.identities
        ≡ filter (λ x. not (identity_of_user 1 x)) db.identities)
    × (w'.committed.reports ≡ db.reports)
    × (w'.objects ≡ [])
    × (w'.tasks ≡ [])
    × (w'.committed.benchmarks ≡ db.benchmarks)
    × (w'.committed.versions ≡ db.versions)
    × (w'.committed.audit_events
        ≡ db.audit_events ++ account_event 1 "user.deleted" "user" 1 none ∷ [])
delete_my_account_erases_example =
    delete_my_account_erases "d1" "deleted_1" 100 alice 2 world refl refl

abbrev hash : String → String
hash key = "k2"

-- Bob's key in the table in which Alice is erased.
abbrev later_world : World
later_world = record world {
  committed = record db {
    users = tombstone "d1" "deleted_1" 100 alice ∷ bob ∷ [];
    api_keys =
        record {
          id = 4;
          user_id = 2;
          key_hash = "k2";
          name = none;
          last_used_at = none;
          is_active = true;
        }
        ∷ [];
    identities = [];
  };
}

later-Erased : Erased 1 later_world.committed
later-Erased = record {
  users = (λ e. refl, (λ e. cc, tt));
  api_keys = (λ e. cc, tt);
  identities = tt;
}

bob_logs_in :
    (request (get_current_user hash lower jwt (λ t. none) (some "key") none 200) later_world).0
    ≡ returns bob
unfolding request get_current_user authenticate_api_key key_owner
bob_logs_in = refl

Erased-never_authenticates_example : (2 == 1) ≡ false
Erased-never_authenticates_example =
    Erased-never_authenticates hash lower jwt (λ t. none) (some "key") none 200 1 later_world bob
      later-Erased bob_logs_in

abbrev creation : BenchmarkCreate
creation = record { name = "New"; slug = "new"; description = "d"; domain = []; task_type = "qa" }

abbrev renaming : BenchmarkUpdate
renaming = record {
  name = some (some "Renamed");
  description = some none;
  domain = none;
  task_type = none;
}

abbrev moderations : List Moderation
moderations =
    file 20 30
      (record {
        resource_type = "benchmark";
        resource_slug = "suite";
        reason = "other";
        detail = none;
      })
      alice
    ∷ decide 20 31 (record { status = dismissed; resolution_note = none }) bob
    ∷ []

run_all-Consistent_example : All Consistent (run_all moderations world).committed.reports
run_all-Consistent_example = run_all-Consistent moderations world tt

queue_agrees_with_stats_example :
    let stats = admin_stats db in
    (stats.unverified_count + stats.verified_count ≡ stats.total_benchmarks)
    × (length (review_queue 50 unreviewed none db) ≡ min 50 stats.unverified_count)
    × (length (review_queue 50 verified none db) ≡ min 50 stats.verified_count)
queue_agrees_with_stats_example = queue_agrees_with_stats 50 db
