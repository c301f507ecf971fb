-- ===== src/Witnesses/Operations.antt =====
-- Runs of the maintenance scripts.
use eval_ledger.Base.{
  ◌++◌, ◌+◌, ◌≡◌, true, false, Option, none, some, List, [], ◌∷◌, map, all, any, text_eq,
  if◌then◌else◌, Text, codes,
}
use eval_ledger.Contamination.JsonFile.{Value, null, bool, str, arr, obj, cons, nil, member, end}
use eval_ledger.Scripts.Artifacts.{
  corpus_index, benchmark_version, Storage, local_files, stat, stat_error, reconcile, is_ok,
}
use eval_ledger.Scripts.Artifacts.Reconciled.{report_on, is_found, checked, reconcile_lem}
use eval_ledger.Scripts.LoadTest.{RequestSample, summarize_samples}
use eval_ledger.Scripts.LoadTest.Counts.{total, all_requests, all_failures, summarize_samples_lem}
use eval_ledger.Scripts.Restore.{Response, response}
use eval_ledger.Scripts.Backup.{Arguments, ParsedDsn}

-- One file is there, one is missing, one cannot be looked at.
abbrev files : Storage
files = local_files (λ key. elim key [
  | [] ↦ stat false
  | c ∷ t ↦ elim t [ [] ↦ stat true | _ ↦ stat_error (codes "denied") ]
])

abbrev versions : List (Text × Text)
versions = (codes "v1", codes "a") ∷ (codes "v2", []) ∷ []

abbrev corpora : List (Text × Text)
corpora = (codes "c1", codes "ab") ∷ []

reconcile_lem_example :
    let entries =
      map (checked files benchmark_version) versions ++ map (checked files corpus_index) corpora in
    let report = reconcile files versions corpora in
    (report ≡ report_on entries)
    × (report.total ≡ report.found + report.missing + report.errors)
    × (is_ok report ≡ all is_found entries)
reconcile_lem_example = reconcile_lem files versions corpora

abbrev dsn : ParsedDsn
dsn = record {
  host = codes "db";
  port = codes "5432";
  dbname = codes "evalledger";
  user = codes "eval";
  password = codes "secret";
}

abbrev backup : Arguments
backup = record { dry_run = false; output = some (codes "b.sql"); format = codes "plain" }

abbrev page : Value
page = obj (
    member (codes "status") (str (codes "ok")) (
      member (codes "checks") (obj (member (codes "database") (bool true) end))
        (member (codes "citation_string") (str (codes "@dataset")) end)))

abbrev lists : List Text
lists =
    codes "/stats/recent?limit=5"
    ∷ codes "/benchmarks/m/versions"
    ∷ codes "/benchmarks/m/activity"
    ∷ []

-- A document is named by its URL.
abbrev loads : Text → Option Value
loads raw = some (if any (text_eq raw) lists then arr (cons null nil) else page)

abbrev fetch : Text → Option Text → Response
fetch url api_key = response 200 url

abbrev samples : List RequestSample
samples =
    record { target = codes "a"; status_code = some 200; duration = 5; error = none }
    ∷ record { target = codes "b"; status_code = some 503; duration = 9; error = none }
    ∷ record {
      target = codes "a";
      status_code = none;
      duration = 7;
      error = some (codes "timeout");
    }
    ∷ []

summarize_samples_lem_example :
    let summary = summarize_samples (λ n. n ∷ []) samples in
    (summary.requests ≡ summary.successes + summary.failures)
    × (summary.requests ≡ total summary.status_summary)
    × (summary.requests ≡ all_requests summary.targets)
    × (summary.failures ≡ all_failures summary.targets)
summarize_samples_lem_example = summarize_samples_lem (λ n. n ∷ []) samples
