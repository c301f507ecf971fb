-- ===== src/Witnesses/Contamination.antt =====
-- Inputs of the contamination check.
use mathlib.Core.Option
use eval_ledger.Base.{
  true, ◌⊎◌, All, is_some, ℕ, ◌+◌, ◌≤◌, ◌≡◌, ◌≢◌, refl, ◌&&◌, Option, none, some, List, [], ◌∷◌,
  ◌++◌, map, arith, if◌then◌else◌, length, filter, any, ◌==◌, Text, codes, split, strip, join,
  select,
}
use eval_ledger.Witnesses.Services.{lower, is_word}
use eval_ledger.Contamination.Score.{Score, score_ge, score_gt}
use eval_ledger.Contamination.Shingles.{jaccard_shingles, shingles}
use eval_ledger.Contamination.Classify.{Status, pending, clean, flagged, contaminated, error, rank}
use eval_ledger.Contamination.Examples.{
  Json, str, arr, null, field, end, Stream, raises, yields, Readers, extract_examples, nonblank,
  examples_field,
}
use eval_ledger.Contamination.Examples.Formats.{to_items}
use eval_ledger.Contamination.Detection.{
  Engine, Bundle, detect, best_match, flagged_example, get_entry,
}
use eval_ledger.Contamination.Detection.Streaming.{summary, first_examples, detect_lem}
use eval_ledger.Contamination.Detection.Matching.{reaches_threshold, flagged_example_lem}
use eval_ledger.Contamination.Reports.{
  Report, Version, Tables, Sources, Result, of_key, of_version, store_report, run_detection,
}
use eval_ledger.Contamination.Reports.{load_bundles, result_of}
use eval_ledger.Contamination.Reports.Completion.{Written, run_detection_returns}
use eval_ledger.Contamination.Reports.Upsert.{store_report_count}
use eval_ledger.Contamination.Reports.Verdict.{run_detection_verdict}
use eval_ledger.Contamination.Job.{Attempt, raised, transient, permanent, deliver, deliver_failed}

abbrev fingerprint : Text → Text
fingerprint t = t

abbrev half : Score
half = record { num = 1; den = 2 }

abbrev engine : Engine
engine = record {
  threshold = half;
  shingle_size = 2;
  max_examples = 2;
  max_flagged_examples = 1;
  max_example_chars = 100;
}

abbrev corpus_text : Text
corpus_text = codes "the quick fox"

abbrev bundle : Bundle Text
bundle = record {
  corpus_id = 1;
  corpus_name = "web";
  lsh_query = λ m. codes "k" ∷ [];
  entries = (codes "k", corpus_text) ∷ [];
}

abbrev stream : Stream
stream = yields (codes "The quick fox") (yields (codes "other words") (yields corpus_text raises))

detect_lem_example :
    detect is_word lower fingerprint engine (bundle ∷ []) stream
    ≡ Option.map (summary is_word lower fingerprint engine (bundle ∷ [])) (first_examples 2 stream)
detect_lem_example = detect_lem is_word lower fingerprint engine (bundle ∷ []) stream

flagged_example_lem_example :
    is_some (
      flagged_example {M = Text} is_word lower fingerprint engine
        (codes "The quick fox")
        0
        (best_match is_word lower fingerprint engine (codes "The quick fox") bundle))
    ≡ any
        (λ key.
          reaches_threshold is_word lower fingerprint engine
            (codes "The quick fox")
            (get_entry key bundle.entries))
        (codes "k" ∷ [])
flagged_example_lem_example =
    flagged_example_lem is_word lower fingerprint engine (codes "The quick fox") 0 bundle
      (omega arith)

abbrev scores : Score × Score
scores = (record { num = 1; den = 10 }, record { num = 1; den = 4 })

abbrev verdicts : List Status
verdicts = clean ∷ flagged ∷ []

abbrev readers : Readers Text
readers = record {
  decode_json = λ b. none;
  decode_lines = λ b. some (split 10 b);
  loads_line = λ l. some (str l);
  csv_rows = λ b. [];
  parquet_rows = λ b. none;
  lenient_lines = split 10;
}

abbrev two_items : List Json
two_items = str (codes "a b") ∷ str (codes "c") ∷ []

two_lines :
    map readers.loads_line (nonblank (codes "a b" ∷ codes " " ∷ codes "c" ∷ []))
    ≡ map some two_items
unfolding nonblank
two_lines = refl

two_fields :
    examples_field
      (field (codes "name") null (field (codes "examples") (arr (to_items two_items)) end))
    ≡ some (to_items two_items)
unfolding examples_field
two_fields = refl

abbrev sources : Sources Text Text
sources = record {
  read_bytes = λ path. some corpus_text;
  load_corpus_index = λ bytes. some (λ m. codes "k" ∷ [], (codes "k", corpus_text) ∷ []);
}

abbrev version : Version
version = record { id = 7; contamination_status = pending }

abbrev other_version : Version
other_version = record { id = 8; contamination_status = pending }

abbrev tables : Tables
tables = record {
  corpora = record { id = 1; name = "web"; minhash_index_path = some "web.idx" } ∷ [];
  versions = version ∷ other_version ∷ [];
  reports = [];
}

abbrev whole : Score
whole = record { num = 1; den = 1 }

abbrev report : Report
report = record {
  report_id = 41;
  version_id = 7;
  corpus_id = 1;
  status = contaminated;
  overlap = whole;
  num_flagged_examples = 1;
  flagged_examples =
      record {
        example_index = 0;
        benchmark_example = corpus_text;
        corpus_match = corpus_text;
        similarity = record { num = 2; den = 2 };
      }
      ∷ [];
  minhash_threshold = half;
  job_started_at = 100;
  job_completed_at = 101;
}

abbrev results : List Result
results =
    record {
      result_corpus_id = 1;
      result_status = contaminated;
      result_overlap = whole;
      result_num_flagged = 1;
    }
    ∷ []

abbrev tables_after : Tables
tables_after = record tables {
  versions = record { id = 7; contamination_status = contaminated } ∷ other_version ∷ [];
  reports = report ∷ [];
}

abbrev run_on : Tables → Option ℕ → Option (Tables × List Result)
run_on db version_id =
    run_detection is_word lower fingerprint engine readers sources (codes "set.txt") "set.txt"
      (1 ∷ []) version_id (λ c. 40 + c) 100 (λ c. 101) db

ran : run_on tables (some 7) ≡ some (tables_after, results)
unfolding run_detection strip score_gt jaccard_shingles shingles join score_ge
ran = refl

ran_adhoc : run_on tables (some 9) ≡ some (tables, results)
unfolding run_detection strip score_gt jaccard_shingles shingles join score_ge
ran_adhoc = refl

run_detection_verdict_example :
    (status : Status) × (select (of_version 7) tables_after.versions
      ≡ some (record version { contamination_status = status }))
    × (1 ≤ rank status)
    × All (λ r. rank r.result_status ≤ rank status) results
    × ((status ≡ clean) ⊎ (any (λ r. rank r.result_status == rank status) results ≡ true))
    × (select (of_version 8) tables_after.versions ≡ select (of_version 8) tables.versions)
run_detection_verdict_example =
    run_detection_verdict is_word lower fingerprint engine readers sources (codes "set.txt")
      "set.txt" (1 ∷ []) (λ c. 40 + c) 100 (λ c. 101) tables tables_after results version 8 refl ran
      refl

read_all :
    first_examples 2 (extract_examples lower readers (codes "set.txt") corpus_text)
    ≡ some (corpus_text ∷ [])
unfolding extract_examples first_examples strip
read_all = refl

loaded : load_bundles sources tables.corpora ≡ some (bundle ∷ [])
unfolding load_bundles
loaded = refl

run_detection_returns_example :
    let p = summary is_word lower fingerprint engine (bundle ∷ []) (corpus_text ∷ []) in
    (db' : Tables) × (run_on tables (some 7)
      ≡ some (db', map (result_of p.total_examples) p.tallies))
    × Written is_word lower fingerprint engine readers sources
        (λ c. 40 + c)
        100
        (λ c. 101)
        p
        (some version)
        tables
        db'
run_detection_returns_example =
    run_detection_returns is_word lower fingerprint engine readers sources (codes "set.txt")
      "set.txt" (1 ∷ []) (some 7) (λ c. 40 + c) 100 (λ c. 101) tables corpus_text (bundle ∷ [])
      (corpus_text ∷ []) refl loaded read_all (tt, tt)

store_report_count_example :
    length (filter (of_key 7 1) (store_report report (report ∷ [])))
    ≡ (if (7 == 7) && (1 == 1) then 1 else length (filter (of_key 7 1) (report ∷ [])))
store_report_count_example = store_report_count report 7 1 (report ∷ []) (omega arith)

abbrev one_retry : List Attempt
one_retry = raised transient ∷ []

not_transient : permanent ≢ transient
not_transient e = cc

deliver_failed_example :
    let (db', raised_error) = deliver (some 7) (one_retry ++ raised permanent ∷ []) tables in
    (raised_error ≡ some permanent)
    × (select (of_version 7) db'.versions ≡ some (record version { contamination_status = error }))
    × (select (of_version 8) db'.versions ≡ select (of_version 8) tables.versions)
    × (db'.reports ≡ tables.reports)
deliver_failed_example =
    deliver_failed one_retry permanent [] version 8 tables (refl, tt) not_transient refl refl
