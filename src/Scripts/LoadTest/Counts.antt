-- ===== src/Scripts/LoadTest/Counts.antt =====
-- The counts of a load test's summary agree (backend/app/scripts/loadtest.py).
use eval_ledger.Base.{
  ℕ, ◌+◌, ◌≡◌, Bool, not, List, [], ◌∷◌, map, filter, Text, arith, length, if◌then◌else◌,
  length-append, filter-append,
}
use eval_ledger.Scripts.LoadTest.{
  RequestSample, Counts, count_one, status_key, status_breakdown, add_sample, per_target,
  target_summary, TargetSummary, is_success, summarize_samples,
}

abbrev pub total : Counts → ℕ
total [] = 0
total ((k, n) ∷ counts) = n + total counts

total-count_one : (key : Text) (counts : Counts) → total (count_one key counts) ≡ total counts + 1
unfolding count_one
total-count_one key [] = omega arith
total-count_one key ((k, n) ∷ counts) = ground (arith, total-count_one key counts)

total-status_breakdown :
    (decimal : ℕ → Text) (samples : List RequestSample) (counts : Counts)
    → total (status_breakdown decimal samples counts) ≡ total counts + length samples
unfolding status_breakdown
total-status_breakdown decimal [] counts = omega arith
total-status_breakdown decimal (s ∷ samples) counts = ground (
  arith,
  total-status_breakdown decimal samples (count_one (status_key decimal s) counts),
  total-count_one (status_key decimal s) counts,
)

abbrev pub all_requests : List TargetSummary → ℕ
all_requests [] = 0
all_requests (t ∷ targets) = t.requests + all_requests targets

abbrev pub all_failures : List TargetSummary → ℕ
all_failures [] = 0
all_failures (t ∷ targets) = t.failures + all_failures targets

abbrev is_failure : RequestSample → Bool
is_failure s = not (is_success s)

abbrev Groups : Type 0
Groups = List (Text × List RequestSample)

requests-add_sample :
    (s : RequestSample) (groups : Groups)
    → all_requests (map target_summary (add_sample s groups))
      ≡ all_requests (map target_summary groups) + 1
unfolding add_sample target_summary
requests-add_sample s [] = omega arith
requests-add_sample s ((target, samples) ∷ groups) =
    ground (arith, requests-add_sample s groups, length-append samples (s ∷ []))

failures-add_sample :
    (s : RequestSample) (groups : Groups)
    → all_failures (map target_summary (add_sample s groups))
      ≡ all_failures (map target_summary groups) + (if is_failure s then 1 else 0)
unfolding add_sample target_summary
failures-add_sample s [] = ground arith
failures-add_sample s ((target, samples) ∷ groups) = ground (
  arith,
  failures-add_sample s groups,
  filter-append is_failure samples (s ∷ []),
  length-append (filter is_failure samples) (filter is_failure (s ∷ [])),
)

requests-per_target :
    (samples : List RequestSample) (groups : Groups)
    → all_requests (map target_summary (per_target samples groups))
      ≡ all_requests (map target_summary groups) + length samples
unfolding per_target
requests-per_target [] groups = omega arith
requests-per_target (s ∷ samples) groups =
    ground (arith, requests-per_target samples (add_sample s groups), requests-add_sample s groups)

failures-per_target :
    (samples : List RequestSample) (groups : Groups)
    → all_failures (map target_summary (per_target samples groups))
      ≡ all_failures (map target_summary groups) + length (filter is_failure samples)
unfolding per_target
failures-per_target [] groups = omega arith
failures-per_target (s ∷ samples) groups =
    ground (arith, failures-per_target samples (add_sample s groups), failures-add_sample s groups)

successes_and_failures :
    (samples : List RequestSample)
    → length samples ≡ length (filter is_success samples) + length (filter is_failure samples)
successes_and_failures [] = omega arith
successes_and_failures (s ∷ samples) = ground (arith, successes_and_failures samples)

-- Whatever was sampled: successes and failures make up the requests, the counts by status do so too, and
-- so do the requests of the targets, whose failures make up the failures.
pub summarize_samples_lem :
    (decimal : ℕ → Text) (samples : List RequestSample)
    → let summary = summarize_samples decimal samples in
      (summary.requests ≡ summary.successes + summary.failures)
      × (summary.requests ≡ total summary.status_summary)
      × (summary.requests ≡ all_requests summary.targets)
      × (summary.failures ≡ all_failures summary.targets)
unfolding summarize_samples
summarize_samples_lem decimal samples = (
  successes_and_failures samples,
  omega (arith, total-status_breakdown decimal samples []),
  omega (arith, requests-per_target samples []),
  omega (arith, failures-per_target samples []),
)
