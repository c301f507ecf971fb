-- ===== src/Scripts/LoadTest.antt =====
-- The load test: backend/app/scripts/loadtest.py, from its targets to its summary. Durations are whole
-- numbers of some unit, fractions of a percentile are in hundredths and exact; means, throughput and the
-- rounding of what is printed are left out.
pub mod Counts
use eval_ledger.Base.{
  ℕ, zero, suc, ◌+◌, ◌-◌, ◌*◌, ◌/◌, ◌%◌, Bool, true, false, not, ◌&&◌, ◌||◌, Option, none, some,
  List, [], ◌∷◌, ◌++◌, map, filter, String, Text, codes, min, text_eq, is_empty, if◌then◌else◌, ltb,
  leb, length, get_elem?, or_else, is_some, ◌==◌,
}

-- The header X-API-Key is the only one that is set.
pub record RequestTarget : Type 0 where
  pub name : Text
  pub url : Text
  pub x_api_key : Option Text

pub record RequestSample : Type 0 where
  pub target : Text
  pub status_code : Option ℕ
  pub duration : ℕ
  pub error : Option Text

pub data Scenario : Type 0 where
  browse account review mixed : Scenario

abbrev given : Option Text → Bool
given none = false
given (some t) = not (is_empty t)

unfoldable pub public_targets : Text → List RequestTarget
public_targets base_url =
    record { name = codes "health_live"; url = base_url ++ codes "/health/live"; x_api_key = none }
    ∷ record {
      name = codes "stats_overview";
      url = base_url ++ codes "/stats/overview";
      x_api_key = none;
    }
    ∷ record {
      name = codes "stats_recent";
      url = base_url ++ codes "/stats/recent?limit=12";
      x_api_key = none;
    }
    ∷ record {
      name = codes "search_mmlu";
      url = base_url ++ codes "/search?q=mmlu";
      x_api_key = none;
    }
    ∷ record {
      name = codes "benchmark_detail";
      url = base_url ++ codes "/benchmarks/mmlu";
      x_api_key = none;
    }
    ∷ record {
      name = codes "version_list";
      url = base_url ++ codes "/benchmarks/mmlu/versions";
      x_api_key = none;
    }
    ∷ record {
      name = codes "version_detail";
      url = base_url ++ codes "/benchmarks/mmlu/0.0.0";
      x_api_key = none;
    }
    ∷ []

unfoldable pub account_targets : Text → Option Text → List RequestTarget
account_targets base_url api_key =
    record { name = codes "auth_me"; url = base_url ++ codes "/auth/me"; x_api_key = api_key } ∷ []

unfoldable pub review_targets : Text → Option Text → List RequestTarget
review_targets base_url api_key =
    record {
      name = codes "admin_stats";
      url = base_url ++ codes "/admin/stats";
      x_api_key = api_key;
    }
    ∷ record {
      name = codes "admin_review_queue";
      url = base_url ++ codes "/admin/review-queue?status=pending&limit=20";
      x_api_key = api_key;
    }
    ∷ record {
      name = codes "admin_review_context";
      url = base_url ++ codes "/admin/benchmarks/mmlu/context";
      x_api_key = api_key;
    }
    ∷ []

-- The targets of a scenario; none is a ValueError.
unfoldable pub scenario_targets : Text → Option Text → Scenario → Option (List RequestTarget)
unfolding public_targets account_targets review_targets
scenario_targets base_url api_key browse = some (public_targets base_url)
scenario_targets base_url api_key account =
    if given api_key then some (account_targets base_url api_key) else none
scenario_targets base_url api_key review =
    if given api_key then some (review_targets base_url api_key) else none
scenario_targets base_url api_key mixed = some (
    public_targets base_url
    ++ (if given api_key
        then account_targets base_url api_key ++ review_targets base_url api_key
        else []))

-- Exactly one of a URL and a scenario is given. `base_url` is the API's URL without slashes at its end.
unfoldable pub build_targets :
    Text → Option Text → Option Scenario → Option Text → Option (List RequestTarget)
unfolding scenario_targets
build_targets base_url url none api_key = elim url [
  | none ↦ none
  | some u ↦
      if is_empty u
      then none
      else some (record { name = codes "custom"; url = u; x_api_key = none } ∷ [])
]
build_targets base_url url (some scenario) api_key =
    if given url then none else scenario_targets base_url api_key scenario

-- `islice(cycle(targets), requests)`; `rest` is what is left of the present round.
unfoldable pub cycle_loop : List RequestTarget → List RequestTarget → ℕ → List RequestTarget
cycle_loop targets rest zero = []
cycle_loop targets (t ∷ rest) (suc n) = t ∷ cycle_loop targets rest n
cycle_loop [] [] (suc n) = []
cycle_loop (t ∷ targets) [] (suc n) = t ∷ cycle_loop (t ∷ targets) targets n

-- None is a ValueError.
unfoldable pub build_schedule : List RequestTarget → ℕ → Option (List RequestTarget)
unfolding cycle_loop
build_schedule targets zero = none
build_schedule targets (suc n) = some (cycle_loop targets targets (suc n))

unfoldable pub insert_sorted : ℕ → List ℕ → List ℕ
insert_sorted n [] = n ∷ []
insert_sorted n (m ∷ ms) = let rest = insert_sorted n ms in if leb n m then n ∷ m ∷ ms else m ∷ rest

unfoldable pub sorted : List ℕ → List ℕ
unfolding insert_sorted
sorted [] = []
sorted (n ∷ ns) = insert_sorted n (sorted ns)

-- Python's `round` of n / 100: to the nearest number, and to the even one of two.
unfoldable pub round_hundredths : ℕ → ℕ
round_hundredths n =
    let q = n / 100 in
    let r = n % 100 in if ltb r 50 then q else if ltb 50 r then q + 1 else q + q % 2

-- The default is for an empty list only.
unfoldable pub percentile : List ℕ → ℕ → ℕ
unfolding sorted round_hundredths
percentile values hundredths =
    let ordered = sorted values in
    or_else
      (get_elem? ordered
        (min (length ordered - 1) (round_hundredths ((length ordered - 1) * hundredths))))
      0

unfoldable pub is_success : RequestSample → Bool
is_success sample =
    not (is_some sample.error) && (elim sample.status_code [ none ↦ false | some s ↦ ltb s 500 ])

-- A dict of counts.
abbrev pub Counts : Type 0
Counts = List (Text × ℕ)

-- `breakdown[key] = breakdown.get(key, 0) + 1`
unfoldable pub count_one : Text → Counts → Counts
count_one key [] = (key, 1) ∷ []
count_one key ((k, n) ∷ counts) =
    let rest = count_one key counts in if text_eq k key then (k, n + 1) ∷ counts else (k, n) ∷ rest

module _ (decimal : ℕ → Text) where
  unfoldable pub status_key : RequestSample → Text
  status_key sample = elim sample.error [
    | some e ↦ e
    | none ↦ elim sample.status_code [ none ↦ codes "None" | some s ↦ decimal s ]
  ]

  unfoldable pub status_breakdown : List RequestSample → Counts → Counts
  unfolding count_one status_key
  status_breakdown [] counts = counts
  status_breakdown (s ∷ samples) counts = status_breakdown samples (count_one (status_key s) counts)

-- `per_target.setdefault(sample.target, []).append(sample)`
unfoldable pub add_sample :
    RequestSample → List (Text × List RequestSample) → List (Text × List RequestSample)
add_sample s [] = (s.target, s ∷ []) ∷ []
add_sample s ((target, samples) ∷ groups) =
    let rest = add_sample s groups in
    if text_eq target s.target
    then (target, samples ++ s ∷ []) ∷ groups
    else (target, samples) ∷ rest

unfoldable pub per_target :
    List RequestSample → List (Text × List RequestSample) → List (Text × List RequestSample)
unfolding add_sample
per_target [] groups = groups
per_target (s ∷ samples) groups = per_target samples (add_sample s groups)

pub record TargetSummary : Type 0 where
  pub target : Text
  pub requests : ℕ
  pub p95_latency : ℕ
  pub failures : ℕ

unfoldable pub target_summary : Text × List RequestSample → TargetSummary
unfolding is_success percentile
target_summary (target, samples) = record {
  target = target;
  requests = length samples;
  p95_latency = percentile (map (λ s. s.duration) samples) 95;
  failures = length (filter (λ s. not (is_success s)) samples);
}

pub record LoadTestSummary : Type 0 where
  pub requests : ℕ
  pub successes : ℕ
  pub failures : ℕ
  pub p50_latency : ℕ
  pub p95_latency : ℕ
  pub p99_latency : ℕ
  pub status_summary : Counts
  pub targets : List TargetSummary

unfoldable pub summarize_samples : (ℕ → Text) → List RequestSample → LoadTestSummary
unfolding is_success percentile status_breakdown per_target target_summary
summarize_samples decimal samples =
    let latencies = map (λ s. s.duration) samples in
    record {
      requests = length samples;
      successes = length (filter is_success samples);
      failures = length (filter (λ s. not (is_success s)) samples);
      p50_latency = percentile latencies 50;
      p95_latency = percentile latencies 95;
      p99_latency = percentile latencies 99;
      status_summary = status_breakdown decimal samples [];
      targets = map target_summary (per_target samples []);
    }
