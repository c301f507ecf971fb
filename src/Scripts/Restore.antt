-- ===== src/Scripts/Restore.antt =====
-- The checks of an instance after a restore: backend/app/scripts/check_restore.py. `urlopen` is the
-- parameter `fetch`, by URL and API key; the text that a check prints beside its result is left out.
pub mod Passing
use eval_ledger.Base.{
  ℕ, zero, suc, Bool, true, false, not, ◌&&◌, ◌||◌, Option, none, some, List, [], ◌∷◌, ◌++◌, String,
  Text, codes, any, all, text_eq, is_empty, if◌then◌else◌, ◌==◌, or_else,
}
use eval_ledger.Contamination.JsonFile.{
  Value, null, bool, float, int, str, arr, obj, Values, nil, cons, Members, end, member, get,
}

pub record CheckResult : Type 0 where
  pub name : String
  pub passed : Bool

-- How a request ends: a response, an HTTPError with its body, or an OSError with its text.
pub data Response : Type 0 where
  response : ℕ → Text → Response
  http_error : ℕ → Text → Response
  os_error : Text → Response

-- What `_get` returns: the status and the parsed body.
pub record Reply : Type 0 where
  pub status : ℕ
  pub body : Value

-- `loads` is none where `json.loads` raises.
unfoldable pub parsed_or : Option Value → Value → Value
parsed_or none other = other
parsed_or (some v) other = v

unfoldable pub get_reply : (Text → Option Value) → Response → Reply
unfolding parsed_or
get_reply loads (response status raw) = record {
  status = status;
  body = parsed_or (loads raw) (str raw);
}
get_reply loads (http_error code raw) = record { status = code; body = parsed_or (loads raw) null }
get_reply loads (os_error text) = record { status = 0; body = str text }

-- Python's truth of a value; `float` stands for numbers other than zero.
unfoldable pub is_true : Value → Bool
is_true null = false
is_true (bool b) = b
is_true float = true
is_true (int n) = not (n == 0)
is_true (str s) = not (is_empty s)
is_true (arr nil) = false
is_true (arr (cons v values)) = true
is_true (obj end) = false
is_true (obj (member k v members)) = true

abbrev pub is_dict : Value → Bool
is_dict (obj members) = true
is_dict _ = false

abbrev pub is_list : Value → Bool
is_list (arr values) = true
is_list _ = false

-- The status is 200 and the body is of the kind that the check expects.
unfoldable pub answers : (Value → Bool) → Reply → Bool
answers kind reply = (reply.status == 200) && kind reply.body

unfoldable pub is_ok_status : Option Value → Bool
is_ok_status (some (str s)) = text_eq s (codes "ok")
is_ok_status _ = false

-- `isinstance(body, dict) and body.get("status") == "ok"`
unfoldable pub is_alive : Value → Bool
unfolding get is_ok_status
is_alive (obj fields) = is_ok_status (get (codes "status") fields)
is_alive _ = false

unfoldable pub all_true : Members → Bool
unfolding is_true
all_true end = true
all_true (member k v members) = is_true v && all_true members

-- `none` is the AttributeError of a `checks` that is not an object.
unfoldable pub checks_hold : Option Value → Option Bool
unfolding all_true
checks_hold none = some true
checks_hold (some (obj checks)) = some (all_true checks)
checks_hold (some _) = none

unfoldable pub is_ready : Value → Option Bool
unfolding get checks_hold
is_ready (obj fields) = checks_hold (get (codes "checks") fields)
is_ready _ = some false

unfoldable pub has_items : Value → Bool
has_items (arr (cons v values)) = true
has_items _ = false

-- `len(items)` is a TypeError of a number or null.
unfoldable pub has_length : Option Value → Bool
has_length none = true
has_length (some (str s)) = true
has_length (some (arr values)) = true
has_length (some (obj members)) = true
has_length (some _) = false

unfoldable pub search_items : Value → Option Bool
unfolding get has_length
search_items (obj fields) = if has_length (get (codes "items") fields) then some true else none
search_items _ = some false

-- The BibTeX entry under `citations`, which may be absent or null; none is an exception.
unfoldable pub nested_bibtex : Value → Option Value
unfolding get
nested_bibtex (obj members) = some (or_else (get (codes "bibtex") members) null)
nested_bibtex _ = none

unfoldable pub bibtex_of : Option Value → Option Value
unfolding is_true nested_bibtex
bibtex_of none = some null
bibtex_of (some v) = if is_true v then nested_bibtex v else some null

-- A citation that is true must be a text: `citation[:60].replace`.
unfoldable pub is_citation : Value → Option Bool
unfolding is_true
is_citation (str s) = some (not (is_empty s))
is_citation v = if is_true v then none else some false

unfoldable pub citation_of : Members → Option Value
unfolding bibtex_of get is_true
citation_of fields =
    let direct = or_else (get (codes "citation_string") fields) null in
    if is_true direct then some direct else bibtex_of (get (codes "citations") fields)

unfoldable pub has_citation : Value → Option Bool
unfolding citation_of is_citation
has_citation (obj fields) = elim (citation_of fields) [ none ↦ none | some v ↦ is_citation v ]
has_citation _ = some false

-- A result, if the look at the body of a 200 does not raise.
unfoldable pub result_if : String → Reply → (Value → Option Bool) → Option CheckResult
result_if name reply look =
    if reply.status == 200
    then elim (look reply.body) [ none ↦ none | some b ↦ some (record { name = name; passed = b }) ]
    else some (record { name = name; passed = false })

abbrev pub total : (Value → Bool) → Value → Option Bool
total look v = some (look v)

-- A page of the API that a check asks for, with the look that it takes at the body.
pub record Check : Type 0 where
  pub name : String
  pub path : Text
  pub api_key : Option Text
  pub look : Value → Option Bool

module _ (slug version : Text) where
  unfoldable pub public_checks : List Check
  unfolding is_alive is_ready search_items has_items has_citation
  public_checks =
      record {
        name = "liveness probe";
        path = codes "/health/live";
        api_key = none;
        look = total is_alive;
      }
      ∷ record { name = "readiness probe"; path = codes "/health"; api_key = none; look = is_ready }
      ∷ record {
        name = "stats overview";
        path = codes "/stats/overview";
        api_key = none;
        look = total is_dict;
      }
      ∷ record {
        name = "recent submissions";
        path = codes "/stats/recent?limit=5";
        api_key = none;
        look = total is_list;
      }
      ∷ record {
        name = "search";
        path = codes "/search?q=mmlu";
        api_key = none;
        look = search_items;
      }
      ∷ record {
        name = "seeded benchmark";
        path = codes "/benchmarks/" ++ slug;
        api_key = none;
        look = total is_dict;
      }
      ∷ record {
        name = "versions";
        path = codes "/benchmarks/" ++ slug ++ codes "/versions";
        api_key = none;
        look = total has_items;
      }
      ∷ record {
        name = "citation block";
        path = codes "/benchmarks/" ++ slug ++ codes "/" ++ version;
        api_key = none;
        look = has_citation;
      }
      ∷ record {
        name = "audit activity";
        path = codes "/benchmarks/" ++ slug ++ codes "/activity";
        api_key = none;
        look = total is_list;
      }
      ∷ []

  abbrev pub admin_check : Text → Check
  admin_check api_key = record {
    name = "admin review queue";
    path = codes "/admin/review-queue";
    api_key = some api_key;
    look = total is_list;
  }

  -- The admin check is run if a key is given.
  unfoldable pub checks_for : Option Text → List Check
  unfolding public_checks
  checks_for none = public_checks
  checks_for (some api_key) =
      if is_empty api_key then public_checks else public_checks ++ admin_check api_key ∷ []

unfoldable pub cons_result :
    Option CheckResult → Option (List CheckResult) → Option (List CheckResult)
cons_result none rest = none
cons_result (some r) none = none
cons_result (some r) (some rs) = some (r ∷ rs)

unfoldable pub exit_code : Option (List CheckResult) → ℕ
exit_code none = 2
exit_code (some results) = if any (λ r. not r.passed) results then 1 else 0

module _ (loads : Text → Option Value) (fetch : Text → Option Text → Response)
    (base_url : Text) where
  unfoldable pub run_check : Check → Option CheckResult
  unfolding result_if get_reply
  run_check check =
      result_if check.name (get_reply loads (fetch (base_url ++ check.path) check.api_key))
        check.look

  -- The first exception ends the run.
  unfoldable pub run_all : List Check → Option (List CheckResult)
  unfolding run_check cons_result
  run_all [] = some []
  run_all (c ∷ cs) = cons_result (run_check c) (run_all cs)

  unfoldable pub run_checks : Text → Text → Option Text → Option (List CheckResult)
  unfolding run_all checks_for
  run_checks slug version api_key = run_all (checks_for slug version api_key)

  -- The exit code.
  unfoldable pub main : Text → Text → Option Text → ℕ
  unfolding run_checks exit_code
  main slug version api_key = exit_code (run_checks slug version api_key)
