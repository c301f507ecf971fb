-- ===== src/Registry/Citations.antt =====
-- Citations: `VersioningService` of backend/app/services/versioning.py and `build_provenance_summary` of
-- backend/app/services/provenance.py. `Calendar` formats a timestamp as its year and as its ISO date.
-- Text in f-strings is the list of its pieces.
pub mod Braces
pub mod Quotes
use eval_ledger.Base.{
  ℕ, Bool, true, false, not, ◌&&◌, ◌||◌, Option, none, some, List, [], ◌∷◌, ◌++◌, map, Text, codes,
  String, filter, if◌then◌else◌, ◌==◌, or_else, join, is_empty,
}
use eval_ledger.Errors
use eval_ledger.Errors.{AppError, app_error}
use eval_ledger.Contamination.Classify.{Status}
use eval_ledger.Registry.Db.{Benchmark, BenchmarkVersion}
use eval_ledger.Registry.Versions.{invalid_version}

pub record Calendar : Type 0 where
  pub year_of : ℕ → Text
  pub iso_date : ℕ → Text

pub record Citations : Type 0 where
  pub bibtex : Text
  pub apa : Text
  pub mla : Text
  pub cff : Text
  pub evalledger_id : Text

unfoldable pub concat : List Text → Text
concat [] = []
concat (t ∷ ts) = t ++ concat ts

-- `s.replace(old, "")` for one character.
unfoldable pub remove : ℕ → Text → Text
remove old = filter (λ c. not (c == old))

-- `s.replace(old, new)` for single characters.
unfoldable pub replace : ℕ → ℕ → Text → Text
replace old new = map (λ c. if c == old then new else c)

-- `is_semver` is false where `semver.Version.parse` raises.
unfoldable pub validate_semver : (String → Bool) → String → Errors.Result String
validate_semver is_semver value =
    if is_semver value then Errors.ok value else Errors.err invalid_version

unfoldable pub canonical_id : Text → Text → Text
canonical_id slug version = codes "el:" ++ slug ++ codes ":" ++ version

unfoldable pub registry_url : Text → Text → Text
registry_url slug version = codes "https://evalledger.dev/registry/" ++ slug ++ codes "/" ++ version

-- A version that has no release date is dated by its creation.
unfoldable pub effective_timestamp : BenchmarkVersion → ℕ
effective_timestamp version = or_else version.released_at version.created_at

abbrev pub newline : Text
newline = 10 ∷ []

unfoldable pub bibtex_title : String → Text
unfolding remove
bibtex_title name = remove b'}' (remove b'{' (codes name))

unfoldable pub sha_value : Option String → Text
sha_value none = codes "unavailable"
sha_value (some sha) = if is_empty (codes sha) then codes "unavailable" else codes sha

unfoldable pub bibtex_key : Text → Text → Text
unfolding replace
bibtex_key slug version = slug ++ codes "_v" ++ replace b'.' b'_' version

-- `  name = {value}`
unfoldable pub bibtex_field : Text → Text → Text
unfolding concat
bibtex_field name value = concat (codes "  " ∷ name ∷ codes " = {" ∷ value ∷ codes "}" ∷ [])

-- The key and the fields, which commas separate.
unfoldable pub bibtex_parts : Calendar → Benchmark → BenchmarkVersion → List Text
unfolding bibtex_title sha_value bibtex_key bibtex_field
bibtex_parts calendar benchmark version =
    let slug = codes benchmark.slug in
    let v = codes version.version in
    bibtex_key slug v
    ∷ bibtex_field (codes "title   ") (bibtex_title benchmark.name)
    ∷ bibtex_field (codes "version ") v
    ∷ bibtex_field (codes "registry") (codes "EvalLedger")
    ∷ bibtex_field (codes "id      ") (canonical_id slug v)
    ∷ bibtex_field (codes "sha256  ") (sha_value version.artifact_sha256)
    ∷ bibtex_field (codes "year    ") (calendar.year_of (effective_timestamp version))
    ∷ bibtex_field (codes "url     ") (registry_url slug v)
    ∷ []

unfoldable pub bibtex : Calendar → Benchmark → BenchmarkVersion → Text
unfolding join bibtex_parts
bibtex calendar benchmark version =
    codes "@dataset{"
    ++ join (codes "," ++ newline) (bibtex_parts calendar benchmark version)
    ++ newline
    ++ codes "}"

unfoldable pub apa : Calendar → Benchmark → BenchmarkVersion → Text
unfolding concat
apa calendar benchmark version =
    let slug = codes benchmark.slug in
    let v = codes version.version in
    concat (
      codes benchmark.name
      ∷ codes ". ("
      ∷ calendar.year_of (effective_timestamp version)
      ∷ codes "). EvalLedger registry entry "
      ∷ canonical_id slug v
      ∷ codes " (Version "
      ∷ v
      ∷ codes "). "
      ∷ registry_url slug v
      ∷ [])

abbrev pub quote : Text
quote = b'"' ∷ []

unfoldable pub mla : Calendar → Benchmark → BenchmarkVersion → Text
unfolding concat
mla calendar benchmark version =
    let slug = codes benchmark.slug in
    let v = codes version.version in
    concat (
      quote
      ∷ codes benchmark.name
      ∷ codes "."
      ∷ quote
      ∷ codes " EvalLedger, version "
      ∷ v
      ∷ codes ", "
      ∷ calendar.year_of (effective_timestamp version)
      ∷ codes ", "
      ∷ registry_url slug v
      ∷ codes ". Registry ID "
      ∷ canonical_id slug v
      ∷ codes "."
      ∷ [])

-- `name: "value"`
unfoldable pub quoted_line : Text → Text → Text
unfolding concat
quoted_line name value = concat (name ∷ codes ": " ∷ quote ∷ value ∷ quote ∷ [])

-- The description, with its double quotes made single ones.
unfoldable pub cff_abstract : Option String → Text
unfolding replace
cff_abstract description = replace 34 39 (codes (or_else description ""))

unfoldable pub cff_identifiers : Text → Text → Text
unfolding quoted_line concat
cff_identifiers slug v = concat (
    codes "identifiers:"
    ∷ newline
    ∷ quoted_line (codes "  - type") (codes "other")
    ∷ newline
    ∷ quoted_line (codes "    value") (canonical_id slug v)
    ∷ [])

unfoldable pub cff_lines : Calendar → Benchmark → BenchmarkVersion → List Text
unfolding quoted_line cff_abstract cff_identifiers
cff_lines calendar benchmark version =
    let slug = codes benchmark.slug in
    let v = codes version.version in
    codes "cff-version: 1.2.0"
    ∷ quoted_line (codes "message")
        (codes "If you use this benchmark, please cite it using the metadata below.")
    ∷ quoted_line (codes "title") (codes benchmark.name)
    ∷ quoted_line (codes "version") v
    ∷ quoted_line (codes "type") (codes "dataset")
    ∷ quoted_line (codes "publisher") (codes "EvalLedger")
    ∷ quoted_line (codes "abstract") (cff_abstract benchmark.description)
    ∷ quoted_line (codes "date-released") (calendar.iso_date (effective_timestamp version))
    ∷ cff_identifiers slug v
    ∷ quoted_line (codes "url") (registry_url slug v)
    ∷ []

unfoldable pub cff : Calendar → Benchmark → BenchmarkVersion → Text
unfolding cff_lines join
cff calendar benchmark version = join newline (cff_lines calendar benchmark version)

unfoldable pub citation_formats : Calendar → Benchmark → BenchmarkVersion → Citations
unfolding bibtex apa mla cff
citation_formats calendar benchmark version = record {
  bibtex = bibtex calendar benchmark version;
  apa = apa calendar benchmark version;
  mla = mla calendar benchmark version;
  cff = cff calendar benchmark version;
  evalledger_id = canonical_id (codes benchmark.slug) (codes version.version);
}

-- `render` is the string with the given code points.
unfoldable pub apply_citation_string :
    (Text → String) → Calendar → Benchmark → BenchmarkVersion → BenchmarkVersion
unfolding citation_formats
apply_citation_string render calendar benchmark version = record version {
  citation_string = some (render (citation_formats calendar benchmark version).bibtex);
}

pub record ProvenanceSummary : Type 0 where
  pub benchmark_name : String
  pub benchmark_slug : String
  pub version : String
  pub artifact_sha256 : Option String
  pub artifact_size_bytes : Option ℕ
  pub contamination_status : Status
  pub canonical_id : Text

unfoldable pub build_provenance_summary : Benchmark → BenchmarkVersion → Text → ProvenanceSummary
build_provenance_summary benchmark version id = record {
  benchmark_name = benchmark.name;
  benchmark_slug = benchmark.slug;
  version = version.version;
  artifact_sha256 = version.artifact_sha256;
  artifact_size_bytes = version.artifact_size_bytes;
  contamination_status = version.contamination_status;
  canonical_id = id;
}
