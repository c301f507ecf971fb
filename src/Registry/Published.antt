-- ===== src/Registry/Published.antt =====
-- What backend/app/routers/versions.py shows of the versions of a benchmark: lists, downloads, reports,
-- citations, details and the audit trail. `lower` is `str.lower`; the order of rows of one time is the
-- table's.
pub mod Listing
use eval_ledger.Base.{
  ℕ, Bool, true, false, not, ◌&&◌, ◌||◌, Option, none, some, List, [], ◌∷◌, ◌++◌, map, filter,
  String, Text, codes, text_eq, is_empty, if◌then◌else◌, leb, select, take, ◌==◌,
}
use mathlib.Core.List.{reverse}
use eval_ledger.Errors.{AppError, app_error}
use eval_ledger.Errors
use eval_ledger.Contamination.Classify.{Status}
use eval_ledger.Contamination.Reports.{Report, Corpus}
use eval_ledger.Registry.Db.{
  Db, Benchmark, BenchmarkVersion, VersionMetadata, AuditEvent, has_slug, is_version_of,
  of_benchmark,
}
use eval_ledger.Registry.Session.{World, Action, pure, raise, require, lift, query, ◌>>=◌, ◌>>◌}
use eval_ledger.Registry.Benchmarks.{benchmark_not_found}
use eval_ledger.Registry.Citations.{Calendar, Citations, citation_formats}
use eval_ledger.Storage
use eval_ledger.Storage.{Backend, local, s3, generate_download_url}

abbrev pub version_not_found : AppError
version_not_found = app_error "version_not_found" 404

abbrev pub artifact_missing : AppError
artifact_missing = app_error "artifact_missing" 404

abbrev pub invalid_format : AppError
invalid_format = app_error "invalid_format" 400

-- `_fetch_benchmark`
unfoldable pub fetch_benchmark : String → Action Benchmark
fetch_benchmark slug = do
  benchmark ← query (λ db. select (has_slug slug) db.benchmarks)
  require benchmark benchmark_not_found

unfoldable pub fetch_version : String → String → AppError → Action (Benchmark × BenchmarkVersion)
unfolding fetch_benchmark
fetch_version slug version error = do
  benchmark ← fetch_benchmark slug
  found ← query (λ db. select (is_version_of benchmark.id version) db.versions)
  record_ ← require found error
  pure (benchmark, record_)

-- ORDER BY created_at DESC, by insertion.
unfoldable pub insert_newest : BenchmarkVersion → List BenchmarkVersion → List BenchmarkVersion
insert_newest v [] = v ∷ []
insert_newest v (u ∷ us) =
    let rest = insert_newest v us in if leb u.created_at v.created_at then v ∷ u ∷ us else u ∷ rest

unfoldable pub newest_first : List BenchmarkVersion → List BenchmarkVersion
unfolding insert_newest
newest_first [] = []
newest_first (v ∷ vs) = insert_newest v (newest_first vs)

unfoldable pub list_versions : String → Action (List BenchmarkVersion)
unfolding fetch_benchmark newest_first
list_versions slug = do
  benchmark ← fetch_benchmark slug
  query (λ db. newest_first (filter (of_benchmark benchmark.id) db.versions))

-- A file with the name to save it under, or a redirect.
pub data Download : Type 0 where
  file : Text → Text → Download
  redirect : Text → Download

unfoldable pub download_from : Backend → Text → Text → Download
download_from local filename url = file url filename
download_from s3 filename url = redirect url

unfoldable pub download_version : Storage.Settings → String → String → Action Download
unfolding fetch_version download_from
download_version settings slug version = do
  (benchmark, record_) ← fetch_version slug version artifact_missing
  artifact_url ← require record_.artifact_url artifact_missing
  download_url ← lift (generate_download_url settings (codes artifact_url))
  pure (
      download_from settings.storage_backend
        (codes benchmark.slug ++ codes "-" ++ codes version ++ codes ".bin") download_url)

-- The reports of a version, each with the corpus of its id: an inner join.
unfoldable pub corpora_of : List Corpus → Report → List (Report × String)
corpora_of [] report = []
corpora_of (c ∷ corpora) report =
    let rest = corpora_of corpora report in
    if c.id == report.corpus_id then (report, c.name) ∷ rest else rest

unfoldable pub joined : ℕ → List Report → List Corpus → List (Report × String)
unfolding corpora_of
joined version_id [] corpora = []
joined version_id (r ∷ reports) corpora =
    let rest = joined version_id reports corpora in
    if r.version_id == version_id then corpora_of corpora r ++ rest else rest

unfoldable pub get_contamination_reports :
    List Report → List Corpus → String → String → Action (List (Report × String))
unfolding fetch_version joined
get_contamination_reports reports corpora slug version = do
  (benchmark, record_) ← fetch_version slug version version_not_found
  pure (joined record_.id reports corpora)

-- All citations, or the one that was asked for.
pub data CitationAnswer : Type 0 where
  all_formats : Citations → CitationAnswer
  plain_text : Text → CitationAnswer

unfoldable pub normalized : (Text → Text) → Text → Text
normalized lower format =
    if text_eq (lower format) (codes "citation.cff") || text_eq (lower format) (codes "cff")
    then codes "cff"
    else lower format

-- `citations[normalized]`
unfoldable pub citation_named : Citations → Text → Option Text
citation_named citations name =
    if text_eq name (codes "bibtex")
    then some citations.bibtex
    else if text_eq name (codes "apa")
    then some citations.apa
    else if text_eq name (codes "mla")
    then some citations.mla
    else if text_eq name (codes "cff")
    then some citations.cff
    else if text_eq name (codes "evalledger_id")
    then some citations.evalledger_id
    else none

unfoldable pub answer_format :
    (Text → Text) → Citations → Option Text → Errors.Result CitationAnswer
unfolding normalized citation_named
answer_format lower citations none = Errors.ok (all_formats citations)
answer_format lower citations (some format) =
    if is_empty format
    then Errors.ok (all_formats citations)
    else elim (citation_named citations (normalized lower format)) [
      | none ↦ Errors.err invalid_format
      | some text ↦ Errors.ok (plain_text text)
    ]

unfoldable pub get_citation :
    (Text → Text) → Calendar → String → String → Option Text → Action CitationAnswer
unfolding fetch_version answer_format
get_citation lower calendar slug version format = do
  (benchmark, record_) ← fetch_version slug version version_not_found
  lift (answer_format lower (citation_formats calendar benchmark record_) format)

pub record VersionDetail : Type 0 where
  pub id : ℕ
  pub benchmark_id : ℕ
  pub version : String
  pub artifact_sha256 : Option String
  pub artifact_url : Option String
  pub artifact_size_bytes : Option ℕ
  pub details : VersionMetadata
  pub contamination_status : Status
  pub released_at : Option ℕ
  pub created_at : ℕ
  pub submitter_id : Option ℕ
  pub citations : Citations

-- `_build_version_detail`; the submitter is shown by its id.
unfoldable pub build_version_detail : Calendar → Benchmark → BenchmarkVersion → VersionDetail
build_version_detail calendar benchmark version = record {
  id = version.id;
  benchmark_id = benchmark.id;
  version = version.version;
  artifact_sha256 = version.artifact_sha256;
  artifact_url = version.artifact_url;
  artifact_size_bytes = version.artifact_size_bytes;
  details = version.details;
  contamination_status = version.contamination_status;
  released_at = version.released_at;
  created_at = version.created_at;
  submitter_id = version.submitter_id;
  citations = citation_formats calendar benchmark version;
}

unfoldable pub get_version_detail : Calendar → String → String → Action VersionDetail
unfolding fetch_version build_version_detail
get_version_detail calendar slug version = do
  (benchmark, record_) ← fetch_version slug version version_not_found
  pure (build_version_detail calendar benchmark record_)

abbrev pub names_version : Option ℕ → ℕ → Bool
names_version none version_id = false
names_version (some i) version_id = i == version_id

-- The newest events that name the version, at most `limit`.
unfoldable pub get_version_activity : String → String → ℕ → Action (List AuditEvent)
unfolding fetch_version
get_version_activity slug version limit = do
  (benchmark, record_) ← fetch_version slug version version_not_found
  query (λ db.
      take limit (reverse (filter (λ e. names_version e.version_id record_.id) db.audit_events)))
