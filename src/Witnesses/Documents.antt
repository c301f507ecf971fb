-- ===== src/Witnesses/Documents.antt =====
-- Citations, uploads, a request and an ad hoc check.
use eval_ledger.Base.{
  ℕ, ◌+◌, ◌≡◌, refl, true, false, Option, none, some, List, [], ◌∷◌, ◌++◌, Text, codes, length,
  filter, ◌==◌, ◌&&◌,
}
use eval_ledger.Contamination.Classify.{clean}
use eval_ledger.Contamination.AdHoc
use eval_ledger.Contamination.AdHoc.{CheckForm, Services, run_check}
use eval_ledger.Contamination.AdHoc.Queued.{Ended, run_check_lem}
use eval_ledger.Http.Message.{Request}
use eval_ledger.Http.Context
use eval_ledger.Http.Context.{Handled, Monitor, path_label, request_context, request_id_of}
use eval_ledger.Http.ClientIp.{client_ip}
use eval_ledger.Http.Context.Traced.{Answered, request_context_lem}
use eval_ledger.Registry.Db.{BenchmarkVersion, of_benchmark}
use eval_ledger.Registry.Session.{World, returns}
use eval_ledger.Registry.Published.{list_versions}
use eval_ledger.Registry.Published.Listing.{Descending, list_versions_lem}
use eval_ledger.Registry.Citations.{Calendar, citation_formats, sha_value}
use eval_ledger.Registry.Citations.Braces.{open_braces, bibtex_balanced}
use eval_ledger.Registry.Citations.Quotes.{quotes, cff_quotes}
use eval_ledger.Storage
use eval_ledger.Storage.{
  local, s3, Hash, Store, storage_reference, upload_upload_file, upload_bytes, read_bytes, delete,
  content_of,
}
use eval_ledger.Storage.Streaming.{Incremental, upload_upload_file-bytes}
use eval_ledger.Storage.RoundTrip.{upload-read-delete}
use eval_ledger.Witnesses.Services.{lower}
use eval_ledger.Witnesses.Rows.{suite, db, world}
use mathlib.Core.List.{append-nil, append_assoc}

abbrev calendar : Calendar
calendar = record { year_of = λ t. codes "2026"; iso_date = λ t. codes "2026-01-01" }

abbrev release : BenchmarkVersion
release = record {
  id = 8;
  benchmark_id = 5;
  version = "1.0.0";
  artifact_sha256 = some "ab12";
  artifact_url = none;
  artifact_size_bytes = none;
  details = record {
    num_examples = none;
    splits = none;
    language = none;
    license = none;
    paper_url = none;
    paper_arxiv_id = none;
    github_url = none;
    metadata_json = none;
    release_notes = none;
  };
  citation_string = none;
  released_at = some 100;
  created_at = 90;
  submitter_id = none;
  contamination_status = clean;
}

bibtex_balanced_example :
    open_braces
      (citation_formats calendar (record suite { name = "A {braced} suite" }) release).bibtex
      0
    ≡ some 0
unfolding sha_value
bibtex_balanced_example =
    bibtex_balanced calendar (record suite { name = "A {braced} suite" }) release refl refl refl
      refl

cff_quotes_example :
    quotes (citation_formats calendar (record suite { name = "A \"quoted\" suite" }) release).cff
    ≡ 20 + quotes (codes "A \"quoted\" suite")
cff_quotes_example =
    cff_quotes calendar (record suite { name = "A \"quoted\" suite" }) release refl refl refl

-- A hash that is the text itself.
abbrev hash : Hash Text
hash = record { start = []; update = λ h t. h ++ t; hexdigest = λ h. h }

hash-Incremental : Incremental hash
hash-Incremental = record {
  update_nil = λ h. append-nil h;
  update_append = λ h s t. append_assoc h s t;
}

abbrev bucket : Storage.Settings
bucket = record {
  storage_backend = s3;
  storage_root = codes "/data";
  storage_s3_endpoint_url = none;
  storage_s3_presign_endpoint = none;
  presign = λ key. some key;
}

upload_upload_file-bytes_example :
    upload_upload_file bucket hash (codes "dir") (codes "u1") (codes "a.json") (codes "[1]") []
    ≡ some (upload_bytes bucket hash (codes "dir") (codes "u1") (codes "a.json") (codes "[1]") [])
upload_upload_file-bytes_example =
    upload_upload_file-bytes hash hash-Incremental bucket (codes "dir") (codes "u1")
      (codes "a.json") (codes "[1]") []

upload-read-delete_example :
    let (stored, store') =
      upload_bytes bucket hash (codes "dir") (codes "u1") (codes "a.json") (codes "[1]") [] in
    let reference = storage_reference s3 stored in
    (read_bytes bucket reference store' ≡ some (codes "[1]"))
    × (read_bytes bucket (codes "x") (delete bucket reference store')
        ≡ read_bytes bucket (codes "x") [])
unfolding content_of
upload-read-delete_example =
    upload-read-delete bucket hash (codes "dir") (codes "u1") (codes "a.json") (codes "[1]") []
      (codes "x") refl

abbrev settings : Context.Settings
settings = record {
  max_request_body_bytes = 100;
  trusted_proxy_count = 1;
  max_age = codes "60";
  parse_int = λ t. none;
  etag_of = λ body. body;
  error_body = λ code id limit. id;
}

abbrev get : Request
get = record {
  method = "GET";
  path = codes "/stats";
  headers = ("x-request-id", codes "r1") ∷ [];
  client_host = some (codes "10.0.0.1");
}

abbrev crash : ℕ → Handled × ℕ
crash n = (record { route = some (codes "/stats"); response = none }, n + 1)

abbrev silent : Monitor
silent = record { metrics = []; log = [] }

request_context_lem_example :
    let (answer, _, monitor') = request_context settings get (codes "u") crash 0 silent in
    (status : ℕ) × (route : Option Text) × (monitor'.metrics
      ≡ record { method = "GET"; path = path_label route; status = status } ∷ [])
    × (monitor'.log
        ≡ record {
          request_id = request_id_of get (codes "u");
          method = "GET";
          path = codes "/stats";
          status_code = status;
          client_ip = client_ip 1 get;
        }
          ∷ [])
    × Answered (request_id_of get (codes "u")) status answer
request_context_lem_example = request_context_lem settings get (codes "u") crash 0 silent

abbrev check_env : AdHoc.Env
check_env = record {
  worker_enabled = true;
  limits = record {
    allowed_artifact_extensions = codes ".json" ∷ [];
    max_authenticated_upload_bytes = 1000;
    max_public_upload_bytes = 100;
  };
  storage = bucket;
  lower = lower;
  document = record {
    dumps = λ v. [];
    loads = λ t. none;
    show = λ v. [];
    parse = λ t. none;
    truncate = none;
  };
  show_id = λ i. i ∷ [];
  precedes = λ a b. true;
}

abbrev check_form : CheckForm
check_form = record {
  artifact_name = some (codes "set.json");
  artifact = codes "[1]";
  corpus_ids = none;
}

abbrev idle : Services
idle = record { store = []; queue = [] }

run_check_lem_example :
    let (answer, services') =
      run_check check_env hash check_form false (codes "u2") (some (codes "j1")) [] idle in
    Ended check_env hash check_form false answer idle services'
run_check_lem_example =
    run_check_lem check_env hash check_form false (codes "u2") (some (codes "j1")) [] idle

abbrev released : World
released = record world {
  working = record db { versions = release ∷ record release { id = 9; created_at = 95 } ∷ [] };
}

list_versions_lem_example :
    (vs : List BenchmarkVersion) × (list_versions "suite" released ≡ (returns vs, released))
    × Descending vs
    × (length (filter (λ v. v.id == 9) vs)
        ≡ length (filter (λ v. of_benchmark 5 v && v.id == 9) released.working.versions))
list_versions_lem_example = list_versions_lem (λ v. v.id == 9) "suite" released suite refl
