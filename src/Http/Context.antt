-- ===== src/Http/Context.antt =====
-- The outermost middleware, `request_context` of backend/app/main.py, with `_record_metrics`, the line
-- it logs and the filter of backend/app/logging.py, around `idempotency`; and the health route.
-- Durations are not modelled. Metrics and log are the lists of what was recorded.
pub mod Traced
use eval_ledger.Base.{
  ℕ, Bool, true, false, not, ◌&&◌, ◌||◌, Option, none, some, List, [], ◌∷◌, ◌++◌, Text, String,
  codes, is_empty, text_eq, if◌then◌else◌, or_else, filter,
}
use eval_ledger.Http.Message.{Headers, Request, Response, get_header, set_header}
use eval_ledger.Http.ClientIp.{client_ip, content_length_exceeds}
use eval_ledger.Http.Caching.{apply_http_caching}
use eval_ledger.Http.Idempotency.{Codec, Cache, idempotency}

-- One increment of REQUESTS_TOTAL.
pub record Observation : Type 0 where
  pub method : String
  pub path : Text
  pub status : ℕ

-- One "request.completed" line.
pub record Line : Type 0 where
  pub request_id : Text
  pub method : String
  pub path : Text
  pub status_code : ℕ
  pub client_ip : Text

pub record Monitor : Type 0 where
  pub metrics : List Observation
  pub log : List Line

-- What the rest of the application does with a request: the template of the route that matched, and a
-- response or (none) an exception.
pub record Handled : Type 0 where
  pub route : Option Text
  pub response : Option Response

-- `error_body` renders the error envelope of a code, with the request's id and the limit.
pub record Settings : Type 0 where
  pub max_request_body_bytes : ℕ
  pub trusted_proxy_count : ℕ
  pub max_age : Text
  pub parse_int : Text → Option ℕ
  pub etag_of : Text → Text
  pub error_body : String → Text → ℕ → Text

-- `getattr(route, "path", None) or "unmatched"`
unfoldable pub path_label : Option Text → Text
path_label none = codes "unmatched"
path_label (some path) = if is_empty path then codes "unmatched" else path

-- `_record_metrics`
unfoldable pub record_metrics : Request → Option Text → ℕ → List Observation → List Observation
unfolding path_label
record_metrics request route status_code metrics =
    metrics
    ++ record { method = request.method; path = path_label route; status = status_code } ∷ []

-- `request.headers.get("x-request-id") or uuid4().hex`
unfoldable pub id_or : Option Text → Text → Text
id_or none uuid = uuid
id_or (some given) uuid = if is_empty given then uuid else given

unfoldable pub request_id_of : Request → Text → Text
unfolding id_or
request_id_of request uuid = id_or (get_header "x-request-id" request.headers) uuid

module _ (settings : Settings) where
  unfoldable pub payload_too_large : Text → Response
  payload_too_large request_id = record {
    status_code = 413;
    media_type = some (codes "application/json");
    headers = ("content-type", codes "application/json") ∷ [];
    body = settings.error_body "payload_too_large" request_id settings.max_request_body_bytes;
    streaming = false;
  }

  unfoldable pub completed : Request → Text → Option Text → ℕ → Monitor → Monitor
  unfolding record_metrics
  completed request request_id route status_code monitor = record {
    metrics = record_metrics request route status_code monitor.metrics;
    log =
        monitor.log
        ++ record {
          request_id = request_id;
          method = request.method;
          path = request.path;
          status_code = status_code;
          client_ip = client_ip settings.trusted_proxy_count request;
        }
          ∷ [];
  }

  unfoldable pub finalise : Request → Text → Response → Response
  finalise request request_id response =
      let cached = apply_http_caching settings.etag_of settings.max_age request response in
      record cached { headers = set_header "x-request-id" request_id cached.headers }

  -- An exception is recorded as a 500 and raised again.
  unfoldable pub conclude : Request → Text → Handled → Monitor → Option Response × Monitor
  unfolding completed finalise
  conclude request request_id handled monitor = elim handled.response [
    | none ↦ (none, completed request request_id handled.route 500 monitor)
    | some response ↦ (
      some (finalise request request_id response),
      completed request request_id handled.route response.status_code monitor,
    )
  ]

  -- A request that is too large matches no route.
  unfoldable pub handle_or_reject :
      {W : Type 0} → Request → Text → (W → Handled × W) → W → Handled × W
  unfolding payload_too_large
  handle_or_reject request request_id call_next w =
      if content_length_exceeds settings.parse_int request settings.max_request_body_bytes
      then (record { route = none; response = some (payload_too_large request_id) }, w)
      else call_next w

  unfoldable pub request_context :
      {W : Type 0}
      → Request
      → Text
      → (W → Handled × W)
      → W
      → Monitor
      → Option Response × W × Monitor
  unfolding handle_or_reject conclude
  request_context request uuid call_next w monitor =
      let request_id = request_id_of request uuid in
      let (handled, w') = handle_or_reject request request_id call_next w in
      let (answer, monitor') = conclude request request_id handled monitor in (answer, w', monitor')

  -- The two middlewares as they are nested: `idempotency` inside.
  unfoldable pub serve :
      {S W : Type 0}
      → Codec
      → Cache S
      → ℕ
      → (Text → Text)
      → Bool
      → (W → Response × W)
      → Option Text
      → Request
      → Text
      → ℕ
      → W × S
      → Monitor
      → Option Response × (W × S) × Monitor
  unfolding request_context
  serve codec cache ttl sha256_prefix has_redis handler route request uuid now state monitor =
      request_context request uuid
        (λ (w, s).
          let (response, w', s') =
            idempotency codec cache ttl sha256_prefix settings.trusted_proxy_count has_redis handler
              request now w s in
          (record { route = route; response = some response }, (w', s')))
        state monitor

-- `_HealthProbeFilter.filter`
unfoldable pub passes_filter : Line → Bool
passes_filter line = not (text_eq line.path (codes "/health/live"))

-- The lines that reach the log stream.
unfoldable pub emitted : Bool → List Line → List Line
unfolding passes_filter
emitted true lines = lines
emitted false lines = filter passes_filter lines

-- The three checks of `health`, and its answer.
pub record Checks : Type 0 where
  pub database : Bool
  pub redis : Bool
  pub storage : Bool

-- A check that raises has failed.
unfoldable pub ready : Option Bool → Bool
ready none = false
ready (some b) = b

unfoldable pub health : Option Bool → Option Bool → Option Bool → ℕ × Checks
unfolding ready
health database redis storage =
    let checks : Checks = record {
      database = ready database;
      redis = ready redis;
      storage = ready storage;
    } in
    ((if checks.database && checks.redis && checks.storage then 200 else 503), checks)
