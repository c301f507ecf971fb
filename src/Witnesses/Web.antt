-- ===== src/Witnesses/Web.antt =====
-- Requests, tokens and uploads.
use eval_ledger.Base.{
  or_else, ◌==◌, ℕ, ◌+◌, ◌≤◌, ◌≡◌, refl, true, false, not, ◌&&◌, none, some, List, [], ◌∷◌, ◌++◌,
  arith, min, if◌then◌else◌, Text, codes, All, filter, length, leb, ltb, max, split, strip,
  stripped_items, starts_with, is_empty, str_eq, suffix_of, path_name,
}
use eval_ledger.Witnesses.Services.{
  lower, jwt, jwt-DecodesSigned, CounterServer, redis, counters, counters-Laws, TextServer, cache,
  cache_stores, codec, codec-RoundTrips,
}
use eval_ledger.Errors
use eval_ledger.Security.{
  make_state_token, create_access_token, verify_state_token, decode_access_token,
  invalid_oauth_state, verify_state_token_lem,
}
use eval_ledger.RateLimit.Identity
use eval_ledger.RateLimit.Identity.{client_ip, is_authenticated, get_client_id, valid_bearer_token}
use eval_ledger.RateLimit.Limiter.{Clock}
use eval_ledger.RateLimit.Window.{serve, verdicts, is_allowed, Orderly, window_admits_limit}
use eval_ledger.RateLimit.Spoofing.{client_ip_unspoofable, state_token-is_authenticated}
use eval_ledger.Http.Message.{Request, Response, get_header}
use eval_ledger.Http.Caching.{
  apply_http_caching, has_credentials, is_exempt, is_cacheable_json, matches,
}
use eval_ledger.Http.Caching.Policy.{credentialed_is_private, not_modified_iff}
use eval_ledger.Http.Idempotency.{key_of, credential_of, build_idempotency_key}
use eval_ledger.Http.Idempotency.Replay.{handle, retry_replays}
use eval_ledger.Http.Idempotency.Race.{
  Flight, arrives, completes, repeat, run, concurrent_retries_all_run,
}
use eval_ledger.Uploads.{
  Limits, UploadDescriptor, validate_upload_file, validate_upload_name, is_unsafe_name,
  is_allowed_suffix,
}

verify_state_token_lem_example :
    (verify_state_token jwt (make_state_token jwt 60 1000) 1200 ≡ (
      if leb 1000 1200 && ltb 1200 (1000 + 300)
      then Errors.ok tt
      else Errors.err invalid_oauth_state))
    × (verify_state_token jwt (create_access_token jwt 60 (codes "7") none none 1000) 1200
        ≡ Errors.err invalid_oauth_state)
verify_state_token_lem_example =
    verify_state_token_lem jwt jwt-DecodesSigned 60 1000 1200 (codes "7")

abbrev visit : Identity.Request
visit = record {
  authorization = none;
  x_api_key = none;
  x_forwarded_for = none;
  client_host = some (codes "10.0.0.1");
}

one_hop : max 1 1 ≤ length (stripped_items (split b',' (codes "1.2.3.4")))
unfolding split stripped_items
one_hop = omega arith

client_ip_unspoofable_example :
    client_ip 1
      (record visit { x_forwarded_for = some (codes "6.6.6.6" ++ b',' ∷ codes "1.2.3.4") })
    ≡ client_ip 1 (record visit { x_forwarded_for = some (codes "1.2.3.4") })
client_ip_unspoofable_example =
    client_ip_unspoofable 1 visit (codes "6.6.6.6") (codes "1.2.3.4") one_hop

abbrev forged_visit : Identity.Request
forged_visit = record visit { authorization = some (codes "Bearer abc") }

forged_refused : valid_bearer_token lower jwt 1200 forged_visit ≡ none
unfolding valid_bearer_token decode_access_token
forged_refused = refl

abbrev state_token : Text
state_token = make_state_token jwt 60 1000

token_is_bearer : starts_with (codes "bearer ") (lower (codes "Bearer " ++ state_token)) ≡ true
unfolding starts_with make_state_token
token_is_bearer = refl

token_is_stripped : strip state_token ≡ state_token
unfolding strip make_state_token
token_is_stripped = refl

token_is_full : is_empty state_token ≡ false
unfolding make_state_token
token_is_full = refl

state_token-is_authenticated_example :
    let attack = record visit { authorization = some (codes "Bearer " ++ state_token) } in
    (is_authenticated lower jwt 1200 attack ≡ true)
    × (get_client_id lower lower jwt 1 1200 attack ≡ codes "tok:" ++ lower state_token)
state_token-is_authenticated_example =
    state_token-is_authenticated lower lower jwt 1 60 1000 1200 visit jwt-DecodesSigned
      token_is_bearer token_is_stripped token_is_full (omega arith) (omega arith)

abbrev decimal : ℕ → Text
decimal n = n ∷ []

abbrev calls : List (Clock × (CounterServer → CounterServer))
calls =
    (record { at_slot = 5; at_expire = 5; at_reset = 6 }, λ s. s)
    ∷ (record { at_slot = 7; at_expire = 8; at_reset = 8 }, λ s. s)
    ∷ []

abbrev fresh_server : CounterServer
fresh_server key = (0, none)

calls-Orderly :
    All
      (Orderly redis counters counters-Laws decimal (codes "r") (codes "ip") 1 60 0 (omega arith))
      calls
calls-Orderly =
    (((refl, omega arith), λ s. (refl, refl)), (((refl, omega arith), λ s. (refl, refl)), tt))

window_admits_limit_example :
    (serve redis counters counters-Laws decimal
        (codes "r")
        (codes "ip")
        1
        60
        0
        (omega arith)
        calls
        fresh_server
      ≡ verdicts redis counters counters-Laws decimal
          (codes "r")
          (codes "ip")
          1
          60
          0
          (omega arith)
          0
          calls)
    × (length (
          filter
            (is_allowed redis counters counters-Laws decimal
              (codes "r")
              (codes "ip")
              1
              60
              0
              (omega arith))
            (serve redis counters counters-Laws decimal
              (codes "r")
              (codes "ip")
              1
              60
              0
              (omega arith)
              calls
              fresh_server))
        ≡ min 1 2)
window_admits_limit_example =
    window_admits_limit redis counters counters-Laws decimal (codes "r") (codes "ip") 1 60 0
      (omega arith) calls fresh_server calls-Orderly (λ now in_slot. refl)

abbrev post : Request
post = record {
  method = "POST";
  path = codes "/api/v1/reports";
  headers = ("authorization", codes "Bearer abc") ∷ ("idempotency-key", codes "k1") ∷ [];
  client_host = none;
}

abbrev post_key : Text
post_key = build_idempotency_key lower (codes "Bearer abc") (codes "/api/v1/reports") (codes "k1")

-- A handler that counts its runs.
abbrev counting : ℕ → Response × ℕ
counting runs = (
  record {
    status_code = 201;
    media_type = none;
    headers = ("content-type", codes "application/json") ∷ [];
    body = codes "{}";
    streaming = true;
  },
  runs + 1,
)

abbrev empty_server : TextServer
empty_server key now = none

post_has_key : key_of lower 1 true post ≡ some post_key
unfolding key_of get_header credential_of
post_has_key = refl

retry_replays_example :
    let first =
      handle codec codec-RoundTrips cache cache_stores 60 lower 1 counting post 10 0 empty_server in
    let second =
      handle codec codec-RoundTrips cache cache_stores 60 lower 1 counting post 20 first.1
        first.2 in
    (second.0.status_code ≡ first.0.status_code)
    × (second.0.body ≡ first.0.body)
    × (get_header "idempotency-replay" second.0.headers ≡ some (codes "true"))
    × (first.1 ≡ (counting 0).1)
    × (second.1 ≡ first.1)
    × (second.2 ≡ first.2)
retry_replays_example =
    retry_replays codec codec-RoundTrips cache cache_stores 60 lower 1 counting post post_key 10 20
      0 empty_server post_has_key refl refl (omega arith) (omega arith) (omega arith)

abbrev idle : Flight TextServer ℕ
idle = record { world = 0; server = empty_server; waiting = 0; runs = 0 }

concurrent_retries_all_run_example :
    (run codec codec-RoundTrips cache cache_stores 60 10 post_key counting
      (repeat 2 arrives ++ repeat 2 completes)
      idle).runs
    ≡ 0 + 2
concurrent_retries_all_run_example =
    concurrent_retries_all_run codec codec-RoundTrips cache cache_stores 60 10 post_key counting 2
      idle refl refl

abbrev get : Request
get = record post { method = "GET" }

abbrev answer : Response
answer = record (counting 0).0 { status_code = 200 }

get_has_credentials : has_credentials get ≡ true
unfolding has_credentials get_header
get_has_credentials = refl

credentialed_is_private_example :
    let r = apply_http_caching lower (codes "60") get answer in
    (r.status_code ≡ answer.status_code)
    × (r.body ≡ answer.body)
    × (get_header "etag" r.headers ≡ get_header "etag" answer.headers)
    × (get_header "cache-control" r.headers ≡ (
        if str_eq get.method "GET" && answer.status_code == 200 && not (is_exempt get)
        then some (or_else (get_header "cache-control" answer.headers) (codes "private, no-store"))
        else get_header "cache-control" answer.headers))
credentialed_is_private_example =
    credentialed_is_private lower (codes "60") get answer get_has_credentials

abbrev revalidation : Request
revalidation = record get { headers = ("if-none-match", codes "{}") ∷ [] }

not_modified_iff_example :
    let r = apply_http_caching lower (codes "60") revalidation answer in
    let revalidated =
      str_eq "GET" "GET"
      && not (is_exempt revalidation)
      && not (has_credentials revalidation)
      && is_cacheable_json answer
      && matches (get_header "if-none-match" revalidation.headers) (lower answer.body) in
    (r.status_code ≡ (if revalidated then 304 else 200))
    × (r.body ≡ (if revalidated then [] else answer.body))
not_modified_iff_example = not_modified_iff lower (codes "60") revalidation answer refl

abbrev limits : Limits
limits = record {
  allowed_artifact_extensions = codes ".jsonl" ∷ [];
  max_authenticated_upload_bytes = 1000;
  max_public_upload_bytes = 100;
}

abbrev accepted_upload : UploadDescriptor
accepted_upload = record { filename = codes "set.JSONL"; suffix = codes ".jsonl"; size_bytes = 500 }

upload_ok :
    validate_upload_file lower limits (some (codes "a/set.JSONL")) 500 true
    ≡ Errors.ok accepted_upload
unfolding validate_upload_file validate_upload_name is_unsafe_name strip path_name is_allowed_suffix
    suffix_of
upload_ok = refl
