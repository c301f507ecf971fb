-- ===== src/Http/Idempotency.antt =====
-- Idempotency-Key replay: the middleware `idempotency` of backend/app/main.py and
-- backend/app/idempotency.py. The middleware waits twice, for the cache and for the handler, so it is
-- two functions, `lookup` and `finish`, between which other requests run.
pub mod Replay
pub mod Race
use mathlib.Core.Option
use eval_ledger.Base.{
  ℕ, ◌≡◌, refl, Bool, true, false, not, ◌&&◌, ◌||◌, Option, none, some, List, [], ◌∷◌, ◌++◌, arith,
  if◌then◌else◌, Text, codes, is_empty, str_eq, ltb, or_else,
}
use eval_ledger.Http.Message.{Headers, Request, Response, get_header, set_header, truthy}
use eval_ledger.Http.ClientIp.{client_ip}

-- `encode_cached_response` stores these; JSON and base64 are the parameter `Codec`.
pub record CachedResponse : Type 0 where
  pub status_code : ℕ
  pub content_type : Text
  pub body : Text

-- `decode` is none where it raises ValueError.
pub record Codec : Type 0 where
  pub encode : CachedResponse → Text
  pub decode : Text → Option CachedResponse

-- `GET` and `SET … EX ttl NX` on a Redis server with state S; the outer none is an exception.
pub record Cache (S : Type 0) : Type 0 where
  pub get : Text → ℕ → S → Option (Option Text)
  pub set_nx : Text → Text → ℕ → ℕ → S → Option S

-- `sha256_prefix` is the first 32 hexadecimal digits of a SHA-256 digest.
unfoldable pub build_idempotency_key : (Text → Text) → Text → Text → Text → Text
build_idempotency_key sha256_prefix credential path idempotency_key =
    codes "idem:" ++ sha256_prefix (credential ++ codes "|" ++ path) ++ codes ":" ++ idempotency_key

abbrev first_truthy : Option Text → Text → Text
first_truthy none d = d
first_truthy (some v) d = if is_empty v then d else v

-- `authorization or x-api-key or the client's address`
unfoldable pub credential_of : ℕ → Request → Text
credential_of trusted_proxy_count request =
    first_truthy (get_header "authorization" request.headers) (
      first_truthy (get_header "x-api-key" request.headers) (client_ip trusted_proxy_count request))

-- The key to look up, or none where the middleware does nothing.
unfoldable pub key_of : (Text → Text) → ℕ → Bool → Request → Option Text
key_of sha256_prefix trusted_proxy_count has_redis request =
    let idem_key = get_header "idempotency-key" request.headers in
    if not (str_eq request.method "POST") || not (truthy idem_key) || not has_redis
    then none
    else some (
        build_idempotency_key sha256_prefix (credential_of trusted_proxy_count request) request.path
          (or_else idem_key []))

unfoldable pub replay : CachedResponse → Response
replay cached = record {
  status_code = cached.status_code;
  media_type = some cached.content_type;
  headers = ("content-type", cached.content_type) ∷ ("idempotency-replay", codes "true") ∷ [];
  body = cached.body;
  streaming = false;
}

-- What the handler's response is stored as.
unfoldable pub cached_of : Response → CachedResponse
cached_of response = record {
  status_code = response.status_code;
  content_type =
      first_truthy response.media_type
        (or_else (get_header "content-type" response.headers) (codes "application/json"));
  body = response.body;
}

abbrev without_length : Headers → Headers
without_length [] = []
without_length ((n, v) ∷ h) =
    let rest = without_length h in if str_eq n "content-length" then rest else (n, v) ∷ rest

unfoldable pub buffered : Response → Response
buffered response = record {
  status_code = response.status_code;
  media_type = response.media_type;
  headers = without_length response.headers;
  body = response.body;
  streaming = false;
}

module _ {S : Type 0} (codec : Codec) (cache : Cache S) (ttl : ℕ) where
  unfoldable pub decoded : Option (Option Text) → Option CachedResponse
  decoded none = none
  decoded (some none) = none
  decoded (some (some raw)) = if is_empty raw then none else codec.decode raw

  -- The first half: a response to replay, if there is one. An error of Redis and an entry that does
  -- not decode count as a miss.
  unfoldable pub lookup : Text → ℕ → S → Option Response
  lookup redis_key now s = Option.map replay (decoded (cache.get redis_key now s))

  -- A failed write is ignored.
  unfoldable pub store : Text → Response → ℕ → S → S
  unfolding cached_of
  store redis_key response now s =
      or_else (cache.set_nx redis_key (codec.encode (cached_of response)) ttl now s) s

  -- The second half, on the handler's response.
  unfoldable pub finish : Text → Response → ℕ → S → Response × S
  unfolding store buffered
  finish redis_key response now s =
      if response.streaming
      then (
        buffered response,
        (if ltb response.status_code 500 then store redis_key response now s else s),
      )
      else (response, s)

module _ {S W : Type 0} (codec : Codec) (cache : Cache S) (ttl : ℕ) where
  -- The handler runs on the world W, which it may change.
  unfoldable pub run_handler : (W → Response × W) → Text → ℕ → W → S → Response × W × S
  run_handler call_next redis_key now w s =
      let (response, w') = call_next w in
      let (answer, s') = finish codec cache ttl redis_key response now s in (answer, w', s')

  unfoldable pub answer_or_run :
      (W → Response × W) → Text → ℕ → W → S → Option Response → Response × W × S
  unfolding run_handler
  answer_or_run call_next redis_key now w s (some answer) = (answer, w, s)
  answer_or_run call_next redis_key now w s none = run_handler call_next redis_key now w s

  unfoldable pub with_key : (W → Response × W) → Option Text → ℕ → W → S → Response × W × S
  unfolding answer_or_run
  with_key call_next none now w s = let (response, w') = call_next w in (response, w', s)
  with_key call_next (some redis_key) now w s =
      answer_or_run call_next redis_key now w s (lookup codec cache ttl redis_key now s)

  -- One request, with no other one in between. The cache is read and written at the time `now`.
  unfoldable pub idempotency :
      (Text → Text) → ℕ → Bool → (W → Response × W) → Request → ℕ → W → S → Response × W × S
  unfolding with_key
  idempotency sha256_prefix trusted_proxy_count has_redis call_next request now w s =
      with_key call_next (key_of sha256_prefix trusted_proxy_count has_redis request) now w s
