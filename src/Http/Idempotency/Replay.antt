-- ===== src/Http/Idempotency/Replay.antt =====
-- A retry is answered from the cache, and the handler runs once.
use eval_ledger.Base.{
  ℕ, ◌+◌, ◌≤◌, ◌<◌, ◌≡◌, refl, true, false, Option, none, some, Text, codes, is_empty, lt→ltb,
}
use eval_ledger.Http.Message.{Request, Response, get_header}
use eval_ledger.Http.Idempotency.{
  CachedResponse, Codec, Cache, key_of, replay, cached_of, buffered, decoded, lookup, store, finish,
  with_key, idempotency,
}

-- JSON and base64 give back what they encode, and an encoding is not empty.
pub record RoundTrips (codec : Codec) : Type 0 where
  pub decode-encode : (c : CachedResponse) → codec.decode (codec.encode c) ≡ some c
  pub encode_nonempty : (c : CachedResponse) → is_empty (codec.encode c) ≡ false

-- A Redis server that is up: `value s key now` is what the key holds. SET NX writes where the key
-- holds nothing, and what it wrote stays until the time to live has passed.
pub record Stores {S : Type 0} (cache : Cache S) : Type 0 where
  pub value : S → Text → ℕ → Option Text
  pub get_up : (key : Text) (now : ℕ) (s : S) → cache.get key now s ≡ some (value s key now)
  pub set_up :
      (key v : Text) (ttl now later : ℕ) (s : S)
      → value s key now ≡ none
      → now ≤ later
      → later < now + ttl
      → (s' : S) × (cache.set_nx key v ttl now s ≡ some s') × (value s' key later ≡ some v)

module _ {S : Type 0} (codec : Codec) (trips : RoundTrips codec) (cache : Cache S)
    (up : Stores cache) (ttl : ℕ) where
  pub lookup_miss :
      (key : Text) (now : ℕ) (s : S)
      → up.value s key now ≡ none
      → lookup codec cache ttl key now s ≡ none
  unfolding lookup decoded
  lookup_miss key now s h = rw (up.get_up key now s, h)

  pub lookup_hit :
      (key : Text) (now : ℕ) (s : S) (c : CachedResponse)
      → up.value s key now ≡ some (codec.encode c)
      → lookup codec cache ttl key now s ≡ some (replay c)
  unfolding lookup decoded
  lookup_hit key now s c h =
      rw (up.get_up key now s, h, trips.encode_nonempty c, trips.decode-encode c)

  pub finish_stores :
      (key : Text) (response : Response) (now : ℕ) (s s' : S)
      → response.streaming ≡ true
      → response.status_code < 500
      → cache.set_nx key (codec.encode (cached_of response)) ttl now s ≡ some s'
      → finish codec cache ttl key response now s ≡ (buffered response, s')
  unfolding finish store
  finish_stores key response now s s' streams good e =
      rw (streams, lt→ltb response.status_code 500 good, e)

module _ {S W : Type 0} (codec : Codec) (trips : RoundTrips codec) (cache : Cache S)
    (up : Stores cache) (ttl : ℕ) (sha256_prefix : Text → Text) (trusted_proxy_count : ℕ)
    (call_next : W → Response × W) where
  abbrev pub handle : Request → ℕ → W → S → Response × W × S
  handle = idempotency codec cache ttl sha256_prefix trusted_proxy_count true call_next

  -- A POST with a key is retried within the time to live: the second answer has the status and the body
  -- of the first and says that it is a replay, and the handler, which ran for the first, did not run
  -- again. The first answer must be a streaming one (as the framework's are) and no server error.
  pub retry_replays :
      (request : Request) (key : Text) (now later : ℕ) (w : W) (s : S)
      → key_of sha256_prefix trusted_proxy_count true request ≡ some key
      → up.value s key now ≡ none
      → (call_next w).0.streaming ≡ true
      → (call_next w).0.status_code < 500
      → now ≤ later
      → later < now + ttl
      → let first = handle request now w s in
        let second = handle request later first.1 first.2 in
        (second.0.status_code ≡ first.0.status_code)
        × (second.0.body ≡ first.0.body)
        × (get_header "idempotency-replay" second.0.headers ≡ some (codes "true"))
        × (first.1 ≡ (call_next w).1)
        × (second.1 ≡ first.1)
        × (second.2 ≡ first.2)
  unfolding idempotency with_key replay cached_of buffered get_header
  retry_replays request key now later w s k absent streams good le lt =
      let (s', written, held) =
        up.set_up key (codec.encode (cached_of (call_next w).0)) ttl now later s absent le lt in
      rw
        (
          k,
          lookup_miss codec trips cache up ttl key now s absent,
          finish_stores codec trips cache up ttl key (call_next w).0 now s s' streams good written,
          lookup_hit codec trips cache up ttl key later s' (cached_of (call_next w).0) held,
        )
        (refl, refl, refl, refl, refl, refl)
