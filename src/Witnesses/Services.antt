-- ===== src/Witnesses/Services.antt =====
-- Stand-ins for the services that the program calls.
use eval_ledger.Base.{
  ℕ, ◌+◌, ◌≡◌, refl, ap, Bool, ◌&&◌, Option, none, some, [], ◌∷◌, ◌++◌, map, arith, if◌then◌else◌,
  ltb, leb, ◌==◌, length, take, drop, Text, text_eq, text_eq_self, is_some,
}
use eval_ledger.Security.{Claims, Jwt, DecodesSigned}
use eval_ledger.RateLimit.Limiter.{Redis}
use eval_ledger.RateLimit.Window.{Counters, Laws, expired}
use eval_ledger.Http.Idempotency.{CachedResponse, Codec, Cache}
use eval_ledger.Http.Idempotency.Replay.{RoundTrips, Stores}

take-length : (xs ys : Text) → take (length xs) (xs ++ ys) ≡ xs
take-length [] ys = refl
take-length (x ∷ xs) ys = ap (λ t. x ∷ t) (take-length xs ys)

drop-length : (xs ys : Text) → drop (length xs) (xs ++ ys) ≡ ys
drop-length [] ys = refl
drop-length (x ∷ xs) ys = drop-length xs ys

-- A token is its payload, with the lengths of its parts in front.
abbrev purpose_text : Option Text → Text
purpose_text none = 48 ∷ []
purpose_text (some p) = 49 ∷ p

abbrev read_purpose : Text → Option Text
read_purpose [] = none
read_purpose (flag ∷ p) = if flag == 49 then some p else none

abbrev sign : Claims → Text
sign c =
    65 ∷ length c.sub ∷ length c.iss ∷ c.iat ∷ c.exp ∷ c.sub ++ (c.iss ++ purpose_text c.purpose)

abbrev in_time : Text → Claims → ℕ → Option Claims
in_time issuer c now =
    if text_eq c.iss issuer && (leb c.iat now && ltb now c.exp) then some c else none

abbrev verify : Text → Text → ℕ → Option Claims
verify issuer (k ∷ m ∷ n ∷ iat ∷ exp ∷ rest) now =
    in_time issuer
      (record {
        sub = take m rest;
        iss = take n (drop m rest);
        iat = iat;
        exp = exp;
        purpose = read_purpose (drop n (drop m rest));
      })
      now
verify issuer _ now = none

abbrev pub jwt : Jwt
jwt = record { encode = sign; decode = verify }

read_purpose-text : (p : Option Text) → read_purpose (purpose_text p) ≡ p
read_purpose-text none = refl
read_purpose-text (some p) = refl

pub jwt-DecodesSigned : DecodesSigned jwt
jwt-DecodesSigned c now =
    rw
      (
        take-length c.sub (c.iss ++ purpose_text c.purpose),
        drop-length c.sub (c.iss ++ purpose_text c.purpose),
        take-length c.iss (purpose_text c.purpose),
        drop-length c.iss (purpose_text c.purpose),
        read_purpose-text c.purpose,
        text_eq_self c.iss,
      )
      refl

-- A server that keeps a counter and a deadline for each key.
abbrev pub CounterServer : Type 0
CounterServer = Text → ℕ × Option ℕ

abbrev put : Text → ℕ × Option ℕ → CounterServer → CounterServer
put key v s k = if text_eq k key then v else s k

abbrev live_count : Text → ℕ → CounterServer → ℕ
live_count key now s = if expired (s key).1 now then 0 else (s key).0

abbrev pub redis : Redis CounterServer
redis = record {
  incr = λ key now s.
      let n = live_count key now s in
      some (n + 1, put key (n + 1, if n == 0 then none else (s key).1) s);
  expire = λ key ttl now s. some (put key ((s key).0, some (now + ttl)) s);
}

abbrev pub counters : Counters redis
counters = record { stored = λ s key. (s key).0; deadline = λ s key. (s key).1 }

pub counters-Laws : Laws counters
counters-Laws = record {
  incr_up = λ key now s.
      let n = live_count key now s in
      (
        put key (n + 1, if n == 0 then none else (s key).1) s,
        refl,
        rw (text_eq_self key) refl,
        rw (text_eq_self key) refl,
      );
  expire_up = λ key ttl now s. (
    put key ((s key).0, some (now + ttl)) s,
    refl,
    rw (text_eq_self key) refl,
    rw (text_eq_self key) refl,
  );
}

-- A server that keeps what each key holds at each time.
abbrev pub TextServer : Type 0
TextServer = Text → ℕ → Option Text

abbrev held : Text → Text → ℕ → ℕ → TextServer → TextServer
held key v ttl now s k t =
    if text_eq k key && (leb now t && ltb t (now + ttl)) then some v else s k t

abbrev pub cache : Cache TextServer
cache = record {
  get = λ key now s. some (s key now);
  set_nx = λ key v ttl now s. some (if is_some (s key now) then s else held key v ttl now s);
}

abbrev pub cache_stores : Stores cache
cache_stores = record {
  value = λ s key now. s key now;
  get_up = λ key now s. refl;
  set_up = λ key v ttl now later s absent le lt.
      (held key v ttl now s, rw absent refl, ground (arith, text_eq_self key));
}

abbrev unpack : Text → Option CachedResponse
unpack (status ∷ n ∷ rest) =
    some (record { status_code = status; content_type = take n rest; body = drop n rest })
unpack _ = none

abbrev pub codec : Codec
codec = record {
  encode = λ c. c.status_code ∷ length c.content_type ∷ c.content_type ++ c.body;
  decode = unpack;
}

pub codec-RoundTrips : RoundTrips codec
codec-RoundTrips = record {
  decode-encode =
      λ c. rw (take-length c.content_type c.body, drop-length c.content_type c.body) refl;
  encode_nonempty = λ c. refl;
}

-- `str.lower` on ASCII.
abbrev pub lower : Text → Text
lower = map (λ c. if leb 65 c && leb c 90 then c + 32 else c)

abbrev pub is_word : ℕ → Bool
is_word c = leb 97 c && leb c 122
