-- ===== src/Http/ClientIp.antt =====
-- `_client_ip` and `_content_length_exceeds` of backend/app/main.py.
use eval_ledger.Base.{
  ℕ, zero, suc, ◌-◌, ◌≤◌, ◌≡◌, refl, Bool, false, Option, none, some, List, [], ◌∷◌, arith,
  if◌then◌else◌, ltb, Text, codes, split, split_loop, stripped_items, strip, or_else, get_elem?,
  length, max,
}
use eval_ledger.Contamination.Shingles.{is_nil}
use eval_ledger.Http.Message.{Request, get_header}
use eval_ledger.RateLimit.Identity
use eval_ledger.RateLimit.Identity.{trusted_hop, forwarded_ip, direct_peer}

unfoldable pub pick_hop : ℕ → List Text → Option Text → Text
pick_hop trusted_proxy_count hops client_host =
    if is_nil hops
    then or_else client_host (codes "unknown")
    else or_else (get_elem? hops (length hops - max 1 trusted_proxy_count)) (codes "unknown")

unfoldable pub client_ip : ℕ → Request → Text
client_ip trusted_proxy_count request =
    let forwarded = or_else (get_header "x-forwarded-for" request.headers) [] in
    pick_hop trusted_proxy_count (stripped_items (split b',' forwarded)) request.client_host

-- `int(raw) > limit`; `parse_int` is none where `int` raises ValueError.
unfoldable pub content_length_exceeds : (Text → Option ℕ) → Request → ℕ → Bool
content_length_exceeds parse_int request limit =
    elim (get_header "content-length" request.headers) [
      | none ↦ false
      | some raw ↦ elim (parse_int raw) [ none ↦ false | some n ↦ ltb limit n ]
    ]

-- The request as the rate limiter reads it.
abbrev pub limiter_view : Request → Identity.Request
limiter_view request = record {
  authorization = get_header "authorization" request.headers;
  x_api_key = get_header "x-api-key" request.headers;
  x_forwarded_for = get_header "x-forwarded-for" request.headers;
  client_host = request.client_host;
}

-- In range, the default of a lookup does not matter.
get_elem?-default :
    (xs : List Text) (i : ℕ) (d e : Text)
    → i ≤ length xs - 1
    → is_nil xs ≡ false
    → or_else (get_elem? xs i) d ≡ or_else (get_elem? xs i) e
get_elem?-default [] i d e h k = cc
get_elem?-default (x ∷ xs) zero d e h k = refl
get_elem?-default (x ∷ []) (suc i) d e h k = absurd (omega arith)
get_elem?-default (x ∷ y ∷ ys) (suc i) d e h k = get_elem?-default (y ∷ ys) i d e (omega arith) refl

hop_agrees :
    (count : ℕ) (hops : List Text) (client_host : Option Text)
    → pick_hop count hops client_host
      ≡ or_else (trusted_hop count hops) (or_else client_host (codes "unknown"))
unfolding pick_hop trusted_hop
hop_agrees count [] host = refl
hop_agrees count (x ∷ xs) host =
    get_elem?-default (x ∷ xs) (length (x ∷ xs) - max 1 count) (codes "unknown")
      (or_else host (codes "unknown")) (omega arith) refl

header_agrees :
    (count : ℕ) (header : Option Text) (client_host : Option Text)
    → pick_hop count (stripped_items (split b',' (or_else header []))) client_host
      ≡ or_else (forwarded_ip count header) (or_else client_host (codes "unknown"))
unfolding forwarded_ip pick_hop split split_loop stripped_items strip
header_agrees count none host = refl
header_agrees count (some []) host = refl
header_agrees count (some (x ∷ header)) host =
    hop_agrees count (stripped_items (split b',' (x ∷ header))) host

-- The address that the middleware logs, and scopes idempotency keys by, is the one that the rate
-- limiter counts the caller under.
pub client_ip_agrees :
    (trusted_proxy_count : ℕ) (request : Request)
    → client_ip trusted_proxy_count request
      ≡ Identity.client_ip trusted_proxy_count (limiter_view request)
unfolding client_ip Identity.client_ip
client_ip_agrees count request =
    header_agrees count (get_header "x-forwarded-for" request.headers) request.client_host
