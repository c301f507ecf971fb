-- ===== src/RateLimit/Spoofing.antt =====
-- What a caller can do to its identity by the headers that it sends.
use native.Mathlib.Nat.{zero-add}
use mathlib.Core.List.{reverse}
use eval_ledger.Base.{
  ℕ, zero, suc, ◌+◌, ◌-◌, ◌≤◌, ◌<◌, ◌≡◌, refl, ap, true, false, Option, none, some, List, [], ◌∷◌,
  ◌++◌, arith, Text, codes, is_empty, strip, split, split_loop, stripped_items, starts_with, length,
  get_elem?, max, length-append, ◌==◌, ==_self, Bool-cases, inl, inr,
}
use eval_ledger.Errors.{ok}
use eval_ledger.Security.{
  Jwt, Claims, DecodesSigned, decode_access_token, make_state_token, state_claims,
}
use eval_ledger.RateLimit.Identity.{
  Request, bearer_token, bearer_of, valid_bearer_token, accepted, trusted_hop, client_ip,
  get_client_id, is_authenticated,
}

split_loop-append :
    (c : ℕ) (piece a b : Text)
    → split_loop c piece (a ++ c ∷ b) ≡ split_loop c piece a ++ split_loop c [] b
unfolding split_loop
split_loop-append c piece [] b = rw (==_self c)
split_loop-append c piece (x ∷ a) b = elim (Bool-cases (x == c)) [
  | inl e ↦ rw e (ap (◌∷◌ (reverse piece)) (split_loop-append c [] a b))
  | inr e ↦ rw e (split_loop-append c (x ∷ piece) a b)
]

stripped-append :
    (xs ys : List Text) → stripped_items (xs ++ ys) ≡ stripped_items xs ++ stripped_items ys
unfolding stripped_items
stripped-append [] ys = refl
stripped-append (x ∷ xs) ys = ground (arith, stripped-append xs ys)

-- The hops of a header that was appended to.
hops-append :
    (a b : Text)
    → stripped_items (split b',' (a ++ b',' ∷ b))
      ≡ stripped_items (split b',' a) ++ stripped_items (split b',' b)
unfolding split
hops-append a b =
    rw (split_loop-append b',' [] a b)
      (stripped-append (split_loop b',' [] a) (split_loop b',' [] b))

get_elem?-append :
    (xs ys : List Text) (i j : ℕ) → j ≡ length xs + i → get_elem? (xs ++ ys) j ≡ get_elem? ys i
get_elem?-append [] ys i j h = rw h (index_eq (zero-add i))
  where
    index_eq : 0 + i ≡ i → get_elem? ys (0 + i) ≡ get_elem? ys i
    index_eq e = ap (get_elem? ys) e
get_elem?-append (x ∷ xs) ys i zero h = absurd (omega arith)
get_elem?-append (x ∷ xs) ys i (suc j) h = get_elem?-append xs ys i j (omega arith)

trusted_hop-append :
    (count : ℕ) (forged trusted : List Text)
    → max 1 count ≤ length trusted
    → trusted_hop count (forged ++ trusted) ≡ trusted_hop count trusted
unfolding trusted_hop
trusted_hop-append count forged trusted h =
    get_elem?-append forged trusted (length trusted - max 1 count)
      (length (forged ++ trusted) - max 1 count) (omega (arith, length-append forged trusted))

append_comma-is_empty : (a b : Text) → is_empty (a ++ b',' ∷ b) ≡ false
append_comma-is_empty [] b = refl
append_comma-is_empty (x ∷ a) b = refl

-- A header with a hop is not empty.
trusted_full :
    (count : ℕ) (t : Text)
    → max 1 count ≤ length (stripped_items (split b',' t))
    → is_empty t ≡ false
unfolding split split_loop stripped_items strip
trusted_full count [] h = absurd (omega arith)
trusted_full count (x ∷ t) h = refl

-- A client that sends its own X-Forwarded-For does not choose its address: if the trusted proxies
-- appended as many hops as are configured, whatever stands before them is ignored.
pub client_ip_unspoofable :
    (count : ℕ) (request : Request) (forged trusted : Text)
    → max 1 count ≤ length (stripped_items (split b',' trusted))
    → client_ip count (record request { x_forwarded_for = some (forged ++ b',' ∷ trusted) })
      ≡ client_ip count (record request { x_forwarded_for = some trusted })
unfolding client_ip
client_ip_unspoofable count request forged trusted h = rw (
  append_comma-is_empty forged trusted,
  trusted_full count trusted h,
  hops-append forged trusted,
  trusted_hop-append count (stripped_items (split b',' forged))
      (stripped_items (split b',' trusted)) h,
)

decode_state_token :
    (jwt : Jwt) (minutes issued now : ℕ)
    → DecodesSigned jwt
    → issued ≤ now
    → now < issued + 300
    → decode_access_token jwt (make_state_token jwt minutes issued) now ≡ ok (state_claims issued)
unfolding decode_access_token make_state_token
decode_state_token jwt minutes issued now sound old fresh =
    ground (arith, sound (state_claims issued) now)

token_valid :
    (lower : Text → Text) (jwt : Jwt) (token : Text) (payload : Claims) (now : ℕ)
    (request : Request)
    → decode_access_token jwt token now ≡ ok payload
    → starts_with (codes "bearer ") (lower (codes "Bearer " ++ token)) ≡ true
    → strip token ≡ token
    → is_empty token ≡ false
    → valid_bearer_token lower jwt now
        (record request { authorization = some (codes "Bearer " ++ token) })
      ≡ some token
unfolding valid_bearer_token bearer_token bearer_of accepted
token_valid lower jwt token payload now request decodes low trim full =
    rw (low, trim, full, accepted) (ground (arith, decodes))

module _ (lower sha256_prefix : Text → Text) (jwt : Jwt) (trusted_proxy_count : ℕ) where
  -- A caller whose bearer token does not verify, or who has none, is anonymous, and is counted by its
  -- address, whatever API key it sends: a made-up credential buys neither a tier nor a bucket.
  pub forged_token_is_anonymous :
      (now : ℕ) (request : Request) (api_key : Option Text)
      → valid_bearer_token lower jwt now request ≡ none
      → let forged = record request { x_api_key = api_key } in
        (is_authenticated lower jwt now forged ≡ false)
        × (get_client_id lower sha256_prefix jwt trusted_proxy_count now forged
            ≡ codes "ip:" ++ client_ip trusted_proxy_count request)
  unfolding is_authenticated get_client_id valid_bearer_token bearer_token client_ip
  forged_token_is_anonymous now request api_key h = (rw h, rw h)

  -- Any visitor gets the authenticated tier and a bucket of its own for five minutes, by sending the
  -- OAuth state token, which the redirect of the OAuth start routes shows it, as a bearer token.
  pub state_token-is_authenticated :
      (jwt_expiration_minutes issued now : ℕ) (request : Request)
      → DecodesSigned jwt
      → let token = make_state_token jwt jwt_expiration_minutes issued in
        starts_with (codes "bearer ") (lower (codes "Bearer " ++ token)) ≡ true
        → strip token ≡ token
        → is_empty token ≡ false
        → issued ≤ now
        → now < issued + 300
        → let visit = record request { authorization = some (codes "Bearer " ++ token) } in
          (is_authenticated lower jwt now visit ≡ true)
          × (get_client_id lower sha256_prefix jwt trusted_proxy_count now visit
              ≡ codes "tok:" ++ sha256_prefix token)
  unfolding is_authenticated get_client_id
  state_token-is_authenticated minutes issued now request sound low trim full old fresh =
      let token = make_state_token jwt minutes issued in
      let decodes = decode_state_token jwt minutes issued now sound old fresh in
      let valid =
        token_valid lower jwt token (state_claims issued) now request decodes low trim full in
      (rw valid, rw (get_client_id, valid))
