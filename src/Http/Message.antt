-- ===== src/Http/Message.antt =====
-- Requests and responses, as far as the middlewares of backend/app/main.py read them. Header names are
-- in lower case; a repeated header is not modelled.
use eval_ledger.Base.{
  ℕ, ◌≡◌, Bool, false, Option, none, some, List, [], ◌∷◌, if◌then◌else◌, String, str_eq, str_eq_iff,
  arith, Text, not, is_empty, refl,
}

abbrev pub Headers : Type 0
Headers = List (String × Text)

-- `headers.get(name)`
unfoldable pub get_header : String → Headers → Option Text
get_header name [] = none
get_header name ((n, v) ∷ headers) = if str_eq n name then some v else get_header name headers

-- `headers[name] = value`
unfoldable pub set_header : String → Text → Headers → Headers
set_header name value [] = (name, value) ∷ []
set_header name value ((n, v) ∷ headers) =
    if str_eq n name then (name, value) ∷ headers else (n, v) ∷ set_header name value headers

-- `headers.setdefault(name, value)`
unfoldable pub set_default : String → Text → Headers → Headers
unfolding get_header set_header
set_default name value headers = elim (get_header name headers) [
  | none ↦ set_header name value headers
  | some v ↦ headers
]

-- A header that is there and not empty, as Python's `if headers.get(name)` asks.
abbrev pub truthy : Option Text → Bool
truthy none = false
truthy (some v) = not (is_empty v)

pub record Request : Type 0 where
  pub method : String
  pub path : Text
  pub headers : Headers
  pub client_host : Option Text

-- `streaming` says that the response has a `body_iterator`.
pub record Response : Type 0 where
  pub status_code : ℕ
  pub media_type : Option Text
  pub headers : Headers
  pub body : Text
  pub streaming : Bool

-- Reading a header after a write.
pub get_header-set_header :
    (k j : String) (v : Text) (h : Headers)
    → get_header j (set_header k v h) ≡ (if str_eq k j then some v else get_header j h)
unfolding get_header set_header
get_header-set_header k j v [] = refl
get_header-set_header k j v ((n, w) ∷ h) =
    ground (arith, str_eq_iff n k, str_eq_iff k j, str_eq_iff n j, get_header-set_header k j v h)

pub get_header-set_default :
    (k j : String) (v : Text) (h : Headers)
    → get_header j (set_default k v h) ≡ (
        if str_eq k j
        then (elim (get_header k h) [ none ↦ some v | some w ↦ some w ])
        else get_header j h)
unfolding set_default
get_header-set_default k j v h = ground (arith, get_header-set_header k j v h, str_eq_iff k j)
