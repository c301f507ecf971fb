-- ===== src/Http/Caching.antt =====
-- `_apply_http_caching` of backend/app/main.py. `etag_of` is `'W/"' + sha256(body)[:32] + '"'`.
pub mod Policy
use eval_ledger.Base.{
  ℕ, ◌≡◌, refl, Bool, true, false, not, ◌&&◌, ◌||◌, Option, none, some, List, [], ◌∷◌, ◌++◌, arith,
  if◌then◌else◌, Text, codes, text_eq, starts_with, str_eq, ◌==◌, any, or_else,
}
use eval_ledger.Http.Message.{
  Headers, Request, Response, get_header, set_header, set_default, truthy,
}

abbrev pub cache_exempt_prefixes : List Text
cache_exempt_prefixes =
    codes "/health" ∷ codes "/metrics" ∷ codes "/docs" ∷ codes "/redoc" ∷ codes "/openapi.json" ∷ []

-- The response rebuilt from its buffered body, without a Content-Length of its own.
abbrev without_length : Headers → Headers
without_length [] = []
without_length ((n, v) ∷ h) =
    let rest = without_length h in if str_eq n "content-length" then rest else (n, v) ∷ rest

unfoldable pub rebuilt : Response → Response
rebuilt response =
    if response.streaming
    then record {
      status_code = response.status_code;
      media_type = none;
      headers = without_length response.headers;
      body = response.body;
      streaming = false;
    }
    else response

unfoldable pub is_exempt : Request → Bool
is_exempt request = any (λ p. starts_with p request.path) cache_exempt_prefixes

unfoldable pub has_credentials : Request → Bool
has_credentials request =
    truthy (get_header "authorization" request.headers)
    || truthy (get_header "x-api-key" request.headers)

unfoldable pub is_cacheable_json : Response → Bool
is_cacheable_json response =
    starts_with (codes "application/json") (or_else (get_header "content-type" response.headers) [])

abbrev pub matches : Option Text → Text → Bool
matches none etag = false
matches (some v) etag = text_eq v etag

module _ (etag_of : Text → Text) (max_age : Text) where
  abbrev pub tagged_headers : Response → Headers
  tagged_headers response =
      set_default "cache-control" (codes "public, max-age=" ++ max_age)
        (set_header "etag" (etag_of response.body) response.headers)

  unfoldable pub not_modified : Headers → Text → Response
  not_modified headers etag = record {
    status_code = 304;
    media_type = none;
    headers =
        set_header "cache-control" (or_else (get_header "cache-control" headers) [])
          (set_header "etag" etag []);
    body = [];
    streaming = false;
  }

  unfoldable pub tag_response : Request → Response → Response
  unfolding not_modified
  tag_response request response =
      let headers = tagged_headers response in
      if matches (get_header "if-none-match" request.headers) (etag_of response.body)
      then not_modified headers (etag_of response.body)
      else record response { headers = headers }

  unfoldable pub apply_http_caching : Request → Response → Response
  unfolding tag_response rebuilt
  apply_http_caching request response =
      if not (str_eq request.method "GET") || not (response.status_code == 200)
      then response
      else if is_exempt request
      then response
      else if has_credentials request
      then record response {
        headers = set_default "cache-control" (codes "private, no-store") response.headers;
      }
      else if not (is_cacheable_json response)
      then response
      else tag_response request (rebuilt response)
