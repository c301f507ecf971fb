-- ===== src/Http/Caching/Policy.antt =====
-- What the caching policy guarantees.
use eval_ledger.Base.{
  ◌≡◌, true, not, ◌&&◌, some, [], arith, if◌then◌else◌, Text, codes, str_eq, or_else, ◌==◌,
}
use eval_ledger.Http.Message.{Request, Response, get_header, get_header-set_default}
use eval_ledger.Http.Caching.{
  is_exempt, has_credentials, is_cacheable_json, apply_http_caching, matches,
}

module _ (etag_of : Text → Text) (max_age : Text) where
  -- What a caller with credentials gets back keeps its status, its body and its ETag as the handler set
  -- it (none is added). Its Cache-Control is the handler's own; where the handler has set none, it is `private, no-store` on a 200 answer to a GET outside of the
  -- exempt paths, and stays absent on other answers.
  pub credentialed_is_private :
      (request : Request) (response : Response)
      → has_credentials request ≡ true
      → let r = apply_http_caching etag_of max_age request response in
        (r.status_code ≡ response.status_code)
        × (r.body ≡ response.body)
        × (get_header "etag" r.headers ≡ get_header "etag" response.headers)
        × (get_header "cache-control" r.headers ≡ (
            if str_eq request.method "GET" && response.status_code == 200 && not (is_exempt request)
            then some
                (or_else (get_header "cache-control" response.headers) (codes "private, no-store"))
            else get_header "cache-control" response.headers))
  unfolding apply_http_caching
  credentialed_is_private request response h = ground (
    arith,
    get_header-set_default "cache-control" "etag" (codes "private, no-store") response.headers,
    get_header-set_default "cache-control" "cache-control" (codes "private, no-store")
        response.headers,
  )

  -- The middleware answers 304, with no body, exactly to an anonymous GET of public JSON whose
  -- If-None-Match is the entity tag of the body; a handler's 200 is otherwise passed on with its body.
  pub not_modified_iff :
      (request : Request) (response : Response)
      → response.status_code ≡ 200
      → let r = apply_http_caching etag_of max_age request response in
        let revalidated =
          str_eq request.method "GET"
          && not (is_exempt request)
          && not (has_credentials request)
          && is_cacheable_json response
          && matches (get_header "if-none-match" request.headers) (etag_of response.body) in
        (r.status_code ≡ (if revalidated then 304 else 200))
        × (r.body ≡ (if revalidated then [] else response.body))
  unfolding apply_http_caching
  not_modified_iff request response h = ground arith
