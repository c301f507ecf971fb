-- ===== src/Http/Context/Traced.antt =====
-- What `request_context` of backend/app/main.py does on every request.
use eval_ledger.Base.{
  ℕ, ◌≡◌, refl, ap, ◌⊎◌, inl, inr, true, Option, none, some, [], ◌∷◌, ◌++◌, Text, arith,
  Option-cases,
}
use eval_ledger.Http.Message.{Request, Response, get_header, get_header-set_header}
use eval_ledger.Http.ClientIp.{client_ip, content_length_exceeds}
use eval_ledger.Http.Caching.{apply_http_caching, tag_response, not_modified, rebuilt}
use eval_ledger.Http.Context.{
  Monitor, Handled, Settings, path_label, record_metrics, request_id_of, payload_too_large,
  completed, finalise, conclude, handle_or_reject, request_context,
}

module _ (etag_of : Text → Text) (max_age : Text) where
  -- The caching middleware keeps the status, or turns a 200 into a 304.
  caching_status :
      (request : Request) (response : Response)
      → let status = (apply_http_caching etag_of max_age request response).status_code in
        (status ≡ response.status_code) ⊎ ((response.status_code ≡ 200) × (status ≡ 304))
  unfolding apply_http_caching rebuilt tag_response not_modified
  caching_status request response = ground arith

-- An answer bears the request's id and the status that was recorded, or 304 for a recorded 200; an
-- exception is recorded as 500.
unfoldable pub Answered : Text → ℕ → Option Response → Type 0
Answered request_id status none = status ≡ 500
Answered request_id status (some r) =
    (get_header "x-request-id" r.headers ≡ some request_id)
    × ((r.status_code ≡ status) ⊎ ((status ≡ 200) × (r.status_code ≡ 304)))

module _ (settings : Settings) where
  conclude-Answered :
      (request : Request) (request_id : Text) (handled : Handled) (monitor : Monitor)
      → (status : ℕ) × ((conclude settings request request_id handled monitor).1
          ≡ completed settings request request_id handled.route status monitor)
        × Answered request_id status (conclude settings request request_id handled monitor).0
  unfolding conclude finalise Answered
  conclude-Answered request request_id handled monitor = elim (Option-cases handled.response) [
    | inl e ↦ rw e (500, refl, refl)
    | inr (r, e) ↦ rw e (
      r.status_code,
      refl,
      (
        get_header-set_header "x-request-id" "x-request-id" request_id
            (apply_http_caching settings.etag_of settings.max_age request r).headers,
        caching_status settings.etag_of settings.max_age request r,
      ),
    )
  ]

  -- Whatever the rest of the application does, each request adds one observation to the metrics and one
  -- line to the log, both with one status; a response bears the id of that line in X-Request-ID, and has
  -- that status, or 304 where it is 200; where there is no response, the status is 500.
  pub request_context_lem :
      {W : Type 0} (request : Request) (uuid : Text) (call_next : W → Handled × W) (w : W)
      (monitor : Monitor)
      → let (answer, _, monitor') = request_context settings request uuid call_next w monitor in
        let request_id = request_id_of request uuid in
        (status : ℕ) × (route : Option Text) × (monitor'.metrics
          ≡ monitor.metrics
            ++ record { method = request.method; path = path_label route; status = status } ∷ [])
        × (monitor'.log
            ≡ monitor.log
              ++ record {
                request_id = request_id;
                method = request.method;
                path = request.path;
                status_code = status;
                client_ip = client_ip settings.trusted_proxy_count request;
              }
                ∷ [])
        × Answered request_id status answer
  unfolding request_context completed record_metrics
  request_context_lem request uuid call_next w monitor =
      let request_id = request_id_of request uuid in
      let handled = (handle_or_reject settings request request_id call_next w).0 in
      let (status, recorded, answered) = conclude-Answered request request_id handled monitor in
      (status, handled.route, ap Monitor.metrics recorded, ap Monitor.log recorded, answered)

  rejected_status :
      (request : Request) (request_id : Text)
      → (finalise settings request request_id (payload_too_large settings request_id)).status_code
        ≡ 413
  unfolding finalise payload_too_large apply_http_caching
  rejected_status request request_id = ground arith

  -- A request that declares a larger body than the limit is answered 413 by this middleware, with its id,
  -- and nothing of the application runs.
  pub oversized_is_rejected :
      {W : Type 0} (request : Request) (uuid : Text) (call_next : W → Handled × W) (w : W)
      (monitor : Monitor)
      → content_length_exceeds settings.parse_int request settings.max_request_body_bytes ≡ true
      → let (answer, w', _) = request_context settings request uuid call_next w monitor in
        (w' ≡ w)
        × ((r : Response) × (answer ≡ some r)
            × (r.status_code ≡ 413)
            × (get_header "x-request-id" r.headers ≡ some (request_id_of request uuid)))
  unfolding request_context handle_or_reject conclude finalise
  oversized_is_rejected request uuid call_next w monitor large =
      let request_id = request_id_of request uuid in
      let rejected = finalise settings request request_id (payload_too_large settings request_id) in
      rw large (
        refl,
        (
          rejected,
          refl,
          rejected_status request request_id,
          get_header-set_header "x-request-id" "x-request-id" request_id
              (apply_http_caching settings.etag_of settings.max_age request
                (payload_too_large settings request_id)).headers,
        ),
      )
