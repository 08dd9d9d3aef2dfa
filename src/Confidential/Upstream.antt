-- ===== src/Confidential/Upstream.antt =====
-- src/confidential/upstream.rs: one inner request to the upstream, one capped answer back.
pub mod Read
pub mod Call
pub mod Total
mod Tests
use verifiable_rpc_sidecar.Crates.Http.{
  HeaderMap, UpstreamRequest, UpstreamResponse, Http, Frame, chunk, trailers, failed,
}
use verifiable_rpc_sidecar.Crates.Bhttp.{Bhttp}
use verifiable_rpc_sidecar.Proxy.{UpstreamClient, Net, send, origin_path_and_query, origin_uri}
use verifiable_rpc_sidecar.Confidential.Errors.{InnerError}
use verifiable_rpc_sidecar.Confidential.Inner.{InnerRequest}
use verifiable_rpc_sidecar.Prelude.{
  ltb, leb, if◌then◌else◌, length, any, Result, ◌>>=◌, ◌>>◌, ok_or, Bytes, bytes_eq, saturating_add,
  codes, eq_ignore_ascii_case, ok, err, panic, ℕ, Bool, not, ◌&&◌, ◌||◌, Option, none, some, List,
  [], ◌∷◌, ◌++◌,
}

-- `HeaderMap::get_all`
abbrev pub get_all : Bytes → HeaderMap → List Bytes
get_all name [] = []
get_all name ((n, v) ∷ hs) = if bytes_eq n name then v ∷ get_all name hs else get_all name hs

abbrev pub content_type_header : Option Bytes → HeaderMap
content_type_header none = []
content_type_header (some v) = (codes "content-type", v) ∷ []

abbrev pub accept_headers : List Bytes → HeaderMap
accept_headers [] = []
accept_headers (v ∷ vs) = (codes "accept", v) ∷ accept_headers vs

-- `!v.eq_ignore_ascii_case(b"identity")`
abbrev pub is_encoded : Bytes → Bool
is_encoded v = not (eq_ignore_ascii_case v (codes "identity"))

-- The guard of `read_upstream`.
abbrev pub is_refused_response : ℕ → UpstreamResponse → Bool
is_refused_response cap resp =
    not (leb 200 resp.status && leb resp.status 599)
    || any is_encoded (get_all (codes "content-encoding") resp.headers)
    || ltb cap resp.body.size_lower

module _ (b : Bhttp) where
  -- The loop over the frames; `total` counts their data.
  unfoldable pub read_frames : ℕ → List Frame → ℕ → b.Message → Result b.Message InnerError
  read_frames cap [] total msg = ok msg
  read_frames cap (failed ∷ frames) total msg = err InnerError.upstream
  read_frames cap (trailers t ∷ frames) total msg = read_frames cap frames total msg
  read_frames cap (chunk data_bytes ∷ frames) total msg =
      let rest =
        read_frames cap frames (saturating_add total (length data_bytes))
          (b.write_content msg data_bytes) in
      if ltb cap (saturating_add total (length data_bytes)) then err InnerError.upstream else rest

  abbrev pub put_content_type_values : b.Message → List Bytes → b.Message
  put_content_type_values msg [] = msg
  put_content_type_values msg (v ∷ vs) =
      put_content_type_values (b.put_header msg (codes "content-type") v) vs

  unfoldable pub read_upstream : ℕ → Option UpstreamResponse → Result (ℕ × b.Message) InnerError
  read_upstream cap sent = do
    resp ← ok_or InnerError.upstream sent
    if is_refused_response cap resp then err InnerError.upstream else do
      code ← ok_or InnerError.internal (b.status_code resp.status)
      let msg =
          put_content_type_values (b.response code) (get_all (codes "content-type") resp.headers)
      msg ← read_frames cap resp.body.frames 0 msg
      ok (resp.status, msg)

module _ (h : Http) where
  -- The request that `call_upstream` builds.
  unfoldable pub inner_upstream_request :
      UpstreamClient → InnerRequest → Result UpstreamRequest InnerError
  inner_upstream_request upstream inner = do
    path_and_query ←
        ok_or InnerError.bad_request (origin_path_and_query h upstream inner.path_and_query)
    uri ← ok_or InnerError.internal (origin_uri h upstream path_and_query)
    ok_or InnerError.internal (
        h.request_builder_body (record {
          method = inner.method;
          uri = uri;
          headers =
              content_type_header inner.content_type
              ++ (accept_headers inner.accept ++ (codes "accept-encoding", codes "identity") ∷ []);
          body = inner.body;
        }))

-- `timeout(d, call).await.unwrap_or(Err(UpstreamTimeout))`, given whether the timer came first.
abbrev pub within_timeout : {A : Type 0} → Bool → Result A InnerError → Result A InnerError
within_timeout timed_out call = if timed_out then err InnerError.upstream_timeout else call

-- `call_upstream`: its result, and the requests that it sent.
module _ (h : Http) (b : Bhttp) where
  abbrev pub send_built :
      ℕ
      → Net
      → Bool
      → Result UpstreamRequest InnerError
      → Result (ℕ × b.Message) InnerError × List UpstreamRequest
  send_built max_response_bytes net timed_out (ok up_req) =
      (within_timeout timed_out (read_upstream b max_response_bytes (send net up_req)), up_req ∷ [])
  send_built max_response_bytes net timed_out (err e) = (err e, [])
  send_built max_response_bytes net timed_out panic = (panic, [])

  unfoldable pub call_upstream :
      UpstreamClient
      → ℕ
      → Net
      → Bool
      → InnerRequest
      → Result (ℕ × b.Message) InnerError × List UpstreamRequest
  call_upstream upstream max_response_bytes net timed_out inner =
      send_built max_response_bytes net timed_out (inner_upstream_request h upstream inner)
