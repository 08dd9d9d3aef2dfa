-- ===== src/Proxy.antt =====
-- src/proxy.rs: the pass-through to the upstream node, with a signature on each response.
pub mod Headers
pub mod Branches
pub mod Forward
pub mod Total
pub mod Task
pub mod Tests
mod UnitTests
use verifiable_rpc_sidecar.Crates.Crypto.{Crypto}
use verifiable_rpc_sidecar.Crates.Http.{
  HeaderMap, Uri, UriParts, Request, UpstreamRequest, UpstreamResponse, Response, Http, Body,
  Collected, collected, length_limit, transport_error,
}
use verifiable_rpc_sidecar.Signing.{SigningState, SignedResponse, Reading, sign, signature_hex}
use verifiable_rpc_sidecar.Prelude.{
  ltb, ◌==◌, if◌then◌else◌, length, keep, any, Result, ◌>>=◌, ◌>>◌, ok_or, map_err, Bytes, bytes_eq,
  u64_max, to_string, codes, as_bytes, ok, err, panic, ℕ, ◌+◌, Bool, not, ◌&&◌, Option, none, some,
  List, [], ◌∷◌, ◌++◌,
}

-- `MAX_PATH_AND_QUERY`: `u16::MAX - 1`
abbrev pub max_path_and_query : ℕ
max_path_and_query = 65534

-- `UpstreamClient`; the connection pool is the parameter `Net` below.
pub record UpstreamClient : Type 0 where
  pub upstream_url : Uri
  pub max_body_bytes : Option ℕ

pub data ProxyError : Type 0 where
  invalid_upstream_url : ProxyError

-- What the connection pool answers to a request; nothing is a transport error.
abbrev pub Net : Type 0
Net = UpstreamRequest → Option UpstreamResponse

-- `UpstreamClient::send`: the request as it is, on the shared pool.
abbrev pub send : Net → UpstreamRequest → Option UpstreamResponse
send net up_req = net up_req

-- `StatusCode::into_response()`
abbrev pub status_response : ℕ → Response
status_response status = record { status = status; headers = []; body = [] }

abbrev pub hop_by_hop_names : List Bytes
hop_by_hop_names =
    codes "connection"
    ∷ codes "keep-alive"
    ∷ codes "proxy-authenticate"
    ∷ codes "proxy-authorization"
    ∷ codes "te"
    ∷ codes "trailers"
    ∷ codes "trailer"
    ∷ codes "transfer-encoding"
    ∷ codes "upgrade"
    ∷ codes "host"
    ∷ []

unfoldable pub is_hop_by_hop : Bytes → Bool
is_hop_by_hop name = any (λ n. bytes_eq name n) hop_by_hop_names

abbrev pub trim_slash_cons : ℕ → Bytes → Bytes
trim_slash_cons b [] = if b == b'/' then [] else b ∷ []
trim_slash_cons b (c ∷ cs) = b ∷ c ∷ cs

-- `trim_end_matches('/')`
abbrev pub trim_end_slashes : Bytes → Bytes
trim_end_slashes [] = []
trim_end_slashes (b ∷ bs) = trim_slash_cons b (trim_end_slashes bs)

-- `uri.path_and_query().map_or("/", |pq| pq.as_str())`
abbrev pub path_and_query_or_root : Option Bytes → Bytes
path_and_query_or_root none = codes "/"
path_and_query_or_root (some pq) = pq

-- The test of the loop over the client's headers.
abbrev pub is_forwarded : Bytes × Bytes → Bool
is_forwarded (name, value) =
    not (is_hop_by_hop name) && not (bytes_eq name (codes "accept-encoding"))

-- The test of the loop over the upstream's headers.
abbrev pub is_relayed : Bytes × Bytes → Bool
is_relayed (name, value) =
    not (is_hop_by_hop name) && not (bytes_eq name (codes "content-encoding"))

-- `max_body_bytes.unwrap_or(usize::MAX)`
unfoldable pub body_cap : Option ℕ → ℕ
body_cap none = u64_max
body_cap (some n) = n

-- `Limited::new(body, cap).collect()`, with the answer to any failure of it.
abbrev pub collected_or : ℕ → Collected → Result Bytes Response
collected_or status (collected bytes) = ok bytes
collected_or status length_limit = err (status_response status)
collected_or status transport_error = err (status_response status)

module _ (h : Http) where
  unfoldable pub new : Bytes → Option ℕ → Result UpstreamClient ProxyError
  new upstream_url max_body_bytes = do
    url ← ok_or invalid_upstream_url (h.parse_uri upstream_url)
    ok (record { upstream_url = url; max_body_bytes = max_body_bytes })

  unfoldable pub origin_path_and_query : UpstreamClient → Bytes → Option Bytes
  origin_path_and_query client path_and_query =
      let prefix = trim_end_slashes (client.upstream_url.path) in
      if ltb max_path_and_query (length prefix + length path_and_query)
      then none
      else h.path_and_query_from (prefix ++ path_and_query)

  unfoldable pub origin_uri : UpstreamClient → Bytes → Option Uri
  origin_uri client path_and_query = h.uri_from_parts (record {
    scheme = client.upstream_url.scheme;
    authority = client.upstream_url.authority;
    path_and_query = some path_and_query;
  })

  abbrev pub origin_uri_of : UpstreamClient → Option Bytes → Option Uri
  origin_uri_of client none = none
  origin_uri_of client (some path_and_query) = origin_uri client path_and_query

  unfoldable pub upstream_uri : UpstreamClient → Uri → Option Uri
  upstream_uri client uri =
      origin_uri_of client
        (origin_path_and_query client (path_and_query_or_root uri.path_and_query))

  -- The request that `send_upstream` builds, or its early answer.
  unfoldable pub upstream_request :
      UpstreamClient → Request → Bytes → Result UpstreamRequest Response
  upstream_request client parts request_bytes = do
    uri ← ok_or (status_response 500) (upstream_uri client parts.uri)
    ok_or (status_response 500) (
        h.request_builder_body (record {
          method = parts.method;
          uri = uri;
          headers =
              keep is_forwarded parts.headers ++ (codes "accept-encoding", codes "identity") ∷ [];
          body = request_bytes;
        }))

  unfoldable pub send_upstream :
      UpstreamClient → Net → Request → Bytes → Result UpstreamResponse Response
  send_upstream client net parts request_bytes = do
    up_req ← upstream_request client parts request_bytes
    ok_or (status_response 502) (net up_req)

  unfoldable pub collect_request : Request → ℕ → Result Bytes Response
  collect_request req cap = collected_or 413 (h.collect_limited req.body cap)

  unfoldable pub collect_upstream_response : UpstreamResponse → ℕ → Result Bytes Response
  collect_upstream_response up_resp cap = collected_or 502 (h.collect_limited up_resp.body cap)

abbrev pub response_or_500 : Option Response → Response
response_or_500 none = status_response 500
response_or_500 (some r) = r

module _ (c : Crypto) where
  unfoldable pub sign_or_500 :
      SigningState → Bytes → Bytes → Reading → Result SignedResponse Response
  sign_or_500 signer request_bytes response_bytes clock =
      map_err (λ e. status_response 500) (sign c signer request_bytes response_bytes clock)

  -- The three signing headers.
  unfoldable pub signing_headers : SignedResponse → HeaderMap
  signing_headers signed =
      (codes "vrpc-signature", as_bytes (signature_hex c signed))
      ∷ (codes "vrpc-timestamp", as_bytes (to_string signed.timestamp_ms))
      ∷ (codes "vrpc-pubkey", as_bytes signed.pubkey_hex)
      ∷ []

  unfoldable pub build_signed_response : Http → UpstreamResponse → Bytes → SignedResponse → Response
  build_signed_response h up_parts response_bytes signed = response_or_500 (
      h.response_builder_body (record {
        status = up_parts.status;
        headers = keep is_relayed up_parts.headers ++ signing_headers signed;
        body = response_bytes;
      }))

abbrev pub either_response : Result Response Response → Result Response ProxyError
either_response (ok resp) = ok resp
either_response (err early) = ok early
either_response panic = panic

module _ (c : Crypto) (h : Http) where
  unfoldable pub run_pipeline :
      UpstreamClient → Net → Reading → Request → SigningState → ℕ → Result Response Response
  run_pipeline client net clock req signer cap = do
    request_bytes ← collect_request h req cap
    up_resp ← send_upstream h client net req request_bytes
    response_bytes ← collect_upstream_response h up_resp cap
    signed ← sign_or_500 c signer request_bytes response_bytes clock
    ok (build_signed_response c h up_resp response_bytes signed)

  -- `forward` and `proxy_handler`: both results of the pipeline are the answer.
  unfoldable pub forward :
      UpstreamClient → Net → Reading → Request → SigningState → Result Response ProxyError
  forward client net clock req signer =
      either_response (run_pipeline client net clock req signer (body_cap client.max_body_bytes))
