-- ===== src/Proxy/UnitTests.antt =====
-- The unit tests of src/proxy.rs that need no socket, as functions, and their runs; for the test
-- of a refused connection the upstream is one that never answers.
use verifiable_rpc_sidecar.Crates.Samples.PlainCrypto.{plain_crypto}
use verifiable_rpc_sidecar.Crates.Samples.PlainHttp.{plain_http}
use verifiable_rpc_sidecar.Crates.Crypto.{Crypto}
use verifiable_rpc_sidecar.Crates.Http.{
  Uri, Request, UpstreamRequest, Response, Http, HeaderMap, chunk,
}
use verifiable_rpc_sidecar.Signing.{
  SigningState, SigningError, Reading, after_epoch, from_seed, from_seed_ref, check_kem_key,
  derive_kem_secret, clamp,
}
use verifiable_rpc_sidecar.Envelope.{public_key}
use verifiable_rpc_sidecar.Proxy.{
  UpstreamClient, Net, ProxyError, is_hop_by_hop, body_cap, upstream_uri, upstream_request,
  collect_request, send_upstream, origin_path_and_query, origin_uri, run_pipeline, forward,
}
use verifiable_rpc_sidecar.Prelude.{
  ◌==◌, length, keep, any, Result, Bytes, bytes_eq, zeros, codes, encode_utf8, as_bytes,
  to_ascii_lowercase, ok, err, panic, ◌≡◌, refl, Bool, true, false, not, ◌&&◌, Option, none, some,
  List, [], ◌∷◌,
}

abbrev all : List Bytes → (Bytes → Bool) → Bool
all names test = not (any (λ n. not (test n)) names)

-- A `HeaderName` is its lowercase spelling.
abbrev header_name : Bytes → Bytes
header_name [] = []
header_name (b ∷ bs) = to_ascii_lowercase b ∷ header_name bs

abbrev hop_by_hop_headers_recognised : Bool
hop_by_hop_headers_recognised =
    all
      (codes "connection"
        ∷ codes "keep-alive"
        ∷ codes "proxy-authenticate"
        ∷ codes "proxy-authorization"
        ∷ codes "te"
        ∷ codes "trailers"
        ∷ codes "transfer-encoding"
        ∷ codes "upgrade"
        ∷ codes "host"
        ∷ [])
      (λ h. is_hop_by_hop (header_name h))

abbrev hop_by_hop_check_is_case_insensitive : Bool
hop_by_hop_check_is_case_insensitive =
    all
      (codes "Connection"
        ∷ codes "CONNECTION"
        ∷ codes "Keep-Alive"
        ∷ codes "KEEP-ALIVE"
        ∷ codes "Proxy-Authenticate"
        ∷ codes "PROXY-AUTHORIZATION"
        ∷ codes "TE"
        ∷ codes "Trailers"
        ∷ codes "TRAILER"
        ∷ codes "Transfer-Encoding"
        ∷ codes "Upgrade"
        ∷ codes "Host"
        ∷ [])
      (λ h. is_hop_by_hop (header_name h))

abbrev end_to_end_headers_pass_through : Bool
end_to_end_headers_pass_through =
    all
      (codes "content-type"
        ∷ codes "x-trace-id"
        ∷ codes "vrpc-signature"
        ∷ codes "vrpc-pubkey"
        ∷ [])
      (λ h. not (is_hop_by_hop (header_name h)))

-- A client for the origin `http://<authority><path>`, and the target of a request for a path.
abbrev client_for : Bytes → Bytes → Option Bytes → UpstreamClient
client_for authority path query = record {
  upstream_url = record {
    scheme = some (codes "http");
    authority = some authority;
    path = path;
    path_and_query = query;
  };
  max_body_bytes = none;
}

abbrev target : Bytes → Uri
target path = record { scheme = none; authority = none; path = path; path_and_query = some path }

abbrev opt_eq : Option Bytes → Bytes → Bool
opt_eq none expected = false
opt_eq (some b) expected = bytes_eq b expected

-- Whether a URI is `http://<authority><path_and_query>`.
abbrev is_http_uri : Bytes → Bytes → Option Uri → Bool
is_http_uri authority path_and_query none = false
is_http_uri authority path_and_query (some uri) =
    opt_eq uri.scheme (codes "http")
    && opt_eq uri.authority authority
    && opt_eq uri.path_and_query path_and_query

abbrev node : Bytes
node = codes "127.0.0.1:43677"

module _ (h : Http) where
  abbrev upstream_uri_is_base_plus_request_path_and_query : Bool
  upstream_uri_is_base_plus_request_path_and_query =
      is_http_uri node (codes "/getConsensusBlock?limit=1") (
        upstream_uri h (client_for node (codes "/") (some (codes "/")))
          (target (codes "/getConsensusBlock?limit=1")))

  abbrev upstream_uri_preserves_configured_base_path : Bool
  upstream_uri_preserves_configured_base_path =
      is_http_uri node (codes "/api/v2/getConsensusBlock") (
        upstream_uri h (client_for node (codes "/api/v2") (some (codes "/api/v2")))
          (target (codes "/getConsensusBlock")))

  abbrev upstream_uri_base_trailing_slash_not_doubled : Bool
  upstream_uri_base_trailing_slash_not_doubled = is_http_uri node (codes "/api/foo") (
      upstream_uri h (client_for node (codes "/api/") (some (codes "/api/")))
        (target (codes "/foo")))

  abbrev upstream_uri_ignores_base_query : Bool
  upstream_uri_ignores_base_query = is_http_uri node (codes "/rpc/x?y=1") (
      upstream_uri h (client_for node (codes "/rpc") (some (codes "/rpc?apikey=K")))
        (target (codes "/x?y=1")))

  abbrev upstream_uri_preserves_jsonrpc_path : Bool
  upstream_uri_preserves_jsonrpc_path = is_http_uri (codes "127.0.0.1:8545") (codes "/jsonRPC") (
      upstream_uri h (client_for (codes "127.0.0.1:8545") (codes "/") (some (codes "/")))
        (target (codes "/jsonRPC")))

  abbrev upstream_uri_forwards_root_path : Bool
  upstream_uri_forwards_root_path = is_http_uri (codes "127.0.0.1:8545") (codes "/") (
      upstream_uri h (client_for (codes "127.0.0.1:8545") (codes "/") (some (codes "/")))
        (target (codes "/")))

abbrev post : HeaderMap → Bytes → Request
post headers body = record {
  method = codes "POST";
  uri = target (codes "/");
  headers = headers;
  body = record { size_lower = 0; frames = chunk body ∷ [] };
}

abbrev is_502_and_empty : Result Response ProxyError → Bool
is_502_and_empty (ok resp) = resp.status == 502 && length resp.body == 0
is_502_and_empty (err e) = false
is_502_and_empty panic = false

module _ (c : Crypto) (h : Http) where
  abbrev answered_by : Net → Reading → Request → Result SigningState SigningError → Bool
  answered_by net clock req (ok signer) = is_502_and_empty (
      forward c h (client_for (codes "127.0.0.1:1") (codes "/") (some (codes "/"))) net clock req
        signer)
  answered_by net clock req (err e) = false
  answered_by net clock req panic = false

  abbrev upstream_connection_refused_returns_502 : Reading → Bool
  upstream_connection_refused_returns_502 clock =
      answered_by (λ u. none) clock (post [] (codes "hello")) (from_seed c (zeros 32) (codes "1")).0

-- The headers of the test of the request to the upstream, by their canonical names.
abbrev hop_headers : HeaderMap
hop_headers =
    (codes "content-type", codes "application/json")
    ∷ (codes "transfer-encoding", codes "chunked")
    ∷ (codes "te", codes "trailers")
    ∷ (codes "connection", codes "keep-alive")
    ∷ (codes "keep-alive", codes "timeout=5")
    ∷ (codes "upgrade", codes "h2c")
    ∷ (codes "proxy-authorization", codes "Basic xxx")
    ∷ (codes "accept-encoding", codes "gzip, br")
    ∷ (codes "x-trace-id", codes "e2e-marker")
    ∷ []

abbrev is_header : Bytes → Bytes → Bytes × Bytes → Bool
is_header name value (n, v) = bytes_eq n name && bytes_eq v value

abbrev is_named : Bytes → Bytes × Bytes → Bool
is_named name (n, v) = bytes_eq n name

abbrev is_stripped : Result UpstreamRequest Response → Bool
is_stripped (ok up) =
    all
      (codes "connection"
        ∷ codes "keep-alive"
        ∷ codes "proxy-authenticate"
        ∷ codes "proxy-authorization"
        ∷ codes "te"
        ∷ codes "trailers"
        ∷ codes "trailer"
        ∷ codes "transfer-encoding"
        ∷ codes "upgrade"
        ∷ [])
      (λ f. not (any (is_named f) up.headers))
    && any (is_header (codes "x-trace-id") (codes "e2e-marker")) up.headers
    && length (keep (is_named (codes "accept-encoding")) up.headers) == 1
    && any (is_header (codes "accept-encoding") (codes "identity")) up.headers
is_stripped (err e) = false
is_stripped panic = false

abbrev request_hop_by_hop_headers_stripped_to_upstream : Http → Bool
request_hop_by_hop_headers_stripped_to_upstream h = is_stripped (
    upstream_request h (client_for (codes "127.0.0.1:1") (codes "/") (some (codes "/")))
      (post hop_headers (codes "payload")) (codes "payload"))

hop_tests :
    (hop_by_hop_headers_recognised ≡ true)
    × (hop_by_hop_check_is_case_insensitive ≡ true)
    × (end_to_end_headers_pass_through ≡ true)
unfolding is_hop_by_hop to_ascii_lowercase
hop_tests = (refl, refl, refl)

uri_tests :
    (upstream_uri_is_base_plus_request_path_and_query plain_http ≡ true)
    × (upstream_uri_preserves_configured_base_path plain_http ≡ true)
    × (upstream_uri_base_trailing_slash_not_doubled plain_http ≡ true)
    × (upstream_uri_ignores_base_query plain_http ≡ true)
    × (upstream_uri_preserves_jsonrpc_path plain_http ≡ true)
    × (upstream_uri_forwards_root_path plain_http ≡ true)
unfolding upstream_uri origin_path_and_query origin_uri
uri_tests = (refl, refl, refl, refl, refl, refl)

refused_test :
    upstream_connection_refused_returns_502 plain_crypto plain_http (after_epoch 1700000000000)
    ≡ true
unfolding forward run_pipeline collect_request send_upstream upstream_request body_cap upstream_uri
    origin_path_and_query origin_uri is_hop_by_hop from_seed from_seed_ref check_kem_key
    derive_kem_secret clamp public_key as_bytes encode_utf8
refused_test = refl

stripped_test : request_hop_by_hop_headers_stripped_to_upstream plain_http ≡ true
unfolding upstream_request upstream_uri origin_path_and_query origin_uri is_hop_by_hop
stripped_test = refl
