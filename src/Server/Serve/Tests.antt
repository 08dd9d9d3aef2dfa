-- ===== src/Server/Serve/Tests.antt =====
-- The theorems about the router of src/server.rs at concrete inputs.
use verifiable_rpc_sidecar.Crates.Samples.PlainCrypto.{plain_crypto, plain_crypto-laws}
use verifiable_rpc_sidecar.Crates.Samples.PlainHttp.{
  plain_http, plain_http-laws, plain_bhttp, plain_json,
}
use verifiable_rpc_sidecar.Crates.Samples.PlainAxum.{plain_axum}
use verifiable_rpc_sidecar.Crates.Http.{
  Uri, Request, UpstreamRequest, UpstreamResponse, Response, chunk, collected,
}
use verifiable_rpc_sidecar.Signing.{after_epoch, pubkey_bytes}
use verifiable_rpc_sidecar.Signing.Tests.{st}
use verifiable_rpc_sidecar.Attestation.{
  AttestationQuery, AttestationResponse, extract_nonce, parse_user_nonce, build_report_data, get,
  attestation_handler,
}
use verifiable_rpc_sidecar.Util.{prefixed_hex}
use verifiable_rpc_sidecar.Signing.Headers.{is_signing}
use verifiable_rpc_sidecar.Proxy.{
  new, upstream_request, upstream_uri, origin_path_and_query, origin_uri, is_hop_by_hop, body_cap,
}
use verifiable_rpc_sidecar.Confidential.InnerCall.{Environment}
use verifiable_rpc_sidecar.Confidential.Exchange.Ends.{Fills}
use verifiable_rpc_sidecar.Server.{
  confidential_handler, AppState, boot, confidential_config, route, proxy_handler,
}
use verifiable_rpc_sidecar.Server.Tests.{agent, agent_quote, config, attestation, started}
use verifiable_rpc_sidecar.Server.Serve.{serve}
use verifiable_rpc_sidecar.Server.Serve.Total.{serve_answers}
use verifiable_rpc_sidecar.Confidential.Exchange.Tests.{outer}
use verifiable_rpc_sidecar.Prelude.{
  any, bytes_eq, codes, is_whitespace, as_bytes, trim, ok, ◌≡◌, refl, ap, ◌≢◌, true, false, none,
  some, [], ◌∷◌,
}

abbrev node : Uri
node = record {
  scheme = none;
  authority = none;
  path = codes "http://n";
  path_and_query = some (codes "http://n");
}

abbrev pub app : AppState
app = record {
  upstream = record { upstream_url = node; max_body_bytes = none };
  signing = st;
  attestation = attestation;
  confidential = confidential_config config;
}

pub app_started : boot plain_crypto agent plain_http config ≡ ok app
unfolding boot new as_bytes
app_started = rw started refl

abbrev pub pong : UpstreamResponse
pong = record {
  status = 200;
  headers = (codes "content-encoding", codes "identity") ∷ (codes "content-type", codes "t") ∷ [];
  body = record { size_lower = 0; frames = chunk (codes "pong") ∷ [] };
}

abbrev pub env : Environment
env = record {
  getrandom = none;
  clock_before = after_epoch 699;
  clock_after = after_epoch 700;
  net = λ u. some pong;
  timed_out = false;
  upstream_elapsed = 3;
  elapsed = 4;
}

abbrev pub request : Request
request = record {
  method = codes "POST";
  uri = record { scheme = none; authority = none; path = codes "/"; path_and_query = none };
  headers = (codes "accept-encoding", codes "gzip") ∷ [];
  body = record { size_lower = 0; frames = chunk (codes "ping") ∷ [] };
}

abbrev pub sent : UpstreamRequest
sent = record {
  method = codes "POST";
  uri = record {
    scheme = none;
    authority = none;
    path = [];
    path_and_query = some (codes "http://n/");
  };
  headers = (codes "accept-encoding", codes "identity") ∷ [];
  body = codes "ping";
}

pub built : upstream_request plain_http app.upstream request (codes "ping") ≡ ok sent
unfolding upstream_request upstream_uri origin_path_and_query origin_uri is_hop_by_hop
built = refl

pub to_proxy : route request.method request.uri.path ≡ proxy_handler
unfolding route
to_proxy = refl

pub not_head : request.method ≢ codes "HEAD"
not_head h = absurd (differs (ap (λ m. bytes_eq m (codes "HEAD")) h))
  where
    differs : false ≢ true
    differs h = cc

pub read :
    plain_http.collect_limited request.body (body_cap app.upstream.max_body_bytes)
    ≡ collected (codes "ping")
unfolding body_cap
read = refl

pub whole :
    plain_http.collect_limited pong.body (body_cap app.upstream.max_body_bytes)
    ≡ collected (codes "pong")
unfolding body_cap
whole = refl

pub fills : Fills env
fills nonce h = cc

serve_answers_example :
    (resp : Response) × (serve plain_crypto agent plain_http plain_bhttp plain_json plain_axum app
        env request
      ≡ ok resp)
serve_answers_example =
    serve_answers plain_crypto plain_crypto-laws agent plain_http plain_http-laws plain_bhttp
      plain_json plain_axum config app env request app_started fills

pub unsigned : any is_signing pong.headers ≡ false
unsigned = refl

abbrev pub query : AttestationQuery
query = record {
  nonce = some (codes "0x0101010101010101010101010101010101010101010101010101010101010101");
}

abbrev pub att : AttestationResponse
att = record {
  quote = agent_quote;
  pubkey = prefixed_hex plain_crypto attestation.signing_pubkey;
  compose_hash = codes "c";
  app_compose = codes "{}";
}

pub attested : attestation_handler plain_crypto agent app.attestation query ≡ ok att
unfolding attestation_handler get extract_nonce parse_user_nonce trim is_whitespace
    build_report_data pubkey_bytes
attested = refl

abbrev pub private_request : Request
private_request = record {
  method = codes "POST";
  uri = record {
    scheme = none;
    authority = none;
    path = codes "/confidential";
    path_and_query = none;
  };
  headers = [];
  body = record { size_lower = 0; frames = chunk outer ∷ [] };
}

pub to_confidential : route private_request.method private_request.uri.path ≡ confidential_handler
unfolding route
to_confidential = refl

pub received :
    plain_http.collect_limited private_request.body app.confidential.max_request_bytes
    ≡ collected outer
unfolding confidential_config
received = refl
