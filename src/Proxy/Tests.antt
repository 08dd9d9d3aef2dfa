-- ===== src/Proxy/Tests.antt =====
-- The theorems about src/proxy.rs at concrete inputs.
use verifiable_rpc_sidecar.Crates.Samples.PlainCrypto.{plain_crypto, plain_crypto-laws}
use verifiable_rpc_sidecar.Crates.Samples.PlainHttp.{plain_http, plain_http-laws}
use verifiable_rpc_sidecar.Crates.Http.{
  Uri, Body, Request, UpstreamRequest, UpstreamResponse, Response, chunk, body_data,
}
use verifiable_rpc_sidecar.Signing.{SignedResponse, after_epoch}
use verifiable_rpc_sidecar.Signing.Verify.{client_verifies}
use verifiable_rpc_sidecar.Signing.Tests.{st, st-IsConsistent}
use verifiable_rpc_sidecar.Proxy.{
  UpstreamClient, Net, is_hop_by_hop, body_cap, upstream_uri, upstream_request,
  origin_path_and_query, origin_uri, forward,
}
use verifiable_rpc_sidecar.Proxy.Headers.{Carries, upstream_request-Carries}
use verifiable_rpc_sidecar.Proxy.Branches.{relayed_response, IsRefused}
use verifiable_rpc_sidecar.Proxy.Forward.{Fails, IsRelayed, forward_errors, forward_verifies}
use verifiable_rpc_sidecar.Prelude.{codes, ok, ◌≡◌, refl, ◌⊎◌, true, none, some, [], ◌∷◌, arith}

abbrev pub root : Uri
root = record {
  scheme = some (codes "http");
  authority = some (codes "n");
  path = codes "/";
  path_and_query = some (codes "/");
}

abbrev pub client : UpstreamClient
client = record { upstream_url = root; max_body_bytes = some 64 }

abbrev ping : Body
ping = record { size_lower = 0; frames = chunk (codes "pi") ∷ chunk (codes "ng") ∷ [] }

abbrev pong : Body
pong = record { size_lower = 0; frames = chunk (codes "pong") ∷ [] }

abbrev pub request : Request
request = record {
  method = codes "POST";
  uri = root;
  headers =
      (codes "host", codes "h")
      ∷ (codes "accept-encoding", codes "gzip")
      ∷ (codes "x", codes "y")
      ∷ [];
  body = ping;
}

abbrev sent : UpstreamRequest
sent = record {
  method = codes "POST";
  uri = record {
    scheme = some (codes "http");
    authority = some (codes "n");
    path = [];
    path_and_query = some (codes "/");
  };
  headers = (codes "x", codes "y") ∷ (codes "accept-encoding", codes "identity") ∷ [];
  body = codes "ping";
}

abbrev answer : UpstreamResponse
answer = record {
  status = 200;
  headers = (codes "connection", codes "close") ∷ (codes "content-type", codes "t") ∷ [];
  body = pong;
}

abbrev pub net : Net
net = λ u. some answer

built : upstream_request plain_http client request (codes "ping") ≡ ok sent
unfolding upstream_request upstream_uri origin_path_and_query origin_uri is_hop_by_hop
built = refl

upstream_request-Carries_example : Carries plain_http client request (codes "ping") sent
upstream_request-Carries_example =
    upstream_request-Carries plain_http plain_http-laws client request (codes "ping") sent built

forward_verifies_example :
    (r : SignedResponse) × (out : Response) × (forward plain_crypto plain_http client net
        (after_epoch 700)
        request
        st
      ≡ ok out)
    × (IsRefused plain_crypto plain_http plain_http-laws answer (codes "pong") r out
        ⊎ (out ≡ relayed_response plain_crypto answer (codes "pong") r))
    × (r.timestamp_ms ≡ 700)
    × (codes "ping" ≡ body_data ping.frames)
    × (codes "pong" ≡ body_data pong.frames)
    × (client_verifies plain_crypto st.chain_id (codes "ping") (codes "pong") r ≡ true)
forward_verifies_example =
    forward_verifies plain_crypto plain_crypto-laws plain_http plain_http-laws client net
      (after_epoch 700) request st st-IsConsistent (codes "ping") (codes "pong") sent answer 700
      (unfold body_cap in refl) built refl (unfold body_cap in refl) (refl, omega arith)

abbrev down : Net
down = λ u. none

forward_errors_example :
    Fails plain_crypto plain_http client down (after_epoch 700) request st
    ⊎ IsRelayed plain_crypto plain_http client down (after_epoch 700) request st
forward_errors_example =
    forward_errors plain_crypto plain_http client down (after_epoch 700) request st
      plain_crypto-laws plain_http-laws st-IsConsistent
