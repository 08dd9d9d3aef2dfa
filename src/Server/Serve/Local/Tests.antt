-- ===== src/Server/Serve/Local/Tests.antt =====
-- The theorem about the sidecar's own routes of src/server.rs at concrete inputs.
use verifiable_rpc_sidecar.Crates.Samples.PlainCrypto.{plain_crypto}
use verifiable_rpc_sidecar.Crates.Samples.PlainHttp.{plain_http, plain_bhttp, plain_json}
use verifiable_rpc_sidecar.Crates.Samples.PlainAxum.{plain_axum}
use verifiable_rpc_sidecar.Crates.Dstack.{Dstack}
use verifiable_rpc_sidecar.Crates.Http.{Request}
use verifiable_rpc_sidecar.Signing.{before_epoch}
use verifiable_rpc_sidecar.Confidential.InnerCall.{Environment}
use verifiable_rpc_sidecar.Server.{AppState}
use verifiable_rpc_sidecar.Server.Tests.{agent}
use verifiable_rpc_sidecar.Server.Serve.{serve}
use verifiable_rpc_sidecar.Server.Serve.Tests.{app, env}
use verifiable_rpc_sidecar.Server.Serve.Local.{serve_local}
use verifiable_rpc_sidecar.Prelude.{codes, ◌≡◌, refl, none, some, []}

-- The same process behind another upstream, with other limits.
abbrev other_app : AppState
other_app = record app {
  upstream = record { upstream_url = app.upstream.upstream_url; max_body_bytes = some 1 };
  confidential = record {
    max_request_bytes = 1;
    max_response_bytes = 1;
    max_batch_size = 1;
    upstream_timeout_ms = 1000;
  };
}

-- An agent that has no keys and no information.
abbrev other_agent : Dstack
other_agent = record agent { get_key = λ path purpose. none; info = none }

-- No upstream, no clock and no randomness.
abbrev dead : Environment
dead = record env {
  getrandom = none;
  clock_before = before_epoch;
  clock_after = before_epoch;
  net = λ u. none;
}

abbrev attestation_request : Request
attestation_request = record {
  method = codes "GET";
  uri = record {
    scheme = none;
    authority = none;
    path = codes "/attestation";
    path_and_query =
        some (codes "0x0101010101010101010101010101010101010101010101010101010101010101");
  };
  headers = [];
  body = record { size_lower = 0; frames = [] };
}

serve_local_example :
    serve plain_crypto agent plain_http plain_bhttp plain_json plain_axum app env
      attestation_request
    ≡ serve plain_crypto other_agent plain_http plain_bhttp plain_json plain_axum other_app dead
        attestation_request
serve_local_example =
    serve_local plain_crypto agent other_agent refl plain_http plain_bhttp plain_json plain_axum app
      other_app env dead attestation_request refl refl
