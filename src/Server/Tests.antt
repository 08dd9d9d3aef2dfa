-- ===== src/Server/Tests.antt =====
-- The theorems about src/main.rs at concrete inputs, and runs of the route table.
use verifiable_rpc_sidecar.Crates.Samples.PlainCrypto.{plain_crypto}
use verifiable_rpc_sidecar.Crates.Dstack.{Dstack, GetQuoteResponse}
use verifiable_rpc_sidecar.Signing.{
  SigningState, from_dstack_bytes, from_seed_ref, check_kem_key, derive_kem_secret, clamp,
  pubkey_bytes,
}
use verifiable_rpc_sidecar.Signing.Tests.{st}
use verifiable_rpc_sidecar.Envelope.{public_key}
use verifiable_rpc_sidecar.Attestation.Tests.{for_test}
use verifiable_rpc_sidecar.Proxy.{UpstreamClient}
use verifiable_rpc_sidecar.Crates.Crypto.{Crypto}
use verifiable_rpc_sidecar.Crates.Samples.PlainHttp.{plain_http}
use verifiable_rpc_sidecar.Attestation.{AttestationState, bootstrap, resolve_compose_hash}
use verifiable_rpc_sidecar.Configuration.{Config, default_config}
use verifiable_rpc_sidecar.Server.{
  AppState, exit_of, exit_after, bind_failed, boot, bootstrap_tdx_identity, route,
  confidential_method_not_allowed, proxy_handler,
}
use verifiable_rpc_sidecar.Server.Boot.{IsIdentity, bootstrap_tdx_identity-IsIdentity}
use verifiable_rpc_sidecar.Prelude.{
  u64_max, codes, as_bytes, ok, ◌*◌, ◌≡◌, refl, true, false, none, some, [],
}

abbrev pub agent_quote : GetQuoteResponse
agent_quote = record {
  quote = codes "dead";
  event_log = codes "beef";
  report_data = codes "cafe";
  vm_config = [];
}

abbrev pub agent : Dstack
agent = record {
  get_key = λ path purpose.
      some (codes "0101010101010101010101010101010101010101010101010101010101010101");
  get_quote = λ r. some agent_quote;
  info = some (record { compose_hash = codes "c"; app_compose = codes "{}" });
  info_to_json = λ i. some (codes "{}");
}

abbrev pub config : Config
config = default_config (codes "http://n") (codes "1")

abbrev pub attestation : AttestationState
attestation = record {
  signing_pubkey = pubkey_bytes plain_crypto st;
  compose_hash = codes "c";
  app_compose = codes "{}";
  info_json = codes "{}";
}

pub started : bootstrap_tdx_identity plain_crypto agent config ≡ ok (st, attestation)
unfolding bootstrap_tdx_identity from_dstack_bytes from_seed_ref check_kem_key derive_kem_secret
    clamp public_key as_bytes bootstrap resolve_compose_hash
started = refl

bootstrap_tdx_identity-IsIdentity_example : IsIdentity plain_crypto agent config (st, attestation)
bootstrap_tdx_identity-IsIdentity_example =
    bootstrap_tdx_identity-IsIdentity plain_crypto agent config (st, attestation) started

confidential_get : route (codes "GET") (codes "/confidential") ≡ confidential_method_not_allowed
unfolding route
confidential_get = refl

any_path : route (codes "POST") (codes "/rpc") ≡ proxy_handler
unfolding route
any_path = refl

-- `AppState::for_test`
abbrev app_for_test : Crypto → UpstreamClient → SigningState → AppState
app_for_test c upstream signing = record {
  upstream = upstream;
  signing = signing;
  attestation = for_test (pubkey_bytes c signing);
  confidential = record {
    max_request_bytes = 8 * 1024 * 1024;
    max_response_bytes = u64_max;
    max_batch_size = 1000;
    upstream_timeout_ms = 25 * 1000;
  };
}

test_state_cannot_bind :
    (upstream : UpstreamClient)
    → exit_of false true (ok (app_for_test plain_crypto upstream st)) ≡ bind_failed
unfolding exit_of
test_state_cannot_bind upstream = refl

-- Without the guest agent the process ends with code 2 after the deadline.
no_agent :
    exit_of true true
      (boot plain_crypto (record agent { get_key = λ path purpose. none }) plain_http config)
    ≡ exit_after 5 2
unfolding exit_of boot bootstrap_tdx_identity
no_agent = refl
