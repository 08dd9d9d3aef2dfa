-- ===== src/Server.antt =====
-- src/server.rs and src/main.rs: the routes and the start.
pub mod Boot
pub mod Serve
pub mod Process
pub mod Life
pub mod Tests
use verifiable_rpc_sidecar.Crates.Crypto.{Crypto}
use verifiable_rpc_sidecar.Crates.Dstack.{Dstack}
use verifiable_rpc_sidecar.Crates.Http.{Http}
use verifiable_rpc_sidecar.Signing.{SigningState, from_dstack_bytes, pubkey_bytes}
use verifiable_rpc_sidecar.Attestation.{AttestationState, bootstrap}
use verifiable_rpc_sidecar.Proxy.{UpstreamClient, new}
use verifiable_rpc_sidecar.Confidential.InnerCall.{ConfidentialConfig}
use verifiable_rpc_sidecar.Configuration.{Config}
use verifiable_rpc_sidecar.Prelude.{
  if◌then◌else◌, Result, ◌>>=◌, ◌>>◌, ok_or, map_err, Bytes, bytes_eq, codes, as_bytes, ok, err,
  panic, ℕ, ◌*◌, Bool, true, false, ◌||◌, Option, none,
}

pub record AppState : Type 0 where
  pub upstream : UpstreamClient
  pub signing : SigningState
  pub attestation : AttestationState
  pub confidential : ConfidentialConfig

-- The steps of the start that can fail, in their order.
pub data BootError : Type 0 where
  dstack_get_key hex_decode_key derive_signing_key bootstrap_attestation : BootError
  upstream_client : BootError

module _ (c : Crypto) (d : Dstack) where
  -- `decode_to_slice` into a buffer of half the text's length decodes the whole text.
  unfoldable pub bootstrap_tdx_identity :
      Config → Result (SigningState × AttestationState) BootError
  bootstrap_tdx_identity config = do
    key_hex ← ok_or dstack_get_key (d.get_key config.key_path config.key_purpose)
    key_bytes ← ok_or hex_decode_key (c.hex_decode key_hex)
    signing ← map_err (λ e. derive_signing_key) (from_dstack_bytes c key_bytes config.chain_id)
    attestation ←
        map_err (λ e. bootstrap_attestation)
          (bootstrap c d (pubkey_bytes c signing) config.allow_empty_compose_hash)
    ok (signing, attestation)

unfoldable pub confidential_config : Config → ConfidentialConfig
confidential_config config = record {
  max_request_bytes = config.confidential_max_body_bytes;
  max_response_bytes = config.confidential_max_response_bytes;
  max_batch_size = config.confidential_max_batch_size;
  upstream_timeout_ms = config.confidential_upstream_timeout_secs * 1000;
}

module _ (c : Crypto) (d : Dstack) (h : Http) where
  -- `main` up to the router: the state that it serves.
  unfoldable pub boot : Config → Result AppState BootError
  boot config = do
    (signing, attestation) ← bootstrap_tdx_identity c d config
    upstream ←
        map_err (λ e. upstream_client) (new h (as_bytes config.upstream_url) config.max_body_bytes)
    ok (record {
      upstream = upstream;
      signing = signing;
      attestation = attestation;
      confidential = confidential_config config;
    })

-- `FAIL_FAST_DEADLINE`, in seconds
abbrev pub fail_fast_deadline : ℕ
fail_fast_deadline = 5

-- How the process ends: with a code of `std::process::exit` after so many seconds, with an error
-- of `main`, or after its shutdown was drained. `main` has no panic of its own.
pub data Exit : Type 0 where
  exit_after : ℕ → ℕ → Exit
  bind_failed serve_failed panicked : Exit
  shutdown_complete : Exit

-- `main` behind the start: whether the listener binds, and whether serving ends without an error.
unfoldable pub exit_of : Bool → Bool → Result AppState BootError → Exit
exit_of binds serves (err e) = exit_after fail_fast_deadline 2
exit_of binds serves panic = panicked
exit_of true true (ok st) = shutdown_complete
exit_of true false (ok st) = serve_failed
exit_of false serves (ok st) = bind_failed

-- The handlers that `build_router` mounts, and the layers on them.
pub data Handler : Type 0 where
  confidential_handler confidential_method_not_allowed : Handler
  attestation_handler info_handler proxy_handler : Handler
  axum_method_not_allowed : Handler

-- `get(handler)`: GET and HEAD; axum answers another method itself with 405.
abbrev pub get_route : Handler → Bytes → Handler
get_route handler method =
    if bytes_eq method (codes "GET") || bytes_eq method (codes "HEAD")
    then handler
    else axum_method_not_allowed

-- The handler for a method and a path.
unfoldable pub route : Bytes → Bytes → Handler
route method path =
    if bytes_eq path (codes "/confidential")
    then (if bytes_eq method (codes "POST")
        then confidential_handler
        else confidential_method_not_allowed)
    else if bytes_eq path (codes "/attestation")
    then get_route attestation_handler method
    else if bytes_eq path (codes "/info")
    then get_route info_handler method
    else proxy_handler

-- Whether `CompressionLayer` wraps the handler's response: the passthrough router only.
unfoldable pub is_compressed : Handler → Bool
is_compressed confidential_handler = false
is_compressed confidential_method_not_allowed = false
is_compressed _ = true

-- The limit of `DefaultBodyLimit` on a passthrough route.
unfoldable pub body_limit : Option ℕ → Handler → Option ℕ
body_limit max_body_bytes handler = if is_compressed handler then max_body_bytes else none
