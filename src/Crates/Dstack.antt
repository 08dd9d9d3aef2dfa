-- ===== src/Crates/Dstack.antt =====
-- The crate `dstack-sdk`: the guest agent's answers, as src/attestation.rs and src/main.rs ask for
-- them.
use verifiable_rpc_sidecar.Prelude.{Option, Bytes, Text}

-- `GetQuoteResponse`
pub record GetQuoteResponse : Type 0 where
  pub quote : Text
  pub event_log : Text
  pub report_data : Text
  pub vm_config : Text

-- `InfoResponse`, with the fields that the program reads
pub record InfoResponse : Type 0 where
  pub compose_hash : Text
  pub app_compose : Text

-- `none` is a failed call.
pub record Dstack : Type 0 where
  -- `get_key(path, purpose)`: the key's hex text
  pub get_key : Text → Option Text → Option Text
  pub get_quote : Bytes → Option GetQuoteResponse
  pub info : Option InfoResponse
  -- `serde_json::to_vec(&info)`
  pub info_to_json : InfoResponse → Option Bytes
