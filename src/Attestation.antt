-- ===== src/Attestation.antt =====
-- src/attestation.rs: the quote that binds the key to a nonce of the caller.
pub mod Nonce
pub mod Quote
pub mod Tests
mod UnitTests
use verifiable_rpc_sidecar.Crates.Crypto.{Crypto}
use verifiable_rpc_sidecar.Crates.Dstack.{Dstack, GetQuoteResponse, InfoResponse}
use verifiable_rpc_sidecar.Crates.Http.{Response}
use verifiable_rpc_sidecar.Util.{prefixed_hex}
use verifiable_rpc_sidecar.Prelude.{
  ◌==◌, if◌then◌else◌, length, Result, ◌>>=◌, ◌>>◌, ok_or, map_err, Bytes, zeros, copy_into, Text,
  codes, trim, ok, err, ℕ, Bool, true, false, not, ◌&&◌, Option, [], ◌∷◌,
}

abbrev pub report_data_len : ℕ
report_data_len = 64

abbrev pub report_data_pubkey_offset : ℕ
report_data_pubkey_offset = 0

abbrev pub report_data_nonce_offset : ℕ
report_data_nonce_offset = 32

-- The `anyhow` errors of the file, one constructor for each message.
pub data AttestationError : Type 0 where
  dstack_info serialise_info no_compose_hash dstack_get_quote : AttestationError
  missing_nonce nonce_not_hex : AttestationError
  nonce_length : ℕ → AttestationError

-- `AttestationInner`; the agent is the parameter `Dstack`.
pub record AttestationState : Type 0 where
  pub signing_pubkey : Bytes
  pub compose_hash : Text
  pub app_compose : Text
  pub info_json : Bytes

pub record AttestationResponse : Type 0 where
  pub quote : GetQuoteResponse
  pub pubkey : Text
  pub compose_hash : Text
  pub app_compose : Text

pub record AttestationQuery : Type 0 where
  pub nonce : Option Text

abbrev pub is_empty_text : Text → Bool
is_empty_text [] = true
is_empty_text (c ∷ cs) = false

unfoldable pub resolve_compose_hash : Text → Bool → Result Text AttestationError
resolve_compose_hash info_compose_hash allow_empty =
    if not (is_empty_text info_compose_hash)
    then ok info_compose_hash
    else if allow_empty
    then ok []
    else err no_compose_hash

unfoldable pub build_report_data : Bytes → Bytes → Result Bytes AttestationError
build_report_data signing_pubkey user_nonce = do
  let out = zeros report_data_len
  out ← copy_into out report_data_pubkey_offset report_data_nonce_offset signing_pubkey
  copy_into out report_data_nonce_offset report_data_len user_nonce

-- `trim_start_matches` of a two-letter pattern: it is dropped for as long as the text starts with
-- it.
abbrev pub trim_start_matches : ℕ → ℕ → Text → Text
trim_start_matches p q [] = []
trim_start_matches p q (a ∷ []) = a ∷ []
trim_start_matches p q (a ∷ b ∷ cs) =
    let rest = trim_start_matches p q cs in if a == p && b == q then rest else a ∷ b ∷ cs

module _ (c : Crypto) where
  unfoldable pub parse_user_nonce : Text → Result Bytes AttestationError
  parse_user_nonce s = do
    let trimmed = trim_start_matches b'0' b'X' (trim_start_matches b'0' b'x' (trim s))
    bytes ← ok_or nonce_not_hex (c.hex_decode trimmed)
    if length bytes == 32 then ok bytes else err (nonce_length (length bytes))

  unfoldable pub extract_nonce : AttestationQuery → Result Bytes AttestationError
  extract_nonce query = do raw ← ok_or missing_nonce query.nonce; parse_user_nonce raw

module _ (c : Crypto) (d : Dstack) where
  unfoldable pub bootstrap : Bytes → Bool → Result AttestationState AttestationError
  bootstrap signing_pubkey allow_empty_compose_hash = do
    info ← ok_or dstack_info d.info
    info_json ← ok_or serialise_info (d.info_to_json info)
    compose_hash ← resolve_compose_hash info.compose_hash allow_empty_compose_hash
    ok (record {
      signing_pubkey = signing_pubkey;
      compose_hash = compose_hash;
      app_compose = info.app_compose;
      info_json = info_json;
    })

  unfoldable pub get : AttestationState → Bytes → Result AttestationResponse AttestationError
  get st nonce = do
    report_data ← build_report_data st.signing_pubkey nonce
    quote ← ok_or dstack_get_quote (d.get_quote report_data)
    ok (record {
      quote = quote;
      pubkey = prefixed_hex c st.signing_pubkey;
      compose_hash = st.compose_hash;
      app_compose = st.app_compose;
    })

  -- The answer's status comes with an error.
  unfoldable pub attestation_handler :
      AttestationState → AttestationQuery → Result AttestationResponse (ℕ × AttestationError)
  attestation_handler st query = do
    nonce ← map_err (λ e. (400, e)) (extract_nonce c query)
    map_err (λ e. (502, e)) (get st nonce)

unfoldable pub info_handler : AttestationState → Response
info_handler st = record {
  status = 200;
  headers = (codes "content-type", codes "application/json") ∷ [];
  body = st.info_json;
}
