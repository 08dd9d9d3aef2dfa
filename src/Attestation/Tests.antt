-- ===== src/Attestation/Tests.antt =====
-- The theorems about src/attestation.rs at concrete inputs.
use verifiable_rpc_sidecar.Crates.Samples.PlainCrypto.{plain_crypto}
use verifiable_rpc_sidecar.Crates.Dstack.{Dstack}
use verifiable_rpc_sidecar.Attestation.{
  AttestationState, AttestationQuery, parse_user_nonce, attestation_handler,
}
use verifiable_rpc_sidecar.Attestation.Nonce.{digits, parse_user_nonce_iff}
use verifiable_rpc_sidecar.Attestation.Quote.{Answered, attestation_handler-Answered}
use verifiable_rpc_sidecar.Prelude.{
  length, replicate, Bytes, Text, codes, trim, ok, ℕ, ◌≡◌, refl, ◌↔◌, none, some, [],
}

abbrev nonce_text : Text
nonce_text = codes " 0x0x0101010101010101010101010101010101010101010101010101010101010101"

parse_user_nonce_iff_example : (parse_user_nonce plain_crypto nonce_text ≡ ok (replicate 32 1)) ↔ (
    (plain_crypto.hex_decode (digits nonce_text) ≡ some (replicate 32 1))
    × (length {A = ℕ} (replicate 32 1) ≡ 32))
parse_user_nonce_iff_example = parse_user_nonce_iff plain_crypto nonce_text (replicate 32 1)

-- The prefix of this nonce is written twice, and the nonce is accepted.
twice_prefixed : parse_user_nonce plain_crypto nonce_text ≡ ok (replicate 32 1)
unfolding parse_user_nonce trim
twice_prefixed = refl

abbrev agent : Dstack
agent = record {
  get_key = λ path purpose. none;
  get_quote = λ data_bytes. none;
  info = none;
  info_to_json = λ i. none;
}

abbrev state : AttestationState
state = record {
  signing_pubkey = replicate 32 7;
  compose_hash = codes "c";
  app_compose = codes "{}";
  info_json = codes "{}";
}

abbrev query : AttestationQuery
query = record { nonce = some nonce_text }

attestation_handler-Answered_example :
    Answered plain_crypto agent state refl query
      (attestation_handler plain_crypto agent state query)
attestation_handler-Answered_example =
    attestation_handler-Answered plain_crypto agent state refl query

-- `AttestationState::for_test`
abbrev pub for_test : Bytes → AttestationState
for_test signing_pubkey = record {
  signing_pubkey = signing_pubkey;
  compose_hash = [];
  app_compose = [];
  info_json = codes "{}";
}
