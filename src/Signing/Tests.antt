-- ===== src/Signing/Tests.antt =====
-- The theorems about src/signing.rs at concrete inputs, and runs of its functions.
use verifiable_rpc_sidecar.Crates.Samples.PlainCrypto.{plain_crypto, plain_crypto-laws}
use verifiable_rpc_sidecar.Util.{prefixed_hex}
use verifiable_rpc_sidecar.Envelope.{public_key}
use verifiable_rpc_sidecar.Prelude.{
  length, drop, replicate, Bytes, zeros, le_bytes, Text, codes, is_ascii_graphic, as_bytes, trim,
  ok, err, ℕ, ◌≡◌, refl, ◌↔◌, true, [], ◌∷◌, ◌++◌, arith,
}
use verifiable_rpc_sidecar.Signing.{
  chain_id_bad_char, key_length, SigningState, SignedResponse, after_epoch, validate_chain_id,
  clamp, derive_kem_secret, check_kem_key, from_seed_ref, from_dstack_bytes, pubkey_bytes, sign,
}
use verifiable_rpc_sidecar.Signing.PreImage.{layout, build_pre_image_injective}
use verifiable_rpc_sidecar.Signing.ChainId.{IsChainId, validate_chain_id_iff}
use verifiable_rpc_sidecar.Signing.Keys.{IsStateOf, from_dstack_bytes_iff, IsStateOf-IsConsistent}
use verifiable_rpc_sidecar.Signing.Verify.{IsConsistent, client_verifies, sign_verifies}

abbrev pub h1 : Bytes
h1 = replicate 32 1

abbrev h2 : Bytes
h2 = replicate 32 2

abbrev h3 : Bytes
h3 = replicate 32 3

pre_image_end : drop 96 (layout h1 h2 h3 700) ≡ 188 ∷ 2 ∷ 0 ∷ 0 ∷ 0 ∷ 0 ∷ 0 ∷ 0 ∷ []
unfolding le_bytes
pre_image_end = refl

build_pre_image_injective_example : (h1 ≡ h1) × (h2 ≡ h2) × (h3 ≡ h3) × (◌≡◌ {A = ℕ} 700 700)
build_pre_image_injective_example =
    build_pre_image_injective h1 h1 h2 h2 h3 h3 700 700 refl refl refl refl refl refl (omega arith)
      (omega arith) refl

padded_id : validate_chain_id (codes " -239") ≡ ok (codes "-239")
unfolding validate_chain_id trim is_ascii_graphic as_bytes
padded_id = refl

spaced_id : validate_chain_id (codes "4 2") ≡ err (chain_id_bad_char 32)
unfolding validate_chain_id trim is_ascii_graphic as_bytes
spaced_id = refl

validate_chain_id_iff_example :
    (validate_chain_id (codes " -239") ≡ ok (codes "-239"))
    ↔ ((codes "-239" ≡ trim (codes " -239")) × IsChainId (codes "-239"))
validate_chain_id_iff_example = validate_chain_id_iff (codes " -239") (codes "-239")

abbrev pub chain : Text
chain = codes "1"

abbrev pub st : SigningState
st = record {
  signing_key = h1;
  kem_secret = 0xf8 ∷ (replicate 30 0xff ++ 0x7f ∷ []);
  chain_id = chain;
  chain_id_hash = 49 ∷ zeros 31;
  pubkey_hex = prefixed_hex plain_crypto h1;
}

pub booted : from_dstack_bytes plain_crypto h1 chain ≡ ok st
unfolding from_dstack_bytes from_seed_ref check_kem_key derive_kem_secret clamp public_key as_bytes
booted = refl

too_long : from_dstack_bytes plain_crypto (replicate 33 1) chain ≡ err (key_length 33)
unfolding from_dstack_bytes
too_long = refl

from_dstack_bytes_iff_example :
    (from_dstack_bytes plain_crypto h1 chain ≡ ok st) ↔ IsStateOf plain_crypto h1 chain st
from_dstack_bytes_iff_example = from_dstack_bytes_iff plain_crypto h1 chain st

pub st-IsConsistent : IsConsistent plain_crypto st
st-IsConsistent =
    IsStateOf-IsConsistent plain_crypto h1 chain st
      ((from_dstack_bytes_iff plain_crypto h1 chain st).0 booted)

abbrev ping : Bytes
ping = codes "ping"

abbrev pong : Bytes
pong = codes "pong"

sign_verifies_example :
    (r : SignedResponse) × (sign plain_crypto st ping pong (after_epoch 700) ≡ ok r)
    × (r.timestamp_ms ≡ 700)
    × (r.pubkey ≡ pubkey_bytes plain_crypto st)
    × (r.pubkey_hex ≡ prefixed_hex plain_crypto r.pubkey)
    × (length r.signature ≡ 64)
    × (client_verifies plain_crypto chain ping pong r ≡ true)
sign_verifies_example =
    sign_verifies plain_crypto plain_crypto-laws st st-IsConsistent ping pong (after_epoch 700) 700
      (refl, omega arith)
