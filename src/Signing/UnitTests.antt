-- ===== src/Signing/UnitTests.antt =====
-- The unit tests of src/signing.rs that need no test vector, as functions, run with crypto that
-- computes.
use Prim.Native.Nat.{bit_xor}
use verifiable_rpc_sidecar.Crates.Crypto.{Crypto}
use verifiable_rpc_sidecar.Crates.Samples.PlainCrypto.{plain_crypto}
use verifiable_rpc_sidecar.Envelope.{public_key}
use verifiable_rpc_sidecar.Util.{prefixed_hex}
use verifiable_rpc_sidecar.Signing.{
  SigningError, SigningState, SignedResponse, Reading, after_epoch, validate_chain_id,
  build_pre_image, modify, clamp, derive_kem_secret, check_kem_key, from_seed_ref, from_seed,
  from_dstack_bytes, pubkey_bytes, sign, sign_with_timestamp, signature_hex, now_ms,
}
use verifiable_rpc_sidecar.Prelude.{
  ltb, leb, ◌==◌, length, take, drop, replicate, any, Result, ◌>>=◌, Bytes, bytes_eq, starts_with,
  zeros, le_bytes, Text, codes, is_whitespace, is_ascii_graphic, encode_utf8, as_bytes, trim, ok,
  err, panic, ℕ, ◌+◌, ◌≡◌, refl, Bool, true, false, not, ◌&&◌, ◌||◌, [], ◌∷◌, ◌++◌,
}

-- Whether a run succeeds with a test: an `unwrap`, and an assertion on what it gives.
abbrev passes {ℓ} : {A : Type ℓ} → (A → Bool) → Result A SigningError → Bool
passes test (ok a) = test a
passes test (err e) = false
passes test panic = false

abbrev is_err {ℓ} : {A : Type ℓ} → Result A SigningError → Bool
is_err (err e) = true
is_err _ = false

abbrev all_are : ℕ → Bytes → Bool
all_are b bs = not (any (λ x. not (x == b)) bs)

-- `TEST_SEED`
abbrev test_seed : Bytes
test_seed =
    0x11 ∷ 0x22 ∷ 0x33 ∷ 0x44 ∷ 0x55 ∷ 0x66 ∷ 0x77 ∷ 0x88 ∷ 0x99 ∷ 0xaa ∷ 0xbb ∷ 0xcc ∷ 0xdd ∷ 0xee
    ∷ 0xff ∷ 0x00 ∷ 0x0f ∷ 0x1e ∷ 0x2d ∷ 0x3c ∷ 0x4b ∷ 0x5a ∷ 0x69 ∷ 0x78 ∷ 0x87 ∷ 0x96 ∷ 0xa5
    ∷ 0xb4 ∷ 0xc3 ∷ 0xd2 ∷ 0xe1 ∷ 0xf0 ∷ []

abbrev pre_image_layout_is_byte_exact : Bool
pre_image_layout_is_byte_exact =
    passes
      (λ pre.
        length pre == 104
        && all_are 0xcc (take 32 pre)
        && all_are 0xaa (take 32 (drop 32 pre))
        && all_are 0xbb (take 32 (drop 64 pre))
        && bytes_eq (drop 96 pre) (0x22 ∷ 0x33 ∷ 0x44 ∷ 0x55 ∷ 0x66 ∷ 0x77 ∷ 0x88 ∷ 0x99 ∷ []))
      (build_pre_image (replicate 32 0xcc) (replicate 32 0xaa) (replicate 32 0xbb)
        0x9988776655443322)

abbrev block_number : Bytes
block_number = codes "{\"jsonrpc\":\"2.0\",\"method\":\"eth_blockNumber\",\"params\":[],\"id\":1}"

abbrev block_result : Bytes
block_result = codes "{\"jsonrpc\":\"2.0\",\"result\":\"0x12345\",\"id\":1}"

abbrev batch_request : Bytes
batch_request =
    codes
      "[{\"jsonrpc\":\"2.0\",\"method\":\"a\",\"id\":1},{\"jsonrpc\":\"2.0\",\"method\":\"b\",\"id\":2}]"

abbrev batch_result : Bytes
batch_result =
    codes
      "[{\"jsonrpc\":\"2.0\",\"result\":1,\"id\":1},{\"jsonrpc\":\"2.0\",\"result\":2,\"id\":2}]"

module _ (c : Crypto) where
  -- The state of `TEST_SEED` and a chain id.
  abbrev seeded : Text → Result SigningState SigningError
  seeded chain_id = (from_seed c test_seed chain_id).0

  -- Whether what is signed verifies against the pre-image of a chain id and a response.
  abbrev verifies : Text → Bytes → Bytes → ℕ → Text → Bytes → Result Bool SigningError
  verifies chain_id req resp ts expected_chain expected_resp = do
    state ← seeded chain_id
    signed ← sign_with_timestamp c state req resp ts
    pre ← build_pre_image (c.sha256 expected_chain) (c.sha256 req) (c.sha256 expected_resp) ts
    ok (c.ed25519_verify signed.pubkey pre signed.signature)

  abbrev sign_verify_roundtrip_passes_for_intact_body : Bool
  sign_verify_roundtrip_passes_for_intact_body =
      passes (λ b. b)
        (verifies (codes "1") block_number block_result 1700000000000 (codes "1") block_result)

  abbrev sign_verify_fails_when_response_body_is_tampered : Bool
  sign_verify_fails_when_response_body_is_tampered = passes not (
      verifies (codes "1") (codes "req") (codes "resp") 42 (codes "1")
        (modify 0 (λ b. bit_xor b 1) (codes "resp")))

  abbrev sign_with_caip2_style_chain_id_verifies : Bool
  sign_with_caip2_style_chain_id_verifies =
      passes (λ b. b)
        (verifies (codes "-239") block_number block_result 1700000000000 (codes "-239")
          block_result)

  abbrev distinct_chain_ids_never_cross_verify : Bool
  distinct_chain_ids_never_cross_verify = passes not (
      verifies (codes "137") (codes "req") (codes "resp") 1700000000000 (codes "0x89")
        (codes "resp"))

  abbrev sign_treats_batch_and_single_uniformly : Bool
  sign_treats_batch_and_single_uniformly =
      passes (λ b. b)
        (verifies (codes "137") batch_request batch_result 99 (codes "137") batch_result)

  abbrev is_lower_hex : ℕ → Bool
  is_lower_hex d = (leb b'0' d && leb d b'9') || (leb b'a' d && leb d b'f')

  abbrev pubkey_hex_is_0x_prefixed_lowercase_64_chars : Bool
  pubkey_hex_is_0x_prefixed_lowercase_64_chars =
      passes
        (λ state.
          starts_with (codes "0x") state.pubkey_hex
          && length state.pubkey_hex == 2 + 64
          && not (any (λ d. not (is_lower_hex d)) (drop 2 state.pubkey_hex)))
        (seeded (codes "1"))

  abbrev pubkey_hex_is_cached_and_matches_pubkey_bytes : Bool
  pubkey_hex_is_cached_and_matches_pubkey_bytes =
      passes
        (λ state. bytes_eq state.pubkey_hex (codes "0x" ++ c.hex_encode (pubkey_bytes c state)))
        (seeded (codes "1"))

  -- The test's state, and what it signs for `req` and `resp`.
  abbrev signed_once : Result (SigningState × SignedResponse) SigningError
  signed_once = do
    state ← seeded (codes "1")
    signed ← sign_with_timestamp c state (codes "req") (codes "resp") 1
    ok (state, signed)

  abbrev signed_response_carries_cached_pubkey_hex : Bool
  signed_response_carries_cached_pubkey_hex =
      passes (λ p. bytes_eq p.1.pubkey_hex p.0.pubkey_hex) signed_once

  abbrev signature_hex_is_0x_prefixed_64_byte_hex : Bool
  signature_hex_is_0x_prefixed_64_byte_hex =
      passes
        (λ p.
          starts_with (codes "0x") (signature_hex c p.1) && length (signature_hex c p.1) == 2 + 128)
        signed_once

  abbrev from_dstack_bytes_accepts_exact_32_bytes : Bool
  from_dstack_bytes_accepts_exact_32_bytes =
      passes (λ s. length (pubkey_bytes c s) == 32) (from_dstack_bytes c test_seed (codes "1"))

  abbrev from_dstack_bytes_rejects_non_32_byte_input : Bool
  from_dstack_bytes_rejects_non_32_byte_input =
      is_err (from_dstack_bytes c (test_seed ++ replicate 16 0xcc) (codes "1"))
      && is_err (from_dstack_bytes c (take 31 test_seed) (codes "1"))

  abbrev from_dstack_bytes_rejects_short_input : Bool
  from_dstack_bytes_rejects_short_input = is_err (from_dstack_bytes c (zeros 16) (codes "1"))

  abbrev now_ms_returns_plausible_unix_millis : Reading → Bool
  now_ms_returns_plausible_unix_millis clock = passes (λ ts. ltb 1577836800000 ts) (now_ms clock)

  abbrev sign_returns_ok_when_clock_is_usable : Reading → Bool
  sign_returns_ok_when_clock_is_usable clock =
      passes (λ signed. length signed.signature == 64)
        (seeded (codes "1") >>= λ state. sign c state (codes "req") (codes "resp") clock)

  abbrev mismatched_kem_key_is_rejected : Bool
  mismatched_kem_key_is_rejected =
      passes (λ u. true)
        (check_kem_key c (derive_kem_secret c test_seed) (c.to_montgomery test_seed))
      && is_err (
          check_kem_key c (derive_kem_secret c test_seed)
            (modify 0 (λ b. bit_xor b 1) (c.to_montgomery test_seed)))

abbrev stellar : Text
stellar = codes "7ac33997544e3175d266bd022439b22cdb16508c01163f26e5cb2a3e1045a979"

abbrev is_validated : Text → Text → Bool
is_validated s expected = passes (λ t. bytes_eq t expected) (validate_chain_id s)

abbrev validate_chain_id_accepts_valid_ids : Bool
validate_chain_id_accepts_valid_ids =
    is_validated (codes "42161") (codes "42161")
    && is_validated (codes "0x89") (codes "0x89")
    && is_validated (codes "-239") (codes "-239")
    && is_validated stellar stellar
    && is_validated (codes " 137 ") (codes "137")
    && is_validated (replicate 64 b'x') (replicate 64 b'x')

abbrev validate_chain_id_rejects_invalid_ids : Bool
validate_chain_id_rejects_invalid_ids =
    is_err (validate_chain_id [])
    && is_err (validate_chain_id (codes " "))
    && is_err (validate_chain_id (codes "a b"))
    && is_err (validate_chain_id (b'a' ∷ 9 ∷ b'b' ∷ []))
    && is_err (validate_chain_id (replicate 65 b'x'))
    && is_err (validate_chain_id (b'c' ∷ 0xe9 ∷ codes "pas"))
    && is_err (validate_chain_id (b'a' ∷ 0x7f ∷ b'b' ∷ []))

layout_test : pre_image_layout_is_byte_exact ≡ true
unfolding build_pre_image le_bytes
layout_test = refl

verification_tests :
    (sign_verify_roundtrip_passes_for_intact_body plain_crypto ≡ true)
    × (sign_verify_fails_when_response_body_is_tampered plain_crypto ≡ true)
    × (sign_with_caip2_style_chain_id_verifies plain_crypto ≡ true)
    × (distinct_chain_ids_never_cross_verify plain_crypto ≡ true)
    × (sign_treats_batch_and_single_uniformly plain_crypto ≡ true)
unfolding from_seed from_seed_ref from_dstack_bytes check_kem_key derive_kem_secret clamp public_key
    as_bytes encode_utf8 sign sign_with_timestamp build_pre_image le_bytes pubkey_bytes
    signature_hex prefixed_hex now_ms
verification_tests = (refl, refl, refl, refl, refl)

hex_tests :
    (pubkey_hex_is_0x_prefixed_lowercase_64_chars plain_crypto ≡ true)
    × (pubkey_hex_is_cached_and_matches_pubkey_bytes plain_crypto ≡ true)
    × (signed_response_carries_cached_pubkey_hex plain_crypto ≡ true)
    × (signature_hex_is_0x_prefixed_64_byte_hex plain_crypto ≡ true)
unfolding from_seed from_seed_ref from_dstack_bytes check_kem_key derive_kem_secret clamp public_key
    as_bytes encode_utf8 sign sign_with_timestamp build_pre_image le_bytes pubkey_bytes
    signature_hex prefixed_hex now_ms
hex_tests = (refl, refl, refl, refl)

key_tests :
    (from_dstack_bytes_accepts_exact_32_bytes plain_crypto ≡ true)
    × (from_dstack_bytes_rejects_non_32_byte_input plain_crypto ≡ true)
    × (from_dstack_bytes_rejects_short_input plain_crypto ≡ true)
    × (mismatched_kem_key_is_rejected plain_crypto ≡ true)
unfolding from_seed from_seed_ref from_dstack_bytes check_kem_key derive_kem_secret clamp public_key
    as_bytes encode_utf8 sign sign_with_timestamp build_pre_image le_bytes pubkey_bytes
    signature_hex prefixed_hex now_ms
key_tests = (refl, refl, refl, refl)

clock_tests :
    (now_ms_returns_plausible_unix_millis plain_crypto (after_epoch 1700000000000) ≡ true)
    × (sign_returns_ok_when_clock_is_usable plain_crypto (after_epoch 1700000000000) ≡ true)
unfolding from_seed from_seed_ref from_dstack_bytes check_kem_key derive_kem_secret clamp public_key
    as_bytes encode_utf8 sign sign_with_timestamp build_pre_image le_bytes pubkey_bytes
    signature_hex prefixed_hex now_ms
clock_tests = (refl, refl)

chain_id_tests :
    (validate_chain_id_accepts_valid_ids ≡ true) × (validate_chain_id_rejects_invalid_ids ≡ true)
unfolding validate_chain_id trim is_ascii_graphic as_bytes encode_utf8 is_whitespace
chain_id_tests = (refl, refl)
