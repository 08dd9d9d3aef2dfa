-- ===== src/Envelope/Tests.antt =====
-- The theorems about src/envelope.rs at concrete inputs.
use verifiable_rpc_sidecar.Crates.Samples.PlainCrypto.{plain_crypto, plain_crypto-laws}
use verifiable_rpc_sidecar.Envelope.Open.{hdr-fits}
use verifiable_rpc_sidecar.Prelude.{
  ltb, Bool-cases, length, take, replicate, Bytes, zeros, codes, ok, err, ◌≡◌, refl, ◌↔◌, inl, inr,
  some, [], ◌∷◌, ◌++◌,
}
use verifiable_rpc_sidecar.Crates.Crypto.{Crypto, aes_gcm_128}
use verifiable_rpc_sidecar.Envelope.{
  Suite, EnvelopeError, ResponseContext, open_request, open_suite, open_sealed, request_info,
  seal_response, seal_buf, seal_in_place, seal_with_nonce, seal, wipe_on_error,
}
use verifiable_rpc_sidecar.Envelope.Open.{Opens, open_request_iff}
use verifiable_rpc_sidecar.Envelope.Seal.{
  IsSealable, open_request-IsSealable, sealed_response, seal-sealed_response,
}
use verifiable_rpc_sidecar.Envelope.Client.{client_request, client_open, exchange_roundtrip}

abbrev sk_r : Bytes
sk_r = replicate 32 5

abbrev hello : Bytes
hello = codes "hello"

abbrev body : Bytes
body = client_request plain_crypto sk_r [] hello

abbrev ctx : ResponseContext
ctx = record {
  enc = zeros 32;
  secret = zeros 32;
  secret_len = 32;
  seal = seal_response plain_crypto verifiable_rpc_sidecar.Envelope.confidential_suite;
}

opened : open_request plain_crypto sk_r body ≡ ok (hello, ctx)
unfolding open_request open_suite open_sealed request_info
opened = refl

short_is_refused :
    open_request plain_crypto sk_r (take 54 body)
    ≡ err verifiable_rpc_sidecar.Envelope.envelope_error
unfolding open_request open_suite open_sealed
short_is_refused = refl

open_request_iff_example :
    (open_request plain_crypto sk_r body ≡ ok (hello, ctx)) ↔ Opens plain_crypto sk_r body hello ctx
open_request_iff_example = open_request_iff plain_crypto sk_r body hello ctx

ctx-IsSealable : IsSealable plain_crypto ctx
ctx-IsSealable = open_request-IsSealable plain_crypto plain_crypto-laws sk_r body opened

abbrev nonce : Bytes
nonce = replicate 32 9

abbrev answer : Bytes
answer = nonce ++ (hello ++ replicate 16 1)

sealed : seal ctx nonce hello ≡ ok answer
unfolding seal seal_with_nonce seal_in_place seal_buf seal_response
sealed = refl

seal-sealed_response_example :
    seal ctx nonce hello ≡ sealed_response plain_crypto (zeros 32) (zeros 32) nonce hello
seal-sealed_response_example =
    seal-sealed_response plain_crypto plain_crypto-laws ctx ctx-IsSealable nonce hello refl

exchange_roundtrip_example :
    (open_request plain_crypto sk_r body ≡ ok (hello, ctx))
    × (client_open plain_crypto (zeros 32) (zeros 32) answer ≡ some hello)
exchange_roundtrip_example =
    exchange_roundtrip plain_crypto plain_crypto-laws sk_r [] hello sk_r refl nonce hello answer
      refl sealed

-- `RfcAppendixA`
abbrev rfc_appendix_a : Suite
rfc_appendix_a = record {
  hpke_aead = aes_gcm_128;
  gcm = aes_gcm_128;
  hdr = 0x01 ∷ 0x00 ∷ 0x20 ∷ 0x00 ∷ 0x01 ∷ 0x00 ∷ 0x01 ∷ [];
  secret_len = 16;
}

-- A request under that suite's header is none of the sidecar's, with any crypto.
rfc_request_is_refused :
    (c : Crypto) (sk rest : Bytes)
    → open_request c sk (rfc_appendix_a.hdr ++ rest)
      ≡ err verifiable_rpc_sidecar.Envelope.envelope_error
unfolding open_request open_suite open_sealed
rfc_request_is_refused c sk rest =
    elim (Bool-cases (ltb (length (rfc_appendix_a.hdr ++ rest)) 55)) [
      | inl e ↦ rw e refl
      | inr e ↦ rw (e, hdr-fits _ e) refl
    ]
