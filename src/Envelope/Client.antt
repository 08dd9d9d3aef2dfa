-- ===== src/Envelope/Client.antt =====
-- The client's half of the encapsulation, as README.md states it under "Formats": how a request is
-- encapsulated and how a response is opened. The sidecar's half reads and answers it.
use verifiable_rpc_sidecar.Crates.Crypto.{Crypto, CryptoLaws, aes_gcm_256}
use verifiable_rpc_sidecar.Prelude.{
  length, take, drop, length-append, take-append, drop-append, take-append_of_length,
  drop-append_of_length, Bytes, codes, ok, ◌-◌, ◌≡◌, refl, sym, Option, none, some, [], ◌++◌, arith,
}
use verifiable_rpc_sidecar.Envelope.{
  ResponseContext, confidential_suite, response_label, seal_response, open_request, seal,
}
use verifiable_rpc_sidecar.Envelope.Open.{Opens, info_string, Opens-open_request}
use verifiable_rpc_sidecar.Envelope.Seal.{IsSealable, open_request-IsSealable, seal-Sealed}

-- hdr ‖ enc ‖ ct for the key `pk`
abbrev pub client_request : Crypto → Bytes → Bytes → Bytes → Bytes
client_request c pk rnd plaintext =
    confidential_suite.hdr
    ++ (c.sender_enc aes_gcm_256 pk info_string rnd
        ++ c.sender_seal aes_gcm_256 pk info_string rnd plaintext)

abbrev pub client_secret : Crypto → Bytes → Bytes → Bytes
client_secret c pk rnd = c.sender_export aes_gcm_256 pk info_string rnd response_label 32

infixl 5 ◌>>=◌
abbrev ◌>>=◌ {ℓ κ} : {A : Type ℓ} {B : Type κ} → Option A → (A → Option B) → Option B
none >>= f = none
some a >>= f = f a

-- nonce ‖ ct ‖ tag, opened with the exported secret
abbrev pub client_open : Crypto → Bytes → Bytes → Bytes → Option Bytes
client_open c enc secret body = do
  let response_nonce = take 32 body
  let rest = drop 32 body
  key ← c.hkdf_expand (enc ++ response_nonce) secret (codes "key") 32
  nonce ← c.hkdf_expand (enc ++ response_nonce) secret (codes "nonce") 12
  cipher ← c.cipher_from_slice aes_gcm_256 key
  nonce ← c.nonce_from_slice aes_gcm_256 nonce
  c.decrypt_detached cipher nonce [] (take (length rest - 16) rest) (drop (length rest - 16) rest)

module _ (c : Crypto) (laws : CryptoLaws c) where
  -- What `seal` produces, the client opens.
  pub client_open-seal :
      (ctx : ResponseContext) (response_nonce plaintext out : Bytes)
      → IsSealable c ctx
      → length response_nonce ≡ 32
      → seal ctx response_nonce plaintext ≡ ok out
      → client_open c ctx.enc ctx.secret out ≡ some plaintext
  client_open-seal ctx response_nonce plaintext out s n h =
      let p = seal-Sealed c laws ctx s response_nonce plaintext n h in
      let lens =
        laws.length-encrypt_detached p.cipher p.gcm_nonce [] plaintext p.ct p.tag p.encrypted in
      let cut : length (p.ct ++ p.tag) - 16 ≡ length p.ct =
        omega (arith, length-append p.ct p.tag) in
      rw
        (
          p.out_eq,
          take-append_of_length response_nonce (p.ct ++ p.tag) 32 n,
          drop-append_of_length response_nonce (p.ct ++ p.tag) 32 n,
          p.key_eq,
          p.nonce_eq,
          p.cipher_eq,
          p.gcm_nonce_eq,
          cut,
          take-append p.ct p.tag,
          drop-append p.ct p.tag,
        )
        (laws.decrypt-encrypt p.cipher p.gcm_nonce [] plaintext p.ct p.tag p.encrypted)

  module _ (sk_r rnd plaintext : Bytes) (sk : c.PrivateKey)
      (sk_eq : c.private_key_from_bytes sk_r ≡ some sk) where
    abbrev pub pk : Bytes
    pk = c.sk_to_pk sk

    abbrev pub request_context : ResponseContext
    request_context = record {
      enc = c.sender_enc aes_gcm_256 pk info_string rnd;
      secret = client_secret c pk rnd;
      secret_len = 32;
      seal = seal_response c confidential_suite;
    }

    enc_part : take 32 (drop 7 (client_request c pk rnd plaintext)) ≡ request_context.enc
    enc_part = take-append_of_length _ _ 32 (laws.length-sender_enc _ _ _ _)

    ct_part :
        drop 32 (drop 7 (client_request c pk rnd plaintext))
        ≡ c.sender_seal aes_gcm_256 pk info_string rnd plaintext
    ct_part = drop-append_of_length _ _ 32 (laws.length-sender_enc _ _ _ _)

    pub request-Opens : Opens c sk_r (client_request c pk rnd plaintext) plaintext request_context
    request-Opens =
        let (e, x, enc_eq, receiver_eq, opens, exports) =
          laws.receiver-opens aes_gcm_256 sk info_string rnd in
        record {
          is_long = omega (
            arith,
            length-append (c.sender_enc aes_gcm_256 pk info_string rnd)
                (c.sender_seal aes_gcm_256 pk info_string rnd plaintext),
            laws.length-sender_enc aes_gcm_256 pk info_string rnd,
            laws.length-sender_seal aes_gcm_256 pk info_string rnd plaintext,
          );
          hdr = refl;
          sk = sk;
          enc = e;
          receiver = x;
          sk_eq = sk_eq;
          enc_eq = rw enc_part enc_eq;
          receiver_eq = receiver_eq;
          exported = exports response_label 32;
          opened = rw ct_part (opens plaintext);
          ctx_enc = sym enc_part;
          ctx_secret_len = refl;
          ctx_seal = refl;
        }

    -- The sidecar opens a request that a client encapsulated to its key to the client's plaintext,
    -- in a context whose answers the client opens: what it seals under a 32-byte nonce, the client
    -- opens with its own secret.
    pub exchange_roundtrip :
        (response_nonce answer out : Bytes)
        → length response_nonce ≡ 32
        → seal request_context response_nonce answer ≡ ok out
        → (open_request c sk_r (client_request c pk rnd plaintext)
            ≡ ok (plaintext, request_context))
          × (client_open c
                (c.sender_enc aes_gcm_256 pk info_string rnd)
                (client_secret c pk rnd)
                out
              ≡ some answer)
    exchange_roundtrip response_nonce answer out n sealed =
        let opened = Opens-open_request c sk_r _ plaintext request_context request-Opens in
        (
          opened,
          client_open-seal request_context response_nonce answer out
              (open_request-IsSealable c laws sk_r _ opened) n sealed,
        )
