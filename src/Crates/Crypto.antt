-- ===== src/Crates/Crypto.antt =====
-- The crates `sha2`, `ed25519-dalek`, `hpke`, `hkdf`, `aes-gcm` and `hex`, as src/signing.rs,
-- src/envelope.rs, src/util.rs and src/attestation.rs call them.
use verifiable_rpc_sidecar.Prelude.{
  length, All, Bytes, AreBytes, Text, ℕ, ◌+◌, ◌*◌, ◌<◌, ◌≡◌, Bool, true, Option, some, [],
}

-- The two AEADs that a suite can name.
pub data Aead : Type 0 where
  aes_gcm_128 aes_gcm_256 : Aead

-- `none` is the crate's error. Keys, signatures and hashes are byte strings.
pub record Crypto : Type 1 where
  pub sha256 : Bytes → Bytes
  -- ed25519-dalek: a `SigningKey` is its 32-byte seed
  pub verifying_key : Bytes → Bytes
  pub ed25519_sign : Bytes → Bytes → Bytes
  pub ed25519_verify : Bytes → Bytes → Bytes → Bool
  pub to_scalar_bytes : Bytes → Bytes
  pub to_montgomery : Bytes → Bytes
  -- hpke, DHKEM(X25519, HKDF-SHA256) with HKDF-SHA256, base mode
  pub PrivateKey : Type 0
  pub EncappedKey : Type 0
  pub ReceiverContext : Type 0
  pub private_key_from_bytes : Bytes → Option PrivateKey
  pub sk_to_pk : PrivateKey → Bytes
  pub encapped_key_from_bytes : Bytes → Option EncappedKey
  pub setup_receiver : Aead → PrivateKey → EncappedKey → Bytes → Option ReceiverContext
  pub context_export : ReceiverContext → Bytes → ℕ → Option Bytes
  pub context_open : ReceiverContext → Bytes → Bytes → Option Bytes
  -- the sender's side: key of the receiver, info, randomness; then the plaintext, or a label
  pub sender_enc : Aead → Bytes → Bytes → Bytes → Bytes
  pub sender_seal : Aead → Bytes → Bytes → Bytes → Bytes → Bytes
  pub sender_export : Aead → Bytes → Bytes → Bytes → Bytes → ℕ → Bytes
  -- hkdf over SHA-256: salt, input key, label, length
  pub hkdf_expand : Bytes → Bytes → Bytes → ℕ → Option Bytes
  -- aes-gcm
  pub Cipher : Type 0
  pub key_size : Aead → ℕ
  pub cipher_from_slice : Aead → Bytes → Option Cipher
  pub nonce_from_slice : Aead → Bytes → Option Bytes
  pub encrypt_detached : Cipher → Bytes → Bytes → Bytes → Option (Bytes × Bytes)
  pub decrypt_detached : Cipher → Bytes → Bytes → Bytes → Bytes → Option Bytes
  -- hex; text is its scalar values
  pub hex_encode : Bytes → Text
  pub hex_decode : Text → Option Bytes

-- What the crates document: lengths, that signatures verify, and that hex reads back.
pub record CryptoLaws (c : Crypto) : Type 0 where
  pub length-sha256 : (m : Bytes) → length (c.sha256 m) ≡ 32
  pub length-verifying_key : (seed : Bytes) → length (c.verifying_key seed) ≡ 32
  pub length-ed25519_sign : (seed m : Bytes) → length (c.ed25519_sign seed m) ≡ 64
  pub verify-sign :
      (seed m : Bytes) → c.ed25519_verify (c.verifying_key seed) m (c.ed25519_sign seed m) ≡ true
  pub verifying_key-AreBytes : (seed : Bytes) → AreBytes (c.verifying_key seed)
  pub ed25519_sign-AreBytes : (seed m : Bytes) → AreBytes (c.ed25519_sign seed m)
  pub length-to_scalar_bytes : (seed : Bytes) → length (c.to_scalar_bytes seed) ≡ 32
  pub to_scalar_bytes-AreBytes : (seed : Bytes) → AreBytes (c.to_scalar_bytes seed)
  pub length-context_export :
      (x : c.ReceiverContext) (label : Bytes) (n : ℕ) (out : Bytes)
      → c.context_export x label n ≡ some out
      → length out ≡ n
  pub length-hkdf_expand :
      (salt ikm label : Bytes) (n : ℕ) (out : Bytes)
      → c.hkdf_expand salt ikm label n ≡ some out
      → length out ≡ n
  -- counter mode keeps the length, and the tag is 16 bytes
  pub length-encrypt_detached :
      (k : c.Cipher) (nonce aad m ct tag : Bytes)
      → c.encrypt_detached k nonce aad m ≡ some (ct, tag)
      → (length ct ≡ length m) × (length tag ≡ 16)
  -- a sealed message opens at the receiver, who exports the sender's secrets (RFC 9180)
  pub length-sender_enc :
      (a : Aead) (pk info rnd : Bytes) → length (c.sender_enc a pk info rnd) ≡ 32
  pub length-sender_seal :
      (a : Aead) (pk info rnd m : Bytes) → length (c.sender_seal a pk info rnd m) ≡ length m + 16
  pub length-sender_export :
      (a : Aead) (pk info rnd label : Bytes) (n : ℕ)
      → length (c.sender_export a pk info rnd label n) ≡ n
  pub receiver-opens :
      (a : Aead) (sk : c.PrivateKey) (info rnd : Bytes)
      → (e : c.EncappedKey) × (x : c.ReceiverContext) × (c.encapped_key_from_bytes
            (c.sender_enc a (c.sk_to_pk sk) info rnd)
          ≡ some e)
        × (c.setup_receiver a sk e info ≡ some x)
        × ((m : Bytes) → c.context_open x (c.sender_seal a (c.sk_to_pk sk) info rnd m) [] ≡ some m)
        × ((label : Bytes) (n : ℕ)
            → c.context_export x label n
              ≡ some (c.sender_export a (c.sk_to_pk sk) info rnd label n))
  pub decrypt-encrypt :
      (k : c.Cipher) (nonce aad m ct tag : Bytes)
      → c.encrypt_detached k nonce aad m ≡ some (ct, tag)
      → c.decrypt_detached k nonce aad ct tag ≡ some m
  pub key_size-aes_gcm_256 : c.key_size aes_gcm_256 ≡ 32
  pub hex_decode-encode : (b : Bytes) → AreBytes b → c.hex_decode (c.hex_encode b) ≡ some b
  -- the output is lowercase hex digits, two for each byte
  pub length-hex_encode : (b : Bytes) → length (c.hex_encode b) ≡ 2 * length b
  pub hex_encode-ascii : (b : Bytes) → AreBytes b → All (λ d. d < 0x80) (c.hex_encode b)
