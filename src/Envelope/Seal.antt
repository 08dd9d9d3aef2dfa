-- ===== src/Envelope/Seal.antt =====
-- The sealing functions of src/envelope.rs against the formula of RFC 9458 §4.4.
use verifiable_rpc_sidecar.Crates.Crypto.{Crypto, CryptoLaws, aes_gcm_256}
use verifiable_rpc_sidecar.Envelope.{
  EnvelopeError, envelope_error, ResponseContext, confidential_suite, seal_response, open_request,
  seal_buf, seal_in_place, seal_with_nonce, seal, wipe_on_error,
}
use verifiable_rpc_sidecar.Envelope.Open.{open_request-Opens}
use verifiable_rpc_sidecar.Prelude.{
  leb, ◌==◌, length, take, drop, length-append, length-take, length-drop, take-append_of_length,
  drop-append_of_length, take_all, drop_all, Result, ◌>>=◌, ◌>>◌, ok_or, ok_or-bind, Bytes, zeros,
  codes, ok, err, panic, ◌+◌, ◌≡◌, refl, sym, ap, ◌∙◌, ◌≢◌, true, some, [], ◌++◌, append-nil, arith,
}

-- What `open_request` puts into a context.
pub record IsSealable (c : Crypto) (ctx : ResponseContext) : Type 0 where
  pub enc_length : length ctx.enc ≡ 32
  pub secret_length : length ctx.secret ≡ 32
  pub len : ctx.secret_len ≡ 32
  pub fn : ctx.seal ≡ seal_response c confidential_suite

pub open_request-IsSealable :
    (c : Crypto) (laws : CryptoLaws c) (sk_r body : Bytes) {plaintext : Bytes}
    {ctx : ResponseContext}
    → open_request c sk_r body ≡ ok (plaintext, ctx)
    → IsSealable c ctx
open_request-IsSealable c laws sk_r body {plaintext} {ctx} h =
    let o = open_request-Opens c sk_r body plaintext ctx h in
    record {
      enc_length =
          omega (
            arith,
            ap length o.ctx_enc,
            length-take 32 (drop 7 body),
            length-drop 7 body,
            o.is_long,
          );
      secret_length = laws.length-context_export _ _ 32 _ o.exported;
      len = o.ctx_secret_len;
      fn = o.ctx_seal;
    }

-- RFC 9458 §4.4 with the suite's sizes: `nonce ‖ AEAD(Expand(prk, "key", 32), Expand(prk,
-- "nonce", 12), "", plaintext)` with `prk = Extract(enc ‖ nonce, secret)`.
abbrev pub sealed_response : Crypto → Bytes → Bytes → Bytes → Bytes → Result Bytes EnvelopeError
sealed_response c enc secret response_nonce plaintext = do
  key ← ok_or envelope_error (c.hkdf_expand (enc ++ response_nonce) secret (codes "key") 32)
  nonce ← ok_or envelope_error (c.hkdf_expand (enc ++ response_nonce) secret (codes "nonce") 12)
  cipher ← ok_or envelope_error (c.cipher_from_slice aes_gcm_256 key)
  nonce ← ok_or envelope_error (c.nonce_from_slice aes_gcm_256 nonce)
  (ct, tag) ← ok_or envelope_error (c.encrypt_detached cipher nonce [] plaintext)
  ok (response_nonce ++ (ct ++ tag))

module _ (c : Crypto) (laws : CryptoLaws c) (enc secret response_nonce plaintext : Bytes)
    (enc_length : length enc ≡ 32) (secret_length : length secret ≡ 32)
    (nonce_length : length response_nonce ≡ 32) where
  buf_long : leb 32 (length (response_nonce ++ plaintext)) ≡ true
  buf_long = ground (arith, length-append response_nonce plaintext)

  salt_long : leb 64 (length (enc ++ zeros 32)) ≡ true
  salt_long = ground (arith, length-append enc (zeros 32))

  salt_whole : leb 64 (length (enc ++ response_nonce)) ≡ true
  salt_whole = ground (arith, length-append enc response_nonce)

  normal_seal_buf :
      seal_buf
        (record {
          enc = enc;
          secret = secret;
          secret_len = 32;
          seal = seal_response c confidential_suite;
        })
        (response_nonce ++ plaintext)
      ≡ sealed_response c enc secret response_nonce plaintext
  unfolding seal_buf seal_response
  normal_seal_buf = simp (
    buf_long,
    salt_long,
    salt_whole,
    enc_length,
    nonce_length,
    secret_length,
    laws.key_size-aes_gcm_256,
    take-append_of_length response_nonce plaintext 32 nonce_length,
    drop-append_of_length response_nonce plaintext 32 nonce_length,
    take-append_of_length enc (zeros 32) 32 enc_length,
    drop_all 64 (enc ++ zeros 32) (omega (arith, length-append enc (zeros 32))),
    take_all 64 (enc ++ response_nonce) (omega (arith, length-append enc response_nonce)),
    take_all 32 secret (omega arith),
    append-nil,
  )

-- The parts of a response that the formula produces.
pub record Sealed (c : Crypto) (enc secret response_nonce plaintext out : Bytes) : Type 0 where
  pub key : Bytes
  pub nonce : Bytes
  pub gcm_nonce : Bytes
  pub cipher : c.Cipher
  pub ct : Bytes
  pub tag : Bytes
  pub key_eq : c.hkdf_expand (enc ++ response_nonce) secret (codes "key") 32 ≡ some key
  pub nonce_eq : c.hkdf_expand (enc ++ response_nonce) secret (codes "nonce") 12 ≡ some nonce
  pub cipher_eq : c.cipher_from_slice aes_gcm_256 key ≡ some cipher
  pub gcm_nonce_eq : c.nonce_from_slice aes_gcm_256 nonce ≡ some gcm_nonce
  pub encrypted : c.encrypt_detached cipher gcm_nonce [] plaintext ≡ some (ct, tag)
  pub out_eq : out ≡ response_nonce ++ (ct ++ tag)

ok-injective : {a b : Bytes} → ◌≡◌ {A = Result Bytes EnvelopeError} (ok a) (ok b) → a ≡ b
ok-injective h = cc

pub sealed_response-Sealed :
    (c : Crypto) (enc secret response_nonce plaintext : Bytes) {out : Bytes}
    → sealed_response c enc secret response_nonce plaintext ≡ ok out
    → Sealed c enc secret response_nonce plaintext out
sealed_response-Sealed c enc secret response_nonce plaintext h =
    let (key, key_eq, h) =
      ok_or-bind envelope_error (c.hkdf_expand (enc ++ response_nonce) secret (codes "key") 32) _
        h in
    let (nonce, nonce_eq, h) =
      ok_or-bind envelope_error (c.hkdf_expand (enc ++ response_nonce) secret (codes "nonce") 12) _
        h in
    let (cipher, cipher_eq, h) =
      ok_or-bind envelope_error (c.cipher_from_slice aes_gcm_256 key) _ h in
    let (gcm_nonce, gcm_nonce_eq, h) =
      ok_or-bind envelope_error (c.nonce_from_slice aes_gcm_256 nonce) _ h in
    let ((ct, tag), encrypted, h) =
      ok_or-bind envelope_error (c.encrypt_detached cipher gcm_nonce [] plaintext) _ h in
    record {
      key = key;
      nonce = nonce;
      gcm_nonce = gcm_nonce;
      cipher = cipher;
      ct = ct;
      tag = tag;
      key_eq = key_eq;
      nonce_eq = nonce_eq;
      cipher_eq = cipher_eq;
      gcm_nonce_eq = gcm_nonce_eq;
      encrypted = encrypted;
      out_eq = sym (ok-injective h);
    }

module _ (c : Crypto) (laws : CryptoLaws c) (ctx : ResponseContext) (s : IsSealable c ctx)
    (response_nonce plaintext : Bytes) (nonce_length : length response_nonce ≡ 32) where
  ctx_normal : ctx ≡ record {
    enc = ctx.enc;
    secret = ctx.secret;
    secret_len = 32;
    seal = seal_response c confidential_suite;
  }
  ctx_normal =
      λ i. record { enc = ctx.enc; secret = ctx.secret; secret_len = s.len i; seal = s.fn i }

  seal_buf-sealed_response :
      seal_buf ctx (response_nonce ++ plaintext)
      ≡ sealed_response c ctx.enc ctx.secret response_nonce plaintext
  seal_buf-sealed_response =
      ap (λ x. seal_buf x (response_nonce ++ plaintext)) ctx_normal
      ∙ normal_seal_buf c laws ctx.enc ctx.secret response_nonce plaintext s.enc_length
          s.secret_length nonce_length

  -- `seal_in_place` on nonce ‖ plaintext leaves the formula's value in the buffer, and an empty
  -- buffer where the formula fails.
  pub seal_in_place-sealed_response :
      seal_in_place ctx (response_nonce ++ plaintext)
      ≡ wipe_on_error
          (sealed_response c ctx.enc ctx.secret response_nonce plaintext)
          (response_nonce ++ plaintext)
  unfolding seal_in_place
  seal_in_place-sealed_response =
      ap (λ r. wipe_on_error r (response_nonce ++ plaintext)) seal_buf-sealed_response

  wiped-sealed_response :
      (r : Result Bytes EnvelopeError)
      → ((wipe_on_error r (response_nonce ++ plaintext)).0
          >> ok (wipe_on_error r (response_nonce ++ plaintext)).1)
        ≡ r
  wiped-sealed_response (ok b) = refl
  wiped-sealed_response (err e) = refl
  wiped-sealed_response panic = refl

  len_eq : (length response_nonce == ctx.secret_len) ≡ true
  len_eq = ground (arith, s.len)

  -- `seal` of a context that `open_request` made is the formula of RFC 9458 §4.4.
  pub seal-sealed_response :
      seal ctx response_nonce plaintext
      ≡ sealed_response c ctx.enc ctx.secret response_nonce plaintext
  unfolding seal seal_with_nonce
  seal-sealed_response = rw (len_eq, seal_in_place-sealed_response) (wiped-sealed_response _)

  pub seal-Sealed :
      {out : Bytes}
      → seal ctx response_nonce plaintext ≡ ok out
      → Sealed c ctx.enc ctx.secret response_nonce plaintext out
  seal-Sealed h = sealed_response-Sealed c _ _ _ _ (sym seal-sealed_response ∙ h)

  -- A sealed response is the nonce, a ciphertext as long as the plaintext, and a 16-byte tag.
  pub seal-length :
      (out : Bytes)
      → seal ctx response_nonce plaintext ≡ ok out
      → (take 32 out ≡ response_nonce) × (length out ≡ 32 + length plaintext + 16)
  seal-length out h =
      let p = seal-Sealed h in
      let lens =
        laws.length-encrypt_detached p.cipher p.gcm_nonce [] plaintext p.ct p.tag p.encrypted in
      rw p.out_eq (
        take-append_of_length response_nonce (p.ct ++ p.tag) 32 nonce_length,
        omega (arith, length-append response_nonce (p.ct ++ p.tag), length-append p.ct p.tag),
      )

  -- Sealing never panics: no index of the salt, the secret or the buffer is out of range.
  pub seal-ne-panic : seal ctx response_nonce plaintext ≢ panic
  seal-ne-panic = rw seal-sealed_response (ground arith)
