-- ===== src/Envelope.antt =====
-- src/envelope.rs: the encapsulation of RFC 9458 §4.3 and §4.4. A byte array is a list of bytes;
-- indexing that Rust checks at run time panics here too. The proofs are in the modules below.
pub mod Open
pub mod Seal
pub mod Client
mod Tests
use verifiable_rpc_sidecar.Crates.Crypto.{Crypto, Aead, aes_gcm_256}
use verifiable_rpc_sidecar.Prelude.{
  slice_to, slice_from, split_at, ltb, leb, ◌==◌, if◌then◌else◌, length, take, drop, Result, ◌>>=◌,
  ◌>>◌, ok_or, Bytes, bytes_eq, zeros, copy_into, codes, ok, err, panic, ℕ, ◌+◌, not, Option, none,
  some, [], ◌∷◌, ◌++◌,
}

abbrev pub response_nonce_len : ℕ
response_nonce_len = 32

abbrev pub hdr_len : ℕ
hdr_len = 7

abbrev pub enc_len : ℕ
enc_len = 32

abbrev pub tag_len : ℕ
tag_len = 16

abbrev pub request_label : Bytes
request_label = codes "message/bhttp request"

abbrev pub response_label : Bytes
response_label = codes "message/bhttp response"

pub data EnvelopeError : Type 0 where
  envelope_error : EnvelopeError

-- `trait Suite`
pub record Suite : Type 0 where
  pub hpke_aead : Aead
  pub gcm : Aead
  pub hdr : Bytes
  pub secret_len : ℕ

abbrev pub confidential_suite : Suite
confidential_suite = record {
  hpke_aead = aes_gcm_256;
  gcm = aes_gcm_256;
  hdr = 0x00 ∷ 0x00 ∷ 0x20 ∷ 0x00 ∷ 0x01 ∷ 0x00 ∷ 0x02 ∷ [];
  secret_len = 32;
}

-- `SealFn`: salt, secret, the buffer and the offset of the plaintext; the new buffer.
abbrev pub SealFn : Type 0
SealFn = Bytes → Bytes → Bytes → ℕ → Result Bytes EnvelopeError

pub record ResponseContext : Type 0 where
  pub enc : Bytes
  pub secret : Bytes
  pub secret_len : ℕ
  pub seal : SealFn

-- `bytes.get(..n)` and `bytes.get(n..)`
abbrev pub get_to : ℕ → Bytes → Option Bytes
get_to n bytes = if leb n (length bytes) then some (take n bytes) else none

abbrev pub get_from : ℕ → Bytes → Option Bytes
get_from n bytes = if leb n (length bytes) then some (drop n bytes) else none

-- The HPKE info string: label, a zero byte, header.
unfoldable pub request_info : Suite → Result Bytes EnvelopeError
request_info s = do
  let info = zeros (length request_label + 1 + hdr_len)
  info ← copy_into info 0 (length request_label) request_label
  copy_into info (length request_label + 1) (length info) s.hdr

module _ (c : Crypto) where
  unfoldable pub public_key : Bytes → Result Bytes EnvelopeError
  public_key sk_r = do
    sk ← ok_or envelope_error (c.private_key_from_bytes sk_r)
    let pk = c.sk_to_pk sk
    if length pk == 32 then ok pk else err envelope_error

  -- `seal_response::<S>`
  unfoldable pub seal_response : Suite → SealFn
  seal_response s salt secret buf offset = do
    slice_to (c.key_size s.gcm) (zeros 32)
    key ← ok_or envelope_error (c.hkdf_expand salt secret (codes "key") (c.key_size s.gcm))
    nonce ← ok_or envelope_error (c.hkdf_expand salt secret (codes "nonce") 12)
    cipher ← ok_or envelope_error (c.cipher_from_slice s.gcm key)
    nonce ← ok_or envelope_error (c.nonce_from_slice s.gcm nonce)
    plaintext ← ok_or envelope_error (get_from offset buf)
    (ct, tag) ← ok_or envelope_error (c.encrypt_detached cipher nonce [] plaintext)
    ok (take offset buf ++ (ct ++ tag))

  -- `open::<S>` behind the check of the header
  unfoldable pub open_sealed :
      Suite → Bytes → Bytes → Result (Bytes × ResponseContext) EnvelopeError
  open_sealed s sk_r body = do
    rest ← slice_from hdr_len body
    (enc_bytes, ct) ← split_at enc_len rest
    info ← request_info s
    sk ← ok_or envelope_error (c.private_key_from_bytes sk_r)
    enc ← ok_or envelope_error (c.encapped_key_from_bytes enc_bytes)
    ctx ← ok_or envelope_error (c.setup_receiver s.hpke_aead sk enc info)
    slice_to s.secret_len (zeros 32)
    exported ← ok_or envelope_error (c.context_export ctx response_label s.secret_len)
    plaintext ← ok_or envelope_error (c.context_open ctx ct [])
    enc_arr ← copy_into (zeros enc_len) 0 enc_len enc_bytes
    ok (
      plaintext,
      record {
        enc = enc_arr;
        secret = exported ++ drop s.secret_len (zeros 32);
        secret_len = s.secret_len;
        seal = seal_response s;
      },
    )

  -- `open::<S>`
  unfoldable pub open_suite : Suite → Bytes → Bytes → Result (Bytes × ResponseContext) EnvelopeError
  open_suite s sk_r body =
      if ltb (length body) (hdr_len + enc_len + tag_len) then err envelope_error else do
        hdr ← slice_to hdr_len body
        if bytes_eq hdr s.hdr then open_sealed s sk_r body else err envelope_error

  unfoldable pub open_request : Bytes → Bytes → Result (Bytes × ResponseContext) EnvelopeError
  open_request sk_r body = open_suite confidential_suite sk_r body

-- `ResponseContext::seal_buf`
unfoldable pub seal_buf : ResponseContext → Bytes → Result Bytes EnvelopeError
seal_buf ctx buf = do
  response_nonce ← ok_or envelope_error (get_to ctx.secret_len buf)
  let salt = zeros (enc_len + 32)
  salt ← copy_into salt 0 enc_len ctx.enc
  salt ← copy_into salt enc_len (enc_len + ctx.secret_len) response_nonce
  salt ← slice_to (enc_len + ctx.secret_len) salt
  secret ← slice_to ctx.secret_len ctx.secret
  ctx.seal salt secret buf ctx.secret_len

-- A buffer after a call that may wipe it: the call's end, and the buffer.
abbrev pub wipe_on_error :
    Result Bytes EnvelopeError → Bytes → Result (Unit {0}) EnvelopeError × Bytes
wipe_on_error (ok sealed) buf = (ok tt, sealed)
wipe_on_error (err e) buf = (err e, [])
wipe_on_error panic buf = (panic, buf)

-- `ResponseContext::seal_in_place`: on error the buffer is wiped, which leaves it empty.
unfoldable pub seal_in_place : ResponseContext → Bytes → Result (Unit {0}) EnvelopeError × Bytes
seal_in_place ctx buf = wipe_on_error (seal_buf ctx buf) buf

unfoldable pub seal_with_nonce : ResponseContext → Bytes → Bytes → Result Bytes EnvelopeError
seal_with_nonce ctx response_nonce plaintext =
    if not (length response_nonce == ctx.secret_len)
    then err envelope_error
    else let (done, out) = seal_in_place ctx (response_nonce ++ plaintext) in done >> ok out

-- `ResponseContext::seal`; its `response_nonce` is an array of 32 bytes.
unfoldable pub seal : ResponseContext → Bytes → Bytes → Result Bytes EnvelopeError
seal ctx response_nonce plaintext = seal_with_nonce ctx response_nonce plaintext
