-- ===== src/Signing.antt =====
-- src/signing.rs: the key of the process, the canonical pre-image and the signed response.
pub mod PreImage
pub mod ChainId
pub mod Keys
pub mod Verify
pub mod Headers
pub mod Tests
mod UnitTests
use Prim.Native.Nat.{bit_and, bit_or}
use verifiable_rpc_sidecar.Crates.Crypto.{Crypto}
use verifiable_rpc_sidecar.Envelope
use verifiable_rpc_sidecar.Envelope.{EnvelopeError, ResponseContext}
use verifiable_rpc_sidecar.Util.{prefixed_hex}
use verifiable_rpc_sidecar.Prelude.{
  ltb, leb, ◌==◌, if◌then◌else◌, length, find, Result, ◌>>=◌, ◌>>◌, Bytes, bytes_eq, zeros,
  copy_into, u64_max, to_le_bytes, Text, is_ascii_graphic, as_bytes, trim, ok, err, panic, ℕ, zero,
  suc, not, none, some, [], ◌∷◌,
}

abbrev pub pre_image_len : ℕ
pre_image_len = 104

abbrev pub req_hash_offset : ℕ
req_hash_offset = 32

abbrev pub resp_hash_offset : ℕ
resp_hash_offset = 64

abbrev pub timestamp_offset : ℕ
timestamp_offset = 96

abbrev pub chain_id_max_len : ℕ
chain_id_max_len = 64

abbrev pub secret_key_length : ℕ
secret_key_length = 32

-- The `anyhow` errors of the file, one constructor for each message.
pub data SigningError : Type 0 where
  chain_id_empty : SigningError
  chain_id_too_long : ℕ → SigningError
  chain_id_bad_char : ℕ → SigningError
  key_length : ℕ → SigningError
  kem_key_mismatch : SigningError
  clock_before_epoch : SigningError
  clock_overflow : SigningError

-- `validate_chain_id`, which clap runs on the command line's value
unfoldable pub validate_chain_id : Text → Result Text SigningError
validate_chain_id s =
    let s = trim s in
    if leb (length s) 0
    then err chain_id_empty
    else if ltb chain_id_max_len (length (as_bytes s))
    then err (chain_id_too_long (length (as_bytes s)))
    else elim (find (λ c. not (is_ascii_graphic c)) s) [
      | some c ↦ err (chain_id_bad_char c)
      | none ↦ ok s
    ]

-- `SigningInner`; a `SigningKey` is its seed. The `Arc` shares an immutable value.
pub record SigningState : Type 0 where
  pub signing_key : Bytes
  pub kem_secret : Bytes
  pub chain_id : Text
  pub chain_id_hash : Bytes
  pub pubkey_hex : Text

pub record SignedResponse : Type 0 where
  pub signature : Bytes
  pub timestamp_ms : ℕ
  pub pubkey : Bytes
  pub pubkey_hex : Text

-- `SystemTime::now()` against the Unix epoch: before it, or milliseconds (a u128) after it.
pub data Reading : Type 0 where
  before_epoch : Reading
  after_epoch : ℕ → Reading

unfoldable pub now_ms : Reading → Result ℕ SigningError
now_ms before_epoch = err clock_before_epoch
now_ms (after_epoch ms) = if leb ms u64_max then ok ms else err clock_overflow

-- `buf[i] = f(buf[i])`; the program's indices are constants below the array's length.
abbrev pub modify : ℕ → (ℕ → ℕ) → Bytes → Bytes
modify i f [] = []
modify zero f (b ∷ bs) = f b ∷ bs
modify (suc i) f (b ∷ bs) = b ∷ modify i f bs

unfoldable pub build_pre_image : Bytes → Bytes → Bytes → ℕ → Result Bytes SigningError
build_pre_image chain_id_hash request_hash response_hash timestamp_ms = do
  let buf = zeros pre_image_len
  buf ← copy_into buf 0 req_hash_offset chain_id_hash
  buf ← copy_into buf req_hash_offset resp_hash_offset request_hash
  buf ← copy_into buf resp_hash_offset timestamp_offset response_hash
  copy_into buf timestamp_offset pre_image_len (to_le_bytes timestamp_ms)

-- The byte operations of `derive_kem_secret`.
unfoldable pub clamp : Bytes → Bytes
clamp sk =
    modify 31 (λ b. bit_or b 64) (modify 31 (λ b. bit_and b 127) (modify 0 (λ b. bit_and b 248) sk))

module _ (c : Crypto) where
  unfoldable pub signature_hex : SignedResponse → Text
  signature_hex r = prefixed_hex c r.signature

  unfoldable pub derive_kem_secret : Bytes → Bytes
  derive_kem_secret signing_key = clamp (c.to_scalar_bytes signing_key)

  unfoldable pub check_kem_key : Bytes → Bytes → Result (Unit {0}) SigningError
  check_kem_key kem_secret expected_pk = elim (Envelope.public_key c kem_secret) [
    | ok pk ↦ if bytes_eq pk expected_pk then ok tt else err kem_key_mismatch
    | err e ↦ err kem_key_mismatch
    | panic ↦ panic
  ]

  unfoldable pub from_seed_ref : Bytes → Text → Result SigningState SigningError
  from_seed_ref seed chain_id = do
    let kem_secret = derive_kem_secret seed
    check_kem_key kem_secret (c.to_montgomery seed)
    ok (record {
      signing_key = seed;
      kem_secret = kem_secret;
      chain_id = chain_id;
      chain_id_hash = c.sha256 (as_bytes chain_id);
      pubkey_hex = prefixed_hex c (c.verifying_key seed);
    })

  -- `from_seed`: the state, and the caller's seed after `zeroize`.
  unfoldable pub from_seed : Bytes → Text → Result SigningState SigningError × Bytes
  from_seed seed chain_id = (from_seed_ref seed chain_id, zeros (length seed))

  unfoldable pub from_dstack_bytes : Bytes → Text → Result SigningState SigningError
  from_dstack_bytes bytes chain_id =
      if not (length bytes == secret_key_length) then err (key_length (length bytes)) else do
        seed ← copy_into (zeros secret_key_length) 0 secret_key_length bytes
        from_seed_ref seed chain_id

  unfoldable pub open_request :
      SigningState → Bytes → Result (Bytes × ResponseContext) EnvelopeError
  open_request st body = Envelope.open_request c st.kem_secret body

  unfoldable pub pubkey_bytes : SigningState → Bytes
  pubkey_bytes st = c.verifying_key st.signing_key

  unfoldable pub sign_with_timestamp :
      SigningState → Bytes → Bytes → ℕ → Result SignedResponse SigningError
  sign_with_timestamp st request_body response_body timestamp_ms = do
    let req_hash = c.sha256 request_body
    let resp_hash = c.sha256 response_body
    pre_image ← build_pre_image st.chain_id_hash req_hash resp_hash timestamp_ms
    ok (record {
      signature = c.ed25519_sign st.signing_key pre_image;
      timestamp_ms = timestamp_ms;
      pubkey = pubkey_bytes st;
      pubkey_hex = st.pubkey_hex;
    })

  -- `sign`, at a reading of the system clock
  unfoldable pub sign : SigningState → Bytes → Bytes → Reading → Result SignedResponse SigningError
  sign st request_body response_body clock = do
    ts_ms ← now_ms clock
    sign_with_timestamp st request_body response_body ts_ms
