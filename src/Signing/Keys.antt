-- ===== src/Signing/Keys.antt =====
-- The key derivation of src/signing.rs: `derive_kem_secret`, `from_seed_ref`, `from_dstack_bytes`.
use Prim.Native.Nat.{bit_and, bit_or}
use verifiable_rpc_sidecar.Crates.Crypto.{Crypto}
use verifiable_rpc_sidecar.Envelope.{public_key, EnvelopeError}
use verifiable_rpc_sidecar.Util.{prefixed_hex}
use verifiable_rpc_sidecar.Prelude.{
  ◌==◌, if◌then◌else◌, length, Result, Bytes, IsByte, bytes_eq, bytes_eq_refl, bytes_eq_iff, Text,
  as_bytes, ok, err, panic, ℕ, zero, suc, ◌+◌, ◌*◌, ◌/◌, ◌%◌, ◌<◌, ◌≡◌, refl, sym, ap, ◌∙◌, subst,
  ◌↔◌, Bool, true, ◌&&◌, [], ◌∷◌, ◌++◌, append-nil, arith,
}
use verifiable_rpc_sidecar.Signing.{
  SigningError, kem_key_mismatch, SigningState, modify, clamp, derive_kem_secret, check_kem_key,
  from_seed_ref, from_dstack_bytes,
}
use verifiable_rpc_sidecar.Signing.Verify.{IsConsistent}

-- Two functions agree on every byte, by evaluation.
module _ (f g : ℕ → ℕ) where
  agree_below : ℕ → Bool
  agree_below zero = true
  agree_below (suc n) = f n == g n && agree_below n

  agree_below→eq : (n : ℕ) → agree_below n ≡ true → (i : ℕ) → i < n → f i ≡ g i
  unfolding agree_below
  agree_below→eq zero e i h = absurd (omega arith)
  agree_below→eq (suc n) e i h = ground (arith, agree_below→eq n (ground arith) i)

low_bits_cleared : (b : ℕ) → b < 256 → bit_and b 248 ≡ b / 8 * 8
unfolding agree_below
low_bits_cleared = agree_below→eq (λ b. bit_and b 248) (λ b. b / 8 * 8) 256 refl

top_bits_set : (b : ℕ) → b < 256 → bit_or (bit_and b 127) 64 ≡ 64 + b % 64
unfolding agree_below
top_bits_set = agree_below→eq (λ b. bit_or (bit_and b 127) 64) (λ b. 64 + b % 64) 256 refl

modify-last :
    (mid : Bytes) (f : ℕ → ℕ) (z n : ℕ)
    → length mid ≡ n
    → modify n f (mid ++ z ∷ []) ≡ mid ++ f z ∷ []
modify-last [] f z zero h = refl
modify-last [] f z (suc n) h = absurd (omega arith)
modify-last (m ∷ mid) f z zero h = absurd (omega arith)
modify-last (m ∷ mid) f z (suc n) h = rw (modify-last mid f z n (omega arith))

-- On a 32-byte scalar the three bit operations clear the low three bits of the first byte, set the
-- last byte to 64 plus its low six bits, and keep the 30 bytes between.
clamp_lem :
    (a z : ℕ) (mid : Bytes)
    → IsByte a
    → IsByte z
    → length mid ≡ 30
    → clamp (a ∷ mid ++ z ∷ []) ≡ (a / 8 * 8) ∷ mid ++ (64 + z % 64) ∷ []
unfolding clamp
clamp_lem a z mid ha hz hm = rw (modify-last mid (λ b. bit_and b 127) z 30 hm) (
    rw (modify-last mid (λ b. bit_or b 64) (bit_and z 127) 30 hm)
      (rw (low_bits_cleared a ha, top_bits_set z hz)))

-- What the state is that 32 key bytes and a chain id give.
pub record IsStateOf (c : Crypto) (bytes : Bytes) (chain_id : Text) (st : SigningState)
    : Type 0 where
  pub is_32_bytes : length bytes ≡ 32
  pub key : st.signing_key ≡ bytes
  pub chain : st.chain_id ≡ chain_id
  pub chain_hash : st.chain_id_hash ≡ c.sha256 (as_bytes chain_id)
  pub hex : st.pubkey_hex ≡ prefixed_hex c (c.verifying_key bytes)
  pub kem : st.kem_secret ≡ derive_kem_secret c bytes
  -- the encryption key is the Montgomery form of the attested signing key
  pub kem_public : public_key c st.kem_secret ≡ ok (c.to_montgomery bytes)

module _ (c : Crypto) (bytes : Bytes) (chain_id : Text) where
  state : SigningState
  state = record {
    signing_key = bytes;
    kem_secret = derive_kem_secret c bytes;
    chain_id = chain_id;
    chain_id_hash = c.sha256 (as_bytes chain_id);
    pubkey_hex = prefixed_hex c (c.verifying_key bytes);
  }

  -- At 32 bytes the only test is the one on the key.
  checked : Result Bytes EnvelopeError → Result SigningState SigningError
  checked (ok pk) = if bytes_eq pk (c.to_montgomery bytes) then ok state else err kem_key_mismatch
  checked (err e) = err kem_key_mismatch
  checked panic = panic

  abbrev kem_pk : Result Bytes EnvelopeError
  kem_pk = public_key c (derive_kem_secret c bytes)

  from_seed_ref-checked : from_seed_ref c bytes chain_id ≡ checked kem_pk
  unfolding from_seed_ref check_kem_key checked state
  from_seed_ref-checked = ground arith

  checked-eq-ok :
      (r : Result Bytes EnvelopeError) {st : SigningState}
      → checked r ≡ ok st
      → (r ≡ ok (c.to_montgomery bytes)) × (state ≡ st)
  unfolding checked
  checked-eq-ok (ok pk) h = ground (arith, bytes_eq_iff pk (c.to_montgomery bytes))
  checked-eq-ok (err e) h = cc
  checked-eq-ok panic h = cc

  from_dstack_bytes-checked :
      length bytes ≡ 32 → from_dstack_bytes c bytes chain_id ≡ checked kem_pk
  unfolding from_dstack_bytes
  from_dstack_bytes-checked h = rw (h, append-nil) from_seed_ref-checked

  length_of_ok :
      {st : SigningState} → from_dstack_bytes c bytes chain_id ≡ ok st → length bytes ≡ 32
  unfolding from_dstack_bytes
  length_of_ok h = ground arith

  checked_of_pk : kem_pk ≡ ok (c.to_montgomery bytes) → checked kem_pk ≡ ok state
  unfolding checked
  checked_of_pk h = rw (h, bytes_eq_refl (c.to_montgomery bytes))

  state-IsStateOf :
      length bytes ≡ 32 → kem_pk ≡ ok (c.to_montgomery bytes) → IsStateOf c bytes chain_id state
  unfolding state
  state-IsStateOf h k = record {
    is_32_bytes = h;
    key = refl;
    chain = refl;
    chain_hash = refl;
    hex = refl;
    kem = refl;
    kem_public = k;
  }

  state_unique : (st : SigningState) → IsStateOf c bytes chain_id st → state ≡ st
  unfolding state
  state_unique st s = λ i. record {
    signing_key = sym s.key i;
    kem_secret = sym s.kem i;
    chain_id = sym s.chain i;
    chain_id_hash = sym s.chain_hash i;
    pubkey_hex = sym s.hex i;
  }

  -- A state comes out exactly of 32 bytes whose X25519 key is the Montgomery form of their Ed25519
  -- key, and it is the state of those bytes: no longer key is cut to 32 bytes.
  pub from_dstack_bytes_iff :
      (st : SigningState)
      → (from_dstack_bytes c bytes chain_id ≡ ok st) ↔ IsStateOf c bytes chain_id st
  from_dstack_bytes_iff st = (
    λ h.
        let long = length_of_ok h in
        let (pk, same) = checked-eq-ok kem_pk (sym (from_dstack_bytes-checked long) ∙ h) in
        subst (IsStateOf c bytes chain_id) same (state-IsStateOf long pk),
    λ s.
        from_dstack_bytes-checked s.is_32_bytes
        ∙ checked_of_pk (ap (public_key c) (sym s.kem) ∙ s.kem_public)
        ∙ ap ok (state_unique st s),
  )

pub IsStateOf-IsConsistent :
    (c : Crypto) (bytes : Bytes) (chain_id : Text) (st : SigningState)
    → IsStateOf c bytes chain_id st
    → IsConsistent c st
IsStateOf-IsConsistent c bytes chain_id st s = record {
  chain_hash = s.chain_hash ∙ ap (λ x. c.sha256 (as_bytes x)) (sym s.chain);
  hex = s.hex ∙ ap (λ x. prefixed_hex c (c.verifying_key x)) (sym s.key);
}
