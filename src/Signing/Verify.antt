-- ===== src/Signing/Verify.antt =====
-- What a client checks of a signed response, as README.md states it, against `sign` of
-- src/signing.rs.
use verifiable_rpc_sidecar.Crates.Crypto.{Crypto, CryptoLaws}
use verifiable_rpc_sidecar.Util.{prefixed_hex}
use verifiable_rpc_sidecar.Prelude.{
  leb, le→leb, Bool-cases, length, Result, err-ne-ok, ok-injective, Bytes, IsU64, u64_max, Text,
  as_bytes, ok, err, ℕ, ◌<◌, ◌≡◌, refl, sym, ap, ◌∙◌, subst, inl, inr, Bool, true, false, arith,
}
use verifiable_rpc_sidecar.Signing.{
  SigningError, clock_before_epoch, clock_overflow, SigningState, SignedResponse, Reading,
  before_epoch, after_epoch, now_ms, pubkey_bytes, sign_with_timestamp, sign,
}
use verifiable_rpc_sidecar.Signing.PreImage.{layout, build_pre_image-layout}

-- The verifier rebuilds the pre-image from the chain id it was configured with, the request body
-- it sent, the response body it got and the timestamp.
abbrev pub client_verifies : Crypto → Text → Bytes → Bytes → SignedResponse → Bool
client_verifies c chain_id request response r =
    c.ed25519_verify r.pubkey
      (layout (c.sha256 (as_bytes chain_id)) (c.sha256 request) (c.sha256 response) r.timestamp_ms)
      r.signature

-- A signing state whose cached fields agree with its key and its chain id.
pub record IsConsistent (c : Crypto) (st : SigningState) : Type 0 where
  pub chain_hash : st.chain_id_hash ≡ c.sha256 (as_bytes st.chain_id)
  pub hex : st.pubkey_hex ≡ prefixed_hex c (c.verifying_key st.signing_key)

-- A timestamp that the clock can give: milliseconds after the epoch that fit a u64.
abbrev pub IsUsable : Reading → ℕ → Type 0
IsUsable clock ms = (clock ≡ after_epoch ms) × IsU64 ms

module _ (c : Crypto) (laws : CryptoLaws c) (st : SigningState) (v : IsConsistent c st)
    (request response : Bytes) where
  abbrev pub signed_at : ℕ → SignedResponse
  signed_at ms = record {
    signature =
        c.ed25519_sign st.signing_key
          (layout (c.sha256 (as_bytes st.chain_id)) (c.sha256 request) (c.sha256 response) ms);
    timestamp_ms = ms;
    pubkey = c.verifying_key st.signing_key;
    pubkey_hex = prefixed_hex c (c.verifying_key st.signing_key);
  }

  sign_with_timestamp_lem :
      (ms : ℕ) → sign_with_timestamp c st request response ms ≡ ok (signed_at ms)
  unfolding sign_with_timestamp pubkey_bytes
  sign_with_timestamp_lem ms = rw (
    v.chain_hash,
    (build_pre_image-layout (c.sha256 (as_bytes st.chain_id)) (c.sha256 request) (c.sha256 response)
        ms (laws.length-sha256 _) (laws.length-sha256 _) (laws.length-sha256 _)).0,
    v.hex,
  )

  sign_at : (ms : ℕ) → IsU64 ms → sign c st request response (after_epoch ms) ≡ ok (signed_at ms)
  unfolding sign now_ms
  sign_at ms h = rw (le→leb ms u64_max (omega arith)) (sign_with_timestamp_lem ms)

  -- At a usable clock `sign` succeeds with that time and the state's key, its key text is the
  -- hex of the key, and a client verifies the signature for this chain, request and response.
  pub sign_verifies :
      (clock : Reading) (ms : ℕ)
      → IsUsable clock ms
      → (r : SignedResponse) × (sign c st request response clock ≡ ok r)
        × (r.timestamp_ms ≡ ms)
        × (r.pubkey ≡ pubkey_bytes c st)
        × (r.pubkey_hex ≡ prefixed_hex c r.pubkey)
        × (length r.signature ≡ 64)
        × (client_verifies c st.chain_id request response r ≡ true)
  sign_verifies clock ms (e, h) = (
    signed_at ms,
    ap (sign c st request response) e ∙ sign_at ms h,
    refl,
    unfold pubkey_bytes in refl,
    refl,
    laws.length-ed25519_sign _ _,
    laws.verify-sign _ _,
  )

  past : (ms : ℕ) → leb ms u64_max ≡ false → u64_max < ms
  past ms h = ground arith

  fits : (ms : ℕ) → leb ms u64_max ≡ true → IsU64 ms
  fits ms h = ground arith

  sign_early : sign c st request response before_epoch ≡ err clock_before_epoch
  unfolding sign now_ms
  sign_early = refl

  sign_past :
      (ms : ℕ)
      → leb ms u64_max ≡ false
      → sign c st request response (after_epoch ms) ≡ err clock_overflow
  unfolding sign now_ms
  sign_past ms e = rw e refl

  -- How `sign` ends at a reading of the clock: before the epoch and past the u64 milliseconds it
  -- fails, and otherwise it signs the time of the reading.
  pub data Ends : Reading → Result SignedResponse SigningError → Type 0 where
    too_early : Ends before_epoch (err clock_before_epoch)
    too_late : (ms : ℕ) → u64_max < ms → Ends (after_epoch ms) (err clock_overflow)
    signed :
        (ms : ℕ) (r : SignedResponse)
        → IsU64 ms
        → r.timestamp_ms ≡ ms
        → Ends (after_epoch ms) (ok r)

  -- `sign` ends so at every reading: it never panics, and never signs a made-up timestamp.
  pub sign-Ends : (clock : Reading) → Ends clock (sign c st request response clock)
  sign-Ends before_epoch = unfold sign now_ms in too_early
  sign-Ends (after_epoch ms) = elim (Bool-cases (leb ms u64_max)) [
    | inl e ↦
        subst (Ends (after_epoch ms)) (sym (sign_at ms (fits ms e)))
          (signed ms (signed_at ms) (fits ms e) refl)
    | inr e ↦ subst (Ends (after_epoch ms)) (sym (sign_past ms e)) (too_late ms (past ms e))
  ]

  -- Whatever `sign` returns is the signed response at the time of the reading.
  pub sign-signed_at :
      (clock : Reading) (r : SignedResponse)
      → sign c st request response clock ≡ ok r
      → (ms : ℕ) × IsUsable clock ms × (r ≡ signed_at ms)
  sign-signed_at before_epoch r k = absurd (err-ne-ok (sym sign_early ∙ k))
  sign-signed_at (after_epoch ms) r k = elim (Bool-cases (leb ms u64_max)) [
    | inl e ↦ (ms, (refl, fits ms e), ok-injective (sym k ∙ sign_at ms (fits ms e)))
    | inr e ↦ absurd (err-ne-ok (sym (sign_past ms e) ∙ k))
  ]
