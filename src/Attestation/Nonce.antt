-- ===== src/Attestation/Nonce.antt =====
-- `parse_user_nonce` of src/attestation.rs: which texts it takes, and for which bytes.
use verifiable_rpc_sidecar.Crates.Crypto.{Crypto}
use verifiable_rpc_sidecar.Attestation.{nonce_not_hex, trim_start_matches, parse_user_nonce}
use verifiable_rpc_sidecar.Prelude.{
  ◌==◌, ==_iff, ==_refl, Bool-cases, length, ok_or-bind, err-ne-ok, ok-injective, Bytes, Text, trim,
  ok, ℕ, ◌≡◌, refl, ap, ◌∙◌, subst, ◌↔◌, inl, inr, some, ◌∷◌,
}

-- The text behind the white space and every prefix `0x`, and then every prefix `0X`.
abbrev pub digits : Text → Text
digits s = trim_start_matches b'0' b'X' (trim_start_matches b'0' b'x' (trim s))

module _ (c : Crypto) where
  -- A nonce is accepted exactly when the digits behind the white space and the prefixes decode to
  -- 32 bytes, which are the nonce.
  pub parse_user_nonce_iff :
      (s : Text) (nonce : Bytes)
      → (parse_user_nonce c s ≡ ok nonce)
        ↔ ((c.hex_decode (digits s) ≡ some nonce) × (length nonce ≡ 32))
  unfolding parse_user_nonce
  parse_user_nonce_iff s nonce = (forward, λ (e, l). rw (e, (==_iff (length nonce) 32).1 l) refl)
    where
      forward :
          parse_user_nonce c s ≡ ok nonce
          → (c.hex_decode (digits s) ≡ some nonce) × (length nonce ≡ 32)
      forward e =
          let (bytes, decoded, e1) = ok_or-bind nonce_not_hex (c.hex_decode (digits s)) _ e in
          elim (Bool-cases (length bytes == 32)) [
            | inl t ↦
                let same : bytes ≡ nonce = ok-injective (rw t at e1) in
                (
                  decoded ∙ ap some same,
                  subst (λ b. length b ≡ 32) same ((==_iff (length bytes) 32).0 t),
                )
            | inr t ↦ absurd (err-ne-ok (rw t at e1))
          ]

-- A prefix is dropped however often it is repeated.
pub trim_start_matches-repeated :
    (p q : ℕ) (s : Text) → trim_start_matches p q (p ∷ q ∷ s) ≡ trim_start_matches p q s
trim_start_matches-repeated p q s = rw (==_refl p, ==_refl q) refl
