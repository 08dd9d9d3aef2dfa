-- ===== src/Signing/Headers.antt =====
-- The three signing headers of src/proxy.rs and src/confidential.rs, read back by a client as
-- README.md states it.
use verifiable_rpc_sidecar.Crates.Crypto.{Crypto, CryptoLaws}
use verifiable_rpc_sidecar.Crates.Http.{HeaderMap}
use verifiable_rpc_sidecar.Util.{prefixed_hex}
use verifiable_rpc_sidecar.Signing.{
  SigningState, SignedResponse, Reading, pubkey_bytes, signature_hex, sign,
}
use verifiable_rpc_sidecar.Signing.PreImage.{layout}
use verifiable_rpc_sidecar.Signing.Verify.{IsConsistent, signed_at, sign-signed_at}
use verifiable_rpc_sidecar.Prelude.{
  if◌then◌else◌, Bool-cases, drop, keep, any, Bytes, AreBytes, bytes_eq, bytes_eq→eq, starts_with,
  IsU64, to_string, digits_value, digits_value-decimal, decimal-ascii, Text, codes, as_bytes,
  as_bytes-ascii, ok, ℕ, ◌≡◌, refl, sym, ap, ◌∙◌, subst, ◌≢◌, inl, inr, Bool, true, false, ◌||◌,
  Option, none, some, [], ◌∷◌, ◌++◌, arith,
}

-- The value of the first header of a name.
abbrev pub header : Bytes → HeaderMap → Option Bytes
header name [] = none
header name ((n, v) ∷ hs) = let rest = header name hs in if bytes_eq n name then some v else rest

abbrev pub is_signing : Bytes × Bytes → Bool
is_signing (name, value) =
    bytes_eq name (codes "vrpc-signature")
    || bytes_eq name (codes "vrpc-timestamp")
    || bytes_eq name (codes "vrpc-pubkey")

-- `0x` and hex digits
abbrev read_hex : Crypto → Option Bytes → Option Bytes
read_hex c none = none
read_hex c (some v) = if starts_with (codes "0x") v then c.hex_decode (drop 2 v) else none

abbrev read_decimal : Option Bytes → Option ℕ
read_decimal none = none
read_decimal (some v) = digits_value 0 v

abbrev check : Crypto → Text → Bytes → Bytes → Option Bytes → Option ℕ → Option Bytes → Bool
check c chain_id request response (some signature) (some ms) (some pubkey) =
    c.ed25519_verify pubkey
      (layout (c.sha256 (as_bytes chain_id)) (c.sha256 request) (c.sha256 response) ms) signature
check c chain_id request response _ _ _ = false

-- The client takes the signature, the timestamp and the key from the headers.
abbrev pub headers_verify : Crypto → Text → Bytes → Bytes → HeaderMap → Bool
headers_verify c chain_id request response hs =
    check c chain_id request response (read_hex c (header (codes "vrpc-signature") hs))
      (read_decimal (header (codes "vrpc-timestamp") hs))
      (read_hex c (header (codes "vrpc-pubkey") hs))

true-ne-false : true ≢ false
true-ne-false h = cc

-- Headers in front that are none of the three do not change what is read.
header-skip :
    (name : Bytes) (front hs : HeaderMap)
    → ((v : Bytes) → is_signing (name, v) ≡ true)
    → any is_signing front ≡ false
    → header name (front ++ hs) ≡ header name hs
header-skip name [] hs k h = refl
header-skip name ((n, v) ∷ front) hs k h = elim (Bool-cases (bytes_eq n name)) [
  | inl e ↦
      absurd (clash (subst (λ m. any is_signing ((m, v) ∷ front) ≡ false) (bytes_eq→eq n name e) h))
  | inr e ↦ rw e (header-skip name front hs k (rest h))
]
  where
    clash : any is_signing ((name, v) ∷ front) ≢ false
    clash h = absurd (true-ne-false (sym (rw (k v) refl) ∙ h))

    rest : any is_signing ((n, v) ∷ front) ≡ false → any is_signing front ≡ false
    rest h = elim (Bool-cases (is_signing (n, v))) [
      | inl e ↦ absurd (true-ne-false (rw e at h))
      | inr e ↦ rw e at h
    ]

-- A filter that keeps the headers of a name does not change what is read of it.
pub header-keep :
    (name : Bytes) (p : Bytes × Bytes → Bool) (hs : HeaderMap)
    → ((v : Bytes) → p (name, v) ≡ true)
    → header name (keep p hs) ≡ header name hs
header-keep name p [] k = refl
header-keep name p ((n, v) ∷ hs) k = elim (Bool-cases (bytes_eq n name)) [
  | inl e ↦
      let kept : p (n, v) ≡ true =
        subst (λ m. p (m, v) ≡ true) (sym (bytes_eq→eq n name e)) (k v) in
      rw kept (rw e refl)
  | inr e ↦ elim (Bool-cases (p (n, v))) [
    | inl t ↦ rw t (rw e (header-keep name p hs k))
    | inr t ↦ rw (t, e) (header-keep name p hs k)
  ]
]

-- Headers that agree behind such a filter verify alike.
pub headers_verify-keep :
    (c : Crypto) (chain_id : Text) (request response : Bytes) (p : Bytes × Bytes → Bool)
    (hs ks : HeaderMap)
    → ((name v : Bytes) → is_signing (name, v) ≡ true → p (name, v) ≡ true)
    → keep p hs ≡ keep p ks
    → (headers_verify c chain_id request response hs
        ≡ headers_verify c chain_id request response ks)
      × (header (codes "vrpc-pubkey") hs ≡ header (codes "vrpc-pubkey") ks)
headers_verify-keep c chain_id request response p hs ks k e =
    (rw (same _ (λ v. refl), same _ (λ v. refl), same _ (λ v. refl)) refl, same _ (λ v. refl))
  where
    same :
        (name : Bytes)
        → ((v : Bytes) → is_signing (name, v) ≡ true)
        → header name hs ≡ header name ks
    same name s =
        sym (header-keep name p hs (λ v. k name v (s v)))
        ∙ ap (header name) e
        ∙ header-keep name p ks λ v. k name v (s v)

pub any-keep :
    (q p : Bytes × Bytes → Bool) (hs : HeaderMap) → any q hs ≡ false → any q (keep p hs) ≡ false
any-keep q p [] h = refl
any-keep q p (x ∷ hs) h = elim (Bool-cases (q x)) [
  | inl e ↦ absurd (true-ne-false (rw e at h))
  | inr e ↦ elim (Bool-cases (p x)) [
    | inl t ↦ rw t (rw e (any-keep q p hs (rw e at h)))
    | inr t ↦ rw t (any-keep q p hs (rw e at h))
  ]
]

module _ (c : Crypto) (laws : CryptoLaws c) where
  -- A hex header reads back as its bytes.
  read_hex-prefixed :
      (b : Bytes) → AreBytes b → read_hex c (some (as_bytes (prefixed_hex c b))) ≡ some b
  unfolding prefixed_hex
  read_hex-prefixed b h =
      rw
        (as_bytes-ascii (codes "0x" ++ c.hex_encode b)
          (omega arith, (omega arith, laws.hex_encode-ascii b h)))
        (laws.hex_decode-encode b h)

  read_decimal-to_string :
      (ms : ℕ) → IsU64 ms → read_decimal (some (as_bytes (to_string ms))) ≡ some ms
  read_decimal-to_string ms h =
      rw (as_bytes-ascii (to_string ms) (decimal-ascii 19 ms))
        (digits_value-decimal 19 ms (omega arith))

  -- The three headers of a signed response.
  abbrev fields : SignedResponse → HeaderMap → HeaderMap
  fields r tail =
      (codes "vrpc-signature", as_bytes (signature_hex c r))
      ∷ (codes "vrpc-timestamp", as_bytes (to_string r.timestamp_ms))
      ∷ (codes "vrpc-pubkey", as_bytes r.pubkey_hex)
      ∷ tail

  module _ (st : SigningState) (v : IsConsistent c st) (request response : Bytes) where
    -- What a client finds in headers: a signature that verifies, under the key of the state.
    abbrev pub Verifies : HeaderMap → Type 0
    Verifies hs =
        (headers_verify c st.chain_id request response hs ≡ true)
        × (header (codes "vrpc-pubkey") hs ≡ some (as_bytes (prefixed_hex c (pubkey_bytes c st))))

    signed_at-Verifies :
        (front tail : HeaderMap) (ms : ℕ)
        → any is_signing front ≡ false
        → IsU64 ms
        → Verifies (front ++ fields (signed_at c laws st v request response ms) tail)
    unfolding signature_hex pubkey_bytes
    signed_at-Verifies front tail ms none_in_front u =
        rw
          (
            header-skip (codes "vrpc-signature") front _ (λ v. refl) none_in_front,
            header-skip (codes "vrpc-timestamp") front _ (λ v. refl) none_in_front,
            header-skip (codes "vrpc-pubkey") front _ (λ v. refl) none_in_front,
            read_hex-prefixed _ (laws.ed25519_sign-AreBytes st.signing_key _),
            read_decimal-to_string ms u,
            read_hex-prefixed _ (laws.verifying_key-AreBytes st.signing_key),
          )
          (laws.verify-sign st.signing_key _, refl)

    -- A client that reads the signing headers of what `sign` returned verifies them, behind any
    -- headers of other names.
    pub sign-Verifies :
        (clock : Reading) (r : SignedResponse) (front tail : HeaderMap)
        → sign c st request response clock ≡ ok r
        → any is_signing front ≡ false
        → Verifies (front ++ fields r tail)
    sign-Verifies clock r front tail k none_in_front =
        let (ms, (now, u), same) = sign-signed_at c laws st v request response clock r k in
        subst (λ x. Verifies (front ++ fields x tail)) (sym same)
          (signed_at-Verifies front tail ms none_in_front u)
