-- ===== src/Confidential/Inner/Varint.antt =====
-- `take_varint` of src/confidential/inner.rs against the variable-length integers of RFC 9000 §16.
use Prim.Native.Nat.{bit_and, bit_or}
use mathlib.Core.List.{foldl}
use verifiable_rpc_sidecar.Prelude.Bits.{agree_below, agree_below→eq, shifted-bit_or}
use verifiable_rpc_sidecar.Prelude.{
  if◌then◌else◌, take, drop, length-take, true, leb, le→leb, Bool-cases, length, length-append,
  take-append_of_length, drop-append_of_length, ok-ne-panic, err-ne-panic, Bytes, AreBytes, ok, err,
  panic, ℕ, zero, suc, ◌+◌, ◌*◌, ◌/◌, ◌%◌, ◌^◌, ◌≤◌, ◌<◌, ◌≡◌, refl, sym, ap, ◌∙◌, subst, ◌≢◌, ◌⊎◌,
  inl, inr, false, some, [], ◌∷◌, ◌++◌, arith,
}
use verifiable_rpc_sidecar.Confidential.Errors.{InnerError}
use verifiable_rpc_sidecar.Confidential.Framing.{push_byte, take_varint}

-- The slice behind the first byte is in range.
low-length :
    (b : ℕ) (bs : Bytes)
    → leb (2 ^ (b / 64)) (suc (length bs)) ≡ true
    → leb 1 (length (take (2 ^ (b / 64)) (b ∷ bs))) ≡ true
low-length b bs e =
    le→leb 1 (length (take (2 ^ (b / 64)) (b ∷ bs)))
      (omega (arith, length-take (2 ^ (b / 64)) (b ∷ bs), pow-pos (b / 64)))
  where
    pow-pos : (k : ℕ) → 1 ≤ 2 ^ k
    pow-pos zero = omega arith
    pow-pos (suc k) = omega (arith, pow-pos k)

pub take_varint_step :
    (b : ℕ) (bs : Bytes)
    → take_varint (b ∷ bs) ≡ (
        let n = 2 ^ (b / 64) in
        if leb n (suc (length bs))
        then ok
            (some (foldl push_byte (bit_and b 0x3f) (drop 1 (take n (b ∷ bs)))), drop n (b ∷ bs))
        else err InnerError.bad_request)
unfolding take_varint
take_varint_step b bs = elim (Bool-cases (leb (2 ^ (b / 64)) (suc (length bs)))) [
  | inl e ↦ rw (e, low-length b bs e) refl
  | inr e ↦ rw e refl
]

-- Big-endian bytes behind a value.
abbrev pub be_value : ℕ → Bytes → ℕ
be_value acc [] = acc
be_value acc (b ∷ bs) = be_value (acc * 256 + b) bs

push_byte_lem : (v b : ℕ) → v < 2 ^ 56 → b < 256 → push_byte v b ≡ v * 256 + b
push_byte_lem v b hv hb =
    ap (λ t. bit_or t b) {x = v * 2 ^ 8 % 2 ^ 64} {y = v * 2 ^ 8} (omega arith)
    ∙ shifted-bit_or 8 v b hb
    ∙ omega arith

-- What a value must be below so that `n` more bytes keep it below 2 ^ 62.
abbrev below : ℕ → ℕ
below zero = 2 ^ 62
below (suc n) = below n / 256

below-le : (n : ℕ) → below n ≤ 2 ^ 62
below-le zero = omega arith
below-le (suc n) = omega (arith, below-le n)

foldl-be_value :
    (bs : Bytes) (acc : ℕ)
    → AreBytes bs
    → acc < below (length bs)
    → foldl push_byte acc bs ≡ be_value acc bs
foldl-be_value [] acc h f = refl
foldl-be_value (b ∷ bs) acc h f =
    ap (λ t. foldl push_byte t bs) (push_byte_lem acc b (omega (arith, below-le (length bs))) h.0)
    ∙ foldl-be_value bs (acc * 256 + b) h.1 (omega arith)

be_value-lt :
    (bs : Bytes) (acc : ℕ) → AreBytes bs → acc < below (length bs) → be_value acc bs < 2 ^ 62
be_value-lt [] acc h f = f
be_value-lt (b ∷ bs) acc h f = be_value-lt bs (acc * 256 + b) h.1 (omega arith)

low_six : (b : ℕ) → b < 256 → bit_and b 0x3f ≡ b % 64
low_six = agree_below→eq (λ b. bit_and b 0x3f) (λ b. b % 64) 256 (unfold agree_below in refl)

-- The two high bits of a first byte, and how many bytes follow.
prefix-cases : (b : ℕ) → b < 256 → (b / 64 ≡ 0) ⊎ ((b / 64 ≡ 1) ⊎ ((b / 64 ≡ 2) ⊎ (b / 64 ≡ 3)))
prefix-cases b h = ground arith

low-below : (b n k : ℕ) → n + 1 ≡ k + 1 → b % 64 < below k → b % 64 < below n
low-below b n k h = subst (λ t. b % 64 < below t) (omega arith)

module _ (b : ℕ) (bs : Bytes) (hb : b < 256) (n : length bs + 1 ≡ 2 ^ (b / 64)) where
  starts-below : b % 64 < below (length bs)
  starts-below = elim (prefix-cases b hb) [
    | inl e ↦ low-below b (length bs) 0 (n ∙ ap (λ t. 2 ^ t) e) (omega arith)
    | inr (inl e) ↦ low-below b (length bs) 1 (n ∙ ap (λ t. 2 ^ t) e) (omega arith)
    | inr (inr (inl e)) ↦ low-below b (length bs) 3 (n ∙ ap (λ t. 2 ^ t) e) (omega arith)
    | inr (inr (inr e)) ↦ low-below b (length bs) 7 (n ∙ ap (λ t. 2 ^ t) e) (omega arith)
  ]

  -- A first byte whose two high bits are `k`, then `2 ^ k - 1` more bytes, is taken as the
  -- big-endian value of the low six bits and those bytes, below 2 ^ 62, and leaves the rest.
  pub take_varint_lem :
      (rest : Bytes)
      → AreBytes bs
      → (take_varint (b ∷ (bs ++ rest)) ≡ ok (some (be_value (b % 64) bs), rest))
        × (be_value (b % 64) bs < 2 ^ 62)
  take_varint_lem rest h = (
    rw
        (
          take_varint_step b (bs ++ rest),
          sym n,
          le→leb (length bs + 1) (suc (length (bs ++ rest))) (omega (arith, length-append bs rest)),
          low_six b hb,
        )
        (rw (
          take-append_of_length (b ∷ bs) rest (length bs + 1) (omega arith),
          drop-append_of_length (b ∷ bs) rest (length bs + 1) (omega arith),
          foldl-be_value bs (b % 64) h starts-below,
        )),
    be_value-lt bs (b % 64) h starts-below,
  )

-- An input shorter than its first byte says is refused, and no input panics.
pub take_varint-short :
    (b : ℕ) (bs : Bytes)
    → length bs + 1 < 2 ^ (b / 64)
    → take_varint (b ∷ bs) ≡ err InnerError.bad_request
take_varint-short b bs h =
    let e : leb (2 ^ (b / 64)) (suc (length bs)) ≡ false = ground arith in
    rw (take_varint_step b bs, e) refl

pub take_varint-ne-panic : (bs : Bytes) → take_varint bs ≢ panic
unfolding take_varint
take_varint-ne-panic [] h = cc
take_varint-ne-panic (b ∷ bs) h = elim (Bool-cases (leb (2 ^ (b / 64)) (suc (length bs)))) [
  | inl e ↦ ok-ne-panic (rw (take_varint_step b bs, e) at h)
  | inr e ↦ err-ne-panic (rw (take_varint_step b bs, e) at h)
]
