-- ===== src/Confidential/Inner/Encode.antt =====
-- `encode_with_nonce` of src/confidential/inner.rs: its bytes, and that the buffer never moves.
use mathlib.Core.List.{foldl}
use verifiable_rpc_sidecar.Crates.Bhttp.{Bhttp}
use verifiable_rpc_sidecar.Envelope.{response_nonce_len, tag_len}
use verifiable_rpc_sidecar.Confidential.Inner.{Buffer, extend, count_write, encode_with_nonce}
use verifiable_rpc_sidecar.Prelude.{
  le→leb, le→ltb-false, length, length-append, Bytes, u64_max, saturating_add, ℕ, ◌+◌, ◌≤◌, ◌≡◌,
  refl, sym, ap, ◌∙◌, false, some, List, [], ◌∷◌, ◌++◌, append-nil, append_assoc, arith,
}

abbrev pub concat : List Bytes → Bytes
concat [] = []
concat (c ∷ cs) = c ++ concat cs

-- Enough room in a 64-bit usize for a nonce, the message and a tag.
abbrev pub IsEncodable : List Bytes → Type 0
IsEncodable written = response_nonce_len + length (concat written) + tag_len ≤ u64_max

saturating_add-fits : (a b : ℕ) → a + b ≤ u64_max → saturating_add a b ≡ a + b
saturating_add-fits a b h = ground arith

count-concat :
    (written : List Bytes) (n : ℕ)
    → n + length (concat written) ≤ u64_max
    → foldl count_write n written ≡ n + length (concat written)
count-concat [] n h = omega arith
count-concat (c ∷ cs) n h =
    let len = length-append c (concat cs) in
    ap (λ k. foldl count_write k cs) (saturating_add-fits n (length c) (omega (arith, len)))
    ∙ count-concat cs (n + length c) (omega (arith, len))
    ∙ omega (arith, len)

abbrev buffer : Bytes → ℕ → Buffer
buffer bytes capacity = record { bytes = bytes; capacity = capacity; moved = false }

extend-fits :
    (bytes chunk : Bytes) (capacity : ℕ)
    → length (bytes ++ chunk) ≤ capacity
    → extend (buffer bytes capacity) chunk ≡ buffer (bytes ++ chunk) capacity
unfolding extend
extend-fits bytes chunk capacity h = rw (le→ltb-false _ _ h) refl

foldl-extend :
    (written : List Bytes) (bytes : Bytes) (capacity : ℕ)
    → length bytes + length (concat written) ≤ capacity
    → foldl extend (buffer bytes capacity) written ≡ buffer (bytes ++ concat written) capacity
foldl-extend [] bytes capacity h = ap (λ l. buffer l capacity) (sym (append-nil bytes))
foldl-extend (c ∷ cs) bytes capacity h =
    let len = length-append c (concat cs) in
    let mine = length-append bytes c in
    ap (λ b. foldl extend b cs) (extend-fits bytes c capacity (omega (arith, len, mine)))
    ∙ foldl-extend cs (bytes ++ c) capacity (omega (arith, len, mine))
    ∙ ap (λ l. buffer l capacity) (append_assoc bytes c (concat cs))

-- With a 32-byte nonce, an encodable message becomes the nonce and then the message, in a buffer
-- with room for the tag that was never moved: no copy of the plaintext is left behind.
pub encode_with_nonce_lem :
    (b : Bhttp) (msg : b.Message) (nonce : Bytes) (written : List Bytes)
    → length nonce ≡ response_nonce_len
    → b.write_bhttp msg ≡ some written
    → IsEncodable written
    → (buf : Buffer) × (encode_with_nonce b msg nonce ≡ some buf)
      × (buf.bytes ≡ nonce ++ concat written)
      × (buf.capacity ≡ length buf.bytes + tag_len)
      × (buf.moved ≡ false)
unfolding encode_with_nonce
encode_with_nonce_lem b msg nonce written n w h = (
  buffer (nonce ++ concat written) (response_nonce_len + length (concat written) + tag_len),
  rw w (
      rw
        (
          counted,
          le→leb (32 + length (concat written)) u64_max (omega arith),
          le→leb (32 + length (concat written) + 16) u64_max (omega arith),
        )
        (ap some written_out)),
  refl,
  omega (arith, n, length-append nonce (concat written)),
  refl,
)
  where
    counted : foldl count_write 0 written ≡ length (concat written)
    counted = count-concat written 0 (omega arith) ∙ omega arith

    capacity : ℕ
    capacity = 32 + length (concat written) + 16

    written_out :
        foldl extend (extend (buffer [] capacity) nonce) written
        ≡ buffer (nonce ++ concat written) capacity
    written_out =
        ap (λ b. foldl extend b written) (extend-fits [] nonce capacity (omega (arith, n)))
        ∙ foldl-extend written nonce capacity (omega (arith, n))
