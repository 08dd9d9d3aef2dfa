-- ===== src/Confidential/Framing.antt =====
-- src/confidential/inner.rs: the framing of a plaintext, checked before it is decoded.
use Prim.Native.Nat.{bit_and, bit_or}
use mathlib.Core.List.{foldl}
use verifiable_rpc_sidecar.Confidential.Errors.{InnerError}
use verifiable_rpc_sidecar.Prelude.{
  slice_from, split_at_checked, ltb, leb, if◌then◌else◌, length, drop, Result, ◌>>=◌, ok_or, Bytes,
  u64_max, ok, err, ℕ, zero, suc, ◌*◌, ◌/◌, ◌%◌, ◌^◌, Option, none, some, List, [], ◌∷◌,
}

abbrev pub max_field_section_bytes : ℕ
max_field_section_bytes = 64 * 1024

-- `v << 8 | b` on a u64
abbrev pub push_byte : ℕ → ℕ → ℕ
push_byte v b = bit_or (v * 2 ^ 8 % 2 ^ 64) b

-- `take_varint`: the value, or nothing at the end of the input; and the rest.
unfoldable pub take_varint : Bytes → Result (Option ℕ × Bytes) InnerError
take_varint [] = ok (none, [])
take_varint (byte ∷ more) = do
  (bytes, tail) ← ok_or InnerError.bad_request (split_at_checked (2 ^ (byte / 2 ^ 6)) (byte ∷ more))
  low ← slice_from 1 bytes
  ok (some (foldl push_byte (bit_and byte 0x3f) low), tail)

-- `skip`. A u64 is a usize on the 64-bit target.
unfoldable pub skip : Bytes → ℕ → Result Bytes InnerError
skip rest len = if leb len (length rest) then ok (drop len rest) else err InnerError.bad_request

-- The first loop of `check_field_sections`: `n` length-prefixed parts that must be there.
unfoldable pub skip_parts : ℕ → Bytes → Result Bytes InnerError
skip_parts zero rest = ok rest
skip_parts (suc n) rest = do
  (len, rest) ← take_varint rest
  len ← ok_or InnerError.bad_request len
  rest ← skip rest len
  skip_parts n rest

-- The second loop: sections within a limit each; input that ends before one is accepted.
unfoldable pub check_sections : List ℕ → Bytes → Result (Unit {0}) InnerError
check_sections [] rest = ok tt
check_sections (limit ∷ limits) rest = do
  (len, rest) ← take_varint rest
  elim len [
    | none ↦ ok tt
    | some n ↦
        if ltb limit n
        then err InnerError.bad_request
        else do rest ← skip rest n; check_sections limits rest
  ]

abbrev pub section_limits : List ℕ
section_limits = max_field_section_bytes ∷ u64_max ∷ max_field_section_bytes ∷ []

unfoldable pub check_field_sections : Bytes → Result (Unit {0}) InnerError
check_field_sections rest = do rest ← skip_parts 4 rest; check_sections section_limits rest
