-- ===== src/Prelude/Words.antt =====
-- Machine words: little-endian bytes of an integer, and the decimal digits of `to_string`.
use Prim.Native.Nat.{ℕ, zero, suc, ◌+◌, ◌-◌, ◌*◌, ◌/◌, ◌%◌, ◌^◌, ◌<◌}
use mathlib.Core.Path.{◌≡◌, refl, ap, ◌∙◌}
use mathlib.Core.Bool.{◌&&◌}
use mathlib.Core.List.{[], ◌∷◌, ◌++◌}
use mathlib.Core.Option.{Option, none, some}
use mathlib.Core.Logic.{inl, inr}
use native.Mathlib.Omega.{arith}
use verifiable_rpc_sidecar.Prelude.Tests.{ltb, leb, if◌then◌else◌, Bool-cases}
use verifiable_rpc_sidecar.Prelude.Lists.{length, All, All-append}
use verifiable_rpc_sidecar.Prelude.ByteStrings.{Bytes}

abbrev pub IsU64 : ℕ → Type 0
IsU64 n = n < 2 ^ 64

-- `usize::MAX` and `u64::MAX` of a 64-bit target.
abbrev pub u64_max : ℕ
u64_max = 2 ^ 64 - 1

abbrev pub saturating_add : ℕ → ℕ → ℕ
saturating_add a b = if leb (a + b) u64_max then a + b else u64_max

abbrev pub checked_add : ℕ → ℕ → Option ℕ
checked_add a b = if leb (a + b) u64_max then some (a + b) else none

-- The `w` low bytes, lowest first.
unfoldable pub le_bytes : ℕ → ℕ → Bytes
le_bytes zero n = []
le_bytes (suc w) n = (n % 256) ∷ le_bytes w (n / 256)

abbrev pub to_le_bytes : ℕ → Bytes
to_le_bytes = le_bytes 8

pub length-le_bytes : (w n : ℕ) → length (le_bytes w n) ≡ w
unfolding le_bytes
length-le_bytes zero n = refl
length-le_bytes (suc w) n = ap suc (length-le_bytes w (n / 256))

-- The bytes determine the integer, below `256 ^ w`.
pub le_bytes-injective :
    (w a b : ℕ) → a < 256 ^ w → b < 256 ^ w → le_bytes w a ≡ le_bytes w b → a ≡ b
unfolding le_bytes
le_bytes-injective zero a b ha hb h = omega arith
le_bytes-injective (suc w) a b ha hb h =
    ground (arith, le_bytes-injective w (a / 256) (b / 256) (omega arith) (omega arith))

-- `n.to_string()`: decimal digits, with fuel for the digits above the last.
unfoldable pub decimal : ℕ → ℕ → Bytes
decimal zero n = (b'0' + n % 10) ∷ []
decimal (suc f) n =
    let rest = decimal f (n / 10) ++ (b'0' + n % 10) ∷ [] in
    if ltb n 10 then (b'0' + n) ∷ [] else rest

-- A u64 has at most 20 digits.
abbrev pub to_string : ℕ → Bytes
to_string = decimal 19

-- Reading the digits back, as a client does.
unfoldable pub digits_value : ℕ → Bytes → Option ℕ
digits_value acc [] = some acc
digits_value acc (c ∷ cs) =
    if leb b'0' c && leb c b'9' then digits_value (acc * 10 + (c - b'0')) cs else none

pub digits_value-append :
    (xs : Bytes) (acc c : ℕ) {n : ℕ}
    → c < 10
    → digits_value acc xs ≡ some n
    → digits_value acc (xs ++ (b'0' + c) ∷ []) ≡ some (n * 10 + c)
unfolding digits_value
digits_value-append [] acc c {n} hc h = ground arith
digits_value-append (x ∷ xs) acc c {n} hc h =
    ground (arith, digits_value-append xs (acc * 10 + (x - b'0')) c {n = n} hc)

pub digits_value-decimal : (f n : ℕ) → n < 10 ^ suc f → digits_value 0 (decimal f n) ≡ some n
unfolding decimal
digits_value-decimal zero n h = unfold digits_value in ground arith
digits_value-decimal (suc f) n h = elim (Bool-cases (ltb n 10)) [
  | inl e ↦ rw e (unfold digits_value in ground arith)
  | inr e ↦ rw e (
      digits_value-append (decimal f (n / 10)) 0 (n % 10) (omega arith)
        (digits_value-decimal f (n / 10) (omega arith))
      ∙ ap some (omega arith))
]

-- The digits are ASCII.
pub decimal-ascii : (f n : ℕ) → All (λ d. d < 0x80) (decimal f n)
unfolding decimal
decimal-ascii zero n = (omega arith, tt)
decimal-ascii (suc f) n = elim (Bool-cases (ltb n 10)) [
  | inl e ↦ rw e (ground arith, tt)
  | inr e ↦ rw e (
      All-append (λ (d : ℕ). d < 0x80) (decimal f (n / 10)) _ (decimal-ascii f (n / 10))
        (omega arith, tt))
]
