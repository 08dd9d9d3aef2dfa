-- ===== src/Prelude/Bits.antt =====
-- Bit operations: functions that agree on a range by evaluation, and `|` of a shifted word with
-- the bits below it.
use Prim.Native.Nat.{
  ℕ, zero, suc, ◌+◌, ◌*◌, ◌/◌, ◌%◌, ◌^◌, ◌≤◌, ◌<◌, max, digits, bit_or, bit_or-bitwise,
}
use native.Mathlib.Nat.{pow-suc}
use mathlib.Core.Path.{◌≡◌, refl, ap, ◌∙◌}
use mathlib.Core.Bool.{Bool, true, ◌&&◌}
use native.Mathlib.Omega.{arith}
use verifiable_rpc_sidecar.Prelude.Tests.{◌==◌}

-- Two functions agree below a bound, by evaluation.
module _ (f g : ℕ → ℕ) where
  unfoldable pub agree_below : ℕ → Bool
  agree_below zero = true
  agree_below (suc n) = f n == g n && agree_below n

  pub agree_below→eq : (n : ℕ) → agree_below n ≡ true → (i : ℕ) → i < n → f i ≡ g i
  unfolding agree_below
  agree_below→eq zero e i h = absurd (omega arith)
  agree_below→eq (suc n) e i h = ground (arith, agree_below→eq n (ground arith) i)

abbrev or_digits : ℕ → ℕ → ℕ → ℕ
or_digits fuel a b = digits (λ d. d) max fuel a b

-- All fuel from the first word on gives the same digits.
or_digits-enough :
    (a b more less : ℕ) → a ≤ less → a ≤ more → or_digits more a b ≡ or_digits less a b
or_digits-enough zero b zero zero h k = refl
or_digits-enough zero b zero (suc less) h k = refl
or_digits-enough zero b (suc more) zero h k = refl
or_digits-enough zero b (suc more) (suc less) h k = refl
or_digits-enough (suc a) b zero less h k = absurd (omega arith)
or_digits-enough (suc a) b (suc more) zero h k = absurd (omega arith)
or_digits-enough (suc a) b (suc more) (suc less) h k =
    ap (λ (d : ℕ). d * 2 + max (suc a % 2) (b % 2))
      (or_digits-enough (suc a / 2) (b / 2) more less (omega arith) (omega arith))

zero-bit_or : (b : ℕ) → bit_or 0 b ≡ b
zero-bit_or b = bit_or-bitwise 0 b

-- One digit at a time.
or_digit : (a b : ℕ) → bit_or a b ≡ bit_or (a / 2) (b / 2) * 2 + max (a % 2) (b % 2)
or_digit zero b = omega (arith, zero-bit_or b, zero-bit_or (b / 2))
or_digit (suc a) b =
    let half : ℕ = suc a / 2 in
    omega (
      arith,
      or_digits-enough half (b / 2) a half (omega arith) (omega arith),
      bit_or-bitwise half (b / 2),
      bit_or-bitwise (suc a) b,
    )

bit_or_double : (a b : ℕ) → bit_or (a * 2) b ≡ bit_or a (b / 2) * 2 + b % 2
bit_or_double a b =
    omega
      (arith, or_digit (a * 2) b, ap (λ t. bit_or t (b / 2)) {x = a * 2 / 2} {y = a} (omega arith))

bit_or-zero_below : (n a : ℕ) → a < n → bit_or a 0 ≡ a
bit_or-zero_below zero a h = absurd (omega arith)
bit_or-zero_below (suc n) zero h = refl
bit_or-zero_below (suc n) (suc a) h =
    omega (arith, or_digit (suc a) 0, bit_or-zero_below n (suc a / 2) (omega arith))

bit_or-zero : (a : ℕ) → bit_or a 0 ≡ a
bit_or-zero a = bit_or-zero_below (suc a) a (omega arith)

-- `(a << k) | b` is a sum, where `b` fits the `k` bits.
pub shifted-bit_or : (k a b : ℕ) → b < 2 ^ k → bit_or (a * 2 ^ k) b ≡ a * 2 ^ k + b
shifted-bit_or zero a b h =
    ap (λ t. bit_or t b) {x = a * 2 ^ 0} {y = a} (omega arith)
    ∙ ap (bit_or a) {x = b} {y = 0} (omega arith)
    ∙ bit_or-zero a
    ∙ omega arith
shifted-bit_or (suc k) a b h =
    ap (λ t. bit_or t b) {x = a * 2 ^ suc k} {y = a * 2 ^ k * 2} (doubled k a)
    ∙ bit_or_double (a * 2 ^ k) b
    ∙ omega (arith, shifted-bit_or k a (b / 2) (omega (arith, pow-suc 2 k)), doubled k a)
  where
    doubled : (j x : ℕ) → x * 2 ^ suc j ≡ x * 2 ^ j * 2
    doubled j x = omega (arith, ap (λ (t : ℕ). x * t) (pow-suc 2 j))
