-- ===== src/Prelude/ByteStrings.antt =====
-- Byte strings: equality, prefixes, and Rust's copies between slices.
use Prim.Native.Nat.{ℕ, zero, ◌+◌, ◌-◌, ◌<◌}
use mathlib.Core.Path.{◌≡◌, refl, subst}
use mathlib.Core.Logic.{◌↔◌}
use mathlib.Core.Bool.{Bool, true, false, ◌&&◌}
use mathlib.Core.Option.{Option, none, some}
use mathlib.Core.List.{List, [], ◌∷◌, ◌++◌, append_assoc}
use native.Mathlib.Omega.{arith}
use verifiable_rpc_sidecar.Prelude.Tests.{leb, ◌==◌, if◌then◌else◌, and-true, ==_iff, ==_refl}
use verifiable_rpc_sidecar.Prelude.Lists.{
  length, take, drop, replicate, take-append, drop-append_add, drop-replicate, length-append,
  length-replicate, All,
}
use verifiable_rpc_sidecar.Prelude.Results.{Result, ok, panic}

abbrev pub Bytes : Type 0
Bytes = List ℕ

abbrev pub IsByte : ℕ → Type 0
IsByte b = b < 256

abbrev pub AreBytes : Bytes → Type 0
AreBytes = All IsByte

-- `==` of two byte strings.
abbrev pub bytes_eq : Bytes → Bytes → Bool
bytes_eq [] [] = true
bytes_eq [] (y ∷ ys) = false
bytes_eq (x ∷ xs) [] = false
bytes_eq (x ∷ xs) (y ∷ ys) = (x == y) && bytes_eq xs ys

pub bytes_eq→eq : (xs ys : Bytes) → bytes_eq xs ys ≡ true → xs ≡ ys
bytes_eq→eq [] [] h = refl
bytes_eq→eq [] (y ∷ ys) h = cc
bytes_eq→eq (x ∷ xs) [] h = cc
bytes_eq→eq (x ∷ xs) (y ∷ ys) h =
    let (p, q) = and-true (x == y) (bytes_eq xs ys) h in cc ((==_iff x y).0 p, bytes_eq→eq xs ys q)

pub bytes_eq_refl : (xs : Bytes) → bytes_eq xs xs ≡ true
bytes_eq_refl [] = refl
bytes_eq_refl (x ∷ xs) = rw (==_refl x, bytes_eq_refl xs)

pub bytes_eq_iff : (xs ys : Bytes) → (bytes_eq xs ys ≡ true) ↔ (xs ≡ ys)
bytes_eq_iff xs ys =
    (bytes_eq→eq xs ys, λ e. subst (λ z. bytes_eq xs z ≡ true) e (bytes_eq_refl xs))

-- `s.starts_with(p)`
abbrev pub starts_with : Bytes → Bytes → Bool
starts_with [] ys = true
starts_with (x ∷ xs) [] = false
starts_with (x ∷ xs) (y ∷ ys) = (x == y) && starts_with xs ys

abbrev pub zeros : ℕ → Bytes
zeros n = replicate n 0

-- `&bytes[..n]`
abbrev pub slice_to {ℓ} : {E : Type ℓ} → ℕ → Bytes → Result Bytes E
slice_to n bytes = if leb n (length bytes) then ok (take n bytes) else panic

-- `&bytes[n..]`
abbrev pub slice_from {ℓ} : {E : Type ℓ} → ℕ → Bytes → Result Bytes E
slice_from n bytes = if leb n (length bytes) then ok (drop n bytes) else panic

-- `bytes.split_at_checked(n)`
abbrev pub split_at_checked : ℕ → Bytes → Option (Bytes × Bytes)
split_at_checked n bytes = if leb n (length bytes) then some (take n bytes, drop n bytes) else none

-- `bytes.split_at(n)`
abbrev pub split_at {ℓ} : {E : Type ℓ} → ℕ → Bytes → Result (Bytes × Bytes) E
split_at n bytes = if leb n (length bytes) then ok (take n bytes, drop n bytes) else panic

-- `dst[lo..hi].copy_from_slice(src)`: panics where the range does not fit or `src` has another
-- length.
abbrev pub copy_into {ℓ} : {E : Type ℓ} → Bytes → ℕ → ℕ → Bytes → Result Bytes E
copy_into dst lo hi src =
    if leb lo hi && leb hi (length dst) && (length src == hi - lo)
    then ok (take lo dst ++ (src ++ drop hi dst))
    else panic

fill_fits :
    (front src : Bytes) (k : ℕ)
    → (leb (length front) (length front + length src)
        && leb (length front + length src) (length (front ++ zeros (length src + k)))
        && (length src == length front + length src - length front))
      ≡ true
fill_fits front src k =
    ground (
      arith,
      length-append front (zeros (length src + k)),
      length-replicate (length src + k) (zero),
    )

-- Filling a zeroed array from the left: the next `length src` zeros become `src`.
pub copy_into-fill {ℓ} :
    {E : Type ℓ} (front src : Bytes) (k : ℕ)
    → copy_into {E = E}
        (front ++ zeros (length src + k))
        (length front)
        (length front + length src)
        src
      ≡ ok ((front ++ src) ++ zeros k)
copy_into-fill front src k = rw (
  fill_fits front src k,
  take-append front (zeros (length src + k)),
  drop-append_add front (length src) (zeros (length src + k)),
  drop-replicate (length src) k zero,
  append_assoc,
)

-- The same, at numbers that are known to be those lengths.
pub copy_into_step {ℓ} :
    {E : Type ℓ} (front src : Bytes) (lo hi n k : ℕ)
    → length front ≡ lo
    → length src ≡ n
    → lo + n ≡ hi
    → copy_into {E = E} (front ++ zeros (n + k)) lo hi src ≡ ok ((front ++ src) ++ zeros k)
copy_into_step {E} front src lo hi n k p q r = rw (← r, ← p, ← q) (copy_into-fill front src k)
