-- ===== src/Prelude/Strings.antt =====
-- Text as the list of its Unicode scalar values; literals, whitespace, ASCII tests, trimming.
use Prim.Native.Nat.{◌/◌, ◌%◌, ◌<◌, ℕ, ◌+◌, suc}
use native.Mathlib.Omega.{arith}
use mathlib.Core.Path.{◌≡◌, refl, ap}
use mathlib.Core.List.{◌++◌}
use Prim.Native.Char.{code}
use Prim.Native.String.{String}
use mathlib.Core.Bool.{Bool, true, false, ◌&&◌, ◌||◌}
use mathlib.Core.List.{List, [], ◌∷◌}
use verifiable_rpc_sidecar.Prelude.Tests.{ltb, leb, ◌==◌, if◌then◌else◌, and-true}
use verifiable_rpc_sidecar.Prelude.Lists.{All, drop_while, length}
use verifiable_rpc_sidecar.Prelude.ByteStrings.{Bytes}

-- A `str`, as its scalar values. An ASCII literal is its bytes too.
abbrev pub Text : Type 0
Text = List ℕ

abbrev pub codes : String → List ℕ
codes String.[] = []
codes (String.◌∷◌ c s) = code c ∷ codes s

-- `char::is_whitespace`: the Unicode property White_Space.
unfoldable pub is_whitespace : ℕ → Bool
is_whitespace c =
    (leb 0x9 c && leb c 0xd)
    || c == 0x20
    || c == 0x85
    || c == 0xa0
    || c == 0x1680
    || (leb 0x2000 c && leb c 0x200a)
    || c == 0x2028
    || c == 0x2029
    || c == 0x202f
    || c == 0x205f
    || c == 0x3000

-- `char::is_ascii_graphic`
unfoldable pub is_ascii_graphic : ℕ → Bool
is_ascii_graphic c = leb 0x21 c && leb c 0x7e

-- The UTF-8 encoding of a scalar value.
unfoldable pub encode_utf8 : ℕ → Bytes
encode_utf8 c =
    if ltb c 0x80
    then c ∷ []
    else if ltb c 0x800
    then (0xc0 + c / 64) ∷ (0x80 + c % 64) ∷ []
    else if ltb c 0x10000
    then (0xe0 + c / 4096) ∷ (0x80 + c / 64 % 64) ∷ (0x80 + c % 64) ∷ []
    else (0xf0 + c / 262144) ∷ (0x80 + c / 4096 % 64) ∷ (0x80 + c / 64 % 64) ∷ (0x80 + c % 64) ∷ []

-- `str::as_bytes`; `str::len` is its length.
unfoldable pub as_bytes : Text → Bytes
unfolding encode_utf8
as_bytes [] = []
as_bytes (c ∷ cs) = encode_utf8 c ++ as_bytes cs

-- The bytes of an ASCII text are its characters.
pub as_bytes-ascii : (s : Text) → All (λ c. c < 0x80) s → as_bytes s ≡ s
unfolding as_bytes
as_bytes-ascii [] h = refl
as_bytes-ascii (c ∷ cs) h = ground (arith, as_bytes-ascii cs h.1)

-- `trim_start`, `trim_end` and `trim`, by any test on characters.
abbrev pub trim_end_cons : (ℕ → Bool) → ℕ → Text → Text
trim_end_cons p c [] = if p c then [] else c ∷ []
trim_end_cons p c (x ∷ xs) = c ∷ x ∷ xs

abbrev pub trim_end : (ℕ → Bool) → Text → Text
trim_end p [] = []
trim_end p (c ∷ cs) = trim_end_cons p c (trim_end p cs)

unfoldable pub trim : Text → Text
unfolding is_whitespace
trim s = trim_end is_whitespace (drop_while is_whitespace s)

-- `u8::to_ascii_lowercase` and `eq_ignore_ascii_case`
unfoldable pub to_ascii_lowercase : ℕ → ℕ
to_ascii_lowercase c = if leb b'A' c && leb c b'Z' then c + 32 else c

unfoldable pub eq_ignore_ascii_case : Bytes → Bytes → Bool
unfolding to_ascii_lowercase
eq_ignore_ascii_case [] [] = true
eq_ignore_ascii_case [] (y ∷ ys) = false
eq_ignore_ascii_case (x ∷ xs) [] = false
eq_ignore_ascii_case (x ∷ xs) (y ∷ ys) =
    to_ascii_lowercase x == to_ascii_lowercase y && eq_ignore_ascii_case xs ys

pub eq_ignore_ascii_case-length :
    (xs ys : Bytes) → eq_ignore_ascii_case xs ys ≡ true → length xs ≡ length ys
unfolding eq_ignore_ascii_case
eq_ignore_ascii_case-length [] [] h = refl
eq_ignore_ascii_case-length [] (y ∷ ys) h = cc
eq_ignore_ascii_case-length (x ∷ xs) [] h = cc
eq_ignore_ascii_case-length (x ∷ xs) (y ∷ ys) h =
    ap suc (eq_ignore_ascii_case-length xs ys (and-true _ _ h).1)
