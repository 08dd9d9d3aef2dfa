-- ===== src/Server/Process/Journal.antt =====
-- The journal of a process of src/server.rs, read for one call.
use verifiable_rpc_sidecar.Confidential.Task.{Output}
use verifiable_rpc_sidecar.Prelude.{
  ◌==◌, if◌then◌else◌, ==_refl, Bool-cases, ℕ, ◌≡◌, refl, ap, inl, inr, false, map, List, [], ◌∷◌,
  ◌++◌, arith,
}

-- What a call did, in a journal of all calls.
abbrev pub only : ℕ → List (ℕ × Output) → List Output
only i [] = []
only i ((k, o) ∷ journal) = if k == i then o ∷ only i journal else only i journal

abbrev pub tagged : ℕ → List Output → List (ℕ × Output)
tagged i out = map (λ o. (i, o)) out

pub only-append : (i : ℕ) (xs ys : List (ℕ × Output)) → only i (xs ++ ys) ≡ only i xs ++ only i ys
only-append i [] ys = refl
only-append i ((k, o) ∷ xs) ys = elim (Bool-cases (k == i)) [
  | inl e ↦ rw e (ap (λ l. o ∷ l) (only-append i xs ys))
  | inr e ↦ rw e (only-append i xs ys)
]

pub only-own : (i : ℕ) (out : List Output) → only i (tagged i out) ≡ out
only-own i [] = refl
only-own i (o ∷ out) = rw (==_refl i) (ap (λ l. o ∷ l) (only-own i out))

pub only-other : (i k : ℕ) (out : List Output) → (k == i) ≡ false → only k (tagged i out) ≡ []
only-other i k [] e = refl
only-other i k (o ∷ out) e = rw (flipped e) (only-other i k out e)
  where
    flipped : (k == i) ≡ false → (i == k) ≡ false
    flipped e = ground arith
