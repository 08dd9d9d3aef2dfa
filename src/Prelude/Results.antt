-- ===== src/Prelude/Results.antt =====
-- What a Rust call ends in: `Ok`, `Err`, or a panic (an index out of range, a slice of another
-- length). `?` is the bind.
use mathlib.Core.Bool.{Bool, true, false}
use verifiable_rpc_sidecar.Prelude.Tests.{if◌then◌else◌}
use mathlib.Core.Path.{◌≡◌, refl, ap, subst}
use mathlib.Core.Logic.{◌≢◌, ◌⊎◌, inl, inr}
use mathlib.Core.Option.{Option, none, some}

pub data Result {ℓ κ} (A : Type ℓ) (E : Type κ) : Type (ℓ ⊔ κ) where
  ok : A → Result A E
  err : E → Result A E
  panic : Result A E

infixl 5 ◌>>=◌
abbrev pub ◌>>=◌ {ℓ κ ι} :
    {A : Type ℓ} {B : Type κ} {E : Type ι} → Result A E → (A → Result B E) → Result B E
ok a >>= f = f a
err e >>= f = err e
panic >>= f = panic

infixl 5 ◌>>◌
abbrev pub ◌>>◌ {ℓ κ ι} :
    {A : Type ℓ} {B : Type κ} {E : Type ι} → Result A E → Result B E → Result B E
m >> k = m >>= λ _. k

-- `ok_or(e)?`, and `map_err(|_| e)?` on a call of another crate.
abbrev pub ok_or {ℓ κ} : {A : Type ℓ} {E : Type κ} → E → Option A → Result A E
ok_or e none = err e
ok_or e (some a) = ok a

abbrev pub map_err {ℓ κ ι} :
    {A : Type ℓ} {E : Type κ} {F : Type ι} → (E → F) → Result A E → Result A F
map_err f (ok a) = ok a
map_err f (err e) = err (f e)
map_err f panic = panic

-- `.ok()`; a panic is not caught, so it is kept apart by the theorems that rule it out.
abbrev pub to_option {ℓ κ} : {A : Type ℓ} {E : Type κ} → Result A E → Option A
to_option (ok a) = some a
to_option _ = none

-- Inversion of a successful call of another crate that `ok_or` wraps.
pub ok_or-bind {ℓ κ ι} :
    {A : Type ℓ} {B : Type κ} {E : Type ι} (e : E) (o : Option A) (f : A → Result B E) {b : B}
    → (ok_or e o >>= f) ≡ ok b
    → (a : A) × (o ≡ some a) × (f a ≡ ok b)
ok_or-bind e none f h = cc
ok_or-bind e (some a) f h = (a, refl, h)

-- A bind whose first part is known to succeed.
pub >>=-ok {ℓ κ ι} :
    {A : Type ℓ} {B : Type κ} {E : Type ι} (m : Result A E) (f : A → Result B E) {a : A}
    → m ≡ ok a
    → (m >>= f) ≡ f a
>>=-ok m f h = ap (λ r. r >>= f) h

pub ok-ne-panic {ℓ κ} : {A : Type ℓ} {E : Type κ} {a : A} → ◌≢◌ {A = Result A E} (ok a) panic
ok-ne-panic h = cc

pub err-ne-panic {ℓ κ} : {A : Type ℓ} {E : Type κ} {e : E} → ◌≢◌ {A = Result A E} (err e) panic
err-ne-panic h = cc

pub err-ne-ok {ℓ κ} :
    {A : Type ℓ} {E : Type κ} {e : E} {a : A} → ◌≢◌ {A = Result A E} (err e) (ok a)
err-ne-ok h = cc

-- Inversion of a bind that succeeds.
pub >>=-ok_inv {ℓ κ ι} :
    {A : Type ℓ} {B : Type κ} {E : Type ι} (m : Result A E) (f : A → Result B E) {b : B}
    → (m >>= f) ≡ ok b
    → (a : A) × (m ≡ ok a) × (f a ≡ ok b)
>>=-ok_inv (ok a) f h = (a, refl, h)
>>=-ok_inv (err e) f h = cc
>>=-ok_inv panic f h = cc

pub map_err-ok {ℓ κ ι} :
    {A : Type ℓ} {E : Type κ} {F : Type ι} (g : E → F) (m : Result A E) {a : A}
    → map_err g m ≡ ok a
    → m ≡ ok a
map_err-ok g (ok a) h = cc
map_err-ok g (err e) h = cc
map_err-ok g panic h = cc

-- Both arguments of two successes that are the same pair.
pub ok-injective {ℓ κ} :
    {A : Type ℓ} {E : Type κ} {a b : A} → ◌≡◌ {A = Result A E} (ok a) (ok b) → a ≡ b
ok-injective h = cc

-- A call that does not panic, and whose errors all have a property.
module _ {ℓ κ} {A : Type ℓ} {E : Type κ} (P : E → Type 0) where
  abbrev pub FailsOnly : Result A E → Type 0
  FailsOnly (ok a) = Unit
  FailsOnly (err e) = P e
  FailsOnly panic = ⊥

  pub ok_or-FailsOnly : (e : E) (o : Option A) → P e → FailsOnly (ok_or e o)
  ok_or-FailsOnly e none h = h
  ok_or-FailsOnly e (some a) h = tt

  pub if-FailsOnly :
      (t : Bool) (m n : Result A E) → FailsOnly m → FailsOnly n → FailsOnly (if t then m else n)
  if-FailsOnly true m n h k = h
  if-FailsOnly false m n h k = k

  pub FailsOnly-err : {m : Result A E} {e : E} → FailsOnly m → m ≡ err e → P e
  FailsOnly-err h k = subst FailsOnly k h

  pub FailsOnly-ne-panic : {m : Result A E} → FailsOnly m → m ≢ panic
  FailsOnly-ne-panic h k = absurd (subst FailsOnly k h)

  pub map_err-FailsOnly_of {ι} :
      {F : Type ι} (g : F → E) (m : Result A F)
      → m ≢ panic
      → ((e : F) → m ≡ err e → P (g e))
      → FailsOnly (map_err g m)
  map_err-FailsOnly_of g (ok a) n h = tt
  map_err-FailsOnly_of g (err e) n h = h e refl
  map_err-FailsOnly_of g panic n h = absurd (n refl)

  pub map_err-FailsOnly {ι} :
      {F : Type ι} (g : F → E) (m : Result A F)
      → m ≢ panic
      → ((e : F) → P (g e))
      → FailsOnly (map_err g m)
  map_err-FailsOnly g m n h = map_err-FailsOnly_of g m n λ e k. h e

  pub ok_or-FailsOnly_of : (e : E) (o : Option A) → (o ≡ none → P e) → FailsOnly (ok_or e o)
  ok_or-FailsOnly_of e none h = h refl
  ok_or-FailsOnly_of e (some a) h = tt

pub >>=-FailsOnly {ℓ κ ι} :
    {A : Type ℓ} {B : Type ι} {E : Type κ} (P : E → Type 0) (m : Result A E) (f : A → Result B E)
    → FailsOnly P m
    → ((a : A) → m ≡ ok a → FailsOnly P (f a))
    → FailsOnly P (m >>= f)
>>=-FailsOnly P (ok a) f h k = k a refl
>>=-FailsOnly P (err e) f h k = h
>>=-FailsOnly P panic f h k = h

pub ok_or-ok {ℓ κ} :
    {A : Type ℓ} {E : Type κ} (e : E) (o : Option A) {a : A}
    → ◌≡◌ {A = Result A E} (ok_or e o) (ok a)
    → o ≡ some a
ok_or-ok e none h = cc
ok_or-ok e (some a) h = cc

pub to_option-some {ℓ κ} :
    {A : Type ℓ} {E : Type κ} (m : Result A E) {a : A} → to_option m ≡ some a → m ≡ ok a
to_option-some (ok a) h = cc
to_option-some (err e) h = cc
to_option-some panic h = cc

-- A result that is not a panic is one of two.
pub Result-cases {ℓ κ} :
    {A : Type ℓ} {E : Type κ} (m : Result A E)
    → m ≢ panic
    → ((a : A) × (m ≡ ok a)) ⊎ ((e : E) × (m ≡ err e))
Result-cases (ok a) n = inl (a, refl)
Result-cases (err e) n = inr (e, refl)
Result-cases panic n = absurd (n refl)
