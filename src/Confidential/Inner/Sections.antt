-- ===== src/Confidential/Inner/Sections.antt =====
-- `check_field_sections` of src/confidential/inner.rs: the framing of a plaintext.
use verifiable_rpc_sidecar.Confidential.Errors.{InnerError}
use verifiable_rpc_sidecar.Confidential.Framing.{
  take_varint, skip, skip_parts, check_sections, check_field_sections, section_limits,
}
use verifiable_rpc_sidecar.Confidential.Inner.Varint.{take_varint_step}
use verifiable_rpc_sidecar.Prelude.{
  ltb, leb, if◌then◌else◌, leb→le, le→leb, ltb-false→le, le→ltb-false, Bool-cases, length, drop,
  Result, ◌>>=◌, ok_or, ok_or-bind, err-ne-ok, >>=-ok_inv, ok-injective, FailsOnly, ok_or-FailsOnly,
  >>=-FailsOnly, Bytes, ok, err, ℕ, zero, suc, ◌/◌, ◌^◌, ◌≤◌, ◌≡◌, refl, sym, ap, ◌∙◌, subst, ◌↔◌,
  inl, inr, Option, none, some, List, [], ◌∷◌,
}

-- The one error of the framing.
abbrev pub IsBadRequest : InnerError → Type 0
IsBadRequest e = e ≡ InnerError.bad_request

pub take_varint-FailsOnly : (bs : Bytes) → FailsOnly IsBadRequest (take_varint bs)
unfolding take_varint
take_varint-FailsOnly [] = tt
take_varint-FailsOnly (b ∷ bs) = elim (Bool-cases (leb (2 ^ (b / 64)) (suc (length bs)))) [
  | inl e ↦ rw (take_varint_step b bs, e) tt
  | inr e ↦ rw (take_varint_step b bs, e) refl
]

skip-FailsOnly : (rest : Bytes) (n : ℕ) → FailsOnly IsBadRequest (skip rest n)
unfolding skip
skip-FailsOnly rest n = elim (Bool-cases (leb n (length rest))) [
  | inl e ↦ rw e tt
  | inr e ↦ rw e refl
]

skip_parts-FailsOnly : (n : ℕ) (rest : Bytes) → FailsOnly IsBadRequest (skip_parts n rest)
unfolding skip_parts
skip_parts-FailsOnly zero rest = tt
skip_parts-FailsOnly (suc n) rest =
    >>=-FailsOnly IsBadRequest (take_varint rest) _ (take_varint-FailsOnly rest) λ r e.
      >>=-FailsOnly IsBadRequest (ok_or InnerError.bad_request r.0) _
        (ok_or-FailsOnly IsBadRequest _ r.0 refl)
        λ len e.
          >>=-FailsOnly IsBadRequest (skip r.1 len) _ (skip-FailsOnly r.1 len)
            λ rest e. skip_parts-FailsOnly n rest

check_sections-FailsOnly :
    (limits : List ℕ) (rest : Bytes) → FailsOnly IsBadRequest (check_sections limits rest)
unfolding check_sections
check_sections-FailsOnly [] rest = tt
check_sections-FailsOnly (limit ∷ limits) rest =
    >>=-FailsOnly IsBadRequest (take_varint rest) _ (take_varint-FailsOnly rest)
      λ r e. section (λ rest. check_sections-FailsOnly limits rest) r.0 r.1
  where
    section :
        ((rest : Bytes) → FailsOnly IsBadRequest (check_sections limits rest))
        → (len : Option ℕ) (rest : Bytes)
        → FailsOnly {A = Unit {0}} IsBadRequest (elim len [
          | none ↦ ok tt
          | some n ↦
              if ltb limit n
              then err InnerError.bad_request
              else do rest ← skip rest n; check_sections limits rest
        ])
    section k none rest = tt
    section k (some n) rest = elim (Bool-cases (ltb limit n)) [
      | inl e ↦ rw e refl
      | inr e ↦
          rw e (>>=-FailsOnly IsBadRequest (skip rest n) _ (skip-FailsOnly rest n) λ rest e. k rest)
    ]

-- The check never panics, and refuses with 400 alone.
pub check_field_sections-FailsOnly :
    (rest : Bytes) → FailsOnly IsBadRequest (check_field_sections rest)
unfolding check_field_sections
check_field_sections-FailsOnly rest =
    >>=-FailsOnly IsBadRequest (skip_parts 4 rest) _ (skip_parts-FailsOnly 4 rest)
      λ rest e. check_sections-FailsOnly section_limits rest

-- A part of a plaintext: the value of its length, and its bytes.
abbrev IsPart : Bytes → ℕ → Bytes → Type 0
IsPart bs n rest =
    (after : Bytes) × (take_varint bs ≡ ok (some n, after))
    × (n ≤ length after)
    × (rest ≡ drop n after)

-- The sections from here on: none is left, or the input ends, or one is within its limit and the
-- rest are sections too.
pub data AreSections : List ℕ → Bytes → Type 0 where
  no_more : (bs : Bytes) → AreSections [] bs
  ends :
      (limits : List ℕ) (bs rest : Bytes) → take_varint bs ≡ ok (none, rest) → AreSections limits bs
  section :
      (limit : ℕ) (limits : List ℕ) (bs : Bytes) (n : ℕ) (rest : Bytes)
      → n ≤ limit
      → IsPart bs n rest
      → AreSections limits rest
      → AreSections (limit ∷ limits) bs

pub data AreParts : ℕ → Bytes → Bytes → Type 0 where
  no_part : (bs : Bytes) → AreParts 0 bs bs
  part :
      (k : ℕ) (bs : Bytes) (n : ℕ) (rest last : Bytes)
      → IsPart bs n rest
      → AreParts k rest last
      → AreParts (suc k) bs last

-- The framing that RFC 9292 gives a known-length request: four parts of the control data, then
-- the header section, the content and the trailer section, the two sections within 64 KiB.
abbrev pub IsFramed : Bytes → Type 0
IsFramed bs = (rest : Bytes) × AreParts 4 bs rest × AreSections section_limits rest

IsPart-of_steps :
    (bs : Bytes) (n : ℕ) (after rest : Bytes)
    → take_varint bs ≡ ok (some n, after)
    → skip after n ≡ ok rest
    → IsPart bs n rest
unfolding skip
IsPart-of_steps bs n after rest e k = elim (Bool-cases (leb n (length after))) [
  | inl t ↦ (after, e, leb→le _ _ t, sym (ok-injective (rw t at k)))
  | inr f ↦ absurd (err-ne-ok (rw f at k))
]

skip-IsPart : (n : ℕ) (after : Bytes) → n ≤ length after → skip after n ≡ ok (drop n after)
unfolding skip
skip-IsPart n after w = rw (le→leb _ _ w)

skip_parts-AreParts : (k : ℕ) (bs last : Bytes) → skip_parts k bs ≡ ok last → AreParts k bs last
unfolding skip_parts
skip_parts-AreParts zero bs last e = subst (AreParts 0 bs) (ok-injective e) (no_part bs)
skip_parts-AreParts (suc k) bs last e =
    let ((len, after), taken, e1) = >>=-ok_inv (take_varint bs) _ e in
    let (n, there, e2) = ok_or-bind InnerError.bad_request len _ e1 in
    let (rest, skipped, e3) = >>=-ok_inv (skip after n) _ e2 in
    part k bs n rest last
      (IsPart-of_steps bs n after rest (taken ∙ ap (λ l. ok (l, after)) there) skipped)
      (skip_parts-AreParts k rest last e3)

AreParts-skip_parts : {k : ℕ} {bs last : Bytes} → AreParts k bs last → skip_parts k bs ≡ ok last
unfolding skip_parts
AreParts-skip_parts (no_part bs) = refl
AreParts-skip_parts (part k bs n rest last (after, e, w, r) p) =
    rw e
      (rw (skip-IsPart n after w) (subst (λ q. skip_parts k q ≡ ok last) r (AreParts-skip_parts p)))

sections-AreSections :
    (limits : List ℕ) (bs : Bytes) → check_sections limits bs ≡ ok tt → AreSections limits bs
unfolding check_sections
sections-AreSections [] bs e = no_more bs
sections-AreSections (limit ∷ limits) bs e =
    let ((len, after), taken, e1) = >>=-ok_inv (take_varint bs) _ e in
    one len after taken (λ rest. sections-AreSections limits rest) e1
  where
    one :
        (len : Option ℕ) (after : Bytes)
        → take_varint bs ≡ ok (len, after)
        → ((rest : Bytes) → check_sections limits rest ≡ ok tt → AreSections limits rest)
        → ◌≡◌ {A = Result (Unit {0}) InnerError}
            (elim len [
              | none ↦ ok tt
              | some n ↦
                  if ltb limit n
                  then err InnerError.bad_request
                  else do rest ← skip after n; check_sections limits rest
            ])
            (ok tt)
        → AreSections (limit ∷ limits) bs
    one none after taken k e = ends (limit ∷ limits) bs after taken
    one (some n) after taken k e = elim (Bool-cases (ltb limit n)) [
      | inl t ↦ absurd (err-ne-ok (rw t at e))
      | inr t ↦
          let (rest, skipped, e2) =
            >>=-ok_inv (skip after n) (λ rest. check_sections limits rest) (rw t at e) in
          section limit limits bs n rest (ltb-false→le _ _ t)
            (IsPart-of_steps bs n after rest taken skipped) (k rest e2)
    ]

AreSections-sections :
    {limits : List ℕ} {bs : Bytes} → AreSections limits bs → check_sections limits bs ≡ ok tt
unfolding check_sections
AreSections-sections (no_more bs) = refl
AreSections-sections (ends [] bs rest e) = refl
AreSections-sections (ends (limit ∷ limits) bs rest e) = rw e refl
AreSections-sections (section limit limits bs n rest l (after, e, w, r) p) = rw e (
    rw (le→ltb-false _ _ l) (
      rw (skip-IsPart n after w)
        (subst (λ q. check_sections limits q ≡ ok tt) r (AreSections-sections p))))

-- The check accepts exactly the framed inputs.
pub check_field_sections_iff : (bs : Bytes) → (check_field_sections bs ≡ ok tt) ↔ IsFramed bs
unfolding check_field_sections
check_field_sections_iff bs = (
  λ e.
      let (rest, parts, e1) = >>=-ok_inv (skip_parts 4 bs) _ e in
      (rest, skip_parts-AreParts 4 bs rest parts, sections-AreSections section_limits rest e1),
  λ (rest, parts, sections). rw (AreParts-skip_parts parts) (AreSections-sections sections),
)
