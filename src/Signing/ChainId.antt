-- ===== src/Signing/ChainId.antt =====
-- Which chain ids `validate_chain_id` of src/signing.rs accepts.
use verifiable_rpc_sidecar.Prelude.{
  ltb, leb, if◌then◌else◌, Bool-cases, length, find, All, Result, Text, is_whitespace,
  is_ascii_graphic, as_bytes, as_bytes-ascii, trim_end_cons, trim_end, trim, ok, err, ℕ, ◌≤◌, ◌<◌,
  ◌≡◌, refl, sym, ap, ◌∙◌, subst, ◌≢◌, ◌↔◌, inl, inr, Bool, true, false, not, Option, none, some,
  [], ◌∷◌, arith,
}
use verifiable_rpc_sidecar.Signing.{
  SigningError, validate_chain_id, chain_id_empty, chain_id_too_long, chain_id_bad_char,
}

abbrev pub AreGraphic : Text → Type 0
AreGraphic = All (λ c. (0x21 ≤ c) × (c ≤ 0x7e))

-- Non-empty, at most 64 characters, printable ASCII with no space.
abbrev pub IsChainId : Text → Type 0
IsChainId t = (1 ≤ length t) × (length t ≤ 64) × AreGraphic t

graphic_iff : (c : ℕ) → (is_ascii_graphic c ≡ true) ↔ ((0x21 ≤ c) × (c ≤ 0x7e))
unfolding is_ascii_graphic
graphic_iff c = ground arith

abbrev bad : ℕ → Bool
bad c = not (is_ascii_graphic c)

graphic_of_find : (t : Text) → find bad t ≡ none → AreGraphic t
graphic_of_find [] h = tt
graphic_of_find (c ∷ cs) h = elim (Bool-cases (is_ascii_graphic c)) [
  | inl e ↦ ((graphic_iff c).0 e, graphic_of_find cs (rw e at h))
  | inr e ↦ absurd (some-ne-none (rw e at h))
]
  where
    some-ne-none : {a : ℕ} → ◌≢◌ {A = Option ℕ} (some a) none
    some-ne-none p = cc

find_of_graphic : (t : Text) → AreGraphic t → find bad t ≡ none
find_of_graphic [] h = refl
find_of_graphic (c ∷ cs) h = rw ((graphic_iff c).1 h.0) (find_of_graphic cs h.1)

ascii_of_graphic : (t : Text) → AreGraphic t → as_bytes t ≡ t
ascii_of_graphic t h = as_bytes-ascii t (below t h)
  where
    below : (s : Text) → AreGraphic s → All (λ c. c < 0x80) s
    below [] g = tt
    below (c ∷ cs) g = (omega arith, below cs g.1)

not_space : (c : ℕ) → (0x21 ≤ c) × (c ≤ 0x7e) → is_whitespace c ≡ false
unfolding is_whitespace
not_space c h = ground arith

trim_end-graphic : (t : Text) → AreGraphic t → trim_end is_whitespace t ≡ t
trim_end-graphic [] h = refl
trim_end-graphic (c ∷ []) h = rw (not_space c h.0)
trim_end-graphic (c ∷ d ∷ cs) h = ap (trim_end_cons is_whitespace c) (trim_end-graphic (d ∷ cs) h.1)

trim-graphic : (t : Text) → AreGraphic t → trim t ≡ t
unfolding trim
trim-graphic [] h = refl
trim-graphic (c ∷ cs) h = rw (not_space c h.0) (trim_end-graphic (c ∷ cs) h)

-- The tests on the trimmed text.
abbrev checked : Text → Result Text SigningError
checked t =
    if leb (length t) 0
    then err chain_id_empty
    else if ltb 64 (length (as_bytes t))
    then err (chain_id_too_long (length (as_bytes t)))
    else elim (find bad t) [ some c ↦ err (chain_id_bad_char c) | none ↦ ok t ]

checked-chain_id : (t : Text) → IsChainId t → checked t ≡ ok t
checked-chain_id t h = rw (ascii_of_graphic t h.2, find_of_graphic t h.2, nonempty, short)
  where
    nonempty : leb (length t) 0 ≡ false
    nonempty = ground arith

    short : ltb 64 (length t) ≡ false
    short = ground arith

checked-eq-ok : (t u : Text) → checked t ≡ ok u → (u ≡ t) × IsChainId t
checked-eq-ok t u h =
    let g = graphic_of_find t (no_bad h) in
    (ground arith, (ground arith, ground (arith, ap length (ascii_of_graphic t g)), g))
  where
    no_bad : checked t ≡ ok u → find bad t ≡ none
    no_bad e = ground arith

-- The validator accepts `s` with the result `t` exactly if `t` is `s` without the white space at its
-- ends, and `t` is a chain id.
pub validate_chain_id_iff :
    (s t : Text) → (validate_chain_id s ≡ ok t) ↔ ((t ≡ trim s) × IsChainId t)
unfolding validate_chain_id
validate_chain_id_iff s t = (
  λ h. let (same, good) = checked-eq-ok (trim s) t h in (same, subst IsChainId (sym same) good),
  λ h. ap checked (sym h.0) ∙ checked-chain_id t h.1,
)

-- A validated chain id is accepted again, unchanged: its hash does not depend on how often it was
-- validated.
validate_chain_id_idem : (s t : Text) → validate_chain_id s ≡ ok t → validate_chain_id t ≡ ok t
validate_chain_id_idem s t h =
    let good = ((validate_chain_id_iff s t).0 h).1 in
    (validate_chain_id_iff t t).1 (sym (trim-graphic t good.2), good)
