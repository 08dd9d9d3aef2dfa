-- ===== src/Confidential/Inner/Control.antt =====
-- `inner_method` and `inner_path` of src/confidential/inner.rs.
use verifiable_rpc_sidecar.Crates.Http.{Http, HttpLaws}
use verifiable_rpc_sidecar.Confidential.Errors.{InnerError}
use verifiable_rpc_sidecar.Proxy.{max_path_and_query}
use verifiable_rpc_sidecar.Confidential.Inner.{inner_method, inner_path, is_refused_path}
use verifiable_rpc_sidecar.Confidential.Inner.Sections.{IsBadRequest}
use verifiable_rpc_sidecar.Prelude.{
  ltb, ◌==◌, ltb-false→le, Bool-cases, length, any, ok_or, ok_or-bind, err-ne-ok, ok-injective,
  FailsOnly, ok_or-FailsOnly, >>=-FailsOnly, Bytes, bytes_eq, starts_with, codes, ok, ◌≤◌, ◌≡◌,
  refl, sym, ap, ◌∙◌, subst, inl, inr, Bool, true, false, not, ◌||◌, Option, some,
}

or-false : (x y : Bool) → (x || y) ≡ false → (x ≡ false) × (y ≡ false)
or-false true y e = cc
or-false false y e = (refl, e)

not-false : (x : Bool) → not x ≡ false → x ≡ true
not-false true e = refl
not-false false e = cc

pub path_parts :
    (p : Bytes)
    → is_refused_path p ≡ false
    → (starts_with (codes "/") p ≡ true)
      × (starts_with (codes "//") p ≡ false)
      × (any (λ c. c == b'#') p ≡ false)
      × (length p ≤ max_path_and_query)
path_parts p e =
    let start = not (starts_with (codes "/") p) in
    let authority = starts_with (codes "//") p in
    let fragment = any (λ c. c == b'#') p in
    let (e1, no_long) =
      or-false (start || authority || fragment) (ltb max_path_and_query (length p)) e in
    let (e2, no_fragment) = or-false (start || authority) fragment e1 in
    let (started, no_authority) = or-false start authority e2 in
    (not-false _ started, no_authority, no_fragment, ltb-false→le _ _ no_long)

module _ (h : Http) (laws : HttpLaws h) where
  pub method_lem :
      (o : Option Bytes) (m : Bytes)
      → inner_method h o ≡ ok m
      → (o ≡ some m) × (bytes_eq m (codes "CONNECT") ≡ false)
  unfolding inner_method
  method_lem o m e =
      let (given, there, e1) = ok_or-bind InnerError.bad_request o _ e in
      let (parsed, kept, e2) = ok_or-bind InnerError.bad_request (h.method_from_bytes given) _ e1 in
      elim (Bool-cases (bytes_eq parsed (codes "CONNECT"))) [
        | inl c ↦ absurd (err-ne-ok (rw c at e2))
        | inr c ↦
            let same : parsed ≡ m = ok-injective (rw c at e2) in
            (
              there ∙ ap some (sym (laws.method_from_bytes-keeps _ _ kept) ∙ same),
              subst (λ x. bytes_eq x (codes "CONNECT") ≡ false) same c,
            )
      ]

  pub method-FailsOnly : (o : Option Bytes) → FailsOnly IsBadRequest (inner_method h o)
  unfolding inner_method
  method-FailsOnly o =
      >>=-FailsOnly IsBadRequest (ok_or InnerError.bad_request o) _
        (ok_or-FailsOnly IsBadRequest _ o refl)
        λ m e.
          >>=-FailsOnly IsBadRequest (ok_or InnerError.bad_request (h.method_from_bytes m)) _
            (ok_or-FailsOnly IsBadRequest _ (h.method_from_bytes m) refl)
            λ m e. elim (Bool-cases (bytes_eq m (codes "CONNECT"))) [
              | inl c ↦ rw c refl
              | inr c ↦ rw c tt
            ]

  pub path_lem :
      (o : Option Bytes) (p : Bytes)
      → inner_path o ≡ ok p
      → (o ≡ some p) × (is_refused_path p ≡ false)
  unfolding inner_path
  path_lem o p e =
      let (given, there, e1) = ok_or-bind InnerError.bad_request o _ e in
      elim (Bool-cases (is_refused_path given)) [
        | inl c ↦ absurd (err-ne-ok (rw c at e1))
        | inr c ↦
            let same : given ≡ p = ok-injective (rw c at e1) in
            (there ∙ ap some same, subst (λ x. is_refused_path x ≡ false) same c)
      ]

  pub path-FailsOnly : (o : Option Bytes) → FailsOnly IsBadRequest (inner_path o)
  unfolding inner_path
  path-FailsOnly o =
      >>=-FailsOnly IsBadRequest (ok_or InnerError.bad_request o) _
        (ok_or-FailsOnly IsBadRequest _ o refl)
        λ p e. elim (Bool-cases (is_refused_path p)) [ inl c ↦ rw c refl | inr c ↦ rw c tt ]
