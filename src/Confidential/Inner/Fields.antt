-- ===== src/Confidential/Inner/Fields.antt =====
-- `inner_fields` of src/confidential/inner.rs against the fields of a header section.
use verifiable_rpc_sidecar.Crates.Http.{Http, HttpLaws}
use verifiable_rpc_sidecar.Confidential.Errors.{InnerError}
use verifiable_rpc_sidecar.Confidential.Inner.{
  InnerFields, inner_field, inner_fields, field_value, set_content_type, push_accept, no_fields,
  starts_with_colon, is_some,
}
use verifiable_rpc_sidecar.Confidential.Inner.Sections.{IsBadRequest}
use verifiable_rpc_sidecar.Prelude.{
  if◌then◌else◌, Bool-cases, Option-cases, any, Result, ok_or, err-ne-ok, >>=-ok_inv, ok-injective,
  FailsOnly, ok_or-FailsOnly, >>=-FailsOnly, Bytes, codes, eq_ignore_ascii_case,
  eq_ignore_ascii_case-length, ok, err, ◌≡◌, refl, sym, ap, ◌∙◌, inl, inr, Bool, true, false,
  Option, none, some, List, [], ◌∷◌, ◌++◌, append-nil, append_assoc, arith,
}

-- The values of the fields that have a name, up to the case of its letters.
abbrev pub named : Bytes → List (Bytes × Bytes) → List Bytes
named name [] = []
named name ((n, v) ∷ fields) =
    let rest = named name fields in if eq_ignore_ascii_case n name then v ∷ rest else rest

abbrev pub is_pseudo : Bytes × Bytes → Bool
is_pseudo (name, value) = starts_with_colon name

abbrev pub to_list : Option Bytes → List Bytes
to_list none = []
to_list (some v) = v ∷ []

named-cons :
    (name n v : Bytes) (fields : List (Bytes × Bytes))
    → named name ((n, v) ∷ fields) ≡ named name ((n, v) ∷ []) ++ named name fields
named-cons name n v fields = elim (Bool-cases (eq_ignore_ascii_case n name)) [
  | inl e ↦ rw e refl
  | inr e ↦ rw e refl
]

-- No name is both.
not-accept :
    (n : Bytes)
    → eq_ignore_ascii_case n (codes "content-type") ≡ true
    → eq_ignore_ascii_case n (codes "accept") ≡ false
not-accept n t = elim (Bool-cases (eq_ignore_ascii_case n (codes "accept"))) [
  | inl a ↦ absurd (
      omega (
        arith,
        eq_ignore_ascii_case-length n (codes "content-type") t,
        eq_ignore_ascii_case-length n (codes "accept") a,
      ))
  | inr a ↦ a
]

module _ (h : Http) (laws : HttpLaws h) where
  field_value-FailsOnly : (v : Bytes) → FailsOnly IsBadRequest (field_value h v)
  unfolding field_value
  field_value-FailsOnly v = ok_or-FailsOnly IsBadRequest _ (h.header_value_from_bytes v) refl

  inner_field-FailsOnly :
      (f : InnerFields) (n v : Bytes) → FailsOnly IsBadRequest (inner_field h f (n, v))
  unfolding inner_field
  inner_field-FailsOnly f n v = elim (Bool-cases (starts_with_colon n)) [
    | inl p ↦ rw p refl
    | inr p ↦ elim (Bool-cases (eq_ignore_ascii_case n (codes "content-type"))) [
      | inl t ↦
          rw (p, t)
            (elim (Bool-cases (is_some f.content_type)) [
              | inl s ↦ rw s refl
              | inr s ↦ rw s (
                  >>=-FailsOnly IsBadRequest (field_value h v) _ (field_value-FailsOnly v)
                    λ w e. tt)
            ])
      | inr t ↦ elim (Bool-cases (eq_ignore_ascii_case n (codes "accept"))) [
        | inl a ↦
            rw (p, t, a)
              (>>=-FailsOnly IsBadRequest (field_value h v) _ (field_value-FailsOnly v) λ w e. tt)
        | inr a ↦ rw (p, t, a) tt
      ]
    ]
  ]

  pub inner_fields-FailsOnly :
      (f : InnerFields) (fields : List (Bytes × Bytes))
      → FailsOnly IsBadRequest (inner_fields h f fields)
  unfolding inner_fields
  inner_fields-FailsOnly f [] = tt
  inner_fields-FailsOnly f ((n, v) ∷ fields) =
      >>=-FailsOnly IsBadRequest (inner_field h f (n, v)) _ (inner_field-FailsOnly f n v)
        λ g e. inner_fields-FailsOnly g fields

  field_value-keeps : (v w : Bytes) → field_value h v ≡ ok w → w ≡ v
  unfolding field_value
  field_value-keeps v w e = laws.header_value-keeps v w (of_ok (h.header_value_from_bytes v) e)
    where
      of_ok :
          (o : Option Bytes)
          → ◌≡◌ {A = Result Bytes InnerError} (ok_or InnerError.bad_request o) (ok w)
          → o ≡ some w
      of_ok none e = cc
      of_ok (some x) e = cc

  -- One round: it adds its field's value to the content types or to the accepted types.
  record Adds (f g : InnerFields) (fields : List (Bytes × Bytes)) : Type 0 where
    ordinary : any is_pseudo fields ≡ false
    content_types :
        to_list g.content_type ≡ to_list f.content_type ++ named (codes "content-type") fields
    accepts : g.accept ≡ f.accept ++ named (codes "accept") fields

  set-Adds :
      (f g : InnerFields) (n v : Bytes)
      → starts_with_colon n ≡ false
      → eq_ignore_ascii_case n (codes "content-type") ≡ true
      → ◌≡◌ {A = Result InnerFields InnerError}
          (if is_some f.content_type then err InnerError.bad_request else set_content_type h f v)
          (ok g)
      → Adds f g ((n, v) ∷ [])
  set-Adds f g n v p t e = elim (Option-cases f.content_type) [
    | inl c ↦
        let (w, kept, made) = >>=-ok_inv (field_value h v) _ (rw c at e) in
        let same = sym (ok-injective made) in
        record {
          ordinary = rw p refl;
          content_types = rw (t, c, same, field_value-keeps v w kept) refl;
          accepts = rw (not-accept n t, same) (sym (append-nil _));
        }
    | inr (x, c) ↦ absurd (err-ne-ok (rw c at e))
  ]

  push-Adds :
      (f g : InnerFields) (n v : Bytes)
      → starts_with_colon n ≡ false
      → eq_ignore_ascii_case n (codes "content-type") ≡ false
      → eq_ignore_ascii_case n (codes "accept") ≡ true
      → push_accept h f v ≡ ok g
      → Adds f g ((n, v) ∷ [])
  push-Adds f g n v p t a e =
      let (w, kept, made) = >>=-ok_inv (field_value h v) _ e in
      let same = sym (ok-injective made) in
      record {
        ordinary = rw p refl;
        content_types = rw (t, same) (sym (append-nil _));
        accepts = rw (a, same, field_value-keeps v w kept) refl;
      }

  inner_field-Adds :
      (f g : InnerFields) (n v : Bytes) → inner_field h f (n, v) ≡ ok g → Adds f g ((n, v) ∷ [])
  unfolding inner_field
  inner_field-Adds f g n v e = elim (Bool-cases (starts_with_colon n)) [
    | inl p ↦ absurd (err-ne-ok (rw p at e))
    | inr p ↦ elim (Bool-cases (eq_ignore_ascii_case n (codes "content-type"))) [
      | inl t ↦ set-Adds f g n v p t (rw (p, t) at e)
      | inr t ↦ elim (Bool-cases (eq_ignore_ascii_case n (codes "accept"))) [
        | inl a ↦ push-Adds f g n v p t a (rw (p, t, a) at e)
        | inr a ↦
            let same = sym (ok-injective (rw (p, t, a) at e)) in
            record {
              ordinary = rw p refl;
              content_types = rw (t, same) (sym (append-nil _));
              accepts = rw (a, same) (sym (append-nil _));
            }
      ]
    ]
  ]

  Adds-trans :
      (f g k : InnerFields) (n v : Bytes) (fields : List (Bytes × Bytes))
      → Adds f g ((n, v) ∷ [])
      → Adds g k fields
      → Adds f k ((n, v) ∷ fields)
  Adds-trans f g k n v fields a b = record {
    ordinary = ground (arith, a.ordinary, b.ordinary);
    content_types =
        b.content_types
        ∙ ap (λ l. l ++ named (codes "content-type") fields) a.content_types
        ∙ append_assoc (to_list f.content_type) (named (codes "content-type") ((n, v) ∷ []))
            (named (codes "content-type") fields)
        ∙ ap (λ l. to_list f.content_type ++ l) (sym (named-cons _ n v fields));
    accepts =
        b.accepts
        ∙ ap (λ l. l ++ named (codes "accept") fields) a.accepts
        ∙ append_assoc f.accept (named (codes "accept") ((n, v) ∷ []))
            (named (codes "accept") fields)
        ∙ ap (λ l. f.accept ++ l) (sym (named-cons _ n v fields));
  }

  inner_fields-Adds :
      (f g : InnerFields) (fields : List (Bytes × Bytes))
      → inner_fields h f fields ≡ ok g
      → Adds f g fields
  unfolding inner_fields
  inner_fields-Adds f g [] e =
      let same = sym (ok-injective e) in
      record {
        ordinary = refl;
        content_types = rw same (sym (append-nil _));
        accepts = rw same (sym (append-nil _));
      }
  inner_fields-Adds f g ((n, v) ∷ fields) e =
      let (k, one, more) = >>=-ok_inv (inner_field h f (n, v)) _ e in
      Adds-trans f k g n v fields (inner_field-Adds f k n v one) (inner_fields-Adds k g fields more)

  -- Fields that are accepted have no name that starts with a colon and at most one content type,
  -- which is the one returned, and the accepted types are all returned, in order.
  pub inner_fields_lem :
      (g : InnerFields) (fields : List (Bytes × Bytes))
      → inner_fields h no_fields fields ≡ ok g
      → (any is_pseudo fields ≡ false)
        × (named (codes "content-type") fields ≡ to_list g.content_type)
        × (named (codes "accept") fields ≡ g.accept)
  inner_fields_lem g fields e =
      let a = inner_fields-Adds no_fields g fields e in
      (a.ordinary, sym a.content_types, sym a.accepts)
