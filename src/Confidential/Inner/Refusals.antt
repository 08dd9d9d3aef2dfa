-- ===== src/Confidential/Inner/Refusals.antt =====
-- The requests that `decode_inner` of src/confidential/inner.rs refuses, and their two errors.
use verifiable_rpc_sidecar.Crates.Http.{Http, HttpLaws}
use verifiable_rpc_sidecar.Crates.Bhttp.{Bhttp}
use verifiable_rpc_sidecar.Confidential.Errors.{InnerError}
use verifiable_rpc_sidecar.Confidential.Framing.{check_field_sections}
use verifiable_rpc_sidecar.Confidential.Inner.{
  InnerRequest, InnerFields, inner_method, inner_path, inner_fields, no_fields, is_some, is_empty,
  lacks_content_type, decode_framed, decode_inner,
}
use verifiable_rpc_sidecar.Confidential.Inner.Sections.{
  IsBadRequest, IsFramed, check_field_sections_iff, check_field_sections-FailsOnly,
}
use verifiable_rpc_sidecar.Confidential.Inner.Fields.{inner_fields-FailsOnly}
use verifiable_rpc_sidecar.Confidential.Inner.Control.{method-FailsOnly, path-FailsOnly}
use verifiable_rpc_sidecar.Prelude.{
  ◌≢◌, Bool, not, ◌&&◌, sym, FailsOnly-err, ok_or-ok, panic, ◌==◌, ==_iff, Bool-cases, Result,
  ok_or, FailsOnly, ok_or-FailsOnly, >>=-FailsOnly, Bytes, ok, err, ◌≡◌, refl, ap, ◌⊎◌, inl, inr,
  true, false, some, [], ◌∷◌,
}

-- What is refused has the status 400 or 415.
abbrev pub IsDecodeError : InnerError → Type 0
IsDecodeError e = (e ≡ InnerError.bad_request) ⊎ (e ≡ InnerError.unsupported_media_type)

abbrev pub request_of : (b : Bhttp) → b.Message → Bytes → Bytes → InnerFields → InnerRequest
request_of b msg m p f = record {
  method = m;
  path_and_query = p;
  content_type = f.content_type;
  accept = f.accept;
  body = b.content msg;
}

module _ (h : Http) (laws : HttpLaws h) (b : Bhttp) where
  pub iff_IsFramed :
      (framed : Bytes) {u : Unit {0}} → check_field_sections framed ≡ ok u → IsFramed framed
  iff_IsFramed framed e = (check_field_sections_iff framed).0 e

  -- A request that passes every check but the last: it has a body and no content type.
  pub record IsUntyped (framed : Bytes) : Type 0 where
    pub framing : IsFramed framed
    pub msg : b.Message
    pub read : b.read_bhttp (0 ∷ framed) ≡ some msg
    pub method : Bytes
    pub is_method : inner_method h (b.control_method msg) ≡ ok method
    pub path : Bytes
    pub is_path : inner_path (b.control_path msg) ≡ ok path
    pub fields : InnerFields
    pub are_fields : inner_fields h no_fields (b.header msg) ≡ ok fields
    pub untyped : is_some fields.content_type ≡ false
    pub has_body : is_empty (b.content msg) ≡ false

  -- What is refused has the status 400, or 415 if it is such a request.
  abbrev IsRefusal : Bytes → InnerError → Type 0
  IsRefusal framed e =
      (e ≡ InnerError.bad_request) ⊎ ((e ≡ InnerError.unsupported_media_type) × IsUntyped framed)

  bad-decode :
      (framed : Bytes) {A : Type 0} (m : Result A InnerError)
      → FailsOnly IsBadRequest m
      → FailsOnly (IsRefusal framed) m
  bad-decode framed (ok a) h = tt
  bad-decode framed (err e) h = inl h
  bad-decode framed panic h = h

  typeless_parts :
      (body : Bool) (type : Bool) → (not body && not type) ≡ true → (type ≡ false) × (body ≡ false)
  typeless_parts true type e = cc
  typeless_parts false true e = cc
  typeless_parts false false e = (refl, refl)

  decode_framed-FailsOnly :
      (framed : Bytes) → FailsOnly (IsRefusal framed) (decode_framed h b (0 ∷ framed) framed)
  unfolding decode_framed
  decode_framed-FailsOnly framed =
      let P = IsRefusal framed in
      >>=-FailsOnly P (check_field_sections framed) _
        (bad-decode framed _ (check_field_sections-FailsOnly framed))
        λ u e1.
          >>=-FailsOnly P (ok_or InnerError.bad_request (b.read_bhttp (0 ∷ framed))) _
            (ok_or-FailsOnly P _ (b.read_bhttp (0 ∷ framed)) (inl refl))
            λ msg e2.
              >>=-FailsOnly P (inner_method h (b.control_method msg)) _
                (bad-decode framed _ (method-FailsOnly h laws (b.control_method msg)))
                λ m e3.
                  >>=-FailsOnly P (inner_path (b.control_path msg)) _
                    (bad-decode framed _ (path-FailsOnly h laws (b.control_path msg)))
                    λ p e4.
                      >>=-FailsOnly P (inner_fields h no_fields (b.header msg)) _
                        (bad-decode framed _
                          (inner_fields-FailsOnly h laws no_fields (b.header msg)))
                        λ f e5. elim (Bool-cases (lacks_content_type (request_of b msg m p f))) [
                          | inl l ↦
                              let (untyped, has_body) = typeless_parts _ _ l in
                              rw l (
                                inr (
                                  refl,
                                  record {
                                    framing = iff_IsFramed framed e1;
                                    msg = msg;
                                    read = ok_or-ok _ _ e2;
                                    method = m;
                                    is_method = e3;
                                    path = p;
                                    is_path = e4;
                                    fields = f;
                                    are_fields = e5;
                                    untyped = untyped;
                                    has_body = has_body;
                                  },
                                ))
                          | inr l ↦ rw l tt
                        ]

  IsUntyped-decode :
      (framed : Bytes)
      → IsUntyped framed
      → decode_framed h b (0 ∷ framed) framed ≡ err InnerError.unsupported_media_type
  unfolding decode_framed
  IsUntyped-decode framed v = rw ((check_field_sections_iff framed).1 v.framing) (
      rw v.read (rw v.is_method (rw v.is_path (rw v.are_fields (rw (v.untyped, v.has_body) refl)))))

  weaken :
      (framed : Bytes) (m : Result InnerRequest InnerError)
      → FailsOnly (IsRefusal framed) m
      → FailsOnly IsDecodeError m
  weaken framed (ok r) v = tt
  weaken framed (err e) (inl v) = inl v
  weaken framed (err e) (inr v) = inr v.0
  weaken framed panic v = v

  pub decoded-FailsOnly : (plaintext : Bytes) → FailsOnly IsDecodeError (decode_inner h b plaintext)
  unfolding decode_inner
  decoded-FailsOnly [] = inl refl
  decoded-FailsOnly (byte ∷ framed) = elim (Bool-cases (byte == 0)) [
    | inl z ↦ rw ((==_iff byte 0).0 z) (weaken framed _ (decode_framed-FailsOnly framed))
    | inr z ↦ rw z (inl refl)
  ]

  -- A plaintext that starts with the byte of a known-length request and is such a request.
  abbrev pub IsUntypedRequest : Bytes → Type 0
  IsUntypedRequest plaintext = (framed : Bytes) × (plaintext ≡ 0 ∷ framed) × IsUntyped framed

  ne_415 : InnerError.bad_request ≢ InnerError.unsupported_media_type
  ne_415 e = cc

  err_ne_415 :
      ◌≢◌ {A = Result InnerRequest InnerError}
        (err InnerError.bad_request)
        (err InnerError.unsupported_media_type)
  err_ne_415 e = cc

  typeless_of :
      (framed : Bytes)
      → decode_framed h b (0 ∷ framed) framed ≡ err InnerError.unsupported_media_type
      → IsUntyped framed
  typeless_of framed k =
      elim (FailsOnly-err (IsRefusal framed) (decode_framed-FailsOnly framed) k) [
        | inl e ↦ absurd (ne_415 (sym e))
        | inr v ↦ v.1
      ]

  pub only_typeless :
      (plaintext : Bytes)
      → decode_inner h b plaintext ≡ err InnerError.unsupported_media_type
      → IsUntypedRequest plaintext
  unfolding decode_inner
  only_typeless [] k = absurd (err_ne_415 k)
  only_typeless (byte ∷ framed) k = elim (Bool-cases (byte == 0)) [
    | inl z ↦
        let zero_byte = (==_iff byte 0).0 z in
        (framed, ap (λ x. x ∷ framed) zero_byte, typeless_of framed (rw zero_byte at k))
    | inr z ↦ absurd (err_ne_415 (rw z at k))
  ]

  pub always_typeless :
      (plaintext : Bytes)
      → IsUntypedRequest plaintext
      → decode_inner h b plaintext ≡ err InnerError.unsupported_media_type
  unfolding decode_inner
  always_typeless plaintext (framed, e, v) = rw e (IsUntyped-decode framed v)
