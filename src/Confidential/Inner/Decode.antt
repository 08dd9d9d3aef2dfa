-- ===== src/Confidential/Inner/Decode.antt =====
-- `decode_inner` of src/confidential/inner.rs: what an accepted request satisfies, and the errors.
use verifiable_rpc_sidecar.Crates.Http.{Http, HttpLaws}
use verifiable_rpc_sidecar.Crates.Bhttp.{Bhttp}
use verifiable_rpc_sidecar.Confidential.Errors.{InnerError}
use verifiable_rpc_sidecar.Confidential.Framing.{check_field_sections}
use verifiable_rpc_sidecar.Proxy.{max_path_and_query}
use verifiable_rpc_sidecar.Confidential.Inner.{
  InnerRequest, InnerFields, inner_method, inner_path, inner_fields, no_fields, is_refused_path,
  lacks_content_type, decode_framed, decode_inner,
}
use verifiable_rpc_sidecar.Confidential.Inner.Sections.{IsFramed}
use verifiable_rpc_sidecar.Confidential.Inner.Fields.{named, is_pseudo, to_list, inner_fields_lem}
use verifiable_rpc_sidecar.Confidential.Inner.Control.{path_parts, method_lem, path_lem}
use verifiable_rpc_sidecar.Confidential.Inner.Refusals.{
  IsDecodeError, request_of, iff_IsFramed, IsUntypedRequest, decoded-FailsOnly, only_typeless,
  always_typeless,
}
use verifiable_rpc_sidecar.Prelude.{
  ◌↔◌, ◌==◌, if◌then◌else◌, ==_iff, Bool-cases, length, any, ok_or-bind, err-ne-ok, >>=-ok_inv,
  ok-injective, FailsOnly, Bytes, bytes_eq, starts_with, codes, ok, err, ◌≤◌, ◌≡◌, refl, ap, subst,
  inl, inr, true, false, some, [], ◌∷◌,
}

module _ (h : Http) (laws : HttpLaws h) (b : Bhttp) where
  -- A request that the plaintext `0 ∷ framed` carries, and that may be sent.
  pub record IsAccepted (framed : Bytes) (r : InnerRequest) : Type 0 where
    pub framing : IsFramed framed
    pub msg : b.Message
    pub read : b.read_bhttp (0 ∷ framed) ≡ some msg
    pub method : b.control_method msg ≡ some r.method
    pub not_connect : bytes_eq r.method (codes "CONNECT") ≡ false
    pub path : b.control_path msg ≡ some r.path_and_query
    pub path_start : starts_with (codes "/") r.path_and_query ≡ true
    pub no_authority : starts_with (codes "//") r.path_and_query ≡ false
    pub no_fragment : any (λ c. c == b'#') r.path_and_query ≡ false
    pub path_length : length r.path_and_query ≤ max_path_and_query
    pub ordinary : any is_pseudo (b.header msg) ≡ false
    pub content_types : named (codes "content-type") (b.header msg) ≡ to_list r.content_type
    pub accepts : named (codes "accept") (b.header msg) ≡ r.accept
    pub body : r.body ≡ b.content msg
    pub typed : lacks_content_type r ≡ false

  of_parts :
      (framed : Bytes) (msg : b.Message) (m p : Bytes) (f : InnerFields) (r : InnerRequest)
      → IsFramed framed
      → b.read_bhttp (0 ∷ framed) ≡ some msg
      → (b.control_method msg ≡ some m) × (bytes_eq m (codes "CONNECT") ≡ false)
      → (b.control_path msg ≡ some p) × (is_refused_path p ≡ false)
      → inner_fields h no_fields (b.header msg) ≡ ok f
      → (if lacks_content_type (request_of b msg m p f)
          then err InnerError.unsupported_media_type
          else ok (request_of b msg m p f))
        ≡ ok r
      → IsAccepted framed r
  of_parts framed msg m p f r framing read (is_m, no_c) (is_p, refused) are e =
      let (start, authority, fragment, long) = path_parts p refused in
      let (ordinary, types, accepts) = inner_fields_lem h laws f (b.header msg) are in
      elim (Bool-cases (lacks_content_type (request_of b msg m p f))) [
        | inl l ↦ absurd (err-ne-ok (rw l at e))
        | inr l ↦
            let same : request_of b msg m p f ≡ r = ok-injective (rw l at e) in
            subst (IsAccepted framed) same (record {
              framing = framing;
              msg = msg;
              read = read;
              method = is_m;
              not_connect = no_c;
              path = is_p;
              path_start = start;
              no_authority = authority;
              no_fragment = fragment;
              path_length = long;
              ordinary = ordinary;
              content_types = types;
              accepts = accepts;
              body = refl;
              typed = l;
            })
      ]

  accepted :
      (framed : Bytes) (r : InnerRequest)
      → decode_framed h b (0 ∷ framed) framed ≡ ok r
      → IsAccepted framed r
  unfolding decode_framed
  accepted framed r e =
      let (checked, framing, e1) = >>=-ok_inv (check_field_sections framed) _ e in
      let (msg, read, e2) = ok_or-bind InnerError.bad_request (b.read_bhttp (0 ∷ framed)) _ e1 in
      let (m, is_method, e3) = >>=-ok_inv (inner_method h (b.control_method msg)) _ e2 in
      let (p, is_path, e4) = >>=-ok_inv (inner_path (b.control_path msg)) _ e3 in
      let (f, are_fields, e5) = >>=-ok_inv (inner_fields h no_fields (b.header msg)) _ e4 in
      of_parts framed msg m p f r (iff_IsFramed h laws b framed framing) read
        (method_lem h laws _ m is_method) (path_lem h laws _ p is_path) are_fields e5

  -- Decoding never panics. Its errors are 400 and 415 alone, and it is 415 for exactly the requests
  -- that pass every other check, have a body, and have no content type.
  pub decode_inner-FailsOnly :
      (plaintext : Bytes)
      → FailsOnly IsDecodeError (decode_inner h b plaintext)
        × ((decode_inner h b plaintext ≡ err InnerError.unsupported_media_type)
            ↔ IsUntypedRequest h laws b plaintext)
  decode_inner-FailsOnly plaintext = (
    decoded-FailsOnly h laws b plaintext,
    (only_typeless h laws b plaintext, always_typeless h laws b plaintext),
  )

  -- A plaintext that is accepted starts with the byte of a known-length request, is framed within
  -- the limits, and gives its method, path, types and body.
  pub decode_inner-IsAccepted :
      (plaintext : Bytes) (r : InnerRequest)
      → decode_inner h b plaintext ≡ ok r
      → (framed : Bytes) × (plaintext ≡ 0 ∷ framed) × IsAccepted framed r
  unfolding decode_inner
  decode_inner-IsAccepted [] r e = absurd (err-ne-ok e)
  decode_inner-IsAccepted (byte ∷ framed) r e = elim (Bool-cases (byte == 0)) [
    | inl z ↦
        let zero_byte = (==_iff byte 0).0 z in
        (framed, ap (λ x. x ∷ framed) zero_byte, accepted framed r (rw zero_byte at e))
    | inr z ↦ absurd (err-ne-ok (rw z at e))
  ]
