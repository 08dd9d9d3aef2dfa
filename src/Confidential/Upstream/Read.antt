-- ===== src/Confidential/Upstream/Read.antt =====
-- `read_upstream` of src/confidential/upstream.rs: which answers are taken, and what of them.
use verifiable_rpc_sidecar.Crates.Http.{
  UpstreamResponse, Frame, chunk, trailers, failed, body_data, is_failed,
}
use verifiable_rpc_sidecar.Crates.Bhttp.{Bhttp, BhttpLaws}
use verifiable_rpc_sidecar.Confidential.Errors.{InnerError}
use verifiable_rpc_sidecar.Confidential.Upstream.{
  get_all, is_refused_response, read_frames, put_content_type_values, read_upstream,
}
use verifiable_rpc_sidecar.Prelude.{
  ltb, ltb-false→le, Bool-cases, length, any, length-append, Result, ◌>>=◌, ok_or, ok_or-bind,
  err-ne-ok, >>=-ok_inv, ok-injective, Bytes, u64_max, saturating_add, codes, ok, ℕ, ◌+◌, ◌≤◌, ◌<◌,
  ◌≡◌, refl, sym, ap, ◌∙◌, inl, inr, false, Option, some, List, [], ◌∷◌, ◌++◌, append-nil,
  append_assoc, arith,
}

saturating_add-le :
    (a b cap : ℕ) → cap < u64_max → saturating_add a b ≤ cap → saturating_add a b ≡ a + b
saturating_add-le a b cap k l = ground arith

module _ (b : Bhttp) (laws : BhttpLaws b) (cap : ℕ) (bound : cap < u64_max) where
  -- The frames that are read to the end had no error, and all their data is the message's, within
  -- the cap.
  record Read (frames : List Frame) (total : ℕ) (msg out : b.Message) : Type 0 where
    whole : any is_failed frames ≡ false
    content : b.content out ≡ b.content msg ++ body_data frames
    header : b.header out ≡ b.header msg
    within : total + length (body_data frames) ≤ cap

  read_frames-Read :
      (frames : List Frame) (total : ℕ) (msg out : b.Message)
      → total ≤ cap
      → read_frames b cap frames total msg ≡ ok out
      → Read frames total msg out
  unfolding read_frames
  read_frames-Read [] total msg out t e =
      let same = sym (ok-injective e) in
      record {
        whole = refl;
        content = rw same (sym (append-nil _));
        header = rw same refl;
        within = omega arith;
      }
  read_frames-Read (failed ∷ frames) total msg out t e = absurd (err-ne-ok e)
  read_frames-Read (trailers h ∷ frames) total msg out t e =
      let r = read_frames-Read frames total msg out t e in
      record { whole = r.whole; content = r.content; header = r.header; within = r.within }
  read_frames-Read (chunk d ∷ frames) total msg out t e =
      elim (Bool-cases (ltb cap (saturating_add total (length d)))) [
        | inl l ↦ absurd (err-ne-ok (rw l at e))
        | inr l ↦
            let fits = ltb-false→le cap (saturating_add total (length d)) l in
            let sum = saturating_add-le total (length d) cap bound fits in
            let r =
              read_frames-Read frames (saturating_add total (length d)) (b.write_content msg d) out
                fits (rw l at e) in
            record {
              whole = r.whole;
              content =
                  r.content
                  ∙ ap (λ x. x ++ body_data frames) (laws.content-write_content msg d)
                  ∙ append_assoc (b.content msg) d (body_data frames);
              header = r.header ∙ laws.header-write_content msg d;
              within = omega (arith, r.within, sum, length-append d (body_data frames));
            }
      ]

  abbrev content_type_fields : List Bytes → List (Bytes × Bytes)
  content_type_fields [] = []
  content_type_fields (v ∷ vs) = (codes "content-type", v) ∷ content_type_fields vs

  header-put :
      (vs : List Bytes) (msg : b.Message)
      → b.header (put_content_type_values b msg vs) ≡ b.header msg ++ content_type_fields vs
  header-put [] msg = sym (append-nil _)
  header-put (v ∷ vs) msg =
      header-put vs (b.put_header msg (codes "content-type") v)
      ∙ ap (λ x. x ++ content_type_fields vs) (laws.header-put_header msg (codes "content-type") v)
      ∙ append_assoc (b.header msg) ((codes "content-type", v) ∷ []) (content_type_fields vs)

  content-put :
      (vs : List Bytes) (msg : b.Message)
      → b.content (put_content_type_values b msg vs) ≡ b.content msg
  content-put [] msg = refl
  content-put (v ∷ vs) msg =
      content-put vs (b.put_header msg (codes "content-type") v)
      ∙ laws.content-put_header msg (codes "content-type") v

  -- `read_upstream` behind its guard
  abbrev read_accepted : UpstreamResponse → Result (ℕ × b.Message) InnerError
  read_accepted resp = do
    code ← ok_or InnerError.internal (b.status_code resp.status)
    let msg =
        put_content_type_values b (b.response code) (get_all (codes "content-type") resp.headers)
    msg ← read_frames b cap resp.body.frames 0 msg
    ok (resp.status, msg)

  -- An answer that is taken: not refused, read to its end without an error and within the cap; the
  -- message's fields are its content types, in order, and the content is all its data.
  pub record IsTaken (sent : Option UpstreamResponse) (status : ℕ) (msg : b.Message) : Type 0 where
    pub resp : UpstreamResponse
    pub answered : sent ≡ some resp
    pub same_status : status ≡ resp.status
    pub not_refused : is_refused_response cap resp ≡ false
    pub whole : any is_failed resp.body.frames ≡ false
    pub within : length (body_data resp.body.frames) ≤ cap
    pub header : b.header msg ≡ content_type_fields (get_all (codes "content-type") resp.headers)
    pub content : b.content msg ≡ body_data resp.body.frames

  -- Under a cap below the greatest usize, an answer that becomes the inner response is such an
  -- answer.
  pub read_upstream-IsTaken :
      (sent : Option UpstreamResponse) (status : ℕ) (msg : b.Message)
      → read_upstream b cap sent ≡ ok (status, msg)
      → IsTaken sent status msg
  unfolding read_upstream
  read_upstream-IsTaken sent status msg e =
      let (resp, answered, e1) = ok_or-bind InnerError.upstream sent _ e in
      elim (Bool-cases (is_refused_response cap resp)) [
        | inl l ↦ absurd (err-ne-ok (rw l at e1))
        | inr l ↦ taken resp answered l (rw l at e1)
      ]
    where
      taken :
          (resp : UpstreamResponse)
          → sent ≡ some resp
          → is_refused_response cap resp ≡ false
          → read_accepted resp ≡ ok (status, msg)
          → IsTaken sent status msg
      taken resp answered l e1 =
          let types = get_all (codes "content-type") resp.headers in
          let (code, known, e2) = ok_or-bind InnerError.internal (b.status_code resp.status) _ e1 in
          let start = put_content_type_values b (b.response code) types in
          let (m, read, e3) = >>=-ok_inv (read_frames b cap resp.body.frames 0 start) _ e2 in
          let same = ok-injective e3 in
          let r = read_frames-Read resp.body.frames 0 start m (omega arith) read in
          let m_eq = sym (ap (λ x. x.1) same) in
          record {
            resp = resp;
            answered = answered;
            same_status = sym (ap (λ x. x.0) same);
            not_refused = l;
            whole = r.whole;
            within = omega (arith, r.within);
            header =
                ap b.header m_eq
                ∙ r.header
                ∙ header-put types (b.response code)
                ∙ ap (λ x. x ++ content_type_fields types) (laws.header-response code);
            content =
                ap b.content m_eq
                ∙ r.content
                ∙ ap (λ x. x ++ body_data resp.body.frames)
                    (content-put types (b.response code) ∙ laws.content-response code);
          }
