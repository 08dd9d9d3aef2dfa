-- ===== src/Confidential/Upstream/Total.antt =====
-- src/confidential/upstream.rs never panics, and which errors each part gives.
use verifiable_rpc_sidecar.Crates.Http.{
  UpstreamRequest, UpstreamResponse, Http, Frame, chunk, trailers, failed,
}
use verifiable_rpc_sidecar.Crates.Bhttp.{Bhttp}
use verifiable_rpc_sidecar.Proxy.{UpstreamClient, Net, send, origin_path_and_query, origin_uri}
use verifiable_rpc_sidecar.Confidential.Errors.{InnerError}
use verifiable_rpc_sidecar.Confidential.Inner.{InnerRequest}
use verifiable_rpc_sidecar.Confidential.Upstream.{
  is_refused_response, read_frames, put_content_type_values, get_all, read_upstream,
  inner_upstream_request, call_upstream,
}
use verifiable_rpc_sidecar.Prelude.{
  ltb, Bool-cases, length, Result, ok_or, err-ne-panic, FailsOnly, ok_or-FailsOnly,
  FailsOnly-ne-panic, >>=-FailsOnly, saturating_add, codes, ok, err, panic, ℕ, ◌≡◌, refl, ◌≢◌, ◌⊎◌,
  inl, inr, Bool, Option, List, [], ◌∷◌,
}

-- What building a request can fail with.
abbrev pub IsBuildError : InnerError → Type 0
IsBuildError e = (e ≡ InnerError.bad_request) ⊎ (e ≡ InnerError.internal)

-- What reading the upstream's answer can fail with.
abbrev pub IsReadError : InnerError → Type 0
IsReadError e = (e ≡ InnerError.upstream) ⊎ (e ≡ InnerError.internal)

module _ (b : Bhttp) where
  read_frames-FailsOnly :
      (cap : ℕ) (frames : List Frame) (total : ℕ) (msg : b.Message)
      → FailsOnly IsReadError (read_frames b cap frames total msg)
  unfolding read_frames
  read_frames-FailsOnly cap [] total msg = tt
  read_frames-FailsOnly cap (failed ∷ frames) total msg = inl refl
  read_frames-FailsOnly cap (trailers t ∷ frames) total msg =
      read_frames-FailsOnly cap frames total msg
  read_frames-FailsOnly cap (chunk d ∷ frames) total msg =
      let rest =
        read_frames-FailsOnly cap frames (saturating_add total (length d))
          (b.write_content msg d) in
      elim (Bool-cases (ltb cap (saturating_add total (length d)))) [
        | inl e ↦ rw e (inl refl)
        | inr e ↦ rw e rest
      ]

  pub read_upstream-FailsOnly :
      (cap : ℕ) (sent : Option UpstreamResponse) → FailsOnly IsReadError (read_upstream b cap sent)
  unfolding read_upstream
  read_upstream-FailsOnly cap sent =
      >>=-FailsOnly IsReadError (ok_or InnerError.upstream sent) _
        (ok_or-FailsOnly IsReadError _ sent (inl refl))
        λ resp e. elim (Bool-cases (is_refused_response cap resp)) [
          | inl t ↦ rw t (inl refl)
          | inr t ↦ rw t (
              >>=-FailsOnly IsReadError (ok_or InnerError.internal (b.status_code resp.status)) _
                (ok_or-FailsOnly IsReadError _ (b.status_code resp.status) (inr refl))
                λ code e.
                  >>=-FailsOnly IsReadError
                    (read_frames b cap resp.body.frames 0 (
                      put_content_type_values b (b.response code)
                        (get_all (codes "content-type") resp.headers)))
                    _ (read_frames-FailsOnly cap resp.body.frames 0 _) λ m e. tt)
        ]

pub inner_upstream_request-FailsOnly :
    (h : Http) (upstream : UpstreamClient) (inner : InnerRequest)
    → FailsOnly IsBuildError (inner_upstream_request h upstream inner)
unfolding inner_upstream_request
inner_upstream_request-FailsOnly h upstream inner =
    >>=-FailsOnly IsBuildError
      (ok_or InnerError.bad_request (origin_path_and_query h upstream inner.path_and_query)) _
      (ok_or-FailsOnly IsBuildError _ (origin_path_and_query h upstream inner.path_and_query)
        (inl refl))
      λ pq e.
        >>=-FailsOnly IsBuildError (ok_or InnerError.internal (origin_uri h upstream pq)) _
          (ok_or-FailsOnly IsBuildError _ (origin_uri h upstream pq) (inr refl))
          λ uri e. ok_or-FailsOnly IsBuildError _ (h.request_builder_body _) (inr refl)

module _ (h : Http) (b : Bhttp) (upstream : UpstreamClient) (cap : ℕ) (net : Net) (timed_out : Bool)
    (inner : InnerRequest) where
  by_request :
      (r : Result UpstreamRequest InnerError)
      → inner_upstream_request h upstream inner ≡ r
      → (call_upstream h b upstream cap net timed_out inner).0 ≢ panic
  unfolding call_upstream
  by_request (ok up) e = rw e (elim (Bool-cases timed_out) [
    | inl t ↦ rw t err-ne-panic
    | inr t ↦ rw t (FailsOnly-ne-panic IsReadError (read_upstream-FailsOnly b cap (send net up)))
  ])
  by_request (err x) e = rw e err-ne-panic
  by_request panic e =
      absurd (FailsOnly-ne-panic IsBuildError (inner_upstream_request-FailsOnly h upstream inner) e)

  -- A call to the upstream never panics.
  pub call_upstream-ne-panic : (call_upstream h b upstream cap net timed_out inner).0 ≢ panic
  call_upstream-ne-panic = by_request (inner_upstream_request h upstream inner) refl
