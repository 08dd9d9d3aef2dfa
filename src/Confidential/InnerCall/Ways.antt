-- ===== src/Confidential/InnerCall/Ways.antt =====
-- The ways in which `run_inner` of src/confidential.rs ends, as README.md lists them under "Errors"
-- and "Batches".
use verifiable_rpc_sidecar.Crates.Http.{Http, HttpLaws, UpstreamRequest}
use verifiable_rpc_sidecar.Crates.Bhttp.{Bhttp}
use verifiable_rpc_sidecar.Crates.Json.{Json}
use verifiable_rpc_sidecar.Proxy.{UpstreamClient}
use verifiable_rpc_sidecar.Confidential.Errors.{InnerError}
use verifiable_rpc_sidecar.Confidential.Inner.{InnerRequest, decode_inner, batch_size}
use verifiable_rpc_sidecar.Confidential.Inner.Refusals.{IsDecodeError}
use verifiable_rpc_sidecar.Confidential.Inner.Decode.{decode_inner-FailsOnly}
use verifiable_rpc_sidecar.Confidential.Upstream.{
  call_upstream, inner_upstream_request, read_upstream, within_timeout,
}
use verifiable_rpc_sidecar.Confidential.Upstream.Total.{
  IsBuildError, IsReadError, read_upstream-FailsOnly, inner_upstream_request-FailsOnly,
}
use verifiable_rpc_sidecar.Confidential.InnerCall.{
  ConfidentialConfig, Environment, failed_call, run_inner,
}
use verifiable_rpc_sidecar.Prelude.{
  ltb, ltb→lt, ltb-false→le, Bool-cases, Result, FailsOnly, Bytes, ok, err, panic, ℕ, ◌≤◌, ◌<◌, ◌≡◌,
  refl, sym, ap, subst, inl, inr, true, false, List, [], ◌∷◌,
}

module _ (h : Http) (laws : HttpLaws h) (b : Bhttp) (j : Json) (upstream : UpstreamClient)
    (cfg : ConfidentialConfig) (env : Environment) (text : Bytes) where
  -- The result of an inner call, the batch size that is reported and the requests that were sent.
  pub data Ways : Result (ℕ × b.Message) InnerError → ℕ → List UpstreamRequest → Type 0 where
    -- 400 or 415, with a batch of 1
    undecoded :
        (e : InnerError) → decode_inner h b text ≡ err e → IsDecodeError e → Ways (err e) 1 []
    -- 413
    too_many :
        (inner : InnerRequest)
        → decode_inner h b text ≡ ok inner
        → cfg.max_batch_size < batch_size j inner.body
        → Ways (err InnerError.batch_too_large) (batch_size j inner.body) []
    -- 400 or 500
    unbuilt :
        (inner : InnerRequest) (e : InnerError)
        → decode_inner h b text ≡ ok inner
        → batch_size j inner.body ≤ cfg.max_batch_size
        → inner_upstream_request h upstream inner ≡ err e
        → IsBuildError e
        → Ways (err e) (batch_size j inner.body) []
    -- 504
    late :
        (inner : InnerRequest) (up : UpstreamRequest)
        → decode_inner h b text ≡ ok inner
        → batch_size j inner.body ≤ cfg.max_batch_size
        → inner_upstream_request h upstream inner ≡ ok up
        → env.timed_out ≡ true
        → Ways (err InnerError.upstream_timeout) (batch_size j inner.body) (up ∷ [])
    -- 502 or 500
    unread :
        (inner : InnerRequest) (up : UpstreamRequest) (e : InnerError)
        → decode_inner h b text ≡ ok inner
        → batch_size j inner.body ≤ cfg.max_batch_size
        → inner_upstream_request h upstream inner ≡ ok up
        → env.timed_out ≡ false
        → read_upstream b cfg.max_response_bytes (env.net up) ≡ err e
        → IsReadError e
        → Ways (err e) (batch_size j inner.body) (up ∷ [])
    answered :
        (inner : InnerRequest) (up : UpstreamRequest) (status : ℕ) (msg : b.Message)
        → decode_inner h b text ≡ ok inner
        → batch_size j inner.body ≤ cfg.max_batch_size
        → inner_upstream_request h upstream inner ≡ ok up
        → env.timed_out ≡ false
        → read_upstream b cfg.max_response_bytes (env.net up) ≡ ok (status, msg)
        → Ways (ok (status, msg)) (batch_size j inner.body) (up ∷ [])

  module _ (inner : InnerRequest) (decoded : decode_inner h b text ≡ ok inner)
      (within : batch_size j inner.body ≤ cfg.max_batch_size) where
    by_read :
        (up : UpstreamRequest)
        → inner_upstream_request h upstream inner ≡ ok up
        → env.timed_out ≡ false
        → (r : Result (ℕ × b.Message) InnerError)
        → read_upstream b cfg.max_response_bytes (env.net up) ≡ r
        → FailsOnly IsReadError r
        → Ways r (batch_size j inner.body) (up ∷ [])
    by_read up built t (ok (status, msg)) e f =
        answered inner up status msg decoded within built t e
    by_read up built t (err x) e f = unread inner up x decoded within built t e f
    by_read up built t panic e f = absurd f

    by_request :
        (r : Result UpstreamRequest InnerError)
        → inner_upstream_request h upstream inner ≡ r
        → FailsOnly IsBuildError r
        → Ways
            (call_upstream h b upstream cfg.max_response_bytes env.net env.timed_out inner).0
            (batch_size j inner.body)
            (call_upstream h b upstream cfg.max_response_bytes env.net env.timed_out inner).1
    unfolding call_upstream
    by_request (ok up) e f = rw e (elim (Bool-cases env.timed_out) [
      | inl t ↦
          subst (λ r. Ways r (batch_size j inner.body) (up ∷ []))
            (sym
              (ap (λ x. within_timeout x (read_upstream b cfg.max_response_bytes (env.net up))) t))
            (late inner up decoded within e t)
      | inr t ↦
          subst (λ r. Ways r (batch_size j inner.body) (up ∷ []))
            (sym
              (ap (λ x. within_timeout x (read_upstream b cfg.max_response_bytes (env.net up))) t))
            (by_read up e t _ refl (read_upstream-FailsOnly b cfg.max_response_bytes (env.net up)))
    ])
    by_request (err x) e f = rw e (unbuilt inner x decoded within e f)
    by_request panic e f = absurd f

  by_decoded :
      (r : Result InnerRequest InnerError)
      → decode_inner h b text ≡ r
      → FailsOnly IsDecodeError r
      → Ways
          (run_inner h b j upstream cfg env text).result
          (run_inner h b j upstream cfg env text).batch_size
          (run_inner h b j upstream cfg env text).sent
  unfolding run_inner failed_call
  by_decoded (ok inner) e f =
      rw e (elim (Bool-cases (ltb cfg.max_batch_size (batch_size j inner.body))) [
        | inl t ↦ rw t (too_many inner e (ltb→lt _ _ t))
        | inr t ↦ rw t (
            by_request inner e (ltb-false→le _ _ t) _ refl
              (inner_upstream_request-FailsOnly h upstream inner))
      ])
  by_decoded (err x) e f = rw e (undecoded x e f)
  by_decoded panic e f = absurd f

  -- An inner call ends in one of these ways: an inner request that is refused, a batch over the
  -- limit or a request that cannot be built sends nothing, and otherwise one request is sent and
  -- the result is the timeout's, the failure of the answer or the answer.
  pub run_inner-Ways :
      Ways
        (run_inner h b j upstream cfg env text).result
        (run_inner h b j upstream cfg env text).batch_size
        (run_inner h b j upstream cfg env text).sent
  run_inner-Ways = by_decoded (decode_inner h b text) refl (decode_inner-FailsOnly h laws b text).0
