-- ===== src/Confidential/InnerCall/Total.antt =====
-- `run_inner` of src/confidential.rs never panics.
use verifiable_rpc_sidecar.Crates.Http.{Http, HttpLaws}
use verifiable_rpc_sidecar.Crates.Bhttp.{Bhttp}
use verifiable_rpc_sidecar.Crates.Json.{Json}
use verifiable_rpc_sidecar.Proxy.{UpstreamClient}
use verifiable_rpc_sidecar.Confidential.Inner.Refusals.{IsDecodeError}
use verifiable_rpc_sidecar.Confidential.Inner.Decode.{decode_inner-FailsOnly}
use verifiable_rpc_sidecar.Confidential.Upstream.Total.{call_upstream-ne-panic}
use verifiable_rpc_sidecar.Confidential.Errors.{InnerError}
use verifiable_rpc_sidecar.Confidential.Inner.{InnerRequest, decode_inner, batch_size}
use verifiable_rpc_sidecar.Confidential.InnerCall.{
  ConfidentialConfig, Environment, failed_call, run_inner,
}
use verifiable_rpc_sidecar.Prelude.{
  ltb, Bool-cases, Result, err-ne-panic, FailsOnly-ne-panic, Bytes, ok, err, panic, ◌≡◌, refl, ◌≢◌,
  inl, inr,
}

module _ (h : Http) (laws : HttpLaws h) (b : Bhttp) (j : Json) (upstream : UpstreamClient)
    (cfg : ConfidentialConfig) (env : Environment) (text : Bytes) where
  by_decoded :
      (r : Result InnerRequest InnerError)
      → decode_inner h b text ≡ r
      → (run_inner h b j upstream cfg env text).result ≢ panic
  unfolding run_inner failed_call
  by_decoded (ok inner) e =
      rw e (elim (Bool-cases (ltb cfg.max_batch_size (batch_size j inner.body))) [
        | inl t ↦ rw t err-ne-panic
        | inr t ↦
            rw t (
              call_upstream-ne-panic h b upstream cfg.max_response_bytes env.net env.timed_out
                inner)
      ])
  by_decoded (err x) e = rw e err-ne-panic
  by_decoded panic e =
      absurd (FailsOnly-ne-panic IsDecodeError (decode_inner-FailsOnly h laws b text).0 e)

  -- The inner call never panics.
  pub run_inner-ne-panic : (run_inner h b j upstream cfg env text).result ≢ panic
  run_inner-ne-panic = by_decoded (decode_inner h b text) refl
