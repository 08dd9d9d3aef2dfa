-- ===== src/Proxy/Total.antt =====
-- `UpstreamClient::forward` of src/proxy.rs always answers.
use verifiable_rpc_sidecar.Crates.Crypto.{Crypto, CryptoLaws}
use verifiable_rpc_sidecar.Crates.Http.{
  Request, Response, Http, Collected, collected, length_limit, transport_error,
}
use verifiable_rpc_sidecar.Signing.Verify.{
  IsConsistent, Ends, sign-Ends, too_early, too_late, signed,
}
use verifiable_rpc_sidecar.Signing.{SigningState, SignedResponse, SigningError, Reading, sign}
use verifiable_rpc_sidecar.Proxy.{
  UpstreamClient, Net, status_response, body_cap, upstream_uri, upstream_request, send_upstream,
  collect_request, collect_upstream_response, sign_or_500, run_pipeline, forward, either_response,
  collected_or,
}
use verifiable_rpc_sidecar.Prelude.{
  Result, ok_or, ok-ne-panic, err-ne-panic, FailsOnly, ok_or-FailsOnly, map_err-FailsOnly,
  >>=-FailsOnly, Bytes, ok, err, panic, ℕ, ◌≡◌, refl, ◌≢◌,
}

-- Any early answer.
abbrev AnyEarly : Response → Type 0
AnyEarly e = Unit

collected-FailsOnly : (status : ℕ) (r : Collected) → FailsOnly AnyEarly (collected_or status r)
collected-FailsOnly status (collected d) = tt
collected-FailsOnly status length_limit = tt
collected-FailsOnly status transport_error = tt

upstream_request-FailsOnly :
    (h : Http) (client : UpstreamClient) (req : Request) (d : Bytes)
    → FailsOnly AnyEarly (upstream_request h client req d)
unfolding upstream_request
upstream_request-FailsOnly h client req d =
    >>=-FailsOnly AnyEarly (ok_or (status_response 500) (upstream_uri h client req.uri)) _
      (ok_or-FailsOnly AnyEarly _ (upstream_uri h client req.uri) tt)
      λ uri e. ok_or-FailsOnly AnyEarly _ (h.request_builder_body _) tt

send_upstream-FailsOnly :
    (h : Http) (client : UpstreamClient) (net : Net) (req : Request) (d : Bytes)
    → FailsOnly AnyEarly (send_upstream h client net req d)
unfolding send_upstream
send_upstream-FailsOnly h client net req d =
    >>=-FailsOnly AnyEarly (upstream_request h client req d) _
      (upstream_request-FailsOnly h client req d) λ up e. ok_or-FailsOnly AnyEarly _ (net up) tt

module _ (c : Crypto) (laws : CryptoLaws c) (signer : SigningState)
    (v : IsConsistent c signer) where
  pub Ends-ne-panic :
      {d a : Bytes} {clock : Reading} {r : Result SignedResponse SigningError}
      → Ends c laws signer v d a clock r
      → r ≢ panic
  Ends-ne-panic too_early = err-ne-panic
  Ends-ne-panic (too_late ms h) = err-ne-panic
  Ends-ne-panic (signed ms r h e) = ok-ne-panic

  sign_or_500-FailsOnly :
      (d a : Bytes) (clock : Reading) → FailsOnly AnyEarly (sign_or_500 c signer d a clock)
  unfolding sign_or_500
  sign_or_500-FailsOnly d a clock =
      map_err-FailsOnly AnyEarly _ (sign c signer d a clock)
        (Ends-ne-panic (sign-Ends c laws signer v d a clock)) λ e. tt

  module _ (h : Http) (client : UpstreamClient) (net : Net) (clock : Reading) (req : Request) where
    run_pipeline-FailsOnly :
        (cap : ℕ) → FailsOnly AnyEarly (run_pipeline c h client net clock req signer cap)
    unfolding run_pipeline collect_request collect_upstream_response
    run_pipeline-FailsOnly cap =
        >>=-FailsOnly AnyEarly (collect_request h req cap) _
          (collected-FailsOnly 413 (h.collect_limited req.body cap))
          λ d e.
            >>=-FailsOnly AnyEarly (send_upstream h client net req d) _
              (send_upstream-FailsOnly h client net req d)
              λ resp e.
                >>=-FailsOnly AnyEarly (collect_upstream_response h resp cap) _
                  (collected-FailsOnly 502 (h.collect_limited resp.body cap))
                  λ a e.
                    >>=-FailsOnly AnyEarly (sign_or_500 c signer d a clock) _
                      (sign_or_500-FailsOnly d a clock) λ r e. tt

    answers :
        (r : Result Response Response)
        → FailsOnly AnyEarly r
        → (out : Response) × (either_response r ≡ ok out)
    answers (ok out) f = (out, refl)
    answers (err out) f = (out, refl)
    answers panic f = absurd f

    -- With a consistent signing state, forward answers every request, whatever the upstream and
    -- the clock do.
    pub forward_answers : (out : Response) × (forward c h client net clock req signer ≡ ok out)
    unfolding forward
    forward_answers = answers _ (run_pipeline-FailsOnly (body_cap client.max_body_bytes))
