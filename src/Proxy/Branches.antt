-- ===== src/Proxy/Branches.antt =====
-- `UpstreamClient::forward` of src/proxy.rs, branch by branch.
use verifiable_rpc_sidecar.Crates.Crypto.{Crypto}
use verifiable_rpc_sidecar.Crates.Http.{
  Uri, Request, UpstreamRequest, UpstreamResponse, Response, Http, HttpLaws, Collected, collected,
  length_limit, transport_error,
}
use verifiable_rpc_sidecar.Signing.{
  SigningState, SignedResponse, SigningError, Reading, sign, signature_hex,
}
use verifiable_rpc_sidecar.Proxy.{
  UpstreamClient, Net, status_response, is_relayed, is_forwarded, body_cap, upstream_uri,
  upstream_request, send_upstream, collect_request, collect_upstream_response, sign_or_500,
  build_signed_response, signing_headers, run_pipeline, forward, collected_or,
}
use verifiable_rpc_sidecar.Prelude.{
  Option-cases, keep, Bytes, to_string, codes, as_bytes, ok, err, ℕ, ◌≡◌, refl, ◌≢◌, ◌⊎◌, inl, inr,
  none, some, [], ◌∷◌, ◌++◌,
}

-- The answer that relays the upstream's, with the signing headers after the upstream's.
abbrev pub relayed_response : Crypto → UpstreamResponse → Bytes → SignedResponse → Response
relayed_response c resp answer r = record {
  status = resp.status;
  headers =
      keep is_relayed resp.headers
      ++ (codes "vrpc-signature", as_bytes (signature_hex c r))
        ∷ (codes "vrpc-timestamp", as_bytes (to_string r.timestamp_ms))
        ∷ (codes "vrpc-pubkey", as_bytes r.pubkey_hex)
        ∷ [];
  body = answer;
}

module _ (c : Crypto) (h : Http) (http_laws : HttpLaws h) where
  -- A bare 500 in place of an answer that the builder refused.
  abbrev pub IsRefused : UpstreamResponse → Bytes → SignedResponse → Response → Type 0
  IsRefused resp answer r out =
      (h.response_builder_body (relayed_response c resp answer r) ≡ none)
      × (out ≡ status_response 500)

  pub build_lem :
      (resp : UpstreamResponse) (answer : Bytes) (r : SignedResponse)
      → IsRefused resp answer r (build_signed_response c h resp answer r)
        ⊎ (build_signed_response c h resp answer r ≡ relayed_response c resp answer r)
  unfolding build_signed_response signing_headers
  build_lem resp answer r =
      elim (Option-cases (h.response_builder_body (relayed_response c resp answer r))) [
        | inl e ↦ inl (e, rw e refl)
        | inr (x, e) ↦ inr (rw e (http_laws.response_builder-keeps _ _ e))
      ]

-- The request that is given to the builder.
abbrev pub upstream_parts : Request → Uri → Bytes → UpstreamRequest
upstream_parts req uri d = record {
  method = req.method;
  uri = uri;
  headers = keep is_forwarded req.headers ++ (codes "accept-encoding", codes "identity") ∷ [];
  body = d;
}

-- A body is collected, or it is not.
pub collected-cases :
    (r : Collected) → ((d : Bytes) × (r ≡ collected d)) ⊎ ((d : Bytes) → r ≢ collected d)
collected-cases (collected d) = inl (d, refl)
collected-cases length_limit = inr (λ d e. cc)
collected-cases transport_error = inr (λ d e. cc)

module _ (c : Crypto) (h : Http) (client : UpstreamClient) (net : Net) (clock : Reading)
    (req : Request) (signer : SigningState) where
  abbrev pub cap : ℕ
  cap = body_cap client.max_body_bytes

  abbrev pub AnswersWith : ℕ → Type 0
  AnswersWith status = forward c h client net clock req signer ≡ ok (status_response status)

  over_cap :
      (r : Collected)
      → ((d : Bytes) → r ≢ collected d)
      → collected_or 413 r ≡ err (status_response 413)
  over_cap (collected d) n = absurd (n d refl)
  over_cap length_limit n = refl
  over_cap transport_error n = refl

  over_cap_back :
      (r : Collected)
      → ((d : Bytes) → r ≢ collected d)
      → collected_or 502 r ≡ err (status_response 502)
  over_cap_back (collected d) n = absurd (n d refl)
  over_cap_back length_limit n = refl
  over_cap_back transport_error n = refl

  pub too_large : ((d : Bytes) → h.collect_limited req.body cap ≢ collected d) → AnswersWith 413
  unfolding forward run_pipeline collect_request
  too_large n = rw (over_cap (h.collect_limited req.body cap) n) refl

  module _ (d : Bytes) (read : h.collect_limited req.body cap ≡ collected d) where
    pub no_uri : upstream_uri h client req.uri ≡ none → AnswersWith 500
    unfolding forward run_pipeline collect_request send_upstream upstream_request
    no_uri e = simp (read, e)

    pub not_built :
        (uri : Uri)
        → upstream_uri h client req.uri ≡ some uri
        → h.request_builder_body (upstream_parts req uri d) ≡ none
        → AnswersWith 500
    unfolding forward run_pipeline collect_request send_upstream upstream_request
    not_built uri u e = rw read (rw u (rw e refl))

    pub is_built :
        (uri : Uri) (up : UpstreamRequest)
        → upstream_uri h client req.uri ≡ some uri
        → h.request_builder_body (upstream_parts req uri d) ≡ some up
        → upstream_request h client req d ≡ ok up
    unfolding upstream_request
    is_built uri up u e = rw u (rw e refl)

    module _ (up : UpstreamRequest) (built : upstream_request h client req d ≡ ok up) where
      pub not_sent : net up ≡ none → AnswersWith 502
      unfolding forward run_pipeline collect_request send_upstream
      not_sent e = simp (read, built, e)

      module _ (resp : UpstreamResponse) (sent : net up ≡ some resp) where
        pub not_read :
            ((e : Bytes) → h.collect_limited resp.body cap ≢ collected e) → AnswersWith 502
        unfolding forward run_pipeline collect_request send_upstream collect_upstream_response
        not_read n =
            rw read
              (rw built (rw sent (rw (over_cap_back (h.collect_limited resp.body cap) n) refl)))

        module _ (answer : Bytes)
            (collected_answer : h.collect_limited resp.body cap ≡ collected answer) where
          pub signed_answer :
              (r : SignedResponse)
              → sign c signer d answer clock ≡ ok r
              → forward c h client net clock req signer
                ≡ ok (build_signed_response c h resp answer r)
          unfolding forward run_pipeline collect_request send_upstream collect_upstream_response
              sign_or_500
          signed_answer r k = rw read (rw built (rw sent (rw collected_answer (rw k refl))))

          pub not_signed :
              {x : SigningError} → sign c signer d answer clock ≡ err x → AnswersWith 500
          unfolding forward run_pipeline collect_request send_upstream collect_upstream_response
              sign_or_500
          not_signed k = rw read (rw built (rw sent (rw collected_answer (rw k refl))))

  -- The ways a call can fail, with the status of the answer.
  pub data Failure : ℕ → Type 0 where
    request_body : ((d : Bytes) → h.collect_limited req.body cap ≢ collected d) → Failure 413
    upstream_url :
        (d : Bytes)
        → h.collect_limited req.body cap ≡ collected d
        → upstream_uri h client req.uri ≡ none
        → Failure 500
    request_builder :
        (d : Bytes) (uri : Uri)
        → h.collect_limited req.body cap ≡ collected d
        → upstream_uri h client req.uri ≡ some uri
        → h.request_builder_body (upstream_parts req uri d) ≡ none
        → Failure 500
    transport :
        (d : Bytes) (up : UpstreamRequest)
        → h.collect_limited req.body cap ≡ collected d
        → upstream_request h client req d ≡ ok up
        → net up ≡ none
        → Failure 502
    response_body :
        (d : Bytes) (up : UpstreamRequest) (resp : UpstreamResponse)
        → h.collect_limited req.body cap ≡ collected d
        → upstream_request h client req d ≡ ok up
        → net up ≡ some resp
        → ((e : Bytes) → h.collect_limited resp.body cap ≢ collected e)
        → Failure 502
    signature :
        (d answer : Bytes) (up : UpstreamRequest) (resp : UpstreamResponse) (x : SigningError)
        → h.collect_limited req.body cap ≡ collected d
        → upstream_request h client req d ≡ ok up
        → net up ≡ some resp
        → h.collect_limited resp.body cap ≡ collected answer
        → sign c signer d answer clock ≡ err x
        → Failure 500
    response_builder :
        (d answer : Bytes) (up : UpstreamRequest) (resp : UpstreamResponse) (r : SignedResponse)
        → h.collect_limited req.body cap ≡ collected d
        → upstream_request h client req d ≡ ok up
        → net up ≡ some resp
        → h.collect_limited resp.body cap ≡ collected answer
        → sign c signer d answer clock ≡ ok r
        → h.response_builder_body (relayed_response c resp answer r) ≡ none
        → Failure 500
