-- ===== src/Proxy/Forward.antt =====
-- `UpstreamClient::forward` of src/proxy.rs: what goes upstream, and what comes back signed.
use verifiable_rpc_sidecar.Crates.Crypto.{Crypto, CryptoLaws}
use verifiable_rpc_sidecar.Crates.Http.{
  Request, UpstreamRequest, UpstreamResponse, Response, Http, HttpLaws, collected, body_data,
}
use verifiable_rpc_sidecar.Signing.Verify.{
  IsConsistent, IsUsable, client_verifies, sign_verifies, sign-Ends,
}
use verifiable_rpc_sidecar.Proxy.Total.{Ends-ne-panic}
use verifiable_rpc_sidecar.Signing.{SigningState, SignedResponse, Reading, sign}
use verifiable_rpc_sidecar.Proxy.{
  UpstreamClient, Net, body_cap, upstream_uri, upstream_request, forward,
}
use verifiable_rpc_sidecar.Proxy.Branches.{
  relayed_response, IsRefused, build_lem, upstream_parts, collected-cases, AnswersWith, too_large,
  no_uri, not_built, is_built, not_sent, not_read, not_signed, signed_answer, Failure, request_body,
  upstream_url, request_builder, transport, response_body, signature, response_builder,
}
use verifiable_rpc_sidecar.Prelude.{
  Result-cases, ap, ◌∙◌, Option-cases, Bytes, ok, ℕ, ◌≡◌, ◌⊎◌, inl, inr, true, some,
}

module _ (c : Crypto) (h : Http) (client : UpstreamClient) (net : Net) (clock : Reading)
    (req : Request) (signer : SigningState) where
  abbrev client_cap : ℕ
  client_cap = body_cap client.max_body_bytes

  -- A call that relays: both bodies are collected, the request is built and answered, the two bodies
  -- are signed, and the answer is the upstream's with that signature.
  pub record IsRelayed : Type 0 where
    pub d : Bytes
    pub answer : Bytes
    pub up : UpstreamRequest
    pub resp : UpstreamResponse
    pub r : SignedResponse
    pub read : h.collect_limited req.body client_cap ≡ collected d
    pub built : upstream_request h client req d ≡ ok up
    pub sent : net up ≡ some resp
    pub whole : h.collect_limited resp.body client_cap ≡ collected answer
    pub is_signed : sign c signer d answer clock ≡ ok r
    pub answers : forward c h client net clock req signer ≡ ok (relayed_response c resp answer r)

  -- A call that fails in one of the ways, with that way's bare status.
  abbrev pub Fails : Type 0
  Fails =
      (status : ℕ) × Failure c h client net clock req signer status
      × AnswersWith c h client net clock req signer status

  module _ (laws : CryptoLaws c) (http_laws : HttpLaws h) (v : IsConsistent c signer) where
    module _ (d : Bytes) (read : h.collect_limited req.body client_cap ≡ collected d)
        (up : UpstreamRequest) (built : upstream_request h client req d ≡ ok up)
        (resp : UpstreamResponse) (sent : net up ≡ some resp) (answer : Bytes)
        (whole : h.collect_limited resp.body client_cap ≡ collected answer) where
      by_signature : Fails ⊎ IsRelayed
      by_signature =
          elim (Result-cases (sign c signer d answer clock)
            (Ends-ne-panic c laws signer v (sign-Ends c laws signer v d answer clock))) [
              | inr (x, k) ↦ inl (
                500,
                signature d answer up resp x read built sent whole k,
                not_signed c h client net clock req signer d read up built resp sent answer whole k,
              )
              | inl (r, k) ↦
                  let out =
                    signed_answer c h client net clock req signer d read up built resp sent answer
                      whole r k in
                  elim (build_lem c h http_laws resp answer r) [
                    | inl (refused, e) ↦ inl (
                      500,
                      response_builder d answer up resp r read built sent whole k refused,
                      out ∙ ap ok e,
                    )
                    | inr e ↦ inr (record {
                      d = d;
                      answer = answer;
                      up = up;
                      resp = resp;
                      r = r;
                      read = read;
                      built = built;
                      sent = sent;
                      whole = whole;
                      is_signed = k;
                      answers = out ∙ ap ok e;
                    })
                  ]
            ]

    by_upstream :
        (d : Bytes) (up : UpstreamRequest)
        → h.collect_limited req.body client_cap ≡ collected d
        → upstream_request h client req d ≡ ok up
        → Fails ⊎ IsRelayed
    by_upstream d up read built = elim (Option-cases (net up)) [
      | inl e ↦ inl (
        502,
        transport d up read built e,
        not_sent c h client net clock req signer d read up built e,
      )
      | inr (resp, sent) ↦ elim (collected-cases (h.collect_limited resp.body client_cap)) [
        | inl (answer, whole) ↦ by_signature d read up built resp sent answer whole
        | inr n ↦ inl (
          502,
          response_body d up resp read built sent n,
          not_read c h client net clock req signer d read up built resp sent n,
        )
      ]
    ]

    by_request :
        (d : Bytes) → h.collect_limited req.body client_cap ≡ collected d → Fails ⊎ IsRelayed
    by_request d read = elim (Option-cases (upstream_uri h client req.uri)) [
      | inl e ↦ inl (500, upstream_url d read e, no_uri c h client net clock req signer d read e)
      | inr (uri, u) ↦ elim (Option-cases (h.request_builder_body (upstream_parts req uri d))) [
        | inl e ↦ inl (
          500,
          request_builder d uri read u e,
          not_built c h client net clock req signer d read uri u e,
        )
        | inr (up, e) ↦
            by_upstream d up read (is_built c h client net clock req signer d read uri up u e)
      ]
    ]

    -- With a consistent signing state, every call of the pass-through fails in one of the ways and
    -- is answered with that way's bare status, or it relays the upstream's answer with the signature
    -- over both bodies. The ways are: 413 for a request body that is not collected within the cap;
    -- 500 for no URI, a request or a response that the builder refuses, and no signature; 502 for
    -- an upstream that fails, or whose body is not collected within the cap.
    pub forward_errors : Fails ⊎ IsRelayed
    forward_errors = elim (collected-cases (h.collect_limited req.body client_cap)) [
      | inl (d, read) ↦ by_request d read
      | inr n ↦ inl (413, request_body n, too_large c h client net clock req signer n)
    ]

module _ (c : Crypto) (laws : CryptoLaws c) (h : Http) (http_laws : HttpLaws h)
    (client : UpstreamClient) (net : Net) (clock : Reading) (req : Request) (signer : SigningState)
    (v : IsConsistent c signer) where
  -- When both bodies are collected within the cap, the upstream answers and the clock is usable,
  -- the client gets the upstream's status, its headers that are relayed, its body as it was, and
  -- a signature that verifies over the two bodies at the clock's time; or a bare 500 if the
  -- builder refuses that answer.
  pub forward_verifies :
      (d answer : Bytes) (up : UpstreamRequest) (resp : UpstreamResponse) (ms : ℕ)
      → h.collect_limited req.body (body_cap client.max_body_bytes) ≡ collected d
      → upstream_request h client req d ≡ ok up
      → net up ≡ some resp
      → h.collect_limited resp.body (body_cap client.max_body_bytes) ≡ collected answer
      → IsUsable clock ms
      → (r : SignedResponse) × (out : Response) × (forward c h client net clock req signer ≡ ok out)
        × (IsRefused c h http_laws resp answer r out ⊎ (out ≡ relayed_response c resp answer r))
        × (r.timestamp_ms ≡ ms)
        × (d ≡ body_data req.body.frames)
        × (answer ≡ body_data resp.body.frames)
        × (client_verifies c signer.chain_id d answer r ≡ true)
  forward_verifies d answer up resp ms read built sent whole u =
      let (r, signed, time, pk, hex, len, good) =
        sign_verifies c laws signer v d answer clock ms u in
      (
        r,
        _,
        signed_answer c h client net clock req signer d read up built resp sent answer whole r
            signed,
        build_lem c h http_laws resp answer r,
        time,
        (http_laws.collect_limited-data _ _ _ read).0,
        (http_laws.collect_limited-data _ _ _ whole).0,
        good,
      )
