-- ===== src/Server/Serve/Signed.antt =====
-- A pass-through response of src/server.rs behind its layers, against the quote of the key that
-- signed it.
use verifiable_rpc_sidecar.Crates.Crypto.{Crypto, CryptoLaws}
use verifiable_rpc_sidecar.Crates.Dstack.{Dstack}
use verifiable_rpc_sidecar.Crates.Http.{
  Request, UpstreamRequest, UpstreamResponse, Response, Http, HttpLaws, collected,
}
use verifiable_rpc_sidecar.Crates.Bhttp.{Bhttp}
use verifiable_rpc_sidecar.Crates.Json.{Json}
use verifiable_rpc_sidecar.Crates.Axum.{Axum, AxumLaws, is_other}
use verifiable_rpc_sidecar.Util.{prefixed_hex}
use verifiable_rpc_sidecar.Signing.{SigningState, SignedResponse, pubkey_bytes, sign}
use verifiable_rpc_sidecar.Signing.Headers.{
  header, headers_verify, headers_verify-keep, any-keep, is_signing, sign-Verifies,
}
use verifiable_rpc_sidecar.Signing.Verify.{IsConsistent, IsUsable, sign_verifies}
use verifiable_rpc_sidecar.Attestation.{
  AttestationResponse, AttestationQuery, extract_nonce, attestation_handler,
}
use verifiable_rpc_sidecar.Attestation.Quote.{attestation_handler-Answered}
use verifiable_rpc_sidecar.Proxy.{
  body_cap, is_relayed, upstream_request, build_signed_response, forward,
}
use verifiable_rpc_sidecar.Proxy.Branches.{signed_answer, build_lem, relayed_response}
use verifiable_rpc_sidecar.Confidential.InnerCall.{Environment}
use verifiable_rpc_sidecar.Configuration.{Config}
use verifiable_rpc_sidecar.Server.{AppState, boot, route, is_compressed, proxy_handler}
use verifiable_rpc_sidecar.Server.Boot.{boot-IsStarted}
use verifiable_rpc_sidecar.Server.Serve.{serve}
use verifiable_rpc_sidecar.Server.Serve.Parts.{
  relayed_response-no_encoding, signing-is_other, by_answer,
}
use verifiable_rpc_sidecar.Prelude.{
  length, keep, any, Bytes, Text, codes, as_bytes, ok, ℕ, ◌≡◌, refl, sym, ap, ◌∙◌, subst, ◌≢◌, ◌⊎◌,
  inl, inr, true, false, none, some, [], ◌++◌,
}

module _ (c : Crypto) (laws : CryptoLaws c) (d : Dstack) (h : Http) (http_laws : HttpLaws h)
    (b : Bhttp) (j : Json) (a : Axum) (axum_laws : AxumLaws a) (env : Environment)
    (req : Request) where
  -- A response as the client finds it: a 500 because the builder refuses the relayed answer, or
  -- the upstream's status and the relayed headers but for those of the layers, with a body that
  -- decodes to the upstream's; the headers verify over the two bodies, and name the key whose
  -- text is given.
  abbrev pub IsVerified :
      Text → Text → Bytes → UpstreamResponse → Bytes → SignedResponse → Response → Type 0
  IsVerified chain_id pubkey request_bytes resp answer r out =
      ((h.response_builder_body (relayed_response c resp answer r) ≡ none) × (out.status ≡ 500))
      ⊎ ((out.status ≡ resp.status)
          × (keep is_other out.headers ≡ keep is_other (relayed_response c resp answer r).headers)
          × (a.decoded out ≡ some answer)
          × (headers_verify c chain_id request_bytes answer out.headers ≡ true)
          × (header (codes "vrpc-pubkey") out.headers ≡ some (as_bytes pubkey)))

  abbrev finished : Response → Response
  finished resp = a.finish req.method (a.compress req.headers resp)

  finished-status : (resp : Response) → (finished resp).status ≡ resp.status
  finished-status resp =
      axum_laws.finish-status req.method _ ∙ axum_laws.compress-status req.headers resp

  finished-headers :
      (resp : Response) → keep is_other (finished resp).headers ≡ keep is_other resp.headers
  finished-headers resp =
      axum_laws.finish-headers req.method _ ∙ axum_laws.compress-headers req.headers resp

  -- The layers on an answer of the pass-through.
  finished-IsVerified :
      (st : SigningState) (v : IsConsistent c st) (d' answer : Bytes) (resp : UpstreamResponse)
      (r : SignedResponse)
      → req.method ≢ codes "HEAD"
      → any is_signing resp.headers ≡ false
      → sign c st d' answer env.clock_after ≡ ok r
      → IsVerified st.chain_id
          (prefixed_hex c (pubkey_bytes c st))
          d'
          resp
          answer
          r
          (finished (build_signed_response c h resp answer r))
  finished-IsVerified st v d' answer resp r n unsigned k =
      elim (build_lem c h http_laws resp answer r) [
        | inl (refused, e) ↦ inl (refused, finished-status _ ∙ ap (λ x. x.status) e)
        | inr e ↦
            let out = relayed_response c resp answer r in
            let found =
              sign-Verifies c laws st v d' answer env.clock_after r (keep is_relayed resp.headers)
                [] k (any-keep is_signing is_relayed resp.headers unsigned) in
            let kept =
              headers_verify-keep c st.chain_id d' answer is_other (finished out).headers
                out.headers signing-is_other (finished-headers out) in
            inr (
              rw e (
                finished-status out,
                finished-headers out,
                axum_laws.finish-decoded req.method _ n
                    ∙ axum_laws.compress-decoded req.headers out
                        (relayed_response-no_encoding c resp answer r),
                kept.0 ∙ found.0,
                kept.1 ∙ found.1,
              ))
      ]

  length-pubkey_bytes : (st : SigningState) → length (pubkey_bytes c st) ≡ 32
  unfolding pubkey_bytes
  length-pubkey_bytes st = laws.length-verifying_key st.signing_key

  served :
      (st : AppState) (out : Response)
      → route req.method req.uri.path ≡ proxy_handler
      → forward c h st.upstream env.net env.clock_after req st.signing ≡ ok out
      → serve c d h b j a st env req ≡ ok (finished out)
  unfolding serve is_compressed
  served st out to_proxy e = rw to_proxy (rw e refl)

  -- In a process that was started: when a request is routed to the pass-through and is not HEAD,
  -- both bodies are collected within the cap, the upstream request is built and answered without
  -- signing headers, the clock is usable, and a query was answered with an attestation, then the
  -- response is a 500 because the builder refuses the relayed answer, or it has the upstream's
  -- status and its relayed headers but for those of the layers, and a body that the client
  -- decodes to the upstream's; the client, from the headers, verifies a signature over the two
  -- bodies for the configured chain, under the key of the attestation, which is beside a quote of
  -- that key and of the nonce of the query.
  pub serve_attested :
      (config : Config) (st : AppState) (d' answer : Bytes) (up : UpstreamRequest)
      (resp : UpstreamResponse) (ms : ℕ) (query : AttestationQuery) (att : AttestationResponse)
      → boot c d h config ≡ ok st
      → route req.method req.uri.path ≡ proxy_handler
      → req.method ≢ codes "HEAD"
      → h.collect_limited req.body (body_cap st.upstream.max_body_bytes) ≡ collected d'
      → upstream_request h st.upstream req d' ≡ ok up
      → env.net up ≡ some resp
      → any is_signing resp.headers ≡ false
      → h.collect_limited resp.body (body_cap st.upstream.max_body_bytes) ≡ collected answer
      → IsUsable env.clock_after ms
      → attestation_handler c d st.attestation query ≡ ok att
      → (r : SignedResponse) × (out : Response) × (nonce : Bytes) × (serve c d h b j a st env req
          ≡ ok out)
        × IsVerified config.chain_id att.pubkey d' resp answer r out
        × (r.timestamp_ms ≡ ms)
        × (extract_nonce c query ≡ ok nonce)
        × (d.get_quote (r.pubkey ++ nonce) ≡ some att.quote)
  serve_attested config st d' answer up resp ms query att started to_proxy n read built sent
        unsigned whole u attested =
      let ((consistent, chain, asked, key, hash), upstream, limits) =
        boot-IsStarted c d h config st started in
      let (r, signed, time, pk, hex, len, good) =
        sign_verifies c laws st.signing consistent d' answer env.clock_after ms u in
      let wide : length st.attestation.signing_pubkey ≡ 32 =
        ap length key ∙ length-pubkey_bytes st.signing in
      let (nonce, asked, quote, text) =
        by_answer c d st.attestation query wide att
          (attestation_handler-Answered c d st.attestation wide query) attested in
      (
        r,
        _,
        nonce,
        served st _ to_proxy (
            signed_answer c h st.upstream env.net env.clock_after req st.signing d' read up built
              resp sent answer whole r signed),
        subst
            (λ p.
              IsVerified p.0 p.1 d' resp answer r
                (finished (build_signed_response c h resp answer r)))
            (pair chain (ap (prefixed_hex c) (sym key) ∙ sym text))
            (finished-IsVerified st.signing consistent d' answer resp r n unsigned signed),
        time,
        asked,
        subst (λ p. d.get_quote (p ++ nonce) ≡ some att.quote) (key ∙ sym pk) quote,
      )
    where
      pair : {x y z w : Text} → x ≡ y → z ≡ w → ◌≡◌ {A = Text × Text} (x, z) (y, w)
      pair e f = rw (e, f) refl
