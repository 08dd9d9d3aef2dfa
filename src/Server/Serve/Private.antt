-- ===== src/Server/Serve/Private.antt =====
-- `POST /confidential` behind the router of src/server.rs, as the client of src/confidential.rs sees
-- it, against the attestation of src/attestation.rs.
use verifiable_rpc_sidecar.Crates.Crypto.{Crypto, CryptoLaws}
use verifiable_rpc_sidecar.Crates.Dstack.{Dstack}
use verifiable_rpc_sidecar.Crates.Http.{Request, Response, Http, HttpLaws, collected}
use verifiable_rpc_sidecar.Crates.Bhttp.{Bhttp}
use verifiable_rpc_sidecar.Crates.Json.{Json}
use verifiable_rpc_sidecar.Crates.Axum.{Axum, AxumLaws, is_other, is_content_encoding}
use verifiable_rpc_sidecar.Util.{prefixed_hex}
use verifiable_rpc_sidecar.Envelope.Client.{client_request}
use verifiable_rpc_sidecar.Signing.{pubkey_bytes}
use verifiable_rpc_sidecar.Attestation.{
  AttestationQuery, AttestationResponse, extract_nonce, attestation_handler,
}
use verifiable_rpc_sidecar.Attestation.Quote.{attestation_handler-Answered}
use verifiable_rpc_sidecar.Proxy.{status_response}
use verifiable_rpc_sidecar.Confidential.Outcome.{Outcome}
use verifiable_rpc_sidecar.Confidential.InnerCall.{Environment}
use verifiable_rpc_sidecar.Confidential.Exchange.{exchange, confidential_exchange}
use verifiable_rpc_sidecar.Confidential.Exchange.Ends.{Fills}
use verifiable_rpc_sidecar.Confidential.Exchange.Client.{Cause, IsGenuine, client_gets}
use verifiable_rpc_sidecar.Server.{AppState, boot, route, is_compressed, confidential_handler}
use verifiable_rpc_sidecar.Server.Boot.{boot-IsStarted, boot-from_dstack_bytes}
use verifiable_rpc_sidecar.Server.Serve.{serve}
use verifiable_rpc_sidecar.Server.Serve.Parts.{by_answer}
use verifiable_rpc_sidecar.Configuration.{Config}
use verifiable_rpc_sidecar.Prelude.{
  length, keep, any, Bytes, codes, ok, ◌≡◌, refl, ap, ◌∙◌, subst, ◌≢◌, ◌⊎◌, inl, inr, some, ◌++◌,
}

module _ (c : Crypto) (laws : CryptoLaws c) (d : Dstack) (h : Http) (http_laws : HttpLaws h)
    (b : Bhttp) (j : Json) (a : Axum) (axum_laws : AxumLaws a) (config : Config) (st : AppState)
    (started : boot c d h config ≡ ok st) (env : Environment) (fills : Fills env) (req : Request)
    (rnd text : Bytes) where
  abbrev key : Bytes
  key = st.signing.signing_key

  -- An answer that is a bare 500 for one of the causes, or genuine.
  abbrev pub IsAnswer : Response → Type 0
  IsAnswer resp =
      ((resp ≡ status_response 500)
        × Cause c laws h http_laws b j st.upstream key config.chain_id st.signing
            (boot-from_dstack_bytes c d h config st started) st.confidential env fills req rnd text)
      ⊎ IsGenuine c laws h http_laws b j st.upstream key config.chain_id st.signing
          (boot-from_dstack_bytes c d h config st started) st.confidential env fills req rnd text
          resp

  plain-decoded : (resp : Response) → IsAnswer resp → a.decoded resp ≡ some resp.body
  plain-decoded resp (inl (e, why)) =
      axum_laws.plain-decoded resp (ap (λ x. any is_content_encoding x.headers) e)
  plain-decoded resp (inr g) =
      axum_laws.plain-decoded resp (ap (λ x. any is_content_encoding x.headers) g.5)

  served :
      (resp : Response) (o : Outcome)
      → route req.method req.uri.path ≡ confidential_handler
      → exchange c h b j st.upstream st.signing st.confidential env req ≡ ok (resp, o)
      → serve c d h b j a st env req ≡ ok (a.finish req.method resp)
  unfolding serve is_compressed confidential_exchange
  served resp o to_confidential e = rw to_confidential (rw e refl)

  -- A response of `/confidential` and an attestation, as the client finds them: the answer's
  -- status, its headers but for those of the router, and its body as it was sealed, not
  -- compressed; and the key's text beside a quote of the key and of the nonce asked for.
  abbrev pub Arrives : AttestationQuery → AttestationResponse → Response → Response → Type 0
  Arrives query att resp out =
      (out.status ≡ resp.status)
      × (keep is_other out.headers ≡ keep is_other resp.headers)
      × (a.decoded out ≡ some resp.body)
      × (att.pubkey ≡ prefixed_hex c (c.verifying_key key))
      × ((nonce : Bytes) × (extract_nonce c query ≡ ok nonce)
          × (d.get_quote (c.verifying_key key ++ nonce) ≡ some att.quote))

  -- In a process that was started: when a request is routed to `/confidential`, is not HEAD and
  -- was encapsulated by a client to the X25519 form of the key, it is collected within the cap,
  -- getrandom fills its 32 bytes or fails, and a query was answered with an attestation, then the
  -- response is an answer that is genuine for that key, or a bare 500 for one of the causes, as it
  -- left the handler but for the router's headers; and the attestation has that key's text, beside
  -- a quote of that key and of the nonce of the query.
  pub serve_private :
      (query : AttestationQuery) (att : AttestationResponse)
      → route req.method req.uri.path ≡ confidential_handler
      → req.method ≢ codes "HEAD"
      → h.collect_limited req.body st.confidential.max_request_bytes
        ≡ collected (client_request c (c.to_montgomery key) rnd text)
      → attestation_handler c d st.attestation query ≡ ok att
      → (resp : Response) × (out : Response) × (serve c d h b j a st env req ≡ ok out)
        × IsAnswer resp
        × Arrives query att resp out
  unfolding pubkey_bytes
  serve_private query att to_confidential n received attested =
      let ((consistent, chain, asked, same_key, hash), upstream, limits) =
        boot-IsStarted c d h config st started in
      let (resp, o, done, answer) =
        client_gets c laws h http_laws b j st.upstream key config.chain_id st.signing
          (boot-from_dstack_bytes c d h config st started) st.confidential env fills req rnd text
          received in
      let wide : length st.attestation.signing_pubkey ≡ 32 =
        ap length same_key ∙ laws.length-verifying_key key in
      let (nonce, asked, quote, shown) =
        by_answer c d st.attestation query wide att
          (attestation_handler-Answered c d st.attestation wide query) attested in
      (
        resp,
        _,
        served resp o to_confidential done,
        answer,
        (
          axum_laws.finish-status req.method resp,
          axum_laws.finish-headers req.method resp,
          axum_laws.finish-decoded req.method resp n ∙ plain-decoded resp answer,
          shown ∙ ap (prefixed_hex c) same_key,
          (nonce, asked, subst (λ p. d.get_quote (p ++ nonce) ≡ some att.quote) same_key quote),
        ),
      )
