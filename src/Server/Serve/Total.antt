-- ===== src/Server/Serve/Total.antt =====
-- The router of src/server.rs answers every request to a process that src/main.rs started.
use verifiable_rpc_sidecar.Crates.Crypto.{Crypto, CryptoLaws}
use verifiable_rpc_sidecar.Crates.Dstack.{Dstack}
use verifiable_rpc_sidecar.Crates.Http.{Uri, Request, Response, Http, HttpLaws}
use verifiable_rpc_sidecar.Crates.Bhttp.{Bhttp}
use verifiable_rpc_sidecar.Crates.Json.{Json}
use verifiable_rpc_sidecar.Crates.Axum.{Axum}
use verifiable_rpc_sidecar.Signing.{pubkey_bytes}
use verifiable_rpc_sidecar.Signing.Verify.{IsConsistent}
use verifiable_rpc_sidecar.Attestation.{
  AttestationState, AttestationQuery, AttestationResponse, AttestationError,
}
use verifiable_rpc_sidecar.Attestation.Quote.{
  Answered, attestation_handler-Answered, no_nonce, no_quote, quoted,
}
use verifiable_rpc_sidecar.Proxy.Total.{forward_answers}
use verifiable_rpc_sidecar.Confidential.InnerCall.{Environment}
use verifiable_rpc_sidecar.Confidential.Exchange.Ends.{Fills}
use verifiable_rpc_sidecar.Confidential.Exchange.Total.{confidential_exchange_answers}
use verifiable_rpc_sidecar.Configuration.{Config}
use verifiable_rpc_sidecar.Server.{AppState, Handler, boot, route}
use verifiable_rpc_sidecar.Server.Boot.{boot-IsStarted}
use verifiable_rpc_sidecar.Server.Serve.{
  attestation_response, attestation_for, respond, layered, serve,
}
use verifiable_rpc_sidecar.Prelude.{length, Result, ok, ℕ, ◌≡◌, refl, ap, ◌∙◌, Option, none, some}

module _ (c : Crypto) (laws : CryptoLaws c) (d : Dstack) (h : Http) (http_laws : HttpLaws h)
    (b : Bhttp) (j : Json) (a : Axum) where
  abbrev Responds : Result Response (Unit {0}) → Type 0
  Responds r = (resp : Response) × (r ≡ ok resp)

  attestation-Responds :
      (st : AttestationState) (query : AttestationQuery)
      {r : Result AttestationResponse (ℕ × AttestationError)}
      → (key : length st.signing_pubkey ≡ 32) → Answered c d st key query r
      → Responds (attestation_response c d h b j a r)
  attestation-Responds st query key (no_nonce e k) = (_, refl)
  attestation-Responds st query key (no_quote nonce k q) = (_, refl)
  attestation-Responds st query key (quoted nonce quote k q) = (_, refl)

  attestation_for-Responds :
      (st : AttestationState) (uri : Uri) (query : Option AttestationQuery)
      → length st.signing_pubkey ≡ 32
      → Responds (attestation_for c d h b j a st uri query)
  attestation_for-Responds st uri none key = (_, refl)
  attestation_for-Responds st uri (some query) key =
      attestation-Responds st query key (attestation_handler-Answered c d st key query)

  module _ (st : AppState) (v : IsConsistent c st.signing)
      (key : st.attestation.signing_pubkey ≡ pubkey_bytes c st.signing) (env : Environment)
      (fills : Fills env) (req : Request) where
    key-length : length st.attestation.signing_pubkey ≡ 32
    unfolding pubkey_bytes
    key-length = ap length key ∙ laws.length-verifying_key st.signing.signing_key

    respond-Responds : (handler : Handler) → Responds (respond c d h b j a handler st env req)
    respond-Responds Handler.confidential_handler =
        let (resp, line, done, status, body) =
          confidential_exchange_answers c laws h http_laws b j st.upstream st.signing v
            st.confidential env fills req in
        (resp, rw done refl)
    respond-Responds Handler.confidential_method_not_allowed = (_, refl)
    respond-Responds Handler.attestation_handler =
        attestation_for-Responds st.attestation req.uri (a.query req.uri) key-length
    respond-Responds Handler.info_handler = (_, refl)
    respond-Responds Handler.proxy_handler =
        let (resp, done) =
          forward_answers c laws st.signing v h st.upstream env.net env.clock_after req in
        (resp, rw done refl)
    respond-Responds Handler.axum_method_not_allowed = (_, refl)

  -- A process that was started answers every request on every route, whatever the client, the
  -- upstream, the guest agent and the clock do, if getrandom fills its 32 bytes or fails: no
  -- handler panics.
  pub serve_answers :
      (config : Config) (st : AppState) (env : Environment) (req : Request)
      → boot c d h config ≡ ok st
      → Fills env
      → (resp : Response) × (serve c d h b j a st env req ≡ ok resp)
  unfolding serve
  serve_answers config st env req started fills =
      let ((consistent, chain, asked, key, hash), upstream, limits) =
        boot-IsStarted c d h config st started in
      let handler = route req.method req.uri.path in
      let (resp, done) = respond-Responds st consistent key env fills req handler in
      (a.finish req.method (layered c d h b j a handler req resp), rw done refl)
