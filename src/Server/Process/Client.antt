-- ===== src/Server/Process/Client.antt =====
-- What the clients of a process of src/server.rs get, whatever other calls do in between.
use verifiable_rpc_sidecar.Crates.Crypto.{Crypto, CryptoLaws}
use verifiable_rpc_sidecar.Crates.Dstack.{Dstack}
use verifiable_rpc_sidecar.Crates.Http.{
  UpstreamRequest, UpstreamResponse, Response, Http, HttpLaws, collected,
}
use verifiable_rpc_sidecar.Crates.Bhttp.{Bhttp}
use verifiable_rpc_sidecar.Crates.Json.{Json}
use verifiable_rpc_sidecar.Crates.Axum.{Axum, AxumLaws}
use verifiable_rpc_sidecar.Envelope.Client.{client_request}
use verifiable_rpc_sidecar.Signing.{SignedResponse}
use verifiable_rpc_sidecar.Signing.Headers.{is_signing}
use verifiable_rpc_sidecar.Signing.Verify.{IsUsable}
use verifiable_rpc_sidecar.Attestation.{
  AttestationQuery, AttestationResponse, extract_nonce, attestation_handler,
}
use verifiable_rpc_sidecar.Proxy.{body_cap, upstream_request}
use verifiable_rpc_sidecar.Confidential.Exchange.Ends.{Fills}
use verifiable_rpc_sidecar.Confidential.Task.Ends.{timing}
use verifiable_rpc_sidecar.Configuration.{Config}
use verifiable_rpc_sidecar.Server.{AppState, boot, route, confidential_handler, proxy_handler}
use verifiable_rpc_sidecar.Server.Serve.Private.{IsAnswer, Arrives, serve_private}
use verifiable_rpc_sidecar.Server.Serve.Signed.{IsVerified, serve_attested}
use verifiable_rpc_sidecar.Server.Process.{answered, Slot, Event, idle, after}
use verifiable_rpc_sidecar.Server.Process.Schedule.{process_serves}
use verifiable_rpc_sidecar.Prelude.{
  any, ok-injective, Bytes, codes, ok, ℕ, ◌≡◌, sym, ◌∙◌, subst, ◌≢◌, Bool, false, some, List, ◌++◌,
}

module _ (c : Crypto) (laws : CryptoLaws c) (d : Dstack) (h : Http) (http_laws : HttpLaws h)
    (b : Bhttp) (j : Json) (a : Axum) (axum_laws : AxumLaws a) (config : Config) (st : AppState)
    (started : boot c d h config ≡ ok st) (es : List Event) (i : ℕ) (slot : Slot b)
    (out : Response) where
  -- In a process that was started, whatever other calls arrive and however all are woken and
  -- dropped: when a call to `/confidential` that is not HEAD has ended with a response, its
  -- client encapsulated the request to the X25519 form of the key, it is collected within the
  -- cap, getrandom fills its 32 bytes or fails, and a query was answered with an attestation,
  -- then the response is an answer that is genuine for that key, or a bare 500 for one of the
  -- causes, each of this very exchange: no randomness, no clock, its inner result was not sealed,
  -- the body it sealed was not signed, or the builder refuses the answer with that body and that
  -- signature; it is as it left the handler but for the router's headers, in one of the two
  -- timings of the upstream's answer; and the attestation has that key's text, beside a quote of
  -- that key and of the nonce of the query.
  pub process_private :
      (fills : Fills slot.env) (rnd text : Bytes) (query : AttestationQuery)
      (att : AttestationResponse)
      → (after c d h b j a st (idle b) es).calls i ≡ some slot
      → slot.call ≡ answered out
      → route slot.req.method slot.req.uri.path ≡ confidential_handler
      → slot.req.method ≢ codes "HEAD"
      → h.collect_limited slot.req.body st.confidential.max_request_bytes
        ≡ collected (client_request c (c.to_montgomery st.signing.signing_key) rnd text)
      → attestation_handler c d st.attestation query ≡ ok att
      → (t : Bool) × (resp : Response) × IsAnswer c laws d h http_laws b j a axum_laws config st
          started
          (timing slot.env t)
          fills
          slot.req
          rnd
          text
          resp
        × Arrives c laws d h http_laws b j a axum_laws config st started
            (timing slot.env t)
            fills
            slot.req
            rnd
            text
            query
            att
            resp
            out
  process_private fills rnd text query att there done to_confidential n received attested =
      let (t, e) = process_serves c d h b j a st es i slot out there done in
      let (resp, out', e', answer, arrives) =
        serve_private c laws d h http_laws b j a axum_laws config st started (timing slot.env t)
          fills slot.req rnd text query att to_confidential n received attested in
      (
        t,
        resp,
        answer,
        subst
            (Arrives c laws d h http_laws b j a axum_laws config st started (timing slot.env t)
              fills slot.req rnd text query att resp)
            (ok-injective (sym e' ∙ e)) arrives,
      )

  -- In a process that was started, whatever other calls arrive and however all are woken and
  -- dropped: when a call that is routed to the pass-through and is not HEAD has ended with a
  -- response, both bodies are collected within the cap, the upstream request is built and
  -- answered without signing headers, the clock is usable, and a query was answered with an
  -- attestation, then the response is a 500, because the builder refuses the relayed answer, or
  -- it has the upstream's status and its relayed headers but for those of the layers, and a body
  -- that the client decodes to the upstream's; the client, from the headers, verifies a signature
  -- over the two bodies for the configured chain, under the key of the attestation, which is
  -- beside a quote of that key and of the nonce of the query.
  pub process_attested :
      (request_bytes answer : Bytes) (up : UpstreamRequest) (resp : UpstreamResponse) (ms : ℕ)
      (query : AttestationQuery) (att : AttestationResponse)
      → (after c d h b j a st (idle b) es).calls i ≡ some slot
      → slot.call ≡ answered out
      → route slot.req.method slot.req.uri.path ≡ proxy_handler
      → slot.req.method ≢ codes "HEAD"
      → h.collect_limited slot.req.body (body_cap st.upstream.max_body_bytes)
        ≡ collected request_bytes
      → upstream_request h st.upstream slot.req request_bytes ≡ ok up
      → slot.env.net up ≡ some resp
      → any is_signing resp.headers ≡ false
      → h.collect_limited resp.body (body_cap st.upstream.max_body_bytes) ≡ collected answer
      → IsUsable slot.env.clock_after ms
      → attestation_handler c d st.attestation query ≡ ok att
      → (r : SignedResponse) × (nonce : Bytes) × IsVerified c laws d h http_laws b j a axum_laws
          slot.env slot.req config.chain_id att.pubkey request_bytes resp answer r out
        × (r.timestamp_ms ≡ ms)
        × (extract_nonce c query ≡ ok nonce)
        × (d.get_quote (r.pubkey ++ nonce) ≡ some att.quote)
  process_attested request_bytes answer up resp ms query att there done to_proxy n read built sent
        unsigned whole u attested =
      let (t, e) = process_serves c d h b j a st es i slot out there done in
      let (r, out', nonce, e', verified, time, asked, quote) =
        serve_attested c laws d h http_laws b j a axum_laws (timing slot.env t) slot.req config st
          request_bytes answer up resp ms query att started to_proxy n read built sent unsigned
          whole u attested in
      (
        r,
        nonce,
        subst
            (IsVerified c laws d h http_laws b j a axum_laws slot.env slot.req config.chain_id
              att.pubkey request_bytes resp answer r)
            (ok-injective (sym e' ∙ e)) verified,
        time,
        asked,
        quote,
      )
