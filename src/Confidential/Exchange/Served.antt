-- ===== src/Confidential/Exchange/Served.antt =====
-- The sealed answers of src/confidential.rs: their signature, their headers and their log line.
use verifiable_rpc_sidecar.Crates.Crypto.{Crypto, CryptoLaws}
use verifiable_rpc_sidecar.Crates.Http.{Request, Response, Http, HttpLaws}
use verifiable_rpc_sidecar.Crates.Bhttp.{Bhttp}
use verifiable_rpc_sidecar.Crates.Json.{Json}
use verifiable_rpc_sidecar.Envelope.{ResponseContext}
use verifiable_rpc_sidecar.Signing.{SigningState, SignedResponse, sign, signature_hex}
use verifiable_rpc_sidecar.Signing.Verify.{IsConsistent, IsUsable, client_verifies, sign_verifies}
use verifiable_rpc_sidecar.Proxy.{UpstreamClient, status_response, signing_headers}
use verifiable_rpc_sidecar.Confidential.Outcome.{Outcome, outer_status}
use verifiable_rpc_sidecar.Confidential.InnerCall.{
  ConfidentialConfig, Environment, run_inner, InnerCall, Sealed, seal_inner,
}
use verifiable_rpc_sidecar.Confidential.Exchange.{
  read_outer, open_outer, sealed_exchange, exchange, answer, build_confidential_response,
}
use verifiable_rpc_sidecar.Confidential.Exchange.Sent.{Opened}
use verifiable_rpc_sidecar.Prelude.{
  Option-cases, length, Bytes, to_string, codes, as_bytes, ok, ℕ, ◌≡◌, refl, ◌⊎◌, inl, inr, true,
  none, [], ◌∷◌,
}

-- The answer that carries a sealed body.
abbrev pub confidential_response : Crypto → Sealed → ℕ → SignedResponse → Response
confidential_response c sealed batch_size r = record {
  status = outer_status sealed.inner_status;
  headers =
      (codes "content-type", codes "message/ohttp-res")
      ∷ (codes "vrpc-signature", as_bytes (signature_hex c r))
      ∷ (codes "vrpc-timestamp", as_bytes (to_string r.timestamp_ms))
      ∷ (codes "vrpc-pubkey", as_bytes r.pubkey_hex)
      ∷ (codes "vrpc-batch-size", as_bytes (to_string batch_size))
      ∷ [];
  body = sealed.body;
}

-- The outcome of a sealed answer.
abbrev pub sealed_outcome : Sealed → ℕ → ℕ → ℕ → Outcome
sealed_outcome sealed request_bytes batch_size upstream_ms = record {
  class = sealed.class;
  inner_status = sealed.inner_status;
  batch_size = batch_size;
  request_bytes = request_bytes;
  response_bytes = length sealed.body;
  upstream_ms = upstream_ms;
}

module _ (c : Crypto) (h : Http) (laws : HttpLaws h) where
  pub build_lem :
      (sealed : Sealed) (n : ℕ) (r : SignedResponse)
      → ((build_confidential_response c h sealed.inner_status n sealed.body r ≡ status_response 500)
          × (h.response_builder_body (confidential_response c sealed n r) ≡ none))
        ⊎ (build_confidential_response c h sealed.inner_status n sealed.body r
            ≡ confidential_response c sealed n r)
  unfolding build_confidential_response signing_headers
  build_lem sealed n r =
      elim (Option-cases (h.response_builder_body (confidential_response c sealed n r))) [
        | inl e ↦ inl (rw e, e)
        | inr (x, e) ↦ inr (rw e (laws.response_builder-keeps _ _ e))
      ]

module _ (c : Crypto) (laws : CryptoLaws c) (h : Http) (http_laws : HttpLaws h) (b : Bhttp)
    (j : Json) (upstream : UpstreamClient) (signer : SigningState) (v : IsConsistent c signer)
    (cfg : ConfidentialConfig) (env : Environment) (req : Request) where
  open_outer-of_Opened :
      (outer_req text nonce : Bytes) (ctx : ResponseContext)
      → Opened c h signer cfg env req outer_req text ctx nonce
      → open_outer c h signer cfg env req ≡ ok (outer_req, text, ctx, nonce)
  unfolding open_outer read_outer
  open_outer-of_Opened outer_req text nonce ctx o = simp (o.read, o.opens, o.nonce_eq, o.clock)

  module _ (outer_req text nonce : Bytes) (ctx : ResponseContext)
      (o : Opened c h signer cfg env req outer_req text ctx nonce) (sealed : Sealed)
      (s : seal_inner b ctx nonce (run_inner h b j upstream cfg env text).result ≡ ok sealed) where
    abbrev call : InnerCall b
    call = run_inner h b j upstream cfg env text

    answered :
        (r : SignedResponse)
        → sign c signer outer_req sealed.body env.clock_after ≡ ok r
        → exchange c h b j upstream signer cfg env req
          ≡ ok (
            build_confidential_response c h sealed.inner_status call.batch_size sealed.body r,
            sealed_outcome sealed (length outer_req) call.batch_size call.upstream_ms,
          )
    unfolding exchange sealed_exchange answer
    answered r k = rw (open_outer-of_Opened outer_req text nonce ctx o) (rw s (rw k refl))

    -- An exchange whose outer body opens, whose inner result was sealed and whose second reading
    -- of the clock is usable ends in a signed answer: a client verifies the signature over the
    -- outer body and the sealed body, at that reading's time; the answer is the sealed body under
    -- the five headers, or a bare 500 if the builder refuses it.
    pub exchange_verifies :
        (ms : ℕ)
        → IsUsable env.clock_after ms
        → (r : SignedResponse) × (resp : Response) × (exchange c h b j upstream signer cfg env req
            ≡ ok (resp, sealed_outcome sealed (length outer_req) call.batch_size call.upstream_ms))
          × (((resp ≡ status_response 500)
                × (h.response_builder_body (confidential_response c sealed call.batch_size r)
                    ≡ none))
              ⊎ (resp ≡ confidential_response c sealed call.batch_size r))
          × (r.timestamp_ms ≡ ms)
          × (client_verifies c signer.chain_id outer_req sealed.body r ≡ true)
    exchange_verifies ms u =
        let (r, signed, time, pk, hex, len, good) =
          sign_verifies c laws signer v outer_req sealed.body env.clock_after ms u in
        (r, _, answered r signed, build_lem c h http_laws sealed call.batch_size r, time, good)
