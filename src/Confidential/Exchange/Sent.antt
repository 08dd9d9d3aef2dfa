-- ===== src/Confidential/Exchange/Sent.antt =====
-- What an exchange of src/confidential.rs sends upstream.
use verifiable_rpc_sidecar.Crates.Crypto.{Crypto}
use verifiable_rpc_sidecar.Crates.Http.{
  Request, UpstreamRequest, Http, collected, Collected, length_limit, transport_error,
}
use verifiable_rpc_sidecar.Crates.Bhttp.{Bhttp}
use verifiable_rpc_sidecar.Crates.Json.{Json}
use verifiable_rpc_sidecar.Envelope.{ResponseContext}
use verifiable_rpc_sidecar.Signing.{SigningState, now_ms, open_request}
use verifiable_rpc_sidecar.Proxy.{UpstreamClient}
use verifiable_rpc_sidecar.Confidential.Errors.{InnerError}
use verifiable_rpc_sidecar.Confidential.Inner.{InnerRequest, decode_inner, batch_size}
use verifiable_rpc_sidecar.Confidential.Upstream.{call_upstream, inner_upstream_request}
use verifiable_rpc_sidecar.Confidential.Outcome.{Outcome}
use verifiable_rpc_sidecar.Confidential.InnerCall.{
  ConfidentialConfig, Environment, run_inner, failed_call,
}
use verifiable_rpc_sidecar.Confidential.Exchange.{
  read_outer, open_outer, bytes_or_outcome, sealed_exchange,
}
use verifiable_rpc_sidecar.Prelude.{
  ltb, ltb-false→le, Bool-cases, Result, map_err, ok_or-bind, >>=-ok_inv, map_err-ok, ok-injective,
  Bytes, ok, err, panic, ℕ, ◌≤◌, ◌≡◌, refl, subst, ◌⊎◌, inl, inr, some, List, [], ◌∷◌,
}

collected_of_ok : (r : Collected) (d : Bytes) → bytes_or_outcome r ≡ ok d → r ≡ collected d
collected_of_ok (collected x) d e = cc
collected_of_ok length_limit d e = cc
collected_of_ok transport_error d e = cc

module _ (c : Crypto) (h : Http) (signer : SigningState) (cfg : ConfidentialConfig)
    (env : Environment) (req : Request) where
  -- What a successful `open_outer` says.
  pub record Opened (outer_req text : Bytes) (ctx : ResponseContext) (nonce : Bytes) : Type 0 where
    pub read : h.collect_limited req.body cfg.max_request_bytes ≡ collected outer_req
    pub opens : open_request c signer outer_req ≡ ok (text, ctx)
    pub nonce_eq : env.getrandom ≡ some nonce
    pub now : ℕ
    pub clock : now_ms env.clock_before ≡ ok now

  pub open_outer-Opened :
      (outer_req text nonce : Bytes) (ctx : ResponseContext)
      → open_outer c h signer cfg env req ≡ ok (outer_req, text, ctx, nonce)
      → Opened outer_req text ctx nonce
  unfolding open_outer read_outer
  open_outer-Opened outer_req text nonce ctx e =
      let (d, read, e1) = >>=-ok_inv (read_outer h req cfg.max_request_bytes) _ e in
      let ((t, x), opens, e2) = >>=-ok_inv (map_err _ (open_request c signer d)) _ e1 in
      let (n, random, e3) = ok_or-bind _ env.getrandom _ e2 in
      let (now, clock, e4) = >>=-ok_inv (map_err _ (now_ms env.clock_before)) _ e3 in
      of_parts d t n x now (collected_of_ok _ _ read) (map_err-ok _ _ opens) random
        (map_err-ok _ _ clock) (ok-injective e4)
    where
      of_parts :
          (d t n : Bytes) (x : ResponseContext) (now : ℕ)
          → h.collect_limited req.body cfg.max_request_bytes ≡ collected d
          → open_request c signer d ≡ ok (t, x)
          → env.getrandom ≡ some n
          → now_ms env.clock_before ≡ ok now
          → ◌≡◌ {A = Bytes × Bytes × ResponseContext × Bytes}
              (d, t, x, n)
              (outer_req, text, ctx, nonce)
          → Opened outer_req text ctx nonce
      of_parts d t n x now r o g k e =
          subst (λ q. Opened q.0 q.1 q.2 q.3) e
            (record { read = r; opens = o; nonce_eq = g; now = now; clock = k })

module _ (h : Http) (b : Bhttp) (j : Json) (upstream : UpstreamClient) (cfg : ConfidentialConfig)
    (env : Environment) (text : Bytes) where
  -- The one request that `run_inner` may send.
  pub record SentFrom (u : UpstreamRequest) : Type 0 where
    pub inner : InnerRequest
    pub decoded : decode_inner h b text ≡ ok inner
    pub within : batch_size j inner.body ≤ cfg.max_batch_size
    pub built : inner_upstream_request h upstream inner ≡ ok u

  abbrev IsSent : List UpstreamRequest → Type 0
  IsSent us = (us ≡ []) ⊎ ((u : UpstreamRequest) × (us ≡ u ∷ []) × SentFrom u)

  call-IsSent :
      (inner : InnerRequest)
      → decode_inner h b text ≡ ok inner
      → batch_size j inner.body ≤ cfg.max_batch_size
      → (r : Result UpstreamRequest InnerError) → inner_upstream_request h upstream inner ≡ r
      → IsSent (call_upstream h b upstream cfg.max_response_bytes env.net env.timed_out inner).1
  unfolding call_upstream
  call-IsSent inner d w (ok u) e =
      inr (u, rw e, record { inner = inner; decoded = d; within = w; built = e })
  call-IsSent inner d w (err x) e = inl (rw e)
  call-IsSent inner d w panic e = inl (rw e)

  run_inner-sent :
      (r : Result InnerRequest InnerError)
      → decode_inner h b text ≡ r
      → IsSent (run_inner h b j upstream cfg env text).sent
  unfolding run_inner failed_call
  run_inner-sent (ok inner) e =
      rw e (elim (Bool-cases (ltb cfg.max_batch_size (batch_size j inner.body))) [
        | inl t ↦ rw t (inl refl)
        | inr f ↦ rw f (call-IsSent inner e (ltb-false→le _ _ f) _ refl)
      ])
  run_inner-sent (err x) e = inl (rw e)
  run_inner-sent panic e = inl (rw e)

module _ (c : Crypto) (h : Http) (b : Bhttp) (j : Json) (upstream : UpstreamClient)
    (signer : SigningState) (cfg : ConfidentialConfig) (env : Environment) (req : Request) where
  opened_sent :
      (outer_req text nonce : Bytes) (ctx : ResponseContext)
      → open_outer c h signer cfg env req ≡ ok (outer_req, text, ctx, nonce)
      → ((sealed_exchange c h b j upstream signer cfg env req).1 ≡ [])
        ⊎ ((u : UpstreamRequest) × ((sealed_exchange c h b j upstream signer cfg env req).1
              ≡ u ∷ [])
            × SentFrom h b j upstream cfg env text u)
  unfolding sealed_exchange
  opened_sent outer_req text nonce ctx e =
      rw e (run_inner-sent h b j upstream cfg env text (decode_inner h b text) refl)

  -- What an exchange sends: nothing, or the one request below.
  abbrev pub Sends : Type 0
  Sends =
      ((sealed_exchange c h b j upstream signer cfg env req).1 ≡ [])
      ⊎ ((u : UpstreamRequest) × (outer_req : Bytes) × (text : Bytes) × (nonce : Bytes)
          × (ctx : ResponseContext) × ((sealed_exchange c h b j upstream signer cfg env req).1
              ≡ u ∷ [])
          × Opened c h signer cfg env req outer_req text ctx nonce
          × SentFrom h b j upstream cfg env text u)

  -- An exchange sends nothing upstream, or one request: that of an inner request that was decoded
  -- from the plaintext of an outer body within the cap, and whose batch is within the limit.
  pub sealed_exchange-sent : Sends
  sealed_exchange-sent = by_open (open_outer c h signer cfg env req) refl
    where
      by_open :
          (r : Result (Bytes × Bytes × ResponseContext × Bytes) Outcome)
          → open_outer c h signer cfg env req ≡ r
          → Sends
      by_open (ok (outer_req, text, ctx, nonce)) e = elim (opened_sent outer_req text nonce ctx e) [
        | inl n ↦ inl n
        | inr (u, sent, from) ↦ inr (
          u,
          outer_req,
          text,
          nonce,
          ctx,
          sent,
          open_outer-Opened c h signer cfg env req outer_req text nonce ctx e,
          from,
        )
      ]
      by_open (err o) e = inl (unfold sealed_exchange in rw e)
      by_open panic e = inl (unfold sealed_exchange in rw e)
