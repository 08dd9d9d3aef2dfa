-- ===== src/Confidential/Exchange/Plain.antt =====
-- The exchanges of src/confidential.rs that end in plaintext, and what reaches the upstream.
use verifiable_rpc_sidecar.Crates.Crypto.{Crypto}
use verifiable_rpc_sidecar.Crates.Http.{
  Request, Response, Http, Collected, collected, length_limit, transport_error,
}
use verifiable_rpc_sidecar.Crates.Bhttp.{Bhttp}
use verifiable_rpc_sidecar.Crates.Json.{Json}
use verifiable_rpc_sidecar.Envelope.{EnvelopeError, ResponseContext}
use verifiable_rpc_sidecar.Signing.{SigningState, SigningError, now_ms, open_request}
use verifiable_rpc_sidecar.Proxy.{UpstreamClient, status_response}
use verifiable_rpc_sidecar.Confidential.Errors.{OutcomeClass, ohttp_key_problem}
use verifiable_rpc_sidecar.Confidential.Outcome.{
  Outcome, plaintext, unsealable, plaintext_500, pre_decapsulation_error, plaintext_response,
}
use verifiable_rpc_sidecar.Confidential.InnerCall.{ConfidentialConfig, Environment, run_inner}
use verifiable_rpc_sidecar.Confidential.Exchange.{
  read_outer, open_outer, answer, sealed_exchange, exchange,
}
use verifiable_rpc_sidecar.Envelope.Open.{open_request-ne-panic}
use verifiable_rpc_sidecar.Confidential.Exchange.Sent.{Opened}
use verifiable_rpc_sidecar.Confidential.Exchange.Total.{now_ms-ne-panic}
use verifiable_rpc_sidecar.Prelude.{
  Result-cases, Option-cases, ◌≢◌, panic, ◌⊎◌, inl, inr, length, any, Bytes, starts_with, codes, ok,
  err, ◌≡◌, refl, Bool, false, none, some, [],
}

-- The sidecar's own headers all start with `vrpc-`.
abbrev is_vrpc : Bytes × Bytes → Bool
is_vrpc (name, value) = starts_with (codes "vrpc-") name

-- The plaintext answers carry no header of the sidecar, signature included, in any class.
plaintext_response-unsigned :
    (class : OutcomeClass) → any is_vrpc (plaintext_response class).headers ≡ false
unfolding plaintext_response pre_decapsulation_error plaintext_500
plaintext_response-unsigned OutcomeClass.success = refl
plaintext_response-unsigned OutcomeClass.bad_request = refl
plaintext_response-unsigned OutcomeClass.unsupported_media_type = refl
plaintext_response-unsigned OutcomeClass.batch_too_large = refl
plaintext_response-unsigned OutcomeClass.upstream = refl
plaintext_response-unsigned OutcomeClass.upstream_timeout = refl
plaintext_response-unsigned OutcomeClass.internal = refl
plaintext_response-unsigned OutcomeClass.pre_decapsulation = refl
plaintext_response-unsigned OutcomeClass.request_too_large = refl
plaintext_response-unsigned OutcomeClass.request_read_failed = refl
plaintext_response-unsigned OutcomeClass.method_not_allowed = refl
plaintext_response-unsigned OutcomeClass.unsealable = refl
plaintext_response-unsigned OutcomeClass.cancelled = refl

-- Opening the outer body never panics.
opens-ne-panic :
    (c : Crypto) (signer : SigningState) (body : Bytes) → open_request c signer body ≢ panic
unfolding open_request
opens-ne-panic c signer body = open_request-ne-panic c signer.kem_secret body

module _ (c : Crypto) (h : Http) (b : Bhttp) (j : Json) (upstream : UpstreamClient)
    (signer : SigningState) (cfg : ConfidentialConfig) (env : Environment) (req : Request) where
  -- An exchange that ended with this answer and this outcome, and sent nothing upstream.
  abbrev pub EndsIn : Response → Outcome → Type 0
  EndsIn resp o =
      (exchange c h b j upstream signer cfg env req ≡ ok (resp, o))
      × (sealed_exchange c h b j upstream signer cfg env req ≡ (err o, []))

  ends_in :
      (o : Outcome)
      → open_outer c h signer cfg env req ≡ err o
      → EndsIn (plaintext_response o.class) o
  unfolding exchange sealed_exchange
  ends_in o e = (rw e, rw e)

  too_large :
      h.collect_limited req.body cfg.max_request_bytes ≡ length_limit
      → open_outer c h signer cfg env req ≡ err (plaintext OutcomeClass.request_too_large 0 0)
  unfolding open_outer read_outer
  too_large e = simp e

  read_failed :
      h.collect_limited req.body cfg.max_request_bytes ≡ transport_error
      → open_outer c h signer cfg env req ≡ err (plaintext OutcomeClass.request_read_failed 0 0)
  unfolding open_outer read_outer
  read_failed e = simp e

  module _ (outer_req : Bytes)
      (read : h.collect_limited req.body cfg.max_request_bytes ≡ collected outer_req) where
    not_opened :
        (e : EnvelopeError)
        → open_request c signer outer_req ≡ err e
        → open_outer c h signer cfg env req
          ≡ err (
              plaintext OutcomeClass.pre_decapsulation
                (length outer_req)
                (length ohttp_key_problem))
    unfolding open_outer read_outer
    not_opened e k = simp (read, k)

    no_nonce :
        (text : Bytes) (ctx : ResponseContext)
        → open_request c signer outer_req ≡ ok (text, ctx)
        → env.getrandom ≡ none
        → open_outer c h signer cfg env req ≡ err (unsealable (length outer_req) 0 0)
    unfolding open_outer read_outer
    no_nonce text ctx k n = simp (read, k, n)

    no_clock :
        (text nonce : Bytes) (ctx : ResponseContext) (e : SigningError)
        → open_request c signer outer_req ≡ ok (text, ctx)
        → env.getrandom ≡ some nonce
        → now_ms env.clock_before ≡ err e
        → open_outer c h signer cfg env req ≡ err (unsealable (length outer_req) 0 0)
    unfolding open_outer read_outer
    no_clock text nonce ctx e k n t = simp (read, k, n, t)

  -- The ways an exchange can end before its inner call, with the answer and the outcome.
  pub data EarlyFailure : Response → Outcome → Type 0 where
    over_cap :
        h.collect_limited req.body cfg.max_request_bytes ≡ length_limit
        → EarlyFailure (status_response 413) (plaintext OutcomeClass.request_too_large 0 0)
    transport :
        h.collect_limited req.body cfg.max_request_bytes ≡ transport_error
        → EarlyFailure (status_response 400) (plaintext OutcomeClass.request_read_failed 0 0)
    decapsulation :
        (outer_req : Bytes) (e : EnvelopeError)
        → h.collect_limited req.body cfg.max_request_bytes ≡ collected outer_req
        → open_request c signer outer_req ≡ err e
        → EarlyFailure pre_decapsulation_error
            (plaintext OutcomeClass.pre_decapsulation (length outer_req) (length ohttp_key_problem))
    randomness :
        (outer_req text : Bytes) (ctx : ResponseContext)
        → h.collect_limited req.body cfg.max_request_bytes ≡ collected outer_req
        → open_request c signer outer_req ≡ ok (text, ctx)
        → env.getrandom ≡ none
        → EarlyFailure plaintext_500 (unsealable (length outer_req) 0 0)
    bad_clock :
        (outer_req text nonce : Bytes) (ctx : ResponseContext) (e : SigningError)
        → h.collect_limited req.body cfg.max_request_bytes ≡ collected outer_req
        → open_request c signer outer_req ≡ ok (text, ctx)
        → env.getrandom ≡ some nonce
        → now_ms env.clock_before ≡ err e
        → EarlyFailure plaintext_500 (unsealable (length outer_req) 0 0)

  EarlyFailure-EndsIn : {resp : Response} {o : Outcome} → EarlyFailure resp o → EndsIn resp o
  unfolding plaintext_response plaintext unsealable
  EarlyFailure-EndsIn (over_cap e) = ends_in _ (too_large e)
  EarlyFailure-EndsIn (transport e) = ends_in _ (read_failed e)
  EarlyFailure-EndsIn (decapsulation outer_req e read k) = ends_in _ (not_opened outer_req read e k)
  EarlyFailure-EndsIn (randomness outer_req text ctx read k n) =
      ends_in _ (no_nonce outer_req read text ctx k n)
  EarlyFailure-EndsIn (bad_clock outer_req text nonce ctx e read k n t) =
      ends_in _ (no_clock outer_req read text nonce ctx e k n t)

  -- An exchange that comes to its inner call: its outer body is opened, and it answers that call and
  -- sends what that call sends.
  abbrev pub Begins : Type 0
  Begins =
      (outer_req : Bytes) × (text : Bytes) × (nonce : Bytes) × (ctx : ResponseContext) × Opened c h
        signer cfg env req outer_req text ctx nonce
      × (sealed_exchange c h b j upstream signer cfg env req ≡ (
          let call = run_inner h b j upstream cfg env text in
          (answer c h b signer env outer_req ctx nonce call, call.sent)))

  -- An exchange that ends before.
  abbrev pub FailsEarly : Type 0
  FailsEarly = (resp : Response) × (o : Outcome) × EarlyFailure resp o × EndsIn resp o

  fails : {resp : Response} {o : Outcome} → EarlyFailure resp o → Begins ⊎ FailsEarly
  fails {resp} {o} v = inr (resp, o, v, EarlyFailure-EndsIn v)

  module _ (outer_req : Bytes)
      (read : h.collect_limited req.body cfg.max_request_bytes ≡ collected outer_req) where
    by_nonce :
        (text : Bytes) (ctx : ResponseContext)
        → open_request c signer outer_req ≡ ok (text, ctx)
        → Begins ⊎ FailsEarly
    unfolding sealed_exchange open_outer read_outer
    by_nonce text ctx k = elim (Option-cases env.getrandom) [
      | inl n ↦ fails (randomness outer_req text ctx read k n)
      | inr (nonce, n) ↦
          elim (Result-cases (now_ms env.clock_before) (now_ms-ne-panic env.clock_before)) [
            | inl (now, t) ↦ inl (
              outer_req,
              text,
              nonce,
              ctx,
              record { read = read; opens = k; nonce_eq = n; now = now; clock = t },
              simp (read, k, n, t),
            )
            | inr (e, t) ↦ fails (bad_clock outer_req text nonce ctx e read k n t)
          ]
    ]

    by_body : Begins ⊎ FailsEarly
    by_body =
        elim (Result-cases (open_request c signer outer_req) (opens-ne-panic c signer outer_req)) [
          | inl ((text, ctx), k) ↦ by_nonce text ctx k
          | inr (e, k) ↦ fails (decapsulation outer_req e read k)
        ]

  by_collected :
      (r : Collected) → h.collect_limited req.body cfg.max_request_bytes ≡ r → Begins ⊎ FailsEarly
  by_collected (collected outer_req) read = by_body outer_req read
  by_collected length_limit read = fails (over_cap read)
  by_collected transport_error read = fails (transport read)

  -- Every exchange comes to its inner call, with an outer body within the cap that opens, a nonce
  -- and a clock, and answers and sends for that call; or it is one of the early failures, has that
  -- failure's answer and outcome, and sends nothing upstream: 413 past the cap, 400 on a transport
  -- error, 400 with the key problem when decapsulation fails, 500 with no nonce or no clock.
  pub early_failures : Begins ⊎ FailsEarly
  early_failures = by_collected (h.collect_limited req.body cfg.max_request_bytes) refl
