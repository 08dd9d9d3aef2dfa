-- ===== src/Confidential/Task/Guard.antt =====
-- What a call of src/confidential.rs has done, wherever it was dropped: at most one request, and
-- then the one line of `OutcomeGuard`.
use verifiable_rpc_sidecar.Crates.Crypto.{Crypto}
use verifiable_rpc_sidecar.Crates.Http.{
  Request, UpstreamRequest, UpstreamResponse, Response, Http, Frame, chunk, trailers, failed,
}
use verifiable_rpc_sidecar.Crates.Bhttp.{Bhttp}
use verifiable_rpc_sidecar.Crates.Json.{Json}
use verifiable_rpc_sidecar.Envelope.{ResponseContext}
use verifiable_rpc_sidecar.Signing.{SigningState}
use verifiable_rpc_sidecar.Proxy.{UpstreamClient}
use verifiable_rpc_sidecar.Confidential.Errors.{InnerError}
use verifiable_rpc_sidecar.Confidential.Inner.{InnerRequest, decode_inner, batch_size}
use verifiable_rpc_sidecar.Confidential.Upstream.{
  inner_upstream_request, is_refused_response, send_built, call_upstream,
}
use verifiable_rpc_sidecar.Confidential.Outcome.{Outcome, LogLine, drop_guard, log_outcome}
use verifiable_rpc_sidecar.Confidential.InnerCall.{
  ConfidentialConfig, Environment, run_inner, run_decoded,
}
use verifiable_rpc_sidecar.Confidential.Exchange.{
  open_outer, done_or_plaintext, serve_opened, sealed_exchange,
}
use verifiable_rpc_sidecar.Confidential.Task.{
  Task, created, reading, sending, receiving, finished, unstarted, dropped, panicked, InFlight,
  Output, sends, logs, Wake, ready, timer, drop_after, start_leg, start_inner, start_opened,
  start_frames, start_reading, next_frame, wake, run,
}
use verifiable_rpc_sidecar.Confidential.Task.Ends.{timing, concluded, woken}
use verifiable_rpc_sidecar.Prelude.{
  ltb, Bool-cases, length, Result, Bytes, saturating_add, ok, err, panic, ℕ, ◌≡◌, refl, sym, subst,
  ◌⊎◌, inl, inr, true, Option, none, some, List, [], ◌∷◌, ◌++◌, append-nil, append_assoc,
}

module _ (c : Crypto) (h : Http) (b : Bhttp) (j : Json) (upstream : UpstreamClient)
    (signer : SigningState) (cfg : ConfidentialConfig) (env : Environment) (req : Request) where
  -- A request that the whole exchange sends too.
  abbrev pub IsOwn : UpstreamRequest → Type 0
  IsOwn up_req = (sealed_exchange c h b j upstream signer cfg (timing env true) req).1 ≡ up_req ∷ []

  -- No request, or one of the exchange.
  abbrev pub Sent : List Output → Type 0
  Sent out = (out ≡ []) ⊎ ((up_req : UpstreamRequest) × IsOwn up_req × (out ≡ sends up_req ∷ []))

  -- The requests, and then one line.
  abbrev pub Logged : LogLine → List Output → Type 0
  Logged line out = (before : List Output) × Sent before × (out ≡ before ++ logs line ∷ [])

  -- What a call has done where it stands.
  abbrev pub Traced : Task b → List Output → Type 0
  Traced created out = out ≡ []
  Traced reading out = out ≡ []
  Traced (sending o up_req) out = IsOwn up_req × (out ≡ sends up_req ∷ [])
  Traced (receiving o status frames total msg) out =
      (up_req : UpstreamRequest) × IsOwn up_req × (out ≡ sends up_req ∷ [])
  Traced (finished resp) out = (line : LogLine) × (line.status ≡ resp.status) × Logged line out
  Traced unstarted out = out ≡ []
  Traced dropped out = (ms : ℕ) × Logged (drop_guard none ms) out
  Traced panicked out = (ms : ℕ) × Logged (drop_guard none ms) out

  conclude-Traced :
      (r : Result (Response × Outcome) Outcome) (before : List Output)
      → Sent before
      → let p = concluded c h b j upstream signer cfg env req r in Traced p.0 (before ++ p.1)
  unfolding drop_guard log_outcome
  conclude-Traced (ok (resp, o)) before s = (_, refl, (before, s, refl))
  conclude-Traced (err o) before s = (env.elapsed, (before, s, refl))
  conclude-Traced panic before s = (env.elapsed, (before, s, refl))

  next_frame-Traced :
      (o : InFlight) (status : ℕ) (frames : List Frame) (total : ℕ) (msg : b.Message)
      (up_req : UpstreamRequest)
      → IsOwn up_req
      → let p = next_frame c h b j upstream signer cfg env req o status frames total msg in
        Traced p.0 (sends up_req ∷ p.1)
  next_frame-Traced o status [] total msg up_req v = conclude-Traced _ _ (inr (up_req, v, refl))
  next_frame-Traced o status (failed ∷ frames) total msg up_req v =
      conclude-Traced _ _ (inr (up_req, v, refl))
  next_frame-Traced o status (trailers t ∷ frames) total msg up_req v = (up_req, v, refl)
  next_frame-Traced o status (chunk d ∷ frames) total msg up_req v =
      elim (Bool-cases (ltb cfg.max_response_bytes (saturating_add total (length d)))) [
        | inl e ↦ rw e (conclude-Traced _ _ (inr (up_req, v, refl)))
        | inr e ↦ rw e (up_req, v, refl)
      ]

  start_reading-Traced :
      (o : InFlight) (answer : Option UpstreamResponse) (up_req : UpstreamRequest)
      → IsOwn up_req
      → let p = start_reading c h b j upstream signer cfg env req o answer in
        Traced p.0 (sends up_req ∷ p.1)
  start_reading-Traced o none up_req v = conclude-Traced _ _ (inr (up_req, v, refl))
  start_reading-Traced o (some resp) up_req v =
      elim (Bool-cases (is_refused_response cfg.max_response_bytes resp)) [
        | inl e ↦ rw e (conclude-Traced _ _ (inr (up_req, v, refl)))
        | inr e ↦ rw e (by_code (b.status_code resp.status))
      ]
    where
      by_code :
          (code : Option ℕ)
          → let p = start_frames c h b j upstream signer cfg env req o resp code in
            Traced p.0 (sends up_req ∷ p.1)
      by_code none = conclude-Traced _ _ (inr (up_req, v, refl))
      by_code (some code) = (up_req, v, refl)

  -- The requests of a stretch are the exchange's.
  abbrev AreOwn : List UpstreamRequest → Type 0
  AreOwn sent = (up_req : UpstreamRequest) → sent ≡ up_req ∷ [] → IsOwn up_req

  start_leg-Traced :
      (o : InFlight) (r : Result UpstreamRequest InnerError)
      → AreOwn (send_built h b cfg.max_response_bytes env.net true r).1
      → let p = start_leg c h b j upstream signer cfg env req o r in Traced p.0 p.1
  start_leg-Traced o (ok up_req) own = (own up_req refl, refl)
  start_leg-Traced o (err e) own = conclude-Traced _ [] (inl refl)
  start_leg-Traced o panic own = conclude-Traced _ [] (inl refl)

  start_inner-Traced :
      (outer_req : Bytes) (ctx : ResponseContext) (nonce : Bytes)
      (r : Result InnerRequest InnerError)
      → AreOwn (run_decoded h b j upstream cfg (timing env true) r).sent
      → let p = start_inner c h b j upstream signer cfg env req outer_req ctx nonce r in
        Traced p.0 p.1
  unfolding call_upstream
  start_inner-Traced outer_req ctx nonce (ok inner) own =
      elim (Bool-cases (ltb cfg.max_batch_size (batch_size j inner.body))) [
        | inl e ↦ rw e (conclude-Traced _ [] (inl refl))
        | inr e ↦
            rw e
              (start_leg-Traced _ (inner_upstream_request h upstream inner) (λ u k. own u (rw e k)))
      ]
  start_inner-Traced outer_req ctx nonce (err e) own = conclude-Traced _ [] (inl refl)
  start_inner-Traced outer_req ctx nonce panic own = conclude-Traced panic [] (inl refl)

  start_opened-Traced :
      (r : Result (Bytes × Bytes × ResponseContext × Bytes) Outcome)
      → AreOwn (serve_opened c h b j upstream signer cfg (timing env true) r).1
      → let p = start_opened c h b j upstream signer cfg env req r in Traced p.0 p.1
  unfolding run_inner
  start_opened-Traced (ok (outer_req, text, ctx, nonce)) own =
      start_inner-Traced outer_req ctx nonce (decode_inner h b text) own
  start_opened-Traced (err o) own =
      conclude-Traced (done_or_plaintext c h b j (err o)) [] (inl refl)
  start_opened-Traced panic own = conclude-Traced panic [] (inl refl)

  abbrev polled : Task b → Wake → Task b × List Output
  polled = woken c h b j upstream signer cfg env req

  -- A call that ended does nothing more.
  over-Traced : (task : Task b) (out : List Output) → Traced task out → Traced task (out ++ [])
  over-Traced task out v = subst (Traced task) (sym (append-nil out)) v

  cancel-Traced :
      (ms : ℕ) (out : List Output)
      → Sent out
      → Traced dropped (out ++ logs (drop_guard none ms) ∷ [])
  cancel-Traced ms out s = (ms, (out, s, refl))

  -- Every wake-up keeps the trace.
  wake-Traced :
      (task : Task b) (out : List Output) (w : Wake)
      → Traced task out
      → Traced (polled task w).0 (out ++ (polled task w).1)
  unfolding wake sealed_exchange open_outer
  wake-Traced created out ready v = rw v refl
  wake-Traced created out timer v = rw v refl
  wake-Traced created out (drop_after ms) v = rw v refl
  wake-Traced reading out ready v =
      rw v (start_opened-Traced (open_outer c h signer cfg env req) (λ u k. k))
  wake-Traced reading out timer v = rw v refl
  wake-Traced reading out (drop_after ms) v = cancel-Traced ms out (inl v)
  wake-Traced (sending o up_req) out ready v =
      rw v.1 (start_reading-Traced o (env.net up_req) up_req v.0)
  wake-Traced (sending o up_req) out timer v = conclude-Traced _ out (inr (up_req, v.0, v.1))
  wake-Traced (sending o up_req) out (drop_after ms) v =
      cancel-Traced ms out (inr (up_req, v.0, v.1))
  wake-Traced (receiving o status frames total msg) out ready v =
      rw v.2 (next_frame-Traced o status frames total msg v.0 v.1)
  wake-Traced (receiving o status frames total msg) out timer v = conclude-Traced _ out (inr v)
  wake-Traced (receiving o status frames total msg) out (drop_after ms) v =
      cancel-Traced ms out (inr v)
  wake-Traced unstarted out w v = over-Traced unstarted out v
  wake-Traced dropped out w v = over-Traced dropped out v
  wake-Traced panicked out w v = over-Traced panicked out v
  wake-Traced (finished resp) out w v = over-Traced (finished resp) out v

  run-Traced_from :
      (ws : List Wake) (task : Task b) (out : List Output)
      → Traced task out
      → let p = run c h b j upstream signer cfg env req task ws in Traced p.0 (out ++ p.1)
  unfolding run
  run-Traced_from [] task out v = over-Traced task out v
  run-Traced_from (w ∷ ws) task out v =
      let v' =
        run-Traced_from ws (polled task w).0 (out ++ (polled task w).1)
          (wake-Traced task out w v) in
      subst (Traced (run c h b j upstream signer cfg env req (polled task w).0 ws).0)
        (append_assoc out _ _) v'

  -- Whatever wakes a call, and whenever it is dropped: it has sent no request, or one, which the
  -- whole exchange sends too, and no request before its body is read. It has logged nothing before
  -- its end, nor when it was dropped before its first poll; otherwise it has logged one line behind
  -- the request, with the status of its answer, or as cancelled when it was dropped or unwound.
  pub run-Traced :
      (ws : List Wake)
      → let p = run c h b j upstream signer cfg env req created ws in Traced p.0 p.1
  run-Traced ws = run-Traced_from ws created [] refl
