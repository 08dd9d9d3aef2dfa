-- ===== src/Confidential/Task/Runs.antt =====
-- Every run of a call of src/confidential.rs that is not dropped against `confidential_exchange`.
use verifiable_rpc_sidecar.Crates.Crypto.{Crypto}
use verifiable_rpc_sidecar.Crates.Http.{Request, Response, Http}
use verifiable_rpc_sidecar.Crates.Bhttp.{Bhttp}
use verifiable_rpc_sidecar.Crates.Json.{Json}
use verifiable_rpc_sidecar.Signing.{SigningState}
use verifiable_rpc_sidecar.Proxy.{UpstreamClient}
use verifiable_rpc_sidecar.Confidential.Outcome.{Outcome, LogLine, drop_guard}
use verifiable_rpc_sidecar.Confidential.InnerCall.{ConfidentialConfig, Environment}
use verifiable_rpc_sidecar.Confidential.Exchange.{sealed_exchange, exchange, confidential_exchange}
use verifiable_rpc_sidecar.Confidential.Task.{
  Task, created, reading, sending, receiving, finished, unstarted, dropped, panicked, Output, sends,
  logs, Wake, ready, timer, drop_after, wake, and_then, run,
}
use verifiable_rpc_sidecar.Confidential.Task.Ends.{
  timing, rest, concluded, woken, ready-rest, timer-rest,
}
use verifiable_rpc_sidecar.Confidential.Task.Settles.{timer-IsSettled, ready-settles}
use verifiable_rpc_sidecar.Prelude.{
  Result, ◌>>=◌, ok, err, panic, ℕ, ◌≡◌, refl, sym, ap, ◌∙◌, inl, inr, Bool, true, false, some, map,
  List, [], ◌∷◌, ◌++◌,
}

module _ (c : Crypto) (h : Http) (b : Bhttp) (j : Json) (upstream : UpstreamClient)
    (signer : SigningState) (cfg : ConfidentialConfig) (env : Environment) (req : Request) where
  abbrev ran : Task b → List Wake → Task b × List Output
  ran = run c h b j upstream signer cfg env req

  abbrev left : Bool → Task b → Task b × List Output
  left = rest c h b j upstream signer cfg env req

  abbrev polled : Task b → Wake → Task b × List Output
  polled = woken c h b j upstream signer cfg env req

  -- A call that was dropped has no answer.
  dropped-ne-finished : (ws : List Wake) (resp : Response) → (ran dropped ws).0 ≡ finished resp → ⊥
  unfolding run wake
  dropped-ne-finished [] resp e = cc
  dropped-ne-finished (w ∷ ws) resp e = dropped-ne-finished ws resp e

  unstarted-ne-finished :
      (ws : List Wake) (resp : Response) → (ran unstarted ws).0 ≡ finished resp → ⊥
  unfolding run wake
  unstarted-ne-finished [] resp e = cc
  unstarted-ne-finished (w ∷ ws) resp e = unstarted-ne-finished ws resp e

  -- A drop is ignored, or the call has no answer.
  drop-ends :
      (task : Task b) (ms : ℕ) (ws : List Wake) (resp : Response)
      → (ran (polled task (drop_after ms)).0 ws).0 ≡ finished resp
      → polled task (drop_after ms) ≡ (task, [])
  unfolding wake
  drop-ends created ms ws resp e = absurd (unstarted-ne-finished ws resp e)
  drop-ends reading ms ws resp e = absurd (dropped-ne-finished ws resp e)
  drop-ends (sending o up_req) ms ws resp e = absurd (dropped-ne-finished ws resp e)
  drop-ends (receiving o status frames total msg) ms ws resp e =
      absurd (dropped-ne-finished ws resp e)
  drop-ends unstarted ms ws resp e = refl
  drop-ends dropped ms ws resp e = refl
  drop-ends panicked ms ws resp e = refl
  drop-ends (finished r) ms ws resp e = refl

  panicked-ne-finished : (resp : Response) → ◌≡◌ {A = Task b} panicked (finished resp) → ⊥
  panicked-ne-finished resp e = cc

  -- A step of a run whose remainder is known.
  step-rest :
      (t : Bool) (task : Task b) (w : Wake) (ws : List Wake)
      → ran (polled task w).0 ws ≡ left t (polled task w).0
      → ran task (w ∷ ws) ≡ and_then (polled task w) (left t)
  unfolding run
  step-rest t task w ws e = rw e refl

  abbrev Left : Task b × List Output → Task b → Type 0
  Left r task = (t : Bool) × (r ≡ left t task)

  ready_untimed :
      (task : Task b) (ws : List Wake)
      → ran (polled task ready).0 ws ≡ left false (polled task ready).0
      → Left (ran task (ready ∷ ws)) task
  ready_untimed task ws e = (
    false,
    step-rest false task ready ws e ∙ sym (ready-rest c h b j upstream signer cfg env req task),
  )

  ready-left :
      (t : Bool) (task : Task b) (ws : List Wake)
      → ran (polled task ready).0 ws ≡ left t (polled task ready).0
      → Left (ran task (ready ∷ ws)) task
  ready-left false task ws e = ready_untimed task ws e
  ready-left true task ws e = elim (ready-settles c h b j upstream signer cfg env req task) [
    | inl s ↦ ready_untimed task ws (e ∙ s)
    | inr k ↦ (true, step-rest true task ready ws e ∙ sym k)
  ]

  -- A wake-up that a call ignores.
  ignored-left :
      (t : Bool) (task : Task b) (w : Wake) (ws : List Wake)
      → polled task w ≡ (task, [])
      → ran (polled task w).0 ws ≡ left t (polled task w).0
      → Left (ran task (w ∷ ws)) task
  ignored-left t task w ws k e = (t, step-rest t task w ws e ∙ ap (λ p. and_then p (left t)) k)

  timer_timed :
      (task : Task b) (ws : List Wake)
      → ran (polled task timer).0 ws ≡ left true (polled task timer).0
      → Left (ran task (timer ∷ ws)) task
  timer_timed task ws e = (
    true,
    step-rest true task timer ws e ∙ sym (timer-rest c h b j upstream signer cfg env req task),
  )

  timer-left :
      (t : Bool) (task : Task b) (ws : List Wake)
      → ran (polled task timer).0 ws ≡ left t (polled task timer).0
      → Left (ran task (timer ∷ ws)) task
  timer-left true task ws e = timer_timed task ws e
  timer-left false task ws e = elim (timer-IsSettled c h b j upstream signer cfg env req task) [
    | inl s ↦ timer_timed task ws (e ∙ sym s)
    | inr k ↦ ignored-left false task timer ws k e
  ]

  -- A run that ends with an answer does what was left of the call.
  run-rest :
      (ws : List Wake) (task : Task b) (resp : Response)
      → (ran task ws).0 ≡ finished resp
      → Left (ran task ws) task
  unfolding run
  run-rest [] task resp e = (false, rw e refl)
  run-rest (ready ∷ ws) task resp e =
      let (t, k) = run-rest ws (polled task ready).0 resp e in ready-left t task ws k
  run-rest (timer ∷ ws) task resp e =
      let (t, k) = run-rest ws (polled task timer).0 resp e in timer-left t task ws k
  run-rest (drop_after ms ∷ ws) task resp e =
      let (t, k) = run-rest ws (polled task (drop_after ms)).0 resp e in
      ignored-left t task (drop_after ms) ws (drop-ends task ms ws resp e) k

  -- The end of `confidential_exchange`, with its line.
  abbrev ended : Result (Response × Outcome) Outcome → Result (Response × LogLine) Outcome
  ended r = do (resp, outcome) ← r; ok (resp, drop_guard (some (outcome, resp.status)) env.elapsed)

  conclude-finished :
      (r : Result (Response × Outcome) Outcome) (resp : Response) (out before : List Output)
      → ◌≡◌ {A = Task b × List Output}
          (let (task, after) = concluded c h b j upstream signer cfg env req r in
            (task, before ++ after))
          (finished resp, out)
      → (line : LogLine) × (ended r ≡ ok (resp, line)) × (out ≡ before ++ logs line ∷ [])
  conclude-finished (ok (r, o)) resp out before e =
      let k : ◌≡◌ {A = Task b} (finished r) (finished resp) = ap (λ p. p.0) e in
      (
        drop_guard (some (o, r.status)) env.elapsed,
        ap (λ x. ok (x, drop_guard (some (o, r.status)) env.elapsed)) (finished-injective k),
        sym (ap (λ p. p.1) e),
      )
    where
      finished-injective : ◌≡◌ {A = Task b} (finished r) (finished resp) → r ≡ resp
      finished-injective k = cc
  conclude-finished (err o) resp out before e = absurd (panicked-ne-finished resp (ap (λ p. p.0) e))
  conclude-finished panic resp out before e = absurd (panicked-ne-finished resp (ap (λ p. p.0) e))

  -- A call that was polled to its answer, with spurious polls, with or without the timer in
  -- between, has answered what `confidential_exchange` answers under one of the two timings, and
  -- has sent the requests of that exchange and then written its one line.
  pub run_refines :
      (ws : List Wake) (resp : Response) (out : List Output)
      → ran created ws ≡ (finished resp, out)
      → (t : Bool) × (line : LogLine) × (confidential_exchange c h b j upstream signer cfg
            (timing env t)
            req
          ≡ ok (resp, line))
        × (out
            ≡ map sends (sealed_exchange c h b j upstream signer cfg (timing env t) req).1
              ++ logs line ∷ [])
  unfolding confidential_exchange exchange
  run_refines ws resp out e =
      let (t, k) = run-rest ws created resp (ap (λ r. r.0) e) in
      let (line, answered, done) = conclude-finished _ resp out _ (sym k ∙ e) in
      (t, line, answered, done)
