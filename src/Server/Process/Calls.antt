-- ===== src/Server/Process/Calls.antt =====
-- One call of src/server.rs under its own wake-ups: its answer, and what it does outside.
use verifiable_rpc_sidecar.Crates.Crypto.{Crypto}
use verifiable_rpc_sidecar.Crates.Dstack.{Dstack}
use verifiable_rpc_sidecar.Crates.Http.{Request, UpstreamRequest, Response, Http}
use verifiable_rpc_sidecar.Crates.Bhttp.{Bhttp}
use verifiable_rpc_sidecar.Crates.Json.{Json}
use verifiable_rpc_sidecar.Crates.Axum.{Axum}
use verifiable_rpc_sidecar.Proxy.Task as Proxy
use verifiable_rpc_sidecar.Confidential.InnerCall.{Environment}
use verifiable_rpc_sidecar.Confidential.Task as Confidential
use verifiable_rpc_sidecar.Confidential.Task.{Output, sends, Wake, ready, timer, drop_after}
use verifiable_rpc_sidecar.Server.{AppState, Handler}
use verifiable_rpc_sidecar.Server.Serve.{respond, layered}
use verifiable_rpc_sidecar.Server.Process.{
  Call, pending, dropped, panicked, answered, proxy_wake, handler_output, finish_call, of_private,
  of_passing, responded, wake_call, run_call,
}
use mathlib.Core.List.{map-append}
use verifiable_rpc_sidecar.Prelude.{
  Result, ok, err, panic, ◌≡◌, refl, sym, ap, ◌⊎◌, inl, inr, none, some, map, List, [], ◌∷◌,
  append-nil,
}

module _ (c : Crypto) (d : Dstack) (h : Http) (b : Bhttp) (j : Json) (a : Axum) (st : AppState)
    (env : Environment) (req : Request) where
  abbrev pub ran : Call b → List Wake → Call b × List Output
  ran = run_call c d h b j a st env req

  abbrev pub private_run : Confidential.Task b → List Wake → Confidential.Task b × List Output
  private_run = Confidential.run c h b j st.upstream st.signing st.confidential env req

  abbrev private_wake : Confidential.Task b → Wake → Confidential.Task b × List Output
  private_wake = Confidential.wake c h b j st.upstream st.signing st.confidential env req

  abbrev pub of_task : Confidential.Task b → Call b
  of_task = of_private c d h b j a st env req

  abbrev pub of_proxy : Proxy.Task → Call b
  of_proxy = of_passing c d h b j a st env req

  -- A call that is at its end stays there.
  answered-stays : (resp : Response) (ws : List Wake) → ran (answered resp) ws ≡ (answered resp, [])
  unfolding run_call wake_call
  answered-stays resp [] = refl
  answered-stays resp (w ∷ ws) = rw (answered-stays resp ws) refl

  dropped-stays : (ws : List Wake) → ran dropped ws ≡ (dropped, [])
  unfolding run_call wake_call
  dropped-stays [] = refl
  dropped-stays (w ∷ ws) = rw (dropped-stays ws) refl

  panicked-stays : (ws : List Wake) → ran panicked ws ≡ (panicked, [])
  unfolding run_call wake_call
  panicked-stays [] = refl
  panicked-stays (w ∷ ws) = rw (panicked-stays ws) refl

  -- A call on /confidential is its task.
  wake-of_task :
      (task : Confidential.Task b) (w : Wake)
      → wake_call c d h b j a st env req (of_task task) w
        ≡ (of_task (private_wake task w).0, (private_wake task w).1)
  unfolding wake_call Confidential.wake
  wake-of_task Confidential.created w = refl
  wake-of_task Confidential.reading w = refl
  wake-of_task (Confidential.sending o up_req) w = refl
  wake-of_task (Confidential.receiving o status frames total msg) w = refl
  wake-of_task Confidential.unstarted w = refl
  wake-of_task Confidential.dropped w = refl
  wake-of_task Confidential.panicked w = refl
  wake-of_task (Confidential.finished resp) w = refl

  pub run-of_task :
      (ws : List Wake) (task : Confidential.Task b)
      → ran (of_task task) ws ≡ (of_task (private_run task ws).0, (private_run task ws).1)
  unfolding run_call Confidential.run
  run-of_task [] task = refl
  run-of_task (w ∷ ws) task =
      rw (wake-of_task task w) (rw (run-of_task ws (private_wake task w).0) refl)

  -- The wake-ups of a task of src/proxy.rs
  abbrev pub proxy_wakes : List Wake → List Proxy.Wake
  proxy_wakes [] = []
  proxy_wakes (w ∷ ws) = elim (proxy_wake w) [
    | none ↦ proxy_wakes ws
    | some w' ↦ w' ∷ proxy_wakes ws
  ]

  abbrev pub passing_run : Proxy.Task → List Proxy.Wake → Proxy.Task × List UpstreamRequest
  passing_run = Proxy.run c h st.upstream env.net env.clock_after st.signing req

  abbrev passing_wake : Proxy.Task → Proxy.Wake → Proxy.Task × List UpstreamRequest
  passing_wake = Proxy.wake c h st.upstream env.net env.clock_after st.signing req

  abbrev pub of_sent : Proxy.Task × List UpstreamRequest → Call b × List Output
  of_sent (task, sent) = (of_proxy task, map sends sent)

  -- A call of the pass-through is its task.
  wake-of_proxy :
      (task : Proxy.Task) (w : Wake) (w' : Proxy.Wake)
      → proxy_wake w ≡ some w'
      → wake_call c d h b j a st env req (of_proxy task) w ≡ of_sent (passing_wake task w')
  unfolding wake_call Proxy.wake
  wake-of_proxy Proxy.created w w' e = rw e refl
  wake-of_proxy Proxy.collecting w w' e = rw e refl
  wake-of_proxy (Proxy.sending r up_req) w w' e = rw e refl
  wake-of_proxy (Proxy.relaying r up_resp) w w' e = rw e refl
  wake-of_proxy Proxy.dropped w w' e = refl
  wake-of_proxy Proxy.panicked w w' e = refl
  wake-of_proxy (Proxy.finished resp) w w' e = refl

  timer-of_proxy :
      (task : Proxy.Task)
      → wake_call c d h b j a st env req (of_proxy task) timer ≡ (of_proxy task, [])
  unfolding wake_call
  timer-of_proxy Proxy.created = refl
  timer-of_proxy Proxy.collecting = refl
  timer-of_proxy (Proxy.sending r up_req) = refl
  timer-of_proxy (Proxy.relaying r up_resp) = refl
  timer-of_proxy Proxy.dropped = refl
  timer-of_proxy Proxy.panicked = refl
  timer-of_proxy (Proxy.finished resp) = refl

  -- A wake-up that the task takes.
  taken-of_proxy :
      (ws : List Wake) (task : Proxy.Task) (w : Wake) (w' : Proxy.Wake)
      → proxy_wake w ≡ some w'
      → ran (of_proxy (passing_wake task w').0) ws
        ≡ of_sent (passing_run (passing_wake task w').0 (proxy_wakes ws))
      → ran (of_proxy task) (w ∷ ws) ≡ of_sent (passing_run task (w' ∷ proxy_wakes ws))
  unfolding run_call Proxy.run
  taken-of_proxy ws task w w' e k = rw (wake-of_proxy task w w' e) (
      rw k (
        ap (λ out. (of_proxy (passing_run (passing_wake task w').0 (proxy_wakes ws)).0, out))
          (sym (map-append sends _ _))))

  pub run-of_proxy :
      (ws : List Wake) (task : Proxy.Task)
      → ran (of_proxy task) ws ≡ of_sent (passing_run task (proxy_wakes ws))
  unfolding run_call Proxy.run
  run-of_proxy [] task = refl
  run-of_proxy (ready ∷ ws) task =
      taken-of_proxy ws task ready Proxy.ready refl
        (run-of_proxy ws (passing_wake task Proxy.ready).0)
  run-of_proxy (timer ∷ ws) task = rw (timer-of_proxy task) (run-of_proxy ws task)
  run-of_proxy (drop_after ms ∷ ws) task =
      taken-of_proxy ws task (drop_after ms) Proxy.dropping refl
        (run-of_proxy ws (passing_wake task Proxy.dropping).0)

  -- A handler with one await is done at its first poll, or never.
  abbrev pub IsPending : Handler → Call b × List Output → Type 0
  IsPending handler p =
      (p ≡ (pending handler, []))
      ⊎ ((p ≡ (dropped, []))
          ⊎ (p ≡ responded c d h b j a st env req handler (respond c d h b j a handler st env req)))

  responded-stays :
      (handler : Handler) (r : Result Response (Unit {0})) (ws : List Wake)
      → let p = responded c d h b j a st env req handler r in
        Confidential.and_then p (λ call. ran call ws) ≡ p
  responded-stays handler (ok resp) ws =
      rw (answered-stays (a.finish req.method (layered c d h b j a handler req resp)) ws) (
        ap (λ out. (finish_call c d h b j a st env req handler resp, out))
          (append-nil (handler_output handler)))
  responded-stays handler (err e) ws = rw (panicked-stays ws) refl
  responded-stays handler panic ws = rw (panicked-stays ws) refl

  pub run-pending :
      (handler : Handler) (ws : List Wake) → IsPending handler (ran (pending handler) ws)
  unfolding run_call wake_call
  run-pending handler [] = inl refl
  run-pending handler (ready ∷ ws) =
      inr (inr (responded-stays handler (respond c d h b j a handler st env req) ws))
  run-pending handler (timer ∷ ws) = run-pending handler ws
  run-pending handler (drop_after ms ∷ ws) = inr (inl (rw (dropped-stays ws) refl))
