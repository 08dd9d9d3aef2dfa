-- ===== src/Server/Process/Polls.antt =====
-- A call of src/server.rs that is polled often enough is over.
use verifiable_rpc_sidecar.Crates.Crypto.{Crypto}
use verifiable_rpc_sidecar.Crates.Dstack.{Dstack}
use verifiable_rpc_sidecar.Crates.Http.{Request, Response, Http}
use verifiable_rpc_sidecar.Crates.Bhttp.{Bhttp}
use verifiable_rpc_sidecar.Crates.Json.{Json}
use verifiable_rpc_sidecar.Crates.Axum.{Axum}
use verifiable_rpc_sidecar.Proxy.Task as Proxy
use verifiable_rpc_sidecar.Proxy.Task.Progress as ProxyProgress
use verifiable_rpc_sidecar.Confidential.InnerCall.{Environment}
use verifiable_rpc_sidecar.Confidential.Task as Confidential
use verifiable_rpc_sidecar.Confidential.Task.{Output, Wake, ready, timer, drop_after}
use verifiable_rpc_sidecar.Confidential.Task.Polls as ConfidentialPolls
use verifiable_rpc_sidecar.Server.{AppState, Handler}
use verifiable_rpc_sidecar.Server.Serve.{respond}
use verifiable_rpc_sidecar.Server.Process.{
  Call, private, passing, pending, dropped, panicked, answered, wake_call, run_call, of_private,
  of_passing, responded, Slot, Process,
}
use verifiable_rpc_sidecar.Server.Process.Calls.{run-of_task, run-of_proxy, proxy_wakes}
use verifiable_rpc_sidecar.Prelude.{
  replicate, Result, ok, err, panic, ℕ, zero, suc, ◌≡◌, refl, sym, ap, subst, some, ◌∷◌, arith,
}

module _ (b : Bhttp) where
  -- A call that has come to its end.
  abbrev pub IsOver : Call b → Type 0
  IsOver (answered resp) = Unit {0}
  IsOver dropped = Unit {0}
  IsOver panicked = Unit {0}
  IsOver _ = ⊥

  abbrev pub AreOver : Process b → Type 0
  AreOver p = (i : ℕ) (slot : Slot b) → p.calls i ≡ some slot → IsOver slot.call

module _ (c : Crypto) (d : Dstack) (h : Http) (b : Bhttp) (j : Json) (a : Axum) (st : AppState)
    (env : Environment) (req : Request) where
  of_private-IsOver :
      (task : Confidential.Task b)
      → ConfidentialPolls.IsOver task
      → IsOver b (of_private c d h b j a st env req task)
  of_private-IsOver Confidential.created v = v
  of_private-IsOver Confidential.reading v = v
  of_private-IsOver (Confidential.sending o up_req) v = v
  of_private-IsOver (Confidential.receiving o status frames total msg) v = v
  of_private-IsOver Confidential.unstarted v = tt
  of_private-IsOver Confidential.dropped v = tt
  of_private-IsOver Confidential.panicked v = tt
  of_private-IsOver (Confidential.finished resp) v = tt

  of_passing-IsOver :
      (task : Proxy.Task)
      → ProxyProgress.IsOver c h st.upstream env.net env.clock_after st.signing req task
      → IsOver b (of_passing c d h b j a st env req task)
  of_passing-IsOver (Proxy.finished resp) v = tt
  of_passing-IsOver Proxy.panicked v = tt
  of_passing-IsOver Proxy.created v = absurd v
  of_passing-IsOver Proxy.collecting v = absurd v
  of_passing-IsOver Proxy.dropped v = absurd v
  of_passing-IsOver (Proxy.sending r up_req) v = absurd v
  of_passing-IsOver (Proxy.relaying r up_resp) v = absurd v

  -- A number of polls that ends a call.
  abbrev pub CallEnds : Call b → Type 0
  CallEnds call = (n : ℕ) × IsOver b (run_call c d h b j a st env req call (replicate n ready)).0

  task-CallEnds : (task : Confidential.Task b) → CallEnds (of_private c d h b j a st env req task)
  task-CallEnds task =
      let (n, v) =
        ConfidentialPolls.polls-Ends c h b j st.upstream st.signing st.confidential env req task in
      (
        n,
        subst (IsOver b)
            (sym (ap (λ p. p.0) (run-of_task c d h b j a st env req (replicate n ready) task)))
            (of_private-IsOver _ v),
      )

  proxy_polls :
      (n : ℕ) → proxy_wakes c d h b j a st env req (replicate n ready) ≡ replicate n Proxy.ready
  proxy_polls zero = refl
  proxy_polls (suc n) = ap (λ ws. Proxy.ready ∷ ws) (proxy_polls n)

  passing-CallEnds :
      (task : Proxy.Task)
      → ProxyProgress.Leaves c h st.upstream env.net env.clock_after st.signing req 4 task
      → CallEnds (of_passing c d h b j a st env req task)
  passing-CallEnds task v = (
    4,
    subst (IsOver b)
        (sym (ap (λ p. p.0) (run-of_proxy c d h b j a st env req (replicate 4 ready) task)))
        (of_passing-IsOver _ (
          subst
            (λ ws.
              ProxyProgress.IsOver c h st.upstream env.net env.clock_after st.signing req
                (Proxy.run c h st.upstream env.net env.clock_after st.signing req task ws).0)
            (sym (proxy_polls 4))
            (ProxyProgress.polls-IsOver c h st.upstream env.net env.clock_after st.signing req 4
              task v))),
  )

  responded-IsOver :
      (handler : Handler) (r : Result Response (Unit {0}))
      → IsOver b (responded c d h b j a st env req handler r).0
  responded-IsOver handler (ok resp) = tt
  responded-IsOver handler (err e) = tt
  responded-IsOver handler panic = tt

  -- Every call is over after some number of polls.
  pub call-CallEnds : (call : Call b) → CallEnds call
  unfolding run_call wake_call Confidential.wake Proxy.wake
  call-CallEnds (private Confidential.created) = task-CallEnds Confidential.created
  call-CallEnds (private Confidential.reading) = task-CallEnds Confidential.reading
  call-CallEnds (private (Confidential.sending o up_req)) =
      task-CallEnds (Confidential.sending o up_req)
  call-CallEnds (private (Confidential.receiving o status frames total msg)) =
      task-CallEnds (Confidential.receiving o status frames total msg)
  call-CallEnds (private Confidential.unstarted) = (1, tt)
  call-CallEnds (private Confidential.dropped) = (1, tt)
  call-CallEnds (private Confidential.panicked) = (1, tt)
  call-CallEnds (private (Confidential.finished resp)) = (1, tt)
  call-CallEnds (passing Proxy.created) = passing-CallEnds Proxy.created (tt, omega arith)
  call-CallEnds (passing Proxy.collecting) = passing-CallEnds Proxy.collecting (tt, omega arith)
  call-CallEnds (passing (Proxy.sending r up_req)) =
      passing-CallEnds (Proxy.sending r up_req) (tt, omega arith)
  call-CallEnds (passing (Proxy.relaying r up_resp)) =
      passing-CallEnds (Proxy.relaying r up_resp) (tt, omega arith)
  call-CallEnds (passing Proxy.dropped) = (1, tt)
  call-CallEnds (passing Proxy.panicked) = (1, tt)
  call-CallEnds (passing (Proxy.finished resp)) = (1, tt)
  call-CallEnds (pending handler) =
      (1, responded-IsOver handler (respond c d h b j a handler st env req))
  call-CallEnds dropped = (0, tt)
  call-CallEnds panicked = (0, tt)
  call-CallEnds (answered resp) = (0, tt)
