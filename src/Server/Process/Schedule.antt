-- ===== src/Server/Process/Schedule.antt =====
-- The calls of a process of src/server.rs in any order: each goes its own way.
use verifiable_rpc_sidecar.Crates.Crypto.{Crypto}
use verifiable_rpc_sidecar.Crates.Dstack.{Dstack}
use verifiable_rpc_sidecar.Crates.Http.{Response, Http}
use verifiable_rpc_sidecar.Crates.Bhttp.{Bhttp}
use verifiable_rpc_sidecar.Crates.Json.{Json}
use verifiable_rpc_sidecar.Crates.Axum.{Axum}
use verifiable_rpc_sidecar.Confidential.Task.{Wake}
use verifiable_rpc_sidecar.Server.{AppState, route}
use verifiable_rpc_sidecar.Server.Process.{
  answered, arrived, run_call, Slot, Process, Event, idle, after,
}
use verifiable_rpc_sidecar.Server.Process.Answers.{IsServed, call-IsServed}
use verifiable_rpc_sidecar.Server.Process.Outputs.{IsNeat, call-IsNeat}
use verifiable_rpc_sidecar.Server.Process.Journal.{only}
use verifiable_rpc_sidecar.Server.Process.Heard.{Heard, heard}
use verifiable_rpc_sidecar.Server.Process.Ways.{GoesOwnWay, idle-IsTidy, after-GoesOwnWay}
use verifiable_rpc_sidecar.Prelude.{
  Option, none-ne-some, some-injective, ℕ, ◌≡◌, refl, sym, ◌∙◌, subst, inl, none, some, List, [],
}

module _ (c : Crypto) (d : Dstack) (h : Http) (b : Bhttp) (j : Json) (a : Axum)
    (st : AppState) where
  GoesOwnWay-IsNeat :
      (p : Process b) (i : ℕ) (met : Option Heard)
      → GoesOwnWay c d h b j a st p i met
      → IsNeat (only i p.journal)
  GoesOwnWay-IsNeat p i none (x, y) = subst IsNeat (sym y) ([], inl refl, inl refl)
  GoesOwnWay-IsNeat p i (some (env, req, ws)) (x, y) =
      subst IsNeat (sym y) (call-IsNeat c d h b j a st env req (route req.method req.uri.path) ws)

  pub process-GoesOwnWay :
      (es : List Event) (i : ℕ)
      → GoesOwnWay c d h b j a st (after c d h b j a st (idle b) es) i (heard i 0 none es)
        × IsNeat (only i (after c d h b j a st (idle b) es).journal)
  unfolding idle
  process-GoesOwnWay es i =
      let way =
        after-GoesOwnWay c d h b j a st es (idle b) i none (idle-IsTidy c d h b j a st)
          (refl, refl) in
      (way, GoesOwnWay-IsNeat (after c d h b j a st (idle b) es) i _ way)

  -- The wake-ups that brought a call of the process to where it is.
  GoesOwnWay-runs :
      (p : Process b) (i : ℕ) (met : Option Heard) (slot : Slot b)
      → GoesOwnWay c d h b j a st p i met
      → p.calls i ≡ some slot
      → (ws : List Wake) × ((run_call c d h b j a st slot.env slot.req
            (arrived b (route slot.req.method slot.req.uri.path))
            ws).0
          ≡ slot.call)
  GoesOwnWay-runs p i none slot (x, y) e = absurd (none-ne-some (sym x ∙ e))
  GoesOwnWay-runs p i (some (env, req, ws)) slot (x, y) e =
      subst
        (λ s.
          (ws : List Wake) × ((run_call c d h b j a st s.env s.req
              (arrived b (route s.req.method s.req.uri.path)) ws).0
            ≡ s.call))
        (some-injective (sym x ∙ e)) (ws, refl)

  -- Whatever calls arrive, and in whatever order they are woken and dropped: a call that has ended
  -- with a response has the one that `serve` gives to its request, under one of the two timings of
  -- the upstream's answer.
  pub process_serves :
      (es : List Event) (i : ℕ) (slot : Slot b) (resp : Response)
      → (after c d h b j a st (idle b) es).calls i ≡ some slot
      → slot.call ≡ answered resp
      → IsServed c d h b j a st slot.env slot.req resp
  process_serves es i slot resp e k =
      let (ws, r) =
        GoesOwnWay-runs (after c d h b j a st (idle b) es) i _ slot (process-GoesOwnWay es i).0 e in
      call-IsServed c d h b j a st slot.env slot.req (route slot.req.method slot.req.uri.path) ws
        resp refl (r ∙ k)
