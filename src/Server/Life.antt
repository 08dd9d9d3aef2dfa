-- ===== src/Server/Life.antt =====
-- src/main.rs from its start to its end, as the steps that its surroundings choose: what the guest
-- agent gave is in `boot`, and the listener, the signals, the calls and their wake-ups come as they
-- come. Behind a signal no call arrives, and the process ends when every call has ended.
mod Tests
use verifiable_rpc_sidecar.Crates.Crypto.{Crypto}
use verifiable_rpc_sidecar.Crates.Dstack.{Dstack}
use verifiable_rpc_sidecar.Crates.Http.{Http}
use verifiable_rpc_sidecar.Crates.Bhttp.{Bhttp}
use verifiable_rpc_sidecar.Crates.Json.{Json}
use verifiable_rpc_sidecar.Crates.Axum.{Axum}
use verifiable_rpc_sidecar.Confidential.Task.{Wake, ready}
use verifiable_rpc_sidecar.Configuration.{Config}
use verifiable_rpc_sidecar.Server.{
  AppState, BootError, boot, Exit, exit_of, exit_after, bind_failed, serve_failed, panicked,
  shutdown_complete, fail_fast_deadline,
}
use verifiable_rpc_sidecar.Server.Process.{Process, Event, wakes, idle, step, after}
use verifiable_rpc_sidecar.Server.Process.Polls.{AreOver}
use verifiable_rpc_sidecar.Server.Process.Drain.{polling, polls-AreOver}
use verifiable_rpc_sidecar.Prelude.{
  ok, err, panic, ℕ, ◌≡◌, refl, sym, ap, ◌∙◌, subst, ◌⊎◌, inl, inr, Bool, true, false, List, [],
  ◌∷◌, ◌++◌,
}

-- What `shutdown_signal` waits for.
pub data Signal : Type 0 where
  sigint sigterm : Signal

-- Where `main` is: before the start, before the listener, serving, draining, or at its end, with the
-- calls that it has had.
pub data Main (b : Bhttp) : Type 0 where
  starting : Main b
  binding : AppState → Main b
  serving : AppState → Process b → Main b
  draining : AppState → Process b → Main b
  ended : Exit → Process b → Main b

module _ (c : Crypto) (d : Dstack) (h : Http) (b : Bhttp) (j : Json) (a : Axum)
    (config : Config) where
  -- One step of `main`. That a call is woken in a drain and that the drain ends with the last call is
  -- what axum documents of `with_graceful_shutdown`, which `main` calls.
  pub data MainStep : Main b → Main b → Type 0 where
    started : {st : AppState} → boot c d h config ≡ ok st → MainStep starting (binding st)
    start_failed :
        {e : BootError}
        → boot c d h config ≡ err e
        → MainStep starting (ended (exit_after fail_fast_deadline 2) (idle b))
    start_panicked : boot c d h config ≡ panic → MainStep starting (ended panicked (idle b))
    bound : {st : AppState} → MainStep (binding st) (serving st (idle b))
    not_bound : {st : AppState} → MainStep (binding st) (ended bind_failed (idle b))
    served :
        {st : AppState} {p p' : Process b} (e : Event)
        → p' ≡ step c d h b j a st p e
        → MainStep (serving st p) (serving st p')
    not_served : {st : AppState} {p : Process b} → MainStep (serving st p) (ended serve_failed p)
    signalled : {st : AppState} {p : Process b} → Signal → MainStep (serving st p) (draining st p)
    drained :
        {st : AppState} {p p' : Process b} (i : ℕ) (w : Wake)
        → p' ≡ step c d h b j a st p (wakes i w)
        → MainStep (draining st p) (draining st p')
    shut_down :
        {st : AppState} {p : Process b}
        → AreOver b p
        → MainStep (draining st p) (ended shutdown_complete p)

  -- What `main` reaches.
  pub data Reaches : Main b → Type 0 where
    here : Reaches starting
    next : {m m' : Main b} → Reaches m → MainStep m m' → Reaches m'

  -- The calls of a process that a start has given the state.
  abbrev pub IsRun : AppState → Process b → Type 0
  IsRun st p =
      (boot c d h config ≡ ok st) × ((es : List Event) × (p ≡ after c d h b j a st (idle b) es))

  -- How `main` ends, as `exit_of` has it.
  abbrev pub Exits : Exit → Type 0
  Exits x = (binds : Bool) × (serves : Bool) × (x ≡ exit_of binds serves (boot c d h config))

  -- What is known of `main` where it stands.
  abbrev pub IsSound : Main b → Type 0
  IsSound starting = Unit {0}
  IsSound (binding st) = boot c d h config ≡ ok st
  IsSound (serving st p) = IsRun st p
  IsSound (draining st p) = IsRun st p
  IsSound (ended x p) = Exits x × ((p ≡ idle b) ⊎ ((st : AppState) × IsRun st p))

  after-append :
      (st : AppState) (es : List Event) (p : Process b) (e : Event)
      → after c d h b j a st p (es ++ e ∷ []) ≡ step c d h b j a st (after c d h b j a st p es) e
  unfolding after
  after-append st [] p e = refl
  after-append st (e' ∷ es) p e = after-append st es (step c d h b j a st p e') e

  step-IsRun :
      (st : AppState) (p p' : Process b) (e : Event)
      → p' ≡ step c d h b j a st p e
      → IsRun st p
      → IsRun st p'
  step-IsRun st p p' e k (s, (es, v)) = (
    s,
    (es ++ e ∷ [], k ∙ ap (λ q. step c d h b j a st q e) v ∙ sym (after-append st es (idle b) e)),
  )

  MainStep-IsSound : {m m' : Main b} → MainStep m m' → IsSound m → IsSound m'
  unfolding exit_of
  MainStep-IsSound (started e) v = e
  MainStep-IsSound (start_failed e) v = ((false, false, rw e refl), inl refl)
  MainStep-IsSound (start_panicked e) v = ((false, false, rw e refl), inl refl)
  MainStep-IsSound (bound {st}) v = (v, ([], unfold after in refl))
  MainStep-IsSound (not_bound {st}) v = ((false, false, rw v refl), inl refl)
  MainStep-IsSound (served {st} {p} {p'} e k) v = step-IsRun st p p' e k v
  MainStep-IsSound (not_served {st} {p}) v = ((true, false, rw (v.0) refl), inr (st, v))
  MainStep-IsSound (signalled {st} {p} s) v = v
  MainStep-IsSound (drained {st} {p} {p'} i w k) v = step-IsRun st p p' (wakes i w) k v
  MainStep-IsSound (shut_down {st} {p} o) v = ((true, true, rw (v.0) refl), inr (st, v))

  main-IsSound : {m : Main b} → Reaches m → IsSound m
  main-IsSound here = tt
  main-IsSound (next r s) = MainStep-IsSound s (main-IsSound r)

  drain-Reaches :
      (polls : List ℕ) (st : AppState) (p : Process b)
      → Reaches (draining st p)
      → Reaches (draining st (after c d h b j a st p (polling polls)))
  unfolding after
  drain-Reaches [] st p r = r
  drain-Reaches (i ∷ polls) st p r =
      drain-Reaches polls st (step c d h b j a st p (wakes i ready)) (next r (drained i ready refl))

  -- A signal is enough to end the process well: from wherever it drains, some polls of its calls,
  -- each when what the call awaits is ready, end them all, and then it shuts down.
  pub main_shuts_down :
      {st : AppState} {p : Process b}
      → Reaches (draining st p)
      → (polls : List ℕ) × (let p' = after c d h b j a st p (polling polls) in
          AreOver b p' × Reaches (ended shutdown_complete p'))
  main_shuts_down {st} {p} r =
      let (booted, (es, v)) = main-IsSound r in
      let (polls, over) = polls-AreOver c d h b j a st es in
      let over' = subst (λ q. AreOver b (after c d h b j a st q (polling polls))) (sym v) over in
      (polls, (over', next (drain-Reaches polls st p r) (shut_down over')))
