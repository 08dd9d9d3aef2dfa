-- ===== src/Server/Process/Ways.antt =====
-- The calls of a process of src/server.rs, event by event: each goes its own way.
use verifiable_rpc_sidecar.Crates.Crypto.{Crypto}
use verifiable_rpc_sidecar.Crates.Dstack.{Dstack}
use verifiable_rpc_sidecar.Crates.Http.{Request, Http}
use verifiable_rpc_sidecar.Crates.Bhttp.{Bhttp}
use verifiable_rpc_sidecar.Crates.Json.{Json}
use verifiable_rpc_sidecar.Crates.Axum.{Axum}
use verifiable_rpc_sidecar.Confidential.InnerCall.{Environment}
use verifiable_rpc_sidecar.Confidential.Task.{Wake, and_then}
use verifiable_rpc_sidecar.Server.{AppState, route}
use verifiable_rpc_sidecar.Server.Process.{
  Call, Call, arrived, wake_call, run_call, Process, Event, arrives, wakes, idle, step, after,
}
use verifiable_rpc_sidecar.Server.Process.Journal.{only, tagged, only-append, only-own, only-other}
use verifiable_rpc_sidecar.Server.Process.Heard.{Heard, heard_wake, hear, heard}
use verifiable_rpc_sidecar.Prelude.{
  ==_refl, ◌==◌, ==_iff, Option, Bool-cases, Option-cases, none-ne-some, ℕ, suc, ◌≤◌, ◌≡◌, refl,
  sym, ap, ◌∙◌, subst, inl, inr, false, none, some, List, [], ◌∷◌, ◌++◌, append-nil, append_assoc,
  arith,
}

module _ (c : Crypto) (d : Dstack) (h : Http) (b : Bhttp) (j : Json) (a : Axum)
    (st : AppState) where
  -- One more wake-up of a call.
  run-append :
      (env : Environment) (req : Request) (call : Call b) (ws : List Wake) (w : Wake)
      → run_call c d h b j a st env req call (ws ++ w ∷ [])
        ≡ and_then
            (run_call c d h b j a st env req call ws)
            (λ call'. wake_call c d h b j a st env req call' w)
  unfolding run_call
  run-append env req call [] w =
      ap (λ out. ((wake_call c d h b j a st env req call w).0, out)) (append-nil _)
  run-append env req call (v ∷ ws) w =
      let p = wake_call c d h b j a st env req call v in
      rw (run-append env req p.0 ws w) (
        ap
          (λ out. (
            (and_then (run_call c d h b j a st env req p.0 ws)
                (λ call'. wake_call c d h b j a st env req call' w)).0,
            out,
          ))
          (sym (append_assoc p.1 _ _)))

  -- The process has of the call at a number just what that call alone does under what it has met:
  -- where it is, and its part of the journal.
  abbrev pub GoesOwnWay : Process b → ℕ → Option Heard → Type 0
  GoesOwnWay p i none = (p.calls i ≡ none) × (only i p.journal ≡ [])
  GoesOwnWay p i (some (env, req, ws)) =
      let alone = run_call c d h b j a st env req (arrived b (route req.method req.uri.path)) ws in
      (p.calls i ≡ some (record { env = env; req = req; call = alone.0 }))
      × (only i p.journal ≡ alone.1)

  -- No call stands at a number that was not given.
  abbrev pub IsTidy : Process b → Type 0
  IsTidy p = (k : ℕ) → p.next ≤ k → p.calls k ≡ none

  ne_of_lt : (k n : ℕ) → suc n ≤ k → (k == n) ≡ false
  ne_of_lt k n le = ground arith

  -- An event that leaves the call at a number and its part of the journal leaves its way.
  GoesOwnWay-kept :
      (p p' : Process b) (i : ℕ) (met : Option Heard)
      → p'.calls i ≡ p.calls i
      → only i p'.journal ≡ only i p.journal
      → GoesOwnWay p i met
      → GoesOwnWay p' i met
  GoesOwnWay-kept p p' i none e k (x, y) = (e ∙ x, k ∙ y)
  GoesOwnWay-kept p p' i (some (env, req, ws)) e k (x, y) = (e ∙ x, k ∙ y)

  -- A new call at the next number.
  module _ (p : Process b) (v : IsTidy p) (env : Environment) (req : Request) where
    abbrev grown : Process b
    grown = step c d h b j a st p (arrives env req)

    grown-other : (i : ℕ) → (i == p.next) ≡ false → grown.calls i ≡ p.calls i
    unfolding step
    grown-other i n = rw n refl

    grown-new :
        (met : Option Heard)
        → GoesOwnWay p p.next met
        → GoesOwnWay grown p.next (some (env, req, []))
    unfolding step run_call
    grown-new none (x, y) = (rw (==_refl p.next) refl, y)
    grown-new (some m) (x, y) = absurd (none-ne-some (sym (v p.next (omega arith)) ∙ x))

    grown-GoesOwnWay :
        (i : ℕ) (met : Option Heard)
        → GoesOwnWay p i met
        → GoesOwnWay grown i (hear i p.next met (arrives env req))
    unfolding step
    grown-GoesOwnWay i met w = elim (Bool-cases (i == p.next)) [
      | inl n ↦
          let at = (==_iff i p.next).0 n in
          rw n (
            subst (λ k. GoesOwnWay grown k (some (env, req, []))) (sym at)
              (grown-new met (subst (λ k. GoesOwnWay p k met) at w)))
      | inr n ↦ rw n (GoesOwnWay-kept p grown i met (grown-other i n) refl w)
    ]

    grown-next : grown.next ≡ suc p.next
    unfolding step
    grown-next = refl

    grown-IsTidy : IsTidy grown
    unfolding step
    grown-IsTidy k le = rw (ne_of_lt k p.next le) (v k (omega arith))

  -- A wake-up of the call at a number.
  module _ (p : Process b) (k : ℕ) (w : Wake) where
    abbrev moved : Process b
    moved = step c d h b j a st p (wakes k w)

    moved-other :
        (i : ℕ)
        → (i == k) ≡ false
        → (moved.calls i ≡ p.calls i) × (only i moved.journal ≡ only i p.journal)
    unfolding step
    moved-other i n = elim (Option-cases (p.calls k)) [
      | inl e ↦ rw e (refl, refl)
      | inr (slot, e) ↦
          let out = (wake_call c d h b j a st slot.env slot.req slot.call w).1 in
          rw e (
            rw n refl,
            only-append i p.journal (tagged k out)
                ∙ ap (λ out. only i p.journal ++ out) (only-other k i out n)
                ∙ append-nil _,
          )
    ]

    moved-own : (met : Option Heard) → GoesOwnWay p k met → GoesOwnWay moved k (heard_wake w met)
    unfolding step
    moved-own none (x, y) = rw x (x, y)
    moved-own (some (env, req, ws)) (x, y) =
        let alone =
          run_call c d h b j a st env req (arrived b (route req.method req.uri.path)) ws in
        let out = (wake_call c d h b j a st env req alone.0 w).1 in
        rw (x, run-append env req (arrived b (route req.method req.uri.path)) ws w)
          (
            rw (==_refl k) refl,
            only-append k p.journal (tagged k out)
                ∙ ap (λ o. o ++ only k (tagged k out)) y
                ∙ ap (λ o. alone.1 ++ o) (only-own k out),
          )

    moved-GoesOwnWay :
        (i : ℕ) (met : Option Heard)
        → GoesOwnWay p i met
        → GoesOwnWay moved i (hear i p.next met (wakes k w))
    moved-GoesOwnWay i met v = elim (Bool-cases (i == k)) [
      | inl n ↦
          let at = (==_iff i k).0 n in
          rw n (
            subst (λ i. GoesOwnWay moved i (heard_wake w met)) (sym at)
              (moved-own met (subst (λ i. GoesOwnWay p i met) at v)))
      | inr n ↦
          let (same, quiet) = moved-other i n in rw n (GoesOwnWay-kept p moved i met same quiet v)
    ]

    moved-next : moved.next ≡ p.next
    unfolding step
    moved-next = elim (Option-cases (p.calls k)) [ inl e ↦ rw e refl | inr (slot, e) ↦ rw e refl ]

    moved-IsTidy : IsTidy p → IsTidy moved
    unfolding step
    moved-IsTidy v i le = elim (Bool-cases (i == k)) [
      | inl n ↦
          let at = (==_iff i k).0 n in
          let empty = v i (subst (λ m. m ≤ i) moved-next le) in
          rw (sym (ap p.calls at) ∙ empty) empty
      | inr n ↦ (moved-other i n).0 ∙ v i (subst (λ m. m ≤ i) moved-next le)
    ]

  step-IsTidy : (p : Process b) (e : Event) → IsTidy p → IsTidy (step c d h b j a st p e)
  step-IsTidy p (arrives env req) v = grown-IsTidy p v env req
  step-IsTidy p (wakes k w) v = moved-IsTidy p k w v

  pub after-IsTidy :
      (es : List Event) (p : Process b) → IsTidy p → IsTidy (after c d h b j a st p es)
  unfolding after
  after-IsTidy [] p v = v
  after-IsTidy (e ∷ es) p v = after-IsTidy es (step c d h b j a st p e) (step-IsTidy p e v)

  pub idle-IsTidy : IsTidy (idle b)
  unfolding idle
  idle-IsTidy k le = refl

  pub after-GoesOwnWay :
      (es : List Event) (p : Process b) (i : ℕ) (met : Option Heard)
      → IsTidy p
      → GoesOwnWay p i met
      → GoesOwnWay (after c d h b j a st p es) i (heard i p.next met es)
  unfolding after
  after-GoesOwnWay [] p i met v w = w
  after-GoesOwnWay (arrives env req ∷ es) p i met v w =
      subst
        (λ n.
          GoesOwnWay (after c d h b j a st (step c d h b j a st p (arrives env req)) es) i
            (heard i n (hear i p.next met (arrives env req)) es))
        (grown-next p v env req)
        (after-GoesOwnWay es (step c d h b j a st p (arrives env req)) i _
          (grown-IsTidy p v env req) (grown-GoesOwnWay p v env req i met w))
  after-GoesOwnWay (wakes k u ∷ es) p i met v w =
      subst
        (λ n.
          GoesOwnWay (after c d h b j a st (step c d h b j a st p (wakes k u)) es) i
            (heard i n (hear i p.next met (wakes k u)) es))
        (moved-next p k u)
        (after-GoesOwnWay es (step c d h b j a st p (wakes k u)) i _ (moved-IsTidy p k u v)
          (moved-GoesOwnWay p k u i met w))
