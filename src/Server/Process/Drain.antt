-- ===== src/Server/Process/Drain.antt =====
-- A process of src/server.rs whose calls are polled often enough is done with all of them.
use mathlib.Core.List.{map-append}
use verifiable_rpc_sidecar.Crates.Crypto.{Crypto}
use verifiable_rpc_sidecar.Crates.Dstack.{Dstack}
use verifiable_rpc_sidecar.Crates.Http.{Http}
use verifiable_rpc_sidecar.Crates.Bhttp.{Bhttp}
use verifiable_rpc_sidecar.Crates.Json.{Json}
use verifiable_rpc_sidecar.Crates.Axum.{Axum}
use verifiable_rpc_sidecar.Confidential.Task.{ready}
use verifiable_rpc_sidecar.Server.{AppState}
use verifiable_rpc_sidecar.Server.Process.{
  wake_call, run_call, Slot, Process, Event, wakes, idle, wake_slot, step, after,
}
use verifiable_rpc_sidecar.Server.Process.Polls.{IsOver, AreOver, call-CallEnds}
use verifiable_rpc_sidecar.Server.Process.Ways.{after-IsTidy, idle-IsTidy}
use verifiable_rpc_sidecar.Prelude.{
  ltb, ◌==◌, ltb→lt, ltb-false→le, ==_iff, ==_refl, Bool-cases, Option-cases, none-ne-some,
  some-injective, replicate, ℕ, zero, suc, ◌≤◌, ◌<◌, ◌≡◌, refl, sym, ap, ◌∙◌, subst, inl, inr,
  false, some, map, List, [], ◌∷◌, ◌++◌, arith,
}

-- Polls of calls by their numbers, each when what it awaits is ready.
abbrev pub polling : List ℕ → List Event
polling polls = map (λ i. wakes i ready) polls

module _ (c : Crypto) (d : Dstack) (h : Http) (b : Bhttp) (j : Json) (a : Axum)
    (st : AppState) where
  abbrev served : Process b → List Event → Process b
  served = after c d h b j a st

  after-append :
      (es fs : List Event) (p : Process b) → served p (es ++ fs) ≡ served (served p es) fs
  unfolding after
  after-append [] fs p = refl
  after-append (e ∷ es) fs p = after-append es fs (step c d h b j a st p e)

  -- What polls of one call do to the process.
  abbrev Moves : ℕ → ℕ → Process b → Slot b → Process b → Type 0
  Moves m n p slot p' =
      (p'.calls m
        ≡ some (record slot {
          call = (run_call c d h b j a st slot.env slot.req slot.call (replicate n ready)).0;
        }))
      × ((k : ℕ) → (k == m) ≡ false → p'.calls k ≡ p.calls k)
      × (p'.next ≡ p.next)

  polls-Moves :
      (m n : ℕ) (p : Process b) (slot : Slot b)
      → p.calls m ≡ some slot
      → Moves m n p slot (served p (polling (replicate n m)))
  unfolding after run_call
  polls-Moves m zero p slot e = (e, λ k ne. refl, refl)
  polls-Moves m (suc n) p slot e =
      subst (Moves m (suc n) p slot) (ap (λ q. served q (polling (replicate n m))) (sym stepped))
        (from (polls-Moves m n moved next there))
    where
      next : Slot b
      next = record slot { call = (wake_call c d h b j a st slot.env slot.req slot.call ready).0 }

      moved : Process b
      moved = wake_slot c d h b j a st p m ready (some slot)

      stepped : step c d h b j a st p (wakes m ready) ≡ moved
      stepped = unfold step in rw e refl

      there : moved.calls m ≡ some next
      there = rw (==_refl m) refl

      from :
          Moves m n moved next (served moved (polling (replicate n m)))
          → Moves m (suc n) p slot (served moved (polling (replicate n m)))
      from (v, others, same) = (v, λ k ne. others k ne ∙ rw ne refl, same)

  -- The calls below a number are over.
  abbrev Below : ℕ → Process b → Type 0
  Below m q = (k : ℕ) (slot : Slot b) → k < m → q.calls k ≡ some slot → IsOver b slot.call

  abbrev Drained : ℕ → Process b → Process b → Type 0
  Drained m p q = Below m q × (q.next ≡ p.next)

  at_most : (k m : ℕ) → k < suc m → (k == m) ≡ false → k < m
  at_most k m lt ne = ground arith

  -- One more call.
  drain_call :
      (m : ℕ) (p q : Process b) (slot : Slot b)
      → Drained m p q
      → q.calls m ≡ some slot
      → (n : ℕ) × Drained (suc m) p (served q (polling (replicate n m)))
  drain_call m p q slot (below, same) there =
      let (n, over) = call-CallEnds c d h b j a st slot.env slot.req slot.call in
      let (here, others, next) = polls-Moves m n q slot there in
      (
        n,
        (
          λ k slot' lt e. elim (Bool-cases (k == m)) [
            | inl x ↦
                subst (λ s. IsOver b s.call)
                  (some-injective (
                    sym here
                    ∙ ap (served q (polling (replicate n m))).calls (sym ((==_iff k m).0 x))
                    ∙ e))
                  over
            | inr x ↦ below k slot' (at_most k m lt x) (sym (others k x) ∙ e)
          ],
          next ∙ same,
        ),
      )

  drain_below : (m : ℕ) (p : Process b) → (polls : List ℕ) × Drained m p (served p (polling polls))
  unfolding after
  drain_below zero p = ([], (λ k slot lt e. absurd (omega (arith, lt)), refl))
  drain_below (suc m) p =
      let (polls, (below, same)) = drain_below m p in
      let q = served p (polling polls) in
      elim (Option-cases (q.calls m)) [
        | inl e ↦ (
          polls,
          (
            λ k slot lt f. elim (Bool-cases (k == m)) [
              | inl x ↦ absurd (none-ne-some (sym e ∙ ap q.calls (sym ((==_iff k m).0 x)) ∙ f))
              | inr x ↦ below k slot (at_most k m lt x) f
            ],
            same,
          ),
        )
        | inr (slot, there) ↦
            let (n, v) = drain_call m p q slot (below, same) there in
            (
              polls ++ replicate n m,
              subst (Drained (suc m) p)
                  (sym (
                    ap (served p) (map-append (λ i. wakes i ready) polls (replicate n m))
                    ∙ after-append (polling polls) (polling (replicate n m)) p))
                  v,
            )
      ]

  -- However its calls stand: a process that has run from no calls is done with all of them after
  -- some polls, each when what the call awaits is ready.
  pub polls-AreOver :
      (es : List Event) → (polls : List ℕ) × AreOver b (served (served (idle b) es) (polling polls))
  polls-AreOver es =
      let p = served (idle b) es in
      let (polls, (below, same)) = drain_below p.next p in
      let v =
        after-IsTidy c d h b j a st (polling polls) p
          (after-IsTidy c d h b j a st es (idle b) (idle-IsTidy c d h b j a st)) in
      (
        polls,
        λ k slot e. elim (Bool-cases (ltb k p.next)) [
          | inl x ↦ below k slot (ltb→lt k p.next x) e
          | inr x ↦ absurd (
              none-ne-some
                (sym (v k (subst (λ n. n ≤ k) (sym same) (ltb-false→le k p.next x))) ∙ e))
        ],
      )
