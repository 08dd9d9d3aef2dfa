-- ===== src/Proxy/Task/Progress.antt =====
-- A request through src/proxy.rs that is polled four times is answered.
use verifiable_rpc_sidecar.Crates.Crypto.{Crypto, CryptoLaws}
use verifiable_rpc_sidecar.Crates.Http.{Request, UpstreamRequest, UpstreamResponse, Response, Http}
use verifiable_rpc_sidecar.Signing.{SigningState, SignedResponse, Reading}
use verifiable_rpc_sidecar.Proxy.{
  UpstreamClient, Net, body_cap, upstream_request, collect_request, sign_or_500, forward,
}
use verifiable_rpc_sidecar.Proxy.Task.{
  Task, created, collecting, dropped, panicked, sending, relaying, finished, ready, start_send,
  start_request, start_relay, signed_end, relay_end, wake, run,
}
use verifiable_rpc_sidecar.Signing.Verify.{IsConsistent}
use verifiable_rpc_sidecar.Proxy.Total.{forward_answers}
use verifiable_rpc_sidecar.Proxy.Task.Ends.{Sent, Kept, run-Kept}
use verifiable_rpc_sidecar.Prelude.{
  replicate, Result, ok-ne-panic, Bytes, ok, err, panic, ℕ, zero, suc, ◌≤◌, ◌≡◌, refl, sym, ◌∙◌,
  Option, none, some, List, [], ◌∷◌, arith,
}

module _ (c : Crypto) (h : Http) (client : UpstreamClient) (net : Net) (clock : Reading)
    (signer : SigningState) (req : Request) where
  -- The polls that a request needs at most; a dropped one has no end.
  abbrev pub turns : Task → ℕ
  turns created = 4
  turns collecting = 3
  turns (sending d up_req) = 2
  turns (relaying d up_resp) = 1
  turns _ = 0

  abbrev pub IsGoing : Task → Type 0
  IsGoing dropped = ⊥
  IsGoing _ = Unit {0}

  abbrev pub IsOver : Task → Type 0
  IsOver (finished resp) = Unit {0}
  IsOver panicked = Unit {0}
  IsOver _ = ⊥

  -- A step that leaves so many polls at most.
  abbrev pub Leaves : ℕ → Task → Type 0
  Leaves n task = IsGoing task × (turns task ≤ n)

  start_send-Leaves :
      (d : Bytes) (r : Result UpstreamRequest Response)
      → Leaves 2 (start_send c h client net clock signer req d r).0
  start_send-Leaves d (ok up_req) = (tt, omega arith)
  start_send-Leaves d (err early) = (tt, omega arith)
  start_send-Leaves d panic = (tt, omega arith)

  start_request-Leaves :
      (r : Result Bytes Response) → Leaves 2 (start_request c h client net clock signer req r).0
  start_request-Leaves (ok d) = start_send-Leaves d (upstream_request h client req d)
  start_request-Leaves (err early) = (tt, omega arith)
  start_request-Leaves panic = (tt, omega arith)

  start_relay-Leaves :
      (d : Bytes) (answer : Option UpstreamResponse)
      → Leaves 1 (start_relay c h client net clock signer req d answer).0
  start_relay-Leaves d none = (tt, omega arith)
  start_relay-Leaves d (some up_resp) = (tt, omega arith)

  signed_end-Leaves :
      (up_resp : UpstreamResponse) (d : Bytes) (r : Result SignedResponse Response)
      → Leaves 0 (signed_end c h client net clock signer req up_resp d r)
  signed_end-Leaves up_resp d (ok signed) = (tt, omega arith)
  signed_end-Leaves up_resp d (err early) = (tt, omega arith)
  signed_end-Leaves up_resp d panic = (tt, omega arith)

  relay_end-Leaves :
      (d : Bytes) (up_resp : UpstreamResponse) (r : Result Bytes Response)
      → Leaves 0 (relay_end c h client net clock signer req d up_resp r)
  relay_end-Leaves d up_resp (ok answer) =
      signed_end-Leaves up_resp answer (sign_or_500 c signer d answer clock)
  relay_end-Leaves d up_resp (err early) = (tt, omega arith)
  relay_end-Leaves d up_resp panic = (tt, omega arith)

  within : {n : ℕ} (m : ℕ) (task : Task) → Leaves m task → m ≤ n → Leaves n task
  within m task w le = (w.0, omega (arith, w.1))

  wake-Leaves :
      (n : ℕ) (task : Task)
      → Leaves (suc n) task
      → Leaves n (wake c h client net clock signer req task ready).0
  unfolding wake
  wake-Leaves n created v = (tt, omega (arith, v.1))
  wake-Leaves n collecting v =
      within 2 _ (start_request-Leaves (collect_request h req (body_cap client.max_body_bytes)))
        (omega (arith, v.1))
  wake-Leaves n (sending d up_req) v =
      within 1 _ (start_relay-Leaves d (net up_req)) (omega (arith, v.1))
  wake-Leaves n (relaying d up_resp) v =
      within 0 _ (relay_end-Leaves d up_resp _) (omega (arith, v.1))
  wake-Leaves n (finished resp) v = (tt, omega arith)
  wake-Leaves n panicked v = (tt, omega arith)
  wake-Leaves n dropped v = absurd v.0

  idle-IsOver : (task : Task) → Leaves 0 task → IsOver task
  idle-IsOver created v = absurd (omega (arith, v.1))
  idle-IsOver collecting v = absurd (omega (arith, v.1))
  idle-IsOver (sending d up_req) v = absurd (omega (arith, v.1))
  idle-IsOver (relaying d up_resp) v = absurd (omega (arith, v.1))
  idle-IsOver (finished resp) v = tt
  idle-IsOver panicked v = tt
  idle-IsOver dropped v = absurd v.0

  pub polls-IsOver :
      (n : ℕ) (task : Task)
      → Leaves n task
      → IsOver (run c h client net clock signer req task (replicate n ready)).0
  unfolding run
  polls-IsOver zero task v = idle-IsOver task v
  polls-IsOver (suc n) task v =
      polls-IsOver n (wake c h client net clock signer req task ready).0 (wake-Leaves n task v)

  -- With a consistent signing state, a request that is polled four times, each time when what it
  -- awaits is ready, is at its end with the answer of `forward`, whatever the upstream and the clock
  -- do, and it has sent nothing or the one request that was built from it.
  pub four_polls_answer :
      (laws : CryptoLaws c)
      → IsConsistent c signer
      → (resp : Response) × (sent : List UpstreamRequest) × (run c h client net clock signer req
            created
            (ready ∷ ready ∷ ready ∷ ready ∷ [])
          ≡ (finished resp, sent))
        × (forward c h client net clock req signer ≡ ok resp)
        × Sent c h client net clock signer req sent
  four_polls_answer laws v =
      let ws = ready ∷ ready ∷ ready ∷ ready ∷ [] in
      by_end (run c h client net clock signer req created ws)
        (polls-IsOver 4 created (tt, omega arith)) (run-Kept c h client net clock signer req ws)
        (forward_answers c laws signer v h client net clock req)
    where
      by_end :
          (p : Task × List UpstreamRequest)
          → IsOver p.0
          → Kept c h client net clock signer req p.0 p.1
          → (out : Response) × (forward c h client net clock req signer ≡ ok out)
          → (resp : Response) × (sent : List UpstreamRequest) × (p ≡ (finished resp, sent))
            × (forward c h client net clock req signer ≡ ok resp)
            × Sent c h client net clock signer req sent
      by_end (finished resp, sent) o k f = (resp, sent, refl, k.0, k.1)
      by_end (panicked, sent) o k f = absurd (ok-ne-panic (sym f.1 ∙ k.0))
      by_end (created, sent) o k f = absurd o
      by_end (collecting, sent) o k f = absurd o
      by_end (dropped, sent) o k f = absurd o
      by_end (sending d up_req, sent) o k f = absurd o
      by_end (relaying d up_resp, sent) o k f = absurd o
