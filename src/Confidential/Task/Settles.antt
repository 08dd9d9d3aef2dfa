-- ===== src/Confidential/Task/Settles.antt =====
-- Whether the timer of the upstream's answer still matters to a polled call of
-- src/confidential.rs.
use verifiable_rpc_sidecar.Crates.Crypto.{Crypto}
use verifiable_rpc_sidecar.Crates.Http.{
  Request, UpstreamRequest, UpstreamResponse, Response, Http, Frame, chunk, trailers, failed,
}
use verifiable_rpc_sidecar.Crates.Bhttp.{Bhttp}
use verifiable_rpc_sidecar.Crates.Json.{Json}
use verifiable_rpc_sidecar.Signing.{SigningState}
use verifiable_rpc_sidecar.Proxy.{UpstreamClient}
use verifiable_rpc_sidecar.Confidential.Upstream.{is_refused_response}
use verifiable_rpc_sidecar.Confidential.Outcome.{Outcome}
use verifiable_rpc_sidecar.Confidential.InnerCall.{ConfidentialConfig, Environment}
use verifiable_rpc_sidecar.Confidential.Exchange.{open_outer, sealed_exchange}
use verifiable_rpc_sidecar.Confidential.Task.{
  Task, created, reading, sending, receiving, finished, unstarted, dropped, panicked, InFlight,
  Output, Wake, ready, timer, start_frames, start_reading, next_frame, wake, and_then,
}
use verifiable_rpc_sidecar.Confidential.Task.Ends.{rest, concluded, woken, start_opened-rest}
use verifiable_rpc_sidecar.Prelude.{
  ltb, Bool-cases, length, Result, saturating_add, ok, err, panic, ℕ, ◌≡◌, refl, ◌⊎◌, inl, inr,
  Bool, true, false, Option, none, some, List, [], ◌∷◌,
}

module _ (c : Crypto) (h : Http) (b : Bhttp) (j : Json) (upstream : UpstreamClient)
    (signer : SigningState) (cfg : ConfidentialConfig) (env : Environment) (req : Request) where
  abbrev left : Bool → Task b → Task b × List Output
  left = rest c h b j upstream signer cfg env req

  abbrev polled : Task b → Wake → Task b × List Output
  polled = woken c h b j upstream signer cfg env req

  -- A stretch of work after which it no longer matters whether the timer comes first.
  abbrev pub IsSettled : Task b × List Output → Type 0
  IsSettled p = left true p.0 ≡ left false p.0

  pub concluded-IsSettled :
      (r : Result (Response × Outcome) Outcome)
      → IsSettled (concluded c h b j upstream signer cfg env req r)
  concluded-IsSettled (ok (resp, o)) = refl
  concluded-IsSettled (err o) = refl
  concluded-IsSettled panic = refl

  pub timer-IsSettled :
      (task : Task b) → IsSettled (polled task timer) ⊎ (polled task timer ≡ (task, []))
  unfolding wake
  timer-IsSettled created = inr refl
  timer-IsSettled reading = inr refl
  timer-IsSettled (sending o up_req) = inl (concluded-IsSettled _)
  timer-IsSettled (receiving o status frames total msg) = inl (concluded-IsSettled _)
  timer-IsSettled unstarted = inr refl
  timer-IsSettled dropped = inr refl
  timer-IsSettled panicked = inr refl
  timer-IsSettled (finished resp) = inr refl

  -- What is read of the upstream's answer cannot be lost to the timer once the call has ended.
  start_reading-settles :
      (o : InFlight) (up_req : UpstreamRequest) (answer : Option UpstreamResponse)
      → let p = start_reading c h b j upstream signer cfg env req o answer in
        IsSettled p ⊎ (left true (sending o up_req) ≡ and_then p (left true))
  start_reading-settles o up_req none = inl (concluded-IsSettled _)
  start_reading-settles o up_req (some resp) =
      elim (Bool-cases (is_refused_response cfg.max_response_bytes resp)) [
        | inl e ↦ inl (rw e (concluded-IsSettled _))
        | inr e ↦ rw e (by_code (b.status_code resp.status))
      ]
    where
      by_code :
          (code : Option ℕ)
          → let p = start_frames c h b j upstream signer cfg env req o resp code in
            IsSettled p ⊎ (left true (sending o up_req) ≡ and_then p (left true))
      by_code none = inl (concluded-IsSettled _)
      by_code (some code) = inr refl

  next_frame-settles :
      (o : InFlight) (status : ℕ) (frames : List Frame) (total : ℕ) (msg : b.Message)
      → let p = next_frame c h b j upstream signer cfg env req o status frames total msg in
        IsSettled p ⊎ (left true (receiving o status frames total msg) ≡ and_then p (left true))
  next_frame-settles o status [] total msg = inl (concluded-IsSettled _)
  next_frame-settles o status (failed ∷ frames) total msg = inl (concluded-IsSettled _)
  next_frame-settles o status (trailers t ∷ frames) total msg = inr refl
  next_frame-settles o status (chunk d ∷ frames) total msg =
      elim (Bool-cases (ltb cfg.max_response_bytes (saturating_add total (length d)))) [
        | inl e ↦ inl (rw e (concluded-IsSettled _))
        | inr e ↦ rw e (inr refl)
      ]

  pub ready-settles :
      (task : Task b)
      → IsSettled (polled task ready) ⊎ (left true task ≡ and_then (polled task ready) (left true))
  unfolding wake sealed_exchange open_outer
  ready-settles created = inr refl
  ready-settles reading = inr (
      start_opened-rest c h b j upstream signer cfg env req true
        (open_outer c h signer cfg env req))
  ready-settles (sending o up_req) = start_reading-settles o up_req (env.net up_req)
  ready-settles (receiving o status frames total msg) = next_frame-settles o status frames total msg
  ready-settles unstarted = inl refl
  ready-settles dropped = inl refl
  ready-settles panicked = inl refl
  ready-settles (finished resp) = inl refl
