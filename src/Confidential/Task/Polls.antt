-- ===== src/Confidential/Task/Polls.antt =====
-- A call of src/confidential.rs that is polled often enough is over, whatever it meets.
use verifiable_rpc_sidecar.Crates.Crypto.{Crypto}
use verifiable_rpc_sidecar.Crates.Http.{
  Request, UpstreamRequest, UpstreamResponse, Response, Http, Frame, chunk, trailers, failed,
}
use verifiable_rpc_sidecar.Crates.Bhttp.{Bhttp}
use verifiable_rpc_sidecar.Crates.Json.{Json}
use verifiable_rpc_sidecar.Envelope.{ResponseContext}
use verifiable_rpc_sidecar.Signing.{SigningState}
use verifiable_rpc_sidecar.Proxy.{UpstreamClient}
use verifiable_rpc_sidecar.Confidential.Errors.{InnerError}
use verifiable_rpc_sidecar.Confidential.Inner.{InnerRequest, decode_inner, batch_size}
use verifiable_rpc_sidecar.Confidential.Upstream.{inner_upstream_request, is_refused_response}
use verifiable_rpc_sidecar.Confidential.Outcome.{Outcome}
use verifiable_rpc_sidecar.Confidential.InnerCall.{ConfidentialConfig, Environment}
use verifiable_rpc_sidecar.Confidential.Exchange.{open_outer, done_or_plaintext}
use verifiable_rpc_sidecar.Confidential.Task.{
  Task, created, reading, sending, receiving, finished, unstarted, dropped, panicked, InFlight,
  Output, ready, start_leg, start_inner, start_opened, start_frames, start_reading, wake, run,
}
use verifiable_rpc_sidecar.Confidential.Task.Ends.{concluded, woken}
use verifiable_rpc_sidecar.Prelude.{
  ltb, Bool-cases, length, replicate, Result, Bytes, saturating_add, ok, err, panic, ℕ, suc, inl,
  inr, Option, none, some, List, [], ◌∷◌,
}

-- A call that is at its end.
abbrev pub IsOver : {b : Bhttp} → Task b → Type 0
IsOver created = ⊥
IsOver reading = ⊥
IsOver (sending o up_req) = ⊥
IsOver (receiving o status frames total msg) = ⊥
IsOver task = Unit {0}

module _ (c : Crypto) (h : Http) (b : Bhttp) (j : Json) (upstream : UpstreamClient)
    (signer : SigningState) (cfg : ConfidentialConfig) (env : Environment) (req : Request) where
  -- Some number of polls, each when what is awaited is ready, ends the call.
  abbrev pub Ends : Task b → Type 0
  Ends task = (n : ℕ) × IsOver (run c h b j upstream signer cfg env req task (replicate n ready)).0

  abbrev Ending : Task b × List Output → Type 0
  Ending p = Ends p.0

  concluded-Ends :
      (r : Result (Response × Outcome) Outcome)
      → Ending (concluded c h b j upstream signer cfg env req r)
  unfolding run
  concluded-Ends (ok (resp, o)) = (0, tt)
  concluded-Ends (err o) = (0, tt)
  concluded-Ends panic = (0, tt)

  polled-Ends :
      (task : Task b) → Ending (woken c h b j upstream signer cfg env req task ready) → Ends task
  unfolding run
  polled-Ends task (n, v) = (suc n, v)

  receiving-Ends :
      (o : InFlight) (status : ℕ) (frames : List Frame) (total : ℕ) (msg : b.Message)
      → Ends (receiving o status frames total msg)
  unfolding wake
  receiving-Ends o status [] total msg = polled-Ends _ (concluded-Ends _)
  receiving-Ends o status (failed ∷ frames) total msg = polled-Ends _ (concluded-Ends _)
  receiving-Ends o status (trailers t ∷ frames) total msg =
      polled-Ends _ (receiving-Ends o status frames total msg)
  receiving-Ends o status (chunk d ∷ frames) total msg =
      let rest =
        receiving-Ends o status frames (saturating_add total (length d)) (b.write_content msg d) in
      polled-Ends _
        (elim (Bool-cases (ltb cfg.max_response_bytes (saturating_add total (length d)))) [
          | inl e ↦ rw e (concluded-Ends _)
          | inr e ↦ rw e rest
        ])

  start_frames-Ends :
      (o : InFlight) (resp : UpstreamResponse) (code : Option ℕ)
      → Ending (start_frames c h b j upstream signer cfg env req o resp code)
  start_frames-Ends o resp none = concluded-Ends _
  start_frames-Ends o resp (some code) = receiving-Ends o resp.status resp.body.frames 0 _

  start_reading-Ends :
      (o : InFlight) (answer : Option UpstreamResponse)
      → Ending (start_reading c h b j upstream signer cfg env req o answer)
  start_reading-Ends o none = concluded-Ends _
  start_reading-Ends o (some resp) =
      elim (Bool-cases (is_refused_response cfg.max_response_bytes resp)) [
        | inl e ↦ rw e (concluded-Ends _)
        | inr e ↦ rw e (start_frames-Ends o resp (b.status_code resp.status))
      ]

  sending-Ends : (o : InFlight) (up_req : UpstreamRequest) → Ends (sending o up_req)
  unfolding wake
  sending-Ends o up_req = polled-Ends _ (start_reading-Ends o (env.net up_req))

  start_leg-Ends :
      (o : InFlight) (r : Result UpstreamRequest InnerError)
      → Ending (start_leg c h b j upstream signer cfg env req o r)
  start_leg-Ends o (ok up_req) = sending-Ends o up_req
  start_leg-Ends o (err e) = concluded-Ends _
  start_leg-Ends o panic = concluded-Ends _

  start_inner-Ends :
      (outer_req : Bytes) (ctx : ResponseContext) (nonce : Bytes)
      (r : Result InnerRequest InnerError)
      → Ending (start_inner c h b j upstream signer cfg env req outer_req ctx nonce r)
  start_inner-Ends outer_req ctx nonce (ok inner) =
      elim (Bool-cases (ltb cfg.max_batch_size (batch_size j inner.body))) [
        | inl e ↦ rw e (concluded-Ends _)
        | inr e ↦ rw e (start_leg-Ends _ (inner_upstream_request h upstream inner))
      ]
  start_inner-Ends outer_req ctx nonce (err e) = concluded-Ends _
  start_inner-Ends outer_req ctx nonce panic = concluded-Ends panic

  start_opened-Ends :
      (r : Result (Bytes × Bytes × ResponseContext × Bytes) Outcome)
      → Ending (start_opened c h b j upstream signer cfg env req r)
  start_opened-Ends (ok (outer_req, text, ctx, nonce)) =
      start_inner-Ends outer_req ctx nonce (decode_inner h b text)
  start_opened-Ends (err o) = concluded-Ends (done_or_plaintext c h b j (err o))
  start_opened-Ends panic = concluded-Ends panic

  reading-Ends : Ends reading
  unfolding wake
  reading-Ends = polled-Ends reading (start_opened-Ends (open_outer c h signer cfg env req))

  pub polls-Ends : (task : Task b) → Ends task
  unfolding run wake
  polls-Ends created = polled-Ends created reading-Ends
  polls-Ends reading = reading-Ends
  polls-Ends (sending o up_req) = sending-Ends o up_req
  polls-Ends (receiving o status frames total msg) = receiving-Ends o status frames total msg
  polls-Ends unstarted = (0, tt)
  polls-Ends dropped = (0, tt)
  polls-Ends panicked = (0, tt)
  polls-Ends (finished resp) = (0, tt)
