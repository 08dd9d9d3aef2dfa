-- ===== src/Confidential/Task/Progress.antt =====
-- A call of src/confidential.rs that is polled comes to its end.
use verifiable_rpc_sidecar.Crates.Crypto.{Crypto}
use verifiable_rpc_sidecar.Crates.Http.{
  Request, UpstreamRequest, UpstreamResponse, Response, Http, Frame, chunk, trailers, failed,
}
use verifiable_rpc_sidecar.Crates.Bhttp.{Bhttp}
use verifiable_rpc_sidecar.Crates.Json.{Json}
use verifiable_rpc_sidecar.Envelope.{ResponseContext}
use verifiable_rpc_sidecar.Signing.{SigningState}
use verifiable_rpc_sidecar.Proxy.{UpstreamClient}
use verifiable_rpc_sidecar.Confidential.Errors.{InnerError}
use verifiable_rpc_sidecar.Confidential.Inner.{InnerRequest, decode_inner, batch_size}
use verifiable_rpc_sidecar.Confidential.Upstream.{inner_upstream_request, is_refused_response}
use verifiable_rpc_sidecar.Confidential.Outcome.{Outcome, LogLine, drop_guard}
use verifiable_rpc_sidecar.Confidential.InnerCall.{ConfidentialConfig, Environment}
use verifiable_rpc_sidecar.Confidential.Exchange.{
  open_outer, done_or_plaintext, sealed_exchange, exchange, confidential_exchange,
}
use verifiable_rpc_sidecar.Confidential.Task.{
  Task, created, sending, receiving, finished, InFlight, Output, sends, logs, Wake, ready, timer,
  start_leg, start_inner, start_opened, start_frames, start_reading, wake, and_then, run,
}
use verifiable_rpc_sidecar.Confidential.Task.Ends.{
  timing, rest, concluded, woken, start_opened-rest, rest-conclude, ready-rest,
}
use verifiable_rpc_sidecar.Prelude.{
  ltb, Bool-cases, length, Result, ◌>>=◌, err-ne-ok, ok-injective, Bytes, saturating_add, ok, err,
  panic, ℕ, ◌≡◌, refl, sym, ap, ◌∙◌, inl, inr, Bool, true, false, Option, none, some, map, List, [],
  ◌∷◌, ◌++◌,
}

module _ (c : Crypto) (h : Http) (b : Bhttp) (j : Json) (upstream : UpstreamClient)
    (signer : SigningState) (cfg : ConfidentialConfig) (env : Environment) (req : Request) where
  abbrev ran : Task b → List Wake → Task b × List Output
  ran = run c h b j upstream signer cfg env req

  abbrev left : Bool → Task b → Task b × List Output
  left = rest c h b j upstream signer cfg env req

  concluded-stays :
      (r : Result (Response × Outcome) Outcome)
      → let p = concluded c h b j upstream signer cfg env req r in and_then p (λ x. (x, [])) ≡ p
  concluded-stays (ok (resp, o)) = refl
  concluded-stays (err o) = refl
  concluded-stays panic = refl

  -- What is left of a call, reached by a run.
  abbrev Reaches : Bool → Task b × List Output → Type 0
  Reaches t p = (ws : List Wake) × (and_then p (λ x. ran x ws) ≡ and_then p (left t))

  concluded-Reaches :
      (t : Bool) (r : Result (Response × Outcome) Outcome)
      → Reaches t (concluded c h b j upstream signer cfg env req r)
  unfolding run
  concluded-Reaches t r =
      ([], concluded-stays r ∙ rest-conclude c h b j upstream signer cfg env req t r)

  -- A poll towards what is left.
  polls :
      (task : Task b)
      → Reaches false (woken c h b j upstream signer cfg env req task ready)
      → Reaches false (task, [])
  unfolding run
  polls task (ws, e) = (ready ∷ ws, e ∙ sym (ready-rest c h b j upstream signer cfg env req task))

  -- The frames of an answer are read to their end.
  receiving-Reaches :
      (o : InFlight) (status : ℕ) (frames : List Frame) (total : ℕ) (msg : b.Message)
      → Reaches false (receiving o status frames total msg, [])
  unfolding wake
  receiving-Reaches o status [] total msg = polls _ (concluded-Reaches false _)
  receiving-Reaches o status (failed ∷ frames) total msg = polls _ (concluded-Reaches false _)
  receiving-Reaches o status (trailers t ∷ frames) total msg =
      polls _ (receiving-Reaches o status frames total msg)
  receiving-Reaches o status (chunk d ∷ frames) total msg =
      let rest =
        receiving-Reaches o status frames (saturating_add total (length d))
          (b.write_content msg d) in
      polls _ (elim (Bool-cases (ltb cfg.max_response_bytes (saturating_add total (length d)))) [
        | inl e ↦ rw e (concluded-Reaches false _)
        | inr e ↦ rw e rest
      ])

  start_reading-Reaches :
      (o : InFlight) (answer : Option UpstreamResponse)
      → Reaches false (start_reading c h b j upstream signer cfg env req o answer)
  start_reading-Reaches o none = concluded-Reaches false _
  start_reading-Reaches o (some resp) =
      elim (Bool-cases (is_refused_response cfg.max_response_bytes resp)) [
        | inl e ↦ rw e (concluded-Reaches false _)
        | inr e ↦ rw e (by_code (b.status_code resp.status))
      ]
    where
      by_code :
          (code : Option ℕ)
          → Reaches false (start_frames c h b j upstream signer cfg env req o resp code)
      by_code none = concluded-Reaches false _
      by_code (some code) = receiving-Reaches o resp.status resp.body.frames 0 _

  sending-Reaches :
      (t : Bool) (o : InFlight) (up_req : UpstreamRequest) → Reaches t (sending o up_req, [])
  unfolding wake run
  sending-Reaches false o up_req = polls _ (start_reading-Reaches o (env.net up_req))
  sending-Reaches true o up_req = (timer ∷ [], concluded-stays _)

  start_leg-Reaches :
      (t : Bool) (o : InFlight) (r : Result UpstreamRequest InnerError)
      → Reaches t (start_leg c h b j upstream signer cfg env req o r)
  start_leg-Reaches t o (ok up_req) =
      let (ws, e) = sending-Reaches t o up_req in (ws, ap (λ p. (p.0, sends up_req ∷ p.1)) e)
  start_leg-Reaches t o (err e) = concluded-Reaches t _
  start_leg-Reaches t o panic = concluded-Reaches t _

  start_inner-Reaches :
      (t : Bool) (outer_req : Bytes) (ctx : ResponseContext) (nonce : Bytes)
      (r : Result InnerRequest InnerError)
      → Reaches t (start_inner c h b j upstream signer cfg env req outer_req ctx nonce r)
  start_inner-Reaches t outer_req ctx nonce (ok inner) =
      elim (Bool-cases (ltb cfg.max_batch_size (batch_size j inner.body))) [
        | inl e ↦ rw e (concluded-Reaches t _)
        | inr e ↦ rw e (start_leg-Reaches t _ (inner_upstream_request h upstream inner))
      ]
  start_inner-Reaches t outer_req ctx nonce (err e) = concluded-Reaches t _
  start_inner-Reaches t outer_req ctx nonce panic = concluded-Reaches t panic

  start_opened-Reaches :
      (t : Bool) (r : Result (Bytes × Bytes × ResponseContext × Bytes) Outcome)
      → Reaches t (start_opened c h b j upstream signer cfg env req r)
  start_opened-Reaches t (ok (outer_req, text, ctx, nonce)) =
      start_inner-Reaches t outer_req ctx nonce (decode_inner h b text)
  start_opened-Reaches t (err o) = concluded-Reaches t (done_or_plaintext c h b j (err o))
  start_opened-Reaches t panic = concluded-Reaches t panic

  -- The end of `confidential_exchange`, with its line.
  conclude-ended :
      (r : Result (Response × Outcome) Outcome) (resp : Response) (line : LogLine)
      (before : List Output)
      → (let m : Result (Response × LogLine) Outcome = do
        (resp, outcome) ← r
        ok (resp, drop_guard (some (outcome, resp.status)) env.elapsed)
        in m ≡ ok (resp, line))
      → ◌≡◌ {A = Task b × List Output}
          (let (task, after) = concluded c h b j upstream signer cfg env req r in
            (task, before ++ after))
          (finished resp, before ++ logs line ∷ [])
  conclude-ended (ok (r, o)) resp line before e =
      ap (λ q. (finished q.0, before ++ logs q.1 ∷ [])) (ok-injective e)
  conclude-ended (err o) resp line before e = absurd (err-ne-ok e)
  conclude-ended panic resp line before e = absurd (panic-ne-ok e)
    where
      panic-ne-ok : ◌≡◌ {A = Result (Response × LogLine) Outcome} panic (ok (resp, line)) → ⊥
      panic-ne-ok e = cc

  -- Whether or not the timer of the upstream's answer comes first, polling a call brings it to the
  -- answer of `confidential_exchange`, with the requests of that exchange and one line.
  pub run_answers :
      (t : Bool) (resp : Response) (line : LogLine)
      → confidential_exchange c h b j upstream signer cfg (timing env t) req ≡ ok (resp, line)
      → (ws : List Wake) × (ran created ws ≡ (
        finished resp,
        map sends (sealed_exchange c h b j upstream signer cfg (timing env t) req).1
            ++ logs line ∷ [],
      ))
  unfolding run wake confidential_exchange exchange sealed_exchange open_outer
  run_answers t resp line e =
      let x = open_outer c h signer cfg env req in
      let (ws, k) = start_opened-Reaches t x in
      (
        ready ∷ ready ∷ ws,
        k
            ∙ sym (start_opened-rest c h b j upstream signer cfg env req t x)
            ∙ conclude-ended _ resp line _ e,
      )
