-- ===== src/Confidential/Task/Ends.antt =====
-- A polled call of src/confidential.rs against `confidential_exchange` as one function.
use verifiable_rpc_sidecar.Crates.Crypto.{Crypto}
use verifiable_rpc_sidecar.Crates.Http.{
  Request, UpstreamRequest, UpstreamResponse, Response, Http, Frame, chunk, trailers, failed,
}
use verifiable_rpc_sidecar.Crates.Bhttp.{Bhttp}
use verifiable_rpc_sidecar.Crates.Json.{Json}
use verifiable_rpc_sidecar.Envelope.{ResponseContext}
use verifiable_rpc_sidecar.Signing.{SigningState}
use verifiable_rpc_sidecar.Proxy.{UpstreamClient}
use verifiable_rpc_sidecar.Confidential.Errors.{InnerError}
use verifiable_rpc_sidecar.Confidential.Inner.{InnerRequest, decode_inner, batch_size}
use verifiable_rpc_sidecar.Confidential.Upstream.{
  inner_upstream_request, is_refused_response, send_built, put_content_type_values, get_all,
  read_frames, read_upstream, within_timeout, call_upstream,
}
use verifiable_rpc_sidecar.Confidential.Outcome.{Outcome, millis}
use verifiable_rpc_sidecar.Confidential.InnerCall.{
  ConfidentialConfig, Environment, run_inner, run_decoded, seal_inner, failed_call,
}
use verifiable_rpc_sidecar.Confidential.Exchange.{
  open_outer, answer, done_or_plaintext, serve_opened, sealed_exchange,
}
use verifiable_rpc_sidecar.Confidential.Task.{
  Task, created, reading, sending, receiving, finished, unstarted, dropped, panicked, InFlight,
  Output, sends, Wake, ready, timer, conclude, leg_done, start_leg, start_inner, start_opened,
  start_frames, start_reading, next_frame, wake, and_then,
}
use verifiable_rpc_sidecar.Prelude.{
  ltb, Bool-cases, length, Result, ◌>>=◌, ok_or, Bytes, saturating_add, codes, ok, err, panic, ℕ,
  ◌≡◌, refl, inl, inr, Bool, true, false, Option, none, some, map, List, [], ◌∷◌, ◌++◌,
}

-- The same call, if the timer of the upstream's answer comes first, or does not.
abbrev pub timing : Environment → Bool → Environment
timing env t = record env { timed_out = t }

module _ (c : Crypto) (h : Http) (b : Bhttp) (j : Json) (upstream : UpstreamClient)
    (signer : SigningState) (cfg : ConfidentialConfig) (env : Environment) (req : Request) where
  -- A whole exchange: how it ends, behind the requests that it sends.
  abbrev pub whole_of :
      Result (Response × Outcome) Outcome × List UpstreamRequest → Task b × List Output
  whole_of (result, sent) =
      let (task, out) =
        conclude c h b j upstream signer cfg env req (done_or_plaintext c h b j result) in
      (task, map sends sent ++ out)

  abbrev pub whole : Bool → Task b × List Output
  whole t = whole_of (sealed_exchange c h b j upstream signer cfg (timing env t) req)

  -- What is left of a call.
  abbrev pub rest : Bool → Task b → Task b × List Output
  rest t created = whole t
  rest t reading = whole t
  rest t (sending o up_req) =
      leg_done c h b j upstream signer cfg env req o
        (within_timeout t (read_upstream b cfg.max_response_bytes (env.net up_req)))
  rest t (receiving o status frames total msg) = leg_done c h b j upstream signer cfg env req o (
      within_timeout t
        (read_frames b cfg.max_response_bytes frames total msg >>= λ msg. ok (status, msg)))
  rest t task = (task, [])

  abbrev pub concluded : Result (Response × Outcome) Outcome → Task b × List Output
  concluded = conclude c h b j upstream signer cfg env req

  pub rest-conclude :
      (t : Bool) (r : Result (Response × Outcome) Outcome)
      → concluded r ≡ and_then (concluded r) (rest t)
  rest-conclude t (ok (resp, o)) = refl
  rest-conclude t (err o) = refl
  rest-conclude t panic = refl

  -- The stretch that starts the upstream leg.
  start_leg-rest :
      (t : Bool) (o : InFlight) (r : Result UpstreamRequest InnerError)
      → let call = send_built h b cfg.max_response_bytes env.net t r in
        whole_of (
          answer c h b signer (timing env t) o.outer_req o.ctx o.nonce (record {
            result = call.0;
            batch_size = o.batch_size;
            upstream_ms = millis env.upstream_elapsed;
            sent = call.1;
          }),
          call.1,
        )
        ≡ and_then (start_leg c h b j upstream signer cfg env req o r) (rest t)
  unfolding answer
  start_leg-rest t o (ok up_req) = refl
  start_leg-rest t o (err e) = rest-conclude t _
  start_leg-rest t o panic = rest-conclude t _

  -- The stretch from the plaintext to the await of the upstream leg.
  start_inner-rest :
      (t : Bool) (outer_req : Bytes) (ctx : ResponseContext) (nonce : Bytes)
      (r : Result InnerRequest InnerError)
      → let call = run_decoded h b j upstream cfg (timing env t) r in
        whole_of (answer c h b signer (timing env t) outer_req ctx nonce call, call.sent)
        ≡ and_then (start_inner c h b j upstream signer cfg env req outer_req ctx nonce r) (rest t)
  unfolding answer failed_call call_upstream seal_inner
  start_inner-rest t outer_req ctx nonce (ok inner) =
      elim (Bool-cases (ltb cfg.max_batch_size (batch_size j inner.body))) [
        | inl e ↦ rw e (rest-conclude t _)
        | inr e ↦ rw e (start_leg-rest t _ (inner_upstream_request h upstream inner))
      ]
  start_inner-rest t outer_req ctx nonce (err e) = rest-conclude t _
  start_inner-rest t outer_req ctx nonce panic = refl

  -- The stretch from the outer body.
  pub start_opened-rest :
      (t : Bool) (r : Result (Bytes × Bytes × ResponseContext × Bytes) Outcome)
      → whole_of (serve_opened c h b j upstream signer cfg (timing env t) r)
        ≡ and_then (start_opened c h b j upstream signer cfg env req r) (rest t)
  unfolding run_inner
  start_opened-rest t (ok (outer_req, text, ctx, nonce)) =
      start_inner-rest t outer_req ctx nonce (decode_inner h b text)
  start_opened-rest t (err o) = refl
  start_opened-rest t panic = refl

  next_frame-rest :
      (o : InFlight) (status : ℕ) (frames : List Frame) (total : ℕ) (msg : b.Message)
      → rest false (receiving o status frames total msg)
        ≡ and_then
            (next_frame c h b j upstream signer cfg env req o status frames total msg)
            (rest false)
  unfolding read_frames
  next_frame-rest o status [] total msg = rest-conclude false _
  next_frame-rest o status (failed ∷ frames) total msg = rest-conclude false _
  next_frame-rest o status (trailers t ∷ frames) total msg = refl
  next_frame-rest o status (chunk d ∷ frames) total msg =
      elim (Bool-cases (ltb cfg.max_response_bytes (saturating_add total (length d)))) [
        | inl e ↦ rw e (rest-conclude false _)
        | inr e ↦ rw e refl
      ]

  start_frames-rest :
      (o : InFlight) (resp : UpstreamResponse) (code : Option ℕ)
      → leg_done c h b j upstream signer cfg env req o (do
        code ← ok_or InnerError.internal code
        let msg =
            put_content_type_values b
              (b.response code)
              (get_all (codes "content-type") resp.headers)
        msg ← read_frames b cfg.max_response_bytes resp.body.frames 0 msg
        ok (resp.status, msg))
        ≡ and_then (start_frames c h b j upstream signer cfg env req o resp code) (rest false)
  start_frames-rest o resp none = rest-conclude false _
  start_frames-rest o resp (some code) = refl

  start_reading-rest :
      (o : InFlight) (up_req : UpstreamRequest) (answer : Option UpstreamResponse)
      → leg_done c h b j upstream signer cfg env req o
          (read_upstream b cfg.max_response_bytes answer)
        ≡ and_then (start_reading c h b j upstream signer cfg env req o answer) (rest false)
  unfolding read_upstream
  start_reading-rest o up_req none = rest-conclude false _
  start_reading-rest o up_req (some resp) =
      elim (Bool-cases (is_refused_response cfg.max_response_bytes resp)) [
        | inl e ↦ rw e (rest-conclude false _)
        | inr e ↦ rw e (start_frames-rest o resp (b.status_code resp.status))
      ]

  abbrev pub woken : Task b → Wake → Task b × List Output
  woken = wake c h b j upstream signer cfg env req

  -- A poll when the awaited thing is ready makes progress on the same call.
  pub ready-rest : (task : Task b) → rest false task ≡ and_then (woken task ready) (rest false)
  unfolding wake sealed_exchange open_outer
  ready-rest created = refl
  ready-rest reading = start_opened-rest false (open_outer c h signer cfg env req)
  ready-rest (sending o up_req) = start_reading-rest o up_req (env.net up_req)
  ready-rest (receiving o status frames total msg) = next_frame-rest o status frames total msg
  ready-rest unstarted = refl
  ready-rest dropped = refl
  ready-rest panicked = refl
  ready-rest (finished resp) = refl

  -- After the timer has fired, nothing is awaited any more.
  pub timer-rest : (task : Task b) → rest true task ≡ and_then (woken task timer) (rest true)
  unfolding wake
  timer-rest created = refl
  timer-rest reading = refl
  timer-rest (sending o up_req) = rest-conclude true _
  timer-rest (receiving o status frames total msg) = rest-conclude true _
  timer-rest unstarted = refl
  timer-rest dropped = refl
  timer-rest panicked = refl
  timer-rest (finished resp) = refl
