-- ===== src/Confidential/Task.antt =====
-- src/confidential.rs as it is polled: `confidential_exchange` is a future that stops at each await
-- and may be dropped there. A call goes on when what it awaits is ready; its guard logs a line
-- when the call ends, is dropped or unwinds.
pub mod Ends
pub mod Settles
pub mod Runs
pub mod Progress
pub mod Guard
pub mod Polls
mod Tests
use verifiable_rpc_sidecar.Crates.Crypto.{Crypto}
use verifiable_rpc_sidecar.Crates.Http.{
  Request, UpstreamRequest, UpstreamResponse, Response, Http, Frame, chunk, trailers, failed,
}
use verifiable_rpc_sidecar.Crates.Bhttp.{Bhttp}
use verifiable_rpc_sidecar.Crates.Json.{Json}
use verifiable_rpc_sidecar.Envelope.{ResponseContext}
use verifiable_rpc_sidecar.Signing.{SigningState}
use verifiable_rpc_sidecar.Proxy.{UpstreamClient}
use verifiable_rpc_sidecar.Confidential.Errors.{InnerError}
use verifiable_rpc_sidecar.Confidential.Inner.{InnerRequest, decode_inner, batch_size}
use verifiable_rpc_sidecar.Confidential.Upstream.{
  inner_upstream_request, is_refused_response, put_content_type_values, get_all,
}
use verifiable_rpc_sidecar.Confidential.Outcome.{Outcome, LogLine, millis, drop_guard}
use verifiable_rpc_sidecar.Confidential.InnerCall.{
  ConfidentialConfig, Environment, InnerCall, failed_call,
}
use verifiable_rpc_sidecar.Confidential.Exchange.{open_outer, answer, done_or_plaintext}
use verifiable_rpc_sidecar.Prelude.{
  ltb, if◌then◌else◌, length, Result, Bytes, saturating_add, codes, ok, err, panic, ℕ, Option, none,
  some, List, [], ◌∷◌, ◌++◌,
}

-- What an opened call keeps over its awaits: the outer body, the context, the nonce, and the
-- number of its calls.
pub record InFlight : Type 0 where
  pub outer_req : Bytes
  pub ctx : ResponseContext
  pub nonce : Bytes
  pub batch_size : ℕ

-- What a call does that is seen outside of it.
pub data Output : Type 0 where
  sends : UpstreamRequest → Output
  logs : LogLine → Output

-- Where a call is: not polled yet, at the await of its body, of the upstream's answer, of the next
-- frame of that answer (with its status, the count and the message so far), or at its end. A call
-- that was dropped, before its first poll or behind it, or that unwound has no answer.
pub data Task (b : Bhttp) : Type 0 where
  created reading unstarted dropped panicked : Task b
  sending : InFlight → UpstreamRequest → Task b
  receiving : InFlight → ℕ → List Frame → ℕ → b.Message → Task b
  finished : Response → Task b

-- What the executor does to a call: it polls it when what it awaits is ready, or when the timer of
-- the upstream's answer has fired, or drops it after so many milliseconds.
pub data Wake : Type 0 where
  ready timer : Wake
  drop_after : ℕ → Wake

-- One stretch of work behind another.
abbrev pub and_then : {S : Type 0} → S × List Output → (S → S × List Output) → S × List Output
and_then (task, out) f = let (task', out') = f task in (task', out ++ out')

module _ (c : Crypto) (h : Http) (b : Bhttp) (j : Json) (upstream : UpstreamClient)
    (signer : SigningState) (cfg : ConfidentialConfig) (env : Environment) (req : Request) where
  -- The end of `confidential_exchange`, with the line of its guard.
  abbrev pub conclude : Result (Response × Outcome) Outcome → Task b × List Output
  conclude (ok (resp, outcome)) =
      (finished resp, logs (drop_guard (some (outcome, resp.status)) env.elapsed) ∷ [])
  conclude (err outcome) = (panicked, logs (drop_guard none env.elapsed) ∷ [])
  conclude panic = (panicked, logs (drop_guard none env.elapsed) ∷ [])

  -- `sealed_exchange` behind its inner call.
  abbrev pub answered : Bytes → ResponseContext → Bytes → InnerCall b → Task b × List Output
  answered outer_req ctx nonce call =
      conclude (done_or_plaintext c h b j (answer c h b signer env outer_req ctx nonce call))

  -- The inner call, when the upstream leg has given its result.
  abbrev pub leg_done : InFlight → Result (ℕ × b.Message) InnerError → Task b × List Output
  leg_done o result = answered o.outer_req o.ctx o.nonce (record {
    result = result;
    batch_size = o.batch_size;
    upstream_ms = millis env.upstream_elapsed;
    sent = [];
  })

  -- `call_upstream` up to its await.
  abbrev pub start_leg : InFlight → Result UpstreamRequest InnerError → Task b × List Output
  start_leg o (ok up_req) = (sending o up_req, sends up_req ∷ [])
  start_leg o (err e) = leg_done o (err e)
  start_leg o panic = leg_done o panic

  -- `run_inner` up to the await of `call_upstream`
  abbrev pub start_inner :
      Bytes → ResponseContext → Bytes → Result InnerRequest InnerError → Task b × List Output
  start_inner outer_req ctx nonce (ok inner) =
      let n = batch_size j inner.body in
      if ltb cfg.max_batch_size n
      then answered outer_req ctx nonce (failed_call b InnerError.batch_too_large n)
      else start_leg (record { outer_req = outer_req; ctx = ctx; nonce = nonce; batch_size = n })
          (inner_upstream_request h upstream inner)
  start_inner outer_req ctx nonce (err e) = answered outer_req ctx nonce (failed_call b e 1)
  start_inner outer_req ctx nonce panic = conclude panic

  -- `sealed_exchange`, from the read of the body to the next await
  abbrev pub start_opened :
      Result (Bytes × Bytes × ResponseContext × Bytes) Outcome → Task b × List Output
  start_opened (ok (outer_req, text, ctx, nonce)) =
      start_inner outer_req ctx nonce (decode_inner h b text)
  start_opened (err outcome) = conclude (done_or_plaintext c h b j (err outcome))
  start_opened panic = conclude panic

  -- `read_upstream` behind its guard, to the await of the first frame
  abbrev pub start_frames : InFlight → UpstreamResponse → Option ℕ → Task b × List Output
  start_frames o resp none = leg_done o (err InnerError.internal)
  start_frames o resp (some code) = (
    receiving o resp.status resp.body.frames 0
        (put_content_type_values b (b.response code) (get_all (codes "content-type") resp.headers)),
    [],
  )

  -- `read_upstream`, from the answer's head
  abbrev pub start_reading : InFlight → Option UpstreamResponse → Task b × List Output
  start_reading o none = leg_done o (err InnerError.upstream)
  start_reading o (some resp) =
      if is_refused_response cfg.max_response_bytes resp
      then leg_done o (err InnerError.upstream)
      else start_frames o resp (b.status_code resp.status)

  -- A turn of the loop of `read_upstream`
  abbrev pub next_frame : InFlight → ℕ → List Frame → ℕ → b.Message → Task b × List Output
  next_frame o status [] total msg = leg_done o (ok (status, msg))
  next_frame o status (failed ∷ frames) total msg = leg_done o (err InnerError.upstream)
  next_frame o status (trailers t ∷ frames) total msg = (receiving o status frames total msg, [])
  next_frame o status (chunk data_bytes ∷ frames) total msg =
      let total' = saturating_add total (length data_bytes) in
      if ltb cfg.max_response_bytes total'
      then leg_done o (err InnerError.upstream)
      else (receiving o status frames total' (b.write_content msg data_bytes), [])

  -- What one wake-up makes of a call, and what it does outside. A call that ended is not woken.
  unfoldable pub wake : Task b → Wake → Task b × List Output
  wake created ready = (reading, [])
  wake reading ready = start_opened (open_outer c h signer cfg env req)
  wake (sending o up_req) ready = start_reading o (env.net up_req)
  wake (receiving o status frames total msg) ready = next_frame o status frames total msg
  wake (sending o up_req) timer = leg_done o (err InnerError.upstream_timeout)
  wake (receiving o status frames total msg) timer = leg_done o (err InnerError.upstream_timeout)
  wake created (drop_after ms) = (unstarted, [])
  wake reading (drop_after ms) = (dropped, logs (drop_guard none ms) ∷ [])
  wake (sending o up_req) (drop_after ms) = (dropped, logs (drop_guard none ms) ∷ [])
  wake (receiving o status frames total msg) (drop_after ms) =
      (dropped, logs (drop_guard none ms) ∷ [])
  wake task _ = (task, [])

  -- A call under a sequence of wake-ups: where it is left, and all that it did.
  unfoldable pub run : Task b → List Wake → Task b × List Output
  run task [] = (task, [])
  run task (w ∷ ws) = and_then (wake task w) (λ task'. run task' ws)
