-- ===== src/Confidential/InnerCall.antt =====
-- src/confidential.rs: the inner call, and sealing what it gives.
pub mod Seal
pub mod Total
pub mod Ways
mod Tests
use verifiable_rpc_sidecar.Crates.Http.{UpstreamRequest, Http}
use verifiable_rpc_sidecar.Crates.Bhttp.{Bhttp}
use verifiable_rpc_sidecar.Crates.Json.{Json}
use verifiable_rpc_sidecar.Envelope.{ResponseContext, seal, seal_in_place}
use verifiable_rpc_sidecar.Signing.{Reading}
use verifiable_rpc_sidecar.Proxy.{UpstreamClient, Net}
use verifiable_rpc_sidecar.Confidential.Errors.{InnerError, OutcomeClass, status, class}
use verifiable_rpc_sidecar.Confidential.Inner.{
  InnerRequest, error_response, decode_inner, batch_size, Buffer, encode_with_nonce,
  encode_response,
}
use verifiable_rpc_sidecar.Confidential.Upstream.{call_upstream}
use verifiable_rpc_sidecar.Prelude.{
  ltb, if◌then◌else◌, Result, ◌>>=◌, ◌>>◌, ok_or, map_err, Bytes, ok, err, panic, ℕ, Bool, Option,
  List, [],
}
use verifiable_rpc_sidecar.Confidential.Outcome.{millis}

-- `ConfidentialConfig`; the timeout is the environment's `timed_out`.
pub record ConfidentialConfig : Type 0 where
  pub max_request_bytes : ℕ
  pub max_response_bytes : ℕ
  pub max_batch_size : ℕ
  pub upstream_timeout_ms : ℕ

-- What one call meets: the bytes that `getrandom` fills in, the two readings of the clock, the
-- upstream, whether the upstream timer comes first, and the times that the two spans take.
pub record Environment : Type 0 where
  pub getrandom : Option Bytes
  pub clock_before : Reading
  pub clock_after : Reading
  pub net : Net
  pub timed_out : Bool
  pub upstream_elapsed : ℕ
  pub elapsed : ℕ

-- `InnerCall`, and the requests that went upstream.
pub record InnerCall (b : Bhttp) : Type 0 where
  pub result : Result (ℕ × b.Message) InnerError
  pub batch_size : ℕ
  pub upstream_ms : ℕ
  pub sent : List UpstreamRequest

pub record Sealed : Type 0 where
  pub class : OutcomeClass
  pub inner_status : ℕ
  pub body : Bytes

module _ (b : Bhttp) where
  -- `InnerCall::failed`
  unfoldable pub failed_call : InnerError → ℕ → InnerCall b
  failed_call e batch_size = record {
    result = err e;
    batch_size = batch_size;
    upstream_ms = 0;
    sent = [];
  }

module _ (h : Http) (b : Bhttp) (j : Json) where
  -- `run_inner` behind the decoding
  abbrev pub run_decoded :
      UpstreamClient
      → ConfidentialConfig
      → Environment
      → Result InnerRequest InnerError
      → InnerCall b
  run_decoded upstream cfg env (err e) = failed_call b e 1
  run_decoded upstream cfg env panic = record {
    result = panic;
    batch_size = 1;
    upstream_ms = 0;
    sent = [];
  }
  run_decoded upstream cfg env (ok inner) =
      let n = batch_size j inner.body in
      let call = call_upstream h b upstream cfg.max_response_bytes env.net env.timed_out inner in
      if ltb cfg.max_batch_size n then failed_call b InnerError.batch_too_large n else record {
        result = call.0;
        batch_size = n;
        upstream_ms = millis env.upstream_elapsed;
        sent = call.1;
      }

  unfoldable pub run_inner : UpstreamClient → ConfidentialConfig → Environment → Bytes → InnerCall b
  run_inner upstream cfg env plaintext = run_decoded upstream cfg env (decode_inner h b plaintext)

module _ (b : Bhttp) where
  abbrev pub encoded_with : Bytes → ℕ × b.Message → Result (ℕ × Buffer) InnerError
  encoded_with nonce (status, msg) = do
    buf ← ok_or InnerError.internal (encode_with_nonce b msg nonce)
    ok (status, buf)

  -- `seal_inner` behind the encoding; a result without a value is its `None`.
  abbrev pub seal_encoded :
      ResponseContext → Bytes → Result (ℕ × Buffer) InnerError → Result Sealed (Unit {0})
  seal_encoded ctx nonce (ok (inner_status, buf)) = do
    let (sealed, body) = seal_in_place ctx buf.bytes
    map_err (λ e. tt) sealed
    ok (record { class = OutcomeClass.success; inner_status = inner_status; body = body })
  seal_encoded ctx nonce (err e) = do
    encoded ← ok_or tt (encode_response b (error_response e))
    body ← map_err (λ e. tt) (seal ctx nonce encoded)
    ok (record { class = class e; inner_status = (error_response e).status; body = body })
  seal_encoded ctx nonce panic = panic

  unfoldable pub seal_inner :
      ResponseContext → Bytes → Result (ℕ × b.Message) InnerError → Result Sealed (Unit {0})
  seal_inner ctx nonce result = seal_encoded ctx nonce (result >>= encoded_with nonce)
