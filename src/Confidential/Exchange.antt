-- ===== src/Confidential/Exchange.antt =====
-- src/confidential.rs: one exchange of `POST /confidential`, its answer and its log line.
pub mod Plain
pub mod Sent
pub mod Served
pub mod Ends
pub mod Total
pub mod Client
pub mod Tests
use verifiable_rpc_sidecar.Crates.Crypto.{Crypto}
use verifiable_rpc_sidecar.Crates.Http.{
  HeaderMap, Request, UpstreamRequest, UpstreamResponse, Response, Http, Body, Collected, collected,
  length_limit, transport_error,
}
use verifiable_rpc_sidecar.Crates.Bhttp.{Bhttp}
use verifiable_rpc_sidecar.Crates.Json.{Json}
use verifiable_rpc_sidecar.Envelope.{ResponseContext, seal, seal_in_place, response_nonce_len}
use verifiable_rpc_sidecar.Signing.{
  SigningState, SignedResponse, Reading, now_ms, sign, open_request,
}
use verifiable_rpc_sidecar.Proxy.{
  UpstreamClient, Net, status_response, response_or_500, signing_headers,
}
use verifiable_rpc_sidecar.Confidential.Errors.{
  InnerError, OutcomeClass, status, class, as_str, ohttp_key_problem,
}
use verifiable_rpc_sidecar.Confidential.Inner.{
  InnerRequest, error_response, decode_inner, batch_size, Buffer, encode_with_nonce,
  encode_response,
}
use verifiable_rpc_sidecar.Confidential.Upstream.{call_upstream}
use verifiable_rpc_sidecar.Confidential.Outcome.{
  Outcome, plaintext, LogLine, log_outcome, outer_status, plaintext_response, unsealable,
  drop_guard,
}
use verifiable_rpc_sidecar.Confidential.InnerCall.{
  ConfidentialConfig, Environment, InnerCall, Sealed, run_inner, seal_inner,
}
use verifiable_rpc_sidecar.Prelude.{
  length, Result, ◌>>=◌, ◌>>◌, ok_or, map_err, Bytes, to_string, codes, as_bytes, ok, err, panic, ℕ,
  some, List, [], ◌∷◌, ◌++◌,
}

abbrev pub bytes_or_outcome : Collected → Result Bytes Outcome
bytes_or_outcome (collected bytes) = ok bytes
bytes_or_outcome length_limit = err (plaintext OutcomeClass.request_too_large 0 0)
bytes_or_outcome transport_error = err (plaintext OutcomeClass.request_read_failed 0 0)

module _ (h : Http) where
  unfoldable pub read_outer : Request → ℕ → Result Bytes Outcome
  read_outer req cap = bytes_or_outcome (h.collect_limited req.body cap)

module _ (c : Crypto) (h : Http) where
  unfoldable pub build_confidential_response : ℕ → ℕ → Bytes → SignedResponse → Response
  build_confidential_response inner_status batch_size outer_resp signed = response_or_500 (
      h.response_builder_body (record {
        status = outer_status inner_status;
        headers =
            (codes "content-type", codes "message/ohttp-res")
            ∷ (signing_headers c signed
                ++ (codes "vrpc-batch-size", as_bytes (to_string batch_size)) ∷ []);
        body = outer_resp;
      }))

module _ (c : Crypto) (h : Http) (b : Bhttp) where
  -- `sealed_exchange`, after the inner call.
  unfoldable pub answer :
      SigningState
      → Environment
      → Bytes
      → ResponseContext
      → Bytes
      → InnerCall b
      → Result (Response × Outcome) Outcome
  answer signer env outer_req ctx nonce call = do
    let failed = unsealable (length outer_req) call.batch_size call.upstream_ms
    sealed ← map_err (λ e. failed) (seal_inner b ctx nonce call.result)
    signed ← map_err (λ e. failed) (sign c signer outer_req sealed.body env.clock_after)
    let outcome : Outcome = record {
      class = sealed.class;
      inner_status = sealed.inner_status;
      batch_size = call.batch_size;
      request_bytes = length outer_req;
      response_bytes = length sealed.body;
      upstream_ms = call.upstream_ms;
    }
    let resp =
        build_confidential_response c h sealed.inner_status call.batch_size sealed.body signed
    ok (resp, outcome)

module _ (c : Crypto) (h : Http) where
  -- `sealed_exchange` up to the inner call: the outer body, the plaintext, the context, the nonce.
  unfoldable pub open_outer :
      SigningState
      → ConfidentialConfig
      → Environment
      → Request
      → Result (Bytes × Bytes × ResponseContext × Bytes) Outcome
  open_outer signer cfg env req = do
    outer_req ← read_outer h req cfg.max_request_bytes
    let refused =
        plaintext OutcomeClass.pre_decapsulation (length outer_req) (length ohttp_key_problem)
    (text, ctx) ← map_err (λ e. refused) (open_request c signer outer_req)
    let no_nonce = unsealable (length outer_req) 0 0
    nonce ← ok_or no_nonce env.getrandom
    map_err (λ e. no_nonce) (now_ms env.clock_before)
    ok (outer_req, text, ctx, nonce)

module _ (c : Crypto) (h : Http) (b : Bhttp) (j : Json) where
  -- `sealed_exchange` behind `open_outer`
  abbrev pub serve_opened :
      UpstreamClient
      → SigningState
      → ConfidentialConfig
      → Environment
      → Result (Bytes × Bytes × ResponseContext × Bytes) Outcome
      → Result (Response × Outcome) Outcome × List UpstreamRequest
  serve_opened upstream signer cfg env (ok (outer_req, text, ctx, nonce)) =
      let call = run_inner h b j upstream cfg env text in
      (answer c h b signer env outer_req ctx nonce call, call.sent)
  serve_opened upstream signer cfg env (err o) = (err o, [])
  serve_opened upstream signer cfg env panic = (panic, [])

  -- `sealed_exchange`: its result, and the requests that went upstream.
  unfoldable pub sealed_exchange :
      UpstreamClient
      → SigningState
      → ConfidentialConfig
      → Environment
      → Request
      → Result (Response × Outcome) Outcome × List UpstreamRequest
  sealed_exchange upstream signer cfg env req =
      serve_opened upstream signer cfg env (open_outer c h signer cfg env req)

  -- `exchange`
  abbrev pub done_or_plaintext :
      Result (Response × Outcome) Outcome → Result (Response × Outcome) Outcome
  done_or_plaintext (ok done) = ok done
  done_or_plaintext (err outcome) = ok (plaintext_response outcome.class, outcome)
  done_or_plaintext panic = panic

  unfoldable pub exchange :
      UpstreamClient
      → SigningState
      → ConfidentialConfig
      → Environment
      → Request
      → Result (Response × Outcome) Outcome
  exchange upstream signer cfg env req =
      done_or_plaintext (sealed_exchange upstream signer cfg env req).0

  -- `confidential_exchange` and `confidential_handler`: the answer, and the line that the guard
  -- writes when it is dropped.
  unfoldable pub confidential_exchange :
      UpstreamClient
      → SigningState
      → ConfidentialConfig
      → Environment
      → Request
      → Result (Response × LogLine) Outcome
  confidential_exchange upstream signer cfg env req = do
    (resp, outcome) ← exchange upstream signer cfg env req
    ok (resp, drop_guard (some (outcome, resp.status)) env.elapsed)

-- `confidential_method_not_allowed`
unfoldable pub confidential_method_not_allowed : Response × LogLine
confidential_method_not_allowed =
    (status_response 405, log_outcome (plaintext OutcomeClass.method_not_allowed 0 0) 405 0)
