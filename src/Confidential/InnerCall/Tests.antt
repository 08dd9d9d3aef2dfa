-- ===== src/Confidential/InnerCall/Tests.antt =====
-- The theorem about the ways of an inner call of src/confidential.rs at a concrete input.
use verifiable_rpc_sidecar.Crates.Samples.PlainHttp.{
  plain_http, plain_http-laws, plain_bhttp, plain_json,
}
use verifiable_rpc_sidecar.Crates.Http.{UpstreamResponse, chunk}
use verifiable_rpc_sidecar.Signing.{after_epoch}
use verifiable_rpc_sidecar.Proxy.Tests.{client}
use verifiable_rpc_sidecar.Confidential.Inner.Tests.{framed}
use verifiable_rpc_sidecar.Confidential.InnerCall.{
  ConfidentialConfig, Environment, InnerCall, run_inner,
}
use verifiable_rpc_sidecar.Confidential.InnerCall.Ways.{Ways, run_inner-Ways}
use verifiable_rpc_sidecar.Prelude.{zeros, codes, false, some, [], ◌∷◌}

abbrev cfg : ConfidentialConfig
cfg = record {
  max_request_bytes = 1000;
  max_response_bytes = 1000;
  max_batch_size = 10;
  upstream_timeout_ms = 25000;
}

abbrev pong : UpstreamResponse
pong = record {
  status = 200;
  headers = (codes "content-type", codes "application/json") ∷ [];
  body = record { size_lower = 4; frames = chunk (codes "pong") ∷ [] };
}

abbrev env : Environment
env = record {
  getrandom = some (zeros 32);
  clock_before = after_epoch 699;
  clock_after = after_epoch 700;
  net = λ u. some pong;
  timed_out = false;
  upstream_elapsed = 3;
  elapsed = 4;
}

abbrev call : InnerCall plain_bhttp
call = run_inner plain_http plain_bhttp plain_json client cfg env (0 ∷ framed)

run_inner-Ways_example :
    Ways plain_http plain_http-laws plain_bhttp plain_json client cfg env
      (0 ∷ framed)
      call.result
      call.batch_size
      call.sent
run_inner-Ways_example =
    run_inner-Ways plain_http plain_http-laws plain_bhttp plain_json client cfg env (0 ∷ framed)
