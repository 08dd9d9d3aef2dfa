-- ===== src/Proxy/Task.antt =====
-- src/proxy.rs as it is polled: `forward` is a future that stops at each await of its pipeline and
-- may be dropped there.
pub mod Ends
pub mod Progress
mod Tests
use verifiable_rpc_sidecar.Crates.Crypto.{Crypto}
use verifiable_rpc_sidecar.Crates.Http.{Request, UpstreamRequest, UpstreamResponse, Response, Http}
use verifiable_rpc_sidecar.Signing.{SigningState, SignedResponse, Reading}
use verifiable_rpc_sidecar.Proxy.{
  UpstreamClient, Net, body_cap, upstream_request, collect_request, collect_upstream_response,
  sign_or_500, build_signed_response, status_response,
}
use verifiable_rpc_sidecar.Prelude.{
  Result, Bytes, ok, err, panic, Option, none, some, List, [], ◌∷◌, ◌++◌,
}

-- Where a request is: not polled yet, at the await of its body, of the upstream's answer, of that
-- answer's body, or at its end.
pub data Task : Type 0 where
  created collecting dropped panicked : Task
  sending : Bytes → UpstreamRequest → Task
  relaying : Bytes → UpstreamResponse → Task
  finished : Response → Task

-- What the executor does to a request: it polls it when what it awaits is ready, or drops it.
pub data Wake : Type 0 where
  ready dropping : Wake

module _ (c : Crypto) (h : Http) (client : UpstreamClient) (net : Net) (clock : Reading)
    (signer : SigningState) (req : Request) where
  -- `send_upstream` up to its await, with the request that goes to the pool
  abbrev pub start_send : Bytes → Result UpstreamRequest Response → Task × List UpstreamRequest
  start_send request_bytes (ok up_req) = (sending request_bytes up_req, up_req ∷ [])
  start_send request_bytes (err early) = (finished early, [])
  start_send request_bytes panic = (panicked, [])

  -- `run_pipeline` behind `collect_request`
  abbrev pub start_request : Result Bytes Response → Task × List UpstreamRequest
  start_request (ok request_bytes) =
      start_send request_bytes (upstream_request h client req request_bytes)
  start_request (err early) = (finished early, [])
  start_request panic = (panicked, [])

  -- `run_pipeline` behind `send_upstream`
  abbrev pub start_relay : Bytes → Option UpstreamResponse → Task × List UpstreamRequest
  start_relay request_bytes none = (finished (status_response 502), [])
  start_relay request_bytes (some up_resp) = (relaying request_bytes up_resp, [])

  abbrev pub signed_end : UpstreamResponse → Bytes → Result SignedResponse Response → Task
  signed_end up_resp response_bytes (ok signed) =
      finished (build_signed_response c h up_resp response_bytes signed)
  signed_end up_resp response_bytes (err early) = finished early
  signed_end up_resp response_bytes panic = panicked

  -- `run_pipeline` behind `collect_upstream_response`
  abbrev pub relay_end : Bytes → UpstreamResponse → Result Bytes Response → Task
  relay_end request_bytes up_resp (ok response_bytes) =
      signed_end up_resp response_bytes (sign_or_500 c signer request_bytes response_bytes clock)
  relay_end request_bytes up_resp (err early) = finished early
  relay_end request_bytes up_resp panic = panicked

  -- What one wake-up makes of a request, and what it sends. A request that ended is not woken.
  unfoldable pub wake : Task → Wake → Task × List UpstreamRequest
  wake created ready = (collecting, [])
  wake collecting ready = start_request (collect_request h req (body_cap client.max_body_bytes))
  wake (sending request_bytes up_req) ready = start_relay request_bytes (net up_req)
  wake (relaying request_bytes up_resp) ready = (
    relay_end request_bytes up_resp
        (collect_upstream_response h up_resp (body_cap client.max_body_bytes)),
    [],
  )
  wake created dropping = (dropped, [])
  wake collecting dropping = (dropped, [])
  wake (sending request_bytes up_req) dropping = (dropped, [])
  wake (relaying request_bytes up_resp) dropping = (dropped, [])
  wake task _ = (task, [])

  -- A request under a sequence of wake-ups: where it is left, and all that it sent.
  unfoldable pub run : Task → List Wake → Task × List UpstreamRequest
  run task [] = (task, [])
  run task (w ∷ ws) =
      let (task', sent) = wake task w in
      let (task'', later) = run task' ws in (task'', sent ++ later)
