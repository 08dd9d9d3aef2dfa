-- ===== src/Server/Process/Tests.antt =====
-- The theorems about a process of src/server.rs at concrete inputs: two calls whose wake-ups are
-- interleaved, and one that is dropped.
use verifiable_rpc_sidecar.Crates.Samples.PlainCrypto.{plain_crypto, plain_crypto-laws}
use verifiable_rpc_sidecar.Crates.Samples.PlainHttp.{
  plain_http, plain_http-laws, plain_bhttp, plain_json,
}
use verifiable_rpc_sidecar.Crates.Samples.PlainAxum.{plain_axum, plain_axum-laws}
use verifiable_rpc_sidecar.Crates.Http.{Response}
use verifiable_rpc_sidecar.Envelope
use verifiable_rpc_sidecar.Envelope.{
  open_suite, open_sealed, request_info, seal, seal_in_place, seal_buf, seal_response,
  seal_with_nonce,
}
use verifiable_rpc_sidecar.Signing.{
  SignedResponse, open_request, now_ms, sign, sign_with_timestamp, build_pre_image,
}
use verifiable_rpc_sidecar.Attestation.{extract_nonce}
use verifiable_rpc_sidecar.Proxy.{
  status_response, upstream_request, upstream_uri, origin_path_and_query, origin_uri, is_hop_by_hop,
  body_cap, collect_request, collect_upstream_response, sign_or_500,
}
use verifiable_rpc_sidecar.Proxy.Task as Proxy
use verifiable_rpc_sidecar.Confidential.Errors.{problem_body, status, class}
use verifiable_rpc_sidecar.Confidential.Inner.{
  decode_inner, error_response, encode_response, put_content_types,
}
use verifiable_rpc_sidecar.Confidential.InnerCall.{failed_call, seal_inner}
use verifiable_rpc_sidecar.Confidential.Exchange.{open_outer, read_outer, answer}
use verifiable_rpc_sidecar.Confidential.Exchange.Tests.{env as private_env, fills as private_fills}
use verifiable_rpc_sidecar.Confidential.Task as Confidential
use verifiable_rpc_sidecar.Confidential.Task.{ready, timer, drop_after}
use verifiable_rpc_sidecar.Confidential.Task.Ends.{timing}
use verifiable_rpc_sidecar.Server.{route, confidential_config}
use verifiable_rpc_sidecar.Server.Tests.{agent, config}
use verifiable_rpc_sidecar.Server.Serve.Tests.{
  app, app_started, env, request, pong, sent, query, att, private_request, built, to_proxy,
  not_head, read, whole, unsigned, attested, to_confidential, received,
}
use verifiable_rpc_sidecar.Server.Serve.Private.{IsAnswer, Arrives}
use verifiable_rpc_sidecar.Server.Serve.Signed.{IsVerified}
use verifiable_rpc_sidecar.Server.Process.{
  Call, answered, Slot, Process, Event, arrives, wakes, idle, after, step, wake_call,
}
use verifiable_rpc_sidecar.Server.Process.Answers.{IsServed}
use verifiable_rpc_sidecar.Server.Process.Schedule.{process_serves}
use verifiable_rpc_sidecar.Server.Process.Client.{process_private, process_attested}
use verifiable_rpc_sidecar.Prelude.{
  Bytes, le_bytes, codes, ok, ◌≡◌, refl, Bool, Option, none, some, List, [], ◌∷◌, ◌++◌, arith,
}

abbrev events : List Event
events =
    arrives private_env private_request
    ∷ arrives env request
    ∷ arrives env private_request
    ∷ wakes 0 ready
    ∷ wakes 1 ready
    ∷ wakes 1 ready
    ∷ wakes 2 ready
    ∷ wakes 1 timer
    ∷ wakes 0 ready
    ∷ wakes 2 (drop_after 9)
    ∷ wakes 1 ready
    ∷ wakes 1 ready
    ∷ wakes 7 ready
    ∷ []

abbrev served : Process plain_bhttp
served =
    after plain_crypto agent plain_http plain_bhttp plain_json plain_axum app (idle plain_bhttp)
      events

abbrev answer_of : Option (Slot plain_bhttp) → Response
answer_of none = status_response 0
answer_of (some slot) = of_call slot.call
  where
    of_call : Call plain_bhttp → Response
    of_call (answered resp) = resp
    of_call _ = status_response 0

abbrev private_slot : Slot plain_bhttp
private_slot = record {
  env = private_env;
  req = private_request;
  call = answered (answer_of (served.calls 0));
}

abbrev slot : Slot plain_bhttp
slot = record { env = env; req = request; call = answered (answer_of (served.calls 1)) }

-- Both have ended with a response.
there : (served.calls 0 ≡ some private_slot) × (served.calls 1 ≡ some slot)
unfolding after step idle route wake_call Confidential.wake Proxy.wake open_outer read_outer
    open_request Envelope.open_request open_suite open_sealed request_info now_ms decode_inner
    failed_call answer seal_inner problem_body encode_response put_content_types error_response
    status class seal seal_with_nonce seal_in_place seal_buf seal_response sign sign_with_timestamp
    build_pre_image le_bytes collect_request collect_upstream_response body_cap upstream_request
    upstream_uri origin_path_and_query origin_uri is_hop_by_hop sign_or_500 confidential_config
there = (refl, refl)

process_private_example :
    (t : Bool) × (resp : Response) × IsAnswer plain_crypto plain_crypto-laws agent plain_http
      plain_http-laws plain_bhttp plain_json plain_axum plain_axum-laws config app app_started
      (timing private_env t)
      private_fills
      private_request
      []
      (codes "hi")
      resp
    × Arrives plain_crypto plain_crypto-laws agent plain_http plain_http-laws plain_bhttp plain_json
        plain_axum plain_axum-laws config app app_started
        (timing private_env t)
        private_fills
        private_request
        []
        (codes "hi")
        query
        att
        resp
        (answer_of (served.calls 0))
process_private_example =
    process_private plain_crypto plain_crypto-laws agent plain_http plain_http-laws plain_bhttp
      plain_json plain_axum plain_axum-laws config app app_started events 0 private_slot
      (answer_of (served.calls 0)) private_fills [] (codes "hi") query att there.0 refl
      to_confidential not_head received attested

process_attested_example :
    (r : SignedResponse) × (nonce : Bytes) × IsVerified plain_crypto plain_crypto-laws agent
      plain_http plain_http-laws plain_bhttp plain_json plain_axum plain_axum-laws env request
      config.chain_id att.pubkey
      (codes "ping")
      pong
      (codes "pong")
      r
      (answer_of (served.calls 1))
    × (r.timestamp_ms ≡ 700)
    × (extract_nonce plain_crypto query ≡ ok nonce)
    × (agent.get_quote (r.pubkey ++ nonce) ≡ some att.quote)
process_attested_example =
    process_attested plain_crypto plain_crypto-laws agent plain_http plain_http-laws plain_bhttp
      plain_json plain_axum plain_axum-laws config app app_started events 1 slot
      (answer_of (served.calls 1)) (codes "ping") (codes "pong") sent pong 700 query att there.1
      refl to_proxy not_head read built refl unsigned whole (refl, omega arith) attested

process_serves_example :
    IsServed plain_crypto agent plain_http plain_bhttp plain_json plain_axum app env request
      (answer_of (served.calls 1))
process_serves_example =
    process_serves plain_crypto agent plain_http plain_bhttp plain_json plain_axum app events 1 slot
      (answer_of (served.calls 1)) there.1 refl
