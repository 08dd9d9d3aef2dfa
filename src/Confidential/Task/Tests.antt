-- ===== src/Confidential/Task/Tests.antt =====
-- The theorems about the polled calls of src/confidential.rs at concrete inputs.
use verifiable_rpc_sidecar.Crates.Samples.PlainCrypto.{plain_crypto}
use verifiable_rpc_sidecar.Crates.Samples.PlainHttp.{plain_http, plain_bhttp, plain_json}
use verifiable_rpc_sidecar.Crates.Http.{Request, Response, UpstreamResponse, chunk, trailers}
use verifiable_rpc_sidecar.Envelope
use verifiable_rpc_sidecar.Envelope.{
  open_suite, open_sealed, request_info, seal, seal_in_place, seal_buf, seal_response,
  seal_with_nonce,
}
use verifiable_rpc_sidecar.Envelope.Client.{client_request}
use verifiable_rpc_sidecar.Signing.{
  open_request, now_ms, sign, sign_with_timestamp, build_pre_image,
}
use verifiable_rpc_sidecar.Signing.Tests.{st}
use verifiable_rpc_sidecar.Proxy.{origin_path_and_query, origin_uri, status_response}
use verifiable_rpc_sidecar.Proxy.Tests.{client}
use verifiable_rpc_sidecar.Confidential.Inner.{
  decode_inner, decode_framed, inner_method, inner_path, inner_fields, inner_field, field_value,
  batch_size, encode_with_nonce, visit_seq, extend,
}
use verifiable_rpc_sidecar.Confidential.Framing.{
  check_field_sections, skip_parts, check_sections, skip, take_varint,
}
use verifiable_rpc_sidecar.Confidential.Inner.Tests.{framed}
use verifiable_rpc_sidecar.Confidential.Upstream.{
  read_frames, read_upstream, inner_upstream_request, call_upstream,
}
use verifiable_rpc_sidecar.Confidential.Outcome.{LogLine, drop_guard}
use verifiable_rpc_sidecar.Confidential.InnerCall.{
  ConfidentialConfig, Environment, seal_inner, run_inner,
}
use verifiable_rpc_sidecar.Confidential.Exchange.{
  open_outer, read_outer, answer, exchange, sealed_exchange, confidential_exchange,
}
use verifiable_rpc_sidecar.Confidential.Exchange.Tests.{request, env}
use verifiable_rpc_sidecar.Confidential.Task.{
  Task, created, finished, Wake, ready, timer, drop_after, Output, sends, logs, run, wake,
}
use verifiable_rpc_sidecar.Confidential.Task.Ends.{timing}
use verifiable_rpc_sidecar.Confidential.Task.Runs.{run_refines}
use verifiable_rpc_sidecar.Confidential.Task.Progress.{run_answers}
use verifiable_rpc_sidecar.Confidential.Task.Guard.{Traced, run-Traced}
use verifiable_rpc_sidecar.Prelude.{
  le_bytes, codes, eq_ignore_ascii_case, ok, ◌≡◌, refl, Bool, false, none, some, map, List, [], ◌∷◌,
  ◌++◌,
}

abbrev cfg : ConfidentialConfig
cfg = record {
  max_request_bytes = 1000;
  max_response_bytes = 1000;
  max_batch_size = 10;
  upstream_timeout_ms = 25000;
}

abbrev pong : UpstreamResponse
pong = record {
  status = 200;
  headers = (codes "content-type", codes "application/json") ∷ [];
  body = record {
    size_lower = 4;
    frames = chunk (codes "po") ∷ trailers [] ∷ chunk (codes "ng") ∷ [];
  };
}

abbrev answering : Environment
answering = record env { net = λ u. some pong }

-- An outer request whose inner request is accepted.
abbrev accepted : Request
accepted = record request {
  body = record {
    size_lower = 0;
    frames = chunk (client_request plain_crypto st.kem_secret [] (0 ∷ framed)) ∷ [];
  };
}

abbrev ran : List Wake → Task plain_bhttp × List Output
ran = run plain_crypto plain_http plain_bhttp plain_json client st cfg answering accepted created

-- Polls, with a timer that is early, to the end.
abbrev polls : List Wake
polls = ready ∷ timer ∷ ready ∷ ready ∷ ready ∷ ready ∷ ready ∷ ready ∷ []

abbrev answer_of : Task plain_bhttp → Response
answer_of (finished resp) = resp
answer_of _ = status_response 0

abbrev line_of : List Output → LogLine
line_of (logs line ∷ out) = line
line_of (sends up_req ∷ logs line ∷ out) = line
line_of _ = drop_guard none 0

abbrev served : Response
served = answer_of (ran polls).0

abbrev line : LogLine
line = line_of (ran polls).1

ran_to_end : ran polls ≡ (finished served, (ran polls).1)
unfolding run wake open_outer read_outer open_request Envelope.open_request open_suite open_sealed
    request_info now_ms decode_inner decode_framed check_field_sections skip_parts check_sections
    skip take_varint inner_method inner_path inner_fields inner_field field_value
    eq_ignore_ascii_case batch_size visit_seq inner_upstream_request origin_path_and_query
    origin_uri read_frames answer seal_inner encode_with_nonce seal_in_place seal_buf sign
    sign_with_timestamp build_pre_image le_bytes extend seal_response
ran_to_end = refl

run_refines_example :
    (t : Bool) × (l : LogLine) × (confidential_exchange plain_crypto plain_http plain_bhttp
        plain_json client st cfg
        (timing answering t)
        accepted
      ≡ ok (served, l))
    × ((ran polls).1
        ≡ map sends
            (sealed_exchange plain_crypto plain_http plain_bhttp plain_json client st cfg
              (timing answering t)
              accepted).1
          ++ logs l ∷ [])
run_refines_example =
    run_refines plain_crypto plain_http plain_bhttp plain_json client st cfg answering accepted
      polls served (ran polls).1 ran_to_end

answered :
    confidential_exchange plain_crypto plain_http plain_bhttp plain_json client st cfg
      (timing answering false)
      accepted
    ≡ ok (served, line)
unfolding confidential_exchange exchange sealed_exchange run wake open_outer read_outer open_request
    Envelope.open_request open_suite open_sealed request_info now_ms decode_inner decode_framed
    check_field_sections skip_parts check_sections skip take_varint inner_method inner_path
    inner_fields inner_field field_value eq_ignore_ascii_case batch_size visit_seq
    inner_upstream_request origin_path_and_query origin_uri read_frames answer seal_inner
    encode_with_nonce seal_in_place seal_buf sign sign_with_timestamp build_pre_image le_bytes
    run_inner call_upstream read_upstream extend seal_response
answered = refl

run_answers_example :
    (ws : List Wake) × (ran ws ≡ (
      finished served,
      map sends
            (sealed_exchange plain_crypto plain_http plain_bhttp plain_json client st cfg
              (timing answering false)
              accepted).1
          ++ logs line ∷ [],
    ))
run_answers_example =
    run_answers plain_crypto plain_http plain_bhttp plain_json client st cfg answering accepted
      false served line answered

-- Dropped while the answer of the upstream is read.
abbrev dropped_midway : List Wake
dropped_midway = ready ∷ ready ∷ ready ∷ ready ∷ drop_after 12 ∷ ready ∷ []

run-Traced_example :
    Traced plain_crypto plain_http plain_bhttp plain_json client st cfg answering accepted
      (ran dropped_midway).0
      (ran dropped_midway).1
run-Traced_example =
    run-Traced plain_crypto plain_http plain_bhttp plain_json client st cfg answering accepted
      dropped_midway
