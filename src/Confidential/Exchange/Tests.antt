-- ===== src/Confidential/Exchange/Tests.antt =====
-- The theorems about src/confidential.rs at concrete inputs.
use verifiable_rpc_sidecar.Crates.Samples.PlainCrypto.{plain_crypto, plain_crypto-laws}
use verifiable_rpc_sidecar.Crates.Samples.PlainHttp.{
  plain_http, plain_http-laws, plain_bhttp, plain_json,
}
use verifiable_rpc_sidecar.Crates.Http.{Request, Response, chunk}
use verifiable_rpc_sidecar.Envelope.{
  EnvelopeError, ResponseContext, confidential_suite, seal_response, response_label, public_key,
  request_info, open_suite, open_sealed, seal_buf, seal_in_place, seal_with_nonce, seal,
}
use verifiable_rpc_sidecar.Envelope
use verifiable_rpc_sidecar.Envelope.Client.{client_request, client_secret}
use verifiable_rpc_sidecar.Signing.{after_epoch, open_request, now_ms}
use verifiable_rpc_sidecar.Signing.Tests.{st, st-IsConsistent, booted, chain, h1}
use verifiable_rpc_sidecar.Proxy.{status_response}
use verifiable_rpc_sidecar.Proxy.Tests.{root, client}
use verifiable_rpc_sidecar.Confidential.Errors.{
  InnerError, OutcomeClass, problem_body, status, class,
}
use verifiable_rpc_sidecar.Confidential.Inner.{
  decode_inner, error_response, encode_response, put_content_types,
}
use verifiable_rpc_sidecar.Confidential.Outcome.{Outcome, LogLine}
use verifiable_rpc_sidecar.Confidential.InnerCall.{
  ConfidentialConfig, Environment, Sealed, run_inner, failed_call, seal_inner,
}
use verifiable_rpc_sidecar.Confidential.Exchange.{exchange, confidential_exchange}
use verifiable_rpc_sidecar.Confidential.Exchange.Plain.{Begins, FailsEarly, early_failures}
use verifiable_rpc_sidecar.Confidential.Exchange.Sent.{Opened, Sends, sealed_exchange-sent}
use verifiable_rpc_sidecar.Confidential.Exchange.Total.{confidential_exchange_answers}
use verifiable_rpc_sidecar.Confidential.Exchange.Client.{Cause, IsGenuine, client_gets}
use verifiable_rpc_sidecar.Confidential.Exchange.Ends.{Fills}
use verifiable_rpc_sidecar.Prelude.{
  length, take, drop, replicate, Bytes, zeros, codes, ok, ◌≡◌, refl, ◌⊎◌, false, none, some, [],
  ◌∷◌, ◌++◌,
}

abbrev pub outer : Bytes
outer = client_request plain_crypto st.kem_secret [] (codes "hi")

abbrev pub request : Request
request = record {
  method = codes "POST";
  uri = root;
  headers = [];
  body = record { size_lower = 0; frames = chunk outer ∷ [] };
}

abbrev cfg : ConfidentialConfig
cfg = record {
  max_request_bytes = 1000;
  max_response_bytes = 1000;
  max_batch_size = 10;
  upstream_timeout_ms = 25000;
}

abbrev pub env : Environment
env = record {
  getrandom = some (zeros 32);
  clock_before = after_epoch 699;
  clock_after = after_epoch 700;
  net = λ u. none;
  timed_out = false;
  upstream_elapsed = 3;
  elapsed = 4;
}

abbrev ctx : ResponseContext
ctx = record {
  enc = take 32 (drop 7 outer);
  secret = client_secret plain_crypto st.kem_secret [];
  secret_len = 32;
  seal = seal_response plain_crypto confidential_suite;
}

opens : open_request plain_crypto st outer ≡ ok (codes "hi", ctx)
unfolding open_request Envelope.open_request open_suite open_sealed request_info
opens = refl

abbrev opened : Opened plain_crypto plain_http st cfg env request outer (codes "hi") ctx (zeros 32)
opened = record {
  read = refl;
  opens = opens;
  nonce_eq = refl;
  now = 699;
  clock = unfold now_ms in refl;
}

abbrev sealed : Sealed
sealed = record {
  class = OutcomeClass.bad_request;
  inner_status = 400;
  body = zeros 32 ++ (problem_body InnerError.bad_request ++ replicate 16 1);
}

sealed_run :
    seal_inner plain_bhttp ctx
      (zeros 32)
      (run_inner plain_http plain_bhttp plain_json client cfg env (codes "hi")).result
    ≡ ok sealed
unfolding problem_body seal_inner run_inner decode_inner failed_call encode_response
    put_content_types error_response status class seal seal_with_nonce seal_in_place seal_buf
    seal_response
sealed_run = refl

sealed_exchange-sent_example :
    Sends plain_crypto plain_http plain_bhttp plain_json client st cfg env request
sealed_exchange-sent_example =
    sealed_exchange-sent plain_crypto plain_http plain_bhttp plain_json client st cfg env request

abbrev no_random : Environment
no_random = record env { getrandom = none }

early_failures_example :
    Begins plain_crypto plain_http plain_bhttp plain_json client st cfg no_random request
    ⊎ FailsEarly plain_crypto plain_http plain_bhttp plain_json client st cfg no_random request
early_failures_example =
    early_failures plain_crypto plain_http plain_bhttp plain_json client st cfg no_random request

pub fills : Fills env
fills nonce e = rw (zeros_of e) refl
  where
    zeros_of : {n : Bytes} → some (zeros 32) ≡ some n → n ≡ zeros 32
    zeros_of h = cc

confidential_exchange_answers_example :
    (resp : Response) × (line : LogLine) × (confidential_exchange plain_crypto plain_http
        plain_bhttp plain_json client st cfg env request
      ≡ ok (resp, line))
    × (line.status ≡ resp.status)
    × ((resp ≡ status_response 500) ⊎ (line.response_bytes ≡ length resp.body))
confidential_exchange_answers_example =
    confidential_exchange_answers plain_crypto plain_crypto-laws plain_http plain_http-laws
      plain_bhttp plain_json client st st-IsConsistent cfg env fills request

client_gets_example :
    (resp : Response) × (o : Outcome) × (exchange plain_crypto plain_http plain_bhttp plain_json
        client st cfg env request
      ≡ ok (resp, o))
    × (((resp ≡ status_response 500)
          × Cause plain_crypto plain_crypto-laws plain_http plain_http-laws plain_bhttp plain_json
              client h1 chain st booted cfg env fills request []
              (codes "hi"))
        ⊎ IsGenuine plain_crypto plain_crypto-laws plain_http plain_http-laws plain_bhttp plain_json
            client h1 chain st booted cfg env fills request []
            (codes "hi")
            resp)
client_gets_example =
    client_gets plain_crypto plain_crypto-laws plain_http plain_http-laws plain_bhttp plain_json
      client h1 chain st booted cfg env fills request [] (codes "hi") refl
