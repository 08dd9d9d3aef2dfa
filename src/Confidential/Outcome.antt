-- ===== src/Confidential/Outcome.antt =====
-- src/confidential.rs: what a call ends in, its plaintext answers and its log line.
use verifiable_rpc_sidecar.Crates.Http.{Response}
use verifiable_rpc_sidecar.Proxy.{status_response}
use verifiable_rpc_sidecar.Confidential.Errors.{
  OutcomeClass, status, class, as_str, ohttp_key_problem,
}
use verifiable_rpc_sidecar.Confidential.Inner.{batch_size}
use verifiable_rpc_sidecar.Prelude.{
  leb, ◌==◌, if◌then◌else◌, u64_max, Text, codes, ℕ, ◌||◌, Option, none, some, [], ◌∷◌,
}

pub record Outcome : Type 0 where
  pub class : OutcomeClass
  pub inner_status : ℕ
  pub batch_size : ℕ
  pub request_bytes : ℕ
  pub response_bytes : ℕ
  pub upstream_ms : ℕ

-- `Outcome::plaintext`
unfoldable pub plaintext : OutcomeClass → ℕ → ℕ → Outcome
plaintext class request_bytes response_bytes = record {
  class = class;
  inner_status = 0;
  batch_size = 0;
  request_bytes = request_bytes;
  response_bytes = response_bytes;
  upstream_ms = 0;
}

-- The fields of the line that `log_outcome` writes.
pub record LogLine : Type 0 where
  pub outcome : Text
  pub status : ℕ
  pub inner_status : ℕ
  pub batch_size : ℕ
  pub request_bytes : ℕ
  pub response_bytes : ℕ
  pub upstream_ms : ℕ
  pub total_ms : ℕ

unfoldable pub log_outcome : Outcome → ℕ → ℕ → LogLine
log_outcome o status total_ms = record {
  outcome = as_str o.class;
  status = status;
  inner_status = o.inner_status;
  batch_size = o.batch_size;
  request_bytes = o.request_bytes;
  response_bytes = o.response_bytes;
  upstream_ms = o.upstream_ms;
  total_ms = total_ms;
}

-- `millis`, of a duration's milliseconds (a u128)
unfoldable pub millis : ℕ → ℕ
millis ms = if leb ms u64_max then ms else u64_max

unfoldable pub pre_decapsulation_error : Response
pre_decapsulation_error = record {
  status = 400;
  headers = (codes "content-type", codes "application/problem+json") ∷ [];
  body = ohttp_key_problem;
}

unfoldable pub plaintext_500 : Response
plaintext_500 = status_response 500

-- 204, 205 and 304 admit no body.
unfoldable pub outer_status : ℕ → ℕ
outer_status inner_status =
    if inner_status == 204 || inner_status == 205 || inner_status == 304 then 200 else inner_status

unfoldable pub plaintext_response : OutcomeClass → Response
plaintext_response OutcomeClass.request_too_large = status_response 413
plaintext_response OutcomeClass.request_read_failed = status_response 400
plaintext_response OutcomeClass.pre_decapsulation = pre_decapsulation_error
plaintext_response _ = plaintext_500

unfoldable pub unsealable : ℕ → ℕ → ℕ → Outcome
unsealable request_bytes batch_size upstream_ms =
    record (plaintext OutcomeClass.unsealable request_bytes 0) {
      batch_size = batch_size;
      upstream_ms = upstream_ms;
    }

-- What `OutcomeGuard` holds when it is dropped: nothing if the call was dropped mid-flight.
unfoldable pub drop_guard : Option (Outcome × ℕ) → ℕ → LogLine
drop_guard none elapsed = log_outcome (plaintext OutcomeClass.cancelled 0 0) 0 (millis elapsed)
drop_guard (some (outcome, status)) elapsed = log_outcome outcome status (millis elapsed)
