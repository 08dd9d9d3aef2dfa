-- ===== src/Confidential/Errors.antt =====
-- src/confidential.rs: the error classes of an exchange, their statuses, bodies and log words.
use verifiable_rpc_sidecar.Prelude.{Bytes, Text, codes, ℕ}

abbrev pub ohttp_key_problem : Bytes
ohttp_key_problem =
    codes
      "{\"type\":\"https://iana.org/assignments/http-problem-types#ohttp-key\",\"title\":\"Oblivious HTTP key configuration not acceptable\"}"

pub data InnerError : Type 0 where
  bad_request unsupported_media_type batch_too_large upstream upstream_timeout internal : InnerError

pub data OutcomeClass : Type 0 where
  success bad_request unsupported_media_type batch_too_large : OutcomeClass
  upstream upstream_timeout internal pre_decapsulation request_too_large : OutcomeClass
  request_read_failed method_not_allowed unsealable cancelled : OutcomeClass

-- `InnerError::status`
unfoldable pub status : InnerError → ℕ
status InnerError.bad_request = 400
status InnerError.unsupported_media_type = 415
status InnerError.batch_too_large = 413
status InnerError.upstream = 502
status InnerError.upstream_timeout = 504
status InnerError.internal = 500

-- `InnerError::body`
unfoldable pub problem_body : InnerError → Bytes
problem_body InnerError.bad_request =
    codes "{\"type\":\"urn:vrpc:error:bad-request\",\"title\":\"Bad request\"}"
problem_body InnerError.unsupported_media_type =
    codes
      "{\"type\":\"urn:vrpc:error:unsupported-media-type\",\"title\":\"Unsupported media type\"}"
problem_body InnerError.batch_too_large =
    codes "{\"type\":\"urn:vrpc:error:batch-too-large\",\"title\":\"Batch too large\"}"
problem_body InnerError.upstream =
    codes "{\"type\":\"urn:vrpc:error:upstream\",\"title\":\"Upstream error\"}"
problem_body InnerError.upstream_timeout =
    codes "{\"type\":\"urn:vrpc:error:upstream-timeout\",\"title\":\"Upstream timeout\"}"
problem_body InnerError.internal =
    codes "{\"type\":\"urn:vrpc:error:internal\",\"title\":\"Internal error\"}"

-- `InnerError::class`
unfoldable pub class : InnerError → OutcomeClass
class InnerError.bad_request = OutcomeClass.bad_request
class InnerError.unsupported_media_type = OutcomeClass.unsupported_media_type
class InnerError.batch_too_large = OutcomeClass.batch_too_large
class InnerError.upstream = OutcomeClass.upstream
class InnerError.upstream_timeout = OutcomeClass.upstream_timeout
class InnerError.internal = OutcomeClass.internal

-- `OutcomeClass::as_str`
unfoldable pub as_str : OutcomeClass → Text
as_str OutcomeClass.success = codes "ok"
as_str OutcomeClass.bad_request = codes "bad-request"
as_str OutcomeClass.unsupported_media_type = codes "unsupported-media-type"
as_str OutcomeClass.batch_too_large = codes "batch-too-large"
as_str OutcomeClass.upstream = codes "upstream"
as_str OutcomeClass.upstream_timeout = codes "upstream-timeout"
as_str OutcomeClass.internal = codes "internal"
as_str OutcomeClass.pre_decapsulation = codes "pre-decapsulation"
as_str OutcomeClass.request_too_large = codes "request-too-large"
as_str OutcomeClass.request_read_failed = codes "request-read-failed"
as_str OutcomeClass.method_not_allowed = codes "method-not-allowed"
as_str OutcomeClass.unsealable = codes "unsealable"
as_str OutcomeClass.cancelled = codes "cancelled"
