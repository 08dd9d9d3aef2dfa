-- ===== src/Configuration/Tests.antt =====
-- The unit tests of src/config.rs, run against the definitions, and the theorem about the limits at
-- concrete arguments.
use verifiable_rpc_sidecar.Crates.Samples.PlainCrypto.{plain_crypto}
use verifiable_rpc_sidecar.Crates.Samples.PlainHttp.{plain_http}
use verifiable_rpc_sidecar.Signing.{validate_chain_id}
use verifiable_rpc_sidecar.Configuration.{
  Config, Arguments, ConfigError, is_batch_size, is_timeout, parse_unsigned, try_parse,
  listen_addr_arg, upstream_url_arg, chain_id_arg, key_path_arg, max_body_bytes_arg,
  confidential_max_body_bytes_arg, confidential_max_response_bytes_arg,
  confidential_max_batch_size_arg, confidential_upstream_timeout_secs_arg,
  allow_empty_compose_hash_arg,
}
use verifiable_rpc_sidecar.Configuration.Limits.{ServesWithin, started-ServesWithin}
use verifiable_rpc_sidecar.Server.Tests.{agent, config}
use verifiable_rpc_sidecar.Server.Serve.Tests.{app, app_started}
use verifiable_rpc_sidecar.Prelude.{
  ◌==◌, if◌then◌else◌, Result, bytes_eq, Text, codes, is_whitespace, is_ascii_graphic, encode_utf8,
  as_bytes, trim, ok, err, panic, ℕ, ◌≡◌, refl, Bool, true, false, ◌&&◌, Option, none, some, List,
  [], ◌∷◌, ◌++◌,
}

-- Flags with their values.
abbrev flag_of : List (Text × Text) → Text → Option Text
flag_of [] name = none
flag_of ((flag, value) ∷ rest) name =
    let found = flag_of rest name in if bytes_eq flag name then some value else found

abbrev command_line : List (Text × Text) → Arguments
command_line flags = record { flag = flag_of flags; env = λ name. none }

-- `ARGS`
abbrev test_args : List (Text × Text)
test_args =
    (codes "upstream-url", codes "http://127.0.0.1:1")
    ∷ (codes "chain-id", codes "1")
    ∷ (codes "max-body-bytes", codes "16")
    ∷ []

abbrev parse_with : List (Text × Text) → Result Config ConfigError
parse_with extra = try_parse some (command_line (test_args ++ extra))

-- Whether a parse succeeds with a test.
abbrev accepts : (Config → Bool) → Result Config ConfigError → Bool
accepts test (ok config) = test config
accepts test (err e) = false
accepts test panic = false

abbrev is_err : Result Config ConfigError → Bool
is_err (err e) = true
is_err _ = false

abbrev is_some_of : ℕ → Option ℕ → Bool
is_some_of n none = false
is_some_of n (some m) = m == n

abbrev confidential_cap_defaults_to_8_mib_independent_of_max_body_bytes : Bool
confidential_cap_defaults_to_8_mib_independent_of_max_body_bytes =
    accepts (λ c. c.confidential_max_body_bytes == 8388608 && is_some_of 16 c.max_body_bytes)
      (parse_with [])
    && accepts (λ c. c.confidential_max_body_bytes == 100)
        (parse_with ((codes "confidential-max-body-bytes", codes "100") ∷ []))

abbrev batch_of : Text → Result Config ConfigError
batch_of value = parse_with ((codes "confidential-max-batch-size", value) ∷ [])

abbrev confidential_max_batch_size_defaults_to_1000_within_1_to_1000 : Bool
confidential_max_batch_size_defaults_to_1000_within_1_to_1000 =
    accepts (λ c. c.confidential_max_batch_size == 1000) (parse_with [])
    && accepts (λ c. c.confidential_max_batch_size == 1) (batch_of (codes "1"))
    && accepts (λ c. c.confidential_max_batch_size == 1000) (batch_of (codes "1000"))
    && is_err (batch_of (codes "0"))
    && is_err (batch_of (codes "1001"))
    && is_err (batch_of (codes "5000"))
    && is_err (batch_of (codes "-1"))
    && is_err (batch_of (codes "x"))

abbrev timeout_of : Text → Result Config ConfigError
timeout_of value = parse_with ((codes "confidential-upstream-timeout-secs", value) ∷ [])

abbrev confidential_upstream_timeout_defaults_to_25_s : Bool
confidential_upstream_timeout_defaults_to_25_s =
    accepts (λ c. c.confidential_upstream_timeout_secs == 25) (parse_with [])
    && is_err (timeout_of (codes "0"))
    && accepts (λ c. c.confidential_upstream_timeout_secs == 1) (timeout_of (codes "1"))

abbrev confidential_response_cap_defaults_to_128_mib_independent_of_max_body_bytes : Bool
confidential_response_cap_defaults_to_128_mib_independent_of_max_body_bytes =
    accepts (λ c. c.confidential_max_response_bytes == 134217728 && is_some_of 16 c.max_body_bytes)
      (parse_with [])
    && accepts (λ c. c.confidential_max_response_bytes == 13)
        (parse_with ((codes "confidential-max-response-bytes", codes "13") ∷ []))

cap_passes : confidential_cap_defaults_to_8_mib_independent_of_max_body_bytes ≡ true
unfolding try_parse parse_unsigned is_batch_size is_timeout validate_chain_id trim as_bytes
    encode_utf8 is_whitespace is_ascii_graphic listen_addr_arg upstream_url_arg chain_id_arg
    key_path_arg max_body_bytes_arg confidential_max_body_bytes_arg
    confidential_max_response_bytes_arg confidential_max_batch_size_arg
    confidential_upstream_timeout_secs_arg allow_empty_compose_hash_arg
cap_passes = refl

batch_size_passes : confidential_max_batch_size_defaults_to_1000_within_1_to_1000 ≡ true
unfolding try_parse parse_unsigned is_batch_size is_timeout validate_chain_id trim as_bytes
    encode_utf8 is_whitespace is_ascii_graphic listen_addr_arg upstream_url_arg chain_id_arg
    key_path_arg max_body_bytes_arg confidential_max_body_bytes_arg
    confidential_max_response_bytes_arg confidential_max_batch_size_arg
    confidential_upstream_timeout_secs_arg allow_empty_compose_hash_arg
batch_size_passes = refl

timeout_passes : confidential_upstream_timeout_defaults_to_25_s ≡ true
unfolding try_parse parse_unsigned is_batch_size is_timeout validate_chain_id trim as_bytes
    encode_utf8 is_whitespace is_ascii_graphic listen_addr_arg upstream_url_arg chain_id_arg
    key_path_arg max_body_bytes_arg confidential_max_body_bytes_arg
    confidential_max_response_bytes_arg confidential_max_batch_size_arg
    confidential_upstream_timeout_secs_arg allow_empty_compose_hash_arg
timeout_passes = refl

response_cap_passes :
    confidential_response_cap_defaults_to_128_mib_independent_of_max_body_bytes ≡ true
unfolding try_parse parse_unsigned is_batch_size is_timeout validate_chain_id trim as_bytes
    encode_utf8 is_whitespace is_ascii_graphic listen_addr_arg upstream_url_arg chain_id_arg
    key_path_arg max_body_bytes_arg confidential_max_body_bytes_arg
    confidential_max_response_bytes_arg confidential_max_batch_size_arg
    confidential_upstream_timeout_secs_arg allow_empty_compose_hash_arg
response_cap_passes = refl

abbrev arguments : Arguments
arguments =
    command_line ((codes "upstream-url", codes "http://n") ∷ (codes "chain-id", codes "1") ∷ [])

accepted : try_parse some arguments ≡ ok config
unfolding try_parse parse_unsigned is_batch_size is_timeout validate_chain_id trim as_bytes
    encode_utf8 is_whitespace is_ascii_graphic listen_addr_arg upstream_url_arg chain_id_arg
    key_path_arg max_body_bytes_arg confidential_max_body_bytes_arg
    confidential_max_response_bytes_arg confidential_max_batch_size_arg
    confidential_upstream_timeout_secs_arg allow_empty_compose_hash_arg
accepted = refl

started-ServesWithin_example : ServesWithin arguments app
started-ServesWithin_example =
    started-ServesWithin arguments some plain_crypto agent plain_http config app accepted
      app_started
