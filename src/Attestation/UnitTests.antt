-- ===== src/Attestation/UnitTests.antt =====
-- The unit tests of src/attestation.rs on its own functions, run with crypto that computes.
use verifiable_rpc_sidecar.Crates.Crypto.{Crypto}
use verifiable_rpc_sidecar.Crates.Samples.PlainCrypto.{plain_crypto}
use verifiable_rpc_sidecar.Attestation.{
  AttestationError, missing_nonce, no_compose_hash, build_report_data, parse_user_nonce,
  extract_nonce, resolve_compose_hash,
}
use verifiable_rpc_sidecar.Prelude.{
  replicate, Result, Bytes, bytes_eq, zeros, Text, codes, is_whitespace, trim, ok, err, panic, ℕ,
  zero, suc, ◌≡◌, refl, Bool, true, false, ◌&&◌, none, some, [], ◌++◌,
}

abbrev is_ok_of : Bytes → Result Bytes AttestationError → Bool
is_ok_of expected (ok bytes) = bytes_eq bytes expected
is_ok_of expected (err e) = false
is_ok_of expected panic = false

abbrev is_err : Result Bytes AttestationError → Bool
is_err (err e) = true
is_err _ = false

-- The error that says that the nonce is missing, and the one for no compose hash.
abbrev is_missing_nonce : Result Bytes AttestationError → Bool
is_missing_nonce (err missing_nonce) = true
is_missing_nonce _ = false

abbrev is_no_compose_hash : Result Text AttestationError → Bool
is_no_compose_hash (err no_compose_hash) = true
is_no_compose_hash _ = false

-- `text.repeat(n)`
abbrev repeat : ℕ → Text → Text
repeat zero text = []
repeat (suc n) text = text ++ repeat n text

abbrev report_data_layout_is_64_bytes_pubkey_nonce : Bool
report_data_layout_is_64_bytes_pubkey_nonce =
    is_ok_of (replicate 32 0xaa ++ replicate 32 0xbb)
      (build_report_data (replicate 32 0xaa) (replicate 32 0xbb))

module _ (c : Crypto) where
  abbrev given_nonce : Text → Result Bytes AttestationError
  given_nonce text = extract_nonce c (record { nonce = some text })

  abbrev parse_user_nonce_accepts_with_or_without_prefix : Bool
  parse_user_nonce_accepts_with_or_without_prefix =
      is_ok_of (zeros 32) (parse_user_nonce c (repeat 32 (codes "00")))
      && is_ok_of (zeros 32) (parse_user_nonce c (codes "0x" ++ repeat 32 (codes "00")))

  abbrev parse_user_nonce_rejects_wrong_length : Bool
  parse_user_nonce_rejects_wrong_length =
      is_err (parse_user_nonce c (codes "0x00"))
      && is_err (parse_user_nonce c (repeat 33 (codes "aa")))

  abbrev extract_nonce_errors_when_absent : Bool
  extract_nonce_errors_when_absent = is_missing_nonce (extract_nonce c (record { nonce = none }))

  abbrev extract_nonce_reads_query_parameter : Bool
  extract_nonce_reads_query_parameter =
      is_ok_of (replicate 32 0xab) (given_nonce (codes "0x" ++ repeat 32 (codes "ab")))

  abbrev extract_nonce_propagates_parse_error_for_bad_hex : Bool
  extract_nonce_propagates_parse_error_for_bad_hex = is_err (given_nonce (repeat 32 (codes "zz")))

  abbrev extract_nonce_propagates_parse_error_for_wrong_length : Bool
  extract_nonce_propagates_parse_error_for_wrong_length = is_err (given_nonce (codes "0xab"))

  abbrev extract_nonce_rejects_empty_string_value : Bool
  extract_nonce_rejects_empty_string_value = is_err (given_nonce [])

  abbrev parse_user_nonce_accepts_uppercase_hex : Bool
  parse_user_nonce_accepts_uppercase_hex =
      is_ok_of (replicate 32 0xab) (parse_user_nonce c (repeat 32 (codes "ab")))
      && is_ok_of (replicate 32 0xab) (parse_user_nonce c (repeat 32 (codes "AB")))

  abbrev parse_user_nonce_accepts_uppercase_0x_prefix : Bool
  parse_user_nonce_accepts_uppercase_0x_prefix =
      is_ok_of (replicate 32 0xcd) (parse_user_nonce c (codes "0X" ++ repeat 32 (codes "cd")))

  abbrev parse_user_nonce_rejects_odd_length_hex : Bool
  parse_user_nonce_rejects_odd_length_hex =
      is_err (parse_user_nonce c (repeat 63 (codes "a")))
      && is_err (parse_user_nonce c (codes "0x" ++ repeat 63 (codes "a")))

  abbrev parse_user_nonce_trims_surrounding_whitespace : Bool
  parse_user_nonce_trims_surrounding_whitespace =
      is_ok_of (replicate 32 0xee)
        (parse_user_nonce c (codes "  0x" ++ repeat 32 (codes "ee") ++ codes "  "))

abbrev is_hash : Text → Result Text AttestationError → Bool
is_hash expected (ok h) = bytes_eq h expected
is_hash expected (err e) = false
is_hash expected panic = false

abbrev resolve_compose_hash_returns_value_when_present : Bool
resolve_compose_hash_returns_value_when_present =
    is_hash (codes "abcd") (resolve_compose_hash (codes "abcd") false)
    && is_hash (codes "abcd") (resolve_compose_hash (codes "abcd") true)

abbrev resolve_compose_hash_errors_when_empty_and_not_allowed : Bool
resolve_compose_hash_errors_when_empty_and_not_allowed =
    is_no_compose_hash (resolve_compose_hash [] false)

abbrev resolve_compose_hash_returns_empty_when_explicitly_allowed : Bool
resolve_compose_hash_returns_empty_when_explicitly_allowed =
    is_hash [] (resolve_compose_hash [] true)

report_test : report_data_layout_is_64_bytes_pubkey_nonce ≡ true
unfolding build_report_data
report_test = refl

accepted_nonce_tests :
    (parse_user_nonce_accepts_with_or_without_prefix plain_crypto ≡ true)
    × (extract_nonce_reads_query_parameter plain_crypto ≡ true)
    × (parse_user_nonce_accepts_uppercase_hex plain_crypto ≡ true)
    × (parse_user_nonce_accepts_uppercase_0x_prefix plain_crypto ≡ true)
    × (parse_user_nonce_trims_surrounding_whitespace plain_crypto ≡ true)
unfolding extract_nonce parse_user_nonce trim is_whitespace
accepted_nonce_tests = (refl, refl, refl, refl, refl)

refused_nonce_tests :
    (parse_user_nonce_rejects_wrong_length plain_crypto ≡ true)
    × (extract_nonce_errors_when_absent plain_crypto ≡ true)
    × (extract_nonce_propagates_parse_error_for_bad_hex plain_crypto ≡ true)
    × (extract_nonce_propagates_parse_error_for_wrong_length plain_crypto ≡ true)
    × (extract_nonce_rejects_empty_string_value plain_crypto ≡ true)
    × (parse_user_nonce_rejects_odd_length_hex plain_crypto ≡ true)
unfolding extract_nonce parse_user_nonce trim is_whitespace
refused_nonce_tests = (refl, refl, refl, refl, refl, refl)

compose_hash_tests :
    (resolve_compose_hash_returns_value_when_present ≡ true)
    × (resolve_compose_hash_errors_when_empty_and_not_allowed ≡ true)
    × (resolve_compose_hash_returns_empty_when_explicitly_allowed ≡ true)
unfolding resolve_compose_hash
compose_hash_tests = (refl, refl, refl)
