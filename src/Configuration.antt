-- ===== src/Configuration.antt =====
-- src/config.rs: the configuration, and how it is parsed from the command line and the environment.
pub mod Limits
mod Tests
use verifiable_rpc_sidecar.Signing.{SigningError, validate_chain_id}
use verifiable_rpc_sidecar.Prelude.{
  leb, ◌==◌, if◌then◌else◌, Result, ◌>>=◌, ◌>>◌, ok_or, to_option, bytes_eq, u64_max, Text, codes,
  ok, err, ℕ, ◌+◌, ◌-◌, ◌*◌, ◌^◌, Bool, true, false, ◌&&◌, Option, none, some, [], ◌∷◌,
}

-- `Config`, as clap has parsed it; a socket address is its text.
pub record Config : Type 0 where
  pub listen_addr : Text
  pub upstream_url : Text
  pub chain_id : Text
  pub dstack_endpoint : Option Text
  pub key_path : Text
  pub key_purpose : Option Text
  pub max_body_bytes : Option ℕ
  pub confidential_max_body_bytes : ℕ
  pub confidential_max_response_bytes : ℕ
  pub confidential_max_batch_size : ℕ
  pub confidential_upstream_timeout_secs : ℕ
  pub allow_empty_compose_hash : Bool

-- A `Config` for a URL and a chain id, with every default.
abbrev pub default_config : Text → Text → Config
default_config upstream_url chain_id = record {
  listen_addr = codes "0.0.0.0:8545";
  upstream_url = upstream_url;
  chain_id = chain_id;
  dstack_endpoint = none;
  key_path = codes "rpc-sign/v1";
  key_purpose = none;
  max_body_bytes = none;
  confidential_max_body_bytes = 8 * 1024 * 1024;
  confidential_max_response_bytes = 128 * 1024 * 1024;
  confidential_max_batch_size = 1000;
  confidential_upstream_timeout_secs = 25;
  allow_empty_compose_hash = false;
}

-- What clap finds: the text of a flag on the command line (a switch that is set has `true`), and
-- of a variable of the environment.
pub record Arguments : Type 0 where
  pub flag : Text → Option Text
  pub env : Text → Option Text

pub data ConfigError : Type 0 where
  missing_argument : Text → ConfigError
  invalid_value : Text → ConfigError

abbrev pub or_else : Option Text → Option Text → Option Text
or_else none given = given
or_else (some t) given = some t

-- `#[arg(long, env = "…")]`: the flag comes before the variable.
abbrev pub given : Arguments → Text → Text → Option Text
given args flag env = or_else (args.flag flag) (args.env env)

abbrev pub is_digit : ℕ → Bool
is_digit c = leb b'0' c && leb c b'9'

-- The digits of an unsigned integer that is at most `max`; overflow is an error.
abbrev pub parse_digits : ℕ → ℕ → Text → Option ℕ
parse_digits max acc [] = some acc
parse_digits max acc (c ∷ cs) =
    let next = acc * 10 + (c - b'0') in
    let rest = parse_digits max next cs in if is_digit c && leb next max then rest else none

-- `str::parse` of an unsigned integer: a plus sign may stand before the digits, and no text is an
-- error.
unfoldable pub parse_unsigned : ℕ → Text → Option ℕ
parse_unsigned max [] = none
parse_unsigned max (c ∷ []) = parse_digits max 0 (c ∷ [])
parse_unsigned max (c ∷ d ∷ cs) =
    if c == b'+' then parse_digits max 0 (d ∷ cs) else parse_digits max 0 (c ∷ d ∷ cs)

abbrev pub in_range : (ℕ → Bool) → Option ℕ → Option ℕ
in_range test none = none
in_range test (some n) = if test n then some n else none

-- `value_parser!(u16).range(1..=1000)` and `value_parser!(u64).range(1..)`, on a parsed number
unfoldable pub is_batch_size : ℕ → Bool
is_batch_size n = leb 1 n && leb n 1000

unfoldable pub is_timeout : ℕ → Bool
is_timeout n = leb 1 n && leb n u64_max

-- The value parsers. A batch size is read as an i64; a negative one is out of range.
abbrev pub parse_batch_size : Text → Option ℕ
parse_batch_size t = in_range is_batch_size (parse_unsigned (2 ^ 63 - 1) t)

abbrev pub parse_timeout : Text → Option ℕ
parse_timeout t = in_range is_timeout (parse_unsigned u64_max t)

abbrev pub parse_usize : Text → Option ℕ
parse_usize t = parse_unsigned u64_max t

abbrev pub parse_chain_id : Text → Option Text
parse_chain_id t = to_option (validate_chain_id t)

abbrev pub parse_bool : Text → Option Bool
parse_bool t =
    if bytes_eq t (codes "true")
    then some true
    else if bytes_eq t (codes "false")
    then some false
    else none

-- An argument without a default, an optional one and one with a default.
abbrev pub required {ℓ} :
    {A : Type ℓ} → (Text → Option A) → Text → Option Text → Result A ConfigError
required parse name none = err (missing_argument name)
required parse name (some t) = ok_or (invalid_value name) (parse t)

abbrev pub optional {ℓ} :
    {A : Type ℓ} → (Text → Option A) → Text → Option Text → Result (Option A) ConfigError
optional parse name none = ok none
optional parse name (some t) = ok_or (invalid_value name) (parse t) >>= λ a. ok (some a)

abbrev pub with_default {ℓ} :
    {A : Type ℓ} → A → (Text → Option A) → Text → Option Text → Result A ConfigError
with_default default parse name none = ok default
with_default default parse name (some t) = ok_or (invalid_value name) (parse t)

-- The arguments, in the order of the fields.
-- Its first argument is `str::parse::<SocketAddr>`, which gives the text back.
unfoldable pub listen_addr_arg : (Text → Option Text) → Arguments → Result Text ConfigError
listen_addr_arg parse_addr args =
    with_default (codes "0.0.0.0:8545") parse_addr (codes "listen-addr")
      (given args (codes "listen-addr") (codes "SIDECAR_LISTEN_ADDR"))

unfoldable pub upstream_url_arg : Arguments → Result Text ConfigError
upstream_url_arg args =
    required some (codes "upstream-url")
      (given args (codes "upstream-url") (codes "SIDECAR_UPSTREAM_URL"))

unfoldable pub chain_id_arg : Arguments → Result Text ConfigError
chain_id_arg args =
    required parse_chain_id (codes "chain-id")
      (given args (codes "chain-id") (codes "SIDECAR_CHAIN_ID"))

unfoldable pub key_path_arg : Arguments → Result Text ConfigError
key_path_arg args =
    with_default (codes "rpc-sign/v1") some (codes "key-path")
      (given args (codes "key-path") (codes "SIDECAR_KEY_PATH"))

unfoldable pub max_body_bytes_arg : Arguments → Result (Option ℕ) ConfigError
max_body_bytes_arg args =
    optional parse_usize (codes "max-body-bytes")
      (given args (codes "max-body-bytes") (codes "SIDECAR_MAX_BODY_BYTES"))

unfoldable pub confidential_max_body_bytes_arg : Arguments → Result ℕ ConfigError
confidential_max_body_bytes_arg args =
    with_default (8 * 1024 * 1024) parse_usize (codes "confidential-max-body-bytes") (
      given args (codes "confidential-max-body-bytes")
        (codes "SIDECAR_CONFIDENTIAL_MAX_BODY_BYTES"))

unfoldable pub confidential_max_response_bytes_arg : Arguments → Result ℕ ConfigError
confidential_max_response_bytes_arg args =
    with_default (128 * 1024 * 1024) parse_usize (codes "confidential-max-response-bytes") (
      given args (codes "confidential-max-response-bytes")
        (codes "SIDECAR_CONFIDENTIAL_MAX_RESPONSE_BYTES"))

unfoldable pub confidential_max_batch_size_arg : Arguments → Result ℕ ConfigError
confidential_max_batch_size_arg args =
    with_default 1000 parse_batch_size (codes "confidential-max-batch-size") (
      given args (codes "confidential-max-batch-size")
        (codes "SIDECAR_CONFIDENTIAL_MAX_BATCH_SIZE"))

unfoldable pub confidential_upstream_timeout_secs_arg : Arguments → Result ℕ ConfigError
confidential_upstream_timeout_secs_arg args =
    with_default 25 parse_timeout (codes "confidential-upstream-timeout-secs") (
      given args (codes "confidential-upstream-timeout-secs")
        (codes "SIDECAR_CONFIDENTIAL_UPSTREAM_TIMEOUT_SECS"))

unfoldable pub allow_empty_compose_hash_arg : Arguments → Result Bool ConfigError
allow_empty_compose_hash_arg args =
    with_default false parse_bool (codes "allow-empty-compose-hash")
      (given args (codes "allow-empty-compose-hash") (codes "SIDECAR_ALLOW_EMPTY_COMPOSE_HASH"))

abbrev pub dstack_endpoint_arg : Arguments → Option Text
dstack_endpoint_arg args = given args (codes "dstack-endpoint") (codes "DSTACK_SIMULATOR_ENDPOINT")

abbrev pub key_purpose_arg : Arguments → Option Text
key_purpose_arg args = given args (codes "key-purpose") (codes "SIDECAR_KEY_PURPOSE")

-- `Config::try_parse`
unfoldable pub try_parse : (Text → Option Text) → Arguments → Result Config ConfigError
try_parse parse_addr args = do
  listen_addr ← listen_addr_arg parse_addr args
  upstream_url ← upstream_url_arg args
  chain_id ← chain_id_arg args
  key_path ← key_path_arg args
  max_body_bytes ← max_body_bytes_arg args
  confidential_max_body_bytes ← confidential_max_body_bytes_arg args
  confidential_max_response_bytes ← confidential_max_response_bytes_arg args
  confidential_max_batch_size ← confidential_max_batch_size_arg args
  confidential_upstream_timeout_secs ← confidential_upstream_timeout_secs_arg args
  allow_empty_compose_hash ← allow_empty_compose_hash_arg args
  ok (record {
    listen_addr = listen_addr;
    upstream_url = upstream_url;
    chain_id = chain_id;
    dstack_endpoint = dstack_endpoint_arg args;
    key_path = key_path;
    key_purpose = key_purpose_arg args;
    max_body_bytes = max_body_bytes;
    confidential_max_body_bytes = confidential_max_body_bytes;
    confidential_max_response_bytes = confidential_max_response_bytes;
    confidential_max_batch_size = confidential_max_batch_size;
    confidential_upstream_timeout_secs = confidential_upstream_timeout_secs;
    allow_empty_compose_hash = allow_empty_compose_hash;
  })
