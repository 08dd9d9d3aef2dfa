-- ===== src/Configuration/Limits.antt =====
-- The configuration that src/config.rs accepts, and the limits that a process started with it
-- serves under.
use verifiable_rpc_sidecar.Signing.ChainId.{IsChainId, validate_chain_id_iff}
use verifiable_rpc_sidecar.Configuration.{
  listen_addr_arg, upstream_url_arg, chain_id_arg, key_path_arg, max_body_bytes_arg,
  confidential_max_body_bytes_arg, confidential_max_response_bytes_arg,
  confidential_max_batch_size_arg, confidential_upstream_timeout_secs_arg,
  allow_empty_compose_hash_arg, Config, Arguments, given, is_digit, parse_digits, parse_unsigned,
  in_range, is_batch_size, is_timeout, parse_batch_size, parse_timeout, parse_usize, parse_chain_id,
  required, with_default, try_parse,
}
use verifiable_rpc_sidecar.Crates.Crypto.{Crypto}
use verifiable_rpc_sidecar.Crates.Dstack.{Dstack}
use verifiable_rpc_sidecar.Crates.Http.{Http}
use verifiable_rpc_sidecar.Server.{AppState, boot, confidential_config}
use verifiable_rpc_sidecar.Server.Boot.{boot-IsStarted}
use verifiable_rpc_sidecar.Prelude.{
  leb, ◌==◌, leb→le, and-true, Bool-cases, none-ne-some, some-injective, err-ne-ok, >>=-ok_inv,
  ok-injective, ok_or-ok, to_option-some, u64_max, Text, codes, ok, ℕ, ◌+◌, ◌-◌, ◌*◌, ◌≤◌, ◌≡◌,
  refl, sym, ap, subst, ◌⊎◌, inl, inr, Bool, true, ◌&&◌, Option, none, some, [], ◌∷◌, arith,
}

parse_digits-bound :
    (max acc : ℕ) (t : Text) {n : ℕ} → acc ≤ max → parse_digits max acc t ≡ some n → n ≤ max
parse_digits-bound max acc [] {n} h e = ground arith
parse_digits-bound max acc (c ∷ cs) {n} h e =
    let next = acc * 10 + (c - b'0') in
    elim (Bool-cases (is_digit c && leb next max)) [
      | inl k ↦ parse_digits-bound max next cs (leb→le _ _ (and-true _ _ k).1) (rw k at e)
      | inr k ↦ absurd (none-ne-some (rw k at e))
    ]

-- A number that is read is at most the type's greatest.
pub parse_unsigned-bound : (max : ℕ) (t : Text) {n : ℕ} → parse_unsigned max t ≡ some n → n ≤ max
unfolding parse_unsigned
parse_unsigned-bound max [] e = absurd (none-ne-some e)
parse_unsigned-bound max (c ∷ []) e = parse_digits-bound max 0 (c ∷ []) (omega arith) e
parse_unsigned-bound max (c ∷ d ∷ cs) e = elim (Bool-cases (c == b'+')) [
  | inl k ↦ parse_digits-bound max 0 (d ∷ cs) (omega arith) (rw k at e)
  | inr k ↦ parse_digits-bound max 0 (c ∷ d ∷ cs) (omega arith) (rw k at e)
]

in_range-holds :
    (test : ℕ → Bool) (o : Option ℕ) {n : ℕ}
    → in_range test o ≡ some n
    → (test n ≡ true) × (o ≡ some n)
in_range-holds test none e = cc
in_range-holds test (some m) {n} e = elim (Bool-cases (test m)) [
  | inl k ↦ let same : m ≡ n = some-injective (rw k at e) in (rw (sym same) k, ap some same)
  | inr k ↦ absurd (none-ne-some (rw k at e))
]

module _ {ℓ} {A : Type ℓ} (default : A) (parse : Text → Option A) (name : Text) where
  -- An argument with a default is the default when nothing is given, and otherwise what was
  -- parsed.
  abbrev pub Takes : Option Text → A → Type ℓ
  Takes raw a = ((raw ≡ none) × (a ≡ default)) ⊎ ((t : Text) × (raw ≡ some t) × (parse t ≡ some a))

  with_default-Takes :
      (raw : Option Text) {a : A} → with_default default parse name raw ≡ ok a → Takes raw a
  with_default-Takes none e = inl (refl, sym (ok-injective e))
  with_default-Takes (some t) e = inr (t, refl, ok_or-ok _ (parse t) e)

  -- A property of the default and of everything that is parsed.
  with_default-value :
      (P : A → Type 0) (raw : Option Text) {a : A}
      → with_default default parse name raw ≡ ok a
      → P default
      → ((t : Text) → parse t ≡ some a → P a)
      → P a
  with_default-value P none e p k = subst P (ok-injective e) p
  with_default-value P (some t) e p k = k t (ok_or-ok _ (parse t) e)

chain_id-IsChainId :
    (name : Text) (raw : Option Text) {t : Text}
    → required parse_chain_id name raw ≡ ok t
    → IsChainId t
chain_id-IsChainId name none e = absurd (err-ne-ok e)
chain_id-IsChainId name (some s) {t} e =
    ((validate_chain_id_iff s t).0 (to_option-some _ (ok_or-ok _ (parse_chain_id s) e))).1

-- A limit between two bounds: its default when nothing is given, and otherwise what was parsed.
abbrev pub IsLimit : ℕ → ℕ → ℕ → (Text → Option ℕ) → Option Text → ℕ → Type 0
IsLimit low high default parse raw n =
    (low ≤ n)
    × (n ≤ high)
    × (((raw ≡ none) × (n ≡ default)) ⊎ ((t : Text) × (raw ≡ some t) × (parse t ≡ some n)))

is_limit :
    (low high default : ℕ) (parse : Text → Option ℕ) (name : Text) (raw : Option Text) {n : ℕ}
    → (low ≤ default) × (default ≤ high)
    → ((t : Text) (n : ℕ) → parse t ≡ some n → (low ≤ n) × (n ≤ high))
    → with_default default parse name raw ≡ ok n
    → IsLimit low high default parse raw n
is_limit low high default parse name raw {n} d k e =
    let within =
      with_default-value default parse name (λ n. (low ≤ n) × (n ≤ high)) raw e d λ t h. k t n h in
    (within.0, within.1, with_default-Takes default parse name raw e)

usize-within : (t : Text) (n : ℕ) → parse_usize t ≡ some n → (0 ≤ n) × (n ≤ u64_max)
usize-within t n h = (omega arith, parse_unsigned-bound u64_max t h)

batch_size-within : (t : Text) (n : ℕ) → parse_batch_size t ≡ some n → (1 ≤ n) × (n ≤ 1000)
unfolding is_batch_size
batch_size-within t n h =
    let (low, high) = and-true _ _ (in_range-holds is_batch_size (parse_unsigned _ t) h).0 in
    (leb→le _ _ low, leb→le _ _ high)

timeout-within : (t : Text) (n : ℕ) → parse_timeout t ≡ some n → (1 ≤ n) × (n ≤ u64_max)
unfolding is_timeout
timeout-within t n h =
    let (low, high) = and-true _ _ (in_range-holds is_timeout (parse_unsigned _ t) h).0 in
    (leb→le _ _ low, leb→le _ _ high)

module _ (args : Arguments) where
  -- The chain id and the limits that a configuration may have, with their defaults.
  pub record IsConfig (config : Config) : Type 0 where
    pub chain : IsChainId config.chain_id
    pub body :
        IsLimit 0 u64_max
          (8 * 1024 * 1024)
          parse_usize
          (given args
            (codes "confidential-max-body-bytes")
            (codes "SIDECAR_CONFIDENTIAL_MAX_BODY_BYTES"))
          config.confidential_max_body_bytes
    pub response :
        IsLimit 0 u64_max
          (128 * 1024 * 1024)
          parse_usize
          (given args
            (codes "confidential-max-response-bytes")
            (codes "SIDECAR_CONFIDENTIAL_MAX_RESPONSE_BYTES"))
          config.confidential_max_response_bytes
    pub batch :
        IsLimit 1 1000 1000 parse_batch_size
          (given args
            (codes "confidential-max-batch-size")
            (codes "SIDECAR_CONFIDENTIAL_MAX_BATCH_SIZE"))
          config.confidential_max_batch_size
    pub timeout :
        IsLimit 1 u64_max 25 parse_timeout
          (given args
            (codes "confidential-upstream-timeout-secs")
            (codes "SIDECAR_CONFIDENTIAL_UPSTREAM_TIMEOUT_SECS"))
          config.confidential_upstream_timeout_secs

  pub try_parse-IsConfig :
      (parse_addr : Text → Option Text) (config : Config)
      → try_parse parse_addr args ≡ ok config
      → IsConfig config
  unfolding try_parse chain_id_arg confidential_max_body_bytes_arg
      confidential_max_response_bytes_arg confidential_max_batch_size_arg
      confidential_upstream_timeout_secs_arg
  try_parse-IsConfig parse_addr config e =
      let (addr, e0, e) = >>=-ok_inv (listen_addr_arg parse_addr args) _ e in
      let (url, e1, e) = >>=-ok_inv (upstream_url_arg args) _ e in
      let (chain, e2, e) = >>=-ok_inv (chain_id_arg args) _ e in
      let (path, e3, e) = >>=-ok_inv (key_path_arg args) _ e in
      let (cap, e4, e) = >>=-ok_inv (max_body_bytes_arg args) _ e in
      let (body, e5, e) = >>=-ok_inv (confidential_max_body_bytes_arg args) _ e in
      let (response, e6, e) = >>=-ok_inv (confidential_max_response_bytes_arg args) _ e in
      let (batch, e7, e) = >>=-ok_inv (confidential_max_batch_size_arg args) _ e in
      let (timeout, e8, e) = >>=-ok_inv (confidential_upstream_timeout_secs_arg args) _ e in
      let (allow, e9, e) = >>=-ok_inv (allow_empty_compose_hash_arg args) _ e in
      subst IsConfig (ok-injective e) (record {
        chain = chain_id-IsChainId _ _ e2;
        body =
            is_limit 0 u64_max (8 * 1024 * 1024) parse_usize _ _ (omega arith, omega arith)
              usize-within e5;
        response =
            is_limit 0 u64_max (128 * 1024 * 1024) parse_usize _ _ (omega arith, omega arith)
              usize-within e6;
        batch =
            is_limit 1 1000 1000 parse_batch_size _ _ (omega arith, omega arith) batch_size-within
              e7;
        timeout =
            is_limit 1 u64_max 25 parse_timeout _ _ (omega arith, omega arith) timeout-within e8;
      })

  -- What a process that is started with the arguments serves under: a valid chain id, caps that
  -- fit a usize, 1 to 1000 calls in a batch and a timeout of 1 s at least, each the default when
  -- it is not given and otherwise what was parsed.
  abbrev pub ServesWithin : AppState → Type 0
  ServesWithin st =
      IsChainId st.signing.chain_id
      × IsLimit 0 u64_max (8 * 1024 * 1024) parse_usize
          (given args (codes "confidential-max-body-bytes")
            (codes "SIDECAR_CONFIDENTIAL_MAX_BODY_BYTES"))
          st.confidential.max_request_bytes
      × IsLimit 0 u64_max (128 * 1024 * 1024) parse_usize
          (given args (codes "confidential-max-response-bytes")
            (codes "SIDECAR_CONFIDENTIAL_MAX_RESPONSE_BYTES"))
          st.confidential.max_response_bytes
      × IsLimit 1 1000 1000 parse_batch_size
          (given args (codes "confidential-max-batch-size")
            (codes "SIDECAR_CONFIDENTIAL_MAX_BATCH_SIZE"))
          st.confidential.max_batch_size
      × ((secs : ℕ) × IsLimit 1 u64_max 25 parse_timeout
            (given args (codes "confidential-upstream-timeout-secs")
              (codes "SIDECAR_CONFIDENTIAL_UPSTREAM_TIMEOUT_SECS"))
            secs
          × (st.confidential.upstream_timeout_ms ≡ secs * 1000))

  -- A process whose arguments are accepted and whose start succeeds serves under a valid chain id,
  -- caps that fit a usize, 1 to 1000 calls in a batch and a timeout of 1 s at least, each the
  -- default when it is not given and otherwise what was parsed.
  pub started-ServesWithin :
      (parse_addr : Text → Option Text) (c : Crypto) (d : Dstack) (h : Http) (config : Config)
      (st : AppState)
      → try_parse parse_addr args ≡ ok config
      → boot c d h config ≡ ok st
      → ServesWithin st
  unfolding confidential_config
  started-ServesWithin parse_addr c d h config st parsed started =
      let v = try_parse-IsConfig parse_addr config parsed in
      let ((consistent, chain, asked, key, hash), upstream, limits) =
        boot-IsStarted c d h config st started in
      (
        subst IsChainId (sym chain) v.chain,
        rw limits v.body,
        rw limits v.response,
        rw limits v.batch,
        (config.confidential_upstream_timeout_secs, v.timeout, rw limits refl),
      )
