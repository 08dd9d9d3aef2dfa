-- ===== src/Server/Boot.antt =====
-- The start of src/main.rs: what a state that is served satisfies.
use verifiable_rpc_sidecar.Crates.Crypto.{Crypto}
use verifiable_rpc_sidecar.Crates.Dstack.{Dstack}
use verifiable_rpc_sidecar.Signing.{SigningState, from_dstack_bytes, pubkey_bytes}
use verifiable_rpc_sidecar.Signing.Keys.{from_dstack_bytes_iff, IsStateOf-IsConsistent}
use verifiable_rpc_sidecar.Signing.Verify.{IsConsistent}
use verifiable_rpc_sidecar.Attestation.{
  AttestationState, bootstrap, resolve_compose_hash, dstack_info, serialise_info, is_empty_text,
}
use verifiable_rpc_sidecar.Crates.Http.{Http}
use verifiable_rpc_sidecar.Proxy.{new}
use verifiable_rpc_sidecar.Configuration.{Config}
use verifiable_rpc_sidecar.Server.{
  AppState, boot, confidential_config, upstream_client, bootstrap_tdx_identity, dstack_get_key,
  hex_decode_key,
}
use verifiable_rpc_sidecar.Prelude.{
  map_err, ok_or-bind, err-ne-ok, >>=-ok_inv, map_err-ok, ok-injective, Bytes, Text, as_bytes, ok,
  ◌≡◌, refl, sym, ap, ◌∙◌, subst, ◌⊎◌, inl, inr, Bool, true, false, some, [], ◌∷◌,
}

-- A compose hash that the operator lets the sidecar serve.
abbrev IsServed : Bool → Text → Type 0
IsServed allow_empty hash = (is_empty_text hash ≡ false) ⊎ (allow_empty ≡ true)

resolve-IsServed :
    (hash out : Text) (allow_empty : Bool)
    → resolve_compose_hash hash allow_empty ≡ ok out
    → IsServed allow_empty out
unfolding resolve_compose_hash
resolve-IsServed [] out true e = inr refl
resolve-IsServed [] out false e = absurd (err-ne-ok e)
resolve-IsServed (c ∷ cs) out allow_empty e =
    inl (subst (λ t. is_empty_text t ≡ false) (ok-injective e) refl)

module _ (c : Crypto) (d : Dstack) where
  bootstrap-state :
      (key : Bytes) (allow_empty : Bool) (st : AttestationState)
      → bootstrap c d key allow_empty ≡ ok st
      → (st.signing_pubkey ≡ key) × IsServed allow_empty st.compose_hash
  unfolding bootstrap
  bootstrap-state key allow_empty st e =
      let (info, asked, e1) = ok_or-bind dstack_info d.info _ e in
      let (json, written, e2) = ok_or-bind serialise_info (d.info_to_json info) _ e1 in
      let (hash, resolved, e3) =
        >>=-ok_inv (resolve_compose_hash info.compose_hash allow_empty) _ e2 in
      let same = ok-injective e3 in
      (
        sym (ap (λ s. s.signing_pubkey) same),
        subst (λ s. IsServed allow_empty s.compose_hash) same
            (resolve-IsServed info.compose_hash hash allow_empty resolved),
      )

  -- The key that dstack derived for the configured path, cached texts that agree with it and the
  -- chain id, quotes of its public key, and a compose hash unless the configuration allows none.
  abbrev pub IsIdentity : Config → SigningState × AttestationState → Type 0
  IsIdentity config (signing, attestation) =
      IsConsistent c signing
      × (signing.chain_id ≡ config.chain_id)
      × ((hex : Text) × (d.get_key config.key_path config.key_purpose ≡ some hex)
          × (c.hex_decode hex ≡ some signing.signing_key))
      × (attestation.signing_pubkey ≡ pubkey_bytes c signing)
      × IsServed config.allow_empty_compose_hash attestation.compose_hash

  -- A start that succeeds has such an identity.
  pub bootstrap_tdx_identity-IsIdentity :
      (config : Config) (identity : SigningState × AttestationState)
      → bootstrap_tdx_identity c d config ≡ ok identity
      → IsIdentity config identity
  unfolding bootstrap_tdx_identity
  bootstrap_tdx_identity-IsIdentity config identity e =
      let (hex, asked, e1) =
        ok_or-bind dstack_get_key (d.get_key config.key_path config.key_purpose) _ e in
      let (bytes, decoded, e2) = ok_or-bind hex_decode_key (c.hex_decode hex) _ e1 in
      let (s, derived, e3) =
        >>=-ok_inv (map_err _ (from_dstack_bytes c bytes config.chain_id)) _ e2 in
      let (a, cached, e4) =
        >>=-ok_inv (map_err _ (bootstrap c d (pubkey_bytes c s) config.allow_empty_compose_hash)) _
          e3 in
      let of_key = (from_dstack_bytes_iff c bytes config.chain_id s).0 (map_err-ok _ _ derived) in
      let (key, served) =
        bootstrap-state (pubkey_bytes c s) config.allow_empty_compose_hash a
          (map_err-ok _ _ cached) in
      subst (IsIdentity config) (ok-injective e4) (
        IsStateOf-IsConsistent c bytes config.chain_id s of_key,
        of_key.chain,
        (hex, asked, decoded ∙ ap some (sym of_key.key)),
        key,
        served,
      )

  -- The signing state was made from the decoded key, which is its signing key.
  pub bootstrap-from_dstack_bytes :
      (config : Config) (identity : SigningState × AttestationState)
      → bootstrap_tdx_identity c d config ≡ ok identity
      → from_dstack_bytes c identity.0.signing_key config.chain_id ≡ ok identity.0
  unfolding bootstrap_tdx_identity
  bootstrap-from_dstack_bytes config identity e =
      let (hex, asked, e1) =
        ok_or-bind dstack_get_key (d.get_key config.key_path config.key_purpose) _ e in
      let (bytes, decoded, e2) = ok_or-bind hex_decode_key (c.hex_decode hex) _ e1 in
      let (s, derived, e3) =
        >>=-ok_inv (map_err _ (from_dstack_bytes c bytes config.chain_id)) _ e2 in
      let (a, cached, e4) =
        >>=-ok_inv (map_err _ (bootstrap c d (pubkey_bytes c s) config.allow_empty_compose_hash)) _
          e3 in
      let made = map_err-ok _ _ derived in
      let key = ((from_dstack_bytes_iff c bytes config.chain_id s).0 made).key in
      subst (λ i. from_dstack_bytes c i.0.signing_key config.chain_id ≡ ok i.0) (ok-injective e4)
        (ap (λ k. from_dstack_bytes c k config.chain_id) key ∙ made)

  pub boot-from_dstack_bytes :
      (h : Http) (config : Config) (st : AppState)
      → boot c d h config ≡ ok st
      → from_dstack_bytes c st.signing.signing_key config.chain_id ≡ ok st.signing
  unfolding boot
  boot-from_dstack_bytes h config st e =
      let ((signing, attestation), derived, e1) =
        >>=-ok_inv (bootstrap_tdx_identity c d config) _ e in
      let (upstream, made, e2) =
        >>=-ok_inv
          (map_err (λ e. upstream_client)
            (new h (as_bytes config.upstream_url) config.max_body_bytes))
          _ e1 in
      subst (λ s. from_dstack_bytes c s.signing.signing_key config.chain_id ≡ ok s.signing)
        (ok-injective e2) (bootstrap-from_dstack_bytes config (signing, attestation) derived)

  -- What a started process serves with: such an identity, a client for the configured upstream and
  -- cap, and the configured limits.
  abbrev pub IsStarted : Http → Config → AppState → Type 0
  IsStarted h config st =
      IsIdentity config (st.signing, st.attestation)
      × (new h (as_bytes config.upstream_url) config.max_body_bytes ≡ ok st.upstream)
      × (st.confidential ≡ confidential_config config)

  pub boot-IsStarted :
      (h : Http) (config : Config) (st : AppState)
      → boot c d h config ≡ ok st
      → IsStarted h config st
  unfolding boot
  boot-IsStarted h config st e =
      let ((signing, attestation), derived, e1) =
        >>=-ok_inv (bootstrap_tdx_identity c d config) _ e in
      let (upstream, made, e2) =
        >>=-ok_inv
          (map_err (λ e. upstream_client)
            (new h (as_bytes config.upstream_url) config.max_body_bytes))
          _ e1 in
      subst (IsStarted h config) (ok-injective e2) (
        bootstrap_tdx_identity-IsIdentity config (signing, attestation) derived,
        map_err-ok _ _ made,
        refl,
      )
