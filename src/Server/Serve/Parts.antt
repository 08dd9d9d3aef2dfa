-- ===== src/Server/Serve/Parts.antt =====
-- What the layers of src/server.rs leave of a relayed answer of src/proxy.rs, and what an
-- attestation of src/attestation.rs says.
use verifiable_rpc_sidecar.Crates.Crypto.{Crypto}
use verifiable_rpc_sidecar.Crates.Dstack.{Dstack}
use verifiable_rpc_sidecar.Crates.Http.{HeaderMap, UpstreamResponse}
use verifiable_rpc_sidecar.Crates.Axum.{is_other, is_content_encoding}
use verifiable_rpc_sidecar.Util.{prefixed_hex}
use verifiable_rpc_sidecar.Signing.{SignedResponse}
use verifiable_rpc_sidecar.Signing.Headers.{is_signing}
use verifiable_rpc_sidecar.Attestation.{
  AttestationState, AttestationResponse, AttestationQuery, AttestationError, extract_nonce,
}
use verifiable_rpc_sidecar.Attestation.Quote.{Answered, no_nonce, no_quote, quoted}
use verifiable_rpc_sidecar.Proxy.{is_relayed, is_hop_by_hop}
use verifiable_rpc_sidecar.Proxy.Headers.{any-append}
use verifiable_rpc_sidecar.Proxy.Branches.{relayed_response}
use verifiable_rpc_sidecar.Prelude.{
  Bool-cases, length, keep, any, Result, err-ne-ok, ok-injective, Bytes, bytes_eq, bytes_eq→eq,
  codes, ok, ℕ, ◌≡◌, refl, sym, ◌∙◌, subst, ◌≢◌, inl, inr, true, false, some, [], ◌∷◌, ◌++◌,
}

-- The upstream's content-encoding is not relayed.
relayed-no_encoding : (hs : HeaderMap) → any is_content_encoding (keep is_relayed hs) ≡ false
relayed-no_encoding [] = refl
relayed-no_encoding ((n, v) ∷ hs) = elim (Bool-cases (is_hop_by_hop n)) [
  | inl k ↦ rw (k, relayed-no_encoding hs)
  | inr k ↦ elim (Bool-cases (bytes_eq n (codes "content-encoding"))) [
    | inl e ↦ rw (k, e, relayed-no_encoding hs)
    | inr e ↦ rw (k, e) (rw (e, relayed-no_encoding hs) refl)
  ]
]

pub relayed_response-no_encoding :
    (c : Crypto) (resp : UpstreamResponse) (answer : Bytes) (r : SignedResponse)
    → any is_content_encoding (relayed_response c resp answer r).headers ≡ false
relayed_response-no_encoding c resp answer r =
    any-append is_content_encoding (keep is_relayed resp.headers) _
    ∙ rw (relayed-no_encoding resp.headers) refl

module _ (c : Crypto) (d : Dstack) (st : AttestationState) (query : AttestationQuery) where
  -- An attestation that was given: a quote of the state's key and the nonce of the query, beside
  -- the key's text.
  abbrev pub Attests : AttestationResponse → Type 0
  Attests att =
      (nonce : Bytes) × (extract_nonce c query ≡ ok nonce)
      × (d.get_quote (st.signing_pubkey ++ nonce) ≡ some att.quote)
      × (att.pubkey ≡ prefixed_hex c st.signing_pubkey)

  pub by_answer :
      (key : length st.signing_pubkey ≡ 32) (att : AttestationResponse)
      {r : Result AttestationResponse (ℕ × AttestationError)}
      → Answered c d st key query r
      → r ≡ ok att
      → Attests att
  by_answer key att (no_nonce e k) h = absurd (err-ne-ok h)
  by_answer key att (no_quote nonce k q) h = absurd (err-ne-ok h)
  by_answer key att (quoted nonce quote k q) h = subst Attests (ok-injective h) (nonce, k, q, refl)

-- The layers set none of the signing headers.
pub signing-is_other : (name v : Bytes) → is_signing (name, v) ≡ true → is_other (name, v) ≡ true
signing-is_other name v h = elim (Bool-cases (bytes_eq name (codes "vrpc-signature"))) [
  | inl e ↦ of_name (codes "vrpc-signature") e refl
  | inr e ↦ elim (Bool-cases (bytes_eq name (codes "vrpc-timestamp"))) [
    | inl e ↦ of_name (codes "vrpc-timestamp") e refl
    | inr f ↦ elim (Bool-cases (bytes_eq name (codes "vrpc-pubkey"))) [
      | inl e ↦ of_name (codes "vrpc-pubkey") e refl
      | inr g ↦ absurd (false-ne-true (rw (e, f, g) at h))
    ]
  ]
]
  where
    of_name :
        (n : Bytes) → bytes_eq name n ≡ true → is_other (n, v) ≡ true → is_other (name, v) ≡ true
    of_name n e k = subst (λ m. is_other (m, v) ≡ true) (sym (bytes_eq→eq name n e)) k

    false-ne-true : false ≢ true
    false-ne-true h = cc
