-- ===== src/Attestation/Quote.antt =====
-- `get` and `attestation_handler` of src/attestation.rs: what a quote is asked for, and the errors.
use verifiable_rpc_sidecar.Crates.Crypto.{Crypto}
use verifiable_rpc_sidecar.Crates.Dstack.{Dstack, GetQuoteResponse}
use verifiable_rpc_sidecar.Util.{prefixed_hex}
use verifiable_rpc_sidecar.Attestation.{
  AttestationError, AttestationState, AttestationResponse, AttestationQuery, dstack_get_quote,
  missing_nonce, nonce_not_hex, build_report_data, parse_user_nonce, extract_nonce, get,
  attestation_handler,
}
use verifiable_rpc_sidecar.Attestation.Nonce.{digits, parse_user_nonce_iff}
use verifiable_rpc_sidecar.Prelude.{
  ◌==◌, Bool-cases, Option-cases, length, Result, ok_or, ok_or-bind, >>=-ok, ok_or-FailsOnly,
  FailsOnly-ne-panic, >>=-FailsOnly, Bytes, zeros, copy_into, copy_into_step, ok, err, panic, ℕ,
  ◌≡◌, refl, sym, ap, ◌∙◌, subst, ◌≢◌, inl, inr, none, some, [], ◌++◌, append-nil,
}

-- The report data of a 32-byte key and a 32-byte nonce is the key and then the nonce.
pub build_report_data_lem :
    (key nonce : Bytes)
    → length key ≡ 32
    → length nonce ≡ 32
    → build_report_data key nonce ≡ ok (key ++ nonce)
unfolding build_report_data
build_report_data_lem key nonce k n =
    >>=-ok (copy_into (zeros 64) 0 32 key) (λ out. copy_into out 32 64 nonce)
      (copy_into_step [] key 0 32 32 32 refl k refl)
    ∙ copy_into_step key nonce 32 64 32 0 k n refl
    ∙ ap ok (append-nil (key ++ nonce))

extract_nonce-length :
    (c : Crypto) (query : AttestationQuery) (nonce : Bytes)
    → extract_nonce c query ≡ ok nonce
    → length nonce ≡ 32
unfolding extract_nonce
extract_nonce-length c query nonce e =
    let (raw, there, e1) = ok_or-bind _ query.nonce _ e in
    ((parse_user_nonce_iff c raw nonce).0 e1).1

module _ (c : Crypto) (d : Dstack) (st : AttestationState) (key : length st.signing_pubkey ≡ 32)
    (query : AttestationQuery) where
  -- How a request is answered: 400 without a valid nonce; with one, a quote of the key and that
  -- nonce is asked for, and the answer is it with the key that it binds, or 502.
  pub data Answered : Result AttestationResponse (ℕ × AttestationError) → Type 0 where
    no_nonce : (e : AttestationError) → extract_nonce c query ≡ err e → Answered (err (400, e))
    no_quote :
        (nonce : Bytes)
        → extract_nonce c query ≡ ok nonce
        → d.get_quote (st.signing_pubkey ++ nonce) ≡ none
        → Answered (err (502, dstack_get_quote))
    quoted :
        (nonce : Bytes) (quote : GetQuoteResponse)
        → extract_nonce c query ≡ ok nonce
        → d.get_quote (st.signing_pubkey ++ nonce) ≡ some quote
        → Answered (
            ok (record {
              quote = quote;
              pubkey = prefixed_hex c st.signing_pubkey;
              compose_hash = st.compose_hash;
              app_compose = st.app_compose;
            }))

  extract_nonce-ne-panic : extract_nonce c query ≢ panic
  unfolding extract_nonce parse_user_nonce
  extract_nonce-ne-panic =
      FailsOnly-ne-panic (λ e. Unit)
        (>>=-FailsOnly (λ e. Unit) (ok_or missing_nonce query.nonce) _
          (ok_or-FailsOnly (λ e. Unit) _ query.nonce tt)
          λ raw e.
            >>=-FailsOnly (λ e. Unit) (ok_or nonce_not_hex (c.hex_decode (digits raw))) _
              (ok_or-FailsOnly (λ e. Unit) _ (c.hex_decode (digits raw)) tt)
              λ bytes e. elim (Bool-cases (length bytes == 32)) [
                | inl t ↦ rw t tt
                | inr t ↦ rw t tt
              ])

  -- With a 32-byte key, every request is answered so.
  pub attestation_handler-Answered : Answered (attestation_handler c d st query)
  unfolding attestation_handler get
  attestation_handler-Answered = by_nonce (extract_nonce c query) refl
    where
      by_nonce :
          (r : Result Bytes AttestationError)
          → extract_nonce c query ≡ r
          → Answered (attestation_handler c d st query)
      by_nonce (err e) k =
          subst Answered (sym (unfold attestation_handler in rw k refl)) (no_nonce e k)
      by_nonce panic k = absurd (extract_nonce-ne-panic k)
      by_nonce (ok nonce) k =
          let report =
            build_report_data_lem st.signing_pubkey nonce key
              (extract_nonce-length c query nonce k) in
          elim (Option-cases (d.get_quote (st.signing_pubkey ++ nonce))) [
            | inl q ↦
                subst Answered
                  (sym (unfold attestation_handler get in rw k (rw report (rw q refl))))
                  (no_quote nonce k q)
            | inr (quote, q) ↦
                subst Answered
                  (sym (unfold attestation_handler get in rw k (rw report (rw q refl))))
                  (quoted nonce quote k q)
          ]
