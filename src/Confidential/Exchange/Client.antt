-- ===== src/Confidential/Exchange/Client.antt =====
-- An exchange of src/confidential.rs as its client sees it: the client encapsulates a request to
-- the sidecar's key, verifies the signature of the answer and opens its body.
use verifiable_rpc_sidecar.Crates.Crypto.{Crypto, CryptoLaws, aes_gcm_256}
use verifiable_rpc_sidecar.Crates.Http.{Request, Response, Http, HttpLaws, collected}
use verifiable_rpc_sidecar.Crates.Bhttp.{Bhttp}
use verifiable_rpc_sidecar.Crates.Json.{Json}
use verifiable_rpc_sidecar.Envelope.{ResponseContext, EnvelopeError, envelope_error, public_key}
use verifiable_rpc_sidecar.Envelope
use verifiable_rpc_sidecar.Envelope.Open.{info_string, Opens-open_request}
use verifiable_rpc_sidecar.Envelope.Seal.{open_request-IsSealable}
use verifiable_rpc_sidecar.Envelope.Client.{
  client_request, client_secret, client_open, client_open-seal, request_context, request-Opens,
}
use verifiable_rpc_sidecar.Signing.{
  pubkey_bytes, SigningState, SignedResponse, SigningError, now_ms, open_request, from_dstack_bytes,
  sign,
}
use verifiable_rpc_sidecar.Signing.Keys.{IsStateOf, from_dstack_bytes_iff, IsStateOf-IsConsistent}
use verifiable_rpc_sidecar.Signing.Headers.{header, headers_verify, sign-Verifies}
use verifiable_rpc_sidecar.Util.{prefixed_hex}
use verifiable_rpc_sidecar.Signing.Verify.{IsConsistent}
use verifiable_rpc_sidecar.Proxy.{UpstreamClient, status_response}
use verifiable_rpc_sidecar.Confidential.Outcome.{
  Outcome, plaintext, unsealable, plaintext_500, plaintext_response,
}
use verifiable_rpc_sidecar.Confidential.InnerCall.{
  ConfidentialConfig, Environment, InnerCall, Sealed, run_inner, seal_inner,
}
use verifiable_rpc_sidecar.Confidential.InnerCall.Seal.{Replies, seal_inner-IsSealedReply}
use verifiable_rpc_sidecar.Confidential.Exchange.{read_outer, open_outer, exchange}
use verifiable_rpc_sidecar.Confidential.Exchange.Sent.{Opened}
use verifiable_rpc_sidecar.Confidential.Exchange.Served.{build_lem, confidential_response}
use verifiable_rpc_sidecar.Confidential.Exchange.Ends.{Fills, IsPlain, Serves, exchange-IsAnswer}
use verifiable_rpc_sidecar.Confidential.Exchange.Total.{now_ms-ne-panic}
use verifiable_rpc_sidecar.Prelude.{
  length, ok_or, map_err, ok_or-bind, ok-injective, FailsOnly, map_err-FailsOnly_of,
  ok_or-FailsOnly_of, >>=-FailsOnly, Bytes, to_string, Text, codes, as_bytes, ok, err, ℕ, ◌≡◌, refl,
  sym, ap, ◌∙◌, subst, ◌⊎◌, inl, inr, true, none, some, [], ◌∷◌, arith,
}

-- A private key whose public key the sidecar has computed.
public_key-ok :
    (c : Crypto) (sk_r pk : Bytes)
    → public_key c sk_r ≡ ok pk
    → (sk : c.PrivateKey) × (c.private_key_from_bytes sk_r ≡ some sk) × (c.sk_to_pk sk ≡ pk)
unfolding public_key
public_key-ok c sk_r pk e =
    let (sk, read, e1) = ok_or-bind envelope_error (c.private_key_from_bytes sk_r) _ e in
    (sk, read, ground arith)

module _ (c : Crypto) (laws : CryptoLaws c) (h : Http) (http_laws : HttpLaws h) (b : Bhttp)
    (j : Json) (upstream : UpstreamClient) (key : Bytes) (chain_id : Text) (signer : SigningState)
    (started : from_dstack_bytes c key chain_id ≡ ok signer) (cfg : ConfidentialConfig)
    (env : Environment) (fills : Fills env) (req : Request) (rnd text : Bytes) where
  -- The request that the client encapsulates to the X25519 form of the sidecar's key.
  abbrev encapsulated : Bytes
  encapsulated = client_request c (c.to_montgomery key) rnd text

  -- The inner call of the client's plaintext.
  abbrev call : InnerCall b
  call = run_inner h b j upstream cfg env text

  -- An answer that is sealed and signed, as the client finds it: the signature verifies over the
  -- request as it was sent and the body as it was received, and the body opens to the reply to the
  -- inner call of the client's own plaintext.
  abbrev pub IsGenuine : Response → Type 0
  IsGenuine resp =
      (nonce : Bytes) × (sealed : Sealed) × (r : SignedResponse) × (plain : Bytes) × (env.getrandom
        ≡ some nonce)
      × (resp ≡ confidential_response c sealed call.batch_size r)
      × (headers_verify c chain_id encapsulated resp.body resp.headers ≡ true)
      × (header (codes "vrpc-pubkey") resp.headers
          ≡ some (as_bytes (prefixed_hex c (c.verifying_key key))))
      × (client_open c (c.sender_enc aes_gcm_256 (c.to_montgomery key) info_string rnd)
            (client_secret c (c.to_montgomery key) rnd) resp.body
          ≡ some plain)
      × Replies b nonce call.result sealed.class sealed.inner_status plain

  -- What the exchange sealed of its inner call, in the context of the client's request.
  abbrev pub IsSealedHere : Bytes → Sealed → Type 0
  IsSealedHere nonce sealed =
      (ctx : ResponseContext) × (open_request c signer encapsulated ≡ ok (text, ctx))
      × (env.getrandom ≡ some nonce)
      × (seal_inner b ctx nonce call.result ≡ ok sealed)

  -- Why an exchange may end in a bare 500, each with what it has sealed and signed by then.
  pub data Cause : Type 0 where
    no_randomness : env.getrandom ≡ none → Cause
    bad_clock_before : (e : SigningError) → now_ms env.clock_before ≡ err e → Cause
    unsealed :
        (nonce : Bytes) (ctx : ResponseContext) (e : Unit {0})
        → open_request c signer encapsulated ≡ ok (text, ctx)
        → env.getrandom ≡ some nonce
        → seal_inner b ctx nonce call.result ≡ err e
        → Cause
    unsigned :
        (nonce : Bytes) (sealed : Sealed) (e : SigningError)
        → IsSealedHere nonce sealed
        → sign c signer encapsulated sealed.body env.clock_after ≡ err e
        → Cause
    refused :
        (nonce : Bytes) (sealed : Sealed) (r : SignedResponse)
        → IsSealedHere nonce sealed
        → sign c signer encapsulated sealed.body env.clock_after ≡ ok r
        → h.response_builder_body (confidential_response c sealed call.batch_size r) ≡ none
        → Cause

  abbrev IsOurs : Response → Outcome → Type 0
  IsOurs resp o = ((resp ≡ status_response 500) × Cause) ⊎ IsGenuine resp

  unsealable-IsPlain : (n batch_size ms : ℕ) → Cause → IsPlain IsOurs (unsealable n batch_size ms)
  unfolding unsealable plaintext plaintext_response plaintext_500
  unsealable-IsPlain n batch_size ms why = inl (refl, why)

  of_key : IsStateOf c key chain_id signer
  of_key = (from_dstack_bytes_iff c key chain_id signer).0 started

  consistent : IsConsistent c signer
  consistent = IsStateOf-IsConsistent c key chain_id signer of_key

  same_pubkey : pubkey_bytes c signer ≡ c.verifying_key key
  unfolding pubkey_bytes
  same_pubkey = ap c.verifying_key of_key.key

  -- The client's request opens to its plaintext, in a context whose answers the client opens.
  opens :
      (ctx : ResponseContext) × (open_request c signer encapsulated ≡ ok (text, ctx))
      × (ctx.enc ≡ c.sender_enc aes_gcm_256 (c.to_montgomery key) info_string rnd)
      × (ctx.secret ≡ client_secret c (c.to_montgomery key) rnd)
  unfolding open_request
  opens =
      let (sk, read, same) =
        public_key-ok c signer.kem_secret (c.to_montgomery key) of_key.kem_public in
      let ctx = request_context c laws signer.kem_secret rnd text sk read in
      subst
        (λ pk.
          (ctx : ResponseContext) × (Envelope.open_request c signer.kem_secret
              (client_request c pk rnd text)
            ≡ ok (text, ctx))
          × (ctx.enc ≡ c.sender_enc aes_gcm_256 pk info_string rnd)
          × (ctx.secret ≡ client_secret c pk rnd))
        same
        (
          ctx,
          Opens-open_request c signer.kem_secret _ text ctx
              (request-Opens c laws signer.kem_secret rnd text sk read),
          refl,
          refl,
        )

  module _
      (received : h.collect_limited req.body cfg.max_request_bytes ≡ collected encapsulated) where
    open_outer-FailsOnly : FailsOnly (IsPlain IsOurs) (open_outer c h signer cfg env req)
    unfolding open_outer read_outer
    open_outer-FailsOnly =
        rw (received, opens.1)
          (>>=-FailsOnly (IsPlain IsOurs) (ok_or _ env.getrandom) _
            (ok_or-FailsOnly_of (IsPlain IsOurs) _ env.getrandom
              λ e. unsealable-IsPlain _ 0 0 (no_randomness e))
            λ n e.
              >>=-FailsOnly (IsPlain IsOurs) (map_err _ (now_ms env.clock_before)) _
                (map_err-FailsOnly_of (IsPlain IsOurs) _ (now_ms env.clock_before)
                  (now_ms-ne-panic env.clock_before)
                  λ e k. unsealable-IsPlain _ 0 0 (bad_clock_before e k))
                λ ms e. tt)

    -- What was opened is the client's request.
    same_request :
        (outer_req t nonce : Bytes) (ctx : ResponseContext)
        → Opened c h signer cfg env req outer_req t ctx nonce
        → ◌≡◌ {A = Bytes × Bytes × ResponseContext}
            (outer_req, t, ctx)
            (encapsulated, text, opens.0)
    same_request outer_req t nonce ctx o =
        let same : outer_req ≡ encapsulated = cc (o.read, received) in
        let both : ◌≡◌ {A = Bytes × ResponseContext} (t, ctx) (text, opens.0) =
          ok-injective (sym o.opens ∙ ap (open_request c signer) same ∙ opens.1) in
        rw same (ap (λ p. (encapsulated, p.0, p.1)) both)

    abbrev ServesOurs : Bytes → ResponseContext → Bytes → InnerCall b → Type 0
    ServesOurs = Serves IsOurs c laws h http_laws b j upstream signer consistent cfg env fills req

    module _ (nonce : Bytes) (n : length nonce ≡ 32) (random : env.getrandom ≡ some nonce) where
      genuine :
          (sealed : Sealed) (r : SignedResponse)
          → seal_inner b opens.0 nonce call.result ≡ ok sealed
          → sign c signer encapsulated sealed.body env.clock_after ≡ ok r
          → IsGenuine (confidential_response c sealed call.batch_size r)
      unfolding open_request
      genuine sealed r s k =
          let good = open_request-IsSealable c laws signer.kem_secret encapsulated opens.1 in
          let (plain, replies, body) =
            seal_inner-IsSealedReply c laws b opens.0 good nonce n _ sealed s in
          let verified =
            sign-Verifies c laws signer consistent encapsulated sealed.body env.clock_after r
              ((codes "content-type", codes "message/ohttp-res") ∷ [])
              ((codes "vrpc-batch-size", as_bytes (to_string call.batch_size)) ∷ []) k refl in
          (
            nonce,
            sealed,
            r,
            plain,
            random,
            refl,
            subst
                (λ id.
                  headers_verify c id encapsulated sealed.body
                    (confidential_response c sealed call.batch_size r).headers
                  ≡ true)
                of_key.chain verified.0,
            verified.1 ∙ ap (λ p. some (as_bytes (prefixed_hex c p))) same_pubkey,
            rw (sym opens.2, sym opens.3)
                (client_open-seal c laws opens.0 nonce plain sealed.body good n body),
            replies,
          )

      sealed_here :
          (sealed : Sealed)
          → seal_inner b opens.0 nonce call.result ≡ ok sealed
          → IsSealedHere nonce sealed
      sealed_here sealed s = (opens.0, opens.1, random, s)

      serves : ServesOurs encapsulated opens.0 nonce call
      serves = (
        λ e s. unsealable-IsPlain _ _ _ (unsealed nonce opens.0 e opens.1 random s),
        λ sealed e s k. unsealable-IsPlain _ _ _ (unsigned nonce sealed e (sealed_here sealed s) k),
        λ sealed r s k. elim (build_lem c h http_laws sealed call.batch_size r) [
          | inl (bare, e) ↦ inl (bare, refused nonce sealed r (sealed_here sealed s) k e)
          | inr e ↦ inr (subst IsGenuine (sym e) (genuine sealed r s k))
        ],
      )

    -- A sidecar started from the key answers a request that a client encapsulated to the X25519
    -- form of that key with an answer that is genuine: the client, from the headers, verifies a
    -- signature of that key over what it sent and what it received, for the configured chain, and
    -- opens the body with its own secret to the reply to the inner call of its plaintext. Or it
    -- answers a bare 500, for one of the causes: no randomness, no clock, an inner result that
    -- was not sealed, its sealed body that was not signed, or the answer with that body and that
    -- signature, which the builder refuses.
    pub client_gets :
        (resp : Response) × (o : Outcome) × (exchange c h b j upstream signer cfg env req
          ≡ ok (resp, o))
        × (((resp ≡ status_response 500) × Cause) ⊎ IsGenuine resp)
    client_gets =
        exchange-IsAnswer IsOurs c laws h http_laws b j upstream signer consistent cfg env fills req
          open_outer-FailsOnly
          λ outer_req t nonce ctx o.
            subst (λ p. ServesOurs p.0 p.2 nonce (run_inner h b j upstream cfg env p.1))
              (sym (same_request outer_req t nonce ctx o))
              (serves nonce (fills nonce o.nonce_eq) o.nonce_eq)
