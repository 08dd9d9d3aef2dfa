-- ===== src/Confidential/Exchange/Ends.antt =====
-- How an exchange of src/confidential.rs ends, for any property of its answer and its outcome.
use verifiable_rpc_sidecar.Crates.Crypto.{Crypto, CryptoLaws}
use verifiable_rpc_sidecar.Crates.Http.{Request, Response, Http, HttpLaws}
use verifiable_rpc_sidecar.Crates.Bhttp.{Bhttp}
use verifiable_rpc_sidecar.Crates.Json.{Json}
use verifiable_rpc_sidecar.Envelope.{ResponseContext}
use verifiable_rpc_sidecar.Envelope.Seal.{IsSealable, open_request-IsSealable}
use verifiable_rpc_sidecar.Signing.{SigningState, SignedResponse, SigningError, sign, open_request}
use verifiable_rpc_sidecar.Signing.Verify.{IsConsistent, sign-Ends}
use verifiable_rpc_sidecar.Proxy.{UpstreamClient}
use verifiable_rpc_sidecar.Proxy.Total.{Ends-ne-panic}
use verifiable_rpc_sidecar.Confidential.Outcome.{Outcome, unsealable, plaintext_response}
use verifiable_rpc_sidecar.Confidential.InnerCall.{
  ConfidentialConfig, Environment, InnerCall, Sealed, run_inner, seal_inner,
}
use verifiable_rpc_sidecar.Confidential.InnerCall.Total.{run_inner-ne-panic}
use verifiable_rpc_sidecar.Confidential.InnerCall.Seal.{seal_inner-FailsOnly}
use verifiable_rpc_sidecar.Confidential.Exchange.{
  open_outer, answer, sealed_exchange, exchange, done_or_plaintext, serve_opened,
  build_confidential_response,
}
use verifiable_rpc_sidecar.Confidential.Exchange.Sent.{Opened, open_outer-Opened}
use verifiable_rpc_sidecar.Confidential.Exchange.Served.{sealed_outcome}
use verifiable_rpc_sidecar.Prelude.{
  length, Result, ◌>>=◌, map_err, map_err-ok, FailsOnly, FailsOnly-ne-panic, map_err-FailsOnly_of,
  Bytes, ok, err, panic, ◌≡◌, refl, ◌≢◌, some,
}

-- `getrandom` fills its buffer of 32 bytes, or fails.
abbrev pub Fills : Environment → Type 0
Fills env = (nonce : Bytes) → env.getrandom ≡ some nonce → length nonce ≡ 32

module _ (Q : Response → Outcome → Type 0) where
  -- An outcome whose answer in plaintext has the property.
  abbrev pub IsPlain : Outcome → Type 0
  IsPlain o = Q (plaintext_response o.class) o

  -- An exchange that ends in an answer with the property.
  abbrev pub IsAnswer : Result (Response × Outcome) Outcome → Type 0
  IsAnswer (ok (resp, o)) = Q resp o
  IsAnswer (err o) = IsPlain o
  IsAnswer panic = ⊥

  >>=-IsAnswer :
      {A : Type 0} (m : Result A Outcome) (f : A → Result (Response × Outcome) Outcome)
      → FailsOnly IsPlain m
      → ((a : A) → m ≡ ok a → IsAnswer (f a))
      → IsAnswer (m >>= f)
  >>=-IsAnswer (ok a) f h k = k a refl
  >>=-IsAnswer (err o) f h k = h
  >>=-IsAnswer panic f h k = h

  module _ (c : Crypto) (laws : CryptoLaws c) (h : Http) (http_laws : HttpLaws h) (b : Bhttp)
      (j : Json) (upstream : UpstreamClient) (signer : SigningState) (v : IsConsistent c signer)
      (cfg : ConfidentialConfig) (env : Environment) (fills : Fills env) (req : Request) where
    -- What is left of an opened call when its result is not sealed, or not signed.
    abbrev failed_outcome : Bytes → InnerCall b → Outcome
    failed_outcome outer_req call = unsealable (length outer_req) call.batch_size call.upstream_ms

    -- The property of an opened call in each way to end: not sealed, sealed and not signed, and
    -- sealed and signed.
    abbrev pub Serves : Bytes → ResponseContext → Bytes → InnerCall b → Type 0
    Serves outer_req ctx nonce call =
        ((e : Unit {0})
          → seal_inner b ctx nonce call.result ≡ err e
          → IsPlain (failed_outcome outer_req call))
        × ((sealed : Sealed) (e : SigningError)
            → seal_inner b ctx nonce call.result ≡ ok sealed
            → sign c signer outer_req sealed.body env.clock_after ≡ err e
            → IsPlain (failed_outcome outer_req call))
        × ((sealed : Sealed) (r : SignedResponse)
            → seal_inner b ctx nonce call.result ≡ ok sealed
            → sign c signer outer_req sealed.body env.clock_after ≡ ok r
            → Q (build_confidential_response c h sealed.inner_status call.batch_size sealed.body r)
                (sealed_outcome sealed (length outer_req) call.batch_size call.upstream_ms))

    answer-IsAnswer :
        (ctx : ResponseContext) (s : IsSealable c ctx) (nonce : Bytes) (n : length nonce ≡ 32)
        (call : InnerCall b) (outer_req : Bytes)
        → call.result ≢ panic
        → Serves outer_req ctx nonce call
        → IsAnswer (answer c h b signer env outer_req ctx nonce call)
    unfolding answer
    answer-IsAnswer ctx s nonce n call outer_req p (unsealed, unsigned, served) =
        >>=-IsAnswer (map_err _ (seal_inner b ctx nonce call.result)) _
          (map_err-FailsOnly_of IsPlain _ (seal_inner b ctx nonce call.result)
            (FailsOnly-ne-panic (λ e. Unit)
              (seal_inner-FailsOnly c laws b ctx s nonce n call.result p))
            unsealed)
          λ sealed e.
            >>=-IsAnswer (map_err _ (sign c signer outer_req sealed.body env.clock_after)) _
              (map_err-FailsOnly_of IsPlain _ (sign c signer outer_req sealed.body env.clock_after)
                (Ends-ne-panic c laws signer v
                  (sign-Ends c laws signer v outer_req sealed.body env.clock_after))
                λ x k. unsigned sealed x (map_err-ok _ _ e) k)
              λ r e'. served sealed r (map_err-ok _ _ e) (map_err-ok _ _ e')

    served :
        (r : Result (Bytes × Bytes × ResponseContext × Bytes) Outcome)
        → open_outer c h signer cfg env req ≡ r
        → FailsOnly IsPlain r
        → ((outer_req text nonce : Bytes) (ctx : ResponseContext)
            → Opened c h signer cfg env req outer_req text ctx nonce
            → Serves outer_req ctx nonce (run_inner h b j upstream cfg env text))
        → IsAnswer (serve_opened c h b j upstream signer cfg env r).0
    unfolding open_request
    served (ok (outer_req, text, ctx, nonce)) e f k =
        let o = open_outer-Opened c h signer cfg env req outer_req text nonce ctx e in
        answer-IsAnswer ctx (open_request-IsSealable c laws signer.kem_secret outer_req o.opens)
          nonce (fills nonce o.nonce_eq) (run_inner h b j upstream cfg env text) outer_req
          (run_inner-ne-panic h http_laws b j upstream cfg env text) (k outer_req text nonce ctx o)
    served (err o) e f k = f
    served panic e f k = f

    abbrev Ended : Result (Response × Outcome) Outcome → Type 0
    Ended r = (resp : Response) × (o : Outcome) × (r ≡ ok (resp, o)) × Q resp o

    ended :
        (r : Result (Response × Outcome) Outcome) → IsAnswer r → Ended (done_or_plaintext c h b j r)
    ended (ok (resp, o)) a = (resp, o, refl, a)
    ended (err o) a = (_, o, refl, a)
    ended panic a = absurd a

    -- An exchange is answered, with the property if every answer in plaintext and every sealed
    -- answer has it.
    pub exchange-IsAnswer :
        FailsOnly IsPlain (open_outer c h signer cfg env req)
        → ((outer_req text nonce : Bytes) (ctx : ResponseContext)
            → Opened c h signer cfg env req outer_req text ctx nonce
            → Serves outer_req ctx nonce (run_inner h b j upstream cfg env text))
        → (resp : Response) × (o : Outcome) × (exchange c h b j upstream signer cfg env req
            ≡ ok (resp, o))
          × Q resp o
    unfolding exchange sealed_exchange
    exchange-IsAnswer f k =
        ended (sealed_exchange c h b j upstream signer cfg env req).0
          (served (open_outer c h signer cfg env req) refl f k)
