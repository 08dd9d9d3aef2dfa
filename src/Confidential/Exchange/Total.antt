-- ===== src/Confidential/Exchange/Total.antt =====
-- `confidential_exchange` of src/confidential.rs always answers, and its log line tells the answer.
use verifiable_rpc_sidecar.Crates.Crypto.{Crypto, CryptoLaws}
use verifiable_rpc_sidecar.Crates.Http.{
  Request, Response, Http, HttpLaws, Collected, collected, length_limit, transport_error,
}
use verifiable_rpc_sidecar.Crates.Bhttp.{Bhttp}
use verifiable_rpc_sidecar.Crates.Json.{Json}
use verifiable_rpc_sidecar.Envelope.Open.{open_request-ne-panic}
use verifiable_rpc_sidecar.Signing.{
  SigningState, Reading, now_ms, open_request, before_epoch, after_epoch,
}
use verifiable_rpc_sidecar.Signing.Verify.{IsConsistent}
use verifiable_rpc_sidecar.Proxy.{UpstreamClient, status_response}
use verifiable_rpc_sidecar.Confidential.Errors.{OutcomeClass, ohttp_key_problem}
use verifiable_rpc_sidecar.Confidential.Outcome.{
  Outcome, plaintext, unsealable, plaintext_500, pre_decapsulation_error, plaintext_response,
  LogLine, log_outcome, drop_guard,
}
use verifiable_rpc_sidecar.Confidential.InnerCall.{ConfidentialConfig, Environment, run_inner}
use verifiable_rpc_sidecar.Confidential.Exchange.{
  read_outer, bytes_or_outcome, open_outer, confidential_exchange,
}
use verifiable_rpc_sidecar.Confidential.Exchange.Served.{build_lem}
use verifiable_rpc_sidecar.Confidential.Exchange.Ends.{Fills, exchange-IsAnswer}
use verifiable_rpc_sidecar.Confidential.Exchange.Ends
use verifiable_rpc_sidecar.Prelude.{
  leb, Bool-cases, length, ok_or, map_err, ok-ne-panic, err-ne-panic, FailsOnly, ok_or-FailsOnly,
  map_err-FailsOnly, >>=-FailsOnly, Bytes, u64_max, ok, panic, ℕ, ◌≡◌, refl, sym, ap, ◌≢◌, ◌⊎◌, inl,
  inr, some,
}

-- An answer whose body has the length that is logged for it, unless it is a bare 500.
abbrev IsTruthful : Response → Outcome → Type 0
IsTruthful resp o = (resp ≡ status_response 500) ⊎ (o.response_bytes ≡ length resp.body)

abbrev IsPlain : Outcome → Type 0
IsPlain = Ends.IsPlain IsTruthful

unsealable-IsPlain : (n batch_size ms : ℕ) → IsPlain (unsealable n batch_size ms)
unfolding unsealable plaintext plaintext_response plaintext_500
unsealable-IsPlain n batch_size ms = inl refl

refused-IsPlain :
    (n : ℕ) → IsPlain (plaintext OutcomeClass.pre_decapsulation n (length ohttp_key_problem))
unfolding plaintext plaintext_response pre_decapsulation_error
refused-IsPlain n = inr refl

bytes_or_outcome-FailsOnly : (r : Collected) → FailsOnly IsPlain (bytes_or_outcome r)
unfolding plaintext plaintext_response
bytes_or_outcome-FailsOnly (collected bytes) = tt
bytes_or_outcome-FailsOnly length_limit = inr refl
bytes_or_outcome-FailsOnly transport_error = inr refl

pub now_ms-ne-panic : (clock : Reading) → now_ms clock ≢ panic
unfolding now_ms
now_ms-ne-panic before_epoch = err-ne-panic
now_ms-ne-panic (after_epoch ms) = elim (Bool-cases (leb ms u64_max)) [
  | inl e ↦ rw e ok-ne-panic
  | inr e ↦ rw e err-ne-panic
]

module _ (c : Crypto) (laws : CryptoLaws c) (h : Http) (http_laws : HttpLaws h) (b : Bhttp)
    (j : Json) (upstream : UpstreamClient) (signer : SigningState) (v : IsConsistent c signer)
    (cfg : ConfidentialConfig) (env : Environment) (fills : Fills env) (req : Request) where
  open_outer-FailsOnly : FailsOnly IsPlain (open_outer c h signer cfg env req)
  unfolding open_outer read_outer
  open_outer-FailsOnly =
      >>=-FailsOnly IsPlain (bytes_or_outcome (h.collect_limited req.body cfg.max_request_bytes)) _
        (bytes_or_outcome-FailsOnly _)
        λ d e.
          >>=-FailsOnly IsPlain (map_err _ (open_request c signer d)) _
            (map_err-FailsOnly IsPlain _ (open_request c signer d) (opens d)
              λ e. refused-IsPlain (length d))
            λ t e.
              >>=-FailsOnly IsPlain (ok_or _ env.getrandom) _
                (ok_or-FailsOnly IsPlain _ env.getrandom (unsealable-IsPlain (length d) 0 0))
                λ n e.
                  >>=-FailsOnly IsPlain (map_err _ (now_ms env.clock_before)) _
                    (map_err-FailsOnly IsPlain _ (now_ms env.clock_before)
                      (now_ms-ne-panic env.clock_before) λ e. unsealable-IsPlain (length d) 0 0)
                    λ ms e. tt
    where
      opens : (d : Bytes) → open_request c signer d ≢ panic
      opens d = unfold open_request in open_request-ne-panic c signer.kem_secret d

  -- With a consistent signing state and a getrandom that fills its 32 bytes or fails, a call of
  -- `/confidential` is always answered, whatever the client, the upstream and the clock do, and
  -- its log line has the status of the answer, and the length of its body unless the answer is
  -- a bare 500.
  pub confidential_exchange_answers :
      (resp : Response) × (line : LogLine) × (confidential_exchange c h b j upstream signer cfg env
          req
        ≡ ok (resp, line))
      × (line.status ≡ resp.status)
      × ((resp ≡ status_response 500) ⊎ (line.response_bytes ≡ length resp.body))
  unfolding confidential_exchange drop_guard log_outcome
  confidential_exchange_answers =
      let (resp, o, done, truthful) =
        exchange-IsAnswer IsTruthful c laws h http_laws b j upstream signer v cfg env fills req
          open_outer-FailsOnly
          λ outer_req text nonce ctx o. (
            λ e s. unsealable-IsPlain _ _ _,
            λ sealed e s k. unsealable-IsPlain _ _ _,
            λ sealed r s k.
                elim (build_lem c h http_laws sealed
                  (run_inner h b j upstream cfg env text).batch_size r) [
                    | inl (k, e) ↦ inl k
                    | inr k ↦ inr (sym (ap (λ x. length x.body) k))
                  ],
          ) in
      (resp, drop_guard (some (o, resp.status)) env.elapsed, rw done refl, refl, truthful)
