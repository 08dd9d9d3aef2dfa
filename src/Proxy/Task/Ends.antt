-- ===== src/Proxy/Task/Ends.antt =====
-- Every run of a request through src/proxy.rs against `forward` as one function.
use verifiable_rpc_sidecar.Crates.Crypto.{Crypto}
use verifiable_rpc_sidecar.Crates.Http.{Request, UpstreamRequest, UpstreamResponse, Response, Http}
use verifiable_rpc_sidecar.Signing.{SigningState, SignedResponse, Reading}
use verifiable_rpc_sidecar.Proxy.{
  UpstreamClient, Net, body_cap, upstream_request, collect_request, collect_upstream_response,
  sign_or_500, forward, run_pipeline, send_upstream,
}
use verifiable_rpc_sidecar.Proxy.Task.{
  Task, created, collecting, dropped, panicked, sending, relaying, finished, Wake, ready, dropping,
  start_send, start_request, start_relay, signed_end, relay_end, wake, run,
}
use verifiable_rpc_sidecar.Prelude.{
  Result, Bytes, ok, err, panic, ℕ, ◌≡◌, refl, sym, subst, ◌⊎◌, inl, inr, Option, none, some, List,
  [], ◌∷◌, ◌++◌, append-nil, append_assoc,
}

module _ (c : Crypto) (h : Http) (client : UpstreamClient) (net : Net) (clock : Reading)
    (signer : SigningState) (req : Request) where
  abbrev cap : ℕ
  cap = body_cap client.max_body_bytes

  -- The request that the client's request becomes, behind its collected body.
  abbrev pub IsOwn : Bytes → UpstreamRequest → Type 0
  IsOwn request_bytes up_req =
      (collect_request h req cap ≡ ok request_bytes)
      × (upstream_request h client req request_bytes ≡ ok up_req)

  -- Nothing was sent, or that request alone.
  abbrev pub Sent : List UpstreamRequest → Type 0
  Sent sent =
      (sent ≡ [])
      ⊎ ((request_bytes : Bytes) × (up_req : UpstreamRequest) × IsOwn request_bytes up_req
          × (sent ≡ up_req ∷ []))

  -- What is known of a request where it stands: what it has sent, and the answer at its end.
  abbrev pub Kept : Task → List UpstreamRequest → Type 0
  Kept created sent = sent ≡ []
  Kept collecting sent = sent ≡ []
  Kept (sending request_bytes up_req) sent = IsOwn request_bytes up_req × (sent ≡ up_req ∷ [])
  Kept (relaying request_bytes up_resp) sent =
      (up_req : UpstreamRequest) × IsOwn request_bytes up_req
      × (net up_req ≡ some up_resp)
      × (sent ≡ up_req ∷ [])
  Kept (finished resp) sent = (forward c h client net clock req signer ≡ ok resp) × Sent sent
  Kept dropped sent = Sent sent
  Kept panicked sent = (forward c h client net clock req signer ≡ panic) × Sent sent

  start_send-Kept :
      (d : Bytes) (r : Result UpstreamRequest Response)
      → collect_request h req cap ≡ ok d
      → upstream_request h client req d ≡ r
      → let p = start_send c h client net clock signer req d r in Kept p.0 p.1
  unfolding forward run_pipeline send_upstream
  start_send-Kept d (ok up_req) e k = ((e, k), refl)
  start_send-Kept d (err early) e k = (rw (e, k) refl, inl refl)
  start_send-Kept d panic e k = (rw (e, k) refl, inl refl)

  start_request-Kept :
      (r : Result Bytes Response)
      → collect_request h req cap ≡ r
      → let p = start_request c h client net clock signer req r in Kept p.0 p.1
  unfolding forward run_pipeline
  start_request-Kept (ok d) e = start_send-Kept d _ e refl
  start_request-Kept (err early) e = (rw e refl, inl refl)
  start_request-Kept panic e = (rw e refl, inl refl)

  start_relay-Kept :
      (d : Bytes) (up_req : UpstreamRequest) (answer : Option UpstreamResponse)
      → IsOwn d up_req
      → net up_req ≡ answer
      → let p = start_relay c h client net clock signer req d answer in Kept p.0 (up_req ∷ p.1)
  unfolding forward run_pipeline send_upstream
  start_relay-Kept d up_req none v k = (rw (v.0, v.1, k) refl, inr (d, up_req, v, refl))
  start_relay-Kept d up_req (some up_resp) v k = (up_req, v, k, refl)

  -- The end of the pipeline behind the answer's body.
  relay_end-Kept :
      (d : Bytes) (up_req : UpstreamRequest) (up_resp : UpstreamResponse)
      (r : Result Bytes Response)
      → IsOwn d up_req
      → net up_req ≡ some up_resp
      → collect_upstream_response h up_resp cap ≡ r
      → Kept (relay_end c h client net clock signer req d up_resp r) (up_req ∷ [])
  unfolding forward run_pipeline send_upstream
  relay_end-Kept d up_req up_resp (ok answer) v k e =
      by_signature (sign_or_500 c signer d answer clock) refl
    where
      by_signature :
          (r : Result SignedResponse Response)
          → sign_or_500 c signer d answer clock ≡ r
          → Kept (signed_end c h client net clock signer req up_resp answer r) (up_req ∷ [])
      by_signature (ok signed) s = (rw (v.0, v.1, k, e, s) refl, inr (d, up_req, v, refl))
      by_signature (err early) s = (rw (v.0, v.1, k, e, s) refl, inr (d, up_req, v, refl))
      by_signature panic s = (rw (v.0, v.1, k, e, s) refl, inr (d, up_req, v, refl))
  relay_end-Kept d up_req up_resp (err early) v k e =
      (rw (v.0, v.1, k, e) refl, inr (d, up_req, v, refl))
  relay_end-Kept d up_req up_resp panic v k e = (rw (v.0, v.1, k, e) refl, inr (d, up_req, v, refl))

  over-Kept : (task : Task) (sent : List UpstreamRequest) → Kept task sent → Kept task (sent ++ [])
  over-Kept task sent v = subst (Kept task) (sym (append-nil sent)) v

  wake-Kept :
      (task : Task) (sent : List UpstreamRequest) (w : Wake)
      → Kept task sent
      → let p = wake c h client net clock signer req task w in Kept p.0 (sent ++ p.1)
  unfolding wake
  wake-Kept created sent ready v = rw v refl
  wake-Kept created sent dropping v = rw v (inl refl)
  wake-Kept collecting sent ready v = rw v (start_request-Kept (collect_request h req cap) refl)
  wake-Kept collecting sent dropping v = rw v (inl refl)
  wake-Kept (sending d up_req) sent ready v =
      rw v.1 (start_relay-Kept d up_req (net up_req) v.0 refl)
  wake-Kept (sending d up_req) sent dropping v = rw v.1 (inr (d, up_req, v.0, refl))
  wake-Kept (relaying d up_resp) sent ready v =
      rw v.3 (relay_end-Kept d v.0 up_resp (collect_upstream_response h up_resp cap) v.1 v.2 refl)
  wake-Kept (relaying d up_resp) sent dropping v = rw v.3 (inr (d, v.0, v.1, refl))
  wake-Kept (finished resp) sent w v = over-Kept (finished resp) sent v
  wake-Kept dropped sent w v = over-Kept dropped sent v
  wake-Kept panicked sent w v = over-Kept panicked sent v

  run-Kept_from :
      (ws : List Wake) (task : Task) (sent : List UpstreamRequest)
      → Kept task sent
      → let p = run c h client net clock signer req task ws in Kept p.0 (sent ++ p.1)
  unfolding run
  run-Kept_from [] task sent v = over-Kept task sent v
  run-Kept_from (w ∷ ws) task sent v =
      let p = wake c h client net clock signer req task w in
      subst (Kept (run c h client net clock signer req p.0 ws).0) (append_assoc sent _ _)
        (run-Kept_from ws p.0 (sent ++ p.1) (wake-Kept task sent w v))

  -- However a request is woken, and wherever it is dropped: nothing was sent, or one request, which
  -- is the one built from the client's request and its collected body, and no request before that
  -- body is there; and a request that came to its end has the answer of `forward`.
  pub run-Kept :
      (ws : List Wake) → let p = run c h client net clock signer req created ws in Kept p.0 p.1
  run-Kept ws = run-Kept_from ws created [] refl
