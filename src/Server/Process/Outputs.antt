-- ===== src/Server/Process/Outputs.antt =====
-- What a call of src/server.rs does outside: at most one request, and then at most one log line.
use verifiable_rpc_sidecar.Crates.Crypto.{Crypto}
use verifiable_rpc_sidecar.Crates.Dstack.{Dstack}
use verifiable_rpc_sidecar.Crates.Http.{Request, UpstreamRequest, Response, Http}
use verifiable_rpc_sidecar.Crates.Bhttp.{Bhttp}
use verifiable_rpc_sidecar.Crates.Json.{Json}
use verifiable_rpc_sidecar.Crates.Axum.{Axum}
use verifiable_rpc_sidecar.Proxy.Task as Proxy
use verifiable_rpc_sidecar.Proxy.Task.Ends as ProxyEnds
use verifiable_rpc_sidecar.Confidential.Outcome.{LogLine}
use verifiable_rpc_sidecar.Confidential.InnerCall.{Environment}
use verifiable_rpc_sidecar.Confidential.Exchange.{confidential_method_not_allowed}
use verifiable_rpc_sidecar.Confidential.Task as Confidential
use verifiable_rpc_sidecar.Confidential.Task.{Output, sends, logs, Wake, ready, timer, drop_after}
use verifiable_rpc_sidecar.Confidential.Task.Guard as Guard
use verifiable_rpc_sidecar.Server.{AppState, Handler}
use verifiable_rpc_sidecar.Server.Process.{Call, arrived, handler_output, responded, run_call}
use verifiable_rpc_sidecar.Server.Process.Calls.{
  run-of_task, run-of_proxy, run-pending, proxy_wakes, IsPending,
}
use verifiable_rpc_sidecar.Prelude.{
  Result, ok, err, panic, ◌≡◌, refl, sym, ap, subst, ◌⊎◌, inl, inr, map, List, [], ◌∷◌, ◌++◌,
}

-- At most one request, and then at most one log line.
abbrev pub IsNeat : List Output → Type 0
IsNeat out =
    (before : List Output) × ((before ≡ [])
      ⊎ ((up_req : UpstreamRequest) × (before ≡ sends up_req ∷ [])))
    × ((out ≡ before) ⊎ ((line : LogLine) × (out ≡ before ++ logs line ∷ [])))

silent-IsNeat : (out : List Output) → out ≡ [] → IsNeat out
silent-IsNeat out e = ([], inl refl, inl e)

one_request-IsNeat :
    (out : List Output) (up_req : UpstreamRequest) → out ≡ sends up_req ∷ [] → IsNeat out
one_request-IsNeat out up_req e = (sends up_req ∷ [], inr (up_req, refl), inl e)

module _ (c : Crypto) (d : Dstack) (h : Http) (b : Bhttp) (j : Json) (a : Axum) (st : AppState)
    (env : Environment) (req : Request) where
  Logged-IsNeat :
      (line : LogLine) (out : List Output)
      → Guard.Logged c h b j st.upstream st.signing st.confidential env req line out
      → IsNeat out
  Logged-IsNeat line out (before, inl e, k) = (before, inl e, inr (line, k))
  Logged-IsNeat line out (before, inr (u, v, e), k) = (before, inr (u, e), inr (line, k))

  private-IsNeat :
      (task : Confidential.Task b) (out : List Output)
      → Guard.Traced c h b j st.upstream st.signing st.confidential env req task out
      → IsNeat out
  private-IsNeat Confidential.created out v = silent-IsNeat out v
  private-IsNeat Confidential.reading out v = silent-IsNeat out v
  private-IsNeat (Confidential.sending o u) out v = one_request-IsNeat out u v.1
  private-IsNeat (Confidential.receiving o s fs n m) out v = one_request-IsNeat out v.0 v.2
  private-IsNeat (Confidential.finished resp) out v = Logged-IsNeat v.0 out v.2
  private-IsNeat Confidential.unstarted out v = silent-IsNeat out v
  private-IsNeat Confidential.dropped out v = Logged-IsNeat _ out v.1
  private-IsNeat Confidential.panicked out v = Logged-IsNeat _ out v.1

  Sent-IsNeat :
      (sent : List UpstreamRequest)
      → ProxyEnds.Sent c h st.upstream env.net env.clock_after st.signing req sent
      → IsNeat (map sends sent)
  Sent-IsNeat sent (inl e) = silent-IsNeat _ (ap (map sends) e)
  Sent-IsNeat sent (inr (r, u, v, e)) = one_request-IsNeat _ u (ap (map sends) e)

  passing-IsNeat :
      (task : Proxy.Task) (sent : List UpstreamRequest)
      → ProxyEnds.Kept c h st.upstream env.net env.clock_after st.signing req task sent
      → IsNeat (map sends sent)
  passing-IsNeat Proxy.created sent v = silent-IsNeat _ (ap (map sends) v)
  passing-IsNeat Proxy.collecting sent v = silent-IsNeat _ (ap (map sends) v)
  passing-IsNeat (Proxy.sending r u) sent v = one_request-IsNeat _ u (ap (map sends) v.1)
  passing-IsNeat (Proxy.relaying r u) sent v = one_request-IsNeat _ v.0 (ap (map sends) v.3)
  passing-IsNeat (Proxy.finished resp) sent v = Sent-IsNeat sent v.1
  passing-IsNeat Proxy.dropped sent v = Sent-IsNeat sent v
  passing-IsNeat Proxy.panicked sent v = Sent-IsNeat sent v.1

  output-IsNeat : (handler : Handler) → IsNeat (handler_output handler)
  output-IsNeat Handler.confidential_method_not_allowed =
      ([], inl refl, inr (confidential_method_not_allowed.1, refl))
  output-IsNeat Handler.confidential_handler = silent-IsNeat _ refl
  output-IsNeat Handler.attestation_handler = silent-IsNeat _ refl
  output-IsNeat Handler.info_handler = silent-IsNeat _ refl
  output-IsNeat Handler.proxy_handler = silent-IsNeat _ refl
  output-IsNeat Handler.axum_method_not_allowed = silent-IsNeat _ refl

  responded-IsNeat :
      (handler : Handler) (r : Result Response (Unit {0}))
      → IsNeat (responded c d h b j a st env req handler r).1
  responded-IsNeat handler (ok resp) = output-IsNeat handler
  responded-IsNeat handler (err e) = silent-IsNeat _ refl
  responded-IsNeat handler panic = silent-IsNeat _ refl

  pending-IsNeat :
      (handler : Handler) (p : Call b × List Output)
      → IsPending c d h b j a st env req handler p
      → IsNeat p.1
  pending-IsNeat handler p (inl e) = silent-IsNeat _ (ap (λ q. q.1) e)
  pending-IsNeat handler p (inr (inl e)) = silent-IsNeat _ (ap (λ q. q.1) e)
  pending-IsNeat handler p (inr (inr e)) =
      subst IsNeat (sym (ap (λ q. q.1) e)) (responded-IsNeat handler _)

  pub call-IsNeat :
      (handler : Handler) (ws : List Wake)
      → IsNeat (run_call c d h b j a st env req (arrived b handler) ws).1
  call-IsNeat Handler.confidential_handler ws =
      subst IsNeat
        (sym (ap (λ p. p.1) (run-of_task c d h b j a st env req ws Confidential.created)))
        (private-IsNeat _ _
          (Guard.run-Traced c h b j st.upstream st.signing st.confidential env req ws))
  call-IsNeat Handler.proxy_handler ws =
      subst IsNeat (sym (ap (λ p. p.1) (run-of_proxy c d h b j a st env req ws Proxy.created))) (
        passing-IsNeat _ _ (
          ProxyEnds.run-Kept c h st.upstream env.net env.clock_after st.signing req
            (proxy_wakes c d h b j a st env req ws)))
  call-IsNeat Handler.confidential_method_not_allowed ws =
      pending-IsNeat _ _
        (run-pending c d h b j a st env req Handler.confidential_method_not_allowed ws)
  call-IsNeat Handler.attestation_handler ws =
      pending-IsNeat _ _ (run-pending c d h b j a st env req Handler.attestation_handler ws)
  call-IsNeat Handler.info_handler ws =
      pending-IsNeat _ _ (run-pending c d h b j a st env req Handler.info_handler ws)
  call-IsNeat Handler.axum_method_not_allowed ws =
      pending-IsNeat _ _ (run-pending c d h b j a st env req Handler.axum_method_not_allowed ws)
