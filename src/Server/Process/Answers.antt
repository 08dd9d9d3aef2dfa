-- ===== src/Server/Process/Answers.antt =====
-- The answer of a call of src/server.rs, however it is woken.
use verifiable_rpc_sidecar.Crates.Crypto.{Crypto}
use verifiable_rpc_sidecar.Crates.Dstack.{Dstack}
use verifiable_rpc_sidecar.Crates.Http.{Request, UpstreamRequest, Response, Http}
use verifiable_rpc_sidecar.Crates.Bhttp.{Bhttp}
use verifiable_rpc_sidecar.Crates.Json.{Json}
use verifiable_rpc_sidecar.Crates.Axum.{Axum}
use verifiable_rpc_sidecar.Proxy.Task as Proxy
use verifiable_rpc_sidecar.Proxy.Task.Ends as ProxyEnds
use verifiable_rpc_sidecar.Confidential.InnerCall.{Environment}
use verifiable_rpc_sidecar.Confidential.Task as Confidential
use verifiable_rpc_sidecar.Confidential.Task.{Output, sends, logs, Wake, ready, timer, drop_after}
use verifiable_rpc_sidecar.Confidential.Task.Ends.{timing}
use verifiable_rpc_sidecar.Confidential.Task.Runs.{run_refines}
use verifiable_rpc_sidecar.Server.{AppState, Handler, route}
use verifiable_rpc_sidecar.Server.Serve.{serve, respond, layered}
use verifiable_rpc_sidecar.Server.Process.{
  Call, pending, answered, arrived, of_private, of_passing, responded, run_call,
}
use verifiable_rpc_sidecar.Server.Process.Calls.{
  run-of_task, run-of_proxy, run-pending, proxy_wakes,
}
use verifiable_rpc_sidecar.Prelude.{
  none-ne-some, some-injective, Result, ok, err, panic, ◌≡◌, refl, sym, ap, ◌∙◌, inl, inr, Bool,
  false, Option, none, some, List,
}

module _ (c : Crypto) (d : Dstack) (h : Http) (b : Bhttp) (j : Json) (a : Axum) (st : AppState)
    (env : Environment) (req : Request) where
  abbrev finished_by : Handler → Response → Response
  finished_by handler resp = a.finish req.method (layered c d h b j a handler req resp)

  abbrev routed : Handler
  routed = route req.method req.uri.path

  -- The answer of `serve` under one of the timings of the upstream's answer.
  abbrev pub IsServed : Response → Type 0
  IsServed resp = (t : Bool) × (serve c d h b j a st (timing env t) req ≡ ok resp)

  of_respond :
      (t : Bool) (handler : Handler) (resp : Response)
      → routed ≡ handler
      → respond c d h b j a handler st (timing env t) req ≡ ok resp
      → serve c d h b j a st (timing env t) req ≡ ok (finished_by handler resp)
  unfolding serve
  of_respond t handler resp r e = rw r (rw e refl)

  abbrev answer_of : Call b → Option Response
  answer_of (answered resp) = some resp
  answer_of _ = none

  answered-injective :
      (r resp : Response) → ◌≡◌ {A = Call b} (answered r) (answered resp) → r ≡ resp
  answered-injective r resp e = some-injective (ap answer_of e)

  no_answer : (call : Call b) (resp : Response) → answer_of call ≡ none → call ≡ answered resp → ⊥
  no_answer call resp n e = none-ne-some (sym n ∙ ap answer_of e)

  -- A task of /confidential that has answered.
  private-IsServed :
      (task : Confidential.Task b) (resp : Response) (ws : List Wake) (out : List Output)
      → routed ≡ Handler.confidential_handler
      → Confidential.run c h b j st.upstream st.signing st.confidential env req Confidential.created
          ws
        ≡ (task, out)
      → of_private c d h b j a st env req task ≡ answered resp
      → IsServed resp
  private-IsServed (Confidential.finished r) resp ws out k e f =
      let (t, line, done, outs) =
        run_refines c h b j st.upstream st.signing st.confidential env req ws r out e in
      (
        t,
        of_respond t Handler.confidential_handler r k (rw done refl)
            ∙ ap ok (answered-injective _ resp f),
      )
  private-IsServed Confidential.created resp ws out k e f = absurd (no_answer _ resp refl f)
  private-IsServed Confidential.reading resp ws out k e f = absurd (no_answer _ resp refl f)
  private-IsServed Confidential.unstarted resp ws out k e f = absurd (no_answer _ resp refl f)
  private-IsServed Confidential.dropped resp ws out k e f = absurd (no_answer _ resp refl f)
  private-IsServed Confidential.panicked resp ws out k e f = absurd (no_answer _ resp refl f)
  private-IsServed (Confidential.sending o u) resp ws out k e f = absurd (no_answer _ resp refl f)
  private-IsServed (Confidential.receiving o s fs n m) resp ws out k e f =
      absurd (no_answer _ resp refl f)

  -- A task of the pass-through that has answered.
  passing-IsServed :
      (task : Proxy.Task) (sent : List UpstreamRequest) (resp : Response)
      → routed ≡ Handler.proxy_handler
      → ProxyEnds.Kept c h st.upstream env.net env.clock_after st.signing req task sent
      → of_passing c d h b j a st env req task ≡ answered resp
      → IsServed resp
  passing-IsServed (Proxy.finished r) sent resp k v f = (
    false,
    of_respond false Handler.proxy_handler r k (rw (v.0) refl)
        ∙ ap ok (answered-injective _ resp f),
  )
  passing-IsServed Proxy.created sent resp k v f = absurd (no_answer _ resp refl f)
  passing-IsServed Proxy.collecting sent resp k v f = absurd (no_answer _ resp refl f)
  passing-IsServed Proxy.dropped sent resp k v f = absurd (no_answer _ resp refl f)
  passing-IsServed Proxy.panicked sent resp k v f = absurd (no_answer _ resp refl f)
  passing-IsServed (Proxy.sending r u) sent resp k v f = absurd (no_answer _ resp refl f)
  passing-IsServed (Proxy.relaying r u) sent resp k v f = absurd (no_answer _ resp refl f)

  -- A handler with one await that has answered.
  responded-IsServed :
      (handler : Handler) (r : Result Response (Unit {0})) (resp : Response)
      → routed ≡ handler
      → respond c d h b j a handler st (timing env false) req ≡ r
      → (responded c d h b j a st env req handler r).0 ≡ answered resp
      → IsServed resp
  responded-IsServed handler (ok r) resp k e f =
      (false, of_respond false handler r k e ∙ ap ok (answered-injective _ resp f))
  responded-IsServed handler (err e') resp k e f = absurd (no_answer _ resp refl f)
  responded-IsServed handler panic resp k e f = absurd (no_answer _ resp refl f)

  pending-IsServed :
      (handler : Handler) (ws : List Wake) (resp : Response)
      → routed ≡ handler
      → respond c d h b j a handler st (timing env false) req
        ≡ respond c d h b j a handler st env req
      → (run_call c d h b j a st env req (pending handler) ws).0 ≡ answered resp
      → IsServed resp
  pending-IsServed handler ws resp k e f = elim (run-pending c d h b j a st env req handler ws) [
    | inl w ↦ absurd (no_answer _ resp refl (sym (ap (λ p. p.0) w) ∙ f))
    | inr g ↦ elim g [
      | inl w ↦ absurd (no_answer _ resp refl (sym (ap (λ p. p.0) w) ∙ f))
      | inr w ↦ responded-IsServed handler _ resp k e (sym (ap (λ p. p.0) w) ∙ f)
    ]
  ]

  -- Whatever wakes a call, if it ends with a response, that is the one that `serve` gives, under
  -- one of the two timings of the upstream's answer.
  pub call-IsServed :
      (handler : Handler) (ws : List Wake) (resp : Response)
      → routed ≡ handler
      → (run_call c d h b j a st env req (arrived b handler) ws).0 ≡ answered resp
      → IsServed resp
  call-IsServed Handler.confidential_handler ws resp k e =
      private-IsServed _ resp ws _ k refl
        (sym (ap (λ p. p.0) (run-of_task c d h b j a st env req ws Confidential.created)) ∙ e)
  call-IsServed Handler.proxy_handler ws resp k e =
      passing-IsServed _ _ resp k
        (ProxyEnds.run-Kept c h st.upstream env.net env.clock_after st.signing req
          (proxy_wakes c d h b j a st env req ws))
        (sym (ap (λ p. p.0) (run-of_proxy c d h b j a st env req ws Proxy.created)) ∙ e)
  call-IsServed Handler.confidential_method_not_allowed ws resp k e =
      pending-IsServed Handler.confidential_method_not_allowed ws resp k refl e
  call-IsServed Handler.attestation_handler ws resp k e =
      pending-IsServed Handler.attestation_handler ws resp k refl e
  call-IsServed Handler.info_handler ws resp k e =
      pending-IsServed Handler.info_handler ws resp k refl e
  call-IsServed Handler.axum_method_not_allowed ws resp k e =
      pending-IsServed Handler.axum_method_not_allowed ws resp k refl e
