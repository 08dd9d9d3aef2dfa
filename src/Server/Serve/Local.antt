-- ===== src/Server/Serve/Local.antt =====
-- The routes of src/server.rs that the sidecar answers itself: /attestation, /info, and
-- /confidential for a method that is not POST.
pub mod Tests
use verifiable_rpc_sidecar.Crates.Crypto.{Crypto}
use verifiable_rpc_sidecar.Crates.Dstack.{Dstack}
use verifiable_rpc_sidecar.Crates.Http.{Request, Http}
use verifiable_rpc_sidecar.Attestation.{get}
use verifiable_rpc_sidecar.Attestation
use verifiable_rpc_sidecar.Crates.Bhttp.{Bhttp}
use verifiable_rpc_sidecar.Crates.Json.{Json}
use verifiable_rpc_sidecar.Crates.Axum.{Axum}
use verifiable_rpc_sidecar.Confidential.InnerCall.{Environment}
use verifiable_rpc_sidecar.Server.{
  AppState, Handler, route, get_route, attestation_handler, info_handler, axum_method_not_allowed,
  confidential_method_not_allowed,
}
use verifiable_rpc_sidecar.Server.Serve.{serve, respond}
use verifiable_rpc_sidecar.Prelude.{
  Bool-cases, Bytes, bytes_eq, bytes_eq→eq, codes, ◌≡◌, ◌≢◌, refl, subst, Bool, true, false, ◌||◌,
  ◌&&◌, not, inl, inr,
}

-- A request that is not for the upstream, by its method and path.
abbrev pub is_local : Bytes → Bytes → Bool
is_local method path =
    (bytes_eq path (codes "/confidential") && not (bytes_eq method (codes "POST")))
    || bytes_eq path (codes "/attestation")
    || bytes_eq path (codes "/info")

-- The handlers that read the attestation state at most.
data IsLocal : Handler → Type 0 where
  wrong_method : IsLocal confidential_method_not_allowed
  attested : IsLocal attestation_handler
  informed : IsLocal info_handler
  not_get : IsLocal axum_method_not_allowed

get_route-IsLocal :
    (handler : Handler) (method : Bytes) → IsLocal handler → IsLocal (get_route handler method)
get_route-IsLocal handler method v =
    elim (Bool-cases (bytes_eq method (codes "GET") || bytes_eq method (codes "HEAD"))) [
      | inl e ↦ rw e v
      | inr e ↦ rw e not_get
    ]

route-IsLocal : (method path : Bytes) → is_local method path ≡ true → IsLocal (route method path)
unfolding route
route-IsLocal method path h = elim (Bool-cases (bytes_eq path (codes "/confidential"))) [
  | inl e ↦ elim (Bool-cases (bytes_eq method (codes "POST"))) [
    | inl f ↦
        let own =
          subst (λ p. is_local method p ≡ true) (bytes_eq→eq path (codes "/confidential") e) h in
        absurd (false-ne-true (rw f at own))
    | inr f ↦ rw (e, f) wrong_method
  ]
  | inr e ↦ elim (Bool-cases (bytes_eq path (codes "/attestation"))) [
    | inl f ↦ rw (e, f) (get_route-IsLocal attestation_handler method attested)
    | inr f ↦ elim (Bool-cases (bytes_eq path (codes "/info"))) [
      | inl g ↦ rw (e, f, g) (get_route-IsLocal info_handler method informed)
      | inr g ↦ absurd (false-ne-true (rw (e, f, g) at h))
    ]
  ]
]
  where
    false-ne-true : false ≢ true
    false-ne-true h = cc

module _ (c : Crypto) (d d' : Dstack) (same_quotes : d.get_quote ≡ d'.get_quote) (h : Http)
    (b : Bhttp) (j : Json) (a : Axum) where
  respond-local :
      (handler : Handler) (st st' : AppState) (env env' : Environment) (req : Request)
      → IsLocal handler
      → st.attestation ≡ st'.attestation
      → respond c d h b j a handler st env req ≡ respond c d' h b j a handler st' env' req
  unfolding Attestation.attestation_handler get
  respond-local _ st st' env env' req wrong_method e = refl
  respond-local _ st st' env env' req attested e = rw (same_quotes, e) refl
  respond-local _ st st' env env' req informed e = rw e refl
  respond-local _ st st' env env' req not_get e = refl

  -- A request for /attestation or /info, or one for /confidential whose method is not POST, is
  -- answered from the request, the attestation state and the quotes of the guest agent alone: two
  -- processes that have the same attestation state, and whose agents give the same quotes, or fail
  -- for the same data, give it the same response, whatever else the agents say, whatever their
  -- upstream, their signing state and their limits are, and whatever the network, the clock and the
  -- randomness do.
  pub serve_local :
      (st st' : AppState) (env env' : Environment) (req : Request)
      → is_local req.method req.uri.path ≡ true
      → st.attestation ≡ st'.attestation
      → serve c d h b j a st env req ≡ serve c d' h b j a st' env' req
  unfolding serve
  serve_local st st' env env' req v e =
      rw
        (respond-local (route req.method req.uri.path) st st' env env' req
          (route-IsLocal req.method req.uri.path v) e)
        refl
