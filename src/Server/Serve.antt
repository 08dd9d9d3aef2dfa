-- ===== src/Server/Serve.antt =====
-- The router of src/server.rs with its handlers and its layers: a request to its response.
pub mod Total
pub mod Parts
pub mod Local
pub mod Private
pub mod Signed
pub mod Tests
use verifiable_rpc_sidecar.Crates.Crypto.{Crypto}
use verifiable_rpc_sidecar.Crates.Dstack.{Dstack}
use verifiable_rpc_sidecar.Crates.Http.{Uri, Request, Response, Http}
use verifiable_rpc_sidecar.Crates.Bhttp.{Bhttp}
use verifiable_rpc_sidecar.Crates.Json.{Json}
use verifiable_rpc_sidecar.Crates.Axum.{Axum}
use verifiable_rpc_sidecar.Attestation.{
  AttestationState, AttestationQuery, AttestationResponse, AttestationError, attestation_handler,
  info_handler,
}
use verifiable_rpc_sidecar.Proxy.{forward}
use verifiable_rpc_sidecar.Confidential.InnerCall.{Environment}
use verifiable_rpc_sidecar.Confidential.Exchange.{
  confidential_exchange, confidential_method_not_allowed,
}
use verifiable_rpc_sidecar.Server.{
  AppState, Handler, route, is_compressed, confidential_handler, axum_method_not_allowed,
  proxy_handler,
}
use verifiable_rpc_sidecar.Server
use verifiable_rpc_sidecar.Prelude.{
  if◌then◌else◌, Result, ◌>>=◌, ◌>>◌, map_err, ok, err, panic, ℕ, Option, none, some,
}

module _ (c : Crypto) (d : Dstack) (h : Http) (b : Bhttp) (j : Json) (a : Axum) where
  -- `Result<Json<AttestationResponse>, (StatusCode, String)>` as a response
  abbrev pub attestation_response :
      Result AttestationResponse (ℕ × AttestationError) → Result Response (Unit {0})
  attestation_response (ok att) = ok (a.json att)
  attestation_response (err (status, e)) = ok (a.status_and_text status e)
  attestation_response panic = panic

  abbrev pub attestation_for :
      AttestationState → Uri → Option AttestationQuery → Result Response (Unit {0})
  attestation_for st uri none = ok (a.query_rejection uri)
  attestation_for st uri (some query) = attestation_response (attestation_handler c d st query)

  -- The response of a handler. The pass-through signs at the second reading of the clock.
  abbrev pub respond : Handler → AppState → Environment → Request → Result Response (Unit {0})
  respond Handler.confidential_handler st env req =
      map_err (λ e. tt)
        (confidential_exchange c h b j st.upstream st.signing st.confidential env req)
      >>= λ p. ok p.0
  respond Handler.confidential_method_not_allowed st env req =
      ok (a.allow req.uri.path confidential_method_not_allowed.0)
  respond Handler.attestation_handler st env req =
      attestation_for st.attestation req.uri (a.query req.uri)
  respond Handler.info_handler st env req = ok (info_handler st.attestation)
  respond Handler.proxy_handler st env req =
      map_err (λ e. tt) (forward c h st.upstream env.net env.clock_after req st.signing)
  respond Handler.axum_method_not_allowed st env req =
      ok (a.allow req.uri.path a.method_not_allowed)

  -- The compression layer, on the routes that have it.
  abbrev pub layered : Handler → Request → Response → Response
  layered handler req resp = if is_compressed handler then a.compress req.headers resp else resp

  -- A request through the router that `build_router` makes.
  unfoldable pub serve : AppState → Environment → Request → Result Response (Unit {0})
  serve st env req = do
    let handler = route req.method req.uri.path
    resp ← respond handler st env req
    ok (a.finish req.method (layered handler req resp))
