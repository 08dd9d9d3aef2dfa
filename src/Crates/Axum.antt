-- ===== src/Crates/Axum.antt =====
-- The crates `axum` and `tower-http`, as src/server.rs and src/attestation.rs use them: extraction
-- of a query, responses, and the compression layer.
use verifiable_rpc_sidecar.Crates.Http.{HeaderMap, Uri, Response}
use verifiable_rpc_sidecar.Attestation.{AttestationResponse, AttestationQuery, AttestationError}
use verifiable_rpc_sidecar.Prelude.{
  keep, any, Bytes, bytes_eq, codes, ℕ, ◌≡◌, ◌≢◌, Bool, false, not, Option, some, List, [], ◌∷◌,
}

pub record Axum : Type 0 where
  -- `Query<AttestationQuery>`; `none` is its rejection
  pub query : Uri → Option AttestationQuery
  pub query_rejection : Uri → Response
  -- `Json(response).into_response()` and `(status, error.to_string()).into_response()`
  pub json : AttestationResponse → Response
  pub status_and_text : ℕ → AttestationError → Response
  -- the answer of `get(handler)` to another method
  pub method_not_allowed : Response
  -- what the route of a path adds to a 405: the methods that it allows
  pub allow : Bytes → Response → Response
  -- `CompressionLayer`, on the headers of the request
  pub compress : HeaderMap → Response → Response
  -- what the router does to a response last: content-length, and no body for HEAD
  pub finish : Bytes → Response → Response
  -- the body that an HTTP client reads, decoded by its content-encoding
  pub decoded : Response → Option Bytes

-- The headers that the layers set.
abbrev pub layer_names : List Bytes
layer_names =
    codes "content-encoding" ∷ codes "content-length" ∷ codes "accept-ranges" ∷ codes "vary" ∷ []

abbrev pub is_other : Bytes × Bytes → Bool
is_other (name, value) = not (any (λ n. bytes_eq name n) layer_names)

abbrev pub is_content_encoding : Bytes × Bytes → Bool
is_content_encoding (name, value) = bytes_eq name (codes "content-encoding")

pub record AxumLaws (a : Axum) : Type 0 where
  pub compress-status : (hs : HeaderMap) (r : Response) → (a.compress hs r).status ≡ r.status
  pub compress-headers :
      (hs : HeaderMap) (r : Response)
      → keep is_other (a.compress hs r).headers ≡ keep is_other r.headers
  -- a response that is not encoded is read as it is, and after compression decodes to its body
  pub plain-decoded :
      (r : Response) → any is_content_encoding r.headers ≡ false → a.decoded r ≡ some r.body
  pub compress-decoded :
      (hs : HeaderMap) (r : Response)
      → any is_content_encoding r.headers ≡ false
      → a.decoded (a.compress hs r) ≡ some r.body
  pub finish-status : (method : Bytes) (r : Response) → (a.finish method r).status ≡ r.status
  pub finish-headers :
      (method : Bytes) (r : Response)
      → keep is_other (a.finish method r).headers ≡ keep is_other r.headers
  pub finish-decoded :
      (method : Bytes) (r : Response)
      → method ≢ codes "HEAD"
      → a.decoded (a.finish method r) ≡ a.decoded r
