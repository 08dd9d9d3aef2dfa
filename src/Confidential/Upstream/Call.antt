-- ===== src/Confidential/Upstream/Call.antt =====
-- The request that `call_upstream` of src/confidential/upstream.rs builds.
use verifiable_rpc_sidecar.Crates.Http.{UpstreamRequest, Http, HttpLaws, Uri}
use verifiable_rpc_sidecar.Proxy.{
  UpstreamClient, origin_path_and_query, origin_uri, trim_end_slashes,
}
use verifiable_rpc_sidecar.Confidential.Errors.{InnerError}
use verifiable_rpc_sidecar.Proxy.{max_path_and_query}
use verifiable_rpc_sidecar.Confidential.Inner.{InnerRequest}
use verifiable_rpc_sidecar.Confidential.Upstream.{
  inner_upstream_request, content_type_header, accept_headers,
}
use verifiable_rpc_sidecar.Prelude.{
  ltb, ltb-false→le, Bool-cases, none-ne-some, length, length-append, ok_or-bind, ok_or-ok, Bytes,
  codes, ok, ◌+◌, ◌≤◌, ◌≡◌, refl, sym, ◌∙◌, subst, inl, inr, some, [], ◌∷◌, ◌++◌, arith,
}

-- The configured base path without its last slashes, and then the request's path and query.
abbrev pub joined : UpstreamClient → Bytes → Bytes
joined upstream path = trim_end_slashes (upstream.upstream_url.path) ++ path

module _ (h : Http) (laws : HttpLaws h) (upstream : UpstreamClient) (inner : InnerRequest) where
  -- The inner request at the configured origin: its method and body, its content type and accepted
  -- types and one `accept-encoding`, `identity`, and no other header; the origin's scheme and
  -- authority, and the joined path, within the length that the crate can index.
  pub record IsAtOrigin (up : UpstreamRequest) : Type 0 where
    pub method : up.method ≡ inner.method
    pub body : up.body ≡ inner.body
    pub headers :
        up.headers
        ≡ content_type_header inner.content_type
          ++ (accept_headers inner.accept ++ (codes "accept-encoding", codes "identity") ∷ [])
    pub scheme : up.uri.scheme ≡ upstream.upstream_url.scheme
    pub authority : up.uri.authority ≡ upstream.upstream_url.authority
    pub path_length : length (joined upstream inner.path_and_query) ≤ max_path_and_query
    pub path : h.path_and_query_from (joined upstream inner.path_and_query) ≡ up.uri.path_and_query

  path_lem :
      (path pq : Bytes)
      → origin_path_and_query h upstream path ≡ some pq
      → (length (joined upstream path) ≤ max_path_and_query)
        × (h.path_and_query_from (joined upstream path) ≡ some pq)
  unfolding origin_path_and_query
  path_lem path pq e =
      let prefix = trim_end_slashes (upstream.upstream_url.path) in
      elim (Bool-cases (ltb max_path_and_query (length prefix + length path))) [
        | inl l ↦ absurd (none-ne-some (rw l at e))
        | inr l ↦
            let fits = ltb-false→le max_path_and_query (length prefix + length path) l in
            (omega (arith, fits, length-append prefix path), rw l at e)
      ]

  uri_lem :
      (pq : Bytes) (uri : Uri)
      → origin_uri h upstream pq ≡ some uri
      → (uri.scheme ≡ upstream.upstream_url.scheme)
        × (uri.authority ≡ upstream.upstream_url.authority)
        × (uri.path_and_query ≡ some pq)
  unfolding origin_uri
  uri_lem pq uri e = laws.uri_from_parts-keeps _ _ e

  -- A request that is built from an inner request is it at the configured origin.
  pub inner_upstream_request-IsAtOrigin :
      (up : UpstreamRequest) → inner_upstream_request h upstream inner ≡ ok up → IsAtOrigin up
  unfolding inner_upstream_request
  inner_upstream_request-IsAtOrigin up e =
      let (pq, is_path, e1) =
        ok_or-bind InnerError.bad_request (origin_path_and_query h upstream inner.path_and_query) _
          e in
      let (uri, is_uri, e2) = ok_or-bind InnerError.internal (origin_uri h upstream pq) _ e1 in
      let (short, from) = path_lem inner.path_and_query pq is_path in
      let (scheme, authority, path) = uri_lem pq uri is_uri in
      let same = laws.request_builder-keeps _ _ (ok_or-ok _ _ e2) in
      subst IsAtOrigin (sym same) (record {
        method = refl;
        body = refl;
        headers = refl;
        scheme = scheme;
        authority = authority;
        path_length = short;
        path = from ∙ sym path;
      })
