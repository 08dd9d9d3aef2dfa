-- ===== src/Proxy/Headers.antt =====
-- The request that src/proxy.rs sends upstream, against the client's.
use verifiable_rpc_sidecar.Crates.Http.{HeaderMap, Request, UpstreamRequest, Http, HttpLaws}
use verifiable_rpc_sidecar.Proxy.{
  UpstreamClient, status_response, is_hop_by_hop, is_forwarded, upstream_uri, upstream_request,
}
use verifiable_rpc_sidecar.Prelude.{
  Bool-cases, keep, any, keep-append, ok_or-bind, ok_or-ok, Bytes, bytes_eq, codes, ok, ◌≡◌, refl,
  sym, ap, ◌∙◌, subst, inl, inr, Bool, false, ◌||◌, some, List, [], ◌∷◌, ◌++◌, append-nil,
}

abbrev is_accept_encoding : Bytes × Bytes → Bool
is_accept_encoding (name, value) = bytes_eq name (codes "accept-encoding")

abbrev pub names_hop : Bytes × Bytes → Bool
names_hop (name, value) = is_hop_by_hop name

forwarded-no_encoding : (hs : HeaderMap) → keep is_accept_encoding (keep is_forwarded hs) ≡ []
forwarded-no_encoding [] = refl
forwarded-no_encoding ((n, v) ∷ hs) = elim (Bool-cases (bytes_eq n (codes "accept-encoding"))) [
  | inl e ↦ elim (Bool-cases (is_hop_by_hop n)) [
    | inl k ↦ rw (k, forwarded-no_encoding hs)
    | inr k ↦ rw (k, e, forwarded-no_encoding hs)
  ]
  | inr e ↦ elim (Bool-cases (is_hop_by_hop n)) [
    | inl k ↦ rw (k, forwarded-no_encoding hs)
    | inr k ↦ rw (k, e) (rw (e, forwarded-no_encoding hs) refl)
  ]
]

forwarded-no_hop : (hs : HeaderMap) → any names_hop (keep is_forwarded hs) ≡ false
forwarded-no_hop [] = refl
forwarded-no_hop ((n, v) ∷ hs) = elim (Bool-cases (is_hop_by_hop n)) [
  | inl k ↦ rw (k, forwarded-no_hop hs)
  | inr k ↦ elim (Bool-cases (bytes_eq n (codes "accept-encoding"))) [
    | inl e ↦ rw (k, e, forwarded-no_hop hs)
    | inr e ↦ rw (k, e) (rw (k, forwarded-no_hop hs) refl)
  ]
]

pub any-append {ℓ} :
    {A : Type ℓ} (p : A → Bool) (xs ys : List A) → any p (xs ++ ys) ≡ (any p xs || any p ys)
any-append p [] ys = refl
any-append p (x ∷ xs) ys = elim (Bool-cases (p x)) [
  | inl e ↦ rw e refl
  | inr e ↦ rw e (any-append p xs ys)
]

abbrev identity_header : Bytes × Bytes
identity_header = (codes "accept-encoding", codes "identity")

keep_idem {ℓ} : {A : Type ℓ} (p : A → Bool) (xs : List A) → keep p (keep p xs) ≡ keep p xs
keep_idem p [] = refl
keep_idem p (x ∷ xs) = elim (Bool-cases (p x)) [
  | inl e ↦ rw e (rw e (ap (λ l. x ∷ l) (keep_idem p xs)))
  | inr e ↦ rw e (keep_idem p xs)
]

-- The client's method and the body as it was, one `accept-encoding`, which is `identity`, no
-- hop-by-hop header, and otherwise the client's headers in their order.
abbrev pub Carries : Http → UpstreamClient → Request → Bytes → UpstreamRequest → Type 0
Carries h client req body up =
    (up.method ≡ req.method)
    × (up.body ≡ body)
    × (upstream_uri h client req.uri ≡ some up.uri)
    × (keep is_accept_encoding up.headers ≡ identity_header ∷ [])
    × (any names_hop up.headers ≡ false)
    × (keep is_forwarded up.headers ≡ keep is_forwarded req.headers)

-- A request that is built for the upstream carries the client's, under the sidecar's encoding.
pub upstream_request-Carries :
    (h : Http) (laws : HttpLaws h) (client : UpstreamClient) (req : Request) (body : Bytes)
    (up : UpstreamRequest)
    → upstream_request h client req body ≡ ok up
    → Carries h client req body up
unfolding upstream_request is_hop_by_hop
upstream_request-Carries h laws client req body up e =
    let (uri, parsed, e1) = ok_or-bind (status_response 500) (upstream_uri h client req.uri) _ e in
    let same = laws.request_builder-keeps _ _ (ok_or-ok _ _ e1) in
    subst (Carries h client req body) (sym same) (
      refl,
      refl,
      parsed,
      keep-append is_accept_encoding (keep is_forwarded req.headers) (identity_header ∷ [])
          ∙ ap (λ l. l ++ identity_header ∷ []) (forwarded-no_encoding req.headers),
      any-append names_hop (keep is_forwarded req.headers) (identity_header ∷ [])
          ∙ ap (λ t. t || false) (forwarded-no_hop req.headers),
      keep-append is_forwarded (keep is_forwarded req.headers) (identity_header ∷ [])
          ∙ append-nil _
          ∙ keep_idem is_forwarded req.headers,
    )
