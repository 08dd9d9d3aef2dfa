-- ===== src/Crates/Http.antt =====
-- The crates `http`, `hyper` and `http-body-util`: checked constructors, builders and bodies.
use verifiable_rpc_sidecar.Prelude.{
  ℕ, ◌≤◌, ◌≡◌, Bool, true, false, Option, some, List, [], ◌∷◌, ◌++◌, Bytes, length, any,
  starts_with, ◌==◌, codes,
}

-- A `HeaderName` is its canonical lowercase spelling, a `HeaderValue` its bytes, and a `HeaderMap`
-- the sequence of its entries in iteration order.
abbrev pub HeaderMap : Type 0
HeaderMap = List (Bytes × Bytes)

-- A parsed `Uri`. `path` of a URI without one is `/`.
pub record Uri : Type 0 where
  pub scheme : Option Bytes
  pub authority : Option Bytes
  pub path : Bytes
  -- the whole path and query, where the URI has one
  pub path_and_query : Option Bytes

-- `http::uri::Parts`
pub record UriParts : Type 0 where
  pub scheme : Option Bytes
  pub authority : Option Bytes
  pub path_and_query : Option Bytes

-- What `body.frame().await` yields: a frame of data or trailers, or a transport error.
pub data Frame : Type 0 where
  chunk : Bytes → Frame
  trailers : HeaderMap → Frame
  failed : Frame

-- A body: its exact lower size hint, and its frames until it ends.
pub record Body : Type 0 where
  pub size_lower : ℕ
  pub frames : List Frame

-- How `Limited::new(body, cap).collect()` ends.
pub data Collected : Type 0 where
  collected : Bytes → Collected
  length_limit : Collected
  transport_error : Collected

pub record Request : Type 0 where
  pub method : Bytes
  pub uri : Uri
  pub headers : HeaderMap
  pub body : Body

-- A request on the upstream connection, with its body in one piece.
pub record UpstreamRequest : Type 0 where
  pub method : Bytes
  pub uri : Uri
  pub headers : HeaderMap
  pub body : Bytes

-- An answer of the upstream.
pub record UpstreamResponse : Type 0 where
  pub status : ℕ
  pub headers : HeaderMap
  pub body : Body

-- A response to the client of the sidecar.
pub record Response : Type 0 where
  pub status : ℕ
  pub headers : HeaderMap
  pub body : Bytes

pub record Http : Type 0 where
  -- `str::parse::<Uri>()`
  pub parse_uri : Bytes → Option Uri
  -- `Method::from_bytes`: the method's spelling
  pub method_from_bytes : Bytes → Option Bytes
  -- `HeaderValue::from_bytes`
  pub header_value_from_bytes : Bytes → Option Bytes
  -- `PathAndQuery::try_from`
  pub path_and_query_from : Bytes → Option Bytes
  -- `Uri::from_parts`
  pub uri_from_parts : UriParts → Option Uri
  -- `request::Builder::body`, `response::Builder::body`: `none` if a part was refused
  pub request_builder_body : UpstreamRequest → Option UpstreamRequest
  pub response_builder_body : Response → Option Response
  -- `Limited::new(body, cap).collect()`
  pub collect_limited : Body → ℕ → Collected

-- The data of a body, up to its end or its first error.
abbrev pub body_data : List Frame → Bytes
body_data [] = []
body_data (chunk b ∷ fs) = b ++ body_data fs
body_data (trailers t ∷ fs) = body_data fs
body_data (failed ∷ fs) = []

abbrev pub is_failed : Frame → Bool
is_failed failed = true
is_failed _ = false

pub record HttpLaws (h : Http) : Type 0 where
  pub method_from_bytes-keeps : (b m : Bytes) → h.method_from_bytes b ≡ some m → m ≡ b
  pub header_value-keeps : (b v : Bytes) → h.header_value_from_bytes b ≡ some v → v ≡ b
  -- a fragment is dropped; without one the text is kept
  pub path_and_query-keeps :
      (b p : Bytes)
      → starts_with (codes "/") b ≡ true
      → any (λ c. c == b'#') b ≡ false
      → h.path_and_query_from b ≡ some p
      → p ≡ b
  pub uri_from_parts-keeps :
      (p : UriParts) (u : Uri)
      → h.uri_from_parts p ≡ some u
      → (u.scheme ≡ p.scheme) × (u.authority ≡ p.authority) × (u.path_and_query ≡ p.path_and_query)
  -- a builder returns what was put into it
  pub request_builder-keeps : (r r' : UpstreamRequest) → h.request_builder_body r ≡ some r' → r' ≡ r
  pub response_builder-keeps : (r r' : Response) → h.response_builder_body r ≡ some r' → r' ≡ r
  -- what is collected is the whole body, and it is within the limit
  pub collect_limited-data :
      (b : Body) (cap : ℕ) (d : Bytes)
      → h.collect_limited b cap ≡ collected d
      → (d ≡ body_data b.frames) × (any is_failed b.frames ≡ false) × (length d ≤ cap)
  -- a whole body within the limit is collected
  pub collect_limited-fits :
      (b : Body) (cap : ℕ)
      → any is_failed b.frames ≡ false
      → length (body_data b.frames) ≤ cap
      → h.collect_limited b cap ≡ collected (body_data b.frames)
