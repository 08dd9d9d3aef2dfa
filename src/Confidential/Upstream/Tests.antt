-- ===== src/Confidential/Upstream/Tests.antt =====
-- The theorems about src/confidential/upstream.rs at concrete inputs.
use verifiable_rpc_sidecar.Crates.Samples.PlainHttp.{
  plain_http, plain_http-laws, plain_bhttp, plain_bhttp-laws,
}
use verifiable_rpc_sidecar.Crates.Http.{UpstreamRequest, UpstreamResponse, chunk, trailers}
use verifiable_rpc_sidecar.Confidential.Upstream.{
  read_upstream, read_frames, inner_upstream_request,
}
use verifiable_rpc_sidecar.Confidential.Upstream.Read.{IsTaken, read_upstream-IsTaken}
use verifiable_rpc_sidecar.Confidential.Upstream.Call.{
  IsAtOrigin, inner_upstream_request-IsAtOrigin,
}
use verifiable_rpc_sidecar.Confidential.Inner.{InnerRequest}
use verifiable_rpc_sidecar.Proxy.{origin_path_and_query, origin_uri}
use verifiable_rpc_sidecar.Proxy.Tests.{client}
use verifiable_rpc_sidecar.Prelude.{
  Bytes, codes, eq_ignore_ascii_case, ok, ◌≡◌, refl, some, List, [], ◌∷◌, arith,
}

abbrev answer : UpstreamResponse
answer = record {
  status = 201;
  headers = (codes "content-type", codes "t") ∷ (codes "x", codes "y") ∷ [];
  body = record {
    size_lower = 4;
    frames = chunk (codes "po") ∷ trailers [] ∷ chunk (codes "ng") ∷ [];
  };
}

abbrev message : List (Bytes × Bytes) × Bytes
message = ((codes "content-type", codes "t") ∷ [], codes "pong")

taken : read_upstream plain_bhttp 4 (some answer) ≡ ok (201, message)
unfolding read_upstream read_frames eq_ignore_ascii_case
taken = refl

read_upstream-IsTaken_example :
    IsTaken plain_bhttp plain_bhttp-laws 4 (omega arith) (some answer) 201 message
read_upstream-IsTaken_example =
    read_upstream-IsTaken plain_bhttp plain_bhttp-laws 4 (omega arith) (some answer) 201 message
      taken

abbrev inner : InnerRequest
inner = record {
  method = codes "POST";
  path_and_query = codes "/x?y";
  content_type = some (codes "t");
  accept = codes "a" ∷ codes "b" ∷ [];
  body = codes "ping";
}

abbrev sent : UpstreamRequest
sent = record {
  method = codes "POST";
  uri = record {
    scheme = some (codes "http");
    authority = some (codes "n");
    path = [];
    path_and_query = some (codes "/x?y");
  };
  headers =
      (codes "content-type", codes "t")
      ∷ (codes "accept", codes "a")
      ∷ (codes "accept", codes "b")
      ∷ (codes "accept-encoding", codes "identity")
      ∷ [];
  body = codes "ping";
}

built : inner_upstream_request plain_http client inner ≡ ok sent
unfolding inner_upstream_request origin_path_and_query origin_uri
built = refl

inner_upstream_request-IsAtOrigin_example : IsAtOrigin plain_http plain_http-laws client inner sent
inner_upstream_request-IsAtOrigin_example =
    inner_upstream_request-IsAtOrigin plain_http plain_http-laws client inner sent built
