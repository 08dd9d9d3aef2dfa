-- ===== src/Crates/Samples/PlainAxum.antt =====
-- A value of the interface `Axum` that computes, with its laws. A body is compressed, for a client
-- that accepts gzip, by a byte in front of it.
use verifiable_rpc_sidecar.Crates.Http.{Response}
use verifiable_rpc_sidecar.Crates.Axum.{Axum, AxumLaws, is_content_encoding}
use verifiable_rpc_sidecar.Prelude.{
  if◌then◌else◌, Bool-cases, drop, any, Bytes, bytes_eq, bytes_eq→eq, codes, ℕ, refl, inl, inr,
  Bool, ◌&&◌, some, [], ◌∷◌,
}

abbrev accepts_gzip : Bytes × Bytes → Bool
accepts_gzip (name, value) =
    bytes_eq name (codes "accept-encoding") && bytes_eq value (codes "gzip")

abbrev gzipped : Response → Response
gzipped r = record {
  status = r.status;
  headers = (codes "content-encoding", codes "gzip") ∷ r.headers;
  body = 0x1f ∷ r.body;
}

abbrev bare : ℕ → Response
bare status = record { status = status; headers = []; body = [] }

abbrev pub plain_axum : Axum
plain_axum = record {
  query = λ uri. some (record { nonce = uri.path_and_query });
  query_rejection = λ uri. bare 400;
  json = λ att. record { status = 200; headers = []; body = att.pubkey };
  status_and_text = λ status e. bare status;
  method_not_allowed = bare 405;
  compress = λ hs r. if any accepts_gzip hs then gzipped r else r;
  allow = λ path r. record r { headers = (codes "allow", path) ∷ r.headers };
  finish = λ method r. if bytes_eq method (codes "HEAD") then record r { body = [] } else r;
  decoded = λ r. some (if any is_content_encoding r.headers then drop 1 r.body else r.body);
}

pub plain_axum-laws : AxumLaws plain_axum
plain_axum-laws = record {
  compress-status =
      λ hs r. elim (Bool-cases (any accepts_gzip hs)) [ inl e ↦ rw e refl | inr e ↦ rw e refl ];
  compress-headers =
      λ hs r. elim (Bool-cases (any accepts_gzip hs)) [ inl e ↦ rw e refl | inr e ↦ rw e refl ];
  plain-decoded = λ r n. rw n refl;
  compress-decoded = λ hs r n. elim (Bool-cases (any accepts_gzip hs)) [
    | inl e ↦ rw e refl
    | inr e ↦ rw e (rw n refl)
  ];
  finish-status = λ method r. elim (Bool-cases (bytes_eq method (codes "HEAD"))) [
    | inl e ↦ rw e refl
    | inr e ↦ rw e refl
  ];
  finish-headers = λ method r. elim (Bool-cases (bytes_eq method (codes "HEAD"))) [
    | inl e ↦ rw e refl
    | inr e ↦ rw e refl
  ];
  finish-decoded = λ method r n. elim (Bool-cases (bytes_eq method (codes "HEAD"))) [
    | inl e ↦ absurd (n (bytes_eq→eq _ _ e))
    | inr e ↦ rw e refl
  ];
}
