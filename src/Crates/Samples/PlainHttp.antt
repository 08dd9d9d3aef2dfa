-- ===== src/Crates/Samples/PlainHttp.antt =====
-- Values of the interfaces `Http`, `Bhttp` and `Json` that compute, with their laws. Every text is
-- a valid one; a BHTTP message is read as a POST of the whole input.
use verifiable_rpc_sidecar.Crates.Http.{
  Uri, UriParts, Body, Collected, collected, length_limit, transport_error, Http, HttpLaws,
  body_data, is_failed,
}
use verifiable_rpc_sidecar.Crates.Bhttp.{Bhttp, BhttpLaws}
use verifiable_rpc_sidecar.Crates.Json.{Json, JsonLaws, Next, next_element, end_of_seq}
use verifiable_rpc_sidecar.Prelude.{
  some-injective, none-ne-some, sym, ap, leb, if◌then◌else◌, leb→le, le→leb, Bool-cases, length,
  drop, any, Bytes, codes, ℕ, suc, ◌≤◌, ◌<◌, ◌≡◌, refl, subst, ◌≢◌, inl, inr, false, none, some,
  List, [], ◌∷◌, ◌++◌, arith,
}

abbrev collect : Body → ℕ → Collected
collect b cap =
    if any is_failed b.frames
    then transport_error
    else if leb (length (body_data b.frames)) cap
    then collected (body_data b.frames)
    else length_limit

abbrev pub plain_http : Http
plain_http = record {
  parse_uri =
      λ s. some (record { scheme = none; authority = none; path = s; path_and_query = some s });
  method_from_bytes = λ b. some b;
  header_value_from_bytes = λ b. some b;
  path_and_query_from = λ b. some b;
  uri_from_parts = λ p. some (record {
    scheme = p.scheme;
    authority = p.authority;
    path = [];
    path_and_query = p.path_and_query;
  });
  request_builder_body = λ r. some r;
  response_builder_body = λ r. some r;
  collect_limited = collect;
}

same : {A : Type 0} {a b : A} → some a ≡ some b → b ≡ a
same h = cc

collect-data :
    (b : Body) (cap : ℕ) (d : Bytes)
    → collect b cap ≡ collected d
    → (d ≡ body_data b.frames) × (any is_failed b.frames ≡ false) × (length d ≤ cap)
collect-data b cap d e = elim (Bool-cases (any is_failed b.frames)) [
  | inl f ↦ absurd (not_error (rw f at e))
  | inr f ↦ elim (Bool-cases (leb (length (body_data b.frames)) cap)) [
    | inl l ↦
        let s : d ≡ body_data b.frames = data_of (rw (f, l) at e) in (s, f, rw s (leb→le _ _ l))
    | inr l ↦ absurd (not_limit (rw (f, l) at e))
  ]
]
  where
    not_error : transport_error ≢ collected d
    not_error h = cc

    not_limit : length_limit ≢ collected d
    not_limit h = cc

    data_of : collected (body_data b.frames) ≡ collected d → d ≡ body_data b.frames
    data_of h = cc

pub plain_http-laws : HttpLaws plain_http
plain_http-laws = record {
  method_from_bytes-keeps = λ b m e. same e;
  header_value-keeps = λ b v e. same e;
  path_and_query-keeps = λ b p s f e. same e;
  uri_from_parts-keeps = λ p u e. uri p u (same e);
  request_builder-keeps = λ r r' e. same e;
  response_builder-keeps = λ r r' e. same e;
  collect_limited-data = collect-data;
  collect_limited-fits = λ b cap f l. rw (f, le→leb _ _ l) refl;
}
  where
    uri :
        (p : UriParts) (u : Uri)
        → u ≡ record {
          scheme = p.scheme;
          authority = p.authority;
          path = [];
          path_and_query = p.path_and_query;
        }
        → (u.scheme ≡ p.scheme)
          × (u.authority ≡ p.authority)
          × (u.path_and_query ≡ p.path_and_query)
    uri p u e = (ap (λ x. x.scheme) e, ap (λ x. x.authority) e, ap (λ x. x.path_and_query) e)

-- A message: header fields and content.
abbrev pub plain_bhttp : Bhttp
plain_bhttp = record {
  Message = List (Bytes × Bytes) × Bytes;
  read_bhttp = λ b. some ((codes "Content-Type", codes "application/json") ∷ [], b);
  control_method = λ m. some (codes "POST");
  control_path = λ m. some (codes "/");
  header = λ m. m.0;
  content = λ m. m.1;
  status_code = λ s. some s;
  response = λ s. ([], []);
  put_header = λ m name value. (m.0 ++ (name, value) ∷ [], m.1);
  write_content = λ m d. (m.0, m.1 ++ d);
  write_bhttp = λ m. some (m.1 ∷ []);
}

abbrev next_byte : Bytes → Next Bytes
next_byte [] = end_of_seq
next_byte (b ∷ bs) = next_element bs

-- An element for each byte behind the first.
abbrev pub plain_json : Json
plain_json = record {
  SeqAccess = Bytes;
  next = next_byte;
  deserialize_seq = λ body visit. visit (drop 1 body);
  access = λ body. some (drop 1 body);
  unread = λ a. length a;
}

pub plain_json-laws : JsonLaws plain_json
plain_json-laws = record {
  next-reads = reads;
  deserialize_seq-none = λ body visit e. absurd (none-ne-some (sym e));
  deserialize_seq-fails =
      λ body visit a e k. subst (λ x. visit x ≡ none) (sym (some-injective e)) k;
  deserialize_seq-visits = λ body visit a n e y. ap visit (some-injective e);
}
  where
    reads : (a a' : Bytes) → next_byte a ≡ next_element a' → length a' < length a
    reads [] a' e = cc
    reads (b ∷ bs) a' e = subst (λ x. length x < suc (length bs)) (tail e) (omega arith)
      where
        tail : next_element bs ≡ next_element a' → bs ≡ a'
        tail h = cc

pub plain_bhttp-laws : BhttpLaws plain_bhttp
plain_bhttp-laws = record {
  header-response = λ s. refl;
  content-response = λ s. refl;
  header-put_header = λ m name value. refl;
  content-put_header = λ m name value. refl;
  header-write_content = λ m d. refl;
  content-write_content = λ m d. refl;
}
