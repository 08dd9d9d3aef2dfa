-- ===== src/Confidential/Inner.antt =====
-- src/confidential/inner.rs: decoding of the inner request, the batch count, encoding of the inner
-- response. The proofs are in the modules below.
pub mod Varint
pub mod Sections
pub mod Fields
pub mod Control
pub mod Refusals
pub mod Decode
pub mod Batch
pub mod Encode
pub mod Tests
use Prim.Native.Nat.{bit_and, bit_or}
use mathlib.Core.List.{foldl}
use verifiable_rpc_sidecar.Crates.Http.{Http}
use verifiable_rpc_sidecar.Crates.Bhttp.{Bhttp}
use verifiable_rpc_sidecar.Crates.Json.{Json, next_element, end_of_seq, next_error}
use verifiable_rpc_sidecar.Confidential.Errors.{InnerError, status, problem_body}
use verifiable_rpc_sidecar.Envelope.{response_nonce_len, tag_len}
use verifiable_rpc_sidecar.Confidential.Framing.{check_field_sections}
use verifiable_rpc_sidecar.Proxy.{max_path_and_query}
use verifiable_rpc_sidecar.Prelude.{
  ltb, ◌==◌, if◌then◌else◌, length, any, find, Result, ◌>>=◌, ◌>>◌, ok_or, to_option, Bytes,
  bytes_eq, starts_with, saturating_add, checked_add, codes, eq_ignore_ascii_case, ok, err, panic,
  ℕ, zero, suc, ◌+◌, Bool, true, false, not, ◌&&◌, ◌||◌, Option, none, some, List, [], ◌∷◌, ◌++◌,
}

pub record InnerRequest : Type 0 where
  pub method : Bytes
  pub path_and_query : Bytes
  pub content_type : Option Bytes
  pub accept : List Bytes
  pub body : Bytes

pub record InnerResponse : Type 0 where
  pub status : ℕ
  pub content_type : List Bytes
  pub body : Bytes

-- `InnerResponse::from(e)`
unfoldable pub error_response : InnerError → InnerResponse
error_response e = record {
  status = status e;
  content_type = codes "application/problem+json" ∷ [];
  body = problem_body e;
}

pub record InnerFields : Type 0 where
  pub content_type : Option Bytes
  pub accept : List Bytes

abbrev pub is_some : Option Bytes → Bool
is_some none = false
is_some (some v) = true

abbrev pub starts_with_colon : Bytes → Bool
starts_with_colon name = starts_with (codes ":") name

module _ (h : Http) where
  unfoldable pub inner_method : Option Bytes → Result Bytes InnerError
  inner_method control_method = do
    method ← ok_or InnerError.bad_request control_method
    method ← ok_or InnerError.bad_request (h.method_from_bytes method)
    if bytes_eq method (codes "CONNECT") then err InnerError.bad_request else ok method

  unfoldable pub field_value : Bytes → Result Bytes InnerError
  field_value value = ok_or InnerError.bad_request (h.header_value_from_bytes value)

  abbrev pub set_content_type : InnerFields → Bytes → Result InnerFields InnerError
  set_content_type fields value = do
    v ← field_value value
    ok (record fields { content_type = some v })

  abbrev pub push_accept : InnerFields → Bytes → Result InnerFields InnerError
  push_accept fields value = do
    v ← field_value value
    ok (record fields { accept = fields.accept ++ v ∷ [] })

  -- One round of the loop of `inner_fields`.
  unfoldable pub inner_field : InnerFields → Bytes × Bytes → Result InnerFields InnerError
  inner_field fields (name, value) =
      if starts_with_colon name
      then err InnerError.bad_request
      else if eq_ignore_ascii_case name (codes "content-type")
      then (if is_some fields.content_type
          then err InnerError.bad_request
          else set_content_type fields value)
      else if eq_ignore_ascii_case name (codes "accept")
      then push_accept fields value
      else ok fields

  unfoldable pub inner_fields : InnerFields → List (Bytes × Bytes) → Result InnerFields InnerError
  inner_fields fields [] = ok fields
  inner_fields fields (field ∷ more) = do
    fields ← inner_field fields field
    inner_fields fields more

abbrev pub is_refused_path : Bytes → Bool
is_refused_path path =
    not (starts_with (codes "/") path)
    || starts_with (codes "//") path
    || any (λ c. c == b'#') path
    || ltb max_path_and_query (length path)

unfoldable pub inner_path : Option Bytes → Result Bytes InnerError
inner_path control_path = do
  path ← ok_or InnerError.bad_request control_path
  if is_refused_path path then err InnerError.bad_request else ok path

abbrev pub no_fields : InnerFields
no_fields = record { content_type = none; accept = [] }

abbrev pub is_empty : Bytes → Bool
is_empty [] = true
is_empty (b ∷ bs) = false

abbrev pub lacks_content_type : InnerRequest → Bool
lacks_content_type r = not (is_empty r.body) && not (is_some r.content_type)

module _ (h : Http) (b : Bhttp) where
  -- `decode_inner` behind the framing byte
  unfoldable pub decode_framed : Bytes → Bytes → Result InnerRequest InnerError
  decode_framed plaintext framed = do
    check_field_sections framed
    msg ← ok_or InnerError.bad_request (b.read_bhttp plaintext)
    method ← inner_method h (b.control_method msg)
    path ← inner_path (b.control_path msg)
    fields ← inner_fields h no_fields (b.header msg)
    let request : InnerRequest = record {
      method = method;
      path_and_query = path;
      content_type = fields.content_type;
      accept = fields.accept;
      body = b.content msg;
    }
    if lacks_content_type request then err InnerError.unsupported_media_type else ok request

  unfoldable pub decode_inner : Bytes → Result InnerRequest InnerError
  decode_inner [] = err InnerError.bad_request
  decode_inner (byte ∷ framed) =
      if byte == 0 then decode_framed (byte ∷ framed) framed else err InnerError.bad_request

abbrev pub at_least_one : Option ℕ → ℕ
at_least_one none = 1
at_least_one (some zero) = 1
at_least_one (some (suc n)) = suc n

abbrev pub is_json_space : ℕ → Bool
is_json_space b = b == b' ' || b == 9 || b == 10 || b == 13

abbrev pub opens_array : Option ℕ → Bool
opens_array none = false
opens_array (some b) = b == b'['

module _ (j : Json) where
  -- The loop of `CountElements::visit_seq`, on fuel; `panic` is fuel that ran out.
  unfoldable pub visit_seq : ℕ → j.SeqAccess → ℕ → Result ℕ (Unit {0})
  visit_seq zero seq n = panic
  visit_seq (suc fuel) seq n = elim (j.next seq) [
    | next_element seq ↦ visit_seq fuel seq (n + 1)
    | end_of_seq ↦ ok n
    | next_error ↦ err tt
  ]

  -- Every element takes a byte, so the unread bytes and one round more are enough.
  abbrev pub count_elements : j.SeqAccess → Option ℕ
  count_elements seq = to_option (visit_seq (suc (j.unread seq)) seq 0)

  unfoldable pub batch_size : Bytes → ℕ
  batch_size body =
      if opens_array (find (λ b. not (is_json_space b)) body)
      then at_least_one (j.deserialize_seq body count_elements)
      else 1

-- A `Vec` that was given a capacity; `moved` says whether an extension outgrew it, which copies the
-- bytes and leaves the old copy behind.
pub record Buffer : Type 0 where
  pub bytes : Bytes
  pub capacity : ℕ
  pub moved : Bool

unfoldable pub extend : Buffer → Bytes → Buffer
extend buf chunk = record buf {
  bytes = buf.bytes ++ chunk;
  moved = buf.moved || ltb buf.capacity (length (buf.bytes ++ chunk));
}

-- `ByteCount::write`
abbrev pub count_write : ℕ → Bytes → ℕ
count_write count chunk = saturating_add count (length chunk)

module _ (b : Bhttp) where
  unfoldable pub encode_with_nonce : b.Message → Bytes → Option Buffer
  encode_with_nonce msg nonce = to_option {E = Unit {0}} do
    written ← ok_or tt (b.write_bhttp msg)
    let count = foldl count_write 0 written
    capacity ← ok_or tt (checked_add response_nonce_len count)
    capacity ← ok_or tt (checked_add capacity tag_len)
    let buf = extend (record { bytes = []; capacity = capacity; moved = false }) nonce
    written ← ok_or tt (b.write_bhttp msg)
    ok (foldl extend buf written)

  unfoldable pub put_content_types : b.Message → List Bytes → b.Message
  put_content_types = foldl (λ msg v. b.put_header msg (codes "content-type") v)

  unfoldable pub encode_response : InnerResponse → Option Bytes
  encode_response r = to_option {E = Unit {0}} do
    code ← ok_or tt (b.status_code r.status)
    let msg = b.write_content (put_content_types (b.response code) r.content_type) r.body
    written ← ok_or tt (b.write_bhttp msg)
    ok (foldl (λ out chunk. out ++ chunk) [] written)
