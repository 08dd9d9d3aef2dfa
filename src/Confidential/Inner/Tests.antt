-- ===== src/Confidential/Inner/Tests.antt =====
-- The theorems about src/confidential/inner.rs at concrete inputs.
use verifiable_rpc_sidecar.Crates.Samples.PlainHttp.{
  plain_http, plain_http-laws, plain_bhttp, plain_json, plain_json-laws,
}
use verifiable_rpc_sidecar.Confidential.Framing.{
  take_varint, check_field_sections, skip, skip_parts, check_sections,
}
use verifiable_rpc_sidecar.Confidential.Inner.{
  InnerRequest, InnerFields, inner_fields, inner_field, field_value, no_fields, decode_inner,
  decode_framed, inner_method, inner_path, batch_size, at_least_one, visit_seq,
}
use verifiable_rpc_sidecar.Confidential.Inner.Varint.{be_value, take_varint_lem}
use verifiable_rpc_sidecar.Confidential.Inner.Sections.{IsFramed, check_field_sections_iff}
use verifiable_rpc_sidecar.Confidential.Inner.Fields.{named, is_pseudo, inner_fields_lem}
use verifiable_rpc_sidecar.Confidential.Inner.Refusals.{IsDecodeError, IsUntypedRequest}
use verifiable_rpc_sidecar.Confidential.Inner.Decode.{
  IsAccepted, decode_inner-FailsOnly, decode_inner-IsAccepted,
}
use verifiable_rpc_sidecar.Confidential.Inner.Batch.{IsArrayOf, IsOther, batch_size_lem}
use verifiable_rpc_sidecar.Confidential.Errors.{InnerError}
use verifiable_rpc_sidecar.Prelude.{
  err, any, FailsOnly, Bytes, codes, eq_ignore_ascii_case, ok, ℕ, ◌^◌, ◌<◌, ◌≡◌, refl, ◌↔◌, ◌⊎◌,
  false, some, List, [], ◌∷◌, arith,
}

take_varint_lem_example :
    (take_varint (0x41 ∷ 2 ∷ 7 ∷ []) ≡ ok (some (be_value 1 (2 ∷ [])), 7 ∷ []))
    × (be_value 1 (2 ∷ []) < 2 ^ 62)
take_varint_lem_example =
    take_varint_lem 0x41 (2 ∷ []) (omega arith) refl (7 ∷ []) (omega arith, tt)

abbrev pub framed : Bytes
framed = 1 ∷ 80 ∷ 0 ∷ 0 ∷ 1 ∷ 47 ∷ []

check_field_sections_iff_example : (check_field_sections framed ≡ ok tt) ↔ IsFramed framed
check_field_sections_iff_example = check_field_sections_iff framed

abbrev json_type : List (Bytes × Bytes)
json_type = (codes "Content-Type", codes "a") ∷ (codes "accept", codes "b") ∷ []

abbrev json_fields : InnerFields
json_fields = record { content_type = some (codes "a"); accept = codes "b" ∷ [] }

fields_run : inner_fields plain_http no_fields json_type ≡ ok json_fields
unfolding inner_fields inner_field field_value eq_ignore_ascii_case
fields_run = refl

inner_fields_lem_example :
    (any is_pseudo json_type ≡ false)
    × (named (codes "content-type") json_type ≡ codes "a" ∷ [])
    × (named (codes "accept") json_type ≡ codes "b" ∷ [])
inner_fields_lem_example =
    inner_fields_lem plain_http plain_http-laws json_fields json_type fields_run

decode_inner-FailsOnly_example :
    FailsOnly IsDecodeError (decode_inner plain_http plain_bhttp framed)
    × ((decode_inner plain_http plain_bhttp framed ≡ err InnerError.unsupported_media_type)
        ↔ IsUntypedRequest plain_http plain_http-laws plain_bhttp framed)
decode_inner-FailsOnly_example =
    decode_inner-FailsOnly plain_http plain_http-laws plain_bhttp framed

abbrev decoded : InnerRequest
decoded = record {
  method = codes "POST";
  path_and_query = codes "/";
  content_type = some (codes "application/json");
  accept = [];
  body = 0 ∷ framed;
}

decode_run : decode_inner plain_http plain_bhttp (0 ∷ framed) ≡ ok decoded
unfolding decode_inner decode_framed check_field_sections skip_parts check_sections skip take_varint
    inner_method inner_path inner_fields inner_field field_value eq_ignore_ascii_case
decode_run = refl

decode_inner-IsAccepted_example :
    (rest : Bytes) × (0 ∷ framed ≡ 0 ∷ rest)
    × IsAccepted plain_http plain_http-laws plain_bhttp rest decoded
decode_inner-IsAccepted_example =
    decode_inner-IsAccepted plain_http plain_http-laws plain_bhttp (0 ∷ framed) decoded decode_run

abbrev calls : Bytes
calls = codes "[12"

two_calls : batch_size plain_json calls ≡ 2
unfolding batch_size visit_seq
two_calls = refl

batch_size_lem_example :
    ((k : ℕ) × IsArrayOf plain_json plain_json-laws calls k
      × (batch_size plain_json calls ≡ at_least_one (some k)))
    ⊎ (IsOther plain_json plain_json-laws calls × (batch_size plain_json calls ≡ 1))
batch_size_lem_example = batch_size_lem plain_json plain_json-laws calls
