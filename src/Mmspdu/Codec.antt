-- ===== src/Mmspdu/Codec.antt =====
-- internal/mmspdu/codec.go: whole protocol data units.
pub mod Ends
pub mod Sequence
pub mod Received
pub mod RoundTrip
pub mod WithBody
use vectorcore_mmsc.Base.{
  ℕ, zero, suc, ◌%◌, List, [], ◌∷◌, ◌++◌, length, is_empty, Option, none, some, Bool, true, false,
  not, ◌&&◌, ◌==◌, if◌then◌else◌, Result, ok, err, ◌>>=◌, empty_value, nil_pdu, no_content_type,
}
use vectorcore_mmsc.Base.Text.{codes, bytes_eq}
use vectorcore_mmsc.Base.ByteMap.{lookup, insert, remove, keys, elem, sort, without, add}
use vectorcore_mmsc.Mmspdu.Types.{
  field_content_type, field_message_type, field_transaction_id, field_mms_version,
}
use vectorcore_mmsc.Mmspdu.Reader.{Reader}
use vectorcore_mmsc.Mmspdu.Values.{
  HeaderValue, new_token_value, new_text_value, new_short_integer_value, value_token, value_text,
  value_integer,
}
use vectorcore_mmsc.Mmspdu.Header.{
  Headers, encode_header_name, decode_header, raw_of, encode_fields, settle,
}
use vectorcore_mmsc.Mmspdu.ContentType.{new_content_type_value}
use vectorcore_mmsc.Mmspdu.Multipart.{MultipartBody, encode_multipart}
use vectorcore_mmsc.Mmspdu.Multipart.Decode.{decode_multipart}

-- The type `PDU`; a nil body is `none`.
pub record Pdu : Type 0 where
  pub message_type : ℕ
  pub transaction_id : List ℕ
  pub mms_version : List ℕ
  pub headers : Headers
  pub header_order : List ℕ
  pub body : Option MultipartBody

unfoldable pub encode_version_string : List ℕ → ℕ
encode_version_string value =
    if bytes_eq value (codes "1.0")
    then 0x10
    else if bytes_eq value (codes "1.1")
    then 0x11
    else if bytes_eq value (codes "1.2")
    then 0x12
    else if bytes_eq value (codes "1.3")
    then 0x13
    else 0x13

unfoldable pub decode_version_byte : ℕ → List ℕ
decode_version_byte value =
    if value == 0x10
    then codes "1.0"
    else if value == 0x11
    then codes "1.1"
    else if value == 0x12
    then codes "1.2"
    else if value == 0x13
    then codes "1.3"
    else []

-- Those of the listed fields that are in the map.
unfoldable pub present_of : Headers → List ℕ → List ℕ
present_of headers [] = []
present_of headers (f ∷ fs) =
    if elem f (keys headers) then f ∷ present_of headers fs else present_of headers fs

-- The three fields that lead, then the others by number.
unfoldable pub canonical_header_order : Headers → List ℕ
canonical_header_order headers =
    let lead =
      present_of headers (field_message_type ∷ field_transaction_id ∷ field_mms_version ∷ []) in
    lead ++ sort (without lead (keys headers))

-- The first loop of `encodeHeadersBySequence`: a field that is not in the map is passed over.
unfoldable pub encode_sequence : Headers → List ℕ → List ℕ → List ℕ → Result (List ℕ × List ℕ)
encode_sequence headers [] out seen = ok (out, seen)
encode_sequence headers (f ∷ fs) out seen =
    let more =
      encode_sequence headers fs (out ++ (encode_header_name f ++ raw_of f headers)) (add f seen) in
    let skipped = encode_sequence headers fs out seen in
    if not (elem f (keys headers))
    then skipped
    else if is_empty (raw_of f headers)
    then err empty_value
    else more

-- Then the fields that the sequence did not name, by number.
unfoldable pub encode_headers_by_sequence : Headers → List ℕ → Result (List ℕ)
encode_headers_by_sequence headers order = do
  (out, seen) ← encode_sequence headers order [] []
  if length seen == length headers
      then ok out
      else encode_fields headers (sort (without seen (keys headers))) out

unfoldable pub encode_ordered_headers : Headers → List ℕ → Result (List ℕ)
encode_ordered_headers headers original =
    if is_empty headers
    then ok []
    else if not (is_empty original)
    then encode_headers_by_sequence headers original
    else encode_headers_by_sequence headers (canonical_header_order headers)

-- The Content-Type comes last, and the body follows it.
unfoldable pub encode_pdu_with_body : Headers → List ℕ → MultipartBody → Result (List ℕ)
encode_pdu_with_body headers order body = elim (lookup field_content_type headers) [
  | none ↦ err no_content_type
  | some v ↦ do
    prefix ← encode_ordered_headers (remove field_content_type headers) order
    ok (
        ((prefix ++ encode_header_name field_content_type) ++ v.raw)
        ++ encode_multipart (some body))
]

-- The headers that `Encode` makes of the three fields of the record, where these are set.
unfoldable pub with_message_type : Pdu → Headers → Headers
with_message_type pdu headers =
    if pdu.message_type == 0
    then headers
    else insert field_message_type (new_token_value field_message_type pdu.message_type) headers

unfoldable pub with_transaction_id : Pdu → Headers → Headers
with_transaction_id pdu headers =
    if is_empty pdu.transaction_id
    then headers
    else insert field_transaction_id (new_text_value field_transaction_id pdu.transaction_id)
        headers

unfoldable pub with_mms_version : Pdu → Headers → Result Headers
with_mms_version pdu headers = if is_empty pdu.mms_version then ok headers else do
  v ← new_short_integer_value field_mms_version (encode_version_string pdu.mms_version)
  ok (insert field_mms_version v headers)

unfoldable pub full_headers : Pdu → Result Headers
full_headers pdu =
    with_mms_version pdu (with_transaction_id pdu (with_message_type pdu pdu.headers))

-- A body gets a content type if there is none.
unfoldable pub with_content_type : Headers → Headers
with_content_type headers =
    if elem field_content_type (keys headers)
    then headers
    else insert field_content_type (new_content_type_value (codes "multipart/related") []) headers

unfoldable pub encode_full : Headers → List ℕ → Option MultipartBody → Result (List ℕ)
encode_full headers order none = encode_ordered_headers headers order
encode_full headers order (some body) = encode_pdu_with_body (with_content_type headers) order body

-- The function `Encode`; nil is `none`.
unfoldable pub encode : Option Pdu → Result (List ℕ)
encode none = err nil_pdu
encode (some pdu) = do headers ← full_headers pdu; encode_full headers pdu.header_order pdu.body

pub record Sections : Type 0 where
  pub headers : Headers
  pub order : List ℕ
  pub body : Option MultipartBody

-- The loop of `decodePDUSections`. Bytes behind a Content-Type are the body, and end the loop.
-- `none` means that the fuel ran out.
unfoldable pub sections_loop : ℕ → Reader → Headers → List ℕ → Option (Result Sections)
sections_loop fuel [] headers order =
    some (ok (record { headers = headers; order = order; body = none }))
sections_loop zero (b ∷ r) headers order = none
sections_loop (suc fuel) (b ∷ r) headers order = elim (decode_header (b ∷ r)) [
  | err e ↦ some (err e)
  | ok (f, v, r') ↦
      let more = sections_loop fuel r' (insert f v headers) (order ++ (f ∷ [])) in
      if f == field_content_type && not (is_empty r')
      then some (do
        body ← decode_multipart r'
        ok (record { headers = insert f v headers; order = order ++ (f ∷ []); body = some body }))
      else more
]

unfoldable pub decode_pdu_sections : List ℕ → Result Sections
decode_pdu_sections bytes = settle (sections_loop (length bytes) bytes [] [])

-- The fields of the record, from the headers that are there.
unfoldable pub message_type_of : Headers → Result ℕ
message_type_of headers = elim (lookup field_message_type headers) [
  | none ↦ ok 0
  | some v ↦ value_token v
]

unfoldable pub transaction_id_of : Headers → Result (List ℕ)
transaction_id_of headers = elim (lookup field_transaction_id headers) [
  | none ↦ ok []
  | some v ↦ value_text v
]

unfoldable pub mms_version_of : Headers → Result (List ℕ)
mms_version_of headers = elim (lookup field_mms_version headers) [
  | none ↦ ok []
  | some v ↦ do n ← value_integer v; ok (decode_version_byte (n % 256))
]

-- The function `Decode`.
unfoldable pub decode : List ℕ → Result Pdu
decode bytes = do
  s ← decode_pdu_sections bytes
  message_type ← message_type_of s.headers
  transaction_id ← transaction_id_of s.headers
  mms_version ← mms_version_of s.headers
  ok (record {
    message_type = message_type;
    transaction_id = transaction_id;
    mms_version = mms_version;
    headers = s.headers;
    header_order = s.order;
    body = s.body;
  })
