-- ===== src/Mmspdu/Multipart/Decode.antt =====
-- The decoder of internal/mmspdu/multipart.go.
pub mod Ends
use vectorcore_mmsc.Base.{
  ℕ, zero, suc, ◌+◌, ◌-◌, ◌/◌, List, [], ◌∷◌, ◌++◌, length, take, drop, is_empty, Option, none,
  some, Bool, true, false, ◌&&◌, not, ltb, leb, ◌==◌, if◌then◌else◌, Result, ok, err, ◌>>=◌,
  or_else, short_data, too_many_parts, missing_part_headers,
}
use vectorcore_mmsc.Base.Text.{codes, to_lower}
use vectorcore_mmsc.Base.ByteMap
use vectorcore_mmsc.Base.TextMap
use vectorcore_mmsc.Mmspdu.Integers.{decode_uintvar}
use vectorcore_mmsc.Mmspdu.Strings.{
  decode_text_string, decode_quoted_string, decode_encoded_string_payload,
}
use vectorcore_mmsc.Mmspdu.Reader.{Reader, read_n, read_until_null, read_until_null_from}
use vectorcore_mmsc.Mmspdu.Header.{settle}
use vectorcore_mmsc.Mmspdu.ContentType.{ContentTypeValue}
use vectorcore_mmsc.Mmspdu.ContentType.Tables.{well_known_content_type_params_by_token}
use vectorcore_mmsc.Mmspdu.ContentType.Decode.{
  has_top_bit, decode_well_known_media_type, decode_value_length, decode_content_type_param_value,
}
use vectorcore_mmsc.Mmspdu.Multipart.{Part, MultipartBody}

unfoldable pub is_text_string_start : ℕ → Bool
is_text_string_start b = leb 0x20 b && ltb b 0x80

-- A missing token has the empty name.
unfoldable pub decode_well_known_content_type_param : ℕ → List ℕ
decode_well_known_content_type_param t =
    elim (ByteMap.lookup t well_known_content_type_params_by_token) [ none ↦ [] | some name ↦ name ]

unfoldable pub read_uintvar_from_reader : Reader → Result (ℕ × Reader)
read_uintvar_from_reader [] = err short_data
read_uintvar_from_reader (b ∷ r) = do
  (value, consumed) ← decode_uintvar (b ∷ r)
  ok (value, drop consumed (b ∷ r))

unfoldable pub read_part_media_type : Reader → Result (List ℕ × Reader)
read_part_media_type [] = err short_data
read_part_media_type (b ∷ r) =
    if has_top_bit b
    then (do name ← decode_well_known_media_type b; ok (name, r))
    else do (raw, r') ← read_until_null (b ∷ r); name ← decode_text_string raw; ok (name, r')

unfoldable pub read_part_parameter_name : Reader → Result (List ℕ × Reader)
read_part_parameter_name [] = err short_data
read_part_parameter_name (b ∷ r) =
    if has_top_bit b then ok (decode_well_known_content_type_param b, r) else do
      (raw, r') ← read_until_null_from (b ∷ []) r
      value ← decode_text_string raw
      ok (to_lower value, r')

unfoldable pub read_part_header_value : Reader → Result (List ℕ × Reader)
read_part_header_value [] = err short_data
read_part_header_value (b ∷ r) =
    if leb b 31
    then (do (n, consumed) ← decode_value_length (b ∷ r); read_n n (drop consumed (b ∷ r)))
    else if b == 0x22
    then read_until_null (b ∷ r)
    else if is_text_string_start b
    then read_until_null (b ∷ r)
    else read_n 1 (b ∷ r)

unfoldable pub decode_part_header_text_value : List ℕ → Result (List ℕ)
decode_part_header_text_value [] = err short_data
decode_part_header_text_value (b ∷ bs) = or_else (decode_quoted_string (b ∷ bs)) (
    or_else (decode_text_string (b ∷ bs)) (
      or_else (decode_encoded_string_payload (b ∷ bs))
        (if has_top_bit b then decode_well_known_media_type b else err short_data)))

-- The key and the value of a header whose name is a token; the key is empty for other tokens.
unfoldable pub decode_well_known_part_header : ℕ → Reader → Result (List ℕ × List ℕ × Reader)
decode_well_known_part_header name r = do
  (raw, r') ← read_part_header_value r
  if name == 0x8e
      then (do value ← decode_part_header_text_value raw; ok (codes "content-location", value, r'))
      else if name == 0xc0
      then (do value ← decode_part_header_text_value raw; ok (codes "content-id", value, r'))
      else ok ([], [], r')

-- One round of the loop over the parameters of a part's content type.
unfoldable pub read_part_param :
    Reader → List (List ℕ × List ℕ) → Result (List (List ℕ × List ℕ) × Reader)
read_part_param r params = do
  (name, r') ← read_part_parameter_name r
  (raw, r'') ← read_part_header_value r'
  if is_empty name then ok (params, r'') else do
    value ← decode_content_type_param_value name raw
    ok (TextMap.insert name value params, r'')

-- `none` means that the fuel ran out.
unfoldable pub part_params_loop :
    ℕ → Reader → List (List ℕ × List ℕ) → Option (Result (List (List ℕ × List ℕ)))
part_params_loop fuel [] params = some (ok params)
part_params_loop zero (b ∷ r) params = none
part_params_loop (suc fuel) (b ∷ r) params = elim (read_part_param (b ∷ r) params) [
  | err e ↦ some (err e)
  | ok (params', r') ↦ part_params_loop fuel r' params'
]

unfoldable pub decode_part_content_type_payload : Reader → Result ContentTypeValue
decode_part_content_type_payload payload = do
  (media, r) ← read_part_media_type payload
  params ← settle (part_params_loop (length r) r [])
  ok (record { media_type = media; params = params })

-- The content type, and the bytes behind it.
unfoldable pub decode_part_content_type_value : List ℕ → Result (ContentTypeValue × Reader)
decode_part_content_type_value [] = err short_data
decode_part_content_type_value (b ∷ bs) =
    if is_text_string_start b
    then (do
      (raw, r) ← read_until_null (b ∷ bs)
      media ← decode_text_string raw
      ok (record { media_type = media; params = [] }, r))
    else if has_top_bit b
    then (do
      name ← decode_well_known_media_type b
      ok (record { media_type = name; params = [] }, bs))
    else do
      (n, consumed) ← decode_value_length (b ∷ bs)
      if ltb (length (b ∷ bs)) (consumed + n) then err short_data else do
        value ← decode_part_content_type_payload (take n (drop consumed (b ∷ bs)))
        ok (value, drop (consumed + n) (b ∷ bs))

-- One round of the loop over the headers of a part; the reader is not at its end.
unfoldable pub read_part_header :
    Reader → List (List ℕ × List ℕ) → Result (List (List ℕ × List ℕ) × Reader)
read_part_header [] headers = err short_data
read_part_header (b ∷ r) headers =
    if has_top_bit b
    then (do
      (key, value, r') ← decode_well_known_part_header b r
      ok ((if is_empty key then headers else TextMap.insert key value headers), r'))
    else do
      (key_raw, r') ← read_until_null (b ∷ r)
      (value_raw, r'') ← read_until_null r'
      key ← decode_text_string key_raw
      value ← decode_part_header_text_value value_raw
      ok (TextMap.insert (to_lower key) value headers, r'')

-- `none` means that the fuel ran out.
unfoldable pub part_headers_loop :
    ℕ → Reader → List (List ℕ × List ℕ) → Option (Result (List (List ℕ × List ℕ)))
part_headers_loop fuel [] headers = some (ok headers)
part_headers_loop zero (b ∷ r) headers = none
part_headers_loop (suc fuel) (b ∷ r) headers = elim (read_part_header (b ∷ r) headers) [
  | err e ↦ some (err e)
  | ok (headers', r') ↦ part_headers_loop fuel r' headers'
]

unfoldable pub decode_part_headers : List ℕ → Result Part
decode_part_headers [] = err missing_part_headers
decode_part_headers (b ∷ bs) = do
  (value, r) ← decode_part_content_type_value (b ∷ bs)
  headers ← settle (part_headers_loop (length r) r [])
  ok (record {
    headers = headers;
    content_type = value.media_type;
    content_type_params = value.params;
    payload = [];
  })

-- One part: the two lengths, each with its test, the header block and the data.
unfoldable pub decode_part : Reader → Result (Part × Reader)
decode_part r = do
  (header_len, r₁) ← read_uintvar_from_reader r
  (data_len, r₂) ← read_uintvar_from_reader r₁
  if ltb (length r₂) header_len then err short_data else do
    (block, r₃) ← read_n header_len r₂
    if ltb (length r₃) data_len then err short_data else do
      (payload, r₄) ← read_n data_len r₃
      part ← decode_part_headers block
      ok (record part { payload = payload }, r₄)

-- The loop over the count.
unfoldable pub decode_parts : ℕ → Reader → List Part → Result (List Part)
decode_parts zero r parts = ok parts
decode_parts (suc n) r parts = elim (decode_part r) [
  | err e ↦ err e
  | ok (part, r') ↦ decode_parts n r' (parts ++ (part ∷ []))
]

-- Every part takes two bytes at least, and a count that the bytes cannot meet is refused.
unfoldable pub decode_multipart : List ℕ → Result MultipartBody
decode_multipart [] = ok (record { parts = [] })
decode_multipart (b ∷ bs) = do
  (count, consumed) ← decode_uintvar (b ∷ bs)
  if ltb (length (drop consumed (b ∷ bs)) / 2) count
      then err too_many_parts
      else do parts ← decode_parts count (drop consumed (b ∷ bs)) []; ok (record { parts = parts })
