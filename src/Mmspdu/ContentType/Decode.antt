-- ===== src/Mmspdu/ContentType/Decode.antt =====
-- The decoders of internal/mmspdu/content_type.go.
pub mod Ends
use vectorcore_mmsc.Base.{
  ℕ, zero, suc, ◌+◌, ◌/◌, ◌%◌, bit_and, List, [], ◌∷◌, ◌++◌, length, take, drop, is_empty, Option,
  none, some, Bool, true, false, ◌&&◌, not, ltb, leb, ◌==◌, if◌then◌else◌, Result, ok, err, ◌>>=◌,
  or_else, short_data, unknown_token, bad_value_length, not_content_type,
}
use vectorcore_mmsc.Base.Text.{codes, bytes_eq, to_lower}
use vectorcore_mmsc.Base.ByteMap
use vectorcore_mmsc.Base.TextMap
use vectorcore_mmsc.Mmspdu.Types.{field_content_type}
use vectorcore_mmsc.Mmspdu.Integers.{decode_uintvar}
use vectorcore_mmsc.Mmspdu.Strings.{
  decode_text_string, decode_quoted_string, decode_encoded_string_payload,
}
use vectorcore_mmsc.Mmspdu.Reader.{Reader, read_byte, read_until_null}
use vectorcore_mmsc.Mmspdu.Values.{HeaderValue}
use vectorcore_mmsc.Mmspdu.Header.{settle}
use vectorcore_mmsc.Mmspdu.ContentType.{ContentTypeValue}
use vectorcore_mmsc.Mmspdu.ContentType.Tables.{
  well_known_media_types_by_token, well_known_content_type_params_by_token,
  well_known_charsets_by_token,
}

-- b & 0x80 != 0
abbrev pub has_top_bit : ℕ → Bool
has_top_bit b = not (bit_and b 0x80 == 0)

unfoldable pub decode_well_known_media_type : ℕ → Result (List ℕ)
decode_well_known_media_type t = elim (ByteMap.lookup t well_known_media_types_by_token) [
  | some name ↦ ok name
  | none ↦ err unknown_token
]

-- The length, and the bytes that it takes.
unfoldable pub decode_value_length : List ℕ → Result (ℕ × ℕ)
decode_value_length [] = err short_data
decode_value_length (b ∷ bs) =
    if leb b 30
    then ok (b, 1)
    else if b == 0x1F
    then (if ltb (length (b ∷ bs)) 2
        then err short_data
        else do (value, n) ← decode_uintvar bs; ok (value, 1 + n))
    else err bad_value_length

unfoldable pub decode_token_or_text_string : List ℕ → Result (List ℕ)
decode_token_or_text_string [] = err short_data
decode_token_or_text_string (b ∷ bs) = or_else (decode_quoted_string (b ∷ bs)) (
    or_else (decode_text_string (b ∷ bs)) (
      or_else (decode_encoded_string_payload (b ∷ bs))
        (if is_empty bs && has_top_bit b then err unknown_token else err short_data)))

unfoldable pub decode_token_or_text_media_type : List ℕ → Result (List ℕ)
decode_token_or_text_media_type [] = decode_token_or_text_string []
decode_token_or_text_media_type (b ∷ bs) =
    if is_empty bs && has_top_bit b
    then decode_well_known_media_type b
    else decode_token_or_text_string (b ∷ bs)

-- fmt.Sprintf("%d", n), for the numbers below 1000.
unfoldable pub decimal : ℕ → List ℕ
decimal n =
    if ltb n 10
    then (b'0' + n) ∷ []
    else if ltb n 100
    then (b'0' + n / 10) ∷ (b'0' + n % 10) ∷ []
    else (b'0' + n / 100) ∷ (b'0' + n / 10 % 10) ∷ (b'0' + n % 10) ∷ []

unfoldable pub decode_charset_param_value : List ℕ → Result (List ℕ)
decode_charset_param_value [] = err short_data
decode_charset_param_value (b ∷ bs) =
    if is_empty bs && has_top_bit b
    then elim (ByteMap.lookup b well_known_charsets_by_token) [
      | some charset ↦ ok charset
      | none ↦ ok (decimal (bit_and b 0x7f))
    ]
    else decode_token_or_text_string (b ∷ bs)

unfoldable pub decode_content_type_param_value : List ℕ → List ℕ → Result (List ℕ)
decode_content_type_param_value name raw =
    if bytes_eq (to_lower name) (codes "type")
    then decode_token_or_text_media_type raw
    else if bytes_eq (to_lower name) (codes "charset")
    then decode_charset_param_value raw
    else decode_token_or_text_string raw

unfoldable pub read_payload_media_type : Reader → Result (List ℕ × Reader)
read_payload_media_type [] = err short_data
read_payload_media_type (b ∷ r) =
    if has_top_bit b
    then (do name ← decode_well_known_media_type b; ok (name, r))
    else do (raw, r') ← read_until_null (b ∷ r); name ← decode_text_string raw; ok (name, r')

unfoldable pub skip_text_value : Reader → Result Reader
skip_text_value r = do (raw, r') ← read_until_null r; ok r'

-- One byte with the top bit set, or a text with its null byte.
unfoldable pub read_param_value : Reader → Result (List ℕ × Reader)
read_param_value [] = read_until_null []
read_param_value (b ∷ r) = if has_top_bit b then ok (b ∷ [], r) else read_until_null (b ∷ r)

-- The value of the parameter `name`: one more entry of the map.
unfoldable pub read_named_param :
    List ℕ → Reader → List (List ℕ × List ℕ) → Result (List (List ℕ × List ℕ) × Reader)
read_named_param name r params = do
  (raw, r') ← read_param_value r
  value ← decode_content_type_param_value name raw
  ok (TextMap.insert name value params, r')

-- One round of the loop over the parameters; the reader is not at its end. The value of an
-- unknown token is skipped.
unfoldable pub read_param :
    Reader → List (List ℕ × List ℕ) → Result (List (List ℕ × List ℕ) × Reader)
read_param [] params = err short_data
read_param (b ∷ r) params =
    if has_top_bit b
    then elim (ByteMap.lookup b well_known_content_type_params_by_token) [
      | none ↦ do r' ← skip_text_value r; ok (params, r')
      | some name ↦ read_named_param name r params
    ]
    else do
      (key_raw, r') ← read_until_null (b ∷ r)
      key ← decode_text_string key_raw
      read_named_param (to_lower key) r' params

-- `none` means that the fuel ran out.
unfoldable pub params_loop :
    ℕ → Reader → List (List ℕ × List ℕ) → Option (Result (List (List ℕ × List ℕ)))
params_loop fuel [] params = some (ok params)
params_loop zero (b ∷ r) params = none
params_loop (suc fuel) (b ∷ r) params = elim (read_param (b ∷ r) params) [
  | err e ↦ some (err e)
  | ok (params', r') ↦ params_loop fuel r' params'
]

-- The payload behind the length: a media type, and parameters up to its end.
unfoldable pub decode_content_type_payload : Reader → Result ContentTypeValue
decode_content_type_payload payload = do
  (media, r) ← read_payload_media_type payload
  params ← settle (params_loop (length r) r [])
  ok (record { media_type = media; params = params })

unfoldable pub decode_content_type_value : List ℕ → Result ContentTypeValue
decode_content_type_value [] = err short_data
decode_content_type_value (b ∷ bs) =
    if has_top_bit b
    then (do name ← decode_well_known_media_type b; ok (record { media_type = name; params = [] }))
    else do
      (n, consumed) ← decode_value_length (b ∷ bs)
      if ltb (length (b ∷ bs)) (consumed + n)
          then err short_data
          else decode_content_type_payload (take n (drop consumed (b ∷ bs)))

-- The method `ContentType`.
unfoldable pub value_content_type : HeaderValue → Result ContentTypeValue
value_content_type v =
    if v.field == field_content_type then decode_content_type_value v.raw else err not_content_type
