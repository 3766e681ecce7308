-- ===== src/Mmspdu/Header.antt =====
-- internal/mmspdu/header.go: header names, header values by their kind, and whole header blocks.
pub mod Delimit
pub mod RoundTrip
use vectorcore_mmsc.Base.{
  ℕ, zero, suc, ◌+◌, bit_and, bit_or, List, [], ◌∷◌, ◌++◌, length, take, drop, is_empty, Option,
  none, some, Bool, true, false, not, ltb, leb, ◌==◌, if◌then◌else◌, Result, ok, err, ◌>>=◌,
  panicked, text_header_name, unsupported_kind, empty_value,
}
use vectorcore_mmsc.Base.ByteMap.{lookup, insert, keys, sort}
use vectorcore_mmsc.Mmspdu.Types.{
  FieldKind, unknown, octets, text, encoded_string, token, short_integer, long_integer, date,
  address, kind_for_field,
}
use vectorcore_mmsc.Mmspdu.Integers.{decode_uintvar}
use vectorcore_mmsc.Mmspdu.Strings.{encode_text_string}
use vectorcore_mmsc.Mmspdu.Reader.{Reader, read_byte, read_n, read_until_null, read_until_null_from}
use vectorcore_mmsc.Mmspdu.Values.{HeaderValue}

abbrev pub Headers : Type 0
Headers = List (ℕ × HeaderValue)

unfoldable pub encode_header_name : ℕ → List ℕ
encode_header_name field =
    if leb field 0x7F then bit_or 0x80 field ∷ [] else encode_text_string (field ∷ [])

unfoldable pub decode_header_name : Reader → Result (ℕ × Reader)
unfolding read_byte
decode_header_name r = do
  (b, r') ← read_byte r
  if not (bit_and b 0x80 == 0) then ok (bit_and b 0x7F, r') else err text_header_name

-- A length byte was read: as many bytes follow it.
unfoldable pub read_counted : ℕ → Reader → Result (List ℕ × Reader)
read_counted first r = do (rest, r') ← read_n first r; ok (first ∷ rest, r')

-- A Length-quote was read: a Uintvar-integer follows it, and as many bytes.
unfoldable pub read_quoted_length : Reader → Result (List ℕ × Reader)
read_quoted_length r = do
  (n, consumed) ← decode_uintvar r
  (rest, r') ← read_n n (drop consumed r)
  ok ((0x1F ∷ take consumed r) ++ rest, r')

unfoldable pub decode_header_value : FieldKind → Reader → Result (List ℕ × Reader)
unfolding read_byte
decode_header_value text r = read_until_null r
decode_header_value encoded_string r = read_until_null r
decode_header_value address r = do
  (first, r') ← read_byte r
  if leb first 30 then read_counted first r' else read_until_null_from (first ∷ []) r'
decode_header_value token r = read_n 1 r
decode_header_value short_integer r = read_n 1 r
decode_header_value long_integer r = do (first, r') ← read_byte r; read_counted first r'
decode_header_value date r = do (first, r') ← read_byte r; read_counted first r'
decode_header_value octets r = do
  (first, r') ← read_byte r
  if leb first 30
      then read_counted first r'
      else if first == 0x1F
      then read_quoted_length r'
      else ok (first ∷ [], r')
decode_header_value unknown r = err unsupported_kind

-- One round of the loops of `DecodeHeaders` and `decodePDUSections`.
unfoldable pub decode_header : Reader → Result (ℕ × HeaderValue × Reader)
decode_header r = do
  (field, r') ← decode_header_name r
  (raw, r'') ← decode_header_value (kind_for_field field) r'
  ok (field, record { field = field; kind = kind_for_field field; raw = raw }, r'')

-- Every round takes a byte at least; `none` means that the fuel ran out.
unfoldable pub decode_headers_loop : ℕ → Reader → Headers → Option (Result Headers)
decode_headers_loop fuel [] headers = some (ok headers)
decode_headers_loop zero (b ∷ r) headers = none
decode_headers_loop (suc fuel) (b ∷ r) headers = elim (decode_header (b ∷ r)) [
  | err e ↦ some (err e)
  | ok (field, value, r') ↦ decode_headers_loop fuel r' (insert field value headers)
]

-- What a loop returns; a loop without fuel would be a fault of the model.
abbrev pub settle {ℓ} : {A : Type ℓ} → Option (Result A) → Result A
settle none = err panicked
settle (some r) = r

unfoldable pub decode_headers : List ℕ → Result Headers
unfolding decode_headers_loop
decode_headers bytes = settle (decode_headers_loop (length bytes) bytes [])

-- headers[field].Raw; a missing key has the zero value, whose bytes are none.
unfoldable pub raw_of : ℕ → Headers → List ℕ
raw_of field headers = elim (lookup field headers) [ none ↦ [] | some v ↦ v.raw ]

-- The fields of the list in its order, behind what is written already.
unfoldable pub encode_fields : Headers → List ℕ → List ℕ → Result (List ℕ)
encode_fields headers [] out = ok out
encode_fields headers (field ∷ fields) out =
    if is_empty (raw_of field headers)
    then err empty_value
    else encode_fields headers fields (out ++ (encode_header_name field ++ raw_of field headers))

unfoldable pub encode_headers : Headers → Result (List ℕ)
unfolding encode_fields
encode_headers headers = encode_fields headers (sort (keys headers)) []
