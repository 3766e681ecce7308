-- ===== src/Mmspdu/Runs.antt =====
-- Concrete protocol data units and headers for the laws of internal/mmspdu.
use vectorcore_mmsc.Base.{
  ℕ, ◌<◌, List, [], ◌∷◌, length, All, not, ◌&&◌, ltb, Option, none, some, Bool, true, ◌==◌,
  Bool-cases, ok, ◌≡◌, inl, inr, refl, arith, ==_iff,
}
use vectorcore_mmsc.Base.Text.{codes, to_lower, trim_space, trim_left}
use vectorcore_mmsc.Base.TextMap
use vectorcore_mmsc.Base.ByteMap.{lookup}
use vectorcore_mmsc.Mmspdu.Types.{
  token, octets, kind_for_field, field_content_type, field_message_class, field_message_size,
  field_mms_version, long_integer, field_date,
}
use vectorcore_mmsc.Mmspdu.Strings.{encode_quoted_string}
use vectorcore_mmsc.Mmspdu.Strings.RoundTrip.{IsText}
use vectorcore_mmsc.Mmspdu.Values.{HeaderValue}
use vectorcore_mmsc.Mmspdu.Header.{Headers, encode_headers, decode_headers}
use vectorcore_mmsc.Mmspdu.Header.Delimit.{IsRaw}
use vectorcore_mmsc.Mmspdu.Header.RoundTrip.{IsHeaders, decode-encode_headers}
use vectorcore_mmsc.Mmspdu.ContentType.Tables.{well_known_media_type_tokens}
use vectorcore_mmsc.Mmspdu.ContentType.{
  encode_media_type, is_valid_media_type_text, printable, encode_content_type_value,
  normal_media_type,
}
use vectorcore_mmsc.Mmspdu.Multipart.{
  encode_part_header, ensure_angle_brackets, last_byte, Part, MultipartBody, encode_part_headers,
  encode_part_header_lines, normalize_header_map, encode_multipart,
}
use vectorcore_mmsc.Mmspdu.Multipart.Decode.{decode_multipart}
use vectorcore_mmsc.Mmspdu.Multipart.RoundTrip.{IsSendable, AllReceived, decode-encode_multipart}
use vectorcore_mmsc.Mmspdu.Codec.{Pdu, encode, decode, encode_ordered_headers}
use vectorcore_mmsc.Mmspdu.Codec.Sequence.{Writes, encode_ordered_headers-Writes}
use vectorcore_mmsc.Mmspdu.Codec.Received.{IsPdu, IsReceivedPdu}
use vectorcore_mmsc.Mmspdu.Codec.RoundTrip.{decode-encode}
use vectorcore_mmsc.Mmspdu.Codec.WithBody.{decode-encode_with_body}
use vectorcore_mmsc.Mmspdu.Strings.{normalize_address}
use vectorcore_mmsc.Mmspdu.Values.{new_date_value}
use vectorcore_mmsc.Mmspdu.Messages.{new_delivery_ind, parse_delivery_ind}
use vectorcore_mmsc.Mmspdu.Messages.Laws.{parse_delivery_ind-new}

-- An entry of a map of headers with bytes of its kind.
abbrev IsHeaderEntry : ℕ × HeaderValue → Type 0
IsHeaderEntry (k, v) =
    (k < 128) × (v.field ≡ k) × (v.kind ≡ kind_for_field k) × IsRaw (kind_for_field k) v.raw

some_value : (x y : HeaderValue) → some x ≡ some y → x ≡ y
some_value x y e = cc

at_entry :
    (m : Headers)
    → All IsHeaderEntry m
    → (k : ℕ) (v : HeaderValue) → lookup k m ≡ some v
    → IsHeaderEntry (k, v)
unfolding lookup
at_entry [] all k v found = absurd (cc)
at_entry ((j, w) ∷ m) all k v found = elim (Bool-cases (j == k)) [
  | inl same ↦
      let key : j ≡ k = (==_iff j k).0 same in
      let value : w ≡ v = some_value w v (rw same at found) in rw (← key, ← value) all.0
  | inr other ↦ at_entry m all.1 k v (rw other at found)
]

-- The test of a text's bytes, and what it decides.
abbrev is_text : List ℕ → Bool
is_text [] = true
is_text (c ∷ s) = not (c == 0) && (ltb c 256 && is_text s)

pub IsText-by_test : (s : List ℕ) → is_text s ≡ true → IsText s
IsText-by_test [] h = tt
IsText-by_test (c ∷ s) h = ((ground arith, ground arith), IsText-by_test s (ground arith))

-- A subscription's map: a message class and a size of 300 bytes.
abbrev class_and_size : Headers
class_and_size =
    (field_message_class, record { field = field_message_class; kind = token; raw = 0x80 ∷ [] })
    ∷ (
      field_message_size,
      record { field = field_message_size; kind = long_integer; raw = 2 ∷ 1 ∷ 44 ∷ [] },
    )
    ∷ []

class_and_size-IsHeaders : IsHeaders class_and_size
unfolding kind_for_field
class_and_size-IsHeaders = record {
  at_field = at_entry class_and_size (
    (omega arith, refl, refl, (0x80, refl)),
    ((omega arith, refl, refl, (2, 1 ∷ 44 ∷ [], refl, refl)), tt),
  );
}

abbrev typed_headers : Headers
typed_headers =
    (field_content_type, record { field = field_content_type; kind = octets; raw = 0xB3 ∷ [] })
    ∷ class_and_size

typed_headers-IsHeaders : IsHeaders typed_headers
unfolding kind_for_field
typed_headers-IsHeaders = record {
  at_field = at_entry typed_headers (
    (omega arith, refl, refl, inr (inl (0xB3, refl, omega arith))),
    (
      (omega arith, refl, refl, (0x80, refl)),
      ((omega arith, refl, refl, (2, 1 ∷ 44 ∷ [], refl, refl)), tt),
    ),
  );
}

-- A unit of type 0x84 that is sent with or without a body.
abbrev unit_of : Headers → Option MultipartBody → Pdu
unit_of headers body = record {
  message_type = 0x84;
  transaction_id = codes "T1";
  mms_version = codes "1.2";
  headers = headers;
  header_order = field_mms_version ∷ [];
  body = body;
}

unit_of-IsPdu :
    (headers : Headers) (body : Option MultipartBody)
    → IsHeaders headers
    → IsPdu (unit_of headers body)
unit_of-IsPdu headers body formed = record {
  formed = formed;
  typed = λ e. omega arith;
  identified = refl;
  identifier = IsText-by_test (codes "T1") refl;
  versioned = inr (inr (inl refl));
}

abbrev greeting : Part
greeting = record {
  headers = (codes "Content-ID", codes "a") ∷ [];
  content_type = codes "text/plain";
  content_type_params = [];
  payload = codes "Hi";
}

greeting_block : length (encode_part_headers greeting) ≡ 7
unfolding encode_part_headers encode_content_type_value encode_media_type TextMap.lookup
    well_known_media_type_tokens normal_media_type is_valid_media_type_text printable to_lower
    trim_space trim_left encode_part_header_lines normalize_header_map TextMap.insert TextMap.sort
    TextMap.keys TextMap.insert_sorted TextMap.text_at encode_part_header ensure_angle_brackets
    last_byte encode_quoted_string
greeting_block = refl

greeting-IsSendable : IsSendable greeting
greeting-IsSendable = record {
  plain = record {
    no_params = refl;
    headers_fit =
        ((refl, IsText-by_test (codes "Content-ID") refl, IsText-by_test (codes "a") refl), tt);
  };
  block_fits = omega (arith, greeting_block);
  payload_fits = omega arith;
}

decode-encode_with_body_example :
    (bytes : List ℕ) × (q : Pdu) × (received : List Part) × (encode
        (some (unit_of typed_headers (some (record { parts = greeting ∷ [] }))))
      ≡ ok bytes)
    × (decode bytes ≡ ok q)
    × IsReceivedPdu (unit_of typed_headers (some (record { parts = greeting ∷ [] }))) q
    × (q.body ≡ some (record { parts = received }))
    × AllReceived (greeting ∷ []) received
decode-encode_with_body_example =
    decode-encode_with_body (unit_of typed_headers (some (record { parts = greeting ∷ [] })))
      (greeting ∷ []) (record { field = field_content_type; kind = octets; raw = 0xB3 ∷ [] })
      (unit_of-IsPdu typed_headers (some (record { parts = greeting ∷ [] }))
        typed_headers-IsHeaders)
      refl (unfold lookup in refl) (greeting-IsSendable, tt) (omega arith)

decode-encode_example :
    (bytes : List ℕ) × (q : Pdu) × (encode (some (unit_of class_and_size none)) ≡ ok bytes)
    × (decode bytes ≡ ok q)
    × IsReceivedPdu (unit_of class_and_size none) q
    × (q.body ≡ none)
decode-encode_example =
    decode-encode (unit_of class_and_size none)
      (unit_of-IsPdu class_and_size none class_and_size-IsHeaders) refl (unfold lookup in refl)

decode-encode_multipart_example :
    (qs : List Part) × (decode_multipart
        (encode_multipart (some (record { parts = greeting ∷ greeting ∷ [] })))
      ≡ ok (record { parts = qs }))
    × AllReceived (greeting ∷ greeting ∷ []) qs
decode-encode_multipart_example =
    decode-encode_multipart (greeting ∷ greeting ∷ [])
      (greeting-IsSendable, (greeting-IsSendable, tt)) (omega arith)

decode-encode_headers_example :
    (bytes : List ℕ) × (result : Headers) × (encode_headers typed_headers ≡ ok bytes)
    × (decode_headers bytes ≡ ok result)
    × ((k : ℕ) → lookup k result ≡ lookup k typed_headers)
decode-encode_headers_example = decode-encode_headers typed_headers typed_headers-IsHeaders

encode_ordered_headers_example :
    Writes class_and_size
      (encode_ordered_headers class_and_size (field_date ∷ field_message_size ∷ []))
encode_ordered_headers_example =
    encode_ordered_headers-Writes class_and_size (field_date ∷ field_message_size ∷ [])
      class_and_size-IsHeaders

parse_delivery_ind_example :
    parse_delivery_ind (some (new_delivery_ind 7 (codes "m") (codes "+1555") 0x81))
    ≡ ok (record {
      message_id = codes "m";
      to = normalize_address (codes "+1555");
      status = 0x81;
      date = some (new_date_value field_date 7);
    })
parse_delivery_ind_example =
    parse_delivery_ind-new 7 0x81 (codes "m") (codes "+1555") (IsText-by_test (codes "m") refl)
      (IsText-by_test (codes "+1555") refl)
