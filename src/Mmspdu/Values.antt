-- ===== src/Mmspdu/Values.antt =====
-- `HeaderValue` of internal/mmspdu/fields.go: its constructors and the methods that read it.
pub mod RoundTrip
pub mod Raw
use vectorcore_mmsc.Base.{
  ℕ, zero, suc, ◌+◌, ◌*◌, ◌%◌, ◌^◌, List, [], ◌∷◌, ◌++◌, length, Bool, true, false, ◌&&◌, ◌||◌, leb,
  ◌==◌, if◌then◌else◌, Result, ok, err, ◌>>=◌, bad_token, not_textual, not_integer,
}
use vectorcore_mmsc.Base.Text.{codes, bytes_eq}
use vectorcore_mmsc.Mmspdu.Types.{
  FieldKind, unknown, octets, text, encoded_string, token, short_integer, long_integer, date,
  address, field_from,
}
use vectorcore_mmsc.Mmspdu.Integers.{
  encode_short_integer, decode_short_integer, encode_long_integer, decode_long_integer,
}
use vectorcore_mmsc.Mmspdu.Strings.{
  encode_text_string, decode_text_string, encode_encoded_string, decode_encoded_string,
  decode_address_string, is_insert_address_token, normalize_address,
}

pub record HeaderValue : Type 0 where
  pub field : ℕ
  pub kind : FieldKind
  pub raw : List ℕ

unfoldable pub new_text_value : ℕ → List ℕ → HeaderValue
new_text_value f value = record { field = f; kind = text; raw = encode_text_string value }

unfoldable pub new_encoded_string_value : ℕ → List ℕ → HeaderValue
new_encoded_string_value f value = record {
  field = f;
  kind = encoded_string;
  raw = encode_encoded_string value;
}

unfoldable pub new_token_value : ℕ → ℕ → HeaderValue
new_token_value f value = record { field = f; kind = token; raw = value ∷ [] }

-- The panic of the Short-integer is the error `panicked`.
unfoldable pub new_short_integer_value : ℕ → ℕ → Result HeaderValue
new_short_integer_value f value = do
  raw ← encode_short_integer value
  ok (record { field = f; kind = short_integer; raw = raw })

unfoldable pub new_long_integer_value : ℕ → ℕ → HeaderValue
new_long_integer_value f value = record {
  field = f;
  kind = long_integer;
  raw = encode_long_integer value;
}

-- The argument is the Unix time, converted to a uint64.
unfoldable pub new_date_value : ℕ → ℕ → HeaderValue
new_date_value f unix = record { field = f; kind = date; raw = encode_long_integer unix }

-- A length byte and its payload.
abbrev pub with_length : List ℕ → List ℕ
with_length payload = (length payload % 256) ∷ payload

unfoldable pub new_relative_date_value : ℕ → ℕ → HeaderValue
new_relative_date_value f seconds = record {
  field = f;
  kind = date;
  raw = with_length (0x81 ∷ encode_long_integer seconds);
}

unfoldable pub new_from_value : List ℕ → HeaderValue
new_from_value value =
    if bytes_eq value (codes "#insert")
    then record { field = field_from; kind = address; raw = 0x01 ∷ 0x81 ∷ [] }
    else record {
      field = field_from;
      kind = address;
      raw = with_length (0x80 ∷ encode_text_string (normalize_address value));
    }

unfoldable pub new_address_value : ℕ → List ℕ → HeaderValue
new_address_value f value = record {
  field = f;
  kind = address;
  raw = encode_text_string (normalize_address value);
}

unfoldable pub text_of_kind : FieldKind → List ℕ → Result (List ℕ)
text_of_kind text raw = decode_text_string raw
text_of_kind address raw = decode_address_string raw
text_of_kind encoded_string raw = decode_encoded_string raw
text_of_kind _ raw = err not_textual

-- The method `Text`.
unfoldable pub value_text : HeaderValue → Result (List ℕ)
unfolding text_of_kind
value_text v = text_of_kind v.kind v.raw

unfoldable pub is_insert_address : HeaderValue → Bool
is_insert_address v = elim v.kind [ address ↦ is_insert_address_token v.raw | _ ↦ false ]

-- The method `Token`.
unfoldable pub value_token : HeaderValue → Result ℕ
value_token v = elim v.raw [
  | [] ↦ err bad_token
  | b ∷ bs ↦ elim bs [ [] ↦ ok b | c ∷ cs ↦ err bad_token ]
]

-- The value of a date: behind a length that fits, an absolute or relative token is skipped.
unfoldable pub integer_of_date : List ℕ → Result ℕ
integer_of_date (n ∷ t ∷ b ∷ bs) =
    if leb n 30 && (length (t ∷ b ∷ bs) == n && (t == 0x80 || t == 0x81))
    then decode_long_integer (b ∷ bs)
    else decode_long_integer (n ∷ t ∷ b ∷ bs)
integer_of_date raw = decode_long_integer raw

-- The method `Integer`.
unfoldable pub value_integer : HeaderValue → Result ℕ
unfolding integer_of_date
value_integer v = elim v.kind [
  | short_integer ↦ decode_short_integer v.raw
  | long_integer ↦ integer_of_date v.raw
  | date ↦ integer_of_date v.raw
  | _ ↦ err not_integer
]

-- A time: seconds since 1970, or nanoseconds to add to the clock at the call, in 64 bits.
pub data Moment : Type 0 where
  unix : ℕ → Moment
  after_now : ℕ → Moment

unfoldable pub time_of_date : List ℕ → Result Moment
unfolding integer_of_date
time_of_date (n ∷ t ∷ b ∷ bs) =
    if leb n 30 && (length (t ∷ b ∷ bs) == n && t == 0x81)
    then (do seconds ← decode_long_integer (b ∷ bs); ok (after_now (seconds * 1000000000 % 2 ^ 64)))
    else do seconds ← integer_of_date (n ∷ t ∷ b ∷ bs); ok (unix seconds)
time_of_date raw = do seconds ← integer_of_date raw; ok (unix seconds)

-- The method `Time`. An absolute date falls to the same decoding as `Integer` makes of it.
unfoldable pub value_time : HeaderValue → Result Moment
unfolding time_of_date value_integer
value_time v = elim v.kind [
  | date ↦ time_of_date v.raw
  | _ ↦ do seconds ← value_integer v; ok (unix seconds)
]
