-- ===== src/Mmspdu/Values/RoundTrip.antt =====
-- The methods of `HeaderValue` of internal/mmspdu/fields.go after its constructors: integers, dates and
-- the sender's address.
use vectorcore_mmsc.Base.{
  ℕ, suc, ◌*◌, ◌/◌, ◌%◌, ◌^◌, ◌<◌, ◌≤◌, List, [], ◌∷◌, ◌++◌, length, length-append, take,
  take-length_append, Bool, true, false, ◌||◌, ◌==◌, if◌then◌else◌, ok, err, ◌>>=◌, ◌≡◌, refl, ap,
  ◌∙◌, arith, invalid_integer, insert_address, append-nil,
}
use vectorcore_mmsc.Base.Text.{codes, bytes_eq}
use vectorcore_mmsc.Mmspdu.Integers.{encode_long_integer, decode_long_integer}
use vectorcore_mmsc.Mmspdu.Integers.RoundTrip.{
  encode_long_integer_shape, decode-encode_long_integer,
}
use vectorcore_mmsc.Mmspdu.Strings.{
  needs_quote, encode_text_string, decode_encoded_string_payload, decode_address_string,
  decode_address_value, is_insert_address_token, normalize_address,
}
use vectorcore_mmsc.Mmspdu.Strings.RoundTrip.{IsText, not_lead_bit, decode_text_string-append}
use vectorcore_mmsc.Mmspdu.Strings.Address.{
  decode_address-plain, not_insert_address, decode_address_value-normalize_address,
  normalize_address-IsText,
}
use vectorcore_mmsc.Mmspdu.Values.{
  new_long_integer_value, new_date_value, new_relative_date_value, new_from_value, value_text,
  value_integer, value_time, integer_of_date, time_of_date, unix, after_now, is_insert_address,
}

-- A Long-integer of two bytes or more whose first byte is the token 0x80 or 0x81.
abbrev pub has_token_lead : List ℕ → Bool
has_token_lead (n ∷ t ∷ b ∷ bs) = t == 0x80 || t == 0x81
has_token_lead _ = false

integer_of_date-plain :
    (raw : List ℕ) → has_token_lead raw ≡ false → integer_of_date raw ≡ decode_long_integer raw
unfolding integer_of_date
integer_of_date-plain [] h = refl
integer_of_date-plain (n ∷ []) h = refl
integer_of_date-plain (n ∷ t ∷ []) h = refl
integer_of_date-plain (n ∷ t ∷ b ∷ bs) h = ground arith

-- A number whose first byte is none of the two tokens is read back.
pub value_integer-new_long_integer :
    (f v : ℕ)
    → v < 2 ^ 64
    → has_token_lead (encode_long_integer v) ≡ false
    → value_integer (new_long_integer_value f v) ≡ ok v
unfolding value_integer new_long_integer_value
value_integer-new_long_integer f v fits lead =
    integer_of_date-plain (encode_long_integer v) lead ∙ decode-encode_long_integer v fits

lone_byte : (b : ℕ) → decode_long_integer (b ∷ []) ≡ err invalid_integer
unfolding decode_long_integer
lone_byte b = ground arith

two_bytes : (v : ℕ) → 256 ≤ v → v < 2 ^ 16 → encode_long_integer v ≡ 2 ∷ (v / 256) ∷ (v % 256) ∷ []
unfolding encode_long_integer
two_bytes v low high = ground arith

-- A long integer from 0x8000 to 0x81FF that is made a header value is refused by the method
-- that reads integers.
pub value_integer_misread :
    (f v : ℕ)
    → 0x8000 ≤ v
    → v ≤ 0x81FF
    → value_integer (new_long_integer_value f v) ≡ err invalid_integer
unfolding value_integer new_long_integer_value integer_of_date
value_integer_misread f v low high =
    rw (two_bytes v (omega arith) (omega arith)) (ground (arith, lone_byte (v % 256)))

time_of_relative :
    (n : ℕ) (bs : List ℕ) (s : ℕ)
    → length bs ≡ n
    → 1 ≤ n
    → n ≤ 8
    → decode_long_integer (n ∷ bs) ≡ ok s
    → time_of_date ((suc (length (n ∷ bs)) % 256) ∷ 0x81 ∷ n ∷ bs)
      ≡ ok (after_now (s * 1000000000 % 2 ^ 64))
unfolding time_of_date
time_of_relative n bs s len lo hi read = ground arith

time_of_date-plain :
    (raw : List ℕ)
    → has_token_lead raw ≡ false
    → time_of_date raw ≡ (do seconds ← decode_long_integer raw; ok (unix seconds))
unfolding time_of_date
time_of_date-plain [] h = refl
time_of_date-plain (n ∷ []) h = refl
time_of_date-plain (n ∷ t ∷ []) h = refl
time_of_date-plain (n ∷ t ∷ b ∷ bs) h = ground arith

-- A relative date of fewer than 2^64 seconds is read back as that many seconds after the
-- clock, as nanoseconds in 64 bits.
pub value_time-new_relative_date :
    (f s : ℕ)
    → s < 2 ^ 64
    → value_time (new_relative_date_value f s) ≡ ok (after_now (s * 1000000000 % 2 ^ 64))
unfolding value_time new_relative_date_value
value_time-new_relative_date f s fits =
    let (n, bs, e, len, lo, hi, value) = encode_long_integer_shape s fits in
    let read = rw e at (decode-encode_long_integer s fits) in
    rw e (time_of_relative n bs s len lo hi read)

-- The clock is not asked for a date that `new_date_value` made, and the date is read back.
pub value_time-new_date :
    (f t : ℕ)
    → t < 2 ^ 64
    → has_token_lead (encode_long_integer t) ≡ false
    → value_time (new_date_value f t) ≡ ok (unix t)
unfolding value_time new_date_value
value_time-new_date f t fits lead =
    time_of_date-plain (encode_long_integer t) lead ∙ rw (decode-encode_long_integer t fits)

from_payload :
    (s : List ℕ)
    → bytes_eq s (codes "#insert") ≡ false
    → value_text (new_from_value s)
      ≡ decode_address_string (
          (suc (length (encode_text_string (normalize_address s))) % 256)
          ∷ 0x80
          ∷ encode_text_string (normalize_address s))
unfolding value_text new_from_value
from_payload s other = rw other

-- Behind a length of at most 30 the address-present token is skipped.
short_payload :
    (n : ℕ) (e : List ℕ)
    → 1 ≤ length e
    → n ≡ suc (length e)
    → n ≤ 30
    → decode_address_string (n ∷ 0x80 ∷ e) ≡ decode_address_value e
unfolding decode_address_string decode_address_value is_insert_address_token
short_payload n [] some_byte len low = absurd (omega arith)
short_payload n (x ∷ xs) some_byte len low = rw (len, take_all xs) (ground arith)
  where
    take_all : (ys : List ℕ) → take (length ys) ys ≡ ys
    take_all ys = rw append-nil at (take-length_append ys [])

length-encode_text_string : (s : List ℕ) → 1 ≤ length (encode_text_string s)
unfolding encode_text_string
length-encode_text_string s =
    omega (arith, length-append (if needs_quote s then 0x7f ∷ s else s) (0 ∷ []))

-- A longer length is the first character of a text.
long_payload :
    (n : ℕ) (a : List ℕ)
    → IsText a
    → needs_quote a ≡ false
    → 30 < n
    → n < 127
    → decode_address_string (n ∷ 0x80 ∷ encode_text_string a) ≡ ok (n ∷ 0x80 ∷ a)
unfolding decode_address_string encode_text_string
long_payload n a text plain low high =
    rw (plain, not_insert_address n (0x80 ∷ (a ++ (0 ∷ []))) low)
      (decode_address-plain n (0x80 ∷ (a ++ (0 ∷ []))) low (omega arith)
        ∙ unfold decode_encoded_string_payload in
          ground (
            arith,
            not_lead_bit n (omega arith),
            decode_text_string-append n (0x80 ∷ a)
                ((omega arith, omega arith), ((omega arith, omega arith), text)),
          ))

-- A From value made of a text of bytes without null, other than the insert token, whose normal
-- form is encoded in fewer than 30 bytes, is read back as that normal form.
pub value_text-new_from_value :
    (s : List ℕ)
    → IsText s
    → bytes_eq s (codes "#insert") ≡ false
    → length (encode_text_string (normalize_address s)) < 30
    → value_text (new_from_value s) ≡ ok (normalize_address s)
value_text-new_from_value s text other fits =
    from_payload s other
    ∙ short_payload _ (encode_text_string (normalize_address s)) (length-encode_text_string _)
        (omega arith) (omega arith)
    ∙ decode_address_value-normalize_address s text

-- A From value made of a text whose normal form needs no quote and is encoded in 30 to 125
-- bytes is read back with two bytes more at its front, the length byte and 0x80.
pub value_text_long_from :
    (s : List ℕ)
    → IsText s
    → bytes_eq s (codes "#insert") ≡ false
    → needs_quote (normalize_address s) ≡ false
    → 30 ≤ length (encode_text_string (normalize_address s))
    → length (encode_text_string (normalize_address s)) < 126
    → value_text (new_from_value s)
      ≡ ok (suc (length (encode_text_string (normalize_address s))) ∷ 0x80 ∷ normalize_address s)
value_text_long_from s text other plain low high =
    from_payload s other
    ∙ long_payload _ (normalize_address s) (normalize_address-IsText s text) plain (omega arith)
        (omega arith)
    ∙ ap (λ n. ok (n ∷ 0x80 ∷ normalize_address s)) (omega arith)

-- The token that asks the service to insert the address is no text, and is known as such.
pub insert_address_token :
    (is_insert_address (new_from_value (codes "#insert")) ≡ true)
    × (value_text (new_from_value (codes "#insert")) ≡ err insert_address)
unfolding is_insert_address value_text new_from_value is_insert_address_token decode_address_string
insert_address_token = (refl, refl)
