-- ===== src/Mmspdu/Multipart/Lines.antt =====
-- The decoder after the encoder of one header line of a part of internal/mmspdu/multipart.go.
use vectorcore_mmsc.Base.{
  ℕ, ◌≤◌, List, [], ◌∷◌, ◌++◌, length, length-append, append_assoc, All-append, is_empty, false,
  if◌then◌else◌, Bool-cases, ok, err, ◌>>=◌, ◌≡◌, ◌≢◌, inl, inr, refl, ◌∙◌, arith, short_data,
}
use vectorcore_mmsc.Base.Text.{codes, bytes_eq, bytes_eq→eq, to_lower}
use vectorcore_mmsc.Base.TextMap
use vectorcore_mmsc.Mmspdu.Strings.{
  needs_quote, encode_text_string, decode_text_string, encode_quoted_string, decode_quoted_string,
}
use vectorcore_mmsc.Mmspdu.Strings.RoundTrip.{
  IsText, encode_text_string_shape, not_lead_bit, decode-encode_text_string,
  decode-encode_quoted_string,
}
use vectorcore_mmsc.Mmspdu.Reader.{read_until_null}
use vectorcore_mmsc.Mmspdu.Header.Delimit.{read_until_null-text}
use vectorcore_mmsc.Mmspdu.ContentType.{encode_text_or_empty}
use vectorcore_mmsc.Mmspdu.Multipart.{
  ensure_angle_brackets, encode_part_text_value, encode_part_header,
}
use vectorcore_mmsc.Mmspdu.Multipart.Decode.{
  is_text_string_start, read_part_header_value, decode_part_header_text_value,
  decode_well_known_part_header, read_part_header,
}

-- A null-ended text whose first byte is a printable character or the quote.
abbrev pub TextValue : List ℕ → Type 0
TextValue raw =
    (d : ℕ) × (t : List ℕ) × (raw ≡ (d ∷ t) ++ (0 ∷ [])) × (0x20 ≤ d) × (d ≤ 0x7f) × IsText (d ∷ t)

pub encode_text_string-TextValue :
    (s : List ℕ) → is_empty s ≡ false → IsText s → TextValue (encode_text_string s)
encode_text_string-TextValue [] some_char h = absurd (cc)
encode_text_string-TextValue (c ∷ s) some_char h =
    let (d, t, e, low, high, other, text) = encode_text_string_shape c s h in
    (d, t, e, low, high, text)

encode_quoted_string-TextValue : (s : List ℕ) → IsText s → TextValue (encode_quoted_string s)
unfolding encode_quoted_string
encode_quoted_string-TextValue s h =
    (0x22, s, refl, omega arith, omega arith, ((omega arith, omega arith), h))

pub encode_text_or_empty-TextValue : (s : List ℕ) → IsText s → TextValue (encode_text_or_empty s)
unfolding encode_text_or_empty
encode_text_or_empty-TextValue [] h = encode_quoted_string-TextValue [] tt
encode_text_or_empty-TextValue (c ∷ s) h = encode_text_string-TextValue (c ∷ s) refl h

-- Such a value is taken whole.
read_part_header_value-text :
    (raw rest : List ℕ) → TextValue raw → read_part_header_value (raw ++ rest) ≡ ok (raw, rest)
read_part_header_value-text raw rest (d, t, e, low, high, text) =
    rw e (whole d t low high ∙ read_until_null-text (d ∷ t) rest text)
  where
    whole :
        (c : ℕ) (s : List ℕ)
        → 0x20 ≤ c
        → c ≤ 0x7f
        → read_part_header_value (((c ∷ s) ++ (0 ∷ [])) ++ rest)
          ≡ read_until_null (((c ∷ s) ++ (0 ∷ [])) ++ rest)
    whole c s p q = unfold read_part_header_value is_text_string_start in ground arith

pub read_until_null-TextValue :
    (raw rest : List ℕ) → TextValue raw → read_until_null (raw ++ rest) ≡ ok (raw, rest)
read_until_null-TextValue raw rest (d, t, e, low, high, text) =
    rw e (read_until_null-text (d ∷ t) rest text)

not_quoted : (d : ℕ) (bs : List ℕ) → d ≢ 0x22 → decode_quoted_string (d ∷ bs) ≡ err short_data
unfolding decode_quoted_string
not_quoted d [] h = refl
not_quoted d (b ∷ bs) h = ground arith

decode_value-quoted :
    (s : List ℕ) → IsText s → decode_part_header_text_value (encode_quoted_string s) ≡ ok s
unfolding decode_part_header_text_value encode_quoted_string
decode_value-quoted s h = rw (decode-encode_quoted_string s h)

decode_value-text :
    (c : ℕ) (s : List ℕ)
    → IsText (c ∷ s)
    → decode_part_header_text_value (encode_text_string (c ∷ s)) ≡ ok (c ∷ s)
decode_value-text c s h =
    let (d, t, e, low, high, other, text) = encode_text_string_shape c s h in
    let read = rw e at (decode-encode_text_string (c ∷ s) h) in
    rw e (unfold decode_part_header_text_value in rw (not_quoted d (t ++ (0 ∷ [])) other) (rw read))

decode_value-text_or_empty :
    (s : List ℕ) → IsText s → decode_part_header_text_value (encode_text_or_empty s) ≡ ok s
unfolding encode_text_or_empty
decode_value-text_or_empty [] h = decode_value-quoted [] tt
decode_value-text_or_empty (c ∷ s) h = decode_value-text c s h

ensure_angle_brackets-IsText : (s : List ℕ) → IsText s → IsText (ensure_angle_brackets s)
unfolding ensure_angle_brackets
ensure_angle_brackets-IsText [] h = omega arith
ensure_angle_brackets-IsText (c ∷ []) h =
    ((omega arith, omega arith), (h.0, ((omega arith, omega arith), tt)))
ensure_angle_brackets-IsText (c ∷ d ∷ s) h = ground (
  arith,
  All-append _ (b'<' ∷ c ∷ d ∷ s) (b'>' ∷ []) ((omega arith, omega arith), h) (omega arith),
)

-- The value that is read back for a key: a Content-ID gets its brackets.
unfoldable pub header_value_back : List ℕ → List ℕ → List ℕ
header_value_back key value =
    if bytes_eq key (codes "content-id") then ensure_angle_brackets value else value

-- A line under the token of Content-ID, and one under that of Content-Location.
content_id_line :
    (value rest : List ℕ) (headers : List (List ℕ × List ℕ))
    → IsText value
    → read_part_header (0xC0 ∷ (encode_quoted_string value ++ rest)) headers
      ≡ ok (TextMap.insert (codes "content-id") value headers, rest)
unfolding read_part_header decode_well_known_part_header
content_id_line value rest headers h = rw (
  read_part_header_value-text (encode_quoted_string value) rest
      (encode_quoted_string-TextValue value h),
  decode_value-quoted value h,
)

content_location_line :
    (value rest : List ℕ) (headers : List (List ℕ × List ℕ))
    → IsText value
    → read_part_header (0x8E ∷ (encode_text_or_empty value ++ rest)) headers
      ≡ ok (TextMap.insert (codes "content-location") value headers, rest)
unfolding read_part_header decode_well_known_part_header
content_location_line value rest headers h = rw (
  read_part_header_value-text (encode_text_or_empty value) rest
      (encode_text_or_empty-TextValue value h),
  decode_value-text_or_empty value h,
)

-- A line whose name is a text.
text_line :
    (raw key value rest : List ℕ) (headers : List (List ℕ × List ℕ))
    → TextValue raw
    → decode_text_string raw ≡ ok key
    → to_lower key ≡ key
    → IsText value
    → read_part_header (raw ++ (encode_text_or_empty value ++ rest)) headers
      ≡ ok (TextMap.insert key value headers, rest)
text_line raw key value rest headers (d, t, e, low, high, text) named lower h = rw e (
    plain_name d (t ++ (0 ∷ [])) high
    ∙ rw (
      read_until_null-text (d ∷ t) (encode_text_or_empty value ++ rest) text,
      read_until_null-TextValue (encode_text_or_empty value) rest
          (encode_text_or_empty-TextValue value h),
      rw e at named,
      decode_value-text_or_empty value h,
      lower,
    ))
  where
    plain_name :
        (c : ℕ) (s : List ℕ)
        → c ≤ 0x7f
        → read_part_header ((c ∷ s) ++ (encode_text_or_empty value ++ rest)) headers ≡ do
          (key_raw, r') ← read_until_null ((c ∷ s) ++ (encode_text_or_empty value ++ rest))
          (value_raw, r'') ← read_until_null r'
          k ← decode_text_string key_raw
          v ← decode_part_header_text_value value_raw
          ok (TextMap.insert (to_lower k) v headers, r'')
    plain_name c s p = unfold read_part_header in ground (arith, not_lead_bit c p)

-- The line of a part header, with a key in lower case that is not empty and texts without null
-- as key and value, is read as that entry, the value of a Content-ID in angle brackets, and
-- what follows it is left.
pub read_part_header-line :
    (key value rest : List ℕ) (headers : List (List ℕ × List ℕ))
    → is_empty key ≡ false
    → IsText key
    → to_lower key ≡ key
    → IsText value
    → read_part_header (encode_part_header key value ++ rest) headers
      ≡ ok (TextMap.insert key (header_value_back key value) headers, rest)
unfolding encode_part_header header_value_back encode_part_text_value
read_part_header-line key value rest headers some_char ktext lower vtext =
    elim (Bool-cases (bytes_eq key (codes "content-id"))) [
      | inl id ↦
          rw (some_char, id)
            (rw (bytes_eq→eq key (codes "content-id") id) (
              content_id_line (ensure_angle_brackets value) rest headers
                (ensure_angle_brackets-IsText value vtext)))
      | inr other ↦ elim (Bool-cases (bytes_eq key (codes "content-location"))) [
        | inl location ↦
            rw (some_char, other, location)
              (rw (bytes_eq→eq key (codes "content-location") location)
                (content_location_line value rest headers vtext))
        | inr text ↦
            rw (some_char, other, text)
              (rw (append_assoc (encode_text_string key) (encode_text_or_empty value) rest) (
                text_line (encode_text_string key) key value rest headers
                  (encode_text_string-TextValue key some_char ktext)
                  (decode-encode_text_string key ktext) lower vtext))
      ]
    ]

-- A line takes a byte at least.
pub length-encode_part_header :
    (key value : List ℕ) → is_empty key ≡ false → 1 ≤ length (encode_part_header key value)
unfolding encode_part_header encode_text_string
length-encode_part_header key value some_char = ground (
  arith,
  length-append (if needs_quote key then 0x7f ∷ key else key) (0 ∷ []),
  length-append ((if needs_quote key then 0x7f ∷ key else key) ++ (0 ∷ []))
      (encode_part_text_value value),
)
