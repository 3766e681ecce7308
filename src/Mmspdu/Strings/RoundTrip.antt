-- ===== src/Mmspdu/Strings/RoundTrip.antt =====
-- The decoders after the encoders of the texts of internal/mmspdu/fields.go.
use vectorcore_mmsc.Base.{
  ℕ, ◌<◌, ◌≤◌, bit_and, List, [], ◌∷◌, ◌++◌, All, is_empty, none, true, false, ◌==◌, if◌then◌else◌,
  Bool-cases, ok, err, short_data, ◌≡◌, ◌≢◌, refl, ap, arith, inl, inr,
}
use vectorcore_mmsc.Base.Bits.{top_bit}
use vectorcore_mmsc.Base.Text.{index_byte}
use vectorcore_mmsc.Mmspdu.Strings.{
  needs_quote, encode_text_string, ends_in_null, drop_last, before_null, decode_text_string,
  encode_quoted_string, decode_quoted_string, encode_encoded_string, decode_encoded_string_payload,
  decode_encoded_string,
}

-- A string with no null byte.
abbrev pub IsText : List ℕ → Type 0
IsText s = All (λ c. (c ≢ 0) × (c < 256)) s

ends_in_null-append : (s : List ℕ) → ends_in_null (s ++ (0 ∷ [])) ≡ true
unfolding ends_in_null
ends_in_null-append [] = refl
ends_in_null-append (c ∷ []) = refl
ends_in_null-append (c ∷ d ∷ s) = ends_in_null-append (d ∷ s)

drop_last-append : (s : List ℕ) → drop_last (s ++ (0 ∷ [])) ≡ s
unfolding drop_last
drop_last-append [] = refl
drop_last-append (c ∷ []) = refl
drop_last-append (c ∷ d ∷ s) = ap (◌∷◌ c) (drop_last-append (d ∷ s))

index_byte-text : (s : List ℕ) → IsText s → index_byte s 0 ≡ none
unfolding index_byte
index_byte-text [] h = refl
index_byte-text (c ∷ s) h = ground (arith, index_byte-text s h.1)

before_null-append : (s : List ℕ) → IsText s → before_null (s ++ (0 ∷ [])) ≡ ok s
unfolding before_null
before_null-append s h = ground (arith, drop_last-append s, index_byte-text s h)

pub decode_text_string-append :
    (c : ℕ) (s : List ℕ)
    → IsText (c ∷ s)
    → c ≢ 0x7f
    → decode_text_string ((c ∷ s) ++ (0 ∷ [])) ≡ ok (c ∷ s)
unfolding decode_text_string
decode_text_string-append c s h other =
    ground (arith, ends_in_null-append (c ∷ s), before_null-append (c ∷ s) h)

-- A text of bytes without null that is encoded as a text string is decoded to that text.
pub decode-encode_text_string :
    (s : List ℕ) → IsText s → decode_text_string (encode_text_string s) ≡ ok s
unfolding decode_text_string encode_text_string needs_quote
decode-encode_text_string [] h = unfold index_byte drop_last ends_in_null before_null in refl
decode-encode_text_string (c ∷ s) h = ground (
  arith,
  ends_in_null-append (c ∷ s),
  ends_in_null-append (0x7f ∷ c ∷ s),
  before_null-append (c ∷ s) h,
)

pub decode-encode_quoted_string :
    (s : List ℕ) → IsText s → decode_quoted_string (encode_quoted_string s) ≡ ok s
unfolding decode_quoted_string encode_quoted_string
decode-encode_quoted_string [] h = unfold index_byte drop_last ends_in_null before_null in refl
decode-encode_quoted_string (c ∷ s) h =
    ground (arith, ends_in_null-append (0x22 ∷ c ∷ s), before_null-append (c ∷ s) h)

plain_first :
    (c : ℕ) (s : List ℕ) → needs_quote (c ∷ s) ≡ false → (0x20 ≤ c) × (c ≤ 0x7f) × (c ≢ 0x22)
unfolding needs_quote
plain_first c s h = ground arith

-- A text string without its null byte: the first byte is from 0x20 to 0x7f, and no quotation mark.
pub encode_text_string_shape :
    (c : ℕ) (s : List ℕ)
    → IsText (c ∷ s)
    → (d : ℕ) × (t : List ℕ) × (encode_text_string (c ∷ s) ≡ (d ∷ t) ++ (0 ∷ []))
      × (0x20 ≤ d)
      × (d ≤ 0x7f)
      × (d ≢ 0x22)
      × IsText (d ∷ t)
unfolding encode_text_string
encode_text_string_shape c s h = elim (Bool-cases (needs_quote (c ∷ s))) [
  | inl quoted ↦ (
    0x7f,
    c ∷ s,
    rw quoted,
    omega arith,
    omega arith,
    omega arith,
    ((omega arith, omega arith), h),
  )
  | inr plain ↦
      let bounds = plain_first c s plain in (c, s, rw plain, bounds.0, bounds.1, bounds.2, h)
]

pub not_lead_bit : (d : ℕ) → d ≤ 0x7f → (bit_and d 0x80 == 0) ≡ true
not_lead_bit d h = ground (arith, top_bit d)

pub decode_payload-encode_text_string :
    (c : ℕ) (s : List ℕ)
    → IsText (c ∷ s)
    → decode_encoded_string_payload (encode_text_string (c ∷ s)) ≡ ok (c ∷ s)
decode_payload-encode_text_string c s h =
    let (d, t, e, low, high, other, text) = encode_text_string_shape c s h in
    let read = rw e at (decode-encode_text_string (c ∷ s) h) in
    rw e (unfold decode_encoded_string_payload in ground (arith, not_lead_bit d high, read))

-- A text of bytes without null that is encoded as an encoded string is decoded to that text,
-- unless it is empty: then its one null byte is refused as short data.
pub decode-encode_encoded_string :
    (s : List ℕ)
    → IsText s
    → decode_encoded_string (encode_encoded_string s)
      ≡ (if is_empty s then err short_data else ok s)
decode-encode_encoded_string [] h =
    unfold decode_encoded_string decode_encoded_string_payload encode_encoded_string
      encode_text_string needs_quote in
    refl
decode-encode_encoded_string (c ∷ s) h =
    let (d, t, e, low, high, other, text) = encode_text_string_shape c s h in
    let read = rw e at (decode_payload-encode_text_string c s h) in
    unfold encode_encoded_string in rw e (unfold decode_encoded_string in ground (arith, read))
