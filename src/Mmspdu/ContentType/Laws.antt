-- ===== src/Mmspdu/ContentType/Laws.antt =====
-- The decoder after the encoder of content types of internal/mmspdu/content_type.go.
use vectorcore_mmsc.Base.{
  ℕ, ◌<◌, List, [], ◌∷◌, is_empty, Option, none, some, true, false, if◌then◌else◌, Bool-cases, ok,
  err, ◌≡◌, ◌≢◌, inl, inr, refl, sym, arith, bad_value_length,
}
use vectorcore_mmsc.Base.Bits.{top_bit}
use vectorcore_mmsc.Base.Text.{bytes_eq, bytes_eq_self, ne→not_bytes_eq, to_lower, trim_space}
use vectorcore_mmsc.Base.Text.Search.{to_lower-to_lower}
use vectorcore_mmsc.Base.TextMap
use vectorcore_mmsc.Mmspdu.Strings.{encode_text_string}
use vectorcore_mmsc.Mmspdu.Strings.RoundTrip.{IsText, encode_text_string_shape, not_lead_bit}
use vectorcore_mmsc.Mmspdu.ContentType.{
  printable, is_valid_media_type_text, normal_media_type, encode_media_type, encode_params,
  encode_content_type_value,
}
use vectorcore_mmsc.Mmspdu.ContentType.Tables.{well_known_media_type_tokens, media_type_token_back}
use vectorcore_mmsc.Mmspdu.ContentType.Decode.{
  has_top_bit, decode_well_known_media_type, decode_value_length, decode_content_type_value,
}

printable-IsText : (s : List ℕ) → printable s ≡ true → IsText s
unfolding printable
printable-IsText [] h = tt
printable-IsText (c ∷ s) h = ground (arith, printable-IsText s)

valid_media_type :
    (s : List ℕ) → is_valid_media_type_text s ≡ true → (is_empty s ≡ false) × IsText s
unfolding is_valid_media_type_text
valid_media_type s h = ground (arith, printable-IsText s)

-- A media type in its normal form is a text that is not empty.
pub normal_media_type-valid :
    (name : List ℕ) → (is_empty (normal_media_type name) ≡ false) × IsText (normal_media_type name)
unfolding normal_media_type
normal_media_type-valid name =
    elim (Bool-cases (is_valid_media_type_text (to_lower (trim_space name)))) [
      | inl valid ↦ rw valid (valid_media_type (to_lower (trim_space name)) valid)
      | inr other ↦ rw other (refl, omega arith)
    ]

pub token-top_bit : (t : ℕ) → 127 < t → t < 256 → has_top_bit t ≡ true
token-top_bit t low high = ground (arith, top_bit t)

text_refused :
    (s : List ℕ)
    → is_empty s ≡ false
    → IsText s
    → decode_content_type_value (encode_text_string s) ≡ err bad_value_length
text_refused [] some_char text = cc
text_refused (c ∷ s) some_char text =
    let (d, t, e, low, high, other, shape) = encode_text_string_shape c s text in
    rw e
      (unfold decode_content_type_value decode_value_length in ground (arith, not_lead_bit d high))

pub encode_media_type-known :
    (media : List ℕ) (t : ℕ)
    → TextMap.lookup media well_known_media_type_tokens ≡ some t
    → encode_media_type media ≡ t ∷ []
unfolding encode_media_type
encode_media_type-known media t known = rw (known, encode_media_type)

pub encode_media_type-other :
    (media : List ℕ)
    → TextMap.lookup media well_known_media_type_tokens ≡ none
    → encode_media_type media ≡ encode_text_string media
unfolding encode_media_type
encode_media_type-other media other = rw (other, encode_media_type)

pub decode_media_type-known :
    (media : List ℕ) (t : ℕ)
    → TextMap.lookup media well_known_media_type_tokens ≡ some t
    → decode_well_known_media_type t ≡ ok media
unfolding decode_well_known_media_type
decode_media_type-known media t known =
    rw ((media_type_token_back media t known).0, decode_well_known_media_type)

token_read :
    (media : List ℕ) (t : ℕ)
    → TextMap.lookup media well_known_media_type_tokens ≡ some t
    → decode_content_type_value (t ∷ []) ≡ ok (record { media_type = media; params = [] })
unfolding decode_content_type_value
token_read media t known =
    let (name, high, byte) = media_type_token_back media t known in
    rw (token-top_bit t high byte) (rw (decode_media_type-known media t known))

-- A content type without parameters that is encoded is read back, in its normal form, by the
-- reader of the Content-Type header if it is well known, and is refused for its value length
-- if it is not.
pub decode-encode_content_type :
    (name : List ℕ)
    → decode_content_type_value
        (encode_content_type_value (record { media_type = name; params = [] }))
      ≡ elim (TextMap.lookup (normal_media_type name) well_known_media_type_tokens) [
        | some t ↦ ok (record { media_type = normal_media_type name; params = [] })
        | none ↦ err bad_value_length
      ]
unfolding encode_content_type_value
decode-encode_content_type name =
    split (normal_media_type name)
      (TextMap.lookup (normal_media_type name) well_known_media_type_tokens) refl
      (normal_media_type-valid name).0 (normal_media_type-valid name).1
  where
    split :
        (media : List ℕ) (found : Option ℕ)
        → TextMap.lookup media well_known_media_type_tokens ≡ found
        → is_empty media ≡ false
        → IsText media
        → decode_content_type_value (encode_media_type media) ≡ elim found [
          | some t ↦ ok (record { media_type = media; params = [] })
          | none ↦ err bad_value_length
        ]
    split media none other some_char text =
        rw (encode_media_type-other media other) (text_refused media some_char text)
    split media (some t) known some_char text =
        rw (encode_media_type-known media t known) (token_read media t known)

text_at-one : (k j v : List ℕ) → TextMap.text_at k ((j, v) ∷ []) ≡ (if bytes_eq j k then v else [])
unfolding TextMap.text_at
text_at-one k j v = ground arith

-- A single parameter whose name has a capital letter is encoded like the name in lower case
-- with an empty value.
pub encode_content_type_capital :
    (name key value : List ℕ)
    → to_lower key ≢ key
    → encode_content_type_value (record { media_type = name; params = (key, value) ∷ [] })
      ≡ encode_content_type_value (record { media_type = name; params = (to_lower key, []) ∷ [] })
unfolding encode_content_type_value encode_params TextMap.sort TextMap.keys
encode_content_type_capital name key value capital = rw (
  to_lower-to_lower key,
  text_at-one (to_lower key) key value,
  text_at-one (to_lower key) (to_lower key) [],
  ne→not_bytes_eq key (to_lower key) (λ e. capital (sym e)),
  bytes_eq_self (to_lower key),
)
