-- ===== src/Mmspdu/Values/Raw.antt =====
-- The bytes that the constructors of header values in internal/mmspdu/fields.go make.
use vectorcore_mmsc.Base.{
  ℕ, suc, ◌^◌, ◌<◌, ◌%◌, List, [], ◌∷◌, length, is_empty, Bool-cases, false, ◌≡◌, inl, inr, refl,
  ap, ◌∙◌, arith,
}
use vectorcore_mmsc.Base.Text.{codes, bytes_eq}
use vectorcore_mmsc.Mmspdu.Types.{encoded_string, long_integer, date, address}
use vectorcore_mmsc.Mmspdu.Integers.{encode_long_integer}
use vectorcore_mmsc.Mmspdu.Integers.RoundTrip.{encode_long_integer_shape}
use vectorcore_mmsc.Mmspdu.Strings.{encode_text_string, encode_encoded_string, normalize_address}
use vectorcore_mmsc.Mmspdu.Strings.RoundTrip.{IsText, encode_text_string_shape}
use vectorcore_mmsc.Mmspdu.Strings.Address.{normalize_address-IsText, normalize_address_some}
use vectorcore_mmsc.Mmspdu.Values.{with_length, new_from_value}
use vectorcore_mmsc.Mmspdu.Header.Delimit.{IsRaw}

pub encoded_string-IsRaw :
    (s : List ℕ) → is_empty s ≡ false → IsText s → IsRaw encoded_string (encode_encoded_string s)
unfolding encode_encoded_string
encoded_string-IsRaw [] some_ text_ = absurd (cc)
encoded_string-IsRaw (c ∷ s) some_ text_ =
    let (d, t, e, low, high, other, back) = encode_text_string_shape c s text_ in (d ∷ t, back, e)

pub long_integer-IsRaw : (v : ℕ) → v < 2 ^ 64 → IsRaw long_integer (encode_long_integer v)
long_integer-IsRaw v fits =
    let (n, bs, e, len, lo, hi, value) = encode_long_integer_shape v fits in (n, bs, e, len)

pub relative_date-IsRaw :
    (v : ℕ) → v < 2 ^ 64 → IsRaw date (with_length (0x81 ∷ encode_long_integer v))
relative_date-IsRaw v fits =
    let (n, bs, e, len, lo, hi, value) = encode_long_integer_shape v fits in
    let whole : length (encode_long_integer v) ≡ suc n = ap length e ∙ ap suc len in
    (suc (length (encode_long_integer v)) % 256, 0x81 ∷ encode_long_integer v, refl, omega arith)

some_first : (s : List ℕ) → is_empty s ≡ false → IsText s → IsRaw address (encode_text_string s)
some_first [] some_ text_ = absurd (cc)
some_first (c ∷ s) some_ text_ =
    let (d, t, e, low, high, other, back) = encode_text_string_shape c s text_ in
    inr (d, t, back.1, e, omega arith)

pub address-IsRaw :
    (s : List ℕ) → IsText s → IsRaw address (encode_text_string (normalize_address s))
address-IsRaw s text_ =
    some_first (normalize_address s) (normalize_address_some s) (normalize_address-IsText s text_)

pub from-IsRaw :
    (s : List ℕ)
    → length (encode_text_string (normalize_address s)) < 30
    → IsRaw address (new_from_value s).raw
unfolding new_from_value
from-IsRaw s short = elim (Bool-cases (bytes_eq s (codes "#insert"))) [
  | inl insert_ ↦ rw insert_ (inl (1, 0x81 ∷ [], refl, refl, omega arith))
  | inr other ↦ rw other (
      inl (
        suc (length (encode_text_string (normalize_address s))) % 256,
        0x80 ∷ encode_text_string (normalize_address s),
        refl,
        omega arith,
        omega arith,
      ))
]
