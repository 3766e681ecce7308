-- ===== src/Mmspdu/ValueRuns.antt =====
-- Concrete values and loops for the laws of internal/mmspdu.
use vectorcore_mmsc.Base.{
  ℕ, suc, List, [], ◌∷◌, ◌++◌, length, none, false, ok, err, invalid_integer, invalid_uintvar, ◌≡◌,
  ◌≢◌, refl, ap, arith,
}
use vectorcore_mmsc.Base.Text.{codes, contains, to_upper, to_lower}
use vectorcore_mmsc.Mmspdu.Types.{field_message_size}
use vectorcore_mmsc.Mmspdu.Integers.{encode_uintvar, decode_uintvar}
use vectorcore_mmsc.Mmspdu.Integers.Uintvar.{decode-encode_uintvar_wide}
use vectorcore_mmsc.Mmspdu.Strings.{
  encode_text_string, decode_address_string, normalize_address, needs_quote,
}
use vectorcore_mmsc.Mmspdu.Strings.Address.{decode_address-normalize_address}
use vectorcore_mmsc.Mmspdu.Values.{
  new_from_value, new_long_integer_value, value_text, value_integer,
}
use vectorcore_mmsc.Mmspdu.Values.RoundTrip.{value_integer_misread, value_text_long_from}
use vectorcore_mmsc.Mmspdu.Codec.{sections_loop}
use vectorcore_mmsc.Mmspdu.Codec.Ends.{sections_loop-enough}
use vectorcore_mmsc.Mmspdu.Runs.{IsText-by_test}

decode_uintvar_wide_example :
    decode_uintvar (encode_uintvar 34359738368 ++ []) ≡ err invalid_uintvar
decode_uintvar_wide_example = decode-encode_uintvar_wide 34359738368 [] (omega arith) (omega arith)

decode_address_example :
    decode_address_string (encode_text_string (normalize_address (codes "+15551")))
    ≡ ok (normalize_address (codes "+15551"))
decode_address_example =
    decode_address-normalize_address (codes "+15551") (IsText-by_test (codes "+15551") refl)

from_length :
    (length (encode_text_string (normalize_address (codes "+15551"))) ≡ 17)
    × (length (encode_text_string (normalize_address (codes "+1234567890123456789"))) ≡ 31)
    × (needs_quote (normalize_address (codes "+1234567890123456789")) ≡ false)
unfolding encode_text_string needs_quote normalize_address contains to_upper
from_length = (refl, refl, refl)

value_text_long_from_example :
    value_text (new_from_value (codes "+1234567890123456789"))
    ≡ ok (
        suc (length (encode_text_string (normalize_address (codes "+1234567890123456789"))))
        ∷ 0x80
        ∷ normalize_address (codes "+1234567890123456789"))
value_text_long_from_example =
    value_text_long_from (codes "+1234567890123456789")
      (IsText-by_test (codes "+1234567890123456789") refl) refl from_length.2
      (omega (arith, from_length.1)) (omega (arith, from_length.1))

value_integer_misread_example :
    value_integer (new_long_integer_value field_message_size 33000) ≡ err invalid_integer
value_integer_misread_example =
    value_integer_misread field_message_size 33000 (omega arith) (omega arith)

sections_loop_example : sections_loop 2 (0x8C ∷ 0x80 ∷ []) [] [] ≢ none
sections_loop_example = sections_loop-enough 2 (0x8C ∷ 0x80 ∷ []) [] [] (omega arith)

abbrev first_code : List ℕ → ℕ
first_code [] = 0
first_code (c ∷ s) = c

capital_name : to_lower (codes "Name") ≢ codes "Name"
unfolding to_lower
capital_name e = omega (arith, ap first_code e)
