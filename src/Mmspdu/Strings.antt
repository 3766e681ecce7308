-- ===== src/Mmspdu/Strings.antt =====
-- The text codecs of internal/mmspdu/fields.go: text strings, quoted strings, encoded strings and
-- addresses. A Go string is its list of bytes.
pub mod RoundTrip
pub mod Address
use vectorcore_mmsc.Base.{
  ℕ, zero, suc, bit_and, List, [], ◌∷◌, ◌++◌, length, take, drop, Option, none, some, Bool, true,
  false, ◌&&◌, ◌||◌, not, ltb, leb, ◌==◌, if◌then◌else◌, Result, ok, err, or_else, short_data,
  invalid_text, insert_address, panicked,
}
use vectorcore_mmsc.Base.Text.{codes, index_byte, contains, has_prefix, to_upper}

-- The first byte asks for the quote 0x7f.
unfoldable pub needs_quote : List ℕ → Bool
needs_quote [] = false
needs_quote (c ∷ cs) = ltb c 0x20 || c == 0x22 || leb 0x7f c

unfoldable pub encode_text_string : List ℕ → List ℕ
encode_text_string value = (if needs_quote value then 0x7f ∷ value else value) ++ (0 ∷ [])

-- data[len(data)-1] == 0x00, and data[:len(data)-1]
unfoldable pub ends_in_null : List ℕ → Bool
ends_in_null [] = false
ends_in_null (b ∷ []) = b == 0
ends_in_null (b ∷ c ∷ bs) = ends_in_null (c ∷ bs)

unfoldable pub drop_last : List ℕ → List ℕ
drop_last [] = []
drop_last (b ∷ []) = []
drop_last (b ∷ c ∷ bs) = b ∷ drop_last (c ∷ bs)

-- The text of a slice that ends in a null byte, if no other byte of it is null.
unfoldable pub before_null : List ℕ → Result (List ℕ)
before_null bytes = elim (index_byte (drop_last bytes) 0) [
  | none ↦ ok (drop_last bytes)
  | some i ↦ err invalid_text
]

unfoldable pub decode_text_string : List ℕ → Result (List ℕ)
decode_text_string [] = err short_data
decode_text_string (b ∷ bs) =
    if not (ends_in_null (b ∷ bs))
    then err short_data
    else before_null (if b == 0x7f then bs else b ∷ bs)

unfoldable pub encode_quoted_string : List ℕ → List ℕ
encode_quoted_string value = 0x22 ∷ (value ++ (0 ∷ []))

-- A slice of one byte is too short.
unfoldable pub decode_quoted_string : List ℕ → Result (List ℕ)
decode_quoted_string [] = err short_data
decode_quoted_string (b ∷ []) = err short_data
decode_quoted_string (b ∷ c ∷ bs) =
    if not (b == 0x22) || not (ends_in_null (b ∷ c ∷ bs))
    then err short_data
    else before_null (c ∷ bs)

unfoldable pub encode_encoded_string : List ℕ → List ℕ
encode_encoded_string value = encode_text_string value

-- Behind the first null byte: the text after a textual character set.
unfoldable pub after_charset_text : List ℕ → Result (List ℕ)
after_charset_text bytes = elim (index_byte bytes 0) [
  | none ↦ decode_text_string bytes
  | some i ↦
      if leb (length bytes) (suc i) then err short_data else decode_text_string (drop (suc i) bytes)
]

unfoldable pub decode_encoded_string_payload : List ℕ → Result (List ℕ)
decode_encoded_string_payload [] = err short_data
decode_encoded_string_payload (b ∷ bs) =
    if not (bit_and b 0x80 == 0)
    then (if ltb (length (b ∷ bs)) 2 then err short_data else decode_text_string bs)
    else or_else (decode_text_string (b ∷ bs)) (after_charset_text (b ∷ bs))

unfoldable pub decode_encoded_string : List ℕ → Result (List ℕ)
decode_encoded_string [] = err short_data
decode_encoded_string (b ∷ bs) =
    if leb b 30
    then (if ltb (length (b ∷ bs)) (suc b)
        then err short_data
        else decode_encoded_string_payload (take b bs))
    else decode_encoded_string_payload (b ∷ bs)

unfoldable pub is_insert_address_token : List ℕ → Bool
is_insert_address_token (b ∷ c ∷ []) = b == 0x01 && c == 0x81
is_insert_address_token _ = false

-- The function calls itself on a part of the bytes behind the first, so a fuel of their number
-- is enough: no call meets the third clause.
unfoldable pub decode_address_value_loop : ℕ → List ℕ → Result (List ℕ)
decode_address_value_loop zero [] = err short_data
decode_address_value_loop (suc fuel) [] = err short_data
decode_address_value_loop zero (b ∷ bs) = err panicked
decode_address_value_loop (suc fuel) (b ∷ bs) =
    let inner = decode_address_value_loop fuel (take b bs) in
    let behind = decode_address_value_loop fuel bs in
    if leb b 30
    then (if ltb (length (b ∷ bs)) (suc b)
        then err short_data
        else if is_insert_address_token (take b bs)
        then err insert_address
        else inner)
    else if b == 0x80
    then behind
    else decode_encoded_string_payload (b ∷ bs)

unfoldable pub decode_address_value : List ℕ → Result (List ℕ)
unfolding decode_address_value_loop
decode_address_value bytes = decode_address_value_loop (length bytes) bytes

-- No bytes are short data also for `decode_address_value`, as in the test that the code repeats.
unfoldable pub decode_address_string : List ℕ → Result (List ℕ)
decode_address_string bytes =
    if is_insert_address_token bytes then err insert_address else decode_address_value bytes

unfoldable pub normalize_address : List ℕ → List ℕ
normalize_address value =
    if contains (to_upper value) (codes "/TYPE=")
    then value
    else if contains value (codes "@")
    then value ++ codes "/TYPE=EMAIL"
    else (if has_prefix value (codes "+") then value else codes "+" ++ value) ++ codes "/TYPE=PLMN"
