-- ===== src/Mmspdu/Integers.antt =====
-- The integer codecs of internal/mmspdu/fields.go: Short-integer, Long-integer and Uintvar.
pub mod RoundTrip
pub mod Uintvar
use vectorcore_mmsc.Base.{
  ℕ, zero, suc, ◌+◌, ◌-◌, ◌*◌, ◌/◌, ◌%◌, ◌^◌, bit_and, bit_or, List, [], ◌∷◌, ◌++◌, length, Bool,
  true, false, ◌||◌, not, ltb, ◌==◌, if◌then◌else◌, Result, ok, err, short_data, invalid_integer,
  invalid_uintvar, panicked,
}

-- A value above 0x7F panics.
unfoldable pub encode_short_integer : ℕ → Result (List ℕ)
encode_short_integer value = if ltb 0x7F value then err panicked else ok (bit_or 0x80 value ∷ [])

unfoldable pub decode_short_integer : List ℕ → Result ℕ
decode_short_integer [] = err invalid_integer
decode_short_integer (b ∷ []) =
    if bit_and b 0x80 == 0 then err invalid_integer else ok (bit_and b 0x7F)
decode_short_integer (b ∷ c ∷ bs) = err invalid_integer

-- binary.BigEndian.PutUint64 and Uint64, for any number of bytes.
unfoldable pub be_bytes : ℕ → ℕ → List ℕ
be_bytes zero value = []
be_bytes (suc w) value = be_bytes w (value / 256) ++ ((value % 256) ∷ [])

unfoldable pub from_be : ℕ → List ℕ → ℕ
from_be acc [] = acc
from_be acc (b ∷ bs) = from_be (acc * 256 + b) bs

-- The loop over `first`, and `raw[first:]`.
unfoldable pub strip_zeros : List ℕ → List ℕ
strip_zeros [] = []
strip_zeros (b ∷ bs) = if b == 0 then strip_zeros bs else b ∷ bs

unfoldable pub encode_long_integer : ℕ → List ℕ
unfolding be_bytes strip_zeros
encode_long_integer value =
    if value == 0
    then 1 ∷ 0 ∷ []
    else let out = strip_zeros (be_bytes 8 value) in (length out % 256) ∷ out

unfoldable pub zeros : ℕ → List ℕ
zeros zero = []
zeros (suc n) = 0 ∷ zeros n

-- `padded` has eight bytes, the last of which are those behind the length byte.
unfoldable pub decode_long_integer : List ℕ → Result ℕ
unfolding from_be zeros
decode_long_integer [] = err short_data
decode_long_integer (n ∷ bs) =
    if n == 0 || ltb 8 n || not (length bs == n)
    then err invalid_integer
    else ok (from_be 0 (zeros (8 - n) ++ bs))

-- The loop fills the array `parts` from its end; its ten places are the fuel.
unfoldable pub seven_bit_groups : ℕ → ℕ → List ℕ → List ℕ
seven_bit_groups zero value parts = parts
seven_bit_groups (suc places) value parts =
    let more = seven_bit_groups places (value / 128) (bit_and value 0x7F ∷ parts) in
    if value == 0 then parts else more

-- `out[j] |= 0x80` for every byte but the last.
unfoldable pub mark_continued : List ℕ → List ℕ
mark_continued [] = []
mark_continued (b ∷ []) = b ∷ []
mark_continued (b ∷ c ∷ bs) = bit_or b 0x80 ∷ mark_continued (c ∷ bs)

unfoldable pub encode_uintvar : ℕ → List ℕ
unfolding seven_bit_groups mark_continued
encode_uintvar value = if value == 0 then 0 ∷ [] else mark_continued (seven_bit_groups 10 value [])

-- `i` bytes are read, and `value` is what they hold.
unfoldable pub decode_uintvar_loop : ℕ → ℕ → List ℕ → Result (ℕ × ℕ)
decode_uintvar_loop i value [] = err short_data
decode_uintvar_loop i value (b ∷ bs) =
    let value' = bit_or (value * 128 % 2 ^ 64) (bit_and b 0x7F) in
    let more = decode_uintvar_loop (i + 1) value' bs in
    if i == 5 then err invalid_uintvar else if bit_and b 0x80 == 0 then ok (value', i + 1) else more

-- The value, and how many bytes it takes.
unfoldable pub decode_uintvar : List ℕ → Result (ℕ × ℕ)
unfolding decode_uintvar_loop
decode_uintvar data_ = decode_uintvar_loop 0 0 data_
