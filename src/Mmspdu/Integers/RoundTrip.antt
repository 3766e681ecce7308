-- ===== src/Mmspdu/Integers/RoundTrip.antt =====
-- The decoders after the encoders of Short-integers and Long-integers of internal/mmspdu/fields.go.
use vectorcore_mmsc.Base.{
  ℕ, zero, suc, ◌+◌, ◌-◌, ◌*◌, ◌/◌, ◌%◌, ◌^◌, ◌≤◌, ◌<◌, List, [], ◌∷◌, ◌++◌, length, length-append,
  ok, ◌≡◌, refl, ◌∙◌, ◌≢◌, arith,
}
use vectorcore_mmsc.Base.Bits.{low_bits, top_bit, set_top_bit_left}
use vectorcore_mmsc.Mmspdu.Integers.{
  encode_short_integer, decode_short_integer, be_bytes, from_be, strip_zeros, zeros,
  encode_long_integer, decode_long_integer,
}
use native.Mathlib.Nat.{pow-suc}

-- A value of seven bits is written, without the panic, as one byte that reads back as the value.
pub decode-encode_short_integer :
    (v : ℕ)
    → v < 128
    → (raw : List ℕ) × (encode_short_integer v ≡ ok raw) × (decode_short_integer raw ≡ ok v)
unfolding encode_short_integer decode_short_integer
decode-encode_short_integer v h = (
  (v + 128) ∷ [],
  ground (arith, set_top_bit_left v),
  ground (arith, top_bit (v + 128), low_bits (v + 128)),
)

from_be-append : (acc : ℕ) (xs ys : List ℕ) → from_be acc (xs ++ ys) ≡ from_be (from_be acc xs) ys
unfolding from_be
from_be-append acc [] ys = refl
from_be-append acc (x ∷ xs) ys = from_be-append (acc * 256 + x) xs ys

pub from_be-be_bytes : (w v : ℕ) → v < 256 ^ w → from_be 0 (be_bytes w v) ≡ v
unfolding be_bytes
from_be-be_bytes zero v h = unfold from_be in omega arith
from_be-be_bytes (suc w) v h = rw from_be-append (
    rw (from_be-be_bytes w (v / 256) (omega (arith, pow-suc 256 w)))
      (unfold from_be in omega arith))

pub length-be_bytes : (w v : ℕ) → length (be_bytes w v) ≡ w
unfolding be_bytes
length-be_bytes zero v = refl
length-be_bytes (suc w) v =
    omega
      (arith, length-append (be_bytes w (v / 256)) ((v % 256) ∷ []), length-be_bytes w (v / 256))

from_be-strip_zeros : (xs : List ℕ) → from_be 0 (strip_zeros xs) ≡ from_be 0 xs
unfolding strip_zeros from_be
from_be-strip_zeros [] = refl
from_be-strip_zeros (x ∷ xs) = ground (arith, from_be-strip_zeros xs)

length-strip_zeros : (xs : List ℕ) → length (strip_zeros xs) ≤ length xs
unfolding strip_zeros
length-strip_zeros [] = omega arith
length-strip_zeros (x ∷ xs) = ground (arith, length-strip_zeros xs)

from_be-zeros : (n : ℕ) (xs : List ℕ) → from_be 0 (zeros n ++ xs) ≡ from_be 0 xs
unfolding zeros from_be
from_be-zeros zero xs = refl
from_be-zeros (suc n) xs = from_be-zeros n xs

some_byte_of_pos : (xs : List ℕ) → from_be 0 xs ≢ 0 → 1 ≤ length xs
unfolding from_be
some_byte_of_pos [] h = absurd (h refl)
some_byte_of_pos (x ∷ xs) h = omega arith

-- The significant bytes of a positive uint64.
module _ (v : ℕ) (fits : v < 2 ^ 64) where
  abbrev significant : List ℕ
  significant = strip_zeros (be_bytes 8 v)

  from_be-significant : from_be 0 significant ≡ v
  from_be-significant = from_be-strip_zeros (be_bytes 8 v) ∙ from_be-be_bytes 8 v (omega arith)

  length-significant_le : length significant ≤ 8
  length-significant_le = omega (arith, length-strip_zeros (be_bytes 8 v), length-be_bytes 8 v)

  length-significant_pos : v ≢ 0 → 1 ≤ length significant
  length-significant_pos h = some_byte_of_pos significant (rw from_be-significant h)

  encode_long_integer-significant : v ≢ 0 → encode_long_integer v ≡ length significant ∷ significant
  unfolding encode_long_integer
  encode_long_integer-significant h = ground (arith, length-significant_le)

-- The shape of a Long-integer: a length byte from 1 to 8, and as many bytes.
pub encode_long_integer_shape :
    (v : ℕ)
    → v < 2 ^ 64
    → (n : ℕ) × (bs : List ℕ) × (encode_long_integer v ≡ n ∷ bs)
      × (length bs ≡ n)
      × (1 ≤ n)
      × (n ≤ 8)
      × (from_be 0 bs ≡ v)
encode_long_integer_shape zero fits = (
  1,
  0 ∷ [],
  unfold encode_long_integer in refl,
  refl,
  omega arith,
  omega arith,
  unfold from_be in refl,
)
encode_long_integer_shape (suc v) fits = (
  length (significant (suc v) fits),
  significant (suc v) fits,
  encode_long_integer-significant (suc v) fits (omega arith),
  refl,
  length-significant_pos (suc v) fits (omega arith),
  length-significant_le (suc v) fits,
  from_be-significant (suc v) fits,
)

-- A number below 2^64 that is encoded as a Long-integer is decoded to that number.
pub decode-encode_long_integer :
    (v : ℕ) → v < 2 ^ 64 → decode_long_integer (encode_long_integer v) ≡ ok v
unfolding decode_long_integer
decode-encode_long_integer v fits =
    let (n, bs, e, len, lo, hi, value) = encode_long_integer_shape v fits in
    rw e (ground (arith, from_be-zeros (8 - n) bs))
