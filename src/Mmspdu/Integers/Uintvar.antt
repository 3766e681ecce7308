-- ===== src/Mmspdu/Integers/Uintvar.antt =====
-- `decodeUintvar` after `encodeUintvar` of internal/mmspdu/fields.go.
use vectorcore_mmsc.Base.{
  ℕ, zero, suc, ◌+◌, ◌*◌, ◌/◌, ◌%◌, ◌^◌, ◌≤◌, ◌<◌, bit_and, bit_or, List, [], ◌∷◌, ◌++◌, length,
  All, leb, if◌then◌else◌, ok, err, invalid_uintvar, ◌≡◌, refl, ap, ◌∙◌, arith,
}
use vectorcore_mmsc.Base.Bits.{low_bits, top_bit, set_top_bit}
use vectorcore_mmsc.Base.Shift.{bit_or_seven, bit_and_seven}
use vectorcore_mmsc.Mmspdu.Integers.{
  seven_bit_groups, mark_continued, encode_uintvar, decode_uintvar_loop, decode_uintvar,
}
use native.Mathlib.Nat.{pow-suc, one-le-pow}
use native.Mathlib.Numerals.{add-one}

-- The number that groups of seven bits stand for, the first of them the highest.
abbrev from_groups : ℕ → List ℕ → ℕ
from_groups acc [] = acc
from_groups acc (g ∷ gs) = from_groups (acc * 128 + g) gs

abbrev IsGroup : ℕ → Type 0
IsGroup g = g < 128

from_groups-seven_bit_groups :
    (p v : ℕ) (parts : List ℕ)
    → v < 128 ^ p
    → from_groups 0 (seven_bit_groups p v parts) ≡ from_groups v parts
unfolding seven_bit_groups
from_groups-seven_bit_groups zero v parts h = ap (λ n. from_groups n parts) (omega arith)
from_groups-seven_bit_groups (suc p) v parts h = ground (
  arith,
  bit_and_seven v,
  pow-suc 128 p,
  from_groups-seven_bit_groups p (v / 128) (bit_and v 0x7F ∷ parts),
)

seven_bit_groups-All :
    (p v : ℕ) (parts : List ℕ) → All IsGroup parts → All IsGroup (seven_bit_groups p v parts)
unfolding seven_bit_groups
seven_bit_groups-All zero v parts h = h
seven_bit_groups-All (suc p) v parts h =
    ground (arith, bit_and_seven v, seven_bit_groups-All p (v / 128) (bit_and v 0x7F ∷ parts))

-- At most `k` groups are written for a value below 128 ^ k, and more for any other.
length-seven_bit_groups_le :
    (k p v : ℕ) (parts : List ℕ)
    → v < 128 ^ k
    → length (seven_bit_groups p v parts) ≤ k + length parts
unfolding seven_bit_groups
length-seven_bit_groups_le k zero v parts h = omega arith
length-seven_bit_groups_le zero (suc p) v parts h = ground arith
length-seven_bit_groups_le (suc k) (suc p) v parts h =
    ground (arith, pow-suc 128 k, length-seven_bit_groups_le k p (v / 128) (bit_and v 0x7F ∷ parts))

length-seven_bit_groups_more :
    (p v : ℕ) (parts : List ℕ) → length parts ≤ length (seven_bit_groups p v parts)
unfolding seven_bit_groups
length-seven_bit_groups_more zero v parts = omega arith
length-seven_bit_groups_more (suc p) v parts =
    ground (arith, length-seven_bit_groups_more p (v / 128) (bit_and v 0x7F ∷ parts))

length-seven_bit_groups_ge :
    (k p v : ℕ) (parts : List ℕ)
    → k < p
    → 128 ^ k ≤ v
    → suc k + length parts ≤ length (seven_bit_groups p v parts)
unfolding seven_bit_groups
length-seven_bit_groups_ge k zero v parts h low = absurd (omega arith)
length-seven_bit_groups_ge zero (suc p) v parts h low =
    ground (arith, length-seven_bit_groups_more p (v / 128) (bit_and v 0x7F ∷ parts))
length-seven_bit_groups_ge (suc k) (suc p) v parts h low = ground (
  arith,
  pow-suc 128 k,
  one-le-pow k 128,
  length-seven_bit_groups_ge k p (v / 128) (bit_and v 0x7F ∷ parts),
)

five_groups : (i acc : ℕ) → acc < 128 ^ i → i ≤ 5 → acc < 128 ^ 5
five_groups zero acc h small = omega arith
five_groups (suc zero) acc h small = omega arith
five_groups (suc (suc zero)) acc h small = omega arith
five_groups (suc (suc (suc zero))) acc h small = omega arith
five_groups (suc (suc (suc (suc zero)))) acc h small = omega arith
five_groups (suc (suc (suc (suc (suc i))))) acc h small =
    let five : suc (suc (suc (suc (suc i)))) ≡ 5 = omega arith in
    let whole = ap (λ (n : ℕ). 128 ^ n) five in omega arith

-- One more group: no bit leaves the 64.
shift_in :
    (i acc g : ℕ) → acc < 128 ^ i → i ≤ 5 → g < 128 → bit_or (acc * 128 % 2 ^ 64) g ≡ acc * 128 + g
shift_in i acc g h small low = rw (whole acc (five_groups i acc h small)) (bit_or_seven acc g low)
  where
    whole : (n : ℕ) → n < 128 ^ 5 → n * 128 % 2 ^ 64 ≡ n * 128
    whole n fits = omega arith

marked_group :
    (g : ℕ) → g < 128 → (bit_and (bit_or g 0x80) 0x80 ≡ 128) × (bit_and (bit_or g 0x80) 0x7F ≡ g)
marked_group g h =
    rw (set_top_bit g h) (omega (arith, top_bit (g + 128)), omega (arith, low_bits (g + 128)))

-- What the reader makes of marked groups, with `i` bytes read before.
decode_uintvar_loop-mark_continued :
    (g : ℕ) (gs rest : List ℕ) (i acc : ℕ)
    → All IsGroup (g ∷ gs)
    → acc < 128 ^ i
    → i ≤ 5
    → decode_uintvar_loop i acc (mark_continued (g ∷ gs) ++ rest) ≡ (
        if leb (i + suc (length gs)) 5
        then ok (from_groups acc (g ∷ gs), i + suc (length gs))
        else err invalid_uintvar)
unfolding decode_uintvar_loop mark_continued
decode_uintvar_loop-mark_continued g [] rest i acc h fits small =
    ground (arith, low_bits g, top_bit g, shift_in i acc g)
decode_uintvar_loop-mark_continued g (g' ∷ gs) rest i acc h fits small = ground (
  arith,
  marked_group g,
  pow-suc 128 i,
  add-one i,
  shift_in i acc g,
  decode_uintvar_loop-mark_continued g' gs rest (i + 1) (acc * 128 + g),
)

length-mark_continued : (gs : List ℕ) → length (mark_continued gs) ≡ length gs
unfolding mark_continued
length-mark_continued [] = refl
length-mark_continued (g ∷ []) = refl
length-mark_continued (g ∷ g' ∷ gs) = omega (arith, length-mark_continued (g' ∷ gs))

-- What the reader makes of a whole number, in any number of groups.
decode_uintvar-groups :
    (gs rest : List ℕ)
    → All IsGroup gs
    → 1 ≤ length gs
    → decode_uintvar_loop 0 0 (mark_continued gs ++ rest)
      ≡ (if leb (length gs) 5 then ok (from_groups 0 gs, length gs) else err invalid_uintvar)
decode_uintvar-groups [] rest h some_group = absurd (omega arith)
decode_uintvar-groups (g ∷ gs) rest h some_group =
    decode_uintvar_loop-mark_continued g gs rest 0 0 h (omega arith) (omega arith)
    ∙ ap (λ n. if leb n 5 then ok (from_groups 0 (g ∷ gs), n) else err invalid_uintvar)
        (omega arith)

-- The reader on what the encoder writes for a positive uint64.
decode-encode_uintvar_pos :
    (v : ℕ) (rest : List ℕ)
    → 0 < v
    → v < 2 ^ 64
    → decode_uintvar (encode_uintvar v ++ rest) ≡ (
        if leb (length (seven_bit_groups 10 v [])) 5
        then ok (v, length (encode_uintvar v))
        else err invalid_uintvar)
decode-encode_uintvar_pos v rest pos h =
    unfold decode_uintvar in
    ground (
      arith,
      encoded v pos,
      length-mark_continued (seven_bit_groups 10 v []),
      length-seven_bit_groups_ge 0 10 v [],
      from_groups-seven_bit_groups 10 v [] (omega arith),
      seven_bit_groups-All 10 v [] tt,
      decode_uintvar-groups (seven_bit_groups 10 v []) rest,
    )
  where
    encoded : (n : ℕ) → 0 < n → encode_uintvar n ≡ mark_continued (seven_bit_groups 10 n [])
    encoded n p = unfold encode_uintvar in ground arith

-- A Uintvar-integer has a byte at least.
pub length-encode_uintvar : (v : ℕ) → 1 ≤ length (encode_uintvar v)
unfolding encode_uintvar
length-encode_uintvar v =
    ground (
      arith,
      length-mark_continued (seven_bit_groups 10 v []),
      length-seven_bit_groups_ge 0 10 v [],
    )

-- A number below 2^35 that is encoded as a Uintvar is decoded to that number and the count of
-- its bytes, whatever follows.
pub decode-encode_uintvar :
    (v : ℕ) (rest : List ℕ)
    → v < 2 ^ 35
    → decode_uintvar (encode_uintvar v ++ rest) ≡ ok (v, length (encode_uintvar v))
decode-encode_uintvar zero rest h = unfold decode_uintvar encode_uintvar in refl
decode-encode_uintvar (suc v) rest h =
    ground
      (arith, decode-encode_uintvar_pos (suc v) rest, length-seven_bit_groups_le 5 10 (suc v) [])

-- The decoder refuses every number from 2^35 to 2^64 that is encoded as a Uintvar.
pub decode-encode_uintvar_wide :
    (v : ℕ) (rest : List ℕ)
    → 2 ^ 35 ≤ v
    → v < 2 ^ 64
    → decode_uintvar (encode_uintvar v ++ rest) ≡ err invalid_uintvar
decode-encode_uintvar_wide v rest low h =
    ground (arith, decode-encode_uintvar_pos v rest, length-seven_bit_groups_ge 5 10 v [])
