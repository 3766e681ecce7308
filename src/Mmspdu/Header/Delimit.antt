-- ===== src/Mmspdu/Header/Delimit.antt =====
-- Where header values of internal/mmspdu/header.go end: the bytes that each kind allows, and what the
-- reader takes of them.
use vectorcore_mmsc.Base.{
  ℕ, suc, ◌<◌, ◌≤◌, ◌^◌, List, [], ◌∷◌, ◌++◌, length, length-append, take, drop, length-drop,
  take-length_append, drop-length_append, append_assoc, some, Option-cases, Result-cases, le→leb,
  lt→not_leb, ok, ◌≡◌, ◌⊎◌, inl, inr, refl, ap, arith,
}
use vectorcore_mmsc.Base.Text.{index_byte}
use vectorcore_mmsc.Mmspdu.Types.{
  FieldKind, unknown, octets, text, encoded_string, token, short_integer, long_integer, date,
  address,
}
use vectorcore_mmsc.Mmspdu.Integers.{encode_uintvar, decode_uintvar}
use vectorcore_mmsc.Mmspdu.Integers.Uintvar.{decode-encode_uintvar}
use vectorcore_mmsc.Mmspdu.Strings.RoundTrip.{IsText}
use vectorcore_mmsc.Mmspdu.Reader.{Reader, read_byte, read_n, read_until_null, read_until_null_from}
use vectorcore_mmsc.Mmspdu.Header.{read_counted, read_quoted_length, decode_header_value}

abbrev pub NullEnded : List ℕ → Type 0
NullEnded raw = (s : List ℕ) × IsText s × (raw ≡ s ++ (0 ∷ []))

abbrev pub Counted : List ℕ → Type 0
Counted raw = (n : ℕ) × (bs : List ℕ) × (raw ≡ n ∷ bs) × (length bs ≡ n)

abbrev pub ShortCounted : List ℕ → Type 0
ShortCounted raw = (n : ℕ) × (bs : List ℕ) × (raw ≡ n ∷ bs) × (length bs ≡ n) × (n ≤ 30)

-- A text whose first byte is no length.
abbrev pub PlainText : List ℕ → Type 0
PlainText raw = (c : ℕ) × (s : List ℕ) × IsText s × (raw ≡ c ∷ (s ++ (0 ∷ []))) × (30 < c)

abbrev pub LoneByte : List ℕ → Type 0
LoneByte raw = (b : ℕ) × (raw ≡ b ∷ []) × (0x1F < b)

abbrev pub LengthQuoted : List ℕ → Type 0
LengthQuoted raw =
    (payload : List ℕ) × (raw ≡ 0x1F ∷ (encode_uintvar (length payload) ++ payload))
    × (length payload < 2 ^ 35)

-- The bytes that a value of the kind may have.
abbrev pub IsRaw : FieldKind → List ℕ → Type 0
IsRaw text raw = NullEnded raw
IsRaw encoded_string raw = NullEnded raw
IsRaw address raw = ShortCounted raw ⊎ PlainText raw
IsRaw token raw = (b : ℕ) × (raw ≡ b ∷ [])
IsRaw short_integer raw = (b : ℕ) × (raw ≡ b ∷ [])
IsRaw long_integer raw = Counted raw
IsRaw date raw = Counted raw
IsRaw octets raw = ShortCounted raw ⊎ (LoneByte raw ⊎ LengthQuoted raw)
IsRaw unknown raw = ⊥

index_byte-null : (s rest : List ℕ) → IsText s → index_byte (s ++ (0 ∷ rest)) 0 ≡ some (length s)
unfolding index_byte
index_byte-null [] rest h = refl
index_byte-null (c ∷ s) rest h = ground (arith, index_byte-null s rest h.1)

take_null : (s rest : List ℕ) → take (suc (length s)) (s ++ (0 ∷ rest)) ≡ s ++ (0 ∷ [])
take_null [] rest = refl
take_null (c ∷ s) rest = ap (◌∷◌ c) (take_null s rest)

drop_null : (s rest : List ℕ) → drop (suc (length s)) (s ++ (0 ∷ rest)) ≡ rest
drop_null [] rest = refl
drop_null (c ∷ s) rest = drop_null s rest

pub read_until_null_from-text :
    (prefix s rest : List ℕ)
    → IsText s
    → read_until_null_from prefix (s ++ (0 ∷ rest)) ≡ ok (prefix ++ (s ++ (0 ∷ [])), rest)
unfolding read_until_null_from
read_until_null_from-text prefix s rest h =
    ground (arith, index_byte-null s rest h, take_null s rest, drop_null s rest)

pub read_until_null-text :
    (s rest : List ℕ)
    → IsText s
    → read_until_null ((s ++ (0 ∷ [])) ++ rest) ≡ ok (s ++ (0 ∷ []), rest)
unfolding read_until_null
read_until_null-text s rest h =
    rw (append_assoc s (0 ∷ []) rest) (read_until_null_from-text [] s rest h)

pub read_n-append : (bs rest : List ℕ) → read_n (length bs) (bs ++ rest) ≡ ok (bs, rest)
unfolding read_n
read_n-append bs rest =
    ground (arith, length-append bs rest, take-length_append bs rest, drop-length_append bs rest)

read_counted-append :
    (n : ℕ) (bs rest : List ℕ) → length bs ≡ n → read_counted n (bs ++ rest) ≡ ok (n ∷ bs, rest)
unfolding read_counted
read_counted-append n bs rest len = rw (← len) (rw (read_n-append bs rest))

read_quoted_length-append :
    (payload rest : List ℕ)
    → length payload < 2 ^ 35
    → read_quoted_length (encode_uintvar (length payload) ++ (payload ++ rest))
      ≡ ok (0x1F ∷ (encode_uintvar (length payload) ++ payload), rest)
unfolding read_quoted_length
read_quoted_length-append payload rest fits = rw (
  decode-encode_uintvar (length payload) (payload ++ rest) fits,
  drop-length_append (encode_uintvar (length payload)) (payload ++ rest),
  read_n-append payload rest,
  take-length_append (encode_uintvar (length payload)) (payload ++ rest),
)

-- For each kind of field, bytes that a value of the kind may have are read whole, and what
-- follows them is left.
pub decode_header_value-raw :
    (k : FieldKind) (raw rest : List ℕ)
    → IsRaw k raw
    → decode_header_value k (raw ++ rest) ≡ ok (raw, rest)
unfolding decode_header_value read_byte
decode_header_value-raw text raw rest (s, h, e) = rw e (read_until_null-text s rest h)
decode_header_value-raw encoded_string raw rest (s, h, e) = rw e (read_until_null-text s rest h)
decode_header_value-raw address raw rest (inl (n, bs, e, len, low)) =
    rw e (ground (arith, le→leb n 30 low, read_counted-append n bs rest len))
decode_header_value-raw address raw rest (inr (c, s, h, e, low)) =
    rw (e, append_assoc s (0 ∷ []) rest)
      (ground (arith, lt→not_leb c 30 low, read_until_null_from-text (c ∷ []) s rest h))
decode_header_value-raw token raw rest (b, e) = rw e (unfold read_n in ground arith)
decode_header_value-raw short_integer raw rest (b, e) = rw e (unfold read_n in ground arith)
decode_header_value-raw long_integer raw rest (n, bs, e, len) =
    rw e (read_counted-append n bs rest len)
decode_header_value-raw date raw rest (n, bs, e, len) = rw e (read_counted-append n bs rest len)
decode_header_value-raw octets raw rest (inl (n, bs, e, len, low)) =
    rw e (ground (arith, le→leb n 30 low, read_counted-append n bs rest len))
decode_header_value-raw octets raw rest (inr (inl (b, e, low))) =
    rw e (unfold read_byte in ground arith)
decode_header_value-raw octets raw rest (inr (inr (payload, e, fits))) =
    rw (e, append_assoc (encode_uintvar (length payload)) payload rest)
      (read_quoted_length-append payload rest fits)
decode_header_value-raw unknown raw rest h = absurd h

-- The reader takes from the front: what is left is no longer.
pub length-read_n :
    (n : ℕ) (r : Reader) (bs : List ℕ) (r' : Reader)
    → read_n n r ≡ ok (bs, r')
    → length r' ≤ length r
unfolding read_n
length-read_n n r bs r' e = ground (arith, length-drop n r)

pub length-read_until_null_from :
    (prefix : List ℕ) (r : Reader) (bs : List ℕ) (r' : Reader)
    → read_until_null_from prefix r ≡ ok (bs, r')
    → length r' ≤ length r
unfolding read_until_null_from
length-read_until_null_from prefix r bs r' e = elim (Option-cases (index_byte r 0)) [
  | inl missing ↦ ground arith
  | inr (i, found) ↦ ground (arith, length-drop (suc i) r)
]

length-read_counted :
    (n : ℕ) (r : Reader) (bs : List ℕ) (r' : Reader)
    → read_counted n r ≡ ok (bs, r')
    → length r' ≤ length r
unfolding read_counted
length-read_counted n r bs r' e = elim (Result-cases (read_n n r)) [
  | inl ((xs, ys), f) ↦ ground (arith, length-read_n n r xs ys)
  | inr (x, f) ↦ ground arith
]

length-read_quoted_length :
    (r : Reader) (bs : List ℕ) (r' : Reader)
    → read_quoted_length r ≡ ok (bs, r')
    → length r' ≤ length r
unfolding read_quoted_length
length-read_quoted_length r bs r' e = elim (Result-cases (decode_uintvar r)) [
  | inl ((n, k), f) ↦ elim (Result-cases (read_n n (drop k r))) [
    | inl ((xs, ys), g) ↦ ground (arith, length-drop k r, length-read_n n (drop k r) xs ys)
    | inr (x, g) ↦ ground arith
  ]
  | inr (x, f) ↦ ground arith
]

pub length-decode_header_value :
    (k : FieldKind) (r : Reader) (bs : List ℕ) (r' : Reader)
    → decode_header_value k r ≡ ok (bs, r')
    → length r' ≤ length r
unfolding decode_header_value read_byte read_until_null
length-decode_header_value text r bs r' e = length-read_until_null_from [] r bs r' e
length-decode_header_value encoded_string r bs r' e = length-read_until_null_from [] r bs r' e
length-decode_header_value address [] bs r' e = cc
length-decode_header_value address (b ∷ r) bs r' e =
    ground (arith, length-read_counted b r bs r', length-read_until_null_from (b ∷ []) r bs r')
length-decode_header_value token r bs r' e = length-read_n 1 r bs r' e
length-decode_header_value short_integer r bs r' e = length-read_n 1 r bs r' e
length-decode_header_value long_integer [] bs r' e = cc
length-decode_header_value long_integer (b ∷ r) bs r' e =
    omega (arith, length-read_counted b r bs r' e)
length-decode_header_value date [] bs r' e = cc
length-decode_header_value date (b ∷ r) bs r' e = omega (arith, length-read_counted b r bs r' e)
length-decode_header_value octets [] bs r' e = cc
length-decode_header_value octets (b ∷ r) bs r' e =
    ground (arith, length-read_counted b r bs r', length-read_quoted_length r bs r')
length-decode_header_value unknown r bs r' e = cc
