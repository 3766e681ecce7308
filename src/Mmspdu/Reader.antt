-- ===== src/Mmspdu/Reader.antt =====
-- `byteReader` of internal/mmspdu/fields.go. The state is the unread bytes, `data[pos:]`: every
-- use of the reader is of these. A method returns its result and the bytes that are left.
use vectorcore_mmsc.Base.{
  ℕ, suc, List, [], ◌∷◌, ◌++◌, length, take, drop, none, some, ltb, if◌then◌else◌, Result, ok, err,
  eof,
}
use vectorcore_mmsc.Base.Text.{index_byte}

abbrev pub Reader : Type 0
Reader = List ℕ

unfoldable pub remaining : Reader → ℕ
remaining r = length r

unfoldable pub read_byte : Reader → Result (ℕ × Reader)
read_byte [] = err eof
read_byte (b ∷ r) = ok (b, r)

-- The count comes from a byte or from a Uintvar-integer, so it is never negative.
unfoldable pub read_n : ℕ → Reader → Result (List ℕ × Reader)
read_n n r = if ltb (length r) n then err eof else ok (take n r, drop n r)

unfoldable pub read_until_null_from : List ℕ → Reader → Result (List ℕ × Reader)
read_until_null_from prefix r = elim (index_byte r 0) [
  | none ↦ err eof
  | some i ↦ ok (prefix ++ take (suc i) r, drop (suc i) r)
]

unfoldable pub read_until_null : Reader → Result (List ℕ × Reader)
unfolding read_until_null_from
read_until_null r = read_until_null_from [] r
