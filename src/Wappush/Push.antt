-- ===== src/Wappush/Push.antt =====
-- internal/wappush/push.go: the push frame around a unit.
pub mod Laws
use vectorcore_mmsc.Base.{
  ℕ, ◌/◌, ◌%◌, bit_or, List, [], ◌∷◌, ◌++◌, length, drop, Bool, true, false, not, ltb, leb, ◌==◌,
  if◌then◌else◌, Result, ok, err, short_push, bad_pdu_type, push_truncated,
}

-- An Integer-value: one byte up to 127, and else a count of up to four bytes and the bytes.
unfoldable pub wsp_encode_integer : ℕ → List ℕ
wsp_encode_integer v =
    if leb v 127
    then bit_or v 0x80 ∷ []
    else if leb v 0xFF
    then 0x01 ∷ (v % 256) ∷ []
    else if leb v 0xFFFF
    then 0x02 ∷ (v / 256 % 256) ∷ (v % 256) ∷ []
    else if leb v 0xFFFFFF
    then 0x03 ∷ (v / 65536 % 256) ∷ (v / 256 % 256) ∷ (v % 256) ∷ []
    else 0x04 ∷ (v / 16777216 % 256) ∷ (v / 65536 % 256) ∷ (v / 256 % 256) ∷ (v % 256) ∷ []

-- Content type, push flag, application id, and the length of the unit.
unfoldable pub push_headers : List ℕ → List ℕ
push_headers mms_pdu = 0xBE ∷ 0xB4 ∷ 0x82 ∷ 0xAF ∷ 0x84 ∷ 0x8D ∷ wsp_encode_integer (length mms_pdu)

unfoldable pub wrap_mms_pdu : List ℕ → List ℕ
wrap_mms_pdu mms_pdu =
    (0x01 ∷ 0x06 ∷ (length (push_headers mms_pdu) % 256) ∷ push_headers mms_pdu) ++ mms_pdu

unfoldable pub unwrap_mms_pdu : List ℕ → Result (List ℕ)
unwrap_mms_pdu (t ∷ kind ∷ headers_len ∷ r) =
    if not (kind == 0x06)
    then err bad_pdu_type
    else if ltb (length r) headers_len
    then err push_truncated
    else ok (drop headers_len r)
unwrap_mms_pdu _ = err short_push
