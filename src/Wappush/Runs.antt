-- ===== src/Wappush/Runs.antt =====
-- Concrete pushes for the laws of internal/wappush.
use vectorcore_mmsc.Base.{ℕ, List, [], ◌∷◌, length, ok, ◌≡◌, refl, arith}
use vectorcore_mmsc.Wappush.Push.{wrap_mms_pdu, unwrap_mms_pdu}
use vectorcore_mmsc.Wappush.Push.Laws.{unwrap-wrap_mms_pdu}
use vectorcore_mmsc.Wappush.Sms.{segment_count, segment_binary_sms}
use vectorcore_mmsc.Wappush.Sms.Reassembly.{joined, Numbered, segment_binary_sms-joined}

abbrev unit : List ℕ
unit = 0x8C ∷ 0x82 ∷ 0x98 ∷ 0x31 ∷ []

unwrap-wrap_example : unwrap_mms_pdu (wrap_mms_pdu unit) ≡ ok unit
unwrap-wrap_example = unwrap-wrap_mms_pdu unit

segments_example :
    (segments : List (List ℕ)) × (segment_binary_sms unit 0x42 ≡ ok segments)
    × (joined segments ≡ unit)
    × (length segments ≡ segment_count unit)
    × Numbered 0x42 (segment_count unit) 0 segments
segments_example = segment_binary_sms-joined unit 0x42 refl (omega arith)
