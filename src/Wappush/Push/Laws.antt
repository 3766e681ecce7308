-- ===== src/Wappush/Push/Laws.antt =====
-- The laws of the push frame of internal/wappush/push.go.
use vectorcore_mmsc.Base.{
  ℕ, ◌+◌, ◌%◌, ◌^◌, ◌<◌, ◌≤◌, List, length, length-append, drop-length_append, ok, ◌≡◌, arith,
}
use vectorcore_mmsc.Base.Bits.{top_bit, low_bits, set_top_bit}
use vectorcore_mmsc.Mmspdu.Integers.{from_be, decode_short_integer, decode_long_integer}
use vectorcore_mmsc.Wappush.Push.{wsp_encode_integer, push_headers, wrap_mms_pdu, unwrap_mms_pdu}

length-wsp_encode_integer : (v : ℕ) → length (wsp_encode_integer v) ≤ 5
unfolding wsp_encode_integer
length-wsp_encode_integer v = ground arith

-- A unit that is wrapped in a push is unwrapped to that unit, whatever its length.
pub unwrap-wrap_mms_pdu : (mms_pdu : List ℕ) → unwrap_mms_pdu (wrap_mms_pdu mms_pdu) ≡ ok mms_pdu
unfolding wrap_mms_pdu unwrap_mms_pdu push_headers
unwrap-wrap_mms_pdu mms_pdu =
    let n : (length (push_headers mms_pdu) % 256) ≡ length (push_headers mms_pdu) =
      omega (arith, length-wsp_encode_integer (length mms_pdu)) in
    rw n (
      ground (
        arith,
        length-append (push_headers mms_pdu) mms_pdu,
        drop-length_append (push_headers mms_pdu) mms_pdu,
      ))

-- The Integer-value of a push is read back by the Short-integer decoder of MMS headers below
-- 128, and by the Long-integer decoder from 128 to 2^32.
pub decode-wsp_encode_integer :
    (v : ℕ)
    → (v < 128 → decode_short_integer (wsp_encode_integer v) ≡ ok v)
      × (128 ≤ v → v < 2 ^ 32 → decode_long_integer (wsp_encode_integer v) ≡ ok v)
unfolding wsp_encode_integer decode_short_integer decode_long_integer from_be
decode-wsp_encode_integer v = (
  λ low. ground (arith, set_top_bit v, top_bit (v + 128), low_bits (v + 128)),
  λ low high. ground arith,
)
