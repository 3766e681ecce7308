-- ===== src/Smpp/Submit.antt =====
-- internal/smpp/submit.go: a push as submit_sm units, one for each segment, and who is told of them.
-- The random reference and what a request returns are parameters.
pub mod Laws
use vectorcore_mmsc.Base.{
  ℕ, zero, suc, ◌+◌, List, [], ◌∷◌, ◌++◌, length, is_empty, Bool, true, false, ◌==◌, ◌&&◌, ◌||◌,
  leb, not, if◌then◌else◌, Result, ok, err, ◌>>=◌, submit_failed, Option, none, some,
}
use vectorcore_mmsc.Base.Text.{codes, trim_space}
use vectorcore_mmsc.Smpp.Pdu.{Pdu, with_header}
use vectorcore_mmsc.Smpp.Upstream.{Config}
use vectorcore_mmsc.Wappush.Sms.{segment_binary_sms}

-- unicode.IsDigit among the ASCII bytes.
abbrev pub is_digit : ℕ → Bool
is_digit c = leb b'0' c && leb c b'9'

unfoldable pub all_digits : List ℕ → Bool
all_digits [] = true
all_digits (c ∷ s) = is_digit c && all_digits s

unfoldable pub looks_like_numeric_address : List ℕ → Bool
unfolding all_digits
looks_like_numeric_address [] = true
looks_like_numeric_address (c ∷ s) = (is_digit c || c == b'+') && all_digits s

-- The type of number and the numbering plan of a source address.
unfoldable pub classify_source_address : List ℕ → ℕ × ℕ
unfolding trim_space looks_like_numeric_address
classify_source_address source =
    let trimmed = trim_space source in
    if is_empty trimmed
    then (0, 0)
    else if looks_like_numeric_address trimmed
    then (1, 1)
    else (5, 0)

-- A destination's type of number or plan: 1 where none is set.
abbrev pub dest_or_one : ℕ → Bool → ℕ
dest_or_one value set = if value == 0 && not set then 1 else value

-- The unit that `submitSegment` sends with a sequence number.
unfoldable pub submit_request : Config → ℕ → List ℕ → List ℕ → List ℕ → Pdu
unfolding classify_source_address with_header
submit_request cfg seq source msisdn payload =
    let (ton, npi) = classify_source_address source in
    record (with_header 0 0x00000004 0 seq) {
      service_type = codes "WAP";
      source_addr_ton = if cfg.source_addr_ton_set then cfg.source_addr_ton else ton;
      source_addr_npi = if cfg.source_addr_npi_set then cfg.source_addr_npi else npi;
      source_addr = source;
      dest_addr_ton = dest_or_one cfg.dest_addr_ton cfg.dest_addr_ton_set;
      dest_addr_npi = dest_or_one cfg.dest_addr_npi cfg.dest_addr_npi_set;
      destination_addr = msisdn;
      esm_class = 0x40;
      data_coding = 0xf5;
      registered_delivery = cfg.registered_delivery;
      short_message = payload;
    }

-- The message id of an answer that accepts.
unfoldable pub remote_id : Pdu → Result (List ℕ)
remote_id resp = if not (resp.command_status == 0) then err submit_failed else ok resp.message_id

-- What is told of a segment that was accepted: its index, the count, and the remote message id.
abbrev pub Told : Type 0
Told = ℕ × ℕ × List ℕ

module _ (connected : ℕ → Result ℕ) (request : Pdu → ℕ → Result Pdu)
    (tracker : Told → Result (Unit {0})) (cfg : Config) (source msisdn : List ℕ) where
  -- `submitSegment` for the segment of an index: `connected` is the sequence number that the
  -- connection gives, or why there is none, and `request` is the answer or why there is none.
  unfoldable pub submit_segment : ℕ → List ℕ → Result (List ℕ)
  unfolding submit_request remote_id
  submit_segment index payload = do
    seq ← connected index
    resp ← request (submit_request cfg seq source msisdn payload) 0x80000004
    remote_id resp

  -- The loop over the segments: what was told to the tracker, and how the loop ends.
  unfoldable pub submit_segments : ℕ → ℕ → List (List ℕ) → List Told × Result (Unit {0})
  submit_segments index count [] = ([], ok tt)
  submit_segments index count (segment ∷ segments) =
      let (told, end) = submit_segments (suc index) count segments in
      elim (submit_segment index segment) [
        | err e ↦ ([], err e)
        | ok remote ↦ elim (tracker (index, count, remote)) [
          | err e ↦ ((index, count, remote) ∷ [], err e)
          | ok u ↦ ((index, count, remote) ∷ told, end)
        ]
      ]

  -- The method `SubmitWAPPushTracked`, with the random reference.
  unfoldable pub submit_wap_push_tracked : Result ℕ → List ℕ → List Told × Result (Unit {0})
  unfolding segment_binary_sms
  submit_wap_push_tracked (err e) push = ([], err e)
  submit_wap_push_tracked (ok ref) push = elim (segment_binary_sms push ref) [
    | err e ↦ ([], err e)
    | ok segments ↦ submit_segments 0 (length segments) segments
  ]
