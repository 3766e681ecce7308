-- ===== src/Wappush/Sms.antt =====
-- internal/wappush/sms.go: a push in short messages of 140 bytes at most.
pub mod Reassembly
use vectorcore_mmsc.Base.{
  ℕ, zero, suc, ◌+◌, ◌*◌, ◌/◌, ◌%◌, List, [], ◌∷◌, ◌++◌, length, take, drop, is_empty, Bool, ltb,
  if◌then◌else◌, Result, ok, err, empty_push, too_many_segments,
}

abbrev pub max_sms_payload : ℕ
max_sms_payload = 128

-- Ports 2948 and 9200, and the place in the sequence.
unfoldable pub build_udh : ℕ → ℕ → ℕ → List ℕ
build_udh reference total sequence =
    0x0B
    ∷ 0x05
    ∷ 0x04
    ∷ (2948 / 256 % 256)
    ∷ (2948 % 256)
    ∷ (9200 / 256 % 256)
    ∷ (9200 % 256)
    ∷ 0x00
    ∷ 0x03
    ∷ reference
    ∷ total
    ∷ sequence
    ∷ []

-- The rounds that are left of the loop, from the index `i`.
unfoldable pub segments_from : ℕ → ℕ → ℕ → ℕ → List ℕ → List (List ℕ)
segments_from zero i total reference push = []
segments_from (suc left) i total reference push =
    (build_udh reference (total % 256) (suc i % 256)
      ++ take max_sms_payload (drop (i * max_sms_payload) push))
    ∷ segments_from left (suc i) total reference push

abbrev pub segment_count : List ℕ → ℕ
segment_count push = (length push + 127) / max_sms_payload

unfoldable pub segment_binary_sms : List ℕ → ℕ → Result (List (List ℕ))
segment_binary_sms push reference =
    if is_empty push
    then err empty_push
    else if ltb 255 (segment_count push)
    then err too_many_segments
    else ok (segments_from (segment_count push) 0 (segment_count push) reference push)
