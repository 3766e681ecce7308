-- ===== src/Wappush/Sms/Reassembly.antt =====
-- The laws of `SegmentBinarySMS` of internal/wappush/sms.go, and what a receiver joins.
use vectorcore_mmsc.Base.{
  ℕ, zero, suc, ◌+◌, ◌*◌, ◌%◌, ◌<◌, ◌≤◌, List, [], ◌∷◌, ◌++◌, length, take, drop, length-take,
  is_empty, true, false, ltb, ok, err, ◌≡◌, refl, ap, ◌∙◌, sym, arith, empty_push,
  too_many_segments,
}
use vectorcore_mmsc.Wappush.Sms.{build_udh, segments_from, segment_count, segment_binary_sms}

-- What a receiver joins: each segment without its twelve bytes of header.
abbrev pub joined : List (List ℕ) → List ℕ
joined [] = []
joined (segment ∷ segments) = drop 12 segment ++ joined segments

-- The header of a segment: the port numbers 2948 and 9200 of a push in 16 bits, then the reference, the
-- number of segments, and the place of this one.
abbrev pub header_of : ℕ → ℕ → ℕ → List ℕ
header_of reference total sequence =
    0x0B ∷ 0x05 ∷ 0x04 ∷ 0x0B ∷ 0x84 ∷ 0x23 ∷ 0xF0 ∷ 0x00 ∷ 0x03 ∷ reference ∷ total ∷ sequence ∷ []

-- Each segment has the header of its place in the sequence, and 140 bytes at most.
abbrev pub Numbered : ℕ → ℕ → ℕ → List (List ℕ) → Type 0
Numbered reference total i [] = Unit {0}
Numbered reference total i (segment ∷ segments) =
    (take 12 segment ≡ header_of reference total (suc i))
    × (length segment ≤ 140)
    × Numbered reference total (suc i) segments

take_nil : (n : ℕ) → ◌≡◌ {A = List ℕ} (take n []) []
take_nil zero = refl
take_nil (suc n) = refl

drop_nil : (n : ℕ) → ◌≡◌ {A = List ℕ} (drop n []) []
drop_nil zero = refl
drop_nil (suc n) = refl

take-append_drop : (a b : ℕ) (xs : List ℕ) → take a xs ++ take b (drop a xs) ≡ take (a + b) xs
take-append_drop zero b xs = let sum : b ≡ 0 + b = omega arith in ap (λ n. take n xs) sum
take-append_drop (suc a) b [] = take_nil b ∙ sym (take_nil (suc a + b))
take-append_drop (suc a) b (x ∷ xs) =
    let sum : suc (a + b) ≡ suc a + b = omega arith in
    ap (◌∷◌ x) (take-append_drop a b xs) ∙ ap (λ n. take n (x ∷ xs)) sum

drop-drop : (a b : ℕ) (xs : List ℕ) → drop b (drop a xs) ≡ drop (a + b) xs
drop-drop zero b xs = let sum : b ≡ 0 + b = omega arith in ap (λ n. drop n xs) sum
drop-drop (suc a) b [] = drop_nil b ∙ sym (drop_nil (suc a + b))
drop-drop (suc a) b (x ∷ xs) =
    let sum : suc (a + b) ≡ suc a + b = omega arith in
    drop-drop a b xs ∙ ap (λ n. drop n (x ∷ xs)) sum

take_all : (n : ℕ) (xs : List ℕ) → length xs ≤ n → take n xs ≡ xs
take_all zero [] h = refl
take_all zero (x ∷ xs) h = absurd (omega arith)
take_all (suc n) [] h = refl
take_all (suc n) (x ∷ xs) h = ap (◌∷◌ x) (take_all n xs (omega arith))

joined-segments_from :
    (left i total reference : ℕ) (push : List ℕ)
    → joined (segments_from left i total reference push) ≡ take (left * 128) (drop (i * 128) push)
unfolding segments_from build_udh
joined-segments_from zero i total reference push = refl
joined-segments_from (suc left) i total reference push =
    let next : i * 128 + 128 ≡ suc i * 128 = omega arith in
    let sum : 128 + left * 128 ≡ suc left * 128 = omega arith in
    ap (◌++◌ (take 128 (drop (i * 128) push))) (
      joined-segments_from left (suc i) total reference push
      ∙ ap (take (left * 128))
          (ap (λ n. drop n push) (sym next) ∙ sym (drop-drop (i * 128) 128 push)))
    ∙ (take-append_drop 128 (left * 128) (drop (i * 128) push)
        ∙ ap (λ n. take n (drop (i * 128) push)) sum)

segments_from-Numbered :
    (left i total reference : ℕ) (push : List ℕ)
    → total < 256
    → i + left ≤ total
    → Numbered reference total i (segments_from left i total reference push)
unfolding segments_from build_udh
segments_from-Numbered zero i total reference push few h = tt
segments_from-Numbered (suc left) i total reference push few h = (
  head,
  omega (arith, length-take 128 (drop (i * 128) push)),
  segments_from-Numbered left (suc i) total reference push few (omega arith),
)
  where
    small : (n : ℕ) → n < 256 → n % 256 ≡ n
    small n low = omega arith

    head : build_udh reference (total % 256) (suc i % 256) ≡ header_of reference total (suc i)
    head = rw (small total few, small (suc i) (omega arith))

length-segments_from :
    (left i total reference : ℕ) (push : List ℕ)
    → length (segments_from left i total reference push) ≡ left
unfolding segments_from
length-segments_from zero i total reference push = refl
length-segments_from (suc left) i total reference push =
    ap suc (length-segments_from left (suc i) total reference push)

-- A push of 1 to 32640 bytes is cut into segments of at most 140 bytes, as many as 128 bytes
-- each need, each with the twelve bytes of the header of its place: the two ports of a push,
-- the reference, the number of segments and its number from 1; and what the segments hold
-- behind their headers, joined, is the push.
pub segment_binary_sms-joined :
    (push : List ℕ) (reference : ℕ)
    → is_empty push ≡ false
    → length push ≤ 32640
    → (segments : List (List ℕ)) × (segment_binary_sms push reference ≡ ok segments)
      × (joined segments ≡ push)
      × (length segments ≡ segment_count push)
      × Numbered reference (segment_count push) 0 segments
unfolding segment_binary_sms
segment_binary_sms-joined push reference some_ fits =
    let total = segment_count push in
    let few : ltb 255 total ≡ false = ground arith in
    (
      segments_from total 0 total reference push,
      rw (some_, few),
      joined-segments_from total 0 total reference push ∙ take_all (total * 128) push (omega arith),
      length-segments_from total 0 total reference push,
      segments_from-Numbered total 0 total reference push (omega arith) (omega arith),
    )

-- An empty push is refused as empty, and one of more than 32640 bytes for its number of
-- segments.
pub segment_binary_sms-refused :
    (push : List ℕ) (reference : ℕ)
    → (is_empty push ≡ true → segment_binary_sms push reference ≡ err empty_push)
      × (32640 < length push → segment_binary_sms push reference ≡ err too_many_segments)
unfolding segment_binary_sms
segment_binary_sms-refused [] reference = (λ h. refl, λ h. absurd (omega arith))
segment_binary_sms-refused (b ∷ push) reference = (λ h. cc, λ h. ground arith)
