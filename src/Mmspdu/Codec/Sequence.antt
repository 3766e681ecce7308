-- ===== src/Mmspdu/Codec/Sequence.antt =====
-- What `encodeOrderedHeaders` of internal/mmspdu/codec.go writes of a map.
use vectorcore_mmsc.Base.{
  ℕ, suc, List, [], ◌∷◌, ◌++◌, length, append-nil, append_assoc, is_empty, Bool, true, false, ◌||◌,
  ◌==◌, Bool-cases, Result, ok, ◌≡◌, inl, inr, refl, ap, sym, ◌∙◌, arith, ==_iff,
}
use vectorcore_mmsc.Base.ByteMap.{keys, elem, sort, without, add}
use vectorcore_mmsc.Base.ByteMap.Laws.{elem-keys, elem-sort, elem-without, elem-add, elem-append}
use vectorcore_mmsc.Base.ByteMap.Pigeon.{Distinct, add-Distinct, elem_of_length}
use vectorcore_mmsc.Mmspdu.Header.{Headers, encode_header_name, raw_of}
use vectorcore_mmsc.Mmspdu.Header.RoundTrip.{
  IsHeaders, AllRaw, AllRaw-of_present, field_bytes, encode_fields-bytes, field_some,
}
use vectorcore_mmsc.Mmspdu.Codec.{
  present_of, canonical_header_order, encode_sequence, encode_headers_by_sequence,
  encode_ordered_headers,
}

abbrev add_all : List ℕ → List ℕ → List ℕ
add_all [] seen = seen
add_all (f ∷ fs) seen = add_all fs (add f seen)

elem-add_all : (k : ℕ) (fs seen : List ℕ) → elem k (add_all fs seen) ≡ (elem k fs || elem k seen)
elem-add_all k [] seen = unfold elem in refl
elem-add_all k (f ∷ fs) seen =
    elem-add_all k fs (add f seen) ∙ rw (elem-add k f seen) (unfold elem in ground arith)

add_all-Distinct : (fs seen : List ℕ) → Distinct seen → Distinct (add_all fs seen)
add_all-Distinct [] seen d = d
add_all-Distinct (f ∷ fs) seen d = add_all-Distinct fs (add f seen) (add-Distinct f seen d)

pub elem-present_of :
    (headers : Headers) (k : ℕ) (fs : List ℕ)
    → elem k (present_of headers fs) ≡ true
    → elem k (keys headers) ≡ true
unfolding present_of
elem-present_of headers k [] h = absurd (unfold elem in cc)
elem-present_of headers k (f ∷ fs) h = elim (Bool-cases (elem f (keys headers))) [
  | inl present ↦ elim (Bool-cases (f == k)) [
    | inl same ↦ ground (arith)
    | inr other ↦ elem-present_of headers k fs (unfold elem in rw (present, other) at h)
  ]
  | inr missing ↦ elem-present_of headers k fs (rw missing at h)
]

field_bytes-append :
    (headers : Headers) (xs ys : List ℕ)
    → field_bytes headers (xs ++ ys) ≡ field_bytes headers xs ++ field_bytes headers ys
field_bytes-append headers [] ys = refl
field_bytes-append headers (x ∷ xs) ys = rw (field_bytes-append headers xs ys) (
    sym (
      append_assoc (encode_header_name x ++ raw_of x headers) (field_bytes headers xs)
        (field_bytes headers ys)))

length-keys : (headers : Headers) → length (keys headers) ≡ length headers
unfolding keys
length-keys [] = refl
length-keys ((k, v) ∷ headers) = ap suc (length-keys headers)

module _ (headers : Headers) (formed : IsHeaders headers) where
  encode_sequence-present :
      (fs out seen : List ℕ)
      → encode_sequence headers fs out seen
        ≡ ok (
          out ++ field_bytes headers (present_of headers fs),
          add_all (present_of headers fs) seen,
        )
  unfolding encode_sequence present_of
  encode_sequence-present [] out seen = rw append-nil
  encode_sequence-present (f ∷ fs) out seen = elim (Bool-cases (elem f (keys headers))) [
    | inl present ↦
        rw (present, field_some headers formed f present)
          (encode_sequence-present fs (out ++ (encode_header_name f ++ raw_of f headers))
              (add f seen)
            ∙ ap (λ t. ok (t, add_all (present_of headers fs) (add f seen)))
                (append_assoc out (encode_header_name f ++ raw_of f headers)
                  (field_bytes headers (present_of headers fs))))
    | inr missing ↦ rw missing (encode_sequence-present fs out seen)
  ]

  AllRaw-of_keys :
      (fs : List ℕ)
      → ((k : ℕ) → elem k fs ≡ true → elem k (keys headers) ≡ true)
      → AllRaw headers fs
  AllRaw-of_keys fs sub =
      AllRaw-of_present headers formed fs (λ k h. rw (elem-keys k headers) at (sub k h))

same_elem : (a b : Bool) → (a ≡ true → b ≡ true) → (b ≡ true → a ≡ true) → a ≡ b
same_elem true b f g = sym (f refl)
same_elem false true f g = g refl
same_elem false false f g = refl

-- Fields that hold each key of the map, and nothing else, and what is written for them.
abbrev pub Writes : Headers → Result (List ℕ) → Type 0
Writes headers r =
    (fs : List ℕ) × (r ≡ ok (field_bytes headers fs))
    × ((k : ℕ) → elem k fs ≡ elem k (keys headers))

module _ (headers : Headers) (formed : IsHeaders headers) (order : List ℕ) where
  abbrev named : List ℕ
  named = present_of headers order

  abbrev unnamed : List ℕ
  unnamed = sort (without (add_all named []) (keys headers))

  elem-seen : (k : ℕ) → elem k (add_all named []) ≡ elem k named
  elem-seen k = elem-add_all k named [] ∙ unfold elem in ground arith

  all_named :
      length (add_all named []) ≡ length headers → (k : ℕ) → elem k named ≡ elem k (keys headers)
  all_named full k = same_elem _ _ (elem-present_of headers k order) λ h. rw (elem-seen k) at (
      elem_of_length (add_all named []) (keys headers) (add_all-Distinct named [] tt)
        (λ j p. elem-present_of headers j order (rw (elem-seen j) at p))
        (omega (arith, length-keys headers)) k h)

  elem-both : (k : ℕ) → elem k (named ++ unnamed) ≡ elem k (keys headers)
  elem-both k = ground (
    arith,
    elem-append k named unnamed,
    elem-sort k (without (add_all named []) (keys headers)),
    elem-without k (add_all named []) (keys headers),
    elem-seen k,
    elem-present_of headers k order,
  )

  elem-unnamed : (k : ℕ) → elem k unnamed ≡ true → elem k (keys headers) ≡ true
  elem-unnamed k h = ground (
    arith,
    elem-sort k (without (add_all named []) (keys headers)),
    elem-without k (add_all named []) (keys headers),
  )

  pub encode_headers_by_sequence-Writes : Writes headers (encode_headers_by_sequence headers order)
  unfolding encode_headers_by_sequence
  encode_headers_by_sequence-Writes =
      elim (Bool-cases (length (add_all named []) == length headers)) [
        | inl full ↦ (
          named,
          rw (encode_sequence-present headers formed order [] []) (rw full),
          all_named ((==_iff _ _).0 full),
        )
        | inr more ↦ (
          named ++ unnamed,
          rw (encode_sequence-present headers formed order [] []) (
              rw more (
                encode_fields-bytes headers unnamed (field_bytes headers named)
                  (AllRaw-of_keys headers formed unnamed elem-unnamed)
                ∙ ap ok (sym (field_bytes-append headers named unnamed)))),
          elem-both,
        )
      ]

-- Of a map of headers with bytes of their kinds, each field is written once for its place in
-- some list of fields that has the fields of the map and no others, whether the order that was
-- asked for is empty, names fields that the map has not, or leaves fields out.
pub encode_ordered_headers-Writes :
    (headers : Headers) (order : List ℕ)
    → IsHeaders headers
    → Writes headers (encode_ordered_headers headers order)
unfolding encode_ordered_headers
encode_ordered_headers-Writes [] order formed = ([], refl, λ k. unfold keys in refl)
encode_ordered_headers-Writes (h ∷ headers) order formed = elim (Bool-cases (is_empty order)) [
  | inl no_order ↦ rw no_order (
      encode_headers_by_sequence-Writes (h ∷ headers) formed (canonical_header_order (h ∷ headers)))
  | inr some_order ↦ rw some_order (encode_headers_by_sequence-Writes (h ∷ headers) formed order)
]
