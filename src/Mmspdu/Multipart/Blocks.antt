-- ===== src/Mmspdu/Multipart/Blocks.antt =====
-- The decoder after the encoder of the header block of a part of internal/mmspdu/multipart.go. The part
-- is without content type parameters.
use vectorcore_mmsc.Base.{
  ℕ, zero, suc, ◌≤◌, List, [], ◌∷◌, ◌++◌, length, length-append, All, is_empty, some, Option-cases,
  false, if◌then◌else◌, Bool-cases, ok, ◌>>=◌, ◌≡◌, inl, inr, refl, ◌∙◌, arith,
}
use vectorcore_mmsc.Base.Text.{bytes_eq, bytes_eq→eq, to_lower}
use vectorcore_mmsc.Base.Text.Search.{to_lower-to_lower}
use vectorcore_mmsc.Base.TextMap
use vectorcore_mmsc.Base.TextMap.Laws.{lookup-insert}
use vectorcore_mmsc.Mmspdu.Strings.{encode_text_string, decode_text_string}
use vectorcore_mmsc.Mmspdu.Strings.RoundTrip.{IsText, decode-encode_text_string}
use vectorcore_mmsc.Mmspdu.Reader.{Reader, read_until_null}
use vectorcore_mmsc.Mmspdu.ContentType.{
  normal_media_type, encode_media_type, encode_content_type_value,
}
use vectorcore_mmsc.Mmspdu.ContentType.Tables.{well_known_media_type_tokens, media_type_token_back}
use vectorcore_mmsc.Mmspdu.ContentType.Laws.{
  normal_media_type-valid, encode_media_type-known, encode_media_type-other,
  decode_media_type-known, token-top_bit,
}
use vectorcore_mmsc.Mmspdu.Multipart.{
  encode_part_header, encode_part_header_lines, normalize_header_map,
}
use vectorcore_mmsc.Mmspdu.Multipart.Lines.{
  TextValue, encode_text_string-TextValue, read_until_null-TextValue, header_value_back,
  read_part_header-line, length-encode_part_header,
}
use vectorcore_mmsc.Mmspdu.Multipart.Decode.{
  is_text_string_start, decode_part_content_type_value, read_part_header, part_headers_loop,
}

text_media_type :
    (raw media rest : List ℕ)
    → TextValue raw
    → decode_text_string raw ≡ ok media
    → decode_part_content_type_value (raw ++ rest)
      ≡ ok (record { media_type = media; params = [] }, rest)
text_media_type raw media rest (d, t, e, low, high, text) named = rw e (
    plain d t low high
    ∙ rw (rw e at (read_until_null-TextValue raw rest (d, t, e, low, high, text)))
        (rw (rw e at named)))
  where
    plain :
        (c : ℕ) (s : List ℕ)
        → 0x20 ≤ c
        → c ≤ 0x7f
        → decode_part_content_type_value (((c ∷ s) ++ (0 ∷ [])) ++ rest) ≡ do
          (bytes, r) ← read_until_null (((c ∷ s) ++ (0 ∷ [])) ++ rest)
          name ← decode_text_string bytes
          ok (record { media_type = name; params = [] }, r)
    plain c s p q = unfold decode_part_content_type_value is_text_string_start in ground arith

token_media_type :
    (t : ℕ) (media rest : List ℕ)
    → TextMap.lookup media well_known_media_type_tokens ≡ some t
    → decode_part_content_type_value (t ∷ rest)
      ≡ ok (record { media_type = media; params = [] }, rest)
unfolding decode_part_content_type_value is_text_string_start
token_media_type t media rest known =
    let (name, high, byte) = media_type_token_back media t known in
    rw (token-top_bit t high byte) (rw (decode_media_type-known media t known) (ground arith))

-- The content type of a part, without parameters, is read back in its normal form, well known
-- or not, and what follows it is left.
pub decode_part-encode_content_type :
    (name rest : List ℕ)
    → decode_part_content_type_value
        (encode_content_type_value (record { media_type = name; params = [] }) ++ rest)
      ≡ ok (record { media_type = normal_media_type name; params = [] }, rest)
unfolding encode_content_type_value
decode_part-encode_content_type name rest =
    split (normal_media_type name) (normal_media_type-valid name).0 (normal_media_type-valid name).1
  where
    split :
        (media : List ℕ)
        → is_empty media ≡ false
        → IsText media
        → decode_part_content_type_value (encode_media_type media ++ rest)
          ≡ ok (record { media_type = media; params = [] }, rest)
    split media some_char text =
        elim (Option-cases (TextMap.lookup media well_known_media_type_tokens)) [
          | inl other ↦ rw (encode_media_type-other media other) (
              text_media_type (encode_text_string media) media rest
                (encode_text_string-TextValue media some_char text)
                (decode-encode_text_string media text))
          | inr (t, known) ↦
              rw (encode_media_type-known media t known) (token_media_type t media rest known)
        ]

-- A header that a line can carry: a key that is not empty, in lower case, and texts.
abbrev pub IsEntry : List ℕ × List ℕ → Type 0
IsEntry e = (is_empty e.0 ≡ false) × IsText e.0 × (to_lower e.0 ≡ e.0) × IsText e.1

abbrev pub IsKey : List (List ℕ × List ℕ) → List ℕ → Type 0
IsKey m k = (is_empty k ≡ false) × IsText k × (to_lower k ≡ k) × IsText (TextMap.text_at k m)

-- What the decoder makes of the lines for the keys `ks` of `m`.
abbrev pub insert_lines :
    List (List ℕ × List ℕ) → List (List ℕ) → List (List ℕ × List ℕ) → List (List ℕ × List ℕ)
insert_lines m [] acc = acc
insert_lines m (k ∷ ks) acc =
    insert_lines m ks (TextMap.insert k (header_value_back k (TextMap.text_at k m)) acc)

part_headers_loop_step :
    (fuel : ℕ) (r : Reader) (acc acc' : List (List ℕ × List ℕ)) (r' : Reader)
    → read_part_header r acc ≡ ok (acc', r')
    → part_headers_loop (suc fuel) r acc ≡ part_headers_loop fuel r' acc'
part_headers_loop_step fuel [] acc acc' r' p = unfold read_part_header in cc
part_headers_loop_step fuel (b ∷ r) acc acc' r' p =
    unfold part_headers_loop in rw (p, part_headers_loop)

-- Each line takes a byte at least, so a round for each byte is enough.
pub part_headers_loop-lines :
    (fuel : ℕ) (m : List (List ℕ × List ℕ)) (ks : List (List ℕ)) (acc : List (List ℕ × List ℕ))
    → All (IsKey m) ks
    → length (encode_part_header_lines m ks) ≤ fuel
    → part_headers_loop fuel (encode_part_header_lines m ks) acc ≡ some (ok (insert_lines m ks acc))
unfolding encode_part_header_lines
part_headers_loop-lines fuel m [] acc all h = unfold part_headers_loop in refl
part_headers_loop-lines zero m (k ∷ ks) acc all h = absurd (
    omega (
      arith,
      length-append (encode_part_header k (TextMap.text_at k m)) (encode_part_header_lines m ks),
      length-encode_part_header k (TextMap.text_at k m) all.0.0,
    ))
part_headers_loop-lines (suc fuel) m (k ∷ ks) acc all h =
    let (some_char, key_text, lower, value_text) = all.0 in
    part_headers_loop_step fuel _ acc _ (encode_part_header_lines m ks) (
      read_part_header-line k (TextMap.text_at k m) (encode_part_header_lines m ks) acc some_char
        key_text lower value_text)
    ∙ part_headers_loop-lines fuel m ks
        (TextMap.insert k (header_value_back k (TextMap.text_at k m)) acc) all.1
        (omega (
          arith,
          length-append (encode_part_header k (TextMap.text_at k m))
              (encode_part_header_lines m ks),
          length-encode_part_header k (TextMap.text_at k m) some_char,
        ))

pub lookup-insert_lines :
    (m : List (List ℕ × List ℕ)) (j : List ℕ) (ks : List (List ℕ)) (acc : List (List ℕ × List ℕ))
    → TextMap.lookup j (insert_lines m ks acc) ≡ (
        if TextMap.elem j ks
        then some (header_value_back j (TextMap.text_at j m))
        else TextMap.lookup j acc)
unfolding TextMap.elem
lookup-insert_lines m j [] acc = refl
lookup-insert_lines m j (k ∷ ks) acc = elim (Bool-cases (bytes_eq k j)) [
  | inl same ↦ ground (
    arith,
    bytes_eq→eq k j same,
    lookup-insert_lines m j ks (TextMap.insert k (header_value_back k (TextMap.text_at k m)) acc),
    lookup-insert k j (header_value_back k (TextMap.text_at k m)) acc,
  )
  | inr other ↦ ground (
    arith,
    lookup-insert_lines m j ks (TextMap.insert k (header_value_back k (TextMap.text_at k m)) acc),
    lookup-insert k j (header_value_back k (TextMap.text_at k m)) acc,
  )
]

insert-IsEntry :
    (k v : List ℕ) (m : List (List ℕ × List ℕ))
    → IsEntry (k, v)
    → All IsEntry m
    → All IsEntry (TextMap.insert k v m)
unfolding TextMap.insert
insert-IsEntry k v [] h all = (h, tt)
insert-IsEntry k v ((j, w) ∷ m) h all = elim (Bool-cases (bytes_eq j k)) [
  | inl same ↦ rw same (h, all.1)
  | inr other ↦ rw other (all.0, insert-IsEntry k v m h all.1)
]

text_at-IsText :
    (k : List ℕ) (m : List (List ℕ × List ℕ)) → All IsEntry m → IsText (TextMap.text_at k m)
unfolding TextMap.text_at TextMap.lookup
text_at-IsText k [] all = tt
text_at-IsText k ((j, w) ∷ m) all = elim (Bool-cases (bytes_eq j k)) [
  | inl same ↦ rw (same, TextMap.text_at) all.0.3
  | inr other ↦ rw (other, TextMap.text_at) (text_at-IsText k m all.1)
]

pub IsEntry-keys :
    (m ks : List (List ℕ × List ℕ))
    → All IsEntry m
    → All IsEntry ks
    → All (IsKey m) (TextMap.keys ks)
unfolding TextMap.keys
IsEntry-keys m [] all h = tt
IsEntry-keys m ((k, v) ∷ ks) all h =
    ((h.0.0, h.0.1, h.0.2, text_at-IsText k m all), IsEntry-keys m ks all h.1)

-- The headers of a part as a sender gives them: keys in any case.
abbrev pub IsHeader : List ℕ × List ℕ → Type 0
IsHeader e = (is_empty e.0 ≡ false) × IsText e.0 × IsText e.1

to_lower-IsText : (s : List ℕ) → IsText s → IsText (to_lower s)
unfolding to_lower
to_lower-IsText [] h = tt
to_lower-IsText (c ∷ s) h = (ground arith, to_lower-IsText s h.1)

to_lower_some : (s : List ℕ) → is_empty s ≡ false → is_empty (to_lower s) ≡ false
unfolding to_lower
to_lower_some [] h = h
to_lower_some (c ∷ s) h = refl

pub normalize_header_map-IsEntry :
    (out headers : List (List ℕ × List ℕ))
    → All IsEntry out
    → All IsHeader headers
    → All IsEntry (normalize_header_map out headers)
unfolding normalize_header_map
normalize_header_map-IsEntry out [] all h = all
normalize_header_map-IsEntry out ((k, v) ∷ headers) all h =
    normalize_header_map-IsEntry (TextMap.insert (to_lower k) v out) headers
      (insert-IsEntry (to_lower k) v out
        (to_lower_some k h.0.0, to_lower-IsText k h.0.1, to_lower-to_lower k, h.0.2) all)
      h.1
