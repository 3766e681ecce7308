-- ===== src/Mmspdu/Multipart/RoundTrip.antt =====
-- `DecodeMultipart` after `EncodeMultipart` of internal/mmspdu/multipart.go. The parts are without
-- content type parameters.
use vectorcore_mmsc.Base.{
  ℕ, suc, ◌*◌, ◌/◌, ◌%◌, ◌^◌, ◌<◌, ◌≤◌, List, [], ◌∷◌, ◌++◌, length, length-append, append_assoc,
  append-nil, All, drop, le→not_ltb, drop-length_append, Option, none, some, true, false, ltb,
  if◌then◌else◌, ok, ◌≡◌, refl, ap, ◌∙◌, arith,
}
use vectorcore_mmsc.Base.TextMap
use vectorcore_mmsc.Base.TextMap.Laws.{elem-keys, elem-sort, All-sort}
use vectorcore_mmsc.Mmspdu.Reader.{Reader}
use vectorcore_mmsc.Mmspdu.Header.Delimit.{read_n-append}
use vectorcore_mmsc.Mmspdu.Integers.{encode_uintvar, decode_uintvar}
use vectorcore_mmsc.Mmspdu.Integers.Uintvar.{decode-encode_uintvar, length-encode_uintvar}
use vectorcore_mmsc.Mmspdu.ContentType.{
  ContentTypeValue, normal_media_type, encode_content_type_value,
}
use vectorcore_mmsc.Mmspdu.Multipart.{
  Part, encode_part_header_lines, encode_part_headers, normalize_header_map, encode_parts,
  encode_multipart,
}
use vectorcore_mmsc.Mmspdu.Multipart.Lines.{header_value_back}
use vectorcore_mmsc.Mmspdu.Multipart.Blocks.{
  IsHeader, insert_lines, part_headers_loop-lines, lookup-insert_lines, IsEntry-keys,
  normalize_header_map-IsEntry, decode_part-encode_content_type,
}
use vectorcore_mmsc.Mmspdu.Multipart.Decode.{
  decode_part_content_type_value, part_headers_loop, decode_part_headers, read_uintvar_from_reader,
  decode_part, decode_parts, decode_multipart,
}

decode_part_headers_from :
    (block : List ℕ) (value : ContentTypeValue) (r : Reader) (headers : List (List ℕ × List ℕ))
    → decode_part_content_type_value block ≡ ok (value, r)
    → part_headers_loop (length r) r [] ≡ some (ok headers)
    → decode_part_headers block
      ≡ ok (record {
        headers = headers;
        content_type = value.media_type;
        content_type_params = value.params;
        payload = [];
      })
unfolding decode_part_headers
decode_part_headers_from [] value r headers p q = unfold decode_part_content_type_value in cc
decode_part_headers_from (b ∷ bs) value r headers p q = rw p (rw q)

-- The entry that is read back for a key: the sender's, with the brackets of a Content-ID.
abbrev pub entry_back : List ℕ → Option (List ℕ) → Option (List ℕ)
entry_back k none = none
entry_back k (some v) = some (header_value_back k v)

-- The part that the decoder returns for the header block of `p`.
abbrev pub part_back : Part → Part
part_back p =
    let m = normalize_header_map [] p.headers in
    record {
      headers = insert_lines m (TextMap.sort (TextMap.keys m)) [];
      content_type = normal_media_type p.content_type;
      content_type_params = [];
      payload = [];
    }

-- A part without content type parameters, with headers that lines can carry.
pub record IsPlainPart (p : Part) : Type 0 where
  pub no_params : p.content_type_params ≡ []
  pub headers_fit : All IsHeader p.headers

content_type_back :
    (name : List ℕ) (params : List (List ℕ × List ℕ)) (lines : List ℕ)
    → params ≡ []
    → decode_part_content_type_value
        (encode_content_type_value (record { media_type = name; params = params }) ++ lines)
      ≡ ok (record { media_type = normal_media_type name; params = [] }, lines)
content_type_back name params lines none_ = rw none_ (decode_part-encode_content_type name lines)

decode-encode_block :
    (p : Part) → IsPlainPart p → decode_part_headers (encode_part_headers p) ≡ ok (part_back p)
unfolding encode_part_headers
decode-encode_block p plain =
    let m = normalize_header_map [] p.headers in
    let ks = TextMap.sort (TextMap.keys m) in
    let entries = normalize_header_map-IsEntry [] p.headers tt plain.headers_fit in
    decode_part_headers_from _
      (record { media_type = normal_media_type p.content_type; params = [] })
      (encode_part_header_lines m ks) (insert_lines m ks [])
      (content_type_back p.content_type p.content_type_params (encode_part_header_lines m ks)
        plain.no_params)
      (part_headers_loop-lines _ m ks []
        (All-sort _ (TextMap.keys m) (IsEntry-keys m m entries entries)) (omega arith))

lookup-lines :
    (m : List (List ℕ × List ℕ)) (k : List ℕ)
    → TextMap.lookup k (insert_lines m (TextMap.sort (TextMap.keys m)) [])
      ≡ entry_back k (TextMap.lookup k m)
lookup-lines m k =
    lookup-insert_lines m k (TextMap.sort (TextMap.keys m)) []
    ∙ rw (elem-sort k (TextMap.keys m), elem-keys k m) (found (TextMap.lookup k m) refl)
  where
    found :
        (o : Option (List ℕ))
        → TextMap.lookup k m ≡ o
        → (if elim o [ none ↦ false | some v ↦ true ]
            then some (header_value_back k (TextMap.text_at k m))
            else TextMap.lookup k [])
          ≡ entry_back k o
    found none e = unfold TextMap.lookup in refl
    found (some v) e = unfold TextMap.text_at in rw (e, TextMap.text_at)

read_uintvar_found :
    (r : Reader) (value consumed : ℕ)
    → decode_uintvar r ≡ ok (value, consumed)
    → read_uintvar_from_reader r ≡ ok (value, drop consumed r)
read_uintvar_found [] value consumed e = unfold decode_uintvar in cc
read_uintvar_found (b ∷ r) value consumed e = unfold read_uintvar_from_reader in rw e

whole : (k : ℕ) → k < 2 ^ 35 → k % 2 ^ 64 ≡ k
whole k p = omega arith

read_uintvar-encode :
    (n : ℕ) (r : Reader)
    → n < 2 ^ 35
    → read_uintvar_from_reader (encode_uintvar (n % 2 ^ 64) ++ r) ≡ ok (n, r)
read_uintvar-encode n r h = rw (whole n h) (
    read_uintvar_found _ n (length (encode_uintvar n)) (decode-encode_uintvar n r h)
    ∙ ap (λ t. ok (n, t)) (drop-length_append (encode_uintvar n) r))

enough_left : (xs ys : List ℕ) → ltb (length (xs ++ ys)) (length xs) ≡ false
enough_left xs ys = le→not_ltb _ _ (omega (arith, length-append xs ys))

-- A header block and data behind their lengths, whatever follows them.
decode_part-framed :
    (block payload rest : List ℕ) (q : Part)
    → decode_part_headers block ≡ ok q
    → length block < 2 ^ 35
    → length payload < 2 ^ 35
    → decode_part (
        (encode_uintvar (length block % 2 ^ 64)
          ++ (encode_uintvar (length payload % 2 ^ 64) ++ (block ++ payload)))
        ++ rest)
      ≡ ok (record q { payload = payload }, rest)
unfolding decode_part
decode_part-framed block payload rest q e small fits = rw (
  append_assoc (encode_uintvar (length block % 2 ^ 64)) _ rest,
  append_assoc (encode_uintvar (length payload % 2 ^ 64)) _ rest,
  append_assoc block payload rest,
  read_uintvar-encode (length block)
      (encode_uintvar (length payload % 2 ^ 64) ++ (block ++ (payload ++ rest))) small,
  read_uintvar-encode (length payload) (block ++ (payload ++ rest)) fits,
  enough_left block (payload ++ rest),
  read_n-append block (payload ++ rest),
  enough_left payload rest,
  read_n-append payload rest,
  e,
)

-- Each part is plain, and its lengths fit the five bytes that the decoder reads.
pub record IsSendable (p : Part) : Type 0 where
  pub plain : IsPlainPart p
  pub block_fits : length (encode_part_headers p) < 2 ^ 35
  pub payload_fits : length p.payload < 2 ^ 35

abbrev pub parts_back : List Part → List Part
parts_back [] = []
parts_back (p ∷ ps) = record (part_back p) { payload = p.payload } ∷ parts_back ps

decode_parts_step :
    (n : ℕ) (r r' : Reader) (done : List Part) (p : Part)
    → decode_part r ≡ ok (p, r')
    → decode_parts (suc n) r done ≡ decode_parts n r' (done ++ (p ∷ []))
decode_parts_step n r r' done p e = unfold decode_parts in rw (e, decode_parts)

decode_parts-encode :
    (ps done : List Part) (rest : List ℕ)
    → All IsSendable ps
    → decode_parts (length ps) (encode_parts ps ++ rest) done ≡ ok (done ++ parts_back ps)
unfolding encode_parts
decode_parts-encode [] done rest h = unfold decode_parts in rw append-nil
decode_parts-encode (p ∷ ps) done rest h = rw (append_assoc _ (encode_parts ps) rest) (
    decode_parts_step (length ps) _ (encode_parts ps ++ rest) done _ (
      decode_part-framed (encode_part_headers p) p.payload (encode_parts ps ++ rest) (part_back p)
        (decode-encode_block p h.0.plain) h.0.block_fits h.0.payload_fits)
    ∙ decode_parts-encode ps (done ++ (record (part_back p) { payload = p.payload } ∷ [])) rest h.1
    ∙ ap ok (append_assoc done (record (part_back p) { payload = p.payload } ∷ []) (parts_back ps)))

-- Each part takes two bytes at least.
length-encode_parts : (ps : List Part) → 2 * length ps ≤ length (encode_parts ps)
unfolding encode_parts
length-encode_parts [] = omega arith
length-encode_parts (p ∷ ps) =
    let header_len = encode_uintvar (length (encode_part_headers p) % 2 ^ 64) in
    let data_len = encode_uintvar (length p.payload % 2 ^ 64) in
    let content = encode_part_headers p ++ p.payload in
    omega (
      arith,
      length-append (header_len ++ (data_len ++ content)) (encode_parts ps),
      length-append header_len (data_len ++ content),
      length-append data_len content,
      length-encode_uintvar (length (encode_part_headers p) % 2 ^ 64),
      length-encode_uintvar (length p.payload % 2 ^ 64),
      length-encode_parts ps,
    )

decode_multipart_found :
    (bytes : List ℕ) (count consumed : ℕ) (parts : List Part)
    → decode_uintvar bytes ≡ ok (count, consumed)
    → 2 * count ≤ length (drop consumed bytes)
    → decode_parts count (drop consumed bytes) [] ≡ ok parts
    → decode_multipart bytes ≡ ok (record { parts = parts })
unfolding decode_multipart
decode_multipart_found [] count consumed parts e room found = unfold decode_uintvar in cc
decode_multipart_found (b ∷ bs) count consumed parts e room found =
    rw e (rw (le→not_ltb (length (drop consumed (b ∷ bs)) / 2) count (omega arith)) (rw found))

-- What is received of a part: its media type in normal form, its data, and for each key the value
-- under that key in lower case, with angle brackets around that of a Content-ID.
pub record IsReceived (p q : Part) : Type 0 where
  pub media : q.content_type ≡ normal_media_type p.content_type
  pub params : q.content_type_params ≡ []
  pub payload : q.payload ≡ p.payload
  pub headers :
      (k : List ℕ)
      → TextMap.lookup k q.headers
        ≡ entry_back k (TextMap.lookup k (normalize_header_map [] p.headers))

abbrev pub AllReceived : List Part → List Part → Type 0
AllReceived [] [] = Unit {0}
AllReceived [] (q ∷ qs) = ⊥
AllReceived (p ∷ ps) [] = ⊥
AllReceived (p ∷ ps) (q ∷ qs) = IsReceived p q × AllReceived ps qs

parts_back-received : (ps : List Part) → AllReceived ps (parts_back ps)
parts_back-received [] = tt
parts_back-received (p ∷ ps) = (
  record {
    media = refl;
    params = refl;
    payload = refl;
    headers = lookup-lines (normalize_header_map [] p.headers);
  },
  parts_back-received ps,
)

decode_multipart_parts :
    (ps : List Part)
    → All IsSendable ps
    → length ps < 2 ^ 35
    → decode_multipart (encode_multipart (some (record { parts = ps })))
      ≡ ok (record { parts = parts_back ps })
unfolding encode_multipart
decode_multipart_parts ps h few = rw (whole (length ps) few) (
    decode_multipart_found _ (length ps) (length (encode_uintvar (length ps))) (parts_back ps)
      (decode-encode_uintvar (length ps) (encode_parts ps) few)
      (rw (drop-length_append (encode_uintvar (length ps)) (encode_parts ps))
        (length-encode_parts ps))
      (rw (drop-length_append (encode_uintvar (length ps)) (encode_parts ps))
        (rw append-nil at (decode_parts-encode ps [] [] h))))

-- A body of fewer than 2^35 parts without content type parameters, whose headers are texts
-- with keys that are not empty and whose lengths are below 2^35, is decoded to as many parts
-- in their order, each with the same data, no content type parameters, its media type in
-- normal form (in lower case without white space around it, or application/octet-stream where
-- that is no media type), and the value of each header under its key in lower case, that of a
-- Content-ID in angle brackets.
pub decode-encode_multipart :
    (ps : List Part)
    → All IsSendable ps
    → length ps < 2 ^ 35
    → (qs : List Part) × (decode_multipart (encode_multipart (some (record { parts = ps })))
        ≡ ok (record { parts = qs }))
      × AllReceived ps qs
decode-encode_multipart ps h few =
    (parts_back ps, decode_multipart_parts ps h few, parts_back-received ps)
