-- ===== src/Mmspdu/Codec/WithBody.antt =====
-- `Decode` after `Encode` of internal/mmspdu/codec.go, for protocol data units with a body.
use vectorcore_mmsc.Base.{
  ℕ, ◌<◌, ◌^◌, ◌%◌, List, [], ◌∷◌, ◌++◌, length, append_assoc, length-append, All, some, true,
  false, ok, ◌≡◌, refl, ap, ◌∙◌, arith,
}
use vectorcore_mmsc.Base.ByteMap.{lookup, insert, remove, keys, elem}
use vectorcore_mmsc.Base.ByteMap.Laws.{lookup-insert, lookup-remove, elem-keys}
use vectorcore_mmsc.Mmspdu.Types.{FieldKind, kind_for_field, field_content_type}
use vectorcore_mmsc.Mmspdu.Integers.{encode_uintvar}
use vectorcore_mmsc.Mmspdu.Integers.Uintvar.{length-encode_uintvar}
use vectorcore_mmsc.Mmspdu.Values.{HeaderValue}
use vectorcore_mmsc.Mmspdu.Header.{Headers, encode_header_name, decode_header}
use vectorcore_mmsc.Mmspdu.Header.RoundTrip.{IsHeaders, field_bytes, decode_header-field}
use vectorcore_mmsc.Mmspdu.Multipart.{Part, MultipartBody, encode_parts, encode_multipart}
use vectorcore_mmsc.Mmspdu.Multipart.RoundTrip.{IsSendable, AllReceived, decode-encode_multipart}
use vectorcore_mmsc.Mmspdu.Codec.{
  Pdu, encode, decode, full_headers, encode_full, with_content_type, encode_pdu_with_body,
  encode_ordered_headers,
}
use vectorcore_mmsc.Mmspdu.Codec.Sequence.{encode_ordered_headers-Writes}
use vectorcore_mmsc.Mmspdu.Codec.Received.{
  IsPdu, IsReceivedPdu, sent, full_headers-sent, sent-IsHeaders, lookup-sent, received_pdu,
  lookup-written, AllRaw-of_written, remove-IsHeaders,
}
use vectorcore_mmsc.Mmspdu.Codec.RoundTrip.{decode_pdu_sections-body}

first_byte : (xs : List ℕ) → 0 < length xs → (b : ℕ) × (rest : List ℕ) × (xs ≡ b ∷ rest)
first_byte [] h = absurd (omega arith)
first_byte (b ∷ rest) h = (b, rest, refl)

encode_multipart-some :
    (body : MultipartBody) → (b : ℕ) × (rest : List ℕ) × (encode_multipart (some body) ≡ b ∷ rest)
unfolding encode_multipart
encode_multipart-some body = first_byte _ (
    omega (
      arith,
      length-append (encode_uintvar (length body.parts % 2 ^ 64)) (encode_parts body.parts),
      length-encode_uintvar (length body.parts % 2 ^ 64),
    ))

encode_pdu_with_body-written :
    (headers : Headers) (order : List ℕ) (body : MultipartBody) (v : HeaderValue) (prefix : List ℕ)
    → lookup field_content_type headers ≡ some v
    → encode_ordered_headers (remove field_content_type headers) order ≡ ok prefix
    → encode_pdu_with_body headers order body
      ≡ ok (
          prefix
          ++ ((encode_header_name field_content_type ++ v.raw) ++ encode_multipart (some body)))
unfolding encode_pdu_with_body
encode_pdu_with_body-written headers order body v prefix found written =
    rw (found, encode_pdu_with_body)
      (rw (written, append_assoc prefix (encode_header_name field_content_type) v.raw)
        (ap ok (append_assoc prefix (encode_header_name field_content_type ++ v.raw) _)))

encode-body :
    (pdu : Pdu) (headers : Headers) (body : MultipartBody)
    → pdu.body ≡ some body
    → full_headers pdu ≡ ok headers
    → elem field_content_type (keys headers) ≡ true
    → encode (some pdu) ≡ encode_pdu_with_body headers pdu.header_order body
unfolding encode encode_full with_content_type
encode-body pdu headers body has full present = rw (full, has, present)

-- A header that the map holds, before what follows it.
decode_header-held :
    (headers : Headers) (k : ℕ) (v : HeaderValue) (rest : List ℕ)
    → IsHeaders headers
    → lookup k headers ≡ some v
    → decode_header ((encode_header_name k ++ v.raw) ++ rest) ≡ ok (k, v, rest)
decode_header-held headers k v rest formed found =
    let (low, field, kind, raw) = formed.at_field k v found in
    decode_header-field k v.raw rest low raw
    ∙ ap (λ w. ok (k, w, rest)) (eta v k (kind_for_field k) field kind)
  where
    eta :
        (w : HeaderValue) (f : ℕ) (d : FieldKind)
        → w.field ≡ f
        → w.kind ≡ d
        → record { field = f; kind = d; raw = w.raw } ≡ w
    eta w f d p q = rw (← p, ← q)

-- The Content-Type in the map of the fields, and the rest of the map.
lookup-put_back :
    (headers rest : Headers) (v : HeaderValue)
    → lookup field_content_type headers ≡ some v
    → ((k : ℕ) → lookup k rest ≡ lookup k (remove field_content_type headers))
    → (k : ℕ) → lookup k (insert field_content_type v rest) ≡ lookup k headers
lookup-put_back headers rest v found same k = ground (
  arith,
  lookup-insert field_content_type k v rest,
  lookup-remove field_content_type k headers,
  same k,
)

-- A unit with a Content-Type and a body of fewer than 2^35 sendable parts (no content type
-- parameters, headers that are texts with keys that are not empty, lengths below 2^35), whose
-- message type is not zero, whose transaction id is a text and not empty, whose version is one
-- of 1.0 to 1.3, and whose headers have bytes of their kinds, is encoded, whatever order of
-- headers it asks for; and what is decoded of the bytes has the same message type, transaction
-- id and version, the same value of every other header, none that was not there, and a body of
-- as many parts in their order, each with the same data, no content type parameters, its media
-- type in normal form (in lower case without white space around it, or
-- application/octet-stream where that is no media type), and the value of each header under
-- its key in lower case, that of a Content-ID in angle brackets.
pub decode-encode_with_body :
    (pdu : Pdu) (parts : List Part) (v : HeaderValue)
    → IsPdu pdu
    → pdu.body ≡ some (record { parts = parts })
    → lookup field_content_type pdu.headers ≡ some v
    → All IsSendable parts
    → length parts < 2 ^ 35
    → (bytes : List ℕ) × (q : Pdu) × (received : List Part) × (encode (some pdu) ≡ ok bytes)
      × (decode bytes ≡ ok q)
      × IsReceivedPdu pdu q
      × (q.body ≡ some (record { parts = received }))
      × AllReceived parts received
decode-encode_with_body pdu parts v h has typed sendable few =
    let formed = sent-IsHeaders pdu h in
    let others = remove field_content_type (sent pdu) in
    let others_formed = remove-IsHeaders field_content_type (sent pdu) formed in
    let found : lookup field_content_type (sent pdu) ≡ some v =
      lookup-sent pdu field_content_type ∙ typed in
    let present : elem field_content_type (keys (sent pdu)) ≡ true =
      elem-keys field_content_type (sent pdu) ∙ rw found in
    let (fs, written, all) = encode_ordered_headers-Writes others pdu.header_order others_formed in
    let raw = AllRaw-of_written others others_formed fs all in
    let away : elem field_content_type fs ≡ false = ground (
      arith,
      all field_content_type,
      elem-keys field_content_type others,
      lookup-remove field_content_type field_content_type (sent pdu),
    ) in
    let (parts', read, arrived) = decode-encode_multipart parts sendable few in
    let (b, rest, shape) = encode_multipart-some (record { parts = parts }) in
    let tail =
      (encode_header_name field_content_type ++ v.raw)
      ++ encode_multipart (some (record { parts = parts })) in
    let front : decode_header tail ≡ ok (field_content_type, v, b ∷ rest) =
      decode_header-held (sent pdu) field_content_type v _ formed found
      ∙ ap (λ t. ok (field_content_type, v, t)) shape in
    let (q, received, same, body) =
      received_pdu pdu h (field_bytes others fs ++ tail) _
        (decode_pdu_sections-body others fs v tail b rest _ raw away front (rw shape at read))
        (lookup-put_back (sent pdu) _ v found (lookup-written others others_formed fs all)) in
    (
      field_bytes others fs ++ tail,
      q,
      parts',
      encode-body pdu (sent pdu) _ has (full_headers-sent pdu h) present
          ∙ encode_pdu_with_body-written (sent pdu) pdu.header_order _ v _ found written,
      received,
      same,
      body,
      arrived,
    )
