-- ===== src/Mmspdu/Codec/RoundTrip.antt =====
-- `Decode` after `Encode` of internal/mmspdu/codec.go, for protocol data units without a body.
use vectorcore_mmsc.Base.{
  ℕ, zero, suc, ◌≤◌, List, [], ◌∷◌, ◌++◌, length, append-nil, none, some, false, ok, ◌≡◌, ap, sym,
  ◌∙◌, arith,
}
use vectorcore_mmsc.Base.ByteMap.{lookup, insert, elem}
use vectorcore_mmsc.Base.ByteMap.Laws.{elem-keys}
use vectorcore_mmsc.Mmspdu.Types.{field_content_type}
use vectorcore_mmsc.Mmspdu.Reader.{Reader}
use vectorcore_mmsc.Mmspdu.Values.{HeaderValue}
use vectorcore_mmsc.Mmspdu.Header.{Headers, decode_header, settle}
use vectorcore_mmsc.Mmspdu.Header.RoundTrip.{
  AllRaw, field_bytes, insert_fields, length-decode_header,
}
use vectorcore_mmsc.Mmspdu.Multipart.{MultipartBody}
use vectorcore_mmsc.Mmspdu.Multipart.Decode.{decode_multipart}
use vectorcore_mmsc.Mmspdu.Codec.{
  Pdu, encode, decode, full_headers, encode_full, sections_loop, decode_pdu_sections,
}
use vectorcore_mmsc.Mmspdu.Codec.Sequence.{encode_ordered_headers-Writes}
use vectorcore_mmsc.Mmspdu.Codec.Ends.{sections_loop-bytes}
use vectorcore_mmsc.Mmspdu.Codec.Received.{
  IsPdu, IsReceivedPdu, sent, full_headers-sent, sent-IsHeaders, lookup-sent, received_pdu,
  lookup-written, AllRaw-of_written,
}

decode_pdu_sections-fields :
    (headers : Headers) (fs : List ℕ)
    → AllRaw headers fs
    → elem field_content_type fs ≡ false
    → decode_pdu_sections (field_bytes headers fs)
      ≡ ok (record { headers = insert_fields headers fs []; order = fs; body = none })
unfolding decode_pdu_sections sections_loop
decode_pdu_sections-fields headers fs raw away =
    let bytes = field_bytes headers fs in
    let (left, enough, loop) =
      sections_loop-bytes (length bytes) headers fs [] [] [] raw away
        (rw (append-nil bytes) (omega arith)) in
    ap settle (ap (λ t. sections_loop (length bytes) t [] []) (sym (append-nil bytes)) ∙ loop)

sections_loop-body :
    (left : ℕ) (r : Reader) (headers : Headers) (order : List ℕ) (v : HeaderValue) (b : ℕ)
    (rest : List ℕ) (body : MultipartBody)
    → decode_header r ≡ ok (field_content_type, v, b ∷ rest)
    → decode_multipart (b ∷ rest) ≡ ok body
    → length r ≤ left
    → sections_loop left r headers order
      ≡ some (
          ok (record {
            headers = insert field_content_type v headers;
            order = order ++ (field_content_type ∷ []);
            body = some body;
          }))
sections_loop-body left [] headers order v b rest body p q low =
    absurd (omega (arith, length-decode_header [] field_content_type v (b ∷ rest) p))
sections_loop-body zero (c ∷ r) headers order v b rest body p q low = absurd (omega arith)
sections_loop-body (suc left) (c ∷ r) headers order v b rest body p q low =
    unfold sections_loop in rw (p, sections_loop) (rw q)

-- The fields, then the Content-Type, then the bytes of a body.
pub decode_pdu_sections-body :
    (headers : Headers) (fs : List ℕ) (v : HeaderValue) (tail : List ℕ) (b : ℕ) (rest : List ℕ)
    (body : MultipartBody)
    → AllRaw headers fs
    → elem field_content_type fs ≡ false
    → decode_header tail ≡ ok (field_content_type, v, b ∷ rest)
    → decode_multipart (b ∷ rest) ≡ ok body
    → decode_pdu_sections (field_bytes headers fs ++ tail)
      ≡ ok (record {
        headers = insert field_content_type v (insert_fields headers fs []);
        order = fs ++ (field_content_type ∷ []);
        body = some body;
      })
unfolding decode_pdu_sections
decode_pdu_sections-body headers fs v tail b rest body raw away front read =
    let (left, enough, loop) =
      sections_loop-bytes (length (field_bytes headers fs ++ tail)) headers fs tail [] [] raw away
        (omega arith) in
    ap settle (loop ∙ sections_loop-body left tail _ _ v b rest body front read enough)

encode-no_body :
    (pdu : Pdu) (headers : Headers)
    → pdu.body ≡ none
    → full_headers pdu ≡ ok headers
    → encode (some pdu) ≡ encode_full headers pdu.header_order none
unfolding encode
encode-no_body pdu headers bodiless full = rw (full, bodiless)

-- A unit without a body and without a Content-Type, whose message type is not zero, whose
-- transaction id is a text and not empty, whose version is one of 1.0 to 1.3, and whose
-- headers have bytes of their kinds, is encoded, whatever order of headers it asks for; and
-- what is decoded of the bytes has the same message type, transaction id and version, the same
-- value of every other header, none that was not there, and no body.
pub decode-encode :
    (pdu : Pdu)
    → IsPdu pdu
    → pdu.body ≡ none
    → lookup field_content_type pdu.headers ≡ none
    → (bytes : List ℕ) × (q : Pdu) × (encode (some pdu) ≡ ok bytes)
      × (decode bytes ≡ ok q)
      × IsReceivedPdu pdu q
      × (q.body ≡ none)
unfolding encode_full
decode-encode pdu h bodiless untyped =
    let formed = sent-IsHeaders pdu h in
    let (fs, written, all) = encode_ordered_headers-Writes (sent pdu) pdu.header_order formed in
    let away : elem field_content_type fs ≡ false = ground (
      arith,
      all field_content_type,
      elem-keys field_content_type (sent pdu),
      lookup-sent pdu field_content_type,
    ) in
    let (q, received, same, body) =
      received_pdu pdu h (field_bytes (sent pdu) fs) _
        (decode_pdu_sections-fields (sent pdu) fs (AllRaw-of_written (sent pdu) formed fs all) away)
        (lookup-written (sent pdu) formed fs all) in
    (
      field_bytes (sent pdu) fs,
      q,
      encode-no_body pdu (sent pdu) bodiless (full_headers-sent pdu h) ∙ written,
      received,
      same,
      body,
    )
