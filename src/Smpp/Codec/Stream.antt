-- ===== src/Smpp/Codec/Stream.antt =====
-- internal/smpp/codec.go: what `Decode` reads of a stream that starts with what `Encode` wrote.
use vectorcore_mmsc.Base.{
  ℕ, ◌+◌, ◌-◌, ◌%◌, ◌^◌, ◌<◌, ◌≤◌, List, [], ◌++◌, length, append_assoc, length-append, some, false,
  ltb, unsupported_command, ok, err, ◌≡◌, ◌≢◌, refl, ◌∙◌, arith,
}
use vectorcore_mmsc.Mmspdu.Integers.{be_bytes, from_be}
use vectorcore_mmsc.Mmspdu.Integers.RoundTrip.{from_be-be_bytes}
use vectorcore_mmsc.Smpp.Pdu.{
  BodyKind, bind, bind_resp, message, message_resp, no_body, unsupported, body_kind, Pdu,
  with_header,
}
use vectorcore_mmsc.Smpp.Codec.{
  header_len, max_command_length, write_c_string, encode_bind, encode_message, encode_body_as,
  encode_body, encode_header, encode, decode_body, decode_header, decode,
}
use vectorcore_mmsc.Smpp.Codec.RoundTrip.{HasCStrings, decode-encode_as, read_full-append, received}

be_bytes_back : (v : ℕ) → v < 2 ^ 32 → from_be 0 (be_bytes 4 v) ≡ v
be_bytes_back v h = from_be-be_bytes 4 v (omega arith)

decode_header-encode :
    (pdu : Pdu)
    → pdu.command_length < 2 ^ 32
    → pdu.command_id < 2 ^ 32
    → pdu.command_status < 2 ^ 32
    → pdu.sequence_number < 2 ^ 32
    → decode_header (encode_header pdu)
      ≡ with_header pdu.command_length pdu.command_id pdu.command_status pdu.sequence_number
unfolding decode_header encode_header be_bytes
decode_header-encode pdu a b c d = rw (
  be_bytes_back pdu.command_length a,
  be_bytes_back pdu.command_id b,
  be_bytes_back pdu.command_status c,
  be_bytes_back pdu.sequence_number d,
)

length-encode_header : (pdu : Pdu) → length (encode_header pdu) ≡ 16
unfolding encode_header be_bytes
length-encode_header pdu = refl

-- What the encoder makes of a unit whose body is not too long.
encode-body_fits :
    (pdu : Pdu) (body : List ℕ) (left : Pdu)
    → encode_body pdu ≡ ok (body, left)
    → length body ≤ 16777200
    → encode (some pdu)
      ≡ ok (
        encode_header (record left { command_length = 16 + length body }) ++ body,
        record left { command_length = 16 + length body },
      )
unfolding encode
encode-body_fits pdu body left e fits =
    let small : ltb (max_command_length - header_len) (length body) ≡ false = ground arith in
    rw (e, small)

decode-stream :
    (header body rest : List ℕ) (unit : Pdu) (base : Pdu)
    → length header ≡ 16
    → decode_header header ≡ base
    → base.command_length ≡ 16 + length body
    → length body ≤ 16777200
    → decode_body base body ≡ ok unit
    → decode ((header ++ body) ++ rest) ≡ ok (unit, rest)
unfolding decode
decode-stream header body rest unit base sixteen head len fits read =
    let least : ltb base.command_length header_len ≡ false = ground (arith, len) in
    let most : ltb max_command_length base.command_length ≡ false = ground (arith, len) in
    rw (
      append_assoc header body rest,
      read_full-append 16 header (body ++ rest) sixteen,
      head,
      least,
      most,
      read_full-append (base.command_length - header_len) body rest (omega (arith, len)),
      read,
    )

-- A unit whose texts have no null byte, whose body is encoded in at most 16777200 bytes, and
-- whose command, status and sequence number have 32 bits, is encoded in 16 bytes and the body;
-- and decoding a stream that starts with them returns a unit with the same three numbers, the
-- length, and the fields that the body of the command carries, of a short message as many
-- bytes as the low eight bits of its length say, and leaves the rest of the stream.
pub decode-encode_pdu :
    (pdu : Pdu) (body : List ℕ) (left : Pdu) (rest : List ℕ)
    → HasCStrings pdu
    → encode_body pdu ≡ ok (body, left)
    → length body ≤ 16777200
    → pdu.command_id < 2 ^ 32
    → pdu.command_status < 2 ^ 32
    → pdu.sequence_number < 2 ^ 32
    → (bytes : List ℕ) × (sent : Pdu) × (encode (some pdu) ≡ ok (bytes, sent))
      × (length bytes ≡ 16 + length body)
      × (decode (bytes ++ rest)
          ≡ ok (
            received
                (body_kind pdu.command_id)
                (with_header
                  (16 + length body)
                  pdu.command_id
                  pdu.command_status
                  pdu.sequence_number)
                pdu,
            rest,
          ))
unfolding encode_body
decode-encode_pdu pdu body left rest h e fits id status sequence =
    let sent = record left { command_length = 16 + length body } in
    let base =
      with_header (16 + length body) pdu.command_id pdu.command_status pdu.sequence_number in
    let (read, same) = decode-encode_as (body_kind pdu.command_id) base pdu body left h e in
    (
      encode_header sent ++ body,
      sent,
      encode-body_fits pdu body left e fits,
      omega (arith, length-append (encode_header sent) body, length-encode_header sent),
      decode-stream (encode_header sent) body rest _ base (length-encode_header sent)
          (decode_header-encode sent (omega arith) (omega (arith, same.0)) (omega (arith, same.1))
              (omega (arith, same.2))
            ∙ rw (same.0, same.1, same.2))
          (unfold with_header in refl) fits (unfold decode_body with_header in read),
    )

encode_body_as-some :
    (k : BodyKind) (p : Pdu)
    → k ≢ unsupported
    → (body : List ℕ) × (left : Pdu) × (encode_body_as k p ≡ ok (body, left))
unfolding encode_body_as
encode_body_as-some bind p known = (encode_bind p, p, refl)
encode_body_as-some bind_resp p known = (write_c_string p.system_id, p, refl)
encode_body_as-some message p known =
    (encode_message p, record p { sm_length = length p.short_message % 256 }, refl)
encode_body_as-some message_resp p known = (write_c_string p.message_id, p, refl)
encode_body_as-some no_body p known = ([], p, refl)
encode_body_as-some unsupported p known = absurd (known refl)

-- Every unit whose command is supported has an encoded body, and a unit of an unsupported
-- command is refused.
pub encode_body-supported :
    (pdu : Pdu)
    → (body_kind pdu.command_id ≢ unsupported
        → (body : List ℕ) × (left : Pdu) × (encode_body pdu ≡ ok (body, left)))
      × (body_kind pdu.command_id ≡ unsupported → encode (some pdu) ≡ err unsupported_command)
unfolding encode encode_body encode_body_as
encode_body-supported pdu = (
  λ some_kind. encode_body_as-some (body_kind pdu.command_id) pdu some_kind,
  λ none_kind. rw none_kind,
)
