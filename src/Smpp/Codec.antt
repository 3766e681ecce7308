-- ===== src/Smpp/Codec.antt =====
-- internal/smpp/codec.go: protocol data units written to bytes and read from a stream.
pub mod RoundTrip
pub mod Stream
use vectorcore_mmsc.Base.{
  ℕ, zero, suc, ◌+◌, ◌-◌, ◌%◌, ◌^◌, List, [], ◌∷◌, ◌++◌, length, take, drop, is_empty, Option, none,
  some, Bool, true, false, ltb, leb, ◌==◌, if◌then◌else◌, Result, ok, err, ◌>>=◌, nil_pdu, eof,
  unexpected_eof, bad_command_length, unsupported_command, body_too_large,
}
use vectorcore_mmsc.Mmspdu.Integers.{be_bytes, from_be}
use vectorcore_mmsc.Smpp.Pdu.{
  BodyKind, bind, bind_resp, message, message_resp, no_body, unsupported, body_kind, Pdu,
  with_header,
}

abbrev pub header_len : ℕ
header_len = 16

abbrev pub max_command_length : ℕ
max_command_length = 16777216

-- io.ReadFull on a stream that holds these bytes and then ends.
unfoldable pub read_full : ℕ → List ℕ → Result (List ℕ × List ℕ)
read_full n r =
    if leb n (length r)
    then ok (take n r, drop n r)
    else if is_empty r
    then err eof
    else err unexpected_eof

-- bytes.Reader.ReadByte
unfoldable pub read_byte : List ℕ → Result (ℕ × List ℕ)
read_byte [] = err eof
read_byte (b ∷ r) = ok (b, r)

unfoldable pub write_c_string : List ℕ → List ℕ
write_c_string s = s ++ (0 ∷ [])

unfoldable pub read_c_string : List ℕ → Result (List ℕ × List ℕ)
read_c_string [] = err eof
read_c_string (b ∷ r) =
    let rest = read_c_string r in if b == 0 then ok ([], r) else do (s, r') ← rest; ok (b ∷ s, r')

unfoldable pub encode_bind : Pdu → List ℕ
encode_bind pdu =
    write_c_string pdu.system_id
    ++ (write_c_string pdu.password
        ++ (write_c_string pdu.system_type
            ++ (pdu.interface_version
                ∷ pdu.addr_ton
                ∷ pdu.addr_npi
                ∷ write_c_string pdu.address_range)))

unfoldable pub encode_message : Pdu → List ℕ
encode_message pdu =
    write_c_string pdu.service_type
    ++ (pdu.source_addr_ton
        ∷ pdu.source_addr_npi
        ∷ (write_c_string pdu.source_addr
            ++ (pdu.dest_addr_ton
                ∷ pdu.dest_addr_npi
                ∷ (write_c_string pdu.destination_addr
                    ++ (pdu.esm_class
                        ∷ pdu.protocol_id
                        ∷ pdu.priority_flag
                        ∷ (write_c_string pdu.schedule_delivery_time
                            ++ (write_c_string pdu.validity_period
                                ++ (pdu.registered_delivery
                                    ∷ pdu.replace_if_present_flag
                                    ∷ pdu.data_coding
                                    ∷ pdu.sm_default_msg_id
                                    ∷ (length pdu.short_message % 256)
                                    ∷ pdu.short_message))))))))

-- The bytes, and the record as the encoder leaves it: a message has its length set.
unfoldable pub encode_body_as : BodyKind → Pdu → Result (List ℕ × Pdu)
encode_body_as bind pdu = ok (encode_bind pdu, pdu)
encode_body_as bind_resp pdu = ok (write_c_string pdu.system_id, pdu)
encode_body_as message pdu =
    ok (encode_message pdu, record pdu { sm_length = length pdu.short_message % 256 })
encode_body_as message_resp pdu = ok (write_c_string pdu.message_id, pdu)
encode_body_as no_body pdu = ok ([], pdu)
encode_body_as unsupported pdu = err unsupported_command

unfoldable pub encode_body : Pdu → Result (List ℕ × Pdu)
encode_body pdu = encode_body_as (body_kind pdu.command_id) pdu

unfoldable pub encode_header : Pdu → List ℕ
unfolding be_bytes
encode_header pdu =
    be_bytes 4 pdu.command_length
    ++ (be_bytes 4 pdu.command_id
        ++ (be_bytes 4 pdu.command_status ++ be_bytes 4 pdu.sequence_number))

-- The function `Encode`; nil is `none`. The record gets its command length.
unfoldable pub encode : Option Pdu → Result (List ℕ × Pdu)
encode none = err nil_pdu
encode (some pdu) = do
  (body, pdu') ← encode_body pdu
  if ltb (max_command_length - header_len) (length body)
      then err body_too_large
      else (let sent = record pdu' { command_length = header_len + length body } in
          ok (encode_header sent ++ body, sent))

unfoldable pub decode_bind : Pdu → List ℕ → Result Pdu
decode_bind pdu r = do
  (system_id, r1) ← read_c_string r
  (password, r2) ← read_c_string r1
  (system_type, r3) ← read_c_string r2
  (interface_version, r4) ← read_byte r3
  (addr_ton, r5) ← read_byte r4
  (addr_npi, r6) ← read_byte r5
  (address_range, r7) ← read_c_string r6
  ok (record pdu {
    system_id = system_id;
    password = password;
    system_type = system_type;
    interface_version = interface_version;
    addr_ton = addr_ton;
    addr_npi = addr_npi;
    address_range = address_range;
  })

unfoldable pub decode_message : Pdu → List ℕ → Result Pdu
decode_message pdu r = do
  (service_type, r1) ← read_c_string r
  (source_addr_ton, r2) ← read_byte r1
  (source_addr_npi, r3) ← read_byte r2
  (source_addr, r4) ← read_c_string r3
  (dest_addr_ton, r5) ← read_byte r4
  (dest_addr_npi, r6) ← read_byte r5
  (destination_addr, r7) ← read_c_string r6
  (esm_class, r8) ← read_byte r7
  (protocol_id, r9) ← read_byte r8
  (priority_flag, r10) ← read_byte r9
  (schedule_delivery_time, r11) ← read_c_string r10
  (validity_period, r12) ← read_c_string r11
  (registered_delivery, r13) ← read_byte r12
  (replace_if_present_flag, r14) ← read_byte r13
  (data_coding, r15) ← read_byte r14
  (sm_default_msg_id, r16) ← read_byte r15
  (sm_length, r17) ← read_byte r16
  (short_message, r18) ← read_full sm_length r17
  ok (record pdu {
    service_type = service_type;
    source_addr_ton = source_addr_ton;
    source_addr_npi = source_addr_npi;
    source_addr = source_addr;
    dest_addr_ton = dest_addr_ton;
    dest_addr_npi = dest_addr_npi;
    destination_addr = destination_addr;
    esm_class = esm_class;
    protocol_id = protocol_id;
    priority_flag = priority_flag;
    schedule_delivery_time = schedule_delivery_time;
    validity_period = validity_period;
    registered_delivery = registered_delivery;
    replace_if_present_flag = replace_if_present_flag;
    data_coding = data_coding;
    sm_default_msg_id = sm_default_msg_id;
    sm_length = sm_length;
    short_message = short_message;
  })

-- A message id that the stream ends before is empty.
unfoldable pub read_message_id : List ℕ → List ℕ
read_message_id r = elim (read_c_string r) [ ok (s, r') ↦ s | err e ↦ [] ]

unfoldable pub decode_body_as : BodyKind → Pdu → List ℕ → Result Pdu
decode_body_as bind pdu r = decode_bind pdu r
decode_body_as bind_resp pdu r = do
  (system_id, r1) ← read_c_string r
  ok (record pdu { system_id = system_id })
decode_body_as message pdu r = decode_message pdu r
decode_body_as message_resp pdu r = ok (record pdu { message_id = read_message_id r })
decode_body_as no_body pdu r = ok pdu
decode_body_as unsupported pdu r = err unsupported_command

unfoldable pub decode_body : Pdu → List ℕ → Result Pdu
decode_body pdu r = decode_body_as (body_kind pdu.command_id) pdu r

-- The header's four numbers.
unfoldable pub decode_header : List ℕ → Pdu
unfolding from_be
decode_header header =
    with_header (from_be 0 (take 4 header)) (from_be 0 (take 4 (drop 4 header)))
      (from_be 0 (take 4 (drop 8 header))) (from_be 0 (take 4 (drop 12 header)))

-- The function `Decode`: the unit, and what is left of the stream.
unfoldable pub decode : List ℕ → Result (Pdu × List ℕ)
decode r = do
  (header, r') ← read_full header_len r
  (body, r'') ←
      (if ltb (decode_header header).command_length header_len
        then err bad_command_length
        else if ltb max_command_length (decode_header header).command_length
        then err bad_command_length
        else read_full ((decode_header header).command_length - header_len) r')
  pdu ← decode_body (decode_header header) body
  ok (pdu, r'')
