-- ===== src/Smpp/Runs.antt =====
-- Concrete units for the laws of internal/smpp.
use vectorcore_mmsc.Base.{ℕ, ◌+◌, List, [], ◌∷◌, ◌++◌, length, some, ok, ◌≡◌, refl, arith}
use vectorcore_mmsc.Smpp.Pdu.{body_kind, Pdu, with_header}
use vectorcore_mmsc.Smpp.Codec.{
  encode, decode, encode_body, encode_body_as, encode_message, write_c_string,
}
use vectorcore_mmsc.Smpp.Codec.RoundTrip.{HasCStrings, received}
use vectorcore_mmsc.Smpp.Codec.Stream.{decode-encode_pdu}

abbrev submit : Pdu
unfolding with_header
submit = record (with_header 0 4 0 7) {
  source_addr = 49 ∷ [];
  destination_addr = 50 ∷ [];
  esm_class = 0x40;
  short_message = 1 ∷ 2 ∷ 3 ∷ [];
}

submit-HasCStrings : HasCStrings submit
unfolding submit
submit-HasCStrings = record {
  system_id = tt;
  password = tt;
  system_type = tt;
  address_range = tt;
  service_type = tt;
  source_addr = ((λ e. omega arith), tt);
  destination_addr = ((λ e. omega arith), tt);
  schedule_delivery_time = tt;
  validity_period = tt;
  message_id = tt;
}

decode-encode_pdu_example :
    (bytes : List ℕ) × (sent : Pdu) × (encode (some submit) ≡ ok (bytes, sent))
    × (length bytes ≡ 16 + length (encode_message submit))
    × (decode (bytes ++ (9 ∷ []))
        ≡ ok (
          received
              (body_kind submit.command_id)
              (with_header
                (16 + length (encode_message submit))
                submit.command_id
                submit.command_status
                submit.sequence_number)
              submit,
          9 ∷ [],
        ))
unfolding encode_body encode_body_as encode_message write_c_string body_kind submit
decode-encode_pdu_example =
    decode-encode_pdu submit (encode_message submit) (record submit { sm_length = 3 }) (9 ∷ [])
      submit-HasCStrings refl (omega arith) (omega arith) (omega arith) (omega arith)
