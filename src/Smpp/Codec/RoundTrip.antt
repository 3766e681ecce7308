-- ===== src/Smpp/Codec/RoundTrip.antt =====
-- The bodies of internal/smpp/codec.go: what `decodeBody` reads of what `encodeBody` wrote.
use vectorcore_mmsc.Base.{
  ℕ, ◌%◌, ◌≤◌, List, [], ◌∷◌, ◌++◌, length, take, drop, All, append-nil, length-append,
  take-length_append, drop-length_append, le→leb, Result, ok, ◌≡◌, ◌≢◌, refl, ap, ◌∙◌, sym, arith,
}
use vectorcore_mmsc.Smpp.Pdu.{
  BodyKind, bind, bind_resp, message, message_resp, no_body, unsupported, Pdu,
}
use vectorcore_mmsc.Smpp.Codec.{
  read_full, read_byte, write_c_string, read_c_string, encode_bind, encode_message, encode_body_as,
  decode_bind, decode_message, read_message_id, decode_body_as,
}

-- A text without the null byte that ends it.
abbrev pub IsCString : List ℕ → Type 0
IsCString s = All (λ c. c ≢ 0) s

pub read_c_string-write :
    (s rest : List ℕ) → IsCString s → read_c_string (write_c_string s ++ rest) ≡ ok (s, rest)
unfolding read_c_string write_c_string
read_c_string-write [] rest h = refl
read_c_string-write (c ∷ s) rest h = ground (arith, read_c_string-write s rest h.1)

pub read_full-append :
    (n : ℕ) (xs rest : List ℕ) → length xs ≡ n → read_full n (xs ++ rest) ≡ ok (xs, rest)
unfolding read_full
read_full-append n xs rest len =
    rw (← len) (
      ground (arith, length-append xs rest, take-length_append xs rest, drop-length_append xs rest))

-- Each text field is a C string.
pub record HasCStrings (pdu : Pdu) : Type 0 where
  pub system_id : IsCString pdu.system_id
  pub password : IsCString pdu.password
  pub system_type : IsCString pdu.system_type
  pub address_range : IsCString pdu.address_range
  pub service_type : IsCString pdu.service_type
  pub source_addr : IsCString pdu.source_addr
  pub destination_addr : IsCString pdu.destination_addr
  pub schedule_delivery_time : IsCString pdu.schedule_delivery_time
  pub validity_period : IsCString pdu.validity_period
  pub message_id : IsCString pdu.message_id

-- The record `base` with the fields of a bind, or of a message, that `pdu` has.
abbrev pub bind_received : Pdu → Pdu → Pdu
bind_received base pdu = record base {
  system_id = pdu.system_id;
  password = pdu.password;
  system_type = pdu.system_type;
  interface_version = pdu.interface_version;
  addr_ton = pdu.addr_ton;
  addr_npi = pdu.addr_npi;
  address_range = pdu.address_range;
}

abbrev pub message_received : Pdu → Pdu → Pdu
message_received base pdu = record base {
  service_type = pdu.service_type;
  source_addr_ton = pdu.source_addr_ton;
  source_addr_npi = pdu.source_addr_npi;
  source_addr = pdu.source_addr;
  dest_addr_ton = pdu.dest_addr_ton;
  dest_addr_npi = pdu.dest_addr_npi;
  destination_addr = pdu.destination_addr;
  esm_class = pdu.esm_class;
  protocol_id = pdu.protocol_id;
  priority_flag = pdu.priority_flag;
  schedule_delivery_time = pdu.schedule_delivery_time;
  validity_period = pdu.validity_period;
  registered_delivery = pdu.registered_delivery;
  replace_if_present_flag = pdu.replace_if_present_flag;
  data_coding = pdu.data_coding;
  sm_default_msg_id = pdu.sm_default_msg_id;
  sm_length = length pdu.short_message % 256;
  short_message = take (length pdu.short_message % 256) pdu.short_message;
}

decode-encode_bind :
    (base pdu : Pdu)
    → HasCStrings pdu
    → decode_bind base (encode_bind pdu) ≡ ok (bind_received base pdu)
unfolding decode_bind encode_bind read_byte
decode-encode_bind base pdu h =
    rw
      (
        read_c_string-write pdu.system_id _ h.system_id,
        read_c_string-write pdu.password _ h.password,
        read_c_string-write pdu.system_type _ h.system_type,
      )
      (rw (← append-nil (write_c_string pdu.address_range))
        (rw (read_c_string-write pdu.address_range [] h.address_range)))

read_full-taken : (n : ℕ) (xs : List ℕ) → n ≤ length xs → read_full n xs ≡ ok (take n xs, drop n xs)
unfolding read_full
read_full-taken n xs h = ground (arith, le→leb n (length xs) h)

-- Of a message of 256 bytes or more the length is written without its high bits.
decode-encode_message :
    (base pdu : Pdu)
    → HasCStrings pdu
    → decode_message base (encode_message pdu) ≡ ok (message_received base pdu)
unfolding decode_message encode_message read_byte
decode-encode_message base pdu h = rw (
  read_c_string-write pdu.service_type _ h.service_type,
  read_c_string-write pdu.source_addr _ h.source_addr,
  read_c_string-write pdu.destination_addr _ h.destination_addr,
  read_c_string-write pdu.schedule_delivery_time _ h.schedule_delivery_time,
  read_c_string-write pdu.validity_period _ h.validity_period,
  read_full-taken (length pdu.short_message % 256) pdu.short_message (omega arith),
)

-- The record `base` with those fields of `pdu` that the body of its command carries.
abbrev pub received : BodyKind → Pdu → Pdu → Pdu
received bind base pdu = bind_received base pdu
received bind_resp base pdu = record base { system_id = pdu.system_id }
received message base pdu = message_received base pdu
received message_resp base pdu = record base { message_id = pdu.message_id }
received no_body base pdu = base
received unsupported base pdu = base

read_c_string-alone : (s : List ℕ) → IsCString s → read_c_string (write_c_string s) ≡ ok (s, [])
read_c_string-alone s h =
    ap read_c_string (sym (append-nil (write_c_string s))) ∙ read_c_string-write s [] h

-- The encoder leaves the three numbers of the header that it does not compute.
abbrev pub SameHeader : Pdu → Pdu → Type 0
SameHeader sent pdu =
    (sent.command_id ≡ pdu.command_id)
    × (sent.command_status ≡ pdu.command_status)
    × (sent.sequence_number ≡ pdu.sequence_number)

ok_pair :
    (a c : List ℕ) (b d : Pdu)
    → ◌≡◌ {A = Result (List ℕ × Pdu)} (ok (a, b)) (ok (c, d))
    → (a ≡ c) × (b ≡ d)
ok_pair a c b d e = (cc, cc)

pub decode-encode_as :
    (k : BodyKind) (base pdu : Pdu) (body : List ℕ) (left : Pdu)
    → HasCStrings pdu
    → encode_body_as k pdu ≡ ok (body, left)
    → (decode_body_as k base body ≡ ok (received k base pdu)) × SameHeader left pdu
unfolding encode_body_as decode_body_as read_message_id
decode-encode_as bind base pdu body left h e =
    let (p, q) = ok_pair (encode_bind pdu) body pdu left e in
    (rw (← p) (decode-encode_bind base pdu h), rw (← q) (refl, refl, refl))
decode-encode_as bind_resp base pdu body left h e =
    let (p, q) = ok_pair (write_c_string pdu.system_id) body pdu left e in
    (rw (← p) (rw (read_c_string-alone pdu.system_id h.system_id)), rw (← q) (refl, refl, refl))
decode-encode_as message base pdu body left h e =
    let (p, q) = ok_pair (encode_message pdu) body _ left e in
    (rw (← p) (decode-encode_message base pdu h), rw (← q) (refl, refl, refl))
decode-encode_as message_resp base pdu body left h e =
    let (p, q) = ok_pair (write_c_string pdu.message_id) body pdu left e in
    (
      rw (← p) (rw (read_c_string-alone pdu.message_id h.message_id, read_message_id)),
      rw (← q) (refl, refl, refl),
    )
decode-encode_as no_body base pdu body left h e =
    let (p, q) = ok_pair [] body pdu left e in (refl, rw (← q) (refl, refl, refl))
decode-encode_as unsupported base pdu body left h e = absurd (cc)
