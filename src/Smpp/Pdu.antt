-- ===== src/Smpp/Pdu.antt =====
-- internal/smpp/pdu.go: commands, and the record of a protocol data unit.
use vectorcore_mmsc.Base.{ℕ, List, [], ◌||◌, ◌==◌, if◌then◌else◌}

-- The cases of the switch on the command in `encodeBody` and `decodeBody`.
pub data BodyKind : Type 0 where
  bind : BodyKind
  bind_resp : BodyKind
  message : BodyKind
  message_resp : BodyKind
  no_body : BodyKind
  unsupported : BodyKind

unfoldable pub body_kind : ℕ → BodyKind
body_kind id =
    if id == 0x00000001 || (id == 0x00000002 || id == 0x00000009)
    then bind
    else if id == 0x80000001 || (id == 0x80000002 || id == 0x80000009)
    then bind_resp
    else if id == 0x00000004 || id == 0x00000005
    then message
    else if id == 0x80000004 || id == 0x80000005
    then message_resp
    else if id == 0x00000015
        || (id == 0x80000015 || (id == 0x00000006 || (id == 0x80000006 || id == 0x80000000)))
    then no_body
    else unsupported

-- The type `PDU`.
pub record Pdu : Type 0 where
  pub command_length : ℕ
  pub command_id : ℕ
  pub command_status : ℕ
  pub sequence_number : ℕ
  pub system_id : List ℕ
  pub password : List ℕ
  pub system_type : List ℕ
  pub interface_version : ℕ
  pub addr_ton : ℕ
  pub addr_npi : ℕ
  pub address_range : List ℕ
  pub service_type : List ℕ
  pub source_addr_ton : ℕ
  pub source_addr_npi : ℕ
  pub source_addr : List ℕ
  pub dest_addr_ton : ℕ
  pub dest_addr_npi : ℕ
  pub destination_addr : List ℕ
  pub esm_class : ℕ
  pub protocol_id : ℕ
  pub priority_flag : ℕ
  pub schedule_delivery_time : List ℕ
  pub validity_period : List ℕ
  pub registered_delivery : ℕ
  pub replace_if_present_flag : ℕ
  pub data_coding : ℕ
  pub sm_default_msg_id : ℕ
  pub sm_length : ℕ
  pub short_message : List ℕ
  pub message_id : List ℕ

-- The record of a header whose other fields have their zero values.
unfoldable pub with_header : ℕ → ℕ → ℕ → ℕ → Pdu
with_header length id status sequence = record {
  command_length = length;
  command_id = id;
  command_status = status;
  sequence_number = sequence;
  system_id = [];
  password = [];
  system_type = [];
  interface_version = 0;
  addr_ton = 0;
  addr_npi = 0;
  address_range = [];
  service_type = [];
  source_addr_ton = 0;
  source_addr_npi = 0;
  source_addr = [];
  dest_addr_ton = 0;
  dest_addr_npi = 0;
  destination_addr = [];
  esm_class = 0;
  protocol_id = 0;
  priority_flag = 0;
  schedule_delivery_time = [];
  validity_period = [];
  registered_delivery = 0;
  replace_if_present_flag = 0;
  data_coding = 0;
  sm_default_msg_id = 0;
  sm_length = 0;
  short_message = [];
  message_id = [];
}
