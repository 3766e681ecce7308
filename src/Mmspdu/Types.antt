-- ===== src/Mmspdu/Types.antt =====
-- internal/mmspdu/types.go: field numbers, tokens, and the kind of value that a field carries.
use vectorcore_mmsc.Base.{ℕ, ◌==◌, if◌then◌else◌}

abbrev pub field_bcc : ℕ
field_bcc = 0x01

abbrev pub field_cc : ℕ
field_cc = 0x02

abbrev pub field_content_location : ℕ
field_content_location = 0x03

abbrev pub field_content_type : ℕ
field_content_type = 0x04

abbrev pub field_date : ℕ
field_date = 0x05

abbrev pub field_delivery_report : ℕ
field_delivery_report = 0x06

abbrev pub field_delivery_time : ℕ
field_delivery_time = 0x07

abbrev pub field_expiry : ℕ
field_expiry = 0x08

abbrev pub field_from : ℕ
field_from = 0x09

abbrev pub field_message_class : ℕ
field_message_class = 0x0A

abbrev pub field_message_id : ℕ
field_message_id = 0x0B

abbrev pub field_message_type : ℕ
field_message_type = 0x0C

abbrev pub field_mms_version : ℕ
field_mms_version = 0x0D

abbrev pub field_message_size : ℕ
field_message_size = 0x0E

abbrev pub field_priority : ℕ
field_priority = 0x0F

abbrev pub field_read_reply : ℕ
field_read_reply = 0x10

abbrev pub field_report_allowed : ℕ
field_report_allowed = 0x11

abbrev pub field_response_status : ℕ
field_response_status = 0x12

abbrev pub field_response_text : ℕ
field_response_text = 0x13

abbrev pub field_sender_visibility : ℕ
field_sender_visibility = 0x14

abbrev pub field_status : ℕ
field_status = 0x15

abbrev pub field_subject : ℕ
field_subject = 0x16

abbrev pub field_to : ℕ
field_to = 0x17

abbrev pub field_transaction_id : ℕ
field_transaction_id = 0x18

abbrev pub field_retrieve_status : ℕ
field_retrieve_status = 0x19

abbrev pub field_retrieve_text : ℕ
field_retrieve_text = 0x1A

abbrev pub field_read_status : ℕ
field_read_status = 0x1B

pub data FieldKind : Type 0 where
  unknown octets text encoded_string token short_integer long_integer date address : FieldKind

-- The map `fieldKinds`; a field that is no key of it has the kind `unknown`.
unfoldable pub kind_for_field : ℕ → FieldKind
kind_for_field field =
    if field == field_bcc
    then address
    else if field == field_cc
    then address
    else if field == field_content_location
    then text
    else if field == field_content_type
    then octets
    else if field == field_date
    then date
    else if field == field_delivery_report
    then token
    else if field == field_delivery_time
    then date
    else if field == field_expiry
    then date
    else if field == field_from
    then address
    else if field == field_message_class
    then token
    else if field == field_message_id
    then text
    else if field == field_message_type
    then token
    else if field == field_mms_version
    then short_integer
    else if field == field_message_size
    then long_integer
    else if field == field_priority
    then token
    else if field == field_read_reply
    then token
    else if field == field_report_allowed
    then token
    else if field == field_response_status
    then token
    else if field == field_response_text
    then encoded_string
    else if field == field_sender_visibility
    then token
    else if field == field_status
    then token
    else if field == field_subject
    then encoded_string
    else if field == field_to
    then address
    else if field == field_transaction_id
    then text
    else if field == field_retrieve_status
    then token
    else if field == field_retrieve_text
    then encoded_string
    else if field == field_read_status
    then token
    else unknown
