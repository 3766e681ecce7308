-- ===== src/Mmspdu/Messages.antt =====
-- internal/mmspdu/pdu_*.go: the units that the service makes, and the delivery report read. The date
-- of a delivery report is the clock's, an argument here.
pub mod Laws
use vectorcore_mmsc.Base.{
  ℕ, List, [], ◌∷◌, is_empty, Option, none, some, Bool, true, false, not, if◌then◌else◌, Result, ok,
  err, ◌>>=◌, nil_pdu,
}
use vectorcore_mmsc.Base.Text.{codes, equal_fold}
use vectorcore_mmsc.Base.ByteMap.{lookup, insert}
use vectorcore_mmsc.Mmspdu.Types.{
  field_message_type, field_mms_version, field_message_id, field_date, field_to, field_status,
  field_transaction_id, field_report_allowed, field_response_status, field_content_location,
  field_from, field_subject, field_message_class, field_priority, field_message_size, field_expiry,
  field_content_type,
}
use vectorcore_mmsc.Mmspdu.Values.{
  HeaderValue, new_text_value, new_token_value, new_date_value, new_address_value, new_from_value,
  value_text, value_token,
}
use vectorcore_mmsc.Mmspdu.Header.{Headers}
use vectorcore_mmsc.Mmspdu.ContentType.{new_content_type_value}
use vectorcore_mmsc.Mmspdu.Multipart.{Part, MultipartBody}
use vectorcore_mmsc.Mmspdu.Codec.{Pdu}

-- A unit of version 1.3.
abbrev pub unit_1_3 : ℕ → List ℕ → Headers → List ℕ → Option MultipartBody → Pdu
unit_1_3 message_type transaction_id headers order body = record {
  message_type = message_type;
  transaction_id = transaction_id;
  mms_version = codes "1.3";
  headers = headers;
  header_order = order;
  body = body;
}

abbrev pub delivery_ind_header_order : List ℕ
delivery_ind_header_order =
    field_message_type ∷ field_mms_version ∷ field_message_id ∷ field_date ∷ field_to ∷ field_status
    ∷ []

unfoldable pub new_delivery_ind : ℕ → List ℕ → List ℕ → ℕ → Pdu
new_delivery_ind now message_id to status =
    unit_1_3 0x86 []
      (insert field_message_id (new_text_value field_message_id message_id) (
        insert field_date (new_date_value field_date now) (
          insert field_to (new_address_value field_to to)
            (insert field_status (new_token_value field_status status) []))))
      delivery_ind_header_order none

-- The type `DeliveryInd`; a missing date is `none`.
pub record DeliveryInd : Type 0 where
  pub message_id : List ℕ
  pub to : List ℕ
  pub status : ℕ
  pub date : Option HeaderValue

unfoldable pub text_at_field : ℕ → Headers → Result (List ℕ)
text_at_field field headers = elim (lookup field headers) [ none ↦ ok [] | some v ↦ value_text v ]

unfoldable pub token_at_field : ℕ → Headers → Result ℕ
token_at_field field headers = elim (lookup field headers) [ none ↦ ok 0 | some v ↦ value_token v ]

unfoldable pub parse_delivery_ind : Option Pdu → Result DeliveryInd
parse_delivery_ind none = err nil_pdu
parse_delivery_ind (some pdu) = do
  message_id ← text_at_field field_message_id pdu.headers
  to ← text_at_field field_to pdu.headers
  status ← token_at_field field_status pdu.headers
  ok (record {
    message_id = message_id;
    to = to;
    status = status;
    date = lookup field_date pdu.headers;
  })

abbrev pub just_id : List ℕ → Headers → Headers
just_id transaction_id headers =
    insert field_transaction_id (new_text_value field_transaction_id transaction_id) headers

unfoldable pub new_send_conf : List ℕ → List ℕ → ℕ → Pdu
new_send_conf transaction_id message_id response_status =
    unit_1_3 0x81 transaction_id
      (just_id transaction_id (
        insert field_message_id (new_text_value field_message_id message_id) (
          insert field_response_status (new_token_value field_response_status response_status) [])))
      [] none

unfoldable pub new_forward_conf : List ℕ → List ℕ → ℕ → Pdu
new_forward_conf transaction_id message_id response_status =
    unit_1_3 0x8A transaction_id
      (just_id transaction_id (
        insert field_message_id (new_text_value field_message_id message_id) (
          insert field_response_status (new_token_value field_response_status response_status) [])))
      [] none

abbrev pub notification_ind_header_order : List ℕ
notification_ind_header_order =
    field_message_type ∷ field_transaction_id ∷ field_mms_version ∷ field_from ∷ field_subject
    ∷ field_message_class ∷ field_priority ∷ field_message_size ∷ field_expiry
    ∷ field_content_location ∷ []

unfoldable pub new_notification_ind : List ℕ → List ℕ → Pdu
new_notification_ind transaction_id content_location =
    unit_1_3 0x82 transaction_id
      (just_id transaction_id
        (insert field_content_location (new_text_value field_content_location content_location) []))
      notification_ind_header_order none

unfoldable pub new_notify_resp_ind : List ℕ → ℕ → Pdu
new_notify_resp_ind transaction_id status =
    unit_1_3 0x83 transaction_id
      (just_id transaction_id (insert field_status (new_token_value field_status status) [])) []
      none

-- The parts without those of type application/smil, unless none is left.
unfoldable pub not_smil : List Part → List Part
not_smil [] = []
not_smil (p ∷ parts) =
    if not (equal_fold p.content_type (codes "application/smil"))
    then p ∷ not_smil parts
    else not_smil parts

unfoldable pub strip_smil_parts : List Part → List Part
strip_smil_parts parts = if is_empty (not_smil parts) then parts else not_smil parts

abbrev pub content_type_from_parts : List Part → HeaderValue
content_type_from_parts parts =
    new_content_type_value (codes "application/vnd.wap.multipart.mixed") []

unfoldable pub new_retrieve_conf : List ℕ → List Part → Pdu
new_retrieve_conf transaction_id parts =
    unit_1_3 0x84 transaction_id
      (just_id transaction_id
        (insert field_content_type (content_type_from_parts (strip_smil_parts parts)) []))
      [] (some (record { parts = strip_smil_parts parts }))

-- The value of the report token is yes.
unfoldable pub new_acknowledge_ind : List ℕ → Pdu
new_acknowledge_ind transaction_id =
    unit_1_3 0x85 transaction_id
      (just_id transaction_id
        (insert field_report_allowed (new_token_value field_report_allowed 0x81) []))
      [] none

-- The first of the recipients, if there is one.
unfoldable pub with_first_to : List (List ℕ) → Headers → Headers
with_first_to [] headers = headers
with_first_to (to ∷ others) headers = insert field_to (new_address_value field_to to) headers

unfoldable pub new_forward_req : List ℕ → List (List ℕ) → List Part → Pdu
new_forward_req transaction_id to parts =
    unit_1_3 0x89 transaction_id (with_first_to to (just_id transaction_id [])) []
      (some (record { parts = parts }))

unfoldable pub new_send_req : List ℕ → List ℕ → List (List ℕ) → Pdu
new_send_req transaction_id from to =
    unit_1_3 0x80 transaction_id
      (with_first_to to (insert field_from (new_from_value from) (just_id transaction_id []))) []
      none

unfoldable pub new_send_req_with_parts : List ℕ → List ℕ → List (List ℕ) → List Part → Pdu
unfolding new_send_req
new_send_req_with_parts transaction_id from to parts =
    let pdu = new_send_req transaction_id from to in
    record pdu {
      headers =
          insert field_content_type (new_content_type_value (codes "multipart/related") [])
            pdu.headers;
      body = some (record { parts = parts });
    }

unfoldable pub new_read_rec_ind : List ℕ → List ℕ → Pdu
new_read_rec_ind transaction_id message_id =
    unit_1_3 0x87 transaction_id
      (just_id transaction_id
        (insert field_message_id (new_text_value field_message_id message_id) []))
      [] none

unfoldable pub new_read_orig_ind : List ℕ → List ℕ → Pdu
new_read_orig_ind transaction_id message_id =
    unit_1_3 0x88 transaction_id
      (just_id transaction_id
        (insert field_message_id (new_text_value field_message_id message_id) []))
      [] none
