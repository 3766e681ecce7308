-- ===== src/Mm1/Submit.antt =====
-- internal/mm1/handler_mo.go: what a submitted unit is made into, and what its route decides.
pub mod Handle
pub mod Kept
use vectorcore_mmsc.Base.{
  ℕ, ◌+◌, ◌-◌, ◌*◌, ◌/◌, ◌%◌, ◌^◌, List, [], ◌∷◌, ◌++◌, length, take, is_empty, Option, none, some,
  Bool, true, false, ◌&&◌, ◌||◌, ◌==◌, ltb, leb, if◌then◌else◌, Result, ok, err, Error, not_textual,
}
use vectorcore_mmsc.Base.Text.{codes, to_upper, index_of, trim_space}
use vectorcore_mmsc.Base.ByteMap.{lookup}
use vectorcore_mmsc.Base.TextMap
use vectorcore_mmsc.Message
use vectorcore_mmsc.Message.{
  Message, Status, queued, rejected, forwarded, mobile_originated, personal, low,
}
use vectorcore_mmsc.Message.Expiry.{apply_default_expiry}
use vectorcore_mmsc.Mmspdu.Types.{
  field_from, field_to, field_content_type, field_delivery_report, field_read_reply, field_subject,
  field_expiry,
}
use vectorcore_mmsc.Mmspdu.Values.{
  HeaderValue, Moment, unix, after_now, value_text, value_token, value_time, is_insert_address,
}
use vectorcore_mmsc.Mmspdu.ContentType.Decode.{value_content_type}
use vectorcore_mmsc.Mmspdu.Multipart.{Part}
use vectorcore_mmsc.Mmspdu.Codec.{Pdu}
use vectorcore_mmsc.Routing.Engine.{Destination, Resolution, unknown, local, mm4, mm3, reject}

-- The function `stripTypeSuffix`.
unfoldable pub strip_type_suffix : List ℕ → List ℕ
unfolding index_of
strip_type_suffix value = elim (index_of (to_upper value) (codes "/TYPE=")) [
  | none ↦ value
  | some i ↦ if ltb 0 i then take i value else value
]

-- The loop of `msisdnFromHTTPHeaders`, where `header` are the request's headers.
unfoldable pub first_header : (List ℕ → List ℕ) → List (List ℕ) → List ℕ
unfolding strip_type_suffix
first_header header [] = []
first_header header (name ∷ names) =
    let later = first_header header names in
    let value = trim_space (header name) in
    if is_empty value then later else strip_type_suffix value

unfoldable pub msisdn_from_http_headers : (List ℕ → List ℕ) → List ℕ
unfolding first_header
msisdn_from_http_headers header =
    first_header header
      (codes "X-WAP-Network-Client-MSISDN" ∷ codes "X-MSISDN" ∷ codes "X-Nokia-MSISDN" ∷ [])

abbrev pub or_missing : List ℕ → Result (List ℕ)
or_missing text = if is_empty text then err not_textual else ok text

-- The function `senderAddressFromRequest`: the unit's sender if it is a text, or the client's number.
unfoldable pub sender_address_from_request : (List ℕ → List ℕ) → Pdu → Result (List ℕ)
unfolding msisdn_from_http_headers
sender_address_from_request header pdu =
    let number = or_missing (msisdn_from_http_headers header) in
    elim (lookup field_from pdu.headers) [
      | none ↦ number
      | some value ↦ elim (value_text value) [
        | ok text ↦ ok (strip_type_suffix text)
        | err e ↦ number
      ]
    ]

unfoldable pub header_text : Pdu → ℕ → Result (List ℕ)
header_text pdu field = elim (lookup field pdu.headers) [
  | none ↦ err not_textual
  | some value ↦ value_text value
]

unfoldable pub content_type_of : Pdu → List ℕ
content_type_of pdu = elim (lookup field_content_type pdu.headers) [
  | none ↦ []
  | some value ↦ elim (value_content_type value) [ err e ↦ [] | ok ct ↦ ct.media_type ]
]

unfoldable pub to_message_part : Part → Message.Part
to_message_part part = record {
  content_type = part.content_type;
  content_id = TextMap.text_at (codes "content-id") part.headers;
  content_location = TextMap.text_at (codes "content-location") part.headers;
  content = part.payload;
  store_path = [];
  size = length part.payload;
}

abbrev pub to_message_part_list : List Part → List Message.Part
to_message_part_list [] = []
to_message_part_list (part ∷ parts) = to_message_part part ∷ to_message_part_list parts

unfoldable pub to_message_parts : Pdu → List Message.Part
unfolding to_message_part
to_message_parts pdu = elim pdu.body [ none ↦ [] | some body ↦ to_message_part_list body.parts ]

unfoldable pub parts_size : List Message.Part → ℕ
parts_size [] = 0
parts_size (part ∷ parts) =
    (if ltb 0 part.size then part.size else length part.content) + parts_size parts

-- The status that a message starts with.
unfoldable pub status_for : Destination → Status
status_for reject = rejected
status_for mm4 = forwarded
status_for mm3 = forwarded
status_for local = queued
status_for unknown = queued

-- A flag that is asked for by a token of yes.
unfoldable pub asks_for : Pdu → ℕ → Bool
asks_for pdu field = elim (lookup field pdu.headers) [
  | none ↦ false
  | some value ↦ elim (value_token value) [ err e ↦ false | ok token ↦ token == 0x81 ]
]

abbrev pub text_or_empty : Result (List ℕ) → List ℕ
text_or_empty (ok text) = text
text_or_empty (err e) = []

-- The nanoseconds since 1970 of a time that is not the zero time, which is the first of the year 1. The
-- seconds are counted from that year in a signed 64-bit integer, where large ones wrap around to times
-- before 1970, as do those with the top bit; such a time stands as 1970 here. A duration has 64 bits and
-- goes in either direction.
unfoldable pub instant : ℕ → Moment → Option ℕ
instant now (unix seconds) =
    if seconds == 2 ^ 64 - 62135596800
    then none
    else some (if ltb seconds (2 ^ 63 - 62135596800) then seconds * 1000000000 else 0)
instant now (after_now delta) =
    some (if ltb delta (2 ^ 63) then now + delta else now - (2 ^ 64 - delta))

unfoldable pub asked_expiry : ℕ → Pdu → Option ℕ
unfolding instant
asked_expiry now pdu = elim (lookup field_expiry pdu.headers) [
  | none ↦ none
  | some value ↦ elim (value_time value) [ err e ↦ none | ok moment ↦ instant now moment ]
]

-- The limits of the configuration and the clock.
pub record Limits : Type 0 where
  pub max_body_size : ℕ
  pub max_message_size : ℕ
  pub default_expiry : ℕ
  pub max_retention : ℕ

-- The message that `toMessage` makes, with the size of the bytes `raw` it came in.
unfoldable pub message_of :
    ℕ → Limits → List ℕ → List ℕ → List ℕ → List ℕ → Destination → Pdu → List ℕ → Message
unfolding strip_type_suffix content_type_of to_message_parts status_for asks_for asked_expiry
    header_text
message_of now limits id content_path from to destination pdu raw =
    apply_default_expiry now limits.default_expiry limits.max_retention (record {
      id = id;
      transaction_id = pdu.transaction_id;
      status = status_for destination;
      direction = mobile_originated;
      from = strip_type_suffix from;
      to = strip_type_suffix to ∷ [];
      cc = [];
      bcc = [];
      subject = text_or_empty (header_text pdu field_subject);
      parts = to_message_parts pdu;
      content_type = content_type_of pdu;
      mms_version = pdu.mms_version;
      message_class = personal;
      priority = low;
      delivery_report = asks_for pdu field_delivery_report;
      read_report = asks_for pdu field_read_reply;
      expiry = asked_expiry now pdu;
      delivery_time = none;
      message_size = length raw;
      content_path = content_path;
      store_id = content_path;
      origin = Message.mm1;
      origin_host = [];
      received_at = none;
      updated_at = none;
    })
