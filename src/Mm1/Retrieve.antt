-- ===== src/Mm1/Retrieve.antt =====
-- internal/mm1/handler_mt.go: a recipient fetches a message, and tells what became of it.
pub mod Laws
pub mod Confirmed
pub mod Answers
use vectorcore_mmsc.Base.{
  ℕ, ◌/◌, ◌%◌, ◌^◌, List, [], ◌∷◌, is_empty, Option, none, some, Bool, true, false, ◌==◌, ◌⊎◌, inl,
  inr, if◌then◌else◌, Result, ok, err, Error, no_rows, no_content_path, no_stored_parts,
}
use vectorcore_mmsc.Base.Text.{codes}
use vectorcore_mmsc.Base.ByteMap.{lookup, insert}
use vectorcore_mmsc.Base.TextMap
use vectorcore_mmsc.Message
use vectorcore_mmsc.Message.{Message, Status, delivering, delivered, rejected}
use vectorcore_mmsc.Mmspdu.Types.{
  field_response_status, field_message_id, field_from, field_to, field_date, field_subject,
  field_status,
}
use vectorcore_mmsc.Mmspdu.Values.{
  HeaderValue, new_text_value, new_token_value, new_date_value, new_address_value, new_from_value,
  new_encoded_string_value, value_token,
}
use vectorcore_mmsc.Mmspdu.Header.{Headers}
use vectorcore_mmsc.Mmspdu.Multipart.{Part}
use vectorcore_mmsc.Mmspdu.Codec.{Pdu, encode, decode}
use vectorcore_mmsc.Mmspdu.Messages.{new_retrieve_conf, parse_delivery_ind}
use vectorcore_mmsc.Service.{Call, World, update_status, send_delivery_report, send_read_reply}
use vectorcore_mmsc.Queue.{or_insert, with_subject}
use vectorcore_mmsc.Mm1.{
  Response, failure, no_content, served, Handler, ◌>>=◌, ◌>>◌, answer, ask, attempt,
}

abbrev pub or_insert_text : List ℕ → List ℕ → List (List ℕ × List ℕ) → List (List ℕ × List ℕ)
or_insert_text key value headers =
    if is_empty value then headers else TextMap.insert key value headers

-- The function `partsToPDU`.
unfoldable pub parts_to_pdu : List Message.Part → List Part
parts_to_pdu [] = []
parts_to_pdu (part ∷ parts) =
    record {
      headers =
          or_insert_text (codes "content-location") part.content_location
            (or_insert_text (codes "content-id") part.content_id []);
      content_type = part.content_type;
      content_type_params = [];
      payload = part.content;
    }
    ∷ parts_to_pdu parts

-- The parts of the body of a stored unit.
unfoldable pub stored_parts : Pdu → Result (List Part)
stored_parts pdu = elim pdu.body [
  | none ↦ err no_stored_parts
  | some body ↦ if is_empty body.parts then err no_stored_parts else ok body.parts
]

abbrev pub with_id : List ℕ → Headers → Headers
with_id id headers =
    if is_empty id
    then headers
    else insert field_message_id (new_text_value field_message_id id) headers

abbrev pub with_first_to : List (List ℕ) → Headers → Headers
with_first_to [] headers = headers
with_first_to (to ∷ rest) headers = insert field_to (new_address_value field_to to) headers

-- The date in seconds since 1970.
abbrev pub with_date : Option ℕ → Headers → Headers
with_date none headers = headers
with_date (some t) headers =
    insert field_date (new_date_value field_date (t / 1000000000 % 2 ^ 64)) headers

-- The headers that are set on the confirmation, one after another.
unfoldable pub retrieve_headers : Message → Headers → Headers
retrieve_headers msg headers =
    let h1 = insert field_response_status (new_token_value field_response_status 0x80) headers in
    let h2 = with_id msg.id h1 in
    let h3 = insert field_from (new_from_value (or_insert msg.from)) h2 in
    let h4 = with_first_to msg.to h3 in
    let h5 = with_date msg.received_at h4 in with_subject msg.subject h5

unfoldable pub retrieve_conf : Message → List Part → Pdu
unfolding retrieve_headers
retrieve_conf msg parts =
    let pdu = new_retrieve_conf msg.transaction_id parts in
    record pdu { headers = retrieve_headers msg pdu.headers }

-- 404 where there is no such row, or else 500.
abbrev pub not_found_or_failed : Error → Response
not_found_or_failed e = failure (elim e [ no_rows ↦ 404 | _ ↦ 500 ]) (codes "message not found")

abbrev pub not_found : Error → Response
not_found e = failure 404 (codes "message not found")

abbrev pub not_updated : Response
not_updated = failure 500 (codes "failed to update message")

abbrev pub not_loaded : Error → Response
not_loaded e = failure 500 (codes "failed to load message")

abbrev pub is_rejected : Result ℕ → Bool
is_rejected (ok token) = token == 0x82
is_rejected (err e) = false

-- The status that an M-NotifyResp.ind tells: any but rejected is taken for delivered.
unfoldable pub notified_status : Pdu → Status
unfolding lookup
notified_status pdu = elim (lookup field_status pdu.headers) [
  | none ↦ delivered
  | some value ↦ if is_rejected (value_token value) then rejected else delivered
]

module _ (w : World) (reporter : Bool) where
  -- The method `loadParts`.
  unfoldable pub load_parts : Message → List Call → Result (List Part)
  unfolding stored_parts parts_to_pdu
  load_parts msg log = elim msg.parts [
    | part ∷ parts ↦ ok (parts_to_pdu (part ∷ parts))
    | [] ↦
        if is_empty msg.content_path
        then err no_content_path
        else (elim (w.content msg.content_path log) [
          | err e ↦ err e
          | ok raw ↦ elim (decode raw) [ err e ↦ err e | ok pdu ↦ stored_parts pdu ]
        ])
  ]

  -- The part of `HandleRetrieve` behind the loading of the parts.
  unfoldable pub serve : Message → List Part → Handler Response
  unfolding retrieve_conf
  serve msg parts = do
    bytes ←
        ask (λ log. encode (some (retrieve_conf msg parts)))
          (λ e. failure 500 (codes "failed to encode retrieve conf"))
    attempt w (update_status msg.id delivering) not_updated
    answer (served bytes)

  abbrev pub serve_some : Message → List Part → Handler Response
  serve_some msg [] = answer (not_loaded no_stored_parts)
  serve_some msg (part ∷ parts) = serve msg (part ∷ parts)

  -- The method `HandleRetrieve` for the id of the query.
  unfoldable pub handle_retrieve : List ℕ → Handler Response
  unfolding serve load_parts
  handle_retrieve id = if is_empty id then answer (failure 400 (codes "missing id")) else do
    msg ← ask (w.message id) not_found_or_failed
    parts ← ask (load_parts msg) not_loaded
    serve_some msg parts

  -- The methods `reportStatus` and `reportRead`.
  abbrev pub report : Call → Response → Handler (Unit {0})
  report c on_error = if reporter then attempt w c on_error else λ log. (inr tt, log)

  -- What the handlers below do with their message: it is marked, that is reported, and 204.
  unfoldable pub apply_status : Message → Status → Call → List ℕ → Handler Response
  apply_status msg status call text = do
    attempt w (update_status msg.id status) not_updated
    report call (failure 502 text)
    answer no_content

  unfoldable pub handle_notify_resp : Pdu → Handler Response
  unfolding apply_status notified_status
  handle_notify_resp pdu = do
    msg ← ask (w.message_by_transaction pdu.transaction_id) not_found
    apply_status msg (notified_status pdu) (send_delivery_report msg (notified_status pdu))
        (codes "failed to report message status")

  unfoldable pub handle_acknowledge : Pdu → Handler Response
  unfolding apply_status
  handle_acknowledge pdu = do
    msg ← ask (w.message_by_transaction pdu.transaction_id) not_found
    apply_status msg delivered (send_delivery_report msg delivered)
        (codes "failed to report message status")

  unfoldable pub handle_delivery_report : Pdu → Handler Response
  unfolding apply_status
  handle_delivery_report pdu = do
    delivery ←
        ask (λ log. parse_delivery_ind (some pdu))
          (λ e. failure 400 (codes "invalid delivery indication"))
    msg ← ask (w.message delivery.message_id) not_found
    apply_status msg delivered (send_delivery_report msg delivered)
        (codes "failed to report message status")

  unfoldable pub handle_read_report : Pdu → Handler Response
  unfolding apply_status
  handle_read_report pdu = do
    msg ← ask (w.message_by_transaction pdu.transaction_id) not_found
    apply_status msg delivered (send_read_reply msg) (codes "failed to report read reply")
