-- ===== src/Mm1/Retrieve/Confirmed.antt =====
-- `HandleRetrieve` of internal/mm1/handler_mt.go, from the stored message to what the recipient decodes.
use vectorcore_mmsc.Base.{ℕ, List, some, Result, ok, err, ◌≡◌}
use vectorcore_mmsc.Base.ByteMap.{lookup, insert}
use vectorcore_mmsc.Message.{Message}
use vectorcore_mmsc.Mmspdu.Types.{
  field_from, field_subject, field_message_id, field_response_status,
}
use vectorcore_mmsc.Mmspdu.Values.{HeaderValue, new_token_value}
use vectorcore_mmsc.Mmspdu.Header.{Headers}
use vectorcore_mmsc.Mmspdu.Multipart.{Part}
use vectorcore_mmsc.Mmspdu.Multipart.RoundTrip.{AllReceived}
use vectorcore_mmsc.Mmspdu.Codec.{Pdu}
use vectorcore_mmsc.Mmspdu.Messages.{text_at_field, token_at_field, new_retrieve_conf}
use vectorcore_mmsc.Queue.Announced.{SenderRead}
use vectorcore_mmsc.Mmspdu.Messages.Laws.{IsDelivered}
use vectorcore_mmsc.Mm1.{Response, served}
use vectorcore_mmsc.Mm1.Retrieve.{with_id, not_updated}

abbrev first_headers : Message → List Part → Headers
first_headers msg parts = (new_retrieve_conf msg.transaction_id parts).headers

abbrev status_headers : Message → List Part → Headers
status_headers msg parts =
    insert field_response_status (new_token_value field_response_status 0x80)
      (first_headers msg parts)

abbrev id_headers : Message → List Part → Headers
id_headers msg parts = with_id msg.id (status_headers msg parts)

-- What the recipient decodes: the message's own id, sender and subject, and what is delivered of the
-- parts.
abbrev pub Delivers : Message → List Part → Pdu → Type 0
Delivers msg parts q =
    (q.message_type ≡ 0x84)
    × (q.transaction_id ≡ msg.transaction_id)
    × (token_at_field field_response_status q.headers ≡ ok 0x80)
    × (text_at_field field_message_id q.headers ≡ ok msg.id)
    × (text_at_field field_subject q.headers ≡ ok msg.subject)
    × ((sender : HeaderValue) × (lookup field_from q.headers ≡ some sender)
        × SenderRead msg.from sender)
    × ((kept : List Part) × (received : List Part) × IsDelivered parts kept
        × (q.body ≡ some (record { parts = received }))
        × AllReceived kept received)

-- The answer to a retrieval, by what the call to mark the message returns.
abbrev pub retrieved : List ℕ → Result (Unit {0}) → Response
retrieved bytes (ok u) = served bytes
retrieved bytes (err e) = not_updated
