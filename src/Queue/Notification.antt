-- ===== src/Queue/Notification.antt =====
-- The notification of internal/queue/dispatcher.go as the recipient reads it.
use vectorcore_mmsc.Base.{ℕ, ◌^◌, ◌%◌, ◌*◌, List, some, ok, ◌≡◌}
use vectorcore_mmsc.Base.Text.{codes}
use vectorcore_mmsc.Base.ByteMap.{lookup}
use vectorcore_mmsc.Message.{Message}
use vectorcore_mmsc.Mmspdu.Types.{
  field_content_location, field_from, field_subject, field_message_class, field_message_size,
  field_expiry,
}
use vectorcore_mmsc.Mmspdu.Values.{HeaderValue, value_time, after_now}
use vectorcore_mmsc.Mmspdu.Codec.{Pdu}
use vectorcore_mmsc.Mmspdu.Messages.{text_at_field, token_at_field}
use vectorcore_mmsc.Queue.Announced.{ExpirySeconds, page_of, ClassToken, SenderRead, SizeRead}
use vectorcore_mmsc.Queue.{message_class}

-- What the recipient reads of the notification.
abbrev pub Announces : ℕ → List ℕ → Message → Pdu → Type 0
Announces now base msg q =
    (q.message_type ≡ 0x82)
    × (q.transaction_id ≡ msg.transaction_id)
    × (q.mms_version ≡ codes "1.2")
    × (text_at_field field_content_location q.headers ≡ ok (page_of base msg.id))
    × (text_at_field field_subject q.headers ≡ ok msg.subject)
    × ((token : ℕ) × (token_at_field field_message_class q.headers ≡ ok token)
        × ClassToken msg.message_class token)
    × ((sender : HeaderValue) × (lookup field_from q.headers ≡ some sender)
        × SenderRead msg.from sender)
    × ((size : HeaderValue) × (lookup field_message_size q.headers ≡ some size)
        × SizeRead (msg.message_size % 2 ^ 64) size)
    × ((seconds : ℕ) × (expiry : HeaderValue) × (lookup field_expiry q.headers ≡ some expiry)
        × (value_time expiry ≡ ok (after_now (seconds * 1000000000)))
        × ExpirySeconds now msg.expiry seconds)
