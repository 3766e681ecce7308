-- ===== src/Queue.antt =====
-- internal/queue/dispatcher.go: one round over the queued messages, with a notification for each.
pub mod Fields
pub mod Announced
pub mod Contents
pub mod Notification
pub mod Laws
use vectorcore_mmsc.Base.{
  ℕ, ◌+◌, ◌-◌, ◌*◌, ◌/◌, ◌^◌, ◌%◌, List, [], ◌∷◌, ◌++◌, is_empty, Option, none, some, Bool, true,
  false, ltb, leb, if◌then◌else◌, Result, ok, err, Error,
}
use vectorcore_mmsc.Base.Text.{codes}
use vectorcore_mmsc.Base.ByteMap.{insert}
use vectorcore_mmsc.Mmspdu.Types.{
  field_from, field_subject, field_message_class, field_message_size, field_expiry,
}
use vectorcore_mmsc.Mmspdu.Values.{
  new_from_value, new_encoded_string_value, new_token_value, new_long_integer_value,
  new_relative_date_value,
}
use vectorcore_mmsc.Mmspdu.Header.{Headers}
use vectorcore_mmsc.Mmspdu.Codec.{Pdu, encode}
use vectorcore_mmsc.Mmspdu.Messages.{new_notification_ind}
use vectorcore_mmsc.Message.{
  Message, MessageClass, personal, advertisement, informational, auto, delivering,
}
use vectorcore_mmsc.Service.{
  Event, Call, World, Action, ◌>>=◌, ◌>>◌, pure, lift, perform, update_status, append_event,
  submit_push,
}
use vectorcore_mmsc.Wappush.Push.{wrap_mms_pdu}

unfoldable pub message_class : MessageClass → ℕ
message_class personal = 0x80
message_class advertisement = 0x81
message_class informational = 0x82
message_class auto = 0x83

-- Seconds to the nearest, of a number of nanoseconds. A duration holds less than 2^63 of them: a longer
-- one is cut to 2^63 - 1, which is not rounded up, so the seconds are at most 9223372036.
abbrev pub rounded_seconds : ℕ → ℕ
rounded_seconds delta =
    let seconds = (delta + 500000000) / 1000000000 in
    if ltb seconds 9223372037 then seconds else 9223372036

-- At the time `now`; a week where there is no expiry.
unfoldable pub notification_expiry_seconds : ℕ → Option ℕ → ℕ
notification_expiry_seconds now none = 604800
notification_expiry_seconds now (some t) = if leb t now then 1 else rounded_seconds (t - now)

unfoldable pub content_location : List ℕ → List ℕ → List ℕ
content_location base id =
    (if is_empty base then codes "/mms/retrieve" else base) ++ (codes "?id=" ++ id)

abbrev pub or_insert : List ℕ → List ℕ
or_insert from = if is_empty from then codes "#insert" else from

abbrev pub with_subject : List ℕ → Headers → Headers
with_subject subject headers =
    if is_empty subject
    then headers
    else insert field_subject (new_encoded_string_value field_subject subject) headers

-- The headers that are set on the notification, one after another.
unfoldable pub notification_headers : ℕ → Message → Headers → Headers
unfolding message_class notification_expiry_seconds
notification_headers now msg headers =
    let h1 = insert field_from (new_from_value (or_insert msg.from)) headers in
    let h2 = with_subject msg.subject h1 in
    let h3 =
      insert field_message_class
        (new_token_value field_message_class (message_class msg.message_class)) h2 in
    let h4 =
      insert field_message_size
        (new_long_integer_value field_message_size (msg.message_size % 2 ^ 64)) h3 in
    insert field_expiry
      (new_relative_date_value field_expiry (notification_expiry_seconds now msg.expiry)) h4

-- The notification of a message.
unfoldable pub notification : ℕ → List ℕ → Message → Pdu
unfolding notification_headers content_location
notification now base msg =
    let pdu = new_notification_ind msg.transaction_id (content_location base msg.id) in
    record pdu { mms_version = codes "1.2"; headers = notification_headers now msg pdu.headers }

-- strings.Join(to, ",")
unfoldable pub join_comma : List (List ℕ) → List ℕ
join_comma [] = []
join_comma (a ∷ []) = a
join_comma (a ∷ b ∷ rest) = a ++ (b',' ∷ join_comma (b ∷ rest))

module _ (w : World) (tracked : Bool) where
  abbrev pub tracking_id : Message → Option (List ℕ)
  tracking_id msg = if tracked then some msg.id else none

  -- The loop over the recipients.
  unfoldable pub submit_all : Message → List ℕ → List (List ℕ) → Action (Unit {0})
  submit_all msg push [] = pure tt
  submit_all msg push (recipient ∷ recipients) =
      let rest = submit_all msg push recipients in
      perform w (submit_push (tracking_id msg) msg.from recipient push) >> rest

  -- The method `dispatchLocalNotification` on a message with recipients, at the time `now`.
  unfoldable pub notify : ℕ → List ℕ → Message → Action (Unit {0})
  unfolding submit_all notification
  notify now base msg = do
    encoded ← lift (encode (some (notification now base msg)))
    submit_all msg (wrap_mms_pdu encoded) msg.to
    perform w (update_status msg.id delivering)

  unfoldable pub dispatch_local_notification : ℕ → List ℕ → Message → Action (Unit {0})
  unfolding notify
  dispatch_local_notification now base msg =
      if is_empty msg.to then pure tt else notify now base msg

  -- The expiry has passed.
  abbrev pub is_past : ℕ → Option ℕ → Bool
  is_past now none = false
  is_past now (some t) = ltb t now

  abbrev pub submitted_event : Message → Call
  submitted_event msg = append_event (record {
    message_id = msg.id;
    source = codes "queue";
    kind = codes "local-notification-retry-submitted";
    summary = codes "Local notification retry submitted";
    detail = join_comma msg.to;
  })

  module _ (error_text : Error → List ℕ) where
    abbrev pub failed_event : Message → Error → Call
    failed_event msg e = append_event (record {
      message_id = msg.id;
      source = codes "queue";
      kind = codes "local-notification-retry-failed";
      summary = codes "Local notification retry failed";
      detail = error_text e;
    })

    -- One round of the loop of `dispatchQueued`.
    unfoldable pub dispatch_one : ℕ → List ℕ → Message → List Call → List Call
    unfolding dispatch_local_notification
    dispatch_one now base msg log =
        if is_past now msg.expiry
        then log
        else (let (r, log') = dispatch_local_notification now base msg log in
            elim r [ ok u ↦ submitted_event msg ∷ log' | err e ↦ failed_event msg e ∷ log' ])

    -- The clock is read anew for each message: it may depend on the calls made so far.
    unfoldable pub dispatch_all : (List Call → ℕ) → List ℕ → List Message → List Call → List Call
    unfolding dispatch_one
    dispatch_all clock base [] log = log
    dispatch_all clock base (msg ∷ msgs) log =
        dispatch_all clock base msgs (dispatch_one (clock log) base msg log)

    -- The method `dispatchQueued`, where there is a sender.
    unfoldable pub dispatch_queued : (List Call → ℕ) → List ℕ → List Call → List Call
    unfolding dispatch_all
    dispatch_queued clock base log = elim (w.queued_messages log) [
      | err e ↦ log
      | ok msgs ↦ dispatch_all clock base msgs log
    ]
