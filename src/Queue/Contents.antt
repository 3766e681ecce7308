-- ===== src/Queue/Contents.antt =====
-- The headers of the notification that internal/queue/dispatcher.go makes of a message.
use vectorcore_mmsc.Base.{
  ℕ, ◌^◌, ◌<◌, ◌%◌, List, [], ◌∷◌, length, is_empty, false, if◌then◌else◌, some, none, ◌≡◌, inl,
  inr, refl, ◌∙◌, arith, ◌==◌,
}
use vectorcore_mmsc.Base.ByteMap.{lookup, insert}
use vectorcore_mmsc.Base.ByteMap.Laws.{lookup-insert}
use vectorcore_mmsc.Message.{Message}
use vectorcore_mmsc.Mmspdu.Types.{
  kind_for_field, field_transaction_id, field_content_location, field_content_type, field_from,
  field_subject, field_message_class, field_message_size, field_expiry,
}
use vectorcore_mmsc.Mmspdu.Strings.{encode_text_string, normalize_address}
use vectorcore_mmsc.Mmspdu.Strings.RoundTrip.{IsText}
use vectorcore_mmsc.Mmspdu.Values.{
  new_text_value, new_token_value, new_from_value, new_encoded_string_value, new_long_integer_value,
  new_relative_date_value,
}
use vectorcore_mmsc.Mmspdu.Values.Raw.{long_integer-IsRaw, relative_date-IsRaw}
use vectorcore_mmsc.Mmspdu.Header.{Headers}
use vectorcore_mmsc.Mmspdu.Header.RoundTrip.{IsHeaders}
use vectorcore_mmsc.Mmspdu.Codec.Received.{IsPdu, insert-IsHeaders, identifier-IsRaw}
use vectorcore_mmsc.Mmspdu.Messages.{new_notification_ind}
use vectorcore_mmsc.Mmspdu.Messages.Laws.{empty-IsHeaders}
use vectorcore_mmsc.Queue.Fields.{
  with_subject-IsHeaders, from_field, from_kind, from_raw, lookup-with_subject,
}
use vectorcore_mmsc.Queue.Announced.{expiry_seconds_fit}
use vectorcore_mmsc.Queue.{
  message_class, notification_expiry_seconds, content_location, or_insert, with_subject,
  notification_headers, notification,
}

-- The texts of the message are texts, it has a transaction id, and its sender's normal form is encoded
-- in fewer than 30 bytes.
pub record IsNotifiable (now : ℕ) (base : List ℕ) (msg : Message) : Type 0 where
  pub identified : is_empty msg.transaction_id ≡ false
  pub identifier : IsText msg.transaction_id
  pub located : IsText (content_location base msg.id)
  pub subject_text : IsText msg.subject
  pub short_from : length (encode_text_string (normalize_address (or_insert msg.from))) < 30
  pub from_text : IsText msg.from

content_location_some : (base id : List ℕ) → is_empty (content_location base id) ≡ false
unfolding content_location
content_location_some [] id = refl
content_location_some (c ∷ base) id = refl

new_notification_ind-IsHeaders :
    (transaction_id location : List ℕ)
    → is_empty transaction_id ≡ false
    → IsText transaction_id
    → is_empty location ≡ false
    → IsText location
    → IsHeaders (new_notification_ind transaction_id location).headers
unfolding new_notification_ind kind_for_field new_text_value
new_notification_ind-IsHeaders transaction_id location a b c d =
    insert-IsHeaders field_transaction_id _ _ (omega arith) refl refl
      (identifier-IsRaw transaction_id a b)
      (insert-IsHeaders field_content_location _ _ (omega arith) refl refl
        (identifier-IsRaw location c d) empty-IsHeaders)

notification_headers-IsHeaders :
    (now : ℕ) (base : List ℕ) (msg : Message) (headers : Headers)
    → IsNotifiable now base msg
    → IsHeaders headers
    → IsHeaders (notification_headers now msg headers)
unfolding notification_headers kind_for_field new_token_value new_long_integer_value
    new_relative_date_value
notification_headers-IsHeaders now base msg headers h formed =
    insert-IsHeaders field_expiry _ _ (omega arith) refl refl
      (relative_date-IsRaw (notification_expiry_seconds now msg.expiry)
        (omega (arith, expiry_seconds_fit now msg.expiry)))
      (insert-IsHeaders field_message_size _ _ (omega arith) refl refl
        (long_integer-IsRaw (msg.message_size % 2 ^ 64) (omega arith))
        (insert-IsHeaders field_message_class _ _ (omega arith) refl refl (_, refl)
          (with_subject-IsHeaders msg.subject _ h.subject_text (
            insert-IsHeaders field_from (new_from_value (or_insert msg.from)) headers (omega arith)
              (from_field (or_insert msg.from)) (from_kind (or_insert msg.from))
              (from_raw (or_insert msg.from) h.short_from) formed))))

pub notification-IsPdu :
    (now : ℕ) (base : List ℕ) (msg : Message)
    → IsNotifiable now base msg
    → IsPdu (notification now base msg)
unfolding notification new_notification_ind
notification-IsPdu now base msg h = record {
  formed = notification_headers-IsHeaders now base msg _ h (
      new_notification_ind-IsHeaders msg.transaction_id (content_location base msg.id) h.identified
        h.identifier (content_location_some base msg.id) h.located);
  typed = λ e. omega arith;
  identified = h.identified;
  identifier = h.identifier;
  versioned = inr (inr (inl refl));
}

lookup-notification_headers :
    (k now : ℕ) (msg : Message) (headers : Headers)
    → lookup k (notification_headers now msg headers) ≡ (
        if field_expiry == k
        then some
            (new_relative_date_value field_expiry (notification_expiry_seconds now msg.expiry))
        else (if field_message_size == k
            then some (new_long_integer_value field_message_size (msg.message_size % 2 ^ 64))
            else (if field_message_class == k
                then some (new_token_value field_message_class (message_class msg.message_class))
                else lookup k (
                    with_subject msg.subject
                      (insert field_from (new_from_value (or_insert msg.from)) headers)))))
unfolding notification_headers
lookup-notification_headers k now msg headers = rw (lookup-insert, lookup-insert, lookup-insert)

lookup-notification :
    (k now : ℕ) (base : List ℕ) (msg : Message)
    → lookup k (notification now base msg).headers
      ≡ lookup k (
          notification_headers now msg
            (new_notification_ind msg.transaction_id (content_location base msg.id)).headers)
unfolding notification
lookup-notification k now base msg = refl

pub location_header :
    (now : ℕ) (base : List ℕ) (msg : Message)
    → lookup field_content_location (notification now base msg).headers
      ≡ some (new_text_value field_content_location (content_location base msg.id))
unfolding new_notification_ind lookup insert
location_header now base msg =
    lookup-notification field_content_location now base msg
    ∙ lookup-notification_headers field_content_location now msg _
    ∙ lookup-with_subject field_content_location msg.subject _
    ∙ ground arith

pub from_header :
    (now : ℕ) (base : List ℕ) (msg : Message)
    → lookup field_from (notification now base msg).headers
      ≡ some (new_from_value (or_insert msg.from))
from_header now base msg =
    lookup-notification field_from now base msg
    ∙ lookup-notification_headers field_from now msg _
    ∙ lookup-with_subject field_from msg.subject _
    ∙ ground (
      arith,
      lookup-insert field_from field_from (new_from_value (or_insert msg.from))
          (new_notification_ind msg.transaction_id (content_location base msg.id)).headers,
    )

pub class_header :
    (now : ℕ) (base : List ℕ) (msg : Message)
    → lookup field_message_class (notification now base msg).headers
      ≡ some (new_token_value field_message_class (message_class msg.message_class))
class_header now base msg =
    lookup-notification field_message_class now base msg
    ∙ lookup-notification_headers field_message_class now msg _

pub size_header :
    (now : ℕ) (base : List ℕ) (msg : Message)
    → lookup field_message_size (notification now base msg).headers
      ≡ some (new_long_integer_value field_message_size (msg.message_size % 2 ^ 64))
size_header now base msg =
    lookup-notification field_message_size now base msg
    ∙ lookup-notification_headers field_message_size now msg _

pub expiry_header :
    (now : ℕ) (base : List ℕ) (msg : Message)
    → lookup field_expiry (notification now base msg).headers
      ≡ some (new_relative_date_value field_expiry (notification_expiry_seconds now msg.expiry))
expiry_header now base msg =
    lookup-notification field_expiry now base msg
    ∙ lookup-notification_headers field_expiry now msg _

pub subject_header :
    (now : ℕ) (base : List ℕ) (msg : Message)
    → lookup field_subject (notification now base msg).headers ≡ (
        if is_empty msg.subject
        then none
        else some (new_encoded_string_value field_subject msg.subject))
unfolding new_notification_ind lookup insert
subject_header now base msg =
    lookup-notification field_subject now base msg
    ∙ lookup-notification_headers field_subject now msg _
    ∙ lookup-with_subject field_subject msg.subject _
    ∙ ground arith

pub no_content_type :
    (now : ℕ) (base : List ℕ) (msg : Message)
    → lookup field_content_type (notification now base msg).headers ≡ none
unfolding new_notification_ind lookup insert
no_content_type now base msg =
    lookup-notification field_content_type now base msg
    ∙ lookup-notification_headers field_content_type now msg _
    ∙ lookup-with_subject field_content_type msg.subject _
    ∙ ground arith
