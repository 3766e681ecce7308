-- ===== src/Mm1/Retrieve/Laws.antt =====
-- What a recipient reads of the confirmation that internal/mm1/handler_mt.go serves.
use vectorcore_mmsc.Base.{
  ℕ, ◌^◌, ◌<◌, ◌%◌, ◌/◌, List, [], ◌∷◌, length, is_empty, All, false, Option, some, none, ◌≡◌, inr,
  refl, ◌∙◌, arith, ◌==◌,
}
use vectorcore_mmsc.Base.ByteMap.{lookup, insert}
use vectorcore_mmsc.Base.ByteMap.Laws.{lookup-insert}
use vectorcore_mmsc.Message.{Message}
use vectorcore_mmsc.Mmspdu.Types.{
  kind_for_field, field_from, field_subject, field_message_id, field_to, field_date,
  field_response_status,
}
use vectorcore_mmsc.Mmspdu.Strings.{encode_text_string, normalize_address}
use vectorcore_mmsc.Mmspdu.Strings.RoundTrip.{IsText}
use vectorcore_mmsc.Mmspdu.Values.{
  HeaderValue, new_text_value, new_token_value, new_from_value, new_date_value, new_address_value,
}
use vectorcore_mmsc.Mmspdu.Values.Raw.{long_integer-IsRaw, address-IsRaw}
use vectorcore_mmsc.Mmspdu.Header.{Headers}
use vectorcore_mmsc.Mmspdu.Header.RoundTrip.{IsHeaders}
use vectorcore_mmsc.Mmspdu.Multipart.{Part}
use vectorcore_mmsc.Mmspdu.Multipart.RoundTrip.{IsSendable}
use vectorcore_mmsc.Mmspdu.Codec.Received.{IsPdu, insert-IsHeaders, identifier-IsRaw}
use vectorcore_mmsc.Mmspdu.Messages.{new_retrieve_conf}
use vectorcore_mmsc.Mmspdu.Messages.Laws.{retrieve_conf-IsPdu}
use vectorcore_mmsc.Queue.{or_insert, with_subject}
use vectorcore_mmsc.Queue.Fields.{with_subject-IsHeaders, from_field, from_kind, from_raw}
use vectorcore_mmsc.Mm1.Retrieve.{
  with_id, with_first_to, with_date, retrieve_headers, retrieve_conf,
}

-- The texts of the message are texts, it has a transaction id, its sender's normal form is encoded in
-- fewer than 30 bytes, and there are fewer than 2^35 parts, each of them sendable.
pub record IsServable (msg : Message) (parts : List Part) : Type 0 where
  pub identified : is_empty msg.transaction_id ≡ false
  pub identifier : IsText msg.transaction_id
  pub id_text : IsText msg.id
  pub to_text : All IsText msg.to
  pub subject_text : IsText msg.subject
  pub from_text : IsText msg.from
  pub short_from : length (encode_text_string (normalize_address (or_insert msg.from))) < 30
  pub sendable : All IsSendable parts
  pub few : length parts < 2 ^ 35

with_id-IsHeaders :
    (id : List ℕ) (headers : Headers)
    → IsText id
    → IsHeaders headers
    → IsHeaders (with_id id headers)
unfolding kind_for_field new_text_value
with_id-IsHeaders [] headers h formed = formed
with_id-IsHeaders (c ∷ id) headers h formed =
    insert-IsHeaders field_message_id _ headers (omega arith) refl refl
      (identifier-IsRaw (c ∷ id) refl h) formed

with_first_to-IsHeaders :
    (to : List (List ℕ)) (headers : Headers)
    → All IsText to
    → IsHeaders headers
    → IsHeaders (with_first_to to headers)
unfolding kind_for_field new_address_value
with_first_to-IsHeaders [] headers h formed = formed
with_first_to-IsHeaders (to ∷ rest) headers h formed =
    insert-IsHeaders field_to _ headers (omega arith) refl refl (address-IsRaw to h.0) formed

with_date-IsHeaders :
    (t : Option ℕ) (headers : Headers) → IsHeaders headers → IsHeaders (with_date t headers)
unfolding kind_for_field new_date_value
with_date-IsHeaders none headers formed = formed
with_date-IsHeaders (some t) headers formed =
    insert-IsHeaders field_date _ headers (omega arith) refl refl
      (long_integer-IsRaw (t / 1000000000 % 2 ^ 64) (omega arith)) formed

retrieve_headers-IsHeaders :
    (msg : Message) (parts : List Part) (headers : Headers)
    → IsServable msg parts
    → IsHeaders headers
    → IsHeaders (retrieve_headers msg headers)
unfolding retrieve_headers kind_for_field new_token_value
retrieve_headers-IsHeaders msg parts headers h formed =
    with_subject-IsHeaders msg.subject _ h.subject_text (
      with_date-IsHeaders msg.received_at _ (
        with_first_to-IsHeaders msg.to _ h.to_text (
          insert-IsHeaders field_from (new_from_value (or_insert msg.from)) _ (omega arith)
            (from_field (or_insert msg.from)) (from_kind (or_insert msg.from))
            (from_raw (or_insert msg.from) h.short_from)
            (with_id-IsHeaders msg.id _ h.id_text (
              insert-IsHeaders field_response_status _ headers (omega arith) refl refl (_, refl)
                formed)))))

pub retrieve_conf-Formed :
    (msg : Message) (parts : List Part) → IsServable msg parts → IsPdu (retrieve_conf msg parts)
unfolding retrieve_conf new_retrieve_conf
retrieve_conf-Formed msg parts h = record {
  formed =
      retrieve_headers-IsHeaders msg parts _ h
        (retrieve_conf-IsPdu msg.transaction_id parts h.identified h.identifier).formed;
  typed = λ e. omega arith;
  identified = h.identified;
  identifier = h.identifier;
  versioned = inr (inr (inr refl));
}

-- The other headers stay as they are.
pub insert-other :
    (f k : ℕ) (v : HeaderValue) (headers : Headers)
    → (f == k) ≡ false
    → lookup k (insert f v headers) ≡ lookup k headers
insert-other f k v headers other = lookup-insert f k v headers ∙ rw other refl

pub with_id-other :
    (k : ℕ) (id : List ℕ) (headers : Headers)
    → (field_message_id == k) ≡ false
    → lookup k (with_id id headers) ≡ lookup k headers
with_id-other k [] headers other = refl
with_id-other k (c ∷ id) headers other = insert-other field_message_id k _ headers other

pub with_first_to-other :
    (k : ℕ) (to : List (List ℕ)) (headers : Headers)
    → (field_to == k) ≡ false
    → lookup k (with_first_to to headers) ≡ lookup k headers
with_first_to-other k [] headers other = refl
with_first_to-other k (to ∷ rest) headers other = insert-other field_to k _ headers other

pub with_date-other :
    (k : ℕ) (t : Option ℕ) (headers : Headers)
    → (field_date == k) ≡ false
    → lookup k (with_date t headers) ≡ lookup k headers
with_date-other k none headers other = refl
with_date-other k (some t) headers other = insert-other field_date k _ headers other

with_subject-other :
    (k : ℕ) (s : List ℕ) (headers : Headers)
    → (field_subject == k) ≡ false
    → lookup k (with_subject s headers) ≡ lookup k headers
with_subject-other k [] headers other = refl
with_subject-other k (c ∷ s) headers other = insert-other field_subject k _ headers other

-- Behind the sender, only the recipient, the date and the subject are set.
pub lookup-retrieve_headers :
    (k : ℕ) (msg : Message) (headers : Headers)
    → (field_to == k) ≡ false
    → (field_date == k) ≡ false
    → (field_subject == k) ≡ false
    → lookup k (retrieve_headers msg headers)
      ≡ lookup k (
          insert field_from (new_from_value (or_insert msg.from)) (
            with_id msg.id
              (insert field_response_status (new_token_value field_response_status 0x80) headers)))
unfolding retrieve_headers
lookup-retrieve_headers k msg headers a b c =
    with_subject-other k msg.subject _ c
    ∙ with_date-other k msg.received_at _ b
    ∙ with_first_to-other k msg.to _ a
