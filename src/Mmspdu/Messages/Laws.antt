-- ===== src/Mmspdu/Messages/Laws.antt =====
-- Units of internal/mmspdu/pdu_*.go: what is read of a delivery report, what arrives of a send
-- confirmation and of a retrieve confirmation, and which parts are delivered.
use vectorcore_mmsc.Base.{
  ℕ, ◌<◌, ◌≤◌, ◌^◌, List, [], ◌∷◌, length, is_empty, All, some, true, false, Bool-cases, ok, ◌≡◌,
  ◌⊎◌, inl, inr, refl, arith,
}
use vectorcore_mmsc.Base.Text.{codes, equal_fold, to_lower, trim_space, trim_left}
use vectorcore_mmsc.Base.TextMap
use vectorcore_mmsc.Base.ByteMap.{lookup, insert}
use vectorcore_mmsc.Mmspdu.Types.{
  kind_for_field, field_message_id, field_date, field_transaction_id, field_response_status,
  field_content_type,
}
use vectorcore_mmsc.Mmspdu.Strings.{normalize_address}
use vectorcore_mmsc.Mmspdu.Strings.RoundTrip.{IsText, decode-encode_text_string}
use vectorcore_mmsc.Mmspdu.Strings.Address.{decode_address-normalize_address}
use vectorcore_mmsc.Mmspdu.Values.{
  new_text_value, new_token_value, new_date_value, new_address_value, value_text, value_token,
}
use vectorcore_mmsc.Mmspdu.Header.RoundTrip.{IsHeaders}
use vectorcore_mmsc.Mmspdu.ContentType.Tables.{well_known_media_type_tokens}
use vectorcore_mmsc.Mmspdu.ContentType.{
  new_content_type_value, encode_content_type_value, encode_media_type, normal_media_type,
  is_valid_media_type_text, printable,
}
use vectorcore_mmsc.Mmspdu.Multipart.{Part}
use vectorcore_mmsc.Mmspdu.Multipart.RoundTrip.{IsSendable, AllReceived}
use vectorcore_mmsc.Mmspdu.Codec.{Pdu, encode, decode}
use vectorcore_mmsc.Mmspdu.Codec.Received.{IsPdu, IsReceivedPdu, insert-IsHeaders, identifier-IsRaw}
use vectorcore_mmsc.Mmspdu.Codec.RoundTrip.{decode-encode}
use vectorcore_mmsc.Mmspdu.Codec.WithBody.{decode-encode_with_body}
use vectorcore_mmsc.Mmspdu.Messages.{
  new_delivery_ind, text_at_field, token_at_field, parse_delivery_ind, new_send_conf, not_smil,
  strip_smil_parts, content_type_from_parts, new_retrieve_conf,
}

-- A delivery report made of a message id and a recipient that are texts is parsed to that
-- message id, the normal form of the recipient, and the status and date it was made of.
pub parse_delivery_ind-new :
    (now status : ℕ) (message_id to : List ℕ)
    → IsText message_id
    → IsText to
    → parse_delivery_ind (some (new_delivery_ind now message_id to status))
      ≡ ok (record {
        message_id = message_id;
        to = normalize_address to;
        status = status;
        date = some (new_date_value field_date now);
      })
unfolding parse_delivery_ind new_delivery_ind text_at_field token_at_field lookup insert value_text
    new_text_value new_address_value value_token new_token_value
parse_delivery_ind-new now status message_id to id_text to_text =
    rw (decode-encode_text_string message_id id_text, decode_address-normalize_address to to_text)

pub empty-IsHeaders : IsHeaders []
unfolding lookup
empty-IsHeaders = record { at_field = λ k v found. absurd (cc found) }

send_conf-IsPdu :
    (transaction_id message_id : List ℕ) (status : ℕ)
    → is_empty transaction_id ≡ false
    → IsText transaction_id
    → is_empty message_id ≡ false
    → IsText message_id
    → IsPdu (new_send_conf transaction_id message_id status)
unfolding new_send_conf kind_for_field new_text_value new_token_value
send_conf-IsPdu transaction_id message_id status a b c d = record {
  formed =
      insert-IsHeaders field_transaction_id _ _ (omega arith) refl refl
        (identifier-IsRaw transaction_id a b)
        (insert-IsHeaders field_message_id _ _ (omega arith) refl refl
          (identifier-IsRaw message_id c d)
          (insert-IsHeaders field_response_status _ _ (omega arith) refl refl (_, refl)
            empty-IsHeaders));
  typed = λ e. omega arith;
  identified = a;
  identifier = b;
  versioned = inr (inr (inr refl));
}

send_conf-fields :
    (transaction_id message_id : List ℕ) (status : ℕ) (q : Pdu)
    → IsText message_id
    → IsReceivedPdu (new_send_conf transaction_id message_id status) q
    → (q.transaction_id ≡ transaction_id)
      × (text_at_field field_message_id q.headers ≡ ok message_id)
      × (token_at_field field_response_status q.headers ≡ ok status)
unfolding new_send_conf text_at_field token_at_field lookup insert value_text new_text_value
    value_token new_token_value
send_conf-fields transaction_id message_id status q d same = (
  same.transaction_id,
  rw
      (
        same.headers field_message_id (λ e. omega arith) (λ e. omega arith) (λ e. omega arith),
        text_at_field,
      )
      (decode-encode_text_string message_id d),
  rw (
    same.headers field_response_status (λ e. omega arith) (λ e. omega arith) (λ e. omega arith),
    token_at_field,
  ),
)

-- A send confirmation made of a transaction id and a message id that are texts and not empty
-- is encoded, and of what is decoded the transaction id, the message id and the response
-- status are those it was made of.
pub new_send_conf-received :
    (transaction_id message_id : List ℕ) (status : ℕ)
    → is_empty transaction_id ≡ false
    → IsText transaction_id
    → is_empty message_id ≡ false
    → IsText message_id
    → (bytes : List ℕ) × (q : Pdu) × (encode (some (new_send_conf transaction_id message_id status))
        ≡ ok bytes)
      × (decode bytes ≡ ok q)
      × (q.transaction_id ≡ transaction_id)
      × (text_at_field field_message_id q.headers ≡ ok message_id)
      × (token_at_field field_response_status q.headers ≡ ok status)
new_send_conf-received transaction_id message_id status a b c d =
    let (bytes, q, sent, got, same, body) =
      decode-encode (new_send_conf transaction_id message_id status)
        (send_conf-IsPdu transaction_id message_id status a b c d) (unfold new_send_conf in refl)
        (unfold new_send_conf lookup insert in refl) in
    let (identity, its_id, its_status) =
      send_conf-fields transaction_id message_id status q d same in
    (bytes, q, sent, got, identity, its_id, its_status)

-- The part is a presentation.
abbrev pub IsSmil : Part → Type 0
IsSmil p = equal_fold p.content_type (codes "application/smil") ≡ true

abbrev pub IsMedia : Part → Type 0
IsMedia p = equal_fold p.content_type (codes "application/smil") ≡ false

not_smil-none : (parts : List Part) → is_empty (not_smil parts) ≡ true → All IsSmil parts
unfolding not_smil
not_smil-none [] h = tt
not_smil-none (p ∷ parts) h =
    elim (Bool-cases (equal_fold p.content_type (codes "application/smil"))) [
      | inl smil ↦ (smil, not_smil-none parts (rw smil at h))
      | inr media ↦ absurd (cc (rw media at h))
    ]

-- The parts that are left when the presentations are taken out, in their order.
pub data WithoutSmil : List Part → List Part → Type 0 where
  no_parts : WithoutSmil [] []
  left_out :
      (p : Part) {parts kept : List Part}
      → IsSmil p
      → WithoutSmil parts kept
      → WithoutSmil (p ∷ parts) kept
  kept_in :
      (p : Part) {parts kept : List Part}
      → IsMedia p
      → WithoutSmil parts kept
      → WithoutSmil (p ∷ parts) (p ∷ kept)

-- What is delivered of the parts: those without the presentations, or all where there are no others.
abbrev pub IsDelivered : List Part → List Part → Type 0
IsDelivered parts kept =
    (All IsSmil parts × (kept ≡ parts)) ⊎ (WithoutSmil parts kept × (is_empty kept ≡ false))

not_smil-WithoutSmil : (parts : List Part) → WithoutSmil parts (not_smil parts)
unfolding not_smil
not_smil-WithoutSmil [] = no_parts
not_smil-WithoutSmil (p ∷ parts) =
    elim (Bool-cases (equal_fold p.content_type (codes "application/smil"))) [
      | inl smil ↦ rw smil (left_out p smil (not_smil-WithoutSmil parts))
      | inr media ↦ rw media (kept_in p media (not_smil-WithoutSmil parts))
    ]

pub strip_smil_parts-IsDelivered : (parts : List Part) → IsDelivered parts (strip_smil_parts parts)
unfolding strip_smil_parts
strip_smil_parts-IsDelivered parts = elim (Bool-cases (is_empty (not_smil parts))) [
  | inl none_ ↦ inl (not_smil-none parts none_, rw none_ refl)
  | inr more ↦ inr (rw more (not_smil-WithoutSmil parts), rw more more)
]

not_smil-All : (P : Part → Type 0) (parts : List Part) → All P parts → All P (not_smil parts)
unfolding not_smil
not_smil-All P [] h = tt
not_smil-All P (p ∷ parts) h =
    elim (Bool-cases (equal_fold p.content_type (codes "application/smil"))) [
      | inl smil ↦ rw smil (not_smil-All P parts h.1)
      | inr media ↦ rw media (h.0, not_smil-All P parts h.1)
    ]

length-not_smil : (parts : List Part) → length (not_smil parts) ≤ length parts
unfolding not_smil
length-not_smil [] = omega arith
length-not_smil (p ∷ parts) = ground (arith, length-not_smil parts)

pub strip_smil_parts-All :
    (P : Part → Type 0) (parts : List Part) → All P parts → All P (strip_smil_parts parts)
unfolding strip_smil_parts
strip_smil_parts-All P parts h = elim (Bool-cases (is_empty (not_smil parts))) [
  | inl none_ ↦ rw none_ h
  | inr more ↦ rw more (not_smil-All P parts h)
]

pub length-strip_smil_parts : (parts : List Part) → length (strip_smil_parts parts) ≤ length parts
unfolding strip_smil_parts
length-strip_smil_parts parts = ground (arith, length-not_smil parts)

pub retrieve_conf-IsPdu :
    (transaction_id : List ℕ) (parts : List Part)
    → is_empty transaction_id ≡ false
    → IsText transaction_id
    → IsPdu (new_retrieve_conf transaction_id parts)
unfolding new_retrieve_conf kind_for_field new_text_value new_content_type_value
    encode_content_type_value encode_media_type TextMap.lookup well_known_media_type_tokens
    normal_media_type is_valid_media_type_text printable to_lower trim_space trim_left
retrieve_conf-IsPdu transaction_id parts a b = record {
  formed =
      insert-IsHeaders field_transaction_id _ _ (omega arith) refl refl
        (identifier-IsRaw transaction_id a b)
        (insert-IsHeaders field_content_type _ _ (omega arith) refl refl
          (inr (inl (0xA3, refl, omega arith))) empty-IsHeaders);
  typed = λ e. omega arith;
  identified = a;
  identifier = b;
  versioned = inr (inr (inr refl));
}

-- A retrieve confirmation made of a transaction id that is a text and not empty and of fewer
-- than 2^35 sendable parts (no content type parameters, headers that are texts with keys that
-- are not empty, lengths below 2^35) is encoded, and what is decoded has that transaction id
-- and a body with the parts that are delivered, in their order.
pub new_retrieve_conf-received :
    (transaction_id : List ℕ) (parts : List Part)
    → is_empty transaction_id ≡ false
    → IsText transaction_id
    → All IsSendable parts
    → length parts < 2 ^ 35
    → (bytes : List ℕ) × (q : Pdu) × (received : List Part) × (encode
          (some (new_retrieve_conf transaction_id parts))
        ≡ ok bytes)
      × (decode bytes ≡ ok q)
      × (q.transaction_id ≡ transaction_id)
      × (q.body ≡ some (record { parts = received }))
      × AllReceived (strip_smil_parts parts) received
unfolding new_retrieve_conf lookup insert
new_retrieve_conf-received transaction_id parts a b sendable few =
    let (bytes, q, received, sent, got, same, body, arrived) =
      decode-encode_with_body (new_retrieve_conf transaction_id parts) (strip_smil_parts parts)
        (content_type_from_parts (strip_smil_parts parts))
        (retrieve_conf-IsPdu transaction_id parts a b) refl refl
        (strip_smil_parts-All IsSendable parts sendable)
        (omega (arith, length-strip_smil_parts parts)) in
    (bytes, q, received, sent, got, same.transaction_id, body, arrived)
