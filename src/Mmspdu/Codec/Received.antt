-- ===== src/Mmspdu/Codec/Received.antt =====
-- The headers that `Encode` of internal/mmspdu/codec.go makes of a protocol data unit, and what
-- `Decode` makes of a map that holds them.
use vectorcore_mmsc.Base.{
  ℕ, ◌+◌, ◌<◌, bit_or, List, [], ◌∷◌, is_empty, some, false, ◌==◌, if◌then◌else◌, Bool-cases, ok,
  ◌≡◌, ◌≢◌, ◌⊎◌, inl, inr, refl, ◌∙◌, arith, ==_iff,
}
use vectorcore_mmsc.Base.Bits.{top_bit, low_bits, set_top_bit_left}
use vectorcore_mmsc.Base.Text.{codes}
use vectorcore_mmsc.Base.ByteMap.{lookup, insert, remove, keys, elem}
use vectorcore_mmsc.Base.ByteMap.Laws.{lookup-insert, lookup-remove, elem-keys}
use vectorcore_mmsc.Mmspdu.Types.{
  text, kind_for_field, field_message_type, field_transaction_id, field_mms_version,
}
use vectorcore_mmsc.Mmspdu.Integers.{encode_short_integer, decode_short_integer}
use vectorcore_mmsc.Mmspdu.Strings.{encode_text_string}
use vectorcore_mmsc.Mmspdu.Strings.RoundTrip.{
  IsText, decode-encode_text_string, encode_text_string_shape,
}
use vectorcore_mmsc.Mmspdu.Values.{
  HeaderValue, new_token_value, new_text_value, new_short_integer_value, value_token, value_text,
  value_integer,
}
use vectorcore_mmsc.Mmspdu.Header.{Headers}
use vectorcore_mmsc.Mmspdu.Header.Delimit.{IsRaw}
use vectorcore_mmsc.Mmspdu.Header.RoundTrip.{
  IsHeaders, AllRaw, AllRaw-of_present, insert_fields, lookup-insert_fields, decoded_if_present,
}
use vectorcore_mmsc.Mmspdu.Codec.{
  Pdu, Sections, decode, encode_version_string, decode_version_byte, with_message_type,
  with_transaction_id, with_mms_version, full_headers, decode_pdu_sections, message_type_of,
  transaction_id_of, mms_version_of,
}

some_eq : {A : Type 0} (x y : A) → some x ≡ some y → x ≡ y
some_eq x y e = cc

pub insert-IsHeaders :
    (k : ℕ) (v : HeaderValue) (headers : Headers)
    → k < 128
    → v.field ≡ k
    → v.kind ≡ kind_for_field k
    → IsRaw (kind_for_field k) v.raw
    → IsHeaders headers
    → IsHeaders (insert k v headers)
insert-IsHeaders k v headers low field kind raw formed = record { at_field = at }
  where
    at :
        (j : ℕ) (w : HeaderValue)
        → lookup j (insert k v headers) ≡ some w
        → (j < 128) × (w.field ≡ j) × (w.kind ≡ kind_for_field j) × IsRaw (kind_for_field j) w.raw
    at j w h = elim (Bool-cases (k == j)) [
      | inl same ↦
          let key : k ≡ j = (==_iff k j).0 same in
          let value : v ≡ w = some_eq v w (rw (lookup-insert k j v headers, same) at h) in
          rw (← key, ← value) (low, field, kind, raw)
      | inr other ↦ formed.at_field j w (rw (lookup-insert k j v headers, other) at h)
    ]

pub remove-IsHeaders :
    (k : ℕ) (headers : Headers) → IsHeaders headers → IsHeaders (remove k headers)
remove-IsHeaders k headers formed = record { at_field = at }
  where
    at :
        (j : ℕ) (w : HeaderValue)
        → lookup j (remove k headers) ≡ some w
        → (j < 128) × (w.field ≡ j) × (w.kind ≡ kind_for_field j) × IsRaw (kind_for_field j) w.raw
    at j w h = elim (Bool-cases (k == j)) [
      | inl same ↦ absurd (cc (rw (lookup-remove k j headers, same) at h))
      | inr other ↦ formed.at_field j w (rw (lookup-remove k j headers, other) at h)
    ]

abbrev pub IsVersion : List ℕ → Type 0
IsVersion v = (v ≡ codes "1.0") ⊎ ((v ≡ codes "1.1") ⊎ ((v ≡ codes "1.2") ⊎ (v ≡ codes "1.3")))

-- The three fields of the record are set, and each header has bytes of its kind.
pub record IsPdu (pdu : Pdu) : Type 0 where
  pub formed : IsHeaders pdu.headers
  pub typed : pdu.message_type ≢ 0
  pub identified : is_empty pdu.transaction_id ≡ false
  pub identifier : IsText pdu.transaction_id
  pub versioned : IsVersion pdu.mms_version

-- What `Encode` makes of the headers, with the version's byte.
abbrev pub version_value : Pdu → HeaderValue
version_value pdu = record {
  field = field_mms_version;
  kind = kind_for_field field_mms_version;
  raw = bit_or 0x80 (encode_version_string pdu.mms_version) ∷ [];
}

abbrev pub sent : Pdu → Headers
sent pdu = insert field_mms_version (version_value pdu) (
    insert field_transaction_id (new_text_value field_transaction_id pdu.transaction_id)
      (insert field_message_type (new_token_value field_message_type pdu.message_type) pdu.headers))

version_low : (s : List ℕ) → encode_version_string s < 128
unfolding encode_version_string
version_low s = ground arith

version_back : (s : List ℕ) → IsVersion s → decode_version_byte (encode_version_string s) ≡ s
unfolding decode_version_byte encode_version_string
version_back s (inl e) = rw e
version_back s (inr (inl e)) = rw e
version_back s (inr (inr (inl e))) = rw e
version_back s (inr (inr (inr e))) = rw e

version_set : (s : List ℕ) → IsVersion s → is_empty s ≡ false
version_set s (inl e) = rw e
version_set s (inr (inl e)) = rw e
version_set s (inr (inr (inl e))) = rw e
version_set s (inr (inr (inr e))) = rw e

new_version_value :
    (pdu : Pdu)
    → new_short_integer_value field_mms_version (encode_version_string pdu.mms_version)
      ≡ ok (version_value pdu)
unfolding new_short_integer_value encode_short_integer kind_for_field
new_version_value pdu = let low = version_low pdu.mms_version in ground arith

pub full_headers-sent : (pdu : Pdu) → IsPdu pdu → full_headers pdu ≡ ok (sent pdu)
unfolding full_headers with_message_type with_transaction_id with_mms_version
full_headers-sent pdu h =
    let typed : (pdu.message_type == 0) ≡ false = ground (arith, h.typed) in
    rw (version_set pdu.mms_version h.versioned, h.identified, typed, new_version_value pdu)

pub identifier-IsRaw :
    (s : List ℕ) → is_empty s ≡ false → IsText s → IsRaw text (encode_text_string s)
identifier-IsRaw [] some_ text_ = absurd (cc)
identifier-IsRaw (c ∷ s) some_ text_ =
    let (d, t, e, low, high, other, back) = encode_text_string_shape c s text_ in (d ∷ t, back, e)

pub sent-IsHeaders : (pdu : Pdu) → IsPdu pdu → IsHeaders (sent pdu)
unfolding kind_for_field new_text_value new_token_value
sent-IsHeaders pdu h =
    insert-IsHeaders field_mms_version _ _ (omega arith) refl refl (_, refl)
      (insert-IsHeaders field_transaction_id _ _ (omega arith) refl refl
        (identifier-IsRaw pdu.transaction_id h.identified h.identifier)
        (insert-IsHeaders field_message_type _ _ (omega arith) refl refl (_, refl) h.formed))

pub lookup-sent :
    (pdu : Pdu) (k : ℕ)
    → lookup k (sent pdu) ≡ (
        if field_mms_version == k
        then some (version_value pdu)
        else if field_transaction_id == k
        then some (new_text_value field_transaction_id pdu.transaction_id)
        else if field_message_type == k
        then some (new_token_value field_message_type pdu.message_type)
        else lookup k pdu.headers)
lookup-sent pdu k = rw (lookup-insert, lookup-insert, lookup-insert)

short_integer_back : (v : ℕ) → v < 128 → decode_short_integer (bit_or 0x80 v ∷ []) ≡ ok v
unfolding decode_short_integer
short_integer_back v h = ground (arith, set_top_bit_left v, top_bit (v + 128), low_bits (v + 128))

-- A map with the fields of `sent`, in whatever order.
module _ (pdu : Pdu) (h : IsPdu pdu) (headers : Headers)
    (same : (k : ℕ) → lookup k headers ≡ lookup k (sent pdu)) where
  message_type-sent : message_type_of headers ≡ ok pdu.message_type
  unfolding new_token_value value_token message_type_of
  message_type-sent =
      rw (same field_message_type ∙ lookup-sent pdu field_message_type, message_type_of)

  transaction_id-sent : transaction_id_of headers ≡ ok pdu.transaction_id
  unfolding new_text_value value_text transaction_id_of
  transaction_id-sent =
      rw (same field_transaction_id ∙ lookup-sent pdu field_transaction_id, transaction_id_of)
        (decode-encode_text_string pdu.transaction_id h.identifier)

  mms_version-sent : mms_version_of headers ≡ ok pdu.mms_version
  unfolding value_integer kind_for_field mms_version_of
  mms_version-sent =
      rw (same field_mms_version ∙ lookup-sent pdu field_mms_version, mms_version_of)
        (rw (short_integer_back _ (version_low pdu.mms_version))
          (ground (arith, version_low pdu.mms_version, version_back pdu.mms_version h.versioned)))

  others-sent :
      (k : ℕ)
      → k ≢ field_message_type
      → k ≢ field_transaction_id
      → k ≢ field_mms_version
      → lookup k headers ≡ lookup k pdu.headers
  others-sent k a b c = ground (arith, same k, lookup-sent pdu k)

-- What is received of a unit: the three fields of the record, and every other header of the map.
pub record IsReceivedPdu (pdu q : Pdu) : Type 0 where
  pub message_type : q.message_type ≡ pdu.message_type
  pub transaction_id : q.transaction_id ≡ pdu.transaction_id
  pub mms_version : q.mms_version ≡ pdu.mms_version
  pub headers :
      (k : ℕ)
      → k ≢ field_message_type
      → k ≢ field_transaction_id
      → k ≢ field_mms_version
      → lookup k q.headers ≡ lookup k pdu.headers

-- The unit that `Decode` makes of the sections.
pub received_pdu :
    (pdu : Pdu)
    → IsPdu pdu
    → (bytes : List ℕ) (s : Sections) → decode_pdu_sections bytes ≡ ok s
    → ((k : ℕ) → lookup k s.headers ≡ lookup k (sent pdu))
    → (q : Pdu) × (decode bytes ≡ ok q) × IsReceivedPdu pdu q × (q.body ≡ s.body)
unfolding decode
received_pdu pdu h bytes s read same = (
  record {
    message_type = pdu.message_type;
    transaction_id = pdu.transaction_id;
    mms_version = pdu.mms_version;
    headers = s.headers;
    header_order = s.order;
    body = s.body;
  },
  rw (
    read,
    message_type-sent pdu h s.headers same,
    transaction_id-sent pdu h s.headers same,
    mms_version-sent pdu h s.headers same,
  ),
  record {
    message_type = refl;
    transaction_id = refl;
    mms_version = refl;
    headers = others-sent pdu h s.headers same;
  },
  refl,
)

-- The fields that are written of a map are put into the map that is read.
pub lookup-written :
    (headers : Headers)
    → IsHeaders headers
    → (fs : List ℕ) → ((k : ℕ) → elem k fs ≡ elem k (keys headers))
    → (k : ℕ) → lookup k (insert_fields headers fs []) ≡ lookup k headers
lookup-written headers formed fs all k =
    lookup-insert_fields headers k fs []
    ∙ rw (all k, elem-keys k headers) (unfold lookup in decoded_if_present headers formed k)

pub AllRaw-of_written :
    (headers : Headers)
    → IsHeaders headers
    → (fs : List ℕ) → ((k : ℕ) → elem k fs ≡ elem k (keys headers))
    → AllRaw headers fs
AllRaw-of_written headers formed fs all =
    AllRaw-of_present headers formed fs (λ k h. ground (arith, all k, elem-keys k headers))
