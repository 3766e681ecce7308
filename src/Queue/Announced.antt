-- ===== src/Queue/Announced.antt =====
-- What the headers of a notification of internal/queue/dispatcher.go say to the recipient.
use vectorcore_mmsc.Base.{
  ℕ, suc, ◌+◌, ◌-◌, ◌*◌, ◌^◌, ◌<◌, ◌≤◌, List, [], ◌∷◌, ◌++◌, length, true, Bool-cases, Option, some,
  none, ok, ◌≡◌, ◌⊎◌, inl, inr, refl, ap, ◌∙◌, arith,
}
use vectorcore_mmsc.Base.Text.{codes, bytes_eq, bytes_eq→eq}
use vectorcore_mmsc.Message.{MessageClass, personal, advertisement, informational, auto}
use vectorcore_mmsc.Mmspdu.Types.{field_message_size, field_expiry}
use vectorcore_mmsc.Mmspdu.Integers.{encode_long_integer}
use vectorcore_mmsc.Mmspdu.Strings.{encode_text_string, normalize_address, is_insert_address_token}
use vectorcore_mmsc.Mmspdu.Strings.RoundTrip.{IsText}
use vectorcore_mmsc.Mmspdu.Values.{
  HeaderValue, new_from_value, new_long_integer_value, new_relative_date_value, value_text,
  value_integer, value_time, after_now, is_insert_address,
}
use vectorcore_mmsc.Mmspdu.Values.RoundTrip.{
  has_token_lead, value_integer-new_long_integer, value_time-new_relative_date,
  value_text-new_from_value,
}
use vectorcore_mmsc.Queue.{message_class, notification_expiry_seconds, content_location, or_insert}

-- There is a week, or a second where the expiry has passed, or the nearest number of seconds, which
-- stops at the longest duration.
abbrev pub ExpirySeconds : ℕ → Option ℕ → ℕ → Type 0
ExpirySeconds now none seconds = seconds ≡ 604800
ExpirySeconds now (some t) seconds =
    ((t ≤ now) × (seconds ≡ 1))
    ⊎ (((now < t)
          × (seconds * 1000000000 ≤ (t - now) + 500000000)
          × ((t - now) + 500000000 < suc seconds * 1000000000))
        ⊎ ((now < t) × (9223372036500000000 ≤ t - now) × (seconds ≡ 9223372036)))

pub expiry_seconds_lem :
    (now : ℕ) (expiry : Option ℕ)
    → ExpirySeconds now expiry (notification_expiry_seconds now expiry)
unfolding notification_expiry_seconds
expiry_seconds_lem now none = refl
expiry_seconds_lem now (some t) = ground arith

pub expiry_seconds_fit :
    (now : ℕ) (expiry : Option ℕ) → notification_expiry_seconds now expiry ≤ 9223372036
unfolding notification_expiry_seconds
expiry_seconds_fit now none = omega arith
expiry_seconds_fit now (some t) = ground arith

-- The page of the message: a relative one where no base is configured.
abbrev pub page_of : List ℕ → List ℕ → List ℕ
page_of [] id = codes "/mms/retrieve?id=" ++ id
page_of (c ∷ base) id = c ∷ (base ++ (codes "?id=" ++ id))

pub page_location : (base id : List ℕ) → content_location base id ≡ page_of base id
unfolding content_location
page_location [] id = refl
page_location (c ∷ base) id = refl

abbrev pub ClassToken : MessageClass → ℕ → Type 0
ClassToken personal t = t ≡ 0x80
ClassToken advertisement t = t ≡ 0x81
ClassToken informational t = t ≡ 0x82
ClassToken auto t = t ≡ 0x83

pub class_token_lem : (c : MessageClass) → ClassToken c (message_class c)
unfolding message_class
class_token_lem personal = refl
class_token_lem advertisement = refl
class_token_lem informational = refl
class_token_lem auto = refl

-- The sender is to be inserted where the message has none, and else is its normal form.
abbrev pub SenderRead : List ℕ → HeaderValue → Type 0
SenderRead from v =
    (((from ≡ []) ⊎ (from ≡ codes "#insert")) × (is_insert_address v ≡ true))
    ⊎ (value_text v ≡ ok (normalize_address from))

insert_sender :
    (s : List ℕ) → bytes_eq s (codes "#insert") ≡ true → is_insert_address (new_from_value s) ≡ true
unfolding new_from_value is_insert_address is_insert_address_token
insert_sender s h = rw h refl

-- The value of a header is the size, unless the first byte of the size is one of two tokens, which
-- the method that reads it takes for a part of a date.
abbrev pub SizeRead : ℕ → HeaderValue → Type 0
SizeRead size v = (value_integer v ≡ ok size) ⊎ (has_token_lead (encode_long_integer size) ≡ true)

pub size_read_lem :
    (size : ℕ) → size < 2 ^ 64 → SizeRead size (new_long_integer_value field_message_size size)
size_read_lem size fits = elim (Bool-cases (has_token_lead (encode_long_integer size))) [
  | inl lead ↦ inr lead
  | inr plain ↦ inl (value_integer-new_long_integer field_message_size size fits plain)
]

pub sender_read :
    (s : List ℕ)
    → IsText s
    → length (encode_text_string (normalize_address (or_insert s))) < 30
    → SenderRead s (new_from_value (or_insert s))
sender_read [] text_ short = inl (inl refl, insert_sender (codes "#insert") refl)
sender_read (c ∷ s) text_ short = elim (Bool-cases (bytes_eq (c ∷ s) (codes "#insert"))) [
  | inl insert_ ↦
      inl (inr (bytes_eq→eq (c ∷ s) (codes "#insert") insert_), insert_sender (c ∷ s) insert_)
  | inr other ↦ inr (value_text-new_from_value (c ∷ s) text_ other short)
]

pub expiry_read :
    (now : ℕ) (expiry : Option ℕ)
    → value_time (new_relative_date_value field_expiry (notification_expiry_seconds now expiry))
      ≡ ok (after_now (notification_expiry_seconds now expiry * 1000000000))
expiry_read now expiry =
    value_time-new_relative_date field_expiry (notification_expiry_seconds now expiry)
      (omega (arith, expiry_seconds_fit now expiry))
    ∙ ap (λ n. ok (after_now n)) (omega (arith, expiry_seconds_fit now expiry))
