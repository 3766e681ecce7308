-- ===== src/Queue/Fields.antt =====
-- The headers that internal/queue/dispatcher.go and internal/mm1/handler_mt.go set: their bytes, and
-- what is read of them.
use vectorcore_mmsc.Base.{
  ℕ, ◌<◌, List, [], ◌∷◌, length, is_empty, if◌then◌else◌, some, none, ok, ◌≡◌, refl, arith, ◌==◌,
}
use vectorcore_mmsc.Base.ByteMap.{lookup}
use vectorcore_mmsc.Base.ByteMap.Laws.{lookup-insert}
use vectorcore_mmsc.Mmspdu.Types.{kind_for_field, field_from, field_subject}
use vectorcore_mmsc.Mmspdu.Strings.{encode_text_string, normalize_address}
use vectorcore_mmsc.Mmspdu.Strings.RoundTrip.{
  IsText, decode-encode_text_string, decode-encode_encoded_string,
}
use vectorcore_mmsc.Mmspdu.Values.{
  new_text_value, new_token_value, new_from_value, new_encoded_string_value, value_text,
  value_token,
}
use vectorcore_mmsc.Mmspdu.Values.Raw.{encoded_string-IsRaw, from-IsRaw}
use vectorcore_mmsc.Mmspdu.Header.{Headers}
use vectorcore_mmsc.Mmspdu.Header.Delimit.{IsRaw}
use vectorcore_mmsc.Mmspdu.Header.RoundTrip.{IsHeaders}
use vectorcore_mmsc.Mmspdu.Codec.Received.{insert-IsHeaders}
use vectorcore_mmsc.Mmspdu.Messages.{text_at_field, token_at_field}
use vectorcore_mmsc.Queue.{with_subject}

pub with_subject-IsHeaders :
    (subject : List ℕ) (headers : Headers)
    → IsText subject
    → IsHeaders headers
    → IsHeaders (with_subject subject headers)
unfolding kind_for_field new_encoded_string_value
with_subject-IsHeaders [] headers h formed = formed
with_subject-IsHeaders (c ∷ s) headers h formed =
    insert-IsHeaders field_subject _ headers (omega arith) refl refl
      (encoded_string-IsRaw (c ∷ s) refl h) formed

pub from_field : (s : List ℕ) → (new_from_value s).field ≡ field_from
unfolding new_from_value
from_field s = ground arith

pub from_kind : (s : List ℕ) → (new_from_value s).kind ≡ kind_for_field field_from
unfolding new_from_value kind_for_field
from_kind s = ground arith

pub from_raw :
    (s : List ℕ)
    → length (encode_text_string (normalize_address s)) < 30
    → IsRaw (kind_for_field field_from) (new_from_value s).raw
unfolding kind_for_field
from_raw s short = from-IsRaw s short

pub lookup-with_subject :
    (k : ℕ) (subject : List ℕ) (headers : Headers)
    → lookup k (with_subject subject headers) ≡ (
        if is_empty subject
        then lookup k headers
        else (if field_subject == k
            then some (new_encoded_string_value field_subject subject)
            else lookup k headers))
lookup-with_subject k [] headers = refl
lookup-with_subject k (c ∷ s) headers = lookup-insert field_subject k _ headers

pub read_text :
    (f : ℕ) (s : List ℕ) (headers : Headers)
    → lookup f headers ≡ some (new_text_value f s)
    → IsText s
    → text_at_field f headers ≡ ok s
unfolding text_at_field value_text new_text_value
read_text f s headers found h = rw (found, text_at_field) (decode-encode_text_string s h)

pub read_token :
    (f t : ℕ) (headers : Headers)
    → lookup f headers ≡ some (new_token_value f t)
    → token_at_field f headers ≡ ok t
unfolding token_at_field value_token new_token_value
read_token f t headers found = rw (found, token_at_field) refl

pub read_subject :
    (s : List ℕ) (headers : Headers)
    → lookup field_subject headers
      ≡ (if is_empty s then none else some (new_encoded_string_value field_subject s))
    → IsText s
    → text_at_field field_subject headers ≡ ok s
unfolding text_at_field value_text new_encoded_string_value
read_subject [] headers found h = rw (found, text_at_field) refl
read_subject (c ∷ s) headers found h =
    rw (found, text_at_field) (decode-encode_encoded_string (c ∷ s) h)
