-- ===== src/Mmspdu/ContentType.antt =====
-- internal/mmspdu/content_type.go: media types and their parameters, well known and as text.
pub mod Tables
pub mod Decode
pub mod Laws
use vectorcore_mmsc.Base.{
  ℕ, ◌^◌, List, [], ◌∷◌, ◌++◌, length, map, is_empty, Option, none, some, Bool, true, false, ◌&&◌,
  not, ltb, leb, if◌then◌else◌, Result, ok, err, not_content_type, ◌==◌, ◌%◌,
}
use vectorcore_mmsc.Base.Text.{codes, bytes_eq, to_lower, trim_space}
use vectorcore_mmsc.Base.TextMap.{lookup, keys, sort, text_at}
use vectorcore_mmsc.Mmspdu.Types.{field_content_type, octets}
use vectorcore_mmsc.Mmspdu.Integers.{encode_uintvar}
use vectorcore_mmsc.Mmspdu.Strings.{encode_text_string, encode_quoted_string}
use vectorcore_mmsc.Mmspdu.Values.{HeaderValue}
use Tables.{well_known_media_type_tokens, well_known_content_type_param_tokens}

pub record ContentTypeValue : Type 0 where
  pub media_type : List ℕ
  pub params : List (List ℕ × List ℕ)

-- Printable ASCII, and not empty.
unfoldable pub printable : List ℕ → Bool
printable [] = true
printable (c ∷ cs) = (leb 0x20 c && ltb c 0x7f) && printable cs

unfoldable pub is_valid_media_type_text : List ℕ → Bool
unfolding printable
is_valid_media_type_text value = not (is_empty value) && printable value

-- The lower case of the trimmed name, or the default where that is no printable text.
unfoldable pub normal_media_type : List ℕ → List ℕ
normal_media_type name =
    let media = to_lower (trim_space name) in
    if is_valid_media_type_text media then media else codes "application/octet-stream"

-- A well-known token if there is one for the name, else a text string.
unfoldable pub encode_media_type : List ℕ → List ℕ
encode_media_type media = elim (lookup media well_known_media_type_tokens) [
  | some t ↦ t ∷ []
  | none ↦ encode_text_string media
]

unfoldable pub encode_param_name : List ℕ → List ℕ
encode_param_name key = elim (lookup key well_known_content_type_param_tokens) [
  | some t ↦ t ∷ []
  | none ↦ encode_text_string key
]

unfoldable pub encode_text_or_empty : List ℕ → List ℕ
encode_text_or_empty value =
    if is_empty value then encode_quoted_string [] else encode_text_string value

-- The value of "type" is a media type token if there is one.
unfoldable pub encode_param_value : List ℕ → List ℕ → List ℕ
encode_param_value key value =
    if bytes_eq key (codes "type")
    then elim (lookup (to_lower value) well_known_media_type_tokens) [
      | some t ↦ t ∷ []
      | none ↦ encode_text_or_empty value
    ]
    else encode_text_or_empty value

-- The loop over the sorted keys in lower case; each value is looked up under that key.
unfoldable pub encode_params : List (List ℕ × List ℕ) → List (List ℕ) → List ℕ
encode_params params [] = []
encode_params params (key ∷ ks) =
    (encode_param_name key ++ encode_param_value key (text_at key params))
    ++ encode_params params ks

-- A short length, or a Length-quote and a Uintvar-integer.
unfoldable pub with_value_length : List ℕ → List ℕ
with_value_length payload =
    if leb (length payload) 30
    then (length payload % 256) ∷ payload
    else (0x1F ∷ encode_uintvar (length payload % 2 ^ 64)) ++ payload

unfoldable pub encode_content_type_value : ContentTypeValue → List ℕ
encode_content_type_value value =
    let media = normal_media_type value.media_type in
    if is_empty value.params
    then encode_media_type media
    else with_value_length (
        encode_media_type media
        ++ encode_params value.params (sort (map to_lower (keys value.params))))

unfoldable pub new_content_type_value : List ℕ → List (List ℕ × List ℕ) → HeaderValue
new_content_type_value media_type params = record {
  field = field_content_type;
  kind = octets;
  raw = encode_content_type_value (record { media_type = media_type; params = params });
}
