-- ===== src/Mmspdu/Multipart.antt =====
-- The encoder of internal/mmspdu/multipart.go: parts, their header blocks, and whole bodies.
pub mod Decode
pub mod Lines
pub mod Blocks
pub mod RoundTrip
use vectorcore_mmsc.Base.{
  ℕ, ◌^◌, ◌%◌, List, [], ◌∷◌, ◌++◌, length, is_empty, Option, none, some, Bool, true, false, ◌&&◌,
  leb, ◌==◌, if◌then◌else◌,
}
use vectorcore_mmsc.Base.Text.{codes, bytes_eq, to_lower}
use vectorcore_mmsc.Base.TextMap.{insert, keys, sort, text_at}
use vectorcore_mmsc.Mmspdu.Integers.{encode_uintvar}
use vectorcore_mmsc.Mmspdu.Strings.{encode_text_string, encode_quoted_string}
use vectorcore_mmsc.Mmspdu.ContentType.{encode_content_type_value, encode_text_or_empty}

-- The field `Data` is `payload` here.
pub record Part : Type 0 where
  pub headers : List (List ℕ × List ℕ)
  pub content_type : List ℕ
  pub content_type_params : List (List ℕ × List ℕ)
  pub payload : List ℕ

pub record MultipartBody : Type 0 where
  pub parts : List Part

unfoldable pub last_byte : List ℕ → ℕ
last_byte [] = 0
last_byte (b ∷ []) = b
last_byte (b ∷ c ∷ bs) = last_byte (c ∷ bs)

-- In angle brackets, unless the first and the last of two characters or more are these.
unfoldable pub ensure_angle_brackets : List ℕ → List ℕ
unfolding last_byte
ensure_angle_brackets (c ∷ d ∷ cs) =
    if c == b'<' && last_byte (d ∷ cs) == b'>'
    then c ∷ d ∷ cs
    else (b'<' ∷ c ∷ d ∷ cs) ++ (b'>' ∷ [])
ensure_angle_brackets cid = (b'<' ∷ cid) ++ (b'>' ∷ [])

-- The entries of the map, in some order, put under their keys in lower case.
unfoldable pub normalize_header_map :
    List (List ℕ × List ℕ) → List (List ℕ × List ℕ) → List (List ℕ × List ℕ)
normalize_header_map out [] = out
normalize_header_map out ((k, v) ∷ headers) =
    normalize_header_map (insert (to_lower k) v out) headers

-- The method `encodePartTextValue`.
unfoldable pub encode_part_text_value : List ℕ → List ℕ
encode_part_text_value value = encode_text_or_empty value

unfoldable pub encode_part_header : List ℕ → List ℕ → List ℕ
encode_part_header key value =
    if is_empty key
    then []
    else if bytes_eq key (codes "content-id")
    then 0xC0 ∷ encode_quoted_string (ensure_angle_brackets value)
    else if bytes_eq key (codes "content-location")
    then 0x8E ∷ encode_part_text_value value
    else encode_text_string key ++ encode_part_text_value value

unfoldable pub encode_part_header_lines : List (List ℕ × List ℕ) → List (List ℕ) → List ℕ
encode_part_header_lines headers [] = []
encode_part_header_lines headers (key ∷ ks) =
    encode_part_header key (text_at key headers) ++ encode_part_header_lines headers ks

-- The error of the Go function is always nil.
unfoldable pub encode_part_headers : Part → List ℕ
encode_part_headers part =
    let normal = normalize_header_map [] part.headers in
    encode_content_type_value
      (record { media_type = part.content_type; params = part.content_type_params })
    ++ encode_part_header_lines normal (sort (keys normal))

unfoldable pub encode_parts : List Part → List ℕ
encode_parts [] = []
encode_parts (part ∷ parts) =
    let block = encode_part_headers part in
    (encode_uintvar (length block % 2 ^ 64)
      ++ (encode_uintvar (length part.payload % 2 ^ 64) ++ (block ++ part.payload)))
    ++ encode_parts parts

-- No body has no bytes.
unfoldable pub encode_multipart : Option MultipartBody → List ℕ
unfolding encode_parts
encode_multipart none = []
encode_multipart (some body) =
    encode_uintvar (length body.parts % 2 ^ 64) ++ encode_parts body.parts
