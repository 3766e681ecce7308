-- ===== src/Mmspdu/Header/RoundTrip.antt =====
-- `DecodeHeaders` after `EncodeHeaders` of internal/mmspdu/header.go, and the fuel of its loop.
use vectorcore_mmsc.Base.{
  ℕ, zero, suc, ◌+◌, ◌<◌, ◌≤◌, bit_or, List, [], ◌∷◌, ◌++◌, length, append-nil, append_assoc,
  is_empty, none, some, Option-cases, Result-cases, true, false, if◌then◌else◌, ok, ◌≡◌, ◌≢◌, inl,
  inr, refl, ap, ◌∙◌, arith,
}
use vectorcore_mmsc.Base.Bits.{top_bit, low_bits, set_top_bit_left}
use vectorcore_mmsc.Base.ByteMap.{lookup, insert, keys, sort, elem}
use vectorcore_mmsc.Base.ByteMap.Laws.{is_some, lookup-insert, elem-keys, elem-sort}
use vectorcore_mmsc.Mmspdu.Types.{
  FieldKind, unknown, octets, text, encoded_string, token, short_integer, long_integer, date,
  address, kind_for_field,
}
use vectorcore_mmsc.Mmspdu.Values.{HeaderValue}
use vectorcore_mmsc.Mmspdu.Reader.{Reader, read_byte}
use vectorcore_mmsc.Mmspdu.Header.{
  Headers, encode_header_name, decode_header_name, decode_header_value, decode_header,
  decode_headers_loop, decode_headers, raw_of, encode_fields, encode_headers, settle,
}
use vectorcore_mmsc.Mmspdu.Header.Delimit.{
  IsRaw, decode_header_value-raw, length-decode_header_value,
}

length-decode_header_name :
    (r : Reader) (f : ℕ) (r' : Reader) → decode_header_name r ≡ ok (f, r') → length r' < length r
unfolding decode_header_name
length-decode_header_name [] f r' e = cc
length-decode_header_name (b ∷ r) f r' e = ground arith

-- A header takes a byte at least.
pub length-decode_header :
    (r : Reader) (f : ℕ) (v : HeaderValue) (r' : Reader)
    → decode_header r ≡ ok (f, v, r')
    → length r' < length r
unfolding decode_header
length-decode_header r f v r' e = elim (Result-cases (decode_header_name r)) [
  | inl ((g, s), p) ↦ elim (Result-cases (decode_header_value (kind_for_field g) s)) [
    | inl ((raw, t), q) ↦ ground (
      arith,
      length-decode_header_name r g s p,
      length-decode_header_value (kind_for_field g) s raw t q,
    )
    | inr (x, q) ↦ ground arith
  ]
  | inr (x, p) ↦ ground arith
]

-- The loop over a block of headers ends with a result where the fuel is at least the length of
-- the input.
pub decode_headers_loop-enough :
    (fuel : ℕ) (r : Reader) (headers : Headers)
    → length r ≤ fuel
    → decode_headers_loop fuel r headers ≢ none
unfolding decode_headers_loop
decode_headers_loop-enough fuel [] headers h = λ e. cc
decode_headers_loop-enough zero (b ∷ r) headers h = absurd (omega arith)
decode_headers_loop-enough (suc fuel) (b ∷ r) headers h =
    elim (Result-cases (decode_header (b ∷ r))) [
      | inl ((f, v, s), p) ↦
          rw (p, decode_headers_loop)
            (decode_headers_loop-enough fuel s (insert f v headers)
              (omega (arith, length-decode_header (b ∷ r) f v s p)))
      | inr (x, p) ↦ rw (p, decode_headers_loop) (λ e. cc)
    ]

pub decode_header_name-encode :
    (f : ℕ) (r : Reader) → f < 128 → decode_header_name (encode_header_name f ++ r) ≡ ok (f, r)
unfolding decode_header_name encode_header_name
decode_header_name-encode f r low =
    ground (arith, set_top_bit_left f, top_bit (f + 128), low_bits (f + 128))

pub encode_header_name_byte : (f : ℕ) → f < 128 → encode_header_name f ≡ bit_or 0x80 f ∷ []
unfolding encode_header_name
encode_header_name_byte f low = ground arith

-- A header that the encoder writes is decoded to its field, its kind and its bytes.
pub decode_header-field :
    (f : ℕ) (raw rest : List ℕ)
    → f < 128
    → IsRaw (kind_for_field f) raw
    → decode_header ((encode_header_name f ++ raw) ++ rest)
      ≡ ok (f, record { field = f; kind = kind_for_field f; raw = raw }, rest)
unfolding decode_header
decode_header-field f raw rest low h = rw (append_assoc (encode_header_name f) raw rest) (
    rw (decode_header_name-encode f (raw ++ rest) low)
      (rw (decode_header_value-raw (kind_for_field f) raw rest h)))

-- What the decoder makes of a field of `headers`.
abbrev pub decoded : Headers → ℕ → HeaderValue
decoded headers f = record { field = f; kind = kind_for_field f; raw = raw_of f headers }

abbrev pub field_bytes : Headers → List ℕ → List ℕ
field_bytes headers [] = []
field_bytes headers (f ∷ fs) = (encode_header_name f ++ raw_of f headers) ++ field_bytes headers fs

abbrev pub insert_fields : Headers → List ℕ → Headers → Headers
insert_fields headers [] acc = acc
insert_fields headers (f ∷ fs) acc = insert_fields headers fs (insert f (decoded headers f) acc)

-- Each field of the list is below 128 and has bytes of its kind.
abbrev pub AllRaw : Headers → List ℕ → Type 0
AllRaw headers [] = Unit {0}
AllRaw headers (f ∷ fs) =
    (f < 128) × IsRaw (kind_for_field f) (raw_of f headers) × AllRaw headers fs

IsRaw-not_empty : (k : FieldKind) (raw : List ℕ) → IsRaw k raw → is_empty raw ≡ false
IsRaw-not_empty text raw (s, h, e) = rw e (some_last s)
  where
    some_last : (xs : List ℕ) → is_empty (xs ++ (0 ∷ [])) ≡ false
    some_last [] = refl
    some_last (x ∷ xs) = refl
IsRaw-not_empty encoded_string raw (s, h, e) = rw e (some_last s)
  where
    some_last : (xs : List ℕ) → is_empty (xs ++ (0 ∷ [])) ≡ false
    some_last [] = refl
    some_last (x ∷ xs) = refl
IsRaw-not_empty address raw (inl (n, bs, e, len, low)) = rw e
IsRaw-not_empty address raw (inr (c, s, h, e, low)) = rw e
IsRaw-not_empty token raw (b, e) = rw e
IsRaw-not_empty short_integer raw (b, e) = rw e
IsRaw-not_empty long_integer raw (n, bs, e, len) = rw e
IsRaw-not_empty date raw (n, bs, e, len) = rw e
IsRaw-not_empty octets raw (inl (n, bs, e, len, low)) = rw e
IsRaw-not_empty octets raw (inr (inl (b, e, low))) = rw e
IsRaw-not_empty octets raw (inr (inr (payload, e, fits))) = rw e
IsRaw-not_empty unknown raw h = absurd h

-- The encoder writes the fields behind one another.
pub encode_fields-bytes :
    (headers : Headers) (fs out : List ℕ)
    → AllRaw headers fs
    → encode_fields headers fs out ≡ ok (out ++ field_bytes headers fs)
unfolding encode_fields
encode_fields-bytes headers [] out h = rw (append-nil out)
encode_fields-bytes headers (f ∷ fs) out h =
    rw (IsRaw-not_empty (kind_for_field f) (raw_of f headers) h.1) (
      encode_fields-bytes headers fs _ h.2
      ∙ ap ok
          (append_assoc out (encode_header_name f ++ raw_of f headers) (field_bytes headers fs)))

decode_headers_loop_step :
    (fuel : ℕ) (r : Reader) (acc : Headers) (f : ℕ) (v : HeaderValue) (r' : Reader)
    → decode_header r ≡ ok (f, v, r')
    → decode_headers_loop (suc fuel) r acc ≡ decode_headers_loop fuel r' (insert f v acc)
decode_headers_loop_step fuel [] acc f v r' p =
    unfold decode_header decode_header_name read_byte in cc
decode_headers_loop_step fuel (b ∷ r) acc f v r' p =
    unfold decode_headers_loop in rw (p, decode_headers_loop)

-- The loop of the decoder puts the fields into the map, one after the other.
decode_headers_loop-bytes :
    (fuel : ℕ) (headers : Headers) (fs : List ℕ) (acc : Headers)
    → AllRaw headers fs
    → length (field_bytes headers fs) ≤ fuel
    → decode_headers_loop fuel (field_bytes headers fs) acc
      ≡ some (ok (insert_fields headers fs acc))
decode_headers_loop-bytes fuel headers [] acc h low = unfold decode_headers_loop in refl
decode_headers_loop-bytes zero headers (f ∷ fs) acc h low = absurd (
    omega (
      arith,
      length-decode_header _ f _ _ (decode_header-field f _ (field_bytes headers fs) h.0 h.1),
    ))
decode_headers_loop-bytes (suc fuel) headers (f ∷ fs) acc h low =
    let first = decode_header-field f _ (field_bytes headers fs) h.0 h.1 in
    decode_headers_loop_step fuel _ acc f _ (field_bytes headers fs) first
    ∙ decode_headers_loop-bytes fuel headers fs (insert f (decoded headers f) acc) h.2
        (omega (arith, length-decode_header _ f _ _ first))

pub lookup-insert_fields :
    (headers : Headers) (k : ℕ) (fs : List ℕ) (acc : Headers)
    → lookup k (insert_fields headers fs acc)
      ≡ (if elem k fs then some (decoded headers k) else lookup k acc)
unfolding elem
lookup-insert_fields headers k [] acc = refl
lookup-insert_fields headers k (f ∷ fs) acc = ground (
  arith,
  lookup-insert_fields headers k fs (insert f (decoded headers f) acc),
  lookup-insert f k (decoded headers f) acc,
)

-- Each value that a map holds has its field's name and kind, and bytes of that kind.
pub record IsHeaders (headers : Headers) : Type 0 where
  pub at_field :
      (k : ℕ) (v : HeaderValue)
      → lookup k headers ≡ some v
      → (k < 128) × (v.field ≡ k) × (v.kind ≡ kind_for_field k) × IsRaw (kind_for_field k) v.raw

module _ (headers : Headers) (formed : IsHeaders headers) where
  pub decoded-lookup :
      (k : ℕ) → is_some (lookup k headers) ≡ true → lookup k headers ≡ some (decoded headers k)
  unfolding raw_of
  decoded-lookup k present = elim (Option-cases (lookup k headers)) [
    | inl missing ↦ cc
    | inr (v, found) ↦
        let (low, field, kind, raw) = formed.at_field k v found in rw found (ground arith)
  ]

  field_IsRaw :
      (k : ℕ)
      → is_some (lookup k headers) ≡ true
      → (k < 128) × IsRaw (kind_for_field k) (raw_of k headers)
  unfolding raw_of
  field_IsRaw k present = elim (Option-cases (lookup k headers)) [
    | inl missing ↦ absurd (cc)
    | inr (v, found) ↦
        let (low, field, kind, raw) = formed.at_field k v found in (low, rw (found, raw_of) raw)
  ]

  -- A field of the map has bytes.
  pub field_some : (k : ℕ) → elem k (keys headers) ≡ true → is_empty (raw_of k headers) ≡ false
  field_some k present =
      IsRaw-not_empty (kind_for_field k) (raw_of k headers)
        (field_IsRaw k (rw (elem-keys k headers) at present)).1

  pub AllRaw-of_present :
      (fs : List ℕ)
      → ((k : ℕ) → elem k fs ≡ true → is_some (lookup k headers) ≡ true)
      → AllRaw headers fs
  unfolding elem
  AllRaw-of_present [] present = tt
  AllRaw-of_present (f ∷ fs) present =
      let (low, raw) = field_IsRaw f (present f (ground arith)) in
      (low, raw, AllRaw-of_present fs (λ k h. present k (ground arith)))

  -- The decoder's value where the map has the field, and none where it has not.
  pub decoded_if_present :
      (k : ℕ)
      → (if is_some (lookup k headers) then some (decoded headers k) else none) ≡ lookup k headers
  decoded_if_present k = elim (Option-cases (lookup k headers)) [
    | inl missing ↦ rw missing
    | inr (v, found) ↦ ground (arith, decoded-lookup k)
  ]

  lookup_sorted :
      (k : ℕ) → lookup k (insert_fields headers (sort (keys headers)) []) ≡ lookup k headers
  lookup_sorted k =
      lookup-insert_fields headers k (sort (keys headers)) []
      ∙ rw (elem-sort k (keys headers), elem-keys k headers) (unfold lookup in decoded_if_present k)

-- A map of headers whose fields are below 128 and have bytes of their kinds is encoded, and
-- decoding the bytes returns a map with the same value for every field, and none where there
-- was none.
pub decode-encode_headers :
    (headers : Headers)
    → IsHeaders headers
    → (bytes : List ℕ) × (result : Headers) × (encode_headers headers ≡ ok bytes)
      × (decode_headers bytes ≡ ok result)
      × ((k : ℕ) → lookup k result ≡ lookup k headers)
decode-encode_headers headers formed =
    let fs = sort (keys headers) in
    let all =
      AllRaw-of_present headers formed fs
        (λ k h. ground (arith, elem-sort k (keys headers), elem-keys k headers)) in
    (
      field_bytes headers fs,
      insert_fields headers fs [],
      unfold encode_headers in encode_fields-bytes headers fs [] all,
      unfold decode_headers in
          ap settle (decode_headers_loop-bytes _ headers fs [] all (omega arith)),
      λ k. lookup_sorted headers formed k,
    )
