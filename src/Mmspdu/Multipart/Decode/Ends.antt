-- ===== src/Mmspdu/Multipart/Decode/Ends.antt =====
-- The fuel of the loops over the parameters and over the headers of a part of
-- internal/mmspdu/multipart.go.
use vectorcore_mmsc.Base.{
  ℕ, zero, suc, ◌<◌, ◌≤◌, List, [], ◌∷◌, length, length-drop, drop, none, Result-cases, Bool-cases,
  Result, ok, ◌>>=◌, ◌≡◌, ◌≢◌, inl, inr, arith,
}
use vectorcore_mmsc.Base.TextMap
use vectorcore_mmsc.Base.Text.{to_lower}
use vectorcore_mmsc.Mmspdu.Strings.{decode_text_string}
use vectorcore_mmsc.Mmspdu.Reader.{Reader, read_n, read_until_null, read_until_null_from}
use vectorcore_mmsc.Mmspdu.Header.Delimit.{length-read_n, length-read_until_null_from}
use vectorcore_mmsc.Mmspdu.ContentType.Decode.{
  has_top_bit, decode_value_length, decode_content_type_param_value,
}
use vectorcore_mmsc.Mmspdu.ContentType.Decode.Ends.{length-read_until_null}
use vectorcore_mmsc.Mmspdu.Multipart.Decode.{
  read_part_parameter_name, read_part_header_value, decode_part_header_text_value,
  decode_well_known_part_header, read_part_param, part_params_loop, read_part_header,
  part_headers_loop,
}

length-read_part_parameter_name :
    (r : Reader) (name : List ℕ) (r' : Reader)
    → read_part_parameter_name r ≡ ok (name, r')
    → length r' < length r
unfolding read_part_parameter_name
length-read_part_parameter_name [] name r' e = cc
length-read_part_parameter_name (b ∷ r) name r' e = elim (Bool-cases (has_top_bit b)) [
  | inl token_ ↦ ground arith
  | inr text_ ↦ elim (Result-cases (read_until_null_from (b ∷ []) r)) [
    | inl ((raw, s), p) ↦ elim (Result-cases (decode_text_string raw)) [
      | inl (v, q) ↦ ground (arith, length-read_until_null_from (b ∷ []) r raw s)
      | inr (x, q) ↦ ground arith
    ]
    | inr (x, p) ↦ ground arith
  ]
]

length-read_counted_value :
    (r : Reader) (raw : List ℕ) (r' : Reader)
    → (do (n, consumed) ← decode_value_length r; read_n n (drop consumed r)) ≡ ok (raw, r')
    → length r' ≤ length r
length-read_counted_value r raw r' e = elim (Result-cases (decode_value_length r)) [
  | inl ((n, k), p) ↦ ground (arith, length-drop k r, length-read_n n (drop k r) raw r')
  | inr (x, p) ↦ ground arith
]

length-read_part_header_value :
    (r : Reader) (raw : List ℕ) (r' : Reader)
    → read_part_header_value r ≡ ok (raw, r')
    → length r' ≤ length r
unfolding read_part_header_value
length-read_part_header_value [] raw r' e = cc
length-read_part_header_value (b ∷ r) raw r' e = ground (
  arith,
  length-read_counted_value (b ∷ r) raw r',
  length-read_until_null (b ∷ r) raw r',
  length-read_n 1 (b ∷ r) raw r',
)

length-read_part_param :
    (r : Reader) (params params' : List (List ℕ × List ℕ)) (r' : Reader)
    → read_part_param r params ≡ ok (params', r')
    → length r' < length r
unfolding read_part_param
length-read_part_param r params params' r' e = elim (Result-cases (read_part_parameter_name r)) [
  | inl ((name, s), p) ↦ elim (Result-cases (read_part_header_value s)) [
    | inl ((raw, t), q) ↦ elim (Result-cases (decode_content_type_param_value name raw)) [
      | inl (v, u) ↦
          ground
            (arith, length-read_part_parameter_name r name s, length-read_part_header_value s raw t)
      | inr (x, u) ↦
          ground
            (arith, length-read_part_parameter_name r name s, length-read_part_header_value s raw t)
    ]
    | inr (x, q) ↦ ground arith
  ]
  | inr (x, p) ↦ ground arith
]

-- The loop over the parameters of the content type of a part ends with a result where the fuel
-- is at least the length of the input.
pub part_params_loop-enough :
    (fuel : ℕ) (r : Reader) (params : List (List ℕ × List ℕ))
    → length r ≤ fuel
    → part_params_loop fuel r params ≢ none
unfolding part_params_loop
part_params_loop-enough fuel [] params h = λ e. cc
part_params_loop-enough zero (b ∷ r) params h = absurd (omega arith)
part_params_loop-enough (suc fuel) (b ∷ r) params h =
    elim (Result-cases (read_part_param (b ∷ r) params)) [
      | inl ((params', s), p) ↦
          rw (p, part_params_loop)
            (part_params_loop-enough fuel s params'
              (omega (arith, length-read_part_param (b ∷ r) params params' s p)))
      | inr (x, p) ↦ rw (p, part_params_loop) (λ e. cc)
    ]

length-decode_well_known_part_header :
    (name : ℕ) (r : Reader) (key value : List ℕ) (r' : Reader)
    → decode_well_known_part_header name r ≡ ok (key, value, r')
    → length r' ≤ length r
unfolding decode_well_known_part_header
length-decode_well_known_part_header name r key value r' e =
    elim (Result-cases (read_part_header_value r)) [
      | inl ((raw, s), p) ↦ elim (Result-cases (decode_part_header_text_value raw)) [
        | inl (v, q) ↦ ground (arith, length-read_part_header_value r raw s)
        | inr (x, q) ↦ ground (arith, length-read_part_header_value r raw s)
      ]
      | inr (x, p) ↦ ground arith
    ]

-- The other branch of `read_part_header`, for a name that is a text.
abbrev text_line : Reader → List (List ℕ × List ℕ) → Result (List (List ℕ × List ℕ) × Reader)
text_line r headers = do
  (key_raw, s) ← read_until_null r
  (value_raw, t) ← read_until_null s
  key ← decode_text_string key_raw
  value ← decode_part_header_text_value value_raw
  ok (TextMap.insert (to_lower key) value headers, t)

length-text_line :
    (r : Reader) (headers headers' : List (List ℕ × List ℕ)) (r' : Reader)
    → text_line r headers ≡ ok (headers', r')
    → length r' < length r
length-text_line r headers headers' r' e = elim (Result-cases (read_until_null r)) [
  | inl ((key_raw, s), p) ↦ elim (Result-cases (read_until_null s)) [
    | inl ((value_raw, t), q) ↦ elim (Result-cases (decode_text_string key_raw)) [
      | inl (key, u) ↦ elim (Result-cases (decode_part_header_text_value value_raw)) [
        | inl (value, v) ↦
            ground (arith, length-read_until_null r key_raw s, length-read_until_null s value_raw t)
        | inr (x, v) ↦ ground arith
      ]
      | inr (x, u) ↦ ground arith
    ]
    | inr (x, q) ↦ ground arith
  ]
  | inr (x, p) ↦ ground arith
]

length-read_part_header :
    (r : Reader) (headers headers' : List (List ℕ × List ℕ)) (r' : Reader)
    → read_part_header r headers ≡ ok (headers', r')
    → length r' < length r
unfolding read_part_header
length-read_part_header [] headers headers' r' e = cc
length-read_part_header (b ∷ r) headers headers' r' e = elim (Bool-cases (has_top_bit b)) [
  | inl token_ ↦ elim (Result-cases (decode_well_known_part_header b r)) [
    | inl ((key, value, s), p) ↦
        ground (arith, length-decode_well_known_part_header b r key value s)
    | inr (x, p) ↦ ground arith
  ]
  | inr text_ ↦ length-text_line (b ∷ r) headers headers' r' (rw text_ at e)
]

-- The loop over the headers of a part ends with a result where the fuel is at least the length
-- of the input.
pub part_headers_loop-enough :
    (fuel : ℕ) (r : Reader) (headers : List (List ℕ × List ℕ))
    → length r ≤ fuel
    → part_headers_loop fuel r headers ≢ none
unfolding part_headers_loop
part_headers_loop-enough fuel [] headers h = λ e. cc
part_headers_loop-enough zero (b ∷ r) headers h = absurd (omega arith)
part_headers_loop-enough (suc fuel) (b ∷ r) headers h =
    elim (Result-cases (read_part_header (b ∷ r) headers)) [
      | inl ((headers', s), p) ↦
          rw (p, part_headers_loop)
            (part_headers_loop-enough fuel s headers'
              (omega (arith, length-read_part_header (b ∷ r) headers headers' s p)))
      | inr (x, p) ↦ rw (p, part_headers_loop) (λ e. cc)
    ]
