-- ===== src/Mmspdu/ContentType/Decode/Ends.antt =====
-- The fuel of the loop over the parameters of a content type (internal/mmspdu/content_type.go).
use vectorcore_mmsc.Base.{
  ℕ, zero, suc, ◌<◌, ◌≤◌, List, [], ◌∷◌, length, length-drop, none, Option-cases, Result-cases,
  Bool-cases, ok, ◌>>=◌, ◌≡◌, ◌≢◌, inl, inr, arith,
}
use vectorcore_mmsc.Base.ByteMap
use vectorcore_mmsc.Base.Text.{index_byte, to_lower}
use vectorcore_mmsc.Mmspdu.Strings.{decode_text_string}
use vectorcore_mmsc.Mmspdu.Reader.{Reader, read_until_null}
use vectorcore_mmsc.Mmspdu.ContentType.Tables.{well_known_content_type_params_by_token}
use vectorcore_mmsc.Mmspdu.ContentType.Decode.{
  has_top_bit, skip_text_value, read_param_value, read_named_param, read_param, params_loop,
  decode_content_type_param_value,
}

-- What `ReadUntilNull` leaves is shorter by a byte at least.
pub length-read_until_null :
    (r : Reader) (raw : List ℕ) (r' : Reader)
    → read_until_null r ≡ ok (raw, r')
    → length r' < length r
unfolding read_until_null
length-read_until_null [] raw r' e = unfold index_byte in cc
length-read_until_null (b ∷ r) raw r' e = elim (Option-cases (index_byte (b ∷ r) 0)) [
  | inl missing ↦ ground arith
  | inr (i, found) ↦ ground (arith, length-drop i r)
]

length-read_param_value :
    (r : Reader) (raw : List ℕ) (r' : Reader)
    → read_param_value r ≡ ok (raw, r')
    → length r' < length r
unfolding read_param_value
length-read_param_value [] raw r' e = length-read_until_null [] raw r' e
length-read_param_value (b ∷ r) raw r' e = ground (arith, length-read_until_null (b ∷ r) raw r')

length-read_named_param :
    (name : List ℕ) (r : Reader) (params params' : List (List ℕ × List ℕ)) (r' : Reader)
    → read_named_param name r params ≡ ok (params', r')
    → length r' < length r
unfolding read_named_param
length-read_named_param name r params params' r' e = elim (Result-cases (read_param_value r)) [
  | inl ((raw, s), p) ↦ elim (Result-cases (decode_content_type_param_value name raw)) [
    | inl (v, q) ↦ ground (arith, length-read_param_value r raw s)
    | inr (x, q) ↦ ground arith
  ]
  | inr (x, p) ↦ ground arith
]

length-skip_text_value : (r r' : Reader) → skip_text_value r ≡ ok r' → length r' < length r
unfolding skip_text_value
length-skip_text_value r r' e = elim (Result-cases (read_until_null r)) [
  | inl ((raw, s), p) ↦ ground (arith, length-read_until_null r raw s)
  | inr (x, p) ↦ ground arith
]

read_text_param :
    (r : Reader) (params params' : List (List ℕ × List ℕ)) (r' : Reader)
    → (do
      (key_raw, s) ← read_until_null r
      key ← decode_text_string key_raw
      read_named_param (to_lower key) s params)
      ≡ ok (params', r')
    → length r' < length r
read_text_param r params params' r' e = elim (Result-cases (read_until_null r)) [
  | inl ((raw, s), p) ↦ elim (Result-cases (decode_text_string raw)) [
    | inl (key, q) ↦ ground (
      arith,
      length-read_until_null r raw s,
      length-read_named_param (to_lower key) s params params' r',
    )
    | inr (x, q) ↦ ground arith
  ]
  | inr (x, p) ↦ ground arith
]

length-read_param :
    (r : Reader) (params params' : List (List ℕ × List ℕ)) (r' : Reader)
    → read_param r params ≡ ok (params', r')
    → length r' < length r
unfolding read_param
length-read_param [] params params' r' e = cc
length-read_param (b ∷ r) params params' r' e = elim (Bool-cases (has_top_bit b)) [
  | inl token_ ↦ elim (Option-cases (ByteMap.lookup b well_known_content_type_params_by_token)) [
    | inl unknown_ ↦ elim (Result-cases (skip_text_value r)) [
      | inl (s, p) ↦ ground (arith, length-skip_text_value r s)
      | inr (x, p) ↦ ground arith
    ]
    | inr (name, known) ↦ ground (arith, length-read_named_param name r params params' r')
  ]
  | inr text_ ↦ read_text_param (b ∷ r) params params' r' (rw text_ at e)
]

-- The loop over the parameters of a content type ends with a result where the fuel is at least
-- the length of the input.
pub params_loop-enough :
    (fuel : ℕ) (r : Reader) (params : List (List ℕ × List ℕ))
    → length r ≤ fuel
    → params_loop fuel r params ≢ none
unfolding params_loop
params_loop-enough fuel [] params h = λ e. cc
params_loop-enough zero (b ∷ r) params h = absurd (omega arith)
params_loop-enough (suc fuel) (b ∷ r) params h = elim (Result-cases (read_param (b ∷ r) params)) [
  | inl ((params', s), p) ↦
      rw (p, params_loop)
        (params_loop-enough fuel s params'
          (omega (arith, length-read_param (b ∷ r) params params' s p)))
  | inr (x, p) ↦ rw (p, params_loop) (λ e. cc)
]
