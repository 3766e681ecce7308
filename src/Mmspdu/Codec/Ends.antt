-- ===== src/Mmspdu/Codec/Ends.antt =====
-- The loop of `decodePDUSections` of internal/mmspdu/codec.go: its fuel, and what it makes of fields
-- that stand behind one another.
use vectorcore_mmsc.Base.{
  ℕ, zero, suc, ◌≤◌, List, [], ◌∷◌, ◌++◌, length, append-nil, append_assoc, is_empty, none,
  Result-cases, false, not, ◌&&◌, ◌==◌, Bool-cases, ok, ◌≡◌, ◌≢◌, inl, inr, ap, ◌∙◌, arith,
}
use vectorcore_mmsc.Base.ByteMap.{insert, elem}
use vectorcore_mmsc.Mmspdu.Types.{field_content_type}
use vectorcore_mmsc.Mmspdu.Reader.{Reader}
use vectorcore_mmsc.Mmspdu.Values.{HeaderValue}
use vectorcore_mmsc.Mmspdu.Header.{Headers, encode_header_name, decode_header, raw_of}
use vectorcore_mmsc.Mmspdu.Header.RoundTrip.{
  AllRaw, decoded, field_bytes, insert_fields, decode_header-field, length-decode_header,
}
use vectorcore_mmsc.Mmspdu.Codec.{sections_loop}

-- The loop over the headers of a unit ends with a result where the fuel is at least the length
-- of the input.
pub sections_loop-enough :
    (fuel : ℕ) (r : Reader) (headers : Headers) (order : List ℕ)
    → length r ≤ fuel
    → sections_loop fuel r headers order ≢ none
unfolding sections_loop
sections_loop-enough fuel [] headers order h = λ e. cc
sections_loop-enough zero (b ∷ r) headers order h = absurd (omega arith)
sections_loop-enough (suc fuel) (b ∷ r) headers order h =
    elim (Result-cases (decode_header (b ∷ r))) [
      | inl ((f, v, s), p) ↦ elim (Bool-cases (f == field_content_type && not (is_empty s))) [
        | inl last ↦ rw (p, sections_loop) (rw last (λ e. cc))
        | inr more ↦
            rw (p, sections_loop)
              (rw more (
                sections_loop-enough fuel s (insert f v headers) (order ++ (f ∷ []))
                  (omega (arith, length-decode_header (b ∷ r) f v s p))))
      ]
      | inr (x, p) ↦ rw (p, sections_loop) (λ e. cc)
    ]

-- A field whose value is followed by a body, or by none.
pub sections_loop_step :
    (fuel : ℕ) (r : Reader) (headers : Headers) (order : List ℕ) (f : ℕ) (v : HeaderValue)
    (r' : Reader)
    → decode_header r ≡ ok (f, v, r')
    → (f == field_content_type && not (is_empty r')) ≡ false
    → sections_loop (suc fuel) r headers order
      ≡ sections_loop fuel r' (insert f v headers) (order ++ (f ∷ []))
sections_loop_step fuel [] headers order f v r' p q =
    absurd (omega (arith, length-decode_header [] f v r' p))
sections_loop_step fuel (b ∷ r) headers order f v r' p q =
    unfold sections_loop in rw (p, sections_loop) (rw q)

decode_header-front :
    (headers : Headers) (f : ℕ) (fs tail : List ℕ)
    → AllRaw headers (f ∷ fs)
    → decode_header (field_bytes headers (f ∷ fs) ++ tail)
      ≡ ok (f, decoded headers f, field_bytes headers fs ++ tail)
decode_header-front headers f fs tail h =
    rw (append_assoc (encode_header_name f ++ raw_of f headers) (field_bytes headers fs) tail)
      (decode_header-field f (raw_of f headers) (field_bytes headers fs ++ tail) h.0 h.1)

-- The fields before the last are put into the map in their order; what follows them is left.
pub sections_loop-bytes :
    (fuel : ℕ) (headers : Headers) (fs tail : List ℕ) (acc : Headers) (order : List ℕ)
    → AllRaw headers fs
    → elem field_content_type fs ≡ false
    → length (field_bytes headers fs ++ tail) ≤ fuel
    → (left : ℕ) × (length tail ≤ left)
      × (sections_loop fuel (field_bytes headers fs ++ tail) acc order
          ≡ sections_loop left tail (insert_fields headers fs acc) (order ++ fs))
sections_loop-bytes fuel headers [] tail acc order h away low = (fuel, low, rw (append-nil order))
sections_loop-bytes zero headers (f ∷ fs) tail acc order h away low =
    absurd (omega (arith, length-decode_header _ f _ _ (decode_header-front headers f fs tail h)))
sections_loop-bytes (suc fuel) headers (f ∷ fs) tail acc order h away low =
    let front = decode_header-front headers f fs tail h in
    let (left, enough, rest) =
      sections_loop-bytes fuel headers fs tail (insert f (decoded headers f) acc)
        (order ++ (f ∷ [])) h.2 (unfold elem in ground arith)
        (omega (arith, length-decode_header _ f _ _ front)) in
    (
      left,
      enough,
      sections_loop_step fuel _ acc order f (decoded headers f) _ front
            (unfold elem in ground arith)
          ∙ (rest
              ∙ ap
                  (λ o.
                    sections_loop left tail
                      (insert_fields headers fs (insert f (decoded headers f) acc)) o)
                  (append_assoc order (f ∷ []) fs)),
    )
