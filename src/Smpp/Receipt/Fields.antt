-- ===== src/Smpp/Receipt/Fields.antt =====
-- What `ParseDeliveryReceipt` of internal/smpp/receipt.go finds in the words of a receipt.
use vectorcore_mmsc.Base.{
  ℕ, ◌+◌, List, [], ◌∷◌, ◌++◌, drop, is_empty, All, Option, none, some, Bool, true, ◌&&◌,
  if◌then◌else◌, Result, ok, err, ◌≡◌, refl, sym, ap, ◌∙◌, arith, Bool-cases, inl, inr,
  Option-cases, take-length_append, length, suc, unsupported_receipt, empty_receipt,
}
use vectorcore_mmsc.Base.Text.{codes, bytes_eq, index_byte, to_lower, trim_space}
use vectorcore_mmsc.Base.TextMap.{insert, lookup, text_at}
use vectorcore_mmsc.Base.TextMap.Laws.{lookup-insert}
use vectorcore_mmsc.Smpp.Receipt.{
  DeliveryReceipt, words_from, fields, cut_colon, add_field, add_fields, parse_receipt_time,
  time_or_nil, receipt_of, parse_delivery_receipt,
}
use vectorcore_mmsc.Smpp.Receipt.Laws.{Solid, trim_space-Solid, fields-trim_space}

-- The key of a token, in lower case, and its value; none without a colon.
abbrev pub entry_of : List ℕ → Option (List ℕ × List ℕ)
entry_of token = elim (cut_colon token) [
  | none ↦ none
  | some (key, value) ↦ some (to_lower (trim_space key), trim_space value)
]

abbrev pub value_or : List ℕ → List ℕ → Option (List ℕ × List ℕ) → List ℕ
value_or k before none = before
value_or k before (some (key, value)) = if bytes_eq key k then value else before

-- The value of the last token that has the key, and the empty text if no token has it.
unfoldable pub last_value : List ℕ → List ℕ → List (List ℕ) → List ℕ
last_value k before [] = before
last_value k before (token ∷ tokens) = last_value k (value_or k before (entry_of token)) tokens

text_at-insert :
    (k j v : List ℕ) (m : List (List ℕ × List ℕ))
    → text_at j (insert k v m) ≡ (if bytes_eq k j then v else text_at j m)
unfolding text_at
text_at-insert k j v m = ground (arith, lookup-insert k j v m)

text_at-add_field :
    (k token : List ℕ) (found : List (List ℕ × List ℕ))
    → text_at k (add_field found token) ≡ value_or k (text_at k found) (entry_of token)
unfolding add_field
text_at-add_field k token found = elim (Option-cases (cut_colon token)) [
  | inl e ↦ rw (e, add_field, entry_of)
  | inr ((key, value), e) ↦
      rw (e, add_field, entry_of)
        (text_at-insert (to_lower (trim_space key)) k (trim_space value) found)
]

text_at-add_fields :
    (k : List ℕ) (found : List (List ℕ × List ℕ)) (tokens : List (List ℕ))
    → text_at k (add_fields found tokens) ≡ last_value k (text_at k found) tokens
unfolding add_fields last_value
text_at-add_fields k found [] = refl
text_at-add_fields k found (token ∷ tokens) =
    text_at-add_fields k (add_field found token) tokens
    ∙ ap (λ b. last_value k b tokens) (text_at-add_field k token found)

-- The value that a text has for a key.
abbrev pub value_in : List ℕ → List ℕ → List ℕ
value_in text k = last_value k [] (fields text)

-- The receipt whose fields are the values of the text.
abbrev pub receipt_in : (List ℕ → Result ℕ) → List ℕ → DeliveryReceipt
receipt_in parse_time text = record {
  id = value_in text (codes "id");
  sub = value_in text (codes "sub");
  dlvrd = value_in text (codes "dlvrd");
  submit_date = value_in text (codes "submit");
  done_date = value_in text (codes "done");
  stat = value_in text (codes "stat");
  error_code = value_in text (codes "err");
  text = value_in text (codes "text");
  submitted_at =
      time_or_nil parse_time (parse_receipt_time parse_time (value_in text (codes "submit")));
  done_at = time_or_nil parse_time (parse_receipt_time parse_time (value_in text (codes "done")));
}

text_at-fields : (k text : List ℕ) → text_at k (add_fields [] (fields text)) ≡ value_in text k
unfolding text_at lookup
text_at-fields k text = text_at-add_fields k [] (fields text)

receipt_of-fields :
    (parse_time : List ℕ → Result ℕ) (text : List ℕ)
    → receipt_of parse_time (add_fields [] (fields text)) ≡ receipt_in parse_time text
unfolding receipt_of
receipt_of-fields parse_time text = simp (λ (k : List ℕ). text_at-fields k text)

abbrev pub lacks : List ℕ → List ℕ → Bool
lacks id stat = is_empty id && is_empty stat

is_empty→eq {ℓ} : {A : Type ℓ} (xs : List A) → is_empty xs ≡ true → xs ≡ []
is_empty→eq [] h = refl
is_empty→eq (x ∷ xs) h = cc

blank_lacks :
    (text : List ℕ)
    → is_empty (trim_space text) ≡ true
    → lacks (value_in text (codes "id")) (value_in text (codes "stat")) ≡ true
unfolding last_value words_from fields
blank_lacks text h = rw (sym (fields-trim_space text)) (rw (is_empty→eq (trim_space text) h) refl)

-- A receipt is refused if its text is blank or has neither an id nor a status, and otherwise
-- each field has the value of the last word with its key.
pub parse_delivery_receipt-eq :
    (parse_time : List ℕ → Result ℕ) (text : List ℕ)
    → parse_delivery_receipt parse_time text ≡ (
        if lacks (value_in text (codes "id")) (value_in text (codes "stat"))
        then err (if is_empty (trim_space text) then empty_receipt else unsupported_receipt)
        else ok (receipt_in parse_time text))
unfolding parse_delivery_receipt
parse_delivery_receipt-eq parse_time text = elim (Bool-cases (is_empty (trim_space text))) [
  | inl blank ↦ rw (blank, blank_lacks text blank)
  | inr full ↦
      rw (full, fields-trim_space text, receipt_of-fields parse_time text)
        (simp (λ (k : List ℕ). text_at-fields k text))
]

-- A token of a key and a value.
abbrev pub token : List ℕ → List ℕ → List ℕ
token key value = key ++ (b':' ∷ value)

index_byte-token :
    (key value : List ℕ)
    → index_byte key b':' ≡ none
    → index_byte (token key value) b':' ≡ some (length key)
unfolding index_byte
index_byte-token [] value h = refl
index_byte-token (c ∷ key) value h = ground (arith, index_byte-token key value)

drop_after : (key value : List ℕ) → drop (suc (length key)) (token key value) ≡ value
drop_after [] value = refl
drop_after (c ∷ key) value = drop_after key value

cut_colon-token :
    (key value : List ℕ)
    → index_byte key b':' ≡ none
    → cut_colon (token key value) ≡ some (key, value)
unfolding cut_colon
cut_colon-token key value h =
    let one : length key + 1 ≡ suc (length key) = omega arith in
    rw (index_byte-token key value h, cut_colon, one)
      (rw (take-length_append key (b':' ∷ value), drop_after key value))

-- A token of a key in lower case without white space or colon, and of a value without white space,
-- gives the key and the value.
pub entry_of-token :
    (key value : List ℕ)
    → index_byte key b':' ≡ none
    → to_lower (trim_space key) ≡ key
    → All Solid value
    → entry_of (token key value) ≡ some (key, value)
entry_of-token key value h clean solid =
    rw (entry_of, cut_colon-token key value h, clean, trim_space-Solid value solid)
