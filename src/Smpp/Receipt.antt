-- ===== src/Smpp/Receipt.antt =====
-- internal/smpp/receipt.go: the fields of a delivery receipt. `time.Parse` is a parameter; a time
-- is a number.
pub mod Laws
pub mod Fields
pub mod RoundTrip
use vectorcore_mmsc.Base.{
  ℕ, ◌+◌, List, [], ◌∷◌, ◌++◌, length, take, drop, is_empty, Option, none, some, Bool, true, false,
  ◌&&◌, ltb, if◌then◌else◌, Result, ok, err, empty_receipt, unsupported_receipt,
  invalid_receipt_time,
}
use vectorcore_mmsc.Base.Text.{codes, is_space, index_byte, to_lower, trim_space}
use vectorcore_mmsc.Base.TextMap.{insert, text_at}

-- The type `DeliveryReceipt`; a nil time is `none`.
pub record DeliveryReceipt : Type 0 where
  pub id : List ℕ
  pub sub : List ℕ
  pub dlvrd : List ℕ
  pub submit_date : List ℕ
  pub done_date : List ℕ
  pub stat : List ℕ
  pub error_code : List ℕ
  pub text : List ℕ
  pub submitted_at : Option ℕ
  pub done_at : Option ℕ

-- strings.Fields, where `word` is the word that has begun.
abbrev pub end_word : List ℕ → List (List ℕ) → List (List ℕ)
end_word [] words = words
end_word (c ∷ word) words = (c ∷ word) ∷ words

unfoldable pub words_from : List ℕ → List ℕ → List (List ℕ)
words_from word [] = end_word word []
words_from word (c ∷ s) =
    let ended = words_from [] s in
    let grown = words_from (word ++ (c ∷ [])) s in if is_space c then end_word word ended else grown

unfoldable pub fields : List ℕ → List (List ℕ)
unfolding words_from
fields s = words_from [] s

-- strings.Cut(token, ":")
unfoldable pub cut_colon : List ℕ → Option (List ℕ × List ℕ)
unfolding index_byte
cut_colon token = elim (index_byte token b':') [
  | none ↦ none
  | some i ↦ some (take i token, drop (i + 1) token)
]

-- One round of the loop over the tokens.
unfoldable pub add_field : List (List ℕ × List ℕ) → List ℕ → List (List ℕ × List ℕ)
unfolding cut_colon to_lower trim_space insert
add_field found token = elim (cut_colon token) [
  | none ↦ found
  | some (key, value) ↦ insert (to_lower (trim_space key)) (trim_space value) found
]

unfoldable pub add_fields : List (List ℕ × List ℕ) → List (List ℕ) → List (List ℕ × List ℕ)
unfolding add_field
add_fields found [] = found
add_fields found (token ∷ tokens) = add_fields (add_field found token) tokens

module _ (parse_time : List ℕ → Result ℕ) where
  unfoldable pub parse_receipt_time : List ℕ → Result ℕ
  parse_receipt_time value =
      if ltb (length value) 10 then err invalid_receipt_time else parse_time (take 10 value)

  abbrev pub time_or_nil : Result ℕ → Option ℕ
  time_or_nil (ok t) = some t
  time_or_nil (err e) = none

  unfoldable pub receipt_of : List (List ℕ × List ℕ) → DeliveryReceipt
  unfolding parse_receipt_time text_at
  receipt_of found = record {
    id = text_at (codes "id") found;
    sub = text_at (codes "sub") found;
    dlvrd = text_at (codes "dlvrd") found;
    submit_date = text_at (codes "submit") found;
    done_date = text_at (codes "done") found;
    stat = text_at (codes "stat") found;
    error_code = text_at (codes "err") found;
    text = text_at (codes "text") found;
    submitted_at = time_or_nil (parse_receipt_time (text_at (codes "submit") found));
    done_at = time_or_nil (parse_receipt_time (text_at (codes "done") found));
  }

  unfoldable pub parse_delivery_receipt : List ℕ → Result DeliveryReceipt
  unfolding add_fields fields receipt_of
  parse_delivery_receipt text =
      let trimmed = trim_space text in
      let receipt = receipt_of (add_fields [] (fields trimmed)) in
      if is_empty trimmed
      then err empty_receipt
      else if is_empty receipt.id && is_empty receipt.stat
      then err unsupported_receipt
      else ok receipt
