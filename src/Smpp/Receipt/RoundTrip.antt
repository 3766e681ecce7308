-- ===== src/Smpp/Receipt/RoundTrip.antt =====
-- A receipt that is written as keys and values, and read by internal/smpp/receipt.go.
use vectorcore_mmsc.Base.{
  ℕ, List, [], ◌∷◌, is_empty, All, All-append, none, false, if◌then◌else◌, Result, ok, ◌≡◌, refl,
  ap, ap₂, err, empty_receipt, unsupported_receipt, ◌∙◌, arith, map,
}
use vectorcore_mmsc.Base.Text.{codes, bytes_eq, index_byte, to_lower, trim_space, trim_left}
use vectorcore_mmsc.Smpp.Receipt.{
  DeliveryReceipt, parse_receipt_time, time_or_nil, parse_delivery_receipt,
}
use vectorcore_mmsc.Smpp.Receipt.Laws.{Solid, IsWord, join, fields-join}
use vectorcore_mmsc.Smpp.Receipt.Fields.{
  value_or, last_value, value_in, receipt_in, lacks, parse_delivery_receipt-eq, token,
  entry_of-token,
}

-- A key that the parser reads as it stands, and a value without white space.
abbrev pub IsClean : List ℕ × List ℕ → Type 0
IsClean (key, value) =
    (index_byte key b':' ≡ none)
    × (to_lower (trim_space key) ≡ key)
    × All Solid key
    × All Solid value

abbrev token_of : List ℕ × List ℕ → List ℕ
token_of (key, value) = token key value

unfoldable last_pair : List ℕ → List ℕ → List (List ℕ × List ℕ) → List ℕ
last_pair k before [] = before
last_pair k before ((key, value) ∷ pairs) =
    last_pair k (if bytes_eq key k then value else before) pairs

last_value-tokens :
    (k before : List ℕ) (pairs : List (List ℕ × List ℕ))
    → All IsClean pairs
    → last_value k before (map token_of pairs) ≡ last_pair k before pairs
unfolding last_value last_pair
last_value-tokens k before [] h = refl
last_value-tokens k before ((key, value) ∷ pairs) h =
    let (no_colon, lower_key, solid_key, solid) = h.0 in
    ap (λ e. last_value k (value_or k before e) (map token_of pairs))
      (entry_of-token key value no_colon lower_key solid)
    ∙ last_value-tokens k (if bytes_eq key k then value else before) pairs h.1

token-IsWord : (key value : List ℕ) → All Solid key → All Solid value → IsWord (token key value)
token-IsWord [] value h k = ((refl, k), refl)
token-IsWord (c ∷ key) value h k = ((h.0, All-append Solid key (b':' ∷ value) h.1 (refl, k)), refl)

tokens-IsWord :
    (pairs : List (List ℕ × List ℕ)) → All IsClean pairs → All IsWord (map token_of pairs)
tokens-IsWord [] h = tt
tokens-IsWord ((key, value) ∷ pairs) h =
    (token-IsWord key value h.0.2 h.0.3, tokens-IsWord pairs h.1)

-- The keys that the parser knows, with their values in a receipt.
abbrev pub pairs_of : DeliveryReceipt → List (List ℕ × List ℕ)
pairs_of r =
    (codes "id", r.id)
    ∷ (codes "sub", r.sub)
    ∷ (codes "dlvrd", r.dlvrd)
    ∷ (codes "submit", r.submit_date)
    ∷ (codes "done", r.done_date)
    ∷ (codes "stat", r.stat)
    ∷ (codes "err", r.error_code)
    ∷ (codes "text", r.text)
    ∷ []

-- The text of a receipt: its keys and values with a colon between, separated by spaces.
unfoldable pub receipt_text : DeliveryReceipt → List ℕ
receipt_text r = join (map token_of (pairs_of r))

value_in-receipt_text :
    (r : DeliveryReceipt) (k : List ℕ)
    → All IsClean (pairs_of r)
    → value_in (receipt_text r) k ≡ last_pair k [] (pairs_of r)
unfolding receipt_text
value_in-receipt_text r k clean =
    ap (last_value k [])
      (fields-join (map token_of (pairs_of r)) (tokens-IsWord (pairs_of r) clean))
    ∙ last_value-tokens k [] (pairs_of r) clean

-- No value of the receipt has white space in it.
abbrev pub IsSolid : DeliveryReceipt → Type 0
IsSolid r =
    All Solid r.id
    × All Solid r.sub
    × All Solid r.dlvrd
    × All Solid r.submit_date
    × All Solid r.done_date
    × All Solid r.stat
    × All Solid r.error_code
    × All Solid r.text

pairs_of-IsClean : (r : DeliveryReceipt) → IsSolid r → All IsClean (pairs_of r)
unfolding index_byte to_lower trim_space trim_left
pairs_of-IsClean r h = ground arith

-- What the parser finds under each key.
values_in :
    (r : DeliveryReceipt)
    → IsSolid r
    → (value_in (receipt_text r) (codes "id") ≡ r.id)
      × (value_in (receipt_text r) (codes "sub") ≡ r.sub)
      × (value_in (receipt_text r) (codes "dlvrd") ≡ r.dlvrd)
      × (value_in (receipt_text r) (codes "submit") ≡ r.submit_date)
      × (value_in (receipt_text r) (codes "done") ≡ r.done_date)
      × (value_in (receipt_text r) (codes "stat") ≡ r.stat)
      × (value_in (receipt_text r) (codes "err") ≡ r.error_code)
      × (value_in (receipt_text r) (codes "text") ≡ r.text)
unfolding last_pair
values_in r solid =
    let clean = pairs_of-IsClean r solid in
    (
      value_in-receipt_text r (codes "id") clean,
      value_in-receipt_text r (codes "sub") clean,
      value_in-receipt_text r (codes "dlvrd") clean,
      value_in-receipt_text r (codes "submit") clean,
      value_in-receipt_text r (codes "done") clean,
      value_in-receipt_text r (codes "stat") clean,
      value_in-receipt_text r (codes "err") clean,
      value_in-receipt_text r (codes "text") clean,
    )

receipt_in-receipt_text :
    (parse_time : List ℕ → Result ℕ) (r : DeliveryReceipt)
    → IsSolid r
    → receipt_in parse_time (receipt_text r) ≡ record r {
      submitted_at = time_or_nil parse_time (parse_receipt_time parse_time r.submit_date);
      done_at = time_or_nil parse_time (parse_receipt_time parse_time r.done_date);
    }
receipt_in-receipt_text parse_time r solid = ground (arith, values_in r solid)

-- A receipt with an id or a status, whose values have no white space, that is written as keys
-- and values with a colon between and a space after, is parsed to these values, with the times
-- that the parser finds in its two dates.
pub parse-receipt_text :
    (parse_time : List ℕ → Result ℕ) (r : DeliveryReceipt)
    → IsSolid r
    → lacks r.id r.stat ≡ false
    → parse_delivery_receipt parse_time (receipt_text r)
      ≡ ok (record r {
        submitted_at = time_or_nil parse_time (parse_receipt_time parse_time r.submit_date);
        done_at = time_or_nil parse_time (parse_receipt_time parse_time r.done_date);
      })
parse-receipt_text parse_time r solid named =
    let values = values_in r solid in
    parse_delivery_receipt-eq parse_time (receipt_text r)
    ∙ ap
        (λ b.
          if b
          then err (
              if is_empty (trim_space (receipt_text r)) then empty_receipt else unsupported_receipt)
          else ok (receipt_in parse_time (receipt_text r)))
        (ap₂ lacks values.0 values.5 ∙ named)
    ∙ ap ok (receipt_in-receipt_text parse_time r solid)
