-- ===== src/Mmspdu/Strings/Address.antt =====
-- Addresses of internal/mmspdu/fields.go: their normal form, and what the reader makes of them.
use vectorcore_mmsc.Base.{
  ℕ, zero, suc, ◌<◌, ◌≤◌, List, [], ◌∷◌, ◌++◌, length, take, length-take, All-append, is_empty,
  true, false, ok, ◌≡◌, refl, ◌∙◌, arith,
}
use vectorcore_mmsc.Base.Text.{codes, contains, to_upper, has_prefix, index_of}
use vectorcore_mmsc.Base.Text.Search.{contains-append, to_upper-append}
use vectorcore_mmsc.Mmspdu.Strings.{
  encode_text_string, decode_encoded_string_payload, decode_address_value_loop,
  decode_address_value, decode_address_string, is_insert_address_token, normalize_address,
}
use vectorcore_mmsc.Mmspdu.Strings.RoundTrip.{
  IsText, encode_text_string_shape, decode_payload-encode_text_string,
}

-- Any two fuels of at least the length of the bytes give the same result of reading an
-- address.
pub decode_address_value_loop-enough :
    (f g : ℕ) (bytes : List ℕ)
    → length bytes ≤ f
    → length bytes ≤ g
    → decode_address_value_loop f bytes ≡ decode_address_value_loop g bytes
unfolding decode_address_value_loop
decode_address_value_loop-enough zero zero [] p q = refl
decode_address_value_loop-enough zero (suc g) [] p q = refl
decode_address_value_loop-enough (suc f) zero [] p q = refl
decode_address_value_loop-enough (suc f) (suc g) [] p q = refl
decode_address_value_loop-enough zero g (b ∷ bs) p q = absurd (omega arith)
decode_address_value_loop-enough (suc f) zero (b ∷ bs) p q = absurd (omega arith)
decode_address_value_loop-enough (suc f) (suc g) (b ∷ bs) p q =
    rw (decode_address_value_loop-enough f g bs (omega arith) (omega arith)) (
      rw (
        decode_address_value_loop-enough f g (take b bs) (omega (arith, length-take b bs))
          (omega (arith, length-take b bs))))

pub decode_address-plain :
    (d : ℕ) (bs : List ℕ)
    → 30 < d
    → d ≤ 0x7f
    → decode_address_value (d ∷ bs) ≡ decode_encoded_string_payload (d ∷ bs)
unfolding decode_address_value
decode_address-plain d bs low high = ground arith

-- A text string of at least one character is read back as an address.
pub decode_address-encode_text_string :
    (c : ℕ) (s : List ℕ)
    → IsText (c ∷ s)
    → decode_address_value (encode_text_string (c ∷ s)) ≡ ok (c ∷ s)
decode_address-encode_text_string c s h =
    let (d, t, e, low, high, other, text) = encode_text_string_shape c s h in
    let read = rw e at (decode_payload-encode_text_string c s h) in
    rw e (decode_address-plain d (t ++ (0 ∷ [])) (omega arith) high ∙ read)

typed_suffix :
    (v suffix : List ℕ)
    → contains (to_upper (v ++ (codes "/TYPE=" ++ suffix))) (codes "/TYPE=") ≡ true
typed_suffix v suffix =
    rw (to_upper-append v (codes "/TYPE=" ++ suffix))
      (unfold to_upper in contains-append (to_upper v) (codes "/TYPE=") (to_upper suffix))

-- A normal address names its type.
pub contains-normalize_address :
    (s : List ℕ) → contains (to_upper (normalize_address s)) (codes "/TYPE=") ≡ true
unfolding normalize_address
contains-normalize_address s = ground (
  arith,
  typed_suffix s (codes "EMAIL"),
  typed_suffix s (codes "PLMN"),
  typed_suffix (codes "+" ++ s) (codes "PLMN"),
)

-- The normal form of a normal address is the address.
pub normalize_address_idem :
    (s : List ℕ) → normalize_address (normalize_address s) ≡ normalize_address s
normalize_address_idem s = already (normalize_address s) (contains-normalize_address s)
  where
    already : (v : List ℕ) → contains (to_upper v) (codes "/TYPE=") ≡ true → normalize_address v ≡ v
    already v h = unfold normalize_address in rw h

pub normalize_address-IsText : (s : List ℕ) → IsText s → IsText (normalize_address s)
unfolding normalize_address
normalize_address-IsText s h = ground (
  arith,
  All-append _ s (codes "/TYPE=EMAIL") h (omega arith),
  All-append _ s (codes "/TYPE=PLMN") h (omega arith),
  All-append _ (codes "+" ++ s) (codes "/TYPE=PLMN") ((omega arith, omega arith), h) (omega arith),
)

pub normalize_address_some : (s : List ℕ) → is_empty (normalize_address s) ≡ false
unfolding normalize_address
normalize_address_some [] = unfold contains index_of has_prefix to_upper in refl
normalize_address_some (c ∷ s) = ground arith

pub not_insert_address : (d : ℕ) (bs : List ℕ) → 30 < d → is_insert_address_token (d ∷ bs) ≡ false
unfolding is_insert_address_token
not_insert_address d [] low = refl
not_insert_address d (b ∷ []) low = ground arith
not_insert_address d (b ∷ c ∷ bs) low = refl

decode_address_text :
    (s : List ℕ)
    → is_empty s ≡ false
    → IsText s
    → decode_address_string (encode_text_string s) ≡ ok s
unfolding decode_address_string
decode_address_text [] some_char h = cc
decode_address_text (c ∷ s) some_char h =
    let (d, t, e, low, high, other, text) = encode_text_string_shape c s h in
    let read = rw e at (decode_address-encode_text_string c s h) in
    rw e (rw (not_insert_address d (t ++ (0 ∷ [])) (omega arith)) read)

decode_address_value_text :
    (s : List ℕ)
    → is_empty s ≡ false
    → IsText s
    → decode_address_value (encode_text_string s) ≡ ok s
decode_address_value_text [] some_char h = cc
decode_address_value_text (c ∷ s) some_char h = decode_address-encode_text_string c s h

pub decode_address_value-normalize_address :
    (s : List ℕ)
    → IsText s
    → decode_address_value (encode_text_string (normalize_address s)) ≡ ok (normalize_address s)
decode_address_value-normalize_address s h =
    decode_address_value_text (normalize_address s) (normalize_address_some s)
      (normalize_address-IsText s h)

-- The normal form of a text of bytes without null, encoded as a text string, is read back as
-- an address.
pub decode_address-normalize_address :
    (s : List ℕ)
    → IsText s
    → decode_address_string (encode_text_string (normalize_address s)) ≡ ok (normalize_address s)
decode_address-normalize_address s h =
    decode_address_text (normalize_address s) (normalize_address_some s)
      (normalize_address-IsText s h)
