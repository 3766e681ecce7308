-- ===== src/Smpp/Receipt/Laws.antt =====
-- The laws of internal/smpp/receipt.go.
use vectorcore_mmsc.Base.{
  ℕ, List, [], ◌∷◌, ◌++◌, is_empty, All, true, false, ◌≡◌, refl, sym, ap, ◌∙◌, append-nil,
  append_assoc, Bool-cases, All-append, inl, inr,
}
use mathlib.Core.List.{reverse, reverse-cons, reverse-append, reverse-reverse}
use vectorcore_mmsc.Base.Text.{is_space, trim_space, trim_left}
use vectorcore_mmsc.Smpp.Receipt.{end_word, words_from, fields}

-- A byte of a word: no white space.
abbrev pub Solid : ℕ → Type 0
Solid c = is_space c ≡ false

abbrev pub IsWord : List ℕ → Type 0
IsWord w = All Solid w × (is_empty w ≡ false)

-- The words with one space after each but the last.
unfoldable pub join : List (List ℕ) → List ℕ
join [] = []
join (w ∷ []) = w
join (w ∷ v ∷ ws) = w ++ (32 ∷ join (v ∷ ws))

end_word_word : (w : List ℕ) (ws : List (List ℕ)) → is_empty w ≡ false → end_word w ws ≡ w ∷ ws
end_word_word [] ws h = cc
end_word_word (c ∷ w) ws h = refl

words_from-word :
    (begun w rest : List ℕ)
    → All Solid w
    → words_from begun (w ++ rest) ≡ words_from (begun ++ w) rest
unfolding words_from
words_from-word begun [] rest h = rw append-nil
words_from-word begun (c ∷ w) rest h = rw h.0 (
    words_from-word (begun ++ (c ∷ [])) w rest h.1
    ∙ ap (λ b. words_from b rest) (append_assoc begun (c ∷ []) w))

words_from-join : (ws : List (List ℕ)) → All IsWord ws → words_from [] (join ws) ≡ ws
unfolding words_from join
words_from-join [] h = refl
words_from-join (w ∷ []) h =
    ap (words_from []) (sym (append-nil w))
    ∙ words_from-word [] w [] h.0.0
    ∙ end_word_word w [] h.0.1
words_from-join (w ∷ v ∷ ws) h =
    words_from-word [] w (32 ∷ join (v ∷ ws)) h.0.0
    ∙ ap (end_word w) (words_from-join (v ∷ ws) h.1)
    ∙ end_word_word w (v ∷ ws) h.0.1

-- Words that are joined by spaces are the fields of the text.
pub fields-join : (ws : List (List ℕ)) → All IsWord ws → fields (join ws) ≡ ws
unfolding fields
fields-join ws h = words_from-join ws h

trim_left-Solid : (s : List ℕ) → All Solid s → trim_left s ≡ s
unfolding trim_left
trim_left-Solid [] h = refl
trim_left-Solid (c ∷ s) h = rw h.0

All-reverse {κ} : (P : ℕ → Type κ) (s : List ℕ) → All P s → All P (reverse s)
All-reverse P [] h = tt
All-reverse P (c ∷ s) h =
    rw (reverse-cons c s) (All-append P (reverse s) (c ∷ []) (All-reverse P s h.1) (h.0, tt))

-- A word keeps all its bytes when it is trimmed.
pub trim_space-Solid : (s : List ℕ) → All Solid s → trim_space s ≡ s
unfolding trim_space
trim_space-Solid s h =
    rw (trim_left-Solid s h, trim_left-Solid (reverse s) (All-reverse Solid s h))
      (reverse-reverse s)

abbrev Blank : ℕ → Type 0
Blank c = is_space c ≡ true

words_from-Blank : (begun s : List ℕ) → All Blank s → words_from begun s ≡ end_word begun []
unfolding words_from
words_from-Blank begun [] h = refl
words_from-Blank begun (c ∷ s) h = rw h.0 (ap (end_word begun) (words_from-Blank [] s h.1))

words_from-append-Blank :
    (begun s t : List ℕ) → All Blank t → words_from begun (s ++ t) ≡ words_from begun s
unfolding words_from
words_from-append-Blank begun [] t h = words_from-Blank begun t h
words_from-append-Blank begun (c ∷ s) t h = elim (Bool-cases (is_space c)) [
  | inl blank ↦ rw blank (ap (end_word begun) (words_from-append-Blank [] s t h))
  | inr solid ↦ rw solid (words_from-append-Blank (begun ++ (c ∷ [])) s t h)
]

trim_left-fields : (s : List ℕ) → words_from [] (trim_left s) ≡ words_from [] s
unfolding words_from trim_left
trim_left-fields [] = refl
trim_left-fields (c ∷ s) = elim (Bool-cases (is_space c)) [
  | inl blank ↦ rw blank (trim_left-fields s)
  | inr solid ↦ rw (solid, words_from, solid)
]

trim_left_split : (s : List ℕ) → (b : List ℕ) × All Blank b × (s ≡ b ++ trim_left s)
unfolding trim_left
trim_left_split [] = ([], tt, refl)
trim_left_split (c ∷ s) = elim (Bool-cases (is_space c)) [
  | inl blank ↦
      rw blank (let (b, all, e) = trim_left_split s in (c ∷ b, (blank, all), ap (◌∷◌ c) e))
  | inr solid ↦ rw solid ([], tt, refl)
]

-- The fields of a text are those of the text without white space at its ends.
pub fields-trim_space : (s : List ℕ) → fields (trim_space s) ≡ fields s
unfolding fields trim_space
fields-trim_space s =
    let t = trim_left s in
    let (b, all, e) = trim_left_split (reverse t) in
    let split : t ≡ reverse (trim_left (reverse t)) ++ reverse b =
      sym (reverse-reverse t) ∙ ap reverse e ∙ reverse-append b (trim_left (reverse t)) in
    sym (
      words_from-append-Blank [] (reverse (trim_left (reverse t))) (reverse b)
        (All-reverse Blank b all))
    ∙ ap (words_from []) (sym split)
    ∙ trim_left-fields s
