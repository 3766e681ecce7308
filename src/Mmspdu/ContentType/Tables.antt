-- ===== src/Mmspdu/ContentType/Tables.antt =====
-- The tables of internal/mmspdu/content_type.go, and each pair of them.
use vectorcore_mmsc.Base.{
  ℕ, ◌<◌, ltb, ◌&&◌, List, [], ◌∷◌, none, some, Option-cases, Bool, true, false, Bool-cases, ◌≡◌,
  refl, inl, inr, arith,
}
use vectorcore_mmsc.Base.Text.{codes, bytes_eq, bytes_eq→eq}
use vectorcore_mmsc.Base.ByteMap
use vectorcore_mmsc.Base.TextMap

unfoldable pub well_known_media_types_by_token : List (ℕ × List ℕ)
well_known_media_types_by_token =
    (0x80, codes "*/*")
    ∷ (0x81, codes "text/*")
    ∷ (0x82, codes "text/html")
    ∷ (0x83, codes "text/plain")
    ∷ (0x84, codes "text/x-hdml")
    ∷ (0x8C, codes "multipart/mixed")
    ∷ (0x8E, codes "multipart/byteranges")
    ∷ (0x9D, codes "image/gif")
    ∷ (0x9E, codes "image/jpeg")
    ∷ (0xA3, codes "application/vnd.wap.multipart.mixed")
    ∷ (0xA9, codes "image/png")
    ∷ (0xB3, codes "multipart/related")
    ∷ (0xB4, codes "application/vnd.wap.multipart.related")
    ∷ (0xB8, codes "application/smil")
    ∷ []

unfoldable pub well_known_media_type_tokens : List (List ℕ × ℕ)
well_known_media_type_tokens =
    (codes "*/*", 0x80)
    ∷ (codes "text/*", 0x81)
    ∷ (codes "text/html", 0x82)
    ∷ (codes "text/plain", 0x83)
    ∷ (codes "text/x-hdml", 0x84)
    ∷ (codes "multipart/mixed", 0x8C)
    ∷ (codes "multipart/byteranges", 0x8E)
    ∷ (codes "image/gif", 0x9D)
    ∷ (codes "image/jpeg", 0x9E)
    ∷ (codes "application/vnd.wap.multipart.mixed", 0xA3)
    ∷ (codes "image/png", 0xA9)
    ∷ (codes "multipart/related", 0xB3)
    ∷ (codes "application/vnd.wap.multipart.related", 0xB4)
    ∷ (codes "application/smil", 0xB8)
    ∷ []

unfoldable pub well_known_content_type_params_by_token : List (ℕ × List ℕ)
well_known_content_type_params_by_token =
    (0x81, codes "charset")
    ∷ (0x85, codes "name")
    ∷ (0x89, codes "type")
    ∷ (0x8A, codes "start")
    ∷ []

unfoldable pub well_known_content_type_param_tokens : List (List ℕ × ℕ)
well_known_content_type_param_tokens =
    (codes "charset", 0x81)
    ∷ (codes "name", 0x85)
    ∷ (codes "type", 0x89)
    ∷ (codes "start", 0x8A)
    ∷ []

unfoldable pub well_known_charsets_by_token : List (ℕ × List ℕ)
well_known_charsets_by_token =
    (0x83, codes "us-ascii") ∷ (0x84, codes "iso-8859-1") ∷ (0xEA, codes "utf-8") ∷ []

-- Every entry of a table from names to tokens is found back in a table from tokens to names.
finds_back : List (ℕ × List ℕ) → List (List ℕ × ℕ) → Bool
finds_back by_token [] = true
finds_back by_token ((name, t) ∷ tokens) =
    elim (ByteMap.lookup t by_token) [
      | none ↦ false
      | some n ↦ bytes_eq n name && (ltb 127 t && ltb t 256)
    ]
    && finds_back by_token tokens

name_at :
    (by_token : List (ℕ × List ℕ)) (name : List ℕ) (t : ℕ) (tokens : List (List ℕ × ℕ))
    → finds_back by_token ((name, t) ∷ tokens) ≡ true
    → (ByteMap.lookup t by_token ≡ some name)
      × (127 < t)
      × (t < 256)
      × (finds_back by_token tokens ≡ true)
unfolding finds_back
name_at by_token name t tokens h = elim (Option-cases (ByteMap.lookup t by_token)) [
  | inl missing ↦ absurd (ground arith)
  | inr (n, found) ↦ ground (arith, bytes_eq→eq n name)
]

found_back :
    (by_token : List (ℕ × List ℕ)) (tokens : List (List ℕ × ℕ)) (name : List ℕ) (t : ℕ)
    → finds_back by_token tokens ≡ true
    → TextMap.lookup name tokens ≡ some t
    → (ByteMap.lookup t by_token ≡ some name) × (127 < t) × (t < 256)
unfolding TextMap.lookup
found_back by_token [] name t all found = absurd (cc)
found_back by_token ((n, u) ∷ tokens) name t all found =
    let (here_, high, byte, rest) = name_at by_token n u tokens all in
    elim (Bool-cases (bytes_eq n name)) [
      | inl same ↦ ground (arith, bytes_eq→eq n name same)
      | inr other ↦ found_back by_token tokens name t rest (rw other at found)
    ]

-- A media type's token names that media type again, and has the top bit set.
pub media_type_token_back :
    (name : List ℕ) (t : ℕ)
    → TextMap.lookup name well_known_media_type_tokens ≡ some t
    → (ByteMap.lookup t well_known_media_types_by_token ≡ some name) × (127 < t) × (t < 256)
media_type_token_back name t found =
    found_back well_known_media_types_by_token well_known_media_type_tokens name t checked found
  where
    checked : finds_back well_known_media_types_by_token well_known_media_type_tokens ≡ true
    checked =
        unfold finds_back ByteMap.lookup well_known_media_types_by_token
          well_known_media_type_tokens in
        refl

-- So does the token of a parameter's name.
pub param_token_back :
    (name : List ℕ) (t : ℕ)
    → TextMap.lookup name well_known_content_type_param_tokens ≡ some t
    → (ByteMap.lookup t well_known_content_type_params_by_token ≡ some name) × (127 < t) × (t < 256)
param_token_back name t found =
    found_back well_known_content_type_params_by_token well_known_content_type_param_tokens name t
      checked found
  where
    checked :
        finds_back well_known_content_type_params_by_token well_known_content_type_param_tokens
        ≡ true
    checked =
        unfold finds_back ByteMap.lookup well_known_content_type_params_by_token
          well_known_content_type_param_tokens in
        refl
