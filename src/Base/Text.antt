-- ===== src/Base/Text.antt =====
-- Go strings as lists of bytes, and what the program takes from package strings: case, search,
-- prefixes and comparison. Case mapping is that of ASCII letters.
pub mod Search
use Prim.Native.Nat.{ℕ, zero, suc, ◌+◌, ◌-◌, ◌<◌, ◌≤◌}
use Prim.Native.Char.{code}
use Prim.Native.String.{String}
use mathlib.Core.Path.{◌≡◌, refl, ap, ap₂}
use mathlib.Core.Bool.{Bool, true, false, ◌&&◌, ◌||◌, not}
use mathlib.Core.Option.{Option, none, some}
use mathlib.Core.List.{List, [], ◌∷◌, ◌++◌, map, reverse}
use native.Mathlib.Omega.{arith}
use mathlib.Core.Logic.{◌≢◌, inl, inr}
use vectorcore_mmsc.Base.Tests.{Bool-cases, ltb, leb, ◌==◌, if◌then◌else◌, ==_iff}

-- The bytes of an ASCII literal.
abbrev pub codes : String → List ℕ
codes String.[] = []
codes (String.◌∷◌ c s) = code c ∷ codes s

-- a == b
abbrev pub bytes_eq : List ℕ → List ℕ → Bool
bytes_eq [] [] = true
bytes_eq [] (y ∷ ys) = false
bytes_eq (x ∷ xs) [] = false
bytes_eq (x ∷ xs) (y ∷ ys) = x == y && bytes_eq xs ys

pub bytes_eq→eq : (xs ys : List ℕ) → bytes_eq xs ys ≡ true → xs ≡ ys
bytes_eq→eq [] [] h = refl
bytes_eq→eq [] (y ∷ ys) h = cc
bytes_eq→eq (x ∷ xs) [] h = cc
bytes_eq→eq (x ∷ xs) (y ∷ ys) h = ground (arith, bytes_eq→eq xs ys)

pub bytes_eq_self : (xs : List ℕ) → bytes_eq xs xs ≡ true
bytes_eq_self [] = refl
bytes_eq_self (x ∷ xs) = ground (arith, bytes_eq_self xs)

pub ne→not_bytes_eq : (xs ys : List ℕ) → xs ≢ ys → bytes_eq xs ys ≡ false
ne→not_bytes_eq xs ys h = elim (Bool-cases (bytes_eq xs ys)) [
  | inl same ↦ absurd (h (bytes_eq→eq xs ys same))
  | inr other ↦ other
]

-- strings.ToLower and strings.ToUpper
abbrev pub lower : ℕ → ℕ
lower c = if leb b'A' c && leb c b'Z' then c + 32 else c

abbrev pub upper : ℕ → ℕ
upper c = if leb b'a' c && leb c b'z' then c - 32 else c

unfoldable pub to_lower : List ℕ → List ℕ
to_lower = map lower

unfoldable pub to_upper : List ℕ → List ℕ
to_upper = map upper

-- strings.EqualFold
unfoldable pub equal_fold : List ℕ → List ℕ → Bool
unfolding to_lower
equal_fold a b = bytes_eq (to_lower a) (to_lower b)

-- strings.HasPrefix(s, p)
unfoldable pub has_prefix : List ℕ → List ℕ → Bool
has_prefix s [] = true
has_prefix [] (c ∷ p) = false
has_prefix (b ∷ s) (c ∷ p) = b == c && has_prefix s p

-- strings.Index(s, p): the first position of `p`.
unfoldable pub index_of : List ℕ → List ℕ → Option ℕ
unfolding has_prefix
index_of [] p = if has_prefix [] p then some 0 else none
index_of (b ∷ s) p =
    let later = index_of s p in
    if has_prefix (b ∷ s) p then some 0 else elim later [ none ↦ none | some i ↦ some (suc i) ]

-- strings.Contains
unfoldable pub contains : List ℕ → List ℕ → Bool
unfolding index_of
contains s p = elim (index_of s p) [ none ↦ false | some i ↦ true ]

-- bytes.IndexByte
unfoldable pub index_byte : List ℕ → ℕ → Option ℕ
index_byte [] c = none
index_byte (b ∷ s) c =
    let later = index_byte s c in
    if b == c then some 0 else elim later [ none ↦ none | some i ↦ some (suc i) ]

-- The white space of unicode.IsSpace among the ASCII bytes.
abbrev pub is_space : ℕ → Bool
is_space c = (leb 9 c && leb c 13) || c == 32

unfoldable pub trim_left : List ℕ → List ℕ
trim_left [] = []
trim_left (c ∷ s) = if is_space c then trim_left s else c ∷ s

-- strings.TrimSpace
unfoldable pub trim_space : List ℕ → List ℕ
unfolding trim_left
trim_space s = reverse (trim_left (reverse (trim_left s)))
