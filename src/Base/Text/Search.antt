-- ===== src/Base/Text/Search.antt =====
-- Laws of the searches in a text.
use Prim.Native.Nat.{ℕ}
use mathlib.Core.Path.{◌≡◌, refl}
use mathlib.Core.Bool.{true}
use mathlib.Core.List.{List, [], ◌∷◌, ◌++◌, map-append}
use native.Mathlib.Omega.{arith}
use vectorcore_mmsc.Base.Text.{has_prefix, contains, to_upper, to_lower, lower}

pub has_prefix-append : (p s : List ℕ) → has_prefix (p ++ s) p ≡ true
unfolding has_prefix
has_prefix-append [] [] = refl
has_prefix-append [] (c ∷ s) = refl
has_prefix-append (c ∷ p) s = ground (arith, has_prefix-append p s)

contains_of_prefix : (s p : List ℕ) → has_prefix s p ≡ true → contains s p ≡ true
unfolding contains
contains_of_prefix [] p h = ground arith
contains_of_prefix (c ∷ s) p h = ground arith

contains-cons : (c : ℕ) (s p : List ℕ) → contains s p ≡ true → contains (c ∷ s) p ≡ true
unfolding contains
contains-cons c s p h = ground arith

pub contains-append : (a p b : List ℕ) → contains (a ++ (p ++ b)) p ≡ true
contains-append [] p b = contains_of_prefix (p ++ b) p (has_prefix-append p b)
contains-append (c ∷ a) p b = contains-cons c (a ++ (p ++ b)) p (contains-append a p b)

pub to_upper-append : (a b : List ℕ) → to_upper (a ++ b) ≡ to_upper a ++ to_upper b
unfolding to_upper
to_upper-append a b = map-append _ a b

lower-lower : (c : ℕ) → lower (lower c) ≡ lower c
lower-lower c = ground arith

pub to_lower-to_lower : (s : List ℕ) → to_lower (to_lower s) ≡ to_lower s
unfolding to_lower
to_lower-to_lower [] = refl
to_lower-to_lower (c ∷ s) = ground (arith, lower-lower c, to_lower-to_lower s)
