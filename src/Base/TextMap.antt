-- ===== src/Base/TextMap.antt =====
-- Go maps whose keys are strings, as association lists, and sort.Strings.
pub mod Laws
pub mod Sorted
use Prim.Native.Nat.{ℕ}
use mathlib.Core.Path.{◌≡◌, refl}
use mathlib.Core.Bool.{Bool, true, false, ◌&&◌, ◌||◌}
use mathlib.Core.Option.{Option, none, some}
use mathlib.Core.List.{List, [], ◌∷◌}
use native.Mathlib.Omega.{arith}
use vectorcore_mmsc.Base.Tests.{ltb, ◌==◌, if◌then◌else◌}
use vectorcore_mmsc.Base.Text.{bytes_eq, bytes_eq→eq}

module _ {ℓ} {V : Type ℓ} where
  unfoldable pub lookup : List ℕ → List (List ℕ × V) → Option V
  lookup k [] = none
  lookup k ((j, v) ∷ m) = if bytes_eq j k then some v else lookup k m

  -- m[k] = v
  unfoldable pub insert : List ℕ → V → List (List ℕ × V) → List (List ℕ × V)
  insert k v [] = (k, v) ∷ []
  insert k v ((j, w) ∷ m) = if bytes_eq j k then (k, v) ∷ m else (j, w) ∷ insert k v m

  unfoldable pub keys : List (List ℕ × V) → List (List ℕ)
  keys [] = []
  keys ((j, w) ∷ m) = j ∷ keys m

-- The order of Go strings: byte by byte, a prefix first.
unfoldable pub text_le : List ℕ → List ℕ → Bool
text_le [] b = true
text_le (x ∷ a) [] = false
text_le (x ∷ a) (y ∷ b) = ltb x y || (x == y && text_le a b)

unfoldable pub insert_sorted : List ℕ → List (List ℕ) → List (List ℕ)
unfolding text_le
insert_sorted k [] = k ∷ []
insert_sorted k (j ∷ ks) = if text_le k j then k ∷ j ∷ ks else j ∷ insert_sorted k ks

-- sort.Strings
unfoldable pub sort : List (List ℕ) → List (List ℕ)
unfolding insert_sorted
sort [] = []
sort (k ∷ ks) = insert_sorted k (sort ks)

-- m[k], where a missing key has the empty string.
unfoldable pub text_at : List ℕ → List (List ℕ × List ℕ) → List ℕ
unfolding lookup
text_at k m = elim (lookup k m) [ none ↦ [] | some v ↦ v ]

-- A key is in the list.
unfoldable pub elem : List ℕ → List (List ℕ) → Bool
elem k [] = false
elem k (j ∷ ks) = bytes_eq j k || elem k ks
