-- ===== src/Base/ByteMap.antt =====
-- Go maps and sets whose keys are numbers, as association lists, and the sorted list of keys. The
-- order of a Go map is not fixed; the program sorts the keys wherever the order shows.
pub mod Laws
pub mod Pigeon
use Prim.Native.Nat.{ℕ, zero, suc, ◌+◌}
use mathlib.Core.Bool.{Bool, true, false, ◌||◌}
use mathlib.Core.Option.{Option, none, some}
use mathlib.Core.List.{List, [], ◌∷◌}
use vectorcore_mmsc.Base.Tests.{ltb, leb, ◌==◌, if◌then◌else◌}

module _ {ℓ} {V : Type ℓ} where
  unfoldable pub lookup : ℕ → List (ℕ × V) → Option V
  lookup key [] = none
  lookup key ((j, v) ∷ entries) = if j == key then some v else lookup key entries

  -- m[key] = value
  unfoldable pub insert : ℕ → V → List (ℕ × V) → List (ℕ × V)
  insert key value [] = (key, value) ∷ []
  insert key value ((j, v) ∷ entries) =
      if j == key then (key, value) ∷ entries else (j, v) ∷ insert key value entries

  -- The copy of a map without one key.
  unfoldable pub remove : ℕ → List (ℕ × V) → List (ℕ × V)
  remove k [] = []
  remove k ((j, w) ∷ m) = if j == k then remove k m else (j, w) ∷ remove k m

  unfoldable pub keys : List (ℕ × V) → List ℕ
  keys [] = []
  keys ((j, w) ∷ m) = j ∷ keys m

-- A key is in the list.
unfoldable pub elem : ℕ → List ℕ → Bool
elem k [] = false
elem k (j ∷ ks) = j == k || elem k ks

unfoldable pub insert_sorted : ℕ → List ℕ → List ℕ
insert_sorted k [] = k ∷ []
insert_sorted k (j ∷ ks) = if leb k j then k ∷ j ∷ ks else j ∷ insert_sorted k ks

-- sort.Ints
unfoldable pub sort : List ℕ → List ℕ
unfolding insert_sorted
sort [] = []
sort (k ∷ ks) = insert_sorted k (sort ks)

-- The keys of the second list that are not in the first.
unfoldable pub without : List ℕ → List ℕ → List ℕ
unfolding elem
without seen [] = []
without seen (k ∷ ks) = if elem k seen then without seen ks else k ∷ without seen ks

-- seen[k] = struct{}{}
unfoldable pub add : ℕ → List ℕ → List ℕ
unfolding elem
add k seen = if elem k seen then seen else k ∷ seen
