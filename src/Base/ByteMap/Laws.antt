-- ===== src/Base/ByteMap/Laws.antt =====
-- Laws of the maps with byte keys.
use Prim.Native.Nat.{ℕ}
use mathlib.Core.Path.{◌≡◌, refl}
use mathlib.Core.Bool.{Bool, true, false, ◌||◌}
use mathlib.Core.Option.{Option, none, some}
use mathlib.Core.List.{List, [], ◌∷◌, ◌++◌}
use native.Mathlib.Omega.{arith}
use vectorcore_mmsc.Base.Tests.{◌==◌, if◌then◌else◌}
use vectorcore_mmsc.Base.ByteMap.{
  lookup, insert, remove, keys, elem, insert_sorted, sort, without, add,
}

abbrev pub is_some {ℓ} : {V : Type ℓ} → Option V → Bool
is_some none = false
is_some (some v) = true

module _ {ℓ} {V : Type ℓ} where
  pub lookup-insert :
      (k j : ℕ) (value : V) (entries : List (ℕ × V))
      → lookup j (insert k value entries) ≡ (if k == j then some value else lookup j entries)
  unfolding lookup insert
  lookup-insert k j value ((i, other) ∷ entries) = ground (arith, lookup-insert k j value entries)
  lookup-insert k j value [] = refl

  pub lookup-remove :
      (k j : ℕ) (m : List (ℕ × V)) → lookup j (remove k m) ≡ (if k == j then none else lookup j m)
  unfolding lookup remove
  lookup-remove k j [] = ground arith
  lookup-remove k j ((i, w) ∷ m) = ground (arith, lookup-remove k j m)

  pub elem-keys : (k : ℕ) (m : List (ℕ × V)) → elem k (keys m) ≡ is_some (lookup k m)
  unfolding lookup keys elem
  elem-keys k [] = refl
  elem-keys k ((i, w) ∷ m) = ground (arith, elem-keys k m)

pub elem-append : (k : ℕ) (xs ys : List ℕ) → elem k (xs ++ ys) ≡ (elem k xs || elem k ys)
unfolding elem
elem-append k [] ys = refl
elem-append k (x ∷ xs) ys = ground (arith, elem-append k xs ys)

elem-insert_sorted : (k j : ℕ) (ks : List ℕ) → elem k (insert_sorted j ks) ≡ (j == k || elem k ks)
unfolding elem insert_sorted
elem-insert_sorted k j [] = refl
elem-insert_sorted k j (i ∷ ks) = ground (arith, elem-insert_sorted k j ks)

pub elem-sort : (k : ℕ) (ks : List ℕ) → elem k (sort ks) ≡ elem k ks
unfolding elem sort
elem-sort k [] = refl
elem-sort k (i ∷ ks) = ground (arith, elem-insert_sorted k i (sort ks), elem-sort k ks)

pub elem-without :
    (k : ℕ) (seen ks : List ℕ)
    → elem k (without seen ks) ≡ (if elem k seen then false else elem k ks)
unfolding elem without
elem-without k seen [] = ground arith
elem-without k seen (i ∷ ks) = ground (arith, elem-without k seen ks)

pub elem-add : (k j : ℕ) (seen : List ℕ) → elem k (add j seen) ≡ (j == k || elem k seen)
unfolding elem add
elem-add k j seen = ground arith
