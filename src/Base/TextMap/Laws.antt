-- ===== src/Base/TextMap/Laws.antt =====
-- Laws of the maps with string keys.
use Prim.Native.Nat.{ℕ}
use mathlib.Core.Path.{◌≡◌, refl}
use mathlib.Core.Bool.{true, false, ◌||◌}
use mathlib.Core.Option.{none, some}
use mathlib.Core.List.{List, [], ◌∷◌}
use mathlib.Core.Logic.{inl, inr}
use native.Mathlib.Omega.{arith}
use vectorcore_mmsc.Base.Tests.{Bool-cases, if◌then◌else◌}
use vectorcore_mmsc.Base.Lists.{All}
use vectorcore_mmsc.Base.Text.{bytes_eq, bytes_eq→eq}
use vectorcore_mmsc.Base.TextMap.{lookup, insert, keys, elem, insert_sorted, sort, text_le}

pub bytes_eq_comm : (a b : List ℕ) → bytes_eq a b ≡ bytes_eq b a
bytes_eq_comm [] [] = refl
bytes_eq_comm [] (y ∷ b) = refl
bytes_eq_comm (x ∷ a) [] = refl
bytes_eq_comm (x ∷ a) (y ∷ b) = ground (arith, bytes_eq_comm a b)

module _ {ℓ} {V : Type ℓ} where
  pub lookup-insert :
      (k j : List ℕ) (v : V) (m : List (List ℕ × V))
      → lookup j (insert k v m) ≡ (if bytes_eq k j then some v else lookup j m)
  unfolding lookup insert
  lookup-insert k j v [] = refl
  lookup-insert k j v ((i, w) ∷ m) = elim (Bool-cases (bytes_eq i k)) [
    | inl same ↦ ground (arith, bytes_eq→eq i k same)
    | inr other ↦ elim (Bool-cases (bytes_eq i j)) [
      | inl found ↦ ground (arith, bytes_eq→eq i j found, bytes_eq_comm k j, lookup-insert k j v m)
      | inr missed ↦ ground (arith, lookup-insert k j v m)
    ]
  ]

  pub elem-keys :
      (k : List ℕ) (m : List (List ℕ × V))
      → elem k (keys m) ≡ elim (lookup k m) [ none ↦ false | some v ↦ true ]
  unfolding lookup keys elem
  elem-keys k [] = refl
  elem-keys k ((i, w) ∷ m) = ground (arith, elem-keys k m)

elem-insert_sorted :
    (k j : List ℕ) (ks : List (List ℕ)) → elem k (insert_sorted j ks) ≡ (bytes_eq j k || elem k ks)
unfolding elem insert_sorted
elem-insert_sorted k j [] = refl
elem-insert_sorted k j (i ∷ ks) = ground (arith, elem-insert_sorted k j ks)

pub elem-sort : (k : List ℕ) (ks : List (List ℕ)) → elem k (sort ks) ≡ elem k ks
unfolding elem sort
elem-sort k [] = refl
elem-sort k (i ∷ ks) = ground (arith, elem-insert_sorted k i (sort ks), elem-sort k ks)

module _ {κ} (P : List ℕ → Type κ) where
  pub All-insert_sorted :
      (k : List ℕ) (ks : List (List ℕ)) → P k → All P ks → All P (insert_sorted k ks)
  unfolding insert_sorted
  All-insert_sorted k [] h all = (h, tt)
  All-insert_sorted k (j ∷ ks) h all = elim (Bool-cases (text_le k j)) [
    | inl before ↦ rw before (h, all)
    | inr behind ↦ rw behind (all.0, All-insert_sorted k ks h all.1)
  ]

  pub All-sort : (ks : List (List ℕ)) → All P ks → All P (sort ks)
  unfolding sort
  All-sort [] all = tt
  All-sort (k ∷ ks) all = All-insert_sorted k (sort ks) all.0 (All-sort ks all.1)
