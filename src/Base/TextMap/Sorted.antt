-- ===== src/Base/TextMap/Sorted.antt =====
-- Maps with string keys that hold each key once, and the order of their sorted keys.
use Prim.Native.Nat.{ℕ}
use mathlib.Core.Path.{◌≡◌, refl, sym, ◌∙◌}
use mathlib.Core.Bool.{true, false}
use mathlib.Core.Option.{none}
use mathlib.Core.List.{List, [], ◌∷◌}
use mathlib.Core.Logic.{inl, inr}
use native.Mathlib.Omega.{arith}
use vectorcore_mmsc.Base.Tests.{Bool-cases}
use vectorcore_mmsc.Base.Lists.{All}
use vectorcore_mmsc.Base.Text.{bytes_eq, bytes_eq→eq}
use vectorcore_mmsc.Base.TextMap.{lookup, insert, insert_sorted, sort, text_le}
use vectorcore_mmsc.Base.TextMap.Laws.{bytes_eq_comm, All-insert_sorted, lookup-insert}

-- Each key is there once.
abbrev pub Distinct {ℓ} : {V : Type ℓ} → List (List ℕ × V) → Type ℓ
Distinct [] = Unit {ℓ}
Distinct ((k, v) ∷ m) = (lookup k m ≡ none) × Distinct m

module _ {ℓ} {V : Type ℓ} where
  pub insert-Distinct :
      (k : List ℕ) (v : V) (m : List (List ℕ × V)) → Distinct m → Distinct (insert k v m)
  unfolding insert lookup
  insert-Distinct k v [] h = (refl, tt)
  insert-Distinct k v ((j, w) ∷ m) h = elim (Bool-cases (bytes_eq j k)) [
    | inl same ↦ rw same (rw (sym (bytes_eq→eq j k same)) h.0, h.1)
    | inr other ↦
        rw other
          (lookup-insert k j v m ∙ rw (bytes_eq_comm k j ∙ other) h.0, insert-Distinct k v m h.1)
  ]

text_le_total : (a b : List ℕ) → text_le a b ≡ false → text_le b a ≡ true
unfolding text_le
text_le_total [] b h = cc
text_le_total (x ∷ a) [] h = refl
text_le_total (x ∷ a) (y ∷ b) h = ground (arith, text_le_total a b)

text_le_trans : (a b c : List ℕ) → text_le a b ≡ true → text_le b c ≡ true → text_le a c ≡ true
unfolding text_le
text_le_trans [] b c h k = refl
text_le_trans (x ∷ a) [] c h k = cc
text_le_trans (x ∷ a) (y ∷ b) [] h k = cc
text_le_trans (x ∷ a) (y ∷ b) (z ∷ c) h k = ground (arith, text_le_trans a b c)

-- Each name is before the ones that follow it.
abbrev pub IsSorted : List (List ℕ) → Type 0
IsSorted [] = Unit
IsSorted (k ∷ ks) = All (λ j. text_le k j ≡ true) ks × IsSorted ks

All-le :
    (a b : List ℕ) (ks : List (List ℕ))
    → text_le a b ≡ true
    → All (λ j. text_le b j ≡ true) ks
    → All (λ j. text_le a j ≡ true) ks
All-le a b [] h all = tt
All-le a b (k ∷ ks) h all = (text_le_trans a b k h all.0, All-le a b ks h all.1)

insert_sorted-IsSorted :
    (k : List ℕ) (ks : List (List ℕ)) → IsSorted ks → IsSorted (insert_sorted k ks)
unfolding insert_sorted
insert_sorted-IsSorted k [] h = (tt, tt)
insert_sorted-IsSorted k (j ∷ ks) h = elim (Bool-cases (text_le k j)) [
  | inl before ↦ rw before ((before, All-le k j ks before h.0), h)
  | inr behind ↦ rw behind (
    All-insert_sorted (λ i. text_le j i ≡ true) k ks (text_le_total k j behind) h.0,
    insert_sorted-IsSorted k ks h.1,
  )
]

pub sort-IsSorted : (ks : List (List ℕ)) → IsSorted (sort ks)
unfolding sort
sort-IsSorted [] = tt
sort-IsSorted (k ∷ ks) = insert_sorted-IsSorted k (sort ks) (sort-IsSorted ks)
