-- ===== src/Base/ByteMap/Pigeon.antt =====
-- Sets of keys counted against the list of all keys.
use Prim.Native.Nat.{ℕ, ◌≤◌, ◌<◌}
use mathlib.Core.Path.{◌≡◌}
use mathlib.Core.Bool.{true, false}
use mathlib.Core.List.{List, [], ◌∷◌}
use mathlib.Core.Logic.{inl, inr}
use native.Mathlib.Omega.{arith}
use vectorcore_mmsc.Base.Tests.{◌==◌, if◌then◌else◌, Bool-cases, ==_iff}
use vectorcore_mmsc.Base.Lists.{length}
use vectorcore_mmsc.Base.ByteMap.{elem, add}

-- No key stands twice.
abbrev pub Distinct : List ℕ → Type 0
Distinct [] = Unit {0}
Distinct (k ∷ ks) = (elem k ks ≡ false) × Distinct ks

pub add-Distinct : (k : ℕ) (seen : List ℕ) → Distinct seen → Distinct (add k seen)
unfolding add
add-Distinct k seen h = elim (Bool-cases (elem k seen)) [
  | inl old ↦ rw old h
  | inr new ↦ rw new (new, h)
]

-- All but the occurrences of one key.
drop_key : ℕ → List ℕ → List ℕ
drop_key k [] = []
drop_key k (j ∷ ks) = if j == k then drop_key k ks else j ∷ drop_key k ks

elem-drop_key :
    (j k : ℕ) (ks : List ℕ) → elem j (drop_key k ks) ≡ (if k == j then false else elem j ks)
unfolding elem drop_key
elem-drop_key j k [] = ground arith
elem-drop_key j k (i ∷ ks) = ground (arith, elem-drop_key j k ks)

length-drop_key_le : (k : ℕ) (ks : List ℕ) → length (drop_key k ks) ≤ length ks
unfolding drop_key
length-drop_key_le k [] = omega arith
length-drop_key_le k (j ∷ ks) = ground (arith, length-drop_key_le k ks)

length-drop_key : (k : ℕ) (ks : List ℕ) → elem k ks ≡ true → length (drop_key k ks) < length ks
unfolding elem drop_key
length-drop_key k [] h = absurd (cc)
length-drop_key k (j ∷ ks) h = ground (arith, length-drop_key k ks, length-drop_key_le k ks)

module _ (x : ℕ) (seen ks : List ℕ) (new : elem x seen ≡ false)
    (sub : (k : ℕ) → elem k (x ∷ seen) ≡ true → elem k ks ≡ true) where
  first_inside : elem x ks ≡ true
  first_inside = sub x (unfold elem in ground arith)

  rest_inside : (k : ℕ) → elem k seen ≡ true → elem k (drop_key x ks) ≡ true
  rest_inside k h = elim (Bool-cases (x == k)) [
    | inl same ↦ absurd (clash ((==_iff x k).0 same))
    | inr other ↦ rw (elem-drop_key k x ks, other) (sub k (unfold elem in rw (other, elem) h))
  ]
    where
      clash : x ≡ k → ⊥
      clash e = cc

no_keys : (k : ℕ) (ks : List ℕ) → length ks ≤ 0 → elem k ks ≡ true → elem k [] ≡ true
no_keys k [] few h = h
no_keys k (x ∷ ks) few h = absurd (omega arith)

elem_step :
    (x k : ℕ) (seen : List ℕ) → ((x == k) ≡ false → elem k seen ≡ true) → elem k (x ∷ seen) ≡ true
unfolding elem
elem_step x k seen rest = elim (Bool-cases (x == k)) [
  | inl same ↦ rw same
  | inr other ↦ rw other (rest other)
]

-- Distinct keys, all of them from a list that is no longer than they are, are all of the list.
pub elem_of_length :
    (seen ks : List ℕ)
    → Distinct seen
    → ((k : ℕ) → elem k seen ≡ true → elem k ks ≡ true)
    → length ks ≤ length seen
    → (k : ℕ) → elem k ks ≡ true
    → elem k seen ≡ true
elem_of_length [] ks d sub few k h = no_keys k ks few h
elem_of_length (x ∷ seen) ks d sub few k h = elem_step x k seen λ other.
    elem_of_length seen (drop_key x ks) d.1 (rest_inside x seen ks d.0 sub)
      (omega (arith, length-drop_key x ks (first_inside x seen ks d.0 sub))) k
      (rw (elem-drop_key k x ks, other) h)
