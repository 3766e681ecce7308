-- ===== src/Routing/Address.antt =====
-- The address functions of internal/routing/peer.go and internal/routing/engine.go. Case and white
-- space are those of ASCII.
use vectorcore_mmsc.Base.{
  ℕ, List, [], ◌∷◌, take, Option, none, some, ◌&&◌, leb, ◌==◌, if◌then◌else◌,
}
use vectorcore_mmsc.Base.Text.{codes, to_upper, to_lower, trim_space, index_of}

-- The value before a type suffix that does not lead it.
unfoldable pub without_type : List ℕ → List ℕ
without_type value = elim (index_of (to_upper value) (codes "/TYPE=")) [
  | none ↦ value
  | some i ↦ if i == 0 then value else take i value
]

-- `normalizeAddress` of engine.go.
unfoldable pub route_address : List ℕ → List ℕ
route_address address = without_type address

unfoldable pub digits : List ℕ → List ℕ
digits [] = []
digits (c ∷ s) = if leb b'0' c && leb c b'9' then c ∷ digits s else digits s

-- The digits, and a plus sign at the front.
unfoldable pub canonical_of : List ℕ → List ℕ
unfolding digits
canonical_of [] = []
canonical_of (c ∷ s) = if c == b'+' then c ∷ digits s else digits (c ∷ s)

unfoldable pub canonical_msisdn : List ℕ → List ℕ
canonical_msisdn value = canonical_of (trim_space (without_type value))

unfoldable pub after_last : ℕ → List ℕ → Option (List ℕ)
after_last c [] = none
after_last c (b ∷ s) = elim (after_last c s) [
  | some t ↦ some t
  | none ↦ if b == c then some s else none
]

unfoldable pub domain_of : List ℕ → List ℕ
domain_of address = elim (after_last b'@' address) [ none ↦ [] | some d ↦ to_lower d ]
