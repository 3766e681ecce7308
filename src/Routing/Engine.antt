-- ===== src/Routing/Engine.antt =====
-- internal/routing/engine.go: the destination of one address, and of the recipients of a message.
pub mod Laws
pub mod Mm4
use vectorcore_mmsc.Base.{
  ℕ, List, [], ◌∷◌, Option, none, some, Bool, true, false, not, ◌&&◌, is_empty, if◌then◌else◌,
  Result, ok, err, ◌>>=◌, mixed_destinations, multiple_peers,
}
use vectorcore_mmsc.Base.Int.{int_eq}
use vectorcore_mmsc.Base.Text.{codes, bytes_eq, equal_fold, contains}
use vectorcore_mmsc.Routing.Address.{route_address}
use vectorcore_mmsc.Routing.Peer.{Route, Peer, Repository, resolve_route}

pub data Destination : Type 0 where
  unknown : Destination
  local : Destination
  mm4 : Destination
  mm3 : Destination
  reject : Destination

abbrev pub same_destination : Destination → Destination → Bool
same_destination unknown unknown = true
same_destination local local = true
same_destination mm4 mm4 = true
same_destination mm3 mm3 = true
same_destination reject reject = true
same_destination _ _ = false

-- The type `Result` of the package.
pub record Resolution : Type 0 where
  pub destination : Destination
  pub peer : Option Peer

abbrev pub without_peer : Destination → Resolution
without_peer d = record { destination = d; peer = none }

unfoldable pub destination_of : Route → Option Peer → Resolution
destination_of route peer =
    if bytes_eq route.egress_type (codes "local")
    then without_peer local
    else if bytes_eq route.egress_type (codes "mm3")
    then without_peer mm3
    else if bytes_eq route.egress_type (codes "mm4")
    then record { destination = mm4; peer = peer }
    else if bytes_eq route.egress_type (codes "reject")
    then without_peer reject
    else without_peer reject

-- The method `Resolve`.
unfoldable pub resolve : Repository → List ℕ → Result Resolution
resolve repo address =
    let addr = route_address address in
    if is_empty addr then ok (without_peer unknown) else do
      found ← resolve_route repo addr
      elim found [
        | none ↦
            if contains addr (codes "@") then ok (without_peer reject) else ok (without_peer local)
        | some (route, peer) ↦ ok (destination_of route peer)
      ]

unfoldable pub same_peer : Option Peer → Option Peer → Bool
same_peer none none = true
same_peer none (some b) = false
same_peer (some a) none = false
same_peer (some a) (some b) =
    equal_fold a.domain b.domain
    && (equal_fold a.smtp_host b.smtp_host && int_eq a.smtp_port b.smtp_port)

-- The repository is asked anew for each address, so each address comes with what it answers.
abbrev pub Query : Type 0
Query = Repository × List ℕ

unfoldable pub all_reject : Resolution → List Query → Result Resolution
all_reject first [] = ok first
all_reject first ((repo, address) ∷ queries) =
    let rest = all_reject first queries in
    do
      next ← resolve repo address
      if same_destination next.destination reject then rest else err mixed_destinations

unfoldable pub all_same : Resolution → List Query → Result Resolution
all_same first [] = ok first
all_same first ((repo, address) ∷ queries) =
    let rest = all_same first queries in
    do
      next ← resolve repo address
      if same_destination next.destination reject
          then err mixed_destinations
          else (if not (same_destination first.destination next.destination)
              then err mixed_destinations
              else if same_destination first.destination mm4 && not (same_peer first.peer next.peer)
              then err multiple_peers
              else rest)

-- The method `ResolveRecipients`.
unfoldable pub resolve_recipients : List Query → Result Resolution
resolve_recipients [] = ok (without_peer unknown)
resolve_recipients ((repo, address) ∷ queries) = do
  first ← resolve repo address
  if same_destination first.destination reject
      then all_reject first queries
      else all_same first queries
