-- ===== src/Routing/Engine/Mm4.antt =====
-- The laws of MM4 destinations, from `Resolve` of internal/routing/engine.go down to the peers.
use vectorcore_mmsc.Base.{
  ℕ, List, [], ◌∷◌, Option, none, some, Option-cases, true, ◌&&◌, is_empty, if◌then◌else◌,
  Bool-cases, Result, ok, Result-cases, ◌≡◌, ◌⊎◌, inl, inr, ap, sym, ◌∙◌, arith,
}
use vectorcore_mmsc.Base.Text.{codes, bytes_eq, bytes_eq→eq, equal_fold, contains}
use vectorcore_mmsc.Routing.Address.{route_address}
use vectorcore_mmsc.Routing.Peer.{
  Route, Peer, Repository, find_peer, match_route, reject_route, route_with_peer, resolve_route,
}
use vectorcore_mmsc.Routing.Engine.{
  Destination, local, mm4, reject, Resolution, without_peer, destination_of, resolve,
}

ok_eq : (x y : Resolution) → ◌≡◌ {A = Result Resolution} (ok x) (ok y) → x ≡ y
ok_eq x y e = cc

abbrev pub AmongPeers : Peer → List Peer → Type 0
AmongPeers p [] = ⊥
AmongPeers p (q ∷ qs) = (q ≡ p) ⊎ AmongPeers p qs

some_peer : (x y : Peer) → some x ≡ some y → x ≡ y
some_peer x y e = cc

find_peer-some :
    (peers : List Peer) (target : List ℕ) (p : Peer)
    → find_peer peers target ≡ some p
    → AmongPeers p peers × (p.active ≡ true) × (equal_fold p.domain target ≡ true)
unfolding find_peer
find_peer-some [] target p e = absurd (cc)
find_peer-some (q ∷ peers) target p e = elim (Bool-cases (q.active && equal_fold q.domain target)) [
  | inl fits ↦
      let same : q ≡ p = some_peer q p (rw fits at e) in
      (inl same, rw (← same) (ground (arith, fits)), rw (← same) (ground (arith, fits)))
  | inr other ↦
      let (among, active, domain) = find_peer-some peers target p (rw other at e) in
      (inr among, active, domain)
]

-- The peer of a resolution to MM4, and the route that leads to it.
abbrev pub HasPeer : Repository → List ℕ → Resolution → Type 0
HasPeer repo address r =
    (peers : List Peer) × (routes : List Route) × (route : Route) × (peer : Peer) × (repo.peers
      ≡ ok peers)
    × (repo.routes ≡ ok routes)
    × (match_route (route_address address) routes ≡ some route)
    × (route.egress_type ≡ codes "mm4")
    × (r.peer ≡ some peer)
    × AmongPeers peer peers
    × (peer.active ≡ true)
    × (equal_fold peer.domain route.egress_target ≡ true)

destination_of-mm4 :
    (route : Route) (peer : Option Peer)
    → (destination_of route peer).destination ≡ mm4
    → (route.egress_type ≡ codes "mm4") × ((destination_of route peer).peer ≡ peer)
unfolding destination_of
destination_of-mm4 route peer e = elim (Bool-cases (bytes_eq route.egress_type (codes "local"))) [
  | inl to_local ↦ absurd (cc (rw to_local at e))
  | inr not_local ↦ elim (Bool-cases (bytes_eq route.egress_type (codes "mm3"))) [
    | inl to_mm3 ↦ absurd (cc (rw (not_local, to_mm3) at e))
    | inr not_mm3 ↦ elim (Bool-cases (bytes_eq route.egress_type (codes "mm4"))) [
      | inl to_mm4 ↦ (bytes_eq→eq _ _ to_mm4, rw (not_local, not_mm3, to_mm4))
      | inr not_mm4 ↦ elim (Bool-cases (bytes_eq route.egress_type (codes "reject"))) [
        | inl to_reject ↦ absurd (cc (rw (not_local, not_mm3, not_mm4, to_reject) at e))
        | inr others ↦ absurd (cc (rw (not_local, not_mm3, not_mm4, others) at e))
      ]
    ]
  ]
]

abbrev destination_field : Resolution → Destination
destination_field r = r.destination

abbrev peer_field : Resolution → Option Peer
peer_field r = r.peer

rejected : (r : Resolution) → destination_of reject_route none ≡ r → r.destination ≡ mm4 → ⊥
unfolding destination_of
rejected r e m = absurd (cc (ap destination_field e ∙ m))

route_with_peer-mm4 :
    (peers : List Peer) (route : Route) (r : Resolution)
    → destination_of (route_with_peer peers route).0 (route_with_peer peers route).1 ≡ r
    → r.destination ≡ mm4
    → (peer : Peer) × (route.egress_type ≡ codes "mm4")
      × (r.peer ≡ some peer)
      × AmongPeers peer peers
      × (peer.active ≡ true)
      × (equal_fold peer.domain route.egress_target ≡ true)
unfolding route_with_peer
route_with_peer-mm4 peers route r e m =
    elim (Bool-cases (bytes_eq route.egress_type (codes "mm4"))) [
      | inl to_mm4 ↦ elim (Option-cases (find_peer peers route.egress_target)) [
        | inl missing ↦ absurd (rejected r (rw (to_mm4, missing) at e) m)
        | inr (peer, found) ↦
            let e' : destination_of route (some peer) ≡ r = rw (to_mm4, found) at e in
            let (egress, same) =
              destination_of-mm4 route (some peer) (ap destination_field e' ∙ m) in
            let (among, active, domain) = find_peer-some peers route.egress_target peer found in
            (peer, egress, ap peer_field (sym e') ∙ same, among, active, domain)
      ]
      | inr not_mm4 ↦
          let e' : destination_of route none ≡ r = rw not_mm4 at e in
          let (egress, same) = destination_of-mm4 route none (ap destination_field e' ∙ m) in
          absurd (cc (rw egress at not_mm4))
    ]

found_pair :
    (x y : Route × Option Peer)
    → ◌≡◌ {A = Result (Option (Route × Option Peer))} (ok (some x)) (ok (some y))
    → x ≡ y
found_pair x y e = cc

resolve_route-some :
    (repo : Repository) (address : List ℕ) (route : Route) (peer : Option Peer)
    → resolve_route repo address ≡ ok (some (route, peer))
    → (peers : List Peer) × (routes : List Route) × (best : Route) × (repo.peers ≡ ok peers)
      × (repo.routes ≡ ok routes)
      × (match_route address routes ≡ some best)
      × (route_with_peer peers best ≡ (route, peer))
unfolding resolve_route
resolve_route-some repo address route peer e = elim (Result-cases repo.peers) [
  | inl (peers, has_peers) ↦ elim (Result-cases repo.routes) [
    | inl (routes, has_routes) ↦
        let e' : (elim (match_route address routes) [
          | none ↦ ok none
          | some r ↦ ok (some (route_with_peer peers r))
        ])
            ≡ ok (some (route, peer)) =
          rw (has_peers, has_routes) at e in
        elim (Option-cases (match_route address routes)) [
          | inl missing ↦ absurd (cc (rw missing at e'))
          | inr (best, found) ↦
              (peers, routes, best, has_peers, has_routes, found, found_pair _ _ (rw found at e'))
        ]
    | inr (x, failed) ↦ absurd (cc (rw (has_peers, failed) at e))
  ]
  | inr (x, failed) ↦ absurd (cc (rw failed at e))
]

its_destination :
    (s r : Resolution)
    → ◌≡◌ {A = Result Resolution} (ok s) (ok r)
    → r.destination ≡ mm4
    → s.destination ≡ mm4
its_destination s r e m = ap destination_field (ok_eq s r e) ∙ m

resolved :
    (repo : Repository) (address : List ℕ) (r : Resolution) (found : Option (Route × Option Peer))
    → resolve_route repo (route_address address) ≡ ok found
    → ◌≡◌ {A = Result Resolution}
        (elim found [
          | none ↦
              if contains (route_address address) (codes "@")
              then ok (without_peer reject)
              else ok (without_peer local)
          | some (route, peer) ↦ ok (destination_of route peer)
        ])
        (ok r)
    → r.destination ≡ mm4
    → HasPeer repo address r
resolved repo address r none answer e m =
    elim (Bool-cases (contains (route_address address) (codes "@"))) [
      | inl mail ↦ absurd (cc (its_destination _ r (rw mail at e) m))
      | inr number ↦ absurd (cc (its_destination _ r (rw number at e) m))
    ]
resolved repo address r (some (route, peer)) answer e m =
    let (peers, routes, best, has_peers, has_routes, found, pair) =
      resolve_route-some repo (route_address address) route peer answer in
    let same : destination_of (route_with_peer peers best).0 (route_with_peer peers best).1 ≡ r =
      ap (λ p. destination_of p.0 p.1) pair ∙ ok_eq _ r e in
    let (chosen, egress, its_peer, among, active, domain) =
      route_with_peer-mm4 peers best r same m in
    (
      peers, routes, best, chosen, has_peers, has_routes, found, egress, its_peer, among, active,
      domain,
    )

-- A recipient is resolved to MM4 only where the best route for its address, of those that the
-- repository has, is an mm4 route, and then to an active peer of the repository whose domain
-- is the target of that route.
pub resolve-mm4 :
    (repo : Repository) (address : List ℕ) (r : Resolution)
    → resolve repo address ≡ ok r
    → r.destination ≡ mm4
    → HasPeer repo address r
unfolding resolve
resolve-mm4 repo address r e m = elim (Bool-cases (is_empty (route_address address))) [
  | inl empty ↦ absurd (cc (its_destination _ r (rw empty at e) m))
  | inr more ↦ elim (Result-cases (resolve_route repo (route_address address))) [
    | inl (found, answer) ↦ resolved repo address r found answer (rw (more, answer) at e) m
    | inr (x, failed) ↦ absurd (cc (rw (more, failed) at e))
  ]
]
