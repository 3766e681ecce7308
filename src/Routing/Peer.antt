-- ===== src/Routing/Peer.antt =====
-- internal/routing/peer.go: the routes that match an address, the best of them, and its peer.
pub mod Best
use vectorcore_mmsc.Base.{
  ℕ, zero, suc, ◌+◌, List, [], ◌∷◌, length, Option, none, some, Bool, true, false, not, ◌&&◌, ltb,
  ◌==◌, if◌then◌else◌, Result, ok, err, ◌>>=◌,
}
use vectorcore_mmsc.Base.Int.{ℤ, pos, int_eq, int_lt}
use vectorcore_mmsc.Base.Text.{codes, bytes_eq, equal_fold, contains, has_prefix}
use vectorcore_mmsc.Routing.Address.{canonical_msisdn, domain_of}

-- The fields of the type `MM4Route` that routing reads.
pub record Route : Type 0 where
  pub id : ℤ
  pub match_type : List ℕ
  pub match_value : List ℕ
  pub egress_type : List ℕ
  pub egress_target : List ℕ
  pub priority : ℤ
  pub active : Bool

-- The fields of the type `MM4Peer` that routing reads.
pub record Peer : Type 0 where
  pub domain : List ℕ
  pub smtp_host : List ℕ
  pub smtp_port : ℤ
  pub active : Bool

unfoldable pub route_matches : List ℕ → Route → Bool
route_matches address route =
    if bytes_eq route.match_type (codes "recipient_domain")
    then equal_fold (domain_of address) route.match_value
    else if bytes_eq route.match_type (codes "msisdn_exact")
    then (if contains address (codes "@")
        then false
        else bytes_eq (canonical_msisdn address) (canonical_msisdn route.match_value))
    else if bytes_eq route.match_type (codes "msisdn_prefix")
    then (if contains address (codes "@")
        then false
        else has_prefix (canonical_msisdn address) (canonical_msisdn route.match_value))
    else false

unfoldable pub route_rank : List ℕ → ℕ
route_rank match_type =
    if bytes_eq match_type (codes "msisdn_exact")
    then 3
    else if bytes_eq match_type (codes "msisdn_prefix")
    then 2
    else if bytes_eq match_type (codes "recipient_domain")
    then 1
    else 0

abbrev pub prefix_length : Route → ℕ
prefix_length route = length (canonical_msisdn route.match_value)

unfoldable pub better_route : Route → Route → Bool
better_route candidate current =
    if not (route_rank candidate.match_type == route_rank current.match_type)
    then ltb (route_rank current.match_type) (route_rank candidate.match_type)
    else if bytes_eq candidate.match_type (codes "msisdn_prefix")
        && not (prefix_length candidate == prefix_length current)
    then ltb (prefix_length current) (prefix_length candidate)
    else if not (int_eq candidate.priority current.priority)
    then int_lt current.priority candidate.priority
    else int_lt candidate.id current.id

abbrev pub eligible : List ℕ → Route → Bool
eligible address route = route.active && route_matches address route

-- The better of the best so far and a route that is eligible.
unfoldable pub better_of : Option Route → Route → Route
better_of none route = route
better_of (some best) route = if better_route route best then route else best

-- The loop of `MatchRoute`.
unfoldable pub match_loop : List ℕ → List Route → Option Route → Option Route
match_loop address [] best = best
match_loop address (route ∷ routes) best =
    let skipped = match_loop address routes best in
    let taken = match_loop address routes (some (better_of best route)) in
    if eligible address route then taken else skipped

unfoldable pub match_route : List ℕ → List Route → Option Route
match_route address routes = match_loop address routes none

unfoldable pub find_peer : List Peer → List ℕ → Option Peer
find_peer [] target = none
find_peer (peer ∷ peers) target =
    if peer.active && equal_fold peer.domain target then some peer else find_peer peers target

-- `MatchRoutePeer`
unfoldable pub match_route_peer : List ℕ → List Route → List Peer → Option Peer
match_route_peer address routes peers = elim (match_route address routes) [
  | none ↦ none
  | some route ↦
      if bytes_eq route.egress_type (codes "mm4") then find_peer peers route.egress_target else none
]

-- What the repository answers to the two queries of one call.
pub record Repository : Type 0 where
  pub peers : Result (List Peer)
  pub routes : Result (List Route)

-- The route that is returned when the peer of an mm4 route is not there.
abbrev pub reject_route : Route
reject_route = record {
  id = pos 0;
  match_type = [];
  match_value = [];
  egress_type = codes "reject";
  egress_target = [];
  priority = pos 0;
  active = false;
}

unfoldable pub route_with_peer : List Peer → Route → Route × Option Peer
route_with_peer peers route =
    if not (bytes_eq route.egress_type (codes "mm4"))
    then (route, none)
    else elim (find_peer peers route.egress_target) [
      | some peer ↦ (route, some peer)
      | none ↦ (reject_route, none)
    ]

-- `ResolveRoute`; a nil route is `none`.
unfoldable pub resolve_route : Repository → List ℕ → Result (Option (Route × Option Peer))
resolve_route repo address = do
  peers ← repo.peers
  routes ← repo.routes
  elim (match_route address routes) [
    | none ↦ ok none
    | some route ↦ ok (some (route_with_peer peers route))
  ]
