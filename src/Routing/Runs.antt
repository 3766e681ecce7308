-- ===== src/Routing/Runs.antt =====
-- Concrete routes, peers and recipients for the laws of internal/routing.
use vectorcore_mmsc.Base.{[], ◌∷◌, All, none, some, true, false, ok, ◌≡◌, refl}
use vectorcore_mmsc.Base.Int.{pos}
use vectorcore_mmsc.Base.Text.{
  codes, equal_fold, contains, has_prefix, to_upper, to_lower, trim_space, trim_left, index_of,
}
use vectorcore_mmsc.Routing.Address.{
  without_type, route_address, digits, canonical_of, canonical_msisdn,
}
use vectorcore_mmsc.Routing.Peer.{
  Route, Peer, Repository, route_matches, route_rank, better_route, better_of, eligible, match_loop,
  match_route, find_peer, route_with_peer, resolve_route,
}
use vectorcore_mmsc.Routing.Peer.Best.{Among, NoneBetter, better_route-order, match_route-best}
use vectorcore_mmsc.Routing.Engine.{mm4, Resolution, destination_of, resolve, resolve_recipients}
use vectorcore_mmsc.Routing.Engine.Laws.{Agrees, resolve_recipients-agree}
use vectorcore_mmsc.Routing.Engine.Mm4.{HasPeer, resolve-mm4}

abbrev wide : Route
wide = record {
  id = pos 1;
  match_type = codes "msisdn_prefix";
  match_value = codes "+1";
  egress_type = codes "local";
  egress_target = [];
  priority = pos 9;
  active = true;
}

abbrev narrow : Route
narrow = record {
  id = pos 2;
  match_type = codes "msisdn_prefix";
  match_value = codes "+1555";
  egress_type = codes "mm4";
  egress_target = codes "B.net";
  priority = pos 0;
  active = true;
}

abbrev partner : Peer
partner = record {
  domain = codes "b.net";
  smtp_host = codes "mx";
  smtp_port = pos 25;
  active = true;
}

abbrev answers : Repository
answers = record { peers = ok (partner ∷ []); routes = ok (wide ∷ narrow ∷ []) }

abbrev to_partner : Resolution
to_partner = record { destination = mm4; peer = some partner }

better_route-order_example :
    (better_route narrow narrow ≡ false)
    × (better_route narrow wide ≡ true
        → better_route wide wide ≡ true
        → better_route narrow wide ≡ true)
better_route-order_example = better_route-order narrow wide wide

match_route-best_example :
    ((r : Route)
      → match_route (codes "+15551") (wide ∷ narrow ∷ []) ≡ some r
      → Among r (wide ∷ narrow ∷ [])
        × (eligible (codes "+15551") r ≡ true)
        × NoneBetter (codes "+15551") r (wide ∷ narrow ∷ []))
    × (match_route (codes "+15551") (wide ∷ narrow ∷ []) ≡ none
        → All (λ c. eligible (codes "+15551") c ≡ false) (wide ∷ narrow ∷ []))
match_route-best_example = match_route-best (codes "+15551") (wide ∷ narrow ∷ [])

resolved_to_partner : resolve answers (codes "+15551/TYPE=PLMN") ≡ ok to_partner
unfolding resolve route_address without_type to_upper index_of resolve_route match_route match_loop
    route_matches contains canonical_msisdn trim_space trim_left canonical_of digits has_prefix
    better_of better_route route_rank route_with_peer find_peer equal_fold to_lower destination_of
resolved_to_partner = refl

resolve-mm4_example : HasPeer answers (codes "+15551/TYPE=PLMN") to_partner
resolve-mm4_example =
    resolve-mm4 answers (codes "+15551/TYPE=PLMN") to_partner resolved_to_partner refl

resolve_recipients_example :
    (resolve_recipients
          ((answers, codes "+15551/TYPE=PLMN") ∷ (answers, codes "+15551/TYPE=PLMN") ∷ [])
        ≡ ok to_partner
      → (resolve answers (codes "+15551/TYPE=PLMN") ≡ ok to_partner)
        × All (Agrees to_partner) ((answers, codes "+15551/TYPE=PLMN") ∷ []))
    × ((resolve answers (codes "+15551/TYPE=PLMN") ≡ ok to_partner)
          × All (Agrees to_partner) ((answers, codes "+15551/TYPE=PLMN") ∷ [])
        → resolve_recipients
            ((answers, codes "+15551/TYPE=PLMN") ∷ (answers, codes "+15551/TYPE=PLMN") ∷ [])
          ≡ ok to_partner)
resolve_recipients_example =
    resolve_recipients-agree (answers, codes "+15551/TYPE=PLMN")
      ((answers, codes "+15551/TYPE=PLMN") ∷ []) to_partner
