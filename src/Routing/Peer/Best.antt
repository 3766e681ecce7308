-- ===== src/Routing/Peer/Best.antt =====
-- The laws of `betterRoute` and `MatchRoute` of internal/routing/peer.go.
use vectorcore_mmsc.Base.{
  ℕ, List, [], ◌∷◌, All, Option, none, some, Bool, true, false, not, ◌&&◌, ltb, ◌==◌, if◌then◌else◌,
  Bool-cases, ◌≡◌, ◌⊎◌, inl, inr, refl, sym, ◌∙◌, arith, ==_self,
}
use vectorcore_mmsc.Base.Int.{ℤ, int_eq, int_lt}
use vectorcore_mmsc.Base.Text.{codes, bytes_eq, bytes_eq→eq}
use vectorcore_mmsc.Routing.Peer.{
  Route, route_rank, prefix_length, better_route, eligible, better_of, match_loop, match_route,
}

-- A comparison by one number, and by the next one where the first is equal.
lex_trans :
    (x y z : ℕ) (ab bc ac : Bool)
    → (if not (x == y) then ltb y x else ab) ≡ true
    → (if not (y == z) then ltb z y else bc) ≡ true
    → (x ≡ y → y ≡ z → ab ≡ true → bc ≡ true → ac ≡ true)
    → (if not (x == z) then ltb z x else ac) ≡ true
lex_trans x y z ab bc ac p q r = ground arith

int_lt_trans : (x y z : ℤ) → int_lt x y ≡ true → int_lt y z ≡ true → int_lt x z ≡ true
int_lt_trans x y z p q = ground arith

lex_int_trans :
    (x y z : ℤ) (ab bc ac : Bool)
    → (if not (int_eq x y) then int_lt y x else ab) ≡ true
    → (if not (int_eq y z) then int_lt z y else bc) ≡ true
    → (ab ≡ true → bc ≡ true → ac ≡ true)
    → (if not (int_eq x z) then int_lt z x else ac) ≡ true
lex_int_trans x y z ab bc ac p q r = ground arith

rank_prefix : (t : List ℕ) → bytes_eq t (codes "msisdn_prefix") ≡ (route_rank t == 2)
unfolding route_rank
rank_prefix t = elim (Bool-cases (bytes_eq t (codes "msisdn_exact"))) [
  | inl exact ↦ rw (bytes_eq→eq t (codes "msisdn_exact") exact)
  | inr other ↦ ground arith
]

-- The comparison below the rank, for two routes of one rank.
abbrev by_rest : Route → Route → Bool
by_rest a b =
    if bytes_eq a.match_type (codes "msisdn_prefix") && not (prefix_length a == prefix_length b)
    then ltb (prefix_length b) (prefix_length a)
    else if not (int_eq a.priority b.priority)
    then int_lt b.priority a.priority
    else int_lt a.id b.id

abbrev by_priority : Route → Route → Bool
by_priority a b =
    if not (int_eq a.priority b.priority) then int_lt b.priority a.priority else int_lt a.id b.id

by_priority_trans :
    (a b c : Route) → by_priority a b ≡ true → by_priority b c ≡ true → by_priority a c ≡ true
by_priority_trans a b c p q =
    lex_int_trans a.priority b.priority c.priority _ _ _ p q (int_lt_trans a.id b.id c.id)

flagged_trans :
    (f : Bool) (x y z : ℕ) (ab bc ac : Bool)
    → (if f && not (x == y) then ltb y x else ab) ≡ true
    → (if f && not (y == z) then ltb z y else bc) ≡ true
    → (ab ≡ true → bc ≡ true → ac ≡ true)
    → (if f && not (x == z) then ltb z x else ac) ≡ true
flagged_trans true x y z ab bc ac p q r = ground arith
flagged_trans false x y z ab bc ac p q r = r p q

by_rest_trans :
    (a b c : Route)
    → bytes_eq a.match_type (codes "msisdn_prefix") ≡ bytes_eq b.match_type (codes "msisdn_prefix")
    → by_rest a b ≡ true
    → by_rest b c ≡ true
    → by_rest a c ≡ true
by_rest_trans a b c same p q =
    flagged_trans (bytes_eq a.match_type (codes "msisdn_prefix")) (prefix_length a)
      (prefix_length b) (prefix_length c) (by_priority a b) (by_priority b c) (by_priority a c) p
      (rw (← same) at q) (by_priority_trans a b c)

-- The comparison of routes is transitive, and no route is better than itself.
pub better_route-order :
    (a b c : Route)
    → (better_route a a ≡ false)
      × (better_route a b ≡ true → better_route b c ≡ true → better_route a c ≡ true)
unfolding better_route
better_route-order a b c = (
  ground (arith, ==_self (route_rank a.match_type), ==_self (prefix_length a)),
  λ p q.
      lex_trans (route_rank a.match_type) (route_rank b.match_type) (route_rank c.match_type)
        (by_rest a b) (by_rest b c) (by_rest a c) p q
        (λ x y.
          by_rest_trans a b c (rank_prefix a.match_type ∙ rw x (sym (rank_prefix b.match_type)))),
)

-- The route is in the list.
abbrev pub Among : Route → List Route → Type 0
Among r [] = ⊥
Among r (c ∷ cs) = (c ≡ r) ⊎ Among r cs

-- No route of the list that may be taken is better than `r`.
abbrev pub NoneBetter : List ℕ → Route → List Route → Type 0
NoneBetter address r routes = All (λ c. eligible address c ≡ true → better_route c r ≡ false) routes

-- A route is at least as good as the best that was there.
abbrev AtLeast : Route → Option Route → Type 0
AtLeast r none = Unit {0}
AtLeast r (some b) = (b ≡ r) ⊎ (better_route r b ≡ true)

refute : (t : Bool) → (t ≡ true → ⊥) → t ≡ false
refute true f = absurd (f refl)
refute false f = refl

not_better :
    (c b r : Route) → AtLeast r (some b) → better_route c b ≡ false → better_route c r ≡ false
not_better c b r (inl same) h = rw (← same) h
not_better c b r (inr more) h =
    refute (better_route c r) (λ p. ground (arith, (better_route-order c r b).1 p more))

better_of-old :
    (best : Option Route) (route r : Route)
    → AtLeast r (some (better_of best route))
    → AtLeast r best
unfolding better_of
better_of-old none route r h = tt
better_of-old (some b) route r h = elim (Bool-cases (better_route route b)) [
  | inl wins ↦ elim (rw wins at h) [
    | inl same ↦ inr (rw (← same) wins)
    | inr more ↦ inr ((better_route-order r route b).1 more wins)
  ]
  | inr loses ↦ rw loses at h
]

better_of-new :
    (best : Option Route) (route r : Route)
    → AtLeast r (some (better_of best route))
    → better_route route r ≡ false
unfolding better_of
better_of-new none route r h = not_better route route r h (better_route-order route route route).0
better_of-new (some b) route r h = elim (Bool-cases (better_route route b)) [
  | inl wins ↦ not_better route route r (rw wins at h) (better_route-order route route route).0
  | inr loses ↦ not_better route b r (rw loses at h) loses
]

better_of-either :
    (best : Option Route) (route : Route)
    → (better_of best route ≡ route) ⊎ (best ≡ some (better_of best route))
unfolding better_of
better_of-either none route = inl refl
better_of-either (some b) route = elim (Bool-cases (better_route route b)) [
  | inl wins ↦ inl (rw wins)
  | inr loses ↦ inr (rw loses)
]

-- Where a result of the loop comes from.
abbrev Source : List ℕ → List Route → Option Route → Route → Type 0
Source address routes best r = (best ≡ some r) ⊎ (Among r routes × (eligible address r ≡ true))

some_route : (x y : Route) → some x ≡ some y → x ≡ y
some_route x y e = cc

Source-of_taken :
    (address : List ℕ) (route : Route) (routes : List Route) (best : Option Route) (r : Route)
    → eligible address route ≡ true
    → Source address routes (some (better_of best route)) r
    → Source address (route ∷ routes) best r
Source-of_taken address route routes best r fits (inr (later, ok_)) = inr (inr later, ok_)
Source-of_taken address route routes best r fits (inl e) = elim (better_of-either best route) [
  | inl new ↦
      let same : route ≡ r = sym new ∙ some_route (better_of best route) r e in
      inr (inl same, rw (← same) fits)
  | inr old ↦ inl (old ∙ e)
]

match_loop-some :
    (address : List ℕ) (routes : List Route) (best : Option Route) (r : Route)
    → match_loop address routes best ≡ some r
    → Source address routes best r × AtLeast r best × NoneBetter address r routes
unfolding match_loop
match_loop-some address [] best r e = (inl e, rw e (inl refl), tt)
match_loop-some address (route ∷ routes) best r e = elim (Bool-cases (eligible address route)) [
  | inl takes ↦
      let (source, least, none_) =
        match_loop-some address routes (some (better_of best route)) r (rw takes at e) in
      (
        Source-of_taken address route routes best r takes source,
        better_of-old best route r least,
        ((λ h. better_of-new best route r least), none_),
      )
  | inr passes ↦
      let (source, least, none_) = match_loop-some address routes best r (rw passes at e) in
      (
        elim source [ inl old ↦ inl old | inr (later, ok_) ↦ inr (inr later, ok_) ],
        least,
        ((λ h. ground arith), none_),
      )
]

match_loop-none :
    (address : List ℕ) (routes : List Route) (best : Option Route)
    → match_loop address routes best ≡ none
    → (best ≡ none) × All (λ c. eligible address c ≡ false) routes
unfolding match_loop
match_loop-none address [] best e = (e, tt)
match_loop-none address (route ∷ routes) best e = elim (Bool-cases (eligible address route)) [
  | inl takes ↦
      absurd (
        some_none _
          (match_loop-none address routes (some (better_of best route)) (rw takes at e)).0)
  | inr passes ↦
      let (old, others) = match_loop-none address routes best (rw passes at e) in
      (old, (passes, others))
]
  where
    some_none : (x : Route) → ◌≡◌ {A = Option Route} (some x) none → ⊥
    some_none x h = cc

-- A route that is returned is one of the routes, is active and matches, and no other active
-- route that matches is better; and where none is returned, no active route matches.
pub match_route-best :
    (address : List ℕ) (routes : List Route)
    → ((r : Route)
        → match_route address routes ≡ some r
        → Among r routes × (eligible address r ≡ true) × NoneBetter address r routes)
      × (match_route address routes ≡ none → All (λ c. eligible address c ≡ false) routes)
unfolding match_route
match_route-best address routes = (
  λ r e.
      let (source, least, best) = match_loop-some address routes none r e in
      elim source [ inl old ↦ absurd (cc) | inr (among, fits) ↦ (among, fits, best) ],
  λ e. (match_loop-none address routes none e).1,
)
