-- ===== src/Smpp/Manager/Again.antt =====
-- A second `Refresh` of internal/smpp/manager.go with the rows of the first.
use vectorcore_mmsc.Base.{
  ℕ, List, [], ◌∷◌, true, Option, none, some, ◌≡◌, refl, sym, subst, ap, ◌∙◌, inl, inr, arith,
  Bool-cases,
}
use vectorcore_mmsc.Base.Text.{bytes_eq, bytes_eq→eq, bytes_eq_self}
use vectorcore_mmsc.Base.TextMap.{lookup, keys, sort}
use vectorcore_mmsc.Base.TextMap.Sorted.{Distinct}
use vectorcore_mmsc.Smpp.Upstream.{Agree-same, Upstream}
use vectorcore_mmsc.Smpp.Manager.{
  Client, Manager, desired_from, may_stay, prune, add_client, add_missing, refresh,
}
use vectorcore_mmsc.Smpp.Manager.Refresh.{
  lookup-desired_from, desired_from-Distinct, refresh-Distinct, Serves, refresh-Serves,
}

Serves-may_stay :
    (want : Option Upstream) (found : Option Client) (client : Client)
    → Serves want found
    → found ≡ some client
    → may_stay want client ≡ true
unfolding may_stay
Serves-may_stay none found client h e = cc
Serves-may_stay (some u) found client (c, e', agree) e =
    let same = Agree-same c.config u agree in ground arith

Serves-there :
    (want : Option Upstream) (found : Option Client) (u : Upstream)
    → Serves want found
    → want ≡ some u
    → (client : Client) × (found ≡ some client)
Serves-there none found u h e = absurd (cc)
Serves-there (some v) found u (c, e', same) e = (c, e')

prune_all :
    (desired : List (List ℕ × Upstream)) (cs : List (List ℕ × Client))
    → Distinct cs
    → ((k : List ℕ) (client : Client)
        → lookup k cs ≡ some client
        → may_stay (lookup k desired) client ≡ true)
    → prune desired cs ≡ (cs, [])
unfolding prune lookup
prune_all desired [] h all = refl
prune_all desired ((name, client) ∷ cs) h all =
    rw (all name client (rw (bytes_eq_self name) refl))
      (ap (λ out. ((name, client) ∷ out.0, out.1)) (prune_all desired cs h.1 rest))
  where
    rest : (k : List ℕ) (c : Client) → lookup k cs ≡ some c → may_stay (lookup k desired) c ≡ true
    rest k c found = elim (Bool-cases (bytes_eq name k)) [
      | inl same ↦ absurd (
          let gone : lookup k cs ≡ none =
            ap (λ j. lookup j cs) (sym (bytes_eq→eq name k same)) ∙ h.0 in
          cc)
      | inr other ↦ all k c (rw other found)
    ]

add_client_there :
    (m : Manager) (name : List ℕ) (upstream : Upstream) (client : Client)
    (cs : List (List ℕ × Client))
    → lookup name cs ≡ some client
    → add_client m name upstream cs ≡ cs
unfolding add_client
add_client_there m name upstream client cs found = rw (found, add_client) refl

add_missing_all :
    (m : Manager) (desired : List (List ℕ × Upstream)) (cs : List (List ℕ × Client))
    → Distinct desired
    → ((k : List ℕ) (u : Upstream)
        → lookup k desired ≡ some u
        → (client : Client) × (lookup k cs ≡ some client))
    → add_missing m desired cs ≡ cs
unfolding add_missing lookup
add_missing_all m [] cs h all = refl
add_missing_all m ((name, upstream) ∷ desired) cs h all =
    let (client, found) = all name upstream (rw (bytes_eq_self name) refl) in
    ap (add_missing m desired) (add_client_there m name upstream client cs found)
    ∙ add_missing_all m desired cs h.1 rest
  where
    rest :
        (k : List ℕ) (u : Upstream)
        → lookup k desired ≡ some u
        → (client : Client) × (lookup k cs ≡ some client)
    rest k u found = elim (Bool-cases (bytes_eq name k)) [
      | inl same ↦ absurd (
          let gone : lookup k desired ≡ none =
            ap (λ j. lookup j desired) (sym (bytes_eq→eq name k same)) ∙ h.0 in
          cc)
      | inr other ↦ all k u (rw other found)
    ]

refresh_same :
    (us : List Upstream) (m : Manager)
    → m.order ≡ sort (keys (desired_from [] us))
    → prune (desired_from [] us) m.clients ≡ (m.clients, [])
    → add_missing m (desired_from [] us) m.clients ≡ m.clients
    → refresh us m ≡ (m, [])
unfolding refresh
refresh_same us m sorted pruned added = ground arith

refresh_order_again :
    (us : List Upstream) (m : Manager) → (refresh us m).0.order ≡ sort (keys (desired_from [] us))
unfolding refresh
refresh_order_again us m = refl

-- A second refresh with the same rows, of clients with one entry for each name, closes no
-- client and leaves the manager as it is.
pub refresh-refresh :
    (us : List Upstream) (m : Manager)
    → Distinct m.clients
    → refresh us (refresh us m).0 ≡ ((refresh us m).0, [])
unfolding lookup
refresh-refresh us m h =
    refresh_same us after (refresh_order_again us m)
      (prune_all desired after.clients (refresh-Distinct us m h)
        (λ k client found. Serves-may_stay (lookup k desired) _ client (serves k) found))
      (add_missing_all after desired after.clients (desired_from-Distinct [] us tt)
        (λ k u found. Serves-there (lookup k desired) _ u (serves k) found))
  where
    after : Manager
    after = (refresh us m).0

    desired : List (List ℕ × Upstream)
    desired = desired_from [] us

    serves : (k : List ℕ) → Serves (lookup k desired) (lookup k after.clients)
    serves k =
        subst (λ o. Serves o (lookup k after.clients)) (sym (lookup-desired_from k [] us))
          (refresh-Serves k us m h)
