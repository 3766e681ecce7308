-- ===== src/Smpp/Manager/Refresh.antt =====
-- What `Refresh` of internal/smpp/manager.go makes of the clients.
use vectorcore_mmsc.Base.{
  ℕ, List, [], ◌∷◌, Bool, true, false, if◌then◌else◌, ◌&&◌, Option, none, some, ◌≡◌, refl, sym, ap,
  ap₂, ◌∙◌, arith, Bool-cases, Option-cases, inl, inr,
}
use vectorcore_mmsc.Base.Text.{bytes_eq, bytes_eq→eq}
use vectorcore_mmsc.Base.TextMap.{lookup}
use vectorcore_mmsc.Base.TextMap.Laws.{lookup-insert}
use vectorcore_mmsc.Base.TextMap.Sorted.{Distinct, insert-Distinct}
use vectorcore_mmsc.Smpp.Upstream.{
  Upstream, config_of, same_runtime_config, same_runtime_config-config_of,
  same_runtime_config-Agree, Agree,
}
use vectorcore_mmsc.Smpp.Manager.{
  Client, Manager, activated, add_desired, desired_from, may_stay, prune, add_client, add_missing,
  refresh,
}

-- The row that a snapshot wants for a name: the last active one.
unfoldable pub wanted_from : List ℕ → Option Upstream → List Upstream → Option Upstream
wanted_from name found [] = found
wanted_from name found (u ∷ us) =
    wanted_from name (if u.active && bytes_eq u.name name then some u else found) us

abbrev pub wanted : List ℕ → List Upstream → Option Upstream
wanted name us = wanted_from name none us

lookup-add_desired :
    (k : List ℕ) (desired : List (List ℕ × Upstream)) (u : Upstream)
    → lookup k (add_desired desired u)
      ≡ (if u.active && bytes_eq u.name k then some u else lookup k desired)
unfolding add_desired
lookup-add_desired k desired u = ground (arith, lookup-insert u.name k u desired)

pub lookup-desired_from :
    (k : List ℕ) (desired : List (List ℕ × Upstream)) (us : List Upstream)
    → lookup k (desired_from desired us) ≡ wanted_from k (lookup k desired) us
unfolding desired_from wanted_from
lookup-desired_from k desired [] = refl
lookup-desired_from k desired (u ∷ us) =
    lookup-desired_from k (add_desired desired u) us
    ∙ ap (λ o. wanted_from k o us) (lookup-add_desired k desired u)

if-Distinct {ℓ} :
    {V : Type ℓ} (b : Bool) (m n : List (List ℕ × V))
    → Distinct m
    → Distinct n
    → Distinct (if b then m else n)
if-Distinct true m n h k = h
if-Distinct false m n h k = k

pub desired_from-Distinct :
    (desired : List (List ℕ × Upstream)) (us : List Upstream)
    → Distinct desired
    → Distinct (desired_from desired us)
unfolding desired_from add_desired
desired_from-Distinct desired [] h = h
desired_from-Distinct desired (u ∷ us) h =
    desired_from-Distinct (add_desired desired u) us
      (if-Distinct u.active _ _ (insert-Distinct u.name u desired h) h)

-- What the first loop leaves of one client.
abbrev pub stays : Option Upstream → Option Client → Option Client
stays want none = none
stays want (some client) = if may_stay want client then some client else none

prune-absent :
    (k : List ℕ) (desired : List (List ℕ × Upstream)) (cs : List (List ℕ × Client))
    → lookup k cs ≡ none
    → lookup k (prune desired cs).0 ≡ none
unfolding prune lookup
prune-absent k desired [] h = refl
prune-absent k desired ((name, client) ∷ cs) h = ground (arith, prune-absent k desired cs)

lookup-prune :
    (k : List ℕ) (desired : List (List ℕ × Upstream)) (cs : List (List ℕ × Client))
    → Distinct cs
    → lookup k (prune desired cs).0 ≡ stays (lookup k desired) (lookup k cs)
unfolding prune lookup
lookup-prune k desired [] h = refl
lookup-prune k desired ((name, client) ∷ cs) h = elim (Bool-cases (bytes_eq name k)) [
  | inl same ↦ ground (
    arith,
    bytes_eq→eq name k same,
    ap (λ j. lookup j desired) (bytes_eq→eq name k same),
    prune-absent name desired cs h.0,
    ap (λ j. lookup j (prune desired cs).0) (bytes_eq→eq name k same),
  )
  | inr other ↦ ground (arith, lookup-prune k desired cs h.1)
]

prune-Distinct :
    (desired : List (List ℕ × Upstream)) (cs : List (List ℕ × Client))
    → Distinct cs
    → Distinct (prune desired cs).0
unfolding prune
prune-Distinct desired [] h = tt
prune-Distinct desired ((name, client) ∷ cs) h =
    ground (arith, prune-absent name desired cs h.0, prune-Distinct desired cs h.1)

-- What the second loop leaves of one client.
abbrev pub filled : Manager → Option Upstream → Option Client → Option Client
filled m want (some client) = some client
filled m none none = none
filled m (some upstream) none = some (activated m upstream)

pub filled-none : (m : Manager) (o : Option Client) → filled m none o ≡ o
filled-none m none = refl
filled-none m (some client) = refl

lookup-add_client :
    (k : List ℕ) (m : Manager) (name : List ℕ) (upstream : Upstream) (cs : List (List ℕ × Client))
    → lookup k (add_client m name upstream cs)
      ≡ (if bytes_eq name k then filled m (some upstream) (lookup name cs) else lookup k cs)
unfolding add_client
lookup-add_client k m name upstream cs = elim (Option-cases (lookup name cs)) [
  | inl e ↦ rw (e, add_client) (lookup-insert name k (activated m upstream) cs)
  | inr (client, e) ↦ elim (Bool-cases (bytes_eq name k)) [
    | inl same ↦
        rw (e, add_client) (rw same (ap (λ j. lookup j cs) (sym (bytes_eq→eq name k same)) ∙ e))
    | inr other ↦ rw (e, add_client) (rw other refl)
  ]
]

lookup-add_client_ne :
    (k : List ℕ) (m : Manager) (name : List ℕ) (upstream : Upstream) (cs : List (List ℕ × Client))
    → bytes_eq name k ≡ false
    → lookup k (add_client m name upstream cs) ≡ lookup k cs
lookup-add_client_ne k m name upstream cs other =
    lookup-add_client k m name upstream cs ∙ rw other refl

add_client-Distinct :
    (m : Manager) (name : List ℕ) (upstream : Upstream) (cs : List (List ℕ × Client))
    → Distinct cs
    → Distinct (add_client m name upstream cs)
unfolding add_client
add_client-Distinct m name upstream cs h = elim (Option-cases (lookup name cs)) [
  | inl e ↦ rw (e, add_client) (insert-Distinct name (activated m upstream) cs h)
  | inr (client, e) ↦ rw (e, add_client) h
]

lookup-add_missing :
    (k : List ℕ) (m : Manager) (desired : List (List ℕ × Upstream)) (cs : List (List ℕ × Client))
    → Distinct desired
    → lookup k (add_missing m desired cs) ≡ filled m (lookup k desired) (lookup k cs)
unfolding add_missing lookup
lookup-add_missing k m [] cs h = sym (filled-none m (lookup k cs))
lookup-add_missing k m ((name, upstream) ∷ desired) cs h = elim (Bool-cases (bytes_eq name k)) [
  | inl same ↦
      lookup-add_missing k m desired (add_client m name upstream cs) h.1
      ∙ ap₂ (filled m) (ap (λ j. lookup j desired) (sym (bytes_eq→eq name k same)) ∙ h.0)
          (lookup-add_client k m name upstream cs ∙ rw same refl)
      ∙ filled-none m (filled m (some upstream) (lookup name cs))
      ∙ ap (λ j. filled m (some upstream) (lookup j cs)) (bytes_eq→eq name k same)
      ∙ rw same refl
  | inr other ↦
      lookup-add_missing k m desired (add_client m name upstream cs) h.1
      ∙ ap (filled m (lookup k desired)) (lookup-add_client_ne k m name upstream cs other)
      ∙ rw other refl
]

add_missing-Distinct :
    (m : Manager) (desired : List (List ℕ × Upstream)) (cs : List (List ℕ × Client))
    → Distinct cs
    → Distinct (add_missing m desired cs)
unfolding add_missing
add_missing-Distinct m [] cs h = h
add_missing-Distinct m ((name, upstream) ∷ desired) cs h =
    add_missing-Distinct m desired (add_client m name upstream cs)
      (add_client-Distinct m name upstream cs h)

-- The client of a name after a refresh: none if no row is wanted; the one that was there, if it has
-- the configuration of the row; and otherwise a new one.
pub lookup-refresh :
    (k : List ℕ) (us : List Upstream) (m : Manager)
    → Distinct m.clients
    → lookup k (refresh us m).0.clients
      ≡ filled m (wanted k us) (stays (wanted k us) (lookup k m.clients))
unfolding refresh
lookup-refresh k us m h =
    let desired = desired_from [] us in
    let same : lookup k desired ≡ wanted k us = lookup-desired_from k [] us in
    lookup-add_missing k m desired (prune desired m.clients).0 (desired_from-Distinct [] us tt)
    ∙ ap (filled m (lookup k desired)) (lookup-prune k desired m.clients h)
    ∙ ap (λ o. filled m o (stays o (lookup k m.clients))) same

pub refresh-Distinct :
    (us : List Upstream) (m : Manager) → Distinct m.clients → Distinct (refresh us m).0.clients
unfolding refresh
refresh-Distinct us m h =
    let desired = desired_from [] us in
    add_missing-Distinct m desired (prune desired m.clients).0 (prune-Distinct desired m.clients h)

-- The client serves the row: there is one exactly if the row is there, and its configuration agrees with
-- the row in every field but the two marks that the destination's number and plan are set.
abbrev pub Serves : Option Upstream → Option Client → Type 0
Serves none found = found ≡ none
Serves (some upstream) found =
    (client : Client) × (found ≡ some client) × Agree client.config upstream

activated_config : (m : Manager) (u : Upstream) → (activated m u).config ≡ config_of u
unfolding activated
activated_config m u = ground arith

config_of-Agree : (u : Upstream) → Agree (config_of u) u
config_of-Agree u = same_runtime_config-Agree (config_of u) u (same_runtime_config-config_of u)

filled-Serves :
    (m : Manager) (want : Option Upstream) (found : Option Client)
    → Serves want (filled m want (stays want found))
unfolding may_stay
filled-Serves m none none = refl
filled-Serves m none (some client) = refl
filled-Serves m (some u) none = (activated m u, refl, rw (activated_config m u) (config_of-Agree u))
filled-Serves m (some u) (some client) = elim (Bool-cases (same_runtime_config client.config u)) [
  | inl same ↦ rw same (client, refl, same_runtime_config-Agree client.config u same)
  | inr other ↦ rw other (activated m u, refl, rw (activated_config m u) (config_of-Agree u))
]

-- After a refresh of clients with one entry for each name, a name has a client exactly if the
-- rows have an active one of that name, and the configuration of the client agrees with the
-- last of these in every field but the two marks that the type and the plan of the destination
-- number are set: host, port, system id, password, system type, bind mode, registered
-- delivery, the type and plan of both numbers (those of the source with their marks, 0 for the
-- source and 1 for the destination where none is given), and the two times.
pub refresh-Serves :
    (k : List ℕ) (us : List Upstream) (m : Manager)
    → Distinct m.clients
    → Serves (wanted k us) (lookup k (refresh us m).0.clients)
refresh-Serves k us m h =
    rw (lookup-refresh k us m h) (filled-Serves m (wanted k us) (lookup k m.clients))
