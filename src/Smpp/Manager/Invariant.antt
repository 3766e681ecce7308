-- ===== src/Smpp/Manager/Invariant.antt =====
-- The states of internal/smpp/manager.go that its methods reach.
use vectorcore_mmsc.Base.{
  ℕ, List, [], ◌∷◌, All, Bool, true, false, Option, none, some, Result, ok, err, no_upstream, ◌≡◌,
  refl, sym, ap, subst, ◌∙◌, inl, inr, arith, Option-cases,
}
use vectorcore_mmsc.Base.Text.{bytes_eq_self}
use vectorcore_mmsc.Base.TextMap.{lookup, keys, sort, elem, text_le}
use vectorcore_mmsc.Base.TextMap.Laws.{elem-keys, elem-sort}
use vectorcore_mmsc.Base.TextMap.Sorted.{Distinct, IsSorted, sort-IsSorted}
use vectorcore_mmsc.Smpp.Upstream.{Upstream}
use vectorcore_mmsc.Smpp.Manager.{
  Client, Manager, new_manager, set_handler, start_client, may_stay, desired_from, refresh,
  default_of, default, on_clients, set_receipt_handler, start, close_manager,
}
use vectorcore_mmsc.Smpp.Manager.Refresh.{
  wanted, lookup-desired_from, stays, filled, lookup-refresh, refresh-Distinct,
}

abbrev pub has {ℓ} : {V : Type ℓ} → Option V → Bool
has none = false
has (some v) = true

-- The names in the order are sorted, and are those of the clients.
pub record IsValid (m : Manager) : Type 0 where
  pub distinct : Distinct m.clients
  pub sorted : IsSorted m.order
  pub named : (k : List ℕ) → elem k m.order ≡ has (lookup k m.clients)

new_manager-IsValid : IsValid new_manager
unfolding new_manager elem lookup
new_manager-IsValid = record { distinct = tt; sorted = tt; named = λ k. refl }

has-filled :
    (m : Manager) (want : Option Upstream) (found : Option Client)
    → has (filled m want (stays want found)) ≡ has want
unfolding may_stay
has-filled m none none = refl
has-filled m none (some client) = refl
has-filled m (some u) none = refl
has-filled m (some u) (some client) = ground arith

elem-desired :
    (k : List ℕ) (us : List Upstream)
    → elem k (sort (keys (desired_from [] us))) ≡ has (wanted k us)
unfolding lookup
elem-desired k us =
    elem-sort k (keys (desired_from [] us))
    ∙ elem-keys k (desired_from [] us)
    ∙ ap (λ o. elim o [ none ↦ false | some v ↦ true ]) (lookup-desired_from k [] us)
    ∙ has-elim (wanted k us)
  where
    has-elim :
        (o : Option Upstream) → (elim o as (λ x. Bool) [ none ↦ false | some v ↦ true ]) ≡ has o
    has-elim none = refl
    has-elim (some u) = refl

refresh_order :
    (us : List Upstream) (m : Manager) → (refresh us m).0.order ≡ sort (keys (desired_from [] us))
unfolding refresh
refresh_order us m = refl

pub refresh-IsValid : (us : List Upstream) (m : Manager) → IsValid m → IsValid (refresh us m).0
refresh-IsValid us m v = record {
  distinct = refresh-Distinct us m v.distinct;
  sorted = rw (refresh_order us m) (sort-IsSorted (keys (desired_from [] us)));
  named = λ k.
      ap (elem k) (refresh_order us m)
      ∙ elem-desired k us
      ∙ sym (has-filled m (wanted k us) (lookup k m.clients))
      ∙ ap has (sym (lookup-refresh k us m v.distinct));
}

lookup-on_clients-none :
    (f : Client → Client) (k : List ℕ) (cs : List (List ℕ × Client))
    → lookup k cs ≡ none
    → lookup k (on_clients f cs) ≡ none
unfolding lookup on_clients
lookup-on_clients-none f k [] h = refl
lookup-on_clients-none f k ((name, client) ∷ cs) h = ground (arith, lookup-on_clients-none f k cs)

on_clients-Distinct :
    (f : Client → Client) (cs : List (List ℕ × Client)) → Distinct cs → Distinct (on_clients f cs)
unfolding on_clients
on_clients-Distinct f [] h = tt
on_clients-Distinct f ((name, client) ∷ cs) h =
    (lookup-on_clients-none f name cs h.0, on_clients-Distinct f cs h.1)

has-on_clients :
    (f : Client → Client) (k : List ℕ) (cs : List (List ℕ × Client))
    → has (lookup k (on_clients f cs)) ≡ has (lookup k cs)
unfolding lookup on_clients
has-on_clients f k [] = refl
has-on_clients f k ((name, client) ∷ cs) = ground (arith, has-on_clients f k cs)

set_receipt_handler-IsValid :
    (handler : Bool) (m : Manager) → IsValid m → IsValid (set_receipt_handler handler m)
unfolding set_receipt_handler
set_receipt_handler-IsValid handler m v = record {
  distinct = on_clients-Distinct (set_handler handler) m.clients v.distinct;
  sorted = v.sorted;
  named = λ k. v.named k ∙ sym (has-on_clients (set_handler handler) k m.clients);
}

start-IsValid : (m : Manager) → IsValid m → IsValid (start m)
unfolding start
start-IsValid m v = record {
  distinct = on_clients-Distinct start_client m.clients v.distinct;
  sorted = v.sorted;
  named = λ k. v.named k ∙ sym (has-on_clients start_client k m.clients);
}

close_manager-IsValid : (m : Manager) → IsValid (close_manager m).0
unfolding close_manager elem lookup
close_manager-IsValid m = record { distinct = tt; sorted = tt; named = λ k. refl }

-- The managers that the methods reach from a new one.
pub data Reach : Manager → Type 0 where
  new : Reach new_manager
  refreshed : (us : List Upstream) {m : Manager} → Reach m → Reach (refresh us m).0
  handled : (handler : Bool) {m : Manager} → Reach m → Reach (set_receipt_handler handler m)
  started : {m : Manager} → Reach m → Reach (start m)
  closed : {m : Manager} → Reach m → Reach (close_manager m).0

pub Reach-IsValid : {m : Manager} → Reach m → IsValid m
Reach-IsValid new = new_manager-IsValid
Reach-IsValid (refreshed us {m} r) = refresh-IsValid us m (Reach-IsValid r)
Reach-IsValid (handled handler {m} r) = set_receipt_handler-IsValid handler m (Reach-IsValid r)
Reach-IsValid (started {m} r) = start-IsValid m (Reach-IsValid r)
Reach-IsValid (closed {m} r) = close_manager-IsValid m

-- The default client: an error if there are no clients, and otherwise the client, which is there,
-- of a name that no name of the order is before.
abbrev pub Chosen : Manager → Result (Option Client) → Type 0
Chosen m (err e) = (e ≡ no_upstream) × ((k : List ℕ) → lookup k m.clients ≡ none)
Chosen m (ok o) =
    (name : List ℕ) × (client : Client) × (o ≡ some client)
    × (lookup name m.clients ≡ some client)
    × All (λ j. text_le name j ≡ true) m.order

has-none : (o : Option Client) → has o ≡ false → o ≡ none
has-none none h = refl
has-none (some client) h = cc

default-empty :
    (m : Manager)
    → ((k : List ℕ) → elem k [] ≡ has (lookup k m.clients))
    → Chosen m (err no_upstream)
unfolding elem
default-empty m named = (refl, λ k. has-none (lookup k m.clients) (sym (named k)))

elem_head : (k : List ℕ) (ks : List (List ℕ)) → elem k (k ∷ ks) ≡ true
unfolding elem
elem_head k ks = ground (arith, bytes_eq_self k)

text_le_self : (a : List ℕ) → text_le a a ≡ true
unfolding text_le
text_le_self [] = refl
text_le_self (x ∷ a) = ground (arith, text_le_self a)

default-first :
    (m : Manager) (name : List ℕ) (names : List (List ℕ))
    → m.order ≡ name ∷ names
    → IsValid m
    → Chosen m (ok (lookup name m.clients))
default-first m name names e v = elim (Option-cases (lookup name m.clients)) [
  | inl missing ↦ absurd (
      let clash : true ≡ false =
        sym (ap (elem name) e ∙ elem_head name names) ∙ v.named name ∙ ap has missing in
      cc)
  | inr (client, found) ↦
      (name, client, found, found, rw e (text_le_self name, (subst IsSorted e v.sorted).0))
]

default_of-Chosen :
    (m : Manager) (order : List (List ℕ))
    → m.order ≡ order
    → IsValid m
    → Chosen m (default_of order m.clients)
unfolding default_of
default_of-Chosen m [] e v = default-empty m (λ k. ap (elem k) (sym e) ∙ v.named k)
default_of-Chosen m (name ∷ names) e v = default-first m name names e v

-- In every manager that its methods reach, the default client is an error exactly if there are
-- no clients, and otherwise is a client that is there, whose name no name of the order comes
-- before.
pub default-Chosen : {m : Manager} → Reach m → Chosen m (default m)
unfolding default
default-Chosen {m} r = default_of-Chosen m m.order refl (Reach-IsValid r)
