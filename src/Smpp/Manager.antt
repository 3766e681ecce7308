-- ===== src/Smpp/Manager.antt =====
-- internal/smpp/manager.go and the part of client.go that it starts and stops: the clients of the
-- active upstreams by name, and their order.
pub mod Refresh
pub mod Invariant
pub mod Again
use vectorcore_mmsc.Base.{
  ℕ, List, [], ◌∷◌, ◌++◌, is_empty, Bool, true, false, not, ◌||◌, if◌then◌else◌, Option, none, some,
  Result, ok, err, no_upstream, ◌>>=◌, Error,
}
use vectorcore_mmsc.Base.TextMap.{lookup, insert, keys, sort}
use vectorcore_mmsc.Smpp.Session.{Session, SessionState, Effect, new_session, close}
use vectorcore_mmsc.Smpp.Upstream.{Upstream, Config, config_of, same_runtime_config}
use vectorcore_mmsc.Base.Int.{ℤ}

-- The type `Client`: `started` is that the loop of `Start` runs.
pub record Client : Type 0 where
  pub config : Config
  pub session : Session
  pub started : Bool

-- The type `Manager`, with its map of clients as an association list. `running` is that it has a
-- context to start clients in, and `handler` that a receipt handler is set.
pub record Manager : Type 0 where
  pub clients : List (List ℕ × Client)
  pub order : List (List ℕ)
  pub running : Bool
  pub handler : Bool

unfoldable pub new_manager : Manager
new_manager = record { clients = []; order = []; running = false; handler = false }

-- `NewClientFromUpstream`
unfoldable pub new_client : Upstream → Client
unfolding config_of new_session
new_client upstream = record { config = config_of upstream; session = new_session; started = false }

-- The method `SetDeliveryReceiptHandler` of a client.
unfoldable pub set_handler : Bool → Client → Client
set_handler handler client = record client {
  session = record client.session { delivery_receipt_handler = handler };
}

-- The method `Start` of a client.
unfoldable pub start_client : Client → Client
start_client client = record client { started = true }

-- The method `Close` of a client, after its loop has returned.
unfoldable pub close_client : Client → Client × List Effect
unfolding close
close_client client =
    let (session, did) = close client.session in
    (record client { session = session; started = false }, did)

-- The client that `Refresh` makes of a row.
unfoldable pub activated : Manager → Upstream → Client
unfolding new_client set_handler start_client
activated m upstream =
    let client = new_client upstream in
    let handled = if m.handler then set_handler true client else client in
    if m.running then start_client handled else handled

-- The map of the active rows by name, where a later one replaces an earlier one.
unfoldable pub add_desired : List (List ℕ × Upstream) → Upstream → List (List ℕ × Upstream)
unfolding insert
add_desired desired upstream =
    if upstream.active then insert upstream.name upstream desired else desired

unfoldable pub desired_from : List (List ℕ × Upstream) → List Upstream → List (List ℕ × Upstream)
unfolding add_desired
desired_from desired [] = desired
desired_from desired (upstream ∷ upstreams) = desired_from (add_desired desired upstream) upstreams

-- A client may stay: its name is desired, with the same configuration.
unfoldable pub may_stay : Option Upstream → Client → Bool
unfolding same_runtime_config
may_stay none client = false
may_stay (some upstream) client = same_runtime_config client.config upstream

-- The first loop of `Refresh`: the clients that stay, and what closing each other one does.
unfoldable pub prune :
    List (List ℕ × Upstream)
    → List (List ℕ × Client)
    → List (List ℕ × Client) × List (List ℕ × List Effect)
unfolding lookup may_stay close_client
prune desired [] = ([], [])
prune desired ((name, client) ∷ clients) =
    let (kept, closed) = prune desired clients in
    if may_stay (lookup name desired) client
    then ((name, client) ∷ kept, closed)
    else (kept, (name, (close_client client).1) ∷ closed)

-- One round of the second loop, and the loop: a client for each desired name that has none.
unfoldable pub add_client :
    Manager → List ℕ → Upstream → List (List ℕ × Client) → List (List ℕ × Client)
unfolding lookup insert activated
add_client m name upstream clients = elim (lookup name clients) [
  | some client ↦ clients
  | none ↦ insert name (activated m upstream) clients
]

unfoldable pub add_missing :
    Manager → List (List ℕ × Upstream) → List (List ℕ × Client) → List (List ℕ × Client)
unfolding add_client
add_missing m [] clients = clients
add_missing m ((name, upstream) ∷ desired) clients =
    add_missing m desired (add_client m name upstream clients)

-- The method `Refresh`, with the rows of the snapshot.
unfoldable pub refresh : List Upstream → Manager → Manager × List (List ℕ × List Effect)
unfolding desired_from prune add_missing keys sort
refresh upstreams m =
    let desired = desired_from [] upstreams in
    let (kept, closed) = prune desired m.clients in
    (record m { clients = add_missing m desired kept; order = sort (keys desired) }, closed)

-- The method `Get`.
unfoldable pub get : List ℕ → Manager → Option Client
unfolding lookup
get name m = lookup name m.clients

-- The method `Default`: the client of the first name, which is nil if the map has none.
unfoldable pub default_of : List (List ℕ) → List (List ℕ × Client) → Result (Option Client)
unfolding lookup
default_of [] clients = err no_upstream
default_of (name ∷ names) clients = ok (lookup name clients)

unfoldable pub default : Manager → Result (Option Client)
unfolding default_of
default m = default_of m.order m.clients

-- The type `Status`, and the method `Statuses`.
pub record Status : Type 0 where
  pub name : List ℕ
  pub host : List ℕ
  pub port : ℤ
  pub state : SessionState
  pub system : List ℕ

unfoldable pub statuses_of : List (List ℕ) → List (List ℕ × Client) → List Status
unfolding lookup
statuses_of [] clients = []
statuses_of (name ∷ names) clients = elim (lookup name clients) [
  | none ↦ statuses_of names clients
  | some client ↦
      record {
        name = name;
        host = client.config.host;
        port = client.config.port;
        state = client.session.state;
        system = client.config.system_id;
      }
      ∷ statuses_of names clients
]

unfoldable pub statuses : Manager → List Status
unfolding statuses_of
statuses m = statuses_of m.order m.clients

unfoldable pub on_clients : (Client → Client) → List (List ℕ × Client) → List (List ℕ × Client)
on_clients f [] = []
on_clients f ((name, client) ∷ clients) = (name, f client) ∷ on_clients f clients

-- The method `SetDeliveryReceiptHandler`.
unfoldable pub set_receipt_handler : Bool → Manager → Manager
unfolding on_clients set_handler
set_receipt_handler handler m = record m {
  handler = handler;
  clients = on_clients (set_handler handler) m.clients;
}

-- The method `Start`.
unfoldable pub start : Manager → Manager
unfolding on_clients start_client
start m = record m { running = true; clients = on_clients start_client m.clients }

unfoldable pub closings_of : List (List ℕ × Client) → List (List ℕ × List Effect)
unfolding close_client
closings_of [] = []
closings_of ((name, client) ∷ clients) = (name, (close_client client).1) ∷ closings_of clients

-- The method `Close`.
unfoldable pub close_manager : Manager → Manager × List (List ℕ × List Effect)
unfolding closings_of
close_manager m = (record m { clients = []; order = [] }, closings_of m.clients)
