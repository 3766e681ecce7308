-- ===== src/Smpp/Session/Channels.antt =====
-- The channels that wait for the answers of internal/smpp/session.go: how often each is closed.
use vectorcore_mmsc.Base.{
  ℕ, ◌+◌, ◌≤◌, List, [], ◌∷◌, ◌++◌, Option, none, some, ◌==◌, if◌then◌else◌, Result, ok, err, leb,
  ltb, ◌&&◌, ◌≡◌, refl, inl, inr, arith, Option-cases,
}
use vectorcore_mmsc.Base.ByteMap.{lookup, insert, remove}
use vectorcore_mmsc.Smpp.Pdu.{Pdu}
use vectorcore_mmsc.Smpp.Session.{
  disconnected, Session, Effect, hand, close_channel, close_conn, write, handle_deliver_sm,
  handle_receipt, close_session, new_session, start_connect, set_state, set_bound, close_all,
  close_done, close_open, close, register, unregister_pending, handle_incoming, answer_pending,
  read_round,
}
use vectorcore_mmsc.Smpp.Session.Steps.{
  Step, starts, fails, binds, registers, unregisters, hears, closes, handles, Reach, new, next,
}

abbrev one_if : ℕ → ℕ → ℕ
one_if c ch = if ch == c then 1 else 0

-- How often a channel is closed, and how often a unit is sent on it.
unfoldable pub closings : ℕ → List Effect → ℕ
closings c [] = 0
closings c (close_channel ch ∷ log) = one_if c ch + closings c log
closings c (hand ch pdu ∷ log) = closings c log
closings c (close_conn conn ∷ log) = closings c log
closings c (write conn pdu ∷ log) = closings c log
closings c (handle_deliver_sm pdu ∷ log) = closings c log
closings c (handle_receipt found ∷ log) = closings c log
closings c (close_session ∷ log) = closings c log

unfoldable pub sendings : ℕ → List Effect → ℕ
sendings c [] = 0
sendings c (hand ch pdu ∷ log) = one_if c ch + sendings c log
sendings c (close_channel ch ∷ log) = sendings c log
sendings c (close_conn conn ∷ log) = sendings c log
sendings c (write conn pdu ∷ log) = sendings c log
sendings c (handle_deliver_sm pdu ∷ log) = sendings c log
sendings c (handle_receipt found ∷ log) = sendings c log
sendings c (close_session ∷ log) = sendings c log

closings-append : (c : ℕ) (a b : List Effect) → closings c (a ++ b) ≡ closings c a + closings c b
unfolding closings
closings-append c [] b = omega arith
closings-append c (close_channel ch ∷ a) b = omega (arith, closings-append c a b)
closings-append c (hand ch pdu ∷ a) b = closings-append c a b
closings-append c (close_conn conn ∷ a) b = closings-append c a b
closings-append c (write conn pdu ∷ a) b = closings-append c a b
closings-append c (handle_deliver_sm pdu ∷ a) b = closings-append c a b
closings-append c (handle_receipt found ∷ a) b = closings-append c a b
closings-append c (close_session ∷ a) b = closings-append c a b

sendings-append : (c : ℕ) (a b : List Effect) → sendings c (a ++ b) ≡ sendings c a + sendings c b
unfolding sendings
sendings-append c [] b = omega arith
sendings-append c (hand ch pdu ∷ a) b = omega (arith, sendings-append c a b)
sendings-append c (close_channel ch ∷ a) b = sendings-append c a b
sendings-append c (close_conn conn ∷ a) b = sendings-append c a b
sendings-append c (write conn pdu ∷ a) b = sendings-append c a b
sendings-append c (handle_deliver_sm pdu ∷ a) b = sendings-append c a b
sendings-append c (handle_receipt found ∷ a) b = sendings-append c a b
sendings-append c (close_session ∷ a) b = sendings-append c a b

-- How often a channel waits in the map, and in the session.
waiting : ℕ → List (ℕ × ℕ) → ℕ
waiting c [] = 0
waiting c ((seq, ch) ∷ pending) = one_if c ch + waiting c pending

abbrev as_done : ℕ → Option ℕ → ℕ
as_done c none = 0
as_done c (some ch) = one_if c ch

held : ℕ → Session → ℕ
unfolding waiting
held c s = waiting c s.pending + as_done c s.done

waiting-insert :
    (c seq ch : ℕ) (pending : List (ℕ × ℕ))
    → waiting c (insert seq ch pending) ≤ one_if c ch + waiting c pending
unfolding waiting insert
waiting-insert c seq ch [] = ground arith
waiting-insert c seq ch ((q, other) ∷ pending) = ground (arith, waiting-insert c seq ch pending)

waiting-remove :
    (c seq : ℕ) (pending : List (ℕ × ℕ)) → waiting c (remove seq pending) ≤ waiting c pending
unfolding waiting remove
waiting-remove c seq [] = omega arith
waiting-remove c seq ((q, other) ∷ pending) = ground (arith, waiting-remove c seq pending)

-- Taking a channel out of the map leaves it there once less.
waiting-take :
    (c seq ch : ℕ) (pending : List (ℕ × ℕ))
    → lookup seq pending ≡ some ch
    → waiting c (remove seq pending) + one_if c ch ≤ waiting c pending
unfolding waiting remove lookup
waiting-take c seq ch [] h = cc
waiting-take c seq ch ((q, other) ∷ pending) h =
    ground (arith, waiting-take c seq ch pending, waiting-remove c seq pending)

closings-close_all :
    (c : ℕ) (pending : List (ℕ × ℕ)) → closings c (close_all pending) ≡ waiting c pending
unfolding closings close_all waiting
closings-close_all c [] = refl
closings-close_all c ((seq, ch) ∷ pending) = omega (arith, closings-close_all c pending)

sendings-close_all : (c : ℕ) (pending : List (ℕ × ℕ)) → sendings c (close_all pending) ≡ 0
unfolding sendings close_all
sendings-close_all c [] = refl
sendings-close_all c ((seq, ch) ∷ pending) = sendings-close_all c pending

-- What a step may do to one channel: it makes it, if its number is the next one; it closes it no
-- more often than it was held; and it sends on it only where it closes it.
abbrev Keeps : ℕ → Session → Session → List Effect → Type 0
Keeps c s t did =
    (s.channels ≤ t.channels)
    × (sendings c did ≤ closings c did)
    × (closings c did + held c t
        ≤ held c s + (if leb s.channels c && ltb c t.channels then 1 else 0))

start_connect-Keeps : (c : ℕ) (s : Session) → Keeps c s (start_connect s).0 []
unfolding start_connect held sendings closings
start_connect-Keeps c s = ground arith

set_state-Keeps : (c : ℕ) (s : Session) → Keeps c s (set_state disconnected s) []
unfolding set_state held sendings closings
set_state-Keeps c s = ground arith

set_bound-Keeps : (c conn : ℕ) (s : Session) → Keeps c s (set_bound conn s) []
unfolding set_bound held sendings closings
set_bound-Keeps c conn s = ground arith

register-Keeps :
    (c seq conn : ℕ) (s s' : Session) → register seq s ≡ ok (s', conn) → Keeps c s s' []
unfolding register held sendings closings
register-Keeps c seq conn s s' e = ground (arith, waiting-insert c seq s.channels s.pending)

unregister_pending-Keeps : (c seq : ℕ) (s : Session) → Keeps c s (unregister_pending seq s) []
unfolding unregister_pending held sendings closings
unregister_pending-Keeps c seq s = ground (arith, waiting-remove c seq s.pending)

closings-close_done : (c : ℕ) (o : Option ℕ) → closings c (close_done o) ≡ as_done c o
unfolding closings
closings-close_done c none = refl
closings-close_done c (some ch) = omega arith

sendings-close_done : (c : ℕ) (o : Option ℕ) → sendings c (close_done o) ≡ 0
unfolding sendings
sendings-close_done c none = refl
sendings-close_done c (some ch) = refl

close_open_quiet :
    (c : ℕ) (o : Option ℕ) → (closings c (close_open o) ≡ 0) × (sendings c (close_open o) ≡ 0)
unfolding closings sendings
close_open_quiet c none = (refl, refl)
close_open_quiet c (some conn) = (refl, refl)

-- `Close` closes each channel as often as the session holds it, and sends nothing.
closings-close : (c : ℕ) (s : Session) → closings c (close s).1 ≡ held c s
unfolding close held
closings-close c s = omega (
  arith,
  closings-append c (close_done s.done) (close_all s.pending ++ close_open s.conn),
  closings-append c (close_all s.pending) (close_open s.conn),
  closings-close_done c s.done,
  closings-close_all c s.pending,
  close_open_quiet c s.conn,
)

sendings-close : (c : ℕ) (s : Session) → sendings c (close s).1 ≡ 0
unfolding close
sendings-close c s = omega (
  arith,
  sendings-append c (close_done s.done) (close_all s.pending ++ close_open s.conn),
  sendings-append c (close_all s.pending) (close_open s.conn),
  sendings-close_done c s.done,
  sendings-close_all c s.pending,
  close_open_quiet c s.conn,
)

held-close : (c : ℕ) (s : Session) → held c (close s).0 ≡ 0
unfolding close held waiting
held-close c s = refl

channels-close : (s : Session) → (close s).0.channels ≡ s.channels
unfolding close
channels-close s = refl

close-Keeps : (c : ℕ) (s : Session) → Keeps c s (close s).0 (close s).1
close-Keeps c s =
    ground (arith, closings-close c s, sendings-close c s, held-close c s, channels-close s)

answer_pending-Keeps :
    (c : ℕ) (pdu : Pdu) (s : Session) → Keeps c s (answer_pending pdu s).0 (answer_pending pdu s).1
unfolding held sendings closings answer_pending
answer_pending-Keeps c pdu s = elim (Option-cases (lookup pdu.sequence_number s.pending)) [
  | inl e ↦ rw (e, answer_pending) (ground arith)
  | inr (ch, e) ↦
      rw (e, answer_pending) (ground (arith, waiting-take c pdu.sequence_number ch s.pending e))
]

-- What `handleIncoming` does is about no channel.
handle_incoming_quiet :
    (parse_time : List ℕ → Result ℕ) (c conn : ℕ) (pdu : Pdu) (s : Session) (did : List Effect)
    → handle_incoming parse_time conn pdu s ≡ some did
    → (closings c did ≡ 0) × (sendings c did ≡ 0)
unfolding handle_incoming sendings closings
handle_incoming_quiet parse_time c conn pdu s did e = ground arith

read_round-Keeps :
    (parse_time : List ℕ → Result ℕ) (c conn : ℕ) (read : Result Pdu) (s : Session)
    → Keeps c s (read_round parse_time conn read s).0 (read_round parse_time conn read s).1
unfolding read_round
read_round-Keeps parse_time c conn (err e) s = close-Keeps c s
read_round-Keeps parse_time c conn (ok pdu) s =
    elim (Option-cases (handle_incoming parse_time conn pdu s)) [
      | inl e ↦ rw (e, read_round) (answer_pending-Keeps c pdu s)
      | inr (did, e) ↦
          rw (e, read_round) (ground (arith, handle_incoming_quiet parse_time c conn pdu s did e))
    ]

Step-Keeps :
    (parse_time : List ℕ → Result ℕ) (c : ℕ) {s t : Session} {did : List Effect}
    → Step parse_time s t did
    → Keeps c s t did
unfolding held sendings closings
Step-Keeps parse_time c (starts s) = start_connect-Keeps c s
Step-Keeps parse_time c (fails s) = set_state-Keeps c s
Step-Keeps parse_time c (binds conn s) = set_bound-Keeps c conn s
Step-Keeps parse_time c (registers seq conn s s' e) = register-Keeps c seq conn s s' e
Step-Keeps parse_time c (unregisters seq s) = unregister_pending-Keeps c seq s
Step-Keeps parse_time c (hears conn read s) = read_round-Keeps parse_time c conn read s
Step-Keeps parse_time c (closes s) = close-Keeps c s
Step-Keeps parse_time c (handles deliver receipts s) = ground arith

-- A channel that is held or was closed has been made, and is not held after it was closed.
abbrev Accounted : ℕ → Session → List Effect → Type 0
Accounted c s log =
    (sendings c log ≤ closings c log)
    × (closings c log + held c s ≤ 1)
    × (s.channels ≤ c → closings c log + held c s ≡ 0)

Accounted-next :
    (c : ℕ) (s t : Session) (log did : List Effect)
    → Accounted c s log
    → Keeps c s t did
    → Accounted c t (log ++ did)
Accounted-next c s t log did before k =
    ground (arith, closings-append c log did, sendings-append c log did)

Reach-Accounted :
    (parse_time : List ℕ → Result ℕ) (c : ℕ) {s : Session} {log : List Effect}
    → Reach parse_time s log
    → Accounted c s log
unfolding new_session held sendings closings waiting
Reach-Accounted parse_time c new = ground arith
Reach-Accounted parse_time c (next {s} {t} {log} {did} r step) =
    Accounted-next c s t log did (Reach-Accounted parse_time c r) (Step-Keeps parse_time c step)

-- In every session that is reached by steps in any order, no channel has been closed more than
-- once, nor has a unit been sent on it more often than it was closed.
pub closings-le-one :
    (parse_time : List ℕ → Result ℕ) (c : ℕ) {s : Session} {log : List Effect}
    → Reach parse_time s log
    → (closings c log ≤ 1) × (sendings c log ≤ closings c log)
closings-le-one parse_time c r = ground (arith, Reach-Accounted parse_time c r)

waiting_pos :
    (c seq : ℕ) (pending : List (ℕ × ℕ)) → lookup seq pending ≡ some c → 1 ≤ waiting c pending
unfolding waiting lookup
waiting_pos c seq [] h = cc
waiting_pos c seq ((q, other) ∷ pending) h = ground (arith, waiting_pos c seq pending)

-- The channel of a request that is pending in a reached session has not been closed before,
-- and closing the session closes it, once.
pub close_wakes :
    (parse_time : List ℕ → Result ℕ) (c seq : ℕ) (s : Session) (log : List Effect)
    → Reach parse_time s log
    → lookup seq s.pending ≡ some c
    → (closings c log ≡ 0) × (closings c (log ++ (close s).1) ≡ 1)
unfolding held
close_wakes parse_time c seq s log r h = ground (
  arith,
  Reach-Accounted parse_time c r,
  closings-append c log (close s).1,
  closings-close c s,
  waiting_pos c seq s.pending,
)
