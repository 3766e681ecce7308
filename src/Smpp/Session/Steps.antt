-- ===== src/Smpp/Session/Steps.antt =====
-- The steps of a session of internal/smpp/session.go, one for each part that holds the lock, in any
-- order: the calls of several goroutines and of the read loop, interleaved.
use vectorcore_mmsc.Base.{
  ℕ, List, [], ◌++◌, none, Bool, Result, ok, err, ◌≡◌, inl, inr, ◌≢◌, arith, Option-cases,
}
use vectorcore_mmsc.Base.ByteMap.{lookup, remove}
use vectorcore_mmsc.Smpp.Pdu.{Pdu}
use vectorcore_mmsc.Smpp.Session.{
  disconnected, bound, Session, Effect, new_session, start_connect, set_state, set_bound, close,
  register, unregister_pending, handle_incoming, answer_pending, read_round,
}

-- `fails` is the return of `Connect` after a dial or a bind that failed, and `hears` is a round of
-- the read loop of any connection. The list is what the step does outside the lock.
pub data Step (parse_time : List ℕ → Result ℕ) : Session → Session → List Effect → Type 0 where
  starts : (s : Session) → Step parse_time s (start_connect s).0 []
  fails : (s : Session) → Step parse_time s (set_state disconnected s) []
  binds : (conn : ℕ) (s : Session) → Step parse_time s (set_bound conn s) []
  registers :
      (seq conn : ℕ) (s s' : Session) → register seq s ≡ ok (s', conn) → Step parse_time s s' []
  unregisters : (seq : ℕ) (s : Session) → Step parse_time s (unregister_pending seq s) []
  hears :
      (conn : ℕ) (read : Result Pdu) (s : Session)
      → Step parse_time s
          (read_round parse_time conn read s).0
          (read_round parse_time conn read s).1
  closes : (s : Session) → Step parse_time s (close s).0 (close s).1
  handles :
      (deliver receipts : Bool) (s : Session)
      → Step parse_time s
          (record s { deliver_sm_handler = deliver; delivery_receipt_handler = receipts })
          []

-- What is reached from a new session, with all that was done on the way.
pub data Reach (parse_time : List ℕ → Result ℕ) : Session → List Effect → Type 0 where
  new : Reach parse_time new_session []
  next :
      {s t : Session} {log did : List Effect}
      → Reach parse_time s log
      → Step parse_time s t did
      → Reach parse_time t (log ++ did)

-- A bound session has a connection; a session with a connection has a channel `done`, and one
-- without has none; and nothing waits in a session without a connection.
pub record IsValid (s : Session) : Type 0 where
  pub bound_conn : s.state ≡ bound → s.conn ≢ none
  pub conn_done : s.conn ≡ none → s.done ≡ none
  pub done_conn : s.done ≡ none → s.conn ≡ none
  pub pending_conn : s.conn ≡ none → s.pending ≡ []

new-IsValid : IsValid new_session
unfolding new_session
new-IsValid = ground arith

start_connect-IsValid : (s : Session) → IsValid s → IsValid (start_connect s).0
unfolding start_connect
start_connect-IsValid s v = ground arith

set_state-IsValid : (s : Session) → IsValid s → IsValid (set_state disconnected s)
unfolding set_state
set_state-IsValid s v = ground arith

set_bound-IsValid : (conn : ℕ) (s : Session) → IsValid s → IsValid (set_bound conn s)
unfolding set_bound
set_bound-IsValid conn s v = ground arith

register-IsValid :
    (seq conn : ℕ) (s s' : Session) → register seq s ≡ ok (s', conn) → IsValid s → IsValid s'
unfolding register
register-IsValid seq conn s s' e v = ground arith

unregister_pending-IsValid :
    (seq : ℕ) (s : Session) → IsValid s → IsValid (unregister_pending seq s)
unfolding unregister_pending remove
unregister_pending-IsValid seq s v = ground arith

close-IsValid : (s : Session) → IsValid (close s).0
unfolding close
close-IsValid s = ground arith

answer_pending-IsValid : (pdu : Pdu) (s : Session) → IsValid s → IsValid (answer_pending pdu s).0
unfolding answer_pending remove lookup
answer_pending-IsValid pdu s v = ground arith

read_round-IsValid :
    (parse_time : List ℕ → Result ℕ) (conn : ℕ) (read : Result Pdu) (s : Session)
    → IsValid s
    → IsValid (read_round parse_time conn read s).0
unfolding read_round
read_round-IsValid parse_time conn (err e) s v = close-IsValid s
read_round-IsValid parse_time conn (ok pdu) s v =
    elim (Option-cases (handle_incoming parse_time conn pdu s)) [
      | inl e ↦ rw (e, read_round) (answer_pending-IsValid pdu s v)
      | inr (effects, e) ↦ rw (e, read_round) v
    ]

-- Each step keeps the invariant.
pub Step-IsValid :
    (parse_time : List ℕ → Result ℕ) {s t : Session} {did : List Effect}
    → Step parse_time s t did
    → IsValid s
    → IsValid t
Step-IsValid parse_time (starts s) v = start_connect-IsValid s v
Step-IsValid parse_time (fails s) v = set_state-IsValid s v
Step-IsValid parse_time (binds conn s) v = set_bound-IsValid conn s v
Step-IsValid parse_time (registers seq conn s s' e) v = register-IsValid seq conn s s' e v
Step-IsValid parse_time (unregisters seq s) v = unregister_pending-IsValid seq s v
Step-IsValid parse_time (hears conn read s) v = read_round-IsValid parse_time conn read s v
Step-IsValid parse_time (closes s) v = close-IsValid s
Step-IsValid parse_time (handles deliver receipts s) v = ground arith

-- In every session that is reached by steps in any order: a bound session has a connection,
-- there is a channel for its end exactly if there is a connection, and no request is pending
-- without a connection.
pub Reach-IsValid :
    (parse_time : List ℕ → Result ℕ) {s : Session} {log : List Effect}
    → Reach parse_time s log
    → IsValid s
Reach-IsValid parse_time new = new-IsValid
Reach-IsValid parse_time (next r step) = Step-IsValid parse_time step (Reach-IsValid parse_time r)
