-- ===== src/Smpp/Session.antt =====
-- internal/smpp/session.go: the state of a session, and what each part that holds its lock does to
-- it. A channel is a number; what is done outside the lock is returned as a list of effects.
pub mod Steps
pub mod Channels
pub mod Connect
use vectorcore_mmsc.Base.{
  ℕ, suc, List, [], ◌∷◌, ◌++◌, Option, none, some, Bool, true, false, ◌==◌, ◌&&◌, not,
  if◌then◌else◌, Result, ok, err, Error, ◌>>=◌, bind_mismatch, bind_rejected, no_connection,
  connection_closed, session_closed, response_mismatch,
}
use vectorcore_mmsc.Base.ByteMap.{lookup, insert, remove}
use vectorcore_mmsc.Base.Text.{codes, bytes_eq}
use vectorcore_mmsc.Smpp.Pdu.{Pdu, with_header}
use vectorcore_mmsc.Smpp.Receipt.{DeliveryReceipt, parse_delivery_receipt}
use vectorcore_mmsc.Smpp.Upstream.{Config}

pub data SessionState : Type 0 where
  disconnected : SessionState
  connecting : SessionState
  bound : SessionState

-- The type `Session`: a connection, the channel of a waiting request and `done` are numbers, and
-- `channels` is how many channels were made. A handler is a mark that one is set.
pub record Session : Type 0 where
  pub conn : Option ℕ
  pub state : SessionState
  pub pending : List (ℕ × ℕ)
  pub done : Option ℕ
  pub deliver_sm_handler : Bool
  pub delivery_receipt_handler : Bool
  pub channels : ℕ

-- What is done after the lock is given up. `close_session` is the call of `Close` that follows the
-- answer to an unbind.
pub data Effect : Type 0 where
  hand : ℕ → Pdu → Effect
  close_channel : ℕ → Effect
  close_conn : ℕ → Effect
  write : ℕ → Pdu → Effect
  handle_deliver_sm : Pdu → Effect
  handle_receipt : DeliveryReceipt → Effect
  close_session : Effect

unfoldable pub new_session : Session
new_session = record {
  conn = none;
  state = disconnected;
  pending = [];
  done = none;
  deliver_sm_handler = false;
  delivery_receipt_handler = false;
  channels = 0;
}

unfoldable pub already_bound : SessionState → Option ℕ → Bool
already_bound bound (some c) = true
already_bound bound none = false
already_bound connecting c = false
already_bound disconnected c = false

-- The first part of `Connect`, with true where the session is bound and the call returns.
unfoldable pub start_connect : Session → Session × Bool
unfolding already_bound
start_connect s =
    if already_bound s.state s.conn then (s, true) else (record s { state = connecting }, false)

unfoldable pub set_state : SessionState → Session → Session
set_state state s = record s { state = state }

-- The last part of `Connect`, after a bind was accepted on a connection.
unfoldable pub set_bound : ℕ → Session → Session
set_bound conn s = record s {
  conn = some conn;
  state = bound;
  done = some s.channels;
  channels = suc s.channels;
}

-- The commands of a bind and of its answer.
unfoldable pub bind_commands : List ℕ → ℕ × ℕ
bind_commands mode =
    if bytes_eq mode (codes "receiver")
    then (0x00000001, 0x80000001)
    else if bytes_eq mode (codes "transmitter")
    then (0x00000002, 0x80000002)
    else (0x00000009, 0x80000009)

unfoldable pub bind_request : Config → ℕ → Pdu
unfolding bind_commands with_header
bind_request cfg seq = record (with_header 0 (bind_commands cfg.bind_mode).0 0 seq) {
  system_id = cfg.system_id;
  password = cfg.password;
  system_type = cfg.system_type;
  interface_version = 0x34;
}

-- What the network does for one `Connect`: a connection or an error of the dial, what writing the
-- bind returns, and what reading the answer returns.
pub record Network : Type 0 where
  pub dialled : Result ℕ
  pub written : Pdu → Result (Unit {0})
  pub answer : Result Pdu

unfoldable pub check_bind : Config → Pdu → Result (Unit {0})
unfolding bind_commands
check_bind cfg resp =
    if not (resp.command_id == (bind_commands cfg.bind_mode).1)
    then err bind_mismatch
    else if not (resp.command_status == 0)
    then err bind_rejected
    else ok tt

-- The method `bind`, on a new connection, whose first sequence number is 1.
unfoldable pub bind : Config → Network → Result (Unit {0})
unfolding bind_request check_bind
bind cfg net = do u ← net.written (bind_request cfg 1); resp ← net.answer; check_bind cfg resp

-- What `Connect` does once the connection is there.
unfoldable pub finish_connect :
    ℕ → Result (Unit {0}) → Session → Session × List Effect × Result (Unit {0})
unfolding set_bound set_state
finish_connect conn (ok u) s = (set_bound conn s, [], ok tt)
finish_connect conn (err e) s = (set_state disconnected s, close_conn conn ∷ [], err e)

unfoldable pub dial :
    Config → Network → Result ℕ → Session → Session × List Effect × Result (Unit {0})
unfolding bind finish_connect set_state
dial cfg net (ok conn) s = finish_connect conn (bind cfg net) s
dial cfg net (err e) s = (set_state disconnected s, [], err e)

-- The method `Connect`, where nothing else uses the session meanwhile.
unfoldable pub connect : Config → Network → Session → Session × List Effect × Result (Unit {0})
unfolding start_connect dial
connect cfg net s =
    let (started, already) = start_connect s in
    if already then (started, [], ok tt) else dial cfg net net.dialled started

abbrev pub close_done : Option ℕ → List Effect
close_done none = []
close_done (some ch) = close_channel ch ∷ []

unfoldable pub close_all : List (ℕ × ℕ) → List Effect
close_all [] = []
close_all ((seq, ch) ∷ pending) = close_channel ch ∷ close_all pending

abbrev pub close_open : Option ℕ → List Effect
close_open none = []
close_open (some conn) = close_conn conn ∷ []

-- The method `Close`.
unfoldable pub close : Session → Session × List Effect
unfolding close_all
close s = (
  record s { conn = none; done = none; state = disconnected; pending = [] },
  close_done s.done ++ (close_all s.pending ++ close_open s.conn),
)

-- The part of `Request` that enters the request: the new channel, and the connection to write to.
unfoldable pub register : ℕ → Session → Result (Session × ℕ)
unfolding insert
register seq s = elim s.conn [
  | none ↦ err no_connection
  | some conn ↦
      ok (record s { pending = insert seq s.channels s.pending; channels = suc s.channels }, conn)
]

unfoldable pub unregister_pending : ℕ → Session → Session
unfolding remove
unregister_pending seq s = record s { pending = remove seq s.pending }

-- How the wait of a request ends: by what its channel gives, by `done`, or by its context.
pub data Wait : Type 0 where
  received : Option Pdu → Wait
  session_ended : Wait
  context_ended : Error → Wait

unfoldable pub request_result : ℕ → Wait → Result Pdu
request_result expect (received none) = err connection_closed
request_result expect (received (some resp)) =
    if not (expect == 0) && not (resp.command_id == expect) then err response_mismatch else ok resp
request_result expect session_ended = err session_closed
request_result expect (context_ended e) = err e

-- The channel that waits for a sequence number gets the unit and is closed.
unfoldable pub answer_pending : Pdu → Session → Session × List Effect
unfolding lookup remove
answer_pending pdu s = elim (lookup pdu.sequence_number s.pending) [
  | none ↦ (s, [])
  | some ch ↦ (
    record s { pending = remove pdu.sequence_number s.pending },
    hand ch pdu ∷ close_channel ch ∷ [],
  )
]

module _ (parse_time : List ℕ → Result ℕ) where
  abbrev report : Bool → Pdu → List Effect
  report false pdu = []
  report true pdu = elim (parse_delivery_receipt parse_time pdu.short_message) [
    | ok found ↦ handle_receipt found ∷ []
    | err e ↦ []
  ]

  abbrev pass_on : Bool → Pdu → List Effect
  pass_on false pdu = []
  pass_on true pdu = handle_deliver_sm pdu ∷ []

  -- The method `handleIncoming`; false is `none`.
  unfoldable pub handle_incoming : ℕ → Pdu → Session → Option (List Effect)
  unfolding parse_delivery_receipt with_header
  handle_incoming conn pdu s =
      if pdu.command_id == 0x00000015
      then some (write conn (with_header 0 0x80000015 0 pdu.sequence_number) ∷ [])
      else if pdu.command_id == 0x00000005
      then some (
          report s.delivery_receipt_handler pdu
          ++ (pass_on s.deliver_sm_handler pdu
              ++ (write conn (with_header 0 0x80000005 0 pdu.sequence_number) ∷ [])))
      else if pdu.command_id == 0x00000006
      then some (write conn (with_header 0 0x80000006 0 pdu.sequence_number) ∷ close_session ∷ [])
      else none

  -- One round of `readLoop`.
  unfoldable pub read_round : ℕ → Result Pdu → Session → Session × List Effect
  unfolding close handle_incoming answer_pending
  read_round conn (err e) s = close s
  read_round conn (ok pdu) s = elim (handle_incoming conn pdu s) [
    | some effects ↦ (s, effects)
    | none ↦ answer_pending pdu s
  ]
