-- ===== src/Smpp/Session/Connect.antt =====
-- How `Connect` of internal/smpp/session.go ends.
use vectorcore_mmsc.Base.{
  ℕ, List, [], ◌∷◌, Option, none, some, true, Result, ok, err, Result-cases, ok_before, Bool-cases,
  ◌≡◌, ◌≢◌, ◌⊎◌, inl, inr, refl, arith,
}
use vectorcore_mmsc.Smpp.Pdu.{Pdu}
use vectorcore_mmsc.Smpp.Upstream.{Config}
use vectorcore_mmsc.Smpp.Session.{
  SessionState, disconnected, connecting, bound, Session, Effect, close_conn, Network, set_state,
  set_bound, bind_commands, bind_request, check_bind, bind, already_bound, start_connect,
  finish_connect, dial, connect,
}

-- The peer has accepted the bind: it was written, and the answer is the one to the bind of the
-- configured mode, with the status zero.
abbrev pub Accepted : Config → Network → Type 0
Accepted cfg net =
    (resp : Pdu) × (net.written (bind_request cfg 1) ≡ ok tt)
    × (net.answer ≡ ok resp)
    × (resp.command_id ≡ (bind_commands cfg.bind_mode).1)
    × (resp.command_status ≡ 0)

check_bind_ok :
    (cfg : Config) (resp : Pdu)
    → check_bind cfg resp ≡ ok tt
    → (resp.command_id ≡ (bind_commands cfg.bind_mode).1) × (resp.command_status ≡ 0)
unfolding check_bind
check_bind_ok cfg resp h = ground arith

bind-Accepted :
    (cfg : Config) (net : Network) {u : Unit {0}} → bind cfg net ≡ ok u → Accepted cfg net
unfolding bind
bind-Accepted cfg net h =
    let (v, written, rest) = ok_before (net.written (bind_request cfg 1)) _ h in
    let (resp, answered, checked) = ok_before net.answer (check_bind cfg) rest in
    let (id, status) = check_bind_ok cfg resp checked in (resp, written, answered, id, status)

-- What a call that began in a session has left, by how it ended.
abbrev pub Ends : Config → Network → Session → Session × List Effect × Result (Unit {0}) → Type 0
Ends cfg net s (t, did, ok u) =
    (t.state ≡ bound)
    × (t.conn ≢ none)
    × (did ≡ [])
    × ((t ≡ s) ⊎ ((conn : ℕ) × (net.dialled ≡ ok conn) × (t.conn ≡ some conn) × Accepted cfg net))
Ends cfg net s (t, did, err e) =
    (t.state ≡ disconnected)
    × (t.conn ≡ s.conn)
    × (t.pending ≡ s.pending)
    × (((conn : ℕ) × (net.dialled ≡ ok conn) × (did ≡ close_conn conn ∷ []))
        ⊎ ((net.dialled ≡ err e) × (did ≡ [])))

finish_connect-Ends :
    (cfg : Config) (net : Network) (conn : ℕ) (s : Session)
    → net.dialled ≡ ok conn
    → Ends cfg net s (finish_connect conn (bind cfg net) (record s { state = connecting }))
unfolding finish_connect set_bound set_state
finish_connect-Ends cfg net conn s d = elim (Result-cases (bind cfg net)) [
  | inl (u, accepted) ↦
      rw accepted (refl, (λ p. cc), refl, inr (conn, d, refl, bind-Accepted cfg net accepted))
  | inr (e, refused) ↦ rw refused (refl, refl, refl, inl (conn, d, refl))
]

dial-Ends :
    (cfg : Config) (net : Network) (s : Session) (dialled : Result ℕ)
    → net.dialled ≡ dialled
    → Ends cfg net s (dial cfg net dialled (record s { state = connecting }))
unfolding dial set_state
dial-Ends cfg net s (ok conn) d = finish_connect-Ends cfg net conn s d
dial-Ends cfg net s (err e) d = (refl, refl, refl, inr (d, refl))

already_bound-eq :
    (state : SessionState) (conn : Option ℕ)
    → already_bound state conn ≡ true
    → (state ≡ bound) × (conn ≢ none)
unfolding already_bound
already_bound-eq state conn h = ground arith

-- A call of Connect that returns nil leaves a bound session with a connection: either as it
-- was before the call, or with the connection that was dialled, on which the bind of the
-- configured mode was written and accepted. One that returns an error leaves the session
-- disconnected, its connection and its pending requests as they were, and closes the
-- connection that was dialled, unless the dial is what failed, with that error.
pub connect-Ends : (cfg : Config) (net : Network) (s : Session) → Ends cfg net s (connect cfg net s)
unfolding connect start_connect
connect-Ends cfg net s = elim (Bool-cases (already_bound s.state s.conn)) [
  | inl already ↦
      let (b, c) = already_bound-eq s.state s.conn already in rw already (b, c, refl, inl refl)
  | inr fresh ↦ rw fresh (dial-Ends cfg net s net.dialled refl)
]
