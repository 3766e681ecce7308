-- ===== src/Mm1/Submit/Handle/Follows.antt =====
-- What `Handle` of internal/mm1/handler_mo.go does with a message once it has answered.
use vectorcore_mmsc.Base.{
  ℕ, List, ◌∷◌, is_empty, some, Bool, true, false, ◌||◌, not, Result, ok, err, Error, Result-cases,
  Bool-cases, ◌≡◌, ◌⊎◌, inl, inr, refl, arith,
}
use vectorcore_mmsc.Base.Text.{codes}
use vectorcore_mmsc.Message.{Message, delivering, rejected, unreachable}
use vectorcore_mmsc.Mmspdu.Codec.{encode}
use vectorcore_mmsc.Routing.Engine.{Destination, unknown, local, mm4, mm3, reject}
use vectorcore_mmsc.Service.{Call, update_status, send_mm4, send_mm3}
use vectorcore_mmsc.Queue.{notification, join_comma}
use vectorcore_mmsc.Queue.Laws.{AllPushed, PushRefused, Pushes, submit_all-Pushes}
use vectorcore_mmsc.Wappush.Push.{wrap_mms_pdu}
use vectorcore_mmsc.Mm1.Report.{resolved_policy}
use vectorcore_mmsc.Mm1.Report.Laws.{Sent, send_origin_delivery_report-Sent}
use vectorcore_mmsc.Mm1.Submit.Handle.{Server}
use vectorcore_mmsc.Mm1.Submit.Handle.Dispatch.{
  query_escape, dispatch_event, relay, noted, notify_recipients, dispatch_local_notification,
  dispatch_local_notification_async, dispatch_origin_delivery_report_async, dispatch,
}

module _ (server : Server) (now : ℕ) (msg : Message) (log : List Call) where
  -- The notification shows the escaped id in its location.
  abbrev pub announced : Result (List ℕ)
  announced = encode (some (notification now server.base (record msg { id = query_escape msg.id })))

  abbrev pub mark : Call
  mark = update_status msg.id delivering

  abbrev pub AllPushedTo : List ℕ → List Call → Type 0
  AllPushedTo encoded = AllPushed server.world server.tracked msg (wrap_mms_pdu encoded) msg.to log

  abbrev pub submitted_event : Call
  submitted_event =
      dispatch_event msg (codes "local-notification-submitted")
        (codes "Local notification submitted") (join_comma msg.to)

  abbrev pub deferred_event : Error → Call
  deferred_event e =
      dispatch_event msg (codes "local-notification-deferred")
        (codes "Local notification dispatch deferred") (server.error_text e)

  abbrev pub unreported_event : Error → Call
  unreported_event e =
      dispatch_event msg (codes "origin-delivery-report-failed")
        (codes "Origin delivery report failed") (server.error_text e)

  -- Every recipient was sent the push, then the message was marked, and this was noted.
  abbrev pub Informed : List Call → Type 0
  Informed after =
      (encoded : List ℕ) × (mid : List Call) × (announced ≡ ok encoded)
      × AllPushedTo encoded mid
      × (server.world.outcome mark mid ≡ ok tt)
      × (after ≡ submitted_event ∷ mark ∷ mid)

  -- An error came before that: of the encoding, of a push, or of the mark.
  abbrev pub NotInformed : Error → List Call → Type 0
  NotInformed e before =
      ((announced ≡ err e) × (before ≡ log))
      ⊎ (((encoded : List ℕ) × (announced ≡ ok encoded)
            × PushRefused server.world server.tracked msg (wrap_mms_pdu encoded) msg.to e log
                before)
          ⊎ ((encoded : List ℕ) × (mid : List Call) × (announced ≡ ok encoded)
              × AllPushedTo encoded mid
              × (server.world.outcome mark mid ≡ err e)
              × (before ≡ mark ∷ mid)))

  abbrev Ends : Result (Unit {0}) × List Call → Type 0
  Ends (ok u, after) = Informed after
  Ends (err e, before) = NotInformed e before

  abbrev mark_out : List Call → Result (Unit {0}) → Result (Unit {0}) × List Call
  mark_out mid r = elim r [
    | ok u ↦ (ok tt, submitted_event ∷ mark ∷ mid)
    | err e ↦ (err e, mark ∷ mid)
  ]

  mark_out-Ends :
      (encoded : List ℕ) (mid : List Call) (r : Result (Unit {0}))
      → announced ≡ ok encoded
      → AllPushedTo encoded mid
      → server.world.outcome mark mid ≡ r
      → Ends (mark_out mid r)
  mark_out-Ends encoded mid (ok u) sent pushed marked = (encoded, mid, sent, pushed, marked, refl)
  mark_out-Ends encoded mid (err e) sent pushed refused =
      inr (inr (encoded, mid, sent, pushed, refused, refl))

  abbrev then_mark : Result (Unit {0}) × List Call → Result (Unit {0}) × List Call
  then_mark out = elim out.0 [
    | ok u ↦ mark_out out.1 (server.world.outcome mark out.1)
    | err e ↦ (err e, out.1)
  ]

  then_mark-Ends :
      (encoded : List ℕ) (out : Result (Unit {0}) × List Call)
      → announced ≡ ok encoded
      → Pushes server.world server.tracked msg (wrap_mms_pdu encoded) msg.to log out
      → Ends (then_mark out)
  then_mark-Ends encoded (ok u, mid) sent pushed = mark_out-Ends encoded mid _ sent pushed refl
  then_mark-Ends encoded (err e, after) sent refused = inr (inl (encoded, sent, refused))

  notify_recipients-Ends : Ends (notify_recipients server now msg log)
  unfolding notify_recipients
  notify_recipients-Ends = elim (Result-cases announced) [
    | inr (e, failed) ↦ rw (failed, notify_recipients) (inl (failed, refl))
    | inl (encoded, sent) ↦
        rw (sent, notify_recipients)
          (then_mark-Ends encoded _ sent
            (submit_all-Pushes server.world server.tracked msg (wrap_mms_pdu encoded) msg.to log))
  ]

  -- A local message: nothing without a push sender or recipients, and else its recipients are told, or
  -- the error is noted.
  abbrev pub Announced : List Call → Type 0
  Announced after =
      (((server.has_push ≡ false) ⊎ (is_empty msg.to ≡ true)) × (after ≡ log))
      ⊎ ((server.has_push ≡ true)
          × (is_empty msg.to ≡ false)
          × (Informed after
              ⊎ ((e : Error) × (before : List Call) × NotInformed e before
                  × (after ≡ deferred_event e ∷ before))))

  Ends-noted :
      (out : Result (Unit {0}) × List Call)
      → Ends out
      → Informed (noted deferred_event out)
        ⊎ ((e : Error) × (before : List Call) × NotInformed e before
            × (noted deferred_event out ≡ deferred_event e ∷ before))
  Ends-noted (ok u, after) told = inl told
  Ends-noted (err e, before) failed = inr (e, before, failed, refl)

  -- A relay: nothing where it is absent, and a message that it refuses is unreachable.
  abbrev pub Relayed : Bool → Call → List Call → Type 0
  Relayed present call after =
      ((present ≡ false) × (after ≡ log))
      ⊎ (((present ≡ true) × (server.world.outcome call log ≡ ok tt) × (after ≡ call ∷ log))
          ⊎ ((e : Error) × (present ≡ true)
              × (server.world.outcome call log ≡ err e)
              × (after ≡ update_status msg.id unreachable ∷ call ∷ log)))

  relay-Relayed :
      (present : Bool) (call : Call) → Relayed present call (relay server present call msg log)
  relay-Relayed false call = inl (refl, refl)
  relay-Relayed true call = elim (Result-cases (server.world.outcome call log)) [
    | inl (u, accepted) ↦ inr (inl (refl, accepted, rw accepted refl))
    | inr (e, refused) ↦ inr (inr (e, refl, refused, rw refused refl))
  ]

  -- A rejected message: its sender is told by the policy, and an error of that is noted.
  abbrev pub Noted : Result (Unit {0}) × List Call → List Call → Type 0
  Noted (ok u, before) after = after ≡ before
  Noted (err e, before) after = after ≡ unreported_event e ∷ before

  noted-Noted : (out : Result (Unit {0}) × List Call) → Noted out (noted unreported_event out)
  noted-Noted (ok u, before) = refl
  noted-Noted (err e, before) = refl

  -- What follows the answer, by the destination.
  abbrev pub Follows : Destination → List Call → Type 0
  Follows reject after =
      (out : Result (Unit {0}) × List Call) × Sent server.world true server.has_push now msg
        rejected (resolved_policy (some server.report_policy)) log out
      × Noted out after
  Follows local after = Announced after
  Follows mm4 after = Relayed server.has_mm4 (send_mm4 msg) after
  Follows mm3 after = Relayed server.has_mm3 (send_mm3 msg) after
  Follows unknown after = after ≡ log

  pub dispatch-Follows :
      (destination : Destination) → Follows destination (dispatch server now msg destination log)
  unfolding dispatch dispatch_origin_delivery_report_async dispatch_local_notification_async
      dispatch_local_notification
  dispatch-Follows reject = (
    _,
    send_origin_delivery_report-Sent server.world true server.has_push now msg rejected
        (some server.report_policy) log,
    noted-Noted _,
  )
  dispatch-Follows local = elim (Bool-cases (not server.has_push || is_empty msg.to)) [
    | inl away ↦ inl (ground arith, rw (away, dispatch) refl)
    | inr here ↦
        inr (ground arith, ground arith, rw (here, dispatch) (Ends-noted _ notify_recipients-Ends))
  ]
  dispatch-Follows mm4 = relay-Relayed server.has_mm4 (send_mm4 msg)
  dispatch-Follows mm3 = relay-Relayed server.has_mm3 (send_mm3 msg)
  dispatch-Follows unknown = refl
