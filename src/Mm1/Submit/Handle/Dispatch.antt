-- ===== src/Mm1/Submit/Handle/Dispatch.antt =====
-- `Handle` of internal/mm1/handler_mo.go from the answer on: an accepted message is sent on. What is
-- left to a goroutine is done at once.
use vectorcore_mmsc.Base.{
  ℕ, ◌/◌, ◌%◌, ◌+◌, List, [], ◌∷◌, ◌++◌, is_empty, some, Bool, true, ◌&&◌, ◌||◌, ◌==◌, not, ltb,
  leb, if◌then◌else◌, Result, ok, err, Error, ◌⊎◌, inl, inr,
}
use vectorcore_mmsc.Base.Text.{codes}
use vectorcore_mmsc.Message.{Message, Status, delivering, rejected, unreachable}
use vectorcore_mmsc.Mmspdu.Codec.{encode}
use vectorcore_mmsc.Routing.Engine.{Destination, unknown, local, mm4, mm3, reject}
use vectorcore_mmsc.Service.{
  Call, World, Action, ◌>>=◌, ◌>>◌, pure, lift, perform, perform_, update_status, append_event,
  send_mm4, send_mm3,
}
use vectorcore_mmsc.Queue.{notification, submit_all, join_comma}
use vectorcore_mmsc.Wappush.Push.{wrap_mms_pdu}
use vectorcore_mmsc.Mm1.{Response, served}
use vectorcore_mmsc.Mm1.Report.{send_origin_delivery_report}
use vectorcore_mmsc.Mm1.Submit.Handle.{Server, Request, Accepted, accept}

abbrev pub hex_digit : ℕ → ℕ
hex_digit n = if ltb n 10 then b'0' + n else 55 + n

abbrev pub is_unreserved : ℕ → Bool
is_unreserved c =
    (leb b'0' c && leb c b'9')
    || ((leb b'A' c && leb c b'Z')
        || ((leb b'a' c && leb c b'z') || (c == b'-' || (c == b'_' || (c == b'.' || c == b'~')))))

-- url.QueryEscape
unfoldable pub query_escape : List ℕ → List ℕ
query_escape [] = []
query_escape (c ∷ s) =
    (if is_unreserved c
      then c ∷ []
      else if c == b' '
      then b'+' ∷ []
      else b'%' ∷ hex_digit (c / 16) ∷ hex_digit (c % 16) ∷ [])
    ++ query_escape s

abbrev pub dispatch_event : Message → List ℕ → List ℕ → List ℕ → Call
dispatch_event msg kind summary detail = append_event (record {
  message_id = msg.id;
  source = codes "dispatch";
  kind = kind;
  summary = summary;
  detail = detail;
})

-- An error of a goroutine is noted with its text.
abbrev pub noted : (Error → Call) → Result (Unit {0}) × List Call → List Call
noted event (ok u, log) = log
noted event (err e, log) = event e ∷ log

-- An error of a relay makes the message unreachable.
abbrev pub relayed : Message → Result (Unit {0}) → List Call → List Call
relayed msg (ok u) log = log
relayed msg (err e) log = update_status msg.id unreachable ∷ log

module _ (server : Server) where
  abbrev w : World
  w = server.world

  -- The push of a notification to each recipient; the location shows the escaped id.
  unfoldable pub notify_recipients : ℕ → Message → Action (Unit {0})
  unfolding query_escape
  notify_recipients now msg = do
    encoded ←
        lift
          (encode (some (notification now server.base (record msg { id = query_escape msg.id }))))
    submit_all w server.tracked msg (wrap_mms_pdu encoded) msg.to
    perform w (update_status msg.id delivering)
    perform_ w (
        dispatch_event msg (codes "local-notification-submitted")
          (codes "Local notification submitted") (join_comma msg.to))

  -- The method `dispatchLocalNotification` for a local message.
  unfoldable pub dispatch_local_notification : ℕ → Message → Action (Unit {0})
  unfolding notify_recipients
  dispatch_local_notification now msg =
      if not server.has_push || is_empty msg.to then pure tt else notify_recipients now msg

  unfoldable pub dispatch_local_notification_async : ℕ → Message → List Call → List Call
  unfolding dispatch_local_notification
  dispatch_local_notification_async now msg log =
      noted
        (λ e.
          dispatch_event msg (codes "local-notification-deferred")
            (codes "Local notification dispatch deferred") (server.error_text e))
        (dispatch_local_notification now msg log)

  unfoldable pub dispatch_origin_delivery_report_async :
      ℕ → Message → Status → List Call → List Call
  unfolding send_origin_delivery_report
  dispatch_origin_delivery_report_async now msg status log =
      noted
        (λ e.
          dispatch_event msg (codes "origin-delivery-report-failed")
            (codes "Origin delivery report failed") (server.error_text e))
        (send_origin_delivery_report w true server.has_push now msg status
          (some server.report_policy) log)

  -- A relay that is there sends the message.
  abbrev pub relay : Bool → Call → Message → List Call → List Call
  relay present call msg log =
      if present then relayed msg (w.outcome call log) (call ∷ log) else log

  -- What follows the answer.
  unfoldable pub dispatch : ℕ → Message → Destination → List Call → List Call
  unfolding dispatch_local_notification_async dispatch_origin_delivery_report_async
  dispatch now msg reject log = dispatch_origin_delivery_report_async now msg rejected log
  dispatch now msg local log = dispatch_local_notification_async now msg log
  dispatch now msg mm4 log = relay server.has_mm4 (send_mm4 msg) msg log
  dispatch now msg mm3 log = relay server.has_mm3 (send_mm3 msg) msg log
  dispatch now msg unknown log = log

  abbrev pub dispatched : ℕ → (Response ⊎ Accepted) × List Call → Response × List Call
  dispatched now (inl response, log) = (response, log)
  dispatched now (inr accepted, log) =
      (served accepted.bytes, dispatch now accepted.msg accepted.destination log)

  -- The method `Handle`.
  unfoldable pub handle : Request → List Call → Response × List Call
  unfolding accept dispatch
  handle request log = dispatched request.now (accept server request log)
