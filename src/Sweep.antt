-- ===== src/Sweep.antt =====
-- internal/sweep/sweep.go: one sweep over the expired messages.
pub mod Laws
pub mod Complete
use vectorcore_mmsc.Base.{
  ℕ, List, [], ◌∷◌, is_empty, Bool, true, false, ◌&&◌, ◌||◌, if◌then◌else◌, Result, ok, err, Error,
}
use vectorcore_mmsc.Base.Text.{codes, bytes_eq}
use vectorcore_mmsc.Base.TextMap.{elem}
use vectorcore_mmsc.Message.{Message, Status, expired}
use vectorcore_mmsc.Service.{
  Event, Call, World, update_status, append_event, delete_message, delete_content,
  send_delivery_report,
}

-- The loop of `purge` over the keys, where `seen` are those that were deleted. Errors are logged.
unfoldable pub delete_keys : List (List ℕ) → List (List ℕ) → List Call → List Call
unfolding elem
delete_keys seen [] log = log
delete_keys seen (key ∷ keys) log =
    let skipped = delete_keys seen keys log in
    let deleted = delete_keys (key ∷ seen) keys (delete_content key ∷ log) in
    if is_empty key || elem key seen then skipped else deleted

-- The method `purge`.
unfoldable pub purge : List ℕ → List ℕ → List ℕ → List Call → List Call
unfolding delete_keys
purge id content_path store_id log =
    delete_message id ∷ delete_keys [] (content_path ∷ store_id ∷ []) log

module _ (error_text : Error → List ℕ) (w : World) (reporter : Bool) where
  -- The event of a report that failed.
  abbrev pub report_failed : List ℕ → Error → Call
  report_failed id e = append_event (record {
    message_id = id;
    source = codes "sweep";
    kind = codes "expiry-report-failed";
    summary = codes "Expiry delivery report failed";
    detail = error_text e;
  })

  -- The delivery report of a message, if there is a reporter and the message asks for one.
  unfoldable pub report_expiry : Message → List Call → List Call
  report_expiry msg log =
      if reporter && msg.delivery_report
      then elim (w.outcome (send_delivery_report msg expired) log) [
        | ok u ↦ send_delivery_report msg expired ∷ log
        | err e ↦ report_failed msg.id e ∷ send_delivery_report msg expired ∷ log
      ]
      else log

  -- One round of the loop of `sweep`: nothing more is done with a message that cannot be marked.
  unfoldable pub expire : Message → List Call → List Call
  unfolding report_expiry purge
  expire msg log = elim (w.outcome (update_status msg.id expired) log) [
    | err e ↦ update_status msg.id expired ∷ log
    | ok u ↦
        purge msg.id msg.content_path msg.store_id
          (report_expiry (record msg { status = expired }) (update_status msg.id expired ∷ log))
  ]

  unfoldable pub expire_all : List Message → List Call → List Call
  unfolding expire
  expire_all [] log = log
  expire_all (msg ∷ msgs) log = expire_all msgs (expire msg log)

  -- The method `sweep`, at the time `now`.
  unfoldable pub sweep : ℕ → List Call → List Call
  unfolding expire_all
  sweep now log = elim (w.expired_messages now log) [ err e ↦ log | ok msgs ↦ expire_all msgs log ]
