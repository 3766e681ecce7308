-- ===== src/Mm1/Retrieve/Answers.antt =====
-- The answers of the handlers of internal/mm1/handler_mt.go that change the status of a message.
use vectorcore_mmsc.Base.{
  ℕ, List, ◌∷◌, Bool, true, false, Result, ok, err, Error, Result-cases, Bool-cases, ◌≡◌, ◌⊎◌, inl,
  inr, refl, some, subst, sym,
}
use vectorcore_mmsc.Base.Text.{codes}
use vectorcore_mmsc.Message.{Message, Status, delivered}
use vectorcore_mmsc.Mmspdu.Codec.{Pdu}
use vectorcore_mmsc.Mmspdu.Messages.{DeliveryInd, parse_delivery_ind}
use vectorcore_mmsc.Service.{Call, World, update_status, send_delivery_report, send_read_reply}
use vectorcore_mmsc.Mm1.{
  Response, failure, no_content, ◌>>=◌, ◌>>◌, answer, ask, ask-ok, ask-err, attempt-ok, attempt-err,
}
use vectorcore_mmsc.Mm1.Retrieve.{
  not_found, not_updated, notified_status, report, apply_status, handle_notify_resp,
  handle_acknowledge, handle_delivery_report, handle_read_report,
}

module _ (w : World) (reporter : Bool) where
  -- The message was marked, and what followed: 204 without a reporter or after its report, and 502
  -- where it failed.
  abbrev pub Marked : Call → List ℕ → List Call → (Response ⊎ Response) × List Call → Type 0
  Marked call text log out =
      ((reporter ≡ false) × (out ≡ (inl no_content, log)))
      ⊎ (((reporter ≡ true) × (w.outcome call log ≡ ok tt) × (out ≡ (inl no_content, call ∷ log)))
          ⊎ ((e : Error) × (reporter ≡ true)
              × (w.outcome call log ≡ err e)
              × (out ≡ (inl (failure 502 text), call ∷ log))))

  -- Everything that was done with a message: 500 where it could not be marked, and no report.
  abbrev pub Applied :
      Message → Status → Call → List ℕ → List Call → (Response ⊎ Response) × List Call → Type 0
  Applied msg status call text log out =
      ((w.outcome (update_status msg.id status) log ≡ ok tt)
        × Marked call text (update_status msg.id status ∷ log) out)
      ⊎ ((e : Error) × (w.outcome (update_status msg.id status) log ≡ err e)
          × (out ≡ (inl not_updated, update_status msg.id status ∷ log)))

  report-Marked :
      (call : Call) (text : List ℕ) (log : List Call)
      → Marked call text log ((report w reporter call (failure 502 text) >> answer no_content) log)
  report-Marked call text log = elim (Bool-cases reporter) [
    | inr silent ↦ inl (silent, rw silent refl)
    | inl told ↦ elim (Result-cases (w.outcome call log)) [
      | inl (u, accepted) ↦ inr (
          inl (
            told,
            accepted,
            rw told (attempt-ok w call (failure 502 text) (answer no_content) log accepted),
          ))
      | inr (e, refused) ↦ inr (
          inr (
            e,
            told,
            refused,
            rw told (attempt-err w call (failure 502 text) (answer no_content) log e refused),
          ))
    ]
  ]

  pub apply_status-Applied :
      (msg : Message) (status : Status) (call : Call) (text : List ℕ) (log : List Call)
      → Applied msg status call text log (apply_status w reporter msg status call text log)
  unfolding apply_status
  apply_status-Applied msg status call text log =
      elim (Result-cases (w.outcome (update_status msg.id status) log)) [
        | inl (u, accepted) ↦ inl (
          accepted,
          subst (Marked call text (update_status msg.id status ∷ log))
              (sym (
                attempt-ok w (update_status msg.id status) not_updated
                  (report w reporter call (failure 502 text) >> answer no_content) log accepted))
              (report-Marked call text (update_status msg.id status ∷ log)),
        )
        | inr (e, refused) ↦ inr (
          e,
          refused,
          attempt-err w (update_status msg.id status) not_updated
              (report w reporter call (failure 502 text) >> answer no_content) log e refused,
        )
      ]

  -- A message is looked for, 404 where there is none, and what was done with it.
  abbrev pub Answered :
      (List Call → Result Message)
      → Status
      → (Message → Call)
      → List ℕ
      → List Call
      → (Response ⊎ Response) × List Call
      → Type 0
  Answered query status call text log out =
      ((e : Error) × (query log ≡ err e) × (out ≡ (inl (not_found e), log)))
      ⊎ ((msg : Message) × (query log ≡ ok msg) × Applied msg status (call msg) text log out)

  ask-Answered :
      (query : List Call → Result Message) (status : Status) (call : Message → Call) (text : List ℕ)
      (log : List Call)
      → Answered query status call text log
          ((ask query not_found >>= λ msg. apply_status w reporter msg status (call msg) text) log)
  ask-Answered query status call text log = elim (Result-cases (query log)) [
    | inr (e, refused) ↦ inl (
      e,
      refused,
      ask-err query not_found (λ m. apply_status w reporter m status (call m) text) log e refused,
    )
    | inl (msg, found) ↦ inr (
      msg,
      found,
      subst (Applied msg status (call msg) text log)
          (sym (
            ask-ok query not_found (λ m. apply_status w reporter m status (call m) text) log msg
              found))
          (apply_status-Applied msg status (call msg) text log),
    )
  ]

  abbrev pub reported_text : List ℕ
  reported_text = codes "failed to report message status"

  abbrev pub by_transaction : Pdu → List Call → Result Message
  by_transaction pdu = w.message_by_transaction pdu.transaction_id

  abbrev pub DeliveryAnswered : Pdu → List Call → (Response ⊎ Response) × List Call → Type 0
  DeliveryAnswered pdu log out =
      ((e : Error) × (parse_delivery_ind (some pdu) ≡ err e)
        × (out ≡ (inl (failure 400 (codes "invalid delivery indication")), log)))
      ⊎ ((delivery : DeliveryInd) × (parse_delivery_ind (some pdu) ≡ ok delivery)
          × Answered (w.message delivery.message_id) delivered
              (λ msg. send_delivery_report msg delivered) reported_text log out)

  handle_delivery_report-Answered :
      (pdu : Pdu) (log : List Call)
      → DeliveryAnswered pdu log (handle_delivery_report w reporter pdu log)
  unfolding handle_delivery_report
  handle_delivery_report-Answered pdu log = elim (Result-cases (parse_delivery_ind (some pdu))) [
    | inr (e, refused) ↦ inl (e, refused, rw (refused, handle_delivery_report) refl)
    | inl (delivery, parsed) ↦ inr (
      delivery,
      parsed,
      subst
          (Answered (w.message delivery.message_id) delivered
            (λ msg. send_delivery_report msg delivered) reported_text log)
          (sym (rw (parsed, handle_delivery_report) refl))
          (ask-Answered (w.message delivery.message_id) delivered
            (λ msg. send_delivery_report msg delivered) reported_text log),
    )
  ]

  -- What each of the handlers of notification responses, acknowledgements, delivery reports
  -- and read reports answers and calls: 404 and no call where the message is not found; 500
  -- and only the refused mark where it cannot be marked; 204 where it was marked and the
  -- report, if there is a reporter, was accepted; and 502 where the report failed. A delivery
  -- report that cannot be parsed gets 400.
  pub handlers-Answered :
      (pdu : Pdu) (log : List Call)
      → Answered
          (by_transaction pdu)
          (notified_status pdu)
          (λ msg. send_delivery_report msg (notified_status pdu))
          reported_text
          log
          (handle_notify_resp w reporter pdu log)
        × Answered
            (by_transaction pdu)
            delivered
            (λ msg. send_delivery_report msg delivered)
            reported_text
            log
            (handle_acknowledge w reporter pdu log)
        × DeliveryAnswered pdu log (handle_delivery_report w reporter pdu log)
        × Answered
            (by_transaction pdu)
            delivered
            send_read_reply
            (codes "failed to report read reply")
            log
            (handle_read_report w reporter pdu log)
  unfolding handle_notify_resp handle_acknowledge handle_read_report
  handlers-Answered pdu log = (
    ask-Answered (by_transaction pdu) (notified_status pdu)
        (λ msg. send_delivery_report msg (notified_status pdu)) reported_text log,
    ask-Answered (by_transaction pdu) delivered (λ msg. send_delivery_report msg delivered)
        reported_text log,
    handle_delivery_report-Answered pdu log,
    ask-Answered (by_transaction pdu) delivered send_read_reply
        (codes "failed to report read reply") log,
  )
