-- ===== src/Queue/Laws.antt =====
-- How one message of the queue is dispatched by internal/queue/dispatcher.go.
use vectorcore_mmsc.Base.{
  ℕ, List, [], ◌∷◌, some, Bool, Result, ok, err, Error, Result-cases, ◌≡◌, ◌⊎◌, inl, inr, refl,
}
use vectorcore_mmsc.Message.{Message, delivering}
use vectorcore_mmsc.Service.{Call, World, perform, submit_push, update_status}
use vectorcore_mmsc.Mmspdu.Codec.{encode}
use vectorcore_mmsc.Wappush.Push.{wrap_mms_pdu}
use vectorcore_mmsc.Queue.{notification, tracking_id, submit_all, notify}

module _ (w : World) (tracked : Bool) (msg : Message) (push : List ℕ) where
  abbrev pub to_recipient : List ℕ → Call
  to_recipient recipient = submit_push (tracking_id w tracked msg) msg.from recipient push

  -- The push was submitted to each of the recipients in turn, and each time accepted.
  abbrev pub AllPushed : List (List ℕ) → List Call → List Call → Type 0
  AllPushed [] log after = after ≡ log
  AllPushed (recipient ∷ recipients) log after =
      (w.outcome (to_recipient recipient) log ≡ ok tt)
      × AllPushed recipients (to_recipient recipient ∷ log) after

  -- The push was accepted for the first of the recipients, and refused with this error for the next.
  abbrev pub PushRefused : List (List ℕ) → Error → List Call → List Call → Type 0
  PushRefused [] e log after = ⊥
  PushRefused (recipient ∷ recipients) e log after =
      ((w.outcome (to_recipient recipient) log ≡ err e) × (after ≡ to_recipient recipient ∷ log))
      ⊎ ((w.outcome (to_recipient recipient) log ≡ ok tt)
          × PushRefused recipients e (to_recipient recipient ∷ log) after)

  abbrev pub Pushes : List (List ℕ) → List Call → Result (Unit {0}) × List Call → Type 0
  Pushes recipients log (ok u, after) = AllPushed recipients log after
  Pushes recipients log (err e, after) = PushRefused recipients e log after

  submit_all-cons :
      (recipient : List ℕ) (recipients : List (List ℕ)) (log : List Call)
      (out : Result (Unit {0}) × List Call)
      → w.outcome (to_recipient recipient) log ≡ ok tt
      → Pushes recipients (to_recipient recipient ∷ log) out
      → Pushes (recipient ∷ recipients) log out
  submit_all-cons recipient recipients log (ok u, after) accepted h = (accepted, h)
  submit_all-cons recipient recipients log (err e, after) accepted h = inr (accepted, h)

  pub submit_all-Pushes :
      (recipients : List (List ℕ)) (log : List Call)
      → Pushes recipients log (submit_all w tracked msg push recipients log)
  unfolding submit_all
  submit_all-Pushes [] log = refl
  submit_all-Pushes (recipient ∷ recipients) log =
      elim (Result-cases (w.outcome (to_recipient recipient) log)) [
        | inr (e, refused) ↦ rw (refused, submit_all) (inl (refused, refl))
        | inl (u, accepted) ↦
            rw (accepted, submit_all)
              (submit_all-cons recipient recipients log _ accepted
                (submit_all-Pushes recipients (to_recipient recipient ∷ log)))
      ]

module _ (w : World) (tracked : Bool) (now : ℕ) (base : List ℕ) (msg : Message) where
  -- How a call ends: it returns nil where the push was accepted for every recipient and then the
  -- message was marked as delivering. On an error nothing more was done: the notification could not
  -- be encoded, a recipient's push was refused, or the message could not be marked.
  abbrev pub Notified : List Call → Result (Unit {0}) × List Call → Type 0
  Notified log (ok u, after) =
      (encoded : List ℕ) × (mid : List Call) × (encode (some (notification now base msg))
        ≡ ok encoded)
      × AllPushed w tracked msg (wrap_mms_pdu encoded) msg.to log mid
      × (w.outcome (update_status msg.id delivering) mid ≡ ok tt)
      × (after ≡ update_status msg.id delivering ∷ mid)
  Notified log (err e, after) =
      ((encode (some (notification now base msg)) ≡ err e) × (after ≡ log))
      ⊎ (((encoded : List ℕ) × (encode (some (notification now base msg)) ≡ ok encoded)
            × PushRefused w tracked msg (wrap_mms_pdu encoded) msg.to e log after)
          ⊎ ((encoded : List ℕ) × (mid : List Call) × (encode (some (notification now base msg))
                ≡ ok encoded)
              × AllPushed w tracked msg (wrap_mms_pdu encoded) msg.to log mid
              × (w.outcome (update_status msg.id delivering) mid ≡ err e)
              × (after ≡ update_status msg.id delivering ∷ mid)))

  marked-Notified :
      (encoded : List ℕ) (log mid : List Call) (r : Result (Unit {0}))
      → encode (some (notification now base msg)) ≡ ok encoded
      → AllPushed w tracked msg (wrap_mms_pdu encoded) msg.to log mid
      → w.outcome (update_status msg.id delivering) mid ≡ r
      → Notified log (r, update_status msg.id delivering ∷ mid)
  marked-Notified encoded log mid (ok u) sent pushed marked =
      (encoded, mid, sent, pushed, marked, refl)
  marked-Notified encoded log mid (err e) sent pushed refused =
      inr (inr (encoded, mid, sent, pushed, refused, refl))

  -- The rest of the call after the pushes.
  abbrev then_mark : Result (Unit {0}) × List Call → Result (Unit {0}) × List Call
  then_mark out = elim out.0 [
    | ok u ↦ perform w (update_status msg.id delivering) out.1
    | err e ↦ (err e, out.1)
  ]

  then_mark-Notified :
      (encoded : List ℕ) (log : List Call) (out : Result (Unit {0}) × List Call)
      → encode (some (notification now base msg)) ≡ ok encoded
      → Pushes w tracked msg (wrap_mms_pdu encoded) msg.to log out
      → Notified log (then_mark out)
  then_mark-Notified encoded log (ok u, mid) sent pushed =
      marked-Notified encoded log mid _ sent pushed refl
  then_mark-Notified encoded log (err e, after) sent refused = inr (inl (encoded, sent, refused))

  -- How the notification of a message ends: it succeeds where the push was accepted for every
  -- recipient in turn and then the message was marked as delivering; and on an error nothing
  -- more was done, because the notification could not be encoded, a push was refused after the
  -- ones before it were accepted, or the message could not be marked after all of them.
  pub notify-Notified : (log : List Call) → Notified log (notify w tracked now base msg log)
  unfolding notify
  notify-Notified log = elim (Result-cases (encode (some (notification now base msg)))) [
    | inr (e, failed) ↦ rw (failed, notify) (inl (failed, refl))
    | inl (encoded, sent) ↦
        rw (sent, notify)
          (then_mark-Notified encoded log _ sent
            (submit_all-Pushes w tracked msg (wrap_mms_pdu encoded) msg.to log))
  ]
