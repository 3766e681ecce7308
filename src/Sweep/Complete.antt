-- ===== src/Sweep/Complete.antt =====
-- That a sweep of internal/sweep/sweep.go handles every message that it is given.
use vectorcore_mmsc.Base.{
  ℕ, List, [], ◌∷◌, is_empty, All, Bool, ◌&&◌, ◌||◌, ok, err, Error, ◌≡◌, refl, ◌⊎◌, inl, inr,
  Bool-cases, Result-cases,
}
use vectorcore_mmsc.Base.TextMap.{elem}
use vectorcore_mmsc.Message.{Message, expired}
use vectorcore_mmsc.Service.{
  Call, World, update_status, delete_message, delete_content, send_delivery_report,
}
use vectorcore_mmsc.Sweep.{
  delete_keys, purge, report_failed, report_expiry, expire, expire_all, sweep,
}

-- A call is in the log.
abbrev pub Made : Call → List Call → Type 0
Made c [] = ⊥
Made c (d ∷ log) = (d ≡ c) ⊎ Made c log

module _ (error_text : Error → List ℕ) (w : World) (reporter : Bool) where
  -- Marking the message failed when it was called.
  abbrev pub Unmarked : List ℕ → List Call → Type 0
  Unmarked id [] = ⊥
  Unmarked id (c ∷ log) =
      ((c ≡ update_status id expired) × ((e : Error) × (w.outcome c log ≡ err e))) ⊎ Unmarked id log

  abbrev pub Handled : List Call → Message → Type 0
  Handled log msg = Made (delete_message msg.id) log ⊎ Unmarked msg.id log

  -- What was handled stays so as calls are added.
  Handled-cons :
      (c : Call) (log : List Call) (msg : Message) → Handled log msg → Handled (c ∷ log) msg
  Handled-cons c log msg (inl made) = inl (inr made)
  Handled-cons c log msg (inr failed) = inr (inr failed)

  delete_keys-Handled :
      (seen keys : List (List ℕ)) (log : List Call) (msg : Message)
      → Handled log msg
      → Handled (delete_keys seen keys log) msg
  unfolding delete_keys
  delete_keys-Handled seen [] log msg h = h
  delete_keys-Handled seen (key ∷ keys) log msg h =
      elim (Bool-cases (is_empty key || elem key seen)) [
        | inl skipped ↦ rw skipped (delete_keys-Handled seen keys log msg h)
        | inr fresh ↦ rw fresh (
            delete_keys-Handled (key ∷ seen) keys (delete_content key ∷ log) msg
              (Handled-cons (delete_content key) log msg h))
      ]

  report_expiry-Handled :
      (other msg : Message) (log : List Call)
      → Handled log msg
      → Handled (report_expiry error_text w reporter other log) msg
  unfolding report_expiry
  report_expiry-Handled other msg log h = elim (Bool-cases (reporter && other.delivery_report)) [
    | inr silent ↦ rw silent h
    | inl asked ↦ elim (Result-cases (w.outcome (send_delivery_report other expired) log)) [
      | inl (u, sent) ↦ rw asked (rw (sent, report_expiry) (Handled-cons _ log msg h))
      | inr (e, failed) ↦ rw asked (
          rw (failed, report_expiry)
            (Handled-cons (report_failed error_text w reporter other.id e) _ msg
              (Handled-cons (send_delivery_report other expired) log msg h)))
    ]
  ]

  expire-Handled :
      (other msg : Message) (log : List Call)
      → Handled log msg
      → Handled (expire error_text w reporter other log) msg
  unfolding expire purge
  expire-Handled other msg log h =
      elim (Result-cases (w.outcome (update_status other.id expired) log)) [
        | inr (e, failed) ↦
            rw (failed, expire) (Handled-cons (update_status other.id expired) log msg h)
        | inl (u, marked) ↦
            rw (marked, expire)
              (Handled-cons (delete_message other.id) _ msg (
                delete_keys-Handled [] (other.content_path ∷ other.store_id ∷ []) _ msg (
                  report_expiry-Handled (record other { status = expired }) msg
                    (update_status other.id expired ∷ log)
                    (Handled-cons (update_status other.id expired) log msg h))))
      ]

  expire_self :
      (msg : Message) (log : List Call) → Handled (expire error_text w reporter msg log) msg
  unfolding expire purge
  expire_self msg log = elim (Result-cases (w.outcome (update_status msg.id expired) log)) [
    | inr (e, failed) ↦ rw (failed, expire) (inr (inl (refl, (e, failed))))
    | inl (u, marked) ↦ rw (marked, expire) (inl (inl refl))
  ]

  expire_all-Handled :
      (msgs : List Message) (msg : Message) (log : List Call)
      → Handled log msg
      → Handled (expire_all error_text w reporter msgs log) msg
  unfolding expire_all
  expire_all-Handled [] msg log h = h
  expire_all-Handled (other ∷ msgs) msg log h =
      expire_all-Handled msgs msg (expire error_text w reporter other log)
        (expire-Handled other msg log h)

  expire_all_each :
      (msgs : List Message) (log : List Call)
      → All (Handled (expire_all error_text w reporter msgs log)) msgs
  unfolding expire_all
  expire_all_each [] log = tt
  expire_all_each (msg ∷ msgs) log = (
    expire_all-Handled msgs msg (expire error_text w reporter msg log) (expire_self msg log),
    expire_all_each msgs (expire error_text w reporter msg log),
  )

  -- After a sweep for which the repository lists messages as expired, each of them has had its
  -- deletion called, or the call to mark it as expired has failed.
  pub sweep-Handled :
      (now : ℕ) (msgs : List Message) (log : List Call)
      → w.expired_messages now log ≡ ok msgs
      → All (Handled (sweep error_text w reporter now log)) msgs
  unfolding sweep
  sweep-Handled now msgs log listed = rw (listed, sweep) (expire_all_each msgs log)
