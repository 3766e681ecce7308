-- ===== src/Mm1/Report/Laws.antt =====
-- When a sender is told of a delivery by internal/mm1/origin_report.go, and what is done then.
use vectorcore_mmsc.Base.{
  ℕ, List, ◌∷◌, is_empty, Option, some, Bool, true, false, ◌&&◌, ◌||◌, not, if◌then◌else◌, Result,
  ok, err, Result-cases, Bool-cases, ◌≡◌, ◌⊎◌, inl, inr, refl, sym, subst, arith,
}
use vectorcore_mmsc.Base.Text.{codes, bytes_eq}
use vectorcore_mmsc.Message.{
  Message, Status, queued, delivering, delivered, forwarded, rejected, expired, unreachable,
}
use vectorcore_mmsc.Mmspdu.Codec.{encode}
use vectorcore_mmsc.Mmspdu.Messages.{new_delivery_ind}
use vectorcore_mmsc.Service.{Call, World}
use vectorcore_mmsc.Mm1.Report.{
  is_failure_status, should_send_origin_delivery_report, delivery_status_token, is_mm1,
  resolved_policy, submitted_event, skipped_event, append_origin_report_skipped, note_submitted,
  report_push, push_report, send_origin_delivery_report,
}

abbrev pub IsFailure : Status → Type 0
IsFailure status = (status ≡ rejected) ⊎ ((status ≡ expired) ⊎ (status ≡ unreachable))

failed_status : (status : Status) → is_failure_status status ≡ true → IsFailure status
unfolding is_failure_status
failed_status rejected h = inl refl
failed_status expired h = inr (inl refl)
failed_status unreachable h = inr (inr refl)
failed_status queued h = absurd (cc)
failed_status delivering h = absurd (cc)
failed_status delivered h = absurd (cc)
failed_status forwarded h = absurd (cc)

status_failed : (status : Status) → IsFailure status → is_failure_status status ≡ true
unfolding is_failure_status
status_failed status (inl e) = rw (e, is_failure_status) refl
status_failed status (inr (inl e)) = rw (e, is_failure_status) refl
status_failed status (inr (inr e)) = rw (e, is_failure_status) refl

-- The policy lets a report be sent: it is not disabled, and the sender asked for it or the policy is
-- to tell of every failure and this is one.
abbrev pub IsWanted : Message → Status → List ℕ → Type 0
IsWanted msg status policy =
    (bytes_eq policy (codes "disabled") ≡ false)
    × ((msg.delivery_report ≡ true)
        ⊎ ((bytes_eq policy (codes "always_on_failure") ≡ true) × IsFailure status))

lets-some :
    (d a r f : Bool)
    → (if d then false else if a then r || f else r) ≡ true
    → (d ≡ false) × ((r ≡ true) ⊎ ((a ≡ true) × (f ≡ true)))
lets-some true a r f h = absurd (cc)
lets-some false a true f h = (refl, inl refl)
lets-some false true false f h = (refl, inr (refl, h))
lets-some false false false f h = absurd (cc)

lets-none :
    (d a r f : Bool)
    → (if d then false else if a then r || f else r) ≡ false
    → d ≡ false
    → (r ≡ true) ⊎ ((a ≡ true) × (f ≡ true))
    → ⊥
lets-none true a r f h off k = cc
lets-none false a r f h off (inl asked) = ground arith
lets-none false a r f h off (inr (always, failed)) = ground arith

reachable_sender :
    (local_ push nobody : Bool)
    → not local_ || (not push || nobody) ≡ false
    → (local_ ≡ true) × (push ≡ true) × (nobody ≡ false)
reachable_sender local_ push nobody h = (ground arith, ground arith, ground arith)

unreachable_sender :
    (local_ push nobody : Bool)
    → not local_ || (not push || nobody) ≡ true
    → (local_ ≡ true) × (push ≡ true) × (nobody ≡ false)
    → ⊥
unreachable_sender local_ push nobody h (a, b, c) = ground arith

wanted :
    (msg : Message) (status : Status) (policy : List ℕ)
    → should_send_origin_delivery_report msg status policy ≡ true
    → IsWanted msg status policy
unfolding should_send_origin_delivery_report
wanted msg status policy h =
    let (on, why) =
      lets-some (bytes_eq policy (codes "disabled")) (bytes_eq policy (codes "always_on_failure"))
        msg.delivery_report (is_failure_status status) h in
    (on, elim why [ inl asked ↦ inl asked | inr (a, f) ↦ inr (a, failed_status status f) ])

unwanted :
    (msg : Message) (status : Status) (policy : List ℕ)
    → should_send_origin_delivery_report msg status policy ≡ false
    → ¬ IsWanted msg status policy
unfolding should_send_origin_delivery_report
unwanted msg status policy h (on, why) =
    lets-none (bytes_eq policy (codes "disabled")) (bytes_eq policy (codes "always_on_failure"))
      msg.delivery_report (is_failure_status status) h on
      (elim why [ inl asked ↦ inl asked | inr (a, f) ↦ inr (a, status_failed status f) ])

module _ (w : World) (has_repo has_push : Bool) (now : ℕ) (msg : Message) (status : Status) where
  -- The sender is a subscriber of MM1 with an address, and there is a push sender.
  abbrev pub IsReachable : Type 0
  IsReachable = (is_mm1 msg.origin ≡ true) × (has_push ≡ true) × (is_empty msg.from ≡ false)

  abbrev pub report_bytes : Result (List ℕ)
  report_bytes = encode (some (new_delivery_ind now msg.id msg.from (delivery_status_token status)))

  -- The report was pushed: it succeeds if the push was accepted, and is noted if there is a repository.
  abbrev pub Pushed : List Call → Result (Unit {0}) × List Call → Type 0
  Pushed log (ok u, after) =
      (bytes : List ℕ) × (report_bytes ≡ ok bytes)
      × (w.outcome (report_push w has_repo has_push msg bytes) log ≡ ok tt)
      × (after ≡ (
          if has_repo
          then submitted_event msg status ∷ report_push w has_repo has_push msg bytes ∷ log
          else report_push w has_repo has_push msg bytes ∷ log))
  Pushed log (err e, after) =
      ((report_bytes ≡ err e) × (after ≡ log))
      ⊎ ((bytes : List ℕ) × (report_bytes ≡ ok bytes)
          × (w.outcome (report_push w has_repo has_push msg bytes) log ≡ err e)
          × (after ≡ report_push w has_repo has_push msg bytes ∷ log))

  -- Nothing was pushed; a report that is not wanted is noted as skipped.
  abbrev pub Quiet : List ℕ → List Call → Result (Unit {0}) × List Call → Type 0
  Quiet policy log out =
      (out.0 ≡ ok tt) × ((out.1 ≡ log) ⊎ (out.1 ≡ skipped_event msg policy ∷ log))

  -- What follows an accepted push.
  noted-Pushed :
      (bytes : List ℕ) (log : List Call)
      → report_bytes ≡ ok bytes
      → w.outcome (report_push w has_repo has_push msg bytes) log ≡ ok tt
      → Pushed log (
          note_submitted w has_repo has_push msg status
            (report_push w has_repo has_push msg bytes ∷ log))
  noted-Pushed bytes log sent accepted = elim (Bool-cases has_repo) [
    | inl known ↦ rw known (bytes, sent, accepted, refl)
    | inr unknown_ ↦ rw unknown_ (bytes, sent, accepted, refl)
  ]

  push_report-Pushed :
      (log : List Call) → Pushed log (push_report w has_repo has_push now msg status log)
  unfolding push_report
  push_report-Pushed log = elim (Result-cases report_bytes) [
    | inr (e, failed) ↦ rw (failed, push_report) (inl (failed, refl))
    | inl (bytes, sent) ↦
        elim (Result-cases (w.outcome (report_push w has_repo has_push msg bytes) log)) [
          | inr (e, refused) ↦
              let ends : push_report w has_repo has_push now msg status log
                  ≡ (err e, report_push w has_repo has_push msg bytes ∷ log) =
                rw (sent, push_report) (rw refused refl) in
              subst (Pushed log) (sym ends) (inr (bytes, sent, refused, refl))
          | inl (u, accepted) ↦
              subst (Pushed log) (sym (rw (sent, push_report) (rw accepted refl)))
                (noted-Pushed bytes log sent accepted)
        ]
  ]

  skipped-Quiet :
      (policy : List ℕ) (log : List Call)
      → Quiet policy log (append_origin_report_skipped w has_repo has_push msg policy log)
  unfolding append_origin_report_skipped
  skipped-Quiet policy log = elim (Bool-cases (has_repo && not (is_empty msg.id))) [
    | inl on ↦ rw (on, append_origin_report_skipped) (refl, inr refl)
    | inr off ↦ rw (off, append_origin_report_skipped) (refl, inl refl)
  ]

  abbrev pub Sent : List ℕ → List Call → Result (Unit {0}) × List Call → Type 0
  Sent policy log out =
      (IsReachable × IsWanted msg status policy × Pushed log out)
      ⊎ ((¬ (IsReachable × IsWanted msg status policy)) × Quiet policy log out)

  -- A report of a delivery is pushed exactly if the sender is one of MM1 with an address,
  -- there is a push sender, and the policy is not disabled and the sender asked for it, or the
  -- policy is to tell of every failure and the message was rejected, has expired or is
  -- unreachable. Where it is pushed, the call returns the error of the encoding or of the
  -- push, or else succeeds and notes it if there is a repository; where it is not, it
  -- succeeds, and may note that it was skipped.
  pub send_origin_delivery_report-Sent :
      (policy : Option (List ℕ)) (log : List Call)
      → Sent
          (resolved_policy policy)
          log
          (send_origin_delivery_report w has_repo has_push now msg status policy log)
  unfolding send_origin_delivery_report
  send_origin_delivery_report-Sent policy log =
      elim (Bool-cases (not (is_mm1 msg.origin) || (not has_push || is_empty msg.from))) [
        | inl away ↦
            rw (away, send_origin_delivery_report)
              (inr (
                (λ h. unreachable_sender (is_mm1 msg.origin) has_push (is_empty msg.from) away h.0),
                (refl, inl refl),
              ))
        | inr here ↦
            elim (Bool-cases
              (should_send_origin_delivery_report msg status (resolved_policy policy))) [
                | inl send ↦
                    subst (Sent (resolved_policy policy) log)
                      (sym (rw (here, send_origin_delivery_report) (rw send refl)))
                      (inl (
                        reachable_sender (is_mm1 msg.origin) has_push (is_empty msg.from) here,
                        wanted msg status (resolved_policy policy) send,
                        push_report-Pushed log,
                      ))
                | inr skip ↦
                    subst (Sent (resolved_policy policy) log)
                      (sym (rw (here, send_origin_delivery_report) (rw skip refl)))
                      (inr (
                        (λ h. unwanted msg status (resolved_policy policy) skip h.1),
                        skipped-Quiet (resolved_policy policy) log,
                      ))
              ]
      ]
