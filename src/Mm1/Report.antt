-- ===== src/Mm1/Report.antt =====
-- internal/mm1/origin_report.go: when the sender of a message is told of its delivery, and how.
pub mod Laws
use vectorcore_mmsc.Base.{
  ℕ, List, [], ◌∷◌, ◌++◌, is_empty, Option, none, some, Bool, true, false, ◌&&◌, ◌||◌, not,
  if◌then◌else◌,
}
use vectorcore_mmsc.Base.Text.{codes, bytes_eq, trim_space}
use vectorcore_mmsc.Message.{
  Message, Status, queued, delivering, delivered, expired, rejected, forwarded, unreachable, Origin,
  mm1, mm3, mm4, mm7,
}
use vectorcore_mmsc.Mmspdu.Codec.{encode}
use vectorcore_mmsc.Mmspdu.Messages.{new_delivery_ind}
use vectorcore_mmsc.Service.{
  Call, World, Action, ◌>>=◌, ◌>>◌, pure, lift, perform, perform_, append_event, submit_push,
}
use vectorcore_mmsc.Wappush.Push.{wrap_mms_pdu}

unfoldable pub is_failure_status : Status → Bool
is_failure_status rejected = true
is_failure_status expired = true
is_failure_status unreachable = true
is_failure_status queued = false
is_failure_status delivering = false
is_failure_status delivered = false
is_failure_status forwarded = false

unfoldable pub should_send_origin_delivery_report : Message → Status → List ℕ → Bool
unfolding is_failure_status
should_send_origin_delivery_report msg status policy =
    if bytes_eq policy (codes "disabled")
    then false
    else if bytes_eq policy (codes "always_on_failure")
    then msg.delivery_report || is_failure_status status
    else msg.delivery_report

unfoldable pub delivery_status_token : Status → ℕ
delivery_status_token expired = 0x80
delivery_status_token rejected = 0x82
delivery_status_token unreachable = 0x87
delivery_status_token forwarded = 0x86
delivery_status_token delivered = 0x81
delivery_status_token queued = 0x85
delivery_status_token delivering = 0x85

-- The status in decimal, which is one digit.
abbrev pub status_digit : Status → List ℕ
status_digit queued = codes "0"
status_digit delivering = codes "1"
status_digit delivered = codes "2"
status_digit expired = codes "3"
status_digit rejected = codes "4"
status_digit forwarded = codes "5"
status_digit unreachable = codes "6"

abbrev pub is_mm1 : Origin → Bool
is_mm1 mm1 = true
is_mm1 mm3 = false
is_mm1 mm4 = false
is_mm1 mm7 = false

-- The policy that is given, if it is not blank.
unfoldable pub resolved_policy : Option (List ℕ) → List ℕ
unfolding trim_space
resolved_policy none = codes "requested_only"
resolved_policy (some policy) =
    if is_empty (trim_space policy) then codes "requested_only" else trim_space policy

abbrev pub truth : Bool → List ℕ
truth true = codes "true"
truth false = codes "false"

abbrev pub first_or_empty : List (List ℕ) → List ℕ
first_or_empty [] = []
first_or_empty (a ∷ rest) = a

abbrev pub submitted_event : Message → Status → Call
submitted_event msg status = append_event (record {
  message_id = msg.id;
  source = codes "dispatch";
  kind = codes "origin-delivery-report";
  summary = codes "Origin delivery report submitted";
  detail = codes "status=" ++ status_digit status;
})

abbrev pub skipped_event : Message → List ℕ → Call
skipped_event msg policy = append_event (record {
  message_id = msg.id;
  source = codes "dispatch";
  kind = codes "origin-delivery-report-skipped";
  summary = codes "Origin delivery report skipped";
  detail = codes "policy=" ++ (policy ++ (codes " requested=" ++ truth msg.delivery_report));
})

-- `has_repo` and `has_push` are that the two are not nil.
module _ (w : World) (has_repo has_push : Bool) where
  unfoldable pub append_origin_report_skipped : Message → List ℕ → Action (Unit {0})
  append_origin_report_skipped msg policy =
      if has_repo && not (is_empty msg.id) then perform_ w (skipped_event msg policy) else pure tt

  abbrev pub note_submitted : Message → Status → Action (Unit {0})
  note_submitted msg status = if has_repo then perform_ w (submitted_event msg status) else pure tt

  -- The push of the report, at the time `now`.
  abbrev pub report_push : Message → List ℕ → Call
  report_push msg encoded = submit_push none (first_or_empty msg.to) msg.from (wrap_mms_pdu encoded)

  unfoldable pub push_report : ℕ → Message → Status → Action (Unit {0})
  push_report now msg status = do
    encoded ←
        lift (encode (some (new_delivery_ind now msg.id msg.from (delivery_status_token status))))
    perform w (report_push msg encoded)
    note_submitted msg status

  -- The function `SendOriginDeliveryReport`.
  unfoldable pub send_origin_delivery_report :
      ℕ → Message → Status → Option (List ℕ) → Action (Unit {0})
  unfolding should_send_origin_delivery_report append_origin_report_skipped push_report
  send_origin_delivery_report now msg status policy =
      if not (is_mm1 msg.origin) || (not has_push || is_empty msg.from)
      then pure tt
      else if should_send_origin_delivery_report msg status (resolved_policy policy)
      then push_report now msg status
      else append_origin_report_skipped msg (resolved_policy policy)
