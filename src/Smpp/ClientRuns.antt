-- ===== src/Smpp/ClientRuns.antt =====
-- Concrete upstreams, sessions and receipts for the laws of the clients of internal/smpp.
use vectorcore_mmsc.Base.{
  ℕ, ◌≤◌, List, [], ◌∷◌, ◌++◌, length, is_empty, none, some, true, false, Result, ok, err, ◌≡◌,
  refl, arith, if◌then◌else◌, empty_receipt, unsupported_receipt, bind_rejected,
}
use vectorcore_mmsc.Base.Int.{pos, negsuc}
use vectorcore_mmsc.Base.ByteMap.{lookup}
use vectorcore_mmsc.Base.Text.{codes, trim_space, trim_left, index_byte}
use vectorcore_mmsc.Base.TextMap
use vectorcore_mmsc.Smpp.Pdu.{Pdu, with_header}
use vectorcore_mmsc.Smpp.Upstream.{Upstream, config_of, duration_seconds, same_runtime_config}
use vectorcore_mmsc.Smpp.Session.{
  bound, Session, Network, new_session, start_connect, set_bound, register, close, connect,
}
use vectorcore_mmsc.Smpp.Session.Steps.{
  Reach, new, next, starts, binds, registers, closes, IsValid, Reach-IsValid,
}
use vectorcore_mmsc.Smpp.Session.Channels.{closings, sendings, closings-le-one, close_wakes}
use vectorcore_mmsc.Smpp.Session.Connect.{Ends, connect-Ends}
use vectorcore_mmsc.Smpp.Receipt.{
  DeliveryReceipt, parse_receipt_time, time_or_nil, parse_delivery_receipt,
}
use vectorcore_mmsc.Smpp.Receipt.Fields.{value_in, receipt_in, lacks, parse_delivery_receipt-eq}
use vectorcore_mmsc.Smpp.Receipt.RoundTrip.{receipt_text, parse-receipt_text}
use vectorcore_mmsc.Smpp.Submit.{Told, submit_request, submit_wap_push_tracked}
use vectorcore_mmsc.Smpp.Submit.Laws.{
  Accepted, Complete, submit_request_kept, submit_wap_push_tracked-Accepted,
}
use vectorcore_mmsc.Smpp.Manager.{new_manager, default, refresh}
use vectorcore_mmsc.Smpp.Manager.Refresh.{wanted, Serves, refresh-Serves}
use vectorcore_mmsc.Smpp.Manager.Invariant.{Chosen, default-Chosen}
use vectorcore_mmsc.Smpp.Manager.Invariant
use vectorcore_mmsc.Smpp.Manager.Again.{refresh-refresh}
use vectorcore_mmsc.Wappush.Sms.{segment_count}
use vectorcore_mmsc.Wappush.Sms.Reassembly.{joined}

-- A time that parses as the length of its text.
abbrev clock : List ℕ → Result ℕ
clock text = ok (length text)

abbrev smsc : Upstream
smsc = record {
  name = codes "north";
  host = codes "smsc.example";
  port = pos 2775;
  system_id = codes "mms";
  password = codes "secret";
  system_type = [];
  bind_mode = codes "transceiver";
  enquire_link = pos 30;
  reconnect_wait = negsuc 4;
  registered_delivery = pos 1;
  source_addr_ton = none;
  source_addr_npi = none;
  dest_addr_ton = none;
  dest_addr_npi = some (pos 1);
  active = true;
}

abbrev explicit_ton : Upstream
explicit_ton = record smsc { dest_addr_ton = some (pos 1) }

abbrev south : Upstream
south = record smsc { name = codes "south" }

reconnect_wait_negative : (config_of smsc).reconnect_wait ≡ pos 0
unfolding config_of duration_seconds
reconnect_wait_negative = refl

enquire_link_nanoseconds : (config_of smsc).enquire_link ≡ pos 30000000000
unfolding config_of duration_seconds
enquire_link_nanoseconds = refl

abbrev bound_session : Session
bound_session = record {
  conn = some 1;
  state = bound;
  pending = [];
  done = some 0;
  deliver_sm_handler = false;
  delivery_receipt_handler = false;
  channels = 1;
}

abbrev waiting_session : Session
waiting_session = record bound_session { pending = (7, 1) ∷ []; channels = 2 }

waiting-Reach : Reach clock waiting_session []
unfolding new_session start_connect set_bound register
waiting-Reach =
    next (next (next new (starts new_session)) (binds 1 (start_connect new_session).0))
      (registers 7 1 bound_session waiting_session refl)

Reach-IsValid_example : IsValid waiting_session
Reach-IsValid_example = Reach-IsValid clock waiting-Reach

closings-le-one_example :
    (closings 1 (close waiting_session).1 ≤ 1)
    × (sendings 1 (close waiting_session).1 ≤ closings 1 (close waiting_session).1)
closings-le-one_example = closings-le-one clock 1 (next waiting-Reach (closes waiting_session))

close_wakes_example : (closings 1 [] ≡ 0) × (closings 1 ([] ++ (close waiting_session).1) ≡ 1)
unfolding lookup
close_wakes_example = close_wakes clock 1 7 waiting_session [] waiting-Reach refl

abbrev answering : ℕ → Network
answering status = record {
  dialled = ok 1;
  written = λ pdu. ok tt;
  answer = ok (with_header 16 0x80000009 status 1);
}

connect_ok : (connect (config_of smsc) (answering 0) new_session).0 ≡ bound_session
unfolding connect new_session config_of
connect_ok = refl

connect_rejected : (connect (config_of smsc) (answering 14) new_session).2 ≡ err bind_rejected
unfolding connect new_session config_of
connect_rejected = refl

connect-Ends_example :
    Ends
      (config_of smsc)
      (answering 14)
      new_session
      (connect (config_of smsc) (answering 14) new_session)
connect-Ends_example = connect-Ends (config_of smsc) (answering 14) new_session

abbrev delivered : DeliveryReceipt
delivered = record {
  id = codes "abc123";
  sub = codes "001";
  dlvrd = codes "001";
  submit_date = codes "2404011200";
  done_date = codes "2404011201";
  stat = codes "DELIVRD";
  error_code = codes "000";
  text = codes "hello";
  submitted_at = none;
  done_at = none;
}

parse-receipt_text_example :
    parse_delivery_receipt clock (receipt_text delivered)
    ≡ ok (record delivered {
      submitted_at = time_or_nil clock (parse_receipt_time clock delivered.submit_date);
      done_at = time_or_nil clock (parse_receipt_time clock delivered.done_date);
    })
parse-receipt_text_example = parse-receipt_text clock delivered (ground arith) refl

abbrev with_spaces : List ℕ
with_spaces = codes "id:abc123 submit date:2404011200 done date:2404011201 stat:DELIVRD"

parse_delivery_receipt-eq_example : parse_delivery_receipt clock with_spaces ≡ (
    if lacks (value_in with_spaces (codes "id")) (value_in with_spaces (codes "stat"))
    then err (if is_empty (trim_space with_spaces) then empty_receipt else unsupported_receipt)
    else ok (receipt_in clock with_spaces))
parse_delivery_receipt-eq_example = parse_delivery_receipt-eq clock with_spaces

-- The dates of the usual form of a receipt are not found.
no_submit_date :
    parse_delivery_receipt clock with_spaces
    ≡ ok (record {
      id = codes "abc123";
      sub = [];
      dlvrd = [];
      submit_date = [];
      done_date = [];
      stat = codes "DELIVRD";
      error_code = [];
      text = [];
      submitted_at = none;
      done_at = none;
    })
unfolding parse_delivery_receipt trim_space trim_left index_byte
no_submit_date = refl

abbrev accepting : Pdu → ℕ → Result Pdu
accepting pdu expect =
    ok (record (with_header 0 expect 0 pdu.sequence_number) { message_id = codes "77" })

abbrev connection : ℕ → Result ℕ
connection index = ok index

abbrev listening : Told → Result (Unit {0})
listening told = ok tt

submit_wap_push_tracked-Accepted_example :
    (segments : List (List ℕ)) × (joined segments ≡ codes "push")
    × (length segments ≡ segment_count (codes "push"))
    × (let out =
          submit_wap_push_tracked connection accepting listening
            (config_of smsc)
            (codes "+15551")
            (codes "+15552")
            (ok 9)
            (codes "push") in
        Accepted connection accepting listening
          (config_of smsc)
          (codes "+15551")
          (codes "+15552")
          0
          (segment_count (codes "push"))
          segments
          out.0
        × Complete connection accepting listening
            (config_of smsc)
            (codes "+15551")
            (codes "+15552")
            segments
            out)
submit_wap_push_tracked-Accepted_example =
    submit_wap_push_tracked-Accepted connection accepting listening (config_of smsc)
      (codes "+15551") (codes "+15552") 9 (codes "push") refl (omega arith)

submit_request_kept_example :
    submit_request (config_of smsc) 3 (codes "mms") (codes "+15552") (1 ∷ [])
    ≡ submit_request (config_of explicit_ton) 3 (codes "mms") (codes "+15552") (1 ∷ [])
unfolding same_runtime_config config_of duration_seconds
submit_request_kept_example =
    submit_request_kept 3 (codes "mms") (codes "+15552") (1 ∷ []) smsc explicit_ton refl

refresh-Serves_example :
    Serves
      (wanted (codes "south") (south ∷ smsc ∷ []))
      (TextMap.lookup (codes "south") (refresh (south ∷ smsc ∷ []) new_manager).0.clients)
unfolding new_manager
refresh-Serves_example = refresh-Serves (codes "south") (south ∷ smsc ∷ []) new_manager tt

default-Chosen_example :
    Chosen
      (refresh (south ∷ smsc ∷ []) new_manager).0
      (default (refresh (south ∷ smsc ∷ []) new_manager).0)
default-Chosen_example = default-Chosen (Invariant.refreshed (south ∷ smsc ∷ []) Invariant.new)

refresh-refresh_example :
    refresh (south ∷ smsc ∷ []) (refresh (south ∷ smsc ∷ []) new_manager).0
    ≡ ((refresh (south ∷ smsc ∷ []) new_manager).0, [])
unfolding new_manager
refresh-refresh_example = refresh-refresh (south ∷ smsc ∷ []) new_manager tt
