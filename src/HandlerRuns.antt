-- ===== src/HandlerRuns.antt =====
-- Concrete messages and services for the laws of the parts that handle messages.
use vectorcore_mmsc.Base.{
  inr, ℕ, ◌+◌, ◌≤◌, List, [], ◌∷◌, length, All, none, some, true, false, if◌then◌else◌, not, ◌&&◌,
  ◌||◌, ok, err, Error, no_rows, ◌≡◌, refl, arith, ◌⊎◌,
}
use vectorcore_mmsc.Base.Text.{codes, bytes_eq, trim_space, trim_left, to_lower}
use vectorcore_mmsc.Base.TextMap
use vectorcore_mmsc.Mmspdu.Runs.{IsText-by_test}
use vectorcore_mmsc.Mmspdu.Multipart.{
  Part, encode_part_headers, encode_part_header_lines, normalize_header_map,
}
use vectorcore_mmsc.Mmspdu.Multipart.RoundTrip.{IsSendable}
use vectorcore_mmsc.Mmspdu.ContentType.{
  encode_content_type_value, encode_media_type, normal_media_type, is_valid_media_type_text,
  printable,
}
use vectorcore_mmsc.Mmspdu.ContentType.Tables.{well_known_media_type_tokens}
use vectorcore_mmsc.Mmspdu.Codec.{Pdu, encode}
use vectorcore_mmsc.Mmspdu.Messages.{new_acknowledge_ind}
use vectorcore_mmsc.Message
use vectorcore_mmsc.Message.{
  Message, queued, expired, delivered, mobile_originated, personal, normal, mm1,
}
use vectorcore_mmsc.Message.Expiry.{
  apply_default_expiry, asked, ceiling, apply_default_expiry_bounds,
}
use vectorcore_mmsc.Service.{World, send_delivery_report, send_read_reply}
use vectorcore_mmsc.Sweep.{purge, sweep}
use vectorcore_mmsc.Sweep.Laws.{deletions, purge-deletions, IsCareful, sweep-IsCareful}
use vectorcore_mmsc.Sweep.Complete.{Handled, sweep-Handled}
use vectorcore_mmsc.Queue.{notify, content_location}
use vectorcore_mmsc.Queue.Laws.{Notified, notify-Notified}
use vectorcore_mmsc.Mm1.Retrieve.{
  parts_to_pdu, load_parts, handle_notify_resp, handle_acknowledge, handle_delivery_report,
  handle_read_report, notified_status,
}
use vectorcore_mmsc.Mm1.Retrieve.Answers.{
  Answered, DeliveryAnswered, by_transaction, reported_text, handlers-Answered,
}
use vectorcore_mmsc.Mmspdu.Messages.{new_retrieve_conf}
use vectorcore_mmsc.Mmspdu.Multipart.RoundTrip.{AllReceived}
use vectorcore_mmsc.Service.{put_content}
use vectorcore_mmsc.Routing.Engine.{local}
use vectorcore_mmsc.Mm1.Submit.Handle.{Server, Request, persist_local_content, with_content}
use vectorcore_mmsc.Mm1.Submit.Handle.Recorded
use vectorcore_mmsc.Mm1.Submit.Kept.{AllPartOf, persisted-loaded}
use vectorcore_mmsc.Mmspdu.Messages.Laws.{IsDelivered}
use vectorcore_mmsc.Message.{expired}
use vectorcore_mmsc.Mm1.Report.{resolved_policy, send_origin_delivery_report}
use vectorcore_mmsc.Mm1.Report.Laws.{Sent, send_origin_delivery_report-Sent}

abbrev photo : Message
photo = record {
  id = codes "m1";
  transaction_id = codes "t1";
  status = queued;
  direction = mobile_originated;
  from = codes "+1555";
  to = codes "+1556" ∷ codes "+1557" ∷ [];
  cc = [];
  bcc = [];
  subject = codes "Hi";
  parts = [];
  content_type = codes "application/vnd.wap.multipart.related";
  mms_version = codes "1.2";
  message_class = personal;
  priority = normal;
  delivery_report = true;
  read_report = false;
  expiry = some 5000000000;
  delivery_time = none;
  message_size = 300;
  content_path = codes "a/m1";
  store_id = codes "m1";
  origin = mm1;
  origin_host = [];
  received_at = some 1000000000;
  updated_at = none;
}

-- A text that is kept inline, so nothing has to be fetched.
abbrev note_part : Message.Part
note_part = record {
  content_type = codes "text/plain";
  content_id = [];
  content_location = [];
  content = codes "Hi";
  store_path = [];
  size = 2;
}

abbrev note : Message
note = record photo { parts = note_part ∷ [] }

-- The same as a part of a unit.
abbrev plain_part : Part
plain_part = record {
  headers = [];
  content_type = codes "text/plain";
  content_type_params = [];
  payload = codes "Hi";
}

-- Every call is accepted, and the message is always there.
abbrev calm : World
calm = record {
  message = λ id log. ok note;
  message_by_transaction = λ id log. ok note;
  queued_messages = λ log. ok (photo ∷ []);
  expired_messages = λ now log. ok (photo ∷ note ∷ []);
  content = λ key log. err no_rows;
  put = λ key bytes log. ok key;
  outcome = λ c log. ok tt;
}

-- Nothing that is asked for is there.
abbrev bare : World
bare = record calm { message_by_transaction = λ id log. err no_rows }

abbrev no_text : Error → List ℕ
no_text e = []

apply_default_expiry_bounds_example :
    (t : ℕ) × ((apply_default_expiry 9 2 4 photo).expiry ≡ some t)
    × (t ≤ ceiling 9 4 photo)
    × (t ≤ asked 9 2 photo)
    × ((t ≡ ceiling 9 4 photo) ⊎ (t ≡ asked 9 2 photo))
apply_default_expiry_bounds_example = apply_default_expiry_bounds 9 2 4 photo

purge-deletions_example :
    deletions (codes "a") (purge (codes "m") (codes "a") (codes "a") [])
    ≡ (if not false && (bytes_eq (codes "a") (codes "a") || bytes_eq (codes "a") (codes "a"))
        then 1
        else 0)
      + deletions (codes "a") []
purge-deletions_example = purge-deletions (codes "a") (codes "m") (codes "a") (codes "a") []

sweep-IsCareful_example : IsCareful calm (sweep no_text calm true 7 [])
sweep-IsCareful_example = sweep-IsCareful calm no_text true 7 [] tt

sweep-Handled_example :
    All (Handled no_text calm true (sweep no_text calm true 7 [])) (photo ∷ note ∷ [])
sweep-Handled_example = sweep-Handled no_text calm true 7 (photo ∷ note ∷ []) [] refl

notify-Notified_example :
    Notified calm true 7
      (codes "http://h/r")
      photo
      []
      (notify calm true 7 (codes "http://h/r") photo [])
notify-Notified_example = notify-Notified calm true 7 (codes "http://h/r") photo []

abbrev acknowledgement : Pdu
acknowledgement = new_acknowledge_ind (codes "t1")

handlers-Answered_example :
    Answered calm true
      (by_transaction calm true acknowledgement)
      (notified_status acknowledgement)
      (λ msg. send_delivery_report msg (notified_status acknowledgement))
      (reported_text calm true)
      []
      (handle_notify_resp calm true acknowledgement [])
    × Answered calm true
        (by_transaction calm true acknowledgement)
        delivered
        (λ msg. send_delivery_report msg delivered)
        (reported_text calm true)
        []
        (handle_acknowledge calm true acknowledgement [])
    × DeliveryAnswered calm true acknowledgement []
        (handle_delivery_report calm true acknowledgement [])
    × Answered calm true
        (by_transaction calm true acknowledgement)
        delivered
        send_read_reply
        (codes "failed to report read reply")
        []
        (handle_read_report calm true acknowledgement [])
handlers-Answered_example = handlers-Answered calm true acknowledgement []

plain_block : length (encode_part_headers plain_part) ≡ 1
unfolding encode_part_headers encode_content_type_value encode_media_type TextMap.lookup
    well_known_media_type_tokens normal_media_type is_valid_media_type_text printable to_lower
    trim_space trim_left encode_part_header_lines normalize_header_map TextMap.keys TextMap.sort
plain_block = refl

plain_part-IsSendable : IsSendable plain_part
plain_part-IsSendable = record {
  plain = record { no_params = refl; headers_fit = tt };
  block_fits = omega (arith, plain_block);
  payload_fits = omega arith;
}

-- A store that returns the confirmation made of the note.
abbrev keeping : World
keeping = record calm {
  content = λ key log. encode (some (new_retrieve_conf (codes "t1") (parts_to_pdu note.parts)));
}

abbrev centre : Server
centre = record {
  limits = record {
    max_body_size = 1000;
    max_message_size = 0;
    default_expiry = 10;
    max_retention = 20;
  };
  world = keeping;
  routes = λ log. record { peers = ok []; routes = ok [] };
  adapt = none;
  has_push = true;
  tracked = false;
  has_mm4 = true;
  has_mm3 = false;
  base = codes "http://h/r";
  report_policy = codes "requested_only";
  error_text = no_text;
}

-- A submission to one recipient, with a text of two letters.
abbrev submission : Request
submission = record {
  header = λ name. codes "+1555";
  body =
      0x8C ∷ 0x80 ∷ 0x98 ∷ b't' ∷ 0x00 ∷ 0x8D ∷ 0x92 ∷ 0x97 ∷ b'+' ∷ b'1' ∷ 0x00 ∷ 0x84 ∷ 0xA3
      ∷ 0x01 ∷ 0x01 ∷ 0x02 ∷ 0x83 ∷ b'H' ∷ b'i' ∷ [];
  now = 7;
  new_id = codes "m9";
}

persisted-loaded_example :
    (raw : List ℕ) × (sent : List Part) × (kept : List Part) × (received : List Part)
    × (persist_local_content centre note local []
        ≡ (inr (with_content centre note (codes "m1") raw), put_content (codes "m1") raw ∷ []))
    × (load_parts keeping true
          (record (with_content centre note (codes "m1") raw) { parts = [] })
          (put_content (codes "m1") (codes "x") ∷ [])
        ≡ ok received)
    × AllPartOf centre note.parts sent
    × IsDelivered sent kept
    × AllReceived kept received
unfolding parts_to_pdu
persisted-loaded_example =
    persisted-loaded centre true note (codes "m1") [] (put_content (codes "m1") (codes "x") ∷ [])
      refl (IsText-by_test (codes "t1") refl) refl (plain_part-IsSendable, tt) (omega arith) refl
      (λ raw. refl) (λ raw sent. sent)

send_origin_delivery_report-Sent_example :
    Sent calm true true 7 photo expired
      (codes "requested_only")
      []
      (send_origin_delivery_report calm true true 7 photo expired none [])
unfolding resolved_policy
send_origin_delivery_report-Sent_example =
    send_origin_delivery_report-Sent calm true true 7 photo expired none []
