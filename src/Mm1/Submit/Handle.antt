-- ===== src/Mm1/Submit/Handle.antt =====
-- `Handle` of internal/mm1/handler_mo.go up to the answer: a submitted unit is stored as a message.
pub mod Dispatch
pub mod Follows
pub mod Laws
pub mod Ensures
pub mod Refusal
pub mod Recorded
use vectorcore_mmsc.Base.{
  ℕ, ◌/◌, ◌%◌, ◌+◌, ◌<◌, List, [], ◌∷◌, ◌++◌, length, is_empty, Option, none, some, Bool, true,
  false, ◌&&◌, ◌||◌, ◌==◌, not, ltb, leb, if◌then◌else◌, Result, ok, err, Error, ◌⊎◌, inl, inr,
}
use vectorcore_mmsc.Base.Text.{codes}
use vectorcore_mmsc.Message
use vectorcore_mmsc.Message.{Message, Status, delivering, rejected, unreachable}
use vectorcore_mmsc.Mmspdu.Types.{field_to}
use vectorcore_mmsc.Mmspdu.Codec.{Pdu, encode, decode}
use vectorcore_mmsc.Mmspdu.Messages.{new_send_conf, new_forward_conf, new_retrieve_conf}
use vectorcore_mmsc.Routing.Peer.{Repository}
use vectorcore_mmsc.Routing.Engine.{
  Destination, Resolution, unknown, local, mm4, mm3, reject, resolve_recipients,
}
use vectorcore_mmsc.Service
use vectorcore_mmsc.Service.{
  Call, World, Action, update_status, append_event, create_message, put_content, send_mm4, send_mm3,
}
use vectorcore_mmsc.Queue.{notify, join_comma}
use vectorcore_mmsc.Mm1.{
  Response, failure, no_content, served, Handler, ◌>>=◌, ◌>>◌, answer, ask, attempt, queried,
}
use vectorcore_mmsc.Mm1.Report.{send_origin_delivery_report}
use vectorcore_mmsc.Mm1.Retrieve.{parts_to_pdu}
use vectorcore_mmsc.Mm1.Submit.{
  Limits, sender_address_from_request, header_text, strip_type_suffix, message_of, parts_size,
}

-- What the handler is made of, and one request: the headers, the body, the clock and a fresh id.
pub record Request : Type 0 where
  pub header : List ℕ → List ℕ
  pub body : List ℕ
  pub now : ℕ
  pub new_id : List ℕ

pub record Server : Type 0 where
  pub limits : Limits
  pub world : World
  pub routes : List Call → Repository
  pub adapt : Option (List Message.Part → List Call → Result (List Message.Part))
  pub has_push : Bool
  pub tracked : Bool
  pub has_mm4 : Bool
  pub has_mm3 : Bool
  pub base : List ℕ
  pub report_policy : List ℕ
  pub error_text : Error → List ℕ

-- A message that is to be sent on, and the answer.
pub record Accepted : Type 0 where
  pub msg : Message
  pub destination : Destination
  pub bytes : List ℕ

abbrev pub is_local : Destination → Bool
is_local local = true
is_local unknown = false
is_local mm4 = false
is_local mm3 = false
is_local reject = false

module _ (server : Server) where
  abbrev pub w : World
  w = server.world

  abbrev pub refused : ℕ → List ℕ → Error → Response
  refused code text e = failure code (text ++ server.error_text e)

  -- A write to the store, which returns the path.
  abbrev pub put : List ℕ → List ℕ → (Error → Response) → Handler (List ℕ)
  put key bytes on_error log = queried on_error (put_content key bytes ∷ log) (w.put key bytes log)

  abbrev pub require : Bool → Response → Handler (Unit {0})
  require holds response log = if holds then (inr tt, log) else (inl response, log)

  abbrev pub bad : List ℕ → Error → Response
  bad text e = failure 400 text

  -- The method `toMessage`.
  unfoldable pub to_message : Request → Pdu → Handler (Message × Destination)
  to_message request pdu = do
    from ←
        ask (λ log. sender_address_from_request request.header pdu)
          (refused 400 (codes "missing from: "))
    to ← ask (λ log. header_text pdu field_to) (refused 400 (codes "missing to: "))
    path ← put request.new_id request.body (refused 400 (codes "store payload: "))
    result ←
        ask (λ log. resolve_recipients ((server.routes log, strip_type_suffix to) ∷ []))
          (refused 400 (codes "route message: "))
    let msg =
        message_of request.now server.limits request.new_id path from to result.destination pdu
          request.body
    require (not (is_empty msg.parts)) (failure 400 (codes "missing message content"))
    λ log. (inr (msg, result.destination), log)

  abbrev pub with_parts : Message → List Message.Part → Message
  with_parts msg parts = record msg {
    parts = parts;
    message_size = if ltb 0 (parts_size parts) then parts_size parts else msg.message_size;
  }

  -- The method `applyAdaptation`.
  unfoldable pub apply_adaptation : Message → Destination → Handler Message
  apply_adaptation msg destination = elim server.adapt [
    | none ↦ λ log. (inr msg, log)
    | some adapt ↦
        if is_local destination
        then (do
          parts ← ask (adapt msg.parts) (refused 422 [])
          λ log. (inr (with_parts msg parts), log))
        else λ log. (inr msg, log)
  ]

  abbrev pub not_stored : Error → Response
  not_stored e = failure 500 (codes "failed to store adapted content")

  abbrev pub with_content : Message → List ℕ → List ℕ → Message
  with_content msg path raw = record msg {
    content_path = path;
    store_id = path;
    message_size = length raw;
  }

  -- The method `persistLocalContent`.
  unfoldable pub persist_local_content : Message → Destination → Handler Message
  persist_local_content msg destination =
      if is_local destination && not (is_empty msg.parts)
      then (do
        raw ←
            ask
              (λ log. encode (some (new_retrieve_conf msg.transaction_id (parts_to_pdu msg.parts))))
              not_stored
        path ← put msg.id raw not_stored
        λ log. (inr (with_content msg path raw), log))
      else λ log. (inr msg, log)

  abbrev pub confirmation : Pdu → Message → Pdu
  confirmation pdu msg =
      if pdu.message_type == 0x89
      then new_forward_conf msg.transaction_id msg.id 0x80
      else new_send_conf msg.transaction_id msg.id 0x80

  -- What is answered to a unit that is too large.
  unfoldable pub too_large : Pdu → Response
  too_large pdu = elim (encode (some (new_send_conf pdu.transaction_id [] 0x93))) [
    | ok bytes ↦ served bytes
    | err e ↦ failure 413 (codes "message too large")
  ]

  abbrev pub fits : ℕ → ℕ → Bool
  fits limit size = not (ltb 0 limit && ltb limit size)

  abbrev pub is_submission : Pdu → Bool
  is_submission pdu = pdu.message_type == 0x80 || pdu.message_type == 0x89

  -- The method `Handle` up to the message that is to be created.
  unfoldable pub prepare : Request → Handler (Pdu × (Message × Destination))
  unfolding to_message apply_adaptation persist_local_content too_large
  prepare request = do
    require (leb (length request.body) server.limits.max_body_size)
        (failure 400 (codes "invalid body"))
    pdu ← ask (λ log. decode request.body) (bad (codes "invalid mms pdu"))
    require (is_submission pdu) (failure 400 (codes "unsupported message type"))
    require (fits server.limits.max_message_size (length request.body)) (too_large pdu)
    made ← to_message request pdu
    adapted ← apply_adaptation made.0 made.1
    msg ← persist_local_content adapted made.1
    λ log. (inr (pdu, (msg, made.1)), log)

  -- The message is created, and the answer made.
  unfoldable pub record_message : Pdu → Message → Destination → Handler Accepted
  record_message pdu msg destination = do
    attempt w (create_message msg) (failure 500 (codes "failed to persist message"))
    bytes ←
        ask (λ log. encode (some (confirmation pdu msg)))
          (λ e. failure 500 (codes "failed to encode response"))
    λ log. (inr (record { msg = msg; destination = destination; bytes = bytes }), log)

  -- The method `Handle` up to the answer.
  unfoldable pub accept : Request → Handler Accepted
  unfolding prepare record_message
  accept request = do made ← prepare request; record_message made.0 made.1.0 made.1.1
