-- ===== src/Mm1/Submit/Handle/Recorded.antt =====
-- `Handle` of internal/mm1/handler_mo.go as a whole: what was done by the time it returns.
use vectorcore_mmsc.Base.{ℕ, List, ◌∷◌, some, ok, err, Error, ◌≡◌, ◌⊎◌, inl, inr}
use vectorcore_mmsc.Base.Text.{codes}
use vectorcore_mmsc.Message.{Message}
use vectorcore_mmsc.Mmspdu.Codec.{Pdu, encode}
use vectorcore_mmsc.Routing.Engine.{Destination}
use vectorcore_mmsc.Service.{Call, create_message}
use vectorcore_mmsc.Mm1.{Response, failure, served, Handler, ◌>>=◌, ask}
use vectorcore_mmsc.Mm1.Submit.Handle.{Server, Request, Accepted, confirmation}
use vectorcore_mmsc.Mmspdu.Messages.{new_send_conf, new_forward_conf}
use vectorcore_mmsc.Mm1.Submit.Handle.Ensures.{IsRefusal}
use vectorcore_mmsc.Mm1.Submit.Handle.Refusal.{IsFit}
use vectorcore_mmsc.Mm1.Submit.Handle.Laws.{Writes}
use vectorcore_mmsc.Mm1.Submit.Handle.Follows.{Follows}

module _ (server : Server) where
  abbrev pub unrecorded : Response
  unrecorded = failure 500 (codes "failed to persist message")

  abbrev pub unanswered : Response
  unanswered = failure 500 (codes "failed to encode response")

  -- The confirmation of the kind of the unit, with its transaction id, the id of the message and the
  -- status ok.
  abbrev pub IsConfirmation : Pdu → Message → Pdu → Type 0
  IsConfirmation pdu msg conf =
      ((pdu.message_type ≡ 0x80) × (conf ≡ new_send_conf msg.transaction_id msg.id 0x80))
      ⊎ ((pdu.message_type ≡ 0x89) × (conf ≡ new_forward_conf msg.transaction_id msg.id 0x80))

  -- The message could not be created after the calls `mid`, or was and its answer not encoded.
  abbrev pub Stopped : Pdu → Message → List Call → Response → List Call → Type 0
  Stopped pdu msg mid response after =
      (after ≡ create_message msg ∷ mid)
      × (((e : Error) × (server.world.outcome (create_message msg) mid ≡ err e)
            × (response ≡ unrecorded))
          ⊎ ((conf : Pdu) × (e : Error) × (server.world.outcome (create_message msg) mid ≡ ok tt)
              × IsConfirmation pdu msg conf
              × (encode (some conf) ≡ err e)
              × (response ≡ unanswered)))

  -- The message was created after the calls `mid`, and these bytes confirm it.
  abbrev pub Recorded : Pdu → Message → List ℕ → List Call → Type 0
  Recorded pdu msg bytes mid =
      (server.world.outcome (create_message msg) mid ≡ ok tt)
      × ((conf : Pdu) × IsConfirmation pdu msg conf × (encode (some conf) ≡ ok bytes))

  -- What was done with a unit that fits, once the message was made of it.
  abbrev pub Went :
      Pdu → Message → Destination → List Call → (Response ⊎ Accepted) × List Call → Type 0
  Went pdu msg destination mid (inl response, after) = Stopped pdu msg mid response after
  Went pdu msg destination mid (inr a, after) =
      (a.msg ≡ msg)
      × (a.destination ≡ destination)
      × Recorded pdu msg a.bytes mid
      × (after ≡ create_message msg ∷ mid)

  abbrev pub Accepts : Request → List Call → (Response ⊎ Accepted) × List Call → Type 0
  Accepts request log out =
      ((response : Response) × (out.0 ≡ inl response) × IsRefusal response × Writes log out.1)
      ⊎ ((pdu : Pdu) × (msg : Message) × (destination : Destination) × (mid : List Call) × Writes
            log mid
          × IsFit server request (pdu, (msg, destination))
          × Went pdu msg destination mid out)

  module _ (mid : List Call) (pdu : Pdu) (msg : Message) (destination : Destination)
      (typed : (pdu.message_type ≡ 0x80) ⊎ (pdu.message_type ≡ 0x89)) where
    abbrev finish : List ℕ → Handler Accepted
    finish bytes l = (inr (record { msg = msg; destination = destination; bytes = bytes }), l)

    abbrev confirm : Handler Accepted
    confirm =
        ask (λ l. encode (some (confirmation server pdu msg)))
          (λ e. failure 500 (codes "failed to encode response"))
        >>= finish

  -- How the handler ends with a unit that fits, and what was called by then.
  abbrev pub Done : ℕ → Pdu → Message → Destination → List Call → Response × List Call → Type 0
  Done now pdu msg destination mid (response, after) =
      Stopped pdu msg mid response after
      ⊎ ((bytes : List ℕ) × Recorded pdu msg bytes mid
          × (response ≡ served bytes)
          × Follows server now msg (create_message msg ∷ mid) destination after)

  -- How the handler ends: it refuses, or the unit fits and a message is made of it.
  abbrev pub Handled : Request → List Call → Response × List Call → Type 0
  Handled request log (response, after) =
      (IsRefusal response × Writes log after)
      ⊎ ((pdu : Pdu) × (msg : Message) × (destination : Destination) × (mid : List Call) × Writes
            log mid
          × IsFit server request (pdu, (msg, destination))
          × Done request.now pdu msg destination mid (response, after))
