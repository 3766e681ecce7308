-- ===== src/Mm1/Serve.antt =====
-- internal/mm1/server.go: which handler a request of MM1 goes to.
use vectorcore_mmsc.Base.{
  ℕ, List, length, Bool, ◌||◌, ◌==◌, leb, if◌then◌else◌, ok, err, ◌⊎◌, inl, inr,
}
use vectorcore_mmsc.Base.Text.{codes, equal_fold}
use vectorcore_mmsc.Mmspdu.Codec.{Pdu, decode}
use vectorcore_mmsc.Service.{Call}
use vectorcore_mmsc.Mm1.{Response, failure}
use vectorcore_mmsc.Mm1.Retrieve.{
  handle_retrieve, handle_notify_resp, handle_acknowledge, handle_delivery_report,
  handle_read_report,
}
use vectorcore_mmsc.Mm1.Submit.Handle.{Server, Request}
use vectorcore_mmsc.Mm1.Submit.Handle.Dispatch.{handle}

-- The methods that are told apart.
pub data Method : Type 0 where
  get : Method
  post : Method
  other : Method

abbrev pub respond : (Response ⊎ Response) × List Call → Response × List Call
respond (inl response, log) = (response, log)
respond (inr response, log) = (response, log)

module _ (server : Server) (reporter : Bool) where
  -- The switch on the type of a unit.
  unfoldable pub serve_pdu : Request → Pdu → List Call → Response × List Call
  unfolding handle handle_notify_resp handle_acknowledge handle_delivery_report handle_read_report
  serve_pdu request pdu log =
      if pdu.message_type == 0x80 || pdu.message_type == 0x89
      then handle server request log
      else if pdu.message_type == 0x83
      then respond (handle_notify_resp server.world reporter pdu log)
      else if pdu.message_type == 0x85
      then respond (handle_acknowledge server.world reporter pdu log)
      else if pdu.message_type == 0x86
      then respond (handle_delivery_report server.world reporter pdu log)
      else if pdu.message_type == 0x87 || pdu.message_type == 0x88
      then respond (handle_read_report server.world reporter pdu log)
      else (failure 400 (codes "unsupported message type"), log)

  unfoldable pub serve_post : Request → List Call → Response × List Call
  unfolding serve_pdu
  serve_post request log =
      if leb (length request.body) server.limits.max_body_size
      then elim (decode request.body) [
        | err e ↦ (failure 400 (codes "invalid mms pdu"), log)
        | ok pdu ↦ serve_pdu request pdu log
      ]
      else (failure 400 (codes "invalid body"), log)

  -- The method `ServeHTTP`, with the id of the query.
  unfoldable pub serve_http : Method → List ℕ → Request → List Call → Response × List Call
  unfolding serve_post handle_retrieve
  serve_http get id request log = respond (handle_retrieve server.world reporter id log)
  serve_http post id request log =
      if equal_fold (request.header (codes "Content-Type"))
        (codes "application/vnd.wap.mms-message")
      then serve_post request log
      else (failure 501 (codes "not implemented"), log)
  serve_http other id request log = (failure 501 (codes "not implemented"), log)
