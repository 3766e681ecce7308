-- ===== src/Mm1/Submit/Kept.antt =====
-- What internal/mm1/handler_mo.go stores of a local message, as internal/mm1/handler_mt.go loads it.
use vectorcore_mmsc.Base.{
  ℕ, ◌^◌, ◌<◌, List, [], ◌∷◌, length, is_empty, All, some, none, Bool, false, ok, ◌≡◌, inr, refl,
  ap, ◌∙◌, arith,
}
use vectorcore_mmsc.Message
use vectorcore_mmsc.Message.{Message}
use vectorcore_mmsc.Mmspdu.Strings.RoundTrip.{IsText}
use vectorcore_mmsc.Mmspdu.Multipart.{Part}
use vectorcore_mmsc.Mmspdu.Multipart.RoundTrip.{IsSendable, AllReceived}
use vectorcore_mmsc.Mmspdu.Codec.{Pdu, encode, decode}
use vectorcore_mmsc.Mmspdu.Messages.{strip_smil_parts, new_retrieve_conf}
use vectorcore_mmsc.Mmspdu.Messages.Laws.{
  new_retrieve_conf-received, IsDelivered, strip_smil_parts-IsDelivered,
}
use vectorcore_mmsc.Base.TextMap
use vectorcore_mmsc.Base.Text.{codes}
use vectorcore_mmsc.Routing.Engine.{local}
use vectorcore_mmsc.Service.{Call, put_content}
use vectorcore_mmsc.Mm1.{Handler, continued, queried, ◌>>=◌, ask-ok}
use vectorcore_mmsc.Mm1.Retrieve.{or_insert_text, parts_to_pdu, stored_parts, load_parts}
use vectorcore_mmsc.Mm1.Submit.Handle.{Server, put, persist_local_content, with_content, not_stored}

module _ (server : Server) where
  -- The write, and what is made of its answer.
  abbrev store_content : Message → List ℕ → Handler Message
  store_content msg raw = put server msg.id raw (not_stored server) >>= λ path.
      λ log. (inr (with_content server msg path raw), log)

  persist-stored :
      (msg : Message) (raw path : List ℕ) (log : List Call)
      → is_empty msg.parts ≡ false
      → encode (some (new_retrieve_conf msg.transaction_id (parts_to_pdu msg.parts))) ≡ ok raw
      → server.world.put msg.id raw log ≡ ok path
      → persist_local_content server msg local log
        ≡ (inr (with_content server msg path raw), put_content msg.id raw ∷ log)
  unfolding persist_local_content
  persist-stored msg raw path log some_ sent kept =
      rw (some_, persist_local_content)
        (ask-ok (λ l. encode (some (new_retrieve_conf msg.transaction_id (parts_to_pdu msg.parts))))
            (not_stored server) (store_content msg) log raw sent
          ∙ ap
              (λ r.
                continued (λ p. λ l. (inr (with_content server msg p raw), l))
                  (queried (not_stored server) (put_content msg.id raw ∷ log) r))
              kept)

  loaded :
      (reporter : Bool) (msg : Message) (raw : List ℕ) (q : Pdu) (received : List Part)
      (log : List Call)
      → msg.parts ≡ []
      → is_empty msg.content_path ≡ false
      → server.world.content msg.content_path log ≡ ok raw
      → decode raw ≡ ok q
      → q.body ≡ some (record { parts = received })
      → is_empty received ≡ false
      → load_parts server.world reporter msg log ≡ ok received
  unfolding load_parts stored_parts
  loaded reporter msg raw q received log bare path_ kept read body some_ =
      rw (bare, load_parts) (rw path_ (rw kept (rw read (rw (body, stored_parts) (rw some_ refl)))))

  -- A header is there exactly if its value is not empty.
  abbrev pub HeaderOf : List ℕ → List ℕ → Part → Type 0
  HeaderOf key [] p = TextMap.lookup key p.headers ≡ none
  HeaderOf key (c ∷ value) p = TextMap.lookup key p.headers ≡ some (c ∷ value)

  -- The part of a unit has the type, the data and the headers of the message's part.
  abbrev pub PartOf : Message.Part → Part → Type 0
  PartOf part p =
      (p.content_type ≡ part.content_type)
      × (p.content_type_params ≡ [])
      × (p.payload ≡ part.content)
      × HeaderOf (codes "content-id") part.content_id p
      × HeaderOf (codes "content-location") part.content_location p

  abbrev pub AllPartOf : List Message.Part → List Part → Type 0
  AllPartOf [] [] = Unit {0}
  AllPartOf [] (p ∷ ps) = ⊥
  AllPartOf (part ∷ parts) [] = ⊥
  AllPartOf (part ∷ parts) (p ∷ ps) = PartOf part p × AllPartOf parts ps

  with_id_header :
      (id location type content : List ℕ)
      → HeaderOf (codes "content-id") id (record {
        headers =
            or_insert_text
              (codes "content-location")
              location
              (or_insert_text (codes "content-id") id []);
        content_type = type;
        content_type_params = [];
        payload = content;
      })
  unfolding TextMap.insert TextMap.lookup
  with_id_header [] [] type content = refl
  with_id_header [] (c ∷ location) type content = refl
  with_id_header (c ∷ id) [] type content = refl
  with_id_header (c ∷ id) (d ∷ location) type content = refl

  with_location_header :
      (id location type content : List ℕ)
      → HeaderOf (codes "content-location") location (record {
        headers =
            or_insert_text
              (codes "content-location")
              location
              (or_insert_text (codes "content-id") id []);
        content_type = type;
        content_type_params = [];
        payload = content;
      })
  unfolding TextMap.insert TextMap.lookup
  with_location_header [] [] type content = refl
  with_location_header [] (c ∷ location) type content = refl
  with_location_header (c ∷ id) [] type content = refl
  with_location_header (c ∷ id) (d ∷ location) type content = refl

  parts_to_pdu-AllPartOf : (parts : List Message.Part) → AllPartOf parts (parts_to_pdu parts)
  unfolding parts_to_pdu
  parts_to_pdu-AllPartOf [] = tt
  parts_to_pdu-AllPartOf (part ∷ parts) = (
    (
      refl,
      refl,
      refl,
      with_id_header part.content_id part.content_location part.content_type part.content,
      with_location_header part.content_id part.content_location part.content_type part.content,
    ),
    parts_to_pdu-AllPartOf parts,
  )

  parts_to_pdu_some :
      (parts : List Message.Part) → is_empty parts ≡ false → is_empty (parts_to_pdu parts) ≡ false
  unfolding parts_to_pdu
  parts_to_pdu_some [] some_ = some_
  parts_to_pdu_some (part ∷ parts) some_ = refl

  strip_smil_parts_some :
      (parts : List Part) → is_empty parts ≡ false → is_empty (strip_smil_parts parts) ≡ false
  unfolding strip_smil_parts
  strip_smil_parts_some parts some_ = ground arith

  received_some :
      (parts received : List Part)
      → AllReceived parts received
      → is_empty parts ≡ false
      → is_empty received ≡ false
  received_some [] [] h some_ = some_
  received_some [] (q ∷ qs) h some_ = absurd h
  received_some (p ∷ ps) [] h some_ = absurd h
  received_some (p ∷ ps) (q ∷ qs) h some_ = refl

  -- A local message whose transaction id is a text and not empty, with at least one and fewer
  -- than 2^35 parts, each of them sendable, is stored by the submission under the path that
  -- the store answers; and where the store accepts whatever it is given, with a path that is
  -- not empty, and later returns for this path the bytes of the confirmation that was stored,
  -- loading the parts of the message at its retrieval, when it has only its path, gives in
  -- their order the parts of the message that are not SMIL, or all of them where every part is
  -- SMIL, each as a part of a unit with its Content-ID and Content-Location as headers, which
  -- comes back with the same data, no content type parameters, its media type in normal form
  -- (in lower case without white space around it, or application/octet-stream where that is no
  -- media type), and the value of each header under its key in lower case, that of a
  -- Content-ID in angle brackets.
  pub persisted-loaded :
      (reporter : Bool) (msg : Message) (path : List ℕ) (log after : List Call)
      → is_empty msg.transaction_id ≡ false
      → IsText msg.transaction_id
      → is_empty msg.parts ≡ false
      → All IsSendable (parts_to_pdu msg.parts)
      → length (parts_to_pdu msg.parts) < 2 ^ 35
      → is_empty path ≡ false
      → ((raw : List ℕ) → server.world.put msg.id raw log ≡ ok path)
      → ((raw : List ℕ)
          → encode (some (new_retrieve_conf msg.transaction_id (parts_to_pdu msg.parts))) ≡ ok raw
          → server.world.content path after ≡ ok raw)
      → (raw : List ℕ) × (sent : List Part) × (kept : List Part) × (received : List Part)
        × (persist_local_content server msg local log
            ≡ (inr (with_content server msg path raw), put_content msg.id raw ∷ log))
        × (load_parts server.world reporter
              (record (with_content server msg path raw) { parts = [] })
              after
            ≡ ok received)
        × AllPartOf msg.parts sent
        × IsDelivered sent kept
        × AllReceived kept received
  persisted-loaded reporter msg path log after a b some_ sendable few path_ kept returned =
      let (raw, q, received, sent, got, same, body, arrived) =
        new_retrieve_conf-received msg.transaction_id (parts_to_pdu msg.parts) a b sendable few in
      (
        raw,
        parts_to_pdu msg.parts,
        strip_smil_parts (parts_to_pdu msg.parts),
        received,
        persist-stored msg raw path log some_ sent (kept raw),
        loaded reporter (record (with_content server msg path raw) { parts = [] }) raw q received
            after refl path_ (returned raw sent) got body
            (received_some (strip_smil_parts (parts_to_pdu msg.parts)) received arrived
              (strip_smil_parts_some (parts_to_pdu msg.parts) (parts_to_pdu_some msg.parts some_))),
        parts_to_pdu-AllPartOf msg.parts,
        strip_smil_parts-IsDelivered (parts_to_pdu msg.parts),
        arrived,
      )
