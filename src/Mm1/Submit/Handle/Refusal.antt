-- ===== src/Mm1/Submit/Handle/Refusal.antt =====
-- When internal/mm1/handler_mo.go takes a submitted unit for a message.
use vectorcore_mmsc.Base.{
  ℕ, ◌≤◌, List, [], ◌∷◌, length, is_empty, Option, none, some, Bool, true, false, not, leb, ok, ◌≡◌,
  ◌⊎◌, inr, refl, sym, ap, ◌∙◌, arith,
}
use vectorcore_mmsc.Base.Text.{codes}
use vectorcore_mmsc.Message.{Message, Status, queued, forwarded, rejected}
use vectorcore_mmsc.Message.Expiry.{apply_default_expiry}
use vectorcore_mmsc.Mmspdu.Multipart.{Part, MultipartBody}
use vectorcore_mmsc.Mmspdu.Types.{field_to}
use vectorcore_mmsc.Mmspdu.Codec.{Pdu, decode}
use vectorcore_mmsc.Routing.Engine.{
  Destination, unknown, local, mm4, mm3, reject, resolve_recipients,
}
use vectorcore_mmsc.Mm1.{failure, ◌>>=◌, ◌>>◌, ask}
use vectorcore_mmsc.Mm1.Submit.{
  sender_address_from_request, header_text, strip_type_suffix, message_of, to_message_part_list,
  to_message_parts, status_for,
}
use vectorcore_mmsc.Mm1.Submit.Handle.{
  Server, Request, put, require, refused, bad, to_message, apply_adaptation, persist_local_content,
  is_submission, fits, too_large, prepare,
}
use vectorcore_mmsc.Mm1.Submit.Handle.Ensures.{
  Ensures, bind-Ensures, pure-Ensures, ask-Ensures, lift-Ensures, require-Ensures, put-Ensures,
  too_large-IsRefusal, SameMessage, apply_adaptation-Ensures, persist_local_content-Ensures,
}

module _ (server : Server) where
  -- The status by the destination: a message for another centre counts as forwarded at once.
  abbrev pub StartsAs : Destination → Status → Type 0
  StartsAs reject s = s ≡ rejected
  StartsAs mm4 s = s ≡ forwarded
  StartsAs mm3 s = s ≡ forwarded
  StartsAs local s = s ≡ queued
  StartsAs unknown s = s ≡ queued

  starts_as_lem : (d : Destination) → StartsAs d (status_for d)
  unfolding status_for
  starts_as_lem reject = refl
  starts_as_lem mm4 = refl
  starts_as_lem mm3 = refl
  starts_as_lem local = refl
  starts_as_lem unknown = refl

  StartsAs-same : (d : Destination) (s t : Status) → StartsAs d s → t ≡ s → StartsAs d t
  StartsAs-same reject s t h e = e ∙ h
  StartsAs-same mm4 s t h e = e ∙ h
  StartsAs-same mm3 s t h e = e ∙ h
  StartsAs-same local s t h e = e ∙ h
  StartsAs-same unknown s t h e = e ∙ h

  -- The message has the id of the request and the transaction id of the unit, and starts with the
  -- status of its destination.
  abbrev pub IsMade : Request → Pdu → Message × Destination → Type 0
  IsMade request pdu made =
      (made.0.id ≡ request.new_id)
      × (made.0.transaction_id ≡ pdu.transaction_id)
      × StartsAs made.1 made.0.status

  -- The unit has a body with a part.
  abbrev pub HasParts : Pdu → Type 0
  HasParts pdu =
      (part : Part) × (parts : List Part) × (pdu.body ≡ some (record { parts = part ∷ parts }))

  some_part :
      (ps : List Part)
      → is_empty (to_message_part_list ps) ≡ false
      → (part : Part) × (parts : List Part) × (◌≡◌ {A = Option MultipartBody}
          (some (record { parts = ps }))
          (some (record { parts = part ∷ parts })))
  some_part [] h = absurd (cc)
  some_part (part ∷ parts) h = (part, parts, refl)

  some_body :
      (o : Option MultipartBody)
      → is_empty (elim o [ none ↦ [] | some body ↦ to_message_part_list body.parts ]) ≡ false
      → (part : Part) × (parts : List Part) × (o ≡ some (record { parts = part ∷ parts }))
  some_body none h = absurd (cc)
  some_body (some body) h = some_part body.parts h

  HasParts-body : (pdu : Pdu) → is_empty (to_message_parts pdu) ≡ false → HasParts pdu
  unfolding to_message_parts
  HasParts-body pdu h = some_body pdu.body h

  message_of-IsMade :
      (request : Request) (pdu : Pdu) (path from to : List ℕ) (d : Destination)
      → IsMade request pdu
          (message_of request.now server.limits request.new_id path from to d pdu request.body, d)
  unfolding message_of apply_default_expiry
  message_of-IsMade request pdu path from to d = (refl, refl, starts_as_lem d)

  message_of-parts :
      (request : Request) (pdu : Pdu) (path from to : List ℕ) (d : Destination)
      → (message_of request.now server.limits request.new_id path from to d pdu request.body).parts
        ≡ to_message_parts pdu
  unfolding message_of apply_default_expiry
  message_of-parts request pdu path from to d = refl

  not-true : (b : Bool) → not b ≡ true → b ≡ false
  not-true b h = ground arith

  -- The end of `toMessage`: a message without parts is refused.
  with_parts-Ensures :
      (request : Request) (pdu : Pdu) (path from to : List ℕ) (d : Destination)
      → let msg =
          message_of request.now server.limits request.new_id path from to d pdu request.body in
        Ensures
          (require server (not (is_empty msg.parts)) (failure 400 (codes "missing message content"))
            >> (λ log. (inr (msg, d), log)))
          (λ made. IsMade request pdu made × HasParts pdu)
  with_parts-Ensures request pdu path from to d =
      let msg =
        message_of request.now server.limits request.new_id path from to d pdu request.body in
      bind-Ensures
        (require server (not (is_empty msg.parts)) (failure 400 (codes "missing message content")))
        _ (λ u. not (is_empty msg.parts) ≡ true) _ (require-Ensures server _ _ (omega arith))
        (λ u some_.
          pure-Ensures (msg, d) _
            (
              message_of-IsMade request pdu path from to d,
              HasParts-body pdu (
                  ap is_empty (sym (message_of-parts request pdu path from to d))
                  ∙ not-true _ some_),
            ))

  to_message-Ensures :
      (request : Request) (pdu : Pdu)
      → Ensures (to_message server request pdu) (λ made. IsMade request pdu made × HasParts pdu)
  unfolding to_message
  to_message-Ensures request pdu =
      bind-Ensures
        (ask (λ log. sender_address_from_request request.header pdu)
          (refused server 400 (codes "missing from: ")))
        _ (λ from. Unit {0}) _ (ask-Ensures _ _ (λ e. omega arith))
        (λ from u0.
          bind-Ensures
            (ask (λ log. header_text pdu field_to) (refused server 400 (codes "missing to: "))) _
            (λ to. Unit {0}) _ (ask-Ensures _ _ (λ e. omega arith))
            (λ to u1.
              bind-Ensures
                (put server request.new_id request.body
                  (refused server 400 (codes "store payload: ")))
                _ (λ path. Unit {0}) _
                (put-Ensures server request.new_id request.body _ (λ e. omega arith))
                (λ path u2.
                  bind-Ensures
                    (ask
                      (λ log. resolve_recipients ((server.routes log, strip_type_suffix to) ∷ []))
                      (refused server 400 (codes "route message: ")))
                    _ (λ result. Unit {0}) _ (ask-Ensures _ _ (λ e. omega arith))
                    (λ result u3. with_parts-Ensures request pdu path from to result.destination))))

  -- The unit of the request is a submission that fits the limits and has a part, and the message is
  -- made of it.
  abbrev pub IsFit : Request → Pdu × (Message × Destination) → Type 0
  IsFit request made =
      (length request.body ≤ server.limits.max_body_size)
      × (decode request.body ≡ ok made.0)
      × ((made.0.message_type ≡ 0x80) ⊎ (made.0.message_type ≡ 0x89))
      × ((server.limits.max_message_size ≡ 0)
          ⊎ (length request.body ≤ server.limits.max_message_size))
      × HasParts made.0
      × IsMade request made.0 made.1

  submission_type :
      (pdu : Pdu)
      → is_submission server pdu ≡ true
      → (pdu.message_type ≡ 0x80) ⊎ (pdu.message_type ≡ 0x89)
  submission_type pdu h = ground arith

  fits_limit : (limit size : ℕ) → fits server limit size ≡ true → (limit ≡ 0) ⊎ (size ≤ limit)
  fits_limit limit size h = ground arith

  body_fits : (limit size : ℕ) → leb size limit ≡ true → size ≤ limit
  body_fits limit size h = ground arith

  -- The end of the preparation: the message is made, adapted and stored.
  made-Ensures :
      (request : Request) (pdu : Pdu)
      → length request.body ≤ server.limits.max_body_size
      → decode request.body ≡ ok pdu
      → (pdu.message_type ≡ 0x80) ⊎ (pdu.message_type ≡ 0x89)
      → (server.limits.max_message_size ≡ 0)
        ⊎ (length request.body ≤ server.limits.max_message_size)
      → Ensures
          (to_message server request pdu >>= λ made.
            apply_adaptation server made.0 made.1 >>= λ adapted.
            persist_local_content server adapted made.1 >>= λ msg.
            λ log. (inr (pdu, (msg, made.1)), log))
          (IsFit request)
  made-Ensures request pdu small decoded typed fitting =
      bind-Ensures (to_message server request pdu) _
        (λ made. IsMade request pdu made × HasParts pdu) _ (to_message-Ensures request pdu)
        (λ made made_ok.
          bind-Ensures (apply_adaptation server made.0 made.1) _ (λ m. SameMessage server m made.0)
            _ (apply_adaptation-Ensures server made.0 made.1)
            (λ adapted same.
              bind-Ensures (persist_local_content server adapted made.1) _
                (λ m. SameMessage server m adapted) _
                (persist_local_content-Ensures server adapted made.1)
                (λ msg same'.
                  pure-Ensures (pdu, (msg, made.1)) _
                    (
                      small,
                      decoded,
                      typed,
                      fitting,
                      made_ok.1,
                      (
                        same'.0 ∙ same.0 ∙ made_ok.0.0,
                        same'.1 ∙ same.1 ∙ made_ok.0.1,
                        StartsAs-same made.1 made.0.status msg.status made_ok.0.2
                            (same'.2 ∙ same.2),
                      ),
                    ))))

  pub prepare-Ensures : (request : Request) → Ensures (prepare server request) (IsFit request)
  unfolding prepare
  prepare-Ensures request =
      bind-Ensures
        (require server (leb (length request.body) server.limits.max_body_size)
          (failure 400 (codes "invalid body")))
        _ (λ u. leb (length request.body) server.limits.max_body_size ≡ true) _
        (require-Ensures server _ _ (omega arith))
        (λ u0 small.
          bind-Ensures (ask (λ log. decode request.body) (bad server (codes "invalid mms pdu"))) _
            (λ pdu. decode request.body ≡ ok pdu) _
            (lift-Ensures (decode request.body) _ (λ e. omega arith))
            (λ pdu decoded.
              bind-Ensures
                (require server (is_submission server pdu)
                  (failure 400 (codes "unsupported message type")))
                _ (λ u. is_submission server pdu ≡ true) _
                (require-Ensures server _ _ (omega arith))
                (λ u1 typed.
                  bind-Ensures
                    (require server
                      (fits server server.limits.max_message_size (length request.body))
                      (too_large server pdu))
                    _ (λ u. fits server server.limits.max_message_size (length request.body) ≡ true)
                    _ (require-Ensures server _ _ (too_large-IsRefusal server pdu))
                    (λ u2 fitting.
                      made-Ensures request pdu (body_fits _ _ small) decoded
                        (submission_type pdu typed) (fits_limit _ _ fitting)))))
