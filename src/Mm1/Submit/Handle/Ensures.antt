-- ===== src/Mm1/Submit/Handle/Ensures.antt =====
-- Handlers that answer early only to refuse, and what the steps of internal/mm1/handler_mo.go go on with.
use vectorcore_mmsc.Base.{
  ℕ, ◌≤◌, List, [], ◌∷◌, is_empty, some, Bool, true, false, not, ◌&&◌, Result, ok, err, Error,
  Result-cases, Bool-cases, Option-cases, ◌≡◌, ◌⊎◌, inl, inr, refl, arith,
}
use vectorcore_mmsc.Message.{Message}
use vectorcore_mmsc.Mmspdu.Codec.{Pdu, encode}
use vectorcore_mmsc.Mmspdu.Messages.{new_send_conf, new_retrieve_conf}
use vectorcore_mmsc.Routing.Engine.{Destination}
use vectorcore_mmsc.Service.{Call, put_content}
use vectorcore_mmsc.Mm1.{
  Response, failure, no_content, served, Handler, continued, queried, ◌>>=◌, ask,
}
use vectorcore_mmsc.Mm1.Retrieve.{parts_to_pdu}
use vectorcore_mmsc.Mm1.Submit.Handle.{
  Server, put, require, refused, apply_adaptation, with_parts, not_stored, with_content, is_local,
  persist_local_content, too_large,
}

-- An answer that is an error, or a confirmation whose status is that the message is too large.
abbrev pub IsRefusal : Response → Type 0
IsRefusal (failure code text) = 400 ≤ code
IsRefusal no_content = ⊥
IsRefusal (served bytes) =
    (transaction_id : List ℕ) × (encode (some (new_send_conf transaction_id [] 0x93)) ≡ ok bytes)

-- A handler answers early only to refuse, and what it goes on with has the property.
abbrev pub Ended : {A : Type 0} → (A → Type 0) → Response ⊎ A → Type 0
Ended P (inl response) = IsRefusal response
Ended P (inr a) = P a

pub record Ensures {A : Type 0} (m : Handler A) (P : A → Type 0) : Type 0 where
  pub ends : (log : List Call) → Ended P (m log).0

module _ {A B : Type 0} (m : Handler A) (f : A → Handler B) (P : A → Type 0) (Q : B → Type 0)
    (h : Ensures m P) (k : (a : A) → P a → Ensures (f a) Q) where
  Ended-continued : (out : (Response ⊎ A) × List Call) → Ended P out.0 → Ended Q (continued f out).0
  Ended-continued (inl response, after) p = p
  Ended-continued (inr a, after) p = (k a p).ends after

  pub bind-Ensures : Ensures (m >>= f) Q
  bind-Ensures = record { ends = λ log. Ended-continued (m log) (h.ends log) }

pub pure-Ensures : {A : Type 0} (a : A) (P : A → Type 0) → P a → Ensures (λ log. (inr a, log)) P
pure-Ensures a P p = record { ends = λ log. p }

queried-Ended :
    {A : Type 0} (on_error : Error → Response) (log : List Call) (r : Result A)
    → ((e : Error) → IsRefusal (on_error e))
    → Ended (λ a. r ≡ ok a) (queried on_error log r).0
queried-Ended on_error log (ok a) h = refl
queried-Ended on_error log (err e) h = h e

-- A query: its value is what is returned after some calls.
pub ask-Ensures :
    {A : Type 0} (query : List Call → Result A) (on_error : Error → Response)
    → ((e : Error) → IsRefusal (on_error e))
    → Ensures (ask query on_error) (λ a. Unit {0})
ask-Ensures query on_error h = record {
  ends = λ log.
      some_end (query log) (queried on_error log (query log)).0
        (queried-Ended on_error log (query log) h);
}
  where
    some_end :
        {A : Type 0} (r : Result A) (out : Response ⊎ A)
        → Ended (λ a. r ≡ ok a) out
        → Ended (λ a. Unit {0}) out
    some_end r (inl response) h = h
    some_end r (inr a) h = tt

-- A computation beside the calls: its value.
pub lift-Ensures :
    {A : Type 0} (r : Result A) (on_error : Error → Response)
    → ((e : Error) → IsRefusal (on_error e))
    → Ensures (ask (λ log. r) on_error) (λ a. r ≡ ok a)
lift-Ensures r on_error h = record { ends = λ log. queried-Ended on_error log r h }

module _ (server : Server) where
  pub require-Ensures :
      (holds : Bool) (response : Response)
      → IsRefusal response
      → Ensures (require server holds response) (λ u. holds ≡ true)
  require-Ensures true response h = record { ends = λ log. refl }
  require-Ensures false response h = record { ends = λ log. h }

  pub put-Ensures :
      (key bytes : List ℕ) (on_error : Error → Response)
      → ((e : Error) → IsRefusal (on_error e))
      → Ensures (put server key bytes on_error) (λ path. Unit {0})
  put-Ensures key bytes on_error h = record {
    ends = λ log. put_end log (server.world.put key bytes log);
  }
    where
      put_end :
          (log : List Call) (r : Result (List ℕ))
          → Ended (λ path. Unit {0}) (queried on_error (put_content key bytes ∷ log) r).0
      put_end log (ok path) = tt
      put_end log (err e) = h e

  pub too_large-IsRefusal : (pdu : Pdu) → IsRefusal (too_large server pdu)
  unfolding too_large
  too_large-IsRefusal pdu =
      elim (Result-cases (encode (some (new_send_conf pdu.transaction_id [] 0x93)))) [
        | inl (bytes, sent) ↦ rw (sent, too_large) (pdu.transaction_id, sent)
        | inr (e, failed) ↦ rw (failed, too_large) (omega arith)
      ]

  -- What a message keeps as its parts are adapted and stored.
  abbrev pub SameMessage : Message → Message → Type 0
  SameMessage a b = (a.id ≡ b.id) × (a.transaction_id ≡ b.transaction_id) × (a.status ≡ b.status)

  pub apply_adaptation-Ensures :
      (msg : Message) (destination : Destination)
      → Ensures (apply_adaptation server msg destination) (λ m. SameMessage m msg)
  unfolding apply_adaptation
  apply_adaptation-Ensures msg destination = elim (Option-cases server.adapt) [
    | inl absent ↦ rw (absent, apply_adaptation) (pure-Ensures msg _ (refl, refl, refl))
    | inr (adapt, present) ↦ elim (Bool-cases (is_local destination)) [
      | inr away ↦ rw (present, apply_adaptation) (rw away (pure-Ensures msg _ (refl, refl, refl)))
      | inl here ↦
          rw (present, apply_adaptation)
            (rw here (
              bind-Ensures (ask (adapt msg.parts) (refused server 422 [])) _ (λ parts. Unit {0}) _
                (ask-Ensures (adapt msg.parts) (refused server 422 []) (λ e. omega arith))
                (λ parts u. pure-Ensures (with_parts server msg parts) _ (refl, refl, refl))))
    ]
  ]

  pub persist_local_content-Ensures :
      (msg : Message) (destination : Destination)
      → Ensures (persist_local_content server msg destination) (λ m. SameMessage m msg)
  unfolding persist_local_content
  persist_local_content-Ensures msg destination =
      elim (Bool-cases (is_local destination && not (is_empty msg.parts))) [
        | inr away ↦ rw (away, persist_local_content) (pure-Ensures msg _ (refl, refl, refl))
        | inl here ↦
            rw (here, persist_local_content)
              (bind-Ensures
                (ask
                  (λ log.
                    encode (some (new_retrieve_conf msg.transaction_id (parts_to_pdu msg.parts))))
                  (not_stored server))
                _ (λ raw. Unit {0}) _ (ask-Ensures _ (not_stored server) (λ e. omega arith))
                (λ raw u.
                  bind-Ensures (put server msg.id raw (not_stored server)) _ (λ path. Unit {0}) _
                    (put-Ensures msg.id raw (not_stored server) (λ e. omega arith))
                    (λ path v.
                      pure-Ensures (with_content server msg path raw) _ (refl, refl, refl))))
      ]
