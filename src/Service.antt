-- ===== src/Service.antt =====
-- What the parts that handle messages call: the repository (internal/db/repository.go), the store,
-- the push sender and the relays, none of which they look into.
use vectorcore_mmsc.Base.{ℕ, List, ◌∷◌, Option, Result, ok, err}
use vectorcore_mmsc.Message.{Message, Status}

-- The type `MessageEvent`, with the kind in the field `Type`.
pub record Event : Type 0 where
  pub message_id : List ℕ
  pub source : List ℕ
  pub kind : List ℕ
  pub summary : List ℕ
  pub detail : List ℕ

-- A call that changes something. `submit_push` names the message where the sender is a tracked one.
pub data Call : Type 0 where
  update_status : List ℕ → Status → Call
  append_event : Event → Call
  create_message : Message → Call
  delete_message : List ℕ → Call
  put_content : List ℕ → List ℕ → Call
  delete_content : List ℕ → Call
  submit_push : Option (List ℕ) → List ℕ → List ℕ → List ℕ → Call
  send_delivery_report : Message → Status → Call
  send_read_reply : Message → Call
  send_mm4 : Message → Call
  send_mm3 : Message → Call

-- What the calls return. Each answer may depend on all the calls that were made before, the newest
-- first.
pub record World : Type 0 where
  pub message : List ℕ → List Call → Result Message
  pub message_by_transaction : List ℕ → List Call → Result Message
  pub queued_messages : List Call → Result (List Message)
  pub expired_messages : ℕ → List Call → Result (List Message)
  pub content : List ℕ → List Call → Result (List ℕ)
  pub put : List ℕ → List ℕ → List Call → Result (List ℕ)
  pub outcome : Call → List Call → Result (Unit {0})

-- A computation over the calls made so far.
abbrev pub Action : Type 0 → Type 0
Action A = List Call → Result A × List Call

infixl 5 ◌>>=◌ ◌>>◌
abbrev pub ◌>>=◌ : {A B : Type 0} → Action A → (A → Action B) → Action B
◌>>=◌ m f log = let (r, log') = m log in elim r [ ok a ↦ f a log' | err e ↦ (err e, log') ]

abbrev pub ◌>>◌ : {A B : Type 0} → Action A → Action B → Action B
m >> k = m >>= λ _. k

abbrev pub pure : {A : Type 0} → A → Action A
pure a log = (ok a, log)

abbrev pub lift : {A : Type 0} → Result A → Action A
lift r log = (r, log)

-- A call whose error is returned.
abbrev pub perform : World → Call → Action (Unit {0})
perform w c log = (w.outcome c log, c ∷ log)

-- A call whose error is dropped, as in `_ = f()`.
abbrev pub perform_ : World → Call → Action (Unit {0})
perform_ w c log = (ok tt, c ∷ log)
