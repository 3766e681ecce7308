-- ===== src/Mm1/Submit/Handle/Laws.antt =====
-- The order of what internal/mm1/handler_mo.go does with a submitted unit.
use vectorcore_mmsc.Base.{
  ℕ, List, ◌∷◌, Bool, true, false, if◌then◌else◌, Result, ok, err, Error, Option-cases, ◌⊎◌, inl,
  inr,
}
use vectorcore_mmsc.Message.{Message}
use vectorcore_mmsc.Mmspdu.Codec.{Pdu}
use vectorcore_mmsc.Routing.Engine.{Destination}
use vectorcore_mmsc.Service.{Call, put_content}
use vectorcore_mmsc.Mm1.{Response, Handler, continued, queried, ◌>>=◌, ask}
use vectorcore_mmsc.Mm1.Submit.Handle.{
  Server, Request, put, require, to_message, apply_adaptation, persist_local_content, prepare,
}

-- Nothing but writes to the store was called in between.
pub data Writes (log : List Call) : List Call → Type 0 where
  none_yet : Writes log log
  wrote :
      (key bytes : List ℕ) {after : List Call}
      → Writes log after
      → Writes log (put_content key bytes ∷ after)

Writes-trans : {a b c : List Call} → Writes a b → Writes b c → Writes a c
Writes-trans p none_yet = p
Writes-trans p (wrote key bytes q) = wrote key bytes (Writes-trans p q)

-- A handler that calls nothing but writes to the store.
pub record OnlyWrites {A : Type 0} (m : Handler A) : Type 0 where
  pub field_writes : (log : List Call) → Writes log (m log).1

module _ {A B : Type 0} (m : Handler A) (f : A → Handler B) (h : OnlyWrites m)
    (k : (a : A) → OnlyWrites (f a)) where
  go_on :
      (log : List Call) (out : (Response ⊎ A) × List Call)
      → Writes log out.1
      → Writes log (continued f out).1
  go_on log (inl response, after) p = p
  go_on log (inr a, after) p = Writes-trans p ((k a).field_writes after)

  bind-OnlyWrites : OnlyWrites (m >>= f)
  bind-OnlyWrites = record { field_writes = λ log. go_on log (m log) (h.field_writes log) }

queried-Writes :
    {A : Type 0} (on_error : Error → Response) (before log : List Call) (r : Result A)
    → Writes before log
    → Writes before (queried on_error log r).1
queried-Writes on_error before log (ok a) p = p
queried-Writes on_error before log (err e) p = p

ask-OnlyWrites :
    {A : Type 0} (query : List Call → Result A) (on_error : Error → Response)
    → OnlyWrites (ask query on_error)
ask-OnlyWrites query on_error = record {
  field_writes = λ log. queried-Writes on_error log log (query log) none_yet;
}

pure-OnlyWrites : {A : Type 0} (a : A) → OnlyWrites (λ log. (inr a, log))
pure-OnlyWrites a = record { field_writes = λ log. none_yet }

if-OnlyWrites :
    {A : Type 0} (b : Bool) (m n : Handler A)
    → OnlyWrites m
    → OnlyWrites n
    → OnlyWrites (if b then m else n)
if-OnlyWrites true m n p q = p
if-OnlyWrites false m n p q = q

module _ (server : Server) where
  require-OnlyWrites :
      (holds : Bool) (response : Response) → OnlyWrites (require server holds response)
  require-OnlyWrites true response = record { field_writes = λ log. none_yet }
  require-OnlyWrites false response = record { field_writes = λ log. none_yet }

  put-OnlyWrites :
      (key bytes : List ℕ) (on_error : Error → Response)
      → OnlyWrites (put server key bytes on_error)
  put-OnlyWrites key bytes on_error = record {
    field_writes = λ log.
        queried-Writes on_error log (put_content key bytes ∷ log) (server.world.put key bytes log)
          (wrote key bytes none_yet);
  }

  ruleset write_rules = (
    bind-OnlyWrites, ask-OnlyWrites, require-OnlyWrites, put-OnlyWrites, pure-OnlyWrites,
    if-OnlyWrites,
  )

  to_message-OnlyWrites :
      (request : Request) (pdu : Pdu) → OnlyWrites (to_message server request pdu)
  unfolding to_message
  to_message-OnlyWrites request pdu = search write_rules depth 9

  apply_adaptation-OnlyWrites :
      (msg : Message) (destination : Destination)
      → OnlyWrites (apply_adaptation server msg destination)
  unfolding apply_adaptation
  apply_adaptation-OnlyWrites msg destination = elim (Option-cases server.adapt) [
    | inl absent ↦ rw (absent, apply_adaptation) (pure-OnlyWrites msg)
    | inr (adapt, present) ↦ rw (present, apply_adaptation) (search write_rules depth 9)
  ]

  persist_local_content-OnlyWrites :
      (msg : Message) (destination : Destination)
      → OnlyWrites (persist_local_content server msg destination)
  unfolding persist_local_content
  persist_local_content-OnlyWrites msg destination = search write_rules depth 9

  pub prepare-OnlyWrites : (request : Request) → OnlyWrites (prepare server request)
  unfolding prepare
  prepare-OnlyWrites request =
      search
        (
          write_rules, to_message-OnlyWrites, apply_adaptation-OnlyWrites,
          persist_local_content-OnlyWrites,
        )
        depth 12
