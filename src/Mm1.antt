-- ===== src/Mm1.antt =====
-- internal/mm1: the answers of the handlers, and computations that may answer early.
pub mod Report
pub mod Retrieve
pub mod Submit
pub mod Serve
use vectorcore_mmsc.Base.{ℕ, List, [], ◌∷◌, ◌⊎◌, inl, inr, Result, ok, err, Error, ◌≡◌, refl, ap}
use vectorcore_mmsc.Service.{Call, World}

-- What a handler writes: `http.Error` with its status and text, 204 without a body, or 200 with a unit.
pub data Response : Type 0 where
  failure : ℕ → List ℕ → Response
  no_content : Response
  served : List ℕ → Response

-- A computation that goes on with a value, or has answered, after the calls made so far.
abbrev pub Handler : Type 0 → Type 0
Handler A = List Call → (Response ⊎ A) × List Call

abbrev pub continued :
    {A B : Type 0} → (A → Handler B) → (Response ⊎ A) × List Call → (Response ⊎ B) × List Call
continued f (inl response, log) = (inl response, log)
continued f (inr a, log) = f a log

infixl 5 ◌>>=◌ ◌>>◌
abbrev pub ◌>>=◌ : {A B : Type 0} → Handler A → (A → Handler B) → Handler B
◌>>=◌ m f log = continued f (m log)

abbrev pub ◌>>◌ : {A B : Type 0} → Handler A → Handler B → Handler B
m >> k = m >>= λ _. k

abbrev pub answer : {A : Type 0} → Response → Handler A
answer response log = (inl response, log)

-- `if err != nil { http.Error(...); return }` behind a query, and behind a call.
abbrev pub queried :
    {A : Type 0} → (Error → Response) → List Call → Result A → (Response ⊎ A) × List Call
queried on_error log (ok a) = (inr a, log)
queried on_error log (err e) = (inl (on_error e), log)

abbrev pub ask : {A : Type 0} → (List Call → Result A) → (Error → Response) → Handler A
ask query on_error log = queried on_error log (query log)

abbrev ended : Response → List Call → Result (Unit {0}) → (Response ⊎ Unit {0}) × List Call
ended on_error log r = elim r [ ok u ↦ (inr tt, log) | err e ↦ (inl on_error, log) ]

abbrev pub attempt : World → Call → Response → Handler (Unit {0})
attempt w c on_error log = ended on_error (c ∷ log) (w.outcome c log)

-- What follows a query or a call goes on with its value, and not after an error.
module _ {A B : Type 0} where
  pub ask-ok :
      (query : List Call → Result A) (on_error : Error → Response) (next : A → Handler B)
      (log : List Call) (a : A)
      → query log ≡ ok a
      → (ask query on_error >>= next) log ≡ next a log
  ask-ok query on_error next log a found = ap (λ r. (ask (λ l. r) on_error >>= next) log) found

  pub ask-err :
      (query : List Call → Result A) (on_error : Error → Response) (next : A → Handler B)
      (log : List Call) (e : Error)
      → query log ≡ err e
      → (ask query on_error >>= next) log ≡ (inl (on_error e), log)
  ask-err query on_error next log e refused = ap (λ r. (ask (λ l. r) on_error >>= next) log) refused

module _ {B : Type 0} (w : World) (c : Call) (on_error : Response) (next : Handler B)
    (log : List Call) where
  pub attempt-ok : w.outcome c log ≡ ok tt → (attempt w c on_error >> next) log ≡ next (c ∷ log)
  attempt-ok accepted = ap (λ r. ((λ l. ended on_error (c ∷ log) r) >> next) log) accepted

  pub attempt-err :
      (e : Error)
      → w.outcome c log ≡ err e
      → (attempt w c on_error >> next) log ≡ (inl on_error, c ∷ log)
  attempt-err e refused = ap (λ r. ((λ l. ended on_error (c ∷ log) r) >> next) log) refused
