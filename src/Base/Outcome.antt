-- ===== src/Base/Outcome.antt =====
-- Go's (value, error) pair, with the errors that the parts of the program return.
use mathlib.Core.Path.{◌≡◌, refl}
use mathlib.Core.Logic.{◌⊎◌, inl, inr}

-- `eof` is `io.EOF`; the next five are the error variables of mmspdu/fields.go. The others stand
-- for the messages that the code builds by `fmt.Errorf` or `errors.New`.
pub data Error : Type 0 where
  panicked eof short_data invalid_integer invalid_uintvar invalid_text insert_address : Error
  text_header_name unsupported_kind empty_value nil_pdu not_textual bad_token : Error
  not_integer not_content_type unknown_token bad_value_length : Error
  no_content_type too_many_parts missing_part_headers : Error
  unexpected_eof bad_command_length unsupported_command body_too_large : Error
  empty_push too_many_segments short_push bad_pdu_type push_truncated : Error
  repository_failed mixed_destinations multiple_peers : Error
  empty_receipt unsupported_receipt invalid_receipt_time : Error
  bind_mismatch bind_rejected no_connection connection_closed session_closed : Error
  response_mismatch no_upstream submit_failed enquire_link_failed : Error
  no_rows no_content_path no_stored_parts : Error

-- The value, or the error that was returned in its place.
pub data Result {ℓ} (V : Type ℓ) : Type ℓ where
  err : Error → Result V
  ok : V → Result V

-- `if err != nil { return err }` between a call and what uses its value.
infixl 5 ◌>>=◌
abbrev pub ◌>>=◌ {κ ℓ} : {V : Type κ} {W : Type ℓ} → Result V → (V → Result W) → Result W
err failure >>= next = err failure
ok v >>= next = next v

-- A value is tried, and on its error the next one: `if v, err := f(x); err == nil { return v }`.
abbrev pub or_else {ℓ} : {A : Type ℓ} → Result A → Result A → Result A
or_else (ok a) r = ok a
or_else (err e) r = r

pub Result-cases {ℓ} :
    {A : Type ℓ} (r : Result A) → ((a : A) × (r ≡ ok a)) ⊎ ((e : Error) × (r ≡ err e))
Result-cases (ok a) = inl (a, refl)
Result-cases (err e) = inr (e, refl)

-- A call whose value reached what follows has returned it.
pub ok_before {κ ℓ} :
    {V : Type κ} {W : Type ℓ} (call : Result V) (next : V → Result W) {w : W}
    → (call >>= next) ≡ ok w
    → (v : V) × (call ≡ ok v) × (next v ≡ ok w)
ok_before (err failure) next returned = cc
ok_before (ok v) next returned = (v, refl, returned)
