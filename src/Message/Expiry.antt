-- ===== src/Message/Expiry.antt =====
-- internal/message/message.go: the expiry that every message gets, and its bounds.
use vectorcore_mmsc.Base.{
  ℕ, ◌+◌, ◌≤◌, Option, none, some, ltb, if◌then◌else◌, ◌≡◌, refl, ◌⊎◌, arith,
}
use vectorcore_mmsc.Message.{Message}

abbrev pub or_now : ℕ → Option ℕ → ℕ
or_now now none = now
or_now now (some t) = t

-- At most the ceiling.
abbrev pub clamp : ℕ → ℕ → ℕ
clamp ceiling t = if ltb ceiling t then ceiling else t

-- The function `ApplyDefaultExpiry`, at the time `now`.
unfoldable pub apply_default_expiry : ℕ → ℕ → ℕ → Message → Message
apply_default_expiry now default_expiry max_retention msg =
    let ref = or_now now msg.received_at in
    record msg {
      expiry = some (clamp (ref + max_retention) (or_now (ref + default_expiry) msg.expiry));
    }

-- The expiry that is asked for: the message's own, or the default.
abbrev pub asked : ℕ → ℕ → Message → ℕ
asked now default_expiry msg = or_now (or_now now msg.received_at + default_expiry) msg.expiry

abbrev pub ceiling : ℕ → ℕ → Message → ℕ
ceiling now max_retention msg = or_now now msg.received_at + max_retention

-- A message that was given its default expiry has an expiry, which is at most the one it asked
-- for (or the default) and at most the ceiling of the retention, and is one of these two.
pub apply_default_expiry_bounds :
    (now default_expiry max_retention : ℕ) (msg : Message)
    → (t : ℕ) × ((apply_default_expiry now default_expiry max_retention msg).expiry ≡ some t)
      × (t ≤ ceiling now max_retention msg)
      × (t ≤ asked now default_expiry msg)
      × ((t ≡ ceiling now max_retention msg) ⊎ (t ≡ asked now default_expiry msg))
unfolding apply_default_expiry
apply_default_expiry_bounds now default_expiry max_retention msg = (
  clamp (ceiling now max_retention msg) (asked now default_expiry msg),
  refl,
  ground arith,
  ground arith,
  ground arith,
)
