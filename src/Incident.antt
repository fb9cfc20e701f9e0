-- ===== src/Incident.antt =====
-- internal/incident/model: the incident, its status and its fingerprint.
pub mod Event
pub mod StateMachine
pub mod Store
pub mod Service
use go_on_call_agent.Prelude.{
  ap, sym, ◌∙◌, ℕ, String, Bool, true, false, Option, none, some, List, [], ◌∷◌, ◌&&◌, ◌||◌, ◌==◌,
  str_eq, ◌<>◌, ◌+◌, ◌%◌, ◌^◌, if◌then◌else◌, not, ◌≡◌, ◌≢◌, refl, arith, eq_iff, ◌↔◌,
}

-- `raw s` is a status whose text is none of the constants, such as the empty text.
pub data Status : Type 0 where
  opened investigating need_approval waiting_approval mitigating : Status
  verifying resolved failed cancelled : Status
  raw : String → Status

abbrev pub status_text : Status → String
status_text opened = "OPEN"
status_text investigating = "INVESTIGATING"
status_text need_approval = "NEED_APPROVAL"
status_text waiting_approval = "WAITING_APPROVAL"
status_text mitigating = "MITIGATING"
status_text verifying = "VERIFYING"
status_text resolved = "RESOLVED"
status_text failed = "FAILED"
status_text cancelled = "CANCELLED"
status_text (raw s) = s

-- The conversion Status(s).
unfoldable pub to_status : String → Status
to_status s =
    if str_eq s "OPEN"
    then opened
    else if str_eq s "INVESTIGATING"
    then investigating
    else if str_eq s "NEED_APPROVAL"
    then need_approval
    else if str_eq s "WAITING_APPROVAL"
    then waiting_approval
    else if str_eq s "MITIGATING"
    then mitigating
    else if str_eq s "VERIFYING"
    then verifying
    else if str_eq s "RESOLVED"
    then resolved
    else if str_eq s "FAILED"
    then failed
    else if str_eq s "CANCELLED"
    then cancelled
    else raw s

abbrev pub status_index : Status → ℕ
status_index opened = 0
status_index investigating = 1
status_index need_approval = 2
status_index waiting_approval = 3
status_index mitigating = 4
status_index verifying = 5
status_index resolved = 6
status_index failed = 7
status_index cancelled = 8
status_index (raw s) = 9

abbrev pub raw_text : Status → String
raw_text (raw s) = s
raw_text _ = ""

-- Go's `==` on two statuses.
unfoldable pub status_eq : Status → Status → Bool
status_eq a b = (status_index a == status_index b) && str_eq (raw_text a) (raw_text b)

-- Status.Valid
abbrev pub valid : Status → Bool
valid (raw s) = false
valid _ = true

-- Status.IsTerminal
unfoldable pub is_terminal : Status → Bool
unfolding status_eq
is_terminal s = status_eq s resolved || status_eq s failed || status_eq s cancelled

-- Version is an int64, kept here as its bit pattern; the increment wraps.
abbrev pub next_version : ℕ → ℕ
next_version v = (v + 1) % 2 ^ 64

-- Times are instants on one clock.
pub record Incident : Type 0 where
  pub id : String
  pub service : String
  pub severity : String
  pub title : String
  pub description : String
  pub alert_name : String
  pub fingerprint : String
  pub status : Status
  pub started_at : ℕ
  pub resolved_at : Option ℕ
  pub created_at : ℕ
  pub updated_at : ℕ
  pub version : ℕ

-- The identity key that `Fingerprint` hashes; the zero byte separates its two parts.
unfoldable pub identity_key : String → String → String → String
identity_key service alert_name title =
    (service <> "\0") <> (if not (str_eq alert_name "") then alert_name else title)

-- Fingerprint, over a digest that stands for the hex form of SHA-256.
unfoldable pub make_fingerprint : (String → String) → String → String → String → String
make_fingerprint digest service alert_name title = digest (identity_key service alert_name title)

pub eq-of_status_eq : (a b : Status) → status_eq a b ≡ true → a ≡ b
unfolding status_eq
eq-of_status_eq a b h = ground (arith, eq_iff (raw_text a) (raw_text b))

pub status_eq_self : (a : Status) → status_eq a a ≡ true
unfolding status_eq
status_eq_self a = ground (arith, eq_iff (raw_text a) (raw_text a))

pub status_eq_iff : (a b : Status) → (status_eq a b ≡ true) ↔ (a ≡ b)
status_eq_iff a b = (eq-of_status_eq a b, λ e. ap (λ s. status_eq a s) (sym e) ∙ status_eq_self a)

-- A valid status survives the way through a text.
pub to_status-status_text : (s : Status) → valid s ≡ true → to_status (status_text s) ≡ s
unfolding to_status
to_status-status_text (raw s) h = cc
to_status-status_text opened h = refl
to_status-status_text _ h = refl
