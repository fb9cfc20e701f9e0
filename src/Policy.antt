-- ===== src/Policy.antt =====
-- internal/execution/policy/policy.go, and the risk levels of internal/tool/registry/registry.go.
use go_on_call_agent.Prelude.{
  String, Bool, true, false, Option, none, some, ◌≡◌, arith, ◌↔◌, if◌then◌else◌,
}

-- `other s` is a level that is none of the constants.
pub data RiskLevel : Type 0 where
  low medium high critical : RiskLevel
  other : String → RiskLevel

pub data Decision : Type 0 where
  allow require_approval deny : Decision

-- Evaluate, of an engine with approvals enabled or not.
unfoldable pub evaluate : Bool → RiskLevel → Decision
evaluate approval_enabled low = allow
evaluate approval_enabled medium = if approval_enabled then require_approval else deny
evaluate approval_enabled high = if approval_enabled then require_approval else deny
evaluate approval_enabled critical = deny
evaluate approval_enabled (other s) = deny

abbrev is_require_approval : Decision → Bool
is_require_approval require_approval = true
is_require_approval _ = false

-- RequireApproval
unfoldable pub require_approval_for : Bool → RiskLevel → Bool
unfolding evaluate
require_approval_for approval_enabled risk = is_require_approval (evaluate approval_enabled risk)

abbrev pub risk_rank : RiskLevel → Option Bool
risk_rank low = some false
risk_rank medium = some true
risk_rank high = some true
risk_rank _ = none

-- An action runs without a person only at the lowest risk; with a person only at the middle levels
-- and where approvals are enabled; every other level is denied, approvals or not.
pub evaluate_iff :
    (enabled : Bool) (risk : RiskLevel)
    → ((evaluate enabled risk ≡ allow) ↔ (risk ≡ low))
      × ((require_approval_for enabled risk ≡ true)
          ↔ ((enabled ≡ true) × (risk_rank risk ≡ some true)))
unfolding evaluate require_approval_for
evaluate_iff enabled risk = ground arith
