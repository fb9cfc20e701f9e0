-- ===== src/Report.antt =====
-- The report of internal/execution/executor/remediation.go: what it says of the diagnosis and of the
-- verification. json.Marshal, fmt's %q and the order that sort.Slice gives to the steps come from
-- outside.
use go_on_call_agent.Prelude.{
  ℕ, String, Bool, true, false, Option, none, some, List, [], ◌∷◌, ◌++◌, map, not, str_eq, ◌<>◌,
  ◌&&◌, if◌then◌else◌,
}
use go_on_call_agent.Prelude.Int.{pos}
use go_on_call_agent.Dict.{lookup, get_list}
use go_on_call_agent.Run.{AgentStep, MemoryRun}
use go_on_call_agent.Verifier.{Float64, Check, Attempt}
use go_on_call_agent.Text.{is_blank}
use go_on_call_agent.Deployment.{is_nil}

pub record RemediationResult : Type 0 where
  pub status : String
  pub verified : Bool
  pub incident_id : String
  pub postmortem : String
  pub checks : List Check
  pub operation_id : String
  pub reason : String
  pub attempts : ℕ

-- What the program takes from the standard library.
pub record Platform : Type 0 where
  pub marshal : RemediationResult → String
  pub quoted : String → String
  pub sort_steps : List AgentStep → List AgentStep

-- The loop of rootCause, over the steps from the last one on: on the way back, a later step wins.
unfoldable pub last_conclusion : List AgentStep → Option String
last_conclusion [] = none
last_conclusion (s ∷ rest) = elim (last_conclusion rest) [
  | some output ↦ some output
  | none ↦ if str_eq s.action "finalize" && not (is_blank s.output) then some s.output else none
]

abbrev pub or_unrecorded : Option String → String
or_unrecorded (some output) = output
or_unrecorded none = "未记录诊断结论"

-- rootCause; reading the steps from memory does not fail.
unfoldable pub root_cause : Platform → MemoryRun → String → String
root_cause platform m run_id =
    or_unrecorded (last_conclusion (platform.sort_steps (get_list (lookup run_id m.steps))))

abbrev pub bool_text : Bool → String
bool_text true = "true"
bool_text false = "false"

module _ (F : Float64) where
  open F use {decimal}

  -- The loop of lastChecks: on the way back, a later attempt wins.
  unfoldable pub last_checks : List (Attempt F) → List Check
  last_checks [] = []
  last_checks (a ∷ rest) = let later = last_checks rest in if is_nil later then a.checks else later

  unfoldable pub attempt_details : Attempt F → List String
  attempt_details a =
      let prefix = "attempt " <> decimal (pos a.attempt) in
      if not (str_eq a.error "")
      then (prefix <> ": gather error: " <> a.error) ∷ []
      else map
          (λ c.
            prefix <> ": " <> Check.detail c <> " (passed=" <> bool_text (Check.passed c) <> ")")
          a.checks

  -- checkDetails
  unfoldable pub check_details : List (Attempt F) → List String
  check_details [] = []
  check_details (a ∷ rest) = attempt_details a ++ check_details rest
