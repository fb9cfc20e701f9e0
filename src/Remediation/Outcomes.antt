-- ===== src/Remediation/Outcomes.antt =====
-- How the closed loop ends, and what its answer says of the store.
use go_on_call_agent.Prelude.{
  eq_iff, ℕ, String, true, false, some, ◌≡◌, ◌≢◌, refl, sym, ◌∙◌, ap, arith, str_eq, ◌⊎◌, inl, inr,
  Bool-cases,
}
use go_on_call_agent.Errors.{Error, Result, ok, err, Result-cases, ok_injective}
use go_on_call_agent.Dict.{lookup}
use go_on_call_agent.Incident.{Incident, mitigating, status_eq, is_terminal, eq-of_status_eq}
use go_on_call_agent.Incident.Store.{get_by_id}
use go_on_call_agent.Incident.Service.{Stamp}
use go_on_call_agent.Incident.Service.Audit.{IsValid, get_by_id-lookup}
use go_on_call_agent.Run.{AgentRun, get_run}
use go_on_call_agent.Verifier.{Float64}
use go_on_call_agent.World.{World, ExecutionResult, Stands}
use go_on_call_agent.Report.{Platform}
use go_on_call_agent.Deployment.{Codec}
use go_on_call_agent.Remediation.{Remediation, act_on, execute}
use go_on_call_agent.Remediation.Finish.{IsIdle, IsTurnedAway, Finish}
use go_on_call_agent.Remediation.Acting.{act-Ends}

module _ (F : Float64) (source : ℕ → Stamp) (codec : Codec) (platform : Platform)
    (r : Remediation F) where
  module _ (w : World) (h : IsValid w.incidents)
      (run_id id approval_id action arguments : String) where
    abbrev Ends : Result ExecutionResult × World → Type 0
    Ends = Finish F source codec platform r w id approval_id action arguments

    absent-barred :
        (e : Error)
        → get_by_id w.incidents id ≡ err e
        → (inc : Incident) → lookup id w.incidents.items ≡ some inc
        → inc.status ≢ mitigating
    unfolding get_by_id
    absent-barred e missing inc there at = ground (arith, missing, there)

    barred :
        (inc : Incident)
        → get_by_id w.incidents id ≡ ok inc
        → inc.status ≢ mitigating
        → (other : Incident) → lookup id w.incidents.items ≡ some other
        → other.status ≢ mitigating
    unfolding get_by_id
    barred inc read apart other there at =
        let same : some other ≡ some inc = sym there ∙ get_by_id-lookup w.incidents id inc read in
        apart (ground (arith, same, at))

    mitigating_runs : is_terminal mitigating ≡ false
    unfolding is_terminal status_eq
    mitigating_runs = refl

    mitigating_same : status_eq mitigating mitigating ≡ true
    unfolding status_eq
    mitigating_same = refl

    act_on-Ends :
        let out = act_on F source codec platform r w run_id id approval_id action arguments in
        IsTurnedAway F source codec platform r w id out ⊎ (Stands w id mitigating × Ends out)
    unfolding act_on
    act_on-Ends = elim (Result-cases (get_by_id w.incidents id)) [
      | inr (e, missing) ↦ rw (act_on, missing) (inl (refl, refl, absent-barred e missing))
      | inl (inc, read) ↦ elim (Bool-cases (is_terminal inc.status)) [
        | inl over ↦
            rw (act_on, read, over)
              (inl (
                refl,
                refl,
                barred inc read (λ e. ground (arith, over, ap is_terminal e, mitigating_runs)),
              ))
        | inr live ↦ elim (Bool-cases (status_eq inc.status mitigating)) [
          | inr other ↦
              rw (act_on, read, live, other)
                (inl (
                  refl,
                  refl,
                  barred inc read (λ e.
                      ground (arith, other, ap (λ s. status_eq s mitigating) e, mitigating_same)),
                ))
          | inl here ↦
              rw (act_on, read, live, here)
                (inr (
                  (
                    inc,
                    get_by_id-lookup w.incidents id inc read,
                    eq-of_status_eq inc.status mitigating here,
                  ),
                  act-Ends F source codec platform r w h run_id id approval_id action arguments inc,
                ))
        ]
      ]
    ]

  unbound :
      (run other : AgentRun)
      → str_eq run.incident_id "" ≡ true
      → ◌≡◌ {A = Result AgentRun} (ok run) (ok other)
      → other.incident_id ≡ ""
  unbound run other empty found =
      sym (ap (λ x. x.incident_id) (ok_injective run other found))
      ∙ (eq_iff run.incident_id "").0 empty

  execute_routed :
      (w : World) (run : AgentRun) (run_id approval_id action arguments : String)
      → r.incident_svc ≡ true
      → r.run_repo ≡ true
      → get_run w.runs run_id ≡ ok run
      → str_eq run.incident_id "" ≡ false
      → execute F source codec platform r approval_id action arguments run_id w
        ≡ act_on F source codec platform r w run_id run.incident_id approval_id action arguments
  unfolding execute
  execute_routed w run run_id approval_id action arguments svc repo found bound =
      ground (arith, svc, repo, found, bound)

  -- Execute on a valid store ends in an error with nothing done, where a service is missing or the
  -- run has no incident; or it is turned away with nothing done, where the run's incident is not
  -- MITIGATING; or the incident is MITIGATING and ends in one of six ways. It stays as it was where the
  -- action's result is unknown; it is FAILED behind an action that failed; behind an action without error
  -- it is RESOLVED if the verification passed and FAILED if it did not, and the answer says which of the
  -- two; and if the service refuses the move behind the action, or the one that the verdict asks for, the
  -- answer is an error and the incident stays where it was before that move.
  pub execute-Finish :
      (w : World) (run_id approval_id action arguments : String)
      → IsValid w.incidents
      → let out = execute F source codec platform r approval_id action arguments run_id w in
        IsIdle F source codec platform r w run_id out
        ⊎ ((run : AgentRun) × (get_run w.runs run_id ≡ ok run)
            × (IsTurnedAway F source codec platform r w run.incident_id out
                ⊎ (Stands w run.incident_id mitigating
                    × Finish F source codec platform r w run.incident_id approval_id action
                        arguments out)))
  unfolding execute
  execute-Finish w run_id approval_id action arguments h = elim (Bool-cases r.incident_svc) [
    | inr off ↦
        inl (rw (execute, off) (refl, refl, λ run on repo found. absurd (ground (arith, on, off))))
    | inl svc ↦ elim (Bool-cases r.run_repo) [
      | inr off ↦ inl (
          rw (execute, svc, off)
            (refl, refl, λ run on repo found. absurd (ground (arith, repo, off))))
      | inl repo ↦ elim (Result-cases (get_run w.runs run_id)) [
        | inr (e, missing) ↦ inl (
            rw (execute, svc, repo, missing)
              (refl, refl, λ run on up found. absurd (ground (arith, found, missing))))
        | inl (run, found) ↦ elim (Bool-cases (str_eq run.incident_id "")) [
          | inl empty ↦ inl (
              rw (execute, svc, repo, found, empty)
                (refl, refl, λ other on up there. unbound run other empty there))
          | inr bound ↦ inr (
            run,
            found,
            rw (execute_routed w run run_id approval_id action arguments svc repo found bound)
                (act_on-Ends w h run_id run.incident_id approval_id action arguments),
          )
        ]
      ]
    ]
  ]
