-- ===== src/Api/Approvals/Answers.antt =====
-- What the answer to an approval over HTTP says of the action.
use go_on_call_agent.Prelude.{
  false, ℕ, String, true, none, some, ◌≡◌, refl, ap, ◌∙◌, arith, ◌⊎◌, inl, inr, Option-cases,
}
use go_on_call_agent.Errors.{Error, sentinel, is, not_found, not_pending, expired, err}
use go_on_call_agent.Dict.{lookup}
use go_on_call_agent.Incident.Service.{Stamp}
use go_on_call_agent.Incident.Service.Audit.{IsValid}
use go_on_call_agent.Approval.{Approval, transition_status}
use go_on_call_agent.Approval.Service.{Wiring, approve, step, claim_error, final_status}
use go_on_call_agent.Approval.Service.Approving.{Approved, refused, lapsed, ran, approve-Approved}
use go_on_call_agent.World.{World, Executor, drawn}
use go_on_call_agent.Api.Auth.{Context}
use go_on_call_agent.Sorting.{Sorter}
use go_on_call_agent.Api.Response.{Response, json, status}
use go_on_call_agent.Api.Approvals.{
  error_status, respond_error, respond, approval_actor, approve_one,
}

module _ (source : ℕ → Stamp) (wiring : Wiring) (S : Sorter) where
  approve_missing :
      (w : World) (id by : String)
      → lookup id w.approvals ≡ none
      → (approve source wiring w id by).0 ≡ err (sentinel not_found)
  unfolding approve step transition_status claim_error
  approve_missing w id by h = rw (approve, step, transition_status, h) refl

  -- The answer that no action stands behind, 404 where there is no approval and else 409: nothing was
  -- sent, and no incident has moved.
  abbrev pub IsRefusal : World → String → Response Approval × World → Type 0
  IsRefusal w id out =
      (((lookup id w.approvals ≡ none) × (status out.0 ≡ 404))
        ⊎ ((cur : Approval) × (lookup id w.approvals ≡ some cur) × (status out.0 ≡ 409)))
      × (out.1.calls ≡ w.calls)
      × (out.1.incidents ≡ w.incidents)

  -- The answer that gives the stored approval, whose status is that of the executor's result.
  abbrev pub IsExecution : Executor → World → String → Response Approval × World → Type 0
  IsExecution run w id out =
      (cur : Approval) × (done : Approval) × (start : World) × (lookup id w.approvals ≡ some cur)
      × (out.0 ≡ json 200 done)
      × (lookup id out.1.approvals ≡ some done)
      × (done.status
          ≡ final_status source wiring (run id cur.action cur.arguments cur.run_id start).0)

  refusal_status :
      (w : World) (id : String) (c : Context) (e : Error) (n : ℕ)
      → (approve source wiring w id (approval_actor c)).0 ≡ err e
      → error_status e ≡ n
      → status (approve_one source wiring S w id c).0 ≡ n
  unfolding approve_one respond respond_error
  refusal_status w id c e n answer code = ap (λ r. status (respond r)) answer ∙ code

  -- The errors of an approval that is there.
  conflict_status :
      (e : Error)
      → (is e not_pending ≡ true) ⊎ (is e expired ≡ true)
      → is e not_found ≡ false
      → error_status e ≡ 409
  unfolding error_status
  conflict_status e why here = ground (arith, why, here)

  not_found_status : error_status (sentinel not_found) ≡ 404
  unfolding error_status
  not_found_status = refl

  answered :
      (run : Executor) (w : World) (id : String) (c : Context)
      → Approved source wiring run w id (approve source wiring w id (approval_actor c))
      → IsRefusal w id (approve_one source wiring S w id c)
        ⊎ IsExecution run w id (approve_one source wiring S w id c)
  unfolding approve_one respond drawn
  answered run w id c (refused e why out) = elim (Option-cases (lookup id w.approvals)) [
    | inl absent ↦
        let missing = approve_missing w id (approval_actor c) absent in
        inl (
          inl (absent, refusal_status w id c (sentinel not_found) 404 missing not_found_status),
          ap (λ p. p.1.calls) out,
          ap (λ p. p.1.incidents) out,
        )
    | inr (a, there) ↦
        let (decided, pending_error, here) = why a there in
        inl (
          inr (
            a,
            there,
            refusal_status w id c e 409 (ap (λ p. p.0) out)
                (conflict_status e (inl pending_error) here),
          ),
          ap (λ p. p.1.calls) out,
          ap (λ p. p.1.incidents) out,
        )
  ]
  answered run w id c (lapsed e cur b there out late here stored ended calls incidents) = inl (
    inr (cur, there, refusal_status w id c e 409 out (conflict_status e (inr late) here)),
    calls,
    incidents,
  )
  answered run w id c
        (ran start cur next done k there waits begun executes calls runs bound stands valid out
          stored ended incidents) =
      inr (cur, done, start, there, ap respond out, stored, ended)

  -- Approving over HTTP, on a valid store of incidents, with an executor that leaves the approvals
  -- alone and an approval stored under its own id: the answer is 404 where no approval is stored under the
  -- id, or 409 where one is, and in both cases nothing was sent and no incident has moved; or it is 200
  -- with the approval as it is stored, whose status is that of the executor's result. No other status
  -- occurs.
  pub approve_one_lem :
      (run : Executor) (w : World) (id : String) (c : Context)
      → ((i a g l : String) (v : World) → (run i a g l v).1.approvals ≡ v.approvals)
      → wiring.executor ≡ some run
      → IsValid w.incidents
      → ((a : Approval) → lookup id w.approvals ≡ some a → a.id ≡ id)
      → IsRefusal w id (approve_one source wiring S w id c)
        ⊎ IsExecution run w id (approve_one source wiring S w id c)
  approve_one_lem run w id c leaves wired valid keyed =
      answered run w id c
        (approve-Approved source wiring run leaves w id (approval_actor c) wired valid keyed)
