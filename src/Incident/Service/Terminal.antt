-- ===== src/Incident/Service/Terminal.antt =====
-- Terminal incidents are history: no request changes them.
use go_on_call_agent.Prelude.{
  String, true, false, Option, some, List, [], ◌∷◌, ◌≡◌, ◌≢◌, ◌∙◌, ap, arith, eq_iff, inl, inr,
  String-cases, All,
}
use go_on_call_agent.Errors.{Result, ok, err}
use go_on_call_agent.Dict.{lookup}
use go_on_call_agent.Dict.Laws.{lookup-insert}
use go_on_call_agent.Incident.{Incident, Status, is_terminal}
use go_on_call_agent.Incident.Event.{IncidentEvent}
use go_on_call_agent.Incident.StateMachine.{can_transition_ends}
use go_on_call_agent.Incident.Store.{Memory, add_events}
use go_on_call_agent.Incident.Store.Writes.{
  stored, bumped, items-add_events, create_with_event-cases,
}
use go_on_call_agent.Incident.Store.Search.{get_active-lookup}
use go_on_call_agent.Incident.Service.{
  Stamp, CreateIncidentInput, Expirer, create, create_commit, resolve_externally, created_event,
  new_incident, closed_externally, recovery_event,
}
use go_on_call_agent.Incident.Service.Audit.{IsValid}
use go_on_call_agent.Incident.Service.Effect.{HasEffect, evs, transition_with_audit-HasEffect}
use go_on_call_agent.Incident.Service.Create.{
  create-Route, Route, invalid, duplicate, commit, commit_refused, commit_done, fingerprint_of,
}
use go_on_call_agent.Incident.Service.Recovery.{
  resolve_externally-Outcome, Outcome, history, busy, unexpired, unwritten, done,
}
use go_on_call_agent.Incident.Service.Lifecycle.{
  Request, creation, transition, recovery, IsProper, serve, run, serve-IsValid,
}

-- A write of another incident.
lookup-stored_ne :
    (m : Memory) (inc : Incident) (list : List (Option IncidentEvent)) (k : String)
    → inc.id ≢ k
    → lookup k (add_events (stored m inc) list).items ≡ lookup k m.items
lookup-stored_ne m inc list k differ =
    rw (items-add_events (stored m inc) list)
      (ground (arith, lookup-insert inc.id k inc m.items, eq_iff inc.id k))

module _ (m : Memory) (k : String) (i : Incident) (at : lookup k m.items ≡ some i) where
  create_commit-keeps :
      (t : Stamp) (input : CreateIncidentInput) (fingerprint : String)
      → lookup k (create_commit m t input fingerprint).1.items ≡ some i
  create_commit-keeps t input fingerprint =
      let inc = new_incident t input fingerprint in
      elim (create_with_event-cases m inc (some (created_event t inc))) [
        | inl (e, no_write, _) ↦ rw (commit_refused m t input fingerprint e no_write) at
        | inr c ↦ rw (commit_done m t input fingerprint c) (
            lookup-stored_ne m inc (some (created_event t inc) ∷ []) k
              (λ same. cc (c.fresh, ap (λ j. lookup j m.items) same))
            ∙ at)
      ]

  create-keeps :
      (digest : String → String) (t : Stamp) (input : CreateIncidentInput)
      → lookup k (create digest m t input).1.items ≡ some i
  create-keeps digest t input = go (create-Route digest m t input)
    where
      go :
          Route digest m t input (create digest m t input)
          → lookup k (create digest m t input).1.items ≡ some i
      go (invalid e r) = rw r at
      go (duplicate j found r) = rw r at
      go (commit r) = rw r (create_commit-keeps t input (fingerprint_of digest input))

module _ (m : Memory) (k : String) (i : Incident) (at : lookup k m.items ≡ some i)
    (over : is_terminal i.status ≡ true) where
  effect-keeps :
      (id : String) (to : Status) (list : Incident → List (Option IncidentEvent))
      (r : Result Incident × Memory)
      → HasEffect m id to list r
      → lookup k r.1.items ≡ some i
  effect-keeps id to list (err e, m') same = rw same at
  effect-keeps id to list (ok inc, m') (old, found, allowed, _, _, _, _, frame) =
      elim (String-cases k id) [
        | inr other ↦ (frame k other).0 ∙ at
        | inl same ↦
            let is_old : i ≡ old = cc in
            let live : is_terminal old.status ≡ false =
              (can_transition_ends old.status to allowed).0 in
            cc
      ]

  resolve_externally-keeps :
      {S : Type 0} (expirer : Expirer S) (s : S) (t : Stamp) (fingerprint : String)
      → IsValid m
      → lookup k (resolve_externally expirer m s t fingerprint).1.items ≡ some i
  resolve_externally-keeps expirer s t fingerprint h =
      go (resolve_externally-Outcome expirer m s t fingerprint)
    where
      go :
          Outcome expirer m s t fingerprint (resolve_externally expirer m s t fingerprint)
          → lookup k (resolve_externally expirer m s t fingerprint).1.items ≡ some i
      go (history e missing r) = rw r at
      go (busy inc e found running kind r) = rw r at
      go (unexpired inc f found idle failed r) = rw r at
      go (unwritten inc n e found idle expired no_write r) = rw r at
      go (done inc n found idle expired r) =
          let (there, _, active) = get_active-lookup m h.unique fingerprint inc found in
          rw r (
            lookup-stored_ne m (bumped (closed_externally t inc)) (some (recovery_event t inc) ∷ [])
              k
              (λ same.
                let key : inc.id ≡ k = unfold closed_externally in same in
                let one : inc ≡ i = cc in cc)
            ∙ at)

module _ {S : Type 0} (digest : String → String) (expirer : Expirer S) (k : String) (i : Incident)
    (over : is_terminal i.status ≡ true) where
  serve-keeps_terminal :
      (w : Memory × S) (r : Request)
      → IsValid w.0
      → lookup k w.0.items ≡ some i
      → lookup k (serve digest expirer w r).0.items ≡ some i
  unfolding serve
  serve-keeps_terminal (m, s) (creation t input) h at = create-keeps m k i at digest t input
  serve-keeps_terminal (m, s) (transition t id to reason err_msg event_type payload) h at =
      effect-keeps m k i at over id to (evs m t id to reason err_msg event_type payload h.unique) _
        (transition_with_audit-HasEffect m t id to reason err_msg event_type payload h.unique)
  serve-keeps_terminal (m, s) (recovery t fingerprint) h at =
      resolve_externally-keeps m k i at over expirer s t fingerprint h

  -- Once an incident is terminal, its record stays as it is, whatever the requests.
  pub run-keeps_terminal :
      (w : Memory × S) (rs : List Request)
      → All IsProper rs
      → IsValid w.0
      → lookup k w.0.items ≡ some i
      → lookup k (run digest expirer w rs).0.items ≡ some i
  unfolding run
  run-keeps_terminal w [] p h at = at
  run-keeps_terminal w (r ∷ rs) p h at =
      run-keeps_terminal (serve digest expirer w r) rs p.1 (serve-IsValid digest expirer w r p.0 h)
        (serve-keeps_terminal w r h at)
