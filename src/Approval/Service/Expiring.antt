-- ===== src/Approval/Service/Expiring.antt =====
-- The expiry of an incident's approvals when its alert has recovered.
use go_on_call_agent.Prelude.{
  str_eq, Bool, [], ◌∷◌, ◌&&◌, length, select, ℕ, String, none, some, ◌≡◌, ◌≢◌, refl, ap, arith,
  ◌⊎◌, inl, inr, eq_iff, str_eq-of_ne,
}
use go_on_call_agent.Errors.{ok}
use go_on_call_agent.Dict.{lookup, values}
use go_on_call_agent.Incident.Service.{Stamp}
use go_on_call_agent.Approval.{
  Approval, Approvals, pending, expired, approval_eq, expires, expire_count,
  expire_pending_by_incident,
}
use go_on_call_agent.Approval.Writes.{eq-of_approval_eq, lookup-expire_loop, expire_one}
use go_on_call_agent.World.{World}
use go_on_call_agent.Approval.Service.{Wiring, expire_pending}

-- A pending approval of the incident.
abbrev pub waits_for : String → Approval → Bool
waits_for incident_id a = str_eq a.incident_id incident_id && approval_eq a.status pending

module _ (source : ℕ → Stamp) (wiring : Wiring) (w : World) (incident_id : String) where
  expire_one-own :
      (now : ℕ) (a : Approval)
      → incident_id ≢ ""
      → a.incident_id ≡ incident_id
      → a.status ≡ pending
      → expire_one now incident_id a
        ≡ record a { status = expired; error = "incident resolved externally"; updated_at = now }
  unfolding expires
  expire_one-own now a named own waits = ground (
    arith,
    str_eq-of_ne incident_id "" named,
    (eq_iff a.incident_id incident_id).1 own,
    ap (λ s. approval_eq s pending) waits,
  )

  expire_one-other :
      (now : ℕ) (a : Approval)
      → (a.incident_id ≢ incident_id) ⊎ (a.status ≢ pending)
      → expire_one now incident_id a ≡ a
  unfolding expires
  expire_one-other now a (inl foreign) =
      ground (arith, str_eq-of_ne a.incident_id incident_id foreign)
  expire_one-other now a (inr decided) = ground (arith, decided, eq-of_approval_eq a.status pending)

  expire_count-length :
      (m : Approvals)
      → incident_id ≢ ""
      → expire_count incident_id m ≡ length (select (waits_for incident_id) (values m))
  unfolding expire_count expires values select
  expire_count-length [] named = refl
  expire_count-length ((k, a) ∷ m) named =
      ground (arith, str_eq-of_ne incident_id "" named, expire_count-length m named)

  -- With an incident's id, ExpirePending succeeds with the number of the incident's pending approvals.
  -- Every one of them is EXPIRED afterwards, with the reason and the time, and is otherwise as it was; every approval of another incident or with another status stays as it was; and none is added.
  pub expire_pending-clears :
      incident_id ≢ ""
      → let out = expire_pending source wiring w incident_id in
        (out.0 ≡ ok (length (select (waits_for incident_id) (values w.approvals))))
        × ((k : String)
            → (lookup k w.approvals ≡ none → lookup k out.1.approvals ≡ none)
              × ((a : Approval)
                  → lookup k w.approvals ≡ some a
                  → ((a.incident_id ≡ incident_id)
                      → a.status ≡ pending
                      → lookup k out.1.approvals
                        ≡ some (record a {
                          status = expired;
                          error = "incident resolved externally";
                          updated_at = (source w.draws).now;
                        }))
                    × (((a.incident_id ≢ incident_id) ⊎ (a.status ≢ pending))
                        → lookup k out.1.approvals ≡ some a)))
  unfolding expire_pending expire_pending_by_incident
  expire_pending-clears named =
      let now = (source w.draws).now in
      rw (expire_pending, str_eq-of_ne incident_id "" named)
        (
          ap ok (expire_count-length w.approvals named),
          λ k. (
            λ absent. ground (arith, lookup-expire_loop now incident_id k w.approvals, absent),
            λ a there.
                let after = lookup-expire_loop now incident_id k w.approvals in
                (
                  λ own waits. ground (arith, after, there, expire_one-own now a named own waits),
                  λ apart. ground (arith, after, there, expire_one-other now a apart),
                ),
          ),
        )
