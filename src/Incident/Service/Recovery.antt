-- ===== src/Incident/Service/Recovery.antt =====
-- ResolveExternally: an alert that has recovered closes its incident, unless a remediation runs.
use go_on_call_agent.Prelude.{
  ℕ, String, true, false, some, [], ◌∷◌, ◌≡◌, ◌≢◌, refl, ap, ◌∙◌, arith, ◌⊎◌, inl, inr, Bool-cases,
  ◌<>◌,
}
use go_on_call_agent.Errors.{
  Error, Result, ok, err, Result-cases, is, invalid_transition, wrap, sentinel,
}
use go_on_call_agent.Dict.{lookup}
use go_on_call_agent.Incident.{
  Incident, resolved, mitigating, verifying, status_eq, status_text, to_status-status_text,
  is_terminal, eq-of_status_eq,
}
use go_on_call_agent.Incident.Event.{status_transition, new_incident_event}
use go_on_call_agent.Incident.Store.{
  Memory, update_with_event, add_events, get_active_by_fingerprint,
}
use go_on_call_agent.Incident.Store.Writes.{
  stored, bumped, update_with_events-cases, update_with_event_lem, items-add_events,
}
use go_on_call_agent.Incident.Store.Unique.{update-IsUnique}
use go_on_call_agent.Incident.Store.Search.{get_active-lookup}
use go_on_call_agent.Incident.Store.Audit.{
  is_status_type, replay-nil, replay-status_event, write-IsAudited,
}
use go_on_call_agent.Incident.Service.{
  Stamp, Expirer, expire_pending, closed_externally, recovery_event, resolve_history,
  resolve_externally,
}
use go_on_call_agent.Incident.Service.Audit.{IsValid}

-- The store after the close.
abbrev pub closed : Memory → Stamp → Incident → Memory
closed m t inc =
    add_events (stored m (bumped (closed_externally t inc))) (some (recovery_event t inc) ∷ [])

closed-IsValid :
    (m : Memory) (t : Stamp) (inc : Incident)
    → IsValid m
    → lookup inc.id m.items ≡ some inc
    → is_terminal inc.status ≡ false
    → IsValid (closed m t inc)
unfolding closed_externally recovery_event new_incident_event is_status_type
closed-IsValid m t inc h at active = record {
  unique =
      rw
        (items-add_events (stored m (bumped (closed_externally t inc)))
          (some (recovery_event t inc) ∷ []))
        (update-IsUnique m.items h.unique (bumped (closed_externally t inc)) inc at refl
          (λ _. active));
  audited =
      write-IsAudited m (bumped (closed_externally t inc)) (some (recovery_event t inc) ∷ [])
        (refl, tt) inc.status h.audited refl (h.audited.replayed inc.id inc at)
        (replay-status_event t.event_id t.now inc.id status_transition inc.status resolved
            "external alert resolved" "" [] refl
            (to_status-status_text inc.status (h.audited.known inc.id inc at)) refl
          ∙ replay-nil resolved);
}

-- No remediation of the incident is under way.
abbrev pub IsFree : Incident → Type 0
IsFree inc = (inc.status ≢ mitigating) × (inc.status ≢ verifying)

-- How a call of ResolveExternally ends.
pub data Outcome {S : Type 0} (expirer : Expirer S) (m : Memory) (s : S) (t : Stamp)
    (fingerprint : String) (r : Result Incident × Memory × S) : Type 0 where
  -- no incident of the fingerprint is active
  history :
      (e : Error)
      → get_active_by_fingerprint m fingerprint ≡ err e
      → r ≡ (resolve_history m fingerprint e, m, s)
      → Outcome expirer m s t fingerprint r
  -- a remediation is under way
  busy :
      (inc : Incident) (e : Error)
      → get_active_by_fingerprint m fingerprint ≡ ok inc
      → (inc.status ≡ mitigating) ⊎ (inc.status ≡ verifying)
      → is e invalid_transition ≡ true
      → r ≡ (err e, m, s)
      → Outcome expirer m s t fingerprint r
  -- the approvals could not be expired, and nothing was written
  unexpired :
      (inc : Incident) (f : Error)
      → get_active_by_fingerprint m fingerprint ≡ ok inc
      → IsFree inc
      → (expire_pending expirer inc.id s).0 ≡ err f
      → r ≡ (
        err (wrap ("expire pending approvals of " <> inc.id <> ": ") f ""),
        m,
        (expire_pending expirer inc.id s).1,
      )
      → Outcome expirer m s t fingerprint r
  -- the approvals were expired, and the repository refused the write
  unwritten :
      (inc : Incident) (n : ℕ) (e : Error)
      → get_active_by_fingerprint m fingerprint ≡ ok inc
      → IsFree inc
      → (expire_pending expirer inc.id s).0 ≡ ok n
      → update_with_event m (closed_externally t inc) (some (recovery_event t inc)) ≡ (err e, m)
      → r ≡ (err e, m, (expire_pending expirer inc.id s).1)
      → Outcome expirer m s t fingerprint r
  -- the approvals were expired, and then the incident was closed
  done :
      (inc : Incident) (n : ℕ)
      → get_active_by_fingerprint m fingerprint ≡ ok inc
      → IsFree inc
      → (expire_pending expirer inc.id s).0 ≡ ok n
      → r ≡ (
        ok (bumped (closed_externally t inc)),
        closed m t inc,
        (expire_pending expirer inc.id s).1,
      )
      → Outcome expirer m s t fingerprint r

free :
    (inc : Incident)
    → status_eq inc.status mitigating ≡ false
    → status_eq inc.status verifying ≡ false
    → IsFree inc
unfolding status_eq
free inc a b = (
  λ e. ground (arith, ap (λ s. status_eq s mitigating) e, a),
  λ e. ground (arith, ap (λ s. status_eq s verifying) e, b),
)

module _ {S : Type 0} (expirer : Expirer S) (m : Memory) (s : S) (t : Stamp)
    (fingerprint : String) where
  update_cases :
      (inc : Incident)
      → ((e : Error) × (update_with_event m (closed_externally t inc) (some (recovery_event t inc))
            ≡ (err e, m)))
        ⊎ (update_with_event m (closed_externally t inc) (some (recovery_event t inc))
            ≡ (ok (bumped (closed_externally t inc)), closed m t inc))
  update_cases inc =
      elim (update_with_events-cases m (closed_externally t inc)
        (some (recovery_event t inc) ∷ [])) [
          | inl (e, no_write) ↦ inl (
            e,
            update_with_event_lem m (closed_externally t inc) (some (recovery_event t inc))
                ∙ no_write,
          )
          | inr u ↦ inr (
              update_with_event_lem m (closed_externally t inc) (some (recovery_event t inc))
              ∙ u.result)
        ]

  -- ResolveExternally ends in one of five ways: no active incident, and nothing changes; a remediation
  -- under way, exactly where the incident is MITIGATING or VERIFYING, and nothing changes; the expiry of
  -- approvals failed, or they were expired and the repository refused the write, and the incidents do
  -- not change; or the approvals were expired and the incident was closed.
  pub resolve_externally-Outcome :
      Outcome expirer m s t fingerprint (resolve_externally expirer m s t fingerprint)
  unfolding resolve_externally
  resolve_externally-Outcome = elim (Result-cases (get_active_by_fingerprint m fingerprint)) [
    | inr (e, missing) ↦ history e missing (ground arith)
    | inl (inc, found) ↦ elim (Bool-cases (status_eq inc.status mitigating)) [
      | inl running ↦
          busy inc
            (wrap "" (sentinel invalid_transition)
              (": incident " <> inc.id <> " is " <> status_text inc.status))
            found (inl (eq-of_status_eq inc.status mitigating running)) refl (ground arith)
      | inr not_mitigating ↦ elim (Bool-cases (status_eq inc.status verifying)) [
        | inl running ↦
            busy inc
              (wrap "" (sentinel invalid_transition)
                (": incident " <> inc.id <> " is " <> status_text inc.status))
              found (inr (eq-of_status_eq inc.status verifying running)) refl (ground arith)
        | inr not_verifying ↦ elim (Result-cases (expire_pending expirer inc.id s).0) [
          | inr (e, failed) ↦
              unexpired inc e found (free inc not_mitigating not_verifying) failed (ground arith)
          | inl (n, expired) ↦ elim (update_cases inc) [
            | inl (e, no_write) ↦
                unwritten inc n e found (free inc not_mitigating not_verifying) expired no_write
                  (ground arith)
            | inr written ↦
                done inc n found (free inc not_mitigating not_verifying) expired (ground arith)
          ]
        ]
      ]
    ]
  ]

  pub resolve_externally-IsValid :
      IsValid m → IsValid (resolve_externally expirer m s t fingerprint).1
  resolve_externally-IsValid h = at resolve_externally-Outcome
    where
      at :
          Outcome expirer m s t fingerprint (resolve_externally expirer m s t fingerprint)
          → IsValid (resolve_externally expirer m s t fingerprint).1
      at (history e missing r) = rw r h
      at (busy inc e found running kind r) = rw r h
      at (unexpired inc f found idle failed r) = rw r h
      at (unwritten inc n e found idle expired no_write r) = rw r h
      at (done inc n found idle expired r) =
          let (there, _, active) = get_active-lookup m h.unique fingerprint inc found in
          rw r (closed-IsValid m t inc h there active)
