-- ===== src/Incident/Service/Lifecycle.antt =====
-- Any sequence of requests to the incident service: creations, transitions and recoveries.
use go_on_call_agent.Prelude.{String, false, some, List, [], ◌∷◌, ◌≡◌, ◌≢◌, All}
use go_on_call_agent.Dict.{Dict, lookup}
use go_on_call_agent.Incident.{Incident, Status, raw, is_terminal}
use go_on_call_agent.Incident.Event.{Value}
use go_on_call_agent.Incident.Store.{Memory, new_memory, list_events}
use go_on_call_agent.Incident.Store.Audit.{replay, is_status_type}
use go_on_call_agent.Incident.Service.{
  Stamp, CreateIncidentInput, Expirer, transition_with_audit, create, resolve_externally,
}
use go_on_call_agent.Incident.Service.Audit.{
  IsValid, new_memory-IsValid, transition_with_audit-IsValid,
}
use go_on_call_agent.Incident.Service.Create.{create-IsValid}
use go_on_call_agent.Incident.Service.Recovery.{resolve_externally-IsValid}

pub data Request : Type 0 where
  creation : Stamp → CreateIncidentInput → Request
  transition : Stamp → String → Status → String → String → String → Dict Value → Request
  recovery : Stamp → String → Request

-- No caller names a status event as its audit event.
abbrev pub IsProper : Request → Type 0
IsProper (transition t id to reason err_msg event_type payload) = is_status_type event_type ≡ false
IsProper _ = Unit

module _ {S : Type 0} (digest : String → String) (expirer : Expirer S) where
  unfoldable pub serve : Memory × S → Request → Memory × S
  serve (m, s) (creation t input) = ((create digest m t input).1, s)
  serve (m, s) (transition t id to reason err_msg event_type payload) =
      ((transition_with_audit m t id to reason err_msg event_type payload).1, s)
  serve (m, s) (recovery t fingerprint) =
      let (_, m', s') = resolve_externally expirer m s t fingerprint in (m', s')

  unfoldable pub run : Memory × S → List Request → Memory × S
  run w [] = w
  run w (r ∷ rs) = run (serve w r) rs

  pub serve-IsValid :
      (w : Memory × S) (r : Request) → IsProper r → IsValid w.0 → IsValid (serve w r).0
  unfolding serve
  serve-IsValid (m, s) (creation t input) p h = create-IsValid digest m t input h
  serve-IsValid (m, s) (transition t id to reason err_msg event_type payload) p h =
      transition_with_audit-IsValid m t id to reason err_msg event_type payload h p
  serve-IsValid (m, s) (recovery t fingerprint) p h =
      resolve_externally-IsValid expirer m s t fingerprint h

  pub run-IsValid :
      (w : Memory × S) (rs : List Request) → All IsProper rs → IsValid w.0 → IsValid (run w rs).0
  unfolding run
  run-IsValid w [] p h = h
  run-IsValid w (r ∷ rs) p h = run-IsValid (serve w r) rs p.1 (serve-IsValid w r p.0 h)

  -- From an empty store, whatever the requests: the events of every incident replay, step by step and
  -- without a gap, to the status that the incident has.
  pub trail_replays :
      (s : S) (rs : List Request) (k : String) (i : Incident)
      → All IsProper rs
      → lookup k (run (new_memory, s) rs).0.items ≡ some i
      → replay (raw "") (list_events (run (new_memory, s) rs).0 k) ≡ some i.status
  trail_replays s rs k i p there =
      (run-IsValid (new_memory, s) rs p new_memory-IsValid).audited.replayed k i there

  -- From an empty store, whatever the requests: two incidents of one nonempty fingerprint that are
  -- both not terminal are the same.
  pub one_active_incident :
      (s : S) (rs : List Request) (j k : String) (a b : Incident)
      → All IsProper rs
      → lookup j (run (new_memory, s) rs).0.items ≡ some a
      → lookup k (run (new_memory, s) rs).0.items ≡ some b
      → is_terminal a.status ≡ false
      → is_terminal b.status ≡ false
      → a.fingerprint ≢ ""
      → a.fingerprint ≡ b.fingerprint
      → j ≡ k
  one_active_incident s rs j k a b p ja kb aa ab named same =
      (run-IsValid (new_memory, s) rs p new_memory-IsValid).unique.one_active j k a b ja kb aa ab
        same named
