-- ===== src/Examples/Handled.antt =====
-- The handlers of incidents on a store with one open incident.
use go_on_call_agent.Prelude.{none, some, [], ◌∷◌, refl}
use go_on_call_agent.Dict.{lookup, insert, values}
use go_on_call_agent.Incident.{identity_key, make_fingerprint}
use go_on_call_agent.Incident.Event.{new_incident_event, insert_nonempty}
use go_on_call_agent.Incident.Service.Lifecycle.{creation, run, serve, run-IsValid}
use go_on_call_agent.Incident.Store.{
  new_memory, add_event_locked, add_events, blocks, check_create_conflicts, check_event_conflict,
  check_events, create_locked, create_with_event, get_active_by_fingerprint, newest,
}
use go_on_call_agent.Incident.Service.Audit.{IsValid, new_memory-IsValid}
use go_on_call_agent.Incident.Service.{
  status_event, create, create_commit, created_event, new_incident, after_conflict,
}
use go_on_call_agent.World.{World}
use go_on_call_agent.Api.Incidents.{IncidentHandler, analyze_one}
use go_on_call_agent.Api.Incidents.Answers.{Analyzed, analyze_one_lem}
use go_on_call_agent.Examples.{stamp, digest, no_expirer, alert, after}
use go_on_call_agent.Examples.Working.{source, quiet}

abbrev handler : IncidentHandler
handler = record { publisher = some (λ n id. none); diagnoser = none }

abbrev opened_world : World
opened_world = record quiet { incidents = after (creation (stamp "1") alert ∷ []) }

open_valid : IsValid opened_world.incidents
open_valid =
    run-IsValid digest no_expirer (new_memory, tt) (creation (stamp "1") alert ∷ []) (tt, tt)
      new_memory-IsValid

analyze_one_lem_example :
    Analyzed handler opened_world "inc_1" (analyze_one source handler opened_world "inc_1")
unfolding add_event_locked add_events blocks check_create_conflicts check_event_conflict
    check_events create_locked create_with_event get_active_by_fingerprint newest run serve
    status_event create create_commit created_event new_incident after_conflict identity_key
    make_fingerprint insert_nonempty new_incident_event lookup insert values
analyze_one_lem_example =
    analyze_one_lem source handler (λ d e v i. cc) opened_world "inc_1" open_valid.unique
      (λ old at. refl)
