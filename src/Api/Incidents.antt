-- ===== src/Api/Incidents.antt =====
-- internal/api/handler/incident.go, over the incident service, with the bodies of
-- internal/api/dto/incident.go.
pub mod Answers
use go_on_call_agent.Prelude.{
  ℕ, String, Bool, Option, none, some, List, [], ◌∷◌, map, length, str_eq, ◌||◌, if◌then◌else◌,
}
use go_on_call_agent.Prelude.Int.{ℤ, pos}
use go_on_call_agent.Errors.{
  Error, is, not_found, invalid_input, invalid_transition, concurrent_modification, Result, ok, err,
}
use go_on_call_agent.Incident.{Incident, to_status, status_text}
use go_on_call_agent.Incident.Event.{IncidentEvent}
use go_on_call_agent.Incident.Store.{get_by_id}
use go_on_call_agent.Incident.Store.Listing.{Range, list}
use go_on_call_agent.Incident.Service.{Stamp, create, analyze, resolve, list_incident_events}
use go_on_call_agent.Runtime.Diagnose.{DiagnosisResult}
use go_on_call_agent.Sorting.{Sorter}
use go_on_call_agent.World.{World, drawn}
use go_on_call_agent.Api.Response.{Response, json, failure}
use go_on_call_agent.Api.Alerts.{Publisher}

pub record CreateIncidentRequest : Type 0 where
  pub service : String
  pub severity : String
  pub title : String
  pub description : String
  pub alert_name : String

pub record IncidentResponse : Type 0 where
  pub id : String
  pub service : String
  pub severity : String
  pub title : String
  pub description : String
  pub alert_name : String
  pub fingerprint : String
  pub status : String
  pub started_at : ℕ
  pub resolved_at : Option ℕ
  pub created_at : ℕ
  pub updated_at : ℕ

-- ToIncidentResponse
unfoldable pub to_incident_response : Incident → IncidentResponse
to_incident_response inc = record {
  id = inc.id;
  service = inc.service;
  severity = inc.severity;
  title = inc.title;
  description = inc.description;
  alert_name = inc.alert_name;
  fingerprint = inc.fingerprint;
  status = status_text inc.status;
  started_at = inc.started_at;
  resolved_at = inc.resolved_at;
  created_at = inc.created_at;
  updated_at = inc.updated_at;
}

pub record ListIncidentsResponse : Type 0 where
  pub items : List IncidentResponse
  pub total : ℕ

pub record DiagnosisResponse : Type 0 where
  pub run_id : String
  pub conclusion : String
  pub error : String

pub record AnalyzeResponse : Type 0 where
  pub incident : IncidentResponse
  pub diagnosis : Option DiagnosisResponse

-- IncidentHandler beside its service; none is a nil interface.
pub record IncidentHandler : Type 0 where
  pub publisher : Publisher
  pub diagnoser : Option (World → Incident → Result DiagnosisResult × World)

-- The status that respondError gives to an error.
unfoldable pub error_status : Error → ℕ
error_status e =
    if is e invalid_input
    then 400
    else if is e not_found
    then 404
    else if is e invalid_transition || is e concurrent_modification
    then 409
    else 500

-- respondError
unfoldable pub respond_error : {A : Type 0} → Error → Response A
respond_error e = failure (error_status e) e.text

unfoldable pub respond : Result Incident → Response IncidentResponse
respond (ok inc) = json 200 (to_incident_response inc)
respond (err e) = respond_error e

-- The answer to a creation: 201 if it is new.
unfoldable pub respond_created : Result (Incident × Bool) → Response IncidentResponse
respond_created (ok (inc, created)) = json (if created then 201 else 200) (to_incident_response inc)
respond_created (err e) = respond_error e

-- parseIntDefault, over strconv.Atoi
unfoldable pub parse_int_default : (String → Result ℤ) → String → ℤ → ℤ
parse_int_default atoi s default =
    if str_eq s "" then default else elim (atoi s) [ ok n ↦ n | err _ ↦ default ]

module _ (source : ℕ → Stamp) where
  -- Create, of what ShouldBindJSON makes of the body.
  unfoldable pub create_one :
      (String → String) → World → Result CreateIncidentRequest → Response IncidentResponse × World
  create_one digest w (err e) = (failure 400 e.text, w)
  create_one digest w (ok req) =
      let (r, m') = create digest w.incidents (source w.draws) (record {
        service = req.service;
        severity = req.severity;
        title = req.title;
        description = req.description;
        alert_name = req.alert_name;
      }) in
      (respond_created r, record (drawn w) { incidents = m' })

  -- List, of the query's service, status, limit and offset, with the order of its range over the map.
  unfoldable pub list_all :
      Sorter
      → Range
      → (String → Result ℤ)
      → World
      → String
      → String
      → String
      → String
      → Response ListIncidentsResponse
  list_all S range atoi w service status limit offset =
      let items = list S range w.incidents (record {
        service = service;
        status = to_status status;
        limit = parse_int_default atoi limit (pos 50);
        offset = parse_int_default atoi offset (pos 0);
      }) in
      json 200 (record { items = map to_incident_response items; total = length items })

  -- Get
  unfoldable pub get_one : World → String → Response IncidentResponse
  get_one w id = respond (get_by_id w.incidents id)

  -- The diagnosis in the body of Analyze.
  unfoldable pub diagnosis_response : Result DiagnosisResult → DiagnosisResponse
  diagnosis_response (ok x) = record { run_id = x.run_id; conclusion = x.conclusion; error = "" }
  diagnosis_response (err e) = record { run_id = ""; conclusion = ""; error = e.text }

  -- The publication or the diagnosis, with the ids that were handed to the publisher.
  unfoldable pub hand_on :
      IncidentHandler → Incident → World → Option DiagnosisResponse × World × List String
  hand_on h inc w = elim h.publisher [
    | some publish ↦ (
      elim (publish w.draws inc.id) [ some e ↦ some (diagnosis_response (err e)) | none ↦ none ],
      w,
      inc.id ∷ [],
    )
    | none ↦ elim h.diagnoser [
      | none ↦ (none, w, [])
      | some diagnose ↦ let (r, w') = diagnose w inc in (some (diagnosis_response r), w', [])
    ]
  ]

  -- The answer of Analyze once the service has answered.
  unfoldable pub after_analyze :
      IncidentHandler → Result Incident → World → Response AnalyzeResponse × World × List String
  after_analyze h (err e) w = (respond_error e, w, [])
  after_analyze h (ok inc) w =
      let (d, w', sent) = hand_on h inc w in
      (json 200 (record { incident = to_incident_response inc; diagnosis = d }), w', sent)

  -- Analyze
  unfoldable pub analyze_one :
      IncidentHandler → World → String → Response AnalyzeResponse × World × List String
  analyze_one h w id =
      let (r, m') = analyze w.incidents (source w.draws) id in
      after_analyze h r (record (drawn w) { incidents = m' })

  -- Resolve
  unfoldable pub resolve_one : World → String → Response IncidentResponse × World
  resolve_one w id =
      let (r, m') = resolve w.incidents (source w.draws) id in
      (respond r, record (drawn w) { incidents = m' })

  -- Events
  unfoldable pub events_one : World → String → Response (List IncidentEvent)
  events_one w id = elim (list_incident_events w.incidents id) [
    | err e ↦ respond_error e
    | ok events ↦ json 200 events
  ]
