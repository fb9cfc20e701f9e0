-- ===== src/Incident/Event.antt =====
-- internal/incident/model/incident_event.go. Payload values of other JSON types than text are one
-- constructor, since the code reads texts only. Ids and times come from the caller.
use go_on_call_agent.Prelude.{ℕ, String, Option, some, [], str_eq, if◌then◌else◌, not, ◌<>◌}
use go_on_call_agent.Dict.{Dict, lookup, insert}
use go_on_call_agent.Incident.{Status, status_text, to_status}

abbrev pub incident_created : String
incident_created = "INCIDENT_CREATED"

abbrev pub status_transition : String
status_transition = "STATUS_TRANSITION"

abbrev pub action_completed : String
action_completed = "ACTION_COMPLETED"

abbrev pub action_failed : String
action_failed = "ACTION_FAILED"

abbrev pub verification_failed : String
verification_failed = "VERIFICATION_FAILED"

abbrev pub postmortem_generated : String
postmortem_generated = "POSTMORTEM_GENERATED"

pub data Value : Type 0 where
  text : String → Value
  other : Value

pub record IncidentEvent : Type 0 where
  pub id : String
  pub incident_id : String
  pub event_type : String
  pub payload : Dict Value
  pub created_at : ℕ

-- NewAuditEvent; a nil payload is the empty map.
unfoldable pub new_audit_event : String → ℕ → String → String → Dict Value → IncidentEvent
new_audit_event uuid now incident_id event_type payload = record {
  id = "evt_" <> uuid;
  incident_id = incident_id;
  event_type = event_type;
  payload = payload;
  created_at = now;
}

-- payload[key] = value, if the value is not empty
unfoldable pub insert_nonempty : String → String → Dict Value → Dict Value
insert_nonempty key value p = if not (str_eq value "") then insert key (text value) p else p

-- NewIncidentEvent
unfoldable pub new_incident_event :
    String → ℕ → String → String → Status → Status → String → String → IncidentEvent
unfolding insert_nonempty
new_incident_event uuid now incident_id event_type from to reason err_msg = record {
  id = "evt_" <> uuid;
  incident_id = incident_id;
  event_type = event_type;
  payload = insert_nonempty "error" err_msg (
      insert_nonempty "reason" reason
        (insert "to" (text (status_text to)) (insert "from" (text (status_text from)) [])));
  created_at = now;
}

abbrev pub as_text : Option Value → String
as_text (some (text s)) = s
as_text _ = ""

-- payloadString
unfoldable pub payload_string : Dict Value → String → String
payload_string payload key = as_text (lookup key payload)

-- StatusChange
unfoldable pub status_change_from : IncidentEvent → Status
unfolding payload_string
status_change_from e = to_status (payload_string e.payload "from")

unfoldable pub status_change_to : IncidentEvent → Status
unfolding payload_string
status_change_to e = to_status (payload_string e.payload "to")

-- ReasonText
unfoldable pub reason_text : IncidentEvent → String
unfolding payload_string
reason_text e =
    let r = payload_string e.payload "reason" in
    if not (str_eq r "") then r else payload_string e.payload "error"
