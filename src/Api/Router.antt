-- ===== src/Api/Router.antt =====
-- internal/api/router/router.go: which requests reach which handler. The matching of a method and a
-- path to its route is gin's; a route is named by its handler.
pub mod Access
use go_on_call_agent.Prelude.{String, Bool, true, false, none, if◌then◌else◌}
use go_on_call_agent.Api.Auth.{
  AuthConfig, Request, Context, Verdict, next, enabled, webhook_auth, read_auth, admin_auth,
}

pub data Route : Type 0 where
  health ready : Route
  list_incidents get_incident runs_by_incident incident_events : Route
  get_run run_steps run_evidences run_tool_calls run_approvals run_stream : Route
  list_approvals get_approval : Route
  alerts : Route
  create_incident analyze_incident resolve_incident approve_approval reject_approval : Route

pub data Group : Type 0 where
  open_group read_group webhook_group admin_group : Group

-- The group that a route is registered in.
unfoldable pub group : Route → Group
group health = open_group
group ready = open_group
group list_incidents = read_group
group get_incident = read_group
group runs_by_incident = read_group
group incident_events = read_group
group get_run = read_group
group run_steps = read_group
group run_evidences = read_group
group run_tool_calls = read_group
group run_approvals = read_group
group run_stream = read_group
group list_approvals = read_group
group get_approval = read_group
group alerts = webhook_group
group create_incident = admin_group
group analyze_incident = admin_group
group resolve_incident = admin_group
group approve_approval = admin_group
group reject_approval = admin_group

abbrev pub empty_context : Context
empty_context = record { role = none; actor = "" }

-- The middleware that a group got.
unfoldable pub guard : AuthConfig → Group → Request → Verdict
guard auth open_group r = next empty_context
guard auth read_group r =
    if enabled auth then read_auth auth r empty_context else next empty_context
guard auth webhook_group r =
    if enabled auth then webhook_auth auth r empty_context else next empty_context
guard auth admin_group r =
    if enabled auth then admin_auth auth r empty_context else next empty_context

-- What a request to a route meets before its handler.
unfoldable pub serve : AuthConfig → Route → Request → Verdict
serve auth route r = guard auth (group route) r
