-- ===== src/Bootstrap/Guarded.antt =====
-- internal/bootstrap/server.go: the tokens of the configuration at the routes.
use go_on_call_agent.Prelude.{none, some, ◌≡◌, ◌⊎◌, str_eq, if◌then◌else◌}
use go_on_call_agent.Config.{Config}
use go_on_call_agent.Api.Auth.{AuthConfig, Request, Context, webhook, read, admin, bearer_token}
use go_on_call_agent.Api.Router.{
  Route, health, ready, alerts, create_incident, analyze_incident, resolve_incident,
  approve_approval, reject_approval,
}
use go_on_call_agent.Api.Router.Access.{IsToken}

-- The middleware.AuthConfig that the engine is built with.
unfoldable pub auth_config : Config → AuthConfig
auth_config c = record {
  webhook_token = c.auth.webhook_token;
  read_token = c.auth.read_token;
  admin_token = c.auth.admin_token;
  admin_actor = c.auth.admin_actor;
}

-- A request with the admin token, and the context that it makes.
abbrev pub IsAdmin : Config → Request → Context → Type 0
IsAdmin c r ctx =
    IsToken c.auth.admin_token (bearer_token r)
    × (ctx ≡ record {
      role = some admin;
      actor = if str_eq c.auth.admin_actor "" then "admin" else c.auth.admin_actor;
    })

-- What the configuration's file asks of a request to a route: nothing for the probes, the webhook
-- token in its header for the alerts, the admin token for what changes anything, and the admin or the
-- read token for the rest. Only the admin token makes an actor, the configured one or "admin".
abbrev pub IsPermitted : Config → Request → Context → Route → Type 0
IsPermitted c r ctx health = ctx ≡ record { role = none; actor = "" }
IsPermitted c r ctx ready = ctx ≡ record { role = none; actor = "" }
IsPermitted c r ctx alerts =
    IsToken c.auth.webhook_token r.webhook_header
    × (ctx ≡ record { role = some webhook; actor = "" })
IsPermitted c r ctx create_incident = IsAdmin c r ctx
IsPermitted c r ctx analyze_incident = IsAdmin c r ctx
IsPermitted c r ctx resolve_incident = IsAdmin c r ctx
IsPermitted c r ctx approve_approval = IsAdmin c r ctx
IsPermitted c r ctx reject_approval = IsAdmin c r ctx
IsPermitted c r ctx _ =
    IsAdmin c r ctx
    ⊎ ((¬ (IsToken c.auth.admin_token (bearer_token r)))
        × IsToken c.auth.read_token (bearer_token r)
        × (ctx ≡ record { role = some read; actor = "" }))
