-- ===== src/Api/Router/Access.antt =====
-- Who reaches the handlers.
use go_on_call_agent.Prelude.{
  String, true, some, ◌≡◌, ◌≢◌, ◌⊎◌, ◌↔◌, arith, str_eq, eq_iff, if◌then◌else◌,
}
use go_on_call_agent.Api.Auth.{
  AuthConfig, Request, Context, webhook, read, admin, next, enabled, bearer_token, token_matches,
  set_actor, webhook_auth, read_auth, admin_auth,
}
use go_on_call_agent.Api.Router.{
  Route, Group, open_group, read_group, webhook_group, admin_group, group, guard, serve,
  empty_context,
}

-- The presented text is a token that is configured.
abbrev pub IsToken : String → String → Type 0
IsToken configured presented = (configured ≢ "") × (presented ≡ configured)

matches_iff :
    (configured presented : String)
    → (token_matches configured presented ≡ true) ↔ IsToken configured presented
unfolding token_matches
matches_iff configured presented =
    ground (arith, eq_iff configured "", eq_iff presented "", eq_iff configured presented)

-- The context of a caller with the admin token: the actor is the server's, or "admin".
abbrev pub admin_context : AuthConfig → Context
admin_context auth = record {
  role = some admin;
  actor = if str_eq auth.admin_actor "" then "admin" else auth.admin_actor;
}

abbrev pub read_context : Context
read_context = record { role = some read; actor = "" }

abbrev pub webhook_context : Context
webhook_context = record { role = some webhook; actor = "" }

-- What a request must show to reach a handler of the group, and the context that the handler gets.
abbrev pub IsAllowed : AuthConfig → Request → Context → Group → Type 0
IsAllowed auth r c open_group = c ≡ empty_context
IsAllowed auth r c read_group =
    (IsToken auth.admin_token (bearer_token r) × (c ≡ admin_context auth))
    ⊎ ((¬ (IsToken auth.admin_token (bearer_token r)))
        × IsToken auth.read_token (bearer_token r)
        × (c ≡ read_context))
IsAllowed auth r c webhook_group =
    IsToken auth.webhook_token r.webhook_header × (c ≡ webhook_context)
IsAllowed auth r c admin_group =
    IsToken auth.admin_token (bearer_token r) × (c ≡ admin_context auth)

next_iff : (d c : Context) → (next d ≡ next c) ↔ (c ≡ d)
next_iff d c = ground arith

guard_iff :
    (auth : AuthConfig) (r : Request) (c : Context) (g : Group)
    → enabled auth ≡ true
    → (guard auth g r ≡ next c) ↔ IsAllowed auth r c g
unfolding guard read_auth webhook_auth admin_auth set_actor
guard_iff auth r c open_group h = next_iff empty_context c
guard_iff auth r c read_group h =
    let presented = bearer_token r in
    ground (
      arith,
      h,
      matches_iff auth.admin_token presented,
      matches_iff auth.read_token presented,
      next_iff (admin_context auth) c,
      next_iff read_context c,
    )
guard_iff auth r c webhook_group h =
    ground (arith, h, matches_iff auth.webhook_token r.webhook_header, next_iff webhook_context c)
guard_iff auth r c admin_group h =
    ground
      (arith, h, matches_iff auth.admin_token (bearer_token r), next_iff (admin_context auth) c)

-- Once any token is configured, a request reaches a handler exactly as its group says: the health
-- routes always, the alerts with the webhook token, the queries with the admin or the read token, and
-- every change with the admin token, each token configured and not empty; and only the admin token
-- makes an actor, the one that the server is configured with.
pub serve_iff :
    (auth : AuthConfig) (route : Route) (r : Request) (c : Context)
    → enabled auth ≡ true
    → (serve auth route r ≡ next c) ↔ IsAllowed auth r c (group route)
unfolding serve
serve_iff auth route r c h = guard_iff auth r c (group route) h
