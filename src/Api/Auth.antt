-- ===== src/Api/Auth.antt =====
-- internal/api/middleware/auth.go: the tokens of the three kinds of caller.
use Prim.Native.Char.{code}
use go_on_call_agent.Prelude.{
  ℕ, ◌+◌, String, Bool, false, Option, none, some, ◌&&◌, ◌||◌, not, leb, ◌==◌, str_eq,
  if◌then◌else◌,
}
use go_on_call_agent.Text.{trim_space}

pub record AuthConfig : Type 0 where
  pub webhook_token : String
  pub read_token : String
  pub admin_token : String
  pub admin_actor : String

-- The two headers that the middleware reads; a header that is missing is empty.
pub record Request : Type 0 where
  pub webhook_header : String
  pub authorization : String

pub data Role : Type 0 where
  webhook read admin : Role

-- What the context of a request holds: a role, if one was set, and the actor, empty if none was.
pub record Context : Type 0 where
  pub role : Option Role
  pub actor : String

-- c.Next with the context, or an abort with a status and a message.
pub data Verdict : Type 0 where
  next : Context → Verdict
  abort : ℕ → String → Verdict

-- AuthConfig.Enabled
unfoldable pub enabled : AuthConfig → Bool
enabled a =
    not (str_eq a.webhook_token "") || not (str_eq a.read_token "") || not (str_eq a.admin_token "")

-- The lower case of an ASCII letter's code.
unfoldable pub lower_code : ℕ → ℕ
lower_code c = if leb 65 c && leb c 90 then c + 32 else c

-- The rest after a prefix written in lower-case ASCII, whatever the case in the text. No other letter
-- folds to one of "bearer ", so that the prefix has its seven bytes.
unfoldable pub strip_fold : String → String → Option String
strip_fold String.[] s = some s
strip_fold (String.◌∷◌ p ps) String.[] = none
strip_fold (String.◌∷◌ p ps) (String.◌∷◌ c s) =
    let rest = strip_fold ps s in if lower_code (code c) == code p then rest else none

-- bearerToken
unfoldable pub bearer_token : Request → String
bearer_token r = elim (strip_fold "bearer " r.authorization) [
  | none ↦ ""
  | some rest ↦ trim_space rest
]

-- tokenMatches
unfoldable pub token_matches : String → String → Bool
token_matches configured presented =
    if str_eq configured "" || str_eq presented "" then false else str_eq configured presented

abbrev pub unauthorized : String → Verdict
unauthorized message = abort 401 message

abbrev pub forbidden : String → Verdict
forbidden message = abort 403 message

-- setActor
unfoldable pub set_actor : Context → AuthConfig → Role → Context
set_actor c cfg admin = record {
  role = some admin;
  actor = if str_eq cfg.admin_actor "" then "admin" else cfg.admin_actor;
}
set_actor c cfg role = record c { role = some role }

-- WebhookAuth
unfoldable pub webhook_auth : AuthConfig → Request → Context → Verdict
webhook_auth cfg r c =
    if not (token_matches cfg.webhook_token r.webhook_header)
    then unauthorized "invalid or missing webhook token"
    else next (record c { role = some webhook })

-- ReadAuth
unfoldable pub read_auth : AuthConfig → Request → Context → Verdict
read_auth cfg r c =
    let presented = bearer_token r in
    if token_matches cfg.admin_token presented
    then next (set_actor c cfg admin)
    else if token_matches cfg.read_token presented
    then next (set_actor c cfg read)
    else unauthorized "invalid or missing read token"

-- AdminAuth
unfoldable pub admin_auth : AuthConfig → Request → Context → Verdict
admin_auth cfg r c =
    let presented = bearer_token r in
    if token_matches cfg.admin_token presented
    then next (set_actor c cfg admin)
    else if token_matches cfg.read_token presented
    then forbidden "admin token required"
    else unauthorized "invalid or missing admin token"
