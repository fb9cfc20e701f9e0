-- ===== src/Api/Alerts.antt =====
-- internal/api/handler/alert.go: the webhook of Alertmanager, over the incident service. The decoding
-- of the body, metrics and logs are left out.
pub mod Delivery
use go_on_call_agent.Prelude.{
  ℕ, suc, String, Bool, true, false, Option, none, some, List, [], ◌∷◌, snoc, not, ◌&&◌, ◌||◌,
  str_eq, ◌<>◌, if◌then◌else◌,
}
use go_on_call_agent.Errors.{Error, Result, ok, err}
use go_on_call_agent.Dict.{Dict, entry}
use go_on_call_agent.Incident.{Incident, opened, resolved, status_eq, make_fingerprint}
use go_on_call_agent.Incident.Store.{Memory}
use go_on_call_agent.Incident.Service.{Stamp, Expirer, create, resolve_externally}
use go_on_call_agent.Run.{MemoryRun}
use go_on_call_agent.Sorting.{Sorter}
use go_on_call_agent.Runtime.Worker.{has_active_run}

-- The parts of dto.Alert that are read.
pub record Alert : Type 0 where
  pub status : String
  pub labels : Dict String
  pub annotations : Dict String

-- alertService
unfoldable pub alert_service : Alert → String
alert_service alert =
    let service = entry alert.labels "service" in
    let job = entry alert.labels "job" in
    if not (str_eq service "") then service else if not (str_eq job "") then job else "unknown"

unfoldable pub alert_title : Alert → String
alert_title alert =
    let summary = entry alert.annotations "summary" in
    let name = entry alert.labels "alertname" in
    let title = if str_eq summary "" then name else summary in
    if str_eq title "" then "unknown alert" else title

-- The state that a request works on: the incidents, what the expirer works on, the draws from the
-- clock, the ids that were handed to the publisher, and the response's three lists.
pub record Progress (E : Type 0) : Type 0 where
  pub incidents : Memory
  pub expiring : E
  pub draws : ℕ
  pub sent : List String
  pub created : List String
  pub resolved_ids : List String
  pub failed : List String

-- Publisher: none is no publisher. Its answer, an error or nil, may differ at each draw.
abbrev pub Publisher : Type 0
Publisher = Option (ℕ → String → Option Error)

-- AlertHandler. The runs do not change while it works; none is no repository.
pub record Handler (E : Type 0) : Type 1 where
  pub digest : String → String
  pub source : ℕ → Stamp
  pub expirer : Expirer E
  pub publisher : Publisher
  pub runs : Option MemoryRun
  pub sorter : Sorter

unfoldable pub response_status : List String → ℕ
response_status [] = 200
response_status (_ ∷ _) = 503

module _ {E : Type 0} (h : Handler E) where
  -- hasActiveRun
  unfoldable pub handler_has_active_run : String → Bool
  handler_has_active_run incident_id = elim h.runs [
    | none ↦ false
    | some m ↦ has_active_run h.sorter m incident_id
  ]

  abbrev add_failure : String → String → Error → Progress E → Progress E
  add_failure action name e p = record p {
    failed = snoc p.failed (action <> " " <> name <> ": " <> e.text);
  }

  -- A notification that the alert has recovered.
  unfoldable pub recover : Alert → Progress E → Progress E
  recover alert p =
      let name = entry alert.labels "alertname" in
      let fingerprint = make_fingerprint h.digest (alert_service alert) name (alert_title alert) in
      let (r, m', s') =
        resolve_externally h.expirer p.incidents p.expiring (h.source p.draws) fingerprint in
      let p' = record p { incidents = m'; expiring = s'; draws = suc p.draws } in
      elim r [
        | err e ↦ add_failure "resolve" name e p'
        | ok inc ↦
            if status_eq inc.status resolved
            then record p' { resolved_ids = snoc p'.resolved_ids inc.id }
            else p'
      ]

  -- The publication for an incident.
  unfoldable pub hand_over : String → Incident → Progress E → Progress E
  hand_over name inc p = elim h.publisher [
    | none ↦ p
    | some publish ↦
        let answer = publish p.draws inc.id in
        let p' = record p { sent = snoc p.sent inc.id } in
        elim answer [ some e ↦ add_failure "publish" name e p' | none ↦ p' ]
  ]

  -- A firing alert after the incident was created or found.
  unfoldable pub after_create : String → Result (Incident × Bool) → Progress E → Progress E
  after_create name (err e) p = add_failure "create" name e p
  after_create name (ok (inc, is_new)) p =
      if is_new
      then hand_over name inc (record p { created = snoc p.created inc.id })
      else if not (status_eq inc.status opened) || handler_has_active_run inc.id
      then p
      else hand_over name inc p

  -- What the service answers to a firing alert, and the store after it.
  unfoldable pub created_for : Alert → Progress E → Result (Incident × Bool) × Memory
  created_for alert p = create h.digest p.incidents (h.source p.draws) (record {
    service = alert_service alert;
    severity = entry alert.labels "severity";
    title = alert_title alert;
    description = entry alert.annotations "description";
    alert_name = entry alert.labels "alertname";
  })

  unfoldable pub fire : Alert → Progress E → Progress E
  fire alert p =
      let (r, m') = created_for alert p in
      after_create (entry alert.labels "alertname") r
        (record p { incidents = m'; draws = suc p.draws })

  -- One round of the loop.
  unfoldable pub handle : Alert → Progress E → Progress E
  handle alert p = if str_eq alert.status "resolved" then recover alert p else fire alert p

  unfoldable pub handle_all : List Alert → Progress E → Progress E
  handle_all [] p = p
  handle_all (a ∷ rest) p = handle_all rest (handle a p)

  -- The three lists of the response at its start.
  abbrev pub fresh_lists : Progress E → Progress E
  fresh_lists p = record p { created = []; resolved_ids = []; failed = [] }

  -- Webhook: the response's status, and the progress that its lists are taken from.
  unfoldable pub webhook : List Alert → Progress E → ℕ × Progress E
  webhook alerts p =
      let done = handle_all alerts (fresh_lists p) in (response_status done.failed, done)
