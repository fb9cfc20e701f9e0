-- ===== src/Examples/Records.antt =====
-- The records of a run, the listings, the registry, the webhook and the index.
use go_on_call_agent.Prelude.{
  length, ◌≤◌, select, ◌↔◌, ℕ, String, none, some, List, [], ◌∷◌, ◌++◌, map, All, ◌≡◌, refl, arith,
}
use go_on_call_agent.Prelude.Int.{pos}
use go_on_call_agent.Errors.{ok}
use go_on_call_agent.Dict.{entry, lookup, insert, values}
use go_on_call_agent.Incident.Event.{insert_nonempty, new_incident_event}
use go_on_call_agent.Incident.{identity_key, is_terminal, make_fingerprint, status_eq, raw}
use go_on_call_agent.Incident.Store.{
  get_active_by_fingerprint, create_with_event, check_create_conflicts, check_event_conflict,
  add_event_locked, blocks, create_locked, newest, new_memory,
}
use mathlib.Core.List.{Permᴰ, Memᴰ}
use go_on_call_agent.Incident.Store.{Memory}
use go_on_call_agent.Incident.{Incident, status_eq}
use go_on_call_agent.Sorting.{Permᴰ_refl}
use go_on_call_agent.Incident.Store.Listing.{
  ListFilter, list, page, passes, IsUntied, IsRange, IsLatestFirst, IsMatch, list-pages,
}
use go_on_call_agent.Incident.Service.{
  create, create_commit, after_conflict, created_event, new_incident,
}
use go_on_call_agent.Policy.{low, high}
use go_on_call_agent.Registry.{RegisteredTool, Registry, new_registry, all, names, get}
use go_on_call_agent.Registry.Order.{
  Registration, register_all, first_named, add_entries, register_all_lem,
}
use go_on_call_agent.Run.{
  AgentStep, ToolCall, Evidence, new_memory_run, add_step, add_tool_call, add_evidence,
}
use go_on_call_agent.Run.Listing.{
  list_steps, list_tool_calls, list_evidences, step_before, call_before, evidence_before,
  IsRecorded, add_step-IsRecorded,
}
use go_on_call_agent.Sorting.Insertion.{insertion}
use go_on_call_agent.Approval.{Approvals, Approval}
use go_on_call_agent.Approval.Listing.{IsOrdered, IsWaiting, list_pending, list_pending_lem}
use go_on_call_agent.Runtime.Recorder.Calls.{running_call}
use go_on_call_agent.Api.Alerts.{
  response_status, handle_all, handle, fire, after_create, created_for, alert_service, alert_title,
  hand_over, Alert, Progress, Handler, webhook, fresh_lists,
}
use go_on_call_agent.Api.Alerts.Delivery.{IsDelivered, stages, webhook-IsDelivered}
use go_on_call_agent.Examples.{digest}
use go_on_call_agent.Examples.Execution.{one_approval}
use go_on_call_agent.Examples.Working.{incident, source, milliseconds, echo, quiet, recorder}
use go_on_call_agent.Knowledge.{Chunk}
use go_on_call_agent.Knowledge.VectorStore.{hashes, upsert}
use go_on_call_agent.Knowledge.Index.{
  Indexing, Embedder, one_vector, chunk_hash, chunk_point, embed_chunk, index_loop, index,
}
use go_on_call_agent.Knowledge.Index.Again.{IsIndexed, index_again}

abbrev one_step : AgentStep
one_step = record {
  id = "step_1";
  run_id = "run_1";
  step_index = 1;
  agent = "diagnosis";
  action = "finalize";
  status = "COMPLETED";
  input = "";
  output = "lag";
  duration = 0;
}

abbrev one_call : ToolCall
one_call = running_call source milliseconds echo recorder quiet "a"

abbrev one_evidence : Evidence
one_evidence = record {
  id = "ev_1";
  run_id = "run_1";
  typ = "METRIC";
  source = "prometheus";
  content = "lag";
  created_at = 1;
}

add_step-IsRecorded_example :
    IsRecorded insertion
      (list_steps insertion)
      step_before
      new_memory_run
      (add_step new_memory_run one_step)
      "run_1"
      one_step
    × IsRecorded insertion
        (list_tool_calls insertion)
        call_before
        new_memory_run
        (add_tool_call new_memory_run one_call)
        "run_1"
        one_call
    × IsRecorded insertion
        (list_evidences insertion)
        evidence_before
        new_memory_run
        (add_evidence new_memory_run one_evidence)
        "run_1"
        one_evidence
add_step-IsRecorded_example =
    add_step-IsRecorded insertion new_memory_run one_step one_call one_evidence

abbrev no_filter : ListFilter
no_filter = record { service = ""; status = raw ""; limit = pos 50; offset = pos 0 }

abbrev later_incident : Incident
later_incident = record incident { id = "inc_2"; created_at = 2 }

abbrev two_incidents : Memory
two_incidents = record new_memory { items = ("inc_1", incident) ∷ ("inc_2", later_incident) ∷ [] }

-- A range that meets the two incidents the other way round.
abbrev backwards : List Incident → List Incident
backwards (a ∷ b ∷ l) = b ∷ a ∷ l
backwards l = l

untied : IsUntied two_incidents no_filter
unfolding passes values status_eq select
untied = (((λ e. ground (arith, e)), tt), (tt, tt))

backwards-IsRange : IsRange two_incidents backwards
unfolding values
backwards-IsRange = Permᴰ.swap refl refl

list-pages_example :
    (list insertion backwards two_incidents (page no_filter 0 1)
        ++ list insertion (λ l. l) two_incidents (page no_filter 1 1)
      ≡ list insertion (λ l. l) two_incidents (page no_filter 0 2))
    × IsLatestFirst (list insertion (λ l. l) two_incidents (page no_filter 0 2))
    × ((inc : Incident)
        → length (values two_incidents.items) ≤ 2
        → Memᴰ inc (list insertion (λ l. l) two_incidents (page no_filter 0 2))
          ↔ (IsMatch no_filter inc × Memᴰ inc (values two_incidents.items)))
list-pages_example =
    list-pages insertion backwards (λ l. l) (λ l. l) two_incidents no_filter 0 1 1 untied
      backwards-IsRange (Permᴰ_refl (values two_incidents.items))
      (Permᴰ_refl (values two_incidents.items)) (omega arith) (omega arith)

abbrev one_stored : Approvals
one_stored = ("ap_1", one_approval) ∷ []

list_pending_lem_example :
    IsOrdered (list_pending insertion one_stored)
    × ((a : Approval) → Memᴰ a (list_pending insertion one_stored) ↔ IsWaiting one_stored a)
unfolding lookup
list_pending_lem_example = list_pending_lem insertion one_stored (refl, tt)

abbrev two_registrations : List (Registration ℕ)
two_registrations =
    record { name = ok "logs"; tool = 1; risk = low }
    ∷ record { name = ok "logs"; tool = 2; risk = high }
    ∷ []

abbrev zero_tool : RegisteredTool ℕ
zero_tool = record { name = ""; tool = 0; risk_level = low }

abbrev filled : Registry ℕ
filled = register_all ℕ (λ s. s) (new_registry ℕ) two_registrations

register_all_lem_example :
    (all ℕ zero_tool filled ≡ add_entries ℕ [] two_registrations)
    × (names ℕ filled ≡ map (λ e. e.name) (add_entries ℕ [] two_registrations))
    × ((n : String) → get ℕ filled n ≡ first_named ℕ n (add_entries ℕ [] two_registrations))
register_all_lem_example = register_all_lem ℕ (λ s. s) zero_tool two_registrations

abbrev firing : Alert
firing = record {
  status = "firing";
  labels = ("alertname", "Backlog") ∷ ("service", "api") ∷ [];
  annotations = [];
}

abbrev handler : Handler ℕ
handler = record {
  digest = digest;
  source = source;
  expirer = none;
  publisher = some (λ n id. none);
  runs = some new_memory_run;
  sorter = insertion;
}

abbrev untouched : Progress ℕ
untouched = record {
  incidents = new_memory;
  expiring = 0;
  draws = 0;
  sent = [];
  created = [];
  resolved_ids = [];
  failed = [];
}

all_well : (webhook handler (firing ∷ []) untouched).0 ≡ 200
unfolding webhook lookup values insert response_status handle_all handle fire after_create
    created_for create alert_service entry alert_title get_active_by_fingerprint create_commit
    create_with_event check_create_conflicts check_event_conflict hand_over insert_nonempty
    new_incident_event after_conflict created_event new_incident add_event_locked blocks
    create_locked newest identity_key is_terminal make_fingerprint status_eq
all_well = refl

webhook-IsDelivered_example :
    All
      (λ (a, q). IsDelivered handler a q)
      (stages handler (firing ∷ []) (fresh_lists handler untouched))
webhook-IsDelivered_example = webhook-IsDelivered handler (firing ∷ []) untouched all_well

abbrev runbook : Chunk
runbook = record {
  id = "c1";
  doc_id = "d1";
  source = "runbook.md";
  doc_type = "runbook";
  service = "";
  component = "mq";
  incident_type = "";
  product_version = "";
  source_kind = "";
  source_url = "";
  last_verified_at = "";
  title = "backlog";
  content = "restart the consumer";
  severity = "";
  tags = [];
}

abbrev embedder : Embedder ℕ
embedder past texts = ok ((1 ∷ 2 ∷ []) ∷ [])

abbrev empty_index : Indexing ℕ
empty_index = record { points = []; embedded = [] }

abbrev indexed : Indexing ℕ
indexed = record {
  points = ("c1", chunk_point ℕ digest embedder runbook (1 ∷ 2 ∷ [])) ∷ [];
  embedded = "restart the consumer" ∷ [];
}

first_index : index ℕ digest embedder (runbook ∷ []) empty_index ≡ (none, indexed)
unfolding index index_loop hashes entry lookup embed_chunk one_vector chunk_hash upsert insert
    chunk_point
first_index = refl

index_again_example :
    All (IsIndexed ℕ digest embedder indexed) (runbook ∷ [])
    × (index ℕ digest embedder (runbook ∷ []) indexed ≡ (none, indexed))
index_again_example =
    index_again ℕ digest embedder (runbook ∷ []) empty_index indexed (tt, tt) tt first_index
