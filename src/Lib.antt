-- ===== src/Lib.antt =====
-- A model of GoOnCall Agent, the on-call agent that turns alerts into incidents, diagnoses them, asks a
-- person to approve an action, executes it, verifies the recovery and closes the incident.
--
-- The program is a Go service. An incident lives in a repository (internal/incident/repository) and is
-- moved by the incident service (internal/incident/service) along the state machine
-- (internal/incident/state_machine), each move with its audit events in the same critical section. The
-- approval service (internal/execution/approval) holds the approvals, moves the bound incident, and
-- calls the action executor, which is the remediation (internal/execution/executor): the deployment
-- tool, the verifier and the postmortem. Failed messages of the queue are retried a bounded number of
-- times (internal/messaging).
--
-- Shared:
--   Prelude, Dict: library names, Boolean tests, Go's int, maps with string keys, slices.
--   Errors: error values by the sentinels that errors.Is finds in them (repository.go, the services).
--   Text: what is used of package strings. Sorting: sort.Slice as a parameter, any function that
--     permutes and orders; insertion sort is one.
-- Incidents:
--   Incident: statuses, incidents, fingerprints (internal/incident/model/incident.go, fingerprint.go).
--   Incident.Event: incident_event.go. Incident.StateMachine: state_machine/transition.go.
--   Incident.Store: repository/memory.go and event_memory.go; get_by_id is GetByID, create_with_event
--     CreateWithEvent and so on. Its children: the effect of each write (Writes), the unique active
--     incident (Unique), the searches (Search), the pages of List (Listing), the audit trail (Audit).
--   Incident.Service: service/service.go; create, transition_with_audit, resolve_externally and their
--     parts from the write on (create_commit, transition_commit), which start from a snapshot that
--     may be old. Its children prove the invariant of each operation (Audit, Create, Recovery), the
--     effect of a transition (Effect), and what holds of any sequence of requests (Lifecycle, Terminal).
-- Diagnosis:
--   Run: model/agent_run.go and repository/run_memory.go, with the sorted queries (Run.Listing).
--   Registry: internal/tool/registry. Runtime: internal/agent/runtime/recorder.go (Runtime.Recorder)
--     and runtime.go (Runtime.Diagnose), and the worker's RunDiagnosis of internal/bootstrap/agent.go
--     (Runtime.Worker). StreamBroker: internal/agent/runtime/streambroker.go.
-- Execution:
--   Approval: model/approval.go and repository/approval_memory.go; Approval.Interleaving: the atomic
--     calls that requests make of it, in any order; Approval.Listing: its sorted queries;
--     Approval.Service: internal/execution/approval/service.go.
--   World: the state that the services share. Policy: internal/execution/policy.
--   Deployment: internal/tool/deployment. Verifier: internal/execution/verifier/verifier.go;
--     Verifier.Gatherer: gatherer.go. Report, Postmortem and Remediation:
--     internal/execution/executor/remediation.go and internal/execution/postmortem.
--     Remediation.Finish says how an execution ends, Branches and Acting follow its moves, Outcomes
--     and Closing hold the results.
--   Messaging: internal/messaging/retry.go and the handling of a delivery in consumer.go.
-- Configuration and entry:
--   Config: internal/config/config.go, with Config.CsvList (CSVList), Config.Validate and Config.Load.
--   Bootstrap: internal/bootstrap/execution.go, and the tokens of server.go.
--   Api.Auth: internal/api/middleware/auth.go. Api.Router: internal/api/router/router.go.
--   Api.Alerts: internal/api/handler/alert.go, over the incident service. Api.Incidents, Api.Approvals,
--     Api.Runs and Api.Health: incident.go, approval.go, run.go and health.go, which answer an
--     Api.Response.
-- Knowledge: internal/knowledge/model; Knowledge.VectorStore: the memory store of vectorstore.go;
--   Knowledge.Index: Index of retriever.go.
-- Examples and its children hold concrete runs.
--
-- Conventions. Times and uuids come from a source, by the number of the draw. A Go map is an
-- association list whose order stands for one order of iteration; no key stands twice. A nil pointer or
-- interface is none or false. A method under its lock is one step; a version counter is an int64 and
-- wraps at 2 ^ 64. The loops are structural: VerifySequence counts down its attempts, so that there is
-- no fuel in a definition of the program; the journey of a message is followed for a given number of
-- deliveries, and any number above the retries that are left gives the same routes. Floats, JSON, YAML, HTTP,
-- the broker, the agent library, the digest of a fingerprint and the arrangement of equal elements
-- by sort.Slice are parameters, as is the order in which a listing of incidents ranges over its
-- map. What an agent does is a finite sequence of tool calls and an end.
--
-- Not modelled: the PostgreSQL repositories (SQL), retrieval and the loading of documents, the clients
-- of remote services, and metrics and logs. They are I/O, wiring or calls of libraries, or wait for a
-- later extension. Of the parts above, contexts and their deadlines
-- and the payloads of published events are left out.
pub mod Prelude
pub mod Dict
pub mod Errors
pub mod Incident
pub mod Run
pub mod Approval
pub mod Verifier
pub mod World
pub mod Policy
pub mod Text
pub mod Sorting
pub mod Config
pub mod Bootstrap
pub mod Api
pub mod Knowledge
pub mod Registry
pub mod Runtime
pub mod Examples
pub mod Deployment
pub mod Postmortem
pub mod Messaging
pub mod StreamBroker
pub mod Report
pub mod Remediation
