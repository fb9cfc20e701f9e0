-- ===== src/Runtime.antt =====
-- internal/agent/runtime and the worker's entry RunDiagnosis of internal/bootstrap/agent.go.
pub mod Recorder
pub mod Diagnose
pub mod Worker
