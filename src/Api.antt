-- ===== src/Api.antt =====
-- internal/api: the authentication middleware, the routes and the handlers.
pub mod Auth
pub mod Router
pub mod Alerts
pub mod Response
pub mod Incidents
pub mod Runs
pub mod Health
pub mod Approvals
