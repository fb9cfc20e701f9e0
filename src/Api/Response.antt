-- ===== src/Api/Response.antt =====
-- What the handlers of internal/api/handler answer: c.JSON.
use go_on_call_agent.Prelude.{ℕ, String}

-- c.JSON of a status with a value, or with an error's text.
pub data Response (A : Type 0) : Type 0 where
  json : ℕ → A → Response A
  failure : ℕ → String → Response A

abbrev pub status : {A : Type 0} → Response A → ℕ
status (json n a) = n
status (failure n text) = n
