-- ===== src/Api/Health.antt =====
-- internal/api/handler/health.go: liveness and readiness. A check comes as its name and the error, if
-- any, that its function returns; the shared deadline is left out.
use go_on_call_agent.Prelude.{
  String, Bool, true, false, not, Option, none, some, List, [], ◌∷◌, any, ◌≡◌, arith, ◌&&◌,
  if◌then◌else◌, ◌↔◌,
}
use go_on_call_agent.Errors.{Error}
use go_on_call_agent.Dict.{Dict, insert}
use go_on_call_agent.Api.Response.{Response, json, status}

-- gin.H of the readiness answer.
pub record Readiness : Type 0 where
  pub state : String
  pub checks : Dict String

-- Health
unfoldable pub health : Response String
health = json 200 "ok"

abbrev pub fails : Option Error → Bool
fails none = false
fails (some e) = true

-- The answers of the checks, by name, and whether all of them are available.
unfoldable pub run_checks : List (String × Option Error) → Dict String → Bool → Dict String × Bool
run_checks [] checks all_ready = (checks, all_ready)
run_checks ((name, some e) ∷ rest) checks all_ready =
    run_checks rest (insert name "unavailable" checks) false
run_checks ((name, none) ∷ rest) checks all_ready =
    run_checks rest (insert name "ok" checks) all_ready

-- Ready
unfoldable pub ready : List (String × Option Error) → Response Readiness
ready l =
    let (checks, all_ready) = run_checks l [] true in
    if all_ready
    then json 200 (record { state = "ready"; checks = checks })
    else json 503 (record { state = "not_ready"; checks = checks })

run_checks-all :
    (l : List (String × Option Error)) (checks : Dict String) (all_ready : Bool)
    → (run_checks l checks all_ready).1 ≡ (all_ready && not (any (λ c. fails c.1) l))
unfolding run_checks
run_checks-all [] checks all_ready = ground arith
run_checks-all ((name, some e) ∷ rest) checks all_ready =
    ground (arith, run_checks-all rest (insert name "unavailable" checks) false)
run_checks-all ((name, none) ∷ rest) checks all_ready =
    ground (arith, run_checks-all rest (insert name "ok" checks) all_ready)

-- The service is ready exactly if no check returns an error.
pub ready_iff :
    (l : List (String × Option Error)) → (status (ready l) ≡ 200) ↔ (any (λ c. fails c.1) l ≡ false)
unfolding ready
ready_iff l = ground (arith, run_checks-all l [] true)
