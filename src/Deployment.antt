-- ===== src/Deployment.antt =====
-- internal/tool/deployment/restart_worker.go and http_executor.go. JSON and the HTTP exchange come from
-- outside: `Codec` and `send` stand for them.
pub mod Targets
use Prim.Native.Char.{code}
use go_on_call_agent.Prelude.{
  ℕ, String, Bool, true, false, Option, none, some, List, [], ◌∷◌, ◌&&◌, ◌||◌, any, not, str_eq,
  ltb, leb, ◌==◌, ◌<>◌, if◌then◌else◌,
}
use go_on_call_agent.Errors.{Error, plain, wrap, sentinel, result_unknown, Result, ok, err}
use go_on_call_agent.Text.{is_blank}
use go_on_call_agent.World.{ExecutionResult, no_execution}

pub record RestartInput : Type 0 where
  pub target : String
  pub reason : String

pub record RestartResult : Type 0 where
  pub status : String
  pub approval_id : String
  pub target : String
  pub message : String

-- encoding/json on the values that the tool reads and writes, and fmt's verbs %q and %d.
pub record Codec : Type 0 where
  pub decode_input : String → Result RestartInput
  pub encode_input : RestartInput → String
  pub encode_result : RestartResult → String
  pub operation_id : String → String
  pub encode_operation : String → String
  pub quoted : String → String
  pub decimal : ℕ → String

-- What client.Do returns, short of the body's reading: a timeout or a cancellation, another
-- transport error, or an answer.
pub data Reply : Type 0 where
  timeout : String → Reply
  broken : Error → Reply
  answer : ℕ → String → Reply

-- HTTPExecutor, as the exchange with its fixed endpoint: idempotency key, action, arguments.
pub record HttpExecutor : Type 0 where
  pub send : String → String → String → Reply

pub record Tool : Type 0 where
  pub allowed_targets : Option (List String)
  pub http : Option HttpExecutor

abbrev pub is_some {ℓ} : {A : Type ℓ} → Option A → Bool
is_some none = false
is_some (some _) = true

abbrev pub is_nil {ℓ} : {A : Type ℓ} → List A → Bool
is_nil [] = true
is_nil (_ ∷ _) = false

-- checkTarget; `none` is a nil error.
unfoldable pub check_target : Codec → Tool → String → Option Error
check_target codec t target =
    if is_blank target
    then some (plain "worker.restart target is required")
    else elim t.allowed_targets [
      | none ↦
          if is_some t.http
          then some (
              plain
                "worker.restart target whitelist is not configured, refusing to call the deployment endpoint")
          else none
      | some targets ↦
          if is_nil targets
          then some (plain "worker.restart target whitelist is empty, no target is allowed")
          else if any (λ allowed. str_eq allowed target) targets
          then none
          else some (
              plain (
                "worker.restart target "
                <> codec.quoted target
                <> " is not in the allowed targets"))
    ]

-- The classification of the reply in HTTPExecutor.Execute.
unfoldable pub classify : Codec → Reply → Result ExecutionResult
classify codec (timeout cause) =
    err (wrap "" (sentinel result_unknown) (": deployment endpoint call: " <> cause))
classify codec (broken e) = err (wrap "call deployment endpoint: " e "")
classify codec (answer status body) =
    if ltb status 200 || ltb 299 status
    then err (plain ("deployment endpoint returned status " <> codec.decimal status))
    else let operation = codec.operation_id body in
      ok (record no_execution {
        output = codec.encode_operation operation;
        operation_id = operation;
      })

-- HTTPExecutor.Execute: its result, and the idempotency keys that it sent.
unfoldable pub execute_http :
    Codec → HttpExecutor → String → String → String → Result ExecutionResult × List String
execute_http codec http approval_id action arguments =
    if str_eq approval_id ""
    then (
      err (
          plain
            "missing approval_id: refusing to call the deployment endpoint without an idempotency key"),
      [],
    )
    else (classify codec (http.send approval_id action arguments), approval_id ∷ [])

-- Execute: its result, and the idempotency keys that it sent.
unfoldable pub execute :
    Codec → Tool → String → String → String → Result ExecutionResult × List String
execute codec t approval_id action arguments =
    if not (str_eq action "restart_worker")
    then (err (plain ("unknown action " <> codec.quoted action)), [])
    else elim (codec.decode_input arguments) [
      | err e ↦ (err (wrap "parse restart arguments: " e ""), [])
      | ok input ↦ elim (check_target codec t input.target) [
        | some e ↦ (err e, [])
        | none ↦ elim t.http [
          | some http ↦ execute_http codec http approval_id action arguments
          | none ↦ (
            ok (record no_execution {
              output = codec.encode_result (record {
                status = "completed";
                approval_id = "";
                target = input.target;
                message = "worker " <> input.target <> " restarted";
              });
            }),
            [],
          )
        ]
      ]
    ]
