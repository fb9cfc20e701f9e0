-- ===== src/Deployment/Targets.antt =====
-- What the tool lets through to the deployment endpoint.
use go_on_call_agent.Prelude.{
  String, true, false, none, some, List, [], ◌∷◌, any, ◌≡◌, ◌≢◌, arith, str_eq, eq_iff,
  Option-cases, Bool-cases, String-cases, str_eq-of_ne, inl, inr, ◌⊎◌,
}
use go_on_call_agent.Errors.{ok, Result-cases}
use go_on_call_agent.Text.{is_blank}
use go_on_call_agent.Deployment.{
  Codec, HttpExecutor, Tool, RestartInput, check_target, execute, execute_http,
}

-- What a request that was sent has passed.
pub data IsGuarded (codec : Codec) (t : Tool) (approval_id action arguments : String)
    (keys : List String) : Type 0 where
  guarded :
      (input : RestartInput) (targets : List String)
      → codec.decode_input arguments ≡ ok input
      → t.allowed_targets ≡ some targets
      → any (λ allowed. str_eq allowed input.target) targets ≡ true
      → is_blank input.target ≡ false
      → action ≡ "restart_worker"
      → approval_id ≢ ""
      → keys ≡ approval_id ∷ []
      → IsGuarded codec t approval_id action arguments keys

check_target-allows :
    (codec : Codec) (t : Tool) (target : String) (http : HttpExecutor)
    → t.http ≡ some http
    → check_target codec t target ≡ none
    → (targets : List String) × (t.allowed_targets ≡ some targets)
      × (any (λ allowed. str_eq allowed target) targets ≡ true)
      × (is_blank target ≡ false)
check_target-allows codec t target http e h = elim (Bool-cases (is_blank target)) [
  | inl b ↦ absurd (unfold check_target in ground (arith, b, h))
  | inr b ↦ elim (Option-cases t.allowed_targets) [
    | inl n ↦ absurd (unfold check_target in ground (arith, b, n, e, h))
    | inr (targets, n) ↦ elim (Bool-cases (any (λ allowed. str_eq allowed target) targets)) [
      | inl y ↦ (targets, n, y, b)
      | inr y ↦ absurd (unfold check_target in ground (arith, b, n, y, h))
    ]
  ]
]

module _ (codec : Codec) (t : Tool) (approval_id action arguments : String) where
  -- Execute either sends nothing, or sends one request, and then only for the one action, with an
  -- approval id that is not empty as its idempotency key, and for a target that is not blank and
  -- stands in a configured whitelist.
  pub execute-IsGuarded :
      let keys = (execute codec t approval_id action arguments).1 in
      (keys ≡ []) ⊎ IsGuarded codec t approval_id action arguments keys
  unfolding execute execute_http
  execute-IsGuarded = elim (String-cases action "restart_worker") [
    | inr other ↦ inl (ground (arith, str_eq-of_ne action "restart_worker" other))
    | inl same ↦
        let known : str_eq action "restart_worker" ≡ true =
          (eq_iff action "restart_worker").1 same in
        elim (Result-cases (codec.decode_input arguments)) [
          | inr (e, bad) ↦ inl (ground (arith, known, bad))
          | inl (input, parsed) ↦ elim (Option-cases (check_target codec t input.target)) [
            | inr (e, bad) ↦ inl (ground (arith, known, parsed, bad))
            | inl allowed ↦ elim (Option-cases t.http) [
              | inl mock ↦ inl (ground (arith, known, parsed, allowed, mock))
              | inr (http, real) ↦ elim (String-cases approval_id "") [
                | inl empty ↦
                    inl (
                      ground (arith, known, parsed, allowed, real, (eq_iff approval_id "").1 empty))
                | inr key ↦
                    let (targets, listed, member, shown) =
                      check_target-allows codec t input.target http real allowed in
                    inr (
                      guarded input targets parsed listed member shown same key (
                        ground
                          (arith, known, parsed, allowed, real, str_eq-of_ne approval_id "" key)))
              ]
            ]
          ]
        ]
  ]
