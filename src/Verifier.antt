-- ===== src/Verifier.antt =====
-- internal/execution/verifier/verifier.go. Floats are an abstract type with the comparison that the
-- code makes; the metrics source and the context's cancellation come from outside.
pub mod Gatherer
pub mod Streak
use go_on_call_agent.Prelude.{
  ℕ, zero, suc, ◌+◌, String, Bool, true, false, Option, none, some, List, [], ◌∷◌, ◌++◌, ◌&&◌, snoc,
  ltb, leb, ◌==◌, str_eq, not, ◌<>◌, if◌then◌else◌,
}
use go_on_call_agent.Prelude.Int.{ℤ, pos, leb_ℤ}
use go_on_call_agent.Errors.{Error, plain, Result, ok, err}

-- float64 with the two constants that the code names, and fmt's verbs %d and %.4f. `le` is false where
-- a side is NaN.
pub record Float64 : Type 1 where
  pub Carrier : Type 0
  pub le : Carrier → Carrier → Bool
  pub nought : Carrier
  pub one_percent : Carrier
  pub decimal : ℤ → String
  pub fixed : Carrier → String

-- RunConfig, where a count that is not positive is 0 (the code treats both alike).
pub record RunConfig : Type 0 where
  pub attempts : ℕ
  pub interval : ℕ
  pub required_successes : ℕ

-- DefaultRunConfig
abbrev pub default_run_config : RunConfig
default_run_config = record { attempts = 1; interval = 0; required_successes = 1 }

-- RunConfig.normalized
unfoldable pub normalized : RunConfig → RunConfig
normalized c = record c {
  attempts = if c.attempts == 0 then 1 else c.attempts;
  required_successes = if c.required_successes == 0 then 1 else c.required_successes;
}

pub record Check : Type 0 where
  pub name : String
  pub passed : Bool
  pub detail : String

-- The loop of Verify over the checks.
unfoldable pub all_passed : List Check → Bool
all_passed [] = true
all_passed (c ∷ cs) = c.passed && all_passed cs

module _ (F : Float64) where
  open F use {Carrier, le, nought, one_percent, decimal, fixed}

  pub record Metrics : Type 0 where
    pub consumer_count : ℤ
    pub queue_depth : ℤ
    pub error_rate : Carrier

  pub record Config : Type 0 where
    pub min_consumers : ℤ
    pub max_queue_depth : ℤ
    pub max_error_rate : Carrier

  -- DefaultConfig
  abbrev pub default_config : Config
  default_config = record {
    min_consumers = pos 1;
    max_queue_depth = pos 1000;
    max_error_rate = one_percent;
  }

  -- New
  unfoldable pub new_config : Config → Config
  new_config cfg = record cfg {
    min_consumers = if leb_ℤ cfg.min_consumers (pos 0) then pos 1 else cfg.min_consumers;
    max_error_rate = if le cfg.max_error_rate nought then one_percent else cfg.max_error_rate;
  }

  pub record Outcome : Type 0 where
    pub passed : Bool
    pub checks : List Check

  unfoldable pub checks_of : Config → Metrics → List Check
  checks_of cfg m =
      record {
        name = "consumer_count";
        passed = leb_ℤ cfg.min_consumers m.consumer_count;
        detail =
            "consumers="
            <> decimal m.consumer_count
            <> " (min="
            <> decimal cfg.min_consumers
            <> ")";
      }
      ∷ record {
        name = "queue_depth";
        passed = leb_ℤ m.queue_depth cfg.max_queue_depth;
        detail =
            "queue_depth="
            <> decimal m.queue_depth
            <> " (max="
            <> decimal cfg.max_queue_depth
            <> ")";
      }
      ∷ record {
        name = "error_rate";
        passed = le m.error_rate cfg.max_error_rate;
        detail = "error_rate=" <> fixed m.error_rate <> " (max=" <> fixed cfg.max_error_rate <> ")";
      }
      ∷ []

  -- Verify
  unfoldable pub verify : Config → Metrics → Outcome
  verify cfg m = record { passed = all_passed (checks_of cfg m); checks = checks_of cfg m }

  pub record Attempt : Type 0 where
    pub attempt : ℕ
    pub passed : Bool
    pub metrics : Option Metrics
    pub checks : List Check
    pub error : String

  pub record SequenceResult : Type 0 where
    pub passed : Bool
    pub successes : ℕ
    pub attempts : List Attempt
    pub reason : String

  -- What the world answers to attempt i: ctx.Err() at its start, Gather's result, and how the wait
  -- behind it ends (`some e` if the context is done first).
  pub record Environment : Type 0 where
    pub head : ℕ → Option Error
    pub gather : ℕ → Result Metrics
    pub wait : ℕ → Option Error

  -- The attempt that one round records.
  unfoldable pub attempt_of : Config → ℕ → Result Metrics → Attempt
  attempt_of cfg i (err e) = record {
    attempt = i;
    passed = false;
    metrics = none;
    checks = [];
    error = e.text;
  }
  attempt_of cfg i (ok m) =
      let r = verify cfg m in
      record { attempt = i; passed = r.passed; metrics = some m; checks = r.checks; error = "" }

  unfoldable pub record_attempt : SequenceResult → Attempt → SequenceResult
  record_attempt res att = record res { attempts = snoc res.attempts att }

  -- The two branches on att.Passed, short of the return.
  unfoldable pub count_attempt : ℕ → SequenceResult → Attempt → SequenceResult
  count_attempt streak res att =
      if att.passed then record res { successes = suc streak } else record res {
        successes = 0;
        reason = if not (str_eq att.error "") then att.error else "verification checks failed";
      }

  unfoldable pub canceled : SequenceResult → Error → SequenceResult × Option Error
  canceled res e = (record res { reason = "verification canceled: " <> e.text }, some e)

  -- The lines behind the loop.
  unfoldable pub exhausted : RunConfig → SequenceResult → SequenceResult × Option Error
  exhausted run res = (
    record res {
      reason =
          if str_eq res.reason ""
          then "only "
            <> decimal (pos res.successes)
            <> " consecutive successes, need "
            <> decimal (pos run.required_successes)
          else res.reason;
    },
    none,
  )

  -- How the select behind attempt i ends: it waits only between two attempts, and if there is an interval.
  unfoldable pub pause : RunConfig → Environment → ℕ → ℕ → Option Error
  pause run env i zero = none
  pause run env i (suc left) = if ltb 0 run.interval then env.wait i else none

  -- The loop of VerifySequence, at attempt i with `left` attempts left.
  unfoldable pub verify_loop :
      Config → RunConfig → Environment → ℕ → ℕ → ℕ → SequenceResult → SequenceResult × Option Error
  verify_loop cfg run env zero i streak res = exhausted run res
  verify_loop cfg run env (suc left) i streak res =
      let att = attempt_of cfg i (env.gather i) in
      let res' = count_attempt streak (record_attempt res att) att in
      let rest = verify_loop cfg run env left (suc i) (if att.passed then suc streak else 0) res' in
      let paused = elim (pause run env i left) as (λ _. SequenceResult × Option Error) [
        | some e ↦ canceled res' e
        | none ↦ rest
      ] in
      elim (env.head i) [
        | some e ↦ canceled res e
        | none ↦
            if att.passed && leb run.required_successes (suc streak)
            then (record res' { passed = true; reason = "" }, none)
            else paused
      ]

  abbrev pub no_result : SequenceResult
  no_result = record { passed = false; successes = 0; attempts = []; reason = "" }

  -- VerifySequence; `none` is a nil gatherer.
  unfoldable pub verify_sequence :
      Config → RunConfig → Option Environment → SequenceResult × Option Error
  verify_sequence cfg run none = (
    record no_result { reason = "no metric gatherer configured" },
    some (plain "no metric gatherer configured"),
  )
  verify_sequence cfg run (some env) =
      let run' = normalized run in verify_loop cfg run' env run'.attempts 1 0 no_result
