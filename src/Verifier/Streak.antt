-- ===== src/Verifier/Streak.antt =====
-- VerifySequence against its description: it passes exactly if the attempts hold a window of enough
-- consecutive successes.
use go_on_call_agent.Prelude.{
  ℕ, zero, suc, ◌+◌, ◌-◌, ◌≤◌, Bool, true, false, Option, none, some, List, [], ◌∷◌, ◌&&◌, ◌||◌,
  ◌≡◌, refl, sym, ◌∙◌, ap, arith, leb, Bool-cases, inl, inr, if◌then◌else◌, ◌==◌,
}
use mathlib.Core.Path.{subst}
use go_on_call_agent.Errors.{Error}
use go_on_call_agent.Verifier.{
  Float64, RunConfig, normalized, Config, Environment, Attempt, SequenceResult, attempt_of,
  count_attempt, record_attempt, exhausted, pause, verify_loop, verify_sequence, no_result,
}

-- The first r outcomes are there and are successes.
unfoldable pub prefix : ℕ → List Bool → Bool
prefix zero xs = true
prefix (suc r) [] = false
prefix (suc r) (x ∷ xs) = x && prefix r xs

-- Somewhere stand r consecutive successes.
unfoldable pub has_window : ℕ → List Bool → Bool
has_window r [] = prefix r []
has_window r (x ∷ xs) = prefix r (x ∷ xs) || has_window r xs

window_of_prefix : (r : ℕ) (xs : List Bool) → prefix r xs ≡ true → has_window r xs ≡ true
unfolding has_window
window_of_prefix r [] h = h
window_of_prefix r (x ∷ xs) h = ground arith

prefix_shorter : (a r : ℕ) (xs : List Bool) → a ≤ r → prefix r xs ≡ true → prefix a xs ≡ true
unfolding prefix
prefix_shorter zero r xs h p = refl
prefix_shorter (suc a) zero xs h p = absurd (omega arith)
prefix_shorter (suc a) (suc r) [] h p = p
prefix_shorter (suc a) (suc r) (x ∷ xs) h p = ground (arith, prefix_shorter a r xs)

window_absorbs :
    (r n : ℕ) (xs : List Bool) → r ≡ suc n → prefix (suc n) xs || has_window r xs ≡ has_window r xs
window_absorbs r n xs e = rw e (ground (arith, window_of_prefix (suc n) xs))

-- How the description moves past one outcome.
window_miss :
    (n q r : ℕ) (xs : List Bool)
    → r ≡ suc q
    → prefix (suc n) (false ∷ xs) || has_window r (false ∷ xs)
      ≡ prefix (suc q) xs || has_window r xs
unfolding has_window prefix
window_miss n q r xs e = rw e (ground (arith, window_of_prefix (suc q) xs))

window_hit :
    (n q r : ℕ) (xs : List Bool)
    → r ≡ suc q
    → suc n ≤ q
    → prefix (suc (suc n)) (true ∷ xs) || has_window r (true ∷ xs)
      ≡ prefix (suc n) xs || has_window r xs
unfolding has_window prefix
window_hit n q r xs e h = rw e (ground (arith, prefix_shorter (suc n) q xs h))

module _ (F : Float64) (cfg : Config F) (run : RunConfig) (env : Environment F) where
  -- Whether attempt i passes.
  abbrev pub outcome : ℕ → Bool
  outcome i = (attempt_of F cfg i (env.gather i)).passed

  unfoldable pub outcomes : ℕ → ℕ → List Bool
  outcomes i zero = []
  outcomes i (suc n) = outcome i ∷ outcomes (suc i) n

  -- No cancellation interrupts the sequence.
  pub record IsUndisturbed : Type 0 where
    pub head : (i : ℕ) → env.head i ≡ none
    pub wait : (i : ℕ) → env.wait i ≡ none

  pause-none : IsUndisturbed → (i left : ℕ) → pause F run env i left ≡ none
  unfolding pause
  pause-none calm i zero = refl
  pause-none calm i (suc left) = ground (arith, calm.wait i)

  -- One round of the loop, by its outcome.
  loop_step :
      IsUndisturbed
      → (left i streak : ℕ) (res : SequenceResult F)
      → let att = attempt_of F cfg i (env.gather i) in
        let res' = count_attempt F streak (record_attempt F res att) att in
        verify_loop F cfg run env (suc left) i streak res ≡ (
          if outcome i && leb run.required_successes (suc streak)
          then (record res' { passed = true; reason = "" }, none)
          else verify_loop F cfg run env left (suc i) (if outcome i then suc streak else 0) res')
  unfolding verify_loop
  loop_step calm left i streak res = ground (arith, calm.head i, pause-none calm i left)

  passed-count :
      (streak : ℕ) (res : SequenceResult F) (att : Attempt F)
      → (count_attempt F streak (record_attempt F res att) att).passed ≡ res.passed
  unfolding count_attempt record_attempt
  passed-count streak res att = ground arith

  -- With `n + 1` successes missing, the loop passes if they come at once, or all of them later.
  abbrev Agrees : SequenceResult F × Option Error → ℕ → List Bool → Type 0
  Agrees r n xs =
      (r.1 ≡ none) × (r.0.passed ≡ prefix (suc n) xs || has_window run.required_successes xs)

  round :
      (b : Bool) (streak n : ℕ) (xs : List Bool) (done rest : SequenceResult F × Option Error)
      → run.required_successes ≡ suc (streak + n)
      → (done.1 ≡ none) × (done.0.passed ≡ true)
      → (b ≡ false → Agrees rest (streak + n) xs)
      → ((k : ℕ) → b ≡ true → n ≡ suc k → Agrees rest k xs)
      → Agrees (if b && leb run.required_successes (suc streak) then done else rest) n (b ∷ xs)
  round false streak n xs done rest need fin miss hit = (
    (miss refl).0,
    (miss refl).1 ∙ sym (window_miss n (streak + n) run.required_successes xs need),
  )
  round true streak zero xs done rest need fin miss hit = unfold prefix in ground (arith, need)
  round true streak (suc k) xs done rest need fin miss hit =
      let more : leb run.required_successes (suc streak) ≡ false = ground (arith, need) in
      let (calm, agrees) = hit k refl refl in
      let moved = window_hit k (streak + suc k) run.required_successes xs need (omega arith) in
      (ground (arith, more, calm), ground (arith, more, agrees, moved))

  verify_loop-window :
      IsUndisturbed
      → (left i streak n : ℕ) (res : SequenceResult F) → run.required_successes ≡ suc (streak + n)
      → res.passed ≡ false
      → Agrees (verify_loop F cfg run env left i streak res) n (outcomes i left)
  unfolding outcomes
  verify_loop-window calm zero i streak n res need fresh =
      unfold verify_loop exhausted has_window prefix in (refl, rw need fresh)
  verify_loop-window calm (suc left) i streak n res need fresh =
      let att = attempt_of F cfg i (env.gather i) in
      let res' = count_attempt F streak (record_attempt F res att) att in
      let still : res'.passed ≡ false = passed-count streak res att ∙ fresh in
      rw (loop_step calm left i streak res) (
        round (outcome i) streak n (outcomes (suc i) left)
          (record res' { passed = true; reason = "" }, none)
          (verify_loop F cfg run env left (suc i) (if outcome i then suc streak else 0) res') need
          (refl, refl)
          (λ miss.
            subst
              (λ s.
                Agrees (verify_loop F cfg run env left (suc i) s res') (streak + n)
                  (outcomes (suc i) left))
              (sym (ap (λ b. if b then suc streak else 0) miss))
              (verify_loop-window calm left (suc i) 0 (streak + n) res' (need ∙ omega arith) still))
          (λ k hit last.
            subst
              (λ s.
                Agrees (verify_loop F cfg run env left (suc i) s res') k (outcomes (suc i) left))
              (sym (ap (λ b. if b then suc streak else 0) hit))
              (verify_loop-window calm left (suc i) (suc streak) k res' (need ∙ omega arith)
                still)))

module _ (F : Float64) (cfg : Config F) (run : RunConfig) (env : Environment F) where
  required_pos : (n : ℕ) × ((normalized run).required_successes ≡ suc n)
  unfolding normalized
  required_pos = elim (Bool-cases (run.required_successes == 0)) [
    | inl default ↦ (0, ground arith)
    | inr given ↦ (run.required_successes - 1, ground arith)
  ]

  -- If no cancellation interrupts it, VerifySequence returns no error, and it passes exactly if the
  -- outcomes of its attempts hold the required number of consecutive successes.
  pub verify_sequence-window :
      IsUndisturbed F cfg (normalized run) env
      → let r = verify_sequence F cfg run (some env) in
        (r.1 ≡ none)
        × (r.0.passed
            ≡ has_window
                (normalized run).required_successes
                (outcomes F cfg (normalized run) env 1 (normalized run).attempts))
  unfolding verify_sequence
  verify_sequence-window calm =
      let (n, need) = required_pos in
      let xs = outcomes F cfg (normalized run) env 1 (normalized run).attempts in
      let (quiet, agrees) =
        verify_loop-window F cfg (normalized run) env calm (normalized run).attempts 1 0 n
          (no_result F) (need ∙ omega arith) refl in
      (quiet, agrees ∙ window_absorbs (normalized run).required_successes n xs need)
