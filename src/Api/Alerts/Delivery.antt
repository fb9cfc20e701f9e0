-- ===== src/Api/Alerts/Delivery.antt =====
-- What a webhook request has done when it answers 200; any other answer makes Alertmanager retry it.
use mathlib.Core.Path.{subst}
use go_on_call_agent.Prelude.{
  ℕ, suc, ◌<>◌, String, Bool, true, false, Option, none, some, List, [], ◌∷◌, snoc, All, ◌≡◌, ◌≢◌,
  refl, sym, ap, ◌∙◌, arith, ◌⊎◌, inl, inr, not, str_eq, eq_iff, Bool-cases, Option-cases,
}
use go_on_call_agent.Errors.{Error, Result, ok, err, Result-cases}
use go_on_call_agent.Dict.{entry}
use go_on_call_agent.Incident.{Incident, opened, status_eq, status_eq_self, make_fingerprint}
use go_on_call_agent.Incident.Store.{Memory}
use go_on_call_agent.Incident.Service.{resolve_externally}
use go_on_call_agent.Api.Alerts.{
  Alert, Progress, Handler, alert_service, alert_title, handler_has_active_run, recover, hand_over,
  after_create, created_for, fire, handle, handle_all, fresh_lists, response_status, webhook,
}

snoc-ne-nil : {A : Type 0} (l : List A) (x : A) → snoc l x ≢ []
snoc-ne-nil [] x h = ground (arith, h)
snoc-ne-nil (y ∷ ys) x h = ground (arith, h)

module _ {E : Type 0} (h : Handler E) where
  -- The progress before each alert.
  abbrev pub stages : List Alert → Progress E → List (Alert × Progress E)
  stages [] p = []
  stages (a ∷ rest) p = (a, p) ∷ stages rest (handle h a p)

  -- The diagnosis of the incident is not lost: nobody is there to be told, or its id was published, or
  -- it is not new and its diagnosis has begun, since it is not OPEN or has an active run.
  pub data IsDelivered (alert : Alert) (p : Progress E) : Type 0 where
    recovered : alert.status ≡ "resolved" → IsDelivered alert p
    untold :
        (inc : Incident) (is_new : Bool)
        → (created_for h alert p).0 ≡ ok (inc, is_new)
        → h.publisher ≡ none
        → IsDelivered alert p
    published :
        (inc : Incident) (is_new : Bool) (publish : ℕ → String → Option Error)
        → (created_for h alert p).0 ≡ ok (inc, is_new)
        → h.publisher ≡ some publish
        → publish (suc p.draws) inc.id ≡ none
        → (handle h alert p).sent ≡ snoc p.sent inc.id
        → IsDelivered alert p
    under_way :
        (inc : Incident)
        → (created_for h alert p).0 ≡ ok (inc, false)
        → (inc.status ≢ opened) ⊎ (handler_has_active_run h inc.id ≡ true)
        → IsDelivered alert p

  -- What a publication that adds no failure has done.
  abbrev HasTold : Incident → Progress E → Progress E → Type 0
  HasTold inc p p' =
      (h.publisher ≡ none)
      ⊎ ((publish : ℕ → String → Option Error) × (h.publisher ≡ some publish)
          × (publish p.draws inc.id ≡ none)
          × (p'.sent ≡ snoc p.sent inc.id))

  hand_over-clear :
      (name : String) (inc : Incident) (p : Progress E)
      → (hand_over h name inc p).failed ≡ []
      → (p.failed ≡ []) × HasTold inc p (hand_over h name inc p)
  unfolding hand_over
  hand_over-clear name inc p clear = elim (Option-cases h.publisher) [
    | inl nobody ↦ (ground (arith, clear, nobody), inl nobody)
    | inr (publish, wired) ↦ elim (Option-cases (publish p.draws inc.id)) [
      | inl told ↦ (
        ground (arith, clear, wired, told),
        inr (publish, wired, told, ground (arith, wired, told)),
      )
      | inr (e, unheard) ↦ absurd (
          snoc-ne-nil p.failed ("publish" <> " " <> name <> ": " <> e.text)
            (ground (arith, clear, wired, unheard)))
    ]
  ]

  -- The ways in which a firing alert adds no failure.
  abbrev IsTold : Result (Incident × Bool) → Progress E → Progress E → Type 0
  IsTold r p p' =
      (inc : Incident) × (is_new : Bool) × (r ≡ ok (inc, is_new))
      × (HasTold inc p p'
          ⊎ ((is_new ≡ false) × ((inc.status ≢ opened) ⊎ (handler_has_active_run h inc.id ≡ true))))

  after_create-clear :
      (name : String) (r : Result (Incident × Bool)) (p : Progress E)
      → (after_create h name r p).failed ≡ []
      → (p.failed ≡ []) × IsTold r p (after_create h name r p)
  unfolding after_create
  after_create-clear name (err e) p clear = absurd (snoc-ne-nil _ _ clear)
  after_create-clear name (ok (inc, true)) p clear =
      let p' = record p { created = snoc p.created inc.id } in
      let told = hand_over-clear name inc p' clear in (told.0, (inc, true, refl, inl told.1))
  after_create-clear name (ok (inc, false)) p clear =
      elim (Bool-cases (not (status_eq inc.status opened))) [
        | inl moved ↦ (
          ground (arith, clear, moved),
          (
            inc,
            false,
            refl,
            inr (
              refl,
              inl λ same.
                  ground (arith, moved, ap (λ s. status_eq s opened) same, status_eq_self opened),
            ),
          ),
        )
        | inr still ↦ elim (Bool-cases (handler_has_active_run h inc.id)) [
          | inl active ↦
              (ground (arith, clear, still, active), (inc, false, refl, inr (refl, inr active)))
          | inr idle ↦
              let told_now : after_create h name (ok (inc, false)) p ≡ hand_over h name inc p =
                ground (arith, still, idle) in
              let told = hand_over-clear name inc p (ap (λ x. x.failed) (sym told_now) ∙ clear) in
              (told.0, (inc, false, refl, inl (subst (HasTold inc p) (sym told_now) told.1)))
        ]
      ]

  fire-clear :
      (alert : Alert) (p : Progress E)
      → (fire h alert p).failed ≡ []
      → (p.failed ≡ [])
        × IsTold
            (created_for h alert p).0
            (record p { incidents = (created_for h alert p).1; draws = suc p.draws })
            (fire h alert p)
  unfolding fire
  fire-clear alert p clear = after_create-clear _ (created_for h alert p).0 _ clear

  recover-clear : (alert : Alert) (p : Progress E) → (recover h alert p).failed ≡ [] → p.failed ≡ []
  unfolding recover
  recover-clear alert p clear = elim (Result-cases answer.0) [
    | inr (e, refused) ↦ absurd (
        snoc-ne-nil p.failed ("resolve" <> " " <> entry alert.labels "alertname" <> ": " <> e.text)
          (ground (arith, clear, refused)))
    | inl (inc, fine) ↦ ground (arith, clear, fine)
  ]
    where
      answer : Result Incident × Memory × E
      answer = resolve_externally h.expirer p.incidents p.expiring (h.source p.draws) (
          make_fingerprint h.digest (alert_service alert) (entry alert.labels "alertname")
            (alert_title alert))

  told-IsDelivered :
      (alert : Alert) (p : Progress E)
      → str_eq alert.status "resolved" ≡ false
      → IsTold
          (created_for h alert p).0
          (record p { incidents = (created_for h alert p).1; draws = suc p.draws })
          (fire h alert p)
      → IsDelivered alert p
  unfolding handle
  told-IsDelivered alert p firing (inc, is_new, answer, inl (inl nobody)) =
      untold inc is_new answer nobody
  told-IsDelivered alert p firing (inc, is_new, answer, inl (inr (publish, wired, told, sent))) =
      published inc is_new publish answer wired told (rw (handle, firing) sent)
  told-IsDelivered alert p firing (inc, is_new, answer, inr (old, begun)) =
      under_way inc (answer ∙ ap (λ b. ok (inc, b)) old) begun

  handle-clear :
      (alert : Alert) (p : Progress E)
      → (handle h alert p).failed ≡ []
      → (p.failed ≡ []) × IsDelivered alert p
  unfolding handle
  handle-clear alert p clear = elim (Bool-cases (str_eq alert.status "resolved")) [
    | inl is_resolved ↦ (
      recover-clear alert p (ground (arith, clear, is_resolved)),
      recovered ((eq_iff alert.status "resolved").0 is_resolved),
    )
    | inr firing ↦
        let fired = fire-clear alert p (ground (arith, clear, firing)) in
        (fired.0, told-IsDelivered alert p firing fired.1)
  ]

  handle_all-clear :
      (alerts : List Alert) (p : Progress E)
      → (handle_all h alerts p).failed ≡ []
      → (p.failed ≡ []) × All (λ (a, q). IsDelivered a q) (stages alerts p)
  unfolding handle_all
  handle_all-clear [] p clear = (clear, tt)
  handle_all-clear (a ∷ rest) p clear =
      let later = handle_all-clear rest (handle h a p) clear in
      let now = handle-clear a p later.0 in (now.0, (now.1, later.1))

  no_failure : (l : List String) → response_status l ≡ 200 → l ≡ []
  unfolding response_status
  no_failure [] fine = refl
  no_failure (x ∷ xs) fine = ground (arith, fine)

  -- Where the webhook answers 200, no firing alert is lost: for each, in the state in which it was
  -- handled, an incident was created or found, and its id was published without an error, or its
  -- diagnosis had begun before, or there is no publisher.
  pub webhook-IsDelivered :
      (alerts : List Alert) (p : Progress E)
      → (webhook h alerts p).0 ≡ 200
      → All (λ (a, q). IsDelivered a q) (stages alerts (fresh_lists h p))
  unfolding webhook
  webhook-IsDelivered alerts p fine =
      (handle_all-clear alerts (fresh_lists h p)
        (no_failure (handle_all h alerts (fresh_lists h p)).failed fine)).1
