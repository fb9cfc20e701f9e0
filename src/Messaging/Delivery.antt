-- ===== src/Messaging/Delivery.antt =====
-- No delivery is lost, and none is retried for ever.
use go_on_call_agent.Prelude.{
  ℕ, zero, suc, ◌+◌, ◌<◌, String, Bool, true, false, Option, none, some, List, [], ◌∷◌, ◌≡◌, refl,
  arith, ◌∙◌, ap, str_eq_self, if◌then◌else◌,
}
use go_on_call_agent.Prelude.Int.{pos}
use go_on_call_agent.Dict.{lookup, insert}
use go_on_call_agent.Dict.Laws.{lookup-insert}
use go_on_call_agent.Messaging.{
  Table, Action, publish, ack, nack_requeue, Confirmation, acked, Consumer, failed_message_route,
  retry_count, retry_decision, dlq_routing_key, retry_routing_key, max_retries, retry_count_header,
  int32, retry_count_header, int32, to_int32,
}

-- How often the actions settle the delivery.
unfoldable pub settlements : List Action → ℕ
settlements [] = 0
settlements (publish key headers ∷ rest) = settlements rest
settlements (ack ∷ rest) = suc (settlements rest)
settlements (nack_requeue ∷ rest) = suc (settlements rest)

unfoldable pub acknowledges : List Action → Bool
acknowledges [] = false
acknowledges (publish key headers ∷ rest) = acknowledges rest
acknowledges (ack ∷ rest) = true
acknowledges (nack_requeue ∷ rest) = acknowledges rest

abbrev pub is_acked : Confirmation → Bool
is_acked acked = true
is_acked _ = false

abbrev pub is_none {ℓ} : {A : Type ℓ} → Option A → Bool
is_none none = true
is_none (some _) = false

module _ {Event S : Type 0} where
  -- Whether the body is an event that its handler takes.
  abbrev pub handled : Consumer Event S → String → S → Bool
  handled c body s = elim (c.decode body) [
    | none ↦ false
    | some event ↦ is_none (c.handler event s).0
  ]

-- The routes that a message takes whose handler fails each time, for so many deliveries at most.
unfoldable pub journey : ℕ → Table → List String
journey zero headers = []
journey (suc n) headers =
    let (key, next, to_dlq) = failed_message_route headers in
    let rest = journey n next in if to_dlq then key ∷ [] else key ∷ rest

unfoldable pub retries_then_dlq : ℕ → List String
retries_then_dlq zero = dlq_routing_key ∷ []
retries_then_dlq (suc n) = retry_routing_key ∷ retries_then_dlq n

to_int32_small : (n : ℕ) → n < 3 → to_int32 (pos (suc n)) ≡ pos (suc n)
unfolding to_int32
to_int32_small zero small = refl
to_int32_small (suc zero) small = refl
to_int32_small (suc (suc zero)) small = refl
to_int32_small (suc (suc (suc n))) small = absurd (omega arith)

abbrev counted : ℕ → Table → Table
counted n headers = insert retry_count_header (int32 (to_int32 (pos (suc n)))) headers

route_retry :
    (n : ℕ) (headers : Table)
    → retry_count headers ≡ pos n
    → n < 3
    → failed_message_route headers ≡ (retry_routing_key, counted n headers, false)
unfolding failed_message_route retry_decision
route_retry n headers h small = rw (failed_message_route, h) (ground arith)

retry_count-counted :
    (n : ℕ) (headers : Table) → n < 3 → retry_count (counted n headers) ≡ pos (suc n)
unfolding retry_count
retry_count-counted n headers small =
    let v = int32 (to_int32 (pos (suc n))) in
    let found : lookup retry_count_header (counted n headers) ≡ some v = ground (
      arith,
      lookup-insert retry_count_header retry_count_header v headers,
      str_eq_self retry_count_header,
    ) in
    rw (retry_count, found) (to_int32_small n small)

journey_retry :
    (m : ℕ) (headers next : Table) (key : String)
    → failed_message_route headers ≡ (key, next, false)
    → journey (suc m) headers ≡ key ∷ journey m next
unfolding journey
journey_retry m headers next key e = ground (arith, e)

-- A message that has been retried `n` times, `left` short of the maximum, takes the retry queue
-- `left` times more and then ends in the dead-letter queue, if its handler fails each time and more
-- than `left` deliveries are followed.
pub journey-ends :
    (left n deliveries : ℕ) (headers : Table)
    → retry_count headers ≡ pos n
    → n + left ≡ max_retries
    → left < deliveries
    → journey deliveries headers ≡ retries_then_dlq left
unfolding journey retries_then_dlq failed_message_route retry_decision
journey-ends left n zero headers h e more = absurd (omega arith)
journey-ends zero n (suc d) headers h e more = ground (arith, h)
journey-ends (suc left) n (suc d) headers h e more =
    let small : n < 3 = omega arith in
    journey_retry d headers (counted n headers) retry_routing_key (route_retry n headers h small)
    ∙ ap (λ rest. retry_routing_key ∷ rest)
        (journey-ends left (suc n) d (counted n headers) (retry_count-counted n headers small)
          (omega arith) (omega arith))
