-- ===== src/Messaging.antt =====
-- internal/messaging/retry.go and the handling of one delivery in internal/messaging/consumer.go. The
-- broker, the decoding of an event and the two handlers come from outside; the logs, the metrics and
-- the declarations of queues are left out. An `int` has 64 bits.
pub mod Delivery
use go_on_call_agent.Prelude.{
  ℕ, zero, suc, ◌-◌, ◌%◌, ◌^◌, String, Bool, true, false, Option, none, some, List, [], ◌∷◌, ◌++◌,
  ltb, if◌then◌else◌,
}
use go_on_call_agent.Prelude.Int.{ℤ, pos, negsuc, leb_ℤ}
use go_on_call_agent.Errors.{Error}
use go_on_call_agent.Dict.{Dict, lookup, insert}

abbrev pub retry_count_header : String
retry_count_header = "x-retry-count"

abbrev pub max_retries : ℕ
max_retries = 3

abbrev pub retry_routing_key : String
retry_routing_key = "agent.retry"

abbrev pub dlq_routing_key : String
dlq_routing_key = "agent.dlq"

-- The values of a header: Go's numbers, a float64 as the number that int(n) makes of it, or another
-- type.
pub data HeaderValue : Type 0 where
  int int32 int64 float64 : ℤ → HeaderValue
  other : HeaderValue

abbrev pub Table : Type 0
Table = Dict HeaderValue

abbrev pub to_int : HeaderValue → ℤ
to_int (int n) = n
to_int (int32 n) = n
to_int (int64 n) = n
to_int (float64 n) = n
to_int other = pos 0

-- retryCount
unfoldable pub retry_count : Table → ℤ
retry_count h = elim (lookup retry_count_header h) [ none ↦ pos 0 | some v ↦ to_int v ]

abbrev pub suc_ℤ : ℤ → ℤ
suc_ℤ (pos n) = pos (suc n)
suc_ℤ (negsuc zero) = pos 0
suc_ℤ (negsuc (suc n)) = negsuc n

abbrev pub signed_32 : ℕ → ℤ
signed_32 n = if ltb n (2 ^ 31) then pos n else negsuc (2 ^ 32 - 1 - n)

-- int32(n)
unfoldable pub to_int32 : ℤ → ℤ
to_int32 (pos n) = signed_32 (n % 2 ^ 32)
to_int32 (negsuc n) = signed_32 (2 ^ 32 - 1 - n % 2 ^ 32)

pub record Decision : Type 0 where
  pub routing_key : String
  pub next_retries : ℤ
  pub to_retry : Bool

-- retryDecision
unfoldable pub retry_decision : ℤ → Decision
retry_decision retries =
    if leb_ℤ (pos max_retries) retries
    then record { routing_key = dlq_routing_key; next_retries = retries; to_retry = false }
    else record { routing_key = retry_routing_key; next_retries = suc_ℤ retries; to_retry = true }

-- failedMessageRoute; a copy of the headers is the headers.
unfoldable pub failed_message_route : Table → String × Table × Bool
failed_message_route headers =
    let d = retry_decision (retry_count headers) in
    if d.to_retry
    then (d.routing_key, insert retry_count_header (int32 (to_int32 d.next_retries)) headers, false)
    else (d.routing_key, headers, true)

-- What the consumer does to the broker, in order.
pub data Action : Type 0 where
  publish : String → Table → Action
  ack nack_requeue : Action

-- How PublishWithDeferredConfirm and the wait for the confirmation end.
pub data Confirmation : Type 0 where
  publish_error no_confirmation wait_error nacked acked : Confirmation

-- republishConfirmed: whether it returns nil, and what it does.
unfoldable pub republish_confirmed : Confirmation → String → Table → Bool × List Action
republish_confirmed publish_error key headers = (false, nack_requeue ∷ [])
republish_confirmed no_confirmation key headers = (false, publish key headers ∷ nack_requeue ∷ [])
republish_confirmed wait_error key headers = (false, publish key headers ∷ nack_requeue ∷ [])
republish_confirmed nacked key headers = (false, publish key headers ∷ nack_requeue ∷ [])
republish_confirmed acked key headers = (true, publish key headers ∷ [])

-- A consumer over a state that its two handlers change.
pub record Consumer (Event S : Type 0) : Type 0 where
  pub decode : String → Option Event
  pub handler : Event → S → Option Error × S
  pub terminal : Option (Event → Error → S → Option Error × S)

-- The branch of Subscribe for a body that is not an event.
unfoldable pub route_undecodable : {S : Type 0} → Confirmation → Table → S → List Action × S
route_undecodable confirmation headers s =
    let (sent, done) = republish_confirmed confirmation dlq_routing_key headers in
    (if sent then done ++ ack ∷ [] else done, s)

module _ {Event S : Type 0} where
  -- onDeadLetter; its error is only logged.
  unfoldable pub on_dead_letter : Consumer Event S → Event → Error → S → S
  on_dead_letter c event cause s = elim c.terminal [ none ↦ s | some f ↦ (f event cause s).1 ]

  -- The branch of Subscribe for a failed handler.
  unfoldable pub route_failed :
      Consumer Event S → Confirmation → Table → Event → Error → S → List Action × S
  route_failed c confirmation headers event cause s =
      let (key, next, to_dlq) = failed_message_route headers in
      let (sent, done) = republish_confirmed confirmation key next in
      if sent
      then (done ++ ack ∷ [], if to_dlq then on_dead_letter c event cause s else s)
      else (done, s)

  -- The body of Subscribe's loop, on one delivery.
  unfoldable pub deliver : Consumer Event S → Confirmation → Table → String → S → List Action × S
  deliver c confirmation headers body s = elim (c.decode body) [
    | none ↦ route_undecodable confirmation headers s
    | some event ↦
        let (e, s') = c.handler event s in
        elim e [
          | none ↦ (ack ∷ [], s')
          | some cause ↦ route_failed c confirmation headers event cause s'
        ]
  ]
