-- ===== src/StreamBroker/Replay.antt =====
-- When a subscription returns, and what its channel holds.
use go_on_call_agent.Prelude.{
  ℕ, suc, ◌+◌, ◌≤◌, ◌<◌, String, true, none, some, List, [], ◌∷◌, ◌++◌, ◌≡◌, refl, sym, ◌∙◌, ap,
  arith, ltb, snoc, length, length-append, Bool-cases, inl, inr,
}
use go_on_call_agent.Dict.{lookup, insert, get_list}
use go_on_call_agent.StreamBroker.{StreamEvent, Channel, StreamBroker, capacity, replay, subscribe}

snoc_append :
    (xs : List StreamEvent) (x : StreamEvent) (ys : List StreamEvent)
    → snoc xs x ++ ys ≡ xs ++ x ∷ ys
snoc_append [] x ys = refl
snoc_append (y ∷ xs) x ys = ap (λ l. y ∷ l) (snoc_append xs x ys)

length-snoc : (xs : List StreamEvent) (x : StreamEvent) → length (snoc xs x) ≡ suc (length xs)
length-snoc xs x = omega (arith, length-append xs (x ∷ []))

append_nil : (xs : List StreamEvent) → xs ++ [] ≡ xs
append_nil [] = refl
append_nil (x ∷ xs) = ap (λ l. x ∷ l) (append_nil xs)

abbrev pub channel : ℕ → List StreamEvent → Channel
channel id buffer = record { id = id; buffer = buffer }

replay-fits :
    (evs : List StreamEvent) (id : ℕ) (buffer : List StreamEvent)
    → length buffer + length evs ≤ capacity
    → replay evs (channel id buffer) ≡ some (channel id (buffer ++ evs))
unfolding replay
replay-fits [] id buffer h = ap (λ l. some (channel id l)) (sym (append_nil buffer))
replay-fits (ev ∷ rest) id buffer h =
    let room : ltb (length buffer) capacity ≡ true = ground (arith, h) in
    rw room (
      replay-fits rest id (snoc buffer ev) (omega (arith, length-snoc buffer ev))
      ∙ ap (λ l. some (channel id l)) (snoc_append buffer ev rest))

replay-blocks :
    (evs : List StreamEvent) (id : ℕ) (buffer : List StreamEvent)
    → length buffer ≤ capacity
    → capacity < length buffer + length evs
    → replay evs (channel id buffer) ≡ none
unfolding replay
replay-blocks [] id buffer h k = absurd (omega arith)
replay-blocks (ev ∷ rest) id buffer h k = elim (Bool-cases (ltb (length buffer) capacity)) [
  | inr full ↦ rw full refl
  | inl room ↦ rw room (
      replay-blocks rest id (snoc buffer ev) (ground (arith, room, length-snoc buffer ev))
        (omega (arith, length-snoc buffer ev)))
]

-- If the history of the run has at most 256 events, Subscribe returns a channel that holds the whole
-- history in order, and the broker has it as its last subscriber of the run; if the history has more
-- events, Subscribe does not return.
pub subscribe-replays :
    (b : StreamBroker) (run_id : String) (id : ℕ)
    → let past = get_list (lookup run_id b.history) in
      (length past ≤ capacity
        → subscribe b run_id id
          ≡ some (
            channel id past,
            record b {
              subs =
                  insert run_id (snoc (get_list (lookup run_id b.subs)) (channel id past)) b.subs;
            },
          ))
      × (capacity < length past → subscribe b run_id id ≡ none)
unfolding subscribe
subscribe-replays b run_id id =
    let past = get_list (lookup run_id b.history) in
    (
      λ fits. rw (subscribe, replay-fits past id [] (omega (arith, fits))) refl,
      λ more. rw (subscribe, replay-blocks past id [] (omega arith) (omega (arith, more))) refl,
    )
