-- ===== src/StreamBroker.antt =====
-- internal/agent/runtime/streambroker.go. A subscriber is its channel, with an id in place of the
-- channel's identity; readers take events from the front of its buffer. The data of an event is one
-- text.
pub mod Replay
use go_on_call_agent.Prelude.{
  ℕ, String, Option, none, some, List, [], ◌∷◌, ltb, ◌==◌, snoc, length, map, if◌then◌else◌,
}
use go_on_call_agent.Dict.{Dict, lookup, insert, get_list}

pub record StreamEvent : Type 0 where
  pub typ : String
  pub data_text : String

pub record Channel : Type 0 where
  pub id : ℕ
  pub buffer : List StreamEvent

pub record StreamBroker : Type 0 where
  pub history : Dict (List StreamEvent)
  pub subs : Dict (List Channel)

-- NewStreamBroker
abbrev pub new_stream_broker : StreamBroker
new_stream_broker = record { history = []; subs = [] }

abbrev pub capacity : ℕ
capacity = 256

-- The select in Publish: a full buffer drops the event.
unfoldable pub offer : StreamEvent → Channel → Channel
offer ev ch =
    if ltb (length ch.buffer) capacity then record ch { buffer = snoc ch.buffer ev } else ch

-- Publish
unfoldable pub publish : StreamBroker → String → StreamEvent → StreamBroker
publish b run_id ev = record {
  history = insert run_id (snoc (get_list (lookup run_id b.history)) ev) b.history;
  subs = insert run_id (map (offer ev) (get_list (lookup run_id b.subs))) b.subs;
}

-- The loop of Subscribe. A send on a full buffer waits for a reader, and nobody can read from a channel
-- that has not been returned: `none` says that the loop does not end.
unfoldable pub replay : List StreamEvent → Channel → Option Channel
replay [] ch = some ch
replay (ev ∷ rest) ch =
    let next = replay rest (record ch { buffer = snoc ch.buffer ev }) in
    if ltb (length ch.buffer) capacity then next else none

-- Subscribe; `none` where it does not return, and keeps the broker's lock.
unfoldable pub subscribe : StreamBroker → String → ℕ → Option (Channel × StreamBroker)
subscribe b run_id id =
    elim (replay (get_list (lookup run_id b.history)) (record { id = id; buffer = [] })) [
      | none ↦ none
      | some ch ↦
          some (
            ch,
            record b { subs = insert run_id (snoc (get_list (lookup run_id b.subs)) ch) b.subs },
          )
    ]

unfoldable pub remove_channel : ℕ → List Channel → List Channel
remove_channel id [] = []
remove_channel id (ch ∷ rest) = if ch.id == id then rest else ch ∷ remove_channel id rest

-- cancel, on its first call
unfoldable pub cancel : StreamBroker → String → ℕ → StreamBroker
cancel b run_id id = record b {
  subs = insert run_id (remove_channel id (get_list (lookup run_id b.subs))) b.subs;
}
