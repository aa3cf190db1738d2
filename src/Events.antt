-- ===== src/Events.antt =====
-- core/engine/events.go: the bounded queue between the engine and the UI. A call of
-- `time.Now().UnixMilli()` is an argument.
pub mod Bounds
pub mod Delivery
use tailcat_gui.Prelude.{
  ℕ, ◌+◌, ◌/◌, Bool, true, false, List, [], ◌∷◌, ◌++◌, length, drop, leb, ltb, if◌then◌else◌, ℤ,
  Text, codes,
}
use tailcat_gui.Prelude.Dict.{Dict, has, insert}

-- The `any` values that the engine puts into events and session info. A `float64` is scaled to
-- an integer in millionths.
pub data Value : Type 0 where
  text : Text → Value
  int : ℤ → Value
  float : ℕ → Value
  bool : Bool → Value
  ints : List ℤ → Value
  texts : List Text → Value

-- `type Event map[string]any`
abbrev pub Event : Type 0
Event = Dict Value

abbrev pub ev_log : Value
ev_log = text (codes "log")

abbrev pub ev_session_state : Value
ev_session_state = text (codes "session_state")

abbrev pub ev_token_ready : Value
ev_token_ready = text (codes "token_ready")

abbrev pub ev_progress : Value
ev_progress = text (codes "progress")

abbrev pub ev_path : Value
ev_path = text (codes "path")

abbrev pub ev_error : Value
ev_error = text (codes "error")

abbrev pub max_queued_events : ℕ
max_queued_events = 5000

pub record EventQueue : Type 0 where
  pub events : List Event
  pub dropped : ℕ

-- `&EventQueue{}`
unfoldable pub empty : EventQueue
empty = record { events = []; dropped = 0 }

-- The first statement of `Push`: `ev["ts"]` is set if it is absent.
unfoldable pub stamp : ℕ → Event → Event
stamp now ev = if has (codes "ts") ev then ev else insert (codes "ts") (int (ℤ.pos now)) ev

-- The overflow branch: the oldest half goes.
unfoldable pub make_room : EventQueue → EventQueue
make_room q =
    if leb max_queued_events (length q.events)
    then (let n = length q.events / 2 in
        record { events = drop n q.events; dropped = q.dropped + n })
    else q

unfoldable pub push : ℕ → Event → EventQueue → EventQueue
push now ev q =
    let room = make_room q in record room { events = room.events ++ (stamp now ev ∷ []) }

-- The event that `Drain` puts in front after an overflow.
unfoldable pub overflow_event : ℕ → Event
overflow_event now =
    (codes "type", ev_log)
    ∷ (codes "ts", int (ℤ.pos now))
    ∷ (codes "level", text (codes "warn"))
    ∷ (codes "msg", text (codes "event queue overflow; some events were dropped"))
    ∷ []

abbrev pub is_empty {ℓ} : {A : Type ℓ} → List A → Bool
is_empty [] = true
is_empty (_ ∷ _) = false

-- The queue after `Drain`, and the events that it returns (`nil` is the empty list).
unfoldable pub drain : ℕ → EventQueue → List Event × EventQueue
unfolding overflow_event
drain now q =
    if is_empty q.events
    then ([], q)
    else if ltb 0 q.dropped
    then (overflow_event now ∷ q.events, record { events = []; dropped = 0 })
    else (q.events, record q { events = [] })

-- `Len`
unfoldable pub len : EventQueue → ℕ
len q = length q.events

-- What the queue's clients do with it.
pub data QueueOp : Type 0 where
  pushes : ℕ → Event → QueueOp
  drains : ℕ → QueueOp

-- One call: the queue after it, and what it hands to the UI.
unfoldable pub queue_step : QueueOp → EventQueue → List Event × EventQueue
unfolding push drain
queue_step (pushes now ev) q = ([], push now ev q)
queue_step (drains now) q = drain now q

-- A history of calls: all that the UI received, in order, and the queue at the end.
unfoldable pub queue_run : List QueueOp → EventQueue → List Event × EventQueue
unfolding queue_step
queue_run [] q = ([], q)
queue_run (o ∷ os) q =
    let (out, q') = queue_step o q in let (more, q'') = queue_run os q' in (out ++ more, q'')
