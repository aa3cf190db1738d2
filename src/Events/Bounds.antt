-- ===== src/Events/Bounds.antt =====
-- events.go: the queue stays within its bound.
use tailcat_gui.Prelude.{ℕ, ◌/◌, ◌≤◌, ◌<◌, List, [], ◌∷◌, length, arith, length-append, length-drop}
use tailcat_gui.Events.{
  Event, EventQueue, max_queued_events, make_room, push, drain, stamp, queue_step, queue_run,
  QueueOp, pushes, drains,
}

-- The invariant of the queue.
pub record IsBounded (q : EventQueue) : Type 0 where
  pub within : length q.events ≤ max_queued_events

make_room_lem : (q : EventQueue) → IsBounded q → length (make_room q).events < max_queued_events
unfolding make_room
make_room_lem q b = ground (arith, length-drop (length q.events / 2) q.events)

-- `Push` never lets the queue grow past `maxQueuedEvents`.
pub push-IsBounded :
    (now : ℕ) (ev : Event) (q : EventQueue) → IsBounded q → IsBounded (push now ev q)
unfolding push
push-IsBounded now ev q b = record {
  within = omega (arith, make_room_lem q b, length-append (make_room q).events (stamp now ev ∷ []));
}

drain-IsBounded : (now : ℕ) (q : EventQueue) → IsBounded q → IsBounded (drain now q).1
unfolding drain
drain-IsBounded now q b = ground arith

step-IsBounded : (o : QueueOp) (q : EventQueue) → IsBounded q → IsBounded (queue_step o q).1
unfolding queue_step
step-IsBounded (pushes now ev) q b = push-IsBounded now ev q b
step-IsBounded (drains now) q b = drain-IsBounded now q b

-- After any calls of `Push` and `Drain` on a queue within its bound, the queue is within its bound.
pub run-IsBounded :
    (os : List QueueOp) (q : EventQueue) → IsBounded q → IsBounded (queue_run os q).1
unfolding queue_run
run-IsBounded [] q b = b
run-IsBounded (o ∷ os) q b = run-IsBounded os (queue_step o q).1 (step-IsBounded o q b)
