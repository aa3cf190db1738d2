-- ===== src/Tests/Queue.antt =====
-- Runs of core/engine/events.go.
use tailcat_gui.Prelude.{
  ℕ, zero, suc, List, [], ◌∷◌, ◌≡◌, refl, arith, codes, length, ℤ, if◌then◌else◌, ltb, drop, ◌++◌,
  ◌≤◌, Text-discrete,
}
use tailcat_gui.Prelude.Dict.{lookup, insert}
use tailcat_gui.Events.{
  Event, EventQueue, text, int, empty, push, drain, stamp, make_room, queue_run, pushes, drains,
  overflow_event, max_queued_events,
}
use tailcat_gui.Events.Bounds.{IsBounded, run-IsBounded}
use tailcat_gui.Events.Delivery.{push_all, stamped, drain-push_all}

abbrev hello : Event
hello = (codes "type", text (codes "log")) ∷ []

-- 5000 events, and one more.
many : ℕ → List Event
many zero = []
many (suc n) = [] ∷ many n

full : EventQueue
unfolding many
full = record { events = many 5000; dropped = 0 }

full_is_full : length full.events ≡ 5000
unfolding full
full_is_full = refl

-- The push that overflows drops the oldest half.
overflow_drops :
    let q = push 7 hello full in ◌≡◌ {A = ℕ × ℕ} (length q.events, q.dropped) (2501, 2500)
unfolding push make_room stamp full insert lookup Text-discrete
overflow_drops = refl

-- A time that the event has is kept, and one that it lacks is set.
stamps : stamp 7 hello ≡ (codes "type", text (codes "log")) ∷ (codes "ts", int (ℤ.pos 7)) ∷ []
unfolding stamp insert lookup Text-discrete
stamps = refl

run-IsBounded_example : IsBounded (queue_run (pushes 7 hello ∷ drains 8 ∷ []) empty).1
run-IsBounded_example =
    run-IsBounded (pushes 7 hello ∷ drains 8 ∷ []) empty
      (record { within = unfold empty in omega arith })

drain-push_all_example :
    let t = push_all ((7, hello) ∷ []) full in
    let kept = drop t.dropped (full.events ++ stamped ((7, hello) ∷ [])) in
    (drain 9 t ≡ (
      (if ltb 0 t.dropped then overflow_event 9 ∷ kept else kept),
      record { events = []; dropped = 0 },
    ))
    × (length (full.events ++ stamped ((7, hello) ∷ [])) ≤ max_queued_events → t.dropped ≡ 0)
drain-push_all_example = drain-push_all 9 ((7, hello) ∷ []) full (unfold full in refl)
