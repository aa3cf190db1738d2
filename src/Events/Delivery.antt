-- ===== src/Events/Delivery.antt =====
-- events.go: what reaches the UI between two polls.
use tailcat_gui.Prelude.{
  ℕ, ◌+◌, ◌/◌, ◌≤◌, ◌<◌, ◌≡◌, ap, sym, ◌∙◌, List, [], ◌∷◌, ◌++◌, length, drop, arith, length-append,
  length-drop, drop-append_le, drop-drop, append_assoc, append-nil, ltb, leb, if◌then◌else◌,
  Bool-cases, inl, inr,
}
use tailcat_gui.Events.{
  Event, EventQueue, max_queued_events, make_room, push, drain, stamp, overflow_event,
}

-- The calls of `Push` between two calls of `Drain`.
unfoldable pub push_all : List (ℕ × Event) → EventQueue → EventQueue
push_all [] q = q
push_all ((now, ev) ∷ evs) q = push_all evs (push now ev q)

-- The events of those calls as they are queued.
abbrev pub stamped : List (ℕ × Event) → List Event
stamped [] = []
stamped ((now, ev) ∷ evs) = stamp now ev ∷ stamped evs

-- `q` holds the latest events of `all`, and counts the others as dropped.
pub record Tracks (all : List Event) (q : EventQueue) : Type 0 where
  pub suffix : q.events ≡ drop q.dropped all
  pub counted : q.dropped + length q.events ≡ length all
  pub half_kept : 0 < q.dropped → 2500 ≤ length q.events
  pub no_early_drop : length all ≤ max_queued_events → q.dropped ≡ 0

make_room_suffix :
    (all : List Event) (q : EventQueue)
    → Tracks all q
    → (make_room q).events ≡ drop (make_room q).dropped all
unfolding make_room
make_room_suffix all q t = elim (Bool-cases (leb max_queued_events (length q.events))) [
  | inl full ↦ rw full (ap (drop (length q.events / 2)) t.suffix ∙ drop-drop _ q.dropped all)
  | inr room ↦ rw room t.suffix
]

make_room_counts :
    (q : EventQueue)
    → (make_room q).dropped + length (make_room q).events ≡ q.dropped + length q.events
unfolding make_room
make_room_counts q = ground (arith, length-drop (length q.events / 2) q.events)

make_room_keeps_half :
    (q : EventQueue)
    → (0 < q.dropped → 2500 ≤ length q.events)
    → 0 < (make_room q).dropped
    → 2500 ≤ length (make_room q).events
unfolding make_room
make_room_keeps_half q h = ground (arith, length-drop (length q.events / 2) q.events)

make_room_of_lt : (q : EventQueue) → length q.events < max_queued_events → make_room q ≡ q
unfolding make_room
make_room_of_lt q h = ground arith

push-Tracks :
    (now : ℕ) (ev : Event) (all : List Event) (q : EventQueue)
    → Tracks all q
    → Tracks (all ++ (stamp now ev ∷ [])) (push now ev q)
unfolding push
push-Tracks now ev all q t = record {
  suffix = rw (make_room_suffix all q t) (
      sym (
        drop-append_le (make_room q).dropped all (stamp now ev ∷ [])
          (omega (arith, t.counted, make_room_counts q))));
  counted = omega (
    arith,
    make_room_counts q,
    t.counted,
    length-append (make_room q).events (stamp now ev ∷ []),
    length-append all (stamp now ev ∷ []),
  );
  half_kept = λ lost. omega (
    arith,
    make_room_keeps_half q t.half_kept lost,
    length-append (make_room q).events (stamp now ev ∷ []),
  );
  no_early_drop = λ few.
      let fits : length all + 1 ≤ max_queued_events =
        omega (arith, length-append all (stamp now ev ∷ [])) in
      rw (make_room_of_lt q (omega (arith, t.counted))) (t.no_early_drop (omega arith));
}

push_all-Tracks :
    (evs : List (ℕ × Event)) (all : List Event) (q : EventQueue)
    → Tracks all q
    → Tracks (all ++ stamped evs) (push_all evs q)
unfolding push_all
push_all-Tracks [] all q t = rw append-nil t
push_all-Tracks ((now, ev) ∷ evs) all q t =
    let rest = push_all-Tracks evs _ (push now ev q) (push-Tracks now ev all q t) in
    rw (append_assoc all (stamp now ev ∷ []) (stamped evs)) at rest

fresh-Tracks : (q : EventQueue) → q.dropped ≡ 0 → Tracks q.events q
fresh-Tracks q h = record {
  suffix = rw h;
  counted = omega arith;
  half_kept = λ lost. absurd (omega arith);
  no_early_drop = λ few. h;
}

-- After any calls of `Push` on a queue that has dropped nothing since the last `Drain`, the
-- queue holds the latest of the events queued and pushed, in order and stamped. What is missing at the front is
-- exactly what it counts as dropped. It has dropped nothing if they are at most
-- `maxQueuedEvents`, and keeps at least 2500 of them if it has dropped some.
push_all-Tracks_all :
    (evs : List (ℕ × Event)) (q : EventQueue)
    → q.dropped ≡ 0
    → Tracks (q.events ++ stamped evs) (push_all evs q)
push_all-Tracks_all evs q h = push_all-Tracks evs q.events q (fresh-Tracks q h)

drain_cases :
    (now : ℕ) (t : EventQueue)
    → (0 < t.dropped → 2500 ≤ length t.events)
    → drain now t ≡ (
      (if ltb 0 t.dropped then overflow_event now ∷ t.events else t.events),
      record { events = []; dropped = 0 },
    )
unfolding drain
drain_cases now t h = ground arith

-- After any calls of `Push` on a queue that has dropped nothing since the last `Drain`, the next
-- `Drain` returns the events queued and pushed, stamped and in order, less as many of the first
-- ones as were dropped, and leaves the queue empty with nothing counted. In front of them it puts
-- the overflow warning exactly if an event was dropped, and so it puts none if at most
-- `maxQueuedEvents` events were queued and pushed.
pub drain-push_all :
    (now : ℕ) (evs : List (ℕ × Event)) (q : EventQueue)
    → q.dropped ≡ 0
    → let t = push_all evs q in
      let kept = drop t.dropped (q.events ++ stamped evs) in
      (drain now t ≡ (
        (if ltb 0 t.dropped then overflow_event now ∷ kept else kept),
        record { events = []; dropped = 0 },
      ))
      × (length (q.events ++ stamped evs) ≤ max_queued_events → t.dropped ≡ 0)
drain-push_all now evs q h =
    let t = push_all-Tracks_all evs q h in
    (rw (← t.suffix) (drain_cases now (push_all evs q) t.half_kept), t.no_early_drop)
