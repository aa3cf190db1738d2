-- ===== src/Transfers/Throttle.antt =====
-- core/engine/files.go: `progressEmitter`, which reports the progress of each file at most every
-- 100 ms. Times are nanoseconds.
use tailcat_gui.Prelude.{
  ℕ, ℤ, ◌+◌, Bool, true, false, not, ◌&&◌, ◌||◌, List, [], ◌∷◌, ◌≡◌, refl, arith, Option, none,
  some, if◌then◌else◌, Text, codes, text_eq, Text-discrete, ltb, inl, inr, Bool-cases,
}
use tailcat_gui.Prelude.Dict.{Dict, lookup, insert, erase, lookup-insert, lookup-erase}
use tailcat_gui.Events.{Event, text, int, float, bool, ev_progress}
use tailcat_gui.Share.Counting.{Progress}

abbrev pub interval : ℕ
interval = 100000000

-- `now.Sub(last[p.Path]) < 100*time.Millisecond`; the zero time is long ago.
abbrev pub is_recent : Option ℕ → ℕ → Bool
is_recent none now = false
is_recent (some t) now = ltb now (t + interval)

-- Whether a report is pushed, and the times after it.
unfoldable pub throttle : ℕ → Progress → Dict ℕ → Bool × Dict ℕ
throttle now p last =
    if not p.done && is_recent (lookup p.path last) now
    then (false, last)
    else (true, (if p.done then erase p.path last else insert p.path now last))

-- The event that is pushed, with the rate as a parameter.
unfoldable pub progress_event : Text → Progress → ℕ → Event
progress_event id p rate =
    (codes "type", ev_progress)
    ∷ (codes "session_id", text id)
    ∷ (codes "file", text p.path)
    ∷ (codes "bytes", int (ℤ.pos p.bytes))
    ∷ (codes "total", int p.total)
    ∷ (codes "direction", text (if p.upload then codes "up" else codes "down"))
    ∷ (codes "done", bool p.done)
    ∷ (codes "rate_bps", float rate)
    ∷ []

-- The reports that are pushed, of all that are made.
unfoldable pub throttle_all : List (ℕ × Progress) → Dict ℕ → List (ℕ × Progress)
throttle_all [] last = []
throttle_all ((now, p) ∷ rs) last =
    let (pushed, last') = throttle now p last in
    let rest = throttle_all rs last' in if pushed then (now, p) ∷ rest else rest

-- The time of the latest report of the file `f`, unless that was its final one.
abbrev pub later : Text → Option ℕ → ℕ → Progress → Option ℕ
later f since now p = if text_eq p.path f then if p.done then none else some now else since

abbrev pub too_soon : Option ℕ → ℕ → Bool
too_soon none now = false
too_soon (some t) now = ltb now (t + 100000000)

-- The reports of the file `f` are 100 ms apart; a final one may come at any time, and the count of
-- the time begins anew behind it.
unfoldable pub spaced : Text → Option ℕ → List (ℕ × Progress) → Bool
spaced f since [] = true
spaced f since ((now, p) ∷ rs) =
    (not (text_eq p.path f) || p.done || not (too_soon since now))
    && spaced f (later f since now p) rs

-- The final reports.
unfoldable pub finals : List (ℕ × Progress) → List (ℕ × Progress)
finals [] = []
finals ((now, p) ∷ rs) = let rest = finals rs in if p.done then (now, p) ∷ rest else rest

-- The reports of the file `f`.
unfoldable pub of_file : Text → List (ℕ × Progress) → List (ℕ × Progress)
of_file f [] = []
of_file f ((now, p) ∷ rs) =
    let rest = of_file f rs in if text_eq p.path f then (now, p) ∷ rest else rest

-- Those of them that are due: the final ones, and each that does not come too soon behind the
-- latest that was due.
unfoldable pub due : Text → Option ℕ → List (ℕ × Progress) → List (ℕ × Progress)
due f since [] = []
due f since ((now, p) ∷ rs) =
    let skipped = due f since rs in
    let pushed = due f (later f since now p) rs in
    if not (text_eq p.path f) || (not p.done && too_soon since now)
    then skipped
    else (now, p) ∷ pushed

throttle-later :
    (f : Text) (now : ℕ) (p : Progress) (last : Dict ℕ)
    → (throttle now p last).0 ≡ true
    → lookup f (throttle now p last).1 ≡ later f (lookup f last) now p
unfolding throttle
throttle-later f now p last h =
    ground (arith, lookup-insert p.path f now last, lookup-erase p.path f last)

throttle-skips :
    (now : ℕ) (p : Progress) (last : Dict ℕ)
    → (throttle now p last).0 ≡ false
    → ((throttle now p last).1 ≡ last) × (p.done ≡ false)
unfolding throttle
throttle-skips now p last h = ground arith

throttle-passes :
    (f : Text) (now : ℕ) (p : Progress) (last : Dict ℕ)
    → (throttle now p last).0 ≡ true
    → (not (text_eq p.path f) || p.done || not (too_soon (lookup f last) now)) ≡ true
unfolding throttle Text-discrete
throttle-passes f now p last h = ground arith

throttle-drops :
    (f : Text) (now : ℕ) (p : Progress) (last : Dict ℕ)
    → (throttle now p last).0 ≡ false
    → (not (text_eq p.path f) || (not p.done && too_soon (lookup f last) now)) ≡ true
unfolding throttle Text-discrete
throttle-drops f now p last h = ground arith

throttle_all-due :
    (f : Text) (rs : List (ℕ × Progress)) (last : Dict ℕ)
    → of_file f (throttle_all rs last) ≡ due f (lookup f last) rs
unfolding of_file due throttle_all
throttle_all-due f [] last = refl
throttle_all-due f ((now, p) ∷ rs) last =
    let ih = throttle_all-due f rs (throttle now p last).1 in
    elim (Bool-cases (throttle now p last).0) [
      | inl h ↦ ground (arith, h, ih, throttle-later f now p last h, throttle-passes f now p last h)
      | inr h ↦
          let (same, _) = throttle-skips now p last h in
          ground (arith, h, ih, same, throttle-drops f now p last h)
    ]

throttle_all-paced :
    (f : Text) (rs : List (ℕ × Progress)) (last : Dict ℕ)
    → (spaced f (lookup f last) (throttle_all rs last) ≡ true)
      × (finals (throttle_all rs last) ≡ finals rs)
unfolding spaced finals throttle_all
throttle_all-paced f [] last = (refl, refl)
throttle_all-paced f ((now, p) ∷ rs) last =
    let (s, k) = throttle_all-paced f rs (throttle now p last).1 in
    elim (Bool-cases (throttle now p last).0) [
      | inl h ↦ (
        ground (arith, h, s, throttle-later f now p last h, throttle-passes f now p last h),
        ground (arith, h, k),
      )
      | inr h ↦
          let (same, unfinished) = throttle-skips now p last h in
          (ground (arith, h, s, same), ground (arith, h, k, unfinished))
    ]

-- Whatever is reported and when, of the reports of a file that are pushed, two that are not final
-- are 100 ms apart at least, unless a final one of that file comes between them; every final
-- report is pushed; and so is, of each file, every other report that does not come within 100 ms
-- of the latest of that file that was pushed.
pub throttle_all-spaced :
    (f : Text) (rs : List (ℕ × Progress)) (last : Dict ℕ)
    → (spaced f (lookup f last) (throttle_all rs last) ≡ true)
      × (finals (throttle_all rs last) ≡ finals rs)
      × (of_file f (throttle_all rs last) ≡ due f (lookup f last) rs)
throttle_all-spaced f rs last =
    let (s, k) = throttle_all-paced f rs last in (s, k, throttle_all-due f rs last)
