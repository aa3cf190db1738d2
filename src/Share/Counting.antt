-- ===== src/Share/Counting.antt =====
-- core/engine/fileshare/handlers.go: the progress of a file that is read or written at any offsets.
use Prim.Native.Nat.{min, max}
use tailcat_gui.Prelude.{
  ℕ, ◌≤◌, Bool, true, false, List, [], ◌∷◌, ◌++◌, map, Perm, Option, none, some, append-nil,
  append_assoc, ap, ◌≡◌, refl, ◌∙◌, arith, if◌then◌else◌, ltb, Text, ℤ,
}
use mathlib.Core.List.Perm
use tailcat_gui.Prelude.Pick.{pick, Picks, pick-Picks}
use tailcat_gui.Share.Handlers.{CountingFile}

-- `Progress`, less the rate, a float of bytes over time.
pub record Progress : Type 0 where
  pub path : Text
  pub bytes : ℕ
  pub total : ℤ
  pub upload : Bool
  pub done : Bool

-- `end` held below a known total.
unfoldable pub cap_end : ℤ → ℕ → ℕ
cap_end (ℤ.pos total) end = if ltb total end then total else end
cap_end (ℤ.negsuc _) end = end

-- The total that `Close` reports.
abbrev pub final_total : ℤ → ℕ → ℤ
final_total (ℤ.pos total) bytes = ℤ.pos total
final_total (ℤ.negsuc _) bytes = ℤ.pos bytes

-- The furthest of these offsets.
abbrev pub furthest : List ℕ → ℕ
furthest [] = 0
furthest (end ∷ ends) = max end (furthest ends)

-- What a known total allows.
abbrev pub limited : ℤ → ℕ → ℕ
limited (ℤ.pos total) n = min total n
limited (ℤ.negsuc _) n = n

limited-max :
    (t : ℤ) (b m n : ℕ) → max (max b (limited t m)) (limited t n) ≡ max b (limited t (max m n))
limited-max (ℤ.pos t) b m n = omega arith
limited-max (ℤ.negsuc t) b m n = omega arith

limited-zero : (t : ℤ) (b : ℕ) → b ≡ max b (limited t 0)
limited-zero (ℤ.pos t) b = omega arith
limited-zero (ℤ.negsuc t) b = omega arith

-- Each report counts at least as many bytes as the one before, and not more than a known total.
abbrev pub Rising : ℤ → ℕ → List Progress → Type 0
Rising t n [] = Unit
Rising t n (p ∷ ps) =
    (n ≤ p.bytes) × (limited t p.bytes ≡ p.bytes) × (p.total ≡ t) × Rising t p.bytes ps

-- The furthest offset at each of these, held below the total.
abbrev pub high_marks : ℤ → ℕ → List ℕ → List ℕ
high_marks t b [] = []
high_marks t b (end ∷ ends) = let b' = max b (limited t end) in b' ∷ high_marks t b' ends

pub data CountOp : Type 0 where
  counts : ℕ → CountOp
  reports : ℕ → CountOp

abbrev pub ends_of : List CountOp → List ℕ
ends_of [] = []
ends_of (counts end ∷ os) = end ∷ ends_of os
ends_of (reports _ ∷ os) = ends_of os

limited-step :
    (t : ℤ) (b n : ℕ) → limited t b ≡ b → limited t (max b (limited t n)) ≡ max b (limited t n)
limited-step (ℤ.pos t) b n h = omega arith
limited-step (ℤ.negsuc t) b n h = refl

-- A file that goroutines read or write, with the progress that they have still to report and what was reported.
pub record Counting (F : Type 0) : Type 0 where
  pub counted : CountingFile F
  pub waiting : List Progress
  pub reported : List Progress

module _ {F : Type 0} where
  -- `advance` up to `c.mu.Unlock()`: the file, and the progress that it reports behind that.
  unfoldable pub advance : ℕ → CountingFile F → CountingFile F × Progress
  advance end c =
      let end' = cap_end c.total end in
      let bytes = if ltb c.bytes end' then end' else c.bytes in
      (
        record c { bytes = bytes },
        record { path = c.path; bytes = bytes; total = c.total; upload = c.upload; done = false },
      )

  -- The progress that `Close` reports.
  unfoldable pub close_progress : CountingFile F → Progress
  close_progress c = record {
    path = c.path;
    bytes = c.bytes;
    total = final_total c.total c.bytes;
    upload = c.upload;
    done = true;
  }

  -- The locked parts alone, of reads or writes that end at these offsets.
  advance_all : List ℕ → CountingFile F → CountingFile F × List Progress
  advance_all [] c = (c, [])
  advance_all (end ∷ ends) c =
      let (c', p) = advance end c in let (c'', ps) = advance_all ends c' in (c'', p ∷ ps)

  advance-bytes :
      (end : ℕ) (c : CountingFile F) → (advance end c).0.bytes ≡ max c.bytes (limited c.total end)
  unfolding advance cap_end
  advance-bytes end c = ground arith

  advance-total : (end : ℕ) (c : CountingFile F) → (advance end c).0.total ≡ c.total
  unfolding advance
  advance-total end c = refl

  advance_all-bytes :
      (ends : List ℕ) (c : CountingFile F)
      → (advance_all ends c).0.bytes ≡ max c.bytes (limited c.total (furthest ends))
  unfolding advance_all
  advance_all-bytes [] c = limited-zero c.total c.bytes
  advance_all-bytes (end ∷ ends) c =
      advance_all-bytes ends (advance end c).0
      ∙ rw (advance-total end c, advance-bytes end c)
          (limited-max c.total c.bytes end (furthest ends))

  advance_all-Rising :
      (ends : List ℕ) (c : CountingFile F)
      → limited c.total c.bytes ≡ c.bytes
      → Rising c.total c.bytes (advance_all ends c).1
  unfolding advance_all advance
  advance_all-Rising [] c h = tt
  advance_all-Rising (end ∷ ends) c h =
      let t = advance-bytes end c in
      let inside : limited c.total (advance end c).0.bytes ≡ (advance end c).0.bytes =
        rw t (limited-step c.total c.bytes end h) in
      (omega (arith, t), inside, refl, advance_all-Rising ends (advance end c).0 inside)

  advance_all-high_marks :
      (ends : List ℕ) (c : CountingFile F)
      → map (λ p. p.bytes) (advance_all ends c).1 ≡ high_marks c.total c.bytes ends
  unfolding advance_all advance
  advance_all-high_marks [] c = refl
  advance_all-high_marks (end ∷ ends) c =
      ap (λ l. (advance end c).0.bytes ∷ l) (advance_all-high_marks ends (advance end c).0)
      ∙ ap (λ b. b ∷ high_marks c.total b ends) (advance-bytes end c)

  -- A goroutine runs the locked part of `advance`, or makes its report behind it: the one at that place of `waiting`.
  unfoldable pub count_step : CountOp → Counting F → Counting F
  unfolding advance
  count_step (counts end) w =
      let (c, p) = advance end w.counted in
      record w { counted = c; waiting = w.waiting ++ (p ∷ []) }
  count_step (reports n) w = elim (pick n w.waiting) [
    | none ↦ w
    | some (p, rest) ↦ record w { waiting = rest; reported = w.reported ++ (p ∷ []) }
  ]

  unfoldable pub count_run : List CountOp → Counting F → Counting F
  count_run [] w = w
  count_run (o ∷ os) w = count_run os (count_step o w)

  reports_step :
      (n : ℕ) (w : Counting F)
      → let t = count_step (reports n) w in
        (t.counted ≡ w.counted) × Perm (t.reported ++ t.waiting) (w.reported ++ w.waiting)
  unfolding count_step
  reports_step n w = go (pick n w.waiting) (pick-Picks n w.waiting)
    where
      taken : Option (Progress × List Progress) → Counting F
      taken o = elim o [
        | none ↦ w
        | some (p, rest) ↦ record w { waiting = rest; reported = w.reported ++ (p ∷ []) }
      ]

      go :
          (o : Option (Progress × List Progress))
          → Picks w.waiting o
          → ((taken o).counted ≡ w.counted)
            × Perm ((taken o).reported ++ (taken o).waiting) (w.reported ++ w.waiting)
      go none h = (refl, Perm.refl _)
      go (some (p, rest)) h =
          (refl, rw append_assoc (Perm.append (Perm.refl w.reported) (Perm.symm h)))

  count_run-advance_all :
      (os : List CountOp) (w : Counting F)
      → let t = count_run os w in
        (t.counted ≡ (advance_all (ends_of os) w.counted).0)
        × Perm
            (t.reported ++ t.waiting)
            ((w.reported ++ w.waiting) ++ (advance_all (ends_of os) w.counted).1)
  unfolding count_run advance_all count_step
  count_run-advance_all [] w = (refl, rw append-nil (Perm.refl (w.reported ++ w.waiting)))
  count_run-advance_all (counts end ∷ os) w =
      let (c, p) = advance end w.counted in
      let (same, all) = count_run-advance_all os (count_step (counts end) w) in
      (
        same,
        rw
            (
              ← append_assoc (w.reported ++ w.waiting) (p ∷ []) (advance_all (ends_of os) c).1,
              append_assoc w.reported w.waiting (p ∷ []),
            )
            all,
      )
  count_run-advance_all (reports n ∷ os) w =
      let (kept, moved) = reports_step n w in
      let (same, all) = count_run-advance_all os (count_step (reports n) w) in
      (
        same ∙ ap (λ c. (advance_all (ends_of os) c).0) kept,
        Perm.trans all
            (rw kept (Perm.append moved (Perm.refl (advance_all (ends_of os) w.counted).1))),
      )

  -- However reads, writes and their reports interleave, if the file starts within its total and no report waits: the
  -- bytes counted are the furthest offset reached, held below the total where it is known. What has been reported and
  -- what still waits, each once and perhaps in another order, are reports of the furthest offset at the time of each
  -- read or write: in the order of these they rise, and none passes the total.
  pub count_run-Counts :
      (os : List CountOp) (c : CountingFile F)
      → limited c.total c.bytes ≡ c.bytes
      → let t = count_run os (record { counted = c; waiting = []; reported = [] }) in
        (t.counted.bytes ≡ max c.bytes (limited c.total (furthest (ends_of os))))
        × ((ps : List Progress) × Perm (t.reported ++ t.waiting) ps
            × (map (λ p. p.bytes) ps ≡ high_marks c.total c.bytes (ends_of os))
            × Rising c.total c.bytes ps)
  count_run-Counts os c h =
      let (same, all) =
        count_run-advance_all os (record { counted = c; waiting = []; reported = [] }) in
      (
        ap (λ (d : CountingFile F). d.bytes) same ∙ advance_all-bytes (ends_of os) c,
        (
          (advance_all (ends_of os) c).1,
          all,
          advance_all-high_marks (ends_of os) c,
          advance_all-Rising (ends_of os) c h,
        ),
      )
