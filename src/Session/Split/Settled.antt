-- ===== src/Session/Split/Settled.antt =====
-- session.go: what a session has reported and closed, in whatever order the goroutines run.
use tailcat_gui.Prelude.{ℕ, List, ◌++◌, ◌≡◌, Perm}
use tailcat_gui.Session.Report.{Avoids}
use tailcat_gui.Session.Split.{Split, Stretch, split_run}
use tailcat_gui.Session.Split.Changes.{
  stage, latest, changes, held, EndsOnce, run-stage, changes-EndsOnce,
}
use tailcat_gui.Session.Split.Reports.{Unreserved, Reported, run-Reported}
use tailcat_gui.Session.Split.Resources.{resources, Released, run-resources, run-Released}

module _ (clock : ℕ → ℕ) where
  -- Whatever stretches of a session's methods run, in whatever order: if no extra field has or
  -- gets a reserved key, and the session holds no resource where it is closed at the start, it
  -- ends in the state of the last change, and no change follows one that ends the session. What
  -- has been pushed or still waits is, each once, the state events that waited at the start, the
  -- other events of the stretches, and one event for each change, which says the session's id, the
  -- state and the text. What is closed, about to be closed or open is, each once, the resources of
  -- the start and those registered since; a closed session holds none.
  pub split_run-Settles :
      (os : List Stretch) (p : Split)
      → Unreserved os
      → Avoids p.scope.session.info
      → Released p
      → let q = split_run clock os p in
        (stage q ≡ latest (stage p) (changes (stage p) os))
        × EndsOnce (stage p) (changes (stage p) os)
        × Reported os p q
        × Perm (resources q) (resources p ++ held os)
        × Released q
  split_run-Settles os p u a r = (
    run-stage clock os p,
    changes-EndsOnce os (stage p),
    run-Reported clock os p u a,
    run-resources clock os p r,
    run-Released clock os p r,
  )
