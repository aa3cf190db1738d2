-- ===== src/Bridge/Retired.antt =====
-- bridge/main.go: an engine that was shut down while threads still hold it.
use tailcat_gui.Prelude.{
  ℕ, ◌<◌, ◌==◌, ==_iff, true, List, [], ◌∷◌, ◌++◌, text_eq, ◌≡◌, ◌≢◌, refl, sym, subst, arith, none,
  some, if◌then◌else◌, Text, Option-cases, Bool-cases, inl, inr,
}
use tailcat_gui.Prelude.Dict.{lookup}
use tailcat_gui.Tokens.{good, bad}
use tailcat_gui.Engine.{Engine, Config, close}
use tailcat_gui.Engine.Shut.{ShutOut, stop_each-ShutOut, step-ShutOut}
use tailcat_gui.Commands.{Decoders, World, call}
use tailcat_gui.Commands.Dispatched.{call_closed}
use tailcat_gui.Bridge.{
  Bridge, put, renew, current_engine, tc_init, init_with, detach, call_on, close_on, tc_shutdown,
  BridgeOp, inits, acquires, calls_on, works_on, detaches, closes_on, bridge_step, bridge_run,
}

-- The engine `h` is there, but it is not the current one, it is closed, and it has no session `j`.
pub record IsRetired (h : ℕ) (j : Text) (b : Bridge) : Type 0 where
  pub known : h < b.next
  pub dropped : b.eng ≢ some h
  pub shut : ShutOut j (b.heap h)

put-ShutOut :
    (h k : ℕ) (j : Text) (e : Engine) (b : Bridge)
    → ShutOut j (b.heap h)
    → (h ≡ k → ShutOut j e)
    → ShutOut j ((put k e b).heap h)
put-ShutOut h k j e b s f = elim (Bool-cases (h == k)) [
  | inl t ↦ rw t (f ((==_iff h k).0 t))
  | inr n ↦ rw n s
]

renew-IsRetired :
    (h : ℕ) (j : Text) (cfg : _) (b : Bridge) → IsRetired h j b → IsRetired h j (renew cfg b)
unfolding renew
renew-IsRetired h j cfg b k = record {
  known = omega (arith, k.known);
  dropped = λ e. absurd (ground (arith, e, k.known));
  shut = put-ShutOut h b.next j _ b k.shut (λ e. absurd (omega (arith, e, k.known)));
}

current_engine-IsRetired :
    (h : ℕ) (j : Text) (b : Bridge) → IsRetired h j b → IsRetired h j (current_engine b).1
unfolding current_engine
current_engine-IsRetired h j b k = elim (Option-cases b.eng) [
  | inl e ↦ rw (e, current_engine) (renew-IsRetired h j _ b k)
  | inr (x, e) ↦ rw (e, current_engine) k
]

init_with-IsRetired :
    (h : ℕ) (j : Text) (cfg : Config) (b : Bridge)
    → IsRetired h j b
    → IsRetired h j (init_with cfg b).1
unfolding init_with renew
init_with-IsRetired h j cfg b k = elim (Option-cases b.eng) [
  | inl e ↦
      let b' : Bridge = record b {
        made = if text_eq cfg.data_dir [] then b.made else b.made ++ (cfg.data_dir ∷ []);
      } in
      rw (e, init_with)
        (renew-IsRetired h j cfg b'
          (record { known = k.known; dropped = k.dropped; shut = k.shut }))
  | inr (x, e) ↦ rw (e, init_with) k
]

put_same : (h : ℕ) (e : Engine) (b : Bridge) → (put h e b).heap h ≡ e
put_same h e b = rw ((==_iff h h).1 refl) refl

put-IsRetired :
    (h k : ℕ) (j : Text) (e : Engine) (b : Bridge)
    → IsRetired h j b
    → (h ≡ k → ShutOut j e)
    → IsRetired h j (put k e b)
put-IsRetired h k j e b r f = record {
  known = r.known;
  dropped = r.dropped;
  shut = put-ShutOut h k j e b r.shut f;
}

close-ShutOut :
    (clock : ℕ → ℕ) (enumerate : _) (j : Text) (e : Engine)
    → lookup j e.sessions ≡ none
    → ShutOut j (close clock enumerate e)
unfolding close
close-ShutOut clock enumerate j e h =
    stop_each-ShutOut clock enumerate j (enumerate e.sessions) (record e { closed = true })
      (refl, h)

module _ {ConnInfo Entries : Type 0} (d : Decoders) (w : World ConnInfo Entries) where
  tc_init-IsRetired :
      (h : ℕ) (j : Text) (config : _) (b : Bridge)
      → IsRetired h j b
      → IsRetired h j (tc_init config b).1
  unfolding tc_init
  tc_init-IsRetired h j none b k = init_with-IsRetired h j _ b k
  tc_init-IsRetired h j (some (bad _)) b k = k
  tc_init-IsRetired h j (some (good cfg)) b k = init_with-IsRetired h j cfg b k

  step-IsRetired :
      (h : ℕ) (j : Text) (o : BridgeOp) (b : Bridge)
      → IsRetired h j b
      → IsRetired h j (bridge_step d w o b)
  unfolding bridge_step call_on detach close_on
  step-IsRetired h j (inits config) b k = tc_init-IsRetired h j config b k
  step-IsRetired h j acquires b k = current_engine-IsRetired h j b k
  step-IsRetired h j (calls_on i r) b k =
      put-IsRetired h i j (call d w r (b.heap i)).1 b k
        (λ e. call_closed d w r (b.heap i) j (subst (λ x. ShutOut j (b.heap x)) e k.shut))
  step-IsRetired h j (works_on i o) b k = put-IsRetired h i j _ b k (λ e.
      step-ShutOut w.clock w.enumerate j o (b.heap i) (subst (λ x. ShutOut j (b.heap x)) e k.shut))
  step-IsRetired h j detaches b k = record {
    known = k.known;
    dropped = λ e. absurd (ground (arith, e));
    shut = k.shut;
  }
  step-IsRetired h j (closes_on i) b k = put-IsRetired h i j _ b k (λ e.
      close-ShutOut w.clock w.enumerate j (b.heap i) (subst (λ x. ShutOut j (b.heap x)) e k.shut).1)

  run-IsRetired :
      (h : ℕ) (j : Text) (os : List BridgeOp) (b : Bridge)
      → IsRetired h j b
      → IsRetired h j (bridge_run d w os b)
  unfolding bridge_run
  run-IsRetired h j [] b k = k
  run-IsRetired h j (o ∷ os) b k =
      run-IsRetired h j os (bridge_step d w o b) (step-IsRetired h j o b k)

  -- After `tc_shutdown`, whatever threads do, also those that still hold the engine that was shut
  -- down: it is never the current one again, it stays closed, and it gets no session that it did
  -- not have.
  pub tc_shutdown-IsRetired :
      (h : ℕ) (j : Text) (os : List BridgeOp) (b : Bridge)
      → b.eng ≡ some h
      → h < b.next
      → lookup j (b.heap h).sessions ≡ none
      → IsRetired h j (bridge_run d w os (tc_shutdown d w b))
  unfolding tc_shutdown detach close_on
  tc_shutdown-IsRetired h j os b e known none_there = run-IsRetired h j os (tc_shutdown d w b) (
      rw (e, tc_shutdown, detach)
        (record {
          known = known;
          dropped = λ x. absurd (ground (arith, x));
          shut =
              subst (ShutOut j)
                (sym (put_same h (close w.clock w.enumerate (b.heap h)) (record b { eng = none })))
                (close-ShutOut w.clock w.enumerate j (b.heap h) none_there);
        }))
