-- ===== src/Serve/Hosted/Owned.antt =====
-- server.go: the resources of a session after the calls of `startServer` on it.
use tailcat_gui.Prelude.{ℕ, false, List, [], ◌∷◌, ◌≡◌, refl, ◌∙◌, arith, Text}
use tailcat_gui.Session.{
  Scope, SessionOp, sets_info, share, adds_closer, fails, session_run, session_step, set_info,
  add_closer, fail, shutdown, set_state, emit,
}
use tailcat_gui.Share.Mode.{Mode}
use tailcat_gui.Serve.{StartServerArgs, info_ops}

-- The calls that record the arguments, and nothing else.
abbrev pub OnlyInfo : List SessionOp → Type 0
OnlyInfo [] = Unit
OnlyInfo (sets_info k v ∷ os) = OnlyInfo os
OnlyInfo (_ ∷ os) = ⊥

pub info_ops-OnlyInfo :
    (a : StartServerArgs) (m : Mode) (device : Text) → OnlyInfo (info_ops a m device)
unfolding info_ops
info_ops-OnlyInfo a m device = ground arith

module _ (clock : ℕ → ℕ) where
  pub OnlyInfo-closers :
      (os : List SessionOp) (w : Scope)
      → OnlyInfo os
      → (session_run clock os w).session.closers ≡ w.session.closers
  unfolding session_run session_step set_info
  OnlyInfo-closers [] w i = refl
  OnlyInfo-closers (sets_info k v ∷ os) w i = OnlyInfo-closers os _ i
  OnlyInfo-closers (_ ∷ os) w i = absurd (ground arith)

  pub failed_closers :
      (why : Text) (w : Scope)
      → w.session.closers ≡ []
      → (session_run clock (fails why ∷ []) w).session.closers ≡ []
  unfolding session_run session_step fail shutdown set_state emit
  failed_closers why w h = ground arith

  pub shared_closers :
      (os : List SessionOp) (w : Scope)
      → OnlyInfo os
      → w.session.closers ≡ []
      → w.session.closed ≡ false
      → (session_run clock (adds_closer share ∷ os) w).session.closers ≡ share ∷ []
  unfolding session_run session_step add_closer
  shared_closers os w i h c = OnlyInfo-closers os _ i ∙ ground arith
