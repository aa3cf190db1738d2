-- ===== src/Share/Conns/Ended.antt =====
-- server.go: when `Close` has come to its end, every connection is closed.
use tailcat_gui.Prelude.{
  ℕ, suc, ◌+◌, ◌-◌, ◌≤◌, Bool, true, false, List, [], ◌∷◌, ◌≡◌, inl, inr, refl, arith,
  if◌then◌else◌, Option, none, some, ◌==◌, Bool-cases, length,
}
use tailcat_gui.Share.Server.{Server, track, untrack, close_server, remove_conn}
use tailcat_gui.Share.Conns.{
  ConnOp, arrives, hangs_up, leaves, shuts, closes_next, Live, arrive, shut, close_next, conn_step,
  conn_run, unconnected, has_conn,
}

has-remove :
    (c d : ℕ) (xs : List ℕ)
    → has_conn d (remove_conn c xs) ≡ (if c == d then false else has_conn d xs)
has-remove c d [] = ground arith
has-remove c d (x ∷ xs) = ground (arith, has-remove c d xs)

-- What an open connection can count on: the server knows it, or `Close` is about to close it.
abbrev Known : Server → Option (List ℕ) → ℕ → Type 0
Known s none c = (s.done ≡ false) × (has_conn c s.conns ≡ true)
Known s (some cs) c = has_conn c cs ≡ true

-- The backend is closed once, behind the loop.
abbrev closings : Bool → Option (List ℕ) → ℕ
closings true none = 1
closings _ _ = 0

abbrev InOrder : Bool → Option (List ℕ) → Type 0
InOrder false (some cs) = ⊥
InOrder _ _ = Unit

record IsAccounted (w : Live) : Type 0 where
  known : (c : ℕ) → has_conn c w.open_conns ≡ true → Known w.server w.pending c
  counted : w.fs_closed ≡ closings w.server.done w.pending
  in_order : InOrder w.server.done w.pending

module _ (w : Live) (ok : IsAccounted w) where
  arrive-known :
      (c d : ℕ)
      → has_conn d (arrive c w).open_conns ≡ true
      → Known (arrive c w).server (arrive c w).pending d
  unfolding arrive track
  arrive-known c d h = elim (Bool-cases w.server.done) [
    | inl e ↦ ground (arith, ok.known d)
    | inr e ↦ ground (arith, ok.known d, ok.in_order, has-remove c d w.server.conns)
  ]

  leaves-known :
      (c d : ℕ)
      → has_conn d (conn_step (leaves c) w).open_conns ≡ true
      → Known (conn_step (leaves c) w).server w.pending d
  unfolding conn_step untrack
  leaves-known c d h =
      ground (arith, ok.known d, has-remove c d w.server.conns, has-remove c d w.open_conns)

  shut-known :
      (d : ℕ) → has_conn d (shut w).open_conns ≡ true → Known (shut w).server (shut w).pending d
  unfolding shut close_server
  shut-known d h = ground (arith, ok.known d, ok.in_order)

  close_next-IsAccounted :
      (pending : Option (List ℕ)) → w.pending ≡ pending → IsAccounted (close_next w)
  unfolding close_next
  close_next-IsAccounted none e = record {
    known = λ d h. ground (arith, ok.known d);
    counted = ground (arith, ok.counted);
    in_order = ground (arith, ok.in_order);
  }
  close_next-IsAccounted (some []) e = record {
    known = λ d h. ground (arith, ok.known d);
    counted = ground (arith, ok.counted, ok.in_order);
    in_order = ground (arith, ok.in_order);
  }
  close_next-IsAccounted (some (c ∷ cs)) e = record {
    known = λ d h. ground (arith, ok.known d, has-remove c d w.open_conns);
    counted = ground (arith, ok.counted, ok.in_order);
    in_order = ground (arith, ok.in_order);
  }

conn_step-IsAccounted : (o : ConnOp) (w : Live) → IsAccounted w → IsAccounted (conn_step o w)
unfolding conn_step
conn_step-IsAccounted (arrives c) w ok = record {
  known = arrive-known w ok c;
  counted = unfold arrive track in ground (arith, ok.counted);
  in_order = unfold arrive track in ground (arith, ok.in_order);
}
conn_step-IsAccounted (hangs_up c) w ok = record {
  known = λ d h. ground (arith, ok.known d, has-remove c d w.open_conns);
  counted = ok.counted;
  in_order = ok.in_order;
}
conn_step-IsAccounted (leaves c) w ok = record {
  known = leaves-known w ok c;
  counted = unfold untrack in ok.counted;
  in_order = unfold untrack in ok.in_order;
}
conn_step-IsAccounted shuts w ok = record {
  known = shut-known w ok;
  counted = unfold shut close_server in ground (arith, ok.counted, ok.in_order);
  in_order = unfold shut close_server in ground (arith, ok.in_order);
}
conn_step-IsAccounted closes_next w ok = close_next-IsAccounted w ok w.pending refl

conn_run-IsAccounted : (os : List ConnOp) (w : Live) → IsAccounted w → IsAccounted (conn_run os w)
unfolding conn_run
conn_run-IsAccounted [] w ok = ok
conn_run-IsAccounted (o ∷ os) w ok =
    conn_run-IsAccounted os (conn_step o w) (conn_step-IsAccounted o w ok)

unconnected-IsAccounted : IsAccounted unconnected
unconnected-IsAccounted = record { known = λ c h. cc; counted = refl; in_order = tt }

-- The rounds that `Close` has still to go, the one that closes the backend included, and those that it goes.
abbrev pub rounds_left : Live → ℕ
rounds_left w = elim w.pending [ none ↦ 0 | some conns ↦ suc (length conns) ]

abbrev is_closing : ConnOp → ℕ
is_closing closes_next = 1
is_closing _ = 0

abbrev pub rounds : List ConnOp → ℕ
rounds [] = 0
rounds (o ∷ os) = is_closing o + rounds os

-- Once the server is done it stays so, and only `Close` itself goes on with its loop.
conn_step-rounds :
    (o : ConnOp) (w : Live)
    → w.server.done ≡ true
    → ((conn_step o w).server.done ≡ true)
      × (rounds_left (conn_step o w) ≤ rounds_left w - is_closing o)
unfolding conn_step
conn_step-rounds (arrives c) w d = unfold arrive track in ground arith
conn_step-rounds (hangs_up c) w d = ground arith
conn_step-rounds (leaves c) w d = unfold untrack in ground arith
conn_step-rounds shuts w d = unfold shut close_server in ground arith
conn_step-rounds closes_next w d = go w.pending refl
  where
    go :
        (p : Option (List ℕ))
        → w.pending ≡ p
        → ((close_next w).server.done ≡ true) × (rounds_left (close_next w) ≤ rounds_left w - 1)
    go none e = unfold close_next in ground arith
    go (some []) e = unfold close_next in ground arith
    go (some (c ∷ cs)) e = unfold close_next in ground arith

conn_run-rounds :
    (os : List ConnOp) (w : Live)
    → w.server.done ≡ true
    → rounds_left w ≤ rounds os
    → ((conn_run os w).server.done ≡ true) × (rounds_left (conn_run os w) ≡ 0)
unfolding conn_run
conn_run-rounds [] w d h = (d, omega arith)
conn_run-rounds (o ∷ os) w d h =
    let (d', less) = conn_step-rounds o w d in
    conn_run-rounds os (conn_step o w) d' (omega (arith, less))

shut-done : (w : Live) → (shut w).server.done ≡ true
unfolding shut close_server
shut-done w = ground arith

-- What a server is when `Close` has come to its end.
pub record HasEnded (w : Live) : Type 0 where
  pub all_closed : (c : ℕ) → has_conn c w.open_conns ≡ false
  pub fs_closed_once : w.fs_closed ≡ 1
  pub refuses : (c : ℕ) → (conn_step (arrives c) w).open_conns ≡ w.open_conns

ended : (w : Live) → IsAccounted w → w.server.done ≡ true → rounds_left w ≡ 0 → HasEnded w
ended w ok d left =
    let over : w.pending ≡ none = ground arith in
    record {
      all_closed = λ c. ground (arith, ok.known c);
      fs_closed_once = ground (arith, ok.counted);
      refuses = λ c. unfold conn_step arrive track in ground arith;
    }

-- Whatever connections come, are closed and leave before and while `Close` runs, and however often it is called: once
-- its loop has gone the rounds that it has to go, every connection that ever came is closed, the backend was
-- closed exactly once, and a connection that comes later is closed at once.
pub conn_run-HasEnded :
    (before after : List ConnOp)
    → rounds_left (conn_step shuts (conn_run before unconnected)) ≤ rounds after
    → HasEnded (conn_run after (conn_step shuts (conn_run before unconnected)))
conn_run-HasEnded before after h =
    let w = conn_step shuts (conn_run before unconnected) in
    let shut_ok =
      conn_step-IsAccounted shuts _
        (conn_run-IsAccounted before unconnected unconnected-IsAccounted) in
    let (d, left) =
      conn_run-rounds after w (unfold conn_step in shut-done (conn_run before unconnected)) h in
    ended _ (conn_run-IsAccounted after w shut_ok) d left
