-- ===== src/Bridge.antt =====
-- core/bridge/main.go: the one engine behind the C functions. Engines are values on a heap, so
-- that a thread can hold one that is no longer the current one. `decoders` and `w` are the
-- parameters of core/engine/commands.go.
pub mod Retired
use tailcat_gui.Prelude.{
  ℕ, ◌+◌, ◌==◌, Bool, true, false, List, [], ◌∷◌, ◌++◌, Option, none, some, if◌then◌else◌, Text,
  text_eq,
}
use tailcat_gui.Events.{Event}
use tailcat_gui.Tokens.{Outcome, good, bad}
use tailcat_gui.Engine.{Engine, Config, new, poll, close, EngineOp, engine_step}
use tailcat_gui.Commands.{Decoders, World, Request, Response, call}

-- The package's variables `eng`, the engines that were made so far, and the directories that `tc_init` made.
pub record Bridge : Type 0 where
  pub eng : Option ℕ
  pub heap : ℕ → Engine
  pub next : ℕ
  pub made : List Text

abbrev pub put : ℕ → Engine → Bridge → Bridge
put h e b = record b { heap = λ k. if k == h then e else b.heap k }

-- A new engine, which becomes the current one.
unfoldable pub renew : Config → Bridge → Bridge
renew cfg b = record (put b.next (new cfg) b) { eng = some b.next; next = b.next + 1 }

-- `currentEngine`
unfoldable pub current_engine : Bridge → ℕ × Bridge
current_engine b = elim b.eng [
  | some h ↦ (h, b)
  | none ↦ (b.next, renew (record { data_dir = []; derp_map_url = [] }) b)
]

-- The locked part of `tc_init`.
unfoldable pub init_with : Config → Bridge → ℕ × Bridge
init_with cfg b = elim b.eng [
  | some _ ↦ (0, b)
  | none ↦ (
    0,
    renew cfg (record b {
      made = if text_eq cfg.data_dir [] then b.made else b.made ++ (cfg.data_dir ∷ []);
    }),
  )
]

-- `tc_init`; `none` stands for no text or an empty one, and a text is given as `json.Unmarshal` reads it.
unfoldable pub tc_init : Option (Outcome Config) → Bridge → ℕ × Bridge
tc_init none b = init_with (record { data_dir = []; derp_map_url = [] }) b
tc_init (some (bad _)) b = (1, b)
tc_init (some (good cfg)) b = init_with cfg b

-- The locked part of `tc_shutdown`.
unfoldable pub detach : Bridge → Option ℕ × Bridge
detach b = (b.eng, record b { eng = none })

module _ {ConnInfo Entries : Type 0} (d : Decoders) (w : World ConnInfo Entries) where
  -- `Call` on an engine that a thread holds.
  unfoldable pub call_on : ℕ → Outcome Request → Bridge → Response ConnInfo Entries × Bridge
  call_on h r b = let (out, e) = call d w r (b.heap h) in (out, put h e b)

  -- `tc_call`
  unfoldable pub tc_call : Outcome Request → Bridge → Response ConnInfo Entries × Bridge
  tc_call r b = let (h, b') = current_engine b in call_on h r b'

  -- `tc_poll`
  unfoldable pub tc_poll : Bridge → List Event × Bridge
  tc_poll b =
      let (h, b') = current_engine b in
      let (out, e) = poll w.clock w.enumerate (b'.heap h) in (out, put h e b')

  unfoldable pub close_on : ℕ → Bridge → Bridge
  close_on h b = put h (close w.clock w.enumerate (b.heap h)) b

  -- `tc_shutdown`
  unfoldable pub tc_shutdown : Bridge → Bridge
  tc_shutdown b = let (o, b') = detach b in elim o [ none ↦ b' | some h ↦ close_on h b' ]

-- What threads do, in the order of the locks: they take the current engine, and later call, poll
-- or close an engine that they hold. The goroutines of an engine go on as well.
pub data BridgeOp : Type 0 where
  inits : Option (Outcome Config) → BridgeOp
  acquires : BridgeOp
  calls_on : ℕ → Outcome Request → BridgeOp
  works_on : ℕ → EngineOp → BridgeOp
  detaches : BridgeOp
  closes_on : ℕ → BridgeOp

module _ {ConnInfo Entries : Type 0} (d : Decoders) (w : World ConnInfo Entries) where
  unfoldable pub bridge_step : BridgeOp → Bridge → Bridge
  bridge_step (inits config) b = (tc_init config b).1
  bridge_step acquires b = (current_engine b).1
  bridge_step (calls_on h r) b = (call_on d w h r b).1
  bridge_step (works_on h o) b = put h (engine_step w.clock w.enumerate o (b.heap h)) b
  bridge_step detaches b = (detach b).1
  bridge_step (closes_on h) b = close_on d w h b

  unfoldable pub bridge_run : List BridgeOp → Bridge → Bridge
  bridge_run [] b = b
  bridge_run (o ∷ os) b = bridge_run os (bridge_step o b)
