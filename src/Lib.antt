-- ===== src/Lib.antt =====
-- A verification library of the Go core of the Tailcat GUI (core/).
--
-- The core wraps the tailcat library in sessions. core/bridge hands JSON calls of the UI to an
-- `Engine` (core/engine/engine.go), which opens sessions (session.go); goroutines of a session
-- change its state and push events on one queue (events.go), which the UI polls. A server session
-- (server.go) may share files over SFTP (core/engine/fileshare); send and receive sessions
-- (files.go) are clients of such a share.
--
-- Which file models which part:
-- Prelude and its children: shared names, Go strings as lists of bytes (Strings), Go maps as
--   association lists (Dict), the decimal notation (Decimal), and the element at a place of a
--   list (Pick).
-- Events: core/engine/events.go. `push`, `drain` and `len` are the methods of `EventQueue`. An
--   event is a map from keys to the flat values that the engine puts into events; a `float64` is
--   an integer in millionths. Events.Bounds and Events.Delivery prove what the queue promises.
-- Errors: the errors of core/engine/commands.go. A message is kept as the format and the
--   arguments of `fmt.Errorf`, which is not modelled.
-- Session: core/engine/session.go. A method is a function on `Scope`: the session, the event
--   queue, the count of clock readings and the log of closed resources. Each method is one step,
--   though the source releases the session's mutex before it pushes an event or closes the
--   resources; `session_run` is any sequence of such steps. Session.Split takes the methods apart
--   at those places: `split_run` is any sequence of the stretches that goroutines run between
--   them, and `stretches` says which of them make up a method.
-- Engine: core/engine/engine.go. The engine's fields and its sessions are one record;
--   `engine_run` is any sequence of what goroutines and the UI do to it. `enumerate` stands for
--   the unspecified order of `range` over a map. `next_id` is unbounded: fewer than 2^63
--   sessions are opened.
-- Tokens: engine.go's `normalizeToken`, `parseToken` (its result in Tokens.Info), `classifyPing`
--   and `listenAddr`. The resolver and tailcat's parser of tokens are parameters.
-- Serve: core/engine/server.go. `validate` is `startServer` up to its session, `on_tcp` and
--   `served_ports` are the routing that it gives to tailcat, and `info_ops` and `start_ops` are
--   what it and its goroutine do to the session. `os.Stat` is a parameter.
--   Serve.Start is the whole of `startServer` on an engine, for any answer of the share; in
--   Serve.Hosted the share is the server of Share.Server.Opened.
-- Connect: core/engine/connect.go and the goroutines of forward.go. The answers of the network
--   and of the context are functions of the number of the attempt; the loops run over the list of
--   time limits, and over the three rounds of a dial.
-- Forward: core/engine/forward.go and socks.go, the commands that listen and the proxy's rules.
-- Manifest: core/engine/manifest.go, and the manifest that `startServer` publishes.
-- Probe: core/engine/probe.go and `ping`. Probe.Path is path.go: a list of ticks is what its
--   loops see before the session is cancelled.
-- Transfers: core/engine/files.go, `sendFiles`, `download` and their goroutines: `transfer_ops`
--   is all that one calls on its session, the logs of `openShare` and the progress events that
--   `throttle` lets through included (Throttle). Transfers.Listing is `openShare` and
--   `listRemote`, and Transfers.Resources what `openShare` opens and closes.
-- Commands: core/engine/commands.go. `call` is `Call` on a request that is decoded; `World` is
--   all that the commands ask of the platform and the network. Engine.Starting says what it
--   means that a function does no more to an engine than its steps (`Runs`), and each command
--   does no more.
-- Share: core/engine/fileshare. Share.Names has the functions of Go's `strings`, `path` and
--   `path/filepath` (those of Unix) that the package calls; their loops run on a fuel of the
--   length of the text, and each round takes a byte at least.
-- Share.Mode and Share.Server are server.go: `serve_session` reads a channel's requests, and a
--   panic is a result of its own. Share.Server.Opened is `NewServer`, `NewPathsServer` and `Close`
--   with the roots that they open. Share.Conns is `Handler`: its connections and the loop of
--   `Close` are any sequence of steps, one for each stretch that a goroutine runs alone.
-- Share.Request and Share.Handlers are handlers.go over any `Backend`, the interface of
--   backend.go with a state of its own; Share.Paging is `ListAt`, and Share.Counting the progress
--   of an open file: what `advance` does under its mutex is one step, and its report, which comes
--   behind that, another, so that `count_run` is any interleaving of readers and writers.
-- Share.Folder is the backend of a directory, over the methods of `os.Root`. Share.Picked is the
--   backend of picked files, over the interface `Os` (Share.Os) to the file system at one moment;
--   its names come from Share.Unique, whose loop has one round more than there are names taken.
--   Share.Picked.Served puts it behind the handlers: its state says whether a method panicked.
-- Share.Client is client.go. A tree is the list of visits that its walk makes while none of
--   them fails. `download` runs on fuel for the calls that it makes of itself, and two are enough.
-- Bridge: core/bridge/main.go. The engines that were made are a heap, so that a thread can hold one
--   that is no longer the current one; `bridge_run` is any sequence of what threads do.
-- Interfaces: core/engine/netiface_cgo.go, from the entries that libc lists; an address is its
--   bytes.
-- Sshprobe: core/cmd/sshprobe/main.go, the debugging command that serves a temporary directory.
-- Tests: runs at concrete inputs, and each theorem at an input that meets its hypotheses.
--
-- Not modelled: the tailcat, SSH and SFTP libraries, the network connections themselves, the JSON
-- of calls and answers, the strings of C, the calls that hand the interfaces to tailscale
-- (netiface_android.go), the rate of a transfer, a float, and the modes and times of files.
pub mod Prelude
pub mod Events
pub mod Errors
pub mod Session
pub mod Engine
pub mod Share
pub mod Sshprobe
pub mod Tokens
pub mod Serve
pub mod Transfers
pub mod Bridge
pub mod Commands
pub mod Connect
pub mod Forward
pub mod Interfaces
pub mod Manifest
pub mod Probe
mod Tests
