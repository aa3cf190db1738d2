-- ===== src/Share/Server.antt =====
-- core/engine/fileshare/server.go: the sessions of the SSH server of a share.
pub mod Subsystem
pub mod Opened
use tailcat_gui.Prelude.{
  ℕ, ◌+◌, ◌-◌, ◌*◌, ◌%◌, ◌^◌, Bool, true, false, not, ◌||◌, List, [], ◌∷◌, ◌++◌, length, take, drop,
  if◌then◌else◌, ltb, leb, ◌==◌, Option, none, some, Text, codes, text_eq, ℤ, ltb_ℤ,
}

-- `binary.BigEndian.Uint32`
unfoldable pub be32 : ℕ → ℕ → ℕ → ℕ → ℕ
be32 a b c d = a * 16777216 + b * 65536 + c * 256 + d

-- Go's `int` has 64 bits, or 32 on the 32-bit Android build.
pub data IntSize : Type 0 where
  int64 int32 : IntSize

-- `int(n)` of a `uint32`.
unfoldable pub int_of_uint32 : IntSize → ℕ → ℤ
int_of_uint32 int64 n = ℤ.pos n
int_of_uint32 int32 n = if ltb n 2147483648 then ℤ.pos n else ℤ.negsuc (4294967295 - n)

-- `string(payload[4 : 4+n])`. The bound is a `uint32`; a bound out of range is a panic. The slice's capacity is
-- taken to be its length.
unfoldable pub slice_name : ℕ → Text → Option Text
slice_name n payload =
    let bound = (4 + n) % 4294967296 in
    if ltb bound 4 || ltb (length payload) bound
    then none
    else some (take (bound - 4) (drop 4 payload))

-- `subsystemName`; `none` is a panic.
unfoldable pub subsystem_name : IntSize → Text → Option Text
subsystem_name size (a ∷ b ∷ c ∷ d ∷ rest) =
    let n = be32 a b c d in
    if ltb_ℤ (ℤ.pos (length rest)) (int_of_uint32 size n)
    then some []
    else slice_name n (a ∷ b ∷ c ∷ d ∷ rest)
subsystem_name size _ = some []

-- A request on a session's channel.
pub record ChannelRequest : Type 0 where
  pub kind : Text
  pub payload : Text

-- How the loop of `serveSession` ends: by serving SFTP, with the channel, or in a panic.
pub data Ending : Type 0 where
  served channel_closed panicked : Ending

abbrev pub with_reply : Bool → List Bool × Ending → List Bool × Ending
with_reply reply (replies, end) = (reply ∷ replies, end)

-- `serveSession`: the replies, in order, and the end.
unfoldable pub serve_session : IntSize → List ChannelRequest → List Bool × Ending
serve_session size [] = ([], channel_closed)
serve_session size (r ∷ rs) =
    let rest = serve_session size rs in
    if text_eq r.kind (codes "subsystem")
    then (elim (subsystem_name size r.payload) [
      | none ↦ ([], panicked)
      | some name ↦
          if text_eq name (codes "sftp") then (true ∷ [], served) else with_reply false rest
    ])
    else with_reply
        (text_eq r.kind (codes "env")
          || text_eq r.kind (codes "pty-req")
          || text_eq r.kind (codes "window-change"))
        rest

-- The connections of a server, named by numbers.
pub record Server : Type 0 where
  pub conns : List ℕ
  pub done : Bool

abbrev pub remove_conn : ℕ → List ℕ → List ℕ
remove_conn c [] = []
remove_conn c (x ∷ xs) = if x == c then remove_conn c xs else x ∷ remove_conn c xs

-- `track`, on a set of connections.
unfoldable pub track : ℕ → Server → Bool × Server
track c s = if s.done then (false, s) else (true, record s { conns = c ∷ remove_conn c s.conns })

-- `untrack`
unfoldable pub untrack : ℕ → Server → Server
untrack c s = record s { conns = remove_conn c s.conns }

-- `Close`: the connections that it closes, and whether it closes the backend.
unfoldable pub close_server : Server → List ℕ × Bool × Server
close_server s = if s.done then ([], false, s) else (s.conns, true, record s { done = true })
