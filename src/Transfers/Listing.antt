-- ===== src/Transfers/Listing.antt =====
-- files.go: `openShare` and `listRemote`, and what the three commands on files do to an engine.
-- `Entries` is what the client lists.
use tailcat_gui.Prelude.{ℕ, List, [], ◌∷◌, ◌++◌, ◌≡◌, ◌⊎◌, Text, codes, none, some}
use tailcat_gui.Errors.{Error, Result, ok, err, coded, internal, code_of}
use tailcat_gui.Events.{text}
use tailcat_gui.Session.{SessionOp, sets_state, shuts_down, failed, done, recv, Scope}
use tailcat_gui.Session.Endings.{EndsAs}
use tailcat_gui.Tokens.{Outcome, good, bad, normalize_token}
use tailcat_gui.Connect.{Handshake, connected, handshake_error, log_all}
use tailcat_gui.Share.Client.{Resource, tailcat_client, connection, new_client}
use tailcat_gui.Engine.{Engine, open_session}
use tailcat_gui.Engine.Starting.{calls_all}

-- What a server answers to `openShare` and then to `List`: the handshake with its messages, the
-- dial to port 22, the handshake of SSH, the opening of SFTP, and the listing.
pub record ShareAnswers (Entries : Type 0) : Type 0 where
  pub handshake : Handshake
  pub messages : List Text
  pub dial : Outcome (Unit {0})
  pub ssh : Outcome (Unit {0})
  pub sftp : Outcome (Unit {0})
  pub list : Text → Outcome Entries

-- What `openShare` makes of an answer of `NewClient`.
abbrev pub client_opened : Outcome (Unit {0}) × List Resource → Outcome (Unit {0}) × List Resource
client_opened (bad e, closed) =
    (bad (codes "open file service: " ++ e), closed ++ connection ∷ tailcat_client ∷ [])
client_opened (good _, closed) = (good tt, closed)

-- `openShare`: what it returns, and what is closed on the way.
unfoldable pub dial_share :
    {Entries : Type 0} → ShareAnswers Entries → Outcome (Unit {0}) × List Resource
unfolding new_client
dial_share s = elim (handshake_error s.handshake) [
  | some e ↦ (bad e, tailcat_client ∷ [])
  | none ↦ elim s.dial [
    | bad e ↦ (bad (codes "connect to file service: " ++ e), tailcat_client ∷ [])
    | good _ ↦ client_opened (new_client s.ssh s.sftp)
  ]
]

-- What `openShare` returns, and what it does to the session.
unfoldable pub open_share :
    {Entries : Type 0} → ShareAnswers Entries → Outcome (Unit {0}) × List SessionOp
unfolding dial_share
open_share s = ((dial_share s).0, log_all s.messages)

-- `listRemote` behind `openShare`: what it returns and what it does to the session. The last call
-- is the deferred one.
unfoldable pub listed :
    {Entries : Type 0}
    → Text
    → Outcome (Unit {0})
    → Outcome Entries
    → Result Entries × List SessionOp
listed dir (bad e) l =
    (err (coded internal (codes "%v") (text e ∷ [])), sets_state failed e ∷ shuts_down ∷ [])
listed dir (good _) (bad e) = (
  err (coded internal (codes "list %q: %v") (text dir ∷ text e ∷ [])),
  sets_state failed e ∷ shuts_down ∷ [],
)
listed dir (good _) (good entries) = (ok entries, sets_state done [] ∷ shuts_down ∷ [])

-- `listRemote` behind `newSession`.
unfoldable pub listing_ops :
    {Entries : Type 0} → ShareAnswers Entries → Text → Result Entries × List SessionOp
listing_ops s dir =
    let (opened, os) = open_share s in
    let (r, os') = listed dir opened (s.list dir) in (r, os ++ os')

module _ {ConnInfo Entries : Type 0} (lookup_txt : Text → Outcome (List Text))
    (parse_conn_blob : Text → Outcome ConnInfo) (clock : ℕ → ℕ)
    (server_of : Text → ShareAnswers Entries) where
  -- `listRemote`; `server_of` gives the answers of a token's server.
  unfoldable pub list_remote : Text → Text → Engine → Result Entries × Engine
  list_remote token dir e = elim (normalize_token lookup_txt parse_conn_blob token) [
    | err x ↦ (err x, e)
    | ok cb ↦ elim (open_session clock recv e) [
      | err x ↦ (err x, e)
      | ok (id, e') ↦ let (r, os) = listing_ops (server_of cb) dir in (r, calls_all clock id os e')
    ]
  ]

-- One of the answers is an error.
abbrev pub Fails : {Entries : Type 0} → ShareAnswers Entries → Text → Type 0
Fails s dir =
    ((e : Text) × (handshake_error s.handshake ≡ some e))
    ⊎ ((e : Text) × (s.dial ≡ bad e))
    ⊎ ((e : Text) × (s.ssh ≡ bad e))
    ⊎ ((e : Text) × (s.sftp ≡ bad e))
    ⊎ ((e : Text) × (s.list dir ≡ bad e))

-- What a share makes of a listing, by each of its answers: the entries if all of them are good, else an error.
abbrev pub Lists : {Entries : Type 0} → ShareAnswers Entries → Text → Result Entries → Type 0
Lists {Entries} s dir r =
    ((entries : Entries) × (s.handshake ≡ connected)
      × (s.dial ≡ good tt)
      × (s.ssh ≡ good tt)
      × (s.sftp ≡ good tt)
      × (s.list dir ≡ good entries)
      × (r ≡ ok entries))
    ⊎ ((x : Error) × (r ≡ err x) × (code_of x ≡ internal) × Fails s dir)

-- How a listing leaves its session: done, or failed.
abbrev pub Ends : {Entries : Type 0} → Result Entries → Scope → Type 0
Ends (ok _) t = EndsAs done [] t
Ends (err _) t = (why : Text) × EndsAs failed why t
