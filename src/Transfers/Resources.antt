-- ===== src/Transfers/Resources.antt =====
-- files.go and fileshare/client.go: what `openShare` opens and what is closed again.
use mathlib.Core.List.Perm
use mathlib.Core.List.{reverse_perm}
use tailcat_gui.Prelude.{List, [], ◌∷◌, ◌++◌, ◌≡◌, refl, none, some, Text, Perm}
use tailcat_gui.Tokens.{Outcome, good, bad}
use tailcat_gui.Connect.{Handshake, connected, cancelled, unreachable, handshake_error}
use tailcat_gui.Share.Client.{
  Resource, tailcat_client, connection, ssh_client, sftp_client, close_client,
}
use tailcat_gui.Transfers.Listing.{ShareAnswers, dial_share}

-- What is opened one after the other, until an answer is an error.
abbrev pub opened_behind : Outcome (Unit {0}) → Resource → List Resource → List Resource
opened_behind (bad e) r rs = []
opened_behind (good _) r rs = r ∷ rs

abbrev pub reached : Handshake → List Resource → List Resource
reached h rs = elim (handshake_error h) [ some _ ↦ [] | none ↦ rs ]

abbrev pub opened : {Entries : Type 0} → ShareAnswers Entries → List Resource
opened s =
    tailcat_client
    ∷ reached s.handshake (
        opened_behind s.dial connection
          (opened_behind s.ssh ssh_client (opened_behind s.sftp sftp_client [])))

-- Either all is closed with the error, or nothing, and then the two clients that are returned hold all.
abbrev pub Accounts : Outcome (Unit {0}) × List Resource → List Resource → Type 0
Accounts (bad e, closed) rs = Perm closed rs
Accounts (good _, closed) rs = (closed ≡ []) × Perm (close_client ++ tailcat_client ∷ []) rs

module _ {Entries : Type 0} where
  answers_Accounts :
      (h : Handshake) (messages : List Text) (dial ssh sftp : Outcome (Unit {0}))
      (list : Text → Outcome Entries)
      → let s : ShareAnswers Entries = record {
        handshake = h;
        messages = messages;
        dial = dial;
        ssh = ssh;
        sftp = sftp;
        list = list;
      } in
        Accounts (dial_share s) (opened s)
  unfolding dial_share
  answers_Accounts (cancelled e) ms dial ssh sftp l = Perm.refl _
  answers_Accounts (unreachable e) ms dial ssh sftp l = Perm.refl _
  answers_Accounts connected ms (bad e) ssh sftp l = Perm.refl _
  answers_Accounts connected ms (good _) (bad e) sftp l = Perm.swap _ _ _
  answers_Accounts connected ms (good _) (good _) (bad e) l =
      reverse_perm (tailcat_client ∷ connection ∷ ssh_client ∷ [])
  answers_Accounts connected ms (good _) (good _) (good _) l =
      (refl, reverse_perm (tailcat_client ∷ connection ∷ ssh_client ∷ sftp_client ∷ []))

  -- Whatever the network and the server answer: if `openShare` fails, it has closed the client of tailcat, the
  -- connection and the SSH client as far as they were opened, each once. If it succeeds, it has closed nothing, and
  -- closing the two clients that it returns closes all that it opened, each once.
  pub open_share-Accounts : (s : ShareAnswers Entries) → Accounts (dial_share s) (opened s)
  open_share-Accounts s = answers_Accounts s.handshake s.messages s.dial s.ssh s.sftp s.list
