-- ===== src/Tests/Hosts.antt =====
-- Runs of the servers of core/engine/fileshare, from their roots to their connections.
use tailcat_gui.Prelude.{
  ℕ, ◌*◌, ◌⊎◌, Bool, true, false, List, [], ◌∷◌, ◌++◌, ◌≡◌, refl, arith, none, some, Text, codes,
  text_eq, Perm, Text-discrete, All,
}
use mathlib.Core.List.Perm
use tailcat_gui.Prelude.Dict.{Dict, lookup, insert}
use tailcat_gui.Share.Names.{base}
use tailcat_gui.Share.Unique.{unique_name}
use tailcat_gui.Share.Backend.{Try, OsError}
use tailcat_gui.Share.Mode.{Mode, read_only, read_write}
use tailcat_gui.Errors
use tailcat_gui.Errors.{Error}
use tailcat_gui.Tokens.{Outcome, good}
use tailcat_gui.Engine.{Engine, new}
use tailcat_gui.Engine.Ids.{new-IsWellFormed}
use tailcat_gui.Serve.{StartServerArgs}
use tailcat_gui.Serve.Accepted.{IsAccepted}
use tailcat_gui.Serve.Start.{start_server}
use tailcat_gui.Serve.Hosted.{host, share_answer}
use tailcat_gui.Serve.Hosted.Begun.{Hosts, host-Hosts}
use tailcat_gui.Share.Handlers
use tailcat_gui.Share.Handlers.{
  Request, permission_denied, file_read, file_write, file_cmd, file_list,
}
use tailcat_gui.Share.Picked.{
  Os, ShareItem, Paths, built, new_paths_backend, add_paths, add_path, add_named, sort_items,
  text_lt, with_item, with_root,
}
use tailcat_gui.Share.Picked.Closing.{opened_roots}
use tailcat_gui.Share.Picked.Served.{paths_backend, Serves, requests-Serve}
use tailcat_gui.Share.Picked.Sorted.{Ascending}
use tailcat_gui.Share.Picked.Offered.{Requested, paths_of, new_paths_backend-offers}
use tailcat_gui.Share.Server.Opened.{
  Owns, opened_dir, new_dir_server, new_paths_server, new_servers-Own,
}
use tailcat_gui.Share.Conns.{
  arrives, leaves, shuts, closes_next, ConnOp, conn_step, conn_run, arrive, shut, close_next,
  unconnected,
}
use tailcat_gui.Share.Conns.Ended.{HasEnded, conn_run-HasEnded}
use tailcat_gui.Share.Server.{track, untrack, close_server}
use tailcat_gui.Share.Paging.{read_pages, list_at, read_pages-whole}

-- A file system in which every path is there, and `/docs` is the folder.
abbrev machine : Os
machine = record {
  File = Text;
  Info = Text;
  Root = Text;
  DirEntry = Text;
  name = λ i. i;
  size = λ i. 7;
  is_dir = λ i. text_eq i (codes "/docs");
  stat = λ p. Try.ok p;
  open_path = λ p. Try.ok p;
  open_root = λ p. Try.ok p;
  root_open = λ r p. Try.ok (r ++ (b'/' ∷ p));
  root_stat = λ r p. Try.ok p;
  root_read_dir = λ r p. Try.ok [];
  entry_info = λ p. Try.ok p;
  file_stat = λ f. Try.ok f;
}

abbrev picked_paths : List Text
picked_paths = codes "/note" ∷ codes "/docs" ∷ []

abbrev docs_item : ShareItem
docs_item = record { name = codes "docs"; size = 0; is_dir = true; path = codes "/docs" }

abbrev note_item : ShareItem
note_item = record { name = codes "note"; size = 7; is_dir = false; path = codes "/note" }

abbrev share : Paths machine
share = record {
  entries = docs_item ∷ note_item ∷ [];
  by_name = (codes "note", note_item) ∷ (codes "docs", docs_item) ∷ [];
  roots = (codes "docs", codes "/docs") ∷ [];
}

share_built : new_paths_backend machine picked_paths ≡ built share
unfolding new_paths_backend Text-discrete add_paths add_path unique_name lookup add_named sort_items
    with_item with_root insert base text_lt
share_built = refl

abbrev as_stored : Dict Text → List (Text × Text)
as_stored m = m

new_servers-Own_example :
    Owns machine as_stored
      (Try.ok tt)
      (Try.err (OsError.other (codes "signer")))
      (opened_dir machine as_stored
        (Try.ok tt)
        (Try.err (OsError.other (codes "signer")))
        (codes "/docs"))
      read_write
      (new_dir_server machine as_stored
        (Try.ok tt)
        (Try.err (OsError.other (codes "signer")))
        (codes "/docs")
        read_write)
    × Owns machine as_stored
        (Try.ok tt)
        (Try.err (OsError.other (codes "signer")))
        (opened_roots machine picked_paths)
        read_only
        (new_paths_server machine as_stored
          (Try.ok tt)
          (Try.err (OsError.other (codes "signer")))
          picked_paths)
new_servers-Own_example =
    new_servers-Own machine as_stored (Try.ok tt) (Try.err (OsError.other (codes "signer")))
      (λ m. Perm.refl m) (codes "/docs") read_write picked_paths

new_paths_backend-offers_example :
    Ascending share.entries
    × Perm (paths_of machine share.entries) picked_paths
    × All (Requested machine share) share.entries
new_paths_backend-offers_example = new_paths_backend-offers machine picked_paths share share_built

abbrev reading_note : Request
reading_note = record {
  method = codes "Get";
  filepath = codes "/note";
  target = [];
  pflags = record { read = true; creat = false; trunc = false; excl = false; append = false };
  attributes = none;
}

requests-Serve_example :
    Serves machine picked_paths
      (file_read (paths_backend machine share) read_only reading_note false).0
    × ((file_read (paths_backend machine share) read_only reading_note false).1 ≡ false)
    × ((file_list (paths_backend machine share) read_only reading_note false).1 ≡ false)
    × (file_write (paths_backend machine share) read_only reading_note false
        ≡ (Handlers.err permission_denied, false))
    × (Handlers.open_file (paths_backend machine share) read_only reading_note false
        ≡ (Handlers.err permission_denied, false))
    × (file_cmd (paths_backend machine share) read_only reading_note false
        ≡ (Handlers.err permission_denied, false))
requests-Serve_example = requests-Serve machine picked_paths share share_built reading_note

-- Two connections come, one leaves, and the server is closed while a third comes.
abbrev before_close : List ConnOp
before_close = arrives 1 ∷ arrives 2 ∷ leaves 1 ∷ []

abbrev while_closing : List ConnOp
while_closing = arrives 3 ∷ closes_next ∷ leaves 2 ∷ closes_next ∷ []

conn_run-HasEnded_example :
    HasEnded (conn_run while_closing (conn_step shuts (conn_run before_close unconnected)))
unfolding conn_run conn_step arrive shut close_next track untrack close_server
conn_run-HasEnded_example = conn_run-HasEnded before_close while_closing (omega arith)

abbrev listing : List ℕ
listing = 4 ∷ 5 ∷ 6 ∷ []

two_pages : read_pages 2 listing 2 0 ≡ some listing
unfolding read_pages list_at
two_pages = refl

read_pages-whole_example : read_pages 2 listing 2 0 ≡ some listing
read_pages-whole_example = read_pages-whole 2 listing 2 (omega arith)

-- A server of those files, on an engine that was just made.
abbrev sharing : StartServerArgs
sharing = record {
  ports = [];
  all = false;
  exit_node = false;
  files = none;
  ssh = false;
  share_paths = picked_paths;
  name = [];
}

abbrev all_there : Text → Outcome Bool
all_there p = good true

abbrev seconds : ℕ → ℕ
seconds n = 1000 * n

abbrev plain : Error → Text
plain e = codes "error"

abbrev plain_os : OsError → Text
plain_os e = codes "error"

abbrev idle : Engine
idle = new (record { data_dir = []; derp_map_url = [] })

host-Hosts_example :
    let h =
      host machine as_stored
        (Try.ok tt)
        (Try.ok tt)
        plain_os
        all_there
        true
        seconds
        plain
        sharing
        (codes "laptop")
        idle in
    (h.0
      ≡ start_server all_there true seconds plain
          (share_answer machine as_stored (Try.ok tt) (Try.ok tt) plain_os h.1)
          sharing
          (codes "laptop")
          idle)
    × (((x : Error) × (h ≡ ((Errors.err x, idle), none)))
        ⊎ ((mode : Mode) × IsAccepted all_there true sharing mode
            × Hosts machine as_stored
                (Try.ok tt)
                (Try.ok tt)
                plain_os
                all_there
                true
                seconds
                plain
                sharing
                mode
                idle
                h))
host-Hosts_example =
    host-Hosts machine as_stored (Try.ok tt) (Try.ok tt) plain_os all_there true seconds plain
      (λ m. Perm.refl m) sharing (codes "laptop") idle
      (new-IsWellFormed (record { data_dir = []; derp_map_url = [] }))
