-- ===== src/Tests/Clients.antt =====
-- Runs of core/engine/fileshare/client.go.
use tailcat_gui.Prelude.{
  true, false, List, [], ◌∷◌, ◌≡◌, subst, ◌↔◌, refl, none, some, Text, text_eq, codes, ℤ,
  Text-discrete, if◌then◌else◌, All,
}
use tailcat_gui.Tokens.{Outcome, good, bad}
use tailcat_gui.Share.Names.{base, dot, clean, clean_loop, elements, join}
use tailcat_gui.Share.Client.{Copy, upload_file, path_join, RemoteInfo, Entry, entry, list}
use tailcat_gui.Share.Client.Walks.{
  Visit, directory, regular, special, upload, upload_visit, Remote, download, is_everything,
}
use tailcat_gui.Share.Client.Trees.{upload-Arrived, Arrived, Copied, acts_of}
use tailcat_gui.Share.Client.Reports.{Told, UploadFailed, UploadOpened, upload_file-Told}
use tailcat_gui.Share.Client.Everything.{HasNames, fetch, download-fetch}

-- A file of two chunks.
abbrev two_chunks : Copy
two_chunks = record {
  source = good tt;
  parent = good tt;
  target = good tt;
  chunks = 32768 ∷ 100 ∷ [];
  copied = none;
  closed = none;
  ctx_err = none;
}

abbrev at : Text → Text → Visit
at path rel = record {
  path = path;
  error = none;
  ctx_err = none;
  rel = good rel;
  type = directory;
  made = good tt;
  size = good (ℤ.pos 32868);
  copy = two_chunks;
}

-- A folder with a file and a socket.
abbrev docs : List Visit
docs =
    at (codes "/home/me/docs") (codes ".")
    ∷ record (at (codes "/home/me/docs/a.txt") (codes "a.txt")) { type = regular }
    ∷ record (at (codes "/home/me/docs/s") (codes "s")) { type = special }
    ∷ []

upload-Arrived_example :
    let r = upload (good (true, ℤ.pos 4096)) two_chunks docs (codes "/home/me/docs") [] in
    let f = upload_visit (if text_eq [] [] then dot else []) (base (codes "/home/me/docs")) in
    ((r.0 ≡ none) ↔ All (Arrived Copied) docs) × (All (Arrived Copied) docs → r.1 ≡ acts_of f docs)
upload-Arrived_example = upload-Arrived (ℤ.pos 4096) two_chunks docs (codes "/home/me/docs") []

upload_file-Told_example :
    Told
      (UploadFailed two_chunks)
      (UploadOpened two_chunks)
      (codes "docs/a.txt")
      (ℤ.pos 32868)
      true
      two_chunks
      (upload_file two_chunks (codes "docs/a.txt") (ℤ.pos 32868))
upload_file-Told_example = upload_file-Told two_chunks (codes "docs/a.txt") (ℤ.pos 32868)

joined : path_join (codes "." ∷ codes "docs" ∷ codes "." ∷ []) ≡ codes "docs"
unfolding path_join Text-discrete clean join clean_loop elements
joined = refl

abbrev a_txt : RemoteInfo
a_txt = record {
  name = codes "a.txt";
  size = ℤ.pos 32868;
  is_dir = false;
  mod_ms = ℤ.pos 0;
  mode = codes "-rw-r--r--";
  is_link = false;
}

abbrev server : Remote
server = record {
  read_dir = λ _. good (a_txt ∷ []);
  stat = λ _. good (false, ℤ.pos 32868);
  tree = λ _. [];
  file = λ _. two_chunks;
}

abbrev AllNamed : Outcome (List Entry) → Type 0
AllNamed (good es) = All (λ (x : Entry). is_everything (clean x.name) ≡ false) es
AllNamed (bad _) = Unit

a_txt_named : is_everything (clean (codes "a.txt")) ≡ false
unfolding clean Text-discrete join clean_loop elements
a_txt_named = refl

server-HasNames : HasNames server
unfolding list Text-discrete
server-HasNames es h = subst AllNamed {x = good (entry dot a_txt ∷ [])} h (a_txt_named, tt)

download-fetch_example :
    download 2 server (codes "/") (codes "/tmp") ≡ some (fetch server (codes "/") (codes "/tmp"))
download-fetch_example = download-fetch 0 server (codes "/") (codes "/tmp") server-HasNames
