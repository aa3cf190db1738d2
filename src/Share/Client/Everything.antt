-- ===== src/Share/Client/Everything.antt =====
-- client.go: `Download` of everything that a server offers.
use tailcat_gui.Prelude.{
  ℕ, zero, suc, true, false, List, [], ◌∷◌, ◌++◌, ◌≡◌, refl, ap, sym, ◌∙◌, Option, none, some, Text,
  All, Bool-cases, Option-cases, inl, inr,
}
use tailcat_gui.Tokens.{good, bad}
use tailcat_gui.Tokens.Accepted.{Outcome-cases}
use tailcat_gui.Share.Names.{clean, dot}
use tailcat_gui.Share.Client.{Entry, list}
use tailcat_gui.Share.Client.Walks.{Remote, Act, walk, is_everything, download_one, each, download}

-- What `Download` does, without a call of itself: everything is each entry of the root in turn.
unfoldable pub fetch : Remote → Text → Text → Option Text × List Act
fetch server remote local_dir = elim (is_everything (clean remote)) [
  | false ↦ download_one server (clean remote) local_dir
  | true ↦ elim (list server.read_dir dot) [
    | bad e ↦ (some e, [])
    | good es ↦ walk (λ (x : Entry). download_one server (clean x.name) local_dir) es
  ]
]

-- No entry of the root is called like the root.
abbrev pub HasNames : Remote → Type 0
HasNames server =
    (es : List Entry)
    → list server.read_dir dot ≡ good es
    → All (λ (x : Entry). is_everything (clean x.name) ≡ false) es

walk_on :
    (g : Entry → Option Text × List Act) (x : Entry) (xs : List Entry)
    → (g x).0 ≡ none
    → walk g (x ∷ xs) ≡ ((walk g xs).0, (g x).1 ++ (walk g xs).1)
unfolding walk
walk_on g x xs k = rw (k, walk) refl

walk_stops :
    (g : Entry → Option Text × List Act) (x : Entry) (xs : List Entry) (why : Text)
    → (g x).0 ≡ some why
    → walk g (x ∷ xs) ≡ (some why, (g x).1)
unfolding walk
walk_stops g x xs why k = rw (k, walk) refl

each-walk :
    (f : Text → Option (Option Text × List Act)) (g : Entry → Option Text × List Act)
    (es : List Entry)
    → All (λ (x : Entry). f x.name ≡ some (g x)) es
    → each f es ≡ some (walk g es)
unfolding each walk
each-walk f g [] h = refl
each-walk f g (x ∷ xs) (h, hs) = elim (Option-cases (g x).0) [
  | inl k ↦ rw (h, each) (rw (k, each-walk f g xs hs) refl) ∙ ap some (sym (walk_on g x xs k))
  | inr (why, k) ↦ rw (h, each) (rw k refl) ∙ ap some (sym (walk_stops g x xs why k))
]

download_named :
    (n : ℕ) (server : Remote) (name local_dir : Text)
    → is_everything (clean name) ≡ false
    → download (suc n) server name local_dir ≡ some (download_one server (clean name) local_dir)
unfolding download
download_named n server name local_dir h = rw (h, download) refl

names :
    (n : ℕ) (server : Remote) (local_dir : Text) (es : List Entry)
    → All (λ (x : Entry). is_everything (clean x.name) ≡ false) es
    → All
        (λ (x : Entry).
          download (suc n) server x.name local_dir
          ≡ some (download_one server (clean x.name) local_dir))
        es
names n server local_dir [] h = tt
names n server local_dir (x ∷ xs) (h, hs) =
    (download_named n server x.name local_dir h, names n server local_dir xs hs)

-- If no entry of the server's root is called like the root itself, `Download` returns: two calls
-- deep are enough, and it does what it does without a call of itself.
pub download-fetch :
    (n : ℕ) (server : Remote) (remote local_dir : Text)
    → HasNames server
    → download (suc (suc n)) server remote local_dir ≡ some (fetch server remote local_dir)
unfolding download fetch
download-fetch n server remote local_dir k = elim (Bool-cases (is_everything (clean remote))) [
  | inr h ↦ rw (h, download, fetch) refl
  | inl h ↦ elim (Outcome-cases (list server.read_dir dot)) [
    | inr (e, l) ↦ rw (h, l, download, fetch) refl
    | inl (es, l) ↦
        rw (h, l, download, fetch)
          (each-walk (λ name. download (suc n) server name local_dir)
            (λ (x : Entry). download_one server (clean x.name) local_dir) es
            (names n server local_dir es (k es l)))
  ]
]

-- If the first entry of the server's root is called like the root, `Download` of everything does
-- not return: no number of calls is enough.
pub download_endless :
    (n : ℕ) (server : Remote) (x : Entry) (es : List Entry) (remote local_dir : Text)
    → list server.read_dir dot ≡ good (x ∷ es)
    → is_everything (clean x.name) ≡ true
    → is_everything (clean remote) ≡ true
    → download n server remote local_dir ≡ none
unfolding download each
download_endless zero server x es remote local_dir l k h = refl
download_endless (suc n) server x es remote local_dir l k h =
    rw (h, l, download, each) (rw (download_endless n server x es x.name local_dir l k k) refl)
