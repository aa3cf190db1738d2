-- ===== src/Share/Client/Trees.antt =====
-- client.go: trees that are sent and fetched.
use tailcat_gui.Prelude.{
  true, List, [], ◌∷◌, ◌++◌, ◌≡◌, ◌↔◌, refl, ap, arith, Option, none, some, Text, text_eq, ℤ, inl,
  inr, Option-cases, All, if◌then◌else◌,
}
use tailcat_gui.Tokens.{good}
use tailcat_gui.Tokens.Accepted.{Outcome-cases}
use tailcat_gui.Share.Counting.{Progress}
use tailcat_gui.Share.Names.{base, dot}
use tailcat_gui.Share.Client.{Copy, copy_error, first_error, upload_file, download_file}
use tailcat_gui.Share.Client.Walks.{
  Visit, Act, FileType, directory, regular, special, walk, visit, transfer_entry, upload_visit,
  download_visit, error_of, upload, download_one, Remote,
}

-- What the visits do, one after another.
abbrev pub acts_of : {V : Type 0} → (V → Option Text × List Act) → List V → List Act
acts_of f [] = []
acts_of f (v ∷ vs) = (f v).1 ++ acts_of f vs

walk-none :
    {V : Type 0} (f : V → Option Text × List Act) (vs : List V)
    → ((walk f vs).0 ≡ none) ↔ All (λ v. (f v).0 ≡ none) vs
unfolding walk
walk-none f [] = (λ _. tt, λ _. refl)
walk-none f (v ∷ vs) = elim (Option-cases (f v).0) [
  | inl h ↦
      let (there, back) = walk-none f vs in rw (h, walk) (λ e. (refl, there e), λ (_, a). back a)
  | inr (x, h) ↦
      rw (h, walk) (λ e. absurd (ground (arith, e)), λ (e, _). absurd (ground (arith, e)))
]

-- A file that is copied without an error.
abbrev pub Copied : Copy → Type 0
Copied c =
    ((u : _) × (c.source ≡ good u))
    × ((u : _) × (c.target ≡ good u))
    × (c.copied ≡ none)
    × (c.closed ≡ none)
    × (c.ctx_err ≡ none)

-- The same of a file that is fetched, into a directory that can be made.
abbrev pub Fetched : Copy → Type 0
Fetched c = ((u : _) × (c.parent ≡ good u)) × Copied c

abbrev pub EntryArrived : (Copy → Type 0) → Visit → FileType → Type 0
EntryArrived Whole v directory = error_of v.made ≡ none
EntryArrived Whole v special = Unit
EntryArrived Whole v regular = (size : ℤ) × (v.size ≡ good size) × Whole v.copy

-- A visit without an error: of a directory that is made, a regular file that is copied whole, or
-- another file, which is left out.
abbrev pub Arrived : (Copy → Type 0) → Visit → Type 0
Arrived Whole v =
    (v.error ≡ none)
    × (v.ctx_err ≡ none)
    × ((r : Text) × (v.rel ≡ good r))
    × EntryArrived Whole v v.type

copy_error-none :
    (c : Copy)
    → (copy_error c ≡ none) ↔ ((c.copied ≡ none) × (c.closed ≡ none) × (c.ctx_err ≡ none))
copy_error-none c = (λ h. ground (arith, h), λ h. ground (arith, h))

upload_file-Copied :
    (c : Copy) (named : Text) (size : ℤ) → ((upload_file c named size).0 ≡ none) ↔ Copied c
unfolding upload_file
upload_file-Copied c named size = elim (Outcome-cases c.source) [
  | inr (x, h) ↦
      rw (h, upload_file) (λ e. absurd (ground (arith, e)), λ e. absurd (ground (arith, e)))
  | inl (u, h) ↦ elim (Outcome-cases c.target) [
    | inr (x, k) ↦
        rw (h, k, upload_file) (λ e. absurd (ground (arith, e)), λ e. absurd (ground (arith, e)))
    | inl (t, k) ↦
        let (there, back) = copy_error-none c in
        rw (h, k, upload_file)
          (
            λ e. let (x, y, z) = there e in ((u, refl), (t, refl), x, y, z),
            λ (_, _, x, y, z). back (x, y, z),
          )
  ]
]

download_file-Fetched :
    (c : Copy) (named : Text) (size : ℤ) → ((download_file c named size).0 ≡ none) ↔ Fetched c
unfolding download_file
download_file-Fetched c named size = elim (Outcome-cases c.source) [
  | inr (x, h) ↦
      rw (h, download_file) (λ e. absurd (ground (arith, e)), λ e. absurd (ground (arith, e)))
  | inl (u, h) ↦ elim (Outcome-cases c.parent) [
    | inr (x, l) ↦
        rw (h, l, download_file) (λ e. absurd (ground (arith, e)), λ e. absurd (ground (arith, e)))
    | inl (p, l) ↦ elim (Outcome-cases c.target) [
      | inr (x, k) ↦
          rw (h, l, k, download_file)
            (λ e. absurd (ground (arith, e)), λ e. absurd (ground (arith, e)))
      | inl (t, k) ↦
          let (there, back) = copy_error-none c in
          rw (h, l, k, download_file)
            (
              λ e. let (x, y, z) = there e in ((p, refl), ((u, refl), (t, refl), x, y, z)),
              λ (_, (_, _, x, y, z)). back (x, y, z),
            )
    ]
  ]
]

module _ (transfer : Copy → Text → ℤ → Option Text × List Progress) (Whole : Copy → Type 0)
    (whole : (c : Copy) (named : Text) (size : ℤ)
      → ((transfer c named size).0 ≡ none) ↔ Whole c) where
  entry-none :
      (v : Visit) (named to : Text) (type : FileType)
      → ((transfer_entry transfer v named to type).0 ≡ none) ↔ EntryArrived Whole v type
  unfolding transfer_entry
  entry-none v named to directory = (λ e. e, λ e. e)
  entry-none v named to special = (λ _. tt, λ _. refl)
  entry-none v named to regular = elim (Outcome-cases v.size) [
    | inr (x, h) ↦
        rw (h, transfer_entry)
          (λ e. absurd (ground (arith, e)), λ (_, e, _). absurd (ground (arith, e)))
    | inl (size, h) ↦
        let (there, back) = whole v.copy named size in
        rw (h, transfer_entry) (λ e. (size, refl, there e), λ (_, _, e). back e)
  ]

  visit-none :
      (failed : Option Text) (named place : Text → Text) (v : Visit)
      → ((visit transfer failed named place v).0 ≡ none)
        ↔ ((failed ≡ none) × ((r : Text) × (v.rel ≡ good r)) × EntryArrived Whole v v.type)
  unfolding visit
  visit-none (some x) named place v =
      (λ e. absurd (ground (arith, e)), λ (e, _, _). absurd (ground (arith, e)))
  visit-none none named place v = elim (Outcome-cases v.rel) [
    | inr (x, h) ↦
        rw (h, visit)
          (λ e. absurd (ground (arith, e)), λ (_, (_, e), _). absurd (ground (arith, e)))
    | inl (r, h) ↦
        let (there, back) = entry-none v (named r) (place r) v.type in
        rw (h, visit) (λ e. (refl, (r, refl), there e), λ (_, _, e). back e)
  ]

first_error-none : (a b : Option Text) → first_error a b ≡ none → (a ≡ none) × (b ≡ none)
first_error-none none b h = (refl, h)
first_error-none (some x) b h = absurd (ground (arith, h))

upload_visit-Arrived :
    (dir top : Text) (v : Visit) → ((upload_visit dir top v).0 ≡ none) ↔ Arrived Copied v
unfolding upload_visit
upload_visit-Arrived dir top v =
    let (there, back) =
      visit-none upload_file Copied upload_file-Copied (first_error v.error v.ctx_err) _ _ v in
    (
      λ e.
          let (o, r, k) = there e in
          let (x, y) = first_error-none v.error v.ctx_err o in (x, y, r, k),
      λ (x, y, r, k). back (rw (x, y) refl, r, k),
    )

download_visit-Arrived :
    (dir : Text) (v : Visit) → ((download_visit dir v).0 ≡ none) ↔ Arrived Fetched v
unfolding download_visit
download_visit-Arrived dir v =
    let (there, back) =
      visit-none download_file Fetched download_file-Fetched (first_error v.ctx_err v.error) _ _
        v in
    (
      λ e.
          let (o, r, k) = there e in
          let (y, x) = first_error-none v.ctx_err v.error o in (x, y, r, k),
      λ (x, y, r, k). back (rw (x, y) refl, r, k),
    )

walk-acts :
    {V : Type 0} (f : V → Option Text × List Act) (vs : List V)
    → All (λ v. (f v).0 ≡ none) vs
    → (walk f vs).1 ≡ acts_of f vs
unfolding walk
walk-acts f [] h = refl
walk-acts f (v ∷ vs) (h, hs) = rw (h, walk) (ap (λ acts. (f v).1 ++ acts) (walk-acts f vs hs))

All-map :
    {V : Type 0} {P Q : V → Type 0} (f : (v : V) → P v → Q v) (vs : List V) → All P vs → All Q vs
All-map f [] h = tt
All-map f (v ∷ vs) (h, hs) = (f v h, All-map f vs hs)

walk-All :
    {V : Type 0} (f : V → Option Text × List Act) (P : V → Type 0) (vs : List V)
    → ((v : V) → ((f v).0 ≡ none) ↔ P v)
    → (((walk f vs).0 ≡ none) ↔ All P vs) × (All P vs → (walk f vs).1 ≡ acts_of f vs)
walk-All f P vs k =
    let (there, back) = walk-none f vs in
    (
      (λ e. All-map (λ v. (k v).0) vs (there e), λ h. back (All-map (λ v. (k v).1) vs h)),
      λ h. walk-acts f vs (All-map (λ v. (k v).1) vs h),
    )

-- A directory is uploaded without an error exactly if nothing goes wrong on any visit of the walk:
-- no error of the walk, no cancellation, each directory is made on the server and each regular
-- file is copied whole. Then what is done is what the visits do, in their order.
pub upload-Arrived :
    (size : ℤ) (file : Copy) (visits : List Visit) (local remote_dir : Text)
    → let r = upload (good (true, size)) file visits local remote_dir in
      let f = upload_visit (if text_eq remote_dir [] then dot else remote_dir) (base local) in
      ((r.0 ≡ none) ↔ All (Arrived Copied) visits)
      × (All (Arrived Copied) visits → r.1 ≡ acts_of f visits)
unfolding upload
upload-Arrived size file visits local remote_dir =
    let dir = if text_eq remote_dir [] then dot else remote_dir in
    walk-All (upload_visit dir (base local)) (Arrived Copied) visits
      (upload_visit-Arrived dir (base local))

-- A directory of the server is downloaded without an error exactly if nothing goes wrong on any
-- visit of the walk, where a local directory must be made for each file too. Then what is done is
-- what the visits do, in their order.
pub download_one-Arrived :
    (server : Remote) (remote local_dir : Text) (size : ℤ)
    → server.stat remote ≡ good (true, size)
    → let r = download_one server remote local_dir in
      let visits = server.tree remote in
      ((r.0 ≡ none) ↔ All (Arrived Fetched) visits)
      × (All (Arrived Fetched) visits → r.1 ≡ acts_of (download_visit local_dir) visits)
unfolding download_one
download_one-Arrived server remote local_dir size h =
    rw (h, download_one)
      (walk-All (download_visit local_dir) (Arrived Fetched) (server.tree remote)
        (download_visit-Arrived local_dir))
