-- ===== src/Share/Client/Reports.antt =====
-- client.go: the progress of one file.
use tailcat_gui.Prelude.{
  ℕ, ◌+◌, ◌<◌, Bool, true, false, List, [], ◌∷◌, ◌++◌, ◌≡◌, refl, ◌∙◌, arith, Option, some, Text, ℤ,
  ltb, ◌⊎◌, inl, inr, Bool-cases,
}
use tailcat_gui.Tokens.{good, bad}
use tailcat_gui.Tokens.Accepted.{Outcome-cases}
use tailcat_gui.Share.Counting.{Progress}
use tailcat_gui.Share.Client.{
  Copy, copy_error, transfer_chunk, transfer_chunks, finish_reader, finish_writer, upload_file,
  download_file, begun, is_none,
}

abbrev pub sum : List ℕ → ℕ
sum [] = 0
sum (n ∷ ns) = n + sum ns

-- Reports of one file that is under way: the bytes grow with each.
abbrev pub Growing : Text → ℤ → Bool → ℕ → List Progress → Type 0
Growing path size upload n [] = Unit
Growing path size upload n (p ∷ ps) =
    (n < p.bytes)
    × (p.path ≡ path)
    × (p.total ≡ size)
    × (p.upload ≡ upload)
    × (p.done ≡ false)
    × Growing path size upload p.bytes ps

-- What is reported of a file: nothing, and the error of what could not be opened; or, if all
-- could, growing reports and then one that is the last and counts all bytes. `Failed x` says what
-- failed with `x`, `Opened` that nothing did.
abbrev pub Told :
    (Text → Type 0) → Type 0 → Text → ℤ → Bool → Copy → Option Text × List Progress → Type 0
Told Failed Opened path size upload c (e, rs) =
    ((x : Text) × Failed x × (e ≡ some x) × (rs ≡ []))
    ⊎ (Opened
        × ((under_way : List Progress) × (last : Progress) × (rs ≡ under_way ++ (last ∷ []))
            × Growing path size upload 0 under_way
            × (last.done ≡ true)
            × (last.path ≡ path)
            × (last.bytes ≡ sum c.chunks)
            × (e ≡ copy_error c)))

-- The local file of an upload is opened, then the remote one.
abbrev pub UploadFailed : Copy → Text → Type 0
UploadFailed c x = (c.source ≡ bad x) ⊎ ((c.source ≡ good tt) × (c.target ≡ bad x))

abbrev pub UploadOpened : Copy → Type 0
UploadOpened c = (c.source ≡ good tt) × (c.target ≡ good tt)

-- Of a download, the remote file is opened, the local directory made and the local file created.
abbrev pub DownloadFailed : Copy → Text → Type 0
DownloadFailed c x =
    (c.source ≡ bad x)
    ⊎ ((c.source ≡ good tt) × (c.parent ≡ bad x))
    ⊎ ((c.source ≡ good tt) × (c.parent ≡ good tt) × (c.target ≡ bad x))

abbrev pub DownloadOpened : Copy → Type 0
DownloadOpened c = (c.source ≡ good tt) × (c.parent ≡ good tt) × (c.target ≡ good tt)

transfer_chunks-Growing :
    (ns : List ℕ) (p : Progress)
    → p.done ≡ false
    → let (p', rs) = transfer_chunks ns p in
      Growing p.path p.total p.upload p.bytes rs
      × (p'.bytes ≡ p.bytes + sum ns)
      × (p'.path ≡ p.path)
unfolding transfer_chunks transfer_chunk
transfer_chunks-Growing [] p h = (tt, omega arith, refl)
transfer_chunks-Growing (n ∷ ns) p h = elim (Bool-cases (ltb 0 n)) [
  | inl c ↦
      let (g, b, q) = transfer_chunks-Growing ns (record p { bytes = p.bytes + n }) h in
      rw (c, transfer_chunks, transfer_chunk)
        ((ground (arith, c), refl, refl, refl, h, g), omega (arith, b), q)
  | inr c ↦
      let (g, b, q) = transfer_chunks-Growing ns p h in
      rw (c, transfer_chunks, transfer_chunk) (g, ground (arith, b, c), q)
]

-- `uploadFile` reports nothing, and returns the error, if the local or the remote file cannot be
-- opened. Else, and only else, the bytes grow from report to report, each of them before the end
-- of the transfer, and one last report, the only one that is done, counts every byte, whether the
-- transfer succeeds or not; what is returned is the first error of the copy, of `Close` or of the
-- context.
pub upload_file-Told :
    (c : Copy) (remote : Text) (size : ℤ)
    → Told (UploadFailed c) (UploadOpened c) remote size true c (upload_file c remote size)
unfolding upload_file finish_reader
upload_file-Told c remote size = elim (Outcome-cases c.source) [
  | inr (x, h) ↦ inl (x, inl h, rw (h, upload_file) refl, rw (h, upload_file) refl)
  | inl (_, h) ↦ elim (Outcome-cases c.target) [
    | inr (x, k) ↦ inl (x, inr (h, k), rw (h, k, upload_file) refl, rw (h, k, upload_file) refl)
    | inl (_, k) ↦
        let r = transfer_chunks c.chunks (begun remote size true) in
        let (g, b, q) = transfer_chunks-Growing c.chunks (begun remote size true) refl in
        inr (
          (h, k),
          (
            r.1,
            finish_reader (is_none (copy_error c)) r.0,
            rw (h, k, upload_file) refl,
            g,
            refl,
            q,
            b ∙ omega arith,
            rw (h, k, upload_file) refl,
          ),
        )
  ]
]

-- `downloadFile` reports as `uploadFile` does; it also fails, with no report, if the local directory cannot be made.
pub download_file-Told :
    (c : Copy) (remote : Text) (size : ℤ)
    → Told (DownloadFailed c) (DownloadOpened c) remote size false c (download_file c remote size)
unfolding download_file finish_writer
download_file-Told c remote size = elim (Outcome-cases c.source) [
  | inr (x, h) ↦ inl (x, inl h, rw (h, download_file) refl, rw (h, download_file) refl)
  | inl (_, h) ↦ elim (Outcome-cases c.parent) [
    | inr (x, l) ↦
        inl (x, inr (inl (h, l)), rw (h, l, download_file) refl, rw (h, l, download_file) refl)
    | inl (_, l) ↦ elim (Outcome-cases c.target) [
      | inr (x, k) ↦ inl (
        x,
        inr (inr (h, l, k)),
        rw (h, l, k, download_file) refl,
        rw (h, l, k, download_file) refl,
      )
      | inl (_, k) ↦
          let r = transfer_chunks c.chunks (begun remote size false) in
          let (g, b, q) = transfer_chunks-Growing c.chunks (begun remote size false) refl in
          inr (
            (h, l, k),
            (
              r.1,
              finish_writer r.0,
              rw (h, l, k, download_file) refl,
              g,
              refl,
              q,
              b ∙ omega arith,
              rw (h, l, k, download_file) refl,
            ),
          )
    ]
  ]
]
