-- ===== src/Share/Paging.antt =====
-- core/engine/fileshare/handlers.go: `listerAt`, from which the SFTP library reads a listing piece by piece.
use tailcat_gui.Prelude.{
  ℕ, zero, suc, ◌+◌, ◌-◌, ◌*◌, ◌≤◌, ◌<◌, Bool, true, List, [], ◌∷◌, ◌++◌, ◌≡◌, inl, inr, refl, ap,
  sym, arith, if◌then◌else◌, ltb, leb, Option, none, some, length, take, drop, Bool-cases,
  length-drop, take-append-drop, drop-drop,
}

module _ {A : Type 0} where
  -- `ListAt` into room for `room` entries: the entries that it copies, and whether it says `io.EOF`.
  unfoldable pub list_at : List A → ℕ → ℕ → List A × Bool
  list_at l room offset =
      if leb (length l) offset
      then ([], true)
      else (let page = take room (drop offset l) in (page, ltb (length page) room))

  -- A reader that asks for the next page until it is told of the end; `none` means that it was not told in so many
  -- calls.
  unfoldable pub read_pages : ℕ → List A → ℕ → ℕ → Option (List A)
  unfolding list_at
  read_pages zero l room offset = none
  read_pages (suc calls) l room offset =
      let (page, eof) = list_at l room offset in
      if eof then some page else (elim (read_pages calls l room (offset + length page)) [
        | none ↦ none
        | some rest ↦ some (page ++ rest)
      ])

  -- A page that is not full is all that is left.
  take_short : (n : ℕ) (xs : List A) → length (take n xs) < n → take n xs ≡ xs
  take_short zero xs h = elim h [ ]
  take_short (suc n) [] h = refl
  take_short (suc n) (x ∷ xs) h = ap (◌∷◌ x) (take_short n xs (omega arith))

  length-take_le :
      (n : ℕ) (xs : List A) → (length (take n xs) ≤ n) × (length (take n xs) ≤ length xs)
  length-take_le zero xs = omega arith
  length-take_le (suc n) [] = omega arith
  length-take_le (suc n) (x ∷ xs) = omega (arith, length-take_le n xs)

  drop_all : (n : ℕ) (xs : List A) → length xs ≤ n → drop n xs ≡ []
  drop_all zero [] h = refl
  drop_all zero (x ∷ xs) h = absurd (omega arith)
  drop_all (suc n) [] h = refl
  drop_all (suc n) (x ∷ xs) h = drop_all n xs (omega arith)

  read_pages_from :
      (calls : ℕ) (l : List A) (room offset : ℕ)
      → length l - offset < calls * room
      → read_pages calls l room offset ≡ some (drop offset l)
  unfolding read_pages
  read_pages_from zero l room offset h = absurd (omega arith)
  read_pages_from (suc calls) l room offset h = elim (Bool-cases (leb (length l) offset)) [
    | inl past ↦ rw past (ap some (sym (drop_all offset l (ground arith))))
    | inr inside ↦
        let d = drop offset l in
        let page = take room d in
        elim (Bool-cases (ltb (length page) room)) [
          | inl short ↦ rw (inside, short) (ap some (take_short room d (ground arith)))
          | inr full ↦
              let whole : length page ≡ room = ground (arith, length-take_le room d) in
              let ih =
                read_pages_from calls l room (offset + room)
                  (omega (arith, whole, (length-take_le room d).1, length-drop offset l)) in
              rw (inside, full, whole, ih, ← drop-drop room offset l, list_at, inside)
                (ap some (take-append-drop room d))
        ]
  ]

  -- A reader that follows `ListAt` until it is told of the end, with room for one entry at least, gets the whole
  -- listing, each entry once and in order, and is told of the end within the calls that the listing's size over the
  -- room for a page makes necessary.
  pub read_pages-whole :
      (calls : ℕ) (l : List A) (room : ℕ)
      → length l < calls * room
      → read_pages calls l room 0 ≡ some l
  read_pages-whole calls l room h = read_pages_from calls l room 0 (omega arith)
