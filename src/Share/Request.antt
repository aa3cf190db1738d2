-- ===== src/Share/Request.antt =====
-- core/engine/fileshare/handlers.go: the path of a request.
use tailcat_gui.Prelude.{
  ℕ, Bool, true, false, ◌||◌, List, [], ◌∷◌, ◌++◌, reverse, ◌≡◌, ◌≢◌, ◌⊎◌, inl, inr, refl, ◌∙◌,
  arith, if◌then◌else◌, Text, text_eq, ◌==◌, All, Bool-cases, length-append,
}
use mathlib.Core.List.{reverse-cons, reverse-append}
use native.Mathlib.Numerals.{add-one}
use tailcat_gui.Share.Names.{
  trim_prefix, trim_space, trim_right, clean, clean_loop, climb, elements, push_byte, join, dot,
  dot_dot,
}

-- `rel`: the path below the root of the share.
unfoldable pub rel : Text → Text
rel p =
    let s = trim_prefix (b'/' ∷ []) (clean (b'/' ∷ trim_space p)) in if text_eq s [] then dot else s

unfoldable pub has_slash : Text → Bool
has_slash [] = false
has_slash (c ∷ cs) = c == b'/' || has_slash cs

-- A name of a file in a directory, and neither the directory nor its parent.
pub record IsName (e : Text) : Type 0 where
  pub not_empty : e ≢ []
  pub not_dot : e ≢ dot
  pub not_dot_dot : e ≢ dot_dot
  pub no_slash : has_slash e ≡ false

abbrev NoSlash : Text → Type 0
NoSlash e = has_slash e ≡ false

push_byte-NoSlash : (c : ℕ) (es : List Text) → All NoSlash es → All NoSlash (push_byte c es)
unfolding push_byte has_slash
push_byte-NoSlash c [] a = ground arith
push_byte-NoSlash c (e ∷ es) a = ground arith

elements-NoSlash : (s : Text) → All NoSlash (elements s)
unfolding elements
elements-NoSlash [] = (unfold has_slash in refl, tt)
elements-NoSlash (c ∷ cs) = push_byte-NoSlash c (elements cs) (elements-NoSlash cs)

climb-IsName : (stack : List Text) → All IsName stack → All IsName (climb true stack)
unfolding climb
climb-IsName [] a = tt
climb-IsName (top ∷ stack) a = ground (arith, a.0.not_dot_dot)

clean_step : List Text → Text → List Text
clean_step stack e =
    if text_eq e [] || text_eq e dot
    then stack
    else if text_eq e dot_dot
    then climb true stack
    else e ∷ stack

clean_step-IsName :
    (stack : List Text) (e : Text) → All IsName stack → NoSlash e → All IsName (clean_step stack e)
unfolding clean_step
clean_step-IsName stack e a n = elim (Bool-cases (text_eq e [] || text_eq e dot)) [
  | inl h ↦ rw h a
  | inr h ↦ rw h (elim (Bool-cases (text_eq e dot_dot)) [
    | inl u ↦ rw u (climb-IsName stack a)
    | inr u ↦ rw u (
      record {
        not_empty = ground arith;
        not_dot = ground arith;
        not_dot_dot = ground arith;
        no_slash = n;
      },
      a,
    )
  ])
]

clean_loop-IsName :
    (stack es : List Text)
    → All IsName stack
    → All NoSlash es
    → All IsName (clean_loop true stack es)
unfolding clean_loop clean_step
clean_loop-IsName stack [] a b = a
clean_loop-IsName stack (e ∷ es) a b =
    clean_loop-IsName (clean_step stack e) es (clean_step-IsName stack e a b.0) b.1

append-IsName : (xs ys : List Text) → All IsName xs → All IsName ys → All IsName (xs ++ ys)
append-IsName [] ys a b = b
append-IsName (x ∷ xs) ys a b = (a.0, append-IsName xs ys a.1 b)

reverse-IsName : (xs : List Text) → All IsName xs → All IsName (reverse xs)
reverse-IsName [] a = tt
reverse-IsName (x ∷ xs) a =
    rw reverse-cons (append-IsName (reverse xs) (x ∷ []) (reverse-IsName xs a.1) (a.0, tt))

-- The elements that the path of a request keeps.
names : Text → List Text
names p = reverse (clean_loop true [] (elements (b'/' ∷ trim_space p)))

rel-names : (p : Text) → rel p ≡ (if text_eq (join (names p)) [] then dot else join (names p))
unfolding rel clean trim_prefix names
rel-names p = refl

-- Whatever a client asks for, the path below the root is the root itself or a list of names joined by slashes: none
-- of them is empty, `.` or `..`, or holds a slash. So no request climbs out of the share.
pub rel-stays_inside :
    (p : Text) → (rel p ≡ dot) ⊎ ((es : List Text) × All IsName es × (rel p ≡ join es))
rel-stays_inside p = elim (Bool-cases (text_eq (join (names p)) [])) [
  | inl h ↦ inl (rel-names p ∙ rw h)
  | inr h ↦ inr (
    names p,
    unfold names in reverse-IsName _ (clean_loop-IsName [] _ tt (elements-NoSlash _)),
    rel-names p ∙ rw h,
  )
]

trim_right-space : (p : Text) → trim_right (p ++ (b' ' ∷ [])) ≡ trim_right p
unfolding trim_right
trim_right-space p =
    rw (reverse-append p (b' ' ∷ []), length-append p (b' ' ∷ [])) (rw add-one refl)

-- A space at the end of a requested path is dropped, so a request for a file whose name ends in a
-- space is a request for the file whose name lacks it.
pub rel-ignores_trailing_space : (p : Text) → rel (p ++ (b' ' ∷ [])) ≡ rel p
unfolding rel trim_space
rel-ignores_trailing_space p = rw (trim_right-space p)
