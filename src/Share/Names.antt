-- ===== src/Share/Names.antt =====
-- The functions of Go's `strings`, `path` and `path/filepath` (of Unix) that the core calls.
use tailcat_gui.Prelude.{
  ℕ, zero, suc, Bool, true, false, not, ◌||◌, ◌&&◌, List, [], ◌∷◌, ◌++◌, reverse, length,
  if◌then◌else◌, Option, none, some, Text, codes, text_eq, ◌==◌,
}

-- `strings.CutPrefix`
unfoldable pub cut_prefix : Text → Text → Option Text
cut_prefix [] s = some s
cut_prefix (p ∷ ps) [] = none
cut_prefix (p ∷ ps) (c ∷ cs) = if p == c then cut_prefix ps cs else none

-- `strings.TrimPrefix`
unfoldable pub trim_prefix : Text → Text → Text
unfolding cut_prefix
trim_prefix p s = elim (cut_prefix p s) [ some rest ↦ rest | none ↦ s ]

-- The characters of Unicode's property White_Space in UTF-8.
abbrev spaces : List Text
spaces =
    (32 ∷ [])
    ∷ (9 ∷ [])
    ∷ (10 ∷ [])
    ∷ (11 ∷ [])
    ∷ (12 ∷ [])
    ∷ (13 ∷ [])
    ∷ (194 ∷ 133 ∷ [])
    ∷ (194 ∷ 160 ∷ [])
    ∷ (225 ∷ 154 ∷ 128 ∷ [])
    ∷ (226 ∷ 128 ∷ 128 ∷ [])
    ∷ (226 ∷ 128 ∷ 129 ∷ [])
    ∷ (226 ∷ 128 ∷ 130 ∷ [])
    ∷ (226 ∷ 128 ∷ 131 ∷ [])
    ∷ (226 ∷ 128 ∷ 132 ∷ [])
    ∷ (226 ∷ 128 ∷ 133 ∷ [])
    ∷ (226 ∷ 128 ∷ 134 ∷ [])
    ∷ (226 ∷ 128 ∷ 135 ∷ [])
    ∷ (226 ∷ 128 ∷ 136 ∷ [])
    ∷ (226 ∷ 128 ∷ 137 ∷ [])
    ∷ (226 ∷ 128 ∷ 138 ∷ [])
    ∷ (226 ∷ 128 ∷ 168 ∷ [])
    ∷ (226 ∷ 128 ∷ 169 ∷ [])
    ∷ (226 ∷ 128 ∷ 175 ∷ [])
    ∷ (226 ∷ 129 ∷ 159 ∷ [])
    ∷ (227 ∷ 128 ∷ 128 ∷ [])
    ∷ []

map_reverse : List Text → List Text
map_reverse [] = []
map_reverse (x ∷ xs) = reverse x ∷ map_reverse xs

-- The text behind its first character, if that is one of those given.
first_cut : List Text → Text → Option Text
unfolding cut_prefix
first_cut [] s = none
first_cut (p ∷ ps) s = elim (cut_prefix p s) [ some rest ↦ some rest | none ↦ first_cut ps s ]

-- Each round takes a byte at least, so `length s` rounds are enough.
trim_loop : List Text → ℕ → Text → Text
unfolding first_cut
trim_loop ps zero s = s
trim_loop ps (suc fuel) s = elim (first_cut ps s) [ some rest ↦ trim_loop ps fuel rest | none ↦ s ]

trim_left : Text → Text
unfolding trim_loop
trim_left s = trim_loop spaces (length s) s

unfoldable pub trim_right : Text → Text
unfolding trim_loop map_reverse
trim_right s = reverse (trim_loop (map_reverse spaces) (length s) (reverse s))

-- `strings.TrimSpace`
unfoldable pub trim_space : Text → Text
unfolding trim_left trim_right
trim_space s = trim_left (trim_right s)

-- `strings.Cut(s, "/")`: what stands before the first slash and behind it.
unfoldable pub cut_slash : Text → Text × Text
cut_slash [] = ([], [])
cut_slash (c ∷ cs) = let (a, b) = cut_slash cs in if c == b'/' then ([], cs) else (c ∷ a, b)

-- A byte in front of elements: a slash begins a new one.
unfoldable pub push_byte : ℕ → List Text → List Text
push_byte c [] = if c == b'/' then [] ∷ [] ∷ [] else (c ∷ []) ∷ []
push_byte c (e ∷ es) = if c == b'/' then [] ∷ e ∷ es else (c ∷ e) ∷ es

-- The elements of a path, empty ones included.
unfoldable pub elements : Text → List Text
unfolding push_byte
elements [] = [] ∷ []
elements (c ∷ cs) = push_byte c (elements cs)

abbrev pub dot : Text
dot = codes "."

abbrev pub dot_dot : Text
dot_dot = codes ".."

-- Elements joined by slashes.
unfoldable pub join : List Text → Text
join [] = []
join (e ∷ []) = e
join (e ∷ f ∷ es) = e ++ (b'/' ∷ join (f ∷ es))

-- `..` takes the last element away. At the root it is dropped, elsewhere in front it is kept.
unfoldable pub climb : Bool → List Text → List Text
climb true [] = []
climb false [] = dot_dot ∷ []
climb rooted (top ∷ stack) = if text_eq top dot_dot then dot_dot ∷ top ∷ stack else stack

-- The rules of `path.Clean`, element by element; the last element stands first.
unfoldable pub clean_loop : Bool → List Text → List Text → List Text
unfolding climb
clean_loop rooted stack [] = stack
clean_loop rooted stack (e ∷ es) =
    clean_loop rooted
      (if text_eq e [] || text_eq e dot
        then stack
        else if text_eq e dot_dot
        then climb rooted stack
        else e ∷ stack)
      es

abbrev pub is_rooted : Text → Bool
is_rooted [] = false
is_rooted (c ∷ _) = c == b'/'

abbrev pub finish_clean : Bool → Text → Text
finish_clean true s = b'/' ∷ s
finish_clean false s = if text_eq s [] then dot else s

-- `path.Clean`
unfoldable pub clean : Text → Text
clean s = finish_clean (is_rooted s) (join (reverse (clean_loop (is_rooted s) [] (elements s))))

-- `strings.TrimSuffix`
unfoldable pub trim_suffix : Text → Text → Text
unfolding trim_prefix
trim_suffix p s = reverse (trim_prefix (reverse p) (reverse s))

abbrev pub has_byte : ℕ → Text → Bool
has_byte b [] = false
has_byte b (c ∷ cs) = c == b || has_byte b cs

abbrev or_else : Option Text → Option Text → Option Text
or_else none b = b
or_else (some a) b = some a

-- The text from its last dot on, if there is one behind the last slash.
last_dot : Text → Option Text
last_dot [] = none
last_dot (c ∷ cs) =
    or_else (last_dot cs) (if c == b'.' && not (has_byte b'/' cs) then some (c ∷ cs) else none)

-- `filepath.Ext`
unfoldable pub ext : Text → Text
unfolding last_dot
ext s = elim (last_dot s) [ some e ↦ e | none ↦ [] ]

-- A reversed path without the slashes that it begins with.
drop_slashes : Text → Text
drop_slashes [] = []
drop_slashes (c ∷ cs) = if c == b'/' then drop_slashes cs else c ∷ cs

-- `filepath.Base`: the last element, less the slashes at the end.
unfoldable pub base : Text → Text
unfolding drop_slashes cut_slash
base s =
    if text_eq s []
    then dot
    else (let (last, _) = cut_slash (drop_slashes (reverse s)) in
        if text_eq last [] then b'/' ∷ [] else reverse last)
