-- ===== src/Share/Mode.antt =====
-- core/engine/fileshare/server.go: what clients may do in a share.
use tailcat_gui.Prelude.{
  Bool, false, List, [], ◌∷◌, ◌≡◌, refl, if◌then◌else◌, Text, codes, text_eq, ◌||◌, Text-discrete,
}
use tailcat_gui.Errors.{Result, ok, err, plain}
use tailcat_gui.Events.{text}

pub data Mode : Type 0 where
  read_only read_write write_only : Mode

abbrev one_of : Text → List Text → Bool
one_of s [] = false
one_of s (x ∷ xs) = text_eq s x || one_of s xs

-- The cases of the `switch` in `ParseMode`.
abbrev pub spellings : Mode → List Text
spellings read_only = [] ∷ codes "ro" ∷ codes "RO" ∷ codes "readonly" ∷ codes "read-only" ∷ []
spellings read_write = codes "rw" ∷ codes "RW" ∷ codes "readwrite" ∷ codes "read-write" ∷ []
spellings write_only = codes "wo" ∷ codes "WO" ∷ codes "writeonly" ∷ codes "write-only" ∷ []

-- `ParseMode`
unfoldable pub parse_mode : Text → Result Mode
parse_mode s =
    if one_of s (spellings read_only)
    then ok read_only
    else if one_of s (spellings read_write)
    then ok read_write
    else if one_of s (spellings write_only)
    then ok write_only
    else err (plain (codes "unknown file share mode %q (want ro, rw or wo)") (text s ∷ []))

-- `Mode.String`
unfoldable pub mode_text : Mode → Text
mode_text read_write = codes "rw"
mode_text write_only = codes "wo"
mode_text read_only = codes "ro"

-- The mode that a share publishes is read back as that mode.
pub parse_mode-mode_text : (m : Mode) → parse_mode (mode_text m) ≡ ok m
unfolding parse_mode mode_text Text-discrete
parse_mode-mode_text read_only = refl
parse_mode-mode_text read_write = refl
parse_mode-mode_text write_only = refl
