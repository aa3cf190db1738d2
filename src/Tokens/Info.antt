-- ===== src/Tokens/Info.antt =====
-- engine.go: what `parseToken` tells of a token that tailcat reads.
use tailcat_gui.Prelude.{Bool, true, false, List, [], ◌∷◌, ◌++◌, Option, none, some, Text, codes, ℤ}
use tailcat_gui.Events.{Event, text, int, bool}

pub record Region : Type 0 where
  pub region_code : Text
  pub region_name : Text

-- The fields of tailcat's connection info that the core reads, the server's key as its text.
pub record ConnView : Type 0 where
  pub region_id : ℤ
  pub server_public : Text
  pub regions : List (Option Region)

abbrev is_embedded : List (Option Region) → Bool
is_embedded [] = false
is_embedded (_ ∷ _) = true

-- The first region's code and name, if it is there.
abbrev region_fields : List (Option Region) → Event
region_fields [] = []
region_fields (none ∷ _) = []
region_fields (some r ∷ _) =
    (codes "region_code", text r.region_code) ∷ (codes "region_name", text r.region_name) ∷ []

-- The result of `parseToken`.
unfoldable pub token_fields : Text → ConnView → Event
token_fields token ci =
    ((codes "valid", bool true)
      ∷ (codes "token", text token)
      ∷ (codes "region_id", int ci.region_id)
      ∷ (codes "public_key", text ci.server_public)
      ∷ (codes "embedded", bool (is_embedded ci.regions))
      ∷ [])
    ++ region_fields ci.regions
