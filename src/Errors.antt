-- ===== src/Errors.antt =====
-- core/engine/commands.go: errors with a code for the UI. A message is kept as the format and the
-- arguments of `fmt.Errorf`.
use tailcat_gui.Prelude.{List, Text, codes, ◌≡◌, ◌⊎◌, inl, inr, refl}
use tailcat_gui.Events.{Value}

pub data Code : Type 0 where
  bad_request invalid_token unsupported not_found internal : Code

abbrev pub code_text : Code → Text
code_text bad_request = codes "bad_request"
code_text invalid_token = codes "invalid_token"
code_text unsupported = codes "unsupported"
code_text not_found = codes "not_found"
code_text internal = codes "internal"

-- `codedError`, an error with no code, and `fmt.Errorf` with `%w`.
pub data Error : Type 0 where
  coded : Code → Text → List Value → Error
  plain : Text → List Value → Error
  wrapped : Text → List Value → Error → Error

-- `codeOf`: `errors.As` finds the outermost coded error.
unfoldable pub code_of : Error → Code
code_of (coded code format args) = code
code_of (plain format args) = internal
code_of (wrapped format args err) = code_of err

pub data Result {ℓ} (A : Type ℓ) : Type ℓ where
  ok : A → Result A
  err : Error → Result A

infixl 5 ◌>>=◌
abbrev pub ◌>>=◌ {ℓ κ} : {A : Type ℓ} {B : Type κ} → Result A → (A → Result B) → Result B
ok a >>= f = f a
err e >>= f = err e

pub Result-cases {ℓ} :
    {A : Type ℓ} (r : Result A) → ((a : A) × (r ≡ ok a)) ⊎ ((e : Error) × (r ≡ err e))
Result-cases (ok a) = inl (a, refl)
Result-cases (err e) = inr (e, refl)
