-- ===== src/Prelude/Decimal.antt =====
-- Go's decimal notation of a natural number (`%d`, `strconv.Itoa`), and its value.
use Prim.Native.Nat.{ℕ, zero, suc, ◌+◌, ◌-◌, ◌*◌, ◌/◌, ◌%◌, ◌<◌}
use mathlib.Core.Path.{◌≡◌, sym, ap, ◌∙◌}
use mathlib.Core.List.{[], ◌∷◌}
use native.Mathlib.Omega.{arith}
use tailcat_gui.Prelude.Tests.{ltb, if◌then◌else◌}
use tailcat_gui.Prelude.Strings.{Text}

-- The digits of `n` in front of `acc`. `n / 10 < n` where the loop goes on, so `suc n` rounds are enough.
decimal_loop : ℕ → ℕ → Text → Text
decimal_loop zero n acc = acc
decimal_loop (suc fuel) n acc =
    let rest = decimal_loop fuel (n / 10) ((48 + n % 10) ∷ acc) in
    if ltb n 10 then (48 + n) ∷ acc else rest

unfoldable pub decimal : ℕ → Text
unfolding decimal_loop
decimal n = decimal_loop (suc n) n []

-- The number that digits spell, after the digits of `n`.
unfoldable pub value_from : ℕ → Text → ℕ
value_from n [] = n
value_from n (c ∷ cs) = value_from (n * 10 + (c - 48)) cs

decimal_loop-value :
    (fuel n : ℕ) (acc : Text) → n < fuel → value_from 0 (decimal_loop fuel n acc) ≡ value_from n acc
unfolding decimal_loop value_from
decimal_loop-value zero n acc h = elim h [ ]
decimal_loop-value (suc fuel) n acc h = ground (
  arith,
  decimal_loop-value fuel (n / 10) ((48 + n % 10) ∷ acc),
  ap (λ (k : ℕ). value_from k acc) (last_digit n),
  ap (λ (k : ℕ). value_from k acc) (digit n),
)
  where
    last_digit : (n : ℕ) → n / 10 * 10 + (48 + n % 10 - 48) ≡ n
    last_digit n = omega arith

    digit : (n : ℕ) → 0 * 10 + (48 + n - 48) ≡ n
    digit n = omega arith

-- Reading the digits of a number gives the number back.
pub value-decimal : (n : ℕ) → value_from 0 (decimal n) ≡ n
unfolding decimal value_from
value-decimal n = decimal_loop-value (suc n) n [] (omega arith)

pub decimal-injective : (m n : ℕ) → decimal m ≡ decimal n → m ≡ n
decimal-injective m n h = sym (value-decimal m) ∙ ap (value_from 0) h ∙ value-decimal n
