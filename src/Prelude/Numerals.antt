-- ===== src/Prelude/Numerals.antt =====
-- `int(text)` for decimal digits of ASCII: white space around, a sign, and single underscores between
-- digits are allowed.
use Prim.Native.Nat.{ℕ, zero, suc, ◌+◌, ◌-◌, ◌*◌}
use mathlib.Core.Bool.{Bool, true, false, ◌&&◌}
use mathlib.Core.Option.{Option, none, some}
use mathlib.Core.List.{[], ◌∷◌}
use secure_api_gateway.Prelude.Tests.{◌==◌, if◌then◌else◌}
use secure_api_gateway.Prelude.Texts.{Text, strip, is_digit}
use secure_api_gateway.Prelude.Int.{ℤ, pos, negsuc}

-- The value of the digits after `value`; `after_digit` when the last character was one.
unfoldable pub digits : ℕ → Bool → Text → Option ℕ
unfolding is_digit
digits value after_digit [] = if after_digit then some value else none
digits value after_digit (c ∷ s) = elim (is_digit c) [
  | true ↦ digits (value * 10 + (c - b'0')) true s
  | false ↦ elim (c == b'_' && after_digit) [ true ↦ digits value false s | false ↦ none ]
]

unfoldable pub negated : ℕ → ℤ
negated zero = pos 0
negated (suc n) = negsuc n

unfoldable pub signed : (ℕ → ℤ) → Option ℕ → Option ℤ
signed sign none = none
signed sign (some n) = some (sign n)

unfoldable pub unsigned_or_signed : Text → Option ℤ
unfolding digits negated signed
unsigned_or_signed [] = none
unsigned_or_signed (c ∷ s) =
    if c == b'-'
    then signed negated (digits 0 false s)
    else if c == b'+'
    then signed pos (digits 0 false s)
    else signed pos (digits 0 false (c ∷ s))

unfoldable pub parse_int : Text → Option ℤ
unfolding strip unsigned_or_signed
parse_int s = unsigned_or_signed (strip s)
