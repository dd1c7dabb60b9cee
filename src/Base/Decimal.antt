-- ===== src/Base/Decimal.antt =====
-- `u64` in decimal: `parse::<u64>` with the standard library's errors, and `Display`.
pub mod RoundTrip
use Prim.Native.Nat.{ℕ, zero, suc, ◌+◌, ◌-◌, ◌*◌, ◌/◌, ◌%◌, ◌^◌}
use mathlib.Core.Bool.{Bool, ◌&&◌, ◌||◌}
use mathlib.Core.List.{[], ◌∷◌}
use mission_os.Base.Tests.{ltb, leb, ◌==◌, if◌then◌else◌}
use mission_os.Base.Results.{Result, ok, err}
use mission_os.Base.Text.{Text, codes}

abbrev pub u64_max : ℕ
u64_max = 2 ^ 64 - 1

-- `IntErrorKind`, and its `Display`.
pub data IntError : Type 0 where
  empty invalid_digit pos_overflow : IntError

unfoldable pub int_error_text : IntError → Text
int_error_text IntError.empty = codes "cannot parse integer from empty string"
int_error_text IntError.invalid_digit = codes "invalid digit found in string"
int_error_text IntError.pos_overflow = codes "number too large to fit in target type"

unfoldable pub is_digit : ℕ → Bool
is_digit c = leb b'0' c && leb c b'9'

-- The checked multiplication and addition of each round.
unfoldable pub parse_digits : ℕ → Text → Result IntError ℕ
unfolding is_digit
parse_digits acc [] = ok acc
parse_digits acc (c ∷ s) =
    let next = parse_digits (acc * 10 + (c - 48)) s in
    if is_digit c
    then (if ltb u64_max (acc * 10) || ltb u64_max (acc * 10 + (c - 48))
        then err IntError.pos_overflow
        else next)
    else err IntError.invalid_digit

-- A leading plus sign is accepted, but not alone.
unfoldable pub parse_u64 : Text → Result IntError ℕ
unfolding parse_digits
parse_u64 [] = err IntError.empty
parse_u64 (c ∷ []) = if c == b'+' then err IntError.invalid_digit else parse_digits 0 (c ∷ [])
parse_u64 (c ∷ d ∷ s) = if c == b'+' then parse_digits 0 (d ∷ s) else parse_digits 0 (c ∷ d ∷ s)

-- Each round puts the last digit before those that it has; `n` rounds are enough for `n`.
unfoldable pub emit : ℕ → ℕ → Text → Text
emit zero n out = out
emit (suc f) n out =
    let rest = emit f (n / 10) ((48 + n % 10) ∷ out) in if n == 0 then out else rest

unfoldable pub show : ℕ → Text
unfolding emit
show n = if n == 0 then b'0' ∷ [] else emit n n []
