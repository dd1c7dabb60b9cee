-- ===== src/Base/Hex.antt =====
-- Bytes as hexadecimal digits: `{b:02x}`, and `u8::from_str_radix(_, 16)` on two bytes.
use Prim.Native.Nat.{ℕ, ◌+◌, ◌-◌, ◌*◌, ◌/◌, ◌%◌, ◌≤◌}
use mathlib.Core.Path.{◌≡◌, refl}
use mathlib.Core.Bool.{Bool, ◌&&◌}
use mathlib.Core.List.{[], ◌∷◌}
use mathlib.Core.Option.{Option, none, some}
use native.Mathlib.Omega.{arith}
use mission_os.Base.Tests.{ltb, leb, ◌==◌, if◌then◌else◌}
use mission_os.Base.Lists.{All}
use mission_os.Base.Text.{Text, is_space, trim, trim_start, trim_end}

unfoldable pub hex_char : ℕ → ℕ
hex_char d = if ltb d 10 then 48 + d else 87 + d

unfoldable pub hex_encode : Text → Text
unfolding hex_char
hex_encode [] = []
hex_encode (b ∷ bytes) = hex_char (b / 16) ∷ hex_char (b % 16) ∷ hex_encode bytes

-- Both cases are digits.
unfoldable pub hex_digit : ℕ → Option ℕ
hex_digit c =
    if leb b'0' c && leb c b'9'
    then some (c - 48)
    else if leb b'a' c && leb c b'f'
    then some (c - 87)
    else if leb b'A' c && leb c b'F'
    then some (c - 55)
    else none

-- A leading plus sign is accepted.
unfoldable pub hex_byte : ℕ → ℕ → Option ℕ
unfolding hex_digit
hex_byte a b = if a == b'+' then hex_digit b else elim (hex_digit a) [
  | none ↦ none
  | some high ↦ elim (hex_digit b) [ none ↦ none | some low ↦ some (high * 16 + low) ]
]

-- A byte that continues a character of UTF-8.
unfoldable pub continues : ℕ → Bool
continues c = leb 128 c && leb c 191

abbrev pub IsByte : ℕ → Type 0
IsByte b = b ≤ 255

pub hex_digit-hex_char : (d : ℕ) → d ≤ 15 → hex_digit (hex_char d) ≡ some d
unfolding hex_digit hex_char
hex_digit-hex_char d h = ground arith

pub hex_byte-hex_char :
    (b : ℕ) → IsByte b → hex_byte (hex_char (b / 16)) (hex_char (b % 16)) ≡ some b
unfolding hex_byte hex_char
hex_byte-hex_char b h =
    ground
      (arith, hex_digit-hex_char (b / 16) (omega arith), hex_digit-hex_char (b % 16) (omega arith))

-- The digits that are printed: none is a space, and none a byte above ASCII.
pub hex_char-le : (d : ℕ) → d ≤ 15 → (48 ≤ hex_char d) × (hex_char d ≤ 122)
unfolding hex_char
hex_char-le d h = ground arith

abbrev pub IsPlain : ℕ → Type 0
IsPlain c = (48 ≤ c) × (c ≤ 122)

pub hex_encode-IsPlain : (bytes : Text) → All IsByte bytes → All IsPlain (hex_encode bytes)
unfolding hex_encode
hex_encode-IsPlain [] h = tt
hex_encode-IsPlain (b ∷ bytes) h =
    let first = h.0 in
    (
      hex_char-le (b / 16) (omega (arith, first)),
      (hex_char-le (b % 16) (omega arith), hex_encode-IsPlain bytes h.1),
    )

-- A text of plain bytes is trimmed to itself.
pub trim_end_plain : (s : Text) → All IsPlain s → trim_end s ≡ s
unfolding trim_end is_space
trim_end_plain [] h = refl
trim_end_plain (c ∷ []) h = let first = h.0 in ground arith
trim_end_plain (c ∷ d ∷ s) h = rw (trim_end_plain (d ∷ s) h.1, trim_end) refl

pub trim_plain : (s : Text) → All IsPlain s → trim s ≡ s
unfolding trim trim_start is_space
trim_plain [] h = refl
trim_plain (c ∷ s) h =
    let first = h.0 in let rest = trim_end_plain (c ∷ s) h in ground (arith, rest)
