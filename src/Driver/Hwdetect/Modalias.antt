-- ===== src/Driver/Hwdetect/Modalias.antt =====
-- The identifiers that services/driverd/src/hwdetect.rs takes out of a modalias. A slice that
-- begins or ends inside a character of UTF-8 panics.
use mission_os.Base.{
  ℕ, [], ◌∷◌, ◌++◌, Option, none, some, Bool, false, ◌||◌, ◌+◌, leb, all, drop, length, is_some,
  if◌then◌else◌,
}
use mission_os.Base.Hex.{hex_digit, continues}
use mission_os.Base.Results.{Result, ok, err, ◌>>=◌}
use mission_os.Base.Text.{Text, codes, starts_with}
use mission_os.Driver.Repository.{Panic, panic}

-- `&s[s.find(pattern)?..]` of a pattern that is not empty.
unfoldable pub found : Text → Text → Option Text
unfolding starts_with
found [] pattern_text = none
found (c ∷ s) pattern_text =
    let rest = found s pattern_text in
    if starts_with (c ∷ s) pattern_text then some (c ∷ s) else rest

unfoldable pub is_inside : Text → Bool
unfolding continues
is_inside [] = false
is_inside (c ∷ s) = continues c

-- `&s[..4]`.
unfoldable pub first_four : Text → Result Panic Text
unfolding is_inside
first_four (a ∷ b ∷ c ∷ d ∷ s) =
    if is_inside (a ∷ []) || is_inside s then err panic else ok (a ∷ b ∷ c ∷ d ∷ [])
first_four _ = err panic

unfoldable pub is_ascii_hexdigit : ℕ → Bool
unfolding hex_digit
is_ascii_hexdigit c = is_some (hex_digit c)

abbrev pub with_0x : Text → Text
with_0x digits = codes "0x" ++ digits

-- Four hexadecimal digits behind the first `n` bytes.
unfoldable pub digits_after : ℕ → Text → Result Panic (Option Text)
unfolding first_four is_ascii_hexdigit
digits_after n rest =
    if leb (n + 4) (length rest)
    then (first_four (drop n rest) >>= λ digits.
        ok (if all is_ascii_hexdigit digits then some (with_0x digits) else none))
    else ok none

unfoldable pub extract_vendor_from_modalias : Text → Result Panic (Option Text)
unfolding found digits_after
extract_vendor_from_modalias modalias = elim (found modalias (codes "v0000")) [
  | some rest ↦ elim (digits_after 5 rest) [
    | err e ↦ err e
    | ok (some id) ↦ ok (some id)
    | ok none ↦ ok (some (codes "0x0000"))
  ]
  | none ↦ elim (found modalias (codes "v")) [ none ↦ ok none | some rest ↦ digits_after 1 rest ]
]

unfoldable pub extract_device_from_modalias : Text → Result Panic (Option Text)
unfolding found first_four digits_after
extract_device_from_modalias modalias = elim (found modalias (codes "d0000")) [
  | some rest ↦
      (if leb 9 (length rest)
        then (first_four (drop 5 rest) >>= λ device. ok (some (with_0x device)))
        else ok none)
  | none ↦ elim (found modalias (codes "p")) [ none ↦ ok none | some rest ↦ digits_after 1 rest ]
]
