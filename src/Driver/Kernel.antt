-- ===== src/Driver/Kernel.antt =====
-- The kernel version range of a driver. The same two loops stand in
-- services/driverd/src/matching.rs, conflict.rs and selector.rs.
pub mod Range
use mission_os.Base.{
  ℕ, suc, List, [], ◌∷◌, Option, none, some, Bool, true, false, not, keep_map, ltb, get_or,
  if◌then◌else◌,
}
use mission_os.Base.Results.{to_option}
use mission_os.Base.Text.{Text, split}
use mission_os.Base.Decimal.{parse_u64, is_digit}

-- `split(|c| !c.is_ascii_digit())`
unfoldable pub split_digits : Text → Text × List Text
unfolding is_digit
split_digits [] = ([], [])
split_digits (c ∷ s) =
    let (part, rest) = split_digits s in
    if not (is_digit c) then ([], part ∷ rest) else (c ∷ part, rest)

unfoldable pub sys_parts : Text → List ℕ
unfolding split_digits
sys_parts s =
    let (part, rest) = split_digits s in keep_map (λ p. to_option (parse_u64 p)) (part ∷ rest)

unfoldable pub bound_parts : Text → List ℕ
bound_parts s = keep_map (λ p. to_option (parse_u64 p)) (split b'.' s)

-- The loop over the minimum: true where the code returns that the kernel is too old.
unfoldable pub too_old : List ℕ → ℕ → List ℕ → Bool
too_old sys i [] = false
too_old sys i (min_part ∷ parts) =
    let rest = too_old sys (suc i) parts in
    if ltb (get_or sys i 0) min_part
    then true
    else if ltb min_part (get_or sys i 0)
    then false
    else rest

-- The loop over the maximum: true where the code returns that the kernel is too new.
unfoldable pub too_new : List ℕ → ℕ → List ℕ → Bool
too_new sys i [] = false
too_new sys i (max_part ∷ parts) =
    let rest = too_new sys (suc i) parts in
    if ltb max_part (get_or sys i 0)
    then true
    else if ltb (get_or sys i 0) max_part
    then false
    else rest
