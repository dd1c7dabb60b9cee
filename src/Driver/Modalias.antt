-- ===== src/Driver/Modalias.antt =====
-- Modalias patterns: `modalias_pattern_match` and `find_subslice` of services/driverd/src/matching.rs.
pub mod Segments
pub mod Glob
use mission_os.Base.{
  ℕ, ◌+◌, ◌-◌, List, [], ◌∷◌, Option, none, some, Bool, true, false, not, ltb, length, drop,
  is_empty, if◌then◌else◌,
}
use mission_os.Base.Text.{Text, codes, text_eq, starts_with, ends_with, split}

-- `windows(needle.len()).position(|window| window == needle)`
unfoldable pub position : Text → Text → Option ℕ
unfolding starts_with
position [] needle = if starts_with [] needle then some 0 else none
position (c ∷ haystack) needle =
    let later = position haystack needle in
    if starts_with (c ∷ haystack) needle
    then some 0
    else elim later [ none ↦ none | some k ↦ some (k + 1) ]

unfoldable pub find_subslice : Text → Text → Option ℕ
unfolding position
find_subslice haystack needle = if is_empty needle then some 0 else position haystack needle

-- `&bytes[pos..]`; `none` is the panic of an index past the end.
unfoldable pub slice_from : ℕ → Text → Option Text
slice_from pos bytes = if ltb (length bytes) pos then none else some (drop pos bytes)

-- The rounds of the loop behind the first one. `none` is a panic.
unfoldable pub match_rest : Text → ℕ → List Text → Option Bool
unfolding find_subslice slice_from ends_with
match_rest modalias pos [] = some true
match_rest modalias pos (segment ∷ []) =
    if is_empty segment
    then some true
    else if not (ends_with modalias segment)
    then some false
    else if ltb (length modalias) (length segment)
    then some false
    else if ltb (length modalias - length segment) pos
    then some false
    else some true
match_rest modalias pos (segment ∷ next ∷ segments) =
    let skip = match_rest modalias pos (next ∷ segments) in
    let further = λ (k : ℕ). match_rest modalias (pos + (k + length segment)) (next ∷ segments) in
    if is_empty segment then skip else elim (slice_from pos modalias) [
      | none ↦ none
      | some remaining ↦ elim (find_subslice remaining segment) [
        | none ↦ some false
        | some k ↦ further k
      ]
    ]

-- The round for the first segment.
unfoldable pub match_first : Text → List Text → Option Bool
unfolding match_rest starts_with
match_first modalias [] = some true
match_first modalias (segment ∷ segments) =
    if is_empty segment
    then match_rest modalias 0 segments
    else if not (starts_with modalias segment)
    then some false
    else match_rest modalias (length segment) segments

unfoldable pub only_empty : List Text → Bool
only_empty [] = true
only_empty (segment ∷ []) = is_empty segment
only_empty (segment ∷ next ∷ segments) = false

unfoldable pub modalias_pattern_match : Text → Text → Option Bool
unfolding match_first split only_empty
modalias_pattern_match pattern modalias =
    if text_eq pattern (codes "*")
    then some true
    else if only_empty (split b'*' pattern)
    then some (is_empty modalias)
    else match_first modalias (split b'*' pattern)
