-- ===== src/Base/Text.antt =====
-- Text as its UTF-8 bytes, and the standard library's functions on it that the code calls.
-- `trim` and the case functions are those of ASCII text.
pub mod Split
use Prim.Native.Nat.{ℕ, ◌+◌, ◌-◌, compare, Ordering}
use Prim.Native.Char.{code}
use Prim.Native.String.{String}
use mathlib.Core.Path.{◌≡◌, refl}
use mathlib.Core.Logic.{◌↔◌}
use mathlib.Core.Bool.{Bool, true, false, ◌&&◌, ◌||◌}
use mathlib.Core.List.{List, [], ◌∷◌, ◌++◌, map}
use mathlib.Core.Option.{Option, none, some}
use native.Mathlib.Omega.{arith}
use mission_os.Base.Tests.{leb, ◌==◌, if◌then◌else◌}
use mission_os.Base.Lists.{length, drop}
use mission_os.Base.Order.{cmp_list}

abbrev pub Text : Type 0
Text = List ℕ

-- The bytes of an ASCII literal.
abbrev pub codes : String → Text
codes String.[] = []
codes (String.◌∷◌ c s) = code c ∷ codes s

abbrev pub text_eq : Text → Text → Bool
text_eq [] [] = true
text_eq [] (y ∷ ys) = false
text_eq (x ∷ xs) [] = false
text_eq (x ∷ xs) (y ∷ ys) = x == y && text_eq xs ys

pub text_eq_iff : (s t : Text) → (text_eq s t ≡ true) ↔ (s ≡ t)
text_eq_iff [] [] = (λ _. refl, λ _. refl)
text_eq_iff [] (y ∷ ys) = (λ h. cc, λ h. cc)
text_eq_iff (x ∷ xs) [] = (λ h. cc, λ h. cc)
text_eq_iff (x ∷ xs) (y ∷ ys) = ground (arith, text_eq_iff xs ys)

pub text_eq_refl : (s : Text) → text_eq s s ≡ true
text_eq_refl s = (text_eq_iff s s).1 refl

-- The order of `str`: byte by byte.
abbrev pub text_cmp : Text → Text → Ordering
text_cmp = cmp_list compare

-- `char::is_whitespace` and `to_ascii_lowercase` on ASCII.
unfoldable pub is_space : ℕ → Bool
is_space c = (leb 9 c && leb c 13) || c == 32

unfoldable pub lower : ℕ → ℕ
lower c = if leb b'A' c && leb c b'Z' then c + 32 else c

unfoldable pub to_lowercase : Text → Text
unfolding lower
to_lowercase s = map lower s

unfoldable pub eq_ignore_ascii_case : Text → Text → Bool
unfolding to_lowercase
eq_ignore_ascii_case s t = text_eq (to_lowercase s) (to_lowercase t)

unfoldable pub trim_start : Text → Text
unfolding is_space
trim_start [] = []
trim_start (c ∷ s) = let rest = trim_start s in if is_space c then rest else c ∷ s

unfoldable pub trim_end : Text → Text
unfolding is_space
trim_end [] = []
trim_end (c ∷ s) = elim (trim_end s) [
  | [] ↦ (if is_space c then [] else c ∷ [])
  | d ∷ t ↦ c ∷ d ∷ t
]

unfoldable pub trim : Text → Text
unfolding trim_start trim_end
trim s = trim_end (trim_start s)

unfoldable pub starts_with : Text → Text → Bool
starts_with s [] = true
starts_with [] (p ∷ ps) = false
starts_with (c ∷ s) (p ∷ ps) = c == p && starts_with s ps

unfoldable pub ends_with : Text → Text → Bool
ends_with s p = leb (length p) (length s) && text_eq (drop (length s - length p) s) p

unfoldable pub contains : Text → Text → Bool
unfolding starts_with
contains [] p = starts_with [] p
contains (c ∷ s) p = starts_with (c ∷ s) p || contains s p

-- `split(c)`: the parts between the separators, one more than there are separators.
unfoldable pub split_first : ℕ → Text → Text × List Text
split_first sep [] = ([], [])
split_first sep (c ∷ s) =
    let (part, rest) = split_first sep s in if c == sep then ([], part ∷ rest) else (c ∷ part, rest)

unfoldable pub split : ℕ → Text → List Text
unfolding split_first
split sep s = let (part, rest) = split_first sep s in part ∷ rest

-- `find(c)` with `split_at`: what stands before the first separator, and after it if there is one.
unfoldable pub split_once : ℕ → Text → Text × Option Text
split_once sep [] = ([], none)
split_once sep (c ∷ s) =
    let (left, right) = split_once sep s in if c == sep then ([], some s) else (c ∷ left, right)

-- `rsplit_once`: what stands before and after the last separator.
unfoldable pub rsplit_once : ℕ → Text → Option (Text × Text)
rsplit_once sep [] = none
rsplit_once sep (c ∷ s) = elim (rsplit_once sep s) [
  | some (left, right) ↦ some (c ∷ left, right)
  | none ↦ (if c == sep then some ([], s) else none)
]

-- `join(sep)`.
unfoldable pub join : Text → List Text → Text
join sep [] = []
join sep (s ∷ []) = s
join sep (s ∷ t ∷ r) = s ++ (sep ++ join sep (t ∷ r))
