-- ===== src/Version.antt =====
-- The semantic versions of libraries/core/src/version.rs.
pub mod Order
pub mod RoundTrip
mod Samples
use mission_os.Base.{
  ℕ, Ordering, compare, List, [], ◌∷◌, ◌++◌, Option, none, some, Bool, length, is_empty,
  if◌then◌else◌,
}
use mission_os.Base.Results.{Result, ok, err, ◌>>=◌, map_err, to_option}
use mission_os.Base.Order.{then_cmp}
use mission_os.Base.Text.{Text, codes, split, split_once, join, text_cmp}
use mission_os.Base.Decimal.{parse_u64, int_error_text, show}

pub data VersionParseErrorKind : Type 0 where
  empty missing_component : VersionParseErrorKind
  invalid_major invalid_minor invalid_patch : Text → VersionParseErrorKind
  invalid_prerelease trailing_input : Text → VersionParseErrorKind

pub record VersionParseError : Type 0 where
  pub input : Text
  pub kind : VersionParseErrorKind

pub record Version : Type 0 where
  pub major : ℕ
  pub minor : ℕ
  pub patch : ℕ
  pub pre : List Text
  pub build : List Text

unfoldable pub is_stable : Version → Bool
is_stable v = is_empty v.pre

-- What stands behind a `+` or a `-`: nothing, or identifiers separated by dots.
unfoldable pub identifiers : Option Text → List Text
identifiers none = []
identifiers (some []) = []
identifiers (some (c ∷ s)) = split b'.' (c ∷ s)

-- The numeric part: exactly three components.
unfoldable pub parse_core :
    Text → List Text → List Text → List Text → Result VersionParseError Version
parse_core input pre build (a ∷ b ∷ c ∷ []) = do
  major ←
      map_err (λ e. record { input = input; kind = invalid_major (int_error_text e) }) (parse_u64 a)
  minor ←
      map_err (λ e. record { input = input; kind = invalid_minor (int_error_text e) }) (parse_u64 b)
  patch ←
      map_err (λ e. record { input = input; kind = invalid_patch (int_error_text e) }) (parse_u64 c)
  ok (record { major = major; minor = minor; patch = patch; pre = pre; build = build })
parse_core input pre build (a ∷ b ∷ c ∷ d ∷ r) =
    err (record { input = input; kind = trailing_input (join (codes ".") (d ∷ r)) })
parse_core input pre build _ = err (record { input = input; kind = missing_component })

unfoldable pub parse : Text → Result VersionParseError Version
unfolding identifiers parse_core
parse [] = err (record { input = []; kind = empty })
parse (x ∷ s) =
    let input = x ∷ s in
    let (core, build) = split_once b'+' input in
    let (numeric, pre) = split_once b'-' core in
    parse_core input (identifiers pre) (identifiers build) (split b'.' numeric)

-- `Display`.
unfoldable pub suffix : ℕ → List Text → Text
suffix sep ids = if is_empty ids then [] else sep ∷ join (codes ".") ids

unfoldable pub display : Version → Text
unfolding suffix join
display v =
    join (codes ".") (show v.major ∷ show v.minor ∷ show v.patch ∷ [])
    ++ (suffix b'-' v.pre ++ suffix b'+' v.build)

-- `compare_pre_release_id`: a number is below any other identifier.
unfoldable pub compare_pre_release_id : Text → Text → Ordering
compare_pre_release_id a b = elim (to_option (parse_u64 a)) [
  | some an ↦ elim (to_option (parse_u64 b)) [ some bn ↦ compare an bn | none ↦ Ordering.lt ]
  | none ↦ elim (to_option (parse_u64 b)) [ some bn ↦ Ordering.gt | none ↦ text_cmp a b ]
]

-- The loop over the common length; behind it the lengths are compared.
unfoldable pub compare_pre_release : List Text → List Text → Ordering
unfolding compare_pre_release_id
compare_pre_release (x ∷ xs) (y ∷ ys) =
    then_cmp (compare_pre_release_id x y) (compare_pre_release xs ys)
compare_pre_release [] ys = compare 0 (length ys)
compare_pre_release (x ∷ xs) [] = compare (length (x ∷ xs)) 0

-- The order of a stable release and a pre-release.
unfoldable pub compare_pre : List Text → List Text → Ordering
unfolding compare_pre_release
compare_pre [] [] = Ordering.eq
compare_pre [] (y ∷ ys) = Ordering.gt
compare_pre (x ∷ xs) [] = Ordering.lt
compare_pre (x ∷ xs) (y ∷ ys) = compare_pre_release (x ∷ xs) (y ∷ ys)

unfoldable pub cmp : Version → Version → Ordering
unfolding compare_pre
cmp v w = then_cmp (compare v.major w.major) (
    then_cmp (compare v.minor w.minor)
      (then_cmp (compare v.patch w.patch) (compare_pre v.pre w.pre)))
