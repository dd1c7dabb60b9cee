-- ===== src/Driver/Inventory/Versions.antt =====
-- `DriverVersion` of services/driverd/src/inventory.rs: parsing, validation, print and order.
pub mod Order
use mission_os.Base.{
  ℕ, Ordering, compare, List, [], ◌∷◌, ◌++◌, Option, none, some, Bool, true, false, ◌||◌, ◌&&◌, any,
  is_empty, ◌==◌, if◌then◌else◌,
}
use mission_os.Base.Results.{Result, ok, err, ◌>>=◌, map_err}
use mission_os.Base.Order.{then_cmp, cmp_option}
use mission_os.Base.Text.{Text, codes, split, split_once, trim, text_cmp, text_eq}
use mission_os.Base.Decimal.{parse_u64, int_error_text, show}
use mission_os.Driver.Error.{ServiceError, invalid_argument, ServiceResult}

pub record DriverVersion : Type 0 where
  pub major : ℕ
  pub minor : ℕ
  pub patch : ℕ
  pub pre_release : Option Text

-- What stands behind the dash, if it is not empty.
unfoldable pub pre_release_of : Option Text → Option Text
pre_release_of none = none
pre_release_of (some []) = none
pre_release_of (some (c ∷ s)) = some (c ∷ s)

-- The first three components; any further ones are not read.
unfoldable pub parse_numbers : Text → Option Text → List Text → ServiceResult DriverVersion
parse_numbers input pre (a ∷ b ∷ c ∷ rest) = do
  major ←
      map_err (λ e. invalid_argument (codes "invalid major version: " ++ int_error_text e))
        (parse_u64 a)
  minor ←
      map_err (λ e. invalid_argument (codes "invalid minor version: " ++ int_error_text e))
        (parse_u64 b)
  patch ←
      map_err (λ e. invalid_argument (codes "invalid patch version: " ++ int_error_text e))
        (parse_u64 c)
  ok (record { major = major; minor = minor; patch = patch; pre_release = pre })
parse_numbers input pre _ =
    err (invalid_argument (codes "version must have at least 3 components: " ++ input))

unfoldable pub parse_trimmed : Text → ServiceResult DriverVersion
unfolding parse_numbers pre_release_of
parse_trimmed input =
    let (numeric_part, pre) = split_once b'-' input in
    if is_empty input
    then err (invalid_argument (codes "version string must not be empty"))
    else parse_numbers input (pre_release_of pre) (split b'.' numeric_part)

unfoldable pub parse : Text → ServiceResult DriverVersion
unfolding parse_trimmed
parse input = parse_trimmed (trim input)

-- `/`, `\`, `;` and `|`.
unfoldable pub validate : DriverVersion → ServiceResult (Unit {0})
validate v = elim v.pre_release [
  | none ↦ ok tt
  | some pre ↦
      (if any (λ c. c == b'/' || (c == 92 || (c == b';' || c == b'|'))) pre
        then err (invalid_argument (codes "pre-release contains invalid characters"))
        else ok tt)
]

unfoldable pub show_pre : Option Text → Text
show_pre none = []
show_pre (some pre) = codes "-" ++ pre

unfoldable pub display : DriverVersion → Text
unfolding show_pre
display v =
    show v.major
    ++ (codes "." ++ (show v.minor ++ (codes "." ++ (show v.patch ++ show_pre v.pre_release))))

-- No pre-release is above every pre-release.
unfoldable pub cmp_pre : Option Text → Option Text → Ordering
cmp_pre none none = Ordering.eq
cmp_pre none (some b) = Ordering.gt
cmp_pre (some a) none = Ordering.lt
cmp_pre (some a) (some b) = text_cmp a b

unfoldable pub cmp : DriverVersion → DriverVersion → Ordering
unfolding cmp_pre
cmp v w = then_cmp (compare v.major w.major) (
    then_cmp (compare v.minor w.minor)
      (then_cmp (compare v.patch w.patch) (cmp_pre v.pre_release w.pre_release)))

-- The derived `==`.
unfoldable pub option_text_eq : Option Text → Option Text → Bool
option_text_eq none none = true
option_text_eq none (some b) = false
option_text_eq (some a) none = false
option_text_eq (some a) (some b) = text_eq a b

unfoldable pub version_eq : DriverVersion → DriverVersion → Bool
unfolding option_text_eq
version_eq v w =
    v.major == w.major
    && (v.minor == w.minor && (v.patch == w.patch && option_text_eq v.pre_release w.pre_release))
