-- ===== src/Driver/Matching.antt =====
-- `HardwareMatcher` of services/driverd/src/matching.rs. What `SystemInfo::detect` reads from the
-- running system is the `SystemInfo` that the functions take.
pub mod Verdict
pub mod Ranking
use mission_os.Base.{
  ℕ, List, [], ◌∷◌, ◌++◌, Option, none, some, Bool, true, false, not, ◌&&◌, ◌||◌, any, keep,
  is_empty, leb, ◌==◌, if◌then◌else◌,
}
use mission_os.Base.Text.{Text, codes, text_eq, to_lowercase, contains, join}
use mission_os.Driver.Inventory.{
  KernelCompatibility, CompatibilityInfo, incompatible, DriverEntry, HardwareDevice,
}
use mission_os.Driver.Kernel.{sys_parts, bound_parts, too_old, too_new}
use mission_os.Driver.Modalias.{modalias_pattern_match}
use mission_os.Driver.Score.{
  f64_add, one_point_zero, weight_modalias, weight_vendor, weight_kernel, weight_arch,
  weight_features, weight_features_unknown, show_score,
}

pub record SystemInfo : Type 0 where
  pub kernel_version : Text
  pub architecture : Text
  pub kernel_features : List Text

pub data KernelCheckResult : Type 0 where
  compatible unknown : KernelCheckResult
  incompatible_because : Text → KernelCheckResult

pub data FeatureCheckResult : Type 0 where
  all_present unknown : FeatureCheckResult
  missing : List Text → FeatureCheckResult

-- A panic would be no match; `modalias_pattern_match` has none.
unfoldable pub pattern_matches : Text → Text → Bool
pattern_matches modalias pattern = elim (modalias_pattern_match pattern modalias) [
  | none ↦ false
  | some b ↦ b
]

unfoldable pub check_modalias_match : DriverEntry → HardwareDevice → Bool
unfolding pattern_matches
check_modalias_match driver device =
    any (pattern_matches device.hardware_id.modalias) driver.supported_hardware

-- `trim_start_matches` of a prefix of two bytes, which is taken off as often as it stands there.
unfoldable pub trim_prefix : ℕ → ℕ → Text → Text
trim_prefix a b [] = []
trim_prefix a b (c ∷ []) = c ∷ []
trim_prefix a b (c ∷ d ∷ s) =
    let rest = trim_prefix a b s in if c == a && d == b then rest else c ∷ d ∷ s

unfoldable pub check_vendor_device_match : DriverEntry → HardwareDevice → Bool
unfolding trim_prefix
check_vendor_device_match driver device =
    let vendor = device.hardware_id.vendor_id in
    let device_id = device.hardware_id.device_id in
    any
      (λ pattern.
        (contains pattern (trim_prefix b'0' b'x' vendor)
          || contains pattern (trim_prefix b'0' b'X' vendor))
        && (contains pattern (trim_prefix b'0' b'x' device_id)
            || contains pattern (trim_prefix b'0' b'X' device_id)))
      driver.supported_hardware

-- Whether a bound refuses the kernel; no maximum refuses none.
unfoldable pub max_refuses : List ℕ → Option Text → Bool
max_refuses sys none = false
max_refuses sys (some max_version) = too_new sys 0 (bound_parts max_version)

unfoldable pub max_text : Option Text → Text
max_text none = []
max_text (some max_version) = max_version

unfoldable pub check_kernel_compatibility : SystemInfo → KernelCompatibility → KernelCheckResult
unfolding max_refuses max_text
check_kernel_compatibility system compat =
    let sys = sys_parts system.kernel_version in
    if is_empty sys
    then KernelCheckResult.unknown
    else if too_old sys 0 (bound_parts compat.min_version)
    then incompatible_because (
        codes "Kernel "
        ++ (system.kernel_version
            ++ (codes " is older than required minimum " ++ compat.min_version)))
    else if max_refuses sys compat.max_version
    then incompatible_because (
        codes "Kernel "
        ++ (system.kernel_version
            ++ (codes " is newer than required maximum " ++ max_text compat.max_version)))
    else compatible

-- Equal names, or two names of one architecture.
unfoldable pub same_architecture : Text → Text → Bool
same_architecture sys arch =
    text_eq sys arch
    || ((text_eq sys (codes "x86_64") && text_eq arch (codes "amd64"))
        || ((text_eq sys (codes "amd64") && text_eq arch (codes "x86_64"))
            || ((text_eq sys (codes "aarch64") && text_eq arch (codes "arm64"))
                || (text_eq sys (codes "arm64") && text_eq arch (codes "aarch64")))))

unfoldable pub check_architecture_match : SystemInfo → DriverEntry → Bool
unfolding same_architecture
check_architecture_match system driver =
    same_architecture (to_lowercase system.architecture) (to_lowercase driver.id.arch)

unfoldable pub check_kernel_features : SystemInfo → List Text → FeatureCheckResult
check_kernel_features system required =
    let absent = keep (λ feat. not (any (text_eq feat) system.kernel_features)) required in
    if is_empty required
    then all_present
    else if is_empty system.kernel_features
    then FeatureCheckResult.unknown
    else if is_empty absent
    then all_present
    else missing absent

-- The modalias and the vendor check: the score and the issues that they leave.
unfoldable pub identity_score : DriverEntry → HardwareDevice → ℕ
identity_score driver device =
    let total = if check_modalias_match driver device then f64_add 0 weight_modalias else 0 in
    if check_vendor_device_match driver device then f64_add total weight_vendor else total

unfoldable pub identity_issues : DriverEntry → HardwareDevice → List Text
identity_issues driver device =
    (if check_modalias_match driver device
      then []
      else codes "No modalias pattern matches this device" ∷ [])
    ++ (if check_vendor_device_match driver device
        then []
        else codes "No vendor/device ID match" ∷ [])

-- The result after the last check.
unfoldable pub conclude : DriverEntry → ℕ → List Text → CompatibilityInfo
conclude driver score issues = record {
  compatible = leb weight_modalias score;
  score = if leb score one_point_zero then score else one_point_zero;
  explanation =
      if leb weight_modalias score
      then codes "Driver '"
        ++ (driver.id.name
            ++ (codes "' is compatible with device (score: " ++ (show_score score ++ codes ")")))
      else codes "Driver '"
        ++ (driver.id.name
            ++ (codes "' is not compatible with device (score: "
                ++ (show_score score ++ (codes "): " ++ join (codes "; ") issues))));
  issues = issues;
  signature_verified = elim driver.compatibility [ none ↦ none | some c ↦ c.signature_verified ];
}

-- The last check: kernel features.
unfoldable pub with_features : DriverEntry → ℕ → List Text → FeatureCheckResult → CompatibilityInfo
unfolding conclude
with_features driver total issues all_present =
    conclude driver (f64_add total weight_features) issues
with_features driver total issues FeatureCheckResult.unknown =
    conclude driver (f64_add total weight_features_unknown) issues
with_features driver total issues (missing features) =
    conclude driver total (
      issues ++ (codes "Required kernel features not enabled: " ++ join (codes ", ") features) ∷ [])

-- The architecture check, a hard failure, and what follows.
unfoldable pub add_architecture : SystemInfo → DriverEntry → ℕ → List Text → CompatibilityInfo
unfolding with_features incompatible
add_architecture system driver total issues =
    if check_architecture_match system driver
    then with_features driver (f64_add total weight_arch) issues
        (check_kernel_features system driver.id.kernel_compat.required_features)
    else incompatible
        (codes "Architecture mismatch: driver requires '"
          ++ (driver.id.arch ++ (codes "', system is '" ++ (system.architecture ++ codes "'"))))
        (issues
          ++ (codes "Driver architecture '"
              ++ (driver.id.arch
                  ++ (codes "' does not match system '" ++ (system.architecture ++ codes "'"))))
            ∷ [])

-- The dash of this message is no ASCII character, and has three bytes.
abbrev pub kernel_unknown : Text
kernel_unknown =
    codes "Kernel compatibility unknown "
    ++ (0xe2 ∷ 0x80 ∷ 0x94 ∷ codes " assuming partial compatibility")

-- The kernel check, a hard failure too, and what follows.
unfoldable pub with_kernel :
    SystemInfo → DriverEntry → ℕ → List Text → KernelCheckResult → CompatibilityInfo
unfolding add_architecture incompatible
with_kernel system driver total issues compatible =
    add_architecture system driver (f64_add total weight_kernel) issues
with_kernel system driver total issues (incompatible_because reason) =
    incompatible
      (codes "Kernel "
        ++ (system.kernel_version
            ++ (codes " is incompatible with driver '" ++ (driver.id.name ++ codes "'"))))
      (reason ∷ [])
with_kernel system driver total issues KernelCheckResult.unknown =
    add_architecture system driver (f64_add total weight_features) (issues ++ kernel_unknown ∷ [])

unfoldable pub evaluate_compatibility :
    SystemInfo → DriverEntry → HardwareDevice → CompatibilityInfo
unfolding with_kernel identity_score identity_issues
evaluate_compatibility system driver device =
    with_kernel system driver (identity_score driver device) (identity_issues driver device)
      (check_kernel_compatibility system driver.id.kernel_compat)
