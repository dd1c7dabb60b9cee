-- ===== src/Driver/Matching/Verdict.antt =====
-- What `evaluate_compatibility` decides.
use mission_os.Base.{
  ℕ, ◌≤◌, List, Bool, true, false, not, ◌&&◌, ◌++◌, [], ◌∷◌, ◌≡◌, refl, arith, leb, if◌then◌else◌,
}
use mission_os.Base.Text.{Text}
use mission_os.Driver.Inventory.{CompatibilityInfo, incompatible, DriverEntry, HardwareDevice}
use mission_os.Driver.Score.{
  f64_add, one_point_zero, weight_modalias, weight_vendor, weight_kernel, weight_arch,
  weight_features, weight_features_unknown,
}
use mission_os.Driver.Matching.{
  SystemInfo, KernelCheckResult, compatible, incompatible_because, FeatureCheckResult, all_present,
  missing, check_modalias_match, check_vendor_device_match, check_kernel_compatibility,
  check_architecture_match, check_kernel_features, identity_score, identity_issues, conclude,
  with_features, kernel_unknown, with_kernel, add_architecture, evaluate_compatibility,
}

abbrev pub kernel_refused : KernelCheckResult → Bool
kernel_refused compatible = false
kernel_refused KernelCheckResult.unknown = false
kernel_refused (incompatible_because reason) = true

-- The score as the checks before the features leave it.
abbrev base_score : Bool → Bool → ℕ
base_score modalias vendor =
    let total = if modalias then f64_add 0 weight_modalias else 0 in
    if vendor then f64_add total weight_vendor else total

abbrev known_score : Bool → Bool → Bool → ℕ
known_score modalias vendor known =
    f64_add
      (f64_add (base_score modalias vendor) (if known then weight_kernel else weight_features))
      weight_arch

-- Without a match of the modalias no sum of the other weights reaches one half, and with one every
-- sum does; none passes 1.
scores :
    (vendor known : Bool)
    → (leb weight_modalias (known_score true vendor known) ≡ true)
      × (leb weight_modalias (f64_add (known_score true vendor known) weight_features) ≡ true)
      × (leb weight_modalias (f64_add (known_score true vendor known) weight_features_unknown)
          ≡ true)
      × (leb weight_modalias (known_score false vendor known) ≡ false)
      × (leb weight_modalias (f64_add (known_score false vendor known) weight_features) ≡ false)
      × (leb weight_modalias (f64_add (known_score false vendor known) weight_features_unknown)
          ≡ false)
unfolding f64_add
scores true true = (refl, refl, refl, refl, refl, refl)
scores true false = (refl, refl, refl, refl, refl, refl)
scores false true = (refl, refl, refl, refl, refl, refl)
scores false false = (refl, refl, refl, refl, refl, refl)

features-verdict :
    (driver : DriverEntry) (m v k : Bool) (issues : List Text) (r : FeatureCheckResult)
    → (with_features driver (known_score m v k) issues r).compatible ≡ m
unfolding with_features
features-verdict driver true v k issues all_present = ground (arith, scores v k)
features-verdict driver true v k issues _ = ground (arith, scores v k)
features-verdict driver false v k issues all_present = ground (arith, scores v k)
features-verdict driver false v k issues _ = ground (arith, scores v k)

architecture-verdict :
    (system : SystemInfo) (driver : DriverEntry) (m v k : Bool) (issues : List Text)
    → (add_architecture system driver
        (f64_add (base_score m v) (if k then weight_kernel else weight_features))
        issues).compatible
      ≡ (m && check_architecture_match system driver)
unfolding add_architecture incompatible
architecture-verdict system driver m v k issues = ground (
  arith,
  features-verdict driver m v k issues
      (check_kernel_features system driver.id.kernel_compat.required_features),
)

kernel-verdict :
    (system : SystemInfo) (driver : DriverEntry) (m v : Bool) (issues : List Text)
    (r : KernelCheckResult)
    → (with_kernel system driver (base_score m v) issues r).compatible
      ≡ (m && (check_architecture_match system driver && not (kernel_refused r)))
unfolding with_kernel incompatible
kernel-verdict system driver m v issues compatible =
    ground (arith, architecture-verdict system driver m v true issues)
kernel-verdict system driver m v issues KernelCheckResult.unknown =
    ground (arith, architecture-verdict system driver m v false (issues ++ kernel_unknown ∷ []))
kernel-verdict system driver m v issues (incompatible_because reason) = ground arith

-- A driver is held to be compatible with a device exactly when a pattern matches the modalias, the
-- architecture fits and the kernel is not refused: neither the vendor and device identifiers nor
-- the kernel features decide, alone or together.
pub evaluate_compatibility-verdict :
    (system : SystemInfo) (driver : DriverEntry) (device : HardwareDevice)
    → (evaluate_compatibility system driver device).compatible ≡ (
        check_modalias_match driver device
        && (check_architecture_match system driver
            && not (kernel_refused (check_kernel_compatibility system driver.id.kernel_compat))))
unfolding evaluate_compatibility identity_score
evaluate_compatibility-verdict system driver device =
    kernel-verdict system driver (check_modalias_match driver device)
      (check_vendor_device_match driver device) (identity_issues driver device)
      (check_kernel_compatibility system driver.id.kernel_compat)

-- A score in range, that agrees with the verdict.
pub record IsScored (info : CompatibilityInfo) : Type 0 where
  pub in_range : info.score ≤ one_point_zero
  pub agrees : info.compatible ≡ leb weight_modalias info.score

conclude-IsScored :
    (driver : DriverEntry) (score : ℕ) (issues : List Text)
    → IsScored (conclude driver score issues)
unfolding conclude
conclude-IsScored driver score issues = ground arith

incompatible-IsScored : (why : Text) (issues : List Text) → IsScored (incompatible why issues)
unfolding incompatible
incompatible-IsScored why issues = ground arith

features-IsScored :
    (driver : DriverEntry) (total : ℕ) (issues : List Text) (r : FeatureCheckResult)
    → IsScored (with_features driver total issues r)
unfolding with_features
features-IsScored driver total issues all_present = conclude-IsScored driver _ issues
features-IsScored driver total issues FeatureCheckResult.unknown = conclude-IsScored driver _ issues
features-IsScored driver total issues (missing l) = conclude-IsScored driver total _

IsScored-if :
    (b : Bool) {x y : CompatibilityInfo} → IsScored x → IsScored y → IsScored (if b then x else y)
IsScored-if true hx hy = hx
IsScored-if false hx hy = hy

architecture-IsScored :
    (system : SystemInfo) (driver : DriverEntry) (total : ℕ) (issues : List Text)
    → IsScored (add_architecture system driver total issues)
unfolding add_architecture
architecture-IsScored system driver total issues =
    search (IsScored-if, features-IsScored, incompatible-IsScored)

kernel-IsScored :
    (system : SystemInfo) (driver : DriverEntry) (total : ℕ) (issues : List Text)
    (r : KernelCheckResult)
    → IsScored (with_kernel system driver total issues r)
unfolding with_kernel
kernel-IsScored system driver total issues compatible = architecture-IsScored system driver _ issues
kernel-IsScored system driver total issues KernelCheckResult.unknown =
    architecture-IsScored system driver _ _
kernel-IsScored system driver total issues (incompatible_because reason) = incompatible-IsScored _ _

-- The score that is reported lies between 0 and 1, and a driver is held to be compatible exactly
-- when it is at least one half.
pub evaluate_compatibility-IsScored :
    (system : SystemInfo) (driver : DriverEntry) (device : HardwareDevice)
    → IsScored (evaluate_compatibility system driver device)
unfolding evaluate_compatibility
evaluate_compatibility-IsScored system driver device =
    kernel-IsScored system driver (identity_score driver device) (identity_issues driver device)
      (check_kernel_compatibility system driver.id.kernel_compat)
