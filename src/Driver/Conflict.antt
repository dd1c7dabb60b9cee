-- ===== src/Driver/Conflict.antt =====
-- `ConflictDetector` of services/driverd/src/conflict.rs, over the system information that it holds.
pub mod Reported
use mission_os.Base.{
  Ordering, List, [], ◌∷◌, ◌++◌, Option, none, some, Bool, true, false, not, ◌&&◌, ◌||◌, any, keep,
  map, is_empty, if◌then◌else◌,
}
use mission_os.Base.Text.{Text, codes, text_eq, to_lowercase, eq_ignore_ascii_case, contains, join}
use mission_os.Driver.Inventory.{
  KernelCompatibility, DriverEntry, HardwareDevice, DriverModuleType, kernel_module, firmware,
  userspace, device_tree_overlay, DriverStatus, is_operational, is_installed,
}
use mission_os.Driver.Inventory.Versions
use mission_os.Driver.Kernel.{sys_parts, bound_parts, too_old, too_new}
use mission_os.Driver.Matching.{
  SystemInfo, max_refuses, max_text, same_architecture, pattern_matches,
}

pub data ConflictType : Type 0 where
  incompatible_kernel unsupported_architecture conflicting_module duplicate_installation
        missing_dependency invalid_package invalid_signature hardware_incompatibility module_in_use
        unsupported_operation :
      ConflictType

pub record ConflictInfo : Type 0 where
  pub conflict_type : ConflictType
  pub message : Text
  pub details : Text

pub record ConflictResult : Type 0 where
  pub has_conflicts : Bool
  pub conflicts : List ConflictInfo

unfoldable pub no_conflicts : ConflictResult
no_conflicts = record { has_conflicts = false; conflicts = [] }

unfoldable pub single : ConflictType → Text → Text → ConflictResult
single kind message details = record {
  has_conflicts = true;
  conflicts = record { conflict_type = kind; message = message; details = details } ∷ [];
}

unfoldable pub merge : ConflictResult → ConflictResult → ConflictResult
merge result other =
    if other.has_conflicts
    then record { has_conflicts = true; conflicts = result.conflicts ++ other.conflicts }
    else result

unfoldable pub check_kernel : SystemInfo → DriverEntry → ConflictResult
unfolding max_refuses max_text single no_conflicts
check_kernel system driver =
    let compat = driver.id.kernel_compat in
    let sys = sys_parts system.kernel_version in
    if is_empty sys
    then no_conflicts
    else if too_old sys 0 (bound_parts compat.min_version)
    then single incompatible_kernel
        (codes "Kernel "
          ++ (system.kernel_version
              ++ (codes " is older than required minimum " ++ compat.min_version)))
        (codes "Minimum kernel version: "
          ++ (compat.min_version ++ (codes ", current: " ++ system.kernel_version)))
    else if max_refuses sys compat.max_version
    then single incompatible_kernel
        (codes "Kernel "
          ++ (system.kernel_version
              ++ (codes " is newer than required maximum " ++ max_text compat.max_version)))
        (codes "Maximum kernel version: "
          ++ (max_text compat.max_version ++ (codes ", current: " ++ system.kernel_version)))
    else no_conflicts

unfoldable pub check_architecture : SystemInfo → DriverEntry → ConflictResult
unfolding same_architecture single no_conflicts
check_architecture system driver =
    if not (same_architecture (to_lowercase system.architecture) (to_lowercase driver.id.arch))
    then single unsupported_architecture
        (codes "Driver architecture '"
          ++ (driver.id.arch
              ++ (codes "' does not match system '" ++ (system.architecture ++ codes "'"))))
        (codes "Required: " ++ (driver.id.arch ++ (codes ", system: " ++ system.architecture)))
    else no_conflicts

-- The loop stops at the first installed entry of that name and provider.
unfoldable pub check_duplicate : DriverEntry → List DriverEntry → ConflictResult
unfolding single no_conflicts
check_duplicate driver [] = no_conflicts
check_duplicate driver (existing ∷ drivers) =
    let later = check_duplicate driver drivers in
    if eq_ignore_ascii_case existing.id.name driver.id.name
      && (eq_ignore_ascii_case existing.id.provider driver.id.provider
          && (is_operational existing.status || is_installed existing.status))
    then (if Versions.version_eq existing.id.version driver.id.version
        then single duplicate_installation
            (codes "Driver '"
              ++ (driver.id.provider
                  ++ (codes "/" ++ (driver.id.name ++ codes "' is already installed"))))
            (codes "Current version: "
              ++ (Versions.display existing.id.version ++ codes ". Use update to upgrade."))
        else no_conflicts)
    else later

-- The table of modules that cannot be loaded together.
unfoldable pub conflicting_with : Text → List Text
conflicting_with name =
    if text_eq name (codes "nvidia")
    then codes "nouveau" ∷ []
    else if text_eq name (codes "nouveau")
    then codes "nvidia" ∷ []
    else if text_eq name (codes "iwlwifi")
    then codes "iwlegacy" ∷ []
    else []

unfoldable pub first_conflicting : DriverEntry → List Text → List Text → ConflictResult
unfolding single no_conflicts
first_conflicting driver conflicting [] = no_conflicts
first_conflicting driver conflicting (loaded ∷ modules) =
    let later = first_conflicting driver conflicting modules in
    if any (λ c. text_eq c (to_lowercase loaded)) conflicting
    then single conflicting_module
        (codes "Conflicting module '" ++ (loaded ++ codes "' is currently loaded"))
        (codes "Module '"
          ++ (loaded
              ++ (codes "' conflicts with '"
                  ++ (driver.id.name ++ codes "'. Unload the conflicting module first."))))
    else later

unfoldable pub is_kernel_module : DriverModuleType → Bool
is_kernel_module kernel_module = true
is_kernel_module _ = false

unfoldable pub check_conflicting_modules : DriverEntry → List Text → ConflictResult
unfolding first_conflicting conflicting_with is_kernel_module no_conflicts
check_conflicting_modules driver loaded_modules =
    if not (is_kernel_module driver.id.module_type)
    then no_conflicts
    else first_conflicting driver (conflicting_with (to_lowercase driver.id.name)) loaded_modules

-- Hardware that matches and hardware that does not are answered alike.
unfoldable pub check_hardware : DriverEntry → List HardwareDevice → ConflictResult
unfolding no_conflicts
check_hardware driver hardware =
    if any
      (λ (device : HardwareDevice).
        any (pattern_matches device.hardware_id.modalias) driver.supported_hardware)
      hardware
    then no_conflicts
    else no_conflicts

unfoldable pub check_module_in_use : DriverEntry → List Text → ConflictResult
unfolding is_kernel_module single no_conflicts
check_module_in_use driver loaded_modules =
    if not (is_kernel_module driver.id.module_type)
    then no_conflicts
    else if any (text_eq (to_lowercase driver.id.name)) loaded_modules
    then single module_in_use
        (codes "Module '" ++ (driver.id.name ++ codes "' is currently loaded and may be in use"))
        (codes
          "The kernel module is currently active. Ensure no processes are using it before removal, or use force flag to override.")
    else no_conflicts

unfoldable pub depends_on : Text → DriverEntry → Bool
depends_on driver_name d =
    not (text_eq (to_lowercase d.id.name) driver_name)
    && any (λ f. contains (to_lowercase f) driver_name) d.id.kernel_compat.required_features

unfoldable pub check_dependents : DriverEntry → List DriverEntry → ConflictResult
unfolding depends_on single no_conflicts
check_dependents driver inventory_drivers =
    let dependents = keep (depends_on (to_lowercase driver.id.name)) inventory_drivers in
    if not (is_empty dependents)
    then single conflicting_module
        (codes "Other drivers depend on '"
          ++ (driver.id.name
              ++ (codes "': "
                  ++ join (codes ", ") (map (λ (d : DriverEntry). d.id.name) dependents))))
        (codes "Remove dependent drivers first or expect breakage.")
    else no_conflicts

unfoldable pub check_install :
    SystemInfo → DriverEntry → List DriverEntry → List Text → List HardwareDevice → ConflictResult
unfolding merge no_conflicts
check_install system driver inventory_drivers loaded_modules hardware =
    merge
      (merge
        (merge
          (merge (merge no_conflicts (check_kernel system driver))
            (check_architecture system driver))
          (check_duplicate driver inventory_drivers))
        (check_conflicting_modules driver loaded_modules))
      (check_hardware driver hardware)

unfoldable pub check_remove : DriverEntry → List Text → List DriverEntry → ConflictResult
unfolding merge no_conflicts
check_remove driver loaded_modules inventory_drivers =
    merge
      (if is_operational driver.status
        then merge no_conflicts (check_module_in_use driver loaded_modules)
        else no_conflicts)
      (check_dependents driver inventory_drivers)

unfoldable pub add : ConflictResult → ConflictType → Text → Text → ConflictResult
add result kind message details = record {
  has_conflicts = true;
  conflicts =
      result.conflicts
      ++ record { conflict_type = kind; message = message; details = details } ∷ [];
}

-- The checks of an installation of the new version, and that it is above the current one.
unfoldable pub check_update :
    SystemInfo
    → DriverEntry
    → DriverEntry
    → List DriverEntry
    → List Text
    → List HardwareDevice
    → ConflictResult
unfolding merge no_conflicts add
check_update system current_driver new_driver inventory_drivers loaded_modules hardware =
    let result =
      merge no_conflicts
        (check_install system new_driver inventory_drivers loaded_modules hardware) in
    elim (Versions.cmp current_driver.id.version new_driver.id.version) [
      | Ordering.lt ↦ result
      | _ ↦ add result invalid_package (codes "Cannot downgrade driver") (
          codes "Current version "
          ++ (Versions.display current_driver.id.version
              ++ (codes " is newer than or equal to target version "
                  ++ Versions.display new_driver.id.version)))
    ]
