-- ===== src/Driver/Conflict/Reported.antt =====
-- What `check_install` of services/driverd/src/conflict.rs reports, and that it agrees with the
-- matching of services/driverd/src/matching.rs.
use mission_os.Base.{
  Ordering, List, [], ◌∷◌, ◌++◌, true, false, not, ◌&&◌, ◌||◌, ◌≡◌, refl, is_empty, arith,
  if◌then◌else◌,
}
use mission_os.Base.Text.{Text, to_lowercase}
use mission_os.Driver.Inventory.{DriverEntry, is_operational, HardwareDevice}
use mission_os.Driver.Inventory.Versions
use mission_os.Driver.Matching.{SystemInfo, check_kernel_compatibility, check_architecture_match}
use mission_os.Driver.Matching.Verdict.{kernel_refused}
use mission_os.Driver.Conflict.{
  ConflictResult, ConflictType, add, conflicting_with, no_conflicts, single, merge, check_kernel,
  check_architecture, check_duplicate, check_conflicting_modules, first_conflicting, check_hardware,
  check_install, check_update, check_remove, check_module_in_use, check_dependents,
}

hardware-none :
    (driver : DriverEntry) (hardware : List HardwareDevice)
    → check_hardware driver hardware ≡ no_conflicts
unfolding check_hardware
hardware-none driver hardware = ground arith

kernel-agrees :
    (system : SystemInfo) (driver : DriverEntry)
    → (check_kernel system driver).has_conflicts
      ≡ kernel_refused (check_kernel_compatibility system driver.id.kernel_compat)
unfolding check_kernel check_kernel_compatibility no_conflicts single
kernel-agrees system driver = ground arith

architecture-agrees :
    (system : SystemInfo) (driver : DriverEntry)
    → (check_architecture system driver).has_conflicts
      ≡ not (check_architecture_match system driver)
unfolding check_architecture check_architecture_match no_conflicts single
architecture-agrees system driver = ground arith

-- An installation has a conflict exactly if the matching refuses the kernel or the architecture, or
-- the driver is there already, or a module is loaded that does not go with it. The hardware never
-- makes a conflict.
pub check_install-has_conflicts :
    (system : SystemInfo) (driver : DriverEntry) (drivers : List DriverEntry) (loaded : List Text)
    (hardware : List HardwareDevice)
    → (check_install system driver drivers loaded hardware).has_conflicts ≡ (
        ((kernel_refused (check_kernel_compatibility system driver.id.kernel_compat)
            || not (check_architecture_match system driver))
          || (check_duplicate driver drivers).has_conflicts)
        || (check_conflicting_modules driver loaded).has_conflicts)
unfolding check_install no_conflicts
check_install-has_conflicts system driver drivers loaded hardware = ground (
  arith,
  kernel-agrees system driver,
  architecture-agrees system driver,
  hardware-none driver hardware,
)

-- A conflict is there exactly if one is listed.
pub record IsConsistent (r : ConflictResult) : Type 0 where
  pub agrees : r.has_conflicts ≡ not (is_empty r.conflicts)

append-is_empty {ℓ} :
    {A : Type ℓ} (xs ys : List A) → is_empty (xs ++ ys) ≡ (is_empty xs && is_empty ys)
append-is_empty [] ys = refl
append-is_empty (x ∷ xs) ys = refl

merge-IsConsistent :
    (r s : ConflictResult) → IsConsistent r → IsConsistent s → IsConsistent (merge r s)
unfolding merge
merge-IsConsistent r s hr hs =
    let left = hr.agrees in
    let right = hs.agrees in ground (arith, append-is_empty r.conflicts s.conflicts)

duplicate-IsConsistent :
    (driver : DriverEntry) (drivers : List DriverEntry)
    → IsConsistent (check_duplicate driver drivers)
unfolding check_duplicate no_conflicts single
duplicate-IsConsistent driver [] = record { agrees = refl }
duplicate-IsConsistent driver (d ∷ drivers) =
    let later = (duplicate-IsConsistent driver drivers).agrees in
    record { agrees = ground (arith, later) }

first-IsConsistent :
    (driver : DriverEntry) (conflicting modules : List Text)
    → IsConsistent (first_conflicting driver conflicting modules)
unfolding first_conflicting no_conflicts single
first-IsConsistent driver conflicting [] = record { agrees = refl }
first-IsConsistent driver conflicting (m ∷ modules) =
    let later = (first-IsConsistent driver conflicting modules).agrees in
    record { agrees = ground (arith, later) }

no_conflicts-IsConsistent : IsConsistent no_conflicts
unfolding no_conflicts
no_conflicts-IsConsistent = record { agrees = refl }

kernel-IsConsistent :
    (system : SystemInfo) (driver : DriverEntry) → IsConsistent (check_kernel system driver)
unfolding check_kernel no_conflicts single
kernel-IsConsistent system driver = record { agrees = ground arith }

architecture-IsConsistent :
    (system : SystemInfo) (driver : DriverEntry) → IsConsistent (check_architecture system driver)
unfolding check_architecture no_conflicts single
architecture-IsConsistent system driver = record { agrees = ground arith }

modules-IsConsistent :
    (driver : DriverEntry) (loaded : List Text)
    → IsConsistent (check_conflicting_modules driver loaded)
unfolding check_conflicting_modules no_conflicts
modules-IsConsistent driver loaded =
    let first =
      (first-IsConsistent driver (conflicting_with (to_lowercase driver.id.name)) loaded).agrees in
    record { agrees = ground (arith, first) }

hardware-IsConsistent :
    (driver : DriverEntry) (hardware : List HardwareDevice)
    → IsConsistent (check_hardware driver hardware)
hardware-IsConsistent driver hardware = rw (hardware-none driver hardware) no_conflicts-IsConsistent

module_in_use-IsConsistent :
    (driver : DriverEntry) (loaded : List Text) → IsConsistent (check_module_in_use driver loaded)
unfolding check_module_in_use no_conflicts single
module_in_use-IsConsistent driver loaded = record { agrees = ground arith }

dependents-IsConsistent :
    (driver : DriverEntry) (drivers : List DriverEntry)
    → IsConsistent (check_dependents driver drivers)
unfolding check_dependents no_conflicts single
dependents-IsConsistent driver drivers = record { agrees = ground arith }

install-IsConsistent :
    (system : SystemInfo) (driver : DriverEntry) (drivers : List DriverEntry) (loaded : List Text)
    (hardware : List HardwareDevice)
    → IsConsistent (check_install system driver drivers loaded hardware)
unfolding check_install
install-IsConsistent system driver drivers loaded hardware =
    let k =
      merge-IsConsistent no_conflicts _ no_conflicts-IsConsistent
        (kernel-IsConsistent system driver) in
    let a = merge-IsConsistent _ _ k (architecture-IsConsistent system driver) in
    let d = merge-IsConsistent _ _ a (duplicate-IsConsistent driver drivers) in
    let m = merge-IsConsistent _ _ d (modules-IsConsistent driver loaded) in
    merge-IsConsistent _ _ m (hardware-IsConsistent driver hardware)

remove-IsConsistent :
    (driver : DriverEntry) (drivers : List DriverEntry) (loaded : List Text)
    → IsConsistent (check_remove driver loaded drivers)
unfolding check_remove
remove-IsConsistent driver drivers loaded =
    let nothing = no_conflicts-IsConsistent in
    let used =
      merge-IsConsistent no_conflicts _ nothing (module_in_use-IsConsistent driver loaded) in
    merge-IsConsistent _ _
      (elim (is_operational driver.status)
        as (λ b.
          IsConsistent
            (if b then merge no_conflicts (check_module_in_use driver loaded) else no_conflicts)) [
              | true ↦ used
              | false ↦ nothing
            ])
      (dependents-IsConsistent driver drivers)

add-IsConsistent :
    (r : ConflictResult) (kind : ConflictType) (message details : Text)
    → IsConsistent (add r kind message details)
unfolding add
add-IsConsistent r kind message details = record {
  agrees = ground (
    arith,
    append-is_empty r.conflicts
        (record { conflict_type = kind; message = message; details = details } ∷ []),
  );
}

-- A conflict is added unless the current version is below the new one.
unless_below-IsConsistent :
    (o : Ordering) (r : ConflictResult) (kind : ConflictType) (message details : Text)
    → IsConsistent r
    → IsConsistent
        (elim o as (λ _. ConflictResult) [ Ordering.lt ↦ r | _ ↦ add r kind message details ])
unless_below-IsConsistent Ordering.lt r kind message details h = h
unless_below-IsConsistent Ordering.eq r kind message details h =
    add-IsConsistent r kind message details
unless_below-IsConsistent Ordering.gt r kind message details h =
    add-IsConsistent r kind message details

update-IsConsistent :
    (system : SystemInfo) (current new : DriverEntry) (drivers : List DriverEntry)
    (loaded : List Text) (hardware : List HardwareDevice)
    → IsConsistent (check_update system current new drivers loaded hardware)
unfolding check_update
update-IsConsistent system current new drivers loaded hardware =
    let merged =
      merge-IsConsistent no_conflicts _ no_conflicts-IsConsistent
        (install-IsConsistent system new drivers loaded hardware) in
    unless_below-IsConsistent (Versions.cmp current.id.version new.id.version) _ _ _ _ merged

-- The checks of an installation, of a removal and of an update say that there is a conflict exactly if
-- they list one.
pub checks-IsConsistent :
    (system : SystemInfo) (driver new : DriverEntry) (drivers : List DriverEntry)
    (loaded : List Text) (hardware : List HardwareDevice)
    → IsConsistent (check_install system driver drivers loaded hardware)
      × IsConsistent (check_remove driver loaded drivers)
      × IsConsistent (check_update system driver new drivers loaded hardware)
checks-IsConsistent system driver new drivers loaded hardware = (
  install-IsConsistent system driver drivers loaded hardware,
  remove-IsConsistent driver drivers loaded,
  update-IsConsistent system driver new drivers loaded hardware,
)
