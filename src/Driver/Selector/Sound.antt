-- ===== src/Driver/Selector/Sound.antt =====
-- What `select_for_device` of services/driverd/src/selector.rs may select.
use mission_os.Base.{
  ℕ, List, [], ◌∷◌, some, true, ◌&&◌, ◌≡◌, refl, subst, inl, inr, IsIn, All, All-IsIn, All-append,
  keep-IsIn, map, is_empty, arith, Bool-cases,
}
use mission_os.Base.Text.{eq_ignore_ascii_case}
use mission_os.Driver.Inventory.{DriverEntry, HardwareDevice}
use mission_os.Driver.Matching.{evaluate_compatibility}
use mission_os.Driver.Metadata.{PackageMetadata}
use mission_os.Driver.Source.{is_source_enabled}
use mission_os.Driver.Selector.{
  DriverSelector, SelectionCandidate, is_source_trusted, is_architecture_compatible,
  is_kernel_compatible, is_qualified, reason, package_reasons, join_reasons, package_candidate,
  rejected, matching_packages, driver_candidates, all_candidates, select_for_device,
}
use mission_os.Driver.Selector.Trusted.{IsTrusted, is_source_trusted-IsTrusted}
use mission_os.Driver.Selector.Best.{IsSelection, select_best_candidate-IsSelection}

-- A listed driver that is compatible with the device, and a listed package of that name from an
-- enabled source, which is trusted, and fits the architecture and the kernel.
pub record IsSound (s : DriverSelector) (device : HardwareDevice) (drivers : List DriverEntry)
    (packages : List PackageMetadata) (c : SelectionCandidate) : Type 0 where
  pub has_driver : IsIn c.driver drivers
  pub is_compatible : (evaluate_compatibility s.matcher c.driver device).compatible ≡ true
  pub pkg : PackageMetadata
  pub is_pkg : c.metadata ≡ some pkg
  pub has_package : IsIn pkg packages
  pub is_named : eq_ignore_ascii_case pkg.package_id.driver_name c.driver.id.name ≡ true
  pub is_enabled : is_source_enabled s.source_registry pkg.source_id ≡ true
  pub is_trusted : IsTrusted s pkg.source_id pkg.signing_key_id
  pub has_architecture : is_architecture_compatible s pkg ≡ true
  pub has_kernel : is_kernel_compatible s pkg.kernel_compat ≡ true

module _ (s : DriverSelector) (device : HardwareDevice) (packages : List PackageMetadata) where
  qualified-checks :
      (driver : DriverEntry) (score : ℕ) (pkg : PackageMetadata)
      → is_qualified (package_candidate s driver score pkg) ≡ true
      → (is_source_trusted s pkg.source_id pkg.signing_key_id ≡ true)
        × (is_architecture_compatible s pkg ≡ true)
        × (is_kernel_compatible s pkg.kernel_compat ≡ true)
  unfolding is_qualified package_candidate package_reasons reason join_reasons
  qualified-checks driver score pkg h = elim (Bool-cases (is_architecture_compatible s pkg)) [
    | inr a ↦ absurd (ground arith)
    | inl a ↦ elim (Bool-cases (is_kernel_compatible s pkg.kernel_compat)) [
      | inr k ↦ absurd (ground arith)
      | inl k ↦ elim (Bool-cases (is_source_trusted s pkg.source_id pkg.signing_key_id)) [
        | inr t ↦ absurd (ground arith)
        | inl t ↦ (t, a, k)
      ]
    ]
  ]

  package-IsSound :
      (drivers : List DriverEntry) (driver : DriverEntry) (score : ℕ) (pkg : PackageMetadata)
      → IsIn driver drivers
      → (evaluate_compatibility s.matcher driver device).compatible ≡ true
      → IsIn pkg (matching_packages s driver packages)
      → is_qualified (package_candidate s driver score pkg) ≡ true
      → IsSound s device drivers packages (package_candidate s driver score pkg)
  unfolding matching_packages package_candidate
  package-IsSound drivers driver score pkg listed compatible found h =
      let (trusted, arch, kernel) = qualified-checks driver score pkg h in
      let (is_there, both) =
        keep-IsIn
          (λ (p : PackageMetadata).
            eq_ignore_ascii_case p.package_id.driver_name driver.id.name
            && is_source_enabled s.source_registry p.source_id)
          pkg packages found in
      record {
        has_driver = listed;
        is_compatible = compatible;
        pkg = pkg;
        is_pkg = refl;
        has_package = is_there;
        is_named = ground (arith, both);
        is_enabled = ground (arith, both);
        is_trusted = is_source_trusted-IsTrusted s pkg.source_id pkg.signing_key_id trusted;
        has_architecture = arch;
        has_kernel = kernel;
      }

  map-All :
      (drivers : List DriverEntry) (driver : DriverEntry) (score : ℕ) (ps : List PackageMetadata)
      → IsIn driver drivers
      → (evaluate_compatibility s.matcher driver device).compatible ≡ true
      → ((pkg : PackageMetadata) → IsIn pkg ps → IsIn pkg (matching_packages s driver packages))
      → All
          (λ c. is_qualified c ≡ true → IsSound s device drivers packages c)
          (map (package_candidate s driver score) ps)
  map-All drivers driver score [] listed compatible found = tt
  map-All drivers driver score (p ∷ ps) listed compatible found = (
    package-IsSound drivers driver score p listed compatible (found p (inl refl)),
    map-All drivers driver score ps listed compatible (λ pkg i. found pkg (inr i)),
  )

  driver-All :
      (drivers : List DriverEntry) (driver : DriverEntry)
      → IsIn driver drivers
      → All
          (λ c. is_qualified c ≡ true → IsSound s device drivers packages c)
          (driver_candidates s device packages driver)
  unfolding driver_candidates rejected is_qualified
  driver-All drivers driver listed =
      let compat = evaluate_compatibility s.matcher driver device in
      elim (Bool-cases compat.compatible) [
        | inr k ↦ rw (k, driver_candidates) ((λ q. cc), tt)
        | inl k ↦ elim (Bool-cases (is_empty (matching_packages s driver packages))) [
          | inl e ↦ rw (k, e, driver_candidates) ((λ q. cc), tt)
          | inr e ↦
              rw (k, e, driver_candidates)
                (map-All drivers driver compat.score (matching_packages s driver packages) listed k
                  (λ pkg i. i))
        ]
      ]

  candidates-All :
      (drivers some_drivers : List DriverEntry)
      → ((d : DriverEntry) → IsIn d some_drivers → IsIn d drivers)
      → All
          (λ c. is_qualified c ≡ true → IsSound s device drivers packages c)
          (all_candidates s device packages some_drivers)
  unfolding all_candidates
  candidates-All drivers [] listed = tt
  candidates-All drivers (d ∷ ds) listed =
      All-append (λ c. is_qualified c ≡ true → IsSound s device drivers packages c)
        (driver_candidates s device packages d) (all_candidates s device packages ds)
        (driver-All drivers d (listed d (inl refl)))
        (candidates-All drivers ds (λ e i. listed e (inr i)))

-- What is selected for a device is a listed driver that is compatible with it, with a listed package
-- of its name that fits the architecture and the kernel. Its source is enabled; if the source has keys
-- and the package names its key, that key is one of them; if the source has no keys or the package
-- names none, the source is of the repository or of the kernel, and no key is asked for.
pub select_for_device-IsSound :
    (s : DriverSelector) (device : HardwareDevice) (drivers : List DriverEntry)
    (packages : List PackageMetadata) (c : SelectionCandidate)
    → (select_for_device s device drivers packages).selected ≡ some c
    → IsSound s device drivers packages c
unfolding select_for_device
select_for_device-IsSound s device drivers packages c h =
    let candidates = all_candidates s device packages drivers in
    let best =
      subst (IsSelection s candidates) h (select_best_candidate-IsSelection s candidates) in
    All-IsIn (λ c. is_qualified c ≡ true → IsSound s device drivers packages c) c candidates
      (candidates-All s device packages drivers drivers (λ d i. i)) best.is_listed best.is_accepted
