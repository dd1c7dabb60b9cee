-- ===== src/Driver/Selector.antt =====
-- Driver selection: services/driverd/src/selector.rs. The map of verified manifests is an
-- association list, in which the first entry of a source counts; the architecture that the service
-- was built for, and the system that `SystemInfo::detect` finds, are fields of the selector.
pub mod Best
pub mod Trusted
pub mod Sound
use Prim.Native.Nat.Ordering.{gt}
use mission_os.Base.{
  ℕ, compare, Ordering, List, [], ◌∷◌, ◌++◌, Option, none, some, Bool, true, false, not, ◌&&◌, ◌||◌,
  any, keep, map, is_empty, ltb, if◌then◌else◌,
}
use mission_os.Base.Order.{swap, then_cmp, cmp_option}
use mission_os.Base.Text.{Text, codes, text_eq, text_cmp, eq_ignore_ascii_case, to_lowercase, join}
use mission_os.Driver.Inventory.{DriverEntry, HardwareDevice, KernelCompatibility}
use mission_os.Driver.Inventory.Versions
use mission_os.Driver.Inventory.Versions.{DriverVersion}
use mission_os.Driver.Kernel.{sys_parts, bound_parts, too_old}
use mission_os.Driver.Matching.{SystemInfo, evaluate_compatibility, max_refuses}
use mission_os.Driver.Metadata.{PackageMetadata, normalized_architecture}
use mission_os.Driver.Repository.{
  ManifestVerification, verified, unverified, invalid_signature, unknown_key,
}
use mission_os.Driver.Source.{SourceConfig, get_source, is_source_enabled, default_trusted}

pub record SelectionCandidate : Type 0 where
  pub driver : DriverEntry
  pub metadata : Option PackageMetadata
  pub source_id : Text
  pub score : ℕ
  pub trusted : Bool
  pub rejection_reason : Option Text

pub record SelectionResult : Type 0 where
  pub selected : Option SelectionCandidate
  pub candidates : List SelectionCandidate
  pub found_any : Bool

pub record DriverSelector : Type 0 where
  pub matcher : SystemInfo
  pub source_registry : List SourceConfig
  pub verified_manifests : List (Text × ManifestVerification)
  pub arch : Text
  pub detected : SystemInfo

unfoldable pub clear_manifest_verification : DriverSelector → Text → DriverSelector
clear_manifest_verification s source_id = record s {
  verified_manifests =
      keep (λ (e : Text × ManifestVerification). not (text_eq e.0 source_id)) s.verified_manifests;
}

unfoldable pub update_manifest_verification :
    DriverSelector → Text → ManifestVerification → DriverSelector
unfolding clear_manifest_verification
update_manifest_verification s source_id verification =
    let cleared = clear_manifest_verification s source_id in
    record cleared { verified_manifests = (source_id, verification) ∷ cleared.verified_manifests }

unfoldable pub clear_all_verifications : DriverSelector → DriverSelector
clear_all_verifications s = record s { verified_manifests = [] }

-- `verified_manifests.get`.
unfoldable pub get_manifest :
    List (Text × ManifestVerification) → Text → Option ManifestVerification
get_manifest [] source_id = none
get_manifest ((id, v) ∷ manifests) source_id =
    let rest = get_manifest manifests source_id in if text_eq id source_id then some v else rest

unfoldable pub manifest_trust_score : DriverSelector → Text → ℕ
unfolding get_manifest
manifest_trust_score s source_id = elim (get_manifest s.verified_manifests source_id) [
  | some v ↦ elim v [
    | verified key_id ↦ 2
    | unverified ↦ 1
    | invalid_signature msg ↦ 0
    | unknown_key msg ↦ 0
  ]
  | none ↦ 1
]

unfoldable pub source_priority : DriverSelector → Text → ℕ
source_priority s source_id = elim (get_source s.source_registry source_id) [
  | none ↦ 100
  | some source ↦ source.priority
]

-- The decision on a source that the registry holds.
unfoldable pub source_trusts : SourceConfig → Option Text → Bool
source_trusts source none = default_trusted source.source_type
source_trusts source (some key_id) =
    if is_empty source.trusted_key_ids
    then default_trusted source.source_type
    else any (λ k. text_eq k key_id) source.trusted_key_ids

unfoldable pub is_source_trusted : DriverSelector → Text → Option Text → Bool
unfolding source_trusts
is_source_trusted s source_id signing_key_id = elim (get_source s.source_registry source_id) [
  | none ↦ false
  | some source ↦ source_trusts source signing_key_id
]

unfoldable pub is_architecture_compatible : DriverSelector → PackageMetadata → Bool
unfolding normalized_architecture
is_architecture_compatible s pkg =
    let sys_arch = to_lowercase s.arch in
    let pkg_arch = normalized_architecture pkg in
    text_eq sys_arch pkg_arch
    || ((text_eq sys_arch (codes "x86_64") && text_eq pkg_arch (codes "amd64"))
        || ((text_eq sys_arch (codes "amd64") && text_eq pkg_arch (codes "x86_64"))
            || ((text_eq sys_arch (codes "aarch64") && text_eq pkg_arch (codes "arm64"))
                || (text_eq sys_arch (codes "arm64") && text_eq pkg_arch (codes "aarch64")))))

unfoldable pub is_kernel_compatible : DriverSelector → KernelCompatibility → Bool
unfolding max_refuses
is_kernel_compatible s compat =
    let sys = sys_parts s.detected.kernel_version in
    if is_empty sys
    then true
    else if too_old sys 0 (bound_parts compat.min_version)
    then false
    else not (max_refuses sys compat.max_version)

-- `metadata.as_ref().map(|m| &m.package_id.version)`.
unfoldable pub candidate_version : SelectionCandidate → Option DriverVersion
candidate_version c = elim c.metadata [ none ↦ none | some m ↦ some m.package_id.version ]

-- One comparison after the other, each where those before it find no difference.
unfoldable pub candidate_cmp : DriverSelector → SelectionCandidate → SelectionCandidate → Ordering
unfolding manifest_trust_score source_priority candidate_version
candidate_cmp s a b = then_cmp (compare (if a.trusted then 1 else 0) (if b.trusted then 1 else 0)) (
    then_cmp (compare (manifest_trust_score s a.source_id) (manifest_trust_score s b.source_id)) (
      then_cmp (compare a.score b.score) (
        then_cmp (swap (compare (source_priority s a.source_id) (source_priority s b.source_id))) (
          then_cmp (cmp_option Versions.cmp (candidate_version a) (candidate_version b))
            (text_cmp a.driver.id.name b.driver.id.name)))))

-- One step of `max_by`: of two that compare as equal, the later one.
unfoldable pub later_max :
    (SelectionCandidate → SelectionCandidate → Ordering)
    → SelectionCandidate
    → SelectionCandidate
    → SelectionCandidate
later_max cmp best c = elim (cmp best c) [ gt ↦ best | _ ↦ c ]

unfoldable pub max_by :
    (SelectionCandidate → SelectionCandidate → Ordering)
    → SelectionCandidate
    → List SelectionCandidate
    → SelectionCandidate
unfolding later_max
max_by cmp best [] = best
max_by cmp best (c ∷ candidates) = max_by cmp (later_max cmp best c) candidates

unfoldable pub is_qualified : SelectionCandidate → Bool
is_qualified c = elim c.rejection_reason [ none ↦ true | some reason ↦ false ]

unfoldable pub best_of : DriverSelector → List SelectionCandidate → Option SelectionCandidate
unfolding candidate_cmp max_by
best_of s [] = none
best_of s (c ∷ qualified) = some (max_by (candidate_cmp s) c qualified)

unfoldable pub select_best_candidate :
    DriverSelector → List SelectionCandidate → Option SelectionCandidate
unfolding best_of is_qualified
select_best_candidate s candidates = best_of s (keep is_qualified candidates)

-- A text where a check fails.
unfoldable pub reason : Bool → Text → List Text
reason true text = []
reason false text = text ∷ []

unfoldable pub package_reasons : DriverSelector → DriverEntry → PackageMetadata → List Text
unfolding reason is_architecture_compatible is_kernel_compatible is_source_trusted
package_reasons s driver pkg =
    reason (is_architecture_compatible s pkg) (
      codes "Architecture mismatch: driver requires '"
      ++ (driver.id.arch ++ (codes "', package is '" ++ (pkg.architecture ++ codes "'"))))
    ++ (reason (is_kernel_compatible s pkg.kernel_compat)
          (codes "Kernel incompatible with package requirements")
        ++ reason (is_source_trusted s pkg.source_id pkg.signing_key_id)
            (codes "Package source or signing key not trusted"))

unfoldable pub join_reasons : List Text → Option Text
join_reasons [] = none
join_reasons (r ∷ reasons) = some (join (codes "; ") (r ∷ reasons))

unfoldable pub package_candidate :
    DriverSelector → DriverEntry → ℕ → PackageMetadata → SelectionCandidate
unfolding package_reasons join_reasons is_source_trusted
package_candidate s driver score pkg = record {
  driver = driver;
  metadata = some pkg;
  source_id = pkg.source_id;
  score = score;
  trusted = is_source_trusted s pkg.source_id pkg.signing_key_id;
  rejection_reason = join_reasons (package_reasons s driver pkg);
}

unfoldable pub rejected : DriverEntry → ℕ → Text → SelectionCandidate
rejected driver score reason = record {
  driver = driver;
  metadata = none;
  source_id = [];
  score = score;
  trusted = false;
  rejection_reason = some reason;
}

unfoldable pub matching_packages :
    DriverSelector → DriverEntry → List PackageMetadata → List PackageMetadata
unfolding is_source_enabled
matching_packages s driver packages =
    keep
      (λ (p : PackageMetadata).
        eq_ignore_ascii_case p.package_id.driver_name driver.id.name
        && is_source_enabled s.source_registry p.source_id)
      packages

-- The candidates of one driver.
unfoldable pub driver_candidates :
    DriverSelector → HardwareDevice → List PackageMetadata → DriverEntry → List SelectionCandidate
unfolding rejected matching_packages package_candidate
driver_candidates s device packages driver =
    let compat = evaluate_compatibility s.matcher driver device in
    let found = matching_packages s driver packages in
    if not compat.compatible
    then rejected driver 0 compat.explanation ∷ []
    else if is_empty found
    then rejected driver compat.score (codes "No matching package found in enabled sources") ∷ []
    else map (package_candidate s driver compat.score) found

unfoldable pub all_candidates :
    DriverSelector
    → HardwareDevice
    → List PackageMetadata
    → List DriverEntry
    → List SelectionCandidate
unfolding driver_candidates
all_candidates s device packages [] = []
all_candidates s device packages (d ∷ drivers) =
    driver_candidates s device packages d ++ all_candidates s device packages drivers

unfoldable pub select_for_device :
    DriverSelector → HardwareDevice → List DriverEntry → List PackageMetadata → SelectionResult
unfolding all_candidates select_best_candidate
select_for_device s device drivers packages =
    let candidates = all_candidates s device packages drivers in
    record {
      selected = select_best_candidate s candidates;
      candidates = candidates;
      found_any = not (is_empty candidates);
    }
