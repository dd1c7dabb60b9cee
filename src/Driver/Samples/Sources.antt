-- ===== src/Driver/Samples/Sources.antt =====
-- Sources, repositories and packages to run services/driverd on.
use mission_os.Base.{◌∷◌, ◌++◌, List, [], none, some, true, false, ◌≡◌, ◌↔◌, refl, inl, All, arith}
use mission_os.Base.Results.{ok}
use mission_os.Base.Text.{
  Text, codes, text_eq, trim, starts_with, contains, split, split_once, to_lowercase,
  eq_ignore_ascii_case,
}
use mission_os.Base.Decimal.{parse_u64}
use mission_os.Base.Hex.{IsByte, hex_byte}
use mission_os.Driver.Inventory.{firmware}
use mission_os.Driver.Inventory.Versions
use mission_os.Driver.Kernel.{sys_parts, too_old, bound_parts}
use mission_os.Driver.Modalias.{modalias_pattern_match}
use mission_os.Driver.Matching.{
  evaluate_compatibility, check_kernel_compatibility, check_architecture_match,
  check_modalias_match, check_kernel_features, check_vendor_device_match,
}
use mission_os.Driver.Score.{f64_add}
use mission_os.Driver.System.{System}
use mission_os.Driver.World.{World}
use mission_os.Driver.Source.{
  SourceConfig, mission, vendor, is_source_enabled, get_source, default_trusted, from_configs,
}
use mission_os.Driver.Source.Registry.{IsRegistry, from_configs-IsRegistry}
use mission_os.Driver.Metadata.{PackageDigest, PackageMetadata, matches, parse, to_string_full}
use mission_os.Driver.Metadata.Digest.{matches_iff, parse-to_string_full}
use mission_os.Driver.Repository.{
  RepositoryManifest, RepositoryPackageEntry, default_policy, unverified, verified,
  validate_manifest, check_freshness,
}
use mission_os.Driver.Repository.Manager.{verify_manifest}
use mission_os.Driver.Repository.Wellformed.{
  IsWellFormed, validate_manifest-IsWellFormed, IsFresh, check_freshness-IsFresh,
}
use mission_os.Driver.Repository.Trust.{IsAuthentic, verify_manifest-IsAuthentic}
use mission_os.Driver.Selector.{
  DriverSelector, SelectionCandidate, select_for_device, package_candidate,
}
use mission_os.Driver.Selector.Sound.{IsSound, select_for_device-IsSound}
use mission_os.Driver.Samples.{files, wifi, card, machine, version_2, world, root}

abbrev official : SourceConfig
official = record {
  id = codes "mission";
  name = codes "Mission OS";
  source_type = mission;
  base_url = codes "https://packages.mission-os.org";
  enabled = true;
  priority = 10;
  trusted_key_ids = [];
  allowed_architectures = codes "x86_64" ∷ [];
  mirrors = [];
  metadata_url = none;
  trust_config = none;
}

abbrev acme : SourceConfig
acme = record official {
  id = codes "acme";
  name = codes "Acme";
  source_type = vendor;
  priority = 20;
}

two_sources : from_configs (official ∷ acme ∷ []) ≡ ok (official ∷ acme ∷ [])
unfolding from_configs trim starts_with contains
two_sources = refl

from_configs-IsRegistry_example : IsRegistry (official ∷ acme ∷ []) (official ∷ acme ∷ [])
from_configs-IsRegistry_example =
    from_configs-IsRegistry (official ∷ acme ∷ []) (official ∷ acme ∷ []) two_sources

-- 32 bytes, and their digits.
abbrev bytes : Text
bytes =
    1 ∷ 2 ∷ 3 ∷ 4 ∷ 5 ∷ 6 ∷ 7 ∷ 8 ∷ 9 ∷ 10 ∷ 11 ∷ 12 ∷ 13 ∷ 14 ∷ 15 ∷ 16 ∷ 17 ∷ 18 ∷ 19 ∷ 20 ∷ 21
    ∷ 22 ∷ 23 ∷ 24 ∷ 25 ∷ 26 ∷ 27 ∷ 28 ∷ 29 ∷ 30 ∷ 31 ∷ 255 ∷ []

abbrev digits : Text
digits = codes "0102030405060708090a0b0c0d0e0f101112131415161718191a1b1c1d1e1fff"

abbrev digest : PackageDigest
digest = record { algorithm = codes "sha256"; value = bytes }

are_bytes : All IsByte bytes
are_bytes = omega arith

parse-to_string_full_example : parse (to_string_full digest) ≡ ok digest
parse-to_string_full_example =
    parse-to_string_full digest
      (record { is_known = inl refl; is_full = refl; are_bytes = are_bytes })

matches_iff_example : (matches digest (1 ∷ []) ≡ true) ↔ (digest.value ≡ 1 ∷ [])
matches_iff_example = matches_iff digest (1 ∷ [])

-- A signature is the key twice.
abbrev signed_files : System
signed_files = record files {
  signature_valid = λ key content signature. text_eq (key ++ key) signature;
}

abbrev signed_world : World signed_files
signed_world = record {
  os = world.os;
  log = [];
  saved_states = [];
  sequence = 0;
  inventory = world.inventory;
}

abbrev entry : RepositoryPackageEntry
entry = record {
  name = codes "wifi";
  version = codes "2.0.0";
  url = codes "https://packages.mission-os.org/wifi.ko";
  size = some 10;
  digest_algorithm = codes "SHA256";
  digest_value = digits;
  architecture = some (codes "amd64");
  kernel_compat = none;
  modalias_patterns = [];
  metadata_version = 1;
  channel = some (codes "stable");
}

abbrev manifest : RepositoryManifest
manifest = record {
  repository_id = codes "mission";
  manifest_version = 1;
  issued_at = 1;
  expires_at = 2;
  signing_key_id = codes "k1";
  packages = entry ∷ record entry { version = codes "1.9.0" } ∷ [];
  verification = unverified;
}

valid_manifest : validate_manifest manifest ≡ ok tt
unfolding validate_manifest trim Versions.parse split split_once parse_u64 contains to_lowercase
valid_manifest = refl

validate_manifest-IsWellFormed_example : IsWellFormed manifest
validate_manifest-IsWellFormed_example = validate_manifest-IsWellFormed manifest valid_manifest

check_freshness-IsFresh_example :
    (check_freshness 200 manifest default_policy ≡ ok tt) ↔ IsFresh 200 manifest default_policy
check_freshness-IsFresh_example = check_freshness-IsFresh 200 manifest default_policy (omega arith)

accepted_manifest :
    (verify_manifest default_policy
      (codes "{}")
      manifest
      (digits ++ digits)
      (digits ∷ [])
      root
      signed_world).1
    ≡ ok (ok (record manifest { verification = verified digits }))
unfolding verify_manifest trim Versions.parse split split_once parse_u64 contains to_lowercase
    hex_byte
accepted_manifest = refl

verify_manifest-IsAuthentic_example :
    IsAuthentic signed_files signed_world
      (verify_manifest default_policy
        (codes "{}")
        manifest
        (digits ++ digits)
        (digits ∷ [])
        root
        signed_world).0
      default_policy
      (codes "{}")
      manifest
      (record manifest { verification = verified digits })
      (digits ++ digits)
      (digits ∷ [])
verify_manifest-IsAuthentic_example =
    verify_manifest-IsAuthentic (codes "{}") manifest
      (record manifest { verification = verified digits }) (digits ++ digits) (digits ∷ []) root
      signed_world default_policy accepted_manifest

abbrev pkg : PackageMetadata
pkg = record {
  package_id = record {
    driver_name = codes "WiFi";
    source_id = codes "mission";
    version = version_2;
  };
  driver_name = codes "WiFi";
  description = [];
  module_type = firmware;
  architecture = codes "AMD64";
  kernel_compat = wifi.id.kernel_compat;
  filename = codes "wifi.ko";
  size_bytes = 10;
  digest = digest;
  signature_hex = [];
  signing_key_id = none;
  source_id = codes "mission";
  url_path = codes "/wifi.ko";
  is_delta = false;
  base_version = none;
}

abbrev selector : DriverSelector
selector = record {
  matcher = machine;
  source_registry = official ∷ acme ∷ [];
  verified_manifests = [];
  arch = codes "x86_64";
  detected = machine;
}

abbrev candidates : List SelectionCandidate
candidates = (select_for_device selector card (wifi ∷ []) (pkg ∷ [])).candidates

-- The source has two keys, and the package names the second of them.
abbrev keyed : DriverSelector
keyed = record selector {
  source_registry = record official { trusted_key_ids = codes "k0" ∷ codes "k1" ∷ [] } ∷ acme ∷ [];
}

abbrev signed_pkg : PackageMetadata
signed_pkg = record pkg { signing_key_id = some (codes "k1") }

abbrev foreign_pkg : PackageMetadata
foreign_pkg = record pkg { signing_key_id = some (codes "k9") }

abbrev choice : SelectionCandidate
choice = package_candidate keyed wifi (evaluate_compatibility machine wifi card).score signed_pkg

one_selected :
    (select_for_device keyed card (wifi ∷ []) (foreign_pkg ∷ signed_pkg ∷ [])).selected
    ≡ some choice
unfolding select_for_device package_candidate evaluate_compatibility check_kernel_compatibility
    sys_parts parse_u64 too_old bound_parts split check_architecture_match check_modalias_match
    to_lowercase eq_ignore_ascii_case modalias_pattern_match is_source_enabled check_kernel_features
    f64_add check_vendor_device_match contains get_source default_trusted
one_selected = refl

select_for_device-IsSound_example :
    IsSound keyed card (wifi ∷ []) (foreign_pkg ∷ signed_pkg ∷ []) choice
select_for_device-IsSound_example =
    select_for_device-IsSound keyed card (wifi ∷ []) (foreign_pkg ∷ signed_pkg ∷ []) choice
      one_selected
