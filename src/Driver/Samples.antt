-- ===== src/Driver/Samples.antt =====
-- A small system and a small inventory to run services/driverd on.
pub mod Sources
pub mod Store
pub mod Downloads
pub mod Devices
pub mod Caches
use mission_os.Base.{
  ◌∷◌, List, [], none, some, Bool, true, false, not, ◌&&◌, ◌||◌, ◌≡◌, refl, ◌↔◌, ◌⊎◌, any, is_empty,
  length, compare, Ordering, if◌then◌else◌,
}
use mission_os.Base.Results.{ok, err}
use mission_os.Base.Order.{swap, cmp_list}
use mission_os.Base.Text.{Text, codes, text_eq, starts_with}
use mission_os.Driver.Inventory.{
  pci, firmware, available, installed, removed, active, DriverEntry, HardwareDevice, InstallRequest,
  RemoveRequest, UpdateRequest, find_driver,
}
use mission_os.Driver.Inventory.Versions.{DriverVersion}
use mission_os.Driver.Inventory.Versions
use mission_os.Driver.Modalias.{modalias_pattern_match}
use mission_os.Driver.Modalias.Glob.{
  Glob, modalias_pattern_match-Glob, modalias_pattern_match-literal,
}
use mission_os.Driver.Kernel.{too_old, too_new}
use mission_os.Driver.Kernel.Range.{components, range_iff}
use mission_os.Driver.Matching.{
  SystemInfo, check_modalias_match, check_architecture_match, check_kernel_compatibility,
  evaluate_compatibility,
}
use mission_os.Driver.Matching.Verdict.{
  kernel_refused, IsScored, evaluate_compatibility-verdict, evaluate_compatibility-IsScored,
}
use mission_os.Driver.Conflict.{
  check_update, check_install, check_remove, check_duplicate, check_conflicting_modules,
}
use mission_os.Driver.Conflict.Reported.{
  IsConsistent, check_install-has_conflicts, checks-IsConsistent,
}
use mission_os.Driver.Matching.Ranking.{
  find_matching_drivers, IsRanking, find_matching_drivers-IsRanking,
}
use mission_os.Driver.Error.{ServiceError}
use mission_os.Driver.Kmod.{validate_module_name, load_module, unload_module}
use mission_os.Driver.Kmod.Names.{IsSafe, load_module-IsSafe}
use mission_os.Driver.System.{System}
use mission_os.Driver.World.{World}
use mission_os.Driver.Authz.{Authorizer, DriverAction, decision, is_authorized}
use mission_os.Driver.Authz.FailClosed.{IsPermitted, decision-IsPermitted}
use mission_os.Driver.Verification.{TrustedKey, SignatureVerifier, is_valid, check_package}
use mission_os.Driver.Verification.Trusted.{IsAcceptable, check_package-IsAcceptable}
use mission_os.Driver.Engine.{Engine}
use mission_os.Driver.Engine.Install.{install_driver}
use mission_os.Driver.Engine.Remove.{find_by_name, remove_driver}
use mission_os.Driver.Engine.Update.{update_driver}
use mission_os.Driver.Engine.Frame.{Refused}
use mission_os.Driver.Engine.Gates
use mission_os.Driver.Engine.Removal
use mission_os.Driver.Engine.Removal.Outcome.{remove_driver-Settles}
use mission_os.Driver.Engine.Upgrade
use mission_os.Driver.Engine.Upgrade.Outcome.{update_driver-Settles}
use mission_os.Driver.Engine.Settled.{Settles, install_driver-Settles}

-- The state is the list of the files that are there. A firmware file can be copied, and every module
-- can be loaded.
abbrev files : System
files = record {
  State = List Text;
  now = λ s. length s;
  exists = λ s path. any (text_eq path) s;
  read_file = λ s path. if any (text_eq path) s then ok path else err (codes "no such file");
  copy_file = λ s from to. (to ∷ s, ok tt);
  remove_file = λ s path. (s, err (codes "read-only file system"));
  create_parent = λ s path. s;
  init_module = λ s content. (s, 0);
  delete_module = λ s name force. (s, 16);
  module_available = λ s name. false;
  signature_valid = λ key content signature. text_eq key signature;
  debug = λ t. [];
  debug_path = λ t. t;
}

abbrev version_1 : DriverVersion
version_1 = record { major = 1; minor = 0; patch = 0; pre_release = none }

abbrev version_2 : DriverVersion
version_2 = record { major = 2; minor = 0; patch = 0; pre_release = none }

abbrev version_2_beta : DriverVersion
version_2_beta = record { major = 2; minor = 0; patch = 0; pre_release = some (codes "beta") }

abbrev wifi : DriverEntry
wifi = record {
  id = record {
    name = codes "wifi";
    provider = codes "mission";
    version = version_2;
    arch = codes "amd64";
    kernel_compat = record {
      min_version = codes "5.4";
      max_version = none;
      required_features = [];
    };
    module_type = firmware;
  };
  status = available;
  supported_hardware = codes "pci:v8086*" ∷ [];
  compatibility = none;
  sources = [];
  metadata = [];
  description = [];
  package_size_bytes = none;
}

abbrev card : HardwareDevice
card = record {
  hardware_id = record {
    modalias = codes "pci:v8086d10d3";
    vendor_id = codes "8086";
    device_id = codes "10d3";
    subsystem_vendor_id = none;
    subsystem_device_id = none;
    class_code = none;
    bus = codes "pci";
    current_driver = none;
  };
  device_name = codes "card";
  vendor_name = none;
  bus_type = pci;
  bound_driver = none;
  operational = false;
  matched_drivers = [];
}

abbrev machine : SystemInfo
machine = record {
  kernel_version = codes "6.1.0";
  architecture = codes "x86_64";
  kernel_features = [];
}

abbrev key : TrustedKey
key = record { id = codes "k1"; name = codes "key"; public_key = codes "s1"; enabled = true }

abbrev keys : SignatureVerifier
keys = record { keys = key ∷ []; allow_unsigned = false }

abbrev nobody : Authorizer
nobody = record { allow_unauthorized = false; polkit = none }

abbrev engine : Engine
engine = record {
  authorizer = record { allow_unauthorized = true; polkit = none };
  store_path = codes "/store";
  verifier = keys;
  system = machine;
  allow_unsigned = true;
}

abbrev world : World files
world = record {
  os = codes "/store/wifi" ∷ [];
  log = [];
  saved_states = [];
  sequence = 0;
  inventory = record { drivers = wifi ∷ []; devices = card ∷ []; last_scan_timestamp = 0 };
}

abbrev root : Text
root = codes "root"

abbrev install_wifi : InstallRequest
install_wifi = record {
  driver_name = codes "WiFi";
  provider = codes "mission";
  version_constraint = none;
  force = false;
}

abbrev remove_wifi : RemoveRequest
remove_wifi = record { driver_name = codes "wifi"; force = false }

abbrev downgrade_wifi : UpdateRequest
downgrade_wifi = record {
  driver_name = codes "wifi";
  target_version = some (codes "1.0.0");
  allow_downgrade = false;
}

install_driver-Settles_example :
    Settles world
      (λ driver. find_driver world.inventory (codes "WiFi") (codes "mission") ≡ some driver)
      installed
      (install_driver engine root install_wifi (card ∷ []) world)
install_driver-Settles_example =
    install_driver-Settles engine root install_wifi (card ∷ []) world refl

install_driver-gates_example :
    Refused world (install_driver engine root install_wifi (card ∷ []) world)
    ⊎ ((driver : DriverEntry) × Gates.IsInstallable engine root install_wifi
          (card ∷ [])
          world
          driver
        × Gates.Performs engine root world driver
            (install_driver engine root install_wifi (card ∷ []) world))
install_driver-gates_example = Gates.install_driver-gates engine root install_wifi (card ∷ []) world

remove_driver-Settles_example :
    Settles world
      (λ driver. find_by_name world.inventory (codes "wifi") ≡ some driver)
      removed
      (remove_driver engine root remove_wifi world)
remove_driver-Settles_example = remove_driver-Settles engine root remove_wifi world refl

remove_driver-gates_example :
    Refused world (remove_driver engine root remove_wifi world)
    ⊎ ((driver : DriverEntry) × Removal.IsRemovable engine root remove_wifi world driver
        × Removal.Performs engine root remove_wifi world driver
            (remove_driver engine root remove_wifi world))
remove_driver-gates_example = Removal.remove_driver-gates engine root remove_wifi world

update_driver-Settles_example :
    Settles world
      (λ driver. find_by_name world.inventory (codes "wifi") ≡ some driver)
      active
      (update_driver engine root downgrade_wifi world)
update_driver-Settles_example = update_driver-Settles engine root downgrade_wifi world refl

update_driver-gates_example :
    Refused world (update_driver engine root downgrade_wifi world)
    ⊎ ((driver : DriverEntry) × Upgrade.IsUpdatable engine root downgrade_wifi world driver
        × Upgrade.Performs engine root downgrade_wifi world driver
            (update_driver engine root downgrade_wifi world))
update_driver-gates_example = Upgrade.update_driver-gates engine root downgrade_wifi world

abbrev accepts : Text → Text → Text → Bool
accepts public_key content signature = text_eq public_key signature

check_package-IsAcceptable_example :
    (is_valid (check_package accepts keys (ok (codes "data")) (codes "s1") none).outcome ≡ true)
    ↔ IsAcceptable accepts keys (ok (codes "data")) (codes "s1")
check_package-IsAcceptable_example =
    check_package-IsAcceptable accepts keys (ok (codes "data")) (codes "s1") none

decision-IsPermitted_example :
    (is_authorized (decision nobody DriverAction.install_driver root) ≡ true)
    ↔ IsPermitted nobody DriverAction.install_driver root
decision-IsPermitted_example = decision-IsPermitted nobody DriverAction.install_driver root

evaluate_compatibility-verdict_example : (evaluate_compatibility machine wifi card).compatible ≡ (
    check_modalias_match wifi card
    && (check_architecture_match machine wifi
        && not (kernel_refused (check_kernel_compatibility machine wifi.id.kernel_compat))))
evaluate_compatibility-verdict_example = evaluate_compatibility-verdict machine wifi card

evaluate_compatibility-IsScored_example : IsScored (evaluate_compatibility machine wifi card)
evaluate_compatibility-IsScored_example = evaluate_compatibility-IsScored machine wifi card

modalias_pattern_match-Glob_example :
    (b : Bool) × (modalias_pattern_match (codes "pci:v8086*") (codes "pci:v8086d10d3") ≡ some b)
    × ((b ≡ true) ↔ Glob (codes "pci:v8086*") (codes "pci:v8086d10d3"))
modalias_pattern_match-Glob_example =
    modalias_pattern_match-Glob (codes "pci:v8086*") (codes "pci:v8086d10d3") refl

modalias_pattern_match-literal_example :
    modalias_pattern_match (codes "pci:v8086") (codes "pci:v8086d10d3")
    ≡ some (
        if is_empty (codes "pci:v8086")
        then is_empty (codes "pci:v8086d10d3")
        else starts_with (codes "pci:v8086d10d3") (codes "pci:v8086"))
modalias_pattern_match-literal_example =
    modalias_pattern_match-literal (codes "pci:v8086") (codes "pci:v8086d10d3") refl

check_install-has_conflicts_example :
    (check_install machine wifi (wifi ∷ []) [] (card ∷ [])).has_conflicts ≡ (
      ((kernel_refused (check_kernel_compatibility machine wifi.id.kernel_compat)
          || not (check_architecture_match machine wifi))
        || (check_duplicate wifi (wifi ∷ [])).has_conflicts)
      || (check_conflicting_modules wifi []).has_conflicts)
check_install-has_conflicts_example =
    check_install-has_conflicts machine wifi (wifi ∷ []) [] (card ∷ [])

checks-IsConsistent_example :
    IsConsistent (check_install machine wifi (wifi ∷ []) [] (card ∷ []))
    × IsConsistent (check_remove wifi [] (wifi ∷ []))
    × IsConsistent (check_update machine wifi wifi (wifi ∷ []) [] (card ∷ []))
checks-IsConsistent_example = checks-IsConsistent machine wifi wifi (wifi ∷ []) [] (card ∷ [])

range_iff_example :
    ((too_old (5 ∷ 3 ∷ []) 0 (5 ∷ 4 ∷ []) ≡ true)
      ↔ (cmp_list compare (components (5 ∷ 3 ∷ []) 0 2) (5 ∷ 4 ∷ []) ≡ Ordering.lt))
    × ((too_new (5 ∷ 3 ∷ []) 0 (5 ∷ 4 ∷ []) ≡ true)
        ↔ (cmp_list compare (components (5 ∷ 3 ∷ []) 0 2) (5 ∷ 4 ∷ []) ≡ Ordering.gt))
range_iff_example = range_iff (5 ∷ 3 ∷ []) 0 (5 ∷ 4 ∷ [])

beta_above_1 : Versions.cmp version_1 version_2_beta ≡ Ordering.lt
unfolding Versions.cmp
beta_above_1 = refl

beta_below_2 : Versions.cmp version_2_beta version_2 ≡ Ordering.lt
unfolding Versions.cmp
beta_below_2 = refl

load_module-IsSafe_example :
    IsSafe (codes "../evil")
    ⊎ ((x : ServiceError) × (load_module (codes "../evil") (codes "/store/wifi") world
          ≡ (world, err x))
        × (unload_module (codes "../evil") true world ≡ (world, err x)))
load_module-IsSafe_example = load_module-IsSafe (codes "../evil") (codes "/store/wifi") true world

find_matching_drivers-IsRanking_example :
    IsRanking machine card (wifi ∷ []) (find_matching_drivers machine card (wifi ∷ []))
find_matching_drivers-IsRanking_example = find_matching_drivers-IsRanking machine card (wifi ∷ [])
