-- ===== src/Driver/Scanner.antt =====
-- `InventoryScanner` of services/driverd/src/inventory.rs. Its inventory is the one of the world,
-- and the running system a parameter.
use mission_os.Base.{List, [], ◌∷◌, Option, none, some, Bool, true, any, if◌then◌else◌}
use mission_os.Base.Results.{Result, ok, err}
use mission_os.Base.Text.{Text, codes, text_eq}
use mission_os.Base.{◌++◌}
use mission_os.Driver.Error.{ServiceResult, not_found}
use mission_os.Driver.Inventory.{
  DriverEntry, DriverInventory, HardwareDevice, CompatibilityInfo, incompatible, kernel_module,
  find_driver, linux, vendor, available, active,
}
use mission_os.Driver.Matching.{SystemInfo, evaluate_compatibility}
use mission_os.Driver.Matching.Ranking.{find_matching_drivers}
use mission_os.Driver.Score.{one_point_zero}
use mission_os.Driver.System.{System}
use mission_os.Driver.World.{World}
use mission_os.Driver.Kmod.{ModuleInfo, list_modules}
use mission_os.Driver.Hwdetect.{Sysfs, enumerate_all}
use mission_os.Driver.Repository.{Panic}

-- `CompatibilityInfo::compatible`, `with_signature` included.
unfoldable pub compatible_with : Text → Option Bool → CompatibilityInfo
compatible_with explanation signature_verified = record {
  compatible = true;
  score = one_point_zero;
  explanation = explanation;
  issues = [];
  signature_verified = signature_verified;
}

-- What the two entries of the kernel share.
unfoldable pub in_tree : Text → List Text → Text → Bool → DriverEntry
unfolding compatible_with
in_tree name required_features description is_loaded = record {
  id = record {
    name = name;
    provider = codes "linux";
    version = record { major = 6; minor = 8; patch = 0; pre_release = none };
    arch = codes "amd64";
    kernel_compat = record {
      min_version = codes "2.6.32";
      max_version = none;
      required_features = required_features;
    };
    module_type = kernel_module;
  };
  status = if is_loaded then active else available;
  supported_hardware = codes "pci:v00008086d*" ∷ [];
  compatibility = some (compatible_with (codes "In-tree kernel driver") none);
  sources =
      record {
        id = codes "linux";
        name = codes "Linux Kernel";
        source_type = linux;
        available = true;
        priority = 10;
      }
      ∷ [];
  metadata = [];
  description = description;
  package_size_bytes = none;
}

unfoldable pub nvidia_entry : DriverEntry
unfolding compatible_with
nvidia_entry = record {
  id = record {
    name = codes "nvidia";
    provider = codes "nvidia";
    version = record { major = 550; minor = 120; patch = 0; pre_release = none };
    arch = codes "amd64";
    kernel_compat = record {
      min_version = codes "5.4.0";
      max_version = some (codes "6.8.0");
      required_features = codes "CONFIG_DRM" ∷ [];
    };
    module_type = kernel_module;
  };
  status = available;
  supported_hardware = codes "pci:v000010DEd*" ∷ [];
  compatibility = some (compatible_with (codes "Proprietary NVIDIA driver available") (some true));
  sources =
      record {
        id = codes "nvidia";
        name = codes "NVIDIA Corporation";
        source_type = vendor;
        available = true;
        priority = 50;
      }
      ∷ [];
  metadata = (codes "license", codes "proprietary") ∷ [];
  description = codes "NVIDIA proprietary GPU driver";
  package_size_bytes = some 350000000;
}

unfoldable pub builtin_drivers : List ModuleInfo → List DriverEntry
unfolding in_tree nvidia_entry
builtin_drivers modules =
    let loaded = λ (name : Text). any (λ (m : ModuleInfo). text_eq m.name name) modules in
    in_tree (codes "e1000e") [] (codes "Intel PRO/1000 PCIe Gigabit Ethernet driver")
      (loaded (codes "e1000e"))
    ∷ in_tree (codes "iwlwifi") (codes "CONFIG_IWLMVM" ∷ [])
        (codes "Intel Wireless WiFi driver (iwlwifi)") (loaded (codes "iwlwifi"))
    ∷ nvidia_entry
    ∷ []

-- The first compatible device, or what is stored of the driver.
unfoldable pub first_compatible : SystemInfo → DriverEntry → List HardwareDevice → CompatibilityInfo
unfolding incompatible
first_compatible system driver [] = elim driver.compatibility [
  | some stored ↦ stored
  | none ↦
      incompatible (codes "No compatible hardware found for this driver")
        (codes "No hardware device matches this driver's supported device list" ∷ [])
]
first_compatible system driver (device ∷ devices) =
    let compat = evaluate_compatibility system driver device in
    let rest = first_compatible system driver devices in if compat.compatible then compat else rest

unfoldable pub check_compatibility :
    SystemInfo → DriverInventory → Text → Text → ServiceResult CompatibilityInfo
unfolding first_compatible
check_compatibility system inventory driver_name provider =
    elim (find_driver inventory driver_name provider) [
      | none ↦ err (
          not_found
            (codes "driver '" ++ (provider ++ (codes "/" ++ (driver_name ++ codes "' not found")))))
      | some driver ↦ ok (first_compatible system driver inventory.devices)
    ]

unfoldable pub matched_names : List (DriverEntry × CompatibilityInfo) → List Text
matched_names [] = []
matched_names ((driver, compat) ∷ matches) = driver.id.name ∷ matched_names matches

unfoldable pub match_devices :
    SystemInfo → List DriverEntry → List HardwareDevice → List HardwareDevice
unfolding matched_names
match_devices system drivers [] = []
match_devices system drivers (device ∷ devices) =
    record device { matched_drivers = matched_names (find_matching_drivers system device drivers) }
    ∷ match_devices system drivers devices

unfoldable pub match_drivers_to_hardware : SystemInfo → DriverInventory → DriverInventory
unfolding match_devices
match_drivers_to_hardware system inventory = record inventory {
  devices = match_devices system inventory.drivers inventory.devices;
}

-- An enumeration that fails leaves no devices.
unfoldable pub devices_of : ServiceResult (List HardwareDevice) → List HardwareDevice
devices_of (ok devices) = devices
devices_of (err e) = []

module _ {S : System} where
  unfoldable pub populate_builtin_drivers : World S → List DriverEntry
  unfolding builtin_drivers
  populate_builtin_drivers w = elim (list_modules w) [
    | ok modules ↦ builtin_drivers modules
    | err e ↦ builtin_drivers []
  ]

  unfoldable pub scan_system :
      (F : Sysfs) → F.State → World S → Result Panic (World S × ServiceResult (Unit {0}))
  unfolding populate_builtin_drivers devices_of
  scan_system F os w = elim (enumerate_all F os) [
    | err e ↦ err e
    | ok result ↦ ok (
      record w {
        inventory = record {
          drivers = populate_builtin_drivers w;
          devices = devices_of result;
          last_scan_timestamp = S.now w.os;
        };
      },
      ok tt,
    )
  ]
