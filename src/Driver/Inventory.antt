-- ===== src/Driver/Inventory.antt =====
-- The data model of services/driverd/src/inventory.rs.
pub mod Versions
use mission_os.Base.{
  ℕ, List, [], ◌∷◌, ◌++◌, Option, none, some, Bool, true, false, ◌&&◌, ◌||◌, ◌==◌, any, find, keep,
  length, is_empty, is_some, if◌then◌else◌,
}
use mission_os.Base.Results.{Result, ok, err, ◌>>=◌, ◌>>◌}
use mission_os.Base.Text.{Text, codes, split, trim, to_lowercase, text_eq, eq_ignore_ascii_case}
use mission_os.Base.Decimal.{parse_u64}
use mission_os.Driver.Error.{ServiceError, invalid_argument, ServiceResult}
use Versions.{DriverVersion}

pub record HardwareId : Type 0 where
  pub modalias : Text
  pub vendor_id : Text
  pub device_id : Text
  pub subsystem_vendor_id : Option Text
  pub subsystem_device_id : Option Text
  pub class_code : Option Text
  pub bus : Text
  pub current_driver : Option Text

pub data BusType : Type 0 where
  pci usb hid virtio acpi platform sdio i2c spi thunderbolt : BusType
  other : Text → BusType

pub data DriverModuleType : Type 0 where
  kernel_module firmware userspace device_tree_overlay : DriverModuleType

pub record KernelCompatibility : Type 0 where
  pub min_version : Text
  pub max_version : Option Text
  pub required_features : List Text

pub record DriverId : Type 0 where
  pub name : Text
  pub provider : Text
  pub version : DriverVersion
  pub arch : Text
  pub kernel_compat : KernelCompatibility
  pub module_type : DriverModuleType

pub data DriverStatus : Type 0 where
  available installed active failed pending_reboot removed update_available : DriverStatus

unfoldable pub is_operational : DriverStatus → Bool
is_operational active = true
is_operational installed = true
is_operational _ = false

unfoldable pub is_installed : DriverStatus → Bool
is_installed installed = true
is_installed _ = false

unfoldable pub is_error : DriverStatus → Bool
is_error failed = true
is_error _ = false

-- A score is a double between 0 and 1, as a multiple of 2 ^ -58.
pub record CompatibilityInfo : Type 0 where
  pub compatible : Bool
  pub score : ℕ
  pub explanation : Text
  pub issues : List Text
  pub signature_verified : Option Bool

unfoldable pub incompatible : Text → List Text → CompatibilityInfo
incompatible explanation issues = record {
  compatible = false;
  score = 0;
  explanation = explanation;
  issues = issues;
  signature_verified = none;
}

pub data DriverSourceType : Type 0 where
  mission linux vendor community local : DriverSourceType

pub record DriverSource : Type 0 where
  pub id : Text
  pub name : Text
  pub source_type : DriverSourceType
  pub available : Bool
  pub priority : ℕ

pub record DriverEntry : Type 0 where
  pub id : DriverId
  pub status : DriverStatus
  pub supported_hardware : List Text
  pub compatibility : Option CompatibilityInfo
  pub sources : List DriverSource
  pub metadata : List (Text × Text)
  pub description : Text
  pub package_size_bytes : Option ℕ

pub record HardwareDevice : Type 0 where
  pub hardware_id : HardwareId
  pub device_name : Text
  pub vendor_name : Option Text
  pub bus_type : BusType
  pub bound_driver : Option Text
  pub operational : Bool
  pub matched_drivers : List Text

pub record InstallRequest : Type 0 where
  pub driver_name : Text
  pub provider : Text
  pub version_constraint : Option Text
  pub force : Bool

pub record RemoveRequest : Type 0 where
  pub driver_name : Text
  pub force : Bool

pub record UpdateRequest : Type 0 where
  pub driver_name : Text
  pub target_version : Option Text
  pub allow_downgrade : Bool

-- The check that all validations make of a required field.
unfoldable pub require_text : Text → Text → ServiceResult (Unit {0})
require_text field message = if is_empty (trim field) then err (invalid_argument message) else ok tt

unfoldable pub validate_install : InstallRequest → ServiceResult (Unit {0})
unfolding require_text
validate_install r = do
  require_text r.driver_name (codes "driver_name must not be empty")
  require_text r.provider (codes "provider must not be empty")

unfoldable pub validate_remove : RemoveRequest → ServiceResult (Unit {0})
unfolding require_text
validate_remove r = require_text r.driver_name (codes "driver_name must not be empty")

unfoldable pub validate_update : UpdateRequest → ServiceResult (Unit {0})
unfolding require_text
validate_update r = require_text r.driver_name (codes "driver_name must not be empty")

unfoldable pub validate_bus_type : Text → ServiceResult (Unit {0})
unfolding to_lowercase
validate_bus_type bus =
    let name = to_lowercase bus in
    if any (text_eq name) (
      codes "pci"
      ∷ codes "usb"
      ∷ codes "hid"
      ∷ codes "virtio"
      ∷ codes "acpi"
      ∷ codes "platform"
      ∷ codes "sdio"
      ∷ codes "i2c"
      ∷ codes "spi"
      ∷ codes "thunderbolt"
      ∷ [])
    then ok tt
    else err (invalid_argument (codes "unrecognized bus type: " ++ bus))

unfoldable pub validate_hardware_id : HardwareId → ServiceResult (Unit {0})
unfolding require_text validate_bus_type
validate_hardware_id h = do
  require_text h.modalias (codes "modalias must not be empty")
  require_text h.vendor_id (codes "vendor_id must not be empty")
  require_text h.device_id (codes "device_id must not be empty")
  require_text h.bus (codes "bus must not be empty")
  validate_bus_type h.bus

-- The components of a kernel version are numbers.
unfoldable pub check_components : Text → List Text → ServiceResult (Unit {0})
check_components message [] = ok tt
check_components message (part ∷ parts) = elim (parse_u64 part) [
  | ok n ↦ check_components message parts
  | err e ↦ err (invalid_argument (message ++ part))
]

unfoldable pub validate_kernel : KernelCompatibility → ServiceResult (Unit {0})
unfolding require_text check_components
validate_kernel k = do
  require_text k.min_version (codes "min_version must not be empty")
  check_components (codes "invalid kernel version component: ") (split b'.' k.min_version)
  elim k.max_version [
    | none ↦ ok tt
    | some max ↦ check_components (codes "invalid kernel max version component: ") (split b'.' max)
  ]

unfoldable pub validate_driver_id : DriverId → ServiceResult (Unit {0})
unfolding require_text validate_kernel
validate_driver_id d = do
  require_text d.name (codes "driver name must not be empty")
  require_text d.provider (codes "driver provider must not be empty")
  require_text d.arch (codes "driver arch must not be empty")
  Versions.validate d.version
  validate_kernel d.kernel_compat

pub data OperationStatus : Type 0 where
  pending in_progress completed failed cancelled : OperationStatus

pub record OperationResult : Type 0 where
  pub status : OperationStatus
  pub message : Text
  pub error : Option Text
  pub driver_name : Text

unfoldable pub success : Text → Text → OperationResult
success driver_name message = record {
  status = completed;
  message = message;
  error = none;
  driver_name = driver_name;
}

unfoldable pub failure : Text → Text → Text → OperationResult
failure driver_name message error = record {
  status = OperationStatus.failed;
  message = message;
  error = some error;
  driver_name = driver_name;
}

pub record DriverInventory : Type 0 where
  pub drivers : List DriverEntry
  pub devices : List HardwareDevice
  pub last_scan_timestamp : ℕ

unfoldable pub find_driver : DriverInventory → Text → Text → Option DriverEntry
find_driver inventory name provider =
    find
      (λ (d : DriverEntry).
        eq_ignore_ascii_case d.id.name name && eq_ignore_ascii_case d.id.provider provider)
      inventory.drivers

unfoldable pub find_device : DriverInventory → Text → Option HardwareDevice
find_device inventory modalias =
    find (λ (d : HardwareDevice). text_eq d.hardware_id.modalias modalias) inventory.devices

unfoldable pub active_driver_count : DriverInventory → ℕ
active_driver_count inventory =
    length (keep (λ (d : DriverEntry). is_operational d.status) inventory.drivers)

unfoldable pub failed_driver_count : DriverInventory → ℕ
failed_driver_count inventory =
    length (keep (λ (d : DriverEntry). is_error d.status) inventory.drivers)
