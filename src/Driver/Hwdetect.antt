-- ===== src/Driver/Hwdetect.antt =====
-- The detection of hardware below `/sys`: services/driverd/src/hwdetect.rs, on Linux. A text is its
-- bytes in UTF-8. What is printed for an administrator is left out.
pub mod Modalias
pub mod Ascii
pub mod Monitor
pub mod Valid
use mission_os.Base.{
  ℕ, List, [], ◌∷◌, ◌++◌, Option, none, some, Bool, true, false, ◌&&◌, ◌||◌, ltb, find, is_empty,
  is_some, if◌then◌else◌,
}
use mission_os.Base.Results.{Result, ok, err, ◌>>=◌}
use mission_os.Base.Text.{Text, codes, text_eq, trim, starts_with, split, split_once}
use mission_os.Driver.Error.{ServiceError, ServiceResult, backend_unavailable, internal}
use mission_os.Driver.Inventory.{
  HardwareId, HardwareDevice, BusType, validate_hardware_id, pci, usb, virtio, sdio, i2c, spi,
  other,
}
use mission_os.Driver.Package.{name_of}
use mission_os.Driver.Repository.{Panic}
use Modalias.{extract_vendor_from_modalias, extract_device_from_modalias}

-- The pairs of a uevent file. An entry stands before those that it replaces.
abbrev pub UeventData : Type 0
UeventData = List (Text × Text)

unfoldable pub get : UeventData → Text → Option Text
get pairs key = elim (find (λ (p : Text × Text). text_eq p.0 key) pairs) [
  | none ↦ none
  | some (k, value) ↦ some value
]

unfoldable pub parse_line : Text → UeventData → UeventData
unfolding trim starts_with split_once
parse_line untrimmed pairs =
    let line = trim untrimmed in
    if is_empty line || starts_with line (codes "#")
    then pairs
    else let (key, after) = split_once b'=' line in
      elim after [ none ↦ pairs | some value ↦ (trim key, trim value) ∷ pairs ]

unfoldable pub parse_lines : List Text → UeventData → UeventData
unfolding parse_line
parse_lines [] pairs = pairs
parse_lines (line ∷ lines) pairs = parse_lines lines (parse_line line pairs)

-- The lines are trimmed, and empty ones skipped, so that `lines` is a split.
unfoldable pub parse : Text → UeventData
unfolding split parse_lines
parse content = parse_lines (split b'\n' content) []

pub data DirError : Type 0 where
  not_found : DirError
  other_error : Text → DirError

-- What the detection asks of the file system. A directory that is read answers the paths of its
-- entries; a text that cannot be read or is not UTF-8 is `none`.
pub record Sysfs : Type 1 where
  pub State : Type 0
  pub read_dir : State → Text → Result DirError (List Text)
  pub read_to_string : State → Text → Option Text
  pub canonicalize : State → Text → Option Text
  pub exists : State → Text → Bool
  pub mtime : State → Text → Option ℕ
  pub debug_path : Text → Text

abbrev pub bus_subsystems : List Text
bus_subsystems =
    codes "pci" ∷ codes "usb" ∷ codes "virtio" ∷ codes "i2c" ∷ codes "spi" ∷ codes "sdio" ∷ []

unfoldable pub bus_type_of : Text → BusType
bus_type_of subsystem =
    if text_eq subsystem (codes "pci")
    then pci
    else if text_eq subsystem (codes "usb")
    then usb
    else if text_eq subsystem (codes "virtio")
    then virtio
    else if text_eq subsystem (codes "i2c")
    then i2c
    else if text_eq subsystem (codes "spi")
    then spi
    else if text_eq subsystem (codes "sdio")
    then sdio
    else other subsystem

-- `first.or(second)`.
unfoldable pub or_else : Option Text → Option Text → Option Text
or_else (some a) second = some a
or_else none second = second

-- `unwrap_or`.
unfoldable pub unwrap_or : Option Text → Text → Text
unwrap_or (some a) d = a
unwrap_or none d = d

-- The identifier of the uevent file, or what the modalias has.
unfoldable pub id_or : Option Text → Result Panic (Option Text) → Result Panic Text
unfolding unwrap_or
id_or (some id) extracted = ok id
id_or none extracted = do id ← extracted; ok (unwrap_or id (codes "unknown"))

unfoldable pub devices_path : Text → Text
devices_path subsystem = codes "/sys/bus/" ++ (subsystem ++ codes "/devices")

unfoldable pub hardware_id_of : Text → Text → Text → Text → UeventData → Option Text → HardwareId
unfolding get
hardware_id_of modalias vendor_id device_id subsystem uevent current_driver = record {
  modalias = modalias;
  vendor_id = vendor_id;
  device_id = device_id;
  subsystem_vendor_id = get uevent (codes "SUBVENDOR_ID");
  subsystem_device_id = get uevent (codes "SUBDEVICE_ID");
  class_code = get uevent (codes "PCI_CLASS");
  bus = subsystem;
  current_driver = current_driver;
}

-- The device, unless its identifier is not valid.
unfoldable pub checked_device : Text → Text → UeventData → HardwareId → Option HardwareDevice
unfolding get or_else unwrap_or bus_type_of name_of
checked_device path subsystem uevent hardware_id = elim (validate_hardware_id hardware_id) [
  | err e ↦ none
  | ok u ↦ some (record {
    hardware_id = hardware_id;
    device_name =
        unwrap_or
          (or_else (get uevent (codes "DEVNAME"))
            (or_else (get uevent (codes "DRIVER")) (name_of path)))
          (codes "Unknown Device");
    vendor_name = get uevent (codes "VENDOR");
    bus_type = bus_type_of subsystem;
    bound_driver = hardware_id.current_driver;
    operational = is_some hardware_id.current_driver;
    matched_drivers = [];
  })
]

module _ (F : Sysfs) where
  unfoldable pub uevent_of : F.State → Text → UeventData
  unfolding parse
  uevent_of os path = elim (F.read_to_string os (path ++ codes "/uevent")) [
    | none ↦ []
    | some content ↦ parse content
  ]

  unfoldable pub driver_of : F.State → Text → Option Text
  unfolding name_of
  driver_of os path =
      let driver_path = path ++ codes "/driver" in
      if F.exists os driver_path
      then elim (F.canonicalize os driver_path) [ none ↦ none | some real ↦ name_of real ]
      else none

  -- It has no error to answer.
  unfoldable pub read_device : F.State → Text → Text → Result Panic (Option HardwareDevice)
  unfolding trim uevent_of get id_or driver_of hardware_id_of checked_device
      extract_vendor_from_modalias extract_device_from_modalias
  read_device os path subsystem = elim (F.read_to_string os (path ++ codes "/modalias")) [
    | none ↦ ok none
    | some content ↦
        let modalias = trim content in
        if is_empty modalias then ok none else do
          let uevent = uevent_of os path
          vendor_id ← id_or (get uevent (codes "VENDOR_ID")) (extract_vendor_from_modalias modalias)
          device_id ← id_or (get uevent (codes "DEVICE_ID")) (extract_device_from_modalias modalias)
          ok (
              checked_device path subsystem uevent
                (hardware_id_of modalias vendor_id device_id subsystem uevent (driver_of os path)))
  ]

  -- The loop over the entries of a directory. A link that leads nowhere is skipped.
  unfoldable pub read_devices : F.State → Text → List Text → Result Panic (List HardwareDevice)
  unfolding read_device
  read_devices os subsystem [] = ok []
  read_devices os subsystem (path ∷ paths) =
      let rest = read_devices os subsystem paths in
      elim (F.canonicalize os path) [
        | none ↦ rest
        | some real ↦ elim (read_device os real subsystem) [
          | err e ↦ err e
          | ok none ↦ rest
          | ok (some device) ↦ elim rest [ err e ↦ err e | ok devices ↦ ok (device ∷ devices) ]
        ]
      ]

  unfoldable pub enumerate_subsystem :
      F.State → Text → Text → Result Panic (ServiceResult (List HardwareDevice))
  unfolding read_devices
  enumerate_subsystem os path subsystem = elim (F.read_dir os path) [
    | err not_found ↦
        ok (err (backend_unavailable (codes "subsystem " ++ (subsystem ++ codes " not found"))))
    | err (other_error e) ↦
        ok (err (internal (codes "cannot read " ++ (F.debug_path path ++ (codes ": " ++ e)))))
    | ok paths ↦ elim (read_devices os subsystem paths) [
      | err e ↦ err e
      | ok devices ↦ ok (ok devices)
    ]
  ]

  -- The devices of the subsystems that can be read.
  unfoldable pub enumerate_subsystems : F.State → List Text → Result Panic (List HardwareDevice)
  unfolding enumerate_subsystem devices_path
  enumerate_subsystems os [] = ok []
  enumerate_subsystems os (subsystem ∷ subsystems) =
      let rest = enumerate_subsystems os subsystems in
      elim (enumerate_subsystem os (devices_path subsystem) subsystem) [
        | err e ↦ err e
        | ok (err e) ↦ rest
        | ok (ok devices) ↦ elim rest [ err e ↦ err e | ok others ↦ ok (devices ++ others) ]
      ]

  unfoldable pub enumerate_all : F.State → Result Panic (ServiceResult (List HardwareDevice))
  unfolding enumerate_subsystems
  enumerate_all os = elim (enumerate_subsystems os bus_subsystems) [
    | err e ↦ err e
    | ok devices ↦ ok (ok devices)
  ]
