-- ===== src/Driver/Samples/Devices.antt =====
-- A machine with one network card, and what is found of it.
use mission_os.Base.{
  Bool, false, List, Option, [], ◌∷◌, none, some, true, ◌≡◌, refl, subst, ◌++◌, All, if◌then◌else◌,
}
use mission_os.Base.Results.{ok, err}
use mission_os.Base.Text.{Text, codes, text_eq, ends_with}
use mission_os.Driver.Inventory.{HardwareDevice, pci, validate_hardware_id}
use mission_os.Driver.Hwdetect.{Sysfs, not_found, enumerate_all}
use mission_os.Driver.Hwdetect.Monitor.{poll_events, device_changed}
use mission_os.Driver.Hwdetect.Ascii.{IsAscii, AsciiOption, all-IsAscii}
use mission_os.Driver.Hwdetect.Valid.{IsDetected, enumerate_all-IsDetected}

abbrev card_path : Text
card_path = codes "/sys/devices/pci0000:00/0000:00:1f.6"

abbrev modalias_text : Text
modalias_text = codes "pci:v00008086d000015BEsv00001028\n"

abbrev uevent_text : Text
uevent_text = codes "DRIVER=e1000e\nPCI_CLASS=20000\n"

abbrev file_text : Bool → Bool → Option Text
file_text true is_uevent = some modalias_text
file_text false true = some uevent_text
file_text false false = none

file_text-IsAscii : (is_modalias is_uevent : Bool) → AsciiOption (file_text is_modalias is_uevent)
file_text-IsAscii true is_uevent = all-IsAscii modalias_text refl
file_text-IsAscii false true = all-IsAscii uevent_text refl
file_text-IsAscii false false = tt

abbrev machine : Sysfs
machine = record {
  State = Unit {0};
  read_dir = λ os path.
      if text_eq path (codes "/sys/bus/pci/devices")
      then ok (codes "/sys/bus/pci/devices/0000:00:1f.6" ∷ [])
      else err not_found;
  read_to_string =
      λ os path. file_text (ends_with path (codes "/modalias")) (ends_with path (codes "/uevent"));
  canonicalize = λ os path.
      if ends_with path (codes "/driver")
      then some (codes "/sys/bus/pci/drivers/e1000e")
      else some card_path;
  exists = λ os path. ends_with path (codes "/driver");
  mtime = λ os path. if text_eq path (codes "/sys/bus/pci/devices") then some 7 else none;
  debug_path = λ path. path;
}

abbrev card : HardwareDevice
card = record {
  hardware_id = record {
    modalias = codes "pci:v00008086d000015BEsv00001028";
    vendor_id = codes "0x8086";
    device_id = codes "0x15BE";
    subsystem_vendor_id = none;
    subsystem_device_id = none;
    class_code = some (codes "20000");
    bus = codes "pci";
    current_driver = some (codes "e1000e");
  };
  device_name = codes "e1000e";
  vendor_name = none;
  bus_type = pci;
  bound_driver = some (codes "e1000e");
  operational = true;
  matched_drivers = [];
}

card-enumerated : enumerate_all machine tt ≡ ok (ok (card ∷ []))
unfolding enumerate_all ends_with validate_hardware_id
card-enumerated = refl

-- The card is reported once, and not again while the directory stays as it is.
card-polled : poll_events machine tt [] ≡ ok ((codes "pci", 7) ∷ [], device_changed card ∷ [])
unfolding poll_events ends_with validate_hardware_id
card-polled = refl

card-polled_once :
    poll_events machine tt ((codes "pci", 7) ∷ [])
    ≡ ok ((codes "pci", 7) ∷ (codes "pci", 7) ∷ [], [])
unfolding poll_events ends_with validate_hardware_id
card-polled_once = refl

machine-IsAscii :
    (path content : Text)
    → machine.read_to_string tt (path ++ codes "/modalias") ≡ some content
    → IsAscii content
machine-IsAscii path content h = subst AsciiOption h (file_text-IsAscii _ _)

enumerate_all-IsDetected_example :
    (devices : List HardwareDevice) × ((enumerate_all machine tt ≡ ok (ok devices))
      × All IsDetected devices)
enumerate_all-IsDetected_example = enumerate_all-IsDetected machine tt machine-IsAscii
