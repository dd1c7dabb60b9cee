-- ===== src/Driver/Hwdetect/Valid.antt =====
-- What services/driverd/src/hwdetect.rs answers about the devices it finds.
use mission_os.Base.{
  List, [], ◌∷◌, ◌++◌, Option, none, some, ◌≡◌, refl, inl, inr, Bool, true, false, if◌then◌else◌,
  is_empty, All, All-append, is_some,
}
use mission_os.Base.Results.{Result, ok, err, ◌>>=◌, Result-cases}
use mission_os.Base.Text.{Text, codes, trim}
use mission_os.Driver.Error.{ServiceResult}
use mission_os.Driver.Inventory.{HardwareId, HardwareDevice, validate_hardware_id}
use mission_os.Driver.Repository.{Panic}
use mission_os.Driver.Hwdetect.{
  Sysfs, UeventData, uevent_of, id_or, get, hardware_id_of, driver_of, checked_device, read_device,
  read_devices, enumerate_subsystem, enumerate_subsystems, enumerate_all, not_found, other_error,
  devices_path, bus_subsystems,
}
use mission_os.Driver.Hwdetect.Modalias.{extract_vendor_from_modalias, extract_device_from_modalias}
use mission_os.Driver.Hwdetect.Ascii.{
  IsAscii, IsOk, trim-IsAscii, extract_vendor-IsOk, extract_device-IsOk,
}

-- The identifier passes the validation, and the device is operational exactly if a driver is bound
-- to it, the one of the identifier. No driver is matched to it yet.
pub record IsDetected (device : HardwareDevice) : Type 0 where
  pub is_valid : validate_hardware_id device.hardware_id ≡ ok tt
  pub is_bound : device.bound_driver ≡ device.hardware_id.current_driver
  pub is_operational : device.operational ≡ is_some device.bound_driver
  pub is_unmatched : device.matched_drivers ≡ []

abbrev IsDetectedOption : Option HardwareDevice → Type 0
IsDetectedOption none = Unit
IsDetectedOption (some device) = IsDetected device

-- What an answer is, if it is there.
abbrev Holds : {A : Type 0} → (A → Type 0) → ServiceResult A → Type 0
Holds P (ok a) = P a
Holds P (err e) = Unit

-- There is no panic, and what the answer is.
abbrev Answers : {A : Type 0} → (A → Type 0) → Result Panic A → Type 0
Answers P (ok a) = P a
Answers P (err e) = ⊥

-- A device that is made of two identifiers.
two_ids :
    (vendor device : Result Panic Text) (f : Text → Text → Option HardwareDevice)
    → IsOk vendor
    → IsOk device
    → ((v d : Text) → IsDetectedOption (f v d))
    → Answers IsDetectedOption (vendor >>= λ v. device >>= λ d. ok (f v d))
two_ids (ok v) (ok d) f hv hd h = h v d
two_ids (ok v) (err e) f hv hd h = hd
two_ids (err e) device f hv hd h = hv

id_or-IsOk : (id : Option Text) (r : Result Panic (Option Text)) → IsOk r → IsOk (id_or id r)
unfolding id_or
id_or-IsOk (some a) r h = tt
id_or-IsOk none (ok o) h = tt
id_or-IsOk none (err e) h = h

-- What holds of both cases of an option or a test holds of the choice.
by_option :
    {A B : Type 0} (P : B → Type 0) (o : Option A) (b : B) (f : A → B)
    → P b
    → ((a : A) → o ≡ some a → P (f a))
    → P (elim o [ none ↦ b | some a ↦ f a ])
by_option P none b f h k = h
by_option P (some a) b f h k = k a refl

by_test : {B : Type 0} (P : B → Type 0) (t : Bool) (a b : B) → P a → P b → P (if t then a else b)
by_test P true a b h k = h
by_test P false a b h k = k

checked_device-IsDetected :
    (path subsystem : Text) (uevent : UeventData) (id : HardwareId)
    → IsDetectedOption (checked_device path subsystem uevent id)
unfolding checked_device
checked_device-IsDetected path subsystem uevent id = elim (Result-cases (validate_hardware_id id)) [
  | inl (u, k) ↦
      rw (k, IsDetectedOption)
        (record { is_valid = k; is_bound = refl; is_operational = refl; is_unmatched = refl })
  | inr (e, k) ↦ rw (k, IsDetectedOption) tt
]

-- One device in front of the others.
add_device :
    (device : Result Panic (Option HardwareDevice)) (rest : Result Panic (List HardwareDevice))
    → Answers IsDetectedOption device
    → Answers (All IsDetected) rest
    → Answers (All IsDetected) (elim device [
      | err e ↦ err e
      | ok none ↦ rest
      | ok (some d) ↦ elim rest [ err e ↦ err e | ok devices ↦ ok (d ∷ devices) ]
    ])
add_device (err e) rest h k = h
add_device (ok none) rest h k = k
add_device (ok (some d)) (err e) h k = k
add_device (ok (some d)) (ok devices) h k = (h, k)

add_devices :
    (devices : Result Panic (ServiceResult (List HardwareDevice)))
    (rest : Result Panic (List HardwareDevice))
    → Answers (Holds (All IsDetected)) devices
    → Answers (All IsDetected) rest
    → Answers (All IsDetected) (elim devices [
      | err e ↦ err e
      | ok (err e) ↦ rest
      | ok (ok ds) ↦ elim rest [ err e ↦ err e | ok others ↦ ok (ds ++ others) ]
    ])
add_devices (err e) rest h k = h
add_devices (ok (err e)) rest h k = k
add_devices (ok (ok ds)) (err e) h k = k
add_devices (ok (ok ds)) (ok others) h k = All-append IsDetected ds others h k

answered :
    (devices : Result Panic (List HardwareDevice))
    → Answers (All IsDetected) devices
    → Answers (Holds (All IsDetected)) (elim devices [ err e ↦ err e | ok ds ↦ ok (ok ds) ])
answered (err e) h = h
answered (ok ds) h = h

there :
    (r : Result Panic (List HardwareDevice))
    → Answers (All IsDetected) r
    → (devices : List HardwareDevice) × (◌≡◌
          {A = Result Panic (ServiceResult (List HardwareDevice))}
          (elim r [ err e ↦ err e | ok ds ↦ ok (ok ds) ])
          (ok (ok devices))
        × All IsDetected devices)
there (ok devices) h = (devices, (refl, h))
there (err e) h = absurd h

-- The kernel writes a modalias in ASCII.
module _ (F : Sysfs) (os : F.State)
    (ascii : (path content : Text)
      → F.read_to_string os (path ++ codes "/modalias") ≡ some content
      → IsAscii content) where
  read_device-IsDetected :
      (path subsystem : Text) → Answers IsDetectedOption (read_device F os path subsystem)
  unfolding read_device
  read_device-IsDetected path subsystem =
      let uevent = uevent_of F os path in
      by_option (Answers IsDetectedOption) (F.read_to_string os (path ++ codes "/modalias")) _ _ tt
        λ content h.
          let modalias = trim content in
          let plain = trim-IsAscii content (ascii path content h) in
          by_test (Answers IsDetectedOption) (is_empty modalias) _ _ tt (
            two_ids (id_or (get uevent (codes "VENDOR_ID")) (extract_vendor_from_modalias modalias))
              (id_or (get uevent (codes "DEVICE_ID")) (extract_device_from_modalias modalias))
              (λ v d.
                checked_device path subsystem uevent
                  (hardware_id_of modalias v d subsystem uevent (driver_of F os path)))
              (id_or-IsOk _ _ (extract_vendor-IsOk modalias plain))
              (id_or-IsOk _ _ (extract_device-IsOk modalias plain))
              (λ v d. checked_device-IsDetected path subsystem uevent _))

  read_devices-IsDetected :
      (subsystem : Text) (paths : List Text)
      → Answers (All IsDetected) (read_devices F os subsystem paths)
  unfolding read_devices
  read_devices-IsDetected subsystem [] = tt
  read_devices-IsDetected subsystem (path ∷ paths) =
      let rest = read_devices-IsDetected subsystem paths in
      by_option (Answers (All IsDetected)) (F.canonicalize os path) _ _ rest λ real h.
        add_device (read_device F os real subsystem) _ (read_device-IsDetected real subsystem) rest

  enumerate_subsystem-IsDetected :
      (path subsystem : Text)
      → Answers (Holds (All IsDetected)) (enumerate_subsystem F os path subsystem)
  unfolding enumerate_subsystem
  enumerate_subsystem-IsDetected path subsystem = elim (Result-cases (F.read_dir os path)) [
    | inl (paths, h) ↦ rw (h, Answers) (answered _ (read_devices-IsDetected subsystem paths))
    | inr (not_found, h) ↦ rw (h, Answers) tt
    | inr (other_error e, h) ↦ rw (h, Answers) tt
  ]

  enumerate_subsystems-IsDetected :
      (subsystems : List Text) → Answers (All IsDetected) (enumerate_subsystems F os subsystems)
  unfolding enumerate_subsystems
  enumerate_subsystems-IsDetected [] = tt
  enumerate_subsystems-IsDetected (subsystem ∷ subsystems) =
      add_devices (enumerate_subsystem F os (devices_path subsystem) subsystem) _
        (enumerate_subsystem-IsDetected (devices_path subsystem) subsystem)
        (enumerate_subsystems-IsDetected subsystems)

  -- Where every modalias is ASCII, the enumeration does not panic and answers a list of devices, each
  -- with a valid identifier, operational exactly if a driver is bound to it, which is the one of the
  -- identifier, and matched to no driver yet.
  pub enumerate_all-IsDetected :
      (devices : List HardwareDevice) × ((enumerate_all F os ≡ ok (ok devices))
        × All IsDetected devices)
  unfolding enumerate_all
  enumerate_all-IsDetected =
      there (enumerate_subsystems F os bus_subsystems)
        (enumerate_subsystems-IsDetected bus_subsystems)
