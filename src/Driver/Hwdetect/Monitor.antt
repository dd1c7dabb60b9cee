-- ===== src/Driver/Hwdetect/Monitor.antt =====
-- `UdevMonitor` of services/driverd/src/hwdetect.rs, on Linux.
use mission_os.Base.{ℕ, List, [], ◌∷◌, ◌++◌, none, some, false, ltb, find, if◌then◌else◌}
use mission_os.Base.Results.{Result, ok, err}
use mission_os.Base.Text.{Text, text_eq}
use mission_os.Driver.Inventory.{HardwareDevice}
use mission_os.Driver.Repository.{Panic}
use mission_os.Driver.Hwdetect.{
  Sysfs, bus_subsystems, bus_type_of, devices_path, enumerate_subsystem,
}

pub data UdevEvent : Type 0 where
  device_added : HardwareDevice → UdevEvent
  device_removed : Text → UdevEvent
  device_changed : HardwareDevice → UdevEvent

-- The time of the last poll of a subsystem. An entry stands before those that it replaces.
abbrev pub LastPoll : Type 0
LastPoll = List (Text × ℕ)

unfoldable pub last_of : LastPoll → Text → ℕ
last_of last_poll subsystem = elim (find (λ (p : Text × ℕ). text_eq p.0 subsystem) last_poll) [
  | none ↦ 0
  | some (name, time) ↦ time
]

-- The device that stands for one that is gone.
unfoldable pub gone_device : Text → HardwareDevice
unfolding bus_type_of
gone_device subsystem = record {
  hardware_id = record {
    modalias = [];
    vendor_id = [];
    device_id = [];
    subsystem_vendor_id = none;
    subsystem_device_id = none;
    class_code = none;
    bus = subsystem;
    current_driver = none;
  };
  device_name = [];
  vendor_name = none;
  bus_type = bus_type_of subsystem;
  bound_driver = none;
  operational = false;
  matched_drivers = [];
}

unfoldable pub first_device : Text → List HardwareDevice → HardwareDevice
unfolding gone_device
first_device subsystem [] = gone_device subsystem
first_device subsystem (device ∷ devices) = device

module _ (F : Sysfs) where
  -- The events of one subsystem that has changed.
  unfoldable pub changed : F.State → Text → Result Panic (List UdevEvent)
  unfolding enumerate_subsystem devices_path first_device
  changed os subsystem = elim (enumerate_subsystem F os (devices_path subsystem) subsystem) [
    | err e ↦ err e
    | ok (err e) ↦ ok []
    | ok (ok devices) ↦ ok (device_changed (first_device subsystem devices) ∷ [])
  ]

  -- One round of the loop.
  unfoldable pub poll_subsystem :
      F.State → Text → LastPoll → Result Panic (LastPoll × List UdevEvent)
  unfolding last_of changed
  poll_subsystem os subsystem last_poll = elim (F.mtime os (devices_path subsystem)) [
    | none ↦ ok (last_poll, [])
    | some mtime ↦
        let polled = (subsystem, mtime) ∷ last_poll in
        if ltb (last_of last_poll subsystem) mtime
        then elim (changed os subsystem) [ err e ↦ err e | ok events ↦ ok (polled, events) ]
        else ok (polled, [])
  ]

  unfoldable pub poll_subsystems :
      F.State → List Text → LastPoll → Result Panic (LastPoll × List UdevEvent)
  unfolding poll_subsystem
  poll_subsystems os [] last_poll = ok (last_poll, [])
  poll_subsystems os (subsystem ∷ subsystems) last_poll =
      elim (poll_subsystem os subsystem last_poll) [
        | err e ↦ err e
        | ok (polled, events) ↦ elim (poll_subsystems os subsystems polled) [
          | err e ↦ err e
          | ok (after, more) ↦ ok (after, events ++ more)
        ]
      ]

  unfoldable pub poll_events : F.State → LastPoll → Result Panic (LastPoll × List UdevEvent)
  unfolding poll_subsystems
  poll_events os last_poll = poll_subsystems os bus_subsystems last_poll
