-- ===== src/Driver/Engine.antt =====
-- `DriverExecutionEngine` of services/driverd/src/execution.rs: its parts, and its steps that act on
-- the system. The three operations are in the modules below.
pub mod Install
pub mod Remove
pub mod Update
pub mod Frame
pub mod Gates
pub mod Rollback
pub mod Settled
pub mod Removal
pub mod Upgrade
use mission_os.Base.{
  ℕ, Ordering, List, [], ◌∷◌, ◌++◌, Option, none, some, Bool, true, false, not, ◌&&◌, ◌||◌, find,
  keep, keep_map, map, is_empty, if◌then◌else◌,
}
use mission_os.Base.Results.{Result, ok, err}
use mission_os.Base.Text.{Text, codes, text_eq, join}
use mission_os.Base.Decimal.{show}
use mission_os.Driver.Error.{
  ServiceError, ServiceResult, not_found, internal, not_supported, error_text,
}
use mission_os.Driver.Inventory.{
  DriverEntry, DriverId, DriverInventory, DriverStatus, DriverModuleType, kernel_module, firmware,
  userspace, device_tree_overlay, OperationResult, failure,
}
use mission_os.Driver.Audit.{EventCategory, EventSeverity, driver_install, warning, error}
use mission_os.Driver.Conflict.{ConflictResult, ConflictInfo}
use mission_os.Driver.Matching.{SystemInfo}
use mission_os.Driver.System.{System}
use mission_os.Driver.World.{World, SavedState, M, ◌>>=◌, ◌>>◌, pure, gets, audit, next_sequence}
use mission_os.Driver.Authz.{Authorizer}
use mission_os.Driver.Kmod.{
  ModuleInfo, ModuleState, live, list_modules, is_loaded, load_module, unload_module, path_join,
}
use mission_os.Driver.Verification.{SignatureVerifier}

pub record Engine : Type 0 where
  pub authorizer : Authorizer
  pub store_path : Text
  pub verifier : SignatureVerifier
  pub system : SystemInfo
  pub allow_unsigned : Bool

-- An entry with exactly this name and provider.
unfoldable pub same_driver : DriverId → DriverEntry → Bool
same_driver id d = text_eq d.id.name id.name && text_eq d.id.provider id.provider

-- Changes the first entry that passes a test.
abbrev pub change_first :
    (DriverEntry → Bool) → (DriverEntry → DriverEntry) → List DriverEntry → List DriverEntry
change_first test change [] = []
change_first test change (d ∷ drivers) =
    let rest = change_first test change drivers in if test d then change d ∷ drivers else d ∷ rest

unfoldable pub conflict_details : ConflictResult → Text
conflict_details result =
    join (codes "; ")
      (map (λ (c : ConflictInfo). c.message ++ (codes ": " ++ c.details)) result.conflicts)

unfoldable pub is_live : ModuleInfo → Bool
is_live m = elim m.state [ live ↦ true | _ ↦ false ]

module _ {S : System} where
  unfoldable pub get_loaded_modules : World S → List Text
  unfolding is_live
  get_loaded_modules w = elim (list_modules w) [
    | ok modules ↦ map (λ (m : ModuleInfo). m.name) (keep is_live modules)
    | err e ↦ []
  ]

  unfoldable pub fail_operation : Text → Text → Text → Text → EventCategory → M S OperationResult
  fail_operation driver_name message reason caller category = do
    audit category error (codes "operation_failed") caller (message ++ (codes ": " ++ reason))
    pure (failure driver_name message reason)

  -- `OperationTracker`.
  unfoldable pub save_state : DriverEntry → M S Text
  unfolding next_sequence is_loaded
  save_state driver = do
    n ← next_sequence
    let correlation_id = codes "op-" ++ show n
    λ w. (
      record w {
        saved_states =
            w.saved_states
            ++ record {
              driver = driver;
              was_loaded = is_loaded driver.id.name w;
              correlation_id = correlation_id;
            }
              ∷ [];
      },
      correlation_id,
    )

  unfoldable pub find_state : Text → World S → Option SavedState
  find_state correlation_id w =
      find (λ (s : SavedState). text_eq s.correlation_id correlation_id) w.saved_states

  unfoldable pub remove_state : Text → M S (Unit {0})
  remove_state correlation_id w = (
    record w {
      saved_states =
          keep (λ (s : SavedState). not (text_eq s.correlation_id correlation_id)) w.saved_states;
    },
    tt,
  )

  unfoldable pub find_package_path : Engine → DriverEntry → World S → Text
  find_package_path e driver w =
      let staged = path_join e.store_path (driver.id.name ++ codes ".ko") in
      let staged2 = path_join e.store_path driver.id.name in
      if S.exists w.os staged then staged else if S.exists w.os staged2 then staged2 else staged

  unfoldable pub read_package_signature : Engine → DriverEntry → World S → Text
  read_package_signature e driver w =
      elim (S.read_file w.os (path_join e.store_path (driver.id.name ++ codes ".sig"))) [
        | ok signature ↦ signature
        | err x ↦ []
      ]

  unfoldable pub update_driver_status : DriverId → DriverStatus → M S (Unit {0})
  unfolding same_driver
  update_driver_status id new_status w =
      let inventory = w.inventory in
      (
        record w {
          inventory = record inventory {
            drivers =
                change_first (same_driver id) (λ d. record d { status = new_status })
                  inventory.drivers;
            last_scan_timestamp = S.now w.os;
          };
        },
        tt,
      )

  unfoldable pub execute_install : Engine → DriverEntry → M S (ServiceResult (Unit {0}))
  unfolding find_package_path load_module
  execute_install e driver w =
      let path = find_package_path e driver w in
      let dest = path_join (codes "/lib/firmware") driver.id.name in
      elim driver.id.module_type [
        | kernel_module ↦
            (if S.exists w.os path
              then load_module driver.id.name path w
              else if S.module_available w.os driver.id.name
              then (w, ok tt)
              else (
                w,
                err (
                    not_found
                      (codes "Module file for '" ++ (driver.id.name ++ codes "' not found"))),
              ))
        | firmware ↦
            let (os', copied) = S.copy_file (S.create_parent w.os dest) path dest in
            (
              record w { os = os' },
              elim copied [
                | ok _ ↦ ok tt
                | err x ↦ err (internal (codes "cannot install firmware: " ++ x))
              ],
            )
        | userspace ↦ (w, ok tt)
        | device_tree_overlay ↦ (
          w,
          err (not_supported (codes "Device tree overlay installation is not supported in M2-D")),
        )
      ]

  unfoldable pub execute_remove : DriverEntry → Bool → M S (ServiceResult (Unit {0}))
  unfolding is_loaded unload_module
  execute_remove driver force w =
      let path = path_join (codes "/lib/firmware") driver.id.name in
      elim driver.id.module_type [
        | kernel_module ↦
            (if is_loaded driver.id.name w
              then unload_module driver.id.name force w
              else (w, ok tt))
        | firmware ↦
            (if S.exists w.os path
              then (let (os', removed) = S.remove_file w.os path in
                  (
                    record w { os = os' },
                    elim removed [
                      | ok _ ↦ ok tt
                      | err x ↦ err (internal (codes "cannot remove firmware: " ++ x))
                    ],
                  ))
              else (w, ok tt))
        | userspace ↦ (w, ok tt)
        | device_tree_overlay ↦
            (w, err (not_supported (codes "Device tree overlay removal is not supported in M2-D")))
      ]

  -- The old module is unloaded if it is loaded; if that fails nothing is installed.
  unfoldable pub execute_update : Engine → DriverEntry → M S (ServiceResult (Unit {0}))
  unfolding is_loaded unload_module execute_install
  execute_update e driver w =
      let (w', unloaded) = unload_module driver.id.name false w in
      if is_loaded driver.id.name w
      then elim unloaded [ ok _ ↦ execute_install e driver w' | err x ↦ (w', err x) ]
      else execute_install e driver w

  -- The entry goes back to what it was, and a module that was loaded is loaded again.
  unfoldable pub restore : Engine → SavedState → M S (Unit {0})
  unfolding same_driver find_package_path load_module is_loaded
  restore e saved w =
      let inventory = w.inventory in
      let restored = record w {
        inventory = record inventory {
          drivers =
              change_first (same_driver saved.driver.id) (λ _. saved.driver) inventory.drivers;
        };
      } in
      let reloaded =
        load_module saved.driver.id.name (find_package_path e saved.driver restored) restored in
      if saved.was_loaded then (reloaded.0, tt) else (restored, tt)

  unfoldable pub rollback_found : Engine → Text → Text → SavedState → M S (Unit {0})
  unfolding restore remove_state
  rollback_found e correlation_id caller saved = do
    restore e saved
    audit driver_install warning (codes "rollback_completed") caller (
        codes "Rollback completed for operation '"
        ++ (correlation_id
            ++ (codes "', restored driver '" ++ (saved.driver.id.name ++ codes "'"))))
    remove_state correlation_id

  unfoldable pub rollback_operation : Engine → Text → Text → M S (Unit {0})
  unfolding rollback_found find_state
  rollback_operation e correlation_id caller w = elim (find_state correlation_id w) [
    | some saved ↦ rollback_found e correlation_id caller saved w
    | none ↦
        audit driver_install error (codes "rollback_failed") caller
          (codes "Rollback failed: no saved state found for operation '"
            ++ (correlation_id ++ codes "'"))
          w
  ]
