-- ===== src/Driver/Engine/Remove.antt =====
-- `remove_driver` of services/driverd/src/execution.rs, cut where it branches.
use mission_os.Base.{◌++◌, Option, none, some, not, ◌&&◌, find, if◌then◌else◌}
use mission_os.Base.Results.{ok, err}
use mission_os.Base.Text.{Text, codes, eq_ignore_ascii_case}
use mission_os.Driver.Error.{ServiceResult, error_text}
use mission_os.Driver.Inventory.{
  DriverEntry, DriverInventory, removed, RemoveRequest, validate_remove, OperationResult, success,
  failure,
}
use mission_os.Driver.Audit.{driver_remove, info}
use mission_os.Driver.Conflict.{check_remove}
use mission_os.Driver.System.{System}
use mission_os.Driver.World.{M, ◌>>=◌, ◌>>◌, pure, gets, audit, next_sequence}
use mission_os.Driver.Authz.{DriverAction, authorize, is_authorized}
use mission_os.Driver.Engine.{
  Engine, conflict_details, get_loaded_modules, fail_operation, save_state, remove_state,
  update_driver_status, execute_remove, rollback_operation,
}

-- The first entry of that name, whatever its provider.
unfoldable pub find_by_name : DriverInventory → Text → Option DriverEntry
find_by_name inventory name =
    find (λ (d : DriverEntry). eq_ignore_ascii_case d.id.name name) inventory.drivers

module _ {S : System} (e : Engine) (caller : Text) where
  unfoldable pub finish_remove : DriverEntry → Text → ServiceResult (Unit {0}) → M S OperationResult
  finish_remove driver corr_id (ok _) = do
    update_driver_status driver.id removed
    audit driver_remove info (codes "driver_remove_completed") caller
        (codes "Driver '" ++ (driver.id.name ++ codes "' removed successfully"))
    remove_state corr_id
    pure (
        success driver.id.name
          (codes "Driver '" ++ (driver.id.name ++ codes "' removed successfully")))
  finish_remove driver corr_id (err x) = do
    rollback_operation e corr_id caller
    pure (failure driver.id.name (codes "Removal failed and was rolled back") (error_text x))

  unfoldable pub perform_remove : RemoveRequest → DriverEntry → M S OperationResult
  unfolding finish_remove
  perform_remove request driver = do
    corr_id ← save_state driver
    result ← execute_remove driver request.force
    finish_remove driver corr_id result

  unfoldable pub check_and_remove : RemoveRequest → DriverEntry → M S OperationResult
  unfolding perform_remove
  check_and_remove request driver = do
    loaded_modules ← gets get_loaded_modules
    inventory ← gets (λ w. w.inventory)
    let conflict_result = check_remove driver loaded_modules inventory.drivers
    if conflict_result.has_conflicts && not request.force
        then fail_operation request.driver_name (codes "Removal blocked by conflicts")
            (conflict_details conflict_result) caller driver_remove
        else perform_remove request driver

  unfoldable pub find_and_remove : RemoveRequest → M S OperationResult
  unfolding check_and_remove find_by_name
  find_and_remove request w = elim (find_by_name w.inventory request.driver_name) [
    | some driver ↦ check_and_remove request driver w
    | none ↦
        fail_operation request.driver_name (codes "Driver not found")
          (codes "Driver '" ++ (request.driver_name ++ codes "' not found in inventory")) caller
          driver_remove w
  ]

  unfoldable pub validate_and_remove : RemoveRequest → M S OperationResult
  unfolding find_and_remove
  validate_and_remove request = elim (validate_remove request) [
    | err x ↦
        fail_operation request.driver_name (codes "Invalid removal request") (error_text x) caller
          driver_remove
    | ok _ ↦ find_and_remove request
  ]

  unfoldable pub remove_driver : RemoveRequest → M S OperationResult
  unfolding validate_and_remove
  remove_driver request = do
    _ ← next_sequence
    audit driver_remove info (codes "driver_remove_requested") caller
        (codes "Removal of '" ++ (request.driver_name ++ codes "' requested"))
    auth ← authorize e.authorizer DriverAction.remove_driver caller
    if not (is_authorized auth)
        then fail_operation request.driver_name (codes "Removal not authorized")
            (codes "Permission denied by authorization policy") caller driver_remove
        else validate_and_remove request
