-- ===== src/Driver/Engine/Update.antt =====
-- `update_driver` of services/driverd/src/execution.rs, cut where it branches.
use mission_os.Base.{
  Ordering, ◌++◌, Option, none, some, Bool, true, false, not, ◌&&◌, if◌then◌else◌,
}
use mission_os.Base.Results.{ok, err}
use mission_os.Base.Text.{Text, codes, text_eq, eq_ignore_ascii_case}
use mission_os.Driver.Error.{ServiceResult, error_text}
use mission_os.Driver.Inventory.{
  DriverEntry, active, UpdateRequest, validate_update, OperationResult, success, failure,
}
use mission_os.Driver.Inventory.Versions
use mission_os.Driver.Audit.{driver_update, info, warning}
use mission_os.Driver.System.{System}
use mission_os.Driver.World.{M, ◌>>=◌, ◌>>◌, pure, audit, next_sequence}
use mission_os.Driver.Authz.{DriverAction, authorize, is_authorized}
use mission_os.Driver.Engine.{
  Engine, change_first, fail_operation, save_state, remove_state, execute_update,
  rollback_operation,
}
use mission_os.Driver.Engine.Remove.{find_by_name}

-- The test of the entry that is replaced: its name is the request's up to case, its provider is
-- exactly the driver's.
unfoldable pub is_updated : UpdateRequest → DriverEntry → DriverEntry → Bool
is_updated request current_driver d =
    eq_ignore_ascii_case d.id.name request.driver_name
    && text_eq d.id.provider current_driver.id.provider

unfoldable pub downgrade_text : DriverEntry → Versions.DriverVersion → Text
downgrade_text current_driver requested_version =
    codes "installed version "
    ++ (Versions.display current_driver.id.version
        ++ (codes " is newer than requested version "
            ++ (Versions.display requested_version
                ++ codes "; downgrade is not permitted without explicit policy override")))

unfoldable pub is_newer : Versions.DriverVersion → Versions.DriverVersion → Bool
is_newer v w = elim (Versions.cmp v w) [ Ordering.gt ↦ true | _ ↦ false ]

module _ {S : System} (e : Engine) (caller : Text) where
  unfoldable pub replace_updated : UpdateRequest → DriverEntry → M S (Unit {0})
  unfolding is_updated
  replace_updated request current_driver w =
      let inventory = w.inventory in
      (
        record w {
          inventory = record inventory {
            drivers =
                change_first (is_updated request current_driver)
                  (λ _. record current_driver { status = active }) inventory.drivers;
          };
        },
        tt,
      )

  unfoldable pub finish_update :
      UpdateRequest → DriverEntry → Text → ServiceResult (Unit {0}) → M S OperationResult
  unfolding replace_updated
  finish_update request current_driver corr_id (ok _) = do
    replace_updated request current_driver
    audit driver_update info (codes "driver_update_completed") caller
        (codes "Driver '" ++ (request.driver_name ++ codes "' updated successfully"))
    remove_state corr_id
    pure (
        success request.driver_name
          (codes "Driver '" ++ (request.driver_name ++ codes "' updated successfully")))
  finish_update request current_driver corr_id (err x) = do
    rollback_operation e corr_id caller
    pure (failure request.driver_name (codes "Update failed and was rolled back") (error_text x))

  unfoldable pub perform_update : UpdateRequest → DriverEntry → M S OperationResult
  unfolding finish_update
  perform_update request current_driver = do
    corr_id ← save_state current_driver
    result ← execute_update e current_driver
    finish_update request current_driver corr_id result

  unfoldable pub reject_downgrade : UpdateRequest → Text → M S OperationResult
  reject_downgrade request msg = do
    audit driver_update warning (codes "downgrade_rejected") caller msg
    fail_operation request.driver_name (codes "Downgrade rejected") msg caller driver_update

  -- Downgrade protection.
  unfoldable pub check_target : UpdateRequest → DriverEntry → Option Text → M S OperationResult
  unfolding perform_update reject_downgrade is_newer downgrade_text
  check_target request current_driver none = perform_update request current_driver
  check_target request current_driver (some target) = elim (Versions.parse target) [
    | ok requested_version ↦
        (if is_newer current_driver.id.version requested_version && not request.allow_downgrade
          then reject_downgrade request (downgrade_text current_driver requested_version)
          else perform_update request current_driver)
    | err x ↦
        fail_operation request.driver_name (codes "Invalid target version") (error_text x) caller
          driver_update
  ]

  unfoldable pub check_and_update : UpdateRequest → DriverEntry → M S OperationResult
  unfolding check_target
  check_and_update request current_driver =
      check_target request current_driver request.target_version

  unfoldable pub find_and_update : UpdateRequest → M S OperationResult
  unfolding check_and_update find_by_name
  find_and_update request w = elim (find_by_name w.inventory request.driver_name) [
    | some current_driver ↦ check_and_update request current_driver w
    | none ↦
        fail_operation request.driver_name (codes "Driver not found for update")
          (codes "Driver '" ++ (request.driver_name ++ codes "' not found in inventory")) caller
          driver_update w
  ]

  unfoldable pub validate_and_update : UpdateRequest → M S OperationResult
  unfolding find_and_update
  validate_and_update request = elim (validate_update request) [
    | err x ↦
        fail_operation request.driver_name (codes "Invalid update request") (error_text x) caller
          driver_update
    | ok _ ↦ find_and_update request
  ]

  unfoldable pub update_driver : UpdateRequest → M S OperationResult
  unfolding validate_and_update
  update_driver request = do
    _ ← next_sequence
    audit driver_update info (codes "driver_update_requested") caller (
        codes "Update of '"
        ++ (request.driver_name
            ++ (codes "' to " ++ (S.debug request.target_version ++ codes " requested"))))
    auth ← authorize e.authorizer DriverAction.update_driver caller
    if not (is_authorized auth)
        then fail_operation request.driver_name (codes "Update not authorized")
            (codes "Permission denied by authorization policy") caller driver_update
        else validate_and_update request
