-- ===== src/Driver/Engine/Install.antt =====
-- `install_driver` of services/driverd/src/execution.rs, cut where it branches.
use mission_os.Base.{List, ◌++◌, none, some, Bool, true, false, not, ◌&&◌, if◌then◌else◌}
use mission_os.Base.Results.{ok, err}
use mission_os.Base.Text.{Text, codes}
use mission_os.Driver.Error.{ServiceResult, error_text}
use mission_os.Driver.Inventory.{
  DriverEntry, HardwareDevice, DriverModuleType, kernel_module, firmware, installed, InstallRequest,
  validate_install, OperationResult, success, failure, find_driver,
}
use mission_os.Driver.Audit.{driver_install, info}
use mission_os.Driver.Conflict.{check_install}
use mission_os.Driver.System.{System}
use mission_os.Driver.World.{M, ◌>>=◌, ◌>>◌, pure, gets, audit, next_sequence}
use mission_os.Driver.Authz.{DriverAction, authorize, is_authorized}
use mission_os.Driver.Verification.{is_valid, verify_package}
use mission_os.Driver.Engine.{
  Engine, conflict_details, get_loaded_modules, fail_operation, save_state, remove_state,
  find_package_path, read_package_signature, update_driver_status, execute_install,
  rollback_operation,
}

unfoldable pub needs_signature : DriverModuleType → Bool
needs_signature kernel_module = true
needs_signature firmware = true
needs_signature _ = false

module _ {S : System} (e : Engine) (caller : Text) where
  unfoldable pub finish_install :
      DriverEntry → Text → ServiceResult (Unit {0}) → M S OperationResult
  finish_install driver corr_id (ok _) = do
    update_driver_status driver.id installed
    audit driver_install info (codes "driver_install_completed") caller
        (codes "Driver '" ++ (driver.id.name ++ codes "' installed successfully"))
    remove_state corr_id
    pure (
        success driver.id.name
          (codes "Driver '" ++ (driver.id.name ++ codes "' installed successfully")))
  finish_install driver corr_id (err x) = do
    rollback_operation e corr_id caller
    pure (failure driver.id.name (codes "Installation failed and was rolled back") (error_text x))

  unfoldable pub perform_install : DriverEntry → M S OperationResult
  unfolding finish_install
  perform_install driver = do
    corr_id ← save_state driver
    result ← execute_install e driver
    finish_install driver corr_id result

  unfoldable pub verify_and_install : InstallRequest → DriverEntry → M S OperationResult
  unfolding perform_install needs_signature
  verify_and_install request driver =
      if needs_signature driver.id.module_type
      then (do
        package_path ← gets (find_package_path e driver)
        signature ← gets (read_package_signature e driver)
        verify_result ← verify_package e.verifier package_path signature none
        if not (is_valid verify_result.outcome) && not e.allow_unsigned
            then fail_operation request.driver_name (codes "Package verification failed")
                verify_result.description caller driver_install
            else perform_install driver)
      else perform_install driver

  unfoldable pub check_and_install :
      InstallRequest → List HardwareDevice → DriverEntry → M S OperationResult
  unfolding verify_and_install
  check_and_install request hardware_devices driver = do
    loaded_modules ← gets get_loaded_modules
    inventory ← gets (λ w. w.inventory)
    let conflict_result =
        check_install e.system driver inventory.drivers loaded_modules hardware_devices
    if conflict_result.has_conflicts && not request.force
        then fail_operation request.driver_name (codes "Installation blocked by conflicts")
            (conflict_details conflict_result) caller driver_install
        else verify_and_install request driver

  unfoldable pub find_and_install : InstallRequest → List HardwareDevice → M S OperationResult
  unfolding check_and_install
  find_and_install request hardware_devices w =
      elim (find_driver w.inventory request.driver_name request.provider) [
        | some driver ↦ check_and_install request hardware_devices driver w
        | none ↦
            fail_operation request.driver_name (codes "Driver not found")
              (codes "Driver '"
                ++ (request.provider
                    ++ (codes "/" ++ (request.driver_name ++ codes "' not found in inventory"))))
              caller driver_install w
      ]

  unfoldable pub validate_and_install : InstallRequest → List HardwareDevice → M S OperationResult
  unfolding find_and_install
  validate_and_install request hardware_devices = elim (validate_install request) [
    | err x ↦
        fail_operation request.driver_name (codes "Invalid installation request") (error_text x)
          caller driver_install
    | ok _ ↦ find_and_install request hardware_devices
  ]

  unfoldable pub install_driver : InstallRequest → List HardwareDevice → M S OperationResult
  unfolding validate_and_install
  install_driver request hardware_devices = do
    _ ← next_sequence
    audit driver_install info (codes "driver_install_requested") caller (
        codes "Installation of '"
        ++ (request.driver_name ++ (codes "' from '" ++ (request.provider ++ codes "' requested"))))
    auth ← authorize e.authorizer DriverAction.install_driver caller
    if not (is_authorized auth)
        then fail_operation request.driver_name (codes "Installation not authorized")
            (codes "Permission denied by authorization policy") caller driver_install
        else validate_and_install request hardware_devices
