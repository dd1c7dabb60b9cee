-- ===== src/Driver/Engine/Gates.antt =====
-- What `install_driver` of services/driverd/src/execution.rs asks for before it acts.
use mission_os.Base.{
  none, some, Bool, true, not, ◌&&◌, ◌||◌, ◌⊎◌, inl, inr, List, ◌≡◌, refl, subst, arith,
  Option-cases,
}
use mission_os.Base.Results.{ok, Result-cases}
use mission_os.Base.Text.{Text}
use mission_os.Driver.Inventory.{
  DriverEntry, HardwareDevice, InstallRequest, validate_install, OperationResult, find_driver,
}
use mission_os.Driver.Conflict.{check_install}
use mission_os.Driver.System.{System}
use mission_os.Driver.World.{World}
use mission_os.Driver.Authz.{DriverAction, authorize, decision, is_authorized}
use mission_os.Driver.Verification.{is_valid, check_package, verify_package}
use mission_os.Driver.Engine.{Engine, get_loaded_modules, find_package_path, read_package_signature}
use mission_os.Driver.Kmod.{list_modules}
use mission_os.Driver.Engine.Install.{
  needs_signature, perform_install, verify_and_install, check_and_install, find_and_install,
  validate_and_install, install_driver,
}
use mission_os.Driver.Engine.Frame.{
  Untouched, Refused, Untouched-refl, Untouched-trans, audit-Untouched, next_sequence-Untouched,
  fail_operation-Refused, Refused-after, if-gate, authorize-Untouched, verify_package-Untouched,
}

module _ {S : System} (e : Engine) (caller : Text) where
  -- The verification of the driver's package answers valid.
  abbrev pub signature_valid : DriverEntry → World S → Bool
  signature_valid driver w =
      is_valid
        (check_package S.signature_valid e.verifier
          (S.read_file w.os (find_package_path e driver w)) (read_package_signature e driver w)
          none).outcome

  -- The verification answers valid where it is asked for, or drivers without a signature are allowed:
  -- then one whose signature is not valid passes as well.
  abbrev pub signature_accepted : DriverEntry → World S → Bool
  signature_accepted driver w =
      not (needs_signature driver.id.module_type) || (signature_valid driver w || e.allow_unsigned)

  -- Everything that an installation asks for, in the state that it starts in.
  pub record IsInstallable (request : InstallRequest) (devices : List HardwareDevice) (w : World S)
      (driver : DriverEntry) : Type 0 where
    pub is_allowed : is_authorized (decision e.authorizer DriverAction.install_driver caller) ≡ true
    pub is_well_formed : validate_install request ≡ ok tt
    pub is_listed : find_driver w.inventory request.driver_name request.provider ≡ some driver
    pub has_no_obstacle :
        (not
            (check_install e.system driver w.inventory.drivers
              (get_loaded_modules w)
              devices).has_conflicts
          || request.force)
        ≡ true
    pub is_signed : signature_accepted driver w ≡ true

  -- The operation is refused, or it is the installation itself in a state like the first.
  pub record Performs (w : World S) (driver : DriverEntry) (out : World S × OperationResult)
      : Type 0 where
    pub start : World S
    pub untouched : Untouched w start
    pub is_performed : out ≡ perform_install e caller driver start

  verify-gate :
      (request : InstallRequest) (driver : DriverEntry) (w : World S)
      → Refused w (verify_and_install e caller request driver w)
        ⊎ ((signature_accepted driver w ≡ true)
            × Performs w driver (verify_and_install e caller request driver w))
  unfolding verify_and_install verify_package
  verify-gate request driver w =
      let Q = λ (out : World S × OperationResult).
        Refused w out ⊎ ((signature_accepted driver w ≡ true) × Performs w driver out) in
      let checked =
        verify_package-Untouched e.verifier (find_package_path e driver w)
          (read_package_signature e driver w) none w in
      if-gate Q (needs_signature driver.id.module_type) _ _ w
        (λ h.
          if-gate Q (not (signature_valid driver w) && not e.allow_unsigned) _ _ _
            (λ k. inl (Refused-after checked (fail_operation-Refused _ _ _ _ _ _)))
            (λ k.
              inr (ground arith, record { start = _; untouched = checked; is_performed = refl })))
        (λ h.
          inr
            (ground arith, record { start = w; untouched = Untouched-refl w; is_performed = refl }))

  -- What is asked for is read off the operating system and the inventory.
  IsInstallable-before :
      (request : InstallRequest) (devices : List HardwareDevice) (v w : World S)
      (driver : DriverEntry)
      → Untouched v w
      → IsInstallable request devices w driver
      → IsInstallable request devices v driver
  unfolding get_loaded_modules list_modules find_package_path read_package_signature
  IsInstallable-before request devices v w driver h k =
      let same_os = h.os_same in
      let same_inventory = h.keeps.inventory_same in
      record {
        is_allowed = k.is_allowed;
        is_well_formed = k.is_well_formed;
        is_listed =
            subst (λ i. find_driver i request.driver_name request.provider ≡ some driver)
              same_inventory k.is_listed;
        has_no_obstacle = cc (k.has_no_obstacle, same_os, same_inventory);
        is_signed = cc (k.is_signed, same_os);
      }

  check-gate :
      (request : InstallRequest) (devices : List HardwareDevice) (driver : DriverEntry)
      (w : World S)
      → Refused w (check_and_install e caller request devices driver w)
        ⊎ (((not
                  (check_install e.system driver w.inventory.drivers
                    (get_loaded_modules w)
                    devices).has_conflicts
                || request.force)
              ≡ true)
            × (signature_accepted driver w ≡ true)
            × Performs w driver (check_and_install e caller request devices driver w))
  unfolding check_and_install
  check-gate request devices driver w =
      let conflicts =
        (check_install e.system driver w.inventory.drivers (get_loaded_modules w)
          devices).has_conflicts in
      if-gate
        (λ out.
          Refused w out
          ⊎ (((not conflicts || request.force) ≡ true)
              × (signature_accepted driver w ≡ true)
              × Performs w driver out))
        (conflicts && not request.force) _ _ w (λ h. inl (fail_operation-Refused _ _ _ _ _ _))
        (λ h. elim (verify-gate request driver w) [
          | inl refused ↦ inl refused
          | inr (signed, done) ↦ inr (ground arith, signed, done)
        ])

  find-gate :
      (request : InstallRequest) (devices : List HardwareDevice) (w : World S)
      → (is_authorized (decision e.authorizer DriverAction.install_driver caller) ≡ true)
      → (validate_install request ≡ ok tt)
      → Refused w (find_and_install e caller request devices w)
        ⊎ ((driver : DriverEntry) × IsInstallable request devices w driver
            × Performs w driver (find_and_install e caller request devices w))
  unfolding find_and_install
  find-gate request devices w allowed formed =
      elim (Option-cases (find_driver w.inventory request.driver_name request.provider)) [
        | inl h ↦ rw (h, find_and_install) (inl (fail_operation-Refused _ _ _ _ _ _))
        | inr (driver, h) ↦
            rw (h, find_and_install)
              (elim (check-gate request devices driver w) [
                | inl refused ↦ inl refused
                | inr (clear, signed, done) ↦ inr (
                  driver,
                  record {
                    is_allowed = allowed;
                    is_well_formed = formed;
                    is_listed = h;
                    has_no_obstacle = clear;
                    is_signed = signed;
                  },
                  done,
                )
              ])
      ]

  validate-gate :
      (request : InstallRequest) (devices : List HardwareDevice) (w : World S)
      → (is_authorized (decision e.authorizer DriverAction.install_driver caller) ≡ true)
      → Refused w (validate_and_install e caller request devices w)
        ⊎ ((driver : DriverEntry) × IsInstallable request devices w driver
            × Performs w driver (validate_and_install e caller request devices w))
  unfolding validate_and_install
  validate-gate request devices w allowed = elim (Result-cases (validate_install request)) [
    | inl (u, h) ↦ rw (h, validate_and_install) (find-gate request devices w allowed h)
    | inr (x, h) ↦ rw (h, validate_and_install) (inl (fail_operation-Refused _ _ _ _ _ _))
  ]

  -- An installation is refused, with the operating system, the inventory and the saved states as
  -- they were, a failure for an answer and an error as the last event of the audit log; or the
  -- caller is authorized, the request is well formed, the driver is in the inventory, no conflict
  -- is found or the request forces it, for a kernel module or a firmware the verification of the
  -- signature answers valid or the engine allows unsigned drivers, under which one whose signature is
  -- not valid passes as well, and what is done is the installation itself.
  pub install_driver-gates :
      (request : InstallRequest) (devices : List HardwareDevice) (w : World S)
      → Refused w (install_driver e caller request devices w)
        ⊎ ((driver : DriverEntry) × IsInstallable request devices w driver
            × Performs w driver (install_driver e caller request devices w))
  unfolding install_driver authorize
  install_driver-gates request devices w =
      let start = Untouched-trans (next_sequence-Untouched w) (
        Untouched-trans (audit-Untouched _ _ _ _ _ _)
          (authorize-Untouched e.authorizer DriverAction.install_driver caller _)) in
      if-gate
        (λ out.
          Refused w out
          ⊎ ((driver : DriverEntry) × IsInstallable request devices w driver
              × Performs w driver out))
        (not (is_authorized (decision e.authorizer DriverAction.install_driver caller))) _ _ _
        (λ h. inl (Refused-after start (fail_operation-Refused _ _ _ _ _ _)))
        (λ h. elim (validate-gate request devices _ (ground arith)) [
          | inl refused ↦ inl (Refused-after start refused)
          | inr (driver, installable, done) ↦ inr (
            driver,
            IsInstallable-before request devices w _ driver start installable,
            record {
              start = done.start;
              untouched = Untouched-trans start done.untouched;
              is_performed = done.is_performed;
            },
          )
        ])
