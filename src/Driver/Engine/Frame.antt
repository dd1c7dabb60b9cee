-- ===== src/Driver/Engine/Frame.antt =====
-- What the steps of services/driverd/src/execution.rs leave as it is.
use mission_os.Base.{
  List, [], ◌∷◌, ◌++◌, Option, Bool, true, false, ◌≡◌, refl, ◌∙◌, arith, if◌then◌else◌,
}
use mission_os.Base.Text.{Text, codes}
use mission_os.Driver.Inventory.{DriverEntry, OperationResult, failed, failure}
use mission_os.Driver.Audit.{EventCategory, EventSeverity, error, AuditEvent, new_event}
use mission_os.Driver.System.{System}
use mission_os.Driver.World.{World, M, audit, record_event, next_sequence}
use mission_os.Driver.Authz.{
  Authorizer, DriverAction, authorize, polkit_audit, audit_authorization,
  polkit_audit_authorization,
}
use mission_os.Driver.Kmod.{load_module, unload_module}
use mission_os.Driver.Verification.{SignatureVerifier, verify_package, audit_verification}
use mission_os.Driver.Engine.{
  Engine, fail_operation, execute_install, execute_remove, execute_update, find_package_path,
}

module _ {S : System} where
  -- The inventory and the saved states are the same.
  pub record Keeps (w w' : World S) : Type 0 where
    pub inventory_same : w'.inventory ≡ w.inventory
    pub saved_same : w'.saved_states ≡ w.saved_states

  -- So is the operating system.
  pub record Untouched (w w' : World S) : Type 0 where
    pub os_same : w'.os ≡ w.os
    pub keeps : Keeps w w'

  -- The last event of the audit log reports a failed operation.
  pub record IsReported (w : World S) : Type 0 where
    pub earlier : List AuditEvent
    pub event : AuditEvent
    pub is_last : w.log ≡ earlier ++ event ∷ []
    pub is_error : event.severity ≡ error
    pub is_failure : event.action ≡ codes "operation_failed"

  -- Nothing is done, the answer is a failure, and the audit log reports it.
  pub record Refused (w : World S) (out : World S × OperationResult) : Type 0 where
    pub untouched : Untouched w out.0
    pub is_failed : out.1.status ≡ failed
    pub is_reported : IsReported out.0

  pub Keeps-refl : (w : World S) → Keeps w w
  Keeps-refl w = record { inventory_same = refl; saved_same = refl }

  pub Keeps-trans : {u v w : World S} → Keeps u v → Keeps v w → Keeps u w
  Keeps-trans h k = record {
    inventory_same = k.inventory_same ∙ h.inventory_same;
    saved_same = k.saved_same ∙ h.saved_same;
  }

  pub Untouched-refl : (w : World S) → Untouched w w
  Untouched-refl w = record { os_same = refl; keeps = Keeps-refl w }

  pub Untouched-trans : {u v w : World S} → Untouched u v → Untouched v w → Untouched u w
  Untouched-trans h k = record {
    os_same = k.os_same ∙ h.os_same;
    keeps = Keeps-trans h.keeps k.keeps;
  }

  pub audit-Untouched :
      (category : EventCategory) (severity : EventSeverity) (action subject details : Text)
      (w : World S)
      → Untouched w (audit category severity action subject details w).0
  unfolding audit record_event
  audit-Untouched category severity action subject details w = record {
    os_same = refl;
    keeps = record { inventory_same = refl; saved_same = refl };
  }

  pub next_sequence-Untouched : (w : World S) → Untouched w (next_sequence w).0
  unfolding next_sequence
  next_sequence-Untouched w = record {
    os_same = refl;
    keeps = record { inventory_same = refl; saved_same = refl };
  }

  pub fail_operation-Refused :
      (driver_name message reason caller : Text) (category : EventCategory) (w : World S)
      → Refused w (fail_operation driver_name message reason caller category w)
  unfolding fail_operation failure audit record_event new_event
  fail_operation-Refused driver_name message reason caller category w = record {
    untouched = audit-Untouched category _ _ _ _ w;
    is_failed = refl;
    is_reported = record {
      earlier = _;
      event = _;
      is_last = refl;
      is_error = refl;
      is_failure = refl;
    };
  }

  polkit_audit-Untouched :
      (a : Authorizer) (action : DriverAction) (subject : Text) (w : World S)
      → Untouched w (polkit_audit a action subject w).0
  unfolding polkit_audit polkit_audit_authorization audit record_event
  polkit_audit-Untouched a action subject w = ground (arith, Untouched-refl w)

  pub authorize-Untouched :
      (a : Authorizer) (action : DriverAction) (subject : Text) (w : World S)
      → Untouched w (authorize a action subject w).0
  unfolding authorize audit_authorization
  authorize-Untouched a action subject w =
      Untouched-trans (polkit_audit-Untouched a action subject w) (audit-Untouched _ _ _ _ _ _)

  pub verify_package-Untouched :
      (v : SignatureVerifier) (path signature : Text) (key_id : Option Text) (w : World S)
      → Untouched w (verify_package v path signature key_id w).0
  unfolding verify_package audit_verification
  verify_package-Untouched v path signature key_id w = audit-Untouched _ _ _ _ _ w

  Keeps-os : (w : World S) (os : S.State) → Keeps w (record w { os = os })
  Keeps-os w os = record { inventory_same = refl; saved_same = refl }

  pub load_module-Keeps : (name path : Text) (w : World S) → Keeps w (load_module name path w).0
  unfolding load_module
  load_module-Keeps name path w = ground (arith, Keeps-refl w, Keeps-os w)

  pub unload_module-Keeps :
      (name : Text) (force : Bool) (w : World S) → Keeps w (unload_module name force w).0
  unfolding unload_module
  unload_module-Keeps name force w = ground (arith, Keeps-refl w, Keeps-os w)

  pub execute_install-Keeps :
      (e : Engine) (driver : DriverEntry) (w : World S) → Keeps w (execute_install e driver w).0
  unfolding execute_install
  execute_install-Keeps e driver w = grind (
    arith,
    Keeps-refl w,
    Keeps-os w,
    load_module-Keeps driver.id.name (find_package_path e driver w) w,
  )

  pub execute_remove-Keeps :
      (driver : DriverEntry) (force : Bool) (w : World S)
      → Keeps w (execute_remove driver force w).0
  unfolding execute_remove
  execute_remove-Keeps driver force w =
      grind (arith, Keeps-refl w, Keeps-os w, unload_module-Keeps driver.id.name force w)

  pub execute_update-Keeps :
      (e : Engine) (driver : DriverEntry) (w : World S) → Keeps w (execute_update e driver w).0
  unfolding execute_update
  execute_update-Keeps e driver w =
      let unloaded = unload_module-Keeps driver.id.name false w in
      ground (
        arith,
        unloaded,
        execute_install-Keeps e driver w,
        Keeps-trans unloaded
            (execute_install-Keeps e driver (unload_module driver.id.name false w).0),
      )

  pub Refused-after :
      {v w : World S} {out : World S × OperationResult}
      → Untouched v w
      → Refused w out
      → Refused v out
  Refused-after h r = record {
    untouched = Untouched-trans h r.untouched;
    is_failed = r.is_failed;
    is_reported = r.is_reported;
  }

  -- A property of both branches is one of a test between them.
  pub if-gate :
      {A : Type 0} (Q : World S × A → Type 0) (b : Bool) (x y : M S A) (w : World S)
      → (b ≡ true → Q (x w))
      → (b ≡ false → Q (y w))
      → Q ((if b then x else y) w)
  if-gate Q true x y w h k = h refl
  if-gate Q false x y w h k = k refl
