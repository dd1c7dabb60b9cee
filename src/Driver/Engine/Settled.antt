-- ===== src/Driver/Engine/Settled.antt =====
-- What the operations of services/driverd/src/execution.rs leave in the inventory and in the
-- `OperationTracker`, when they succeed and when they fail.
use mission_os.Base.{some, ◌⊎◌, inl, inr, List, [], ◌∷◌, ◌≡◌, refl, sym, ap, ◌∙◌, subst, arith}
use mission_os.Base.Results.{ok, err}
use mission_os.Base.Text.{Text, text_eq_refl}
use mission_os.Driver.Error.{ServiceResult}
use mission_os.Driver.Inventory.{
  DriverEntry, DriverStatus, HardwareDevice, installed, InstallRequest, OperationResult, completed,
  failed, find_driver, success, failure,
}
use mission_os.Driver.System.{System}
use mission_os.Driver.World.{World, SavedState, audit, record_event, next_sequence}
use mission_os.Driver.Kmod.{is_loaded}
use mission_os.Driver.Engine.{
  Engine, same_driver, change_first, save_state, remove_state, update_driver_status,
}
use mission_os.Driver.Engine.Install.{finish_install, perform_install, install_driver}
use mission_os.Driver.Engine.Frame.{Refused, Untouched, execute_install-Keeps}
use mission_os.Driver.Engine.Rollback.{change_first-find_driver, rollback_operation-restores}
use mission_os.Driver.Engine.Gates.{install_driver-gates}

-- The drivers with one status changed.
abbrev pub with_status : DriverEntry → DriverStatus → List DriverEntry → List DriverEntry
with_status driver status = change_first (same_driver driver.id) (λ d. record d { status = status })

module _ {S : System} where
  -- No saved state is left, and the operation has succeeded, and the drivers are as given, or has
  -- failed, and the inventory is as it was.
  pub record IsSettled (before : World S) (drivers : List DriverEntry)
      (out : World S × OperationResult) : Type 0 where
    pub none_saved : out.0.saved_states ≡ []
    pub outcome :
        ((out.1.status ≡ completed) × (out.0.inventory.drivers ≡ drivers))
        ⊎ ((out.1.status ≡ failed) × (out.0.inventory ≡ before.inventory))

  -- A refused operation leaves the saved states and the inventory.
  pub record Settles (before : World S) (named : DriverEntry → Type 0) (status : DriverStatus)
      (out : World S × OperationResult) : Type 0 where
    pub none_saved : out.0.saved_states ≡ []
    pub outcome :
        ((out.1.status ≡ completed)
          × (driver : DriverEntry) × named driver
          × (out.0.inventory.drivers ≡ with_status driver status before.inventory.drivers))
        ⊎ ((out.1.status ≡ failed) × (out.0.inventory ≡ before.inventory))

  pub Refused-Settles :
      (w : World S) (named : DriverEntry → Type 0) (status : DriverStatus)
      (out : World S × OperationResult)
      → w.saved_states ≡ []
      → Refused w out
      → Settles w named status out
  Refused-Settles w named status out empty h =
      let kept = h.untouched.keeps in
      record {
        none_saved = kept.saved_same ∙ empty;
        outcome = inr (h.is_failed, kept.inventory_same);
      }

  pub IsSettled-Settles :
      (w start : World S) (named : DriverEntry → Type 0) (driver : DriverEntry)
      (status : DriverStatus) (out : World S × OperationResult)
      → Untouched w start
      → named driver
      → IsSettled start (with_status driver status start.inventory.drivers) out
      → Settles w named status out
  IsSettled-Settles w start named driver status out h here settled =
      let same = h.keeps.inventory_same in
      record {
        none_saved = settled.none_saved;
        outcome = elim settled.outcome [
          | inl (done, drivers) ↦
              inl (done, driver, here, drivers ∙ ap (λ i. with_status driver status i.drivers) same)
          | inr (lost, inventory) ↦ inr (lost, inventory ∙ same)
        ];
      }

  -- What `save_state` saves.
  abbrev pub saved_state : DriverEntry → World S → SavedState
  saved_state driver w = record {
    driver = driver;
    was_loaded = is_loaded driver.id.name (next_sequence w).0;
    correlation_id = (save_state driver w).1;
  }

  pub save_state-saves :
      (driver : DriverEntry) (w : World S)
      → w.saved_states ≡ []
      → ((save_state driver w).0.saved_states ≡ saved_state driver w ∷ [])
        × ((save_state driver w).0.inventory ≡ w.inventory)
  unfolding save_state next_sequence
  save_state-saves driver w empty = (rw empty, refl)

  -- Removing the only saved state leaves none.
  pub remove_state-only :
      (saved : SavedState) (w : World S)
      → w.saved_states ≡ saved ∷ []
      → ((remove_state saved.correlation_id w).0.saved_states ≡ [])
        × ((remove_state saved.correlation_id w).0.inventory ≡ w.inventory)
  unfolding remove_state
  remove_state-only saved w only =
      (rw (only, remove_state) (ground (arith, text_eq_refl saved.correlation_id)), refl)

module _ {S : System} (e : Engine) (caller : Text) where
  finish_install-IsSettled :
      (saved : SavedState) (v w : World S) (result : ServiceResult (Unit {0}))
      → w.saved_states ≡ saved ∷ []
      → w.inventory ≡ v.inventory
      → change_first (same_driver saved.driver.id) (λ _. saved.driver) v.inventory.drivers
        ≡ v.inventory.drivers
      → IsSettled v
          (with_status saved.driver installed v.inventory.drivers)
          (finish_install e caller saved.driver saved.correlation_id result w)
  unfolding finish_install update_driver_status audit record_event remove_state success failure
  finish_install-IsSettled saved v w (ok u) only kept stands = record {
    none_saved = rw only (ground (arith, text_eq_refl saved.correlation_id));
    outcome = inl (refl, ap (λ i. with_status saved.driver installed i.drivers) kept);
  }
  finish_install-IsSettled saved v w (err x) only kept stands =
      let (none_saved, same) = rollback_operation-restores e caller saved w only (
        subst
          (λ i.
            change_first (same_driver saved.driver.id) (λ _. saved.driver) i.drivers ≡ i.drivers)
          (sym kept) stands) in
      record { none_saved = none_saved; outcome = inr (refl, same ∙ kept) }

  perform_install-IsSettled :
      (driver : DriverEntry) (w : World S)
      → w.saved_states ≡ []
      → change_first (same_driver driver.id) (λ _. driver) w.inventory.drivers ≡ w.inventory.drivers
      → IsSettled w
          (with_status driver installed w.inventory.drivers)
          (perform_install e caller driver w)
  unfolding perform_install
  perform_install-IsSettled driver w empty stands =
      let (only, same) = save_state-saves driver w empty in
      let kept = execute_install-Keeps e driver (save_state driver w).0 in
      finish_install-IsSettled (saved_state driver w) w _ _ (kept.saved_same ∙ only)
        (kept.inventory_same ∙ same) stands

  -- If no state is saved before an installation, then none is after it. It has succeeded, and then
  -- the inventory's drivers are as before but for the status of the driver that the request names,
  -- which is installed; or it has failed, and then the inventory is as before, whatever the system
  -- calls did.
  pub install_driver-Settles :
      (request : InstallRequest) (devices : List HardwareDevice) (w : World S)
      → w.saved_states ≡ []
      → Settles w
          (λ driver. find_driver w.inventory request.driver_name request.provider ≡ some driver)
          installed
          (install_driver e caller request devices w)
  install_driver-Settles request devices w empty =
      elim (install_driver-gates e caller request devices w) [
        | inl refused ↦ Refused-Settles w _ _ _ empty refused
        | inr (driver, installable, done) ↦
            let u = done.untouched in
            let settled = perform_install-IsSettled driver done.start (u.keeps.saved_same ∙ empty) (
              subst (λ i. change_first (same_driver driver.id) (λ _. driver) i.drivers ≡ i.drivers)
                (sym u.keeps.inventory_same)
                (change_first-find_driver w.inventory request.driver_name request.provider driver
                  installable.is_listed)) in
            IsSettled-Settles w done.start _ driver installed _ u installable.is_listed
              (subst (IsSettled done.start _) (sym done.is_performed) settled)
      ]
