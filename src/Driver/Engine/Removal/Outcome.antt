-- ===== src/Driver/Engine/Removal/Outcome.antt =====
-- What `remove_driver` of services/driverd/src/execution.rs leaves in the inventory and in the
-- `OperationTracker`.
use mission_os.Base.{some, inl, inr, [], ◌∷◌, ◌≡◌, refl, sym, ap, subst, ◌∙◌, arith}
use mission_os.Base.Results.{ok, err}
use mission_os.Base.Text.{Text, text_eq_refl}
use mission_os.Driver.Error.{ServiceResult}
use mission_os.Driver.Inventory.{DriverEntry, RemoveRequest, removed, success, failure}
use mission_os.Driver.System.{System}
use mission_os.Driver.World.{World, SavedState, audit, record_event}
use mission_os.Driver.Engine.{
  Engine, same_driver, change_first, save_state, remove_state, update_driver_status,
}
use mission_os.Driver.Engine.Remove.{find_by_name, finish_remove, perform_remove, remove_driver}
use mission_os.Driver.Engine.Frame.{execute_remove-Keeps}
use mission_os.Driver.Engine.Rollback.{rollback_operation-restores}
use mission_os.Driver.Engine.Settled.{
  with_status, IsSettled, Settles, Refused-Settles, IsSettled-Settles, saved_state,
  save_state-saves,
}
use mission_os.Driver.Engine.Removal.{remove_driver-gates, change_first-find_by_name}

module _ {S : System} (e : Engine) (caller : Text) where
  finish_remove-IsSettled :
      (saved : SavedState) (v w : World S) (result : ServiceResult (Unit {0}))
      → w.saved_states ≡ saved ∷ []
      → w.inventory ≡ v.inventory
      → change_first (same_driver saved.driver.id) (λ _. saved.driver) v.inventory.drivers
        ≡ v.inventory.drivers
      → IsSettled v
          (with_status saved.driver removed v.inventory.drivers)
          (finish_remove e caller saved.driver saved.correlation_id result w)
  unfolding finish_remove update_driver_status audit record_event remove_state success failure
  finish_remove-IsSettled saved v w (ok u) only kept stands = record {
    none_saved = rw only (ground (arith, text_eq_refl saved.correlation_id));
    outcome = inl (refl, ap (λ i. with_status saved.driver removed i.drivers) kept);
  }
  finish_remove-IsSettled saved v w (err x) only kept stands =
      let (none_saved, same) = rollback_operation-restores e caller saved w only (
        subst
          (λ i.
            change_first (same_driver saved.driver.id) (λ _. saved.driver) i.drivers ≡ i.drivers)
          (sym kept) stands) in
      record { none_saved = none_saved; outcome = inr (refl, same ∙ kept) }

  perform_remove-IsSettled :
      (request : RemoveRequest) (driver : DriverEntry) (w : World S)
      → w.saved_states ≡ []
      → change_first (same_driver driver.id) (λ _. driver) w.inventory.drivers ≡ w.inventory.drivers
      → IsSettled w
          (with_status driver removed w.inventory.drivers)
          (perform_remove e caller request driver w)
  unfolding perform_remove
  perform_remove-IsSettled request driver w empty stands =
      let (only, same) = save_state-saves driver w empty in
      let kept = execute_remove-Keeps driver request.force (save_state driver w).0 in
      finish_remove-IsSettled (saved_state driver w) w _ _ (kept.saved_same ∙ only)
        (kept.inventory_same ∙ same) stands

  -- If no state is saved before a removal, then none is after it. It has succeeded, and then the
  -- inventory's drivers are as before but for the status of the first driver of the name that the
  -- request gives, which is removed; or it has failed, and then the inventory is as before, whatever
  -- the system calls did.
  pub remove_driver-Settles :
      (request : RemoveRequest) (w : World S)
      → w.saved_states ≡ []
      → Settles w
          (λ driver. find_by_name w.inventory request.driver_name ≡ some driver)
          removed
          (remove_driver e caller request w)
  remove_driver-Settles request w empty = elim (remove_driver-gates e caller request w) [
    | inl refused ↦ Refused-Settles w _ _ _ empty refused
    | inr (driver, removable, done) ↦
        let u = done.untouched in
        let settled =
          perform_remove-IsSettled request driver done.start (u.keeps.saved_same ∙ empty) (
            subst (λ i. change_first (same_driver driver.id) (λ _. driver) i.drivers ≡ i.drivers)
              (sym u.keeps.inventory_same)
              (change_first-find_by_name w.inventory request.driver_name driver
                removable.is_listed)) in
        IsSettled-Settles w done.start _ driver removed _ u removable.is_listed
          (subst (IsSettled done.start _) (sym done.is_performed) settled)
  ]
