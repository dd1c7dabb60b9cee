-- ===== src/Driver/Engine/Upgrade/Outcome.antt =====
-- What `update_driver` of services/driverd/src/execution.rs leaves in the inventory and in the
-- `OperationTracker`.
use mission_os.Base.{some, inl, inr, [], ◌∷◌, ◌≡◌, refl, sym, ap, subst, ◌∙◌, arith}
use mission_os.Base.Results.{ok, err}
use mission_os.Base.Text.{Text, text_eq_refl}
use mission_os.Driver.Error.{ServiceResult}
use mission_os.Driver.Inventory.{DriverEntry, UpdateRequest, active, success, failure}
use mission_os.Driver.System.{System}
use mission_os.Driver.World.{World, SavedState, audit, record_event}
use mission_os.Driver.Engine.{Engine, same_driver, change_first, save_state, remove_state}
use mission_os.Driver.Engine.Remove.{find_by_name}
use mission_os.Driver.Engine.Update.{
  is_updated, replace_updated, finish_update, perform_update, update_driver,
}
use mission_os.Driver.Engine.Frame.{execute_update-Keeps}
use mission_os.Driver.Engine.Rollback.{rollback_operation-restores}
use mission_os.Driver.Engine.Settled.{
  with_status, IsSettled, Settles, Refused-Settles, IsSettled-Settles, saved_state,
  save_state-saves,
}
use mission_os.Driver.Engine.Removal.{change_first-find_by_name}
use mission_os.Driver.Engine.Upgrade.{update_driver-gates, replaced-with_status}

module _ {S : System} (e : Engine) (caller : Text) where
  finish_update-IsSettled :
      (request : UpdateRequest) (saved : SavedState) (v w : World S)
      (result : ServiceResult (Unit {0}))
      → w.saved_states ≡ saved ∷ []
      → w.inventory ≡ v.inventory
      → find_by_name v.inventory request.driver_name ≡ some saved.driver
      → IsSettled v
          (with_status saved.driver active v.inventory.drivers)
          (finish_update e caller request saved.driver saved.correlation_id result w)
  unfolding finish_update replace_updated audit record_event remove_state success failure
  finish_update-IsSettled request saved v w (ok u) only kept found = record {
    none_saved = rw only (ground (arith, text_eq_refl saved.correlation_id));
    outcome = inl (
      refl,
      ap
            (λ i.
              change_first (is_updated request saved.driver)
                (λ _. record saved.driver { status = active }) i.drivers)
            kept
          ∙ replaced-with_status request v.inventory saved.driver found,
    );
  }
  finish_update-IsSettled request saved v w (err x) only kept found =
      let (none_saved, same) = rollback_operation-restores e caller saved w only (
        subst
          (λ i.
            change_first (same_driver saved.driver.id) (λ _. saved.driver) i.drivers ≡ i.drivers)
          (sym kept)
          (change_first-find_by_name v.inventory request.driver_name saved.driver found)) in
      record { none_saved = none_saved; outcome = inr (refl, same ∙ kept) }

  perform_update-IsSettled :
      (request : UpdateRequest) (driver : DriverEntry) (w : World S)
      → w.saved_states ≡ []
      → find_by_name w.inventory request.driver_name ≡ some driver
      → IsSettled w
          (with_status driver active w.inventory.drivers)
          (perform_update e caller request driver w)
  unfolding perform_update
  perform_update-IsSettled request driver w empty found =
      let (only, same) = save_state-saves driver w empty in
      let kept = execute_update-Keeps e driver (save_state driver w).0 in
      finish_update-IsSettled request (saved_state driver w) w _ _ (kept.saved_same ∙ only)
        (kept.inventory_same ∙ same) found

  -- If no state is saved before an update, then none is after it. It has succeeded, and then the
  -- inventory's drivers are as before but for the status of the first driver of the name that the
  -- request gives, which is active; or it has failed, and then the inventory is as before, whatever
  -- the system calls did.
  pub update_driver-Settles :
      (request : UpdateRequest) (w : World S)
      → w.saved_states ≡ []
      → Settles w
          (λ driver. find_by_name w.inventory request.driver_name ≡ some driver)
          active
          (update_driver e caller request w)
  update_driver-Settles request w empty = elim (update_driver-gates e caller request w) [
    | inl refused ↦ Refused-Settles w _ _ _ empty refused
    | inr (driver, updatable, done) ↦
        let u = done.untouched in
        let settled =
          perform_update-IsSettled request driver done.start (u.keeps.saved_same ∙ empty) (
            subst (λ i. find_by_name i request.driver_name ≡ some driver)
              (sym u.keeps.inventory_same) updatable.is_listed) in
        IsSettled-Settles w done.start _ driver active _ u updatable.is_listed
          (subst (IsSettled done.start _) (sym done.is_performed) settled)
  ]
