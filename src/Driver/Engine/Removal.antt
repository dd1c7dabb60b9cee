-- ===== src/Driver/Engine/Removal.antt =====
-- What `remove_driver` of services/driverd/src/execution.rs asks for before it acts.
pub mod Outcome
use mission_os.Base.{
  some, true, not, ◌&&◌, ◌||◌, ◌⊎◌, inl, inr, [], ◌∷◌, ◌≡◌, refl, sym, ap, subst, ◌∙◌, arith,
  Option-cases,
}
use mission_os.Base.Results.{ok, err, Result-cases}
use mission_os.Base.Text.{Text, text_eq_refl, eq_ignore_ascii_case}
use mission_os.Driver.Error.{ServiceResult}
use mission_os.Driver.Inventory.{
  DriverEntry, DriverInventory, RemoveRequest, validate_remove, OperationResult, removed, success,
  failure,
}
use mission_os.Driver.Conflict.{check_remove}
use mission_os.Driver.System.{System}
use mission_os.Driver.World.{World, SavedState, audit, record_event}
use mission_os.Driver.Authz.{DriverAction, authorize, decision, is_authorized}
use mission_os.Driver.Kmod.{list_modules}
use mission_os.Driver.Engine.{
  Engine, same_driver, change_first, get_loaded_modules, save_state, remove_state,
  update_driver_status,
}
use mission_os.Driver.Engine.Remove.{
  find_by_name, finish_remove, perform_remove, check_and_remove, find_and_remove,
  validate_and_remove, remove_driver,
}
use mission_os.Driver.Engine.Frame.{
  Untouched, Refused, Untouched-refl, Untouched-trans, Refused-after, if-gate, audit-Untouched,
  next_sequence-Untouched, fail_operation-Refused, authorize-Untouched, execute_remove-Keeps,
}
use mission_os.Driver.Engine.Rollback.{
  change_first-found, same_driver_refl, eq_ignore_ascii_case_weaker, find-holds,
  rollback_operation-restores,
}
use mission_os.Driver.Engine.Settled.{
  with_status, IsSettled, Settles, Refused-Settles, IsSettled-Settles, saved_state,
  save_state-saves,
}

-- An entry that is found by its name is the first of exactly its name and provider.
pub change_first-find_by_name :
    (inventory : DriverInventory) (name : Text) (d : DriverEntry)
    → find_by_name inventory name ≡ some d
    → change_first (same_driver d.id) (λ _. d) inventory.drivers ≡ inventory.drivers
unfolding find_by_name same_driver
change_first-find_by_name inventory name d found =
    let holds = find-holds _ inventory.drivers d found in
    change_first-found (λ (x : DriverEntry). eq_ignore_ascii_case x.id.name name) (same_driver d.id)
      d inventory.drivers
      (λ x h. ground (arith, holds, eq_ignore_ascii_case_weaker x.id.name d.id.name name))
      (same_driver_refl d) found

module _ {S : System} (e : Engine) (caller : Text) where
  -- Everything that a removal asks for.
  pub record IsRemovable (request : RemoveRequest) (w : World S) (driver : DriverEntry)
      : Type 0 where
    pub is_allowed : is_authorized (decision e.authorizer DriverAction.remove_driver caller) ≡ true
    pub is_well_formed : validate_remove request ≡ ok tt
    pub is_listed : find_by_name w.inventory request.driver_name ≡ some driver
    pub has_no_obstacle :
        (not (check_remove driver (get_loaded_modules w) w.inventory.drivers).has_conflicts
          || request.force)
        ≡ true

  -- The operation is the removal itself in a state like the first.
  pub record Performs (request : RemoveRequest) (w : World S) (driver : DriverEntry)
      (out : World S × OperationResult) : Type 0 where
    pub start : World S
    pub untouched : Untouched w start
    pub is_performed : out ≡ perform_remove e caller request driver start

  -- What is asked for is read off the operating system and the inventory.
  IsRemovable-before :
      (request : RemoveRequest) (v w : World S) (driver : DriverEntry)
      → Untouched v w
      → IsRemovable request w driver
      → IsRemovable request v driver
  unfolding get_loaded_modules list_modules
  IsRemovable-before request v w driver h k =
      let same_os = h.os_same in
      let same_inventory = h.keeps.inventory_same in
      record {
        is_allowed = k.is_allowed;
        is_well_formed = k.is_well_formed;
        is_listed =
            subst (λ i. find_by_name i request.driver_name ≡ some driver) same_inventory
              k.is_listed;
        has_no_obstacle = cc (k.has_no_obstacle, same_os, same_inventory);
      }

  find-gate :
      (request : RemoveRequest) (w : World S)
      → (is_authorized (decision e.authorizer DriverAction.remove_driver caller) ≡ true)
      → (validate_remove request ≡ ok tt)
      → Refused w (find_and_remove e caller request w)
        ⊎ ((driver : DriverEntry) × IsRemovable request w driver
            × Performs request w driver (find_and_remove e caller request w))
  unfolding find_and_remove check_and_remove
  find-gate request w allowed formed =
      elim (Option-cases (find_by_name w.inventory request.driver_name)) [
        | inl h ↦ rw (h, find_and_remove) (inl (fail_operation-Refused _ _ _ _ _ _))
        | inr (driver, h) ↦
            rw (h, find_and_remove)
              (let conflicts =
                  (check_remove driver (get_loaded_modules w) w.inventory.drivers).has_conflicts in
                if-gate
                  (λ out.
                    Refused w out
                    ⊎ ((driver : DriverEntry) × IsRemovable request w driver
                        × Performs request w driver out))
                  (conflicts && not request.force) _ _ w
                  (λ k. inl (fail_operation-Refused _ _ _ _ _ _))
                  (λ k. inr (
                    driver,
                    record {
                      is_allowed = allowed;
                      is_well_formed = formed;
                      is_listed = h;
                      has_no_obstacle = ground arith;
                    },
                    record { start = w; untouched = Untouched-refl w; is_performed = refl },
                  )))
      ]

  validate-gate :
      (request : RemoveRequest) (w : World S)
      → (is_authorized (decision e.authorizer DriverAction.remove_driver caller) ≡ true)
      → Refused w (validate_and_remove e caller request w)
        ⊎ ((driver : DriverEntry) × IsRemovable request w driver
            × Performs request w driver (validate_and_remove e caller request w))
  unfolding validate_and_remove
  validate-gate request w allowed = elim (Result-cases (validate_remove request)) [
    | inl (u, h) ↦ rw (h, validate_and_remove) (find-gate request w allowed h)
    | inr (x, h) ↦ rw (h, validate_and_remove) (inl (fail_operation-Refused _ _ _ _ _ _))
  ]

  -- A removal is refused, with the operating system, the inventory and the saved states as they
  -- were, a failure for an answer and an error as the last event of the audit log; or the caller
  -- is authorized, the request is well formed, the driver is in the inventory, nothing stands
  -- against it or the request forces it, and what is done is the removal itself.
  pub remove_driver-gates :
      (request : RemoveRequest) (w : World S)
      → Refused w (remove_driver e caller request w)
        ⊎ ((driver : DriverEntry) × IsRemovable request w driver
            × Performs request w driver (remove_driver e caller request w))
  unfolding remove_driver authorize
  remove_driver-gates request w =
      let start = Untouched-trans (next_sequence-Untouched w) (
        Untouched-trans (audit-Untouched _ _ _ _ _ _)
          (authorize-Untouched e.authorizer DriverAction.remove_driver caller _)) in
      if-gate
        (λ out.
          Refused w out
          ⊎ ((driver : DriverEntry) × IsRemovable request w driver × Performs request w driver out))
        (not (is_authorized (decision e.authorizer DriverAction.remove_driver caller))) _ _ _
        (λ h. inl (Refused-after start (fail_operation-Refused _ _ _ _ _ _)))
        (λ h. elim (validate-gate request _ (ground arith)) [
          | inl refused ↦ inl (Refused-after start refused)
          | inr (driver, removable, done) ↦ inr (
            driver,
            IsRemovable-before request w _ driver start removable,
            record {
              start = done.start;
              untouched = Untouched-trans start done.untouched;
              is_performed = done.is_performed;
            },
          )
        ])
