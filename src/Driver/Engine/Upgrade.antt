-- ===== src/Driver/Engine/Upgrade.antt =====
-- What `update_driver` of services/driverd/src/execution.rs asks for before it acts, the protection
-- against downgrades among it.
pub mod Outcome
use mission_os.Base.{
  Ordering, Option, none, some, Bool, true, false, not, ◌&&◌, ◌⊎◌, inl, inr, List, [], ◌∷◌, ◌≡◌,
  refl, sym, ap, subst, ◌∙◌, find, arith, Bool-cases, Option-cases,
}
use mission_os.Base.Results.{ok, err, Result-cases}
use mission_os.Base.Text.{Text, text_eq_refl, eq_ignore_ascii_case}
use mission_os.Driver.Error.{ServiceResult}
use mission_os.Driver.Inventory.{
  DriverEntry, DriverInventory, UpdateRequest, validate_update, OperationResult, active, success,
  failure,
}
use mission_os.Driver.Inventory.Versions
use mission_os.Driver.System.{System}
use mission_os.Driver.World.{World, SavedState, audit, record_event}
use mission_os.Driver.Authz.{DriverAction, authorize, decision, is_authorized}
use mission_os.Driver.Engine.{Engine, same_driver, change_first, save_state, remove_state}
use mission_os.Driver.Engine.Remove.{find_by_name}
use mission_os.Driver.Engine.Update.{
  is_updated, is_newer, replace_updated, finish_update, perform_update, reject_downgrade,
  check_and_update, check_target, find_and_update, validate_and_update, update_driver,
}
use mission_os.Driver.Engine.Frame.{
  Untouched, Refused, Untouched-refl, Untouched-trans, Refused-after, if-gate, audit-Untouched,
  next_sequence-Untouched, fail_operation-Refused, authorize-Untouched, execute_update-Keeps,
}
use mission_os.Driver.Engine.Rollback.{
  same_driver_refl, eq_ignore_ascii_case_weaker, find-holds, rollback_operation-restores,
}
use mission_os.Driver.Engine.Settled.{
  with_status, IsSettled, Settles, Refused-Settles, IsSettled-Settles, saved_state,
  save_state-saves,
}
use mission_os.Driver.Engine.Removal.{change_first-find_by_name}

-- Two tests that pick an entry only where a third does change its first entry alike, if they pick it.
change_first-agree :
    (p q r : DriverEntry → Bool) (f g : DriverEntry → DriverEntry) (d : DriverEntry)
    (ds : List DriverEntry)
    → ((x : DriverEntry) → q x ≡ true → p x ≡ true)
    → ((x : DriverEntry) → r x ≡ true → p x ≡ true)
    → q d ≡ true
    → r d ≡ true
    → f d ≡ g d
    → find p ds ≡ some d
    → change_first q f ds ≡ change_first r g ds
change_first-agree p q r f g d [] hq hr qd rd same found = refl
change_first-agree p q r f g d (x ∷ ds) hq hr qd rd same found = elim (Bool-cases (p x)) [
  | inl h ↦ ground arith
  | inr h ↦ ground (arith, hq x, hr x, change_first-agree p q r f g d ds hq hr qd rd same)
]

-- The entry that an update replaces is the one that it found.
pub replaced-with_status :
    (request : UpdateRequest) (inventory : DriverInventory) (d : DriverEntry)
    → find_by_name inventory request.driver_name ≡ some d
    → change_first (is_updated request d) (λ _. record d { status = active }) inventory.drivers
      ≡ with_status d active inventory.drivers
unfolding find_by_name is_updated same_driver
replaced-with_status request inventory d found =
    let holds = find-holds _ inventory.drivers d found in
    change_first-agree (λ (x : DriverEntry). eq_ignore_ascii_case x.id.name request.driver_name)
      (is_updated request d) (same_driver d.id) _ _ d inventory.drivers (λ x h. ground arith)
      (λ x h.
        ground (arith, holds, eq_ignore_ascii_case_weaker x.id.name d.id.name request.driver_name))
      (ground (arith, holds, text_eq_refl d.id.provider)) (same_driver_refl d) refl found

-- No version is asked for, or one that parses, and that is not older than the entry's unless the
-- request allows a downgrade.
abbrev pub permits : UpdateRequest → DriverEntry → Option Text → Bool
permits request driver none = true
permits request driver (some target) = elim (Versions.parse target) [
  | ok version ↦ elim (Versions.cmp driver.id.version version) [
    | Ordering.gt ↦ request.allow_downgrade
    | _ ↦ true
  ]
  | err x ↦ false
]

module _ {S : System} (e : Engine) (caller : Text) where
  -- Everything that an update asks for.
  pub record IsUpdatable (request : UpdateRequest) (w : World S) (driver : DriverEntry)
      : Type 0 where
    pub is_allowed : is_authorized (decision e.authorizer DriverAction.update_driver caller) ≡ true
    pub is_well_formed : validate_update request ≡ ok tt
    pub is_listed : find_by_name w.inventory request.driver_name ≡ some driver
    pub is_no_downgrade : permits request driver request.target_version ≡ true

  -- The operation is the update itself in a state like the first.
  pub record Performs (request : UpdateRequest) (w : World S) (driver : DriverEntry)
      (out : World S × OperationResult) : Type 0 where
    pub start : World S
    pub untouched : Untouched w start
    pub is_performed : out ≡ perform_update e caller request driver start

  reject_downgrade-Refused :
      (request : UpdateRequest) (msg : Text) (w : World S)
      → Refused w (reject_downgrade e caller request msg w)
  unfolding reject_downgrade
  reject_downgrade-Refused request msg w =
      Refused-after (audit-Untouched _ _ _ _ _ w) (fail_operation-Refused _ _ _ _ _ _)

  target-gate :
      (request : UpdateRequest) (driver : DriverEntry) (target : Option Text) (w : World S)
      → Refused w (check_target e caller request driver target w)
        ⊎ ((permits request driver target ≡ true)
            × Performs request w driver (check_target e caller request driver target w))
  unfolding check_target is_newer
  target-gate request driver none w =
      inr (refl, record { start = w; untouched = Untouched-refl w; is_performed = refl })
  target-gate request driver (some target) w = elim (Result-cases (Versions.parse target)) [
    | inl (version, k) ↦
        rw (k, check_target)
          (if-gate
            (λ out.
              Refused w out
              ⊎ ((permits request driver (some target) ≡ true) × Performs request w driver out))
            (is_newer driver.id.version version && not request.allow_downgrade) _ _ w
            (λ m. inl (reject_downgrade-Refused request _ _))
            (λ m. inr (
              ground arith,
              record { start = w; untouched = Untouched-refl w; is_performed = refl },
            )))
    | inr (x, k) ↦ rw (k, check_target) (inl (fail_operation-Refused _ _ _ _ _ _))
  ]

  check-gate :
      (request : UpdateRequest) (driver : DriverEntry) (w : World S)
      → Refused w (check_and_update e caller request driver w)
        ⊎ ((permits request driver request.target_version ≡ true)
            × Performs request w driver (check_and_update e caller request driver w))
  unfolding check_and_update
  check-gate request driver w = target-gate request driver request.target_version w

  find-gate :
      (request : UpdateRequest) (w : World S)
      → (is_authorized (decision e.authorizer DriverAction.update_driver caller) ≡ true)
      → (validate_update request ≡ ok tt)
      → Refused w (find_and_update e caller request w)
        ⊎ ((driver : DriverEntry) × IsUpdatable request w driver
            × Performs request w driver (find_and_update e caller request w))
  unfolding find_and_update
  find-gate request w allowed formed =
      elim (Option-cases (find_by_name w.inventory request.driver_name)) [
        | inl h ↦ rw (h, find_and_update) (inl (fail_operation-Refused _ _ _ _ _ _))
        | inr (driver, h) ↦
            rw (h, find_and_update)
              (elim (check-gate request driver w) [
                | inl refused ↦ inl refused
                | inr (permitted, done) ↦ inr (
                  driver,
                  record {
                    is_allowed = allowed;
                    is_well_formed = formed;
                    is_listed = h;
                    is_no_downgrade = permitted;
                  },
                  done,
                )
              ])
      ]

  validate-gate :
      (request : UpdateRequest) (w : World S)
      → (is_authorized (decision e.authorizer DriverAction.update_driver caller) ≡ true)
      → Refused w (validate_and_update e caller request w)
        ⊎ ((driver : DriverEntry) × IsUpdatable request w driver
            × Performs request w driver (validate_and_update e caller request w))
  unfolding validate_and_update
  validate-gate request w allowed = elim (Result-cases (validate_update request)) [
    | inl (u, h) ↦ rw (h, validate_and_update) (find-gate request w allowed h)
    | inr (x, h) ↦ rw (h, validate_and_update) (inl (fail_operation-Refused _ _ _ _ _ _))
  ]

  IsUpdatable-before :
      (request : UpdateRequest) (v w : World S) (driver : DriverEntry)
      → Untouched v w
      → IsUpdatable request w driver
      → IsUpdatable request v driver
  IsUpdatable-before request v w driver h k = record {
    is_allowed = k.is_allowed;
    is_well_formed = k.is_well_formed;
    is_listed =
        subst (λ i. find_by_name i request.driver_name ≡ some driver) h.keeps.inventory_same
          k.is_listed;
    is_no_downgrade = k.is_no_downgrade;
  }

  -- An update is refused, with the operating system, the inventory and the saved states as they
  -- were, a failure for an answer and an error as the last event of the audit log; or the caller
  -- is authorized, the request is well formed, the driver is in the inventory, the version that
  -- is asked for, if one is, parses and is not older than the entry's unless the request allows a
  -- downgrade, and what is done is the update itself.
  pub update_driver-gates :
      (request : UpdateRequest) (w : World S)
      → Refused w (update_driver e caller request w)
        ⊎ ((driver : DriverEntry) × IsUpdatable request w driver
            × Performs request w driver (update_driver e caller request w))
  unfolding update_driver authorize
  update_driver-gates request w =
      let start = Untouched-trans (next_sequence-Untouched w) (
        Untouched-trans (audit-Untouched _ _ _ _ _ _)
          (authorize-Untouched e.authorizer DriverAction.update_driver caller _)) in
      if-gate
        (λ out.
          Refused w out
          ⊎ ((driver : DriverEntry) × IsUpdatable request w driver × Performs request w driver out))
        (not (is_authorized (decision e.authorizer DriverAction.update_driver caller))) _ _ _
        (λ h. inl (Refused-after start (fail_operation-Refused _ _ _ _ _ _)))
        (λ h. elim (validate-gate request _ (ground arith)) [
          | inl refused ↦ inl (Refused-after start refused)
          | inr (driver, updatable, done) ↦ inr (
            driver,
            IsUpdatable-before request w _ driver start updatable,
            record {
              start = done.start;
              untouched = Untouched-trans start done.untouched;
              is_performed = done.is_performed;
            },
          )
        ])
