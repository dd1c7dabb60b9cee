-- ===== src/Driver/Engine/Rollback.antt =====
-- What `rollback_operation` of services/driverd/src/execution.rs restores, and what the saved states
-- are after an operation.
use mission_os.Base.{
  some, Bool, true, ◌&&◌, inl, inr, List, [], ◌∷◌, ◌≡◌, refl, sym, ap, ◌∙◌, subst, find, arith,
  Bool-cases,
}
use mission_os.Base.Text.{Text, text_eq, text_eq_iff, text_eq_refl, eq_ignore_ascii_case}
use mission_os.Driver.Inventory.{DriverEntry, DriverInventory, find_driver}
use mission_os.Driver.System.{System}
use mission_os.Driver.World.{World, SavedState, audit, record_event}
use mission_os.Driver.Engine.{
  Engine, same_driver, change_first, find_state, remove_state, restore, rollback_found,
  rollback_operation, find_package_path,
}
use mission_os.Driver.Engine.Frame.{load_module-Keeps}

-- Putting an entry over the first one that a test picks changes nothing if that one is the entry.
-- The entry is known as the first that a weaker test picks.
pub change_first-found :
    (p q : DriverEntry → Bool) (d : DriverEntry) (ds : List DriverEntry)
    → (((x : DriverEntry) → q x ≡ true → p x ≡ true))
    → q d ≡ true
    → find p ds ≡ some d
    → change_first q (λ _. d) ds ≡ ds
change_first-found p q d [] weaker here found = refl
change_first-found p q d (x ∷ ds) weaker here found = elim (Bool-cases (q x)) [
  | inl h ↦ ground (arith, weaker x h)
  | inr h ↦ ground (arith, change_first-found p q d ds weaker here)
]

pub same_driver_refl : (d : DriverEntry) → same_driver d.id d ≡ true
unfolding same_driver
same_driver_refl d = ground (arith, text_eq_refl d.id.name, text_eq_refl d.id.provider)

pub eq_ignore_ascii_case_weaker :
    (s t u : Text)
    → text_eq s t ≡ true
    → eq_ignore_ascii_case t u ≡ true
    → eq_ignore_ascii_case s u ≡ true
eq_ignore_ascii_case_weaker s t u h k =
    subst (λ x. eq_ignore_ascii_case x u ≡ true) (sym ((text_eq_iff s t).0 h)) k

pub find-holds {ℓ} :
    {A : Type ℓ} (p : A → Bool) (xs : List A) (a : A) → find p xs ≡ some a → p a ≡ true
find-holds p [] a h = cc
find-holds p (x ∷ xs) a h = ground (arith, find-holds p xs a)

-- An entry that `find_driver` answers is the first of exactly its name and provider.
pub change_first-find_driver :
    (inventory : DriverInventory) (name provider : Text) (d : DriverEntry)
    → find_driver inventory name provider ≡ some d
    → change_first (same_driver d.id) (λ _. d) inventory.drivers ≡ inventory.drivers
unfolding find_driver same_driver
change_first-find_driver inventory name provider d found =
    let holds = find-holds _ inventory.drivers d found in
    change_first-found
      (λ (x : DriverEntry).
        eq_ignore_ascii_case x.id.name name && eq_ignore_ascii_case x.id.provider provider)
      (same_driver d.id) d inventory.drivers
      (λ x h. ground (
        arith,
        holds,
        eq_ignore_ascii_case_weaker x.id.name d.id.name name,
        eq_ignore_ascii_case_weaker x.id.provider d.id.provider provider,
      ))
      (same_driver_refl d) found

module _ {S : System} (e : Engine) (caller : Text) where
  restore-drivers :
      (saved : SavedState) (w : World S)
      → ((restore e saved w).0.saved_states ≡ w.saved_states)
        × ((restore e saved w).0.inventory ≡ record w.inventory {
          drivers =
              change_first (same_driver saved.driver.id) (λ _. saved.driver) w.inventory.drivers;
        })
  unfolding restore
  restore-drivers saved w =
      let inventory = w.inventory in
      let restored = record w {
        inventory = record inventory {
          drivers =
              change_first (same_driver saved.driver.id) (λ _. saved.driver) inventory.drivers;
        };
      } in
      let kept =
        load_module-Keeps saved.driver.id.name (find_package_path e saved.driver restored)
          restored in
      elim (Bool-cases saved.was_loaded) [
        | inl h ↦ rw (h, restore) (kept.saved_same, kept.inventory_same)
        | inr h ↦ rw (h, restore) (refl, refl)
      ]

  find_state-only :
      (saved : SavedState) (w : World S)
      → w.saved_states ≡ saved ∷ []
      → find_state saved.correlation_id w ≡ some saved
  unfolding find_state
  find_state-only saved w only =
      rw (only, find_state) (ground (arith, text_eq_refl saved.correlation_id))

  rollback_found-restores :
      (saved : SavedState) (w : World S)
      → w.saved_states ≡ saved ∷ []
      → change_first (same_driver saved.driver.id) (λ _. saved.driver) w.inventory.drivers
        ≡ w.inventory.drivers
      → ((rollback_found e saved.correlation_id caller saved w).0.saved_states ≡ [])
        × ((rollback_found e saved.correlation_id caller saved w).0.inventory ≡ w.inventory)
  unfolding rollback_found audit record_event remove_state
  rollback_found-restores saved w only same =
      let inventory = w.inventory in
      let (kept, restored) = restore-drivers saved w in
      (
        rw (kept ∙ only) (ground (arith, text_eq_refl saved.correlation_id)),
        restored ∙ ap (λ ds. record inventory { drivers = ds }) same,
      )

  -- If the operation's state is the only one saved, and its entry stands where it goes back to, then
  -- a rollback leaves no saved state, and the inventory as it was.
  pub rollback_operation-restores :
      (saved : SavedState) (w : World S)
      → w.saved_states ≡ saved ∷ []
      → change_first (same_driver saved.driver.id) (λ _. saved.driver) w.inventory.drivers
        ≡ w.inventory.drivers
      → ((rollback_operation e saved.correlation_id caller w).0.saved_states ≡ [])
        × ((rollback_operation e saved.correlation_id caller w).0.inventory ≡ w.inventory)
  unfolding rollback_operation
  rollback_operation-restores saved w only same =
      rw (find_state-only saved w only, rollback_operation)
        (rollback_found-restores saved w only same)
