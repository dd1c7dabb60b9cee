-- ===== src/Driver/World.antt =====
-- The state that the driver service works on, and actions on it. A `Mutex` is held by one operation
-- at a time, so that an operation is a function from the state before to the state after.
use mission_os.Base.{ℕ, List, [], ◌∷◌, ◌++◌, ◌+◌, ◌%◌, ◌^◌, Bool}
use mission_os.Base.Text.{Text}
use mission_os.Driver.Audit.{AuditEvent, EventCategory, EventSeverity, new_event}
use mission_os.Driver.Inventory.{DriverEntry, DriverInventory}
use mission_os.Driver.System.{System}

-- `SavedState` of execution.rs.
pub record SavedState : Type 0 where
  pub driver : DriverEntry
  pub was_loaded : Bool
  pub correlation_id : Text

-- The operating system, the audit log, the `OperationTracker`, the counter of signals.rs, and the
-- inventory.
pub record World (S : System) : Type 0 where
  pub os : S.State
  pub log : List AuditEvent
  pub saved_states : List SavedState
  pub sequence : ℕ
  pub inventory : DriverInventory

abbrev pub M : System → Type 0 → Type 0
M S A = World S → World S × A

module _ {S : System} where
  infixl 5 ◌>>=◌ ◌>>◌
  abbrev pub ◌>>=◌ : {A B : Type 0} → M S A → (A → M S B) → M S B
  ◌>>=◌ m f w = let (w', a) = m w in f a w'

  abbrev pub ◌>>◌ : {B : Type 0} → M S (Unit {0}) → M S B → M S B
  m >> k = m >>= λ _. k

  abbrev pub pure : {A : Type 0} → A → M S A
  pure a w = (w, a)

  abbrev pub gets : {A : Type 0} → (World S → A) → M S A
  gets f w = (w, f w)

  -- `AuditBackend::record`.
  unfoldable pub record_event : AuditEvent → M S (Unit {0})
  record_event event w = (record w { log = w.log ++ event ∷ [] }, tt)

  unfoldable pub audit : EventCategory → EventSeverity → Text → Text → Text → M S (Unit {0})
  unfolding record_event
  audit category severity action subject details w =
      record_event (new_event (S.now w.os) category severity action subject details) w

  -- `signals::next_sequence`: `fetch_add` on a `u64`.
  unfoldable pub next_sequence : M S ℕ
  next_sequence w = (record w { sequence = (w.sequence + 1) % 2 ^ 64 }, w.sequence)

  -- An action on the operating system alone.
  abbrev pub on_os : {A : Type 0} → (S.State → S.State × A) → M S A
  on_os f w = let (os, a) = f w.os in (record w { os = os }, a)
