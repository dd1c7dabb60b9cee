-- ===== src/Driver/System.antt =====
-- What the driver service asks of the operating system, the signature library and the
-- authorization service. None of it is the service's own code: the model takes it as a parameter.
use mission_os.Base.{ℕ, Bool, Option}
use mission_os.Base.Results.{Result}
use mission_os.Base.Text.{Text}

-- A path and a file's content are texts, that is bytes. An error of the file system is its message.
pub record System : Type 1 where
  pub State : Type 0
  pub now : State → ℕ
  pub exists : State → Text → Bool
  pub read_file : State → Text → Result Text Text
  pub copy_file : State → Text → Text → State × Result Text (Unit {0})
  pub remove_file : State → Text → State × Result Text (Unit {0})
  -- `create_dir_all` of the directory that holds a path; its error is not looked at.
  pub create_parent : State → Text → State
  -- The system calls answer 0, or the error number.
  pub init_module : State → Text → State × ℕ
  pub delete_module : State → Text → Bool → State × ℕ
  -- Whether a module's file stands below `/lib/modules`.
  pub module_available : State → Text → Bool
  -- `mission_crypto::verify`: whether it returns `Ok(Valid)` for a key, a content and a signature.
  pub signature_valid : Text → Text → Text → Bool
  -- The `{:?}` format of an optional string, and of a path: their escapes need the tables of Unicode.
  pub debug : Option Text → Text
  pub debug_path : Text → Text
