-- ===== src/Driver/Kmod.antt =====
-- `KmodManager` of services/driverd/src/kmod.rs, on Linux.
pub mod Names
use mission_os.Base.{
  ℕ, Option, none, some, List, [], ◌∷◌, ◌++◌, Bool, false, not, ◌||◌, find, ltb, length, is_empty,
  keep, keep_map, leb, ◌-◌, ◌^◌, ◌==◌, map, if◌then◌else◌,
}
use mission_os.Base.Results.{ok, err}
use mission_os.Base.Text.{Text, codes, text_eq, trim, is_space, split}
use mission_os.Base.Decimal.{show, parse_u64, u64_max}
use mission_os.Driver.Error.{
  ServiceError, ServiceResult, invalid_argument, already_exists, not_found, permission_denied,
  internal, busy, backend_unavailable,
}
use mission_os.Driver.System.{System}
use mission_os.Driver.World.{World, M}

-- `/`, `\`, `.`, NUL, `;`, `|`, `&`, `$` and the backquote.
unfoldable pub is_forbidden : ℕ → Bool
is_forbidden c =
    c == b'/'
    || (c == 92
        || (c == b'.'
            || (c == 0 || (c == b';' || (c == b'|' || (c == b'&' || (c == b'$' || c == 96)))))))

unfoldable pub validate_module_name : Text → ServiceResult (Unit {0})
unfolding is_forbidden
validate_module_name name =
    if is_empty name
    then err (invalid_argument (codes "module name must not be empty"))
    else if ltb 128 (length name)
    then err (invalid_argument (codes "module name exceeds maximum length (128)"))
    else elim (find is_forbidden name) [
      | none ↦ ok tt
      | some ch ↦ err (
          invalid_argument (
            codes "module name '"
            ++ (name ++ (codes "' contains invalid character '" ++ (ch ∷ codes "'")))))
    ]

-- The error numbers of Linux.
unfoldable pub load_error : Text → ℕ → ServiceError
load_error name errno =
    if errno == 17
    then already_exists (codes "module '" ++ (name ++ codes "' already loaded"))
    else if errno == 2
    then not_found (codes "module '" ++ (name ++ codes "' not found on disk"))
    else if errno == 22
    then invalid_argument (codes "invalid module file or parameters for '" ++ (name ++ codes "'"))
    else if errno == 1
    then permission_denied (codes "insufficient privilege to load kernel module")
    else internal (codes "failed to load module '" ++ (name ++ (codes "': errno=" ++ show errno)))

unfoldable pub unload_error : Text → ℕ → ServiceError
unload_error name errno =
    if errno == 2
    then not_found (codes "module '" ++ (name ++ codes "' is not loaded"))
    else if errno == 16
    then busy (codes "module '" ++ (name ++ codes "' is in use and cannot be unloaded"))
    else if errno == 1
    then permission_denied (codes "insufficient privilege to unload kernel module")
    else internal (codes "failed to unload module '" ++ (name ++ (codes "': errno=" ++ show errno)))

pub data ModuleState : Type 0 where
  live loaded built_in unloaded faulty : ModuleState

unfoldable pub from_proc_modules_state : Text → ModuleState
from_proc_modules_state state =
    let s = trim state in
    if text_eq s (codes "Live")
    then live
    else if text_eq s (codes "Loaded")
    then loaded
    else if text_eq s (codes "Unloaded")
    then unloaded
    else faulty

pub record ModuleInfo : Type 0 where
  pub name : Text
  pub state : ModuleState
  pub size_bytes : ℕ
  pub used_by_count : ℕ
  pub used_by : List Text
  pub is_builtin : Bool
  pub path : Option Text

-- `parse` with `unwrap_or(0)`, into an unsigned integer of the given largest value.
unfoldable pub parse_or_zero : ℕ → Text → ℕ
parse_or_zero largest s = elim (parse_u64 s) [ ok n ↦ (if leb n largest then n else 0) | err e ↦ 0 ]

-- `split_whitespace`
unfoldable pub split_spaces : Text → Text × List Text
split_spaces [] = ([], [])
split_spaces (c ∷ s) =
    let (part, rest) = split_spaces s in if is_space c then ([], part ∷ rest) else (c ∷ part, rest)

unfoldable pub words : Text → List Text
unfolding split_spaces
words s = let (part, rest) = split_spaces s in keep (λ w. not (is_empty w)) (part ∷ rest)

-- One line of `/proc/modules`; a line with fewer than six fields is passed over.
unfoldable pub parse_module : List Text → Option ModuleInfo
unfolding parse_or_zero from_proc_modules_state
parse_module (name ∷ size ∷ count ∷ used ∷ state ∷ address ∷ rest) = some (record {
  name = name;
  state = from_proc_modules_state state;
  size_bytes = parse_or_zero u64_max size;
  used_by_count = parse_or_zero (2 ^ 32 - 1) count;
  used_by = if text_eq used (codes "-") then [] else map trim (split b',' used);
  is_builtin = false;
  path = none;
})
parse_module _ = none

unfoldable pub parse_modules : Text → List ModuleInfo
unfolding words parse_module
parse_modules content = keep_map (λ line. parse_module (words line)) (split 10 content)

-- `Path::join`: an absolute second part replaces the first.
unfoldable pub path_join : Text → Text → Text
path_join base [] = base ++ codes "/"
path_join base (c ∷ name) = if c == b'/' then c ∷ name else base ++ (b'/' ∷ c ∷ name)

module _ {S : System} where
  unfoldable pub list_modules : World S → ServiceResult (List ModuleInfo)
  unfolding parse_modules
  list_modules w = elim (S.read_file w.os (codes "/proc/modules")) [
    | ok content ↦ ok (parse_modules content)
    | err e ↦ err (backend_unavailable (codes "cannot read /proc/modules: " ++ e))
  ]

  unfoldable pub is_loaded : Text → World S → Bool
  is_loaded name w = S.exists w.os (path_join (codes "/sys/module") name)

  -- With no parameters, as all callers have it.
  unfoldable pub load_module : Text → Text → M S (ServiceResult (Unit {0}))
  unfolding validate_module_name
  load_module name path w = elim (validate_module_name name) [
    | err e ↦ (w, err e)
    | ok _ ↦ elim (S.read_file w.os path) [
      | err e ↦ (
        w,
        err (
            invalid_argument
              (codes "cannot read module file " ++ (S.debug_path path ++ (codes ": " ++ e)))),
      )
      | ok content ↦
          let (os', ret) = S.init_module w.os content in
          (record w { os = os' }, if ret == 0 then ok tt else err (load_error name ret))
    ]
  ]

  unfoldable pub unload_module : Text → Bool → M S (ServiceResult (Unit {0}))
  unfolding validate_module_name
  unload_module name force w = elim (validate_module_name name) [
    | err e ↦ (w, err e)
    | ok _ ↦
        let (os', ret) = S.delete_module w.os name force in
        (record w { os = os' }, if ret == 0 then ok tt else err (unload_error name ret))
  ]
