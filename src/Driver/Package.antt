-- ===== src/Driver/Package.antt =====
-- The package store and the list of sources by name: services/driverd/src/package.rs, on Linux.
use mission_os.Base.{
  ℕ, List, [], ◌∷◌, ◌++◌, Option, none, some, Bool, true, false, not, ◌&&◌, ◌||◌, ltb, any, find,
  keep_map, is_empty, drop, length, zero, suc, if◌then◌else◌,
}
use mission_os.Base.Results.{Result, ok, err, map_err}
use mission_os.Base.Text.{Text, codes, text_eq, to_lowercase, starts_with, contains, split}
use mission_os.Base.Decimal.{show}
use mission_os.Driver.Error.{
  ServiceResult, invalid_argument, internal, not_found, backend_unavailable,
}
use mission_os.Driver.Inventory.{
  DriverModuleType, DriverSource, DriverSourceType, mission, linux, vendor, local,
}
use mission_os.Driver.System.{System}
use mission_os.Driver.World.{M, ◌>>=◌, pure, gets, on_os}
use mission_os.Driver.Fetch.{attempt, with_extension}
use mission_os.Driver.Kmod.{path_join}

pub record DriverPackage : Type 0 where
  pub file_name : Text
  pub staged_path : Text
  pub size_bytes : ℕ
  pub expected_hash : Option Text
  pub signature : Text
  pub signing_key_id : Option Text
  pub module_type : DriverModuleType

pub record PackageStore : Type 0 where
  pub store_path : Text
  pub max_package_size : ℕ

-- What `metadata` answers: the size, and whether it is a regular file.
pub record Metadata : Type 0 where
  pub len : ℕ
  pub is_file : Bool

-- What the store asks of the file system beyond `System`. A directory that cannot be read is empty.
pub record Staging (S : System) : Type 0 where
  pub metadata : S.State → Text → Result Text Metadata
  pub read_dir : S.State → Text → List Text
  pub is_file : S.State → Text → Bool

-- The last component that names something: empty ones and `.` do not count.
unfoldable pub last_component : List Text → Option Text
last_component [] = none
last_component (part ∷ parts) = elim (last_component parts) [
  | some last ↦ some last
  | none ↦ if is_empty part || text_eq part (codes ".") then none else some part
]

-- `file_name().to_str()`.
unfoldable pub name_of : Text → Option Text
unfolding split last_component
name_of path = elim (last_component (split b'/' path)) [
  | none ↦ none
  | some last ↦ if text_eq last (codes "..") then none else some last
]

unfoldable pub is_absolute : Text → Bool
is_absolute path = starts_with path (codes "/")

-- The prefixes are texts and not directories.
unfoldable pub is_allowed_path : Text → Bool
is_allowed_path path = any (starts_with path) (
    codes "/tmp"
    ∷ codes "/var/cache/mission"
    ∷ codes "/var/lib/mission"
    ∷ codes "/etc/mission"
    ∷ [])

-- `trim_start_matches("vendor:")`.
unfoldable pub strip_vendor : ℕ → Text → Text
strip_vendor zero s = s
strip_vendor (suc n) s =
    let rest = strip_vendor n (drop 7 s) in if starts_with s (codes "vendor:") then rest else s

unfoldable pub known_source : Text → Text → DriverSourceType → ℕ → DriverSource
known_source id name source_type priority = record {
  id = id;
  name = name;
  source_type = source_type;
  available = true;
  priority = priority;
}

unfoldable pub create_source_from_id : Text → Option DriverSource
unfolding to_lowercase strip_vendor known_source
create_source_from_id id =
    let name = to_lowercase id in
    if text_eq name (codes "mission")
    then some (known_source (codes "mission") (codes "Mission OS Repository") mission 10)
    else if text_eq name (codes "linux")
    then some (known_source (codes "linux") (codes "Linux Kernel") linux 20)
    else if text_eq name (codes "linux-firmware")
    then some (known_source (codes "linux-firmware") (codes "Linux Firmware") linux 20)
    else if starts_with name (codes "vendor:")
    then some (
        known_source name (strip_vendor (length name) name ++ codes " Driver Repository") vendor 50)
    else none

-- `SourceValidator` is its list of sources.
unfoldable pub from_config : List Text → List DriverSource
unfolding create_source_from_id
from_config ids = keep_map create_source_from_id ids

unfoldable pub is_enabled_source : List DriverSource → Text → Bool
is_enabled_source sources id = any (λ (s : DriverSource). text_eq s.id id) sources

unfoldable pub needs_path : DriverSourceType → Bool
needs_path local = true
needs_path _ = false

module _ {S : System} (files : Staging S) where
  unfoldable pub validate_source : List DriverSource → Text → S.State → ServiceResult (Unit {0})
  unfolding needs_path
  validate_source sources id os = elim (find (λ (s : DriverSource). text_eq s.id id) sources) [
    | none ↦ err (not_found (codes "driver source '" ++ (id ++ codes "' is not enabled")))
    | some source ↦
        (if needs_path source.source_type && not (S.exists os source.name)
          then err (
              backend_unavailable (
                codes "local source path "
                ++ (S.debug_path source.name ++ codes " does not exist")))
          else ok tt)
  ]

  unfoldable pub validate_package_path : Text → S.State → ServiceResult (Unit {0})
  unfolding is_absolute is_allowed_path
  validate_package_path path os =
      if contains path (codes "..")
      then err (invalid_argument (codes "package path must not contain '..'"))
      else if is_absolute path && not (is_allowed_path path)
      then err (
          invalid_argument
            (codes "package path '" ++ (path ++ codes "' is not in an allowed directory")))
      else elim (files.metadata os path) [
        | err e ↦ err (invalid_argument (codes "cannot access package path: " ++ e))
        | ok m ↦
            (if not m.is_file
              then err (invalid_argument (codes "package path is not a regular file"))
              else ok tt)
      ]

  -- The first signature file that is there and can be read.
  unfoldable pub first_readable : List Text → S.State → Text
  first_readable [] os = []
  first_readable (path ∷ paths) os =
      let rest = first_readable paths os in
      if S.exists os path
      then elim (S.read_file os path) [ err e ↦ rest | ok data_read ↦ data_read ]
      else rest

  unfoldable pub read_signature : Text → S.State → Text
  unfolding first_readable with_extension
  read_signature path os =
      first_readable (with_extension path (codes "ko.sig") ∷ with_extension path (codes "sig") ∷ [])
        os

  unfoldable pub check_package_size : PackageStore → Text → S.State → ServiceResult ℕ
  check_package_size store path os = elim (files.metadata os path) [
    | err e ↦ err (invalid_argument (codes "cannot access package file: " ++ e))
    | ok m ↦
        (if ltb store.max_package_size m.len
          then err (
              invalid_argument (
                codes "package size "
                ++ (show m.len ++ (codes " exceeds maximum " ++ show store.max_package_size))))
          else ok m.len)
  ]

  -- The copy, and what is answered about it.
  unfoldable pub stage_file :
      PackageStore → Text → Text → ℕ → DriverModuleType → M S (ServiceResult DriverPackage)
  unfolding read_signature path_join
  stage_file store source_path name size module_type = do
    let staged = path_join store.store_path name
    copied ← on_os (λ os. S.copy_file os source_path staged)
    attempt (map_err (λ e. internal (codes "cannot stage package: " ++ e)) copied) λ u. do
      signature ← gets (λ w. read_signature source_path w.os)
      pure (
          ok (record {
            file_name = name;
            staged_path = staged;
            size_bytes = size;
            expected_hash = none;
            signature = signature;
            signing_key_id = none;
            module_type = module_type;
          }))

  unfoldable pub stage_local :
      PackageStore → Text → DriverModuleType → M S (ServiceResult DriverPackage)
  unfolding name_of validate_package_path check_package_size stage_file
  stage_local store source_path module_type w = elim (name_of source_path) [
    | none ↦ (w, err (invalid_argument (codes "invalid source path")))
    | some name ↦
        attempt (validate_package_path source_path w.os)
          (λ u.
            attempt (check_package_size store source_path w.os)
              (λ size. stage_file store source_path name size module_type))
          w
  ]

  unfoldable pub remove_staged : DriverPackage → M S (Unit {0})
  remove_staged staged_package =
      on_os (λ os. let (os', result) = S.remove_file os staged_package.staged_path in (os', tt))

  unfoldable pub remove_files : List Text → M S (Unit {0})
  remove_files [] w = (w, tt)
  remove_files (path ∷ paths) w =
      let (os, result) = S.remove_file w.os path in
      let removed = remove_files paths (record w { os = os }) in
      let kept = remove_files paths w in if files.is_file w.os path then removed else kept

  unfoldable pub cleanup_all : PackageStore → M S (Unit {0})
  unfolding remove_files
  cleanup_all store w = remove_files (files.read_dir w.os store.store_path) w
