-- ===== src/Driver/Cache.antt =====
-- The cache of packages: services/driverd/src/cache.rs. The entries of a directory, their JSON and
-- the file system are parameters.
pub mod Bounded
pub mod Gone
use mission_os.Base.{
  ℕ, List, [], ◌∷◌, ◌++◌, ◌+◌, ◌-◌, Option, none, some, Bool, true, false, not, ◌&&◌, ◌||◌, ◌==◌,
  ltb, leb, length, is_empty, keep, if◌then◌else◌,
}
use mission_os.Base.Results.{Result, ok, err, map_err}
use mission_os.Base.Text.{Text, codes, text_eq, rsplit_once, starts_with, ends_with}
use mission_os.Driver.Error.{
  ServiceError, ServiceResult, error_text, invalid_argument, internal, not_found,
}
use mission_os.Driver.Metadata.{PackageDigest, to_hex, matches}
use mission_os.Driver.System.{System}
use mission_os.Driver.World.{World, M, ◌>>=◌, ◌>>◌, pure, gets, on_os}
use mission_os.Driver.Web.{Web}
use mission_os.Driver.Fetch.{attempt, hash_file, remove_quietly, with_extension}
use mission_os.Driver.Kmod.{path_join}

pub record CacheConfig : Type 0 where
  pub cache_path : Text
  pub max_size_bytes : ℕ
  pub max_entries : ℕ

unfoldable pub validate_config : CacheConfig → ServiceResult (Unit {0})
validate_config c =
    if is_empty c.cache_path
    then err (invalid_argument (codes "cache path must not be empty"))
    else if c.max_size_bytes == 0
    then err (invalid_argument (codes "max cache size must be positive"))
    else if c.max_entries == 0
    then err (invalid_argument (codes "max cache entries must be positive"))
    else ok tt

pub record CacheEntryMeta : Type 0 where
  pub package_name : Text
  pub package_version : Text
  pub source_id : Text
  pub digest_algorithm : Text
  pub digest_value : Text
  pub size_bytes : ℕ
  pub cached_at : ℕ
  pub digest_verified : Bool

-- An entry of a directory, with its size and the time of its modification where they can be read.
pub record DirEntry : Type 0 where
  pub path : Text
  pub size : Option ℕ
  pub modified : Option ℕ

-- What the cache asks beyond `Web`. A directory that cannot be read has no entries.
pub record Directory (S : System) : Type 0 where
  pub read_dir : S.State → Text → List DirEntry
  pub print_meta : CacheEntryMeta → Result Text Text
  pub parse_meta : Text → Result Text CacheEntryMeta
  -- `std::fs::write`.
  pub write_file : S.State → Text → Text → S.State × Result Text (Unit {0})

unfoldable pub cache_path_for : CacheConfig → PackageDigest → Text
unfolding to_hex path_join
cache_path_for c digest = path_join c.cache_path (codes "pkg-" ++ to_hex digest)

unfoldable pub partial_path_for : CacheConfig → PackageDigest → Text
unfolding to_hex path_join
partial_path_for c digest =
    path_join c.cache_path (codes "pkg-" ++ (to_hex digest ++ codes ".part"))

unfoldable pub meta_path_for : CacheConfig → PackageDigest → Text
unfolding to_hex path_join
meta_path_for c digest = path_join c.cache_path (codes "pkg-" ++ (to_hex digest ++ codes ".meta"))

-- `Path::file_name` and `Path::extension` of a path of the directory.
unfoldable pub file_name : Text → Text
unfolding rsplit_once
file_name path = elim (rsplit_once b'/' path) [ none ↦ path | some (dir, name) ↦ name ]

unfoldable pub has_extension : Text → Text → Bool
unfolding file_name
has_extension extension path = elim (rsplit_once b'.' (file_name path)) [
  | none ↦ false
  | some (stem, found) ↦ not (is_empty stem) && text_eq found extension
]

-- Neither a partial download nor metadata.
unfoldable pub is_package : DirEntry → Bool
unfolding has_extension
is_package e = not (has_extension (codes "part") e.path || has_extension (codes "meta") e.path)

-- The entries with a time, with it.
unfoldable pub timed : List DirEntry → List (Text × ℕ)
timed [] = []
timed (e ∷ entries) =
    let rest = timed entries in elim e.modified [ none ↦ rest | some at ↦ (e.path, at) ∷ rest ]

-- `sort_by_key` on the time: stable, the oldest first.
unfoldable pub insert_by_time : Text × ℕ → List (Text × ℕ) → List (Text × ℕ)
insert_by_time e [] = e ∷ []
insert_by_time e (f ∷ entries) =
    let rest = insert_by_time e entries in if ltb f.1 e.1 then f ∷ rest else e ∷ f ∷ entries

unfoldable pub sort_by_time : List (Text × ℕ) → List (Text × ℕ)
unfolding insert_by_time
sort_by_time [] = []
sort_by_time (e ∷ entries) = insert_by_time e (sort_by_time entries)

unfoldable pub total_size : List DirEntry → ℕ
total_size [] = 0
total_size (e ∷ entries) =
    let rest = total_size entries in elim e.size [ none ↦ rest | some n ↦ n + rest ]

unfoldable pub is_within : CacheConfig → ℕ → ℕ → Bool
is_within c size count = leb size c.max_size_bytes && leb count c.max_entries

-- `saturating_sub` of the size of a file, if it can be read.
unfoldable pub size_without : ℕ → Result Text ℕ → ℕ
size_without size (err e) = size
size_without size (ok n) = size - n

module _ {S : System} (web : Web S) (dir : Directory S) (c : CacheConfig) where
  unfoldable pub packages : S.State → List DirEntry
  unfolding is_package
  packages os = keep is_package (dir.read_dir os c.cache_path)

  unfoldable pub current_cache_size : S.State → ℕ
  unfolding packages total_size
  current_cache_size os = total_size (packages os)

  unfoldable pub cache_entry_count : S.State → ℕ
  unfolding packages file_name
  cache_entry_count os =
      length (keep (λ (e : DirEntry). starts_with (file_name e.path) (codes "pkg-")) (packages os))

  unfoldable pub is_cached : PackageDigest → S.State → Bool
  unfolding cache_path_for
  is_cached digest os = S.exists os (cache_path_for c digest)

  unfoldable pub get_cached_path : PackageDigest → S.State → Option Text
  unfolding cache_path_for
  get_cached_path digest os =
      if S.exists os (cache_path_for c digest) then some (cache_path_for c digest) else none

  unfoldable pub get_metadata : PackageDigest → S.State → ServiceResult CacheEntryMeta
  unfolding meta_path_for
  get_metadata digest os = elim (S.read_file os (meta_path_for c digest)) [
    | err e ↦ err (not_found (codes "cache metadata not found: " ++ e))
    | ok content ↦
        map_err (λ e. internal (codes "invalid cache metadata: " ++ e)) (dir.parse_meta content)
  ]

  unfoldable pub stage_partial : PackageDigest → M S (ServiceResult Text)
  unfolding partial_path_for
  stage_partial digest = do
    made ← on_os (λ os. web.create_dir os (partial_path_for c digest))
    pure (elim made [
      | err e ↦ err (internal (codes "cannot create cache directory: " ++ e))
      | ok u ↦ ok (partial_path_for c digest)
    ])

  -- The metadata, after the file has its name.
  unfoldable pub write_meta : PackageDigest → CacheEntryMeta → M S (ServiceResult Text)
  unfolding meta_path_for cache_path_for
  write_meta digest meta =
      attempt
        (map_err (λ e. internal (codes "cache metadata serialization failed: " ++ e))
          (dir.print_meta meta))
        λ json. do
          written ← on_os (λ os. dir.write_file os (meta_path_for c digest) json)
          attempt (map_err (λ e. internal (codes "cache metadata write failed: " ++ e)) written)
              λ u. pure (ok (cache_path_for c digest))

  unfoldable pub finalize : PackageDigest → Text → Text → Text → ℕ → Bool → M S (ServiceResult Text)
  unfolding partial_path_for cache_path_for write_meta to_hex
  finalize digest source_id package_name package_version size_bytes digest_verified w =
      if not (S.exists w.os (partial_path_for c digest))
      then (w, err (not_found (codes "partial file not found for finalization")))
      else (do
        renamed ← on_os (λ os. web.rename os (partial_path_for c digest) (cache_path_for c digest))
        attempt (map_err (λ e. internal (codes "cache finalization failed: " ++ e)) renamed) λ u. do
          now ← gets (λ w. S.now w.os)
          write_meta digest (record {
            package_name = package_name;
            package_version = package_version;
            source_id = source_id;
            digest_algorithm = digest.algorithm;
            digest_value = to_hex digest;
            size_bytes = size_bytes;
            cached_at = now;
            digest_verified = digest_verified;
          }))
          w

  -- An entry that is corrupt is removed.
  unfoldable pub verify_cache_entry : PackageDigest → M S (ServiceResult Bool)
  unfolding cache_path_for meta_path_for hash_file matches remove_quietly
  verify_cache_entry digest w =
      if not (S.exists w.os (cache_path_for c digest))
      then (w, ok false)
      else elim (hash_file web digest.algorithm (cache_path_for c digest) w.os) [
        | err e ↦ (w, err (internal (codes "cache verification failed: " ++ error_text e)))
        | ok actual ↦
            (if matches digest actual
              then (w, ok true)
              else (remove_quietly web (cache_path_for c digest)
                    >> (remove_quietly web (meta_path_for c digest) >> pure (ok false)))
                  w)
      ]

  -- The removal of the metadata, if it is there.
  unfoldable pub remove_meta : PackageDigest → M S (ServiceResult (Unit {0}))
  unfolding meta_path_for remove_quietly
  remove_meta digest w =
      if S.exists w.os (meta_path_for c digest)
      then (remove_quietly web (meta_path_for c digest) >> pure (ok tt)) w
      else (w, ok tt)

  unfoldable pub remove_entry : PackageDigest → M S (ServiceResult (Unit {0}))
  unfolding cache_path_for remove_meta
  remove_entry digest w =
      if S.exists w.os (cache_path_for c digest)
      then (do
        removed ← on_os (λ os. S.remove_file os (cache_path_for c digest))
        attempt (map_err (λ e. internal (codes "cache entry removal failed: " ++ e)) removed)
            λ u. remove_meta digest)
          w
      else remove_meta digest w

  -- The loops that remove files and count the successes.
  unfoldable pub remove_all : ℕ → List DirEntry → M S (ServiceResult ℕ)
  remove_all removed [] w = (w, ok removed)
  remove_all removed (e ∷ entries) w =
      let (os, result) = S.remove_file w.os e.path in
      let next = record w { os = os } in
      let counted = remove_all (removed + 1) entries next in
      let skipped = remove_all removed entries next in
      elim result [ ok u ↦ counted | err e ↦ skipped ]

  unfoldable pub cleanup_partials : M S (ServiceResult ℕ)
  unfolding remove_all has_extension
  cleanup_partials w =
      remove_all 0
        (keep (λ (e : DirEntry). has_extension (codes "part") e.path)
          (dir.read_dir w.os c.cache_path))
        w

  unfoldable pub clear : M S (ServiceResult ℕ)
  unfolding remove_all file_name
  clear w =
      remove_all 0
        (keep
          (λ (e : DirEntry).
            starts_with (file_name e.path) (codes "pkg-")
            || (ends_with (file_name e.path) (codes ".part")
                || ends_with (file_name e.path) (codes ".meta")))
          (dir.read_dir w.os c.cache_path))
        w

  -- The files of one entry.
  unfoldable pub remove_files_of : Text → M S (Unit {0})
  unfolding remove_quietly with_extension
  remove_files_of path =
      remove_quietly web path >> remove_quietly web (with_extension path (codes "meta"))

  -- The loop of `enforce_limits`, with the size and the number of entries.
  unfoldable pub evict : ℕ → ℕ → List (Text × ℕ) → M S (Unit {0})
  unfolding is_within remove_files_of size_without
  evict size count [] w = (w, tt)
  evict size count (e ∷ entries) w =
      let measured = size_without size (web.file_size w.os e.0) in
      let rest = evict measured (count - 1) entries (remove_files_of e.0 w).0 in
      if is_within c size count then (w, tt) else rest

  unfoldable pub enforce_limits : M S (ServiceResult (Unit {0}))
  unfolding current_cache_size cache_entry_count packages timed sort_by_time evict is_within
  enforce_limits w =
      let size = current_cache_size w.os in
      let entries = sort_by_time (timed (packages w.os)) in
      if is_within c size (cache_entry_count w.os)
      then (w, ok tt)
      else ((evict size (length entries) entries w).0, ok tt)
