-- ===== src/Driver/Samples/Caches.antt =====
-- A cache with two packages to run the eviction and the verification of services/driverd on.
use mission_os.Base.{ℕ, ◌↔◌, ◌∷◌, List, [], Bool, true, ◌≡◌, refl, any}
use mission_os.Base.Results.{ok, err}
use mission_os.Base.Text.{Text, codes, text_eq, split, join, rsplit_once}
use mission_os.Driver.World.{World}
use mission_os.Driver.Fetch.{hash_file}
use mission_os.Driver.Cache.{CacheConfig, Directory, cache_path_for, evict, verify_cache_entry}
use mission_os.Driver.Cache.Bounded.{verify_cache_entry_iff}
use mission_os.Driver.Samples.Store.{Files, append, store_files, server}
use mission_os.Driver.Samples.Downloads.{request, empty_world}

abbrev cached : CacheConfig
cached = record { cache_path = codes "/cache"; max_size_bytes = 3; max_entries = 1 }

abbrev listing : Directory store_files
listing = record {
  read_dir = λ s path. [];
  print_meta = λ m. ok [];
  parse_meta = λ t. err (codes "no metadata");
  write_file = λ s path bytes. (append s path bytes, ok tt);
}

abbrev old_and_new : List (Text × ℕ)
old_and_new = (codes "/cache/pkg-01", 1) ∷ (codes "/cache/pkg-02", 2) ∷ []

abbrev filled : World store_files
filled = record empty_world {
  os =
      (codes "/cache/pkg-01", 1 ∷ 2 ∷ 3 ∷ [])
      ∷ (codes "/cache/pkg-01.meta", [])
      ∷ (codes "/cache/pkg-02", 4 ∷ 5 ∷ [])
      ∷ [];
}

-- Of five bytes in two entries, the older entry goes.
old_removed :
    (evict server listing cached 5 2 old_and_new filled).0.os
    ≡ (codes "/cache/pkg-02", 4 ∷ 5 ∷ []) ∷ []
unfolding evict split join rsplit_once
old_removed = refl

abbrev is_there : Files → Text → Bool
is_there s name = any (λ (f : Text × Text). text_eq f.0 name) s

verify_cache_entry_iff_example :
    ((verify_cache_entry server listing cached request.expected_digest empty_world).1 ≡ ok true) ↔ (
      (store_files.exists empty_world.os (cache_path_for cached request.expected_digest) ≡ true)
      × (hash_file server
            (codes "sha256")
            (cache_path_for cached request.expected_digest)
            empty_world.os
          ≡ ok (7 ∷ 8 ∷ [])))
verify_cache_entry_iff_example =
    verify_cache_entry_iff server listing cached request.expected_digest empty_world
