-- ===== src/Driver/Cache/Bounded.antt =====
-- What the eviction and the verification of services/driverd/src/cache.rs leave in the cache.
use mission_os.Base.{
  ℕ, ◌≤◌, ◌<◌, ◌-◌, List, [], ◌∷◌, ◌++◌, true, ◌≡◌, sym, ◌∙◌, ap, ◌⊎◌, ◌↔◌, inl, inr, length, arith,
  Bool-cases,
}
use mission_os.Base.Results.{ok, Result-cases}
use mission_os.Base.Text.{Text}
use mission_os.Driver.Metadata.{PackageDigest, matches}
use mission_os.Driver.Metadata.Digest.{matches_iff}
use mission_os.Driver.System.{System}
use mission_os.Driver.World.{World}
use mission_os.Driver.Web.{Web}
use mission_os.Driver.Fetch.{hash_file}
use mission_os.Driver.Cache.{
  CacheConfig, Directory, cache_path_for, remove_files_of, verify_cache_entry, size_without,
}

module _ {S : System} (web : Web S) (dir : Directory S) (c : CacheConfig) where
  -- The removal of entries, one after the other, each of them in a state in which the size or the
  -- number of entries is above its limit. The size is counted down by those that can be measured.
  pub data Evicted : ℕ → ℕ → World S → List (Text × ℕ) → ℕ → ℕ → World S → Type 0 where
    nothing : (size count : ℕ) (w : World S) → Evicted size count w [] size count w
    one_more :
        (size count : ℕ) (w : World S) (e : Text × ℕ) (removed : List (Text × ℕ)) (size' count' : ℕ)
        (w' : World S)
        → (c.max_size_bytes < size) ⊎ (c.max_entries < count)
        → Evicted
            (size_without size (web.file_size w.os e.0))
            (count - 1)
            (remove_files_of web dir c e.0 w).0
            removed
            size'
            count'
            w'
        → Evicted size count w (e ∷ removed) size' count' w'

  -- The entries fall into those that are removed and, behind them, those that are left, which keep the
  -- limits.
  pub record IsBounded (size count : ℕ) (entries : List (Text × ℕ)) (w after : World S)
      : Type 0 where
    pub removed : List (Text × ℕ)
    pub left : List (Text × ℕ)
    pub is_split : entries ≡ removed ++ left
    pub last_size : ℕ
    pub is_evicted : Evicted size count w removed last_size (length left) after
    pub is_bounded : length left ≤ c.max_entries
    pub is_small : (left ≡ []) ⊎ (last_size ≤ c.max_size_bytes)

  -- An entry is answered as verified exactly if its file is there and hashes to the digest.
  pub verify_cache_entry_iff :
      (digest : PackageDigest) (w : World S)
      → ((verify_cache_entry web dir c digest w).1 ≡ ok true) ↔ (
          (S.exists w.os (cache_path_for c digest) ≡ true)
          × (hash_file web digest.algorithm (cache_path_for c digest) w.os ≡ ok digest.value))
  unfolding verify_cache_entry
  verify_cache_entry_iff digest w = elim (Bool-cases (S.exists w.os (cache_path_for c digest))) [
    | inr k ↦ ((λ h. absurd (ground arith)), (λ h. absurd (ground arith)))
    | inl k ↦ elim (Result-cases (hash_file web digest.algorithm (cache_path_for c digest) w.os)) [
      | inr (e, n) ↦ ((λ h. absurd (ground arith)), (λ h. absurd (ground arith)))
      | inl (actual, n) ↦ elim (Bool-cases (matches digest actual)) [
        | inl q ↦
            let same = (matches_iff digest actual).0 q in
            ((λ h. (k, n ∙ ap ok (sym same))), (λ h. ground arith))
        | inr q ↦ (
          (λ h. absurd (ground arith)),
          (λ h.
              let same : digest.value ≡ actual = ground (arith, h, n) in
              absurd (ground (arith, (matches_iff digest actual).1 same))),
        )
      ]
    ]
  ]
