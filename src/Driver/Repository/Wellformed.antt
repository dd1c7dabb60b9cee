-- ===== src/Driver/Repository/Wellformed.antt =====
-- What the validation of a manifest in services/driverd/src/repository.rs accepts.
use mission_os.Base.{
  ℕ, ◌+◌, ◌%◌, ◌^◌, ◌≤◌, ◌<◌, ◌⊎◌, List, [], ◌∷◌, true, false, ◌≡◌, ◌↔◌, inl, inr, All, any, all,
  length, is_empty, arith, Bool-cases,
}
use mission_os.Base.Results.{ok, Result-cases}
use mission_os.Base.Text.{Text, codes, text_eq_iff, trim, contains, starts_with}
use mission_os.Driver.Inventory.Versions
use mission_os.Driver.Repository.{
  RepositoryPackageEntry, RepositoryManifest, FreshnessPolicy, is_hexdigit, validate_url,
  validate_digest, validate_entry, same_package, check_packages, validate_manifest, check_freshness,
}

abbrev pub IsWeb : Text → Type 0
IsWeb url = (starts_with url (codes "http://") ≡ true) ⊎ (starts_with url (codes "https://") ≡ true)

-- A location over HTTP or HTTPS, or an absolute path, without `..` and without a backslash; a version
-- that parses; and a digest of 64 digits.
pub record IsSafeEntry (p : RepositoryPackageEntry) : Type 0 where
  pub is_named : is_empty (trim p.name) ≡ false
  pub has_scheme : IsWeb (trim p.url) ⊎ (starts_with (trim p.url) (codes "/") ≡ true)
  pub has_no_parent : contains (trim p.url) (codes "..") ≡ false
  pub has_no_backslash : contains (trim p.url) (codes "\\") ≡ false
  pub is_full : length p.digest_value ≡ 64
  pub is_hexadecimal : all is_hexdigit p.digest_value ≡ true
  pub version : Versions.DriverVersion
  pub is_parsed : Versions.parse p.version ≡ ok version

url-location :
    (p : RepositoryPackageEntry)
    → validate_url p ≡ ok tt
    → (IsWeb (trim p.url) ⊎ (starts_with (trim p.url) (codes "/") ≡ true))
      × (contains (trim p.url) (codes "..") ≡ false)
      × (contains (trim p.url) (codes "\\") ≡ false)
unfolding validate_url
url-location p h =
    let scheme =
      elim (Bool-cases (starts_with (trim p.url) (codes "http://")))
        as (λ _. IsWeb (trim p.url) ⊎ (starts_with (trim p.url) (codes "/") ≡ true)) [
          | inl k ↦ inl (inl k)
          | inr k ↦ elim (Bool-cases (starts_with (trim p.url) (codes "https://"))) [
            | inl l ↦ inl (inr l)
            | inr l ↦ inr (ground (arith, h, k, l))
          ]
        ] in
    (scheme, ground (arith, h), ground (arith, h))

digest-full :
    (p : RepositoryPackageEntry)
    → validate_digest p ≡ ok tt
    → (length p.digest_value ≡ 64) × (all is_hexdigit p.digest_value ≡ true)
unfolding validate_digest
digest-full p h = ground (arith, h)

validate_entry-IsSafeEntry : (p : RepositoryPackageEntry) → validate_entry p ≡ ok tt → IsSafeEntry p
unfolding validate_entry
validate_entry-IsSafeEntry p h = elim (Result-cases (Versions.parse p.version)) [
  | inr (e, v) ↦ absurd (ground arith)
  | inl (version, v) ↦ elim (Result-cases (validate_url p)) [
    | inr (e, u) ↦ absurd (ground arith)
    | inl (done, u) ↦ elim (Result-cases (validate_digest p)) [
      | inr (e, d) ↦ absurd (ground arith)
      | inl (done2, d) ↦
          let digest = digest-full p d in
          record {
            is_named = ground arith;
            has_scheme = (url-location p u).0;
            has_no_parent = (url-location p u).1;
            has_no_backslash = (url-location p u).2;
            is_full = digest.0;
            is_hexadecimal = digest.1;
            version = version;
            is_parsed = v;
          }
    ]
  ]
]

abbrev pub IsSame : RepositoryPackageEntry → RepositoryPackageEntry → Type 0
IsSame q p = (q.name ≡ p.name) × (q.version ≡ p.version)

-- No two packages have both the name and the version in common.
abbrev pub HasNoDuplicate : List RepositoryPackageEntry → Type 0
HasNoDuplicate [] = Unit
HasNoDuplicate (p ∷ packages) =
    All (λ (q : RepositoryPackageEntry). ¬ IsSame q p) packages × HasNoDuplicate packages

abbrev IsUnseen : List RepositoryPackageEntry → RepositoryPackageEntry → Type 0
IsUnseen seen q = any (same_package q) seen ≡ false

same_package_refl : (q p : RepositoryPackageEntry) → IsSame q p → same_package q p ≡ true
unfolding same_package
same_package_refl q p h =
    ground (arith, text_eq_iff q.name p.name, text_eq_iff q.version p.version, h)

IsUnseen-different :
    (p : RepositoryPackageEntry) (seen packages : List RepositoryPackageEntry)
    → All (IsUnseen (p ∷ seen)) packages
    → All (λ (q : RepositoryPackageEntry). ¬ IsSame q p) packages
IsUnseen-different p seen [] h = tt
IsUnseen-different p seen (q ∷ packages) h =
    let first = h.0 in
    ((λ k. ground (arith, same_package_refl q p k)), IsUnseen-different p seen packages h.1)

IsUnseen-tail :
    (p : RepositoryPackageEntry) (seen packages : List RepositoryPackageEntry)
    → All (IsUnseen (p ∷ seen)) packages
    → All (IsUnseen seen) packages
IsUnseen-tail p seen [] h = tt
IsUnseen-tail p seen (q ∷ packages) h =
    ((let first = h.0 in ground arith), IsUnseen-tail p seen packages h.1)

check_packages-IsUnseen :
    (seen packages : List RepositoryPackageEntry)
    → check_packages seen packages ≡ ok tt
    → All IsSafeEntry packages × All (IsUnseen seen) packages × HasNoDuplicate packages
unfolding check_packages
check_packages-IsUnseen seen [] h = (tt, tt, tt)
check_packages-IsUnseen seen (p ∷ packages) h = elim (Result-cases (validate_entry p)) [
  | inr (e, v) ↦ absurd (ground arith)
  | inl (done, v) ↦ elim (Bool-cases (any (same_package p) seen)) [
    | inl k ↦ absurd (ground arith)
    | inr k ↦
        let rest = check_packages-IsUnseen (p ∷ seen) packages (ground arith) in
        (
          (validate_entry-IsSafeEntry p v, rest.0),
          (k, IsUnseen-tail p seen packages rest.1),
          (IsUnseen-different p seen packages rest.1, rest.2),
        )
  ]
]

pub record IsWellFormed (m : RepositoryManifest) : Type 0 where
  pub has_version : m.manifest_version ≡ 1
  pub has_period : m.issued_at < m.expires_at
  pub are_safe : All IsSafeEntry m.packages
  pub has_no_duplicate : HasNoDuplicate m.packages

-- A manifest that is validated has the version 1, expires after it was issued, and lists only packages
-- with a name, a location over HTTP or HTTPS or an absolute path, without `..` and without a backslash,
-- a version that parses and a digest of 64 hexadecimal digits; no two of them have both the name and
-- the version in common.
pub validate_manifest-IsWellFormed :
    (m : RepositoryManifest) → validate_manifest m ≡ ok tt → IsWellFormed m
unfolding validate_manifest
validate_manifest-IsWellFormed m h =
    let packages = check_packages-IsUnseen [] m.packages (ground arith) in
    record {
      has_version = ground arith;
      has_period = ground arith;
      are_safe = packages.0;
      has_no_duplicate = packages.2;
    }

-- The clock is within the tolerance of the period of the manifest, and it is not too old.
pub record IsFresh (now : ℕ) (m : RepositoryManifest) (policy : FreshnessPolicy) : Type 0 where
  pub is_issued : m.issued_at ≤ now + policy.clock_skew_secs
  pub is_running : now ≤ m.expires_at + policy.clock_skew_secs
  pub is_young : now ≤ m.issued_at + policy.max_age_secs

-- Whatever the tolerance, what passes is fresh: a sum that wraps around only refuses more.
pub check_freshness_sound :
    (now : ℕ) (m : RepositoryManifest) (policy : FreshnessPolicy)
    → check_freshness now m policy ≡ ok tt
    → IsFresh now m policy
unfolding check_freshness
check_freshness_sound now m policy h =
    let before : m.issued_at ≤ (now + policy.clock_skew_secs) % 2 ^ 64 = ground arith in
    record { is_issued = omega (arith, before); is_running = ground arith; is_young = ground arith }

-- As long as the time of the clock and the tolerance have a sum below 2 ^ 64, a manifest passes
-- exactly if it was issued no later than the tolerance after the time of the clock, that time is no
-- later than the tolerance after its expiry, and no later than the greatest age after it was issued.
pub check_freshness-IsFresh :
    (now : ℕ) (m : RepositoryManifest) (policy : FreshnessPolicy)
    → now + policy.clock_skew_secs < 2 ^ 64
    → (check_freshness now m policy ≡ ok tt) ↔ IsFresh now m policy
unfolding check_freshness
check_freshness-IsFresh now m policy bound = (
  check_freshness_sound now m policy,
  (λ h.
      let issued = h.is_issued in
      let no_wrap : (now + policy.clock_skew_secs) % 2 ^ 64 ≡ now + policy.clock_skew_secs =
        omega (arith, bound) in
      let running = h.is_running in let young = h.is_young in ground arith),
)
