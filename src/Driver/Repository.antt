-- ===== src/Driver/Repository.antt =====
-- Repository metadata: services/driverd/src/repository.rs. The raw bytes of a manifest are a text,
-- and the library that verifies signatures is `System.signature_valid`.
pub mod Trust
pub mod Manager
pub mod Wellformed
use mission_os.Base.{
  ℕ, zero, suc, List, [], ◌∷◌, ◌++◌, ◌+◌, ◌-◌, ◌%◌, ◌^◌, Option, none, some, Bool, true, false, not,
  ◌&&◌, ◌||◌, ◌==◌, ltb, leb, all, any, length, is_empty, take, if◌then◌else◌,
}
use mission_os.Base.Results.{Result, ok, err, ◌>>=◌, ◌>>◌, guard, map_err}
use mission_os.Base.Text.{Text, codes, text_eq, trim, starts_with, contains, to_lowercase}
use mission_os.Base.Decimal.{show}
use mission_os.Base.Hex.{hex_byte, continues}
use mission_os.Driver.Error.{
  ServiceError, ServiceResult, error_text, invalid_argument, metadata_error, verification_failed,
  source_error, internal,
}
use mission_os.Driver.Inventory.Versions

pub record FreshnessPolicy : Type 0 where
  pub clock_skew_secs : ℕ
  pub max_age_secs : ℕ

abbrev pub strict : FreshnessPolicy
strict = record { clock_skew_secs = 60; max_age_secs = 3_600 }

abbrev pub default_policy : FreshnessPolicy
default_policy = record { clock_skew_secs = 300; max_age_secs = 86_400 }

unfoldable pub validate_policy : FreshnessPolicy → ServiceResult (Unit {0})
validate_policy p = do
  guard (not (ltb p.max_age_secs 3_600)) (
      invalid_argument
        (codes "max_age_secs " ++ (show p.max_age_secs ++ codes " is below minimum 3600")))
  guard (not (ltb 604_800 p.max_age_secs)) (
      invalid_argument
        (codes "max_age_secs " ++ (show p.max_age_secs ++ codes " exceeds maximum 604800")))

pub record RepositoryPackageEntry : Type 0 where
  pub name : Text
  pub version : Text
  pub url : Text
  pub size : Option ℕ
  pub digest_algorithm : Text
  pub digest_value : Text
  pub architecture : Option Text
  pub kernel_compat : Option Text
  pub modalias_patterns : List Text
  pub metadata_version : ℕ
  pub channel : Option Text

pub data ManifestVerification : Type 0 where
  unverified : ManifestVerification
  verified : Text → ManifestVerification
  invalid_signature : Text → ManifestVerification
  unknown_key : Text → ManifestVerification

unfoldable pub is_trusted : ManifestVerification → Bool
is_trusted (verified key_id) = true
is_trusted _ = false

pub record RepositoryManifest : Type 0 where
  pub repository_id : Text
  pub manifest_version : ℕ
  pub issued_at : ℕ
  pub expires_at : ℕ
  pub signing_key_id : Text
  pub packages : List RepositoryPackageEntry
  pub verification : ManifestVerification

unfoldable pub validate_url : RepositoryPackageEntry → ServiceResult (Unit {0})
validate_url p = do
  let url = trim p.url
  guard (not (is_empty url)) (metadata_error (codes "package URL must not be empty"))
  guard (not (contains url (codes "..")))
      (metadata_error (codes "package URL must not contain path traversal sequences"))
  guard (not (contains url (92 ∷ [])))
      (metadata_error (codes "package URL must not contain backslashes"))
  guard
      (starts_with url (codes "http://")
        || (starts_with url (codes "https://") || starts_with url (codes "/")))
      (metadata_error
        (codes "package URL must be http/https or absolute path: '" ++ (url ++ codes "'")))

unfoldable pub is_hexdigit : ℕ → Bool
is_hexdigit c =
    (leb b'0' c && leb c b'9') || ((leb b'a' c && leb c b'f') || (leb b'A' c && leb c b'F'))

-- Both algorithms have digests of 64 digits, so that the second test of the algorithm is never
-- reached.
unfoldable pub validate_digest : RepositoryPackageEntry → ServiceResult (Unit {0})
unfolding is_hexdigit
validate_digest p = do
  let algo_lower = to_lowercase p.digest_algorithm
  guard (text_eq algo_lower (codes "sha256") || text_eq algo_lower (codes "blake3"))
      (metadata_error (codes "unsupported digest algorithm '" ++ (p.digest_algorithm ++ codes "'")))
  guard (length p.digest_value == 64) (
      metadata_error (
        codes "digest value length "
        ++ (show (length p.digest_value)
            ++ (codes " does not match expected 64 for algorithm '"
                ++ (p.digest_algorithm ++ codes "'")))))
  guard (all is_hexdigit p.digest_value)
      (metadata_error (codes "digest value must be valid hexadecimal"))

unfoldable pub validate_architecture : Option Text → ServiceResult (Unit {0})
validate_architecture none = ok tt
validate_architecture (some arch) =
    let arch_lower = to_lowercase arch in
    guard
      (any (text_eq arch_lower)
        (codes "x86_64" ∷ codes "amd64" ∷ codes "aarch64" ∷ codes "arm64" ∷ []))
      (metadata_error (codes "unsupported architecture '" ++ (arch ++ codes "'")))

unfoldable pub validate_channel : Option Text → ServiceResult (Unit {0})
validate_channel none = ok tt
validate_channel (some channel) =
    guard
      (any (text_eq channel)
        (codes "stable" ∷ codes "beta" ∷ codes "testing" ∷ codes "nightly" ∷ codes "rc" ∷ []))
      (metadata_error (codes "invalid release channel '" ++ (channel ++ codes "'")))

unfoldable pub validate_size : Option ℕ → ServiceResult (Unit {0})
validate_size none = ok tt
validate_size (some size) =
    guard (not (size == 0)) (metadata_error (codes "package size must be positive if specified"))

unfoldable pub validate_entry : RepositoryPackageEntry → ServiceResult (Unit {0})
unfolding validate_url validate_size validate_digest validate_architecture validate_channel
validate_entry p = do
  guard (not (is_empty (trim p.name))) (metadata_error (codes "package name must not be empty"))
  guard (not (ltb 256 (length p.name)))
      (metadata_error (codes "package name exceeds maximum length"))
  guard (not (is_empty (trim p.version)))
      (metadata_error (codes "package version must not be empty"))
  _ ←
      map_err
        (λ e.
          metadata_error
            (codes "invalid package version '" ++ (p.version ++ (codes "': " ++ error_text e))))
        (Versions.parse p.version)
  validate_url p
  validate_size p.size
  validate_digest p
  validate_architecture p.architecture
  validate_channel p.channel

unfoldable pub same_package : RepositoryPackageEntry → RepositoryPackageEntry → Bool
same_package p q = text_eq p.name q.name && text_eq p.version q.version

-- The loop over the packages, with those seen so far.
unfoldable pub check_packages :
    List RepositoryPackageEntry → List RepositoryPackageEntry → ServiceResult (Unit {0})
unfolding validate_entry same_package
check_packages seen [] = ok tt
check_packages seen (p ∷ packages) = do
  validate_entry p
  guard (not (any (same_package p) seen)) (
      metadata_error
        (codes "duplicate package entry '" ++ (p.name ++ (codes "' version " ++ p.version))))
  check_packages (p ∷ seen) packages

unfoldable pub validate_manifest : RepositoryManifest → ServiceResult (Unit {0})
unfolding check_packages
validate_manifest m = do
  guard (not (is_empty (trim m.repository_id)))
      (metadata_error (codes "repository_id must not be empty"))
  guard (m.manifest_version == 1)
      (metadata_error (codes "unsupported manifest version: " ++ show m.manifest_version))
  guard (not (is_empty (trim m.signing_key_id)))
      (metadata_error (codes "signing_key_id must not be empty"))
  guard (not (m.issued_at == 0)) (metadata_error (codes "issued_at must not be zero"))
  guard (not (m.expires_at == 0)) (metadata_error (codes "expires_at must not be zero"))
  guard (ltb m.issued_at m.expires_at) (metadata_error (codes "expires_at must be after issued_at"))
  check_packages [] m.packages

-- `check_freshness` at the time that the clock shows. The sum of two `u64` wraps around, as in a build
-- for release.
unfoldable pub check_freshness : ℕ → RepositoryManifest → FreshnessPolicy → ServiceResult (Unit {0})
check_freshness now m policy = do
  guard (not (ltb ((now + policy.clock_skew_secs) % 2 ^ 64) m.issued_at)) (
      metadata_error (
        codes "manifest issued_at "
        ++ (show m.issued_at
            ++ (codes " is in the future (skew tolerance: "
                ++ (show policy.clock_skew_secs ++ codes "s)")))))
  guard (not (ltb m.expires_at (now - policy.clock_skew_secs))) (
      metadata_error (
        codes "manifest expired at "
        ++ (show m.expires_at
            ++ (codes " (current time: "
                ++ (show now
                    ++ (codes ", skew tolerance: "
                        ++ (show policy.clock_skew_secs ++ codes "s)")))))))
  guard (not (ltb policy.max_age_secs (now - m.issued_at))) (
      metadata_error (
        codes "manifest age "
        ++ (show (now - m.issued_at)
            ++ (codes "s exceeds maximum " ++ (show policy.max_age_secs ++ codes "s")))))

-- What a call that panics has for a result.
pub data Panic : Type 0 where
  panic : Panic

-- Whether a text starts inside a character of UTF-8.
unfoldable pub starts_inside : Text → Bool
unfolding continues
starts_inside [] = false
starts_inside (c ∷ s) = continues c

unfoldable pub push_byte : ℕ → Result Panic (Option Text) → Result Panic (Option Text)
push_byte byte (ok (some bytes)) = ok (some (byte ∷ bytes))
push_byte byte r = r

-- The digits two by two, up to the first two that are none. A slice of the text that would end
-- inside a character panics.
unfoldable pub decode_pairs : Text → Result Panic (Option Text)
unfolding starts_inside push_byte
decode_pairs [] = ok (some [])
decode_pairs (a ∷ []) = ok none
decode_pairs (a ∷ b ∷ s) =
    let rest = decode_pairs s in
    if starts_inside s
    then err panic
    else elim (hex_byte a b) [ none ↦ ok none | some byte ↦ push_byte byte rest ]

unfoldable pub hex_decode : Text → Result Panic (Option Text)
unfolding decode_pairs
hex_decode hex = if not (length (trim hex) % 2 == 0) then ok none else decode_pairs (trim hex)

-- `Some(bytes) if bytes.len() == n`.
unfoldable pub of_length : ℕ → Option Text → Option Text
of_length n none = none
of_length n (some bytes) = if length bytes == n then some bytes else none

-- The first trusted key under which the signature verifies; a malformed one is skipped.
unfoldable pub signing_key :
    (Text → Text → Text → Bool) → Text → Text → List Text → Result Panic (Option Text)
unfolding hex_decode of_length
signing_key verify json signature [] = ok none
signing_key verify json signature (key_hex ∷ keys) =
    let rest = signing_key verify json signature keys in
    hex_decode key_hex >>= λ decoded. elim (of_length 32 decoded) [
      | none ↦ rest
      | some key ↦ (if verify key json signature then ok (some key_hex) else rest)
    ]

unfoldable pub with_signature :
    (Text → Text → Text → Bool) → Text → List Text → Option Text → Result Panic ManifestVerification
unfolding signing_key
with_signature verify json trusted_keys none =
    ok (invalid_signature (codes "signature is not valid hex or wrong length (expected 64 bytes)"))
with_signature verify json trusted_keys (some signature) =
    signing_key verify json signature trusted_keys >>= λ found. elim found [
      | some key_hex ↦ ok (verified key_hex)
      | none ↦
          (if is_empty trusted_keys
            then ok (unknown_key (codes "no trusted keys configured"))
            else ok (invalid_signature (codes "signature does not match any trusted key")))
    ]

unfoldable pub verify_manifest_signature :
    (Text → Text → Text → Bool) → Text → Text → List Text → Result Panic ManifestVerification
unfolding with_signature hex_decode of_length
verify_manifest_signature verify json signature_hex trusted_keys =
    hex_decode signature_hex >>= λ decoded.
    with_signature verify json trusted_keys (of_length 64 decoded)
