-- ===== src/Driver/Repository/Manager.antt =====
-- `RepositoryManager` of services/driverd/src/repository.rs, and the checks that it records. A panic
-- ends a call where it occurs, with the state of that moment.
use mission_os.Base.{List, [], ◌++◌, take}
use mission_os.Base.Results.{Result, ok, err}
use mission_os.Base.Text.{Text, codes}
use mission_os.Driver.Error.{
  ServiceError, ServiceResult, error_text, metadata_error, verification_failed, source_error,
  internal,
}
use mission_os.Driver.Audit.{EventSeverity, info, warning, error, integrity}
use mission_os.Driver.System.{System}
use mission_os.Driver.World.{M, ◌>>=◌, ◌>>◌, pure, gets, audit}
use mission_os.Driver.Repository.{
  FreshnessPolicy, RepositoryManifest, ManifestVerification, unverified, verified,
  invalid_signature, unknown_key, Panic, validate_manifest, check_freshness,
  verify_manifest_signature,
}

unfoldable pub verification_severity : ManifestVerification → EventSeverity
verification_severity (verified key_id) = info
verification_severity _ = error

unfoldable pub verification_action : ManifestVerification → Text
verification_action (verified key_id) = codes "metadata_authentication_success"
verification_action (unknown_key msg) = codes "metadata_unknown_key"
verification_action _ = codes "metadata_authentication_failure"

unfoldable pub verification_details : Text → ManifestVerification → Text
verification_details repository (verified key_id) =
    codes "Repository '"
    ++ (repository ++ (codes "' metadata authenticated with key " ++ take 16 key_id))
verification_details repository (invalid_signature msg) =
    codes "Repository '" ++ (repository ++ (codes "': " ++ msg))
verification_details repository (unknown_key msg) =
    codes "Repository '" ++ (repository ++ (codes "': " ++ msg))
verification_details repository unverified = []

unfoldable pub validation_error : RepositoryManifest → ServiceError → ServiceError
validation_error m e =
    metadata_error (
      codes "manifest validation failed for '"
      ++ (m.repository_id ++ (codes "': " ++ error_text e)))

unfoldable pub freshness_error : RepositoryManifest → ServiceError → ServiceError
freshness_error m e = metadata_error (
    codes "manifest freshness check failed for '"
    ++ (m.repository_id ++ (codes "': " ++ error_text e)))

-- The last step, on the outcome of the verification.
unfoldable pub accept : RepositoryManifest → ManifestVerification → ServiceResult RepositoryManifest
accept m (verified key_id) = ok (record m { verification = verified key_id })
accept m (invalid_signature msg) = err (
    verification_failed (
      codes "manifest signature verification failed for '"
      ++ (m.repository_id ++ (codes "': " ++ msg))))
accept m (unknown_key msg) = err (
    source_error
      (codes "unknown signing key for repository '" ++ (m.repository_id ++ (codes "': " ++ msg))))
accept m unverified = err (internal (codes "manifest not verified after verification call"))

module _ {S : System} where
  unfoldable pub check_freshness_audited :
      RepositoryManifest → FreshnessPolicy → Text → M S (ServiceResult (Unit {0}))
  unfolding check_freshness
  check_freshness_audited m policy subject = do
    checked ← gets (λ w. check_freshness (S.now w.os) m policy)
    elim checked [
      | ok u ↦ pure (ok tt)
      | err e ↦
          audit integrity warning (codes "metadata_freshness_rejected") subject
            (codes "Repository '" ++ (m.repository_id ++ (codes "': " ++ error_text e)))
          >> pure (err e)
    ]

  unfoldable pub audit_manifest : Text → Text → ManifestVerification → M S (Unit {0})
  unfolding verification_severity verification_action verification_details
  audit_manifest subject repository unverified = pure tt
  audit_manifest subject repository result =
      audit integrity (verification_severity result) (verification_action result) subject
        (verification_details repository result)

  unfoldable pub verify_manifest_signature_audited :
      Text → Text → List Text → Text → Text → M S (Result Panic ManifestVerification)
  unfolding verify_manifest_signature audit_manifest
  verify_manifest_signature_audited json signature_hex trusted_keys subject repository =
      elim (verify_manifest_signature S.signature_valid json signature_hex trusted_keys) [
        | err p ↦ pure (err p)
        | ok result ↦ audit_manifest subject repository result >> pure (ok result)
      ]

  unfoldable pub authenticate :
      Text
      → RepositoryManifest
      → Text
      → List Text
      → Text
      → M S (Result Panic (ServiceResult RepositoryManifest))
  unfolding verify_manifest_signature_audited accept
  authenticate json m signature_hex trusted_keys subject = do
    result ←
        verify_manifest_signature_audited json signature_hex trusted_keys subject m.repository_id
    elim result [ err p ↦ pure (err p) | ok verification ↦ pure (ok (accept m verification)) ]

  unfoldable pub verify_fresh :
      FreshnessPolicy
      → Text
      → RepositoryManifest
      → Text
      → List Text
      → Text
      → M S (Result Panic (ServiceResult RepositoryManifest))
  unfolding check_freshness_audited freshness_error authenticate
  verify_fresh policy json m signature_hex trusted_keys subject = do
    fresh ← check_freshness_audited m policy subject
    elim fresh [
      | err e ↦ pure (ok (err (freshness_error m e)))
      | ok u ↦ authenticate json m signature_hex trusted_keys subject
    ]

  unfoldable pub verify_manifest :
      FreshnessPolicy
      → Text
      → RepositoryManifest
      → Text
      → List Text
      → Text
      → M S (Result Panic (ServiceResult RepositoryManifest))
  unfolding validate_manifest validation_error verify_fresh
  verify_manifest policy json m signature_hex trusted_keys subject = elim (validate_manifest m) [
    | err e ↦ pure (ok (err (validation_error m e)))
    | ok u ↦ verify_fresh policy json m signature_hex trusted_keys subject
  ]

  unfoldable pub validate_unsigned_manifest :
      FreshnessPolicy → RepositoryManifest → Text → M S (ServiceResult RepositoryManifest)
  unfolding validate_manifest validation_error check_freshness_audited freshness_error
  validate_unsigned_manifest policy m subject = elim (validate_manifest m) [
    | err e ↦ pure (err (validation_error m e))
    | ok u ↦ do
      fresh ← check_freshness_audited m policy subject
      elim fresh [
        | err e ↦ pure (err (freshness_error m e))
        | ok v ↦ pure (ok (record m { verification = unverified }))
      ]
  ]
