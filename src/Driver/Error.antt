-- ===== src/Driver/Error.antt =====
-- services/driverd/src/error.rs: the errors of the service and their `Display`.
use mission_os.Base.{◌++◌}
use mission_os.Base.Results.{Result}
use mission_os.Base.Text.{Text, codes}

pub data ServiceError : Type 0 where
  permission_denied invalid_argument not_found already_exists internal not_supported
        backend_unavailable busy conflict verification_failed rollback_failed package_error
        download_failed source_error metadata_error downgrade_rejected :
      Text → ServiceError

abbrev pub ServiceResult {ℓ} : Type ℓ → Type ℓ
ServiceResult A = Result ServiceError A

unfoldable pub error_text : ServiceError → Text
error_text (permission_denied msg) = codes "permission denied: " ++ msg
error_text (invalid_argument msg) = codes "invalid argument: " ++ msg
error_text (not_found msg) = codes "not found: " ++ msg
error_text (already_exists msg) = codes "already exists: " ++ msg
error_text (internal msg) = codes "internal error: " ++ msg
error_text (not_supported msg) = codes "not supported: " ++ msg
error_text (backend_unavailable msg) = codes "backend unavailable: " ++ msg
error_text (busy msg) = codes "busy: " ++ msg
error_text (conflict msg) = codes "conflict: " ++ msg
error_text (verification_failed msg) = codes "verification failed: " ++ msg
error_text (rollback_failed msg) = codes "rollback failed: " ++ msg
error_text (package_error msg) = codes "package error: " ++ msg
error_text (download_failed msg) = codes "download failed: " ++ msg
error_text (source_error msg) = codes "source error: " ++ msg
error_text (metadata_error msg) = codes "metadata error: " ++ msg
error_text (downgrade_rejected msg) = codes "downgrade rejected: " ++ msg
