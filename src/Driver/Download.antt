-- ===== src/Driver/Download.antt =====
-- The states, the policy and the checks of services/driverd/src/download.rs.
pub mod Range
pub mod Manager
pub mod Bounded
pub mod Verified
use mission_os.Base.{
  ℕ, zero, suc, List, [], ◌∷◌, ◌++◌, ◌+◌, Option, none, some, Bool, true, false, not, ◌||◌, ◌==◌,
  ltb, drop, if◌then◌else◌,
}
use mission_os.Base.Results.{Result, ok, err, ◌>>=◌, map_err}
use mission_os.Base.Text.{Text, codes, trim, starts_with, split}
use mission_os.Base.Decimal.{show, parse_u64}
use mission_os.Driver.Error.{
  ServiceError, ServiceResult, download_failed, backend_unavailable, invalid_argument,
}
use mission_os.Driver.Metadata.{PackageDigest}

pub data DownloadState : Type 0 where
  idle metadata_fetch metadata_verified download_started download_resumed download_retry
        download_complete digest_verify staged failed cleanup :
      DownloadState

unfoldable pub is_active : DownloadState → Bool
is_active metadata_fetch = true
is_active download_started = true
is_active download_resumed = true
is_active download_retry = true
is_active digest_verify = true
is_active _ = false

unfoldable pub is_terminal : DownloadState → Bool
is_terminal staged = true
is_terminal failed = true
is_terminal cleanup = true
is_terminal _ = false

-- The `{:?}` format.
unfoldable pub state_text : DownloadState → Text
state_text idle = codes "Idle"
state_text metadata_fetch = codes "MetadataFetch"
state_text metadata_verified = codes "MetadataVerified"
state_text download_started = codes "DownloadStarted"
state_text download_resumed = codes "DownloadResumed"
state_text download_retry = codes "DownloadRetry"
state_text download_complete = codes "DownloadComplete"
state_text digest_verify = codes "DigestVerify"
state_text staged = codes "Staged"
state_text failed = codes "Failed"
state_text cleanup = codes "Cleanup"

-- The number of retries. The delays between them are floating-point numbers and not modelled.
pub record RetryPolicy : Type 0 where
  pub max_retries : ℕ

unfoldable pub is_transient : ServiceError → Bool
is_transient (download_failed msg) = true
is_transient (backend_unavailable msg) = true
is_transient _ = false

unfoldable pub should_retry : RetryPolicy → ServiceError → Bool
unfolding is_transient
should_retry p error = if p.max_retries == 0 then false else is_transient error

pub record DownloadTracker : Type 0 where
  pub state : DownloadState
  pub digest : PackageDigest
  pub url : Text
  pub destination : Text
  pub retry_count : ℕ
  pub bytes_downloaded : ℕ
  pub expected_size : Option ℕ
  pub error : Option Text
  pub correlation_id : Text
  pub started_at : ℕ

-- `parse::<u64>` of a part of the header, with the name that its error gives it.
unfoldable pub parse_part : Text → Text → ServiceResult ℕ
parse_part name part =
    map_err
      (λ e.
        download_failed
          (codes "invalid Content-Range " ++ (name ++ (codes ": '" ++ (part ++ codes "'")))))
      (parse_u64 part)

unfoldable pub check_range : ℕ → ℕ → ℕ → ℕ → ServiceResult (ℕ × ℕ × ℕ)
check_range expected_start start end total =
    if not (start == expected_start)
    then err (
        download_failed (
          codes "Content-Range start "
          ++ (show start ++ (codes " does not match expected offset " ++ show expected_start))))
    else if ltb end start
    then err (
        download_failed
          (codes "Content-Range end " ++ (show end ++ (codes " is before start " ++ show start))))
    else ok (start, end, total)

-- The two parts around the dash, after the total has been read.
unfoldable pub parse_range : Text → ℕ → ℕ → List Text → ServiceResult (ℕ × ℕ × ℕ)
unfolding parse_part check_range
parse_range range expected_start total (first ∷ last ∷ []) = do
  start ← parse_part (codes "start") first
  end ← parse_part (codes "end") last
  check_range expected_start start end total
parse_range range expected_start total _ =
    err (download_failed (codes "invalid Content-Range range: '" ++ (range ++ codes "'")))

unfoldable pub parse_parts : Text → ℕ → List Text → ServiceResult (ℕ × ℕ × ℕ)
unfolding parse_part parse_range
parse_parts header expected_start (range ∷ size ∷ []) = do
  total ← parse_part (codes "total") size
  parse_range range expected_start total (split b'-' range)
parse_parts header expected_start _ =
    err (download_failed (codes "invalid Content-Range: '" ++ (header ++ codes "'")))

unfoldable pub validate_content_range : Text → ℕ → ServiceResult (ℕ × ℕ × ℕ)
unfolding parse_parts
validate_content_range header expected_start =
    let range_part = drop 6 (trim header) in
    if not (starts_with (trim header) (codes "bytes "))
    then err (download_failed (codes "invalid Content-Range format: '" ++ (header ++ codes "'")))
    else if starts_with range_part (codes "*/")
    then err (download_failed (codes "server does not support range requests"))
    else parse_parts header expected_start (split b'/' range_part)
