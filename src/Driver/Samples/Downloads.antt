-- ===== src/Driver/Samples/Downloads.antt =====
-- Downloads of services/driverd from a small server to a small store of files.
use mission_os.Base.{ℕ, ◌↔◌, ◌≤◌, ◌∷◌, ◌<◌, [], none, some, true, false, ◌≡◌, ◌≢◌, refl, arith}
use mission_os.Base.Results.{ok, err}
use mission_os.Base.Text.{codes, text_eq, text_eq_iff, trim, starts_with, contains, join, split}
use mission_os.Base.Decimal.{parse_u64}
use mission_os.Driver.World.{World, audit, next_sequence}
use mission_os.Driver.Download.{validate_content_range, DownloadTracker, idle, is_transient}
use mission_os.Driver.Fetch.{DownloadResult}
use mission_os.Driver.Error.{ServiceError, ServiceResult, download_failed}
use mission_os.Driver.Download.Range.{range_header, validate_content_range-print}
use mission_os.Driver.Download.Manager.{
  DownloadManager, Request, partial_path, start_loop, download_package, max_attempts, retry,
  perform_download_with_resume,
}
use mission_os.Driver.Download.Verified.{IsVerified, download_package-IsVerified}
use mission_os.Driver.Download.Bounded.{
  again, none_yet, Decides, download_package-answers, start_loop-Decides,
}
use mission_os.Driver.Samples.{world}
use mission_os.Driver.Samples.Store.{
  Files, Names, canonical, store_files, server, store_files-IsFileSystem,
}

abbrev manager : DownloadManager
manager = record {
  config = record { max_response_size = 1_000; follow_redirects = true; max_redirects = 5 };
  retry_policy = record { max_retries = 1 };
  partial_dir = codes "/cache";
}

abbrev pub request : Request
request = record {
  url = codes "https://packages.mission-os.org/wifi.ko";
  destination = codes "/store/wifi.ko";
  expected_digest = record { algorithm = codes "sha256"; value = 7 ∷ 8 ∷ [] };
  expected_size = some 2;
  source_id = codes "mission";
  subject = codes "root";
}

abbrev pub empty_world : World store_files
empty_world = record {
  os = [];
  log = [];
  saved_states = [];
  sequence = 0;
  inventory = world.inventory;
}

differs :
    text_eq
      (canonical (partial_path manager request.expected_digest))
      (canonical request.destination)
    ≡ false
unfolding partial_path split join
differs = refl

apart : (s : Files) → ¬ Names s request.destination (partial_path manager request.expected_digest)
apart s h =
    let same =
      (text_eq_iff (canonical (partial_path manager request.expected_digest))
          (canonical request.destination)).1
        h in
    ground (arith, same, differs)

downloaded :
    (download_package server manager request empty_world).1 ≡ some (ok (codes "/store/wifi.ko"))
unfolding download_package audit next_sequence trim starts_with contains parse_u64 join split
downloaded = refl

download_package-IsVerified_example :
    IsVerified server Names store_files-IsFileSystem manager request apart
      (download_package server manager request empty_world)
      (codes "/store/wifi.ko")
download_package-IsVerified_example =
    download_package-IsVerified server Names store_files-IsFileSystem manager request apart
      empty_world (codes "/store/wifi.ko") downloaded

download_package-answers_example : (download_package server manager request empty_world).1 ≢ none
download_package-answers_example = download_package-answers server manager request empty_world

abbrev tracker : DownloadTracker
tracker = record {
  state = idle;
  digest = request.expected_digest;
  url = request.url;
  destination = request.destination;
  retry_count = 0;
  bytes_downloaded = 0;
  expected_size = request.expected_size;
  error = none;
  correlation_id = codes "0";
  started_at = 0;
}

two_attempts : 1 < max_attempts manager
unfolding max_attempts
two_attempts = omega arith

-- The first request times out, and the second one is answered.
abbrev first_attempt : World store_files × ServiceResult DownloadResult
first_attempt =
    perform_download_with_resume server manager tracker
      (partial_path manager request.expected_digest) none empty_world

abbrev timeout : ServiceError
timeout = download_failed (codes "timeout")

first_fails : first_attempt.1 ≡ err timeout
unfolding perform_download_with_resume trim starts_with contains
first_fails = refl

abbrev second : World store_files × DownloadTracker
second = retry server request (record tracker { retry_count = 1 }) timeout 0 first_attempt.0

is_retried : is_transient timeout ≡ true
unfolding is_transient
is_retried = refl

start_loop-Decides_example :
    Decides server manager request none second.1 second.0
      (start_loop server manager request none tracker (ok tt) empty_world).1
start_loop-Decides_example =
    start_loop-Decides server manager request none tracker empty_world 1 second.1 second.0
      (again 0 tracker empty_world timeout none_yet first_fails is_retried) two_attempts

-- The second attempt downloads two bytes.
second_attempt :
    (perform_download_with_resume server manager second.1
      (partial_path manager request.expected_digest)
      none
      second.0).1
    ≡ ok (record { path = codes "/store/wifi.tmp"; actual_size = 2; content_type = none })
unfolding perform_download_with_resume audit trim starts_with contains parse_u64 split join retry
second_attempt = refl

-- What it downloads is verified, and the answer.
second_downloads :
    (start_loop server manager request none tracker (ok tt) empty_world).1
    ≡ some (ok (codes "/store/wifi.ko"))
unfolding start_loop perform_download_with_resume audit trim starts_with contains parse_u64 split
    join
second_downloads = refl

abbrev offset : ℕ
offset = 7

validate_content_range-print_example :
    (validate_content_range (range_header offset 9 10) offset ≡ ok (offset, 9, 10))
    ↔ ((offset ≡ offset) × (offset ≤ 9))
validate_content_range-print_example =
    validate_content_range-print offset offset 9 10 (omega arith) (omega arith) (omega arith)
