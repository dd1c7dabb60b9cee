-- ===== src/Driver/Download/Manager.antt =====
-- `DownloadManager` of services/driverd/src/download.rs, built for release.
use mission_os.Base.{
  ℕ, zero, suc, ◌++◌, ◌+◌, ◌%◌, ◌^◌, Option, none, some, not, ◌&&◌, ◌==◌, ltb, if◌then◌else◌,
}
use mission_os.Base.Results.{Result, ok, err, map_err}
use mission_os.Base.Text.{Text, codes, text_eq}
use mission_os.Base.Decimal.{show}
use mission_os.Driver.Audit.{EventSeverity, info, warning, error, download}
use mission_os.Driver.Error.{
  ServiceError, ServiceResult, error_text, download_failed, internal, invalid_argument,
  verification_failed,
}
use mission_os.Driver.Metadata.{PackageDigest, to_hex, matches}
use mission_os.Driver.System.{System}
use mission_os.Driver.World.{M, ◌>>=◌, ◌>>◌, pure, gets, on_os, audit, next_sequence}
use mission_os.Driver.Web.{Web, HttpError, HttpResponse, status, transport}
use mission_os.Driver.Fetch.{
  DownloadConfig, DownloadResult, attempt, stream, remove_quietly, fetch, hash_file,
}
use mission_os.Driver.Download.{
  idle, download_resumed, download_retry, digest_verify, staged, failed, state_text, RetryPolicy,
  should_retry, DownloadTracker, validate_content_range,
}
use mission_os.Driver.Kmod.{path_join}

-- The fetcher's configuration, the policy, and the directory of the `ResumeManager`.
pub record DownloadManager : Type 0 where
  pub config : DownloadConfig
  pub retry_policy : RetryPolicy
  pub partial_dir : Text

-- What a download is called with.
pub record Request : Type 0 where
  pub url : Text
  pub destination : Text
  pub expected_digest : PackageDigest
  pub expected_size : Option ℕ
  pub source_id : Text
  pub subject : Text

unfoldable pub partial_path : DownloadManager → PackageDigest → Text
unfolding path_join
partial_path m digest = path_join m.partial_dir (codes "dl-" ++ (to_hex digest ++ codes ".part"))

unfoldable pub resume_error : ℕ → HttpError → ServiceError
resume_error offset (transport t) = download_failed t
resume_error offset (status code) =
    if code == 416
    then download_failed (codes "HTTP 416 Range Not Satisfiable for offset " ++ show offset)
    else if code == 206
    then download_failed (codes "HTTP " ++ (show code ++ codes " (unexpected)"))
    else if not (ltb code 500)
    then download_failed (codes "HTTP " ++ show code)
    else download_failed (codes "HTTP " ++ (show code ++ codes " (permanent)"))

unfoldable pub range_of : HttpResponse → ℕ → ServiceResult (ℕ × ℕ × ℕ)
unfolding validate_content_range
range_of r offset = elim r.content_range [
  | none ↦ err (download_failed (codes "server returned 206 without Content-Range header"))
  | some header ↦ validate_content_range header offset
]

-- `2 ^ 32` attempts do not come up: the sum wraps around.
unfoldable pub max_attempts : DownloadManager → ℕ
max_attempts m = (m.retry_policy.max_retries + 1) % 2 ^ 32

unfoldable pub shown_error : Option Text → Text
shown_error none = codes "none"
shown_error (some e) = e

unfoldable pub resumed : DownloadTracker → Option ℕ → DownloadTracker
resumed t none = t
resumed t (some size) = record t { state = download_resumed; bytes_downloaded = size }

module _ {S : System} (web : Web S) where
  unfoldable pub audit_download :
      DownloadTracker → Text → Text → Text → EventSeverity → M S (Unit {0})
  unfolding state_text shown_error
  audit_download t source_id subject action severity = audit download severity action subject (
      codes "source="
      ++ (source_id
          ++ (codes ", url="
              ++ (t.url
                  ++ (codes ", state="
                      ++ (state_text t.state
                          ++ (codes ", bytes="
                              ++ (show t.bytes_downloaded
                                  ++ (codes ", retries="
                                      ++ (show t.retry_count
                                          ++ (codes ", error="
                                              ++ web.debug_str (shown_error t.error))))))))))))

  -- `remove_partial`, whose result is not looked at.
  unfoldable pub remove_partial : Text → M S (Unit {0})
  unfolding remove_quietly
  remove_partial path w = if S.exists w.os path then remove_quietly web path w else (w, tt)

  -- The rest of the body is appended to the partial file, which then becomes the destination.
  unfoldable pub append_body :
      DownloadManager → Text → ℕ → Text → HttpResponse → M S (ServiceResult DownloadResult)
  unfolding stream
  append_body m path offset destination r = do
    opened ← on_os (λ os. web.open_append os path)
    attempt (map_err (λ e. internal (codes "cannot open partial file for append: " ++ e)) opened)
        λ u. do
          streamed ← stream web m.config.max_response_size path (pure tt) offset r.body
          attempt streamed λ total. do
            flushed ← on_os (λ os. web.flush os path)
            attempt (map_err (λ e. internal (codes "file flush error: " ++ e)) flushed) λ v. do
              renamed ← on_os (λ os. web.rename os path destination)
              attempt (map_err (λ e. internal (codes "resume rename failed: " ++ e)) renamed) λ x.
                  pure
                    (ok (record { path = destination; actual_size = total; content_type = none }))

  unfoldable pub resume_answer :
      DownloadManager → Text → Text → ℕ → Text → HttpResponse → M S (ServiceResult DownloadResult)
  unfolding range_of append_body remove_quietly fetch
  resume_answer m url path offset destination r =
      if r.code == 206
      then attempt (range_of r offset) (λ range. append_body m path offset destination r)
      else if r.code == 200
      then (remove_quietly web path >> fetch web m.config url destination none none)
      else pure (
          err (
            download_failed
              (codes "unexpected HTTP status " ++ (show r.code ++ codes " for resume request"))))

  unfoldable pub resume_download :
      DownloadManager → Text → Text → ℕ → Text → M S (ServiceResult DownloadResult)
  unfolding resume_error resume_answer
  resume_download m url path offset destination = do
    answer ←
        on_os (λ os. web.http_get os url (some (codes "bytes=" ++ (show offset ++ codes "-"))) 0)
    attempt (map_err (resume_error offset) answer)
        λ r. resume_answer m url path offset destination r

  unfoldable pub perform_download_with_resume :
      DownloadManager → DownloadTracker → Text → Option ℕ → M S (ServiceResult DownloadResult)
  unfolding resume_download fetch
  perform_download_with_resume m t path none =
      fetch web m.config t.url t.destination t.expected_size none
  perform_download_with_resume m t path (some offset) =
      if ltb 0 offset
      then resume_download m t.url path offset t.destination
      else fetch web m.config t.url t.destination t.expected_size none

  -- After a download whose digest and size are right: the file becomes the destination.
  unfoldable pub place : Request → Text → M S (Result Text (Unit {0}))
  place r verified_path w =
      if text_eq verified_path r.destination
      then (w, ok tt)
      else on_os (λ os. web.rename os verified_path r.destination) w

  unfoldable pub finish_download :
      DownloadManager → Request → DownloadTracker → M S (ServiceResult Text)
  unfolding remove_partial partial_path audit_download
  finish_download m r t = do
    remove_partial (partial_path m r.expected_digest)
    audit_download (record t { state = staged }) r.source_id r.subject (codes "download_completed")
        info
    pure (ok r.destination)

  unfoldable pub stage :
      DownloadManager → Request → DownloadTracker → Text → M S (ServiceResult Text)
  unfolding place finish_download
  stage m r t verified_path = do
    placed ← place r verified_path
    attempt (map_err (λ e. internal (codes "atomic rename failed: " ++ e)) placed)
        λ u. finish_download m r t

  unfoldable pub size_mismatch : Request → DownloadTracker → Text → ℕ → ℕ → M S (ServiceResult Text)
  unfolding remove_quietly audit_download
  size_mismatch r t verified_path expected actual = do
    audit_download (record t { state = failed }) r.source_id r.subject
        (codes "download_size_mismatch") error
    remove_quietly web verified_path
    pure (
        err (
          invalid_argument (
            codes "size mismatch: expected "
            ++ (show expected ++ (codes ", got " ++ show actual)))))

  unfoldable pub verify_size :
      DownloadManager → Request → DownloadTracker → Text → ℕ → M S (ServiceResult Text)
  unfolding stage size_mismatch
  verify_size m r t verified_path actual = elim r.expected_size [
    | none ↦ stage m r t verified_path
    | some expected ↦
        (if not (actual == expected)
          then size_mismatch r t verified_path expected actual
          else stage m r t verified_path)
  ]

  unfoldable pub digest_mismatch :
      DownloadManager → Request → DownloadTracker → Text → M S (ServiceResult Text)
  unfolding remove_partial remove_quietly partial_path audit_download
  digest_mismatch m r t verified_path = do
    audit_download (record t { state = failed; error = some (codes "digest mismatch") }) r.source_id
        r.subject (codes "download_digest_mismatch") error
    remove_quietly web verified_path
    remove_partial (partial_path m r.expected_digest)
    pure (
        err (
          verification_failed
            (codes "digest mismatch for '" ++ (to_hex r.expected_digest ++ codes "'"))))

  -- The arm of the loop for an attempt that downloads something.
  unfoldable pub verify_result :
      DownloadManager → Request → DownloadTracker → DownloadResult → M S (ServiceResult Text)
  unfolding hash_file matches verify_size digest_mismatch
  verify_result m r t result w =
      let verified_path = if S.exists w.os result.path then result.path else r.destination in
      let verifying = record t { state = digest_verify } in
      elim (hash_file web r.expected_digest.algorithm verified_path w.os) [
        | err e ↦ (w, err e)
        | ok actual ↦
            (if not (matches r.expected_digest actual)
              then digest_mismatch m r verifying verified_path w
              else verify_size m r verifying verified_path result.actual_size w)
      ]

  -- The two ways out of the other arm.
  unfoldable pub retry : Request → DownloadTracker → ServiceError → ℕ → M S DownloadTracker
  unfolding audit_download
  retry r t e attempts = do
    let retried = record t { state = download_retry; error = some (error_text e) }
    audit_download retried r.source_id r.subject (codes "download_retry") warning
    on_os (λ os. (web.sleep os attempts, tt))
    pure retried

  unfoldable pub give_up : Request → DownloadTracker → ServiceError → M S (ServiceResult Text)
  unfolding audit_download
  give_up r t e = do
    audit_download (record t { state = failed; error = some (error_text e) }) r.source_id r.subject
        (codes "download_failed") error
    pure (err e)

  -- The loop, with the number of attempts that have failed so far. It is given fuel for its rounds,
  -- and answers nothing when that is used up.
  unfoldable pub download_loop :
      ℕ
      → DownloadManager
      → Request
      → Option ℕ
      → DownloadTracker
      → ℕ
      → M S (Option (ServiceResult Text))
  unfolding perform_download_with_resume partial_path verify_result should_retry max_attempts retry
      give_up
  download_loop zero m r existing t failures w = (w, none)
  download_loop (suc fuel) m r existing t failures w =
      let (performed, outcome) =
        perform_download_with_resume m t (partial_path m r.expected_digest) existing w in
      elim outcome [
        | ok result ↦ (verify_result m r t result >>= λ answer. pure (some answer)) performed
        | err e ↦
            let counted = record t { retry_count = failures + 1 } in
            let (waited, retried) = retry r counted e failures performed in
            let rest = download_loop fuel m r existing retried (failures + 1) waited in
            if ltb (failures + 1) (max_attempts m) && should_retry m.retry_policy e
            then rest
            else (give_up r counted e >>= λ answer. pure (some answer)) performed
      ]

  unfoldable pub new_tracker : Request → M S DownloadTracker
  new_tracker r = do
    sequence ← next_sequence
    now ← gets (λ w. S.now w.os)
    pure (record {
      state = idle;
      digest = r.expected_digest;
      url = r.url;
      destination = r.destination;
      retry_count = 0;
      bytes_downloaded = 0;
      expected_size = r.expected_size;
      error = none;
      correlation_id = show sequence;
      started_at = now;
    })

  -- The size of the partial file, if there is one.
  unfoldable pub existing_size : Text → S.State → Option ℕ
  existing_size path os =
      if S.exists os path
      then elim (web.file_size os path) [ err e ↦ none | ok size ↦ some size ]
      else none

  -- From the creation of the destination's directory on, with as much fuel as there are attempts.
  unfoldable pub start_loop :
      DownloadManager
      → Request
      → Option ℕ
      → DownloadTracker
      → Result Text (Unit {0})
      → M S (Option (ServiceResult Text))
  unfolding download_loop
  start_loop m r existing t (err e) =
      pure (some (err (internal (codes "cannot create directory: " ++ e))))
  start_loop m r existing t (ok u) = download_loop (m.retry_policy.max_retries + 1) m r existing t 0

  -- `DownloadManager::download`.
  unfoldable pub download_package : DownloadManager → Request → M S (Option (ServiceResult Text))
  unfolding new_tracker existing_size resumed partial_path start_loop audit_download
  download_package m r = do
    t ← new_tracker r
    audit_download t r.source_id r.subject (codes "download_started") info
    existing ← gets (λ w. existing_size (partial_path m r.expected_digest) w.os)
    made ← on_os (λ os. web.create_dir os r.destination)
    start_loop m r existing (resumed t existing) made
