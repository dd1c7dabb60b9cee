-- ===== src/Driver/Fetch.antt =====
-- `PackageFetcher` and `StreamingHasher` of services/driverd/src/fetch.rs, built for release
-- (`cfg!(test)` is false).
use mission_os.Base.{
  ℕ, List, [], ◌∷◌, ◌++◌, ◌+◌, Option, none, some, Bool, not, ◌&&◌, ◌||◌, ◌==◌, ltb, length,
  is_empty, drop, if◌then◌else◌,
}
use mission_os.Base.Results.{Result, ok, err, map_err}
use mission_os.Base.Text.{Text, codes, text_eq, trim, starts_with, contains, rsplit_once}
use mission_os.Base.Decimal.{show, parse_u64}
use mission_os.Driver.Error.{
  ServiceError, ServiceResult, invalid_argument, internal, not_supported, download_failed,
  verification_failed,
}
use mission_os.Driver.Metadata.{PackageDigest, matches, to_hex}
use mission_os.Driver.System.{System}
use mission_os.Driver.World.{M, ◌>>=◌, pure, gets, on_os}
use mission_os.Driver.Web.{Web, HttpError, HttpResponse, status, transport}

pub record DownloadConfig : Type 0 where
  pub max_response_size : ℕ
  pub follow_redirects : Bool
  pub max_redirects : ℕ

pub record DownloadResult : Type 0 where
  pub path : Text
  pub actual_size : ℕ
  pub content_type : Option Text

-- `?` in a function on the world.
abbrev pub attempt {ℓ} :
    {S : System} {A : Type ℓ} {B : Type 0}
    → ServiceResult A
    → (A → M S (ServiceResult B))
    → M S (ServiceResult B)
attempt (ok a) f = f a
attempt (err e) f = pure (err e)

unfoldable pub validate_download_url : Text → ServiceResult (Unit {0})
validate_download_url untrimmed =
    let url = trim untrimmed in
    if is_empty url
    then err (invalid_argument (codes "download URL must not be empty"))
    else if not (starts_with url (codes "https://")) && not (starts_with url (codes "file://"))
    then err (invalid_argument (codes "download URL scheme must be HTTPS: " ++ url))
    else if starts_with url (codes "https://") && contains (drop 8 url) (codes "@")
    then err (invalid_argument (codes "URL must not contain embedded credentials"))
    else if ltb 2048 (length url)
    then err (invalid_argument (codes "URL exceeds maximum length (2048)"))
    else ok tt

-- `Path::with_extension` of a path with a file name.
unfoldable pub replace_extension : Text → Text → Text
unfolding rsplit_once
replace_extension name extension = elim (rsplit_once b'.' name) [
  | none ↦ name ++ (codes "." ++ extension)
  | some (stem, old) ↦
      (if is_empty stem then name ++ (codes "." ++ extension) else stem ++ (codes "." ++ extension))
]

unfoldable pub with_extension : Text → Text → Text
unfolding rsplit_once replace_extension
with_extension path extension = elim (rsplit_once b'/' path) [
  | none ↦ replace_extension path extension
  | some (dir, name) ↦ dir ++ (codes "/" ++ replace_extension name extension)
]

unfoldable pub http_error : HttpError → ServiceError
http_error (status code) = download_failed (codes "HTTP " ++ show code)
http_error (transport t) = download_failed t

-- `content_length.parse().ok()`, if there is one.
unfoldable pub declared_length : HttpResponse → Option ℕ
declared_length r = elim r.content_length [
  | none ↦ none
  | some text ↦ elim (parse_u64 text) [ err e ↦ none | ok n ↦ some n ]
]

-- The checks of the answer before its body is read.
unfoldable pub check_size : Option ℕ → Option ℕ → ServiceResult (Unit {0})
check_size none len = ok tt
check_size (some expected) none = ok tt
check_size (some expected) (some len) =
    if not (len == expected)
    then err (
        invalid_argument (
          codes "Content-Length mismatch: expected "
          ++ (show expected ++ (codes ", got " ++ show len))))
    else ok tt

unfoldable pub check_limit : ℕ → Option ℕ → ServiceResult (Unit {0})
check_limit limit none = ok tt
check_limit limit (some len) =
    if ltb limit len
    then err (
        invalid_argument
          (codes "response size " ++ (show len ++ (codes " exceeds maximum " ++ show limit))))
    else ok tt

unfoldable pub check_response : DownloadConfig → Option ℕ → HttpResponse → ServiceResult (Unit {0})
unfolding declared_length check_size check_limit
check_response config expected r =
    if not (starts_with r.url (codes "https://")) && not (starts_with r.url (codes "file://"))
    then err (invalid_argument (codes "redirect to non-HTTPS URL rejected"))
    else elim (check_size expected (declared_length r)) [
      | err e ↦ err e
      | ok u ↦ check_limit config.max_response_size (declared_length r)
    ]

unfoldable pub size_error : ℕ → ServiceError
size_error limit =
    invalid_argument (codes "download exceeded maximum size of " ++ (show limit ++ codes " bytes"))

unfoldable pub write_error : Text → ServiceError
write_error e = internal (codes "file write error: " ++ e)

module _ {S : System} (web : Web S) where
  -- `StreamingHasher::hash_file`: the chunks are hashed as the whole.
  unfoldable pub hash_file : Text → Text → S.State → ServiceResult Text
  hash_file algorithm path os =
      let content =
        map_err (λ e. internal (codes "cannot open file for hashing: " ++ e))
          (S.read_file os path) in
      if text_eq algorithm (codes "sha256") || text_eq algorithm (codes "SHA256")
      then elim content [ err e ↦ err e | ok bytes ↦ ok (web.sha256_sum bytes) ]
      else if text_eq algorithm (codes "blake3") || text_eq algorithm (codes "BLAKE3")
      then elim content [ err e ↦ err e | ok bytes ↦ ok (web.blake3_sum bytes) ]
      else err (not_supported (codes "unsupported hash algorithm: " ++ algorithm))

  -- The loop that reads the body and writes it to a file, with what is done when it is too large.
  unfoldable pub stream :
      ℕ → Text → M S (Unit {0}) → ℕ → List (Result Text Text) → M S (ServiceResult ℕ)
  unfolding size_error write_error
  stream limit path on_excess total [] w = (w, ok total)
  stream limit path on_excess total (err e ∷ body) w =
      (w, err (download_failed (codes "read error: " ++ e)))
  stream limit path on_excess total (ok [] ∷ body) w = (w, ok total)
  stream limit path on_excess total (ok (c ∷ chunk) ∷ body) w =
      let read = total + length (c ∷ chunk) in
      let (written, result) = on_os (λ os. web.write_all os path (c ∷ chunk)) w in
      let rest = stream limit path on_excess read body written in
      if ltb limit read
      then (let (cleaned, u) = on_excess w in (cleaned, err (size_error limit)))
      else elim result [ err e ↦ (written, err (write_error e)) | ok u ↦ rest ]

  unfoldable pub remove_quietly : Text → M S (Unit {0})
  remove_quietly path = on_os (λ os. let (os', result) = S.remove_file os path in (os', tt))

  -- The body of an answer that is accepted, from the creation of the file on.
  unfoldable pub save_body :
      DownloadConfig → Text → HttpResponse → M S (ServiceResult DownloadResult)
  unfolding stream remove_quietly
  save_body config tmp_path r = do
    created ← on_os (λ os. web.create_file os tmp_path)
    attempt (map_err (λ e. internal (codes "cannot create temp file: " ++ e)) created) λ u. do
      streamed ← stream config.max_response_size tmp_path (remove_quietly tmp_path) 0 r.body
      attempt streamed λ total. do
        flushed ← on_os (λ os. web.flush os tmp_path)
        attempt (map_err (λ e. internal (codes "file flush error: " ++ e)) flushed) λ v.
            pure
              (ok (record { path = tmp_path; actual_size = total; content_type = r.content_type }))

  unfoldable pub download_to_file :
      DownloadConfig → Text → Text → Option ℕ → M S (ServiceResult DownloadResult)
  unfolding http_error check_response save_body
  download_to_file config url tmp_path expected_size = do
    answer ← on_os (λ os.
        web.http_get os url none (if config.follow_redirects then config.max_redirects else 0))
    attempt (map_err http_error answer)
        λ r. attempt (check_response config expected_size r) λ u. save_body config tmp_path r

  unfoldable pub verify_digest : Text → PackageDigest → S.State → ServiceResult (Unit {0})
  unfolding hash_file
  verify_digest path expected os = elim (hash_file expected.algorithm path os) [
    | err e ↦ err e
    | ok actual ↦
        (if not (matches expected actual)
          then err (
              verification_failed (
                codes "package digest mismatch: expected "
                ++ (expected.algorithm ++ (codes ":" ++ to_hex expected))))
          else ok tt)
  ]

  unfoldable pub verify_expected : Text → Option PackageDigest → S.State → ServiceResult (Unit {0})
  unfolding verify_digest
  verify_expected path none os = ok tt
  verify_expected path (some digest) os = verify_digest path digest os

  -- `PackageFetcher::download`.
  unfoldable pub fetch :
      DownloadConfig
      → Text
      → Text
      → Option ℕ
      → Option PackageDigest
      → M S (ServiceResult DownloadResult)
  unfolding validate_download_url download_to_file with_extension verify_expected
  fetch config url destination expected_size expected_digest =
      attempt (validate_download_url url) λ u. do
        made ← on_os (λ os. web.create_dir os destination)
        attempt (map_err (λ e. internal (codes "cannot create download directory: " ++ e)) made)
            λ v. do
              let tmp_path = with_extension destination (codes "tmp")
              fetched ← download_to_file config url tmp_path expected_size
              attempt fetched λ result. do
                checked ← gets (λ w. verify_expected tmp_path expected_digest w.os)
                attempt checked λ x. do
                  renamed ← on_os (λ os. web.rename os tmp_path destination)
                  attempt (map_err (λ e. internal (codes "atomic rename failed: " ++ e)) renamed)
                      λ y. pure (ok result)
