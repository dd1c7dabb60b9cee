-- ===== src/Driver/Web.antt =====
-- What downloads ask of the operating system, the HTTP client and the hash libraries. None of it is
-- the service's own code: the model takes it as a parameter.
use mission_os.Base.{ℕ, List, Option}
use mission_os.Base.Results.{Result}
use mission_os.Base.Text.{Text}
use mission_os.Driver.System.{System}

-- `ureq::Error`: an answer of 400 and above, or a failure of the connection.
pub data HttpError : Type 0 where
  status : ℕ → HttpError
  transport : Text → HttpError

-- The body is what the reads return one after the other.
pub record HttpResponse : Type 0 where
  pub code : ℕ
  pub url : Text
  pub content_length : Option Text
  pub content_range : Option Text
  pub content_type : Option Text
  pub body : List (Result Text Text)

pub record Web (S : System) : Type 0 where
  -- A GET of a URL, with the value of the `Range` header and the greatest number of redirects.
  pub http_get : S.State → Text → Option Text → ℕ → S.State × Result HttpError HttpResponse
  pub file_size : S.State → Text → Result Text ℕ
  -- `create_dir_all` of the directory that holds a path.
  pub create_dir : S.State → Text → S.State × Result Text (Unit {0})
  pub create_file : S.State → Text → S.State × Result Text (Unit {0})
  pub open_append : S.State → Text → S.State × Result Text (Unit {0})
  -- Writes at the end of a file that is open.
  pub write_all : S.State → Text → Text → S.State × Result Text (Unit {0})
  pub flush : S.State → Text → S.State × Result Text (Unit {0})
  pub rename : S.State → Text → Text → S.State × Result Text (Unit {0})
  pub sha256_sum : Text → Text
  pub blake3_sum : Text → Text
  -- `thread::sleep` of the delay before a retry. Its length is a floating-point number that nothing
  -- else depends on.
  pub sleep : S.State → ℕ → S.State
  -- The `{:?}` format of a string.
  pub debug_str : Text → Text
