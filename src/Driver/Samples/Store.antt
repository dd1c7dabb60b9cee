-- ===== src/Driver/Samples/Store.antt =====
-- A small store of files, in which a file has more than one path, and a small server.
use mission_os.Base.{
  ◌∷◌, ◌++◌, List, [], none, some, false, ◌≡◌, ◌≢◌, refl, sym, ◌∙◌, length, any, keep, not,
  if◌then◌else◌, Bool-cases, inl, inr, arith,
}
use mission_os.Base.Results.{Result, ok, err, Result-cases}
use mission_os.Base.Text.{Text, codes, text_eq, text_eq_iff, text_eq_refl, join, split}
use mission_os.Driver.System.{System}
use mission_os.Driver.Web.{Web, HttpResponse, HttpError, transport}
use mission_os.Driver.Download.Verified.{IsFileSystem}

-- The files with their contents.
abbrev pub Files : Type 0
Files = List (Text × Text)

abbrev pub content : Files → Text → Result Text Text
content [] path = err (codes "no such file")
content ((name, bytes) ∷ store) path =
    let rest = content store path in if text_eq name path then ok bytes else rest

-- A path without the components that are a dot, so that a file has more than one.
abbrev pub canonical : Text → Text
canonical path = join (codes "/") (keep (λ part. not (text_eq part (codes "."))) (split b'/' path))

abbrev pub without : Text → Files → Files
without path [] = []
without path ((name, bytes) ∷ store) =
    let rest = without path store in if text_eq name path then rest else (name, bytes) ∷ rest

-- A file is moved over another.
abbrev move : Files → Text → Text → Files × Result Text (Unit {0})
move store from to = elim (content store from) [
  | err e ↦ (store, err e)
  | ok bytes ↦ ((to, bytes) ∷ without from store, ok tt)
]

abbrev pub append : Files → Text → Text → Files
append store path bytes = elim (content store path) [
  | err e ↦ (path, bytes) ∷ store
  | ok old ↦ (path, old ++ bytes) ∷ store
]

abbrev pub store_files : System
store_files = record {
  State = Files;
  now = λ s. length s;
  exists = λ s path. any (λ (f : Text × Text). text_eq f.0 (canonical path)) s;
  read_file = λ s path. content s (canonical path);
  copy_file = λ s from to. (s, err (codes "read-only file system"));
  remove_file = λ s path. (without (canonical path) s, ok tt);
  create_parent = λ s path. s;
  init_module = λ s bytes. (s, 0);
  delete_module = λ s name force. (s, 16);
  module_available = λ s name. false;
  signature_valid = λ key bytes signature. false;
  debug = λ t. [];
  debug_path = λ t. t;
}

abbrev answer : HttpResponse
answer = record {
  code = 200;
  url = codes "https://packages.mission-os.org/wifi.ko";
  content_length = some (codes "2");
  content_range = none;
  content_type = none;
  body = ok (7 ∷ []) ∷ ok (8 ∷ []) ∷ [];
}

-- The server answers once the store holds the mark of an earlier request.
abbrev respond : Files → Files × Result HttpError HttpResponse
respond s =
    if any (λ (f : Text × Text). text_eq f.0 (codes "mark")) s
    then (s, ok answer)
    else ((codes "mark", []) ∷ s, err (transport (codes "timeout")))

abbrev pub server : Web store_files
server = record {
  http_get = λ s url range redirects. respond s;
  file_size =
      λ s path. elim (content s (canonical path)) [ err e ↦ err e | ok bytes ↦ ok (length bytes) ];
  create_dir = λ s path. (s, ok tt);
  create_file = λ s path. ((canonical path, []) ∷ s, ok tt);
  open_append = λ s path. (s, ok tt);
  write_all = λ s path bytes. (append s (canonical path) bytes, ok tt);
  flush = λ s path. (s, ok tt);
  rename = λ s from to. move s (canonical from) (canonical to);
  sha256_sum = λ bytes. bytes;
  blake3_sum = λ bytes. bytes;
  sleep = λ s attempt. s;
  debug_str = λ t. t;
}

content-without :
    (store : Files) (removed path : Text)
    → removed ≢ path
    → content (without removed store) path ≡ content store path
content-without [] removed path h = refl
content-without ((name, bytes) ∷ store) removed path h =
    let rest = content-without store removed path h in
    elim (Bool-cases (text_eq name removed)) [
      | inr k ↦ ground (arith, k, rest)
      | inl k ↦
          let same = (text_eq_iff name removed).0 k in
          elim (Bool-cases (text_eq name path)) [
            | inl q ↦ absurd (h (sym same ∙ (text_eq_iff name path).0 q))
            | inr q ↦ ground (arith, k, q, rest)
          ]
    ]

move-content :
    (store : Files) (from to : Text)
    → (move store from to).1 ≡ ok tt
    → content (move store from to).0 to ≡ content store from
move-content store from to h = elim (Result-cases (content store from)) [
  | inr (e, k) ↦ absurd (ground (arith, h, k))
  | inl (bytes, k) ↦ ground (arith, k, text_eq_refl to)
]

-- A path reaches the entries of the store that have its other spellings.
abbrev pub Names : Files → Text → Text → Type 0
Names s path entry = canonical entry ≡ canonical path

pub store_files-IsFileSystem : IsFileSystem store_files server Names
store_files-IsFileSystem = record {
  rename_content = λ s from to. move-content s (canonical from) (canonical to);
  remove_other = λ s removed path. content-without s (canonical removed) (canonical path);
}
