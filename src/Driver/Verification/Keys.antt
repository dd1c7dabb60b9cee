-- ===== src/Driver/Verification/Keys.antt =====
-- The store of trusted keys, its files, and the check of a file's hash:
-- services/driverd/src/verification.rs. The hash map of keys is the list of its values, no two of
-- which have an identifier in common.
use mission_os.Base.{
  ℕ, List, [], ◌∷◌, ◌++◌, Option, none, some, Bool, true, false, not, ◌&&◌, ◌||◌, ◌==◌, ◌/◌, ◌%◌,
  any, find, keep, keep_map, is_empty, is_some, length, if◌then◌else◌,
}
use mission_os.Base.Hex.{hex_byte}
use mission_os.Base.Results.{Result, ok, err}
use mission_os.Base.Text.{Text, codes, text_eq, trim, rsplit_once}
use mission_os.Driver.Error.{ServiceResult, internal}
use mission_os.Driver.Package.{name_of}
use mission_os.Driver.System.{System}
use mission_os.Driver.Verification.{TrustedKey, SignatureCheckResult, valid, invalid, error}

abbrev pub Keys : Type 0
Keys = List TrustedKey

unfoldable pub get_key : Keys → Text → Option TrustedKey
get_key keys id = find (λ (k : TrustedKey). text_eq k.id id) keys

-- `insert` puts the key in the place of one with its identifier.
unfoldable pub add_key : TrustedKey → Keys → Keys
add_key key keys = key ∷ keep (λ (k : TrustedKey). not (text_eq k.id key.id)) keys

unfoldable pub remove_key : Text → Keys → Keys × Bool
unfolding get_key
remove_key id keys =
    (keep (λ (k : TrustedKey). not (text_eq k.id id)) keys, is_some (get_key keys id))

unfoldable pub is_trusted : Text → Keys → Bool
is_trusted public_key keys =
    any (λ (k : TrustedKey). k.enabled && text_eq k.public_key public_key) keys

-- `as_bytes().chunks(2)` of an even number of bytes.
unfoldable pub byte_pairs : Text → List (ℕ × ℕ)
byte_pairs (a ∷ b ∷ s) = (a, b) ∷ byte_pairs s
byte_pairs _ = []

-- A pair that is no byte is dropped, and then there are too few.
unfoldable pub decode_hex : Text → Option Text
unfolding trim byte_pairs hex_byte
decode_hex untrimmed =
    let input = trim untrimmed in
    let decoded = keep_map (λ (p : ℕ × ℕ). hex_byte p.0 p.1) (byte_pairs input) in
    if not (length input % 2 == 0)
    then none
    else if length decoded == length input / 2
    then some decoded
    else none

-- What the service uses of the JSON library.
pub record JsonLibrary : Type 1 where
  pub Value : Type 0
  pub from_str : Text → Option Value
  pub get : Value → Text → Option Value
  pub as_str : Value → Option Text

-- `Path::extension`.
unfoldable pub extension_of : Text → Option Text
unfolding name_of rsplit_once
extension_of path = elim (name_of path) [
  | none ↦ none
  | some name ↦ elim (rsplit_once b'.' name) [
    | none ↦ none
    | some (stem, extension) ↦ if is_empty stem then none else some extension
  ]
]

unfoldable pub is_key_file : Text → Bool
unfolding extension_of
is_key_file path = elim (extension_of path) [
  | none ↦ false
  | some e ↦ text_eq e (codes "pem") || text_eq e (codes "key")
]

module _ (J : JsonLibrary) where
  unfoldable pub string_field : J.Value → Text → Option Text
  string_field value name = elim (J.get value name) [ none ↦ none | some field ↦ J.as_str field ]

  -- A name that is there but is no string is not replaced by the identifier.
  unfoldable pub key_name : J.Value → Text
  unfolding string_field
  key_name value =
      let named = elim (J.get value (codes "name")) as (λ _. Option Text) [
        | some field ↦ J.as_str field
        | none ↦ string_field value (codes "id")
      ] in
      elim named [ some name ↦ name | none ↦ codes "Unknown Key" ]

  unfoldable pub parse_key_file : Text → Option TrustedKey
  unfolding string_field key_name decode_hex
  parse_key_file content = elim (J.from_str content) [
    | none ↦ none
    | some value ↦ elim (string_field value (codes "id")) [
      | none ↦ none
      | some id ↦ elim (string_field value (codes "public_key")) [
        | none ↦ none
        | some key_hex ↦ elim (decode_hex key_hex) [
          | none ↦ none
          | some public_key ↦
              (if length public_key == 32
                then some (record {
                  id = id;
                  name = key_name value;
                  public_key = public_key;
                  enabled = true;
                })
                else none)
        ]
      ]
    ]
  ]

  -- The loop over the paths of the directory. A file that is not read is skipped.
  unfoldable pub load_files : (Text → Option Text) → List Text → Keys → Keys
  unfolding is_key_file parse_key_file add_key
  load_files read_to_string [] keys = keys
  load_files read_to_string (path ∷ paths) keys =
      let skipped = load_files read_to_string paths keys in
      elim (read_to_string path) [
        | none ↦ skipped
        | some content ↦ elim (parse_key_file content) [
          | none ↦ skipped
          | some key ↦
              (let loaded = load_files read_to_string paths (add_key key keys) in
                if is_key_file path then loaded else skipped)
        ]
      ]

  -- The directory is there or not, and read or not. An error leaves the keys as they are.
  unfoldable pub load_keys :
      Bool
      → Result Text (List Text)
      → (Text → Option Text)
      → Text
      → Keys
      → Keys × ServiceResult (Unit {0})
  unfolding load_files
  load_keys false read_dir read_to_string debug_path keys = (keys, ok tt)
  load_keys true (err e) read_to_string debug_path keys =
      (keys, err (internal (codes "cannot read key store " ++ (debug_path ++ (codes ": " ++ e)))))
  load_keys true (ok paths) read_to_string debug_path keys =
      (load_files read_to_string paths keys, ok tt)

-- `hash` is the one of the cryptography library, for the algorithm that is asked for.
unfoldable pub check_hash : (Text → Result Text Text) → Text → Text → SignatureCheckResult
check_hash hash content expected_hash = elim (hash content) [
  | ok computed_hash ↦
      (if text_eq computed_hash expected_hash
        then record {
          outcome = valid;
          key_id = none;
          description =
              codes "File integrity verified "
              ++ ((0xe2 ∷ 0x80 ∷ 0x94 ∷ []) ++ codes " hash matches");
        }
        else record {
          outcome = invalid;
          key_id = none;
          description =
              codes "File integrity check failed "
              ++ ((0xe2 ∷ 0x80 ∷ 0x94 ∷ []) ++ codes " hash mismatch");
        })
  | err e ↦ record {
    outcome = error (codes "hash computation error: " ++ e);
    key_id = none;
    description = codes "Failed to compute file hash for integrity check";
  }
]

unfoldable pub verify_integrity :
    (S : System) → S.State → (Text → Result Text Text) → Text → Text → SignatureCheckResult
unfolding check_hash
verify_integrity S os hash path expected_hash = elim (S.read_file os path) [
  | err e ↦ record {
    outcome = error (codes "cannot read file for hash verification: " ++ e);
    key_id = none;
    description = codes "Failed to read file for integrity check";
  }
  | ok content ↦ check_hash hash content expected_hash
]
