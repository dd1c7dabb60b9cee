-- ===== src/Driver/Metadata.antt =====
-- Package metadata: services/driverd/src/metadata.rs.
pub mod Digest
use mission_os.Base.{
  ℕ, List, [], ◌∷◌, ◌++◌, Option, none, some, Bool, true, false, not, ◌&&◌, ◌||◌, ◌==◌, ◌%◌, ltb,
  leb, length, is_empty, if◌then◌else◌,
}
use Prim.Native.Nat.{bit_or, bit_xor}
use mission_os.Base.Results.{Result, ok, err, ◌>>=◌, ◌>>◌, guard}
use mission_os.Base.Text.{Text, codes, text_eq, trim, to_lowercase, contains, split_once}
use mission_os.Base.Decimal.{show}
use mission_os.Base.Hex.{hex_encode, hex_byte}
use mission_os.Driver.Error.{ServiceError, ServiceResult, invalid_argument}
use mission_os.Driver.Inventory.{
  DriverModuleType, KernelCompatibility, require_text, validate_kernel,
}
use mission_os.Driver.Inventory.Versions

pub record PackageId : Type 0 where
  pub driver_name : Text
  pub source_id : Text
  pub version : Versions.DriverVersion

unfoldable pub validate_package_id : PackageId → ServiceResult (Unit {0})
unfolding require_text
validate_package_id p = do
  require_text p.driver_name (codes "package driver_name must not be empty")
  require_text p.source_id (codes "package source_id must not be empty")
  Versions.validate p.version

-- `from_utf8` accepts two bytes: two of ASCII, or one character of two bytes.
unfoldable pub is_utf8 : ℕ → ℕ → Bool
is_utf8 a b = (ltb a 128 && ltb b 128) || ((leb 0xc2 a && leb a 0xdf) && (leb 128 b && leb b 191))

-- Two bytes that are no UTF-8 are read as "00".
unfoldable pub hex_chunk : ℕ → ℕ → Option ℕ
unfolding is_utf8
hex_chunk a b = if is_utf8 a b then hex_byte a b else some 0

-- The chunks of two bytes; a last one of a single byte does not come up.
unfoldable pub hex_chunks : Text → Option Text
unfolding hex_chunk
hex_chunks [] = some []
hex_chunks (a ∷ []) = none
hex_chunks (a ∷ b ∷ s) = elim (hex_chunk a b) [
  | none ↦ none
  | some byte ↦ elim (hex_chunks s) [ none ↦ none | some bytes ↦ some (byte ∷ bytes) ]
]

unfoldable pub hex_decode : Text → ServiceResult Text
unfolding hex_chunks
hex_decode input =
    if not (length (trim input) % 2 == 0)
    then err (invalid_argument (codes "hex string must have even length"))
    else elim (hex_chunks (trim input)) [
      | none ↦ err (invalid_argument (codes "invalid hex string"))
      | some bytes ↦ ok bytes
    ]

pub record PackageDigest : Type 0 where
  pub algorithm : Text
  pub value : Text

unfoldable pub sha256 : Text → ServiceResult PackageDigest
sha256 bytes =
    if not (length bytes == 32)
    then err
        (invalid_argument (codes "SHA-256 digest must be 32 bytes, got " ++ show (length bytes)))
    else ok (record { algorithm = codes "sha256"; value = bytes })

unfoldable pub blake3 : Text → ServiceResult PackageDigest
blake3 bytes =
    if not (length bytes == 32)
    then err
        (invalid_argument (codes "BLAKE3 digest must be 32 bytes, got " ++ show (length bytes)))
    else ok (record { algorithm = codes "blake3"; value = bytes })

unfoldable pub parse_algorithm : Text → Text → ServiceResult PackageDigest
unfolding sha256 blake3 hex_decode
parse_algorithm algo hex =
    if text_eq algo (codes "sha256") || text_eq algo (codes "SHA256")
    then hex_decode hex >>= sha256
    else if text_eq algo (codes "blake3") || text_eq algo (codes "BLAKE3")
    then hex_decode hex >>= blake3
    else err (invalid_argument (codes "unsupported hash algorithm: " ++ algo))

-- The trimmed input, with its parts around the first colon.
unfoldable pub parse_parts : Text → Text × Option Text → ServiceResult PackageDigest
unfolding parse_algorithm
parse_parts trimmed (algo, some hex) = parse_algorithm algo hex
parse_parts trimmed (algo, none) =
    err (invalid_argument (codes "invalid digest format, expected 'algorithm:hex': " ++ trimmed))

unfoldable pub parse : Text → ServiceResult PackageDigest
unfolding parse_parts
parse input = parse_parts (trim input) (split_once b':' (trim input))

unfoldable pub to_hex : PackageDigest → Text
to_hex d = hex_encode d.value

unfoldable pub to_string_full : PackageDigest → Text
unfolding to_hex
to_string_full d = d.algorithm ++ (codes ":" ++ to_hex d)

-- The fold over the bytes of both digests.
unfoldable pub differences : ℕ → Text → Text → ℕ
differences acc (x ∷ xs) (y ∷ ys) = differences (bit_or acc (bit_xor x y)) xs ys
differences acc _ _ = acc

unfoldable pub matches : PackageDigest → Text → Bool
unfolding differences
matches d other =
    if not (length other == length d.value) then false else differences 0 d.value other == 0

pub record PackageMetadata : Type 0 where
  pub package_id : PackageId
  pub driver_name : Text
  pub description : Text
  pub module_type : DriverModuleType
  pub architecture : Text
  pub kernel_compat : KernelCompatibility
  pub filename : Text
  pub size_bytes : ℕ
  pub digest : PackageDigest
  pub signature_hex : Text
  pub signing_key_id : Option Text
  pub source_id : Text
  pub url_path : Text
  pub is_delta : Bool
  pub base_version : Option Versions.DriverVersion

unfoldable pub validate : PackageMetadata → ServiceResult (Unit {0})
unfolding validate_package_id require_text validate_kernel
validate m = do
  validate_package_id m.package_id
  require_text m.driver_name (codes "driver_name must not be empty")
  require_text m.architecture (codes "architecture must not be empty")
  require_text m.filename (codes "filename must not be empty")
  require_text m.source_id (codes "source_id must not be empty")
  guard (not (m.size_bytes == 0)) (invalid_argument (codes "package size must be greater than 0"))
  guard (leb m.size_bytes 2_000_000_000)
      (invalid_argument (codes "package size exceeds maximum (2 GB)"))
  guard (not (is_empty m.digest.value))
      (invalid_argument (codes "package digest must not be empty"))
  validate_kernel m.kernel_compat
  guard (not (contains m.url_path (codes "..")))
      (invalid_argument (codes "url_path must not contain '..'"))
  elim m.base_version [
    | some base ↦ ok tt
    | none ↦
        guard (not m.is_delta) (invalid_argument (codes "delta package must specify base_version"))
  ]

unfoldable pub normalized_architecture : PackageMetadata → Text
normalized_architecture m =
    let arch = to_lowercase m.architecture in
    if text_eq arch (codes "amd64")
    then codes "x86_64"
    else if text_eq arch (codes "arm64")
    then codes "aarch64"
    else arch
