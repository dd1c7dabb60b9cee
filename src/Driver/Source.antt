-- ===== src/Driver/Source.antt =====
-- Driver sources: services/driverd/src/source.rs, built for release (`cfg!(test)` is false).
pub mod Registry
use mission_os.Base.{
  ℕ, zero, suc, drop, List, [], ◌∷◌, ◌++◌, Option, none, some, Bool, true, false, not, ◌&&◌, ◌||◌,
  ◌==◌, ltb, leb, all, any, find, keep, length, is_empty, if◌then◌else◌,
}
use mission_os.Base.Results.{Result, ok, err, ◌>>=◌, ◌>>◌, guard}
use mission_os.Base.Text.{Text, codes, text_eq, trim, starts_with, contains, to_lowercase}
use mission_os.Base.Decimal.{is_digit}
use mission_os.Driver.Error.{
  ServiceError, ServiceResult, invalid_argument, already_exists, not_found, backend_unavailable,
}
use mission_os.Driver.Inventory.{require_text}
use mission_os.Driver.System.{System}
use mission_os.Driver.World.{World}

-- `TrustLevel` and `TrustConfig` of repository.rs.
pub data TrustLevel : Type 0 where
  trusted untrusted unknown : TrustLevel

pub record TrustConfig : Type 0 where
  pub level : TrustLevel
  pub trusted_keys : List Text
  pub key_identity : Option Text

unfoldable pub is_alphanumeric : ℕ → Bool
is_alphanumeric c =
    (leb b'0' c && leb c b'9') || ((leb b'a' c && leb c b'z') || (leb b'A' c && leb c b'Z'))

unfoldable pub is_id_char : ℕ → Bool
unfolding is_alphanumeric
is_id_char c = is_alphanumeric c || (c == b'_' || (c == b'-' || c == b'.'))

-- `SourceId::new`.
unfoldable pub source_id : Text → ServiceResult Text
unfolding is_id_char
source_id id =
    let trimmed = trim id in
    if is_empty trimmed
    then err (invalid_argument (codes "source ID must not be empty"))
    else if ltb 128 (length trimmed)
    then err (invalid_argument (codes "source ID exceeds maximum length (128)"))
    else if not (all is_id_char trimmed)
    then err (
        invalid_argument
          (codes "source ID must contain only alphanumeric chars, underscores, hyphens, or dots"))
    else ok trimmed

pub data SourceType : Type 0 where
  mission linux vendor community local : SourceType

unfoldable pub requires_network : SourceType → Bool
requires_network mission = true
requires_network vendor = true
requires_network community = true
requires_network _ = false

unfoldable pub default_trusted : SourceType → Bool
default_trusted mission = true
default_trusted linux = true
default_trusted _ = false

unfoldable pub is_local : SourceType → Bool
is_local local = true
is_local _ = false

pub record SourceConfig : Type 0 where
  pub id : Text
  pub name : Text
  pub source_type : SourceType
  pub base_url : Text
  pub enabled : Bool
  pub priority : ℕ
  pub trusted_key_ids : List Text
  pub allowed_architectures : List Text
  pub mirrors : List Text
  pub metadata_url : Option Text
  pub trust_config : Option TrustConfig

-- `trim_start_matches("https://")`.
unfoldable pub strip_https : ℕ → Text → Text
strip_https zero s = s
strip_https (suc n) s =
    let rest = strip_https n (drop 8 s) in if starts_with s (codes "https://") then rest else s

unfoldable pub validate_url : Text → ServiceResult (Unit {0})
unfolding strip_https
validate_url url =
    let trimmed = trim url in
    if is_empty trimmed
    then err (invalid_argument (codes "URL must not be empty for remote sources"))
    else if not (starts_with trimmed (codes "https://"))
        && not (starts_with trimmed (codes "file://"))
    then err (invalid_argument (codes "URL scheme must be HTTPS for remote sources: " ++ trimmed))
    else if (contains trimmed (codes "@") && starts_with trimmed (codes "https://"))
        && contains (strip_https (length trimmed) trimmed) (codes "@")
    then err (invalid_argument (codes "URL must not contain embedded credentials"))
    else ok tt

-- A loop that returns the first error.
abbrev pub for_each {ℓ} :
    {A : Type ℓ} → (A → ServiceResult (Unit {0})) → List A → ServiceResult (Unit {0})
for_each f [] = ok tt
for_each f (x ∷ xs) = f x >>= λ _. for_each f xs

unfoldable pub validate_trust : Option TrustConfig → ServiceResult (Unit {0})
validate_trust none = ok tt
validate_trust (some trust) = elim trust.level [
  | trusted ↦
      guard (not (is_empty trust.trusted_keys))
        (invalid_argument (codes "trusted repositories must have at least one trusted key"))
  | _ ↦ ok tt
]

unfoldable pub validate_metadata_url : SourceConfig → ServiceResult (Unit {0})
unfolding validate_url requires_network
validate_metadata_url c = elim c.metadata_url [
  | none ↦ ok tt
  | some url ↦ (if requires_network c.source_type then validate_url url else ok tt)
]

unfoldable pub validate_base_url : SourceConfig → ServiceResult (Unit {0})
unfolding validate_url requires_network
validate_base_url c =
    if requires_network c.source_type
    then (validate_url c.base_url >>= λ _. for_each validate_url c.mirrors)
    else ok tt

unfoldable pub validate : SourceConfig → ServiceResult (Unit {0})
unfolding source_id require_text validate_base_url validate_metadata_url validate_trust
validate c = do
  _ ← source_id c.id
  require_text c.name (codes "source name must not be empty")
  validate_base_url c
  guard (leb c.priority 1000)
      (invalid_argument (codes "source priority must be between 0 and 1000"))
  for_each (λ key_id. require_text key_id (codes "trusted key ID must not be empty"))
      c.trusted_key_ids
  for_each (λ arch. require_text arch (codes "architecture must not be empty"))
      c.allowed_architectures
  validate_metadata_url c
  validate_trust c.trust_config

-- The loop of `from_configs`, with the identifiers seen so far.
unfoldable pub check_configs : List Text → List SourceConfig → ServiceResult (Unit {0})
unfolding validate source_id
check_configs seen [] = ok tt
check_configs seen (c ∷ configs) = do
  validate c
  id ← source_id c.id
  guard (not (any (text_eq id) seen)) (already_exists (codes "duplicate source ID: " ++ c.id))
  check_configs (id ∷ seen) configs

-- `SourceRegistry` is its list of sources.
unfoldable pub from_configs : List SourceConfig → ServiceResult (List SourceConfig)
unfolding check_configs
from_configs configs = check_configs [] configs >>= λ _. ok configs

-- `sort_by_key` on the priority: stable, the lowest number first.
unfoldable pub insert_source : SourceConfig → List SourceConfig → List SourceConfig
insert_source c [] = c ∷ []
insert_source c (d ∷ sources) =
    let rest = insert_source c sources in
    if ltb d.priority c.priority then d ∷ rest else c ∷ d ∷ sources

unfoldable pub sort_by_priority : List SourceConfig → List SourceConfig
unfolding insert_source
sort_by_priority [] = []
sort_by_priority (c ∷ sources) = insert_source c (sort_by_priority sources)

unfoldable pub enabled_sources : List SourceConfig → List SourceConfig
unfolding sort_by_priority
enabled_sources sources = sort_by_priority (keep (λ (s : SourceConfig). s.enabled) sources)

unfoldable pub get_source : List SourceConfig → Text → Option SourceConfig
get_source sources id = find (λ (s : SourceConfig). text_eq s.id id) sources

unfoldable pub is_source_enabled : List SourceConfig → Text → Bool
is_source_enabled sources id = any (λ (s : SourceConfig). text_eq s.id id && s.enabled) sources

pub record ResolvedSource : Type 0 where
  pub identity : SourceConfig
  pub resolved_url : Text
  pub reachable : Bool

unfoldable pub resolve_source :
    {S : System} → World S → List SourceConfig → Text → ServiceResult ResolvedSource
unfolding is_local
resolve_source {S = S} w sources id =
    elim (find (λ (s : SourceConfig). text_eq s.id id && s.enabled) sources) [
      | none ↦ err (not_found (codes "source '" ++ (id ++ codes "' not found or disabled")))
      | some source ↦
          (if is_local source.source_type && not (S.exists w.os source.base_url)
            then err (
                backend_unavailable (
                  codes "local source path '"
                  ++ (S.debug_path source.base_url ++ codes "' does not exist")))
            else ok
                (record { identity = source; resolved_url = source.base_url; reachable = true }))
    ]
