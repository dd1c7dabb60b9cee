-- ===== src/Driver/Source/Registry.antt =====
-- The registry of sources, `SourceRegistry` of services/driverd/src/source.rs.
use mission_os.Base.{
  List, [], ◌∷◌, some, false, ◌≡◌, ◌≢◌, refl, sym, ap, inl, inr, All, any, map, arith, Bool-cases,
}
use mission_os.Base.Results.{ok, Result-cases}
use mission_os.Base.Text.{Text, text_eq, text_eq_iff, text_eq_refl, trim}
use mission_os.Driver.Source.{
  SourceConfig, source_id, validate, check_configs, from_configs, get_source,
}

abbrev pub IsDistinct : List Text → Type 0
IsDistinct [] = Unit
IsDistinct (x ∷ xs) = All (λ y. y ≢ x) xs × IsDistinct xs

source_id-trim : (id t : Text) → source_id id ≡ ok t → t ≡ trim id
unfolding source_id
source_id-trim id t h = ground (arith, h)

abbrev IsUnseen : List Text → SourceConfig → Type 0
IsUnseen seen c = any (text_eq (trim c.id)) seen ≡ false

abbrev IsAccepted : List Text → List SourceConfig → Type 0
IsAccepted seen configs =
    All (λ c. validate c ≡ ok tt) configs
    × All (IsUnseen seen) configs
    × IsDistinct (map (λ (c : SourceConfig). trim c.id) configs)

IsUnseen-head :
    (id : Text) (seen : List Text) (configs : List SourceConfig)
    → All (IsUnseen (id ∷ seen)) configs
    → All (λ y. y ≢ id) (map (λ (c : SourceConfig). trim c.id) configs)
IsUnseen-head id seen [] h = tt
IsUnseen-head id seen (c ∷ configs) h =
    let first = h.0 in
    ((λ k. ground (arith, text_eq_iff (trim c.id) id)), IsUnseen-head id seen configs h.1)

IsUnseen-tail :
    (id : Text) (seen : List Text) (configs : List SourceConfig)
    → All (IsUnseen (id ∷ seen)) configs
    → All (IsUnseen seen) configs
IsUnseen-tail id seen [] h = tt
IsUnseen-tail id seen (c ∷ configs) h =
    ((let first = h.0 in ground arith), IsUnseen-tail id seen configs h.1)

check_configs-IsAccepted :
    (seen : List Text) (configs : List SourceConfig)
    → check_configs seen configs ≡ ok tt
    → IsAccepted seen configs
unfolding check_configs
check_configs-IsAccepted seen [] h = (tt, tt, tt)
check_configs-IsAccepted seen (c ∷ configs) h = elim (Result-cases (validate c)) [
  | inr (e, v) ↦ absurd (ground arith)
  | inl (u, v) ↦ elim (Result-cases (source_id c.id)) [
    | inr (e, s) ↦ absurd (ground arith)
    | inl (id, s) ↦ elim (Bool-cases (any (text_eq id) seen)) [
      | inl k ↦ absurd (ground arith)
      | inr k ↦
          let trimmed = source_id-trim c.id id s in
          let rest = check_configs-IsAccepted (id ∷ seen) configs (ground arith) in
          (
            (v, rest.0),
            ((rw (← trimmed) k), IsUnseen-tail id seen configs rest.1),
            (rw (← trimmed) (IsUnseen-head id seen configs rest.1), rest.2),
          )
    ]
  ]
]

-- Every source is the one that its identifier finds.
found-head :
    (c : SourceConfig) (sources : List SourceConfig)
    → All (λ y. y ≢ trim c.id) (map (λ (s : SourceConfig). trim s.id) sources)
    → (all_sources : List SourceConfig)
    → All (λ (s : SourceConfig). get_source all_sources s.id ≡ some s) sources
    → All (λ (s : SourceConfig). get_source (c ∷ all_sources) s.id ≡ some s) sources
unfolding get_source
found-head c [] h ss k = tt
found-head c (s ∷ sources) h ss k = elim (Bool-cases (text_eq c.id s.id)) [
  | inl same ↦ absurd (h.0 (ap trim (sym ((text_eq_iff c.id s.id).0 same))))
  | inr other ↦ ((let first = k.0 in ground arith), found-head c sources h.1 ss k.1)
]

distinct-found :
    (sources : List SourceConfig)
    → IsDistinct (map (λ (s : SourceConfig). trim s.id) sources)
    → All (λ (s : SourceConfig). get_source sources s.id ≡ some s) sources
unfolding get_source
distinct-found [] h = tt
distinct-found (c ∷ sources) h = (
  (rw (text_eq_refl c.id, get_source) refl),
  found-head c sources h.0 sources (distinct-found sources h.1),
)

-- The registry holds the configurations as given; each is valid, no two have one identifier after
-- trimming, and looking up the identifier of one finds that one.
pub record IsRegistry (configs sources : List SourceConfig) : Type 0 where
  pub is_kept : sources ≡ configs
  pub are_valid : All (λ c. validate c ≡ ok tt) sources
  pub are_distinct : IsDistinct (map (λ (c : SourceConfig). trim c.id) sources)
  pub are_found : All (λ (c : SourceConfig). get_source sources c.id ≡ some c) sources

-- When a registry is made of configurations, it holds just these, all of them are valid, their
-- trimmed identifiers are distinct, and looking up the identifier of one finds that one.
pub from_configs-IsRegistry :
    (configs sources : List SourceConfig)
    → from_configs configs ≡ ok sources
    → IsRegistry configs sources
unfolding from_configs
from_configs-IsRegistry configs sources h = elim (Result-cases (check_configs [] configs)) [
  | inr (e, k) ↦ absurd (ground arith)
  | inl (u, k) ↦
      let same : sources ≡ configs = ground arith in
      let accepted = check_configs-IsAccepted [] configs k in
      rw same (record {
        is_kept = refl;
        are_valid = accepted.0;
        are_distinct = accepted.2;
        are_found = distinct-found configs accepted.2;
      })
]
