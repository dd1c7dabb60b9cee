-- ===== src/Driver/Selector/Trusted.antt =====
-- What `is_source_trusted` of services/driverd/src/selector.rs asks for.
use mission_os.Base.{
  List, [], ◌∷◌, Option, none, some, true, false, ◌≡◌, refl, sym, ap, subst, ◌⊎◌, inl, inr, IsIn,
  any, is_empty, arith, Bool-cases, Option-cases,
}
use mission_os.Base.Text.{Text, text_eq, text_eq_iff}
use mission_os.Driver.Source.{SourceConfig, SourceType, mission, linux, default_trusted, get_source}
use mission_os.Driver.Selector.{DriverSelector, source_trusts, is_source_trusted}

-- What trust means: the source is configured. If it has keys and the package names its key, that key
-- is one of them; if it has no keys, or the package names none, the type of the source is trusted by
-- default, and no key is asked for.
pub record IsTrusted (s : DriverSelector) (source_id : Text) (signing_key_id : Option Text)
    : Type 0 where
  pub source : SourceConfig
  pub is_configured : get_source s.source_registry source_id ≡ some source
  pub has_key :
      (key : Text)
      → signing_key_id ≡ some key
      → ¬ (source.trusted_key_ids ≡ [])
      → IsIn key source.trusted_key_ids
  pub is_default :
      (signing_key_id ≡ none) ⊎ (source.trusted_key_ids ≡ [])
      → (source.source_type ≡ mission) ⊎ (source.source_type ≡ linux)

any-IsIn : (key : Text) (keys : List Text) → any (λ k. text_eq k key) keys ≡ true → IsIn key keys
any-IsIn key [] h = cc
any-IsIn key (k ∷ keys) h = elim (Bool-cases (text_eq k key)) [
  | inl e ↦ inl (sym ((text_eq_iff k key).0 e))
  | inr e ↦ inr (any-IsIn key keys (ground arith))
]

by_default :
    (source_type : SourceType)
    → default_trusted source_type ≡ true
    → (source_type ≡ mission) ⊎ (source_type ≡ linux)
unfolding default_trusted
by_default mission h = inl refl
by_default linux h = inr refl
by_default _ h = cc

no_keys : (keys : List Text) → (keys ≡ []) ⊎ ((is_empty keys ≡ false) × ¬ (keys ≡ []))
no_keys [] = inl refl
no_keys (k ∷ keys) = inr (refl, λ h. cc)

some-none : (t : Text) → ¬ (◌≡◌ {A = Option Text} (some t) none)
some-none t h = cc

trusts-IsTrusted :
    (s : DriverSelector) (source_id : Text) (signing_key_id : Option Text) (source : SourceConfig)
    → get_source s.source_registry source_id ≡ some source
    → source_trusts source signing_key_id ≡ true
    → IsTrusted s source_id signing_key_id
unfolding source_trusts
trusts-IsTrusted s source_id none source found h = record {
  source = source;
  is_configured = found;
  has_key = λ key n. cc;
  is_default = λ _. by_default source.source_type h;
}
trusts-IsTrusted s source_id (some named) source found h =
    let keys = source.trusted_key_ids in
    elim (no_keys source.trusted_key_ids) [
      | inl n ↦ record {
        source = source;
        is_configured = found;
        has_key = λ key _ some_keys. absurd (some_keys n);
        is_default = λ _.
            let nothing : is_empty keys ≡ true = ap is_empty n in
            by_default source.source_type (ground arith);
      }
      | inr (some_keys, n) ↦ record {
        source = source;
        is_configured = found;
        has_key = λ key e _.
            let same : named ≡ key = cc in
            subst (λ k. IsIn k keys) same (any-IsIn named keys (ground arith));
        is_default = λ c. elim c [ inl e ↦ absurd (some-none named e) | inr e ↦ absurd (n e) ];
      }
    ]

pub is_source_trusted-IsTrusted :
    (s : DriverSelector) (source_id : Text) (signing_key_id : Option Text)
    → is_source_trusted s source_id signing_key_id ≡ true
    → IsTrusted s source_id signing_key_id
unfolding is_source_trusted
is_source_trusted-IsTrusted s source_id signing_key_id h =
    elim (Option-cases (get_source s.source_registry source_id)) [
      | inl n ↦ absurd (ground arith)
      | inr (source, n) ↦ trusts-IsTrusted s source_id signing_key_id source n (ground arith)
    ]
