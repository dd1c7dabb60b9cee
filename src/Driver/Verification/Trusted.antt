-- ===== src/Driver/Verification/Trusted.antt =====
-- What `SignatureVerifier::verify_package` of services/driverd/src/verification.rs accepts.
use mission_os.Base.{
  List, [], ◌∷◌, Option, none, some, Bool, true, false, ◌≡◌, refl, subst, ◌⊎◌, inl, inr, ◌↔◌, arith,
  keep, is_empty, Bool-cases, Option-cases,
}
use mission_os.Base.Results.{Result, ok, err}
use mission_os.Base.Text.{Text}
use mission_os.Driver.Verification.{
  TrustedKey, SignatureVerifier, is_valid, enabled_keys, verifying_key, unverified, verify_content,
  check_package,
}

-- A list holds an element of a kind.
pub data Holds (P : TrustedKey → Type 0) : List TrustedKey → Type 0 where
  here : (k : TrustedKey) (ks : List TrustedKey) → P k → Holds P (k ∷ ks)
  there : (k : TrustedKey) (ks : List TrustedKey) → Holds P ks → Holds P (k ∷ ks)

-- An enabled key under which the signature verifies.
pub record Verifies (verify : Text → Text → Text → Bool) (content signature : Text) (k : TrustedKey)
    : Type 0 where
  pub is_enabled : k.enabled ≡ true
  pub is_verified : verify k.public_key content signature ≡ true

-- The package was read, and a trusted key that is enabled verifies it.
pub record IsSigned (verify : Text → Text → Text → Bool) (v : SignatureVerifier)
    (pkg : Result Text Text) (signature : Text) : Type 0 where
  pub content : Text
  pub is_read : pkg ≡ ok content
  pub is_trusted : Holds (Verifies verify content signature) v.keys

-- No signature, and a policy that accepts that; or a signature that a trusted key verifies.
abbrev pub IsAcceptable :
    (Text → Text → Text → Bool) → SignatureVerifier → Result Text Text → Text → Type 0
IsAcceptable verify v pkg signature =
    ((is_empty signature ≡ true) × (v.allow_unsigned ≡ true))
    ⊎ ((is_empty signature ≡ false) × IsSigned verify v pkg signature)

module _ (verify : Text → Text → Text → Bool) (content signature : Text) where
  found-Holds :
      (ks : List TrustedKey) (k : TrustedKey)
      → verifying_key verify (keep (λ (k : TrustedKey). k.enabled) ks) content signature ≡ some k
      → Holds (Verifies verify content signature) ks
  unfolding verifying_key
  found-Holds [] k h = cc
  found-Holds (x ∷ ks) k h = elim (Bool-cases x.enabled) [
    | inl on ↦ elim (Bool-cases (verify x.public_key content signature)) [
      | inl yes_it ↦ here x ks (record { is_enabled = on; is_verified = yes_it })
      | inr no_it ↦ there x ks (found-Holds ks k (ground arith))
    ]
    | inr off ↦ there x ks (found-Holds ks k (ground arith))
  ]

  Holds-found :
      (ks : List TrustedKey)
      → Holds (Verifies verify content signature) ks
      → (k : TrustedKey) × (verifying_key verify
            (keep (λ (k : TrustedKey). k.enabled) ks)
            content
            signature
          ≡ some k)
  unfolding verifying_key
  Holds-found _ (here x ks h) =
      let on = h.is_enabled in let yes_it = h.is_verified in (x, ground arith)
  Holds-found _ (there x ks h) =
      let (k, rest) = Holds-found ks h in
      elim (Bool-cases x.enabled) [
        | inl on ↦ elim (Bool-cases (verify x.public_key content signature)) [
          | inl yes_it ↦ (x, ground arith)
          | inr no_it ↦ (k, ground arith)
        ]
        | inr off ↦ (k, ground arith)
      ]

  unverified-invalid :
      (v : SignatureVerifier) (key_id : Option Text)
      → is_valid (unverified v key_id).outcome ≡ false
  unfolding unverified is_valid
  unverified-invalid v none = refl
  unverified-invalid v (some key_id) = ground arith

module _ (verify : Text → Text → Text → Bool) (v : SignatureVerifier) (signature : Text)
    (key_id : Option Text) where
  content-IsSigned :
      (pkg : Result Text Text)
      → (is_valid (verify_content verify v pkg signature key_id).outcome ≡ true)
        ↔ IsSigned verify v pkg signature
  unfolding verify_content enabled_keys is_valid
  content-IsSigned (err e) = (λ h. cc, λ h. let gone = h.is_read in cc)
  content-IsSigned (ok content) =
      let bad = unverified-invalid verify content signature v key_id in
      (
        (λ h. elim (Option-cases (verifying_key verify (enabled_keys v) content signature)) [
          | inl k ↦ ground arith
          | inr (key, k) ↦ record {
            content = content;
            is_read = refl;
            is_trusted = found-Holds verify content signature v.keys key k;
          }
        ]),
        (λ h.
            let same : h.content ≡ content = cc (h.is_read) in
            let (key, k) =
              Holds-found verify content signature v.keys
                (subst (λ c. Holds (Verifies verify c signature) v.keys) same h.is_trusted) in
            ground arith),
      )

-- A package is accepted exactly if it has no signature and the policy allows that, or it has one and
-- was read, and an enabled key of the key store verifies the content under it. The key that the
-- caller names has no say.
pub check_package-IsAcceptable :
    (verify : Text → Text → Text → Bool) (v : SignatureVerifier) (pkg : Result Text Text)
    (signature : Text) (key_id : Option Text)
    → (is_valid (check_package verify v pkg signature key_id).outcome ≡ true)
      ↔ IsAcceptable verify v pkg signature
unfolding check_package is_valid
check_package-IsAcceptable verify v pkg signature key_id =
    let signed = content-IsSigned verify v signature key_id pkg in
    elim (Bool-cases (is_empty signature)) [
      | inl h ↦ (
        (λ k. inl (h, ground arith)),
        (λ k. elim k [ inl (a, b) ↦ ground arith | inr (a, b) ↦ ground arith ]),
      )
      | inr h ↦ (
        (λ k. inr (h, signed.0 (ground arith))),
        (λ k. elim k [ inl (a, b) ↦ ground arith | inr (a, b) ↦ ground (arith, signed.1 b) ]),
      )
    ]
