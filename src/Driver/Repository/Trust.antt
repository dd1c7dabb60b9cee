-- ===== src/Driver/Repository/Trust.antt =====
-- Which manifests `RepositoryManager::verify_manifest` of services/driverd/src/repository.rs accepts.
use mission_os.Base.{
  IsIn, ℕ, List, [], ◌∷◌, Option, none, some, Bool, true, ◌≡◌, refl, sym, inl, inr, length, arith,
  Bool-cases, Option-cases, ◌==◌,
}
use mission_os.Base.Results.{ok, Result-cases}
use mission_os.Base.Text.{Text}
use mission_os.Driver.System.{System}
use mission_os.Driver.World.{World, record_event, audit}
use mission_os.Driver.Repository.{
  RepositoryManifest, FreshnessPolicy, ManifestVerification, unverified, verified,
  invalid_signature, unknown_key, hex_decode, of_length, signing_key, with_signature,
  verify_manifest_signature, validate_manifest, check_freshness,
}
use mission_os.Driver.Repository.Manager.{
  accept, audit_manifest, verify_manifest_signature_audited, authenticate, verify_fresh,
  check_freshness_audited, verify_manifest,
}
use mission_os.Driver.Repository.Wellformed.{
  IsWellFormed, validate_manifest-IsWellFormed, IsFresh, check_freshness_sound,
}

-- A trusted key that reads as 32 bytes, under which the signature of 64 bytes verifies the bytes of
-- the manifest as they were received.
pub record IsSignedBy (verify : Text → Text → Text → Bool) (json signature_hex : Text)
    (keys : List Text) (key_hex : Text) : Type 0 where
  pub is_trusted : IsIn key_hex keys
  pub key : Text
  pub is_key : hex_decode key_hex ≡ ok (some key)
  pub has_key_length : length key ≡ 32
  pub signature : Text
  pub is_signature : hex_decode signature_hex ≡ ok (some signature)
  pub has_signature_length : length signature ≡ 64
  pub is_verified : verify key json signature ≡ true

of_length-some :
    (n : ℕ) (decoded : Option Text) (bytes : Text)
    → of_length n decoded ≡ some bytes
    → (decoded ≡ some bytes) × (length bytes ≡ n)
unfolding of_length
of_length-some n none bytes h = cc
of_length-some n (some s) bytes h = elim (Bool-cases (length s == n)) [
  | inl k ↦ let same : s ≡ bytes = ground arith in rw (← same) (refl, ground arith)
  | inr k ↦ absurd (ground arith)
]

module _ (verify : Text → Text → Text → Bool) (json : Text) where
  -- The key found is a trusted one that verifies.
  record Found (signature : Text) (keys : List Text) (key_hex : Text) : Type 0 where
    is_trusted : IsIn key_hex keys
    key : Text
    is_key : hex_decode key_hex ≡ ok (some key)
    has_key_length : length key ≡ 32
    is_verified : verify key json signature ≡ true

  Found-later :
      (signature key_hex x : Text) (keys : List Text)
      → Found signature keys key_hex
      → Found signature (x ∷ keys) key_hex
  Found-later signature key_hex x keys h = record {
    is_trusted = inr h.is_trusted;
    key = h.key;
    is_key = h.is_key;
    has_key_length = h.has_key_length;
    is_verified = h.is_verified;
  }

  signing_key-Found :
      (signature : Text) (keys : List Text) (key_hex : Text)
      → signing_key verify json signature keys ≡ ok (some key_hex)
      → Found signature keys key_hex
  unfolding signing_key
  signing_key-Found signature [] key_hex h = cc
  signing_key-Found signature (x ∷ keys) key_hex h = elim (Result-cases (hex_decode x)) [
    | inr (e, d) ↦ absurd (ground arith)
    | inl (decoded, d) ↦ elim (Option-cases (of_length 32 decoded)) [
      | inl o ↦
          Found-later signature key_hex x keys
            (signing_key-Found signature keys key_hex (ground arith))
      | inr (key, o) ↦ elim (Bool-cases (verify key json signature)) [
        | inr v ↦
            Found-later signature key_hex x keys
              (signing_key-Found signature keys key_hex (ground arith))
        | inl v ↦
            let same : x ≡ key_hex = ground arith in
            let full = of_length-some 32 decoded key o in
            rw (← same) (record {
              is_trusted = inl refl;
              key = key;
              is_key = rw (d, full.0) refl;
              has_key_length = full.1;
              is_verified = v;
            })
      ]
    ]
  ]

  with_signature-Found :
      (keys : List Text) (decoded : Option Text) (key_hex : Text)
      → with_signature verify json keys decoded ≡ ok (verified key_hex)
      → (signature : Text) × (decoded ≡ some signature) × Found signature keys key_hex
  unfolding with_signature
  with_signature-Found keys none key_hex h = absurd (ground arith)
  with_signature-Found keys (some signature) key_hex h =
      elim (Result-cases (signing_key verify json signature keys)) [
        | inr (e, k) ↦ absurd (ground arith)
        | inl (none, k) ↦ absurd (ground arith)
        | inl (some found, k) ↦
            let same : found ≡ key_hex = ground arith in
            (signature, refl, signing_key-Found signature keys key_hex (rw (← same) k))
      ]

  -- The answer that a signature is verified names a trusted key that verifies it.
  pub verify_manifest_signature-IsSignedBy :
      (signature_hex : Text) (keys : List Text) (key_hex : Text)
      → verify_manifest_signature verify json signature_hex keys ≡ ok (verified key_hex)
      → IsSignedBy verify json signature_hex keys key_hex
  unfolding verify_manifest_signature
  verify_manifest_signature-IsSignedBy signature_hex keys key_hex h =
      elim (Result-cases (hex_decode signature_hex)) [
        | inr (e, d) ↦ absurd (ground arith)
        | inl (decoded, d) ↦
            let (signature, s, found) =
              with_signature-Found keys (of_length 64 decoded) key_hex (ground arith) in
            let full = of_length-some 64 decoded signature s in
            record {
              is_trusted = found.is_trusted;
              key = found.key;
              is_key = found.is_key;
              has_key_length = found.has_key_length;
              signature = signature;
              is_signature = rw (d, full.0) refl;
              has_signature_length = full.1;
              is_verified = found.is_verified;
            }
      ]

-- The manifest that is returned is the one given, which is well-formed and fresh, and carries the
-- trusted key that signed it; nothing but the log has changed.
pub record IsAuthentic (S : System) (w w' : World S) (policy : FreshnessPolicy) (json : Text)
    (m m' : RepositoryManifest) (signature_hex : Text) (keys : List Text) : Type 0 where
  pub key_hex : Text
  pub is_marked : m' ≡ record m { verification = verified key_hex }
  pub is_well_formed : IsWellFormed m
  pub is_fresh : IsFresh (S.now w.os) m policy
  pub is_signed : IsSignedBy S.signature_valid json signature_hex keys key_hex
  pub is_logged : w' ≡ record w { log = w'.log }

accept-marked :
    (m m' : RepositoryManifest) (result : ManifestVerification)
    → accept m result ≡ ok m'
    → (key_hex : Text) × (result ≡ verified key_hex)
      × (m' ≡ record m { verification = verified key_hex })
unfolding accept
accept-marked m m' unverified h = absurd (ground arith)
accept-marked m m' (verified key_hex) h = (key_hex, refl, sym (ground (arith, h)))
accept-marked m m' (invalid_signature msg) h = absurd (ground arith)
accept-marked m m' (unknown_key msg) h = absurd (ground arith)

-- An outcome that is verified is the reason why a manifest is returned.
abbrev IsVouched :
    (Text → Text → Text → Bool)
    → Text
    → RepositoryManifest
    → RepositoryManifest
    → Text
    → List Text
    → Type 0
IsVouched verify json m m' signature_hex keys =
    (key_hex : Text) × (m' ≡ record m { verification = verified key_hex })
    × IsSignedBy verify json signature_hex keys key_hex

module _ {S : System} (json : Text) (m m' : RepositoryManifest) (signature_hex : Text)
    (keys : List Text) (subject : Text) where
  authenticate-IsVouched :
      (w : World S)
      → (authenticate json m signature_hex keys subject w).1 ≡ ok (ok m')
      → IsVouched S.signature_valid json m m' signature_hex keys
  unfolding authenticate verify_manifest_signature_audited audit_manifest
  authenticate-IsVouched w h =
      elim (Result-cases (verify_manifest_signature S.signature_valid json signature_hex keys)) [
        | inr (e, v) ↦ absurd (ground arith)
        | inl (result, v) ↦
            let (key_hex, r, marked) = accept-marked m m' result (ground arith) in
            (
              key_hex,
              marked,
              verify_manifest_signature-IsSignedBy S.signature_valid json signature_hex keys key_hex
                  (ground arith),
            )
      ]

  authenticate-logged :
      (w : World S)
      → (authenticate json m signature_hex keys subject w).0
        ≡ record w { log = (authenticate json m signature_hex keys subject w).0.log }
  unfolding authenticate verify_manifest_signature_audited audit_manifest record_event audit
  authenticate-logged w =
      elim (Result-cases (verify_manifest_signature S.signature_valid json signature_hex keys)) [
        | inr (e, v) ↦ ground arith
        | inl (unverified, v) ↦ ground arith
        | inl (verified key_hex, v) ↦ ground arith
        | inl (invalid_signature msg, v) ↦ ground arith
        | inl (unknown_key msg, v) ↦ ground arith
      ]

  verify_fresh-IsAuthentic :
      (w : World S) (policy : FreshnessPolicy)
      → IsWellFormed m
      → (verify_fresh policy json m signature_hex keys subject w).1 ≡ ok (ok m')
      → IsAuthentic S w
          (verify_fresh policy json m signature_hex keys subject w).0
          policy
          json
          m
          m'
          signature_hex
          keys
  unfolding verify_fresh check_freshness_audited
  verify_fresh-IsAuthentic w policy formed h =
      elim (Result-cases (check_freshness (S.now w.os) m policy)) [
        | inr (e, f) ↦ absurd (ground arith)
        | inl (done, f) ↦
            let (key_hex, marked, signed) = authenticate-IsVouched w (ground arith) in
            record {
              key_hex = key_hex;
              is_marked = marked;
              is_well_formed = formed;
              is_fresh = check_freshness_sound (S.now w.os) m policy f;
              is_signed = signed;
              is_logged = ground (arith, authenticate-logged w);
            }
      ]

  -- A manifest that is accepted is returned as it was given, but for the name of the key: it is
  -- well-formed, fresh by the clock and the policy, and signed by a trusted key over the bytes that
  -- were received; and the inventory, the saved states and the operating system are as before.
  pub verify_manifest-IsAuthentic :
      (w : World S) (policy : FreshnessPolicy)
      → (verify_manifest policy json m signature_hex keys subject w).1 ≡ ok (ok m')
      → IsAuthentic S w
          (verify_manifest policy json m signature_hex keys subject w).0
          policy
          json
          m
          m'
          signature_hex
          keys
  unfolding verify_manifest
  verify_manifest-IsAuthentic w policy h = elim (Result-cases (validate_manifest m)) [
    | inr (e, v) ↦ absurd (ground arith)
    | inl (done, v) ↦
        rw (v, verify_manifest)
          (verify_fresh-IsAuthentic w policy (validate_manifest-IsWellFormed m v) (ground arith))
  ]
