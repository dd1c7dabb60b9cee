-- ===== src/Driver/Verification.antt =====
-- `SignatureVerifier::verify_package` of services/driverd/src/verification.rs. The hash map of keys
-- is the list of its values, in the order in which it is walked.
pub mod Trusted
pub mod Keys
use mission_os.Base.{
  List, [], ◌∷◌, ◌++◌, Option, none, some, Bool, true, false, keep, find, any, is_empty, is_some,
  not, if◌then◌else◌,
}
use mission_os.Base.Results.{Result, ok, err}
use mission_os.Base.Text.{Text, codes, text_eq}
use mission_os.Driver.Audit.{EventCategory, EventSeverity, driver_verification, info, warning}
use mission_os.Driver.System.{System}
use mission_os.Driver.World.{World, M, ◌>>=◌, ◌>>◌, pure, gets, audit}

pub data VerificationOutcome : Type 0 where
  valid invalid missing_signature untrusted_key : VerificationOutcome
  error : Text → VerificationOutcome

unfoldable pub is_valid : VerificationOutcome → Bool
is_valid valid = true
is_valid _ = false

pub record SignatureCheckResult : Type 0 where
  pub outcome : VerificationOutcome
  pub key_id : Option Text
  pub description : Text

pub record TrustedKey : Type 0 where
  pub id : Text
  pub name : Text
  pub public_key : Text
  pub enabled : Bool

pub record SignatureVerifier : Type 0 where
  pub keys : List TrustedKey
  pub allow_unsigned : Bool

unfoldable pub enabled_keys : SignatureVerifier → List TrustedKey
enabled_keys v = keep (λ (k : TrustedKey). k.enabled) v.keys

unfoldable pub outcome_severity : VerificationOutcome → EventSeverity
outcome_severity valid = info
outcome_severity (error e) = EventSeverity.error
outcome_severity _ = warning

unfoldable pub outcome_action : VerificationOutcome → Text
outcome_action valid = codes "verification_passed"
outcome_action invalid = codes "verification_failed_invalid"
outcome_action missing_signature = codes "verification_failed_missing_signature"
outcome_action untrusted_key = codes "verification_failed_untrusted_key"
outcome_action (error e) = codes "verification_error"

-- The key that the loop stops at.
unfoldable pub verifying_key :
    (Text → Text → Text → Bool) → List TrustedKey → Text → Text → Option TrustedKey
verifying_key verify keys content signature =
    find (λ (k : TrustedKey). verify k.public_key content signature) keys

-- What is answered when no enabled key verifies the signature.
unfoldable pub unverified : SignatureVerifier → Option Text → SignatureCheckResult
unverified v none = record {
  outcome = invalid;
  key_id = none;
  description =
      codes "Signature does not match any trusted key or package content has been tampered with";
}
unverified v (some key_id) =
    if any (λ (k : TrustedKey). text_eq k.id key_id) v.keys
    then record {
      outcome = invalid;
      key_id = some key_id;
      description =
          codes
            "Signature does not match any trusted key or package content has been tampered with";
    }
    else record {
      outcome = untrusted_key;
      key_id = some key_id;
      description = codes "Signing key '" ++ (key_id ++ codes "' is not in the trusted key store");
    }

-- The decision, on what reading the package gives.
unfoldable pub verify_content :
    (Text → Text → Text → Bool)
    → SignatureVerifier
    → Result Text Text
    → Text
    → Option Text
    → SignatureCheckResult
unfolding verifying_key unverified enabled_keys
verify_content verify v (err e) signature key_id = record {
  outcome = error (codes "cannot read package file: " ++ e);
  key_id = none;
  description = codes "Failed to read package file for verification";
}
verify_content verify v (ok content) signature key_id =
    elim (verifying_key verify (enabled_keys v) content signature) [
      | some key ↦ record {
        outcome = valid;
        key_id = some key.id;
        description =
            codes "Signature verified with trusted key '"
            ++ (key.id ++ (codes "' (" ++ (key.name ++ codes ")")));
      }
      | none ↦ unverified v key_id
    ]

unfoldable pub check_package :
    (Text → Text → Text → Bool)
    → SignatureVerifier
    → Result Text Text
    → Text
    → Option Text
    → SignatureCheckResult
unfolding verify_content
check_package verify v pkg signature key_id =
    if is_empty signature
    then (if not v.allow_unsigned
        then record {
          outcome = missing_signature;
          key_id = none;
          description =
              codes "No signature found on driver package and unsigned drivers are not permitted";
        }
        else record {
          outcome = valid;
          key_id = none;
          description =
              codes "No signature present "
              ++ ((0xe2 ∷ 0x80 ∷ 0x94 ∷ [])
                  ++ codes " accepted per policy (unsigned drivers allowed in development mode)");
        })
    else verify_content verify v pkg signature key_id

module _ {S : System} where
  unfoldable pub audit_verification : SignatureCheckResult → M S (Unit {0})
  unfolding outcome_severity outcome_action
  audit_verification result =
      audit driver_verification (outcome_severity result.outcome) (outcome_action result.outcome)
        (codes "verification_service") result.description

  unfoldable pub verify_package :
      SignatureVerifier → Text → Text → Option Text → M S SignatureCheckResult
  unfolding check_package audit_verification
  verify_package v package_path signature key_id = do
    pkg ← gets (λ w. S.read_file w.os package_path)
    let result = check_package S.signature_valid v pkg signature key_id
    audit_verification result
    pure result
