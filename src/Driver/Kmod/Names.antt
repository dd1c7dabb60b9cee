-- ===== src/Driver/Kmod/Names.antt =====
-- The names that services/driverd/src/kmod.rs lets through to the kernel.
use mission_os.Base.{
  ℕ, List, ◌≢◌, any, ◌==◌, ◌∷◌, sym, ◌∙◌, ◌≤◌, [], none, Bool, false, ◌≡◌, refl, ◌⊎◌, inl, inr, ◌↔◌,
  All, find, length, is_empty, arith, Bool-cases,
}
use mission_os.Base.Results.{ok, err, Result-cases}
use mission_os.Base.Text.{Text}
use mission_os.Driver.Error.{ServiceError}
use mission_os.Driver.System.{System}
use mission_os.Driver.World.{World}
use mission_os.Driver.Kmod.{is_forbidden, validate_module_name, load_module, unload_module}

-- The bytes of `/ \ . NUL ; | & $` and the backquote.
abbrev pub special_bytes : List ℕ
special_bytes = 47 ∷ 92 ∷ 46 ∷ 0 ∷ 59 ∷ 124 ∷ 38 ∷ 36 ∷ 96 ∷ []

-- Not empty, not longer than 128 bytes, and without a byte of `special_bytes`, so that it is a single
-- component of a path and not `.` or `..`. Other bytes that mean something to a shell may stand in it.
pub record IsSafe (name : Text) : Type 0 where
  pub is_there : is_empty name ≡ false
  pub is_short : length name ≤ 128
  pub has_no_special : All (λ c. All (λ b. c ≢ b) special_bytes) name

any-none : (c : ℕ) (bytes : List ℕ) → (any (λ b. c == b) bytes ≡ false) ↔ All (λ b. c ≢ b) bytes
any-none c [] = (λ _. tt, λ _. refl)
any-none c (b ∷ bytes) = (
  (λ h. ((λ k. ground arith), (any-none c bytes).0 (ground arith))),
  (λ h. (let first = h.0 in let rest = (any-none c bytes).1 h.1 in ground arith)),
)

is_forbidden_iff : (c : ℕ) → (is_forbidden c ≡ false) ↔ All (λ b. c ≢ b) special_bytes
unfolding is_forbidden
is_forbidden_iff c =
    let same : is_forbidden c ≡ any (λ b. c == b) special_bytes = ground arith in
    (
      (λ h. (any-none c special_bytes).0 (sym same ∙ h)),
      (λ h. same ∙ (any-none c special_bytes).1 h),
    )

find-none :
    (name : Text) → (find is_forbidden name ≡ none) ↔ All (λ c. All (λ b. c ≢ b) special_bytes) name
find-none [] = (λ _. tt, λ _. refl)
find-none (c ∷ name) = elim (Bool-cases (is_forbidden c)) [
  | inl h ↦ (
    (λ k. absurd (ground arith)),
    (λ k. (let first = (is_forbidden_iff c).1 k.0 in ground arith)),
  )
  | inr h ↦ (
    (λ k. ((is_forbidden_iff c).0 h, (find-none name).0 (ground arith))),
    (λ k. (let rest = (find-none name).1 k.1 in ground arith)),
  )
]

-- The validation accepts exactly the safe names.
validate_module_name-IsSafe : (name : Text) → (validate_module_name name ≡ ok tt) ↔ IsSafe name
unfolding validate_module_name
validate_module_name-IsSafe name = (
  (λ h. record {
    is_there = ground arith;
    is_short = ground arith;
    has_no_special = (find-none name).0 (ground arith);
  }),
  (λ h.
      let there = h.is_there in
      let short = h.is_short in let plain = (find-none name).1 h.has_no_special in ground arith),
)

-- A module is loaded or unloaded only under a name of 1 to 128 bytes without `/`, a backslash, a dot, a
-- zero, `;`, `|`, `&`, `$` and a backquote: under any other the world stays as it is, and the answer is
-- an error.
pub load_module-IsSafe :
    {S : System} (name path : Text) (force : Bool) (w : World S)
    → IsSafe name
      ⊎ ((e : ServiceError) × (load_module name path w ≡ (w, err e))
          × (unload_module name force w ≡ (w, err e)))
unfolding load_module unload_module
load_module-IsSafe name path force w = elim (Result-cases (validate_module_name name)) [
  | inl (u, h) ↦ inl ((validate_module_name-IsSafe name).0 h)
  | inr (e, h) ↦ inr (e, rw (h, load_module), rw (h, unload_module))
]
