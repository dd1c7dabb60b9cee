-- ===== src/Base/Decimal/RoundTrip.antt =====
-- Every `u64` is read back from its decimal print.
use Prim.Native.Nat.{ℕ, zero, suc, ◌+◌, ◌-◌, ◌*◌, ◌/◌, ◌%◌, ◌≤◌}
use mathlib.Core.Path.{◌≡◌, refl, ◌∙◌}
use mathlib.Core.Logic.{◌≢◌, inl, inr}
use mathlib.Core.List.{[], ◌∷◌}
use native.Mathlib.Omega.{arith}
use mission_os.Base.Tests.{◌==◌, Bool-cases}
use mission_os.Base.Lists.{All}
use mission_os.Base.Results.{ok}
use mission_os.Base.Text.{Text}
use mission_os.Base.Text.Split.{Lacks}
use mission_os.Base.Decimal.{u64_max, parse_digits, parse_u64, emit, show}

abbrev pub IsDigit : ℕ → Type 0
IsDigit c = (48 ≤ c) × (c ≤ 57)

parse_digits-last :
    (n : ℕ) (out : Text)
    → n ≤ u64_max
    → parse_digits (n / 10) ((48 + n % 10) ∷ out) ≡ parse_digits n out
unfolding parse_digits
parse_digits-last n out h = ground arith

parse_digits-emit :
    (f n : ℕ) (out : Text)
    → n ≤ f
    → n ≤ u64_max
    → parse_digits 0 (emit f n out) ≡ parse_digits n out
unfolding emit
parse_digits-emit zero n out h fits = let e : n ≡ 0 = omega arith in rw e
parse_digits-emit (suc f) n out h fits = elim (Bool-cases (n == 0)) [
  | inl e ↦ let z : n ≡ 0 = ground arith in rw (z) refl
  | inr e ↦ rw e (
      parse_digits-emit f (n / 10) ((48 + n % 10) ∷ out) (ground arith) (omega arith)
      ∙ parse_digits-last n out fits)
]

emit-IsDigit : (f n : ℕ) (out : Text) → All IsDigit out → All IsDigit (emit f n out)
unfolding emit
emit-IsDigit zero n out h = h
emit-IsDigit (suc f) n out h =
    ground (arith, emit-IsDigit f (n / 10) ((48 + n % 10) ∷ out) ((omega arith, omega arith), h))

-- The print has only digits.
pub show-IsDigit : (n : ℕ) → All IsDigit (show n)
unfolding show
show-IsDigit n = ground (arith, emit-IsDigit n n [] tt)

emit-ne-nil : (f n : ℕ) (out : Text) → out ≢ [] → emit f n out ≢ []
unfolding emit
emit-ne-nil zero n out h = h
emit-ne-nil (suc f) n out h = ground (arith, emit-ne-nil f (n / 10) ((48 + n % 10) ∷ out) (λ e. cc))

pub show-ne-nil : (n : ℕ) → show n ≢ []
unfolding show
show-ne-nil zero = λ e. cc
show-ne-nil (suc n) =
    unfold emit in ground (arith, emit-ne-nil n (suc n / 10) ((48 + suc n % 10) ∷ []) (λ e. cc))

parse_digits-show : (n : ℕ) → n ≤ u64_max → parse_digits 0 (show n) ≡ ok n
unfolding show parse_digits
parse_digits-show n h = ground (arith, parse_digits-emit n n [] (omega arith) h)

parse_u64-digits : (s : Text) → s ≢ [] → All IsDigit s → parse_u64 s ≡ parse_digits 0 s
unfolding parse_u64
parse_u64-digits [] h d = absurd (h refl)
parse_u64-digits (c ∷ []) h d = ground arith
parse_u64-digits (c ∷ e ∷ s) h d = ground arith

pub parse_u64-show : (n : ℕ) → n ≤ u64_max → parse_u64 (show n) ≡ ok n
parse_u64-show n h =
    parse_u64-digits (show n) (show-ne-nil n) (show-IsDigit n) ∙ parse_digits-show n h

parse_digits-le :
    (acc : ℕ) (s : Text) {n : ℕ} → acc ≤ u64_max → parse_digits acc s ≡ ok n → n ≤ u64_max
unfolding parse_digits
parse_digits-le acc [] h e = ground arith
parse_digits-le acc (c ∷ s) {n} h e =
    ground (arith, parse_digits-le (acc * 10 + (c - 48)) s {n = n})

-- What parses is a `u64`.
pub parse_u64-le : (s : Text) {n : ℕ} → parse_u64 s ≡ ok n → n ≤ u64_max
unfolding parse_u64
parse_u64-le [] e = cc
parse_u64-le (c ∷ []) {n} e = ground (arith, parse_digits-le 0 (c ∷ []) {n = n})
parse_u64-le (c ∷ d ∷ s) {n} e =
    ground (arith, parse_digits-le 0 (c ∷ d ∷ s) {n = n}, parse_digits-le 0 (d ∷ s) {n = n})

-- Digits are no byte below them.
pub digits-Lacks : (b : ℕ) (s : Text) → b ≤ 47 → All IsDigit s → Lacks b s
digits-Lacks b [] h k = tt
digits-Lacks b (c ∷ s) h k = let first = k.0 in ((omega (arith, first, h)), digits-Lacks b s h k.1)
