-- ===== src/Base/Lists.antt =====
-- Lists measured and searched with native numbers and Boolean tests.
use Prim.Native.Nat.{ℕ, zero, suc, ◌+◌}
use mathlib.Core.Path.{◌≡◌, subst, sym}
use mathlib.Core.Logic.{◌⊎◌, inl, inr, Lift}
use mathlib.Core.Bool.{Bool, true, false, ◌&&◌, ◌||◌}
use mathlib.Core.List.{List, [], ◌∷◌, ◌++◌}
use mathlib.Core.Option.{Option, none, some}
use native.Mathlib.Omega.{arith}
use mission_os.Base.Tests.{Bool-cases, if◌then◌else◌}

module _ {ℓ} {A : Type ℓ} where
  abbrev pub length : List A → ℕ
  length [] = 0
  length (x ∷ xs) = suc (length xs)

  abbrev pub get_or : List A → ℕ → A → A
  get_or [] i d = d
  get_or (x ∷ xs) zero d = x
  get_or (x ∷ xs) (suc i) d = get_or xs i d

  abbrev pub drop : ℕ → List A → List A
  drop zero xs = xs
  drop (suc n) [] = []
  drop (suc n) (x ∷ xs) = drop n xs

  abbrev pub take : ℕ → List A → List A
  take zero xs = []
  take (suc n) [] = []
  take (suc n) (x ∷ xs) = x ∷ take n xs

  -- Rust's `is_empty`.
  abbrev pub is_empty : List A → Bool
  is_empty [] = true
  is_empty (x ∷ xs) = false

  -- Rust's `iter().any`, `iter().all`, `iter().find` and `iter().filter`.
  abbrev pub any : (A → Bool) → List A → Bool
  any p [] = false
  any p (x ∷ xs) = p x || any p xs

  abbrev pub all : (A → Bool) → List A → Bool
  all p [] = true
  all p (x ∷ xs) = p x && all p xs

  abbrev pub find : (A → Bool) → List A → Option A
  find p [] = none
  find p (x ∷ xs) = if p x then some x else find p xs

  abbrev pub keep : (A → Bool) → List A → List A
  keep p [] = []
  keep p (x ∷ xs) = let rest = keep p xs in if p x then x ∷ rest else rest

  abbrev pub IsIn : A → List A → Type ℓ
  IsIn a [] = Lift {0, ℓ} ⊥
  IsIn a (x ∷ xs) = (a ≡ x) ⊎ IsIn a xs

  -- Every element has the property.
  abbrev pub All {κ} : (A → Type κ) → List A → Type κ
  All P [] = Unit
  All P (x ∷ xs) = P x × All P xs

  pub length-append : (xs ys : List A) → length (xs ++ ys) ≡ length xs + length ys
  length-append [] ys = omega arith
  length-append (x ∷ xs) ys = omega (arith, length-append xs ys)

  pub All-append {κ} : (P : A → Type κ) (xs ys : List A) → All P xs → All P ys → All P (xs ++ ys)
  All-append P [] ys hx hy = hy
  All-append P (x ∷ xs) ys hx hy = (hx.0, All-append P xs ys hx.1 hy)

module _ {ℓ κ} {A : Type ℓ} {B : Type κ} where
  -- Rust's `filter_map`.
  abbrev pub keep_map : (A → Option B) → List A → List B
  keep_map f [] = []
  keep_map f (x ∷ xs) = let rest = keep_map f xs in elim (f x) [ none ↦ rest | some b ↦ b ∷ rest ]

module _ {ℓ} {A : Type ℓ} where
  pub All-IsIn {κ} : (P : A → Type κ) (a : A) (xs : List A) → All P xs → IsIn a xs → P a
  All-IsIn P a [] h i = absurd (i.lower)
  All-IsIn P a (x ∷ xs) h (inl i) = subst P (sym i) h.0
  All-IsIn P a (x ∷ xs) h (inr i) = All-IsIn P a xs h.1 i

module _ {ℓ} {A : Type ℓ} (p : A → Bool) where
  -- The elements that are kept are those that pass the test.
  pub keep-IsIn : (a : A) (xs : List A) → IsIn a (keep p xs) → IsIn a xs × (p a ≡ true)
  keep-IsIn a [] h = absurd (h.lower)
  keep-IsIn a (x ∷ xs) h = elim (Bool-cases (p x)) [
    | inl k ↦ elim (subst (λ b. IsIn a (if b then x ∷ keep p xs else keep p xs)) k h) [
      | inl i ↦ (inl i, rw i k)
      | inr i ↦ let rest = keep-IsIn a xs i in (inr rest.0, rest.1)
    ]
    | inr k ↦
        let rest =
          keep-IsIn a xs (subst (λ b. IsIn a (if b then x ∷ keep p xs else keep p xs)) k h) in
        (inr rest.0, rest.1)
  ]

  pub keep-All {κ} :
      (P : A → Type κ) (xs : List A) → All P (keep p xs) → All (λ x. p x ≡ true → P x) xs
  keep-All P [] h = tt
  keep-All P (x ∷ xs) h = elim (Bool-cases (p x)) [
    | inl k ↦
        let kept = subst (λ b. All P (if b then x ∷ keep p xs else keep p xs)) k h in
        ((λ _. kept.0), keep-All P xs kept.1)
    | inr k ↦
        let kept = subst (λ b. All P (if b then x ∷ keep p xs else keep p xs)) k h in
        ((λ q. absurd (ground arith)), keep-All P xs kept)
  ]

  pub keep-none : (xs : List A) → keep p xs ≡ [] → All (λ x. p x ≡ false) xs
  keep-none [] h = tt
  keep-none (x ∷ xs) h = elim (Bool-cases (p x)) [
    | inl k ↦ absurd (ground arith)
    | inr k ↦ (k, keep-none xs (ground arith))
  ]
