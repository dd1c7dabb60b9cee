-- ===== src/Base/Order.antt =====
-- Comparisons in the manner of Rust's `Ord::cmp`, their laws, and the ways the code builds one
-- comparison from others. Two values that compare as equal need not be equal.
use Prim.Native.Nat.{compare, Ordering}
use Prim.Native.Nat.Ordering.{lt, eq, gt}
use mathlib.Core.Path.{◌≡◌, refl}
use mathlib.Core.Logic.{◌≢◌}
use mathlib.Core.List.{List, [], ◌∷◌}
use mathlib.Core.Option.{Option, none, some}
use native.Mathlib.Omega.{arith}

-- Rust's `Ordering::reverse`.
abbrev pub swap : Ordering → Ordering
swap lt = gt
swap eq = eq
swap gt = lt

-- `match o { Equal => {} ord => return ord }`, then the next comparison.
abbrev pub then_cmp : Ordering → Ordering → Ordering
then_cmp eq second = second
then_cmp first _ = first

pub record IsPreorder {ℓ} {A : Type ℓ} (cmp : A → A → Ordering) : Type ℓ where
  pub swap_cmp : (a b : A) → cmp b a ≡ swap (cmp a b)
  pub lt_trans : (a b c : A) → cmp a b ≡ lt → cmp b c ≡ lt → cmp a c ≡ lt
  pub eq_left : (a b c : A) → cmp a b ≡ eq → cmp a c ≡ cmp b c

pub cmp_refl {ℓ} : {A : Type ℓ} {cmp : A → A → Ordering} → IsPreorder cmp → (a : A) → cmp a a ≡ eq
cmp_refl h a = ground (arith, h.swap_cmp a a)

pub compare-IsPreorder : IsPreorder compare
compare-IsPreorder = ground arith

module _ {ℓ κ} {A : Type ℓ} {B : Type κ} {cmp : B → B → Ordering} (h : IsPreorder cmp) where
  -- Values compared by a key.
  pub on-IsPreorder : (f : A → B) → IsPreorder (λ a b. cmp (f a) (f b))
  on-IsPreorder f = record {
    swap_cmp = λ a b. h.swap_cmp (f a) (f b);
    lt_trans = λ a b c. h.lt_trans (f a) (f b) (f c);
    eq_left = λ a b c. h.eq_left (f a) (f b) (f c);
  }

module _ {ℓ} {A : Type ℓ} {cmp : A → A → Ordering} (h : IsPreorder cmp) where
  pub swap-IsPreorder : IsPreorder (λ a b. swap (cmp a b))
  swap-IsPreorder = record {
    swap_cmp = λ a b. ground (arith, h.swap_cmp a b);
    lt_trans =
        λ a b c. ground (arith, h.swap_cmp a b, h.swap_cmp b c, h.swap_cmp a c, h.lt_trans c b a);
    eq_left = λ a b c. ground (arith, h.eq_left a b c);
  }

module _ {ℓ} {A : Type ℓ} {c d : A → A → Ordering} (h : IsPreorder c) (k : IsPreorder d) where
  pub then-IsPreorder : IsPreorder (λ a b. then_cmp (c a b) (d a b))
  then-IsPreorder = record {
    swap_cmp = λ x y. ground (arith, h.swap_cmp x y, k.swap_cmp x y);
    lt_trans = λ x y z. ground (
      arith,
      h.eq_left x y z,
      h.lt_trans x y z,
      h.eq_left z y x,
      h.swap_cmp x y,
      h.swap_cmp y z,
      h.swap_cmp x z,
      k.lt_trans x y z,
      h.eq_left y z x,
    );
    eq_left = λ x y z. ground (arith, h.eq_left x y z, k.eq_left x y z);
  }

module _ {ℓ} {A : Type ℓ} (cmp : A → A → Ordering) where
  -- `None` is below every `Some`, as in the derived order of `Option`.
  abbrev pub cmp_option : Option A → Option A → Ordering
  cmp_option none none = eq
  cmp_option none (some b) = lt
  cmp_option (some a) none = gt
  cmp_option (some a) (some b) = cmp a b

  -- The first difference decides, then the length.
  abbrev pub cmp_list : List A → List A → Ordering
  cmp_list [] [] = eq
  cmp_list [] (y ∷ ys) = lt
  cmp_list (x ∷ xs) [] = gt
  cmp_list (x ∷ xs) (y ∷ ys) = then_cmp (cmp x y) (cmp_list xs ys)

module _ {ℓ} {A : Type ℓ} {cmp : A → A → Ordering} (h : IsPreorder cmp) where
  cmp_option-swap : (a b : Option A) → cmp_option cmp b a ≡ swap (cmp_option cmp a b)
  cmp_option-swap none none = refl
  cmp_option-swap none (some b) = refl
  cmp_option-swap (some a) none = refl
  cmp_option-swap (some a) (some b) = h.swap_cmp a b

  cmp_option_trans :
      (a b c : Option A)
      → cmp_option cmp a b ≡ lt
      → cmp_option cmp b c ≡ lt
      → cmp_option cmp a c ≡ lt
  cmp_option_trans none none c p q = cc
  cmp_option_trans none (some b) none p q = cc
  cmp_option_trans none (some b) (some c) p q = refl
  cmp_option_trans (some a) none c p q = cc
  cmp_option_trans (some a) (some b) none p q = cc
  cmp_option_trans (some a) (some b) (some c) p q = h.lt_trans a b c p q

  cmp_option-eq :
      (a b c : Option A) → cmp_option cmp a b ≡ eq → cmp_option cmp a c ≡ cmp_option cmp b c
  cmp_option-eq none none c p = refl
  cmp_option-eq none (some b) c p = cc
  cmp_option-eq (some a) none c p = cc
  cmp_option-eq (some a) (some b) none p = refl
  cmp_option-eq (some a) (some b) (some c) p = h.eq_left a b c p

  pub cmp_option-IsPreorder : IsPreorder (cmp_option cmp)
  cmp_option-IsPreorder = record {
    swap_cmp = cmp_option-swap;
    lt_trans = cmp_option_trans;
    eq_left = cmp_option-eq;
  }

  cmp_list-swap : (a b : List A) → cmp_list cmp b a ≡ swap (cmp_list cmp a b)
  cmp_list-swap [] [] = refl
  cmp_list-swap [] (y ∷ ys) = refl
  cmp_list-swap (x ∷ xs) [] = refl
  cmp_list-swap (x ∷ xs) (y ∷ ys) = ground (arith, h.swap_cmp x y, cmp_list-swap xs ys)

  cmp_list_trans :
      (a b c : List A) → cmp_list cmp a b ≡ lt → cmp_list cmp b c ≡ lt → cmp_list cmp a c ≡ lt
  cmp_list_trans [] [] c p q = cc
  cmp_list_trans [] (y ∷ ys) [] p q = cc
  cmp_list_trans [] (y ∷ ys) (z ∷ zs) p q = refl
  cmp_list_trans (x ∷ xs) [] c p q = cc
  cmp_list_trans (x ∷ xs) (y ∷ ys) [] p q = cc
  cmp_list_trans (x ∷ xs) (y ∷ ys) (z ∷ zs) p q = ground (
    arith,
    h.eq_left x y z,
    h.lt_trans x y z,
    h.eq_left z y x,
    h.swap_cmp x y,
    h.swap_cmp y z,
    h.swap_cmp x z,
    h.eq_left y z x,
    cmp_list_trans xs ys zs,
  )

  cmp_list-eq : (a b c : List A) → cmp_list cmp a b ≡ eq → cmp_list cmp a c ≡ cmp_list cmp b c
  cmp_list-eq [] [] c p = refl
  cmp_list-eq [] (y ∷ ys) c p = cc
  cmp_list-eq (x ∷ xs) [] c p = cc
  cmp_list-eq (x ∷ xs) (y ∷ ys) [] p = refl
  cmp_list-eq (x ∷ xs) (y ∷ ys) (z ∷ zs) p = ground (arith, h.eq_left x y z, cmp_list-eq xs ys zs)

  pub cmp_list-IsPreorder : IsPreorder (cmp_list cmp)
  cmp_list-IsPreorder = record {
    swap_cmp = cmp_list-swap;
    lt_trans = cmp_list_trans;
    eq_left = cmp_list-eq;
  }

-- Neither is above the other, or the first is below.
abbrev pub IsAtMost {ℓ} : {A : Type ℓ} → (A → A → Ordering) → A → A → Type 0
IsAtMost cmp a b = cmp a b ≢ gt

module _ {ℓ} {A : Type ℓ} {cmp : A → A → Ordering} (h : IsPreorder cmp) where
  pub IsAtMost-refl : (a : A) → IsAtMost cmp a a
  IsAtMost-refl a k = ground (arith, cmp_refl h a)

  pub IsAtMost-trans : (a b c : A) → IsAtMost cmp a b → IsAtMost cmp b c → IsAtMost cmp a c
  IsAtMost-trans a b c p q k = ground (
    arith,
    h.eq_left a b c,
    h.lt_trans a b c,
    h.eq_left c b a,
    h.swap_cmp a b,
    h.swap_cmp b c,
    h.swap_cmp a c,
    h.eq_left b c a,
    p,
    q,
  )

  -- Of two that compare as equal, or the first as above, the second is at most the first.
  pub IsAtMost-swap : (a b : A) → cmp a b ≡ gt → IsAtMost cmp b a
  IsAtMost-swap a b k m = ground (arith, h.swap_cmp a b)
