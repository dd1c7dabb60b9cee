-- ===== src/Base/Text/Split.antt =====
-- Laws of `split`, `split_once` and `join`.
use Prim.Native.Nat.{ℕ}
use mathlib.Core.Path.{◌≡◌, refl, ap}
use mathlib.Core.Logic.{◌≢◌, inl, inr}
use mathlib.Core.Bool.{true, not}
use mathlib.Core.List.{List, [], ◌∷◌, ◌++◌}
use mathlib.Core.Option.{Option, none, some}
use native.Mathlib.Omega.{arith}
use mission_os.Base.Tests.{◌==◌, Bool-cases}
use mission_os.Base.Lists.{All, All-append, all}
use mission_os.Base.Text.{Text, split_first, split, split_once, join}

-- The byte does not stand in the text.
abbrev pub Lacks : ℕ → Text → Type 0
Lacks b = All (λ c. c ≢ b)

pub split_once-Lacks : (b : ℕ) (s : Text) → Lacks b s → split_once b s ≡ (s, none)
unfolding split_once
split_once-Lacks b [] h = refl
split_once-Lacks b (c ∷ s) h = ground (arith, split_once-Lacks b s h.1)

pub split_once-append : (b : ℕ) (s t : Text) → Lacks b s → split_once b (s ++ b ∷ t) ≡ (s, some t)
unfolding split_once
split_once-append b [] t h = ground arith
split_once-append b (c ∷ s) t h = ground (arith, split_once-append b s t h.1)

split_first-Lacks : (b : ℕ) (s : Text) → Lacks b s → split_first b s ≡ (s, [])
unfolding split_first
split_first-Lacks b [] h = refl
split_first-Lacks b (c ∷ s) h = ground (arith, split_first-Lacks b s h.1)

split_first-append : (b : ℕ) (s t : Text) → Lacks b s → split_first b (s ++ b ∷ t) ≡ (s, split b t)
unfolding split_first split
split_first-append b [] t h = ground arith
split_first-append b (c ∷ s) t h = ground (arith, split_first-append b s t h.1)

-- Parts that do not hold the separator are split again as they were joined.
pub split-join :
    (b : ℕ) (s : Text) (r : List Text)
    → All (Lacks b) (s ∷ r)
    → split b (join (b ∷ []) (s ∷ r)) ≡ s ∷ r
unfolding split join
split-join b s [] h = rw (split_first-Lacks b s h.0)
split-join b s (t ∷ r) h =
    rw (split_first-append b s (join (b ∷ []) (t ∷ r)) h.0)
      (ap (λ (l : List Text). s ∷ l) (split-join b t r h.1))

join-cons :
    (a : Text) (c : ℕ) (s : Text) (r : List Text) → join a ((c ∷ s) ∷ r) ≡ c ∷ join a (s ∷ r)
unfolding join
join-cons a c s [] = refl
join-cons a c s (t ∷ r) = refl

join-nil : (a : Text) (t : Text) (r : List Text) → join a ([] ∷ t ∷ r) ≡ a ++ join a (t ∷ r)
unfolding join
join-nil a t r = refl

join-one : (a : Text) (s : Text) → join a (s ∷ []) ≡ s
unfolding join
join-one a s = refl

-- The parts, joined again, are the text.
pub join-split : (b : ℕ) (s : Text) → join (b ∷ []) (split b s) ≡ s
unfolding split split_first
join-split b [] = join-one (b ∷ []) []
join-split b (c ∷ s) = elim (Bool-cases (c == b)) [
  | inl e ↦
      let same : c ≡ b = ground arith in
      rw (e, join-nil, same) (ap (λ (t : Text). b ∷ t) (join-split b s))
  | inr e ↦ rw (e, join-cons) (ap (λ (t : Text). c ∷ t) (join-split b s))
]

pub split-Lacks : (b : ℕ) (s : Text) → All (Lacks b) (split b s)
unfolding split split_first
split-Lacks b [] = (tt, tt)
split-Lacks b (c ∷ s) = ground (arith, split-Lacks b s)

pub Lacks-join :
    (a : ℕ) (b : ℕ) (r : List Text) → a ≢ b → All (Lacks b) r → Lacks b (join (a ∷ []) r)
unfolding join
Lacks-join a b [] n h = tt
Lacks-join a b (s ∷ []) n h = h.0
Lacks-join a b (s ∷ t ∷ r) n h =
    All-append (λ c. c ≢ b) s (a ∷ join (a ∷ []) (t ∷ r)) h.0 (n, Lacks-join a b (t ∷ r) n h.1)

abbrev pub LacksIfAny : ℕ → Option Text → Type 0
LacksIfAny b none = Unit
LacksIfAny b (some s) = Lacks b s

-- What stands before the first separator does not hold it.
pub split_once-left : (b : ℕ) (s : Text) → Lacks b (split_once b s).0
unfolding split_once
split_once-left b [] = tt
split_once-left b (c ∷ s) = ground (arith, split_once-left b s)

-- Splitting makes no byte appear.
pub split_once-keeps-Lacks :
    (a b : ℕ) (s : Text) → Lacks a s → Lacks a (split_once b s).0 × LacksIfAny a (split_once b s).1
unfolding split_once
split_once-keeps-Lacks a b [] h = (tt, tt)
split_once-keeps-Lacks a b (c ∷ s) h = ground (arith, split_once-keeps-Lacks a b s h.1)

pub split-keeps-Lacks : (a b : ℕ) (s : Text) → Lacks a s → All (Lacks a) (split b s)
unfolding split split_first
split-keeps-Lacks a b [] h = (tt, tt)
split-keeps-Lacks a b (c ∷ s) h = ground (arith, split-keeps-Lacks a b s h.1)

-- The test of all bytes.
pub all-Lacks : (b : ℕ) (s : Text) → all (λ c. not (c == b)) s ≡ true → Lacks b s
all-Lacks b [] h = tt
all-Lacks b (c ∷ s) h = ((ground (arith, h)), all-Lacks b s (ground (arith, h)))
