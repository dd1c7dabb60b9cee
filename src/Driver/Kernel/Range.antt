-- ===== src/Driver/Kernel/Range.antt =====
-- The loops compare the kernel, cut or filled with zeros to the length of the bound, with the bound.
use Prim.Native.Nat.Ordering.{lt, gt}
use mission_os.Base.{ℕ, zero, suc, compare, List, [], ◌∷◌, ◌≡◌, ◌↔◌, true, arith, get_or, length}
use mission_os.Base.Order.{cmp_list}
use mission_os.Driver.Kernel.{too_old, too_new}

-- `n` components from the `i`th on; a missing one is 0.
abbrev pub components : List ℕ → ℕ → ℕ → List ℕ
components sys i zero = []
components sys i (suc n) = get_or sys i 0 ∷ components sys (suc i) n

-- The loop over the minimum finds the kernel too old exactly when the kernel's components, from the
-- `i`th on and as many as the bound has, are below the bound in the lexicographic order.
too_old_iff :
    (sys : List ℕ) (i : ℕ) (parts : List ℕ)
    → (too_old sys i parts ≡ true) ↔ (cmp_list compare (components sys i (length parts)) parts ≡ lt)
unfolding too_old
too_old_iff sys i [] = (λ h. cc, λ h. cc)
too_old_iff sys i (m ∷ parts) = ground (arith, too_old_iff sys (suc i) parts)

-- The loop over the maximum finds the kernel too new exactly when the kernel's components, from the
-- `i`th on and as many as the bound has, are above the bound in the lexicographic order.
too_new_iff :
    (sys : List ℕ) (i : ℕ) (parts : List ℕ)
    → (too_new sys i parts ≡ true) ↔ (cmp_list compare (components sys i (length parts)) parts ≡ gt)
unfolding too_new
too_new_iff sys i [] = (λ h. cc, λ h. cc)
too_new_iff sys i (m ∷ parts) = ground (arith, too_new_iff sys (suc i) parts)

-- The two loops are comparisons in the lexicographic order of the kernel's components, from the `i`th
-- on and as many as the bound has, with the bound: the kernel is too old exactly when they are below
-- it, and too new exactly when they are above.
pub range_iff :
    (sys : List ℕ) (i : ℕ) (parts : List ℕ)
    → ((too_old sys i parts ≡ true)
        ↔ (cmp_list compare (components sys i (length parts)) parts ≡ lt))
      × ((too_new sys i parts ≡ true)
          ↔ (cmp_list compare (components sys i (length parts)) parts ≡ gt))
range_iff sys i parts = (too_old_iff sys i parts, too_new_iff sys i parts)
