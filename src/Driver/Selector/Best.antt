-- ===== src/Driver/Selector/Best.antt =====
-- What `select_best_candidate` of services/driverd/src/selector.rs selects.
use Prim.Native.Nat.Ordering.{lt, eq, gt}
use mission_os.Base.{
  ℕ, ◌<◌, Bool, ap, arith, compare, Ordering, List, [], ◌∷◌, Option, none, some, true, false, ◌≡◌,
  refl, sym, ◌∙◌, ◌⊎◌, subst, inl, inr, IsIn, All, keep, keep-IsIn, keep-All, keep-none,
  if◌then◌else◌,
}
use mission_os.Base.Order.{
  swap, then_cmp, cmp_option, IsPreorder, IsAtMost, IsAtMost-refl, IsAtMost-trans, IsAtMost-swap,
  compare-IsPreorder, on-IsPreorder, swap-IsPreorder, then-IsPreorder, cmp_option-IsPreorder,
  cmp_list-IsPreorder,
}
use mission_os.Base.Text.{text_cmp}
use mission_os.Driver.Inventory.Versions
use mission_os.Driver.Inventory.Versions.Order.{driver_cmp-IsPreorder}
use mission_os.Driver.Selector.{
  DriverSelector, SelectionCandidate, candidate_cmp, candidate_version, manifest_trust_score,
  source_priority, later_max, max_by, is_qualified, best_of, select_best_candidate,
}

pub candidate_cmp-IsPreorder : (s : DriverSelector) → IsPreorder (candidate_cmp s)
unfolding candidate_cmp
candidate_cmp-IsPreorder s =
    then-IsPreorder
      (on-IsPreorder compare-IsPreorder (λ (c : SelectionCandidate). if c.trusted then 1 else 0))
      (then-IsPreorder
        (on-IsPreorder compare-IsPreorder
          (λ (c : SelectionCandidate). manifest_trust_score s c.source_id))
        (then-IsPreorder (on-IsPreorder compare-IsPreorder (λ (c : SelectionCandidate). c.score)) (
          then-IsPreorder
            (on-IsPreorder (swap-IsPreorder compare-IsPreorder)
              (λ (c : SelectionCandidate). source_priority s c.source_id))
            (then-IsPreorder
              (on-IsPreorder (cmp_option-IsPreorder driver_cmp-IsPreorder) candidate_version)
              (on-IsPreorder (cmp_list-IsPreorder compare-IsPreorder)
                (λ (c : SelectionCandidate). c.driver.id.name))))))

Ordering-cases : (o : Ordering) → (o ≡ gt) ⊎ ((o ≡ lt) ⊎ (o ≡ eq))
Ordering-cases lt = inr (inl refl)
Ordering-cases eq = inr (inr refl)
Ordering-cases gt = inl refl

module _ {cmp : SelectionCandidate → SelectionCandidate → Ordering} (h : IsPreorder cmp) where
  later_max-above :
      (best c : SelectionCandidate)
      → IsAtMost cmp best (later_max cmp best c)
        × IsAtMost cmp c (later_max cmp best c)
        × ((later_max cmp best c ≡ best) ⊎ (later_max cmp best c ≡ c))
  unfolding later_max
  later_max-above best c = elim (Ordering-cases (cmp best c)) [
    | inl k ↦ rw (k, later_max) (IsAtMost-refl h best, IsAtMost-swap h best c k, inl refl)
    | inr (inl k) ↦ rw (k, later_max) ((λ m. cc), IsAtMost-refl h c, inr refl)
    | inr (inr k) ↦ rw (k, later_max) ((λ m. cc), IsAtMost-refl h c, inr refl)
  ]

  -- The maximum is at least what it starts from and all others, and is one of them.
  max_by-above :
      (best : SelectionCandidate) (cs : List SelectionCandidate)
      → IsAtMost cmp best (max_by cmp best cs)
        × All (λ d. IsAtMost cmp d (max_by cmp best cs)) cs
        × IsIn (max_by cmp best cs) (best ∷ cs)
  unfolding max_by
  max_by-above best [] = (IsAtMost-refl h best, tt, inl refl)
  max_by-above best (c ∷ cs) =
      let next = later_max cmp best c in
      let (first, second, one) = later_max-above best c in
      let (above, others, listed) = max_by-above next cs in
      let top = max_by cmp next cs in
      (
        IsAtMost-trans h best next top first above,
        (IsAtMost-trans h c next top second above, others),
        elim listed [
          | inr k ↦ inr (inr k)
          | inl k ↦ elim one [ inl i ↦ inl (k ∙ i) | inr i ↦ inr (inl (k ∙ i)) ]
        ],
      )

-- What the selection looks at of a candidate, the most important first. A lower number of a source's
-- priority is a higher priority.
pub data Outranks (s : DriverSelector) (d c : SelectionCandidate) : Type 0 where
  by_trust : d.trusted ≡ true → c.trusted ≡ false → Outranks s d c
  by_manifest :
      d.trusted ≡ c.trusted
      → manifest_trust_score s c.source_id < manifest_trust_score s d.source_id
      → Outranks s d c
  by_score :
      d.trusted ≡ c.trusted
      → manifest_trust_score s d.source_id ≡ manifest_trust_score s c.source_id
      → c.score < d.score
      → Outranks s d c
  by_priority :
      d.trusted ≡ c.trusted
      → manifest_trust_score s d.source_id ≡ manifest_trust_score s c.source_id
      → d.score ≡ c.score
      → source_priority s d.source_id < source_priority s c.source_id
      → Outranks s d c
  by_version :
      d.trusted ≡ c.trusted
      → manifest_trust_score s d.source_id ≡ manifest_trust_score s c.source_id
      → d.score ≡ c.score
      → source_priority s d.source_id ≡ source_priority s c.source_id
      → cmp_option Versions.cmp (candidate_version d) (candidate_version c) ≡ gt
      → Outranks s d c
  by_name :
      d.trusted ≡ c.trusted
      → manifest_trust_score s d.source_id ≡ manifest_trust_score s c.source_id
      → d.score ≡ c.score
      → source_priority s d.source_id ≡ source_priority s c.source_id
      → cmp_option Versions.cmp (candidate_version d) (candidate_version c) ≡ eq
      → text_cmp d.driver.id.name c.driver.id.name ≡ gt
      → Outranks s d c

compare-eq : (a b : ℕ) → a ≡ b → compare a b ≡ eq
compare-eq a b h = ground arith

compare-lt : (a b : ℕ) → a < b → compare a b ≡ lt
compare-lt a b h = ground arith

compare-gt : (a b : ℕ) → b < a → compare a b ≡ gt
compare-gt a b h = ground arith

then_gt : (first second : Ordering) → first ≡ gt → then_cmp first second ≡ gt
then_gt first second h = rw h refl

then_after : (first second : Ordering) → first ≡ eq → second ≡ gt → then_cmp first second ≡ gt
then_after first second h k = rw h k

trust_eq :
    (d c : SelectionCandidate)
    → d.trusted ≡ c.trusted
    → compare (if d.trusted then 1 else 0) (if c.trusted then 1 else 0) ≡ eq
trust_eq d c t = compare-eq _ _ (ap (λ (b : Bool). if b then 1 else 0) t)

swap-eq : (a b : ℕ) → a ≡ b → swap (compare a b) ≡ eq
swap-eq a b h = ap swap (compare-eq a b h)

swap-gt : (a b : ℕ) → a < b → swap (compare a b) ≡ gt
swap-gt a b h = ap swap (compare-lt a b h)

Outranks-gt :
    (s : DriverSelector) (d c : SelectionCandidate) → Outranks s d c → candidate_cmp s d c ≡ gt
unfolding candidate_cmp
Outranks-gt s d c (by_trust t u) = rw (t, u, candidate_cmp) refl
Outranks-gt s d c (by_manifest t m) =
    then_after _ _ (trust_eq d c t) (then_gt _ _ (compare-gt _ _ m))
Outranks-gt s d c (by_score t m h) =
    then_after _ _ (trust_eq d c t)
      (then_after _ _ (compare-eq _ _ m) (then_gt _ _ (compare-gt _ _ h)))
Outranks-gt s d c (by_priority t m h p) = then_after _ _ (trust_eq d c t) (
    then_after _ _ (compare-eq _ _ m)
      (then_after _ _ (compare-eq _ _ h) (then_gt _ _ (swap-gt _ _ p))))
Outranks-gt s d c (by_version t m h p v) = then_after _ _ (trust_eq d c t) (
    then_after _ _ (compare-eq _ _ m)
      (then_after _ _ (compare-eq _ _ h) (then_after _ _ (swap-eq _ _ p) (then_gt _ _ v))))
Outranks-gt s d c (by_name t m h p v n) = then_after _ _ (trust_eq d c t) (
    then_after _ _ (compare-eq _ _ m)
      (then_after _ _ (compare-eq _ _ h) (then_after _ _ (swap-eq _ _ p) (then_after _ _ v n))))

-- A candidate that is listed and not rejected, and that no other such outranks.
pub record IsBest (s : DriverSelector) (candidates : List SelectionCandidate)
    (c : SelectionCandidate) : Type 0 where
  pub is_listed : IsIn c candidates
  pub is_accepted : is_qualified c ≡ true
  pub is_greatest : All (λ d. is_qualified d ≡ true → ¬ Outranks s d c) candidates

abbrev pub IsSelection :
    DriverSelector → List SelectionCandidate → Option SelectionCandidate → Type 0
IsSelection s candidates none = All (λ c. is_qualified c ≡ false) candidates
IsSelection s candidates (some c) = IsBest s candidates c

not_outranked-All :
    (s : DriverSelector) (top : SelectionCandidate) (cs : List SelectionCandidate)
    → All (λ d. IsAtMost (candidate_cmp s) d top) cs
    → All (λ d. ¬ Outranks s d top) cs
not_outranked-All s top [] h = tt
not_outranked-All s top (d ∷ cs) h =
    ((λ o. h.0 (Outranks-gt s d top o)), not_outranked-All s top cs h.1)

best_of-IsSelection :
    (s : DriverSelector) (candidates qualified : List SelectionCandidate)
    → keep is_qualified candidates ≡ qualified
    → IsSelection s candidates (best_of s qualified)
unfolding best_of
best_of-IsSelection s candidates [] k = keep-none is_qualified candidates k
best_of-IsSelection s candidates (c ∷ cs) k =
    let cmp = candidate_cmp s in
    let top = max_by cmp c cs in
    let (above, others, listed) = max_by-above (candidate_cmp-IsPreorder s) c cs in
    let kept = keep-IsIn is_qualified top candidates (subst (IsIn top) (sym k) listed) in
    record {
      is_listed = kept.0;
      is_accepted = kept.1;
      is_greatest =
          keep-All is_qualified (λ d. ¬ Outranks s d top) candidates
            (subst (All (λ d. ¬ Outranks s d top)) (sym k)
              (not_outranked-All s top (c ∷ cs) (above, others)));
    }

pub select_best_candidate-IsSelection :
    (s : DriverSelector) (candidates : List SelectionCandidate)
    → IsSelection s candidates (select_best_candidate s candidates)
unfolding select_best_candidate
select_best_candidate-IsSelection s candidates =
    best_of-IsSelection s candidates (keep is_qualified candidates) refl
