-- ===== src/Driver/Matching/Ranking.antt =====
-- `find_matching_drivers` of services/driverd/src/matching.rs.
use mathlib.Core.List.{Perm}
use mathlib.Core.List.Perm
use mission_os.Base.{
  ℕ, ◌≤◌, List, [], ◌∷◌, Option, none, some, ◌≡◌, refl, All, keep, keep_map, map, ltb, arith,
  Bool-cases, inl, inr, if◌then◌else◌,
}
use mission_os.Driver.Inventory.{CompatibilityInfo, DriverEntry, HardwareDevice}
use mission_os.Driver.Matching.{SystemInfo, evaluate_compatibility}

abbrev pub Match : Type 0
Match = DriverEntry × CompatibilityInfo

unfoldable pub match_driver : SystemInfo → HardwareDevice → DriverEntry → Option Match
match_driver system device driver =
    let compat = evaluate_compatibility system driver device in
    if compat.compatible then some (driver, compat) else none

-- `sort_by` on the scores, the highest first; it is stable. No score is NaN.
unfoldable pub insert : Match → List Match → List Match
insert m [] = m ∷ []
insert m (n ∷ ns) =
    let rest = insert m ns in if ltb m.1.score n.1.score then n ∷ rest else m ∷ n ∷ ns

unfoldable pub sort_by_score : List Match → List Match
unfolding insert
sort_by_score [] = []
sort_by_score (m ∷ ms) = insert m (sort_by_score ms)

unfoldable pub find_matching_drivers : SystemInfo → HardwareDevice → List DriverEntry → List Match
unfolding match_driver sort_by_score
find_matching_drivers system device drivers =
    sort_by_score (keep_map (match_driver system device) drivers)

-- No score is above the one before it.
abbrev pub IsDescending : List Match → Type 0
IsDescending [] = Unit
IsDescending (m ∷ ms) = All (λ (n : Match). n.1.score ≤ m.1.score) ms × IsDescending ms

insert-All :
    (b : ℕ) (m : Match) (ms : List Match)
    → m.1.score ≤ b
    → All (λ (n : Match). n.1.score ≤ b) ms
    → All (λ (n : Match). n.1.score ≤ b) (insert m ms)
unfolding insert
insert-All b m [] h hs = (h, tt)
insert-All b m (n ∷ ns) h hs = elim (Bool-cases (ltb m.1.score n.1.score)) [
  | inl k ↦ rw (k, insert) (hs.0, insert-All b m ns h hs.1)
  | inr k ↦ rw (k, insert) (h, hs)
]

All-le :
    (a b : ℕ) (ms : List Match)
    → a ≤ b
    → All (λ (n : Match). n.1.score ≤ a) ms
    → All (λ (n : Match). n.1.score ≤ b) ms
All-le a b [] h hs = tt
All-le a b (m ∷ ms) h hs = ((let first = hs.0 in omega arith), All-le a b ms h hs.1)

insert-IsDescending : (m : Match) (ms : List Match) → IsDescending ms → IsDescending (insert m ms)
unfolding insert
insert-IsDescending m [] h = (tt, tt)
insert-IsDescending m (n ∷ ns) h = elim (Bool-cases (ltb m.1.score n.1.score)) [
  | inl k ↦
      rw (k, insert) (insert-All n.1.score m ns (ground arith) h.0, insert-IsDescending m ns h.1)
  | inr k ↦ rw (k, insert) (((ground arith), All-le n.1.score m.1.score ns (ground arith) h.0), h)
]

sort_by_score-IsDescending : (ms : List Match) → IsDescending (sort_by_score ms)
unfolding sort_by_score
sort_by_score-IsDescending [] = tt
sort_by_score-IsDescending (m ∷ ms) =
    insert-IsDescending m (sort_by_score ms) (sort_by_score-IsDescending ms)

insert-Perm : (m : Match) (ms : List Match) → Perm (insert m ms) (m ∷ ms)
unfolding insert
insert-Perm m [] = Perm.refl (m ∷ [])
insert-Perm m (n ∷ ns) = elim (Bool-cases (ltb m.1.score n.1.score)) [
  | inl k ↦ rw (k, insert) (Perm.trans (Perm.cons n (insert-Perm m ns)) (Perm.swap m n ns))
  | inr k ↦ rw (k, insert) (Perm.refl (m ∷ n ∷ ns))
]

sort_by_score-Perm : (ms : List Match) → Perm (sort_by_score ms) ms
unfolding sort_by_score
sort_by_score-Perm [] = Perm.refl []
sort_by_score-Perm (m ∷ ms) =
    Perm.trans (insert-Perm m (sort_by_score ms)) (Perm.cons m (sort_by_score-Perm ms))

-- Every driver with its evaluation, those that are compatible.
abbrev pub compatible_drivers : SystemInfo → HardwareDevice → List DriverEntry → List Match
compatible_drivers system device drivers =
    keep (λ (m : Match). m.1.compatible)
      (map (λ driver. (driver, evaluate_compatibility system driver device)) drivers)

matched-compatible :
    (system : SystemInfo) (device : HardwareDevice) (drivers : List DriverEntry)
    → keep_map (match_driver system device) drivers ≡ compatible_drivers system device drivers
unfolding match_driver
matched-compatible system device [] = refl
matched-compatible system device (d ∷ drivers) =
    elim (Bool-cases (evaluate_compatibility system d device).compatible) [
      | inl k ↦ ground (arith, matched-compatible system device drivers)
      | inr k ↦ ground (arith, matched-compatible system device drivers)
    ]

-- The best first, and no match lost or made up.
pub record IsRanking (system : SystemInfo) (device : HardwareDevice) (drivers : List DriverEntry)
    (ms : List Match) : Type 0 where
  pub is_descending : IsDescending ms
  pub is_complete : Perm ms (compatible_drivers system device drivers)

-- The drivers found for a device are those that are evaluated as compatible with it, each as often
-- as it is in the inventory, with the evaluation, and no score is above the one before it.
pub find_matching_drivers-IsRanking :
    (system : SystemInfo) (device : HardwareDevice) (drivers : List DriverEntry)
    → IsRanking system device drivers (find_matching_drivers system device drivers)
unfolding find_matching_drivers
find_matching_drivers-IsRanking system device drivers = record {
  is_descending = sort_by_score-IsDescending (keep_map (match_driver system device) drivers);
  is_complete =
      rw (← matched-compatible system device drivers)
        (sort_by_score-Perm (keep_map (match_driver system device) drivers));
}
