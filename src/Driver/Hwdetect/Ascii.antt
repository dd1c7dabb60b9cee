-- ===== src/Driver/Hwdetect/Ascii.antt =====
-- The slices of services/driverd/src/hwdetect.rs on ASCII, of which a modalias of the kernel is.
use mission_os.Base.{
  ℕ, ◌≤◌, [], ◌∷◌, Option, none, some, true, false, ◌≡◌, subst, Option-cases, ◌⊎◌, inl, inr, All,
  drop, length, zero, suc, refl, leb, ◌+◌, if◌then◌else◌, all, arith, Bool-cases,
}
use mission_os.Base.Hex.{continues}
use mission_os.Base.Results.{Result, ok, err, Result-cases}
use mission_os.Base.Text.{Text, codes, starts_with, is_space, trim_start, trim_end, trim}
use mission_os.Driver.Repository.{Panic}
use mission_os.Driver.Hwdetect.Modalias.{
  found, is_inside, first_four, digits_after, extract_vendor_from_modalias,
  extract_device_from_modalias,
}

abbrev pub IsAscii : Text → Type 0
IsAscii = All (λ c. c ≤ 127)

abbrev pub AsciiOption : Option Text → Type 0
AsciiOption none = Unit
AsciiOption (some s) = IsAscii s

abbrev pub IsOk : {A : Type 0} → Result Panic A → Type 0
IsOk (ok a) = Unit
IsOk (err e) = ⊥

pub all-IsAscii : (s : Text) → all (λ c. leb c 127) s ≡ true → IsAscii s
all-IsAscii [] h = tt
all-IsAscii (c ∷ s) h = (ground arith, all-IsAscii s (ground arith))

trim_start-IsAscii : (s : Text) → IsAscii s → IsAscii (trim_start s)
unfolding trim_start
trim_start-IsAscii [] h = tt
trim_start-IsAscii (c ∷ s) h = elim (Bool-cases (is_space c)) [
  | inl k ↦ rw k (trim_start-IsAscii s h.1)
  | inr k ↦ rw k h
]

drop-IsAscii : (n : ℕ) (s : Text) → IsAscii s → IsAscii (drop n s)
drop-IsAscii zero s h = h
drop-IsAscii (suc n) [] h = tt
drop-IsAscii (suc n) (c ∷ s) h = drop-IsAscii n s h.1

found-IsAscii : (s p : Text) → IsAscii s → AsciiOption (found s p)
unfolding found
found-IsAscii [] p h = tt
found-IsAscii (c ∷ s) p h = elim (Bool-cases (starts_with (c ∷ s) p)) [
  | inl k ↦ rw (k, AsciiOption) h
  | inr k ↦ rw (k, AsciiOption) (found-IsAscii s p h.1)
]

is_inside-IsAscii : (s : Text) → IsAscii s → is_inside s ≡ false
unfolding is_inside continues
is_inside-IsAscii [] h = refl
is_inside-IsAscii (c ∷ s) h = let low = h.0 in ground arith

first_four-IsOk : (s : Text) → IsAscii s → 4 ≤ length s → IsOk (first_four s)
unfolding first_four
first_four-IsOk [] h k = omega arith
first_four-IsOk (a ∷ []) h k = omega arith
first_four-IsOk (a ∷ b ∷ []) h k = omega arith
first_four-IsOk (a ∷ b ∷ c ∷ []) h k = omega arith
first_four-IsOk (a ∷ b ∷ c ∷ d ∷ s) h k =
    rw (is_inside-IsAscii (a ∷ []) (h.0, tt), is_inside-IsAscii s h.1.1.1.1, IsOk) tt

-- One byte in front of a text whose end is trimmed.
end_case :
    (c : ℕ) (t : Text)
    → c ≤ 127
    → IsAscii t
    → IsAscii (elim t as (λ _. Text) [ [] ↦ if is_space c then [] else c ∷ [] | d ∷ u ↦ c ∷ d ∷ u ])
end_case c [] h k = elim (Bool-cases (is_space c)) [ inl e ↦ rw e tt | inr e ↦ rw e (h, tt) ]
end_case c (d ∷ u) h k = (h, k)

trim_end-IsAscii : (s : Text) → IsAscii s → IsAscii (trim_end s)
unfolding trim_end
trim_end-IsAscii [] h = tt
trim_end-IsAscii (c ∷ s) h = end_case c (trim_end s) h.0 (trim_end-IsAscii s h.1)

pub trim-IsAscii : (s : Text) → IsAscii s → IsAscii (trim s)
unfolding trim
trim-IsAscii s h = trim_end-IsAscii (trim_start s) (trim_start-IsAscii s h)

length-drop-le : (n m : ℕ) (s : Text) → n + m ≤ length s → m ≤ length (drop n s)
length-drop-le zero m s h = omega (arith, h)
length-drop-le (suc n) m [] h = omega (arith, h)
length-drop-le (suc n) m (c ∷ s) h = length-drop-le n m s (omega (arith, h))

digits_after-IsOk : (n : ℕ) (s : Text) → IsAscii s → IsOk (digits_after n s)
unfolding digits_after
digits_after-IsOk n s h = elim (Bool-cases (leb (n + 4) (length s))) [
  | inl k ↦ elim (Result-cases (first_four (drop n s))) [
    | inl (t, e) ↦ rw (k, e, IsOk) tt
    | inr (p, e) ↦ absurd (
        subst IsOk e
          (first_four-IsOk (drop n s) (drop-IsAscii n s h) (length-drop-le n 4 s (ground arith))))
  ]
  | inr k ↦ rw (k, IsOk) tt
]

-- The answer of the search, as a value.
found-cases :
    (s p : Text)
    → IsAscii s
    → (found s p ≡ none) ⊎ ((r : Text) × ((found s p ≡ some r) × IsAscii r))
found-cases s p h = elim (Option-cases (found s p)) [
  | inl e ↦ inl e
  | inr (r, e) ↦ inr (r, (e, subst AsciiOption e (found-IsAscii s p h)))
]

pub extract_vendor-IsOk : (s : Text) → IsAscii s → IsOk (extract_vendor_from_modalias s)
unfolding extract_vendor_from_modalias
extract_vendor-IsOk s h = elim (found-cases s (codes "v0000") h) [
  | inl e ↦ elim (found-cases s (codes "v") h) [
    | inl k ↦ rw (e, k, IsOk) tt
    | inr (r, (k, a)) ↦ rw (e, k, IsOk) (digits_after-IsOk 1 r a)
  ]
  | inr (r, (e, a)) ↦ elim (Result-cases (digits_after 5 r)) [
    | inl (some id, k) ↦ rw (e, k, IsOk) tt
    | inl (none, k) ↦ rw (e, k, IsOk) tt
    | inr (p, k) ↦ absurd (subst IsOk k (digits_after-IsOk 5 r a))
  ]
]

pub extract_device-IsOk : (s : Text) → IsAscii s → IsOk (extract_device_from_modalias s)
unfolding extract_device_from_modalias
extract_device-IsOk s h = elim (found-cases s (codes "d0000") h) [
  | inl e ↦ elim (found-cases s (codes "p") h) [
    | inl k ↦ rw (e, k, IsOk) tt
    | inr (r, (k, a)) ↦ rw (e, k, IsOk) (digits_after-IsOk 1 r a)
  ]
  | inr (r, (e, a)) ↦ elim (Bool-cases (leb 9 (length r))) [
    | inr k ↦ rw (e, k, IsOk) tt
    | inl k ↦ elim (Result-cases (first_four (drop 5 r))) [
      | inl (t, l) ↦ rw (e, k, l, IsOk) tt
      | inr (p, l) ↦ absurd (
          subst IsOk l
            (first_four-IsOk (drop 5 r) (drop-IsAscii 5 r a) (length-drop-le 5 4 r (ground arith))))
    ]
  ]
]
