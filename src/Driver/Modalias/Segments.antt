-- ===== src/Driver/Modalias/Segments.antt =====
-- The loop over the segments of a pattern, read as a search in what is left of the modalias.
use mission_os.Base.{
  ℕ, zero, suc, ◌+◌, ◌-◌, ◌≤◌, ◌<◌, List, [], ◌∷◌, ◌++◌, none, some, Bool, true, false, ◌||◌, ◌≡◌,
  refl, sym, ◌∙◌, inl, inr, arith, length, drop, is_empty, Bool-cases, Option-cases, if◌then◌else◌,
}
use mission_os.Base.Text.{Text, starts_with, ends_with}
use mission_os.Driver.Modalias.{position, find_subslice, slice_from, match_rest}

pub starts_with-append : (s t : Text) → starts_with (s ++ t) s ≡ true
unfolding starts_with
starts_with-append [] t = refl
starts_with-append (c ∷ s) t = ground (arith, starts_with-append s t)

pub starts_with-rest : (m s : Text) → starts_with m s ≡ true → m ≡ s ++ drop (length s) m
unfolding starts_with
starts_with-rest m [] h = refl
starts_with-rest [] (p ∷ s) h = cc
starts_with-rest (c ∷ m) (p ∷ s) h = ground (arith, starts_with-rest m s)

pub drop-append : (s t : Text) → drop (length s) (s ++ t) ≡ t
drop-append [] t = refl
drop-append (c ∷ s) t = drop-append s t

pub drop-append_le : (k : ℕ) (s t : Text) → k ≤ length s → drop k (s ++ t) ≡ drop k s ++ t
drop-append_le zero s t h = refl
drop-append_le (suc k) [] t h = absurd (omega arith)
drop-append_le (suc k) (c ∷ s) t h = drop-append_le k s t (omega arith)

drop-nil : (i : ℕ) → drop {A = ℕ} i [] ≡ []
drop-nil zero = refl
drop-nil (suc i) = refl

pub drop-drop : (i j : ℕ) (s : Text) → drop j (drop i s) ≡ drop (i + j) s
drop-drop zero j s = let e : 0 + j ≡ j = omega arith in rw e
drop-drop (suc i) j [] = drop-nil j ∙ sym (drop-nil (suc i + j))
drop-drop (suc i) j (c ∷ s) =
    let e : suc i + j ≡ suc (i + j) = omega arith in rw e (drop-drop i j s)

length-drop : (i : ℕ) (s : Text) → length (drop i s) ≡ length s - i
length-drop zero s = omega arith
length-drop (suc i) [] = omega arith
length-drop (suc i) (c ∷ s) = omega (arith, length-drop i s)

-- A window that is found stands there, and none stands before it.
position-found :
    (v s : Text) (k : ℕ)
    → position v s ≡ some k
    → (starts_with (drop k v) s ≡ true) × (k ≤ length v)
unfolding position
position-found [] s zero h = ground arith
position-found [] s (suc k) h = ground arith
position-found (c ∷ v) s zero h = ground arith
position-found (c ∷ v) s (suc k) h = ground (arith, position-found v s k)

position-here : (v s : Text) → starts_with v s ≡ true → position v s ≡ some 0
unfolding position
position-here [] s h = ground arith
position-here (c ∷ v) s h = ground arith

position-later :
    (c : ℕ) (v s : Text) {k : ℕ}
    → starts_with (c ∷ v) s ≡ false
    → position v s ≡ some k
    → position (c ∷ v) s ≡ some (k + 1)
unfolding position
position-later c v s h e = rw (h, e)

pub position-least :
    (u s w : Text) → (k : ℕ) × (position (u ++ (s ++ w)) s ≡ some k) × (k ≤ length u)
position-least [] s w = (0, position-here (s ++ w) s (starts_with-append s w), omega arith)
position-least (c ∷ u) s w = elim (Bool-cases (starts_with (c ∷ (u ++ (s ++ w))) s)) [
  | inl here ↦ (0, position-here (c ∷ (u ++ (s ++ w))) s here, omega arith)
  | inr not_here ↦
      let (k, found, le) = position-least u s w in
      (k + 1, position-later c _ s not_here found, omega arith)
]

-- The text that is left, once the first segment has been passed.
unfoldable pub floats : List Text → Text → Bool
floats [] v = true
floats (s ∷ []) v = is_empty s || ends_with v s
floats (s ∷ t ∷ r) v =
    let skip = floats (t ∷ r) v in
    let further = λ (k : ℕ). floats (t ∷ r) (drop (k + length s) v) in
    if is_empty s then skip else elim (find_subslice v s) [ none ↦ false | some k ↦ further k ]

pub length-starts_with : (m s : Text) → starts_with m s ≡ true → length s ≤ length m
unfolding starts_with
length-starts_with m [] h = omega arith
length-starts_with [] (p ∷ s) h = cc
length-starts_with (c ∷ m) (p ∷ s) h = ground (arith, length-starts_with m s)

-- A segment that is found ends inside the text.
pub find_subslice-fits :
    (v s : Text) (k : ℕ)
    → find_subslice v s ≡ some k
    → (starts_with (drop k v) s ≡ true) × (k + length s ≤ length v)
unfolding find_subslice
find_subslice-fits v [] k h = ground (arith, starts_with-append [] v)
find_subslice-fits v (c ∷ s) k h =
    ground
      (arith, position-found v (c ∷ s) k, length-starts_with (drop k v) (c ∷ s), length-drop k v)

ends_with-drop :
    (m s : Text) (pos : ℕ) → pos + length s ≤ length m → ends_with (drop pos m) s ≡ ends_with m s
unfolding ends_with
ends_with-drop m s pos h =
    let e : pos + (length m - pos - length s) ≡ length m - length s = omega arith in
    ground (arith, length-drop pos m, drop-drop pos (length m - pos - length s) m)

ends_with-long : (m s : Text) → length m < length s → ends_with m s ≡ false
unfolding ends_with
ends_with-long m s h = ground arith

-- A segment at the end of the modalias that does not reach back over `pos`.
last-floats :
    (m s : Text) (pos : ℕ)
    → pos ≤ length m
    → match_rest m pos (s ∷ []) ≡ some (floats (s ∷ []) (drop pos m))
unfolding match_rest floats
last-floats m s pos h = ground (
  arith,
  ends_with-drop m s pos,
  ends_with-long m s,
  ends_with-long (drop pos m) s,
  length-drop pos m,
)

match_rest-skip :
    (m : Text) (pos : ℕ) (s t : Text) (r : List Text)
    → is_empty s ≡ true
    → match_rest m pos (s ∷ t ∷ r) ≡ match_rest m pos (t ∷ r)
unfolding match_rest
match_rest-skip m pos s t r h = rw h

match_rest-none :
    (m : Text) (pos : ℕ) (s t : Text) (r : List Text)
    → pos ≤ length m
    → is_empty s ≡ false
    → find_subslice (drop pos m) s ≡ none
    → match_rest m pos (s ∷ t ∷ r) ≡ some false
unfolding match_rest slice_from
match_rest-none m pos s t r h e f = ground arith

match_rest-some :
    (m : Text) (pos : ℕ) (s t : Text) (r : List Text) (k : ℕ)
    → pos ≤ length m
    → is_empty s ≡ false
    → find_subslice (drop pos m) s ≡ some k
    → match_rest m pos (s ∷ t ∷ r) ≡ match_rest m (pos + (k + length s)) (t ∷ r)
unfolding match_rest slice_from
match_rest-some m pos s t r k h e f = ground arith

pub floats-skip :
    (s t : Text) (r : List Text) (v : Text)
    → is_empty s ≡ true
    → floats (s ∷ t ∷ r) v ≡ floats (t ∷ r) v
unfolding floats
floats-skip s t r v h = rw h

pub floats-none :
    (s t : Text) (r : List Text) (v : Text)
    → is_empty s ≡ false
    → find_subslice v s ≡ none
    → floats (s ∷ t ∷ r) v ≡ false
unfolding floats
floats-none s t r v h f = rw (h, f)

pub floats-some :
    (s t : Text) (r : List Text) (v : Text) (k : ℕ)
    → is_empty s ≡ false
    → find_subslice v s ≡ some k
    → floats (s ∷ t ∷ r) v ≡ floats (t ∷ r) (drop (k + length s) v)
unfolding floats
floats-some s t r v k h f = rw (h, f)

-- The loop never panics, and answers as the search in what is left.
pub match_rest-floats :
    (m : Text) (pos : ℕ) (r : List Text)
    → pos ≤ length m
    → match_rest m pos r ≡ some (floats r (drop pos m))
match_rest-floats m pos [] h = unfold match_rest floats in refl
match_rest-floats m pos (s ∷ []) h = last-floats m s pos h
match_rest-floats m pos (s ∷ t ∷ r) h = elim (Bool-cases (is_empty s)) [
  | inl e ↦
      rw (match_rest-skip m pos s t r e, floats-skip s t r (drop pos m) e)
        (match_rest-floats m pos (t ∷ r) h)
  | inr e ↦ elim (Option-cases (find_subslice (drop pos m) s)) [
    | inl f ↦ rw (match_rest-none m pos s t r h e f, floats-none s t r (drop pos m) e f) refl
    | inr (k, f) ↦
        let fits = find_subslice-fits (drop pos m) s k f in
        rw
          (
            match_rest-some m pos s t r k h e f,
            floats-some s t r (drop pos m) k e f,
            drop-drop pos (k + length s) m,
          )
          (match_rest-floats m (pos + (k + length s)) (t ∷ r)
            (omega (arith, fits.1, length-drop pos m)))
  ]
]
