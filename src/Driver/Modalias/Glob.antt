-- ===== src/Driver/Modalias/Glob.antt =====
-- What a pattern with stars means, and that `modalias_pattern_match` decides it.
use mission_os.Base.{
  ℕ, zero, suc, ◌+◌, ◌-◌, List, [], ◌∷◌, ◌++◌, some, Bool, true, false, ◌≡◌, refl, sym, ap, ◌∙◌,
  ◌↔◌, inl, inr, arith, any, length, take, drop, length-append, is_empty, append_assoc, append-nil,
  ◌==◌, Bool-cases, Option-cases, if◌then◌else◌,
}
use mission_os.Base.Text.{
  Text, codes, text_eq, text_eq_iff, text_eq_refl, starts_with, ends_with, split_first, split,
}
use mission_os.Driver.Modalias.{
  position, find_subslice, match_rest, match_first, modalias_pattern_match,
}
use mission_os.Driver.Modalias.Segments.{
  starts_with-append, starts_with-rest, drop-append, drop-append_le, position-least, floats,
  floats-skip, floats-none, floats-some, find_subslice-fits, match_rest-floats, drop-drop,
  length-starts_with,
}

-- The texts that a pattern stands for: a star stands for any bytes, any other byte for itself.
abbrev pub Glob : Text → Text → Type 0
Glob [] m = m ≡ []
Glob (c ∷ p) m =
    if c == b'*'
    then ((u : Text) × (v : Text) × (m ≡ u ++ v) × Glob p v)
    else ((v : Text) × (m ≡ c ∷ v) × Glob p v)

-- The same over the segments between the stars.
abbrev Fits : List Text → Text → Type 0
Fits [] m = m ≡ []
Fits (s ∷ []) m = m ≡ s
Fits (s ∷ t ∷ r) m = (u : Text) × (v : Text) × (m ≡ s ++ (u ++ v)) × Fits (t ∷ r) v

abbrev Floats : List Text → Text → Type 0
Floats r v = (u : Text) × (w : Text) × (v ≡ u ++ w) × Fits r w

take-append-drop : (n : ℕ) (s : Text) → take n s ++ drop n s ≡ s
take-append-drop zero s = refl
take-append-drop (suc n) [] = refl
take-append-drop (suc n) (c ∷ s) = ap (λ (t : Text). c ∷ t) (take-append-drop n s)

find-nonempty : (v s : Text) → is_empty s ≡ false → find_subslice v s ≡ position v s
unfolding find_subslice
find-nonempty v s h = rw h

is_empty-nil : (s : Text) → is_empty s ≡ true → s ≡ []
is_empty-nil [] h = refl
is_empty-nil (c ∷ s) h = cc

ends_with-split : (v s : Text) → ends_with v s ≡ true → v ≡ take (length v - length s) v ++ s
unfolding ends_with
ends_with-split v s h =
    let e : drop (length v - length s) v ≡ s =
      (text_eq_iff (drop (length v - length s) v) s).0 (ground arith) in
    sym (take-append-drop (length v - length s) v)
    ∙ ap (λ (t : Text). take (length v - length s) v ++ t) e

ends_with-append : (u s : Text) → ends_with (u ++ s) s ≡ true
unfolding ends_with
ends_with-append u s =
    let e : length (u ++ s) - length s ≡ length u = omega (arith, length-append u s) in
    ground (arith, length-append u s, e, drop-append u s, text_eq_refl s)

-- The search in the rest finds only what fits.
floats_sound : (s : Text) (r : List Text) (v : Text) → floats (s ∷ r) v ≡ true → Floats (s ∷ r) v
floats_sound s [] v h =
    unfold floats in
    elim (Bool-cases (is_empty s)) [
      | inl e ↦ (v, [], sym (append-nil v), sym (is_empty-nil s e))
      | inr e ↦ (take (length v - length s) v, s, ends_with-split v s (ground arith), refl)
    ]
floats_sound s (t ∷ r) v h = elim (Bool-cases (is_empty s)) [
  | inl e ↦
      let (u, w, p, q) = floats_sound t r v (sym (floats-skip s t r v e) ∙ h) in
      ([], v, refl, (u, w, rw (is_empty-nil s e) p, q))
  | inr e ↦ elim (Option-cases (find_subslice v s)) [
    | inl f ↦ cc (floats-none s t r v e f)
    | inr (k, f) ↦
        let (u, w, p, q) =
          floats_sound t r (drop (k + length s) v) (sym (floats-some s t r v k e f) ∙ h) in
        let there = starts_with-rest (drop k v) s (find_subslice-fits v s k f).0 in
        (
          take k v,
          drop k v,
          sym (take-append-drop k v),
          (u, w, there ∙ ap (λ (x : Text). s ++ x) (drop-drop k (length s) v ∙ p), q),
        )
  ]
]

-- It finds what fits: a window that is found first leaves more for the segments behind it.
floats_complete :
    (s : Text) (r : List Text) (u w : Text) → Fits (s ∷ r) w → floats (s ∷ r) (u ++ w) ≡ true
floats_complete s [] u w h = unfold floats in rw h (ground (arith, ends_with-append u s))
floats_complete s (t ∷ r) u w (x, y, p, q) = elim (Bool-cases (is_empty s)) [
  | inl e ↦
      floats-skip s t r (u ++ w) e
      ∙ rw (p, is_empty-nil s e, ← append_assoc u x y) (floats_complete t r (u ++ x) y q)
  | inr e ↦
      let (k, f, le) = position-least u s (x ++ y) in
      let g = find-nonempty (u ++ (s ++ (x ++ y))) s e ∙ f in
      let cut : drop (k + length s) (u ++ (s ++ (x ++ y)))
          ≡ (drop (k + length s) (u ++ s) ++ x) ++ y =
        ap (λ (z : Text). drop (k + length s) z) (sym (append_assoc u s (x ++ y)))
        ∙ drop-append_le (k + length s) (u ++ s) (x ++ y) (omega (arith, length-append u s))
        ∙ sym (append_assoc (drop (k + length s) (u ++ s)) x y) in
      rw p (
        floats-some s t r (u ++ (s ++ (x ++ y))) k e g
        ∙ rw cut (floats_complete t r (drop (k + length s) (u ++ s) ++ x) y q))
]

-- The segments, and the pattern that they come from, stand for the same texts.
Fits-cons :
    (c : ℕ) (s : Text) (r : List Text) (m : Text)
    → Fits ((c ∷ s) ∷ r) m ↔ ((v : Text) × (m ≡ c ∷ v) × Fits (s ∷ r) v)
Fits-cons c s [] m = (λ h. (s, h, refl), λ (v, p, q). rw p (ap (λ (t : Text). c ∷ t) q))
Fits-cons c s (t ∷ r) m = (
  λ (u, v, p, q). (s ++ (u ++ v), p, (u, v, refl, q)),
  λ (x, p, (u, v, e, q)). (u, v, p ∙ ap (λ (t : Text). c ∷ t) e, q),
)

Glob-Fits : (p m : Text) → Glob p m ↔ Fits (split b'*' p) m
unfolding split split_first
Glob-Fits [] m = (λ h. h, λ h. h)
Glob-Fits (c ∷ p) m = elim (Bool-cases (c == b'*')) [
  | inl e ↦ rw e (
    λ (u, v, a, g). (u, v, a, (Glob-Fits p v).0 g),
    λ (u, v, a, f). (u, v, a, (Glob-Fits p v).1 f),
  )
  | inr e ↦ rw e (
    λ (v, a, g). (Fits-cons c _ _ m).1 (v, a, (Glob-Fits p v).0 g),
    λ f. let (v, a, g) = (Fits-cons c _ _ m).0 f in (v, a, (Glob-Fits p v).1 g),
  )
]

match_first-empty :
    (m s t : Text) (r : List Text)
    → is_empty s ≡ true
    → match_first m (s ∷ t ∷ r) ≡ match_rest m 0 (t ∷ r)
unfolding match_first
match_first-empty m s t r e = rw e

match_first-prefix :
    (m s t : Text) (r : List Text)
    → is_empty s ≡ false
    → starts_with m s ≡ true
    → match_first m (s ∷ t ∷ r) ≡ match_rest m (length s) (t ∷ r)
unfolding match_first
match_first-prefix m s t r e h = rw (e, h)

match_first-no_prefix :
    (m s t : Text) (r : List Text)
    → is_empty s ≡ false
    → starts_with m s ≡ false
    → match_first m (s ∷ t ∷ r) ≡ some false
unfolding match_first
match_first-no_prefix m s t r e h = rw (e, h)

-- The whole loop, on at least two segments.
match_first-Fits :
    (m s t : Text) (r : List Text)
    → (b : Bool) × (match_first m (s ∷ t ∷ r) ≡ some b) × ((b ≡ true) ↔ Fits (s ∷ t ∷ r) m)
match_first-Fits m s t r = elim (Bool-cases (is_empty s)) [
  | inl e ↦ (
    floats (t ∷ r) m,
    match_first-empty m s t r e ∙ match_rest-floats m 0 (t ∷ r) (omega arith),
    (
      λ h. rw (is_empty-nil s e) (floats_sound t r m h),
      λ (u, v, p, q). rw (p, is_empty-nil s e) (floats_complete t r u v q),
    ),
  )
  | inr e ↦ elim (Bool-cases (starts_with m s)) [
    | inl h ↦ (
      floats (t ∷ r) (drop (length s) m),
      match_first-prefix m s t r e h
          ∙ match_rest-floats m (length s) (t ∷ r) (length-starts_with m s h),
      (
        λ f.
            let (u, v, p, q) = floats_sound t r (drop (length s) m) f in
            (u, v, starts_with-rest m s h ∙ ap (λ (x : Text). s ++ x) p, q),
        λ (u, v, p, q). rw (p, drop-append s (u ++ v)) (floats_complete t r u v q),
      ),
    )
    | inr h ↦ (
      false,
      match_first-no_prefix m s t r e h,
      (
        λ f. cc,
        λ (u, v, p, q). cc (starts_with-append s (u ++ v), ap (λ (x : Text). starts_with x s) p),
      ),
    )
  ]
]

abbrev pub has_star : Text → Bool
has_star = any (λ c. c == b'*')

split-starred :
    (p : Text) → has_star p ≡ true → (t : Text) × (r : List Text) × ((split_first b'*' p).1 ≡ t ∷ r)
unfolding split_first
split-starred [] h = cc
split-starred (c ∷ p) h = elim (Bool-cases (c == b'*')) [
  | inl e ↦ ((split_first b'*' p).0, (split_first b'*' p).1, rw e)
  | inr e ↦ let (t, r, q) = split-starred p (ground arith) in (t, r, rw e q)
]

match-starred :
    (p m : Text)
    → text_eq p (codes "*") ≡ false
    → (t : Text) (r : List Text) → (split_first b'*' p).1 ≡ t ∷ r
    → modalias_pattern_match p m ≡ match_first m (split b'*' p)
unfolding modalias_pattern_match
match-starred p m h t r e = rw (h, e)

-- For a pattern that holds a star, `modalias_pattern_match` returns (no slice is out of range), and
-- answers true exactly when the modalias is one of the texts that the pattern stands for.
pub modalias_pattern_match-Glob :
    (p m : Text)
    → has_star p ≡ true
    → (b : Bool) × (modalias_pattern_match p m ≡ some b) × ((b ≡ true) ↔ Glob p m)
modalias_pattern_match-Glob p m h = elim (Bool-cases (text_eq p (codes "*"))) [
  | inl e ↦ (
    true,
    (unfold modalias_pattern_match in rw e),
    (λ _. rw ((text_eq_iff p (codes "*")).0 e) (m, [], sym (append-nil m), refl), λ _. refl),
  )
  | inr e ↦
      let (t, r, q) = split-starred p h in
      let s = (split_first b'*' p).0 in
      let same : split b'*' p ≡ s ∷ t ∷ r = unfold split in ap (λ (l : List Text). s ∷ l) q in
      let (b, returns, iff) = match_first-Fits m s t r in
      (
        b,
        match-starred p m e t r q ∙ rw same returns,
        (λ y. (Glob-Fits p m).1 (rw same (iff.0 y)), λ g. iff.1 (rw same at ((Glob-Fits p m).0 g))),
      )
]

split-unstarred : (p : Text) → has_star p ≡ false → split_first b'*' p ≡ (p, [])
unfolding split_first
split-unstarred [] h = refl
split-unstarred (c ∷ p) h = ground (arith, split-unstarred p)

-- A pattern without a star is held to be matched by every modalias that begins with it; only the
-- empty pattern asks for equality.
pub modalias_pattern_match-literal :
    (p m : Text)
    → has_star p ≡ false
    → modalias_pattern_match p m ≡ some (if is_empty p then is_empty m else starts_with m p)
modalias_pattern_match-literal [] m h = unfold modalias_pattern_match in refl
modalias_pattern_match-literal (c ∷ p) m h =
    unfold modalias_pattern_match in ground (arith, split-unstarred (c ∷ p) h)
