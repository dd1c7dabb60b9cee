-- ===== src/Version/RoundTrip.antt =====
-- Printing and parsing of versions.
use mission_os.Base.{
  ℕ, ◌≤◌, List, [], ◌∷◌, ◌++◌, Option, none, some, ◌≡◌, ◌≢◌, refl, ◌∙◌, ◌⊎◌, inl, inr, arith, All,
  All-append, append_assoc, append-nil,
}
use mission_os.Base.Results.{ok}
use mission_os.Base.Text.{Text, codes, split, split_once, join}
use mission_os.Base.Text.Split.{
  Lacks, split_once-Lacks, split_once-append, split-join, join-split, split-Lacks, Lacks-join,
  LacksIfAny, split_once-left, split_once-keeps-Lacks, split-keeps-Lacks,
}
use mission_os.Base.Decimal.{u64_max, show}
use mission_os.Base.Decimal.RoundTrip.{
  IsDigit, parse_u64-show, show-IsDigit, show-ne-nil, parse_u64-le,
}
use mission_os.Version.{Version, identifiers, parse_core, parse, suffix, display}

-- Identifiers that a print shows apart: none holds a dot, and not all of the list is empty text.
pub record AreIdentifiers (ids : List Text) : Type 0 where
  pub no_dot : All (Lacks b'.') ids
  pub shown : (ids ≡ []) ⊎ (join (codes ".") ids ≢ [])

-- The versions that a string can denote.
pub record IsWritable (v : Version) : Type 0 where
  pub major_fits : v.major ≤ u64_max
  pub minor_fits : v.minor ≤ u64_max
  pub patch_fits : v.patch ≤ u64_max
  pub pre_ids : AreIdentifiers v.pre
  pub pre_no_plus : All (Lacks b'+') v.pre
  pub build_ids : AreIdentifiers v.build

-- `identifiers` reads back what `suffix` writes behind the separator.
identifiers-join :
    (s : Text) (r : List Text)
    → AreIdentifiers (s ∷ r)
    → identifiers (some (join (codes ".") (s ∷ r))) ≡ s ∷ r
identifiers-join s r h = go (join (codes ".") (s ∷ r)) refl
  where
    go : (t : Text) → join (codes ".") (s ∷ r) ≡ t → identifiers (some t) ≡ s ∷ r
    go [] e = elim h.shown [ inl p ↦ cc | inr n ↦ absurd (n e) ]
    go (c ∷ t) e = unfold identifiers in rw (← e) (split-join b'.' s r h.no_dot)

digits-Lacks : (b : ℕ) (s : Text) → (b ≤ 47) → All IsDigit s → Lacks b s
digits-Lacks b [] le h = tt
digits-Lacks b (c ∷ s) le h = ((omega (arith, h.0)), digits-Lacks b s le h.1)

abbrev core : Version → Text
core v = join (codes ".") (show v.major ∷ show v.minor ∷ show v.patch ∷ [])

numbers-Lacks :
    (b : ℕ) (v : Version) → b ≤ 47 → All (Lacks b) (show v.major ∷ show v.minor ∷ show v.patch ∷ [])
numbers-Lacks b v le = (
  digits-Lacks b (show v.major) le (show-IsDigit v.major),
  (
    digits-Lacks b (show v.minor) le (show-IsDigit v.minor),
    (digits-Lacks b (show v.patch) le (show-IsDigit v.patch), tt),
  ),
)

core-Lacks : (b : ℕ) (v : Version) → b ≤ 47 → b'.' ≢ b → Lacks b (core v)
core-Lacks b v le ne =
    Lacks-join b'.' b (show v.major ∷ show v.minor ∷ show v.patch ∷ []) ne (numbers-Lacks b v le)

suffix-Lacks :
    (a b : ℕ) (ids : List Text) → a ≢ b → b'.' ≢ b → All (Lacks b) ids → Lacks b (suffix a ids)
unfolding suffix
suffix-Lacks a b [] n m h = tt
suffix-Lacks a b (s ∷ r) n m h = (n, Lacks-join b'.' b (s ∷ r) m h)

-- Splitting at a separator takes a suffix off, and gives its identifiers back.
split-suffix :
    (b : ℕ) (s : Text) (ids : List Text)
    → Lacks b s
    → AreIdentifiers ids
    → ((split_once b (s ++ suffix b ids)).0 ≡ s)
      × (identifiers (split_once b (s ++ suffix b ids)).1 ≡ ids)
unfolding suffix
split-suffix b s [] h k =
    rw append-nil (rw (split_once-Lacks b s h) (refl, unfold identifiers in refl))
split-suffix b s (i ∷ r) h k =
    rw (split_once-append b s (join (codes ".") (i ∷ r)) h) (refl, identifiers-join i r k)

-- `parse` on a text that is not empty.
parse-parts :
    (s : Text)
    → s ≢ []
    → parse s
      ≡ parse_core s
          (identifiers (split_once b'-' (split_once b'+' s).0).1)
          (identifiers (split_once b'+' s).1)
          (split b'.' (split_once b'-' (split_once b'+' s).0).0)
unfolding parse
parse-parts [] h = absurd (h refl)
parse-parts (c ∷ s) h = refl

core-ne-nil : (v : Version) (t : Text) → core v ++ t ≢ []
core-ne-nil v t = go (show v.major) (show-ne-nil v.major)
  where
    go : (s : Text) → s ≢ [] → join (codes ".") (s ∷ show v.minor ∷ show v.patch ∷ []) ++ t ≢ []
    go [] h = absurd (h refl)
    go (c ∷ s) h = unfold join in λ e. cc

-- The numeric part is read back.
parse_core-core :
    (input : Text) (v : Version) (h : IsWritable v)
    → parse_core input v.pre v.build (split b'.' (core v)) ≡ ok v
unfolding parse_core
parse_core-core input v h =
    rw
      (split-join b'.' (show v.major) (show v.minor ∷ show v.patch ∷ [])
        (numbers-Lacks b'.' v (omega arith)))
      (rw (
        parse_u64-show v.major h.major_fits,
        parse_u64-show v.minor h.minor_fits,
        parse_u64-show v.patch h.patch_fits,
      ))

-- A version that a string can denote is read back from its print.
pub parse-display : (v : Version) → IsWritable v → parse (display v) ≡ ok v
unfolding display
parse-display v h =
    let left = core v ++ suffix b'-' v.pre in
    let lacks : Lacks b'+' left =
      All-append (λ c. c ≢ b'+') (core v) (suffix b'-' v.pre)
        (core-Lacks b'+' v (omega arith) (omega arith))
        (suffix-Lacks b'-' b'+' v.pre (omega arith) (omega arith) h.pre_no_plus) in
    let plus = split-suffix b'+' left v.build lacks h.build_ids in
    let dash =
      split-suffix b'-' (core v) v.pre (core-Lacks b'-' v (omega arith) (omega arith)) h.pre_ids in
    parse-parts (display v) (core-ne-nil v _)
    ∙ rw (← append_assoc) (rw (plus.0, plus.1, dash.0, dash.1) (parse_core-core _ v h))

identifiers-AreIdentifiers : (o : Option Text) → AreIdentifiers (identifiers o)
unfolding identifiers
identifiers-AreIdentifiers none = record { no_dot = tt; shown = inl refl }
identifiers-AreIdentifiers (some []) = record { no_dot = tt; shown = inl refl }
identifiers-AreIdentifiers (some (c ∷ s)) = record {
  no_dot = split-Lacks b'.' (c ∷ s);
  shown = inr (λ e. cc (join-split b'.' (c ∷ s)));
}

identifiers-Lacks : (b : ℕ) (o : Option Text) → LacksIfAny b o → All (Lacks b) (identifiers o)
unfolding identifiers
identifiers-Lacks b none h = tt
identifiers-Lacks b (some []) h = tt
identifiers-Lacks b (some (c ∷ s)) h = split-keeps-Lacks b b'.' (c ∷ s) h

-- What the numeric part gives, when it parses.
record Parsed (pre build : List Text) (v : Version) : Type 0 where
  same_pre : v.pre ≡ pre
  same_build : v.build ≡ build
  major_fits : v.major ≤ u64_max
  minor_fits : v.minor ≤ u64_max
  patch_fits : v.patch ≤ u64_max

parse_core-Parsed :
    (input : Text) (pre build parts : List Text) (v : Version)
    → parse_core input pre build parts ≡ ok v
    → Parsed pre build v
unfolding parse_core
parse_core-Parsed input pre build (a ∷ b ∷ c ∷ []) v h = ground (
  arith,
  parse_u64-le a {n = v.major},
  parse_u64-le b {n = v.minor},
  parse_u64-le c {n = v.patch},
)
parse_core-Parsed input pre build _ v h = cc

-- Every version that parses can be denoted by a string.
pub parse-IsWritable : (s : Text) (v : Version) → parse s ≡ ok v → IsWritable v
parse-IsWritable [] v h = unfold parse in cc
parse-IsWritable (c ∷ s) v h =
    let plus = split_once b'+' (c ∷ s) in
    let dash = split_once b'-' plus.0 in
    let p =
      parse_core-Parsed (c ∷ s) (identifiers dash.1) (identifiers plus.1) (split b'.' dash.0) v
        (unfold parse in h) in
    record {
      major_fits = p.major_fits;
      minor_fits = p.minor_fits;
      patch_fits = p.patch_fits;
      pre_ids = rw p.same_pre (identifiers-AreIdentifiers dash.1);
      pre_no_plus = rw p.same_pre (
          identifiers-Lacks b'+' dash.1
            (split_once-keeps-Lacks b'+' b'-' plus.0 (split_once-left b'+' (c ∷ s))).1);
      build_ids = rw p.same_build (identifiers-AreIdentifiers plus.1);
    }

-- Whatever text a version was parsed from, its print is parsed to the same version.
pub parse-display-parse : (s : Text) (v : Version) → parse s ≡ ok v → parse (display v) ≡ ok v
parse-display-parse s v h = parse-display v (parse-IsWritable s v h)
