-- ===== src/Driver/Download/Range.antt =====
-- The `Content-Range` header of services/driverd/src/download.rs.
use mission_os.Base.{
  ℕ, ◌≤◌, [], ◌∷◌, ◌++◌, false, ◌≡◌, ◌≢◌, ◌↔◌, refl, All, All-append, append_assoc, arith,
}
use mission_os.Base.Results.{ok}
use mission_os.Base.Text.{
  Text, codes, is_space, trim_start, trim_end, trim, starts_with, split, join,
}
use mission_os.Base.Text.Split.{Lacks, split-join}
use mission_os.Base.Hex.{IsPlain, trim_end_plain}
use mission_os.Base.Decimal.{show, u64_max}
use mission_os.Base.Decimal.RoundTrip.{
  IsDigit, digits-Lacks, show-IsDigit, show-ne-nil, parse_u64-show,
}
use mission_os.Driver.Download.{
  parse_part, check_range, parse_range, parse_parts, validate_content_range,
}

-- A header as servers write it.
abbrev pub range_text : ℕ → ℕ → Text
range_text start end = show start ++ (codes "-" ++ show end)

abbrev pub range_header : ℕ → ℕ → ℕ → Text
range_header start end total = codes "bytes " ++ (range_text start end ++ (codes "/" ++ show total))

digits-IsPlain : (s : Text) → All IsDigit s → All IsPlain s
digits-IsPlain [] k = tt
digits-IsPlain (c ∷ s) k =
    let first = k.0 in ((omega (arith, first), omega (arith, first)), digits-IsPlain s k.1)

trim_end-append :
    (s : Text) (c : ℕ) (t : Text) → trim_end (c ∷ t) ≡ c ∷ t → trim_end (s ++ c ∷ t) ≡ s ++ c ∷ t
unfolding trim_end
trim_end-append [] c t h = h
trim_end-append (x ∷ []) c t h = rw (h, trim_end) refl
trim_end-append (x ∷ y ∷ s) c t h = rw (trim_end-append (y ∷ s) c t h, trim_end) refl

trim-header :
    (s t : Text)
    → t ≢ []
    → All IsDigit t
    → trim (codes "bytes " ++ (s ++ (codes "/" ++ t))) ≡ codes "bytes " ++ (s ++ (codes "/" ++ t))
unfolding trim trim_start is_space
trim-header s [] n h = absurd (n refl)
trim-header s (c ∷ t) n h = rw (← append_assoc s (codes "/") (c ∷ t)) (
    trim_end-append (codes "bytes " ++ (s ++ codes "/")) c t
      (trim_end_plain (c ∷ t) (digits-IsPlain (c ∷ t) h)))

no_star : (s u : Text) → s ≢ [] → All IsDigit s → starts_with (s ++ u) (codes "*/") ≡ false
unfolding starts_with
no_star [] u h k = absurd (h refl)
no_star (c ∷ s) u h k = let first = k.0 in ground arith

range-Lacks : (start end : ℕ) → Lacks b'/' (range_text start end)
range-Lacks start end =
    let first = digits-Lacks b'/' (show start) (omega arith) (show-IsDigit start) in
    let second = digits-Lacks b'/' (show end) (omega arith) (show-IsDigit end) in
    All-append (λ c. c ≢ b'/') (show start) (codes "-" ++ show end) first ((omega arith), second)

header-parts :
    (start end total : ℕ)
    → split b'/' (range_text start end ++ (codes "/" ++ show total))
      ≡ range_text start end ∷ show total ∷ []
unfolding join
header-parts start end total =
    split-join b'/' (range_text start end) (show total ∷ []) (
      range-Lacks start end,
      (digits-Lacks b'/' (show total) (omega arith) (show-IsDigit total), tt),
    )

range-parts : (start end : ℕ) → split b'-' (range_text start end) ≡ show start ∷ show end ∷ []
unfolding join
range-parts start end = split-join b'-' (show start) (show end ∷ []) (
  digits-Lacks b'-' (show start) (omega arith) (show-IsDigit start),
  (digits-Lacks b'-' (show end) (omega arith) (show-IsDigit end), tt),
)

parse_part-show : (name : Text) (n : ℕ) → n ≤ u64_max → parse_part name (show n) ≡ ok n
unfolding parse_part
parse_part-show name n h = rw (parse_u64-show n h) refl

parse_parts-print :
    (header : Text) (expected start end total : ℕ)
    → start ≤ u64_max
    → end ≤ u64_max
    → total ≤ u64_max
    → parse_parts header expected (range_text start end ∷ show total ∷ [])
      ≡ check_range expected start end total
unfolding parse_parts parse_range
parse_parts-print header expected start end total hs he ht =
    rw
      (
        parse_part-show (codes "total") total ht,
        range-parts start end,
        parse_part-show (codes "start") start hs,
        parse_part-show (codes "end") end he,
      )
      refl

validate-check_range :
    (expected start end total : ℕ)
    → start ≤ u64_max
    → end ≤ u64_max
    → total ≤ u64_max
    → validate_content_range (range_header start end total) expected
      ≡ check_range expected start end total
unfolding validate_content_range starts_with
validate-check_range expected start end total hs he ht =
    let rest = codes "-" ++ (show end ++ (codes "/" ++ show total)) in
    let trimmed =
      trim-header (range_text start end) (show total) (show-ne-nil total) (show-IsDigit total) in
    let star : starts_with (range_text start end ++ (codes "/" ++ show total)) (codes "*/")
        ≡ false =
      rw (append_assoc (show start) (codes "-" ++ show end) (codes "/" ++ show total))
        (no_star (show start) rest (show-ne-nil start) (show-IsDigit start)) in
    rw (trimmed, star, header-parts start end total, validate_content_range)
      (parse_parts-print (range_header start end total) expected start end total hs he ht)

check_range_iff :
    (expected start end total : ℕ)
    → (check_range expected start end total ≡ ok (start, end, total))
      ↔ ((start ≡ expected) × (start ≤ end))
unfolding check_range
check_range_iff expected start end total = (λ h. ground arith, λ h. ground (arith, h))

-- A header that is printed as the standard says, of numbers below 2 ^ 64, is accepted with these
-- numbers exactly if the range starts at the offset that was asked for and does not end before it.
pub validate_content_range-print :
    (expected start end total : ℕ)
    → start ≤ u64_max
    → end ≤ u64_max
    → total ≤ u64_max
    → (validate_content_range (range_header start end total) expected ≡ ok (start, end, total))
      ↔ ((start ≡ expected) × (start ≤ end))
validate_content_range-print expected start end total hs he ht =
    rw (validate-check_range expected start end total hs he ht)
      (check_range_iff expected start end total)
