-- ===== src/Driver/Score.antt =====
-- The compatibility score, an `f64` of services/driverd/src/matching.rs, with the rounding of its
-- additions. A double between 2 ^ -6 and 8 is here a whole multiple of 2 ^ -58; a sum is rounded to
-- 53 significant bits, to the nearest, and to the even one of two that are as near.
use mission_os.Base.{
  ℕ, zero, suc, ◌+◌, ◌*◌, ◌/◌, ◌%◌, ◌^◌, ◌++◌, [], ◌∷◌, ◌||◌, ◌&&◌, ltb, ◌==◌, if◌then◌else◌,
}
use mission_os.Base.Text.{Text, codes}
use mission_os.Base.Decimal.{show}

-- `n / d` to the nearest, ties to even.
unfoldable pub div_round : ℕ → ℕ → ℕ
div_round n d =
    let q = n / d in
    let r = n % d in if ltb d (2 * r) || ((2 * r == d) && (q % 2 == 1)) then q + 1 else q

-- Rounds to 53 bits; a number below 2 ^ (53 + fuel) ends by the test.
unfoldable pub round53 : ℕ → ℕ → ℕ → ℕ
unfolding div_round
round53 zero unit n = n
round53 (suc fuel) unit n =
    let wider = round53 fuel (2 * unit) n in
    if ltb (n / unit) (2 ^ 53) then div_round n unit * unit else wider

unfoldable pub f64_add : ℕ → ℕ → ℕ
unfolding round53
f64_add a b = round53 16 1 (a + b)

-- The doubles nearest to 1.0, 0.5, 0.2, 0.15, 0.1, 0.05 and 0.025.
abbrev pub one_point_zero : ℕ
one_point_zero = 2 ^ 58

abbrev pub weight_modalias : ℕ
weight_modalias = 2 ^ 57

abbrev pub weight_vendor : ℕ
weight_vendor = 57646075230342352

abbrev pub weight_kernel : ℕ
weight_kernel = 43234556422756760

abbrev pub weight_arch : ℕ
weight_arch = 28823037615171176

abbrev pub weight_features : ℕ
weight_features = 14411518807585588

abbrev pub weight_features_unknown : ℕ
weight_features_unknown = 7205759403792794

-- `{:.2}`
unfoldable pub show_score : ℕ → Text
unfolding div_round
show_score n =
    let hundredths = div_round (n * 100) one_point_zero in
    show (hundredths / 100)
    ++ (codes "." ++ ((48 + hundredths / 10 % 10) ∷ (48 + hundredths % 10) ∷ []))
