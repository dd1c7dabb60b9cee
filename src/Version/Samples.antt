-- ===== src/Version/Samples.antt =====
-- Versions to run libraries/core/src/version.rs on.
use mission_os.Base.{Ordering, true, [], ◌∷◌, ◌≡◌, refl, if◌then◌else◌}
use mission_os.Base.Results.{ok}
use mission_os.Base.Text.{codes, split, split_once}
use mission_os.Base.Decimal.{parse_u64}
use mission_os.Version.{Version, is_stable, parse, display, cmp}
use mission_os.Version.Order.{cmp-stable}
use mission_os.Version.RoundTrip.{parse-display, parse-IsWritable, parse-display-parse}

abbrev alpha : Version
alpha = record { major = 1; minor = 2; patch = 3; pre = codes "alpha" ∷ codes "2" ∷ []; build = [] }

abbrev beta : Version
beta = record { major = 1; minor = 2; patch = 3; pre = codes "beta" ∷ []; build = [] }

abbrev stable : Version
stable = record {
  major = 1;
  minor = 2;
  patch = 3;
  pre = [];
  build = codes "build" ∷ codes "5" ∷ [];
}

alpha_parsed : parse (codes "1.2.3-alpha.2") ≡ ok alpha
unfolding parse split split_once parse_u64
alpha_parsed = refl

stable_parsed : parse (codes "1.2.3+build.5") ≡ ok stable
unfolding parse split split_once parse_u64
stable_parsed = refl

alpha_below_beta : cmp alpha beta ≡ Ordering.lt
unfolding cmp parse_u64
alpha_below_beta = refl

beta_below_stable : cmp beta stable ≡ Ordering.lt
unfolding cmp parse_u64
beta_below_stable = refl

parse-display_example : parse (display alpha) ≡ ok alpha
parse-display_example =
    parse-display alpha (parse-IsWritable (codes "1.2.3-alpha.2") alpha alpha_parsed)

parse-display-parse_example : parse (display stable) ≡ ok stable
parse-display-parse_example = parse-display-parse (codes "1.2.3+build.5") stable stable_parsed

stable-is_stable : is_stable stable ≡ true
unfolding is_stable
stable-is_stable = refl

cmp-stable_example : cmp stable alpha ≡ (if is_stable alpha then Ordering.eq else Ordering.gt)
cmp-stable_example = cmp-stable stable alpha refl refl refl stable-is_stable
