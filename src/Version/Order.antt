-- ===== src/Version/Order.antt =====
-- The laws of `Ord for Version`.
use Prim.Native.Nat.Ordering.{lt, eq, gt}
use mission_os.Base.{
  ℕ, compare, Ordering, List, [], ◌∷◌, Option, none, some, ◌≡◌, refl, sym, subst, fun_ext, arith,
  true, if◌then◌else◌,
}
use mission_os.Base.Order.{
  IsPreorder, compare-IsPreorder, cmp_list, cmp_list-IsPreorder, on-IsPreorder, then-IsPreorder,
  swap, cmp_refl,
}
use mission_os.Base.Results.{to_option}
use mission_os.Base.Text.{Text, text_cmp}
use mission_os.Base.Decimal.{parse_u64}
use mission_os.Version.{
  Version, is_stable, compare_pre_release_id, compare_pre_release, compare_pre, cmp,
}

-- An identifier as it is compared: its number, or its text.
cmp_key : Option ℕ → Text → Option ℕ → Text → Ordering
cmp_key (some m) s (some n) t = compare m n
cmp_key (some m) s none t = lt
cmp_key none s (some n) t = gt
cmp_key none s none t = text_cmp s t

abbrev Key : Type 0
Key = Option ℕ × Text

abbrev on_keys : Key → Key → Ordering
on_keys a b = cmp_key a.0 a.1 b.0 b.1

text_cmp-IsPreorder : IsPreorder text_cmp
text_cmp-IsPreorder = cmp_list-IsPreorder compare-IsPreorder

compare_refl : (n : ℕ) → compare n n ≡ eq
compare_refl n = cmp_refl compare-IsPreorder n

keys-swap : (a b : Key) → on_keys b a ≡ swap (on_keys a b)
unfolding cmp_key
keys-swap (some m, s) (some n, t) = compare-IsPreorder.swap_cmp m n
keys-swap (some m, s) (none, t) = refl
keys-swap (none, s) (some n, t) = refl
keys-swap (none, s) (none, t) = text_cmp-IsPreorder.swap_cmp s t

keys_trans : (a b c : Key) → on_keys a b ≡ lt → on_keys b c ≡ lt → on_keys a c ≡ lt
unfolding cmp_key
keys_trans (some m, s) (some n, t) (some k, u) p q = compare-IsPreorder.lt_trans m n k p q
keys_trans (some m, s) (some n, t) (none, u) p q = refl
keys_trans (some m, s) (none, t) (some k, u) p q = cc
keys_trans (some m, s) (none, t) (none, u) p q = refl
keys_trans (none, s) (some n, t) c p q = cc
keys_trans (none, s) (none, t) (some k, u) p q = cc
keys_trans (none, s) (none, t) (none, u) p q = text_cmp-IsPreorder.lt_trans s t u p q

keys-eq : (a b c : Key) → on_keys a b ≡ eq → on_keys a c ≡ on_keys b c
unfolding cmp_key
keys-eq (some m, s) (some n, t) (some k, u) p = compare-IsPreorder.eq_left m n k p
keys-eq (some m, s) (some n, t) (none, u) p = refl
keys-eq (some m, s) (none, t) c p = cc
keys-eq (none, s) (some n, t) c p = cc
keys-eq (none, s) (none, t) (some k, u) p = refl
keys-eq (none, s) (none, t) (none, u) p = text_cmp-IsPreorder.eq_left s t u p

id_key :
    (a b : Text)
    → compare_pre_release_id a b ≡ on_keys (to_option (parse_u64 a), a) (to_option (parse_u64 b), b)
unfolding compare_pre_release_id cmp_key
id_key a b = ground arith

keys-IsPreorder : IsPreorder on_keys
keys-IsPreorder = record { swap_cmp = keys-swap; lt_trans = keys_trans; eq_left = keys-eq }

-- Identifiers are compared by their keys.
id-IsPreorder : IsPreorder compare_pre_release_id
id-IsPreorder =
    subst IsPreorder (sym (fun_ext λ a. fun_ext λ b. id_key a b))
      (on-IsPreorder keys-IsPreorder (λ (s : Text). (to_option (parse_u64 s), s)))

ids_lex : (a b : List Text) → compare_pre_release a b ≡ cmp_list compare_pre_release_id a b
unfolding compare_pre_release
ids_lex [] [] = refl
ids_lex [] (y ∷ ys) = ground arith
ids_lex (x ∷ xs) [] = ground arith
ids_lex (x ∷ xs) (y ∷ ys) = rw (ids_lex xs ys)

ids-IsPreorder : IsPreorder compare_pre_release
ids-IsPreorder =
    subst IsPreorder (sym (fun_ext λ a. fun_ext λ b. ids_lex a b))
      (cmp_list-IsPreorder id-IsPreorder)

pre-swap : (a b : List Text) → compare_pre b a ≡ swap (compare_pre a b)
unfolding compare_pre
pre-swap [] [] = refl
pre-swap [] (y ∷ ys) = refl
pre-swap (x ∷ xs) [] = refl
pre-swap (x ∷ xs) (y ∷ ys) = ids-IsPreorder.swap_cmp (x ∷ xs) (y ∷ ys)

pre_trans : (a b c : List Text) → compare_pre a b ≡ lt → compare_pre b c ≡ lt → compare_pre a c ≡ lt
unfolding compare_pre
pre_trans [] [] c p q = cc
pre_trans [] (y ∷ ys) c p q = cc
pre_trans (x ∷ xs) [] [] p q = refl
pre_trans (x ∷ xs) [] (z ∷ zs) p q = cc
pre_trans (x ∷ xs) (y ∷ ys) [] p q = refl
pre_trans (x ∷ xs) (y ∷ ys) (z ∷ zs) p q = ids-IsPreorder.lt_trans (x ∷ xs) (y ∷ ys) (z ∷ zs) p q

pre-eq : (a b c : List Text) → compare_pre a b ≡ eq → compare_pre a c ≡ compare_pre b c
unfolding compare_pre
pre-eq [] [] c p = refl
pre-eq [] (y ∷ ys) c p = cc
pre-eq (x ∷ xs) [] c p = cc
pre-eq (x ∷ xs) (y ∷ ys) [] p = refl
pre-eq (x ∷ xs) (y ∷ ys) (z ∷ zs) p = ids-IsPreorder.eq_left (x ∷ xs) (y ∷ ys) (z ∷ zs) p

pre-IsPreorder : IsPreorder compare_pre
pre-IsPreorder = record { swap_cmp = pre-swap; lt_trans = pre_trans; eq_left = pre-eq }

-- The comparison of versions is transitive, the other way round it gives the opposite answer, and
-- versions that compare as equal compare alike with all others.
pub cmp-IsPreorder : IsPreorder cmp
unfolding cmp
cmp-IsPreorder = then-IsPreorder (on-IsPreorder compare-IsPreorder (λ (v : Version). v.major)) (
    then-IsPreorder (on-IsPreorder compare-IsPreorder (λ (v : Version). v.minor)) (
      then-IsPreorder (on-IsPreorder compare-IsPreorder (λ (v : Version). v.patch))
        (on-IsPreorder pre-IsPreorder (λ (v : Version). v.pre))))

-- Of two versions with the same three numbers, a stable one is above a pre-release, and two stable
-- ones compare as equal whatever their build metadata.
pub cmp-stable :
    (v w : Version)
    → v.major ≡ w.major
    → v.minor ≡ w.minor
    → v.patch ≡ w.patch
    → is_stable v ≡ true
    → cmp v w ≡ (if is_stable w then eq else gt)
unfolding cmp is_stable
cmp-stable v w a b c s =
    ground (arith, compare_refl w.major, compare_refl w.minor, compare_refl w.patch)
