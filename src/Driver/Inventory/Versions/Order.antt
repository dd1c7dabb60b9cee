-- ===== src/Driver/Inventory/Versions/Order.antt =====
-- The order of `DriverVersion` of services/driverd/src/inventory.rs, that downgrade protection uses.
use mission_os.Base.{Option, none, some, ◌≡◌, refl, sym, subst, fun_ext, arith}
use mission_os.Base.Order.{
  IsPreorder, swap, compare-IsPreorder, on-IsPreorder, swap-IsPreorder, then-IsPreorder, cmp_option,
  cmp_option-IsPreorder, cmp_list-IsPreorder,
}
use mission_os.Base.Text.{Text, text_cmp}
use mission_os.Driver.Inventory.Versions.{DriverVersion, cmp_pre, cmp}

pre_key : (a b : Option Text) → cmp_pre a b ≡ swap (cmp_option (λ x y. swap (text_cmp x y)) a b)
unfolding cmp_pre
pre_key none none = refl
pre_key none (some b) = refl
pre_key (some a) none = refl
pre_key (some a) (some b) = ground arith

pre-IsPreorder : IsPreorder cmp_pre
pre-IsPreorder = subst IsPreorder (sym (fun_ext λ a. fun_ext λ b. pre_key a b)) (
    swap-IsPreorder
      (cmp_option-IsPreorder (swap-IsPreorder (cmp_list-IsPreorder compare-IsPreorder))))

-- The comparison of driver versions is transitive, the other way round it gives the opposite answer,
-- and versions that compare as equal compare alike with all others.
pub driver_cmp-IsPreorder : IsPreorder cmp
unfolding cmp
driver_cmp-IsPreorder =
    then-IsPreorder (on-IsPreorder compare-IsPreorder (λ (v : DriverVersion). v.major)) (
      then-IsPreorder (on-IsPreorder compare-IsPreorder (λ (v : DriverVersion). v.minor)) (
        then-IsPreorder (on-IsPreorder compare-IsPreorder (λ (v : DriverVersion). v.patch))
          (on-IsPreorder pre-IsPreorder (λ (v : DriverVersion). v.pre_release))))
