-- ===== src/Prelude/TextOrder.antt =====
-- The byte order of strings is a strict total order.
use Prim.Native.Nat.{Ordering}
use mathlib.Core.List.{[], ◌∷◌}
use mathlib.Core.Path.{◌≡◌, refl}
use native.Mathlib.Omega.{arith}
use wireguard_operator.Prelude.Text.{Str, str_compare}

pub str_compare_self : (s : Str) → str_compare s s ≡ Ordering.eq
unfolding str_compare
str_compare_self [] = refl
str_compare_self (a ∷ s) = ground (arith, str_compare_self s)

pub str_compare→≡ : (s t : Str) → str_compare s t ≡ Ordering.eq → s ≡ t
unfolding str_compare
str_compare→≡ [] [] h = refl
str_compare→≡ [] (b ∷ t) h = ground arith
str_compare→≡ (a ∷ s) [] h = ground arith
str_compare→≡ (a ∷ s) (b ∷ t) h = ground (arith, str_compare→≡ s t)

pub str_compare_trans :
    (s t u : Str)
    → str_compare s t ≡ Ordering.lt
    → str_compare t u ≡ Ordering.lt
    → str_compare s u ≡ Ordering.lt
unfolding str_compare
str_compare_trans [] [] u h k = ground arith
str_compare_trans [] (b ∷ t) [] h k = ground arith
str_compare_trans [] (b ∷ t) (c ∷ u) h k = refl
str_compare_trans (a ∷ s) [] u h k = ground arith
str_compare_trans (a ∷ s) (b ∷ t) [] h k = ground arith
str_compare_trans (a ∷ s) (b ∷ t) (c ∷ u) h k = ground (arith, str_compare_trans s t u)

-- the other way round
abbrev pub flip : Ordering → Ordering
flip Ordering.lt = Ordering.gt
flip Ordering.eq = Ordering.eq
flip Ordering.gt = Ordering.lt

pub str_compare-flip : (s t : Str) → str_compare t s ≡ flip (str_compare s t)
unfolding str_compare
str_compare-flip [] [] = refl
str_compare-flip [] (b ∷ t) = refl
str_compare-flip (a ∷ s) [] = refl
str_compare-flip (a ∷ s) (b ∷ t) = ground (arith, str_compare-flip s t)
