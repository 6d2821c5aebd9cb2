-- ===== src/Prelude/Contains.antt =====
-- slices.Contains on strings decides membership.
use mathlib.Core.Bool.{true, false}
use mathlib.Core.List.{List, [], ◌∷◌}
use mathlib.Core.Logic.{inl, inr}
use mathlib.Core.Path.{◌≡◌, sym}
use native.Mathlib.Omega.{arith}
use wireguard_operator.Prelude.Lists.{In}
use wireguard_operator.Prelude.Tests.{Bool-cases}
use wireguard_operator.Prelude.Text.{Str, str_eq, str_eq→≡, str_eq_iff, contains}

pub contains→In : (xs : List Str) (s : Str) → contains xs s ≡ true → In s xs
unfolding contains
contains→In [] s h = absurd (cc)
contains→In (x ∷ xs) s h = elim (Bool-cases (str_eq x s)) [
  | inl same ↦ inl (sym (str_eq→≡ x s same))
  | inr other ↦ inr (contains→In xs s (rw other at h))
]

pub In→contains : (xs : List Str) (s : Str) → In s xs → contains xs s ≡ true
unfolding contains
In→contains [] s h = elim h [ ]
In→contains (x ∷ xs) s (inl e) = ground (arith, str_eq_iff x s)
In→contains (x ∷ xs) s (inr h) = ground (arith, In→contains xs s h)

pub contains-false : (xs : List Str) (s : Str) → contains xs s ≡ false → ¬ In s xs
contains-false xs s h there = cc (In→contains xs s there)
