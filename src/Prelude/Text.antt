-- ===== src/Prelude/Text.antt =====
-- Go strings: sequences of bytes, their equality, their order (`cmp.Compare` on strings) and the
-- functions of package strings that the program calls.
use Prim.Native.Char.{code}
use Prim.Native.Nat.{ℕ, compare, Ordering}
use Prim.Native.String.{String}
use mathlib.Core.Bool.{Bool, true, false, ◌&&◌}
use mathlib.Core.List.{List, [], ◌∷◌, ◌++◌}
use mathlib.Core.Logic.{◌↔◌}
use mathlib.Core.Option.{Option, none, some}
use mathlib.Core.Path.{◌≡◌, refl}
use native.Mathlib.Omega.{arith}
use wireguard_operator.Prelude.Tests.{◌==◌, if◌then◌else◌}

abbrev pub Str : Type 0
Str = List ℕ

-- The bytes of a literal, which is ASCII throughout the program.
unfoldable pub text : String → Str
text String.[] = []
text (String.◌∷◌ c s) = code c ∷ text s

unfoldable pub str_eq : Str → Str → Bool
str_eq [] [] = true
str_eq (a ∷ s) (b ∷ t) = (a == b) && str_eq s t
str_eq _ _ = false

pub str_eq→≡ : (s t : Str) → str_eq s t ≡ true → s ≡ t
unfolding str_eq
str_eq→≡ [] [] h = refl
str_eq→≡ [] (b ∷ t) h = ground arith
str_eq→≡ (a ∷ s) [] h = ground arith
str_eq→≡ (a ∷ s) (b ∷ t) h = ground (arith, str_eq→≡ s t)

pub str_eq_refl : (s : Str) → str_eq s s ≡ true
unfolding str_eq
str_eq_refl [] = refl
str_eq_refl (a ∷ s) = ground (arith, str_eq_refl s)

pub str_eq_iff : (s t : Str) → (str_eq s t ≡ true) ↔ (s ≡ t)
str_eq_iff s t = (str_eq→≡ s t, λ e. ground (arith, e, str_eq_refl s))

-- s == ""
unfoldable pub is_empty : Str → Bool
is_empty [] = true
is_empty (a ∷ s) = false

pub is_empty→≡ : (s : Str) → is_empty s ≡ true → s ≡ []
unfolding is_empty
is_empty→≡ [] h = refl
is_empty→≡ (a ∷ s) h = ground arith

pub is_empty_nil : is_empty [] ≡ true
unfolding is_empty
is_empty_nil = refl

-- cmp.Compare(s, t): by the first byte that differs, a proper prefix first
unfoldable pub str_compare : Str → Str → Ordering
str_compare [] [] = Ordering.eq
str_compare [] (b ∷ t) = Ordering.lt
str_compare (a ∷ s) [] = Ordering.gt
str_compare (a ∷ s) (b ∷ t) = elim (compare a b) [
  | Ordering.eq ↦ str_compare s t
  | Ordering.lt ↦ Ordering.lt
  | Ordering.gt ↦ Ordering.gt
]

-- strings.Cut: the parts before and after the first occurrence of one byte
unfoldable pub cut : ℕ → Str → Option (Str × Str)
cut sep [] = none
cut sep (c ∷ s) =
    let rest : Option (Str × Str) = elim (cut sep s) [
      | none ↦ none
      | some (a, b) ↦ some (c ∷ a, b)
    ] in
    if c == sep then some ([], s) else rest

-- strings.Contains, for one byte
unfoldable pub has_byte : ℕ → Str → Bool
has_byte b [] = false
has_byte b (c ∷ s) = let rest = has_byte b s in if c == b then true else rest

-- strings.Join
unfoldable pub join : List Str → Str → Str
join [] sep = []
join (p ∷ []) sep = p
join (p ∷ q ∷ ps) sep = p ++ sep ++ join (q ∷ ps) sep

-- slices.Contains
unfoldable pub contains : List Str → Str → Bool
contains [] s = false
contains (x ∷ xs) s = let rest = contains xs s in if str_eq x s then true else rest
