-- ===== src/Api/Returns.antt =====
-- What holds of each value that a chain of calls returns.
use wireguard_operator.Prelude.{Bool, true, false, ◌≡◌, refl, subst, if◌then◌else◌}
use wireguard_operator.Api.Exec.{
  ApiError, Result, ok, err, Exec, pure, fail, attempt, ◌>>=◌, >>=-eq-ok,
}

-- A call that has returned `a`, from some state.
abbrev pub Answered : {W A : Type 0} → Exec W A → A → Type 0
Answered {W} m a = (at : W) × ((m at).0 ≡ ok a)

-- A call that has failed with `e`, from some state.
abbrev pub Refused : {W A : Type 0} → Exec W A → ApiError → Type 0
Refused {W} m e = (at : W) × ((m at).0 ≡ err e)

-- Each value that the call returns has the property.
abbrev pub Returns : {W A : Type 0} → (A → Type 0) → Exec W A → Type 0
Returns {W} {A} P m = (w : W) (a : A) → (m w).0 ≡ ok a → P a

module _ {W A : Type 0} (P : A → Type 0) where
  pub Returns-pure : (a : A) → P a → Returns {W = W} P (pure a)
  Returns-pure a p w b h = subst P (cc) p

  pub Returns-fail : (e : ApiError) → Returns {W = W} P (fail e)
  Returns-fail e w b h = absurd (cc)

  pub Returns-if :
      (t : Bool) (x y : Exec W A)
      → (t ≡ true → Returns P x)
      → (t ≡ false → Returns P y)
      → Returns P (if t then x else y)
  Returns-if true x y f g = f refl
  Returns-if false x y f g = g refl

module _ {W A B : Type 0} (P : B → Type 0) where
  pub Returns-then :
      (m : Exec W A) (f : A → Exec W B)
      → ((a : A) → Answered m a → Returns P (f a))
      → Returns P (m >>= f)
  Returns-then m f g w b h = let (a, e, k) = >>=-eq-ok m f w b h in g a (w, e) (m w).1 b k

  pub Returns-attempt :
      (m : Exec W A) (f : Result A → Exec W B)
      → ((r : Result A) (w : W) → (m w).0 ≡ r → Returns P (f r))
      → Returns P (attempt m >>= f)
  unfolding ◌>>=◌
  Returns-attempt m f g w b h = g (m w).0 w refl (m w).1 b h
