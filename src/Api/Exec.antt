-- ===== src/Api/Exec.antt =====
-- Calls of the Kubernetes API: an action over the cluster's state `W`. What was written before an
-- error stays written.
use wireguard_operator.Prelude.{Str, ◌≡◌, refl, sym, ap, ◌∙◌, subst}

-- The classes of error that the operator tells apart (k8s.io/apimachinery api/errors).
pub data ApiError : Type 0 where
  not_found conflict already_exists invalid_object : ApiError
  other_error : Str → ApiError

pub data Result (A : Type 0) : Type 0 where
  ok : A → Result A
  err : ApiError → Result A

abbrev pub Exec : Type 0 → Type 0 → Type 0
Exec W A = W → Result A × W

module _ {W A : Type 0} where
  abbrev pub pure : A → Exec W A
  pure a w = (ok a, w)

  abbrev pub fail : ApiError → Exec W A
  fail e w = (err e, w)

  -- the outcome of a call as a value, for code that looks at the error and goes on
  abbrev pub attempt : Exec W A → Exec W (Result A)
  attempt m w = let (r, w') = m w in (ok r, w')

module _ {W A B : Type 0} where
  abbrev pub after : Result A → W → (A → Exec W B) → Result B × W
  after (ok a) w f = f a w
  after (err e) w f = (err e, w)

  infixl 5 ◌>>=◌ ◌>>◌
  unfoldable pub ◌>>=◌ : Exec W A → (A → Exec W B) → Exec W B
  ◌>>=◌ m f w = let (r, w') = m w in after r w' f

  abbrev pub ◌>>◌ : Exec W A → Exec W B → Exec W B
  m >> k = m >>= λ _. k

  -- What a chain returns, its first call has returned before, from the state that call left.
  pub >>=-eq-ok :
      (m : Exec W A) (f : A → Exec W B) (w : W) (b : B)
      → ((m >>= f) w).0 ≡ ok b
      → (a : A) × ((m w).0 ≡ ok a) × ((f a (m w).1).0 ≡ ok b)
  unfolding ◌>>=◌
  >>=-eq-ok m f w b h = returned (m w).0 (m w).1 refl h
    where
      returned :
          (r : Result A) (w' : W)
          → (m w).0 ≡ r
          → (after r w' f).0 ≡ ok b
          → (a : A) × ((m w).0 ≡ ok a) × ((f a w').0 ≡ ok b)
      returned (ok a) w' e k = (a, e, k)
      returned (err x) w' e k = absurd (cc)

  -- A chain that returns runs as the rest does from where its first call left off.
  pub >>=-eq-run :
      (m : Exec W A) (f : A → Exec W B) (w : W) (b : B)
      → ((m >>= f) w).0 ≡ ok b
      → (a : A) × ((m w).0 ≡ ok a) × ((m >>= f) w ≡ f a (m w).1)
  unfolding ◌>>=◌
  >>=-eq-run m f w b h = run (m w).0 (m w).1 refl h
    where
      run :
          (r : Result A) (w' : W)
          → (m w).0 ≡ r
          → (after r w' f).0 ≡ ok b
          → (a : A) × ((m w).0 ≡ ok a) × (after r w' f ≡ f a w')
      run (ok a) w' e k = (a, e, refl)
      run (err x) w' e k = absurd (cc)

-- From the state, the call leaves a value and a state that have the property, if it returns.
abbrev pub Leaves : {W A : Type 0} → (A → W → Type 0) → Exec W A → W → Type 0
Leaves {W} {A} R m w = (a : A) → (m w).0 ≡ ok a → R a (m w).1

module _ {W B : Type 0} (R : B → W → Type 0) where
  pub Leaves-pure : (b : B) (w : W) → R b w → Leaves R (pure b) w
  Leaves-pure b w r a h = subst (λ x. R x w) (cc) r

  pub Leaves-fail : (e : ApiError) (w : W) → Leaves R (fail e) w
  Leaves-fail e w a h = absurd (cc)

module _ {W A B : Type 0} (R : B → W → Type 0) where
  pub Leaves-then :
      (m : Exec W A) (f : A → Exec W B) (w : W)
      → ((a : A) → (m w).0 ≡ ok a → Leaves R (f a) (m w).1)
      → Leaves R (m >>= f) w
  Leaves-then m f w g b h =
      let (a, e, run) = >>=-eq-run m f w b h in
      subst (λ r. R b r.1) (sym run) (g a e b (ap (λ r. r.0) (sym run) ∙ h))

  pub Leaves-attempt :
      (m : Exec W A) (f : Result A → Exec W B) (w : W)
      → ((r : Result A) → (m w).0 ≡ r → Leaves R (f r) (m w).1)
      → Leaves R (attempt m >>= f) w
  unfolding ◌>>=◌
  Leaves-attempt m f w g b h = g (m w).0 refl b h
