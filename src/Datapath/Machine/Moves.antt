-- ===== src/Datapath/Machine/Moves.antt =====
-- How a step of one thread changes who holds a lock and what is yet to be recorded.
use wireguard_operator.Prelude.{
  ℕ, Bool, true, false, ◌≢◌, inl, inr, Option, none, some, ◌≡◌, sym, ap, ◌∙◌, subst, ◌==◌,
  Bool-cases, ==→≡, ==_refl,
}
use wireguard_operator.Datapath.Machine.{Pc, set_pc}

-- whether the thread holds the lock
unfoldable pub holds : Option ℕ → ℕ → Bool
holds none t = false
holds (some u) t = u == t

-- Exactly the threads at these points hold the lock.
abbrev pub Owns : (Pc → Bool) → Option ℕ → (ℕ → Pc) → Type 0
Owns inside lock pc = (u : ℕ) → inside (pc u) ≡ holds lock u

pub holds-one : (lock : Option ℕ) (t u : ℕ) → holds lock t ≡ true → holds lock u ≡ true → t ≡ u
unfolding holds
holds-one none t u h m = absurd (cc)
holds-one (some v) t u h m = sym (==→≡ v t h) ∙ ==→≡ v u m

pub Owns-sole :
    (inside : Pc → Bool) (pc : ℕ → Pc) (lock : Option ℕ) (t u : ℕ)
    → Owns inside lock pc
    → inside (pc t) ≡ true
    → inside (pc u) ≡ true
    → (t == u) ≢ false
Owns-sole inside pc lock t u own one two other =
    let same : t ≡ u = holds-one lock t u (sym (own t) ∙ one) (sym (own u) ∙ two) in
    cc (ap (λ v. t == v) same, ==_refl t, other)

module _ (inside : Pc → Bool) (pc : ℕ → Pc) (t : ℕ) (x : Pc) where
  moved :
      (lock : Option ℕ)
      → inside x ≡ holds lock t
      → ((u : ℕ) → (t == u) ≡ false → inside (pc u) ≡ holds lock u)
      → Owns inside lock (set_pc pc t x)
  unfolding set_pc
  moved lock here there u = elim (Bool-cases (t == u)) [
    | inl same ↦ rw same (subst (λ v. inside x ≡ holds lock v) (==→≡ t u same) here)
    | inr other ↦ rw other (there u other)
  ]

  pub Owns-same :
      (lock : Option ℕ)
      → Owns inside lock pc
      → inside x ≡ inside (pc t)
      → Owns inside lock (set_pc pc t x)
  Owns-same lock own same = moved lock (same ∙ own t) (λ u other. own u)

  pub Owns-acquire : Owns inside none pc → inside x ≡ true → Owns inside (some t) (set_pc pc t x)
  unfolding holds
  Owns-acquire own in_now = moved (some t) (in_now ∙ sym (==_refl t)) (λ u other. own u ∙ sym other)

  pub Owns-release :
      (lock : Option ℕ)
      → Owns inside lock pc
      → inside (pc t) ≡ true
      → inside x ≡ false
      → Owns inside none (set_pc pc t x)
  unfolding holds
  Owns-release lock own held out_now = moved none out_now (λ u other.
      elim (Bool-cases (inside (pc u))) [
        | inr outside ↦ outside
        | inl within ↦ absurd (Owns-sole inside pc lock t u own held within other)
      ])
