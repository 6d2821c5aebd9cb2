-- ===== src/Controller/Dedupe/Claims.antt =====
-- The first loop of the two dedupe functions: who holds a value when it has ended.
use wireguard_operator.Prelude.{
  ℕ, suc, ◌+◌, get_elem?, In, Str, str_eq_refl, str_eq_iff, is_empty→≡, is_empty_nil, str_eq,
  is_empty, Bool, true, false, not, ◌&&◌, List, [], ◌∷◌, ◌≢◌, ◌⊎◌, inl, inr, Option, none, some,
  ◌≡◌, subst, arith, Bool-cases,
}
use wireguard_operator.Api.Types.{WireguardPeer}
use wireguard_operator.Controller.Dedupe.{Holder, Holders, beaten, claim, claims}

module _ (value : WireguardPeer → Str) (beats : WireguardPeer → WireguardPeer → Bool) where
  -- The value has a holder, and `q` does not beat it.
  abbrev pub Unbeaten : WireguardPeer → Option Holder → Type 0
  Unbeaten q none = ⊥
  Unbeaten q (some h) = beats q h.peer ≡ false

  -- The holder stands in the list, counted from `i`, with the value.
  abbrev pub Stands : ℕ → List WireguardPeer → Str → Holder → Type 0
  Stands i ps v h =
      (k : ℕ) × (h.index ≡ i + k) × (get_elem? ps k ≡ some h.peer) × (value h.peer ≡ v)

  pub claims-nil :
      (i : ℕ) (ps : List WireguardPeer) (m : Holders)
      → m [] ≡ none
      → claims value beats i ps m [] ≡ none
  unfolding claims
  claims-nil i [] m h = h
  claims-nil i (p ∷ ps) m h =
      claims-nil (suc i) ps (claim value beats i p m)
        (ground (arith, str_eq_iff (value p) [], is_empty_nil))

  claim_holder :
      (i : ℕ) (p : WireguardPeer) (m : Holders) (v : Str) (h : Holder)
      → claim value beats i p m v ≡ some h
      → (m v ≡ some h) ⊎ ((h ≡ record { index = i; peer = p }) × (value p ≡ v))
  unfolding claim
  claim_holder i p m v h e =
      elim (Bool-cases
        (not (is_empty (value p)) && beaten value beats p (m (value p)) && str_eq (value p) v)) [
          | inl taken ↦ inr (ground arith, ground (arith, str_eq_iff (value p) v))
          | inr left ↦ inl (ground arith)
        ]

  -- Whoever holds a value was there before, or stands in the list with that value.
  pub claims-Stands :
      (i : ℕ) (ps : List WireguardPeer) (m : Holders) (v : Str) (h : Holder)
      → claims value beats i ps m v ≡ some h
      → (m v ≡ some h) ⊎ Stands i ps v h
  unfolding claims
  claims-Stands i [] m v h e = inl e
  claims-Stands i (p ∷ ps) m v h e =
      elim (claims-Stands (suc i) ps (claim value beats i p m) v h e) [
        | inr (k, at, there, same) ↦ inr (suc k, omega arith, there, same)
        | inl old ↦ elim (claim_holder i p m v h old) [
          | inl before ↦ inl before
          | inr (new, same) ↦ inr (0, ground arith, ground arith, ground arith)
        ]
      ]

  module _ (irrefl : (a : WireguardPeer) → beats a a ≡ false)
      (trans : (a b c : WireguardPeer)
        → beats a b ≡ true
        → beats b c ≡ true
        → beats a c ≡ true) where
    Unbeaten-by :
        (p q : WireguardPeer) (o : Option Holder)
        → Unbeaten q o
        → beaten value beats p o ≡ true
        → beats q p ≡ false
    Unbeaten-by p q none h b = elim h [ ]
    Unbeaten-by p q (some g) h b = elim (Bool-cases (beats q p)) [
      | inl more ↦ cc (trans q p g.peer more b)
      | inr less ↦ less
    ]

    not_beaten :
        (p : WireguardPeer) (o : Option Holder) → beaten value beats p o ≡ false → Unbeaten p o
    not_beaten p none b = cc
    not_beaten p (some g) b = b

    claim_keeps :
        (i : ℕ) (p q : WireguardPeer) (m : Holders) (v : Str)
        → Unbeaten q (m v)
        → Unbeaten q (claim value beats i p m v)
    unfolding claim
    claim_keeps i p q m v h =
        elim (Bool-cases
          (not (is_empty (value p)) && beaten value beats p (m (value p)) && str_eq (value p) v)) [
            | inr left ↦ rw left h
            | inl taken ↦
                let same : value p ≡ v = ground (arith, str_eq_iff (value p) v) in
                rw taken (
                  Unbeaten-by p q (m v) h
                    (subst (λ u. beaten value beats p (m u) ≡ true) same (ground arith)))
          ]

    claims_keep :
        (i : ℕ) (ps : List WireguardPeer) (q : WireguardPeer) (m : Holders) (v : Str)
        → Unbeaten q (m v)
        → Unbeaten q (claims value beats i ps m v)
    unfolding claims
    claims_keep i [] q m v h = h
    claims_keep i (p ∷ ps) q m v h =
        claims_keep (suc i) ps q (claim value beats i p m) v (claim_keeps i p q m v h)

    claim_self :
        (i : ℕ) (p : WireguardPeer) (m : Holders)
        → value p ≢ []
        → Unbeaten p (claim value beats i p m (value p))
    unfolding claim
    claim_self i p m h = elim (Bool-cases (beaten value beats p (m (value p)))) [
      | inl takes ↦
          let test : (not (is_empty (value p))
                && beaten value beats p (m (value p))
                && str_eq (value p) (value p))
              ≡ true =
            ground (arith, str_eq_refl (value p), is_empty→≡ (value p)) in
          rw test (irrefl p)
      | inr stays ↦
          let test : (not (is_empty (value p))
                && beaten value beats p (m (value p))
                && str_eq (value p) (value p))
              ≡ false =
            ground arith in
          rw test (not_beaten p (m (value p)) stays)
    ]

    -- No peer of the list beats the holder of its value.
    pub claims-Unbeaten :
        (i : ℕ) (ps : List WireguardPeer) (m : Holders) (p : WireguardPeer)
        → In p ps
        → value p ≢ []
        → Unbeaten p (claims value beats i ps m (value p))
    unfolding claims
    claims-Unbeaten i [] m p there h = elim there [ ]
    claims-Unbeaten i (q ∷ ps) m p (inl e) h =
        claims_keep (suc i) ps p (claim value beats i q m) (value p)
          (subst (λ r. Unbeaten p (claim value beats i r m (value p))) e (claim_self i p m h))
    claims-Unbeaten i (q ∷ ps) m p (inr there) h =
        claims-Unbeaten (suc i) ps (claim value beats i q m) p there h
