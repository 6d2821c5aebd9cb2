-- ===== src/Controller/Dedupe/Divide.antt =====
-- The second loop of the two dedupe functions: who is kept and who gives up.
use wireguard_operator.Prelude.{
  ℕ, zero, suc, ◌+◌, ◌≤◌, get_elem?, In, All, All-In, All-of_In, All-map, Str, Bool, true, List, [],
  ◌∷◌, ◌≢◌, inl, inr, Option, none, some, ◌≡◌, refl, sym, subst, arith, ◌==◌, Bool-cases,
}
use wireguard_operator.Api.Types.{WireguardPeer, key_string, peer_key}
use wireguard_operator.Controller.Dedupe.{ConflictLoser, Holder, Holders, place, divide}

-- Two lists woven into a third; both keep their order.
pub data Riffle : List WireguardPeer → List ConflictLoser → List WireguardPeer → Type 0 where
  done : Riffle [] [] []
  kept :
      {xs zs : List WireguardPeer} {ls : List ConflictLoser} (p : WireguardPeer)
      → Riffle xs ls zs
      → Riffle (p ∷ xs) ls (p ∷ zs)
  lost :
      {xs zs : List WireguardPeer} {ls : List ConflictLoser} (l : ConflictLoser)
      → Riffle xs ls zs
      → Riffle xs (l ∷ ls) (l.peer ∷ zs)

module _ (value : WireguardPeer → Str) where
  -- No two peers of the list share a value, but for the empty one.
  abbrev pub Distinct : List WireguardPeer → Type 0
  Distinct [] = Unit
  Distinct (p ∷ ps) = All (λ q. value p ≢ [] → value p ≢ value q) ps × Distinct ps

module _ (value : WireguardPeer → Str) (beats : WireguardPeer → WireguardPeer → Bool) where
  -- A value in use has a holder.
  abbrev pub Held : Holders → WireguardPeer → Type 0
  Held m p = value p ≢ [] → m (value p) ≢ none

  abbrev KeptFrom : ℕ → Holders → WireguardPeer → Type 0
  KeptFrom i m q = (h : Holder) → m (value q) ≡ some h → i ≤ h.index

  place-KeptFrom :
      (i : ℕ) (p : WireguardPeer) (m : Holders) (o : Option Holder)
      (d : List WireguardPeer × List ConflictLoser)
      → m (value p) ≡ o
      → All (KeptFrom (suc i) m) d.0
      → All (KeptFrom i m) (place value beats i p o d).0
  place-KeptFrom i p m none d e h = (
    λ g k. cc,
    All-map (KeptFrom (suc i) m) (KeptFrom i m) (λ q f g k. omega (arith, f g k)) d.0 h,
  )
  place-KeptFrom i p m (some g) d e h = elim (Bool-cases (g.index == i)) [
    | inl same ↦ rw same (
      λ g' k. ground (arith, same),
      All-map (KeptFrom (suc i) m) (KeptFrom i m) (λ q f g' k. omega (arith, f g' k)) d.0 h,
    )
    | inr other ↦
        rw other
          (All-map (KeptFrom (suc i) m) (KeptFrom i m) (λ q f g' k. omega (arith, f g' k)) d.0 h)
  ]

  divide-KeptFrom :
      (i : ℕ) (ps : List WireguardPeer) (m : Holders)
      → All (KeptFrom i m) (divide value beats i ps m).0
  unfolding divide
  divide-KeptFrom i [] m = tt
  divide-KeptFrom i (p ∷ ps) m =
      place-KeptFrom i p m (m (value p)) (divide value beats (suc i) ps m) refl
        (divide-KeptFrom (suc i) ps m)

  place-Distinct :
      (i : ℕ) (p : WireguardPeer) (m : Holders) (o : Option Holder)
      (d : List WireguardPeer × List ConflictLoser)
      → m (value p) ≡ o
      → Held m p
      → All (KeptFrom (suc i) m) d.0
      → Distinct value d.0
      → Distinct value (place value beats i p o d).0
  place-Distinct i p m none d e held later h =
      (All-of_In _ d.0 (λ q there used same. absurd (held used e)), h)
  place-Distinct i p m (some g) d e held later h = elim (Bool-cases (g.index == i)) [
    | inr other ↦ rw other h
    | inl here ↦ rw here (
      All-of_In _ d.0 (λ q there used same.
          let at : suc i ≤ g.index =
            All-In (KeptFrom (suc i) m) d.0 later q there g (subst (λ v. m v ≡ some g) same e) in
          absurd (ground arith)),
      h,
    )
  ]

  pub divide-Distinct :
      (i : ℕ) (ps : List WireguardPeer) (m : Holders)
      → All (Held m) ps
      → Distinct value (divide value beats i ps m).0
  unfolding divide
  divide-Distinct i [] m held = tt
  divide-Distinct i (p ∷ ps) m (here, held) =
      place-Distinct i p m (m (value p)) (divide value beats (suc i) ps m) refl here
        (divide-KeptFrom (suc i) ps m) (divide-Distinct (suc i) ps m held)

  place-Riffle :
      (i : ℕ) (p : WireguardPeer) (o : Option Holder) (d : List WireguardPeer × List ConflictLoser)
      (ps : List WireguardPeer)
      → Riffle d.0 d.1 ps
      → Riffle (place value beats i p o d).0 (place value beats i p o d).1 (p ∷ ps)
  place-Riffle i p none d ps r = kept p r
  place-Riffle i p (some g) d ps r = elim (Bool-cases (g.index == i)) [
    | inl here ↦ rw here (kept p r)
    | inr other ↦ rw other (lost (record { peer = p; winner = key_string (peer_key g.peer) }) r)
  ]

  -- Every peer is kept or loses, and both lists keep the order of the input.
  pub divide-Riffle :
      (i : ℕ) (ps : List WireguardPeer) (m : Holders)
      → Riffle (divide value beats i ps m).0 (divide value beats i ps m).1 ps
  unfolding divide
  divide-Riffle i [] m = done
  divide-Riffle i (p ∷ ps) m =
      place-Riffle i p (m (value p)) (divide value beats (suc i) ps m) ps
        (divide-Riffle (suc i) ps m)

  -- A loser names a holder of its value other than itself.
  abbrev pub LostTo : Holders → ConflictLoser → Type 0
  LostTo m l =
      (h : Holder) × (m (value l.peer) ≡ some h) × (l.winner ≡ key_string (peer_key h.peer))

  place-LostTo :
      (i : ℕ) (p : WireguardPeer) (m : Holders) (o : Option Holder)
      (d : List WireguardPeer × List ConflictLoser)
      → m (value p) ≡ o
      → All (LostTo m) d.1
      → All (LostTo m) (place value beats i p o d).1
  place-LostTo i p m none d e h = h
  place-LostTo i p m (some g) d e h = elim (Bool-cases (g.index == i)) [
    | inl here ↦ rw here h
    | inr other ↦ rw other ((g, e, refl), h)
  ]

  pub divide-LostTo :
      (i : ℕ) (ps : List WireguardPeer) (m : Holders) → All (LostTo m) (divide value beats i ps m).1
  unfolding divide
  divide-LostTo i [] m = tt
  divide-LostTo i (p ∷ ps) m =
      place-LostTo i p m (m (value p)) (divide value beats (suc i) ps m) refl
        (divide-LostTo (suc i) ps m)

  place_keeps :
      (i : ℕ) (p q : WireguardPeer) (o : Option Holder)
      (d : List WireguardPeer × List ConflictLoser)
      → In q d.0
      → In q (place value beats i p o d).0
  place_keeps i p q none d there = inr there
  place_keeps i p q (some g) d there = elim (Bool-cases (g.index == i)) [
    | inl here ↦ rw here (inr there)
    | inr other ↦ rw other there
  ]

  -- The holder of a value is kept.
  pub divide-In :
      (i : ℕ) (ps : List WireguardPeer) (m : Holders) (k : ℕ) (h : Holder)
      → get_elem? ps k ≡ some h.peer
      → m (value h.peer) ≡ some h
      → h.index ≡ i + k
      → In h.peer (divide value beats i ps m).0
  unfolding divide
  divide-In i [] m k h there holds at = absurd (cc)
  divide-In i (p ∷ ps) m zero h there holds at =
      let same : p ≡ h.peer = ground arith in
      let held : m (value p) ≡ some h = subst (λ q. m (value q) ≡ some h) (sym same) holds in
      let here : (h.index == i) ≡ true = ground arith in rw (held, here) (inl (sym same))
  divide-In i (p ∷ ps) m (suc k) h there holds at =
      place_keeps i p h.peer (m (value p)) (divide value beats (suc i) ps m)
        (divide-In (suc i) ps m k h there holds (omega arith))
