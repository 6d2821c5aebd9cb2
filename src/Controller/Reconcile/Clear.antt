-- ===== src/Controller/Reconcile/Clear.antt =====
-- What clearing the unusable addresses keeps, and which addresses count as used.
use wireguard_operator.Prelude.{
  In, In-append_left, In-append_right, All, All-of_In, Str, is_empty→≡, is_empty, Bool, true, not,
  ◌&&◌, List, [], ◌∷◌, map, ◌≢◌, inl, inr, ◌≡◌, refl, ap, ◌∙◌, arith, Bool-cases,
}
use wireguard_operator.Api.Types.{WireguardPeer, WireguardPeerSpec}
use wireguard_operator.Ipam.{derive_reserved_ips, held_addresses, get_used_ips, address_usable}
use wireguard_operator.Controller.Dedupe.{address_of, public_key_of}
use wireguard_operator.Controller.Dedupe.Divide.{Distinct}
use wireguard_operator.Controller.Reconcile.{clear_unusable}

module _ (cidr4 : Str) where
  abbrev drops : WireguardPeer → Bool
  drops p = not (is_empty p.status.address) && not (address_usable p.status.address cidr4)

  clear_unusable-Of :
      (Q : Str → Str → WireguardPeerSpec → Type 0) (p : WireguardPeer)
      → Q p.name p.namespace p.spec
      → Q
          (clear_unusable cidr4 p).name
          (clear_unusable cidr4 p).namespace
          (clear_unusable cidr4 p).spec
  unfolding clear_unusable
  clear_unusable-Of Q p h = elim (Bool-cases (drops p)) [
    | inl gone ↦ rw gone h
    | inr stays ↦ rw stays h
  ]

  -- Clearing the unusable addresses leaves everything else.
  pub map-clear_unusable :
      (Q : Str → Str → WireguardPeerSpec → Type 0) (ps : List WireguardPeer)
      → All (λ p. Q p.name p.namespace p.spec) ps
      → All (λ p. Q p.name p.namespace p.spec) (map (clear_unusable cidr4) ps)
  unfolding map
  map-clear_unusable Q [] h = tt
  map-clear_unusable Q (p ∷ ps) h = (clear_unusable-Of Q p h.0, map-clear_unusable Q ps h.1)

  same_key : (p : WireguardPeer) → public_key_of (clear_unusable cidr4 p) ≡ public_key_of p
  same_key p = clear_unusable-Of (λ _ _ spec. spec.public_key ≡ p.spec.public_key) p refl

  pub map-clear_unusable_keys :
      (ps : List WireguardPeer)
      → Distinct public_key_of ps
      → Distinct public_key_of (map (clear_unusable cidr4) ps)
  unfolding map
  map-clear_unusable_keys [] h = tt
  map-clear_unusable_keys (p ∷ ps) h = (
    rw (same_key p) (
        map-clear_unusable
          (λ _ _ spec. p.spec.public_key ≢ [] → p.spec.public_key ≢ spec.public_key) ps h.0),
    map-clear_unusable_keys ps h.1,
  )

  abbrev Fit : WireguardPeer → Type 0
  Fit p = p.status.address ≢ [] → address_usable p.status.address cidr4 ≡ true

  clear_unusable-Fit : (p : WireguardPeer) → Fit (clear_unusable cidr4 p)
  unfolding clear_unusable
  clear_unusable-Fit p = elim (Bool-cases (drops p)) [
    | inl gone ↦ rw gone (λ held. absurd (held refl))
    | inr stays ↦ rw stays (λ held. ground (arith, is_empty→≡ p.status.address))
  ]

  pub map-clear_unusable-Fit : (ps : List WireguardPeer) → All Fit (map (clear_unusable cidr4) ps)
  unfolding map
  map-clear_unusable-Fit [] = tt
  map-clear_unusable-Fit (p ∷ ps) = (clear_unusable-Fit p, map-clear_unusable-Fit ps)

held_addresses-In :
    (ps : List WireguardPeer) (p : WireguardPeer)
    → In p ps
    → p.status.address ≢ []
    → In p.status.address (held_addresses ps)
unfolding held_addresses
held_addresses-In [] p there held = elim there [ ]
held_addresses-In (x ∷ ps) p there held = elim (Bool-cases (is_empty x.status.address)) [
  | inl none_held ↦ elim there [
    | inl e ↦ absurd (held (ap address_of e ∙ is_empty→≡ x.status.address none_held))
    | inr later ↦ rw none_held (held_addresses-In ps p later held)
  ]
  | inr has ↦ elim there [
    | inl e ↦ rw has (inl (ap address_of e))
    | inr later ↦ rw has (inr (held_addresses-In ps p later held))
  ]
]

pub get_used_ips-Counted :
    (cidr4 : Str) (ps : List WireguardPeer)
    → All (λ p. p.status.address ≢ [] → In p.status.address (get_used_ips cidr4 ps)) ps
unfolding get_used_ips
get_used_ips-Counted cidr4 ps = All-of_In _ ps (λ p there held.
    In-append_right p.status.address (derive_reserved_ips cidr4) (held_addresses ps)
      (held_addresses-In ps p there held))

pub get_used_ips-reserved :
    (cidr4 : Str) (ps : List WireguardPeer) (r : Str)
    → In r (derive_reserved_ips cidr4)
    → In r (get_used_ips cidr4 ps)
unfolding get_used_ips
get_used_ips-reserved cidr4 ps r h =
    In-append_left r (derive_reserved_ips cidr4) (held_addresses ps) h
