-- ===== src/Wireguard/Address.antt =====
-- The server's link holds its one address.
use wireguard_operator.Prelude.{
  In, true, false, List, [], ◌∷◌, ◌⊎◌, inl, inr, ◌≡◌, sym, ap, ◌∙◌, arith, Bool-cases, ==→≡,
  ==_refl,
}
use wireguard_operator.Netip.Addr.{Prefix, prefix_eq}
use wireguard_operator.Netip.Laws.{addr_eq→≡, addr_eq_refl}
use wireguard_operator.Wireguard.{has_address, others, address_changes}

pub prefix_eq→≡ : (p q : Prefix) → prefix_eq p q ≡ true → p ≡ q
unfolding prefix_eq
prefix_eq→≡ p q h =
    cc (addr_eq→≡ p.addr q.addr (ground arith), ==→≡ p.bits_plus_one q.bits_plus_one (ground arith))

pub prefix_eq_refl : (p : Prefix) → prefix_eq p p ≡ true
unfolding prefix_eq
prefix_eq_refl p = ground (arith, addr_eq_refl p.addr, ==_refl p.bits_plus_one)

pub others-In :
    (have : List Prefix) (want p : Prefix) → In p have → (p ≡ want) ⊎ In p (others have want)
unfolding others
others-In [] want p h = elim h [ ]
others-In (q ∷ qs) want p h = elim (Bool-cases (prefix_eq q want)) [
  | inl same ↦ elim h [
    | inl e ↦ inl (e ∙ prefix_eq→≡ q want same)
    | inr later ↦ rw same (others-In qs want p later)
  ]
  | inr differ ↦ rw differ (elim h [
    | inl e ↦ inr (inl e)
    | inr later ↦ elim (others-In qs want p later) [ inl e ↦ inl e | inr deep ↦ inr (inr deep) ]
  ])
]

pub others-keeps : (have : List Prefix) (want : Prefix) → ¬ In want (others have want)
unfolding others
others-keeps [] want h = elim h [ ]
others-keeps (q ∷ qs) want h = elim (Bool-cases (prefix_eq q want)) [
  | inl same ↦ others-keeps qs want (rw same at h)
  | inr differ ↦
      let split : (want ≡ q) ⊎ In want (others qs want) = rw differ at h in
      elim split [
        | inl e ↦ cc (ap (λ x. prefix_eq x want) e, prefix_eq_refl want, differ)
        | inr later ↦ others-keeps qs want later
      ]
]

has_address-In : (have : List Prefix) (want : Prefix) → has_address have want ≡ true → In want have
unfolding has_address
has_address-In [] want h = absurd (cc)
has_address-In (q ∷ qs) want h = elim (Bool-cases (prefix_eq q want)) [
  | inl same ↦ inl (sym (prefix_eq→≡ q want same))
  | inr differ ↦ inr (has_address-In qs want (ground (arith, differ)))
]

-- addressChanges removes every address of the link but `want`, never `want` itself, and adds `want`
-- when the link does not hold it: after the changes it is the link's only address.
pub address_changes-only :
    (have : List Prefix) (want : Prefix)
    → ((p : Prefix) → In p have → (p ≡ want) ⊎ In p (address_changes have want).0)
      × (¬ In want (address_changes have want).0)
      × ((address_changes have want).1 ≡ false → In want have)
unfolding address_changes
address_changes-only have want = (
  λ p h. others-In have want p h,
  others-keeps have want,
  λ h. has_address-In have want (ground arith),
)
