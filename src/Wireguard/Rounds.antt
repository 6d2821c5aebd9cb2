-- ===== src/Wireguard/Rounds.antt =====
-- The rounds of createPeersConfiguration and the entries that they leave.
use wireguard_operator.Prelude.{
  ◌≢◌, str_eq_iff, false, In, Str, str_eq→≡, str_eq, true, ◌||◌, List, [], ◌∷◌, ◌++◌, ◌⊎◌, inl, inr,
  Option, none, some, ◌≡◌, refl, sym, ap, ◌∙◌, subst, arith, Bool-cases,
}
use wireguard_operator.Api.Types.{WireguardPeer}
use wireguard_operator.Api.External.{WgTypes}
use wireguard_operator.Netip.Addr.{Prefix}
use wireguard_operator.Wireguard.{
  allowed_ips_equal, on_device, DevicePeer, PeerConfig, state_of, Change, failed, unchanged, change,
  add_change, changes, has_config, by_key,
}
use wireguard_operator.Wireguard.Address.{prefix_eq→≡}

pub has_config_append :
    (wgtypes : WgTypes) (cs ns : List PeerConfig) (key : Str)
    → has_config wgtypes (cs ++ ns) key ≡ (has_config wgtypes cs key || has_config wgtypes ns key)
unfolding has_config
has_config_append wgtypes [] ns key = refl
has_config_append wgtypes (c ∷ cs) ns key = ground (arith, has_config_append wgtypes cs ns key)

-- the last entry of a key stays
pub by_key_covers :
    (wgtypes : WgTypes) (cs : List PeerConfig) (key : Str)
    → has_config wgtypes cs key ≡ true
    → has_config wgtypes (by_key wgtypes cs) key ≡ true
unfolding by_key has_config
by_key_covers wgtypes [] key h = h
by_key_covers wgtypes (c ∷ cs) key h =
    elim (Bool-cases (has_config wgtypes cs (wgtypes.key_text c.public_key))) [
      | inr last ↦ rw last (elim (Bool-cases (str_eq (wgtypes.key_text c.public_key) key)) [
        | inl here ↦ ground (arith, here)
        | inr other ↦ ground (arith, other, by_key_covers wgtypes cs key)
      ])
      | inl later ↦ rw later (
          by_key_covers wgtypes cs key
            (elim (Bool-cases (str_eq (wgtypes.key_text c.public_key) key)) [
              | inl here ↦
                  subst (λ k. has_config wgtypes cs k ≡ true)
                    (str_eq→≡ (wgtypes.key_text c.public_key) key here) later
              | inr other ↦ ground (arith, other)
            ]))
    ]

module _ {A : Type 0} (wgtypes : WgTypes) (f : A → Change) where
  add_change-covers :
      (x : Change) (rest : Option (List PeerConfig)) (out : List PeerConfig) (key : Str)
      → add_change x rest ≡ some out
      → ((c : PeerConfig) × (x ≡ change c) × (str_eq (wgtypes.key_text c.public_key) key ≡ true))
        ⊎ ((cs : List PeerConfig) → rest ≡ some cs → has_config wgtypes cs key ≡ true)
      → has_config wgtypes out key ≡ true
  unfolding has_config
  add_change-covers failed rest out key h k = absurd (cc)
  add_change-covers unchanged rest out key h (inl (c, e, same)) = absurd (cc)
  add_change-covers unchanged rest out key h (inr later) = later out h
  add_change-covers (change c) none out key h k = absurd (cc)
  add_change-covers (change c) (some cs) out key h (inl (d, e, same)) =
      let here : str_eq (wgtypes.key_text c.public_key) key ≡ true =
        subst (λ y. str_eq (wgtypes.key_text y.public_key) key ≡ true) {x = d} {y = c} (cc) same in
      subst (λ o. has_config wgtypes o key ≡ true) {x = c ∷ cs} (cc) (ground (arith, here))
  add_change-covers (change c) (some cs) out key h (inr later) =
      subst (λ o. has_config wgtypes o key ≡ true) {x = c ∷ cs} (cc) (ground (arith, later cs refl))

  pub changes-covers :
      (items : List A) (out : List PeerConfig) (a : A) (c : PeerConfig) (key : Str)
      → changes f items ≡ some out
      → In a items
      → f a ≡ change c
      → str_eq (wgtypes.key_text c.public_key) key ≡ true
      → has_config wgtypes out key ≡ true
  unfolding changes
  changes-covers [] out a c key h m e same = elim m [ ]
  changes-covers (x ∷ xs) out a c key h (inl here) e same =
      add_change-covers (f x) (changes f xs) out key h (inl (c, ap f (sym here) ∙ e, same))
  changes-covers (x ∷ xs) out a c key h (inr later) e same =
      add_change-covers (f x) (changes f xs) out key h
        (inr (λ cs k. changes-covers xs cs a c key k later e same))

pub has_config-In :
    (wgtypes : WgTypes) (cs : List PeerConfig) (key : Str)
    → has_config wgtypes cs key ≡ true
    → (c : PeerConfig) × In c cs × (wgtypes.key_text c.public_key ≡ key)
unfolding has_config
has_config-In wgtypes [] key h = absurd (cc)
has_config-In wgtypes (c ∷ cs) key h =
    elim (Bool-cases (str_eq (wgtypes.key_text c.public_key) key)) [
      | inl here ↦ (c, inl refl, str_eq→≡ (wgtypes.key_text c.public_key) key here)
      | inr other ↦
          let (d, there, e) = has_config-In wgtypes cs key (ground (arith, other)) in
          (d, inr there, e)
    ]

-- a run without error takes no round that fails
pub changes-done :
    {A : Type 0} (f : A → Change) (items : List A) (out : List PeerConfig) (a : A)
    → changes f items ≡ some out
    → In a items
    → f a ≢ failed
unfolding changes
changes-done f [] out a h m = elim m [ ]
changes-done f (x ∷ xs) out a h (inl e) = λ k. cc (ap f e)
changes-done f (x ∷ xs) out a h (inr later) =
    by_first (λ cs k. changes-done f xs cs a k later) (f x) (changes f xs) refl h
  where
    by_first :
        ((cs : List PeerConfig) → changes f xs ≡ some cs → f a ≢ failed)
        → (y : Change) (rest : Option (List PeerConfig)) → changes f xs ≡ rest
        → add_change y rest ≡ some out
        → f a ≢ failed
    by_first go failed rest e k = absurd (cc)
    by_first go unchanged rest e k = go out (e ∙ k)
    by_first go (change c) none e k = absurd (cc)
    by_first go (change c) (some cs) e k = go cs e

-- the peer that the state has for a key, or that it has none
pub state_of_cases :
    (state : List WireguardPeer) (key : Str)
    → ((q : WireguardPeer) × (state_of state key ≡ some q) × In q state × (q.spec.public_key ≡ key))
      ⊎ ((state_of state key ≡ none) × ((p : WireguardPeer) → In p state → p.spec.public_key ≢ key))
unfolding state_of
state_of_cases [] key = inr (refl, λ p m. elim m [ ])
state_of_cases (x ∷ xs) key = elim (state_of_cases xs key) [
  | inl (q, e, m, k) ↦ inl (q, rw e refl, inr m, k)
  | inr (e, absent) ↦ elim (Bool-cases (str_eq x.spec.public_key key)) [
    | inl same ↦ inl (x, rw (e, same) refl, inl refl, str_eq→≡ x.spec.public_key key same)
    | inr other ↦ inr (
      rw (e, other) refl,
      λ p m k. elim m [
        | inl here ↦ cc (
          other,
          (str_eq_iff x.spec.public_key key).1 (ap (λ y. y.spec.public_key) (sym here) ∙ k),
        )
        | inr later ↦ absent p later k
      ],
    )
  ]
]

pub equal_ips : (ps qs : List Prefix) → allowed_ips_equal ps qs ≡ true → ps ≡ qs
unfolding allowed_ips_equal
equal_ips [] [] h = refl
equal_ips [] (q ∷ qs) h = absurd (cc)
equal_ips (p ∷ ps) [] h = absurd (cc)
equal_ips (p ∷ ps) (q ∷ qs) h = cc (prefix_eq→≡ p q (ground arith), equal_ips ps qs (ground arith))

pub off_device :
    (wgtypes : WgTypes) (device : List DevicePeer) (key : Str)
    → ((d : DevicePeer) → In d device → wgtypes.key_text d.public_key ≢ key)
    → on_device wgtypes device key ≡ false
unfolding on_device
off_device wgtypes [] key h = refl
off_device wgtypes (d ∷ ds) key h = elim (Bool-cases (str_eq (wgtypes.key_text d.public_key) key)) [
  | inl same ↦ absurd (h d (inl refl) (str_eq→≡ (wgtypes.key_text d.public_key) key same))
  | inr other ↦ rw other (off_device wgtypes ds key (λ e m. h e (inr m)))
]
