-- ===== src/Wireguard/Covers.antt =====
-- The device configuration leaves out no change.
use wireguard_operator.Prelude.{
  ◌≢◌, false, All-In, is_empty, is_empty→≡, In, Str, str_eq_refl, true, List, [], ◌++◌, inl, inr,
  Option, none, some, ◌≡◌, refl, sym, ap, ◌∙◌, subst, arith, Bool-cases,
}
use wireguard_operator.Api.Types.{WireguardPeer}
use wireguard_operator.Api.External.{WgTypes}
use wireguard_operator.Api.External.{Key}
use wireguard_operator.Netip.Addr.{Prefix}
use wireguard_operator.Wireguard.{
  get_ip, allowed_ips_equal, slash_32, desired_allowed, update, update_to, for_device, addition,
  on_device, add_with, DevicePeer, PeerConfig, state_of, failed, change, removal, device_change,
  state_change, has_config, create_peers_configuration,
}
use wireguard_operator.Wireguard.Causes.{joined-some, Cause, create_peers_configuration-Cause}
use wireguard_operator.Wireguard.Rounds.{
  equal_ips, has_config_append, by_key_covers, has_config-In, changes-done, state_of_cases,
  off_device, changes-covers,
}

module _ (wgtypes : WgTypes) (state : List WireguardPeer) (device : List DevicePeer) where
  -- an entry for the key, with its cause
  abbrev pub Entry : List PeerConfig → Str → Type 0
  Entry out key =
      (c : PeerConfig) × In c out
      × (wgtypes.key_text c.public_key ≡ key)
      × Cause wgtypes state device c

  -- What the configuration has an entry for: a device peer whose key no peer of the state has; one
  -- whose key exactly one peer of the state has, with other allowed IPs; and a peer of the state with
  -- a key and an address whose key no device peer has.
  pub record Covered (out : List PeerConfig) : Type 0 where
    pub removed :
        (d : DevicePeer)
        → In d device
        → ((p : WireguardPeer) → In p state → p.spec.public_key ≢ wgtypes.key_text d.public_key)
        → Entry out (wgtypes.key_text d.public_key)
    pub moved :
        (d : DevicePeer) (p : WireguardPeer) (ips : List Prefix)
        → In d device
        → In p state
        → p.spec.public_key ≡ wgtypes.key_text d.public_key
        → ((q : WireguardPeer)
            → In q state
            → q.spec.public_key ≡ wgtypes.key_text d.public_key
            → q ≡ p)
        → desired_allowed p ≡ some ips
        → ips ≢ d.allowed_ips
        → Entry out (wgtypes.key_text d.public_key)
    pub added :
        (p : WireguardPeer) (key : Key)
        → In p state
        → p.spec.public_key ≢ []
        → p.status.address ≢ []
        → wgtypes.parse_key p.spec.public_key ≡ some key
        → ((d : DevicePeer) → In d device → wgtypes.key_text d.public_key ≢ wgtypes.key_text key)
        → Entry out (wgtypes.key_text key)

  moved-change :
      (d : DevicePeer) (p : WireguardPeer) (ips : List Prefix)
      → state_of state (wgtypes.key_text d.public_key) ≡ some p
      → desired_allowed p ≡ some ips
      → ips ≢ d.allowed_ips
      → device_change wgtypes state d ≡ change (update d ips)
  unfolding device_change
  moved-change d p ips e k differ = elim (Bool-cases (allowed_ips_equal ips d.allowed_ips)) [
    | inl same ↦ absurd (differ (equal_ips ips d.allowed_ips same))
    | inr other ↦ ap (for_device d) e ∙ ap (update_to d) k ∙ rw other refl
  ]

  added-change :
      (p : WireguardPeer) (key : Key)
      → p.spec.public_key ≢ []
      → p.status.address ≢ []
      → wgtypes.parse_key p.spec.public_key ≡ some key
      → on_device wgtypes device (wgtypes.key_text key) ≡ false
      → state_change wgtypes device p ≢ failed
      → (ips : List Prefix) × (state_change wgtypes device p ≡ change (addition key ips))
  unfolding state_change
  added-change p key keyed placed parsed absent fine =
      let made : state_change wgtypes device p
          ≡ add_with key (get_ip (p.status.address ++ slash_32)) =
        rw
          (full p.spec.public_key keyed, full p.status.address placed, parsed, absent, state_change)
          refl in
      by_ip (get_ip (p.status.address ++ slash_32)) made
    where
      full : (s : Str) → s ≢ [] → is_empty s ≡ false
      full s h = elim (Bool-cases (is_empty s)) [
        | inl empty ↦ absurd (h (is_empty→≡ s empty))
        | inr other ↦ other
      ]

      by_ip :
          (o : Option (List Prefix))
          → state_change wgtypes device p ≡ add_with key o
          → (ips : List Prefix) × (state_change wgtypes device p ≡ change (addition key ips))
      by_ip none h = absurd (fine h)
      by_ip (some ips) h = (ips, h)

  -- What a round of either loop asks for has an entry of its key.
  from_device :
      (out : List PeerConfig) (d : DevicePeer) (c : PeerConfig)
      → create_peers_configuration wgtypes state device ≡ some out
      → In d device
      → device_change wgtypes state d ≡ change c
      → has_config wgtypes out (wgtypes.key_text c.public_key) ≡ true
  unfolding create_peers_configuration
  from_device out d c h m asks =
      let (cs, ns, e, k, shape) = joined-some wgtypes _ _ out h in
      subst (λ o. has_config wgtypes o (wgtypes.key_text c.public_key) ≡ true) (sym shape)
        (by_key_covers wgtypes (cs ++ ns) (wgtypes.key_text c.public_key) (
          ground (
            arith,
            has_config_append wgtypes cs ns (wgtypes.key_text c.public_key),
            changes-covers wgtypes (device_change wgtypes state) device cs d c
                (wgtypes.key_text c.public_key) e m asks
                (str_eq_refl (wgtypes.key_text c.public_key)),
          )))

  from_state :
      (out : List PeerConfig) (p : WireguardPeer) (c : PeerConfig)
      → create_peers_configuration wgtypes state device ≡ some out
      → In p state
      → state_change wgtypes device p ≡ change c
      → has_config wgtypes out (wgtypes.key_text c.public_key) ≡ true
  unfolding create_peers_configuration
  from_state out p c h m asks =
      let (cs, ns, e, k, shape) = joined-some wgtypes _ _ out h in
      subst (λ o. has_config wgtypes o (wgtypes.key_text c.public_key) ≡ true) (sym shape)
        (by_key_covers wgtypes (cs ++ ns) (wgtypes.key_text c.public_key) (
          ground (
            arith,
            has_config_append wgtypes cs ns (wgtypes.key_text c.public_key),
            changes-covers wgtypes (state_change wgtypes device) state ns p c
                (wgtypes.key_text c.public_key) k m asks
                (str_eq_refl (wgtypes.key_text c.public_key)),
          )))

  state_fine :
      (out : List PeerConfig) (p : WireguardPeer)
      → create_peers_configuration wgtypes state device ≡ some out
      → In p state
      → state_change wgtypes device p ≢ failed
  unfolding create_peers_configuration
  state_fine out p h m =
      let (cs, ns, e, k, shape) = joined-some wgtypes _ _ out h in
      changes-done (state_change wgtypes device) state ns p k m

  with_cause :
      (out : List PeerConfig) (key : Str)
      → create_peers_configuration wgtypes state device ≡ some out
      → has_config wgtypes out key ≡ true
      → Entry out key
  with_cause out key h has =
      let (c, there, e) = has_config-In wgtypes out key has in
      (
        c,
        there,
        e,
        All-In (Cause wgtypes state device) out
            (create_peers_configuration-Cause wgtypes state device out h) c there,
      )

  -- createPeersConfiguration leaves out no change. When it returns no error, its result has an entry,
  -- with the cause of that entry, for each device peer whose key no peer of the state has, for each
  -- device peer whose key one peer of the state has with other allowed IPs, and for each peer of the
  -- state with a key and an address whose key no device peer has.
  pub create_peers_configuration-Covered :
      (out : List PeerConfig)
      → create_peers_configuration wgtypes state device ≡ some out
      → Covered out
  unfolding device_change
  create_peers_configuration-Covered out h = record {
    removed = λ d m absent. with_cause out (wgtypes.key_text d.public_key) h (
        from_device out d (removal d) h m
          (elim (state_of_cases state (wgtypes.key_text d.public_key)) [
            | inl (q, e, there, k) ↦ absurd (absent q there k)
            | inr (e, _) ↦ ap (for_device d) e
          ]));
    moved = λ d p ips m there keyed only desired differ.
        with_cause out (wgtypes.key_text d.public_key) h (
          from_device out d (update d ips) h m (
            moved-change d p ips
              (elim (state_of_cases state (wgtypes.key_text d.public_key)) [
                | inl (q, e, listed, k) ↦ e ∙ ap some (only q listed k)
                | inr (e, absent) ↦ absurd (absent p there keyed)
              ])
              desired differ));
    added = λ p key m keyed placed parsed absent.
        let (ips, asks) =
          added-change p key keyed placed parsed
            (off_device wgtypes device (wgtypes.key_text key) absent) (state_fine out p h m) in
        with_cause out (wgtypes.key_text key) h (from_state out p (addition key ips) h m asks);
  }
