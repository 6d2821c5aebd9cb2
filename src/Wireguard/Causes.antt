-- ===== src/Wireguard/Causes.antt =====
-- Why each entry of the device configuration is there.
use wireguard_operator.Prelude.{
  In, All, All-append, is_empty_nil, is_empty, false, List, [], ◌∷◌, ◌++◌, ◌≢◌, inl, inr, Option,
  none, some, ◌≡◌, refl, sym, ap, subst, arith, Bool-cases,
}
use wireguard_operator.Netip.Addr.{Prefix}
use wireguard_operator.Api.Types.{WireguardPeer}
use wireguard_operator.Api.External.{WgTypes, Key}
use wireguard_operator.Wireguard.{
  get_ip, allowed_ips_equal, DevicePeer, PeerConfig, state_of, slash_32, desired_allowed, Change,
  failed, unchanged, change, removal, update, update_to, for_device, device_change, addition,
  on_device, add_with, for_key, state_change, add_change, changes, has_config, by_key, joined,
  create_peers_configuration,
}

-- Why an entry of the device configuration is there: a device peer that the state does not list is
-- removed; one that it lists gets the allowed IPs of the state's peer, which differ from its own; a
-- state peer with a key and an address that is not on the device is added with that address.
pub data Cause (wgtypes : WgTypes) (state : List WireguardPeer) (device : List DevicePeer)
    : PeerConfig → Type 0 where
  unlisted :
      (d : DevicePeer)
      → In d device
      → state_of state (wgtypes.key_text d.public_key) ≡ none
      → Cause wgtypes state device (removal d)
  moved :
      (d : DevicePeer) (p : WireguardPeer) (ips : List Prefix)
      → In d device
      → state_of state (wgtypes.key_text d.public_key) ≡ some p
      → desired_allowed p ≡ some ips
      → allowed_ips_equal ips d.allowed_ips ≡ false
      → Cause wgtypes state device (update d ips)
  joining :
      (p : WireguardPeer) (key : Key) (ips : List Prefix)
      → In p state
      → wgtypes.parse_key p.spec.public_key ≡ some key
      → on_device wgtypes device (wgtypes.key_text key) ≡ false
      → p.status.address ≢ []
      → get_ip (p.status.address ++ slash_32) ≡ some ips
      → Cause wgtypes state device (addition key ips)

module _ {A : Type 0} (f : A → Change) (P : PeerConfig → Type 0) where
  add_change-All :
      (x : Change) (rest : Option (List PeerConfig)) (out : List PeerConfig)
      → add_change x rest ≡ some out
      → ((c : PeerConfig) → x ≡ change c → P c)
      → ((cs : List PeerConfig) → rest ≡ some cs → All P cs)
      → All P out
  add_change-All failed rest out h one later = absurd (cc)
  add_change-All unchanged rest out h one later = later out h
  add_change-All (change c) none out h one later = absurd (cc)
  add_change-All (change c) (some cs) out h one later =
      subst (All P) {x = c ∷ cs} (cc) (one c refl, later cs refl)

  changes-All :
      (items : List A) (out : List PeerConfig)
      → ((a : A) (c : PeerConfig) → In a items → f a ≡ change c → P c)
      → changes f items ≡ some out
      → All P out
  unfolding changes
  changes-All [] out each h = subst (All P) {x = []} (cc) tt
  changes-All (a ∷ items) out each h =
      add_change-All (f a) (changes f items) out h (λ c e. each a c (inl refl) e)
        (λ cs e. changes-All items cs (λ b c m. each b c (inr m)) e)

module _ (wgtypes : WgTypes) (state : List WireguardPeer) (device : List DevicePeer) where
  update_to-Cause :
      (d : DevicePeer) (p : WireguardPeer) (o : Option (List Prefix)) (c : PeerConfig)
      → In d device
      → state_of state (wgtypes.key_text d.public_key) ≡ some p
      → desired_allowed p ≡ o
      → update_to d o ≡ change c
      → Cause wgtypes state device c
  update_to-Cause d p none c m e k h = absurd (cc)
  update_to-Cause d p (some ips) c m e k h =
      elim (Bool-cases (allowed_ips_equal ips d.allowed_ips)) [
        | inl same ↦ absurd (cc (rw same at h))
        | inr differ ↦
            let made : change (update d ips) ≡ change c = rw differ at h in
            subst (Cause wgtypes state device) {x = update d ips} (cc) (moved d p ips m e k differ)
      ]

  for_device-Cause :
      (d : DevicePeer) (o : Option WireguardPeer) (c : PeerConfig)
      → In d device
      → state_of state (wgtypes.key_text d.public_key) ≡ o
      → for_device d o ≡ change c
      → Cause wgtypes state device c
  for_device-Cause d none c m e h =
      subst (Cause wgtypes state device) {x = removal d} (cc) (unlisted d m e)
  for_device-Cause d (some p) c m e h = update_to-Cause d p (desired_allowed p) c m e refl h

  add_with-Cause :
      (p : WireguardPeer) (key : Key) (o : Option (List Prefix)) (c : PeerConfig)
      → In p state
      → wgtypes.parse_key p.spec.public_key ≡ some key
      → on_device wgtypes device (wgtypes.key_text key) ≡ false
      → p.status.address ≢ []
      → get_ip (p.status.address ++ slash_32) ≡ o
      → add_with key o ≡ change c
      → Cause wgtypes state device c
  add_with-Cause p key none c m e free held k h = absurd (cc)
  add_with-Cause p key (some ips) c m e free held k h =
      subst (Cause wgtypes state device) {x = addition key ips} (cc)
        (joining p key ips m e free held k)

  for_key-Cause :
      (p : WireguardPeer) (o : Option Key) (c : PeerConfig)
      → In p state
      → p.status.address ≢ []
      → wgtypes.parse_key p.spec.public_key ≡ o
      → for_key wgtypes device p o ≡ change c
      → Cause wgtypes state device c
  for_key-Cause p none c m held e h = absurd (cc)
  for_key-Cause p (some key) c m held e h =
      elim (Bool-cases (on_device wgtypes device (wgtypes.key_text key))) [
        | inl there ↦ absurd (cc (rw there at h))
        | inr free ↦
            add_with-Cause p key (get_ip (p.status.address ++ slash_32)) c m e free held refl
              (rw free at h)
      ]

  state_change-Cause :
      (p : WireguardPeer) (c : PeerConfig)
      → In p state
      → state_change wgtypes device p ≡ change c
      → Cause wgtypes state device c
  unfolding state_change
  state_change-Cause p c m h =
      for_key-Cause p (wgtypes.parse_key p.spec.public_key) c m
        (λ e. ground (arith, ap is_empty e, is_empty_nil)) refl (ground arith)

by_key-All :
    (wgtypes : WgTypes) (P : PeerConfig → Type 0) (cs : List PeerConfig)
    → All P cs
    → All P (by_key wgtypes cs)
unfolding by_key
by_key-All wgtypes P [] h = tt
by_key-All wgtypes P (c ∷ cs) (a, h) =
    elim (Bool-cases (has_config wgtypes cs (wgtypes.key_text c.public_key))) [
      | inl later ↦ rw later (by_key-All wgtypes P cs h)
      | inr last ↦ rw last (a, by_key-All wgtypes P cs h)
    ]

pub joined-some :
    (wgtypes : WgTypes) (x y : Option (List PeerConfig)) (out : List PeerConfig)
    → joined wgtypes x y ≡ some out
    → (cs : List PeerConfig) × (ns : List PeerConfig) × (x ≡ some cs)
      × (y ≡ some ns)
      × (out ≡ by_key wgtypes (cs ++ ns))
joined-some wgtypes none y out h = absurd (cc)
joined-some wgtypes (some cs) none out h = absurd (cc)
joined-some wgtypes (some cs) (some ns) out h = (cs, ns, refl, refl, cc)

-- Each entry of the configuration that createPeersConfiguration gives has a cause: it removes a
-- device peer that the state does not list, moves one to the allowed IPs of the state's peer, or adds
-- a state peer with a key and an address that is not on the device.
pub create_peers_configuration-Cause :
    (wgtypes : WgTypes) (state : List WireguardPeer) (device : List DevicePeer)
    (out : List PeerConfig)
    → create_peers_configuration wgtypes state device ≡ some out
    → All (Cause wgtypes state device) out
unfolding create_peers_configuration device_change
create_peers_configuration-Cause wgtypes state device out h =
    let (cs, ns, e, k, shape) = joined-some wgtypes _ _ out h in
    subst (All (Cause wgtypes state device)) (sym shape) (
      by_key-All wgtypes (Cause wgtypes state device) (cs ++ ns) (
        All-append (Cause wgtypes state device) cs ns
          (changes-All (device_change wgtypes state) (Cause wgtypes state device) device cs
            (λ d c m.
              for_device-Cause wgtypes state device d
                (state_of state (wgtypes.key_text d.public_key)) c m refl)
            e)
          (changes-All (state_change wgtypes device) (Cause wgtypes state device) state ns
            (λ p c m. state_change-Cause wgtypes state device p c m) k)))
