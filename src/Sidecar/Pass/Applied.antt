-- ===== src/Sidecar/Pass/Applied.antt =====
-- What a pass of the client that returns no error has done.
use wireguard_operator.Prelude.{Str, ◌⊎◌, inl, inr, Option, none, some, ◌≡◌, refl, ap}
use wireguard_operator.Api.Types.{WireguardPeer}
use wireguard_operator.Api.Exec.{Result, ok, err, fail}
use wireguard_operator.Api.Returns.{Answered, Returns, Returns-fail, Returns-then, Returns-attempt}
use wireguard_operator.Api.External.{WgTypes, Key, Owners}
use wireguard_operator.Datapath.{wg_interface}
use wireguard_operator.Sidecar.{Config, ensure_peer}
use wireguard_operator.Sidecar.Registration.{Own, ensure_peer-Own}
use wireguard_operator.Sidecar.Tunnel.{Tunnel, Parsed, good, bad, desired_tunnel}
use wireguard_operator.Sidecar.Tunnel.Laws.{Published, desired_tunnel-Published}
use wireguard_operator.Sidecar.Tunnel.Device.{Device, DeviceConfig, device_config}
use wireguard_operator.Sidecar.RouteTable.{ensure_routes}
use wireguard_operator.Wireguard.Netlink.{Link}
use wireguard_operator.Wireguard.Link.{sync_link, sync_address}
use wireguard_operator.Sidecar.Pass.{
  Pod, tunnel_mtu, userspace_implementation, configure, apply_device, closing, apply_tunnel,
  applied, with_tunnel, with_peer, step,
}

module _ {W : Type 0} (pod : Pod W) (key : Key) (t : Tunnel) where
  -- The device holds the tunnel: it matched already, or it was configured.
  abbrev pub Holds : Device → Type 0
  Holds dev =
      (device_config (some dev) key t ≡ none)
      ⊎ ((cfg : DeviceConfig) × (device_config (some dev) key t ≡ some cfg)
          × Answered (pod.configure_device wg_interface cfg) tt)

  pub record AppliedTunnel : Type 0 where
    pub linked : Answered (sync_link pod.node wg_interface tunnel_mtu userspace_implementation) tt
    pub addressed : Answered (sync_address pod.node wg_interface t.address) tt
    pub dev : Device
    pub read : Answered (pod.device wg_interface) dev
    pub held : Holds dev
    pub link : Link
    pub found : Answered (pod.node.link_by_name wg_interface) link
    pub routed : Answered (ensure_routes pod.routes link.index t.local_cidrs) tt

  configure-Holds :
      (dev : Device) (o : Option DeviceConfig) (w : W)
      → device_config (some dev) key t ≡ o
      → (configure pod o w).0 ≡ ok tt
      → Holds dev
  unfolding configure
  configure-Holds dev none w e h = inl e
  configure-Holds dev (some cfg) w e h = inr (cfg, e, (w, h))

  -- the part after the link and the address
  abbrev Routed : Type 0
  Routed =
      (dev : Device) × Answered (pod.device wg_interface) dev
      × Holds dev
      × ((link : Link) × Answered (pod.node.link_by_name wg_interface) link
          × Answered (ensure_routes pod.routes link.index t.local_cidrs) tt)

  apply_device-Routed : Returns (λ u. Routed) (apply_device pod key t)
  unfolding apply_device
  apply_device-Routed = Returns-then _ (pod.device wg_interface) _ (λ dev read.
      Returns-then _ (configure pod (device_config (some dev) key t)) _ (λ u (w, set).
        Returns-then _ (pod.node.link_by_name wg_interface) _ (λ link found. λ w' v routed. (
          dev,
          read,
          configure-Holds dev (device_config (some dev) key t) w refl set,
          (link, found, (w', routed)),
        ))))

  closing-Routed :
      (r : Result Unit) (w : W)
      → (apply_device pod key t w).0 ≡ r
      → Returns (λ u. Routed) (closing pod r)
  unfolding closing
  closing-Routed (ok u) w h = λ w' v e. apply_device-Routed w tt h
  closing-Routed (err e) w h =
      Returns-attempt _ pod.node.close_client (λ r. fail e) (λ r w' e'. Returns-fail _ e)

  apply_tunnel-AppliedTunnel : Returns (λ u. AppliedTunnel) (apply_tunnel pod key t)
  unfolding apply_tunnel
  apply_tunnel-AppliedTunnel =
      Returns-then _ (sync_link pod.node wg_interface tunnel_mtu userspace_implementation) _
        (λ a linked. Returns-then _ (sync_address pod.node wg_interface t.address) _ (λ b addressed.
          Returns-then _ pod.node.open_client _ (λ c opened.
            Returns-attempt _ (apply_device pod key t) (closing pod) (λ r w h. λ w' v e.
              let (dev, read, held, (link, found, routed)) = closing-Routed r w h w' v e in
              record {
                linked = linked;
                addressed = addressed;
                dev = dev;
                read = read;
                held = held;
                link = link;
                found = found;
                routed = routed;
              }))))

module _ {W : Type 0} (pod : Pod W) (wgtypes : WgTypes) (owners : Owners) (cfg : Config)
    (key : Key) where
  abbrev public_text : Str
  public_text = wgtypes.key_text (wgtypes.public_key key)

  -- The tunnel of this pod's own peer is applied.
  pub record IsApplied : Type 0 where
    pub peer : WireguardPeer
    pub own : Own owners cfg (wgtypes.key_text (wgtypes.public_key key)) peer
    pub tunnel : Tunnel
    pub published : Published wgtypes peer tunnel
    pub applied : AppliedTunnel pod key tunnel

  applied-none :
      (r : Result Unit × W) → (applied pod wgtypes owners cfg key r).0 ≡ none → r.0 ≡ ok tt
  applied-none (ok u, w) h = refl
  applied-none (err e, w) h = absurd (cc)

  with_tunnel-IsApplied :
      (peer : WireguardPeer)
      → Own owners cfg public_text peer
      → (r : Parsed Tunnel) (w : W) → desired_tunnel wgtypes peer ≡ r
      → (with_tunnel pod wgtypes owners cfg key r w).0 ≡ none
      → IsApplied
  with_tunnel-IsApplied peer own (bad e) w h k = absurd (cc)
  with_tunnel-IsApplied peer own (good t) w h k = record {
    peer = peer;
    own = own;
    tunnel = t;
    published = desired_tunnel-Published wgtypes peer t h;
    applied = apply_tunnel-AppliedTunnel pod key t w tt (applied-none (apply_tunnel pod key t w) k);
  }

  with_peer-IsApplied :
      (w0 : W) (r : Result (Option WireguardPeer) × W)
      → ensure_peer pod.client owners cfg public_text w0 ≡ r
      → (with_peer pod wgtypes owners cfg key r).0 ≡ none
      → IsApplied
  with_peer-IsApplied w0 (err e, w) h k = absurd (cc)
  with_peer-IsApplied w0 (ok none, w) h k = absurd (cc)
  with_peer-IsApplied w0 (ok (some peer), w) h k =
      with_tunnel-IsApplied peer
        (ensure_peer-Own pod.client owners cfg public_text w0 peer (ap (λ r. r.0) h))
        (desired_tunnel wgtypes peer) w refl k

  -- When a pass of the client returns no error, then it read a peer that is this pod's own, with its
  -- public key, its Wireguard and its Pod as the owner; the tunnel that the peer's status publishes
  -- was applied: the link at the tunnel's MTU and the address were synced, the device matched the
  -- tunnel or was configured for it, and the routes were put in place.
  pub step-IsApplied : (w : W) → (step pod wgtypes owners cfg key w).0 ≡ none → IsApplied
  unfolding step
  step-IsApplied w h =
      with_peer-IsApplied w (ensure_peer pod.client owners cfg public_text w) refl h
