-- ===== src/Sidecar/Pass.antt =====
-- A pass of the client: step of internal/sidecar/sidecar.go and Apply of internal/sidecar/apply.go.
-- The errors' texts are left out.
pub mod Applied
use wireguard_operator.Prelude.{
  ℕ, zero, suc, ◌+◌, ◌-◌, ◌*◌, ◌/◌, ◌%◌, ◌^◌, ◌≤◌, ◌<◌, compare, Ordering, String, length,
  get_elem?, filter, any, find?, In, In-append_left, In-append_right, All, All-In, All-of_In,
  All-append, All-map, Str, str_eq→≡, str_eq_refl, str_eq_iff, is_empty→≡, is_empty_nil, text,
  str_eq, is_empty, str_compare, cut, has_byte, join, contains, contains→In, In→contains,
  contains-false, Bool, true, false, not, ◌&&◌, ◌||◌, List, [], ◌∷◌, ◌++◌, map, ◌≢◌, ◌↔◌, ◌⊎◌, inl,
  inr, Option, none, some, ◌≡◌, refl, sym, ap, ◌∙◌, subst, arith, ltb, leb, ◌==◌, if◌then◌else◌,
  Bool-cases, ==→≡, ==_refl, ltb→lt, ltb→le,
}
use wireguard_operator.Netip.Addr.{Prefix}
use wireguard_operator.Api.Types.{WireguardPeer}
use wireguard_operator.Api.Exec.{
  ApiError, Result, ok, err, Exec, other_error, pure, fail, attempt, ◌>>=◌, ◌>>◌,
}
use wireguard_operator.Api.External.{WgTypes, Key, Owners}
use wireguard_operator.Datapath.{wg_interface}
use wireguard_operator.Sidecar.{Config, PodClient, ensure_peer}
use wireguard_operator.Sidecar.Tunnel.{
  Tunnel, TunnelError, is_waiting, Parsed, good, bad, desired_tunnel,
}
use wireguard_operator.Sidecar.Tunnel.Device.{Device, DeviceConfig, device_config}
use wireguard_operator.Sidecar.RouteTable.{RouteTable, ensure_routes}
use wireguard_operator.Wireguard.Netlink.{Link, Node}
use wireguard_operator.Wireguard.Link.{sync_link, sync_address}

-- How a pass fails: the operator has yet to publish something (errWaiting), or another error.
pub data PassError : Type 0 where
  waiting_for_peer : PassError
  waiting_for : TunnelError → PassError
  broken : PassError

-- What a pass calls: the API, the node with its wgctrl client, and the route tables.
pub record Pod (W : Type 0) : Type 0 where
  pub client : PodClient W
  pub node : Node W
  pub routes : RouteTable W
  pub device : Str → Exec W Device
  pub configure_device : Str → DeviceConfig → Exec W Unit

-- TunnelMTU and UserspaceImplementation
abbrev pub tunnel_mtu : ℕ
tunnel_mtu = 1320

unfoldable pub userspace_implementation : Str
unfolding text
userspace_implementation = text "wireguard-go"

module _ {W : Type 0} (pod : Pod W) where
  abbrev pub configure : Option DeviceConfig → Exec W Unit
  unfolding wg_interface
  configure none = pure tt
  configure (some cfg) = pod.configure_device wg_interface cfg

  -- the part of Apply after the wgctrl client is opened
  unfoldable pub apply_device : Key → Tunnel → Exec W Unit
  unfolding ◌>>=◌ configure wg_interface
  apply_device key t = do
    dev ← pod.device wg_interface
    configure (device_config (some dev) key t)
    link ← pod.node.link_by_name wg_interface
    ensure_routes pod.routes link.index t.local_cidrs

  abbrev pub closing : Result Unit → Exec W Unit
  unfolding ◌>>=◌
  closing (ok u) = pod.node.close_client
  closing (err e) = do attempt pod.node.close_client; fail e

  -- podDatapath.Apply: the client is closed on every path
  unfoldable pub apply_tunnel : Key → Tunnel → Exec W Unit
  unfolding ◌>>=◌ closing wg_interface userspace_implementation
  apply_tunnel key t = do
    sync_link pod.node wg_interface tunnel_mtu userspace_implementation
    sync_address pod.node wg_interface t.address
    pod.node.open_client
    r ← attempt (apply_device key t)
    closing r

  module _ (wgtypes : WgTypes) (owners : Owners) (cfg : Config) (key : Key) where
    abbrev pub applied : Result Unit × W → Option PassError × W
    applied (ok u, w) = (none, w)
    applied (err e, w) = (some broken, w)

    abbrev pub with_tunnel : Parsed Tunnel → W → Option PassError × W
    with_tunnel (bad e) w = (some (if is_waiting e then waiting_for e else broken), w)
    with_tunnel (good t) w = applied (apply_tunnel key t w)

    abbrev pub with_peer : Result (Option WireguardPeer) × W → Option PassError × W
    with_peer (err e, w) = (some broken, w)
    with_peer (ok none, w) = (some waiting_for_peer, w)
    with_peer (ok (some peer), w) = with_tunnel (desired_tunnel wgtypes peer) w

    -- step: `none` is a nil error
    unfoldable pub step : W → Option PassError × W
    step w =
        with_peer (ensure_peer pod.client owners cfg (wgtypes.key_text (wgtypes.public_key key)) w)

    -- loop, with what happens in the pod between its passes: a pass at once, then one after each kick
    -- or tick, until the context is done
    unfoldable pub run_loop : List (W → W) → W → List (Option PassError) × W
    unfolding step
    run_loop [] w = ([], w)
    run_loop (between ∷ rest) w =
        let (outcome, w') = step w in
        let (outcomes, last) = run_loop rest (between w') in (outcome ∷ outcomes, last)
