-- ===== src/Wireguard/Netlink.antt =====
-- What internal/wireguard/wireguard.go calls of netlink, of wgctrl and of the operating system, as
-- an interface over the node's state. `not_found` is netlink's LinkNotFoundError or a missing file.
use wireguard_operator.Prelude.{ℕ, ◌+◌, ◌≤◌, In, Str, Bool, List, ◌≢◌, ◌↔◌, ◌⊎◌, Option, ◌≡◌}
use wireguard_operator.Netip.Addr.{Addr, Prefix}
use wireguard_operator.Api.Exec.{Exec, ok}
use wireguard_operator.Api.External.{Key}
use wireguard_operator.Wireguard.{DevicePeer, PeerConfig}

pub record Link : Type 0 where
  pub index : ℕ
  pub mtu : ℕ

-- netlink.Route
pub record LinkRoute : Type 0 where
  pub link_index : ℕ
  pub dst : Option Prefix
  pub gw : Option Addr

-- wgtypes.Config
pub record DeviceConfig : Type 0 where
  pub private_key : Key
  pub listen_port : ℕ
  pub replace_peers : Bool
  pub peers : List PeerConfig

pub record Node (W : Type 0) : Type 0 where
  pub link_by_name : Str → Exec W Link
  pub link_add : Str → ℕ → Exec W Unit
  pub link_set_mtu : Link → ℕ → Exec W Unit
  pub link_set_up : Link → Exec W Unit
  pub addr_list : Link → Exec W (List Prefix)
  pub addr_del : Link → Prefix → Exec W Unit
  pub addr_add : Link → Prefix → Exec W Unit
  pub route_list : Link → Exec W (List LinkRoute)
  pub route_add : LinkRoute → Exec W Unit
  -- the device file of tun: its directory, whether it is a character device, its creation
  pub mkdir_dev_net : Exec W Unit
  pub stat_tun : Exec W Bool
  pub mknod_tun : Exec W Unit
  pub start_command : Str → Str → Exec W Unit
  -- the clock, in nanoseconds
  pub now : W → ℕ × W
  pub sleep : ℕ → W → W
  -- a wgctrl client, used between its opening and its closing
  pub open_client : Exec W Unit
  pub close_client : Exec W Unit
  pub device_peers : Str → Exec W (List DevicePeer)
  pub configure_device : Str → DeviceConfig → Exec W Unit

-- The clock never runs backwards, a reading of it lies between its times before and after, and a
-- sleep lasts at least as long as was asked for.
pub record Clock (W : Type 0) (node : Node W) : Type 0 where
  pub time : W → ℕ
  pub now-time : (w : W) → (time w ≤ (node.now w).0) × ((node.now w).0 ≤ time (node.now w).1)
  pub sleep-time : (d : ℕ) (w : W) → time w + d ≤ time (node.sleep d w)
  pub link-time : (iface : Str) (w : W) → time w ≤ time (node.link_by_name iface w).1

-- The IPv4 addresses of the node's links, by the index of the link, when nothing else writes them.
pub record Addresses (W : Type 0) (node : Node W) : Type 0 where
  pub held : W → ℕ → List Prefix
  pub link-held : (iface : Str) (w : W) (i : ℕ) → held (node.link_by_name iface w).1 i ≡ held w i
  pub list-held :
      (link : Link) (w : W) (ps : List Prefix)
      → (node.addr_list link w).0 ≡ ok ps
      → ps ≡ held w link.index
  pub list-same : (link : Link) (w : W) (i : ℕ) → held (node.addr_list link w).1 i ≡ held w i
  pub del-held :
      (link : Link) (p q : Prefix) (w : W)
      → (node.addr_del link p w).0 ≡ ok tt
      → In q (held (node.addr_del link p w).1 link.index) ↔ (In q (held w link.index) × (q ≢ p))
  pub del-other :
      (link : Link) (p : Prefix) (w : W) (i : ℕ)
      → i ≢ link.index
      → held (node.addr_del link p w).1 i ≡ held w i
  pub add-held :
      (link : Link) (p q : Prefix) (w : W)
      → (node.addr_add link p w).0 ≡ ok tt
      → In q (held (node.addr_add link p w).1 link.index) ↔ (In q (held w link.index) ⊎ (q ≡ p))
  pub add-other :
      (link : Link) (p : Prefix) (w : W) (i : ℕ)
      → i ≢ link.index
      → held (node.addr_add link p w).1 i ≡ held w i
  pub up-held : (link : Link) (w : W) (i : ℕ) → held (node.link_set_up link w).1 i ≡ held w i
