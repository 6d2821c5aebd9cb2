-- ===== src/Wireguard/Link.antt =====
-- Sync of internal/wireguard/wireguard.go, with the link, its address, its route and the device's
-- configuration. The errors' texts are left out, but for the two kinds of failure of a wait.
pub mod Waiting
pub mod Only
use wireguard_operator.Prelude.{
  ℕ, zero, suc, ◌+◌, ◌-◌, ◌*◌, ◌/◌, ◌%◌, ◌^◌, ◌≤◌, ◌<◌, compare, Ordering, String, length,
  get_elem?, filter, any, find?, In, In-append_left, In-append_right, All, All-In, All-of_In,
  All-append, All-map, Str, str_eq→≡, str_eq_refl, str_eq_iff, is_empty→≡, is_empty_nil, text,
  str_eq, is_empty, str_compare, cut, has_byte, join, contains, contains→In, In→contains,
  contains-false, Bool, true, false, not, ◌&&◌, ◌||◌, List, [], ◌∷◌, ◌++◌, map, ◌≢◌, ◌↔◌, ◌⊎◌, inl,
  inr, Option, none, some, ◌≡◌, refl, sym, ap, ◌∙◌, subst, arith, ltb, leb, ◌==◌, if◌then◌else◌,
  Bool-cases, ==→≡, ==_refl, ltb→lt, ltb→le,
}
use wireguard_operator.Netip.Addr.{Addr, Prefix}
use wireguard_operator.Netip.Parse.{parse_prefix}
use wireguard_operator.Api.Exec.{
  ApiError, not_found, conflict, already_exists, invalid_object, other_error, Result, ok, err, Exec,
  pure, fail, attempt, ◌>>=◌, ◌>>◌,
}
use wireguard_operator.Api.External.{WgTypes, Key}
use wireguard_operator.Agent.{State, peer_cidr}
use wireguard_operator.Wireguard.{
  address_changes, gateway_ip_from_prefix, parse_cidr, create_peers_configuration, PeerConfig,
}
use wireguard_operator.Wireguard.Netlink.{Link, LinkRoute, DeviceConfig, Node}

-- How a wait for a link ends; a model's run may also be cut short.
pub data Wait : Type 0 where
  found timed_out out_of_fuel : Wait

-- 100 * time.Millisecond and userspaceLinkTimeout
abbrev pub poll_interval : ℕ
poll_interval = 100000000

abbrev pub userspace_link_timeout : ℕ
userspace_link_timeout = 5000000000

-- MTU
abbrev pub server_mtu : ℕ
server_mtu = 1420

abbrev some_failure : ApiError
some_failure = other_error []

module _ {W : Type 0} (node : Node W) where
  -- an optional value whose absence is an error
  abbrev pub or_fail : {A : Type 0} → Option A → Exec W A
  or_fail (some a) = pure a
  or_fail none = fail some_failure

  abbrev pub one_poll : ℕ → (W → Wait × W) → Result Link × W → Wait × W
  one_poll deadline rest (ok link, w) = (found, w)
  one_poll deadline rest (err e, w) =
      let (t, w') = node.now w in
      if ltb deadline t then (timed_out, w') else rest (node.sleep poll_interval w')

  -- the loop of waitForLink
  unfoldable pub poll : ℕ → Str → ℕ → W → Wait × W
  poll zero iface deadline w = (out_of_fuel, w)
  poll (suc fuel) iface deadline w =
      one_poll deadline (λ w'. poll fuel iface deadline w') (node.link_by_name iface w)

  -- waitForLink
  unfoldable pub wait_for_link : Str → ℕ → W → Wait × W
  unfolding poll
  wait_for_link iface timeout w =
      let (t, w') = node.now w in poll (suc (timeout / poll_interval + 1)) iface (t + timeout) w'

  abbrev waited : Wait × W → Result Unit × W
  waited (found, w) = (ok tt, w)
  waited (timed_out, w) = (err some_failure, w)
  waited (out_of_fuel, w) = (err some_failure, w)

  abbrev wait_or_fail : Str → ℕ → Exec W Unit
  unfolding wait_for_link
  wait_or_fail iface timeout w = waited (wait_for_link iface timeout w)

  abbrev tun_checked : Result Bool → Exec W Unit
  tun_checked (ok true) = pure tt
  tun_checked (ok false) = fail some_failure
  tun_checked (err not_found) = node.mknod_tun
  tun_checked (err conflict) = fail conflict
  tun_checked (err already_exists) = fail already_exists
  tun_checked (err invalid_object) = fail invalid_object
  tun_checked (err (other_error s)) = fail (other_error s)

  -- createLinkUsingUserspaceImpl
  unfoldable pub create_link_using_userspace_impl : Str → Str → Exec W Unit
  unfolding ◌>>=◌
  create_link_using_userspace_impl iface command = do
    node.mkdir_dev_net
    r ← attempt node.stat_tun
    tun_checked r
    node.start_command command iface

  abbrev created : Str → Str → Result Unit → Exec W Unit
  unfolding ◌>>=◌ wait_or_fail
  created iface command (ok u) = pure tt
  created iface command (err e) = do
    create_link_using_userspace_impl iface command
    wait_or_fail iface userspace_link_timeout

  abbrev created_link : Str → ℕ → Str → Exec W Link
  unfolding ◌>>=◌ created
  created_link iface mtu command = do
    r ← attempt (node.link_add iface mtu)
    created iface command r
    node.link_by_name iface

  abbrev present : Str → ℕ → Str → Result Link → Exec W Link
  unfolding created_link
  present iface mtu command (ok link) = pure link
  present iface mtu command (err not_found) = created_link iface mtu command
  present iface mtu command (err conflict) = fail conflict
  present iface mtu command (err already_exists) = fail already_exists
  present iface mtu command (err invalid_object) = fail invalid_object
  present iface mtu command (err (other_error s)) = fail (other_error s)

  -- SyncLink, with createLinkUsingKernelModule
  unfoldable pub sync_link : Str → ℕ → Str → Exec W Unit
  unfolding ◌>>=◌ present
  sync_link iface mtu command = do
    r ← attempt (node.link_by_name iface)
    link ← present iface mtu command r
    (if link.mtu == mtu then pure tt else node.link_set_mtu link mtu)
    node.link_set_up link

  -- the loop of SyncAddress over the addresses to remove
  unfoldable pub remove_all : Link → List Prefix → Exec W Unit
  unfolding ◌>>=◌
  remove_all link [] = pure tt
  remove_all link (p ∷ ps) = do node.addr_del link p; remove_all link ps

  -- SyncAddress
  unfoldable pub sync_address : Str → Prefix → Exec W Unit
  unfolding ◌>>=◌
  sync_address iface want = do
    link ← node.link_by_name iface
    have ← node.addr_list link
    let (remove, add) = address_changes have want
    remove_all link remove
    (if add then node.addr_add link want else pure tt)
    node.link_set_up link

  abbrev goes_through : ℕ → List LinkRoute → Bool
  goes_through index [] = false
  goes_through index (r ∷ rs) = r.link_index == index || goes_through index rs

  -- syncRoute: any route of the link is taken for the peers' own
  unfoldable pub sync_route : Str → Str → Addr → Exec W Unit
  unfolding ◌>>=◌
  sync_route iface cidr gw = do
    link ← node.link_by_name iface
    routes ← node.route_list link
    if goes_through link.index routes then pure tt else (do
      dst ← or_fail (parse_cidr cidr)
      node.route_add (record { link_index = link.index; dst = some dst; gw = some gw }))

  module _ (wgtypes : WgTypes) where
    -- CreateWireguardConfiguration
    unfoldable pub create_wireguard_configuration : State → Str → ℕ → Exec W DeviceConfig
    unfolding ◌>>=◌
    create_wireguard_configuration state iface listen_port = do
      key ← or_fail (wgtypes.parse_key state.server_private_key)
      device ← node.device_peers iface
      peers ← or_fail (create_peers_configuration wgtypes state.peers device)
      pure (record {
        private_key = key;
        listen_port = listen_port;
        replace_peers = false;
        peers = peers;
      })

    abbrev closing : Result Unit → Exec W Unit
    unfolding ◌>>=◌
    closing (ok u) = node.close_client
    closing (err e) = do attempt node.close_client; fail e

    -- syncWireguard: the client is closed on every path
    unfoldable pub sync_wireguard : State → Str → ℕ → Exec W Unit
    unfolding ◌>>=◌ closing
    sync_wireguard state iface listen_port = do
      node.open_client
      r ← attempt (do
        cfg ← create_wireguard_configuration state iface listen_port
        node.configure_device iface cfg)
      closing r

    -- Sync
    unfoldable pub sync : Str → ℕ → Str → State → Exec W Unit
    unfolding ◌>>=◌
    sync iface listen_port command state = do
      sync_link iface server_mtu command
      prefix ← or_fail (parse_prefix (peer_cidr state))
      gw ← or_fail (gateway_ip_from_prefix prefix)
      sync_address iface (record { addr = gw; bits_plus_one = 33 })
      sync_route iface (peer_cidr state) gw
      sync_wireguard state iface listen_port
