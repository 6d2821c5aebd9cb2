-- ===== src/Examples/Agent.antt =====
-- Runs and witnesses of the agent's readiness and of concurrent calls of its datapath.
use wireguard_operator.Prelude.{
  ℕ, text, str_eq, is_empty, true, false, [], ◌∷◌, ◌≢◌, none, some, ◌≡◌, refl,
}
use wireguard_operator.Netip.Addr.{is4, next, contains_ip, masked, prefix_eq, addr_eq}
use wireguard_operator.Netip.Parse.{parse_addr, parse_prefix}
use wireguard_operator.Netip.Laws.{prefix4}
use wireguard_operator.Api.Exec.{ok, err, other_error, ◌>>=◌}
use wireguard_operator.Api.Returns.{Answered}
use wireguard_operator.Agent.{
  State, peer_cidr, peers_valid, is_state_valid, content, get_desired_state,
}
use wireguard_operator.Datapath.{egress_interface, peer_probe_source, device, judge_peer_path}
use wireguard_operator.Datapath.Ensure.{Kernel}
use wireguard_operator.Datapath.Machine.{
  idle, waiting, asserting, Sys, set_pc, in_ensure, move, new, call, enter, Reach, opening, after,
}
use wireguard_operator.Datapath.Machine.Settled.{Reach-Settled}
use wireguard_operator.Datapath.Machine.Progress.{GoesOn, Reach-GoesOn}
use wireguard_operator.Wireguard.{
  address_changes, others, has_address, gateway_ip_from_prefix, create_peers_configuration, changes,
  by_key,
}
use wireguard_operator.Wireguard.Netlink.{Node}
use wireguard_operator.Wireguard.Link.{
  sync, sync_link, sync_address, sync_route, sync_wireguard, create_wireguard_configuration,
  remove_all,
}
use wireguard_operator.Server.{
  Process, Options, desired_state_read, sync_device, check_peer_path, gluetun_healthy,
  health_checks, health, status_ok,
}
use wireguard_operator.Server.Ready.{IsReady, health-IsReady}
use wireguard_operator.Examples.Fixtures.{plain_keys, gateway}

served_state : State
unfolding gateway text
served_state = record {
  server = gateway;
  server_private_key = text "AAAAAAAAAAAAAAAAAAAAAAAAAAAAAAAAAAAAAAAAAAA=";
  peers = [];
}

-- a node that already holds all that the state asks for
abbrev pub settled_node : Node Unit
settled_node = record {
  link_by_name = λ iface w. (ok (record { index = 7; mtu = 1420 }), w);
  link_add = λ iface mtu w. (ok tt, w);
  link_set_mtu = λ link mtu w. (ok tt, w);
  link_set_up = λ link w. (ok tt, w);
  addr_list = λ link w. (ok (prefix4 0x0a080001 32 ∷ []), w);
  addr_del = λ link p w. (ok tt, w);
  addr_add = λ link p w. (ok tt, w);
  route_list = λ link w. (ok (record { link_index = 7; dst = none; gw = none } ∷ []), w);
  route_add = λ r w. (ok tt, w);
  mkdir_dev_net = λ w. (ok tt, w);
  stat_tun = λ w. (ok true, w);
  mknod_tun = λ w. (ok tt, w);
  start_command = λ c i w. (ok tt, w);
  now = λ w. (0, w);
  sleep = λ d w. w;
  open_client = λ w. (ok tt, w);
  close_client = λ w. (ok tt, w);
  device_peers = λ iface w. (ok [], w);
  configure_device = λ iface cfg w. (ok tt, w);
}

abbrev process : Process Unit
unfolding egress_interface
process = record {
  node = settled_node;
  read_state_file = λ w. (content [], w);
  datapath_ensure = λ cidr w. (ok tt, w);
  datapath_err = λ w. (ok tt, w);
  lookup_peer_path = λ a b w. (device egress_interface, w);
  gluetun_get = λ w. (ok 200, w);
}

abbrev options : Options
unfolding served_state
options = record {
  iface = [];
  listen_port = 51820;
  userspace_command = [];
  unmarshal = λ s. some served_state;
  digest = λ s. s;
  wgtypes = plain_keys;
}

ready_run : (health process options tt).0 ≡ status_ok
unfolding health health_checks desired_state_read sync_device check_peer_path gluetun_healthy sync
    sync_link sync_address sync_route sync_wireguard create_wireguard_configuration remove_all
    create_peers_configuration changes by_key gateway_ip_from_prefix address_changes others
    has_address is_state_valid peers_valid get_desired_state peer_cidr peer_probe_source
    judge_peer_path parse_addr parse_prefix served_state process options gateway egress_interface
    prefix_eq addr_eq masked next contains_ip is4 is_empty str_eq text prefix4 ◌>>=◌
ready_run = refl

health-IsReady_example :
    (state : State) × Answered (desired_state_read process options) state
    × IsReady process options state
health-IsReady_example = health-IsReady process options tt ready_run

-- a kernel without wg0
abbrev bare_kernel : Kernel Unit
bare_kernel = record {
  link_index = λ name w. (err (other_error []), w);
  route_replace = λ r w. (ok tt, w);
  rule_list = λ w. (ok [], w);
  rule_del = λ r w. (ok tt, w);
  rule_add = λ r w. (ok tt, w);
  iptables = λ args w. (true, w);
}

-- thread 3 is within Ensure, thread 5 waits for it
abbrev called : Sys Unit
called = move (new tt) 3 (waiting [])

abbrev entered : Sys Unit
entered = move (record called { ensure_lock = some 3 }) 3 (asserting [])

abbrev crowded : Sys Unit
crowded = move entered 5 (waiting [])

crowded_Reach : Reach bare_kernel tt crowded
unfolding set_pc
crowded_Reach =
    after entered crowded 5
      (after called entered 3 (after (new tt) called 3 opening (call (new tt) [] refl))
        (enter called [] refl refl))
      (call entered [] refl)

waits : crowded.pc 5 ≢ idle
unfolding set_pc
waits h = cc

Reach-GoesOn_example : GoesOn bare_kernel crowded
Reach-GoesOn_example = Reach-GoesOn bare_kernel tt crowded 5 crowded_Reach waits

Reach-Settled_example :
    ((t u : ℕ) → in_ensure (crowded.pc t) ≡ true → in_ensure (crowded.pc u) ≡ true → t ≡ u)
    × (((t : ℕ) → in_ensure (crowded.pc t) ≡ false) → crowded.error ≡ crowded.latest)
Reach-Settled_example = Reach-Settled bare_kernel tt crowded crowded_Reach
