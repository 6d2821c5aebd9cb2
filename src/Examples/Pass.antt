-- ===== src/Examples/Pass.antt =====
-- A run and the witness of a pass of the client.
use wireguard_operator.Prelude.{
  filter, find?, text, str_eq, is_empty, [], ◌∷◌, map, none, some, ◌≡◌, refl,
}
use wireguard_operator.Netip.Addr.{v4, is4, is_valid, masked, prefix_eq, addr_eq, prefix_from}
use wireguard_operator.Netip.Parse.{parse_addr, parse_prefix}
use wireguard_operator.Netip.AddrPort.{parse_addr_port}
use wireguard_operator.Netip.Laws.{prefix4}
use wireguard_operator.Api.Exec.{ok, ◌>>=◌}
use wireguard_operator.Wireguard.{address_changes, others, has_address}
use wireguard_operator.Wireguard.Link.{sync_link, sync_address, remove_all}
use wireguard_operator.Sidecar.{PodClient, ensure_peer, desired_peer, decide_peer, judge, act}
use wireguard_operator.Sidecar.Tunnel.{desired_tunnel, parse_local_cidrs}
use wireguard_operator.Sidecar.Tunnel.Device.{device_config, device_matches, unmap}
use wireguard_operator.Sidecar.Routes.{
  plan_routes, gateway_route, leaves_pod, installed_via, is_stale, is_default, has_prefix,
}
use wireguard_operator.Sidecar.RouteTable.{
  RouteTable, to_route, ensure_routes, delete_stale, delete_ipv6_defaults, delete_each6,
  replace_locals,
}
use wireguard_operator.Sidecar.Pass.{Pod, apply_device, apply_tunnel, step}
use wireguard_operator.Sidecar.Pass.Applied.{IsApplied, step-IsApplied}
use wireguard_operator.Examples.Fixtures.{plain_keys}
use wireguard_operator.Examples.Sidecar.{
  pod_config, pod_key, registered, first_controller, owners, admitted_peer,
}
use wireguard_operator.Examples.Agent.{settled_node}

-- an API that holds the pod's peer with what the operator has published
abbrev published_api : PodClient Unit
unfolding admitted_peer
published_api = record {
  get = λ k w. (ok admitted_peer, w);
  delete = λ k uid w. (ok tt, w);
  create_peer = λ p w. (ok tt, w);
}

-- a main table that holds only the network's default route
abbrev cni_table : RouteTable Unit
cni_table = record {
  list_routes = λ w. (
    ok (
        record {
          dst = none;
          gw = some (v4 0x0a010001);
          link_index = 2;
          priority = 0;
          protocol = 3;
          scope = 0;
        }
        ∷ []),
    w,
  );
  list_routes6 = λ w. (ok [], w);
  route_replace = λ r w. (ok tt, w);
  route_del = λ r w. (ok tt, w);
  route_del6 = λ r w. (ok tt, w);
}

abbrev fresh_pod : Pod Unit
unfolding published_api
fresh_pod = record {
  client = published_api;
  node = settled_node;
  routes = cni_table;
  device = λ iface w. (ok (record { private_key = []; peers = [] }), w);
  configure_device = λ iface cfg w. (ok tt, w);
}

step_run : (step fresh_pod plain_keys owners pod_config pod_key tt).0 ≡ none
unfolding step apply_tunnel apply_device sync_link sync_address remove_all address_changes others
    has_address ensure_routes delete_stale delete_ipv6_defaults delete_each6 replace_locals to_route
    plan_routes gateway_route leaves_pod installed_via is_stale is_default has_prefix device_config
    device_matches unmap desired_tunnel parse_local_cidrs parse_addr parse_prefix parse_addr_port
    ensure_peer desired_peer decide_peer judge act first_controller owners registered admitted_peer
    pod_config pod_key fresh_pod published_api str_eq is_empty text map find? filter is4 is_valid
    masked prefix_eq addr_eq prefix4 prefix_from ◌>>=◌
step_run = refl

step-IsApplied_example : IsApplied fresh_pod plain_keys owners pod_config pod_key
step-IsApplied_example = step-IsApplied fresh_pod plain_keys owners pod_config pod_key tt step_run
