-- ===== src/Examples/Sidecar.antt =====
-- Witnesses of the client's theorems.
use wireguard_operator.Prelude.{
  filter, find?, In, Str, text, str_eq, is_empty, cut, has_byte, true, List, [], ◌∷◌, Option, none,
  some, ◌≡◌, refl, if◌then◌else◌,
}
use wireguard_operator.Netip.Addr.{v6, v4, is4, addr_eq, is_valid, masked}
use wireguard_operator.Netip.AddrPort.{AddrPort, parse_addr_port}
use wireguard_operator.Netip.Parse.{parse_addr, parse_prefix}
use wireguard_operator.Netip.Laws.{prefix4}
use wireguard_operator.Api.Types.{WireguardPeer, OwnerReference}
use wireguard_operator.Api.External.{Owners}
use wireguard_operator.Api.Exec.{ok, ◌>>=◌}
use wireguard_operator.Sidecar.{
  Config, configured, split_wireguard, required, with_identity, config_from_env, desired_peer,
  decide_peer, judge, PodClient, ensure_peer, act,
}
use wireguard_operator.Sidecar.Registration.{Own, ensure_peer-Own}
use wireguard_operator.Sidecar.Environment.{Environment, Names, config_from_env-Environment}
use wireguard_operator.Sidecar.Tunnel.{Tunnel, good, desired_tunnel, parse_local_cidrs}
use wireguard_operator.Sidecar.Tunnel.Laws.{Published, desired_tunnel-Published}
use wireguard_operator.Sidecar.Tunnel.Device.{
  Device, DeviceConfig, device_config, device_matches, unmap, keepalive, everything,
  device_config_stable,
}
use wireguard_operator.Sidecar.Routes.{
  Route, RoutePlan, is_default, leaves_pod, installed_via, is_stale, gateway_route, plan_routes,
}
use wireguard_operator.Sidecar.Routes.Plan.{Removable, plan_routes-Removable}
use wireguard_operator.Examples.Fixtures.{plain_keys}

env : Str → Str
env name = name

variables : Str
unfolding text
variables = text "vpn/gw"

unfoldable pub pod_config : Config
unfolding text
pod_config = record {
  wireguard = text "gw";
  wireguard_namespace = text "vpn";
  key_path = [];
  pod_name = text "POD_NAME";
  pod_namespace = text "POD_NAMESPACE";
  pod_uid = text "POD_UID";
}

config_run : config_from_env variables [] env ≡ configured pod_config
unfolding variables env pod_config config_from_env split_wireguard required with_identity cut
    has_byte is_empty str_eq text
config_run = refl

config_from_env-Environment_example :
    Environment env pod_config × Names variables pod_config.wireguard pod_config.wireguard_namespace
config_from_env-Environment_example =
    config_from_env-Environment variables [] env pod_config config_run

unfoldable pub pod_key : Str
unfolding text
pod_key = text "key"

unfoldable pub registered : WireguardPeer
unfolding desired_peer pod_config pod_key text
registered = desired_peer pod_config pod_key

-- the first owner with its controller bit
unfoldable pub first_controller : List OwnerReference → Option OwnerReference
first_controller [] = none
first_controller (o ∷ os) = let rest = first_controller os in if o.controller then some o else rest

first_controller_only :
    (o : OwnerReference) → o.controller ≡ true → first_controller (o ∷ []) ≡ some o
unfolding first_controller
first_controller_only o h = rw h refl

unfoldable pub owners : Owners
unfolding first_controller first_controller_only
owners = record { controller_of = first_controller; controller_of-only = first_controller_only }

-- an API that holds the pod's peer
api : PodClient Unit
unfolding registered
api = record {
  get = λ k w. (ok registered, w);
  delete = λ k uid w. (ok tt, w);
  create_peer = λ p w. (ok tt, w);
}

ensure_peer_run : (ensure_peer api owners pod_config pod_key tt).0 ≡ ok (some registered)
unfolding api owners registered ensure_peer ◌>>=◌ desired_peer decide_peer first_controller judge
    act pod_config pod_key str_eq text
ensure_peer_run = refl

ensure_peer-Own_example : Own owners pod_config pod_key registered
ensure_peer-Own_example =
    ensure_peer-Own api owners pod_config pod_key tt registered ensure_peer_run

unfoldable pub admitted_peer : WireguardPeer
unfolding registered desired_peer pod_config pod_key text
admitted_peer = record registered {
  status = record (registered.status) {
    address = text "10.8.0.2";
    endpoint = text "10.96.0.7:51820";
    server_public_key = text "server";
    local_cidrs = text "10.96.0.0/12" ∷ [];
  };
}

unfoldable pub endpoint : AddrPort
endpoint = record { addr = v4 0x0a600007; port = 51820 }

unfoldable pub tunnel : Tunnel
unfolding endpoint text
tunnel = record {
  address = prefix4 0x0a080002 32;
  server_key = text "server";
  endpoint = endpoint;
  local_cidrs = prefix4 0x0a600000 12 ∷ [];
}

desired_tunnel_run : desired_tunnel plain_keys admitted_peer ≡ good tunnel
unfolding desired_tunnel parse_local_cidrs parse_addr parse_prefix parse_addr_port masked is4
    is_empty admitted_peer tunnel endpoint text
desired_tunnel_run = refl

desired_tunnel-Published_example : Published plain_keys admitted_peer tunnel
desired_tunnel-Published_example =
    desired_tunnel-Published plain_keys admitted_peer tunnel desired_tunnel_run

first_config : DeviceConfig
unfolding pod_key tunnel endpoint text
first_config = record {
  private_key = pod_key;
  public_key = tunnel.server_key;
  endpoint = tunnel.endpoint;
  keepalive_interval = keepalive;
  allowed_ips = everything ∷ [];
}

live : Device
unfolding first_config pod_key tunnel endpoint text
live = record {
  private_key = first_config.private_key;
  peers =
      record {
        public_key = first_config.public_key;
        endpoint = some first_config.endpoint;
        keepalive_interval = first_config.keepalive_interval;
        allowed_ips = first_config.allowed_ips;
        last_handshake = some 3;
      }
      ∷ [];
}

first_config_run : device_config none pod_key tunnel ≡ some first_config
unfolding device_config device_matches first_config
first_config_run = refl

plain_endpoint : unmap tunnel.endpoint.addr ≡ tunnel.endpoint.addr
unfolding unmap tunnel endpoint
plain_endpoint = refl

device_config_stable_example : device_config (some live) pod_key tunnel ≡ none
unfolding live
device_config_stable_example =
    device_config_stable none live pod_key tunnel first_config plain_endpoint first_config_run
      (some 3, refl)

mapped_endpoint : AddrPort
mapped_endpoint = record { addr = v6 0xffff0a600007 []; port = 51820 }

mapped_tunnel : Tunnel
unfolding tunnel mapped_endpoint
mapped_tunnel = record tunnel { endpoint = mapped_endpoint }

-- an IPv4-mapped endpoint never matches: the device is configured again though it holds the endpoint
mapped_endpoint_run :
    device_config
      (some (record live {
        peers =
            record {
              public_key = mapped_tunnel.server_key;
              endpoint = some mapped_endpoint;
              keepalive_interval = keepalive;
              allowed_ips = everything ∷ [];
              last_handshake = some 3;
            }
            ∷ [];
      }))
      pod_key
      mapped_tunnel
    ≡ some (record first_config { endpoint = mapped_endpoint })
unfolding device_config device_matches unmap addr_eq str_eq live pod_key first_config mapped_tunnel
    mapped_endpoint tunnel endpoint text
mapped_endpoint_run = refl

cni_route : Route
cni_route = record {
  dst = prefix4 0 0;
  gw = v4 0x0a010001;
  link_index = 2;
  priority = 0;
  protocol = 3;
  scope = 0;
}

plan : RoutePlan
unfolding cni_route
plan = record {
  gw = v4 0x0a010001;
  gw_link = 2;
  locals = prefix4 0x0a600000 12 ∷ [];
  stale = cni_route ∷ [];
}

plan_run : plan_routes (cni_route ∷ []) 5 (prefix4 0x0a600000 12 ∷ []) ≡ some plan
unfolding plan cni_route plan_routes gateway_route leaves_pod installed_via is_stale is_default
    find? filter is_valid
plan_run = refl

plan_routes-Removable_example :
    ((r : Route) × In r (cni_route ∷ [])
      × (plan.gw ≡ r.gw)
      × (plan.gw_link ≡ r.link_index)
      × (is_valid r.gw ≡ true))
    × ((r : Route)
        → In r plan.stale
        → In r (cni_route ∷ []) × Removable 5 (prefix4 0x0a600000 12 ∷ []) r)
plan_routes-Removable_example =
    plan_routes-Removable (cni_route ∷ []) 5 (prefix4 0x0a600000 12 ∷ []) plan plan_run
