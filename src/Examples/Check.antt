-- ===== src/Examples/Check.antt =====
-- A run and the witness of the startup probe.
use wireguard_operator.Prelude.{Str, text, [], ◌∷◌, none, some, ◌≡◌, refl}
use wireguard_operator.Api.Exec.{ok, ◌>>=◌}
use wireguard_operator.Sidecar.Tunnel.Device.{Device, check_device}
use wireguard_operator.Sidecar.Check.{
  Prober, routes_via, check_open, check, check_closing, IsUp, check-IsUp,
}
use wireguard_operator.Examples.Agent.{settled_node}

-- a device with one peer, that was last heard of in second 3
abbrev connected_device : Device
connected_device = record {
  private_key = [];
  peers =
      record {
        public_key = [];
        endpoint = none;
        keepalive_interval = 25;
        allowed_ips = [];
        last_handshake = some 3;
      }
      ∷ [];
}

abbrev prober : Prober Unit
prober = record {
  node = settled_node;
  device = λ iface w. (ok connected_device, w);
  time_now = λ w. (ok 100, w);
  route_get = λ dst w. (ok (7 ∷ []), w);
}

iface : Str
unfolding text
iface = text "wg0"

probe_run : (check prober iface tt).0 ≡ ok tt
unfolding ◌>>=◌ check_device routes_via check_open check check_closing
probe_run = refl

check-IsUp_example : IsUp prober iface
check-IsUp_example = check-IsUp prober iface tt probe_run
