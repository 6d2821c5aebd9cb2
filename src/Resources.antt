-- ===== src/Resources.antt =====
-- internal/resources: the objects that the operator renders for a Wireguard. Maps are association
-- lists; a pointer to a constant is the constant.
pub mod Types
pub mod Laws
use wireguard_operator.Prelude.{
  ℕ, zero, suc, ◌+◌, ◌-◌, ◌*◌, ◌/◌, ◌%◌, ◌^◌, ◌≤◌, ◌<◌, compare, Ordering, String, length,
  get_elem?, filter, any, find?, In, In-append_left, In-append_right, All, All-In, All-of_In,
  All-append, All-map, Str, str_eq→≡, str_eq_refl, str_eq_iff, is_empty→≡, is_empty_nil, text,
  str_eq, is_empty, str_compare, cut, has_byte, join, contains, contains→In, In→contains,
  contains-false, Bool, true, false, not, ◌&&◌, ◌||◌, List, [], ◌∷◌, ◌++◌, map, ◌≢◌, ◌↔◌, ◌⊎◌, inl,
  inr, Option, none, some, ◌≡◌, refl, sym, ap, ◌∙◌, subst, arith, ltb, leb, ◌==◌, if◌then◌else◌,
  Bool-cases, ==→≡, ==_refl, ltb→lt, ltb→le,
}
use wireguard_operator.Api.Types.{
  EnvVar, EnvFromSource, Wireguard, ResourceRequirements, no_resources, Toleration, NamespacedName,
}
use wireguard_operator.Api.Exec.{Result, ok, err}
use wireguard_operator.Api.Client.{Secret}
use wireguard_operator.Resources.Types.{
  ObjectMeta, OwnerReferences, Protocol, Service, ContainerPort, Probe, SecurityContext, Container,
  VolumeSource, Strategy, PodTemplate, GatewayDeployment, DeploymentBuilder, udp, tcp, no_probe,
  http_get, tcp_socket, empty_dir, secret_volume, recreate, rolling_update,
}
use wireguard_operator.Netip.Addr.{Addr, v4}
use wireguard_operator.Datapath.{wg_interface, egress_interface}

-- resources.PeerProbeAddress: 192.0.2.1
unfoldable pub probe_addr : Addr
probe_addr = v4 3221225985

-- WireguardPort and HTTPPort, with their decimal forms
abbrev pub wireguard_port : ℕ
wireguard_port = 51820

abbrev pub http_port : ℕ
http_port = 8080

unfoldable pub wireguard_port_text : Str
unfolding text
wireguard_port_text = text "51820"

unfoldable pub http_port_text : Str
unfolding text
http_port_text = text "8080"

-- LabelComponent and ComponentGateway
unfoldable pub label_component : Str
unfolding text
label_component = text "tunnel-operator.io/component"

unfoldable pub component_gateway : Str
unfolding text
component_gateway = text "gateway"

-- LabelsForWireguard
unfoldable pub labels_for_wireguard : Str → List (Str × Str)
unfolding text
labels_for_wireguard name = (text "app", text "wireguard") ∷ (text "instance", name) ∷ []

abbrev variable : Str → Str → EnvVar
variable name value = record { name = name; value = value }

-- ReservedGluetunEnv
unfoldable pub reserved_gluetun_env : List Str → List EnvVar
unfolding text egress_interface wireguard_port_text http_port_text
reserved_gluetun_env local_cidrs =
    variable (text "VPN_TYPE") (text "wireguard")
    ∷ variable (text "VPN_INTERFACE") egress_interface
    ∷ variable (text "FIREWALL_ENABLED_DISABLING_IT_SHOOTS_YOU_IN_YOUR_FOOT") (text "on")
    ∷ variable (text "FIREWALL_INPUT_PORTS") (wireguard_port_text ++ text "," ++ http_port_text)
    ∷ variable (text "FIREWALL_OUTBOUND_SUBNETS") (join local_cidrs (text ","))
    ∷ variable (text "HEALTH_SERVER_ADDRESS") (text "127.0.0.1:9999")
    ∷ variable (text "WIREGUARD_MTU") (text "1320")
    ∷ []

abbrev pub resources_meta : Wireguard → Str → ObjectMeta
resources_meta wg name = record {
  name = name;
  namespace = wg.namespace;
  labels = labels_for_wireguard wg.name;
  owner = none;
}

abbrev no_security : SecurityContext
no_security = record {
  read_only_root_filesystem = none;
  allow_privilege_escalation = none;
  privileged = none;
  capabilities = [];
}

-- the fields that a container literal leaves out
abbrev no_container : Container
no_container = record {
  name = [];
  image = [];
  image_pull_policy = [];
  security_context = no_security;
  command = [];
  args = [];
  ports = [];
  env = [];
  env_from = [];
  readiness_probe = no_probe;
  liveness_probe = no_probe;
  post_start = [];
  volume_mounts = [];
  resources = no_resources;
}

-- agentContainer
unfoldable pub agent_container : DeploymentBuilder → Wireguard → Container
unfolding text wg_interface wireguard_port_text
agent_container b wg = record no_container {
  name = text "agent";
  image = b.agent_image;
  image_pull_policy = b.agent_image_pull_policy;
  security_context = record {
    read_only_root_filesystem = some true;
    allow_privilege_escalation = some false;
    privileged = none;
    capabilities = text "NET_ADMIN" ∷ [];
  };
  command =
      text "agent"
      ∷ text "--v"
      ∷ text "11"
      ∷ text "--wg-iface"
      ∷ wg_interface
      ∷ text "--wg-listen-port"
      ∷ wireguard_port_text
      ∷ text "--state"
      ∷ text "/tmp/wireguard/state.json"
      ∷ text "--wg-userspace-implementation-fallback"
      ∷ text "wireguard-go"
      ∷ [];
  ports =
      record { container_port = wireguard_port; name = text "wireguard"; protocol = udp }
      ∷ record { container_port = http_port; name = text "http"; protocol = tcp }
      ∷ [];
  readiness_probe = http_get http_port (text "/health") 5;
  liveness_probe = tcp_socket http_port 5;
  volume_mounts =
      (text "socket", text "/var/run/wireguard/") ∷ (text "config", text "/tmp/wireguard/") ∷ [];
  resources = wg.spec.agent.resources;
}

-- gluetunContainer
unfoldable pub gluetun_container : Wireguard → Container
unfolding text reserved_gluetun_env
gluetun_container wg = record no_container {
  name = text "gluetun";
  image =
      text
        "ghcr.io/qdm12/gluetun:v3.41.3@sha256:fa19cc76b2af13d57a8d3dc3066f2ada061b1c761b8aecf989b3877c0486e027";
  security_context = record no_security { capabilities = text "NET_ADMIN" ∷ [] };
  env = reserved_gluetun_env wg.spec.local_cidrs ++ wg.spec.gluetun.env;
  env_from = wg.spec.gluetun.env_from;
  resources = wg.spec.gluetun.resources;
  post_start =
      text "/bin/sh"
      ∷ text "-c"
      ∷ text "(ip rule del table 51820; ip -6 rule del table 51820) || true"
      ∷ [];
}

-- ipForwardInitContainer
unfoldable pub ip_forward_init_container : DeploymentBuilder → Container
unfolding text
ip_forward_init_container b = record no_container {
  name = text "sysctl";
  image = b.agent_image;
  image_pull_policy = b.agent_image_pull_policy;
  security_context = record no_security { privileged = some true };
  command = text "/bin/sh" ∷ [];
  args = text "-c" ∷ text "echo 1 > /proc/sys/net/ipv4/ip_forward" ∷ [];
}

-- the pod of ForWireguard
unfoldable pub gateway_pod : DeploymentBuilder → Wireguard → PodTemplate
unfolding text agent_container gluetun_container ip_forward_init_container labels_for_wireguard
    label_component component_gateway
gateway_pod b wg = record {
  labels = (label_component, component_gateway) ∷ labels_for_wireguard wg.name;
  node_selector = wg.spec.node_selector;
  tolerations = wg.spec.tolerations;
  seccomp_profile = text "RuntimeDefault";
  automount_service_account_token = false;
  volumes = (text "socket", empty_dir) ∷ (text "config", secret_volume wg.name) ∷ [];
  init_containers = ip_forward_init_container b ∷ [];
  containers = agent_container b wg ∷ gluetun_container wg ∷ [];
}

abbrev pub owned : {A : Type 0} → (ObjectMeta → A) → Result ObjectMeta → Result A
owned build (ok m) = ok (build m)
owned build (err e) = err e

module _ (owners : OwnerReferences) where
  -- ServiceBuilder.ForWireguard
  unfoldable pub service_for_wireguard : Wireguard → Result Service
  unfolding text labels_for_wireguard
  service_for_wireguard wg =
      owned
        (λ m. record {
          metadata = m;
          selector = labels_for_wireguard wg.name;
          port_name = text "wireguard";
          protocol = udp;
          port = wireguard_port;
          target_port = wireguard_port;
          type = text "ClusterIP";
          cluster_ip = [];
        })
        (owners.set_controller_reference wg (resources_meta wg (wg.name ++ text "-svc")))

  -- DeploymentBuilder.ForWireguard
  unfoldable pub deployment_for_wireguard : DeploymentBuilder → Wireguard → Result GatewayDeployment
  unfolding text labels_for_wireguard gateway_pod
  deployment_for_wireguard b wg =
      owned
        (λ m. record {
          metadata = m;
          replicas = 1;
          strategy = recreate;
          selector = labels_for_wireguard wg.name;
          template = gateway_pod b wg;
        })
        (owners.set_controller_reference wg (resources_meta wg (wg.name ++ text "-dep")))

  -- SecretBuilder.ForWireguard
  unfoldable pub secret_for_wireguard : Wireguard → Str → Str → Str → Result (ObjectMeta × Secret)
  unfolding text labels_for_wireguard
  secret_for_wireguard wg state private_key public_key =
      owned
        (λ m. (
          m,
          record {
            key = record { namespace = m.namespace; name = m.name };
            entries =
                (text "state.json", state)
                ∷ (text "privateKey", private_key)
                ∷ (text "publicKey", public_key)
                ∷ [];
          },
        ))
        (owners.set_controller_reference wg (resources_meta wg wg.name))
