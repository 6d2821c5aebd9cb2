-- ===== src/Examples/Gateway.antt =====
-- Runs and witnesses of the rendered objects and of a whole reconcile.
use wireguard_operator.Prelude.{
  All, text, str_eq, is_empty, str_compare, has_byte, contains, true, List, [], ◌∷◌, map, none,
  some, ◌≡◌, refl,
}
use wireguard_operator.Netip.Addr.{
  contains_ip, addr_eq, masked, next, prefix_eq, overlaps, overlaps_at, bits,
}
use wireguard_operator.Netip.Parse.{parse_addr, parse_prefix}
use wireguard_operator.Netip.Print.{print_addr, print_small}
use wireguard_operator.Api.Types.{
  NamespacedName, Wireguard, WireguardPeer, Condition, key_eq, key_string, ready, pending,
}
use wireguard_operator.Api.Exec.{
  ApiError, not_found, conflict, already_exists, invalid_object, other_error, Result, ok, err,
}
use wireguard_operator.Prelude.{Str}
use wireguard_operator.Api.Client.{Client, Secret, entry, Echoes}
use wireguard_operator.Ipam.{allocate_ip, get_used_ips, address_usable, derive_reserved_ips}
use wireguard_operator.Controller.Peers.{
  admission_problem, gateway_key, namespace_not_allowed, condition_ready, condition_true,
}
use wireguard_operator.Controller.Dedupe.{
  dedupe, dedupe_addresses, dedupe_public_keys, listed, key_beats, current_key,
}
use wireguard_operator.Controller.Dedupe.Order.{older}
use wireguard_operator.Controller.Reconcile.{
  effective_peer_cidr4, related_peers, peer_problem, clear_unusable, get_wireguard_peers,
  admit_peers, allocate_peers, admitted_keys, reconcile_peers, release_losers, write_ready,
  configured,
}
use wireguard_operator.Resources.{probe_addr}
use wireguard_operator.Controller.Gateway.{
  spec_problem, static_problem, env_from_problem, validate_peer_cidr, peer_rule, probe_in_peer_cidr,
  probe_in_local_cidrs, peer_cidr_overlap, local_rule, validate_local_cidrs, reserved_in_env,
  cluster_ip_outside, in_local_cidrs, is_reserved_gluetun_env, reserved_names,
}
use wireguard_operator.Controller.Gateway.Rendered.{Kept, gluetun_container-Kept}
use wireguard_operator.Controller.Rollout.{Deployment, rollout_problem}
use wireguard_operator.Controller.State.{desired_state, rendered}
use wireguard_operator.Controller.Status.{
  ServerIdentity, sync_peer_identity, carries, with_identity, same_texts, condition_degraded,
  update_status,
}
use wireguard_operator.Controller.Apply.{ObjectApi, apply_owned, is_not_found}
use wireguard_operator.Controller.Operator.Types.{
  Cluster, Setup, record_status, degrade, condition, join_host_port, put,
}
use wireguard_operator.Controller.Operator.Secrets.{annotate_pods, refresh_secret, sync_secret}
use wireguard_operator.Controller.Operator.{
  activate, deploy, serve, decide, apply_deployment, reconcile,
}
use wireguard_operator.Controller.Operator.Active.{IsActive, Failure}
use wireguard_operator.Controller.Operator.Serve.{decide-IsActive, reconcile-Failure}
use wireguard_operator.Resources.Types.{
  udp, recreate, ObjectMeta, OwnerReferences, Service, GatewayDeployment, DeploymentBuilder,
}
use wireguard_operator.Resources.{
  wireguard_port_text, labels_for_wireguard, service_for_wireguard, deployment_for_wireguard,
  secret_for_wireguard, reserved_gluetun_env, gluetun_container, gateway_pod,
}
use wireguard_operator.Examples.Fixtures.{
  pool, pool_of, cluster, cluster-Echoes, packages, peer, gateway, gateway_request,
}

owned_by : Wireguard → ObjectMeta → ObjectMeta
owned_by wg m = record m { owner = some (record { namespace = wg.namespace; name = wg.name }) }

owned_by_lem :
    (wg : Wireguard) (m n : ObjectMeta)
    → ok (owned_by wg m) ≡ ok n
    → n ≡ record m { owner = some (record { namespace = wg.namespace; name = wg.name }) }
unfolding owned_by
owned_by_lem wg m n h = cc

abbrev owners : OwnerReferences
unfolding owned_by owned_by_lem
owners = record { set_controller_reference = λ wg m. ok (owned_by wg m); set-owner = owned_by_lem }

abbrev builder : DeploymentBuilder
builder = record { agent_image = []; agent_image_pull_policy = [] }

live : Wireguard
unfolding gateway pending text
live = record gateway { status = record (gateway.status) { status = pending } }

-- an object kind whose apply always gives the same answer
abbrev answering : {A B : Type 0} → NamespacedName → Result B → ObjectApi Unit A B Unit Unit
answering key answer = record {
  key_of = λ a. key;
  gvk_for_object = λ a. ok tt;
  get_live = λ k w. (ok tt, w);
  upgrade_managed_fields_patch = λ l. ok none;
  patch = λ l p w. (ok tt, w);
  apply = λ a w. (answer, w);
}

assigned : Service
unfolding text
assigned = record {
  metadata = record { name = text "gw-svc"; namespace = text "vpn"; labels = []; owner = none };
  selector = [];
  port_name = [];
  protocol = udp;
  port = 51820;
  target_port = 51820;
  type = [];
  cluster_ip = text "10.96.0.7";
}

rolled_out : Deployment
rolled_out = record {
  name = [];
  generation = 2;
  observed_generation = 2;
  replicas = some 1;
  ready_replicas = 1;
  updated_replicas = 1;
}

stale : Secret
unfolding text
stale = record {
  key = record { namespace = text "vpn"; name = text "gw" };
  entries = (text "privateKey", text "priv") ∷ (text "publicKey", text "pub") ∷ [];
}

one_peer : List WireguardPeer
unfolding peer text
one_peer = peer (text "d") 9 (text "kd") [] ∷ []

abbrev clerk : Client Unit
unfolding one_peer live stale
clerk = record (cluster one_peer live) { get_secret = λ k w. (ok stale, w) }

abbrev site : Result Deployment → Cluster Unit Unit Unit
unfolding clerk assigned gateway_request
site answer = record {
  client = clerk;
  services = answering gateway_request (ok assigned);
  deployments = answering gateway_request answer;
  has_rolling_update = λ k w. (ok true, w);
  clear_rolling_update = λ k w. (ok tt, w);
  create_secret = λ s w. (ok tt, w);
  update_secret = λ s w. (ok tt, w);
  list_pods = λ ns l w. (ok (record { name = []; namespace = ns; annotations = [] } ∷ []), w);
  update_pod = λ p w. (ok p, w);
  now_text = λ w. (ok [], w);
  generate_private_key = λ w. (ok [], w);
}

refused_text : Str
unfolding text
refused_text = text "admission webhook denied the request"

abbrev shown : ApiError → Str
unfolding text
shown not_found = text "not found"
shown conflict = text "conflict"
shown already_exists = text "already exists"
shown invalid_object = text "invalid"
shown (other_error s) = s

abbrev setup : Setup
unfolding packages owners
setup = record {
  pkg = packages;
  owners = owners;
  builder = builder;
  marshal = λ st. ok (st.server_private_key);
  spec_message = λ p. [];
  error_text = shown;
  cluster_ip_message = λ a b. [];
  rollout_message = λ d p. [];
}

active_condition : Condition
unfolding text
active_condition = condition condition_ready condition_true (text "Active") (text "VPN is active!")

server : ServerIdentity
unfolding text
server = record { endpoint = text "10.96.0.7:51820"; public_key = text "pub" }

clerk-Echoes : Echoes clerk
unfolding clerk
clerk-Echoes p q w h = cluster-Echoes one_peer live p q w h

active_type : active_condition.type ≡ condition_ready
unfolding active_condition
active_type = refl

active_status : active_condition.status ≡ condition_true
unfolding active_condition
active_status = refl

decide_run :
    (decide (site (ok rolled_out)) setup gateway_request tt).0
    ≡ ok (record_status live active_condition (some server) 0)
unfolding decide serve deploy activate apply_deployment apply_owned sync_secret refresh_secret
    annotate_pods put is_not_found live gateway clerk site setup owners packages one_peer assigned
    rolled_out stale active_condition server desired_state rendered entry service_for_wireguard
    deployment_for_wireguard secret_for_wireguard labels_for_wireguard owned_by rollout_problem
    cluster_ip_outside in_local_cidrs join_host_port wireguard_port_text sync_peer_identity carries
    with_identity has_byte spec_problem static_problem env_from_problem validate_peer_cidr peer_rule
    probe_in_peer_cidr validate_local_cidrs local_rule peer_cidr_overlap probe_in_local_cidrs
    reserved_in_env prefix_eq overlaps overlaps_at probe_addr bits reconcile_peers
    dedupe_public_keys dedupe_addresses dedupe older listed current_key key_beats str_compare str_eq
    is_empty key_string key_eq related_peers get_wireguard_peers gateway_key admit_peers
    peer_problem namespace_not_allowed admission_problem release_losers map clear_unusable
    address_usable peer gateway_request effective_peer_cidr4 parse_addr parse_prefix print_addr
    print_small contains_ip addr_eq masked next contains allocate_peers write_ready configured
    get_used_ips derive_reserved_ips allocate_ip pool pool_of admitted_keys text ready pending
    same_texts
decide_run = refl

decide-IsActive_example : IsActive (site (ok rolled_out)) setup gateway_request live (some server)
unfolding site clerk
decide-IsActive_example =
    decide-IsActive (site (ok rolled_out)) setup gateway_request clerk-Echoes tt live
      active_condition (some server) 0 decide_run active_type active_status

failing_run :
    (decide (site (err (other_error refused_text))) setup gateway_request tt).0
    ≡ ok (degrade live (other_error refused_text) (text "DeploymentApplyFailed"))
unfolding decide serve deploy apply_deployment apply_owned sync_secret refresh_secret annotate_pods
    put is_not_found live gateway clerk site setup owners packages one_peer assigned rolled_out
    stale desired_state rendered entry service_for_wireguard deployment_for_wireguard
    secret_for_wireguard labels_for_wireguard owned_by rollout_problem cluster_ip_outside
    in_local_cidrs join_host_port wireguard_port_text sync_peer_identity carries with_identity
    has_byte spec_problem static_problem env_from_problem validate_peer_cidr peer_rule
    probe_in_peer_cidr validate_local_cidrs local_rule peer_cidr_overlap probe_in_local_cidrs
    reserved_in_env refused_text prefix_eq overlaps overlaps_at probe_addr bits reconcile_peers
    dedupe_public_keys dedupe_addresses dedupe older listed current_key key_beats str_compare str_eq
    is_empty key_string key_eq related_peers get_wireguard_peers gateway_key admit_peers
    peer_problem namespace_not_allowed admission_problem release_losers map clear_unusable
    address_usable peer gateway_request effective_peer_cidr4 parse_addr parse_prefix print_addr
    print_small contains_ip addr_eq masked next contains allocate_peers write_ready configured
    get_used_ips derive_reserved_ips allocate_ip pool pool_of admitted_keys text ready pending
    same_texts
failing_run = refl

reconcile-Failure_example :
    Failure
      (site (err (other_error refused_text)))
      setup
      live
      (other_error refused_text)
      (text "DeploymentApplyFailed")
    × ((reconcile (site (err (other_error refused_text))) setup gateway_request tt).0
        ≡ err (other_error refused_text))
    × ((reconcile (site (err (other_error refused_text))) setup gateway_request tt).1
        ≡ (update_status clerk setup.pkg.meta live
            (condition condition_degraded condition_true
              (text "DeploymentApplyFailed")
              refused_text)
            none
            (decide (site (err (other_error refused_text))) setup gateway_request tt).1).1)
unfolding site clerk
reconcile-Failure_example =
    reconcile-Failure (site (err (other_error refused_text))) setup gateway_request clerk-Echoes tt
      live (other_error refused_text) (text "DeploymentApplyFailed") failing_run

-- the same gateway with a variable of its own
provided : Wireguard
unfolding gateway text
provided = record gateway {
  spec = record (gateway.spec) {
    gluetun = record (gateway.spec.gluetun) {
      env = record { name = text "VPN_SERVICE_PROVIDER"; value = text "custom" } ∷ [];
    };
  };
}

provided_run : (spec_problem clerk provided tt).0 ≡ ok none
unfolding provided clerk gateway spec_problem static_problem env_from_problem validate_peer_cidr
    peer_rule probe_in_peer_cidr validate_local_cidrs local_rule peer_cidr_overlap
    probe_in_local_cidrs reserved_in_env is_reserved_gluetun_env reserved_names reserved_gluetun_env
    effective_peer_cidr4 parse_prefix contains_ip prefix_eq masked overlaps overlaps_at probe_addr
    bits is_empty text str_eq contains
provided_run = refl

gluetun_container-Kept_example :
    All (Kept provided.spec.local_cidrs) (gluetun_container provided).env
gluetun_container-Kept_example = gluetun_container-Kept clerk provided tt provided_run

built_service : Service
unfolding gateway text labels_for_wireguard
built_service = record {
  metadata = record {
    name = text "gw-svc";
    namespace = text "vpn";
    labels = labels_for_wireguard (text "gw");
    owner = some (record { namespace = text "vpn"; name = text "gw" });
  };
  selector = labels_for_wireguard (text "gw");
  port_name = text "wireguard";
  protocol = udp;
  port = 51820;
  target_port = 51820;
  type = text "ClusterIP";
  cluster_ip = [];
}

built_deployment : GatewayDeployment
unfolding gateway text
built_deployment = record {
  metadata = record {
    name = text "gw-dep";
    namespace = text "vpn";
    labels = labels_for_wireguard (text "gw");
    owner = some (record { namespace = text "vpn"; name = text "gw" });
  };
  replicas = 1;
  strategy = recreate;
  selector = labels_for_wireguard (text "gw");
  template = gateway_pod builder gateway;
}
