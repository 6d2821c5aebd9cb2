-- ===== src/Examples/State.antt =====
-- Runs and witnesses of the spec checks, the rendered state and the agent.
use wireguard_operator.Prelude.{
  length, All, Str, text, is_empty, true, false, List, [], ◌∷◌, ◌↔◌, inl, inr, Option, none, some,
  ◌≡◌, refl,
}
use wireguard_operator.Netip.Addr.{v4, contains_ip, prefix_eq, masked, overlaps, overlaps_at, bits}
use wireguard_operator.Netip.Parse.{parse_addr, parse_prefix}
use wireguard_operator.Netip.Laws.{prefix4}
use wireguard_operator.Api.Types.{WireguardPeer}
use mathlib.Core.List.{Perm}
use wireguard_operator.Api.Exec.{ok}
use wireguard_operator.Agent.{
  State, is_state_valid, content, unreadable, FileEvent, changed, watcher_error, on_events,
  on_state_change,
}
use wireguard_operator.Agent.Once.{Once, on_events-Once}
use wireguard_operator.Agent.Laws.{Servable, is_state_valid_iff, on_state_change-All}
use wireguard_operator.Resources.{probe_addr}
use wireguard_operator.Controller.Gateway.{
  validate_peer_cidr, validate_local_cidrs, peer_cidr_overlap, probe_in_local_cidrs,
  probe_in_peer_cidr, static_problem, env_from_problem, spec_problem, cluster_ip_outside,
  in_local_cidrs, reserved_in_env, local_rule, peer_rule,
}
use wireguard_operator.Controller.Gateway.Laws.{
  Renderable, spec_problem-Renderable, cluster_ip_outside_lem,
}
use wireguard_operator.Controller.Reconcile.{effective_peer_cidr4}
use wireguard_operator.Controller.State.{desired_state}
use wireguard_operator.Controller.State.Laws.{
  AllInOrder, AllBare, desired_state-Sorted, desired_state-unchanged,
}
use wireguard_operator.Controller.State.Served.{desired_state-is_state_valid}
use wireguard_operator.Examples.Fixtures.{
  cluster, cluster-Echoes, packages, peer, gateway, gateway_request,
}
use wireguard_operator.Examples.Reconcile.{
  crowd, outcome, reconcile_peers_run, gateway_pool, is4_pool,
}

-- the fixture's spec is one that the operator renders
gateway_spec_run : (spec_problem (cluster [] gateway) gateway tt).0 ≡ ok none
unfolding spec_problem static_problem env_from_problem validate_peer_cidr peer_rule
    probe_in_peer_cidr validate_local_cidrs local_rule peer_cidr_overlap probe_in_local_cidrs
    reserved_in_env effective_peer_cidr4 gateway parse_prefix contains_ip prefix_eq masked overlaps
    overlaps_at probe_addr bits is_empty text
gateway_spec_run = refl

spec_problem-Renderable_example : Renderable gateway
spec_problem-Renderable_example =
    spec_problem-Renderable (cluster [] gateway) gateway tt gateway_spec_run

service_ip : Str
unfolding text
service_ip = text "10.96.0.7"

service_ip_parsed : parse_addr service_ip ≡ some (v4 0x0a600007)
unfolding service_ip parse_addr text
service_ip_parsed = refl

service_ip_inside : cluster_ip_outside service_ip gateway.spec.local_cidrs ≡ false
unfolding service_ip cluster_ip_outside in_local_cidrs gateway parse_addr parse_prefix contains_ip
    text
service_ip_inside = refl

renderable : Renderable gateway
renderable = spec_problem-Renderable (cluster [] gateway) gateway tt gateway_spec_run

cluster_ip_outside_lem_example : contains_ip renderable.pool (v4 0x0a600007) ≡ false
cluster_ip_outside_lem_example =
    cluster_ip_outside_lem gateway renderable service_ip 0x0a600007 service_ip_parsed
      service_ip_inside

private_key : Str
unfolding text
private_key = text "yAnz5TF+lXXJte14tji3zlMNq+hd2rYUIgJBgB3fBmk="

private_key_length : length private_key ≡ 44
unfolding private_key text
private_key_length = refl

desired_state-is_state_valid_example :
    is_state_valid (desired_state gateway private_key outcome) ≡ none
desired_state-is_state_valid_example =
    desired_state-is_state_valid (cluster crowd gateway) packages gateway_request gateway
      (cluster-Echoes crowd gateway) (prefix4 0x0a080000 29) gateway_pool is4_pool outcome tt
      private_key reconcile_peers_run private_key_length

desired_state-Sorted_example :
    AllInOrder (desired_state gateway private_key crowd).peers
    × ((bare : List WireguardPeer) × AllBare crowd bare
        × Perm (desired_state gateway private_key crowd).peers bare)
desired_state-Sorted_example = desired_state-Sorted gateway private_key crowd

stranger : WireguardPeer
unfolding peer text
stranger = peer (text "a") 5 (text "ka") (text "10.8.0.2")

-- the same peer after a later write of its status
aged : WireguardPeer
unfolding stranger text
aged = record stranger {
  generation = 7;
  status = record (stranger.status) { message = text "Peer configured" };
}

desired_state-unchanged_example :
    desired_state gateway private_key (stranger ∷ [])
    ≡ desired_state gateway private_key (aged ∷ [])
unfolding aged
desired_state-unchanged_example =
    desired_state-unchanged gateway gateway private_key (stranger ∷ []) (aged ∷ []) refl refl refl
      ((refl, refl, refl, refl, refl), tt)

served : State
unfolding stranger peer gateway private_key text desired_state
served = record { server = gateway; server_private_key = private_key; peers = stranger ∷ [] }

is_state_valid_iff_example : (is_state_valid served ≡ none) ↔ Servable served
is_state_valid_iff_example = is_state_valid_iff served

-- a file that holds one byte decodes to the state, and its digest is itself
decode : Str → Option State
decode [] = none
decode (b ∷ s) = some served

writes : List FileEvent
writes =
    changed true (content [])
    ∷ watcher_error
    ∷ changed true (content (1 ∷ []))
    ∷ changed false unreadable
    ∷ []

on_state_change-All_example :
    All (λ s. is_state_valid s ≡ none) (on_state_change decode (λ s. s) (content (2 ∷ [])) writes)
on_state_change-All_example = on_state_change-All decode (λ s. s) (content (2 ∷ [])) writes

on_events-Once_example :
    Once decode
      (λ s. s)
      []
      (1 ∷ [])
      served
      (on_events decode (λ s. s) [] (changed true (content (1 ∷ [])) ∷ writes))
unfolding decode writes
on_events-Once_example =
    on_events-Once decode (λ s. s) [] (1 ∷ []) served writes refl
      (inl refl, (tt, (inr refl, (tt, tt))))
