-- ===== src/Examples/Reconcile.antt =====
-- Runs and witnesses of the peers' reconcile.
use wireguard_operator.Prelude.{
  In, Str, text, str_eq, is_empty, str_compare, contains, true, List, [], ◌∷◌, map, inl, inr, some,
  ◌≡◌, refl, ap, arith,
}
use wireguard_operator.Netip.Addr.{v4, is4, contains_ip, addr_eq, masked, next}
use wireguard_operator.Netip.Parse.{parse_addr, parse_prefix}
use wireguard_operator.Netip.Print.{print_addr, print_small}
use wireguard_operator.Netip.Laws.{prefix4}
use wireguard_operator.Api.Types.{NamespacedName, WireguardPeer, key_eq, key_string, ready}
use wireguard_operator.Api.Exec.{ok, err}
use wireguard_operator.Ipam.{
  allocated, no_available_ip, allocate_ip, get_used_ips, address_usable, derive_reserved_ips,
}
use wireguard_operator.Ipam.Laws.{allocate_ip-usable, allocate_ip_complete}
use wireguard_operator.Controller.Peers.{
  admission_problem, gateway_key, namespace_not_allowed, public_key_missing, public_key_conflict,
  address_conflict, peer_status_matches, not_ready_status,
}
use wireguard_operator.Controller.Dedupe.{
  address_of, public_key_of, dedupe, dedupe_addresses, dedupe_public_keys, listed, key_beats,
  current_key,
}
use wireguard_operator.Controller.Dedupe.Order.{older}
use wireguard_operator.Controller.Dedupe.Laws.{
  Settles, dedupe_addresses-Settles, dedupe_public_keys-Settles, incumbent_kept,
}
use wireguard_operator.Controller.Reconcile.{
  effective_peer_cidr4, related_peers, peer_problem, clear_unusable, get_wireguard_peers,
  admit_peers, allocate_peers, admitted_keys, reconcile_peers, release_losers, mark_or_skip,
  mark_peer_not_ready, write_ready, configured, is_settled,
}
use wireguard_operator.Controller.Reconcile.Admitted.{IsAdmitted, reconcile_peers-IsAdmitted}
use wireguard_operator.Examples.Fixtures.{
  pool, pool_of, cluster, cluster-Echoes, packages, peer, gateway, gateway_request,
}

-- two holders of one address, a second holder of a key, and a newcomer
abbrev pub crowd : List WireguardPeer
unfolding text
crowd =
    peer (text "a") 5 (text "ka") (text "10.8.0.2")
    ∷ peer (text "b") 3 (text "kb") (text "10.8.0.2")
    ∷ peer (text "c") 4 (text "kb") []
    ∷ peer (text "d") 9 (text "kd") []
    ∷ peer (text "e") 9 [] []
    ∷ []

dedupe_addresses_run : dedupe_addresses crowd ≡ (
  peer (text "b") 3 (text "kb") (text "10.8.0.2")
      ∷ peer (text "c") 4 (text "kb") []
      ∷ peer (text "d") 9 (text "kd") []
      ∷ peer (text "e") 9 [] []
      ∷ [],
  record { peer = peer (text "a") 5 (text "ka") (text "10.8.0.2"); winner = text "apps/b" } ∷ [],
)
unfolding peer text dedupe_addresses dedupe older str_compare str_eq is_empty key_string
dedupe_addresses_run = refl

names : List WireguardPeer → List (Str × Str)
names [] = []
names (p ∷ ps) = (p.name, p.status.address) ∷ names ps

returned : List (Str × Str)
returned = (text "b", text "10.8.0.2") ∷ (text "d", text "10.8.0.3") ∷ []

-- the last digits of the addresses are all that a reader needs
unfoldable pub outcome : List WireguardPeer
unfolding reconcile_peers dedupe_public_keys dedupe_addresses dedupe older listed current_key
    key_beats str_compare str_eq is_empty key_string key_eq related_peers get_wireguard_peers
    gateway_key admit_peers peer_problem namespace_not_allowed admission_problem release_losers
    mark_or_skip mark_peer_not_ready peer_status_matches not_ready_status map clear_unusable
    address_usable packages peer gateway gateway_request effective_peer_cidr4 parse_addr
    parse_prefix print_addr print_small contains_ip addr_eq masked next contains allocate_peers
    public_key_missing public_key_conflict address_conflict write_ready configured is_settled
    get_used_ips derive_reserved_ips allocate_ip pool pool_of admitted_keys text ready
outcome = elim (reconcile_peers (cluster crowd gateway) packages gateway_request gateway tt).0 [
  | ok ps ↦ ps
  | err e ↦ []
]

pub reconcile_peers_run :
    (reconcile_peers (cluster crowd gateway) packages gateway_request gateway tt).0 ≡ ok outcome
unfolding outcome
reconcile_peers_run = refl

-- the older holder of the address and the key keeps both; the newcomer gets the next free address
reconcile_peers_names : names outcome ≡ returned
unfolding names outcome returned
reconcile_peers_names = refl

pub gateway_pool : parse_prefix (effective_peer_cidr4 gateway) ≡ some (prefix4 0x0a080000 29)
unfolding gateway parse_prefix effective_peer_cidr4 is_empty text
gateway_pool = refl

pub is4_pool : is4 (v4 0x0a080000) ≡ true
unfolding is4
is4_pool = refl

reconcile_peers-IsAdmitted_example : IsAdmitted packages.wgtypes gateway_request gateway outcome
reconcile_peers-IsAdmitted_example =
    reconcile_peers-IsAdmitted (cluster crowd gateway) packages gateway_request gateway
      (cluster-Echoes crowd gateway) (prefix4 0x0a080000 29) gateway_pool is4_pool outcome tt
      reconcile_peers_run

dedupe_addresses-Settles_example :
    Settles address_of older crowd (dedupe_addresses crowd).0 (dedupe_addresses crowd).1
dedupe_addresses-Settles_example = dedupe_addresses-Settles crowd

served_keys : List (NamespacedName × Str)
unfolding text
served_keys = (record { namespace = text "apps"; name = text "c" }, text "kb") ∷ []

dedupe_public_keys-Settles_example :
    Settles public_key_of
      (key_beats served_keys)
      crowd
      (dedupe_public_keys crowd served_keys).0
      (dedupe_public_keys crowd served_keys).1
dedupe_public_keys-Settles_example = dedupe_public_keys-Settles crowd served_keys

newcomer : WireguardPeer
unfolding peer text
newcomer = peer (text "c") 4 (text "kb") []

only_newcomer :
    (q : WireguardPeer)
    → In q crowd
    → public_key_of q ≡ public_key_of newcomer
    → listed served_keys q ≡ true
    → q ≡ newcomer
unfolding newcomer served_keys listed current_key peer text str_eq key_eq
only_newcomer q (inl e) same held = absurd (cc (ap (listed served_keys) e))
only_newcomer q (inr (inl e)) same held = absurd (cc (ap (listed served_keys) e))
only_newcomer q (inr (inr (inl e))) same held = e
only_newcomer q (inr (inr (inr (inl e)))) same held = absurd (cc (ap (listed served_keys) e))
only_newcomer q (inr (inr (inr (inr (inl e))))) same held = absurd (cc (ap (listed served_keys) e))
only_newcomer q (inr (inr (inr (inr (inr never))))) same held = elim never [ ]

newcomer-listed : listed served_keys newcomer ≡ true
unfolding newcomer served_keys listed current_key peer text str_eq key_eq
newcomer-listed = refl

newcomer-In : In newcomer crowd
unfolding newcomer
newcomer-In = inr (inr (inl refl))

-- the younger peer keeps the key that the server lists under its name
incumbent_kept_example : In newcomer (dedupe_public_keys crowd served_keys).0
incumbent_kept_example =
    incumbent_kept crowd served_keys newcomer newcomer-In newcomer-listed only_newcomer

small_pool : Str
unfolding text
small_pool = text "10.8.0.0/30"

small_pool_parsed : parse_prefix small_pool ≡ some (prefix4 0x0a080000 30)
unfolding small_pool parse_prefix text
small_pool_parsed = refl

third : Str
unfolding text
third = text "10.8.0.2"

one_allocated :
    allocate_ip packages.gen small_pool (derive_reserved_ips small_pool) ≡ allocated third
unfolding packages small_pool third allocate_ip derive_reserved_ips pool pool_of parse_prefix
    print_addr print_small masked next contains text str_eq
one_allocated = refl

allocate_ip-usable_example :
    (¬ In third (derive_reserved_ips small_pool)) × (address_usable third small_pool ≡ true)
allocate_ip-usable_example =
    allocate_ip-usable packages.gen small_pool (prefix4 0x0a080000 30)
      (derive_reserved_ips small_pool) small_pool_parsed is4_pool third (λ r h. h) one_allocated

all_four : List Str
unfolding text
all_four = text "10.8.0.0" ∷ text "10.8.0.1" ∷ text "10.8.0.2" ∷ text "10.8.0.3" ∷ []

none_left : allocate_ip packages.gen small_pool all_four ≡ no_available_ip
unfolding packages small_pool all_four allocate_ip pool pool_of parse_prefix print_addr print_small
    contains text str_eq
none_left = refl

third_usable : address_usable (print_addr (v4 0x0a080002)) small_pool ≡ true
unfolding small_pool address_usable parse_addr parse_prefix print_addr print_small contains_ip
    addr_eq masked next text
third_usable = refl

allocate_ip_complete_example : In (print_addr (v4 0x0a080002)) all_four
allocate_ip_complete_example =
    allocate_ip_complete packages.gen small_pool (prefix4 0x0a080000 30) all_four small_pool_parsed
      is4_pool 0x0a080002 none_left (omega arith) third_usable
