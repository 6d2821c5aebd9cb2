-- ===== src/Controller/State.antt =====
-- desiredState of internal/controller/peers.go: the content of state.json.
pub mod Laws
pub mod Served
use wireguard_operator.Prelude.{
  ℕ, zero, suc, ◌+◌, ◌-◌, ◌*◌, ◌/◌, ◌%◌, ◌^◌, ◌≤◌, ◌<◌, compare, Ordering, String, length,
  get_elem?, filter, any, find?, In, In-append_left, In-append_right, All, All-In, All-of_In,
  All-append, All-map, Str, str_eq→≡, str_eq_refl, str_eq_iff, is_empty→≡, is_empty_nil, text,
  str_eq, is_empty, str_compare, cut, has_byte, join, contains, contains→In, In→contains,
  contains-false, Bool, true, false, not, ◌&&◌, ◌||◌, List, [], ◌∷◌, ◌++◌, map, ◌≢◌, ◌↔◌, ◌⊎◌, inl,
  inr, Option, none, some, ◌≡◌, refl, sym, ap, ◌∙◌, subst, arith, ltb, leb, ◌==◌, if◌then◌else◌,
  Bool-cases, ==→≡, ==_refl, ltb→lt, ltb→le,
}
use wireguard_operator.Prelude.Sort.{sort}
use wireguard_operator.Api.Types.{Wireguard, WireguardPeer, GluetunSpec, no_resources}
use wireguard_operator.Agent.{State}

-- The zero values of what is not rendered: no metadata and no other status field.
unfoldable pub rendered : WireguardPeer → WireguardPeer
rendered peer = record {
  name = peer.name;
  namespace = peer.namespace;
  uid = [];
  creation_timestamp = 0;
  generation = 0;
  owner_references = [];
  spec = record {
    public_key = peer.spec.public_key;
    wireguard_ref = peer.spec.wireguard_ref;
    wireguard_namespace = [];
  };
  status = record {
    status = [];
    message = [];
    address = peer.status.address;
    endpoint = [];
    server_public_key = [];
    local_cidrs = [];
    conditions = [];
  };
}

abbrev pub no_gluetun : GluetunSpec
no_gluetun = record { env = []; env_from = []; resources = no_resources }

abbrev pub by_name : Ordering → Ordering → Bool
by_name Ordering.lt y = true
by_name Ordering.gt y = false
by_name Ordering.eq Ordering.lt = true
by_name Ordering.eq Ordering.eq = false
by_name Ordering.eq Ordering.gt = false

-- cmp.Or(cmp.Compare(a.Name, b.Name), cmp.Compare(a.Namespace, b.Namespace)) < 0
unfoldable pub listed_before : WireguardPeer → WireguardPeer → Bool
listed_before a b = by_name (str_compare a.name b.name) (str_compare a.namespace b.namespace)

-- desiredState
unfoldable pub desired_state : Wireguard → Str → List WireguardPeer → State
unfolding rendered listed_before
desired_state wg private_key peers = record {
  server = record {
    name = wg.name;
    namespace = wg.namespace;
    generation = 0;
    annotations = [];
    spec = record (wg.spec) { gluetun = no_gluetun };
    status = record { status = []; message = []; endpoint = []; public_key = []; conditions = [] };
  };
  server_private_key = private_key;
  peers = sort listed_before (map rendered peers);
}
