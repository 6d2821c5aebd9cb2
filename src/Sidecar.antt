-- ===== src/Sidecar.antt =====
-- internal/sidecar: the client that runs in an application pod. Here: its configuration (config.go),
-- the registration of its WireguardPeer (peer.go), and one pass (sidecar.go).
pub mod KeyFile
pub mod RouteTable
pub mod Pass
pub mod Check
pub mod Tunnel
pub mod Routes
pub mod Registration
pub mod Environment
use wireguard_operator.Prelude.{
  ℕ, zero, suc, ◌+◌, ◌-◌, ◌*◌, ◌/◌, ◌%◌, ◌^◌, ◌≤◌, ◌<◌, compare, Ordering, String, length,
  get_elem?, filter, any, find?, In, In-append_left, In-append_right, All, All-In, All-of_In,
  All-append, All-map, Str, str_eq→≡, str_eq_refl, str_eq_iff, is_empty→≡, is_empty_nil, text,
  str_eq, is_empty, str_compare, cut, has_byte, join, contains, contains→In, In→contains,
  contains-false, Bool, true, false, not, ◌&&◌, ◌||◌, List, [], ◌∷◌, ◌++◌, map, ◌≢◌, ◌↔◌, ◌⊎◌, inl,
  inr, Option, none, some, ◌≡◌, refl, sym, ap, ◌∙◌, subst, arith, ltb, leb, ◌==◌, if◌then◌else◌,
  Bool-cases, ==→≡, ==_refl, ltb→lt, ltb→le,
}
use wireguard_operator.Api.Types.{WireguardPeer, OwnerReference, NamespacedName}
use wireguard_operator.Api.External.{Owners}
use wireguard_operator.Api.Exec.{
  ApiError, not_found, conflict, already_exists, invalid_object, other_error, Result, ok, err, Exec,
  pure, fail, attempt, ◌>>=◌, ◌>>◌,
}

-- Config
pub record Config : Type 0 where
  pub wireguard : Str
  pub wireguard_namespace : Str
  pub key_path : Str
  pub pod_name : Str
  pub pod_namespace : Str
  pub pod_uid : Str

pub data ConfigError : Type 0 where
  wireguard_required malformed_wireguard : ConfigError
  missing_environment : List Str → ConfigError
  host_network : Str → ConfigError

pub data ConfigResult : Type 0 where
  configured : Config → ConfigResult
  refused : ConfigError → ConfigResult

-- the name and the namespace of a --wireguard value; `none` is a malformed one
unfoldable pub split_wireguard : Str → Option (Str × Str)
split_wireguard wireguard = elim (cut b'/' wireguard) [
  | none ↦ some (wireguard, [])
  | some (ns, n) ↦ if is_empty ns || is_empty n || has_byte b'/' n then none else some (n, ns)
]

abbrev pub missing_names : (Str → Str) → List Str → List Str
missing_names getenv [] = []
missing_names getenv (name ∷ names) =
    let rest = missing_names getenv names in if is_empty (getenv name) then name ∷ rest else rest

unfoldable pub required : List Str
unfolding text
required =
    text "POD_NAME" ∷ text "POD_NAMESPACE" ∷ text "POD_UID" ∷ text "POD_IP" ∷ text "HOST_IP" ∷ []

unfoldable pub with_identity : Str → (Str → Str) → List Str → Str × Str → ConfigResult
unfolding text
with_identity key_path getenv (m ∷ ms) parts = refused (missing_environment (m ∷ ms))
with_identity key_path getenv [] (name, namespace) =
    if str_eq (getenv (text "POD_IP")) (getenv (text "HOST_IP"))
    then refused (host_network (getenv (text "POD_IP")))
    else configured (record {
      wireguard = name;
      wireguard_namespace = namespace;
      key_path = key_path;
      pod_name = getenv (text "POD_NAME");
      pod_namespace = getenv (text "POD_NAMESPACE");
      pod_uid = getenv (text "POD_UID");
    })

-- ConfigFromEnv
unfoldable pub config_from_env : Str → Str → (Str → Str) → ConfigResult
unfolding split_wireguard required with_identity
config_from_env wireguard key_path getenv =
    if is_empty wireguard then refused wireguard_required else elim (split_wireguard wireguard) [
      | none ↦ refused malformed_wireguard
      | some parts ↦ with_identity key_path getenv (missing_names getenv required) parts
    ]

-- peerAction
pub data PeerAction : Type 0 where
  create keep replace refuse : PeerAction

-- desiredPeer: the server assigns what is zero here
unfoldable pub desired_peer : Config → Str → WireguardPeer
unfolding text
desired_peer cfg public_key = record {
  name = cfg.pod_name;
  namespace = cfg.pod_namespace;
  uid = [];
  creation_timestamp = 0;
  generation = 0;
  owner_references =
      record {
        api_version = text "v1";
        kind = text "Pod";
        name = cfg.pod_name;
        uid = cfg.pod_uid;
        controller = true;
      }
      ∷ [];
  spec = record {
    public_key = public_key;
    wireguard_ref = cfg.wireguard;
    wireguard_namespace = cfg.wireguard_namespace;
  };
  status = record {
    status = [];
    message = [];
    address = [];
    endpoint = [];
    server_public_key = [];
    local_cidrs = [];
    conditions = [];
  };
}

abbrev pub owner_uid : Option OwnerReference → Str
owner_uid none = []
owner_uid (some o) = o.uid

unfoldable pub judge : Owners → WireguardPeer → WireguardPeer → Option OwnerReference → PeerAction
unfolding text
judge owners existing want none = refuse
judge owners existing want (some ctl) =
    if not (str_eq ctl.api_version (text "v1")) || not (str_eq ctl.kind (text "Pod"))
    then refuse
    else if not (str_eq ctl.uid (owner_uid (owners.controller_of want.owner_references)))
    then replace
    else if not (str_eq existing.spec.public_key want.spec.public_key)
        || not (str_eq existing.spec.wireguard_ref want.spec.wireguard_ref)
        || not (str_eq existing.spec.wireguard_namespace want.spec.wireguard_namespace)
    then replace
    else keep

-- decidePeer: `none` is nil. The controller of `want`, which desiredPeer built, is never nil.
unfoldable pub decide_peer : Owners → Option WireguardPeer → WireguardPeer → PeerAction
unfolding judge
decide_peer owners none want = create
decide_peer owners (some existing) want =
    judge owners existing want (owners.controller_of existing.owner_references)

-- The pod's API calls: a read of the peer, a delete pinned to a UID, and a create.
pub record PodClient (W : Type 0) : Type 0 where
  pub get : NamespacedName → Exec W WireguardPeer
  pub delete : NamespacedName → Str → Exec W Unit
  pub create_peer : WireguardPeer → Exec W Unit

module _ {W : Type 0} (c : PodClient W) where
  abbrev pub created : Result Unit → Exec W (Option WireguardPeer)
  created (ok u) = pure none
  created (err already_exists) = pure none
  created (err not_found) = fail not_found
  created (err conflict) = fail conflict
  created (err invalid_object) = fail invalid_object
  created (err (other_error s)) = fail (other_error s)

  unfoldable pub create_want : WireguardPeer → Exec W (Option WireguardPeer)
  unfolding ◌>>=◌
  create_want want = do r ← attempt (c.create_peer want); created r

  abbrev pub deleted : WireguardPeer → Result Unit → Exec W (Option WireguardPeer)
  deleted want (ok u) = create_want want
  deleted want (err not_found) = create_want want
  deleted want (err conflict) = create_want want
  deleted want (err already_exists) = fail already_exists
  deleted want (err invalid_object) = fail invalid_object
  deleted want (err (other_error s)) = fail (other_error s)

  abbrev pub no_pod_controls : ApiError
  unfolding text
  no_pod_controls = other_error (text "no Pod controls it")

  unfoldable pub act :
      Option WireguardPeer
      → WireguardPeer
      → NamespacedName
      → PeerAction
      → Exec W (Option WireguardPeer)
  unfolding ◌>>=◌
  act existing want key keep = pure existing
  act existing want key refuse = fail no_pod_controls
  act existing want key create = create_want want
  act none want key replace = create_want want
  act (some e) want key replace = do r ← attempt (c.delete key e.uid); deleted want r

module _ {W : Type 0} (c : PodClient W) (owners : Owners) where
  abbrev pub found :
      Result WireguardPeer → WireguardPeer → NamespacedName → Exec W (Option WireguardPeer)
  found (ok p) want key = act c (some p) want key (decide_peer owners (some p) want)
  found (err not_found) want key = act c none want key (decide_peer owners none want)
  found (err conflict) want key = fail conflict
  found (err already_exists) want key = fail already_exists
  found (err invalid_object) want key = fail invalid_object
  found (err (other_error s)) want key = fail (other_error s)

  -- ensurePeer: the peer when it is already this pod's, `none` after a create or a replacement
  unfoldable pub ensure_peer : Config → Str → Exec W (Option WireguardPeer)
  unfolding ◌>>=◌ desired_peer act
  ensure_peer cfg public_key =
      let key : NamespacedName = record { namespace = cfg.pod_namespace; name = cfg.pod_name } in
      do r ← attempt (c.get key); found r (desired_peer cfg public_key) key
