-- ===== src/Controller/Peers.antt =====
-- internal/controller/peers.go, and the status write of wireguard_controller.go: what the operator
-- records on a peer that the server cannot admit.
use wireguard_operator.Prelude.{
  Str, text, str_eq, is_empty, Bool, true, false, ◌&&◌, ◌||◌, List, [], ◌∷◌, ◌++◌, Option, none,
  some, ◌==◌, if◌then◌else◌,
}
use wireguard_operator.Api.Types.{
  WireguardPeer, WireguardPeerStatus, Wireguard, NamespacedName, Condition, FromNamespaces,
  from_all, from_same, unset, other, pending, error,
}
use wireguard_operator.Api.External.{Meta, WgTypes, Key}

-- The condition type that the operator records on peers and on Wireguards.
unfoldable pub condition_ready : Str
unfolding text
condition_ready = text "Ready"

-- metav1.ConditionTrue, metav1.ConditionFalse
unfoldable pub condition_true : Str
unfolding text
condition_true = text "True"

unfoldable pub condition_false : Str
unfolding text
condition_false = text "False"

-- The summary fields and the Ready=False condition recorded for a peer.
pub record NotReady : Type 0 where
  pub status : Str
  pub message : Str
  pub reason : Str
  pub condition_message : Str

unfoldable pub public_key_missing : NotReady
unfolding pending text
public_key_missing = record {
  status = pending;
  message = text "Waiting for spec.publicKey";
  reason = text "PublicKeyMissing";
  condition_message = text "spec.publicKey is empty, so the server cannot admit this peer";
}

unfoldable pub invalid_public_key : NotReady
unfolding error text
invalid_public_key = record {
  status = error;
  message = text "spec.publicKey is not a valid WireGuard key";
  reason = text "InvalidPublicKey";
  condition_message =
      text
        "spec.publicKey is not a base64-encoded 32-byte WireGuard key, so the server cannot admit this peer";
}

key_problem : WgTypes → Str → Option Key → Option NotReady
key_problem wg key none = some invalid_public_key
key_problem wg key (some parsed) =
    if str_eq (wg.key_text parsed) key then none else some invalid_public_key

-- admissionProblem
unfoldable pub admission_problem : WgTypes → WireguardPeer → Option NotReady
unfolding key_problem
admission_problem wg peer =
    if is_empty peer.spec.public_key
    then some public_key_missing
    else key_problem wg peer.spec.public_key (wg.parse_key peer.spec.public_key)

-- gatewayKey
unfoldable pub gateway_key : WireguardPeer → NamespacedName
gateway_key peer = record {
  namespace =
      if is_empty peer.spec.wireguard_namespace
      then peer.namespace
      else peer.spec.wireguard_namespace;
  name = peer.spec.wireguard_ref;
}

-- allowed == nil || allowed.From != FromSame
unfoldable pub admits_all : Option FromNamespaces → Bool
admits_all none = true
admits_all (some from_same) = false
admits_all (some from_all) = true
admits_all (some unset) = true
admits_all (some (other s)) = true

namespace_refused : Wireguard → WireguardPeer → NotReady
unfolding error text
namespace_refused wg peer = record {
  status = error;
  message =
      text "Wireguard "
      ++ (wg.namespace
          ++ (b'/'
              ∷ (wg.name ++ (text " does not accept peers from namespace " ++ peer.namespace))));
  reason = text "NamespaceNotAllowed";
  condition_message =
      text "Wireguard "
      ++ (wg.namespace
          ++ (b'/'
              ∷ (wg.name
                  ++ (text
                        " sets spec.allowedNamespaces.from to Same, so it admits only peers in namespace "
                      ++ wg.namespace))));
}

-- namespaceNotAllowed
unfoldable pub namespace_not_allowed : Wireguard → WireguardPeer → Option NotReady
unfolding admits_all namespace_refused
namespace_not_allowed wg peer =
    if admits_all wg.spec.allowed_namespaces || str_eq peer.namespace wg.namespace
    then none
    else some (namespace_refused wg peer)

-- wireguardNotFound
unfoldable pub wireguard_not_found : Str → Str → NotReady
unfolding pending text
wireguard_not_found ref namespace = record {
  status = pending;
  message = text "Waiting for wireguard resource '" ++ (ref ++ text "' to be created");
  reason = text "WireguardNotFound";
  condition_message =
      text "no Wireguard named " ++ (ref ++ (text " exists in namespace " ++ namespace));
}

-- addressPoolExhausted
unfoldable pub address_pool_exhausted : Str → NotReady
unfolding pending text
address_pool_exhausted cidr = record {
  status = pending;
  message = text "No free address in " ++ cidr;
  reason = text "AddressPoolExhausted";
  condition_message = text "peerCIDR " ++ (cidr ++ text " has no free address for this peer");
}

address_conflict_message : Str → Str → Str
unfolding text
address_conflict_message address winner =
    text "Address "
    ++ (address ++ (text " is held by peer " ++ (winner ++ text "; waiting for a new address")))

-- addressConflict
unfoldable pub address_conflict : Str → Str → NotReady
unfolding pending text address_conflict_message
address_conflict address winner = record {
  status = pending;
  message = address_conflict_message address winner;
  reason = text "AddressConflict";
  condition_message = address_conflict_message address winner;
}

-- publicKeyConflict
unfoldable pub public_key_conflict : Str → NotReady
unfolding pending text
public_key_conflict winner = record {
  status = pending;
  message =
      text "Public key is held by peer " ++ (winner ++ text "; waiting for it to be released");
  reason = text "PublicKeyConflict";
  condition_message =
      text "spec.publicKey is already held by peer "
      ++ (winner ++ text " of this Wireguard, so this peer cannot be admitted");
}

abbrev pub no_entries : List Str → Bool
no_entries [] = true
no_entries (c ∷ cs) = false

condition_matches : WireguardPeer → NotReady → Option Condition → Bool
condition_matches peer nr none = false
condition_matches peer nr (some c) =
    str_eq c.status condition_false
    && str_eq c.reason nr.reason
    && str_eq c.message nr.condition_message
    && c.observed_generation == peer.generation

-- peerStatusMatches
unfoldable pub peer_status_matches : Meta → WireguardPeer → NotReady → Bool
unfolding condition_matches
peer_status_matches meta peer nr =
    str_eq peer.status.status nr.status
    && is_empty peer.status.address
    && is_empty peer.status.endpoint
    && is_empty peer.status.server_public_key
    && no_entries peer.status.local_cidrs
    && str_eq peer.status.message nr.message
    && condition_matches peer nr (meta.find_status_condition peer.status.conditions condition_ready)

-- What markPeerNotReady writes into the status.
unfoldable pub not_ready_status : Meta → WireguardPeer → NotReady → WireguardPeerStatus
not_ready_status meta peer nr = record {
  status = nr.status;
  message = nr.message;
  address = [];
  endpoint = [];
  server_public_key = [];
  local_cidrs = [];
  conditions = meta.set_status_condition peer.status.conditions (record {
    type = condition_ready;
    status = condition_false;
    reason = nr.reason;
    message = nr.condition_message;
    observed_generation = peer.generation;
  });
}

abbrev pub request_of : WireguardPeer → List NamespacedName
request_of peer = if is_empty peer.spec.wireguard_ref then [] else gateway_key peer ∷ []

-- wireguardForPeer: `none` is an object of another kind
unfoldable pub wireguard_for_peer : Option WireguardPeer → List NamespacedName
wireguard_for_peer none = []
wireguard_for_peer (some peer) = request_of peer
