-- ===== src/Api/Client.antt =====
-- The Kubernetes client (controller-runtime) as an interface over the cluster's state: the calls
-- that the operator makes. Any call may fail, and any may change the state: other writers run.
use wireguard_operator.Prelude.{Str, str_eq, List, [], ◌∷◌, ◌≡◌, if◌then◌else◌}
use wireguard_operator.Api.Types.{WireguardPeer, Wireguard, NamespacedName}
use wireguard_operator.Api.Exec.{Exec, ok}

pub record Secret : Type 0 where
  pub key : NamespacedName
  pub entries : List (Str × Str)

-- secret.Data[k]: empty where the key is missing
unfoldable pub entry : List (Str × Str) → Str → Str
entry [] k = []
entry ((j, v) ∷ m) k = let rest = entry m k in if str_eq j k then v else rest

pub record Client (W : Type 0) : Type 0 where
  pub list_peers : Exec W (List WireguardPeer)
  pub update_peer_status : WireguardPeer → Exec W WireguardPeer
  pub get_wireguard : NamespacedName → Exec W Wireguard
  pub update_wireguard_status : Wireguard → Exec W Wireguard
  pub get_secret : NamespacedName → Exec W Secret

-- The same object in all that the operator reads of a peer, but for its conditions.
pub record SamePeer (p q : WireguardPeer) : Type 0 where
  pub same_name : q.name ≡ p.name
  pub same_namespace : q.namespace ≡ p.namespace
  pub same_spec : q.spec ≡ p.spec
  pub same_address : q.status.address ≡ p.status.address

-- A status write that succeeds returns the object that was written.
abbrev pub Echoes : {W : Type 0} → Client W → Type 0
Echoes {W} c = (p q : WireguardPeer) (w : W) → (c.update_peer_status p w).0 ≡ ok q → SamePeer p q
