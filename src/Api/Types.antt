-- ===== src/Api/Types.antt =====
-- api/v1alpha1: the custom resources, as far as the operator reads and writes them. Metadata is
-- flattened into the records; a creation time is a number, later ones larger.
use wireguard_operator.Prelude.{ℕ, Str, text, str_eq, Bool, ◌&&◌, List, [], ◌∷◌, ◌++◌, Option}

pub record Condition : Type 0 where
  pub type : Str
  pub status : Str
  pub reason : Str
  pub message : Str
  pub observed_generation : ℕ

pub record WireguardPeerSpec : Type 0 where
  pub public_key : Str
  pub wireguard_ref : Str
  pub wireguard_namespace : Str

pub record WireguardPeerStatus : Type 0 where
  pub status : Str
  pub message : Str
  pub address : Str
  pub endpoint : Str
  pub server_public_key : Str
  pub local_cidrs : List Str
  pub conditions : List Condition

pub record OwnerReference : Type 0 where
  pub api_version : Str
  pub kind : Str
  pub name : Str
  pub uid : Str
  pub controller : Bool

pub record WireguardPeer : Type 0 where
  pub name : Str
  pub namespace : Str
  pub uid : Str
  pub creation_timestamp : ℕ
  pub generation : ℕ
  pub owner_references : List OwnerReference
  pub spec : WireguardPeerSpec
  pub status : WireguardPeerStatus

pub record EnvVar : Type 0 where
  pub name : Str
  pub value : Str

-- A source of environment variables: a prefix, and the Secret it reads if it reads one.
pub record EnvFromSource : Type 0 where
  pub prefix : Str
  pub secret_ref : Option Str

-- corev1.ResourceRequirements: quantities by resource name
pub record ResourceRequirements : Type 0 where
  pub limits : List (Str × Str)
  pub requests : List (Str × Str)

pub record Toleration : Type 0 where
  pub key : Str
  pub operator : Str
  pub value : Str
  pub effect : Str
  pub toleration_seconds : Option ℕ

pub record GluetunSpec : Type 0 where
  pub env : List EnvVar
  pub env_from : List EnvFromSource
  pub resources : ResourceRequirements

-- The Agent field of a spec.
pub record WireguardPodSpec : Type 0 where
  pub resources : ResourceRequirements

-- AllowedNamespaces.From; a value that the schema does not know is kept as `other`.
pub data FromNamespaces : Type 0 where
  from_all from_same unset : FromNamespaces
  other : Str → FromNamespaces

pub record WireguardSpec : Type 0 where
  pub peer_cidr : Str
  pub local_cidrs : List Str
  pub gluetun : GluetunSpec
  pub node_selector : List (Str × Str)
  pub tolerations : List Toleration
  pub agent : WireguardPodSpec
  pub allowed_namespaces : Option FromNamespaces

pub record WireguardStatus : Type 0 where
  pub status : Str
  pub message : Str
  pub endpoint : Str
  pub public_key : Str
  pub conditions : List Condition

pub record Wireguard : Type 0 where
  pub name : Str
  pub namespace : Str
  pub generation : ℕ
  pub annotations : List (Str × Str)
  pub spec : WireguardSpec
  pub status : WireguardStatus

abbrev pub no_resources : ResourceRequirements
no_resources = record { limits = []; requests = [] }

-- types.NamespacedName
pub record NamespacedName : Type 0 where
  pub namespace : Str
  pub name : Str

unfoldable pub key_eq : NamespacedName → NamespacedName → Bool
key_eq a b = str_eq a.namespace b.namespace && str_eq a.name b.name

-- NamespacedName.String
unfoldable pub key_string : NamespacedName → Str
key_string k = k.namespace ++ (b'/' ∷ k.name)

-- client.ObjectKeyFromObject of a peer
abbrev pub peer_key : WireguardPeer → NamespacedName
peer_key p = record { namespace = p.namespace; name = p.name }

-- The values of status.status.
unfoldable pub pending : Str
unfolding text
pending = text "pending"

unfoldable pub error : Str
unfolding text
error = text "error"

unfoldable pub ready : Str
unfolding text
ready = text "ready"
