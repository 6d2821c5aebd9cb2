-- ===== src/Resources/Types.antt =====
-- internal/resources: the shapes of the rendered objects.
use wireguard_operator.Prelude.{ℕ, Str, Bool, List, Option, some, ◌≡◌}
use wireguard_operator.Api.Types.{
  EnvVar, EnvFromSource, Wireguard, ResourceRequirements, Toleration, NamespacedName,
}
use wireguard_operator.Api.Exec.{Result, ok}

-- The metadata of a rendered object. Its owner is the Wireguard with the name.
pub record ObjectMeta : Type 0 where
  pub name : Str
  pub namespace : Str
  pub labels : List (Str × Str)
  pub owner : Option NamespacedName

-- controller-runtime's SetControllerReference, which fails for a scheme that does not know the kind:
-- only the owner changes, and it is the Wireguard.
pub record OwnerReferences : Type 0 where
  pub set_controller_reference : Wireguard → ObjectMeta → Result ObjectMeta
  pub set-owner :
      (wg : Wireguard) (m n : ObjectMeta)
      → set_controller_reference wg m ≡ ok n
      → n ≡ record m { owner = some (record { namespace = wg.namespace; name = wg.name }) }

pub data Protocol : Type 0 where
  udp tcp : Protocol

-- A Service. Its address is assigned by the apiserver: a rendered one has none.
pub record Service : Type 0 where
  pub metadata : ObjectMeta
  pub selector : List (Str × Str)
  pub port_name : Str
  pub protocol : Protocol
  pub port : ℕ
  pub target_port : ℕ
  pub type : Str
  pub cluster_ip : Str

pub record ContainerPort : Type 0 where
  pub container_port : ℕ
  pub name : Str
  pub protocol : Protocol

pub data Probe : Type 0 where
  no_probe : Probe
  http_get : ℕ → Str → ℕ → Probe
  tcp_socket : ℕ → ℕ → Probe

-- A security context: what a nil pointer leaves to the defaults is `none`.
pub record SecurityContext : Type 0 where
  pub read_only_root_filesystem : Option Bool
  pub allow_privilege_escalation : Option Bool
  pub privileged : Option Bool
  pub capabilities : List Str

pub record Container : Type 0 where
  pub name : Str
  pub image : Str
  pub image_pull_policy : Str
  pub security_context : SecurityContext
  pub command : List Str
  pub args : List Str
  pub ports : List ContainerPort
  pub env : List EnvVar
  pub env_from : List EnvFromSource
  pub readiness_probe : Probe
  pub liveness_probe : Probe
  pub post_start : List Str
  pub volume_mounts : List (Str × Str)
  pub resources : ResourceRequirements

pub data VolumeSource : Type 0 where
  empty_dir : VolumeSource
  secret_volume : Str → VolumeSource

pub data Strategy : Type 0 where
  recreate rolling_update : Strategy

-- The template of a Deployment's pods.
pub record PodTemplate : Type 0 where
  pub labels : List (Str × Str)
  pub node_selector : List (Str × Str)
  pub tolerations : List Toleration
  pub seccomp_profile : Str
  pub automount_service_account_token : Bool
  pub volumes : List (Str × VolumeSource)
  pub init_containers : List Container
  pub containers : List Container

-- A Deployment as the operator renders it.
pub record GatewayDeployment : Type 0 where
  pub metadata : ObjectMeta
  pub replicas : ℕ
  pub strategy : Strategy
  pub selector : List (Str × Str)
  pub template : PodTemplate

-- DeploymentBuilder
pub record DeploymentBuilder : Type 0 where
  pub agent_image : Str
  pub agent_image_pull_policy : Str
