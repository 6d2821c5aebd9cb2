-- ===== src/Controller/Operator/Types.antt =====
-- What a reconcile of a Wireguard is given and how it ends.
use wireguard_operator.Prelude.{
  ℕ, Str, str_eq, has_byte, Bool, List, [], ◌∷◌, ◌++◌, Option, if◌then◌else◌,
}
use wireguard_operator.Api.Types.{Wireguard, Condition, NamespacedName}
use wireguard_operator.Api.Exec.{ApiError, Result, Exec}
use wireguard_operator.Api.External.{Key}
use wireguard_operator.Api.Client.{Client, Secret}
use wireguard_operator.Agent.{State}
use wireguard_operator.Resources.Types.{
  ObjectMeta, OwnerReferences, Service, GatewayDeployment, DeploymentBuilder,
}
use wireguard_operator.Controller.Reconcile.{Packages}
use wireguard_operator.Controller.Gateway.{SpecProblem, reason}
use wireguard_operator.Controller.Rollout.{Deployment, RolloutProblem}
use wireguard_operator.Controller.Status.{ServerIdentity}
use wireguard_operator.Controller.Apply.{ObjectApi}

pub record Pod : Type 0 where
  pub name : Str
  pub namespace : Str
  pub annotations : List (Str × Str)

-- The calls that a reconcile makes besides those of the client that its peers' part uses. The live
-- Deployment is read for one thing: whether it has a rollingUpdate block.
pub record Cluster (W L P : Type 0) : Type 0 where
  pub client : Client W
  pub services : ObjectApi W Service Service L P
  pub deployments : ObjectApi W GatewayDeployment Deployment L P
  pub has_rolling_update : NamespacedName → Exec W Bool
  pub clear_rolling_update : NamespacedName → Exec W Unit
  pub create_secret : ObjectMeta × Secret → Exec W Unit
  pub update_secret : ObjectMeta × Secret → Exec W Unit
  pub list_pods : Str → List (Str × Str) → Exec W (List Pod)
  pub update_pod : Pod → Exec W Pod
  pub now_text : Exec W Str
  pub generate_private_key : Exec W Key

-- What a reconciler is made with: the builders, the encoding of state.json, the messages' wording.
pub record Setup : Type 0 where
  pub pkg : Packages
  pub owners : OwnerReferences
  pub builder : DeploymentBuilder
  pub marshal : State → Result Str
  pub spec_message : SpecProblem → Str
  -- Error of a Go error, with the texts that wrap it
  pub error_text : ApiError → Str
  pub cluster_ip_message : Str → Str → Str
  pub rollout_message : Deployment → RolloutProblem → Str

-- How a reconcile ends: with nothing left to do, with a condition to record and the seconds after
-- which to run again (0: not by itself), or with the failure of an owned object.
pub data Ending : Type 0 where
  finished : Ending
  record_status : Wireguard → Condition → Option ServerIdentity → ℕ → Ending
  degrade : Wireguard → ApiError → Str → Ending

abbrev pub condition : Str → Str → Str → Str → Condition
condition type status reason message = record {
  type = type;
  status = status;
  reason = reason;
  message = message;
  observed_generation = 0;
}

-- net.JoinHostPort
unfoldable pub join_host_port : Str → Str → Str
join_host_port host port =
    if has_byte b':' host then b'[' ∷ (host ++ (b']' ∷ b':' ∷ port)) else host ++ (b':' ∷ port)

-- m[k] = v
unfoldable pub put : Str → Str → List (Str × Str) → List (Str × Str)
put k v [] = (k, v) ∷ []
put k v ((j, u) ∷ m) = let rest = put k v m in if str_eq j k then (k, v) ∷ m else (j, u) ∷ rest
