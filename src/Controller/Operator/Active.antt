-- ===== src/Controller/Operator/Active.antt =====
-- What a reconcile may report: that the gateway serves, or which owned object failed.
use wireguard_operator.Prelude.{All, Str, text, false, List, ◌⊎◌, Option, some, ◌≡◌}
use wireguard_operator.Api.Types.{Wireguard, WireguardPeer, NamespacedName}
use wireguard_operator.Api.Exec.{ApiError, ok, err}
use wireguard_operator.Api.Client.{Secret, entry}
use wireguard_operator.Resources.Types.{ObjectMeta, Service, GatewayDeployment}
use wireguard_operator.Resources.{
  secret_for_wireguard, wireguard_port_text, service_for_wireguard, deployment_for_wireguard,
}
use wireguard_operator.Controller.Peers.{condition_ready, condition_true}
use wireguard_operator.Controller.Reconcile.{wireguard_key}
use wireguard_operator.Controller.Reconcile.Admitted.{IsAdmitted}
use wireguard_operator.Controller.Gateway.{cluster_ip_outside}
use wireguard_operator.Controller.Gateway.Laws.{Renderable}
use wireguard_operator.Controller.Rollout.{Deployment, RolledOut}
use wireguard_operator.Controller.State.{desired_state}
use wireguard_operator.Controller.Status.{ServerIdentity}
use wireguard_operator.Controller.Status.Told.{Told}
use wireguard_operator.Controller.Apply.{apply_owned}
use wireguard_operator.Controller.Operator.Types.{
  Cluster, Setup, Ending, finished, record_status, degrade, join_host_port,
}
use wireguard_operator.Api.Returns.{Answered, Refused}
use wireguard_operator.Controller.Operator.{apply_deployment}

module _ {W L P : Type 0} (k : Cluster W L P) (s : Setup) where
  -- The Secret has been replaced by one with a new state and the same key pair.
  abbrev pub Replaced : Wireguard → Secret → Str → Type 0
  unfolding text
  Replaced wg secret state =
      (new : ObjectMeta × Secret) × (secret_for_wireguard s.owners wg state
          (entry secret.entries (text "privateKey")) (entry secret.entries (text "publicKey"))
        ≡ ok new)
      × Answered (k.update_secret new) tt

  -- The peers' state is what the Secret holds: as it was read, or since it was replaced.
  pub record Stored (wg : Wireguard) (admitted : List WireguardPeer) (secret : Secret)
      : Type 0 where
    pub state : Str
    pub encoded :
        s.marshal (desired_state wg (entry secret.entries (text "privateKey")) admitted) ≡ ok state
    pub held : (state ≡ entry secret.entries (text "state.json")) ⊎ Replaced wg secret state

  -- The Deployment has rolled out, and the identity is what each peer's status carries, or what the
  -- status write of the peer was sent.
  pub record Rolled (wg : Wireguard) (svc : Service) (public_key : Str)
      (admitted : List WireguardPeer) (id : Option ServerIdentity) : Type 0 where
    pub wanted : GatewayDeployment
    pub built : deployment_for_wireguard s.owners s.builder wg ≡ ok wanted
    pub dep : Deployment
    pub applied : Answered (apply_deployment k s wanted) dep
    pub rolled_out : RolledOut dep
    pub identity : ServerIdentity
    pub published : id ≡ some identity
    pub endpoint : identity.endpoint ≡ join_host_port svc.cluster_ip wireguard_port_text
    pub keyed : identity.public_key ≡ public_key
    pub told : All (Told k.client wg identity) admitted

  pub record Serving (req : NamespacedName) (wg : Wireguard) (svc : Service)
      (id : Option ServerIdentity) : Type 0 where
    pub admitted : List WireguardPeer
    pub welcome : IsAdmitted s.pkg.wgtypes req wg admitted
    pub secret : Secret
    pub read : Answered (k.client.get_secret (wireguard_key wg)) secret
    pub stored : Stored wg admitted secret
    pub rolled : Rolled wg svc (entry secret.entries (text "publicKey")) admitted id

  pub record IsActive (req : NamespacedName) (wg : Wireguard) (id : Option ServerIdentity)
      : Type 0 where
    pub renderable : Renderable wg
    pub wanted : Service
    pub built : service_for_wireguard s.owners wg ≡ ok wanted
    pub service : Service
    pub applied : Answered (apply_owned k.services wanted) service
    pub inside : cluster_ip_outside service.cluster_ip wg.spec.local_cidrs ≡ false
    pub serving : Serving req wg service id

  -- The rendering or the apply of an owned object has failed with the error, for this reason.
  abbrev pub Failure : Wireguard → ApiError → Str → Type 0
  unfolding text
  Failure wg e reason =
      ((reason ≡ text "ServiceBuildFailed") × (service_for_wireguard s.owners wg ≡ err e))
      ⊎ ((reason ≡ text "ServiceApplyFailed")
          × ((svc : Service) × (service_for_wireguard s.owners wg ≡ ok svc)
              × Refused (apply_owned k.services svc) e))
      ⊎ ((reason ≡ text "DeploymentBuildFailed")
          × (deployment_for_wireguard s.owners s.builder wg ≡ err e))
      ⊎ ((reason ≡ text "DeploymentApplyFailed")
          × ((dep : GatewayDeployment) × (deployment_for_wireguard s.owners s.builder wg ≡ ok dep)
              × Refused (apply_deployment k s dep) e))

  -- An ending that records Ready=True records what has the property; one that records a failure
  -- follows it.
  abbrev pub Claims : (Wireguard → Option ServerIdentity → Type 0) → Ending → Type 0
  Claims Q finished = Unit
  Claims Q (degrade wg e reason) = Failure wg e reason
  Claims Q (record_status wg cond id n) =
      cond.type ≡ condition_ready → cond.status ≡ condition_true → Q wg id
