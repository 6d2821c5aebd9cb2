-- ===== src/Controller/Operator.antt =====
-- Reconcile of internal/controller/wireguard_controller.go, with its applyDeployment. Each of its
-- exits is a tail call, so a reconcile is the choice of an ending and that ending's last write.
-- The wording of the conditions' messages is left out: it is a parameter.
pub mod Types
pub mod Secrets
pub mod Active
pub mod Deployed
pub mod Serve
use wireguard_operator.Prelude.{
  ℕ, zero, suc, ◌+◌, ◌-◌, ◌*◌, ◌/◌, ◌%◌, ◌^◌, ◌≤◌, ◌<◌, compare, Ordering, String, length,
  get_elem?, filter, any, find?, In, In-append_left, In-append_right, All, All-In, All-of_In,
  All-append, All-map, Str, str_eq→≡, str_eq_refl, str_eq_iff, is_empty→≡, is_empty_nil, text,
  str_eq, is_empty, str_compare, cut, has_byte, join, contains, contains→In, In→contains,
  contains-false, Bool, true, false, not, ◌&&◌, ◌||◌, List, [], ◌∷◌, ◌++◌, map, ◌≢◌, ◌↔◌, ◌⊎◌, inl,
  inr, Option, none, some, ◌≡◌, refl, sym, ap, ◌∙◌, subst, arith, ltb, leb, ◌==◌, if◌then◌else◌,
  Bool-cases, ==→≡, ==_refl, ltb→lt, ltb→le,
}
use wireguard_operator.Api.Types.{Wireguard, WireguardPeer, Condition, NamespacedName}
use wireguard_operator.Api.Exec.{ApiError, Result, ok, err, Exec, pure, fail, attempt, ◌>>=◌, ◌>>◌}
use wireguard_operator.Api.External.{Key}
use wireguard_operator.Api.Client.{Client, Secret, entry}
use wireguard_operator.Agent.{State}
use wireguard_operator.Resources.Types.{
  ObjectMeta, OwnerReferences, Service, GatewayDeployment, DeploymentBuilder,
}
use wireguard_operator.Resources.{
  wireguard_port_text, labels_for_wireguard, service_for_wireguard, deployment_for_wireguard,
  secret_for_wireguard,
}
use wireguard_operator.Controller.Peers.{condition_ready, condition_true, condition_false}
use wireguard_operator.Controller.Reconcile.{
  Packages, wireguard_key, reconcile_peers, mark_peers_wireguard_not_found,
}
use wireguard_operator.Controller.Gateway.{SpecProblem, reason, spec_problem, cluster_ip_outside}
use wireguard_operator.Controller.Rollout.{Deployment, RolloutProblem, rollout_problem}
use wireguard_operator.Controller.State.{desired_state}
use wireguard_operator.Controller.Status.{
  ServerIdentity, condition_degraded, condition_progressing, update_status, fail_degraded,
  sync_peer_identity,
}
use wireguard_operator.Controller.Apply.{
  ObjectApi, apply_owned, returned, is_not_found, is_conflict,
}
use wireguard_operator.Controller.Operator.Types.{
  Pod, Cluster, Setup, Ending, finished, record_status, degrade, condition, join_host_port, put,
}
use wireguard_operator.Controller.Operator.Secrets.{sync_secret, first_secret}

module _ {W L P : Type 0} (k : Cluster W L P) (s : Setup) where
  -- applyDeployment: a missing Deployment has nothing to clear
  abbrev strategy_cleared : NamespacedName → Result Bool → Exec W Unit
  strategy_cleared key (ok true) = k.clear_rolling_update key
  strategy_cleared key (ok false) = pure tt
  strategy_cleared key (err e) = if is_not_found e then pure tt else fail e

  unfoldable pub apply_deployment : GatewayDeployment → Exec W Deployment
  unfolding ◌>>=◌
  apply_deployment dep =
      let key : NamespacedName = record {
        namespace = dep.metadata.namespace;
        name = dep.metadata.name;
      } in
      do
        r ← attempt (k.has_rolling_update key)
        strategy_cleared key r
        apply_owned k.deployments dep

  abbrev pub rollout_condition : Deployment → Option RolloutProblem → Condition
  unfolding text
  rollout_condition dep (some p) =
      condition condition_ready condition_false (text "DeploymentNotReady")
        (s.rollout_message dep p)
  rollout_condition dep none =
      condition condition_ready condition_true (text "Active") (text "VPN is active!")

  -- the last part of Reconcile, from the identity on
  unfoldable pub activate :
      Wireguard → Service → Str → List WireguardPeer → Deployment → Exec W Ending
  unfolding ◌>>=◌
  activate wg svc public_key admitted dep =
      let identity : ServerIdentity = record {
        endpoint = join_host_port svc.cluster_ip wireguard_port_text;
        public_key = public_key;
      } in
      do
        sync_peer_identity k.client s.pkg.meta wg identity admitted
        pure (record_status wg (rollout_condition dep (rollout_problem dep)) (some identity) 0)

  abbrev pub deployed : Wireguard → (Deployment → Exec W Ending) → Result Deployment → Exec W Ending
  unfolding text
  deployed wg rest (ok dep) = rest dep
  deployed wg rest (err e) = pure (degrade wg e (text "DeploymentApplyFailed"))

  abbrev pub deployment_built :
      Wireguard → (Deployment → Exec W Ending) → Result GatewayDeployment → Exec W Ending
  unfolding ◌>>=◌ text deployed
  deployment_built wg rest (ok dep) = do r ← attempt (apply_deployment dep); deployed wg rest r
  deployment_built wg rest (err e) = pure (degrade wg e (text "DeploymentBuildFailed"))

  -- its part from the Deployment on
  unfoldable pub deploy : Wireguard → Service → Str → List WireguardPeer → Exec W Ending
  unfolding deployment_built
  deploy wg svc public_key admitted =
      deployment_built wg (activate wg svc public_key admitted)
        (deployment_for_wireguard s.owners s.builder wg)

  abbrev pub secret_found : Wireguard → Service → List WireguardPeer → Result Secret → Exec W Ending
  unfolding ◌>>=◌ text
  secret_found wg svc admitted (ok secret) = do
    sync_secret k s wg admitted secret
    deploy wg svc (entry secret.entries (text "publicKey")) admitted
  secret_found wg svc admitted (err e) =
      if is_not_found e then (do first_secret k s wg admitted; pure finished) else fail e

  -- its part from the peers on
  unfoldable pub serve : NamespacedName → Wireguard → Service → Exec W Ending
  unfolding ◌>>=◌ secret_found
  serve req wg svc = do
    admitted ← reconcile_peers k.client s.pkg req wg
    r ← attempt (k.client.get_secret (wireguard_key wg))
    secret_found wg svc admitted r

  abbrev pub service_applied : NamespacedName → Wireguard → Result Service → Exec W Ending
  unfolding text condition_degraded
  service_applied req wg (ok svc) =
      if cluster_ip_outside svc.cluster_ip wg.spec.local_cidrs
      then pure (
          record_status wg
            (condition condition_degraded condition_true (text "ClusterIPOutsideLocalCIDRs")
              (s.cluster_ip_message svc.metadata.name svc.cluster_ip))
            none 60)
      else serve req wg svc
  service_applied req wg (err e) = pure (degrade wg e (text "ServiceApplyFailed"))

  abbrev pub service_built : NamespacedName → Wireguard → Result Service → Exec W Ending
  unfolding ◌>>=◌ text service_applied
  service_built req wg (ok svc) = do
    r ← attempt (apply_owned k.services svc)
    service_applied req wg r
  service_built req wg (err e) = pure (degrade wg e (text "ServiceBuildFailed"))

  abbrev pub spec_judged : NamespacedName → Wireguard → Option SpecProblem → Exec W Ending
  unfolding service_built condition_degraded
  spec_judged req wg (some p) = pure (
      record_status wg (condition condition_degraded condition_true (reason p) (s.spec_message p))
        none 60)
  spec_judged req wg none = service_built req wg (service_for_wireguard s.owners wg)

  abbrev pub fetched : NamespacedName → Result Wireguard → Exec W Ending
  unfolding ◌>>=◌ text spec_judged condition_progressing
  fetched req (ok wg) =
      if is_empty wg.status.status
      then pure (
          record_status wg
            (condition condition_progressing condition_true (text "FetchingStatus")
              (text "Fetching Wireguard status"))
            none 0)
      else (do p ← spec_problem k.client wg; spec_judged req wg p)
  fetched req (err e) =
      if is_not_found e
      then (do mark_peers_wireguard_not_found k.client s.pkg req; pure finished)
      else fail e

  -- Reconcile, up to its last call
  unfoldable pub decide : NamespacedName → Exec W Ending
  unfolding ◌>>=◌ fetched
  decide req = do r ← attempt (k.client.get_wireguard req); fetched req r

  unfoldable pub conclude : Ending → Exec W ℕ
  unfolding ◌>>=◌
  conclude finished = pure 0
  conclude (record_status wg cond identity again) = do
    update_status k.client s.pkg.meta wg cond identity
    pure again
  conclude (degrade wg e reason) = fail_degraded k.client s.pkg.meta s.error_text wg e reason

  -- Reconcile: the seconds after which to run again
  unfoldable pub reconcile : NamespacedName → Exec W ℕ
  unfolding ◌>>=◌
  reconcile req = do ending ← decide req; conclude ending
