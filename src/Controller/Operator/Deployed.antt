-- ===== src/Controller/Operator/Deployed.antt =====
-- What a reconcile that deploys a gateway has gone through: its Secret and its Deployment.
use wireguard_operator.Prelude.{
  Str, str_eq→≡, text, str_eq, List, ◌≢◌, inl, inr, Option, none, some, ◌≡◌, refl,
}
use wireguard_operator.Api.Types.{Wireguard, WireguardPeer}
use wireguard_operator.Api.Exec.{Result, ok, err}
use wireguard_operator.Api.Client.{Secret, entry}
use wireguard_operator.Resources.Types.{Service, GatewayDeployment}
use wireguard_operator.Resources.{
  secret_for_wireguard, wireguard_port_text, deployment_for_wireguard,
}
use wireguard_operator.Controller.Peers.{condition_true, condition_false}
use wireguard_operator.Controller.Rollout.{
  Deployment, RolloutProblem, rollout_problem, rollout_problem_iff,
}
use wireguard_operator.Controller.State.{desired_state}
use wireguard_operator.Controller.Status.{ServerIdentity, sync_peer_identity}
use wireguard_operator.Controller.Status.Told.{sync_peer_identity-Told}
use wireguard_operator.Controller.Apply.{returned}
use wireguard_operator.Controller.Operator.Types.{Cluster, Setup, join_host_port}
use wireguard_operator.Controller.Operator.Secrets.{sync_secret, refresh_secret}
use wireguard_operator.Api.Returns.{
  Answered, Returns, Returns-pure, Returns-if, Returns-then, Returns-attempt,
}
use wireguard_operator.Controller.Operator.{
  rollout_condition, activate, deployed, deployment_built, deploy, apply_deployment,
}
use wireguard_operator.Controller.Operator.Active.{Replaced, Stored, Rolled, Claims}

not_true : condition_false ≢ condition_true
unfolding condition_false condition_true text
not_true h = cc

module _ {W L P : Type 0} (k : Cluster W L P) (s : Setup)
    (Q : Wireguard → Option ServerIdentity → Type 0) where
  rollout_condition-true :
      (dep : Deployment) (o : Option RolloutProblem)
      → (rollout_condition k s dep o).status ≡ condition_true
      → o ≡ none
  unfolding rollout_condition
  rollout_condition-true dep none h = refl
  rollout_condition-true dep (some p) h = absurd (not_true h)

  activate-Claims :
      (wg : Wireguard) (svc : Service) (key : Str) (admitted : List WireguardPeer)
      (wanted : GatewayDeployment) (dep : Deployment)
      → deployment_for_wireguard s.owners s.builder wg ≡ ok wanted
      → Answered (apply_deployment k s wanted) dep
      → ((id : Option ServerIdentity) → Rolled k s wg svc key admitted id → Q wg id)
      → Returns (Claims k s Q) (activate k s wg svc key admitted dep)
  unfolding activate
  activate-Claims wg svc key admitted wanted dep built applied use_it =
      let identity : ServerIdentity = record {
        endpoint = join_host_port svc.cluster_ip wireguard_port_text;
        public_key = key;
      } in
      Returns-then (Claims k s Q) (sync_peer_identity k.client s.pkg.meta wg identity admitted) _
        (λ u told. Returns-pure (Claims k s Q) _ (λ t st. use_it (some identity) (record {
          wanted = wanted;
          built = built;
          dep = dep;
          applied = applied;
          rolled_out =
              (rollout_problem_iff dep).0 (rollout_condition-true dep (rollout_problem dep) st);
          identity = identity;
          published = refl;
          endpoint = refl;
          keyed = refl;
          told = sync_peer_identity-Told k.client s.pkg.meta wg identity admitted (told.0) u told.1;
        })))

  pub deploy-Claims :
      (wg : Wireguard) (svc : Service) (key : Str) (admitted : List WireguardPeer)
      → ((id : Option ServerIdentity) → Rolled k s wg svc key admitted id → Q wg id)
      → Returns (Claims k s Q) (deploy k s wg svc key admitted)
  unfolding deploy deployment_built deployed
  deploy-Claims wg svc key admitted use_it =
      by_build (deployment_for_wireguard s.owners s.builder wg) refl
    where
      by_apply :
          (wanted : GatewayDeployment)
          → deployment_for_wireguard s.owners s.builder wg ≡ ok wanted
          → (r : Result Deployment) (w : W) → (apply_deployment k s wanted w).0 ≡ r
          → Returns (Claims k s Q) (deployed k s wg (activate k s wg svc key admitted) r)
      by_apply wanted built (ok dep) w h =
          activate-Claims wg svc key admitted wanted dep built (w, h) use_it
      by_apply wanted built (err e) w h =
          Returns-pure (Claims k s Q) _ (inr (inr (inr (refl, (wanted, built, (w, h))))))

      by_build :
          (r : Result GatewayDeployment)
          → deployment_for_wireguard s.owners s.builder wg ≡ r
          → Returns (Claims k s Q) (deployment_built k s wg (activate k s wg svc key admitted) r)
      by_build (ok wanted) h =
          Returns-attempt (Claims k s Q) (apply_deployment k s wanted)
            (deployed k s wg (activate k s wg svc key admitted)) (by_apply wanted h)
      by_build (err e) h = Returns-pure (Claims k s Q) _ (inr (inr (inl (refl, h))))

  refresh_secret-Replaced :
      (wg : Wireguard) (secret : Secret) (state : Str)
      → Returns (λ u. Replaced k s wg secret state) (refresh_secret k s wg secret state)
  unfolding refresh_secret
  refresh_secret-Replaced wg secret state =
      Returns-then _
        (returned (
          secret_for_wireguard s.owners wg state (entry secret.entries (text "privateKey"))
            (entry secret.entries (text "publicKey"))))
        _
        (λ new (w, e). Returns-then _ (k.update_secret new) _ (λ u done. λ w' a h. (new, e, done)))

  pub sync_secret-Stored :
      (wg : Wireguard) (admitted : List WireguardPeer) (secret : Secret)
      → Returns (λ u. Stored k s wg admitted secret) (sync_secret k s wg admitted secret)
  unfolding sync_secret
  sync_secret-Stored wg admitted secret =
      Returns-then _
        (returned
          (s.marshal (desired_state wg (entry secret.entries (text "privateKey")) admitted)))
        _
        (λ state (w, e).
          Returns-if _ (str_eq state (entry secret.entries (text "state.json"))) _ _
            (λ same. Returns-pure _ tt (record {
              state = state;
              encoded = e;
              held = inl (str_eq→≡ state (entry secret.entries (text "state.json")) same);
            }))
            (λ other w' a h. record {
              state = state;
              encoded = e;
              held = inr (refresh_secret-Replaced wg secret state w' a h);
            }))
