-- ===== src/Controller/Operator/Serve.antt =====
-- What a reconcile that reports something has gone through.
use wireguard_operator.Prelude.{
  ℕ, Str, text, is_empty, List, ◌≢◌, inl, inr, Option, none, some, ◌≡◌, refl,
}
use wireguard_operator.Api.Types.{Wireguard, WireguardPeer, Condition, NamespacedName}
use wireguard_operator.Api.Exec.{ApiError, Result, ok, err, ◌>>=◌}
use wireguard_operator.Api.Client.{Secret, entry, Echoes}
use wireguard_operator.Resources.Types.{Service}
use wireguard_operator.Resources.{service_for_wireguard}
use wireguard_operator.Controller.Peers.{condition_ready, condition_true}
use wireguard_operator.Controller.Reconcile.{
  wireguard_key, reconcile_peers, mark_peers_wireguard_not_found,
}
use wireguard_operator.Controller.Reconcile.Admitted.{IsAdmitted, reconcile_peers-IsAdmitted}
use wireguard_operator.Controller.Gateway.{SpecProblem, spec_problem, cluster_ip_outside}
use wireguard_operator.Controller.Gateway.Laws.{Renderable, spec_problem-Renderable}
use wireguard_operator.Controller.Status.{
  ServerIdentity, condition_degraded, condition_progressing, update_status, fail_degraded,
}
use wireguard_operator.Controller.Apply.{apply_owned, is_not_found}
use wireguard_operator.Controller.Operator.Types.{
  Cluster, Setup, finished, record_status, degrade, condition,
}
use wireguard_operator.Controller.Operator.Secrets.{sync_secret, first_secret}
use wireguard_operator.Api.Returns.{
  Returns, Returns-pure, Returns-fail, Returns-if, Returns-then, Returns-attempt,
}
use wireguard_operator.Controller.Operator.{
  secret_found, serve, service_applied, service_built, spec_judged, fetched, decide, conclude,
  reconcile,
}
use wireguard_operator.Controller.Operator.Active.{Serving, IsActive, Failure, Claims}
use wireguard_operator.Controller.Operator.Deployed.{deploy-Claims, sync_secret-Stored}

not_ready : condition_degraded ≢ condition_ready
unfolding condition_degraded condition_ready text
not_ready h = cc

still_progressing : condition_progressing ≢ condition_ready
unfolding condition_progressing condition_ready text
still_progressing h = cc

module _ {W L P : Type 0} (k : Cluster W L P) (s : Setup)
    (Q : Wireguard → Option ServerIdentity → Type 0) where
  module _ (req : NamespacedName) (wg : Wireguard) (echoes : Echoes k.client)
      (spec : Renderable wg) where
    serve-Claims :
        (svc : Service)
        → ((id : Option ServerIdentity) → Serving k s req wg svc id → Q wg id)
        → Returns (Claims k s Q) (serve k s req wg svc)
    unfolding serve secret_found
    serve-Claims svc use_it =
        Returns-then (Claims k s Q) (reconcile_peers k.client s.pkg req wg) _ (λ admitted (w, h).
          Returns-attempt (Claims k s Q) (k.client.get_secret (wireguard_key wg))
            (secret_found k s wg svc admitted)
            (by_secret admitted (
              reconcile_peers-IsAdmitted k.client s.pkg req wg echoes spec.pool spec.parsed
                spec.is_v4 admitted w h)))
      where
        by_secret :
            (admitted : List WireguardPeer)
            → IsAdmitted s.pkg.wgtypes req wg admitted
            → (r : Result Secret) (w : W) → (k.client.get_secret (wireguard_key wg) w).0 ≡ r
            → Returns (Claims k s Q) (secret_found k s wg svc admitted r)
        by_secret admitted welcome (err e) w h =
            Returns-if (Claims k s Q) (is_not_found e) _ _
              (λ _.
                Returns-then (Claims k s Q) (first_secret k s wg admitted) _
                  (λ u _. Returns-pure (Claims k s Q) finished tt))
              (λ _. Returns-fail (Claims k s Q) e)
        by_secret admitted welcome (ok secret) w h =
            Returns-then (Claims k s Q) (sync_secret k s wg admitted secret) _ (λ u (w', done).
              deploy-Claims k s Q wg svc (entry secret.entries (text "publicKey")) admitted
                (λ id rolled. use_it id (record {
                  admitted = admitted;
                  welcome = welcome;
                  secret = secret;
                  read = (w, h);
                  stored = sync_secret-Stored k s Q wg admitted secret w' u done;
                  rolled = rolled;
                })))

    service-Claims :
        ((id : Option ServerIdentity) → IsActive k s req wg id → Q wg id)
        → Returns (Claims k s Q) (service_built k s req wg (service_for_wireguard s.owners wg))
    unfolding service_built service_applied
    service-Claims use_it = by_build (service_for_wireguard s.owners wg) refl
      where
        by_apply :
            (wanted : Service)
            → service_for_wireguard s.owners wg ≡ ok wanted
            → (r : Result Service) (w : W) → (apply_owned k.services wanted w).0 ≡ r
            → Returns (Claims k s Q) (service_applied k s req wg r)
        by_apply wanted built (ok svc) w h =
            Returns-if (Claims k s Q) (cluster_ip_outside svc.cluster_ip wg.spec.local_cidrs) _ _
              (λ _. Returns-pure (Claims k s Q) _ (λ t st. absurd (not_ready t)))
              (λ inside. serve-Claims svc (λ id serving. use_it id (record {
                renderable = spec;
                wanted = wanted;
                built = built;
                service = svc;
                applied = (w, h);
                inside = inside;
                serving = serving;
              })))
        by_apply wanted built (err e) w h =
            Returns-pure (Claims k s Q) _ (inr (inl (refl, (wanted, built, (w, h)))))

        by_build :
            (r : Result Service)
            → service_for_wireguard s.owners wg ≡ r
            → Returns (Claims k s Q) (service_built k s req wg r)
        by_build (ok wanted) h =
            Returns-attempt (Claims k s Q) (apply_owned k.services wanted)
              (service_applied k s req wg) (by_apply wanted h)
        by_build (err e) h = Returns-pure (Claims k s Q) _ (inl (refl, h))

module _ {W L P : Type 0} (k : Cluster W L P) (s : Setup) (req : NamespacedName)
    (echoes : Echoes k.client) where
  spec_judged-Claims :
      (wg : Wireguard) (o : Option SpecProblem) (w : W)
      → (spec_problem k.client wg w).0 ≡ ok o
      → Returns (Claims k s (IsActive k s req)) (spec_judged k s req wg o)
  unfolding spec_judged
  spec_judged-Claims wg none w h =
      service-Claims k s (IsActive k s req) req wg echoes (spec_problem-Renderable k.client wg w h)
        (λ id a. a)
  spec_judged-Claims wg (some p) w h =
      Returns-pure (Claims k s (IsActive k s req)) _ (λ t st. absurd (not_ready t))

  fetched-Claims :
      (r : Result Wireguard) → Returns (Claims k s (IsActive k s req)) (fetched k s req r)
  unfolding fetched
  fetched-Claims (ok wg) =
      Returns-if (Claims k s (IsActive k s req)) (is_empty wg.status.status) _ _
        (λ _. Returns-pure (Claims k s (IsActive k s req)) _ (λ t st. absurd (still_progressing t)))
        (λ _.
          Returns-then (Claims k s (IsActive k s req)) (spec_problem k.client wg) _
            (λ o (w, h). spec_judged-Claims wg o w h))
  fetched-Claims (err e) =
      Returns-if (Claims k s (IsActive k s req)) (is_not_found e) _ _
        (λ _.
          Returns-then (Claims k s (IsActive k s req))
            (mark_peers_wireguard_not_found k.client s.pkg req) _
            (λ u _. Returns-pure (Claims k s (IsActive k s req)) finished tt))
        (λ _. Returns-fail (Claims k s (IsActive k s req)) e)

  decide-Claims : Returns (Claims k s (IsActive k s req)) (decide k s req)
  unfolding decide
  decide-Claims =
      Returns-attempt (Claims k s (IsActive k s req)) (k.client.get_wireguard req) (fetched k s req)
        (λ r _ _. fetched-Claims r)

  -- When a reconcile ends by recording Ready=True, then the spec is renderable; the Service that it
  -- rendered was applied and has its ClusterIP inside localCIDRs; the peers it serves are admitted;
  -- the Secret it read holds their state, or was replaced by one that does, with the same key pair;
  -- the Deployment that it rendered was applied and has rolled out; the identity it records is the
  -- Service's address with the Secret's public key; and each of those peers carries that identity with
  -- the spec's localCIDRs already, or a status write with them was sent for it, which was answered or
  -- failed as not found or conflicting. The API may answer in any way that returns what a successful
  -- status write has written.
  pub decide-IsActive :
      (w : W) (wg : Wireguard) (cond : Condition) (id : Option ServerIdentity) (again : ℕ)
      → (decide k s req w).0 ≡ ok (record_status wg cond id again)
      → cond.type ≡ condition_ready
      → cond.status ≡ condition_true
      → IsActive k s req wg id
  decide-IsActive w wg cond id again = decide-Claims w (record_status wg cond id again)

  -- When a reconcile ends with the failure of an owned object, then the rendering or the apply that
  -- its reason names has failed; it returns that call's error, after a status write that records
  -- Degraded=True with the reason and the error's text, whatever that write returns. The API may answer in any way that
  -- returns what a successful status write has written.
  pub reconcile-Failure :
      (w : W) (wg : Wireguard) (e : ApiError) (reason : Str)
      → (decide k s req w).0 ≡ ok (degrade wg e reason)
      → Failure k s wg e reason
        × ((reconcile k s req w).0 ≡ err e)
        × ((reconcile k s req w).1
            ≡ (update_status k.client s.pkg.meta wg
                (condition condition_degraded condition_true reason (s.error_text e))
                none
                (decide k s req w).1).1)
  unfolding reconcile conclude fail_degraded ◌>>=◌
  reconcile-Failure w wg e reason h =
      (decide-Claims w (degrade wg e reason) h, rw h refl, rw h refl)
