-- ===== src/Controller/Operator/Secrets.antt =====
-- The gateway's Secret, in Reconcile of internal/controller/wireguard_controller.go.
use wireguard_operator.Prelude.{Str, text, str_eq, List, [], ◌∷◌, if◌then◌else◌}
use wireguard_operator.Api.Types.{Wireguard, WireguardPeer}
use wireguard_operator.Api.Exec.{Result, ok, err, Exec, pure, fail, attempt, ◌>>=◌, ◌>>◌}
use wireguard_operator.Api.Client.{Secret, entry}
use wireguard_operator.Resources.{labels_for_wireguard, secret_for_wireguard}
use wireguard_operator.Controller.State.{desired_state}
use wireguard_operator.Controller.Apply.{returned, is_conflict}
use wireguard_operator.Controller.Operator.Types.{Pod, Cluster, Setup, put}

module _ {W L P : Type 0} (k : Cluster W L P) (s : Setup) where
  abbrev conflict_ignored : Result Pod → Exec W Unit
  conflict_ignored (ok p) = pure tt
  conflict_ignored (err e) = if is_conflict e then pure tt else fail e

  -- the loop that has the new Secret pushed to the gateway's pods
  unfoldable pub annotate_pods : List Pod → Exec W Unit
  unfolding ◌>>=◌ text
  annotate_pods [] = pure tt
  annotate_pods (p ∷ ps) = do
    now ← k.now_text
    r ← attempt (
        k.update_pod
          (record p { annotations = put (text "wgConfigLastUpdated") now p.annotations }))
    conflict_ignored r
    annotate_pods ps

  -- the write of a Secret whose state.json has gone stale
  unfoldable pub refresh_secret : Wireguard → Secret → Str → Exec W Unit
  unfolding ◌>>=◌ text
  refresh_secret wg secret state = do
    new ← returned (
        secret_for_wireguard s.owners wg state (entry secret.entries (text "privateKey"))
          (entry secret.entries (text "publicKey")))
    k.update_secret new
    pods ← k.list_pods wg.namespace (labels_for_wireguard wg.name)
    annotate_pods pods

  unfoldable pub sync_secret : Wireguard → List WireguardPeer → Secret → Exec W Unit
  unfolding ◌>>=◌ text
  sync_secret wg admitted secret = do
    state ←
        returned (s.marshal (desired_state wg (entry secret.entries (text "privateKey")) admitted))
    (if str_eq state (entry secret.entries (text "state.json"))
        then pure tt
        else refresh_secret wg secret state)

  -- the first Secret of a gateway, with a new key pair
  unfoldable pub first_secret : Wireguard → List WireguardPeer → Exec W Unit
  unfolding ◌>>=◌
  first_secret wg admitted = do
    key ← k.generate_private_key
    let private_key = s.pkg.wgtypes.key_text key
    let public_key = s.pkg.wgtypes.key_text (s.pkg.wgtypes.public_key key)
    state ← returned (s.marshal (desired_state wg private_key admitted))
    new ← returned (secret_for_wireguard s.owners wg state private_key public_key)
    k.create_secret new
