-- ===== src/Controller/Status.antt =====
-- The status writes of internal/controller/wireguard_controller.go (updateStatus, syncPeerIdentity)
-- and failDegraded of internal/controller/apply.go. The time of a transition is left out.
pub mod Laws
pub mod Told
use wireguard_operator.Prelude.{
  ℕ, zero, suc, ◌+◌, ◌-◌, ◌*◌, ◌/◌, ◌%◌, ◌^◌, ◌≤◌, ◌<◌, compare, Ordering, String, length,
  get_elem?, filter, any, find?, In, In-append_left, In-append_right, All, All-In, All-of_In,
  All-append, All-map, Str, str_eq→≡, str_eq_refl, str_eq_iff, is_empty→≡, is_empty_nil, text,
  str_eq, is_empty, str_compare, cut, has_byte, join, contains, contains→In, In→contains,
  contains-false, Bool, true, false, not, ◌&&◌, ◌||◌, List, [], ◌∷◌, ◌++◌, map, ◌≢◌, ◌↔◌, ◌⊎◌, inl,
  inr, Option, none, some, ◌≡◌, refl, sym, ap, ◌∙◌, subst, arith, ltb, leb, ◌==◌, if◌then◌else◌,
  Bool-cases, ==→≡, ==_refl, ltb→lt, ltb→le,
}
use wireguard_operator.Api.Types.{
  Wireguard, WireguardStatus, WireguardPeer, Condition, NamespacedName, pending, error, ready,
}
use wireguard_operator.Api.Exec.{
  ApiError, not_found, conflict, already_exists, invalid_object, other_error, Result, ok, err, Exec,
  pure, fail, attempt, ◌>>=◌, ◌>>◌,
}
use wireguard_operator.Api.External.{Meta}
use wireguard_operator.Api.Client.{Client}
use wireguard_operator.Controller.Peers.{condition_ready, condition_true, condition_false}
use wireguard_operator.Controller.Reconcile.{skip_peer_write}

-- ConditionDegraded, ConditionProgressing
unfoldable pub condition_degraded : Str
unfolding text
condition_degraded = text "Degraded"

unfoldable pub condition_progressing : Str
unfolding text
condition_progressing = text "Progressing"

-- serverIdentity
pub record ServerIdentity : Type 0 where
  pub endpoint : Str
  pub public_key : Str

-- the Degraded=False that rides with a Ready condition
unfoldable pub cleared : ℕ → Condition
unfolding condition_degraded condition_false text
cleared generation = record {
  type = condition_degraded;
  status = condition_false;
  reason = text "Reconciled";
  message = text "All owned resources applied";
  observed_generation = generation;
}

abbrev pub observed : Wireguard → Condition → Condition
observed wg cond = record cond { observed_generation = wg.generation }

unfoldable pub conditions_after : Meta → Wireguard → Condition → List Condition → List Condition
unfolding cleared
conditions_after meta wg cond cs =
    if str_eq cond.type condition_ready
    then meta.set_status_condition (meta.set_status_condition cs (observed wg cond))
        (cleared wg.generation)
    else meta.set_status_condition cs (observed wg cond)

-- the summary that older clients read
unfoldable pub summary : Condition → Str
unfolding condition_degraded
summary cond =
    if str_eq cond.type condition_ready
    then (if str_eq cond.status condition_true then ready else pending)
    else if str_eq cond.type condition_degraded
    then error
    else pending

abbrev pub identified : Option ServerIdentity → Wireguard → Wireguard
identified none wg = wg
identified (some id) wg = record wg {
  status = record (wg.status) { endpoint = id.endpoint; public_key = id.public_key };
}

-- what updateStatus writes over the copy it has read
unfoldable pub with_condition :
    Meta → Wireguard → Wireguard → Condition → Option ServerIdentity → Wireguard
unfolding conditions_after summary
with_condition meta latest wg cond identity = identified identity (record latest {
  status = record (latest.status) {
    conditions = conditions_after meta wg cond latest.status.conditions;
    status = summary cond;
    message = cond.message;
  };
})

module _ {W : Type 0} (c : Client W) (meta : Meta) where
  abbrev ignored : Result Wireguard → Exec W Unit
  ignored (ok wg) = pure tt
  ignored (err not_found) = pure tt
  ignored (err conflict) = pure tt
  ignored (err already_exists) = fail already_exists
  ignored (err invalid_object) = fail invalid_object
  ignored (err (other_error s)) = fail (other_error s)

  abbrev refreshed : Wireguard → Condition → Option ServerIdentity → Result Wireguard → Exec W Unit
  unfolding ◌>>=◌
  refreshed wg cond identity (ok latest) = do
    r ← attempt (c.update_wireguard_status (with_condition meta latest wg cond identity))
    ignored r
  refreshed wg cond identity (err not_found) = pure tt
  refreshed wg cond identity (err conflict) = fail conflict
  refreshed wg cond identity (err already_exists) = fail already_exists
  refreshed wg cond identity (err invalid_object) = fail invalid_object
  refreshed wg cond identity (err (other_error s)) = fail (other_error s)

  -- updateStatus
  unfoldable pub update_status : Wireguard → Condition → Option ServerIdentity → Exec W Unit
  unfolding ◌>>=◌ with_condition refreshed
  update_status wg cond identity = do
    r ← attempt (c.get_wireguard (record { namespace = wg.namespace; name = wg.name }))
    refreshed wg cond identity r

  -- failDegraded: the error of the caller, whatever the status write does. `error_text` is Error of the
  -- Go error; what is logged is left out.
  unfoldable pub fail_degraded :
      {A : Type 0} → (ApiError → Str) → Wireguard → ApiError → Str → Exec W A
  unfolding ◌>>=◌ condition_degraded condition_true
  fail_degraded error_text wg e reason = do
    attempt (
        update_status wg
          (record {
            type = condition_degraded;
            status = condition_true;
            reason = reason;
            message = error_text e;
            observed_generation = 0;
          })
          none)
    fail e

  -- slices.Equal
  unfoldable pub same_texts : List Str → List Str → Bool
  same_texts [] [] = true
  same_texts (s ∷ ss) (t ∷ ts) = str_eq s t && same_texts ss ts
  same_texts _ _ = false

  unfoldable pub carries : Wireguard → ServerIdentity → WireguardPeer → Bool
  unfolding same_texts
  carries wg id peer =
      str_eq peer.status.endpoint id.endpoint
      && str_eq peer.status.server_public_key id.public_key
      && same_texts peer.status.local_cidrs wg.spec.local_cidrs

  unfoldable pub with_identity : Wireguard → ServerIdentity → WireguardPeer → WireguardPeer
  with_identity wg id peer = record peer {
    status = record (peer.status) {
      endpoint = id.endpoint;
      server_public_key = id.public_key;
      local_cidrs = wg.spec.local_cidrs;
    };
  }

  abbrev pub skipping : Result WireguardPeer → Exec W Unit
  skipping (ok p) = pure tt
  skipping (err e) = if skip_peer_write e then pure tt else fail e

  -- syncPeerIdentity
  unfoldable pub sync_peer_identity : Wireguard → ServerIdentity → List WireguardPeer → Exec W Unit
  unfolding ◌>>=◌ carries with_identity
  sync_peer_identity wg id [] = pure tt
  sync_peer_identity wg id (p ∷ ps) = if carries wg id p then sync_peer_identity wg id ps else do
    r ← attempt (c.update_peer_status (with_identity wg id p))
    skipping r
    sync_peer_identity wg id ps
