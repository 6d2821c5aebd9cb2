-- ===== src/Controller/Status/Laws.antt =====
-- What a status write records.
use wireguard_operator.Prelude.{
  str_eq→≡, str_eq_refl, text, str_eq, true, false, List, ◌↔◌, inl, inr, Option, none, some, ◌≡◌,
  refl, sym, ap, ◌∙◌, arith, Bool-cases,
}
use wireguard_operator.Api.Types.{Wireguard, Condition, pending, ready}
use wireguard_operator.Api.External.{Meta}
use wireguard_operator.Controller.Peers.{condition_ready, condition_true}
use wireguard_operator.Controller.Status.{
  condition_degraded, ServerIdentity, cleared, observed, conditions_after, summary, identified,
  with_condition,
}

-- What one write of a Ready condition records on a Wireguard.
pub record ReadyWritten (meta : Meta) (wg : Wireguard) (cond : Condition) (out : Wireguard)
    : Type 0 where
  pub recorded :
      meta.find_status_condition out.status.conditions condition_ready ≡ some (observed wg cond)
  pub not_degraded :
      meta.find_status_condition out.status.conditions condition_degraded
      ≡ some (cleared wg.generation)
  pub ready_iff : (out.status.status ≡ ready) ↔ (cond.status ≡ condition_true)
  pub message : out.status.message ≡ cond.message

identified-conditions :
    (i : Option ServerIdentity) (wg : Wireguard)
    → ((identified i wg).status.conditions ≡ wg.status.conditions)
      × (((identified i wg).status.status ≡ wg.status.status)
          × ((identified i wg).status.message ≡ wg.status.message))
identified-conditions none wg = (refl, (refl, refl))
identified-conditions (some id) wg = (refl, (refl, refl))

ready_not_degraded : str_eq condition_degraded condition_ready ≡ false
unfolding str_eq condition_degraded condition_ready text
ready_not_degraded = refl

ready_not_pending : str_eq pending ready ≡ false
unfolding str_eq pending ready text
ready_not_pending = refl

summary_iff :
    (cond : Condition)
    → cond.type ≡ condition_ready
    → (summary cond ≡ ready) ↔ (cond.status ≡ condition_true)
unfolding summary
summary_iff cond e =
    let here : str_eq cond.type condition_ready ≡ true = rw e (str_eq_refl condition_ready) in
    elim (Bool-cases (str_eq cond.status condition_true)) [
      | inl holds ↦
          (λ _. str_eq→≡ cond.status condition_true holds, λ _. ground (arith, here, holds))
      | inr fails ↦
          let waits : summary cond ≡ pending = ground (arith, here, fails) in
          (
            λ k. absurd (
                cc
                  (ap (λ s. str_eq s ready) (sym waits ∙ k), str_eq_refl ready, ready_not_pending)),
            λ k.
                absurd
                  (cc (ap (λ s. str_eq s condition_true) k, str_eq_refl condition_true, fails)),
          )
    ]

-- When updateStatus writes a Ready condition, the same write records that condition with the
-- generation of the Wireguard that the reconcile rendered, clears Degraded, and sets the summary to
-- ready exactly when the condition is True.
pub with_condition-ReadyWritten :
    (meta : Meta) (latest wg : Wireguard) (cond : Condition) (identity : Option ServerIdentity)
    → cond.type ≡ condition_ready
    → ReadyWritten meta wg cond (with_condition meta latest wg cond identity)
unfolding with_condition conditions_after cleared
with_condition-ReadyWritten meta latest wg cond identity e =
    let here : str_eq cond.type condition_ready ≡ true = rw e (str_eq_refl condition_ready) in
    let one : List Condition =
      meta.set_status_condition latest.status.conditions (observed wg cond) in
    let both : conditions_after meta wg cond latest.status.conditions
        ≡ meta.set_status_condition one (cleared wg.generation) =
      ground (arith, here) in
    let (cs, (st, msg)) = identified-conditions identity (record latest {
      status = record (latest.status) {
        conditions = conditions_after meta wg cond latest.status.conditions;
        status = summary cond;
        message = cond.message;
      };
    }) in
    record {
      recorded =
          rw
            (
              cs,
              both,
              meta.find-set one (cleared wg.generation) condition_ready,
              ready_not_degraded,
              meta.find-set latest.status.conditions (observed wg cond) condition_ready,
              here,
            )
            refl;
      not_degraded =
          rw
            (
              cs,
              both,
              meta.find-set one (cleared wg.generation) condition_degraded,
              str_eq_refl condition_degraded,
            )
            refl;
      ready_iff = rw st (summary_iff cond e);
      message = msg;
    }
