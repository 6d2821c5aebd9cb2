-- ===== src/Controller/Rollout.antt =====
-- rolloutProblem of internal/controller/gateway.go: when a Deployment has rolled out.
use wireguard_operator.Prelude.{
  ℕ, ◌≤◌, Str, not, ◌||◌, ◌↔◌, Option, none, some, ◌≡◌, arith, ltb, ◌==◌, if◌then◌else◌, ==→≡,
  ==_refl,
}

-- What rolloutProblem reads of a Deployment.
pub record Deployment : Type 0 where
  pub name : Str
  pub generation : ℕ
  pub observed_generation : ℕ
  pub replicas : Option ℕ
  pub ready_replicas : ℕ
  pub updated_replicas : ℕ

pub data RolloutProblem : Type 0 where
  not_observed : ℕ → RolloutProblem
  not_rolled_out : ℕ → ℕ → ℕ → RolloutProblem

abbrev pub wanted : Option ℕ → ℕ
wanted none = 1
wanted (some n) = n

-- rolloutProblem: `none` is ""
unfoldable pub rollout_problem : Deployment → Option RolloutProblem
rollout_problem dep =
    let want = wanted dep.replicas in
    if ltb dep.observed_generation dep.generation
    then some (not_observed dep.generation)
    else if not (dep.ready_replicas == want) || not (dep.updated_replicas == want)
    then some (not_rolled_out dep.ready_replicas dep.updated_replicas want)
    else none

-- A Deployment that has rolled out the spec it carries.
pub record RolledOut (dep : Deployment) : Type 0 where
  pub is_observed : dep.generation ≤ dep.observed_generation
  pub all_ready : dep.ready_replicas ≡ wanted dep.replicas
  pub all_updated : dep.updated_replicas ≡ wanted dep.replicas

-- rolloutProblem finds nothing exactly for a Deployment whose generation is observed and whose ready
-- and updated replicas both equal spec.replicas, or one where that is unset.
pub rollout_problem_iff : (dep : Deployment) → (rollout_problem dep ≡ none) ↔ RolledOut dep
unfolding rollout_problem
rollout_problem_iff dep = (
  λ h. record {
    is_observed = ground arith;
    all_ready = ground (arith, ==→≡ dep.ready_replicas (wanted dep.replicas));
    all_updated = ground (arith, ==→≡ dep.updated_replicas (wanted dep.replicas));
  },
  λ r. ground (arith, r.is_observed, r.all_ready, r.all_updated, ==_refl (wanted dep.replicas)),
)
