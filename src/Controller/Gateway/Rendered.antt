-- ===== src/Controller/Gateway/Rendered.antt =====
-- What the gluetun container runs with, for a spec that the operator renders.
use wireguard_operator.Prelude.{
  In, All, All-of_In, All-append, All-map, Str, true, false, List, none, ◌≡◌,
}
use wireguard_operator.Api.Types.{EnvVar, Wireguard}
use wireguard_operator.Api.Exec.{ok}
use wireguard_operator.Api.Client.{Client}
use wireguard_operator.Resources.{reserved_gluetun_env, gluetun_container}
use wireguard_operator.Controller.Gateway.{is_reserved_gluetun_env, spec_problem}
use wireguard_operator.Controller.Gateway.Laws.{spec_problem-Renderable}

-- An entry whose name the operator reserves is the operator's own.
abbrev pub Kept : List Str → EnvVar → Type 0
Kept local_cidrs e = is_reserved_gluetun_env e.name ≡ true → In e (reserved_gluetun_env local_cidrs)

module _ {W : Type 0} (c : Client W) where
  -- When specProblem finds nothing, each variable in the gluetun container's environment with a name
  -- that the operator reserves is one that the operator rendered: spec.gluetun.env overrides none.
  pub gluetun_container-Kept :
      (wg : Wireguard) (w : W)
      → (spec_problem c wg w).0 ≡ ok none
      → All (Kept wg.spec.local_cidrs) (gluetun_container wg).env
  unfolding gluetun_container
  gluetun_container-Kept wg w h =
      All-append (Kept wg.spec.local_cidrs) (reserved_gluetun_env wg.spec.local_cidrs)
        wg.spec.gluetun.env
        (All-of_In (Kept wg.spec.local_cidrs) (reserved_gluetun_env wg.spec.local_cidrs)
          (λ e m _. m))
        (All-map (λ e. is_reserved_gluetun_env e.name ≡ false) (Kept wg.spec.local_cidrs)
          (λ e free taken. absurd (cc)) wg.spec.gluetun.env
          (spec_problem-Renderable c wg w h).free_env)
