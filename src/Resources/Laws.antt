-- ===== src/Resources/Laws.antt =====
-- What the rendered objects guarantee.
use wireguard_operator.Prelude.{
  In, Str, str_eq, Bool, true, false, ◌&&◌, List, [], ◌∷◌, ◌↔◌, ◌≡◌, if◌then◌else◌,
}
use wireguard_operator.Api.Types.{Wireguard}
use wireguard_operator.Resources.Types.{Service, ContainerPort, Container, GatewayDeployment}
use wireguard_operator.Resources.{label_component, component_gateway}

-- A label selector of Kubernetes: every label it names has the value it names.
abbrev has_value : List (Str × Str) → Str → Str → Bool
has_value [] k v = false
has_value ((j, u) ∷ ls) k v = if str_eq j k then str_eq u v else has_value ls k v

unfoldable pub selects : List (Str × Str) → List (Str × Str) → Bool
selects [] labels = true
selects ((k, v) ∷ sel) labels = has_value labels k v && selects sel labels

-- The pods that a Service sends to: those of its own namespace that its selector names.
abbrev pub SendsTo : Service → GatewayDeployment → Type 0
SendsTo svc dep =
    (svc.metadata.namespace ≡ dep.metadata.namespace)
    × (selects svc.selector dep.template.labels ≡ true)

-- A Service and a Deployment of one gateway each.
pub record Fronts (a b : Wireguard) (svc : Service) (dep : GatewayDeployment) : Type 0 where
  pub reaches : SendsTo svc dep ↔ ((a.namespace ≡ b.namespace) × (a.name ≡ b.name))
  pub controls : (selects dep.selector dep.template.labels ≡ true)
  pub marked : In (label_component, component_gateway) dep.template.labels
  pub served :
      (agent : Container) × (In agent dep.template.containers)
      × ((port : ContainerPort) × In port agent.ports
          × (port.container_port ≡ svc.target_port)
          × (port.protocol ≡ svc.protocol))
