-- ===== src/Examples/Operator.antt =====
-- Witnesses of the status write and of injection's RoleBinding.
use wireguard_operator.Prelude.{text, true, [], none, some, refl}
use wireguard_operator.Api.Types.{Condition}
use wireguard_operator.Controller.Peers.{condition_ready, condition_true}
use wireguard_operator.Controller.Status.{with_condition}
use wireguard_operator.Controller.Status.Laws.{ReadyWritten, with_condition-ReadyWritten}
use wireguard_operator.Controller.Injection.{RoleBinding, client_role_binding_action}
use wireguard_operator.Controller.Injection.Laws.{Justified, client_role_binding_action-Justified}
use wireguard_operator.Examples.Fixtures.{list_meta, gateway}

active : Condition
unfolding text
active = record {
  type = condition_ready;
  status = condition_true;
  reason = text "Active";
  message = text "VPN is active!";
  observed_generation = 0;
}

with_condition-ReadyWritten_example :
    ReadyWritten list_meta gateway active (with_condition list_meta gateway gateway active none)
unfolding active
with_condition-ReadyWritten_example =
    with_condition-ReadyWritten list_meta gateway gateway active none refl

foreign_binding : RoleBinding
foreign_binding = record { uid = []; labels = [] }

client_role_binding_action-Justified_example :
    Justified true (some foreign_binding) (client_role_binding_action true (some foreign_binding))
client_role_binding_action-Justified_example =
    client_role_binding_action-Justified true (some foreign_binding)
