-- ===== src/Controller/Injection.antt =====
-- internal/controller/injection_rbac.go, and defaultGateway and the decision of Reconcile in
-- internal/controller/injection.go: sidecar injection.
pub mod Laws
pub mod Policy
pub mod Cel
use wireguard_operator.Prelude.{
  ℕ, zero, suc, ◌+◌, ◌-◌, ◌*◌, ◌/◌, ◌%◌, ◌^◌, ◌≤◌, ◌<◌, compare, Ordering, String, length,
  get_elem?, filter, any, find?, In, In-append_left, In-append_right, All, All-In, All-of_In,
  All-append, All-map, Str, str_eq→≡, str_eq_refl, str_eq_iff, is_empty→≡, is_empty_nil, text,
  str_eq, is_empty, str_compare, cut, has_byte, join, contains, contains→In, In→contains,
  contains-false, Bool, true, false, not, ◌&&◌, ◌||◌, List, [], ◌∷◌, ◌++◌, map, ◌≢◌, ◌↔◌, ◌⊎◌, inl,
  inr, Option, none, some, ◌≡◌, refl, sym, ap, ◌∙◌, subst, arith, ltb, leb, ◌==◌, if◌then◌else◌,
  Bool-cases, ==→≡, ==_refl, ltb→lt, ltb→le,
}
use wireguard_operator.Prelude.Sort.{sort}
use wireguard_operator.Api.Types.{Wireguard, NamespacedName}
use wireguard_operator.Api.Client.{entry}
use wireguard_operator.Api.Exec.{
  ApiError, not_found, conflict, already_exists, invalid_object, other_error, Result, ok, err, Exec,
  pure, fail, attempt, ◌>>=◌, ◌>>◌,
}
use wireguard_operator.Resources.{label_component}
use wireguard_operator.Controller.Gateway.{text_before}

-- resources.AnnotationDefault
unfoldable pub annotation_default : Str
unfolding text
annotation_default = text "tunnel-operator.io/default"

-- resources.LabelManagedBy
unfoldable pub label_managed_by : Str
unfolding text
label_managed_by = text "app.kubernetes.io/managed-by"

-- resources.ManagedByValue
unfoldable pub managed_by_value : Str
unfolding text
managed_by_value = text "tunnel-operator"

-- excludedNamespace
unfoldable pub excluded_namespace : Str
unfolding text
excluded_namespace = text "kube-system"

-- a pod's labels
abbrev pub Labels : Type 0
Labels = List (Str × Str)

-- Why there is no default gateway.
pub data NoDefault : Type 0 where
  none_annotated : NoDefault
  several_annotated : List Str → NoDefault

pub data Default : Type 0 where
  chosen : NamespacedName → Default
  no_default : NoDefault → Default

abbrev pub true_value : Str
unfolding text
true_value = text "true"

unfoldable pub is_default_of : Str → Wireguard → Bool
is_default_of operator_ns wg =
    str_eq (entry wg.annotations annotation_default) true_value && str_eq wg.namespace operator_ns

unfoldable pub defaults : Str → List Wireguard → List Str
unfolding is_default_of
defaults operator_ns [] = []
defaults operator_ns (wg ∷ wgs) =
    let rest = defaults operator_ns wgs in
    if is_default_of operator_ns wg then wg.name ∷ rest else rest

abbrev pub choose : Str → List Str → Default
choose operator_ns [] = no_default none_annotated
choose operator_ns (name ∷ []) = chosen (record { namespace = operator_ns; name = name })
choose operator_ns (m ∷ n ∷ ns) = no_default (several_annotated (sort text_before (m ∷ n ∷ ns)))

-- defaultGateway
unfoldable pub default_gateway : List Wireguard → Str → Default
unfolding defaults
default_gateway list operator_ns = choose operator_ns (defaults operator_ns list)

unfoldable pub has_label : Labels → Str → Bool
has_label [] k = false
has_label ((j, v) ∷ ls) k = str_eq j k || has_label ls k

unfoldable pub any_client : List Labels → Bool
unfolding has_label
any_client [] = false
any_client (p ∷ ps) = not (has_label p label_component) || any_client ps

-- needsClientRoleBinding
unfoldable pub needs_client_role_binding : Str → List Labels → Bool
unfolding any_client
needs_client_role_binding ns pods = if str_eq ns excluded_namespace then false else any_client pods

-- What the reconciler reads of a RoleBinding.
pub record RoleBinding : Type 0 where
  pub uid : Str
  pub labels : List (Str × Str)

-- roleBindingAction
pub data RoleBindingAction : Type 0 where
  action_none action_apply action_delete action_refuse : RoleBindingAction

unfoldable pub ours : Option RoleBinding → Bool
ours none = false
ours (some rb) = str_eq (entry rb.labels label_managed_by) managed_by_value

abbrev pub is_nil : Option RoleBinding → Bool
is_nil none = true
is_nil (some rb) = false

-- clientRoleBindingAction
unfoldable pub client_role_binding_action : Bool → Option RoleBinding → RoleBindingAction
unfolding ours
client_role_binding_action needed existing =
    if needed && (is_nil existing || ours existing)
    then action_apply
    else if needed
    then action_refuse
    else if ours existing
    then action_delete
    else action_none

-- The calls of one pass: the labelled pods of the namespace, the RoleBinding, a forced apply of the
-- desired one, and a delete pinned to a UID.
pub record RbacClient (W : Type 0) : Type 0 where
  pub list_pods : Str → Exec W (List Labels)
  pub get_role_binding : Str → Exec W RoleBinding
  pub apply_role_binding : Str → Exec W Unit
  pub delete_role_binding : Str → Str → Exec W Unit

-- r.refused: the namespaces whose refusal has been logged
unfoldable pub forget : Str → List Str → List Str
forget ns [] = []
forget ns (m ∷ ms) = let rest = forget ns ms in if str_eq m ns then rest else m ∷ rest

unfoldable pub remember : Str → List Str → List Str
remember ns refused = if contains refused ns then refused else ns ∷ refused

module _ {W : Type 0} (c : RbacClient W) where
  unfoldable pub ignore_absent : Result Unit → Exec W Unit
  ignore_absent (ok u) = pure tt
  ignore_absent (err not_found) = pure tt
  ignore_absent (err conflict) = fail conflict
  ignore_absent (err already_exists) = fail already_exists
  ignore_absent (err invalid_object) = fail invalid_object
  ignore_absent (err (other_error s)) = fail (other_error s)

  unfoldable pub carry_out : Str → Option RoleBinding → RoleBindingAction → Exec W Unit
  carry_out ns existing action_none = pure tt
  carry_out ns existing action_refuse = pure tt
  carry_out ns existing action_apply = c.apply_role_binding ns
  carry_out ns none action_delete = pure tt
  carry_out ns (some rb) action_delete = do
    r ← attempt (c.delete_role_binding ns rb.uid)
    ignore_absent r

  abbrev pub refusals : Str → List Str → RoleBindingAction → List Str
  refusals ns refused action_refuse = remember ns refused
  refusals ns refused action_none = forget ns refused
  refusals ns refused action_apply = forget ns refused
  refusals ns refused action_delete = forget ns refused

  unfoldable pub acting :
      Str → List (List (Str × Str)) → List Str → Option RoleBinding → Exec W (List Str)
  acting ns pods refused existing =
      let action = client_role_binding_action (needs_client_role_binding ns pods) existing in
      do carry_out ns existing action; pure (refusals ns refused action)

  abbrev pub looked_up :
      Str → List (List (Str × Str)) → List Str → Result RoleBinding → Exec W (List Str)
  looked_up ns pods refused (ok rb) = acting ns pods refused (some rb)
  looked_up ns pods refused (err not_found) = acting ns pods refused none
  looked_up ns pods refused (err conflict) = fail conflict
  looked_up ns pods refused (err already_exists) = fail already_exists
  looked_up ns pods refused (err invalid_object) = fail invalid_object
  looked_up ns pods refused (err (other_error s)) = fail (other_error s)

  -- ClientRoleBindingReconciler.Reconcile: the refused namespaces after a pass without error
  unfoldable pub reconcile_role_binding : Str → List Str → Exec W (List Str)
  unfolding ◌>>=◌
  reconcile_role_binding ns refused = do
    pods ← c.list_pods ns
    r ← attempt (c.get_role_binding ns)
    looked_up ns pods refused r
