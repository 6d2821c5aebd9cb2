-- ===== src/Controller/Injection/Policy.antt =====
-- InjectionPolicyReconciler of internal/controller/injection.go: the admission policy that injects the
-- sidecar, and its binding. What goes through JSON is a parameter: the decoded JSON of the sidecar and
-- its volumes, and injectMatchResources.
pub mod Converged
use wireguard_operator.Prelude.{
  ℕ, zero, suc, ◌+◌, ◌-◌, ◌*◌, ◌/◌, ◌%◌, ◌^◌, ◌≤◌, ◌<◌, compare, Ordering, String, length,
  get_elem?, filter, any, find?, In, In-append_left, In-append_right, All, All-In, All-of_In,
  All-append, All-map, Str, str_eq→≡, str_eq_refl, str_eq_iff, is_empty→≡, is_empty_nil, text,
  str_eq, is_empty, str_compare, cut, has_byte, join, contains, contains→In, In→contains,
  contains-false, Bool, true, false, not, ◌&&◌, ◌||◌, List, [], ◌∷◌, ◌++◌, map, ◌≢◌, ◌↔◌, ◌⊎◌, inl,
  inr, Option, none, some, ◌≡◌, refl, sym, ap, ◌∙◌, subst, arith, ltb, leb, ◌==◌, if◌then◌else◌,
  Bool-cases, ==→≡, ==_refl, ltb→lt, ltb→le,
}
use wireguard_operator.Api.Types.{Wireguard, NamespacedName, key_string}
use wireguard_operator.Api.Exec.{
  ApiError, not_found, conflict, already_exists, invalid_object, other_error, Result, ok, err, Exec,
  pure, fail, attempt, ◌>>=◌, ◌>>◌,
}
use wireguard_operator.Controller.Apply.{returned, is_not_found}
use wireguard_operator.Controller.Injection.Cel.{Json, dyn, cel_of}
use wireguard_operator.Controller.Injection.{
  label_managed_by, managed_by_value, Default, chosen, no_default, default_gateway,
}

-- injectPolicyName
unfoldable pub inject_policy_name : Str
unfolding text
inject_policy_name = text "tunnel-operator-inject"

-- resources.VolumeKey
unfoldable pub volume_key : Str
unfolding text
volume_key = text "wg-key"

-- resources.VolumeToken
unfoldable pub volume_token : Str
unfolding text
volume_token = text "wg-token"

-- corev1.VolumeMount
pub record VolumeMount : Type 0 where
  pub name : Str
  pub mount_path : Str
  pub read_only : Bool

pub record StartupProbe : Type 0 where
  pub command : List Str
  pub period_seconds : ℕ
  pub failure_threshold : ℕ

-- What is set of a corev1.Container; `env` pairs a variable with the pod's field that it holds.
pub record SidecarContainer : Type 0 where
  pub name : Str
  pub image : Str
  pub restart_policy : Str
  pub args : List Str
  pub env : List (Str × Str)
  pub capabilities_add : List Str
  pub volume_mounts : List VolumeMount
  pub startup_probe : StartupProbe

pub data Projection : Type 0 where
  service_account_token : Str → Projection
  config_map : Str → List (Str × Str) → Projection
  downward_api : List (Str × Str) → Projection

pub data Volume : Type 0 where
  memory_empty_dir : Str → Volume
  projected : Str → List Projection → Volume

-- injectedSidecar
unfoldable pub injected_sidecar : Str → Str → SidecarContainer × List Volume
unfolding text
injected_sidecar image gateway = (
  record {
    name = text "wg-client";
    image = image;
    restart_policy = text "Always";
    args = text "client" ∷ text "--wireguard" ∷ gateway ∷ [];
    env =
        (text "POD_NAME", text "metadata.name")
        ∷ (text "POD_NAMESPACE", text "metadata.namespace")
        ∷ (text "POD_UID", text "metadata.uid")
        ∷ (text "POD_IP", text "status.podIP")
        ∷ (text "HOST_IP", text "status.hostIP")
        ∷ [];
    capabilities_add = text "NET_ADMIN" ∷ [];
    volume_mounts =
        record { name = volume_key; mount_path = text "/var/run/wireguard"; read_only = false }
        ∷ record {
          name = volume_token;
          mount_path = text "/var/run/secrets/kubernetes.io/serviceaccount";
          read_only = true;
        }
        ∷ [];
    startup_probe = record {
      command = text "agent" ∷ text "client" ∷ text "--check" ∷ [];
      period_seconds = 2;
      failure_threshold = 90;
    };
  },
  memory_empty_dir volume_key
      ∷ projected volume_token (
          service_account_token (text "token")
          ∷ config_map (text "kube-root-ca.crt") ((text "ca.crt", text "ca.crt") ∷ [])
          ∷ downward_api ((text "namespace", text "metadata.namespace") ∷ [])
          ∷ [])
      ∷ [],
)

-- admissionregistration's ResourceRule
pub record ResourceRule : Type 0 where
  pub api_groups : List Str
  pub api_versions : List Str
  pub operations : List Str
  pub resources : List Str

-- A policy's members, by their JSON names: `M` is the pod selectors. A pair is a name with its
-- expression, for `mutations` a patch type with it.
pub record InjectPolicy (M : Type 0) : Type 0 where
  pub api_version : Str
  pub name : Str
  pub labels : List (Str × Str)
  pub failure_policy : Str
  pub reinvocation_policy : Str
  pub resource_rules : List ResourceRule
  pub match_constraints : M
  pub match_conditions : List (Str × Str)
  pub variables : List (Str × Str)
  pub mutations : List (Str × Str)

pub record InjectBinding (M : Type 0) : Type 0 where
  pub api_version : Str
  pub name : Str
  pub labels : List (Str × Str)
  pub policy_name : Str
  pub match_resources : M

pub data PolicyKind : Type 0 where
  policy_kind binding_kind : PolicyKind

pub data InjectObject (M : Type 0) : Type 0 where
  policy_object : InjectPolicy M → InjectObject M
  binding_object : InjectBinding M → InjectObject M

-- What goes through JSON: the decoded JSON of the two rendered values, with strconv.Quote for their
-- CEL, and injectMatchResources.
pub record Rendering (M : Type 0) : Type 0 where
  pub json_of_container : SidecarContainer → Result Json
  pub json_of_volumes : List Volume → Result Json
  pub quote : Str → Str
  pub match_resources : Result M

module _ {M : Type 0} (rendering : Rendering M) where
  abbrev pub container_cel : SidecarContainer → Result Str
  container_cel c = cel_of rendering.quote (rendering.json_of_container c)

  abbrev pub volumes_cel_of : List Volume → Result Str
  volumes_cel_of vs = cel_of rendering.quote (rendering.json_of_volumes vs)

-- The calls of one reconcile: discovery, which answers the names of a group version's resources, the
-- list of the Wireguards, a forced apply, and the delete of the one object of a kind.
pub record PolicyClient (W M : Type 0) : Type 0 where
  pub server_resources : Str → Exec W (List Str)
  pub list_wireguards : Exec W (List Wireguard)
  pub apply_forced : InjectObject M → Exec W Unit
  pub delete_object : PolicyKind → Str → Str → Exec W Unit

-- policyRecheck, in seconds
abbrev pub policy_recheck : ℕ
policy_recheck = 600

abbrev pub managed_labels : List (Str × Str)
managed_labels = (label_managed_by, managed_by_value) ∷ []

-- admissionGroup + "/" + version
unfoldable pub group_version : Str → Str
unfolding text
group_version version = text "admissionregistration.k8s.io/" ++ version

unfoldable pub not_yet_injected : Str
unfolding text
not_yet_injected =
    text
      "!has(object.spec.initContainers) || !object.spec.initContainers.exists(c, c.name == \"wg-client\")"

unfoldable pub inject_patch : Str
unfolding text
inject_patch =
    text
      "(has(object.spec.volumes)\n  ? variables.volumes.map(v, JSONPatch{op: \"add\", path: \"/spec/volumes/-\", value: v})\n  : [JSONPatch{op: \"add\", path: \"/spec/volumes\", value: variables.volumes}]) +\n(has(object.spec.initContainers)\n  ? [JSONPatch{op: \"add\", path: \"/spec/initContainers/0\", value: variables.sidecar}]\n  : [JSONPatch{op: \"add\", path: \"/spec/initContainers\", value: [variables.sidecar]}])"

module _ {M : Type 0} where
  unfoldable pub policy_of : Str → Str → Str → M → InjectPolicy M
  unfolding text
  policy_of version sidecar_cel volumes_cel match = record {
    api_version = group_version version;
    name = inject_policy_name;
    labels = managed_labels;
    failure_policy = text "Fail";
    reinvocation_policy = text "IfNeeded";
    resource_rules =
        record {
          api_groups = [] ∷ [];
          api_versions = text "v1" ∷ [];
          operations = text "CREATE" ∷ [];
          resources = text "pods" ∷ [];
        }
        ∷ [];
    match_constraints = match;
    match_conditions = (text "not-yet-injected", not_yet_injected) ∷ [];
    variables = (text "sidecar", dyn sidecar_cel) ∷ (text "volumes", dyn volumes_cel) ∷ [];
    mutations = (text "JSONPatch", inject_patch) ∷ [];
  }

  unfoldable pub binding_of : Str → M → InjectBinding M
  binding_of version match = record {
    api_version = group_version version;
    name = inject_policy_name;
    labels = managed_labels;
    policy_name = inject_policy_name;
    match_resources = match;
  }

module _ {W : Type 0} where
  unfoldable pub discovered : Str → Exec W (Option Str) → Result (List Str) → Exec W (Option Str)
  unfolding text
  discovered version rest (err e) = if is_not_found e then rest else fail e
  discovered version rest (ok names) =
      if contains names (text "mutatingadmissionpolicies") then pure (some version) else rest

  abbrev pub ignore_not_found : Result Unit → Exec W Unit
  ignore_not_found (ok u) = pure tt
  ignore_not_found (err e) = if is_not_found e then pure tt else fail e

module _ {W M : Type 0} (rendering : Rendering M) where
  -- renderInjectPolicy
  unfoldable pub render_inject_policy :
      Str → SidecarContainer × List Volume → Exec W (InjectPolicy M × InjectBinding M)
  unfolding ◌>>=◌
  render_inject_policy version (container, volumes) = do
    sidecar_cel ← returned (container_cel rendering container)
    volumes_cel ← returned (volumes_cel_of rendering volumes)
    match ← returned rendering.match_resources
    pure (policy_of version sidecar_cel volumes_cel match, binding_of version match)

module _ {W M : Type 0} (c : PolicyClient W M) where
  -- servedPolicyVersion, over the versions still to ask
  unfoldable pub served_of : List Str → Exec W (Option Str)
  unfolding ◌>>=◌ text discovered
  served_of [] = pure none
  served_of (version ∷ versions) = do
    r ← attempt (c.server_resources (group_version version))
    discovered version (served_of versions) r

  unfoldable pub served_policy_version : Exec W (Option Str)
  unfolding served_of text
  served_policy_version = served_of (text "v1" ∷ text "v1beta1" ∷ [])

  unfoldable pub delete_kind : Str → PolicyKind → Exec W Unit
  unfolding ◌>>=◌
  delete_kind version kind = do
    r ← attempt (c.delete_object kind version inject_policy_name)
    ignore_not_found r

  -- deleteInjectPolicy: the binding, then the policy
  unfoldable pub delete_inject_policy : Str → Exec W Unit
  unfolding ◌>>=◌
  delete_inject_policy version = do
    delete_kind version binding_kind
    delete_kind version policy_kind

  module _ (rendering : Rendering M) where
    -- the part of Reconcile after the gateway is known, or is known to be missing
    unfoldable pub reconcile_default : Str → Str → Default → Exec W (Option ℕ)
    unfolding ◌>>=◌
    reconcile_default image version (no_default why) = do delete_inject_policy version; pure none
    reconcile_default image version (chosen gateway) = do
      objects ← render_inject_policy rendering version (injected_sidecar image (key_string gateway))
      c.apply_forced (policy_object (objects.0))
      c.apply_forced (binding_object (objects.1))
      pure none

    unfoldable pub with_version : Str → Str → Option Str → Exec W (Option ℕ)
    unfolding ◌>>=◌
    with_version image operator_ns none = pure (some policy_recheck)
    with_version image operator_ns (some version) = do
      wgs ← c.list_wireguards
      reconcile_default image version (default_gateway wgs operator_ns)

    -- InjectionPolicyReconciler.Reconcile: RequeueAfter, when it is set
    unfoldable pub reconcile_policy : Str → Str → Exec W (Option ℕ)
    unfolding ◌>>=◌ with_version
    reconcile_policy image operator_ns = do
      version ← served_policy_version
      with_version image operator_ns version
