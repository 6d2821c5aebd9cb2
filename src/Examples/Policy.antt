-- ===== src/Examples/Policy.antt =====
-- A run and the witness of a reconcile of the injection policy.
use wireguard_operator.Prelude.{
  Str, true, str_compare, join, text, str_eq, contains, ◌≢◌, ◌++◌, [], ◌∷◌, ◌⊎◌, Option, none, some,
  ◌≡◌, refl,
}
use wireguard_operator.Prelude.Sort.{sort, insert}
use wireguard_operator.Api.Types.{Wireguard, key_string}
use wireguard_operator.Api.Client.{entry}
use wireguard_operator.Api.Exec.{ok, Exec, ◌>>=◌}
use wireguard_operator.Controller.Injection.{
  annotation_default, is_default_of, defaults, default_gateway,
}
use wireguard_operator.Controller.Injection.Cel.{
  cel_of, json_object, json_array, json_string, no_members, member, no_items, item, json_bool,
  cel_literal, dyn, bool_text, keyed_before, member_text,
}
use wireguard_operator.Controller.Injection.Policy.{
  injected_sidecar, PolicyKind, policy_kind, binding_kind, InjectObject, policy_object,
  binding_object, Rendering, PolicyClient, render_inject_policy, served_of, served_policy_version,
  discovered, reconcile_default, with_version, reconcile_policy,
}
use wireguard_operator.Controller.Injection.Policy.Converged.{
  kind_of, Gone, Stored, IsOn, IsOff, reconcile_policy-Converged,
}
use wireguard_operator.Examples.Fixtures.{gateway}

default_one : Wireguard
unfolding gateway text
default_one = record gateway { annotations = (annotation_default, text "true") ∷ [] }

vpn : Str
unfolding text
vpn = text "vpn"

image : Str
unfolding text
image = text "agent:1"

-- the live policy and the live binding
abbrev Slot : Type 0
Slot = Option (InjectObject Unit)

abbrev Stores : Type 0
Stores = Slot × Slot

abbrev stored_at : Stores → PolicyKind → Slot
stored_at (p, b) policy_kind = p
stored_at (p, b) binding_kind = b

abbrev put_object : InjectObject Unit → Exec Stores Unit
put_object (policy_object q) (p, b) = (ok tt, (some (policy_object q), b))
put_object (binding_object q) (p, b) = (ok tt, (p, some (binding_object q)))

abbrev drop_object : PolicyKind → Exec Stores Unit
drop_object policy_kind (p, b) = (ok tt, (none, b))
drop_object binding_kind (p, b) = (ok tt, (p, none))

-- a cluster that serves the policies in v1 and has one default gateway
abbrev policy_cluster : PolicyClient Stores Unit
unfolding default_one text
policy_cluster = record {
  server_resources = λ v w. (ok (text "mutatingadmissionpolicies" ∷ []), w);
  list_wireguards = λ w. (ok (gateway ∷ default_one ∷ []), w);
  apply_forced = put_object;
  delete_object = λ k v n. drop_object k;
}

abbrev plain_rendering : Rendering Unit
unfolding text
plain_rendering = record {
  json_of_container =
      λ c. ok (json_object (member (text "image") (json_string c.image) no_members));
  json_of_volumes = λ vs. ok (json_array no_items);
  quote = λ s. text "'" ++ (s ++ text "'");
  match_resources = ok tt;
}

cluster_stored : Stored policy_cluster
unfolding policy_cluster
cluster_stored = record {
  live = stored_at;
  apply-live = put-live;
  apply-other = put-other;
  delete-live = drop-live;
  delete-other = drop-other;
}
  where
    put-live :
        (o : InjectObject Unit) (w : Stores)
        → (put_object o w).0 ≡ ok tt
        → stored_at (put_object o w).1 (kind_of o) ≡ some o
    put-live (policy_object q) (p, b) h = refl
    put-live (binding_object q) (p, b) h = refl

    put-other :
        (o : InjectObject Unit) (w : Stores) (k : PolicyKind)
        → k ≢ kind_of o
        → stored_at (put_object o w).1 k ≡ stored_at w k
    put-other (policy_object q) (p, b) policy_kind n = absurd (n refl)
    put-other (policy_object q) (p, b) binding_kind n = refl
    put-other (binding_object q) (p, b) policy_kind n = refl
    put-other (binding_object q) (p, b) binding_kind n = absurd (n refl)

    drop-live :
        (k : PolicyKind) (version : Str) (w : Stores)
        → Gone (drop_object k w).0
        → stored_at (drop_object k w).1 k ≡ none
    drop-live policy_kind version (p, b) h = refl
    drop-live binding_kind version (p, b) h = refl

    drop-other :
        (j k : PolicyKind) (version : Str) (w : Stores)
        → j ≢ k
        → stored_at (drop_object k w).1 j ≡ stored_at w j
    drop-other policy_kind policy_kind version (p, b) n = absurd (n refl)
    drop-other policy_kind binding_kind version (p, b) n = refl
    drop-other binding_kind policy_kind version (p, b) n = refl
    drop-other binding_kind binding_kind version (p, b) n = absurd (n refl)

policy_run : (reconcile_policy policy_cluster plain_rendering image vpn (none, none)).0 ≡ ok none
unfolding cel_of ◌>>=◌ policy_cluster plain_rendering discovered default_one vpn image
    default_gateway defaults is_default_of annotation_default entry gateway str_eq text contains
    key_string injected_sidecar render_inject_policy served_of served_policy_version
    reconcile_default with_version reconcile_policy
policy_run = refl

reconcile_policy-Converged_example :
    IsOn policy_cluster cluster_stored plain_rendering image vpn
      (reconcile_policy policy_cluster plain_rendering image vpn (none, none)).1
    ⊎ IsOff policy_cluster cluster_stored plain_rendering image vpn
        (reconcile_policy policy_cluster plain_rendering image vpn (none, none)).1
reconcile_policy-Converged_example =
    reconcile_policy-Converged policy_cluster cluster_stored plain_rendering image vpn (none, none)
      policy_run

-- the literal that the code's comment describes: each member wrapped, the keys in order
literal_run :
    cel_literal
      (λ s. s)
      (json_object (
        member
          (text "b")
          (json_string (text "x"))
          (member (text "a") (json_array (item (json_bool true) no_items)) no_members)))
    ≡ text "{a: dyn([dyn(true)]), b: dyn(x)}"
unfolding cel_literal dyn bool_text keyed_before member_text sort insert join str_compare text
literal_run = refl
