-- ===== src/Controller/Injection/Laws.antt =====
-- Which RoleBindings and gateways injection touches.
use wireguard_operator.Prelude.{
  In, Str, Bool, true, false, List, [], ◌∷◌, ◌≢◌, ◌⊎◌, inl, inr, Option, none, some, ◌≡◌, refl, sym,
  ap, subst, Bool-cases,
}
use wireguard_operator.Api.Types.{Wireguard, NamespacedName}
use wireguard_operator.Controller.Injection.{
  chosen, is_default_of, defaults, choose, default_gateway, RoleBinding, RoleBindingAction,
  action_none, action_apply, action_delete, action_refuse, ours, client_role_binding_action,
}

-- What each action of clientRoleBindingAction supposes.
abbrev pub Justified : Bool → Option RoleBinding → RoleBindingAction → Type 0
Justified needed existing action_apply =
    (needed ≡ true) × ((existing ≡ none) ⊎ (ours existing ≡ true))
Justified needed existing action_delete = (needed ≡ false) × (ours existing ≡ true)
Justified needed existing action_refuse =
    (needed ≡ true) × ((existing ≢ none) × (ours existing ≡ false))
Justified needed existing action_none = (needed ≡ false) × (ours existing ≡ false)

-- The client RoleBinding is applied only when it is needed and nothing of another owner holds its
-- name, deleted only when it is not needed and is the operator's, refused only when another owner's
-- object holds the name; an object of another owner is never applied over or deleted.
pub client_role_binding_action-Justified :
    (needed : Bool) (existing : Option RoleBinding)
    → Justified needed existing (client_role_binding_action needed existing)
unfolding client_role_binding_action
client_role_binding_action-Justified false none = (refl, refl)
client_role_binding_action-Justified true none = (refl, inl refl)
client_role_binding_action-Justified false (some rb) = elim (Bool-cases (ours (some rb))) [
  | inl mine ↦ rw mine (refl, mine)
  | inr foreign ↦ rw foreign (refl, foreign)
]
client_role_binding_action-Justified true (some rb) = elim (Bool-cases (ours (some rb))) [
  | inl mine ↦ rw mine (refl, inr mine)
  | inr foreign ↦ rw foreign (refl, ((λ e. cc), foreign))
]

-- A Wireguard of the operator's namespace that is annotated as the default.
abbrev pub IsDefault : Str → Str → Wireguard → Type 0
IsDefault operator_ns name wg = (wg.name ≡ name) × (is_default_of operator_ns wg ≡ true)

module _ (operator_ns : Str) where
  defaults-In :
      (list : List Wireguard) (name : Str)
      → In name (defaults operator_ns list)
      → (wg : Wireguard) × In wg list × IsDefault operator_ns name wg
  unfolding defaults
  defaults-In [] name h = elim h [ ]
  defaults-In (wg ∷ wgs) name h = elim (Bool-cases (is_default_of operator_ns wg)) [
    | inr other ↦ let (v, there, d) = defaults-In wgs name (rw other at h) in (v, inr there, d)
    | inl default ↦
        let split : (name ≡ wg.name) ⊎ In name (defaults operator_ns wgs) = rw default at h in
        elim split [
          | inl e ↦ (wg, inl refl, (sym e, default))
          | inr later ↦ let (v, there, d) = defaults-In wgs name later in (v, inr there, d)
        ]
  ]

  In-defaults :
      (list : List Wireguard) (wg : Wireguard)
      → In wg list
      → is_default_of operator_ns wg ≡ true
      → In wg.name (defaults operator_ns list)
  unfolding defaults
  In-defaults [] wg h d = elim h [ ]
  In-defaults (x ∷ xs) wg h d = elim (Bool-cases (is_default_of operator_ns x)) [
    | inl default ↦
        rw default (elim h [
          | inl e ↦ inl (ap (λ v. v.name) e)
          | inr later ↦ inr (In-defaults xs wg later d)
        ])
    | inr other ↦ elim h [
      | inl e ↦ absurd (cc (ap (is_default_of operator_ns) e, d, other))
      | inr later ↦ rw other (In-defaults xs wg later d)
    ]
  ]

  choose-chosen :
      (found : List Str) (key : NamespacedName)
      → choose operator_ns found ≡ chosen key
      → (found ≡ key.name ∷ []) × (key.namespace ≡ operator_ns)
  choose-chosen [] key h = absurd (cc)
  choose-chosen (m ∷ n ∷ ns) key h = absurd (cc)
  choose-chosen (m ∷ []) key h = (cc, cc)

  -- The gateway that injected sidecars attach to is a Wireguard of the list, in the operator's
  -- namespace and annotated as the default, and every such Wireguard of the list has its name: an
  -- annotation in another namespace never chooses it.
  pub default_gateway-IsDefault :
      (list : List Wireguard) (key : NamespacedName)
      → default_gateway list operator_ns ≡ chosen key
      → (key.namespace ≡ operator_ns)
        × ((wg : Wireguard) × In wg list × IsDefault operator_ns key.name wg)
        × ((wg : Wireguard) → In wg list → is_default_of operator_ns wg ≡ true → wg.name ≡ key.name)
  unfolding default_gateway
  default_gateway-IsDefault list key h =
      let (one, here) = choose-chosen (defaults operator_ns list) key h in
      (
        here,
        defaults-In list key.name (subst (In key.name) {x = key.name ∷ []} (sym one) (inl refl)),
        λ wg there d. elim (subst (In wg.name) one (In-defaults list wg there d)) [
          | inl e ↦ e
          | inr never ↦ elim never [ ]
        ],
      )
