-- ===== src/Controller/Injection/Policy/Converged.antt =====
-- What a reconcile of the injection policy leaves in the cluster.
use wireguard_operator.Prelude.{
  ℕ, In, Str, Bool, true, false, List, ◌≢◌, ◌⊎◌, inl, inr, Option, none, some, ◌≡◌, refl, sym, ap,
  ◌∙◌, subst, if◌then◌else◌,
}
use wireguard_operator.Api.Types.{Wireguard, NamespacedName, key_string}
use wireguard_operator.Api.Exec.{
  Exec, Result, ok, err, pure, ◌>>=◌, Leaves, Leaves-pure, Leaves-then, Leaves-attempt,
}
use wireguard_operator.Api.Returns.{Answered}
use wireguard_operator.Controller.Apply.{returned, is_not_found}
use wireguard_operator.Controller.Injection.{
  Default, NoDefault, chosen, no_default, is_default_of, default_gateway,
}
use wireguard_operator.Controller.Injection.Laws.{IsDefault, default_gateway-IsDefault}
use wireguard_operator.Controller.Injection.Policy.{
  container_cel, volumes_cel_of, inject_policy_name, injected_sidecar, InjectPolicy, InjectBinding,
  PolicyKind, policy_kind, binding_kind, InjectObject, policy_object, binding_object, Rendering,
  PolicyClient, policy_of, binding_of, render_inject_policy, served_policy_version,
  ignore_not_found, delete_kind, delete_inject_policy, reconcile_default, with_version,
  reconcile_policy,
}

abbrev pub kind_of : {M : Type 0} → InjectObject M → PolicyKind
kind_of (policy_object p) = policy_kind
kind_of (binding_object b) = binding_kind

-- A delete after which the object is absent.
abbrev pub Gone : Result Unit → Type 0
Gone (ok u) = Unit
Gone (err e) = is_not_found e ≡ true

-- The operator's object of each kind, when nothing else writes it meanwhile: a forced apply that
-- returns stores the object, a delete that returns or finds nothing leaves none, and both leave the
-- other kind alone.
pub record Stored {W M : Type 0} (c : PolicyClient W M) : Type 0 where
  pub live : W → PolicyKind → Option (InjectObject M)
  pub apply-live :
      (o : InjectObject M) (w : W)
      → (c.apply_forced o w).0 ≡ ok tt
      → live (c.apply_forced o w).1 (kind_of o) ≡ some o
  pub apply-other :
      (o : InjectObject M) (w : W) (k : PolicyKind)
      → k ≢ kind_of o
      → live (c.apply_forced o w).1 k ≡ live w k
  pub delete-live :
      (k : PolicyKind) (version : Str) (w : W)
      → Gone (c.delete_object k version inject_policy_name w).0
      → live (c.delete_object k version inject_policy_name w).1 k ≡ none
  pub delete-other :
      (j k : PolicyKind) (version : Str) (w : W)
      → j ≢ k
      → live (c.delete_object k version inject_policy_name w).1 j ≡ live w j

binding≢policy : binding_kind ≢ policy_kind
binding≢policy e = cc

policy≢binding : policy_kind ≢ binding_kind
policy≢binding e = cc

module _ {W : Type 0} where
  if-Gone :
      (t : Bool) (r : Result Unit) (w : W)
      → r ≢ ok tt
      → (if◌then◌else◌ {A = Exec W Unit} t (pure tt) (λ v. (r, v)) w).0 ≡ ok tt
      → t ≡ true
  if-Gone true r w n h = refl
  if-Gone false r w n h = absurd (n h)

  ignored-Gone : (r : Result Unit) (w : W) → (ignore_not_found r w).0 ≡ ok tt → Gone r
  ignored-Gone (ok u) w h = tt
  ignored-Gone (err e) w h = if-Gone (is_not_found e) (err e) w (λ k. cc) h

  if-same :
      (t : Bool) (r s : Result Unit) (w : W)
      → (if◌then◌else◌ {A = Exec W Unit} t (λ v. (r, v)) (λ v. (s, v)) w).1 ≡ w
  if-same true r s w = refl
  if-same false r s w = refl

  ignored-same : (r : Result Unit) (w : W) → (ignore_not_found r w).1 ≡ w
  ignored-same (ok u) w = refl
  ignored-same (err e) w = if-same (is_not_found e) (ok tt) (err e) w

module _ {W M : Type 0} (c : PolicyClient W M) (stored : Stored c) (rendering : Rendering M)
    (image operator_ns : Str) where
  -- The policy injects the sidecar of the sole default gateway of a list that was read.
  pub record IsOn (w : W) : Type 0 where
    pub list : List Wireguard
    pub listed : Answered c.list_wireguards list
    pub gateway : NamespacedName
    pub here : gateway.namespace ≡ operator_ns
    pub found : (wg : Wireguard) × In wg list × IsDefault operator_ns gateway.name wg
    pub sole :
        (wg : Wireguard) → In wg list → is_default_of operator_ns wg ≡ true → wg.name ≡ gateway.name
    pub version : Str
    pub served : Answered (served_policy_version c) (some version)
    pub sidecar : Str
    pub volumes : Str
    pub match : M
    pub sidecar_rendered :
        container_cel rendering (injected_sidecar image (key_string gateway)).0 ≡ ok sidecar
    pub volumes_rendered :
        volumes_cel_of rendering (injected_sidecar image (key_string gateway)).1 ≡ ok volumes
    pub selected : rendering.match_resources ≡ ok match
    pub policy_live :
        stored.live w policy_kind ≡ some (policy_object (policy_of version sidecar volumes match))
    pub binding_live : stored.live w binding_kind ≡ some (binding_object (binding_of version match))

  -- No policy and no binding, and no sole default gateway in a list that was read.
  pub record IsOff (w : W) : Type 0 where
    pub list : List Wireguard
    pub listed : Answered c.list_wireguards list
    pub why : NoDefault
    pub no_gateway : default_gateway list operator_ns ≡ no_default why
    pub policy_gone : stored.live w policy_kind ≡ none
    pub binding_gone : stored.live w binding_kind ≡ none

  abbrev pub Converged : Option ℕ → W → Type 0
  Converged r w = r ≡ none → IsOn w ⊎ IsOff w

  abbrev NoneLive : Unit {0} → W → Type 0
  NoneLive u w = (stored.live w policy_kind ≡ none) × (stored.live w binding_kind ≡ none)

  -- the kind is gone and the other is as it was
  abbrev Dropped : PolicyKind → W → Unit {0} → W → Type 0
  Dropped kind w u w' =
      (stored.live w' kind ≡ none)
      × ((j : PolicyKind) → j ≢ kind → stored.live w' j ≡ stored.live w j)

  delete_kind-Dropped :
      (version : Str) (kind : PolicyKind) (w : W)
      → Leaves (Dropped kind w) (delete_kind c version kind) w
  unfolding delete_kind
  delete_kind-Dropped version kind w =
      let w1 : W = (c.delete_object kind version inject_policy_name w).1 in
      Leaves-attempt (Dropped kind w) (c.delete_object kind version inject_policy_name)
        ignore_not_found w
        (λ r e. λ u h.
          let kept : (j : PolicyKind) → stored.live (ignore_not_found r w1).1 j ≡ stored.live w1 j =
            λ j. ap (λ x. stored.live x j) (ignored-same r w1) in
          (
            kept kind
                ∙ stored.delete-live kind version w (subst Gone (sym e) (ignored-Gone r w1 h)),
            λ j other. kept j ∙ stored.delete-other j kind version w other,
          ))

  delete-NoneLive : (version : Str) (w : W) → Leaves NoneLive (delete_inject_policy c version) w
  unfolding delete_inject_policy
  delete-NoneLive version w =
      Leaves-then NoneLive (delete_kind c version binding_kind)
        (λ u. delete_kind c version policy_kind) w
        (λ u h. λ v k.
          let w1 : W = (delete_kind c version binding_kind w).1 in
          let (gone, kept) = delete_kind-Dropped version policy_kind w1 v k in
          (
            gone,
            kept binding_kind binding≢policy ∙ (delete_kind-Dropped version binding_kind w u h).0,
          ))

  off :
      (list : List Wireguard) (why : NoDefault) (version : Str) (w : W)
      → Answered c.list_wireguards list
      → default_gateway list operator_ns ≡ no_default why
      → Leaves Converged (reconcile_default c rendering image version (no_default why)) w
  unfolding reconcile_default
  off list why version w listed none_chosen =
      Leaves-then Converged (delete_inject_policy c version) (λ u. pure none) w
        (λ u h. Leaves-pure Converged none _ (λ e.
          let (policy, binding) = delete-NoneLive version w u h in
          inr (record {
            list = list;
            listed = listed;
            why = why;
            no_gateway = none_chosen;
            policy_gone = policy;
            binding_gone = binding;
          })))

  -- what was rendered
  abbrev Rendered : Str → NamespacedName → InjectPolicy M × InjectBinding M → W → Type 0
  Rendered version gateway (p, b) w =
      (sidecar : Str) × (volumes : Str) × (match : M) × (container_cel rendering
          (injected_sidecar image (key_string gateway)).0
        ≡ ok sidecar)
      × (volumes_cel_of rendering (injected_sidecar image (key_string gateway)).1 ≡ ok volumes)
      × (rendering.match_resources ≡ ok match)
      × (p ≡ policy_of version sidecar volumes match)
      × (b ≡ binding_of version match)

  render-Rendered :
      (version : Str) (gateway : NamespacedName) (w : W)
      → Leaves
          (Rendered version gateway)
          (render_inject_policy {W = W} rendering version
            (injected_sidecar image (key_string gateway)))
          w
  unfolding render_inject_policy
  render-Rendered version gateway w =
      let parts = injected_sidecar image (key_string gateway) in
      Leaves-then (Rendered version gateway) (returned (container_cel rendering parts.0)) _ w
        (λ sidecar e1.
          Leaves-then (Rendered version gateway) (returned (volumes_cel_of rendering parts.1)) _ w
            (λ volumes e2.
              Leaves-then (Rendered version gateway) (returned rendering.match_resources)
                (λ match. pure (policy_of version sidecar volumes match, binding_of version match))
                w
                (λ match e3.
                  Leaves-pure (Rendered version gateway)
                    (policy_of version sidecar volumes match, binding_of version match) w
                    (sidecar, volumes, match, e1, e2, e3, refl, refl))))

  on :
      (list : List Wireguard) (gateway : NamespacedName) (version : Str) (w : W)
      → Answered (served_policy_version c) (some version)
      → Answered c.list_wireguards list
      → default_gateway list operator_ns ≡ chosen gateway
      → Leaves Converged (reconcile_default c rendering image version (chosen gateway)) w
  unfolding reconcile_default
  on list gateway version w served listed default =
      let (here, found, sole) = default_gateway-IsDefault operator_ns list gateway default in
      Leaves-then Converged
        (render_inject_policy rendering version (injected_sidecar image (key_string gateway))) _ w
        (λ (p, b) shown.
          let (sidecar, volumes, match, e1, e2, e3, shown_p, shown_b) =
            render-Rendered version gateway w (p, b) shown in
          let w1 : W =
            (render_inject_policy rendering version (injected_sidecar image (key_string gateway))
              w).1 in
          Leaves-then Converged (c.apply_forced (policy_object p))
            (λ u. c.apply_forced (binding_object b) >>= λ v. pure none) w1
            (λ u applied.
              let w2 : W = (c.apply_forced (policy_object p) w1).1 in
              Leaves-then Converged (c.apply_forced (binding_object b)) (λ v. pure none) w2
                (λ v bounded. Leaves-pure Converged none _ (λ e. inl (record {
                  list = list;
                  listed = listed;
                  gateway = gateway;
                  here = here;
                  found = found;
                  sole = sole;
                  version = version;
                  served = served;
                  sidecar = sidecar;
                  volumes = volumes;
                  match = match;
                  sidecar_rendered = e1;
                  volumes_rendered = e2;
                  selected = e3;
                  policy_live =
                      stored.apply-other (binding_object b) w2 policy_kind policy≢binding
                      ∙ stored.apply-live (policy_object p) w1 applied
                      ∙ ap (λ x. some (policy_object x)) shown_p;
                  binding_live =
                      stored.apply-live (binding_object b) w2 bounded
                      ∙ ap (λ x. some (binding_object x)) shown_b;
                })))))

  decided :
      (list : List Wireguard) (version : Str) (w : W) (d : Default)
      → Answered (served_policy_version c) (some version)
      → Answered c.list_wireguards list
      → default_gateway list operator_ns ≡ d
      → Leaves Converged (reconcile_default c rendering image version d) w
  decided list version w (chosen gateway) served listed h =
      on list gateway version w served listed h
  decided list version w (no_default why) served listed h = off list why version w listed h

  versioned :
      (version : Option Str) (w : W)
      → Answered (served_policy_version c) version
      → Leaves Converged (with_version c rendering image operator_ns version) w
  unfolding with_version
  versioned none w served = Leaves-pure Converged _ w (λ e. absurd (cc))
  versioned (some version) w served =
      Leaves-then Converged c.list_wireguards
        (λ list. reconcile_default c rendering image version (default_gateway list operator_ns)) w
        (λ list h.
          decided list version (c.list_wireguards w).1 (default_gateway list operator_ns) served
            (w, h) refl)

  -- A reconcile that returns no error and asks for no later one has left one of two states, when
  -- nothing else writes the two objects meanwhile. Either the live policy and binding are the
  -- operator's, in a version that the cluster serves, with the sidecar aimed at a gateway that is the sole default one of the Wireguards it
  -- read: it is among them, in the operator's namespace and annotated, and every other such Wireguard
  -- has its name. Or it read no sole default gateway, and neither object is there.
  pub reconcile_policy-Converged :
      (w : W)
      → (reconcile_policy c rendering image operator_ns w).0 ≡ ok none
      → IsOn (reconcile_policy c rendering image operator_ns w).1
        ⊎ IsOff (reconcile_policy c rendering image operator_ns w).1
  unfolding reconcile_policy
  reconcile_policy-Converged w h =
      Leaves-then Converged (served_policy_version c) (with_version c rendering image operator_ns) w
        (λ version e. versioned version (served_policy_version c w).1 (w, e)) none h refl
