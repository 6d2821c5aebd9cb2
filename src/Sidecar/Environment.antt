-- ===== src/Sidecar/Environment.antt =====
-- The environment that the client accepts.
use wireguard_operator.Prelude.{
  Bool, true, false, cut, has_byte, ◌++◌, ◌||◌, ◌⊎◌, ◌∙◌, subst, ◌==◌, ==→≡, if◌then◌else◌, arith,
  All, Str, str_eq_iff, is_empty_nil, text, str_eq, is_empty, List, [], ◌∷◌, ◌≢◌, inl, inr, Option,
  none, some, ◌≡◌, refl, ap, Bool-cases,
}
use wireguard_operator.Sidecar.{
  Config, configured, refused, ConfigError, split_wireguard, missing_names, required, with_identity,
  config_from_env,
}

on_parts :
    (o : Option (Str × Str)) (key_path : Str) (getenv : Str → Str) (missing : List Str)
    (cfg : Config)
    → elim o [
      | none ↦ refused ConfigError.malformed_wireguard
      | some parts ↦ with_identity key_path getenv missing parts
    ]
      ≡ configured cfg
    → (name : Str) × (namespace : Str) × (o ≡ some (name, namespace))
      × (with_identity key_path getenv missing (name, namespace) ≡ configured cfg)
on_parts none key_path getenv missing cfg h = absurd (cc)
on_parts (some (name, namespace)) key_path getenv missing cfg h = (name, namespace, refl, h)

-- An environment that the client can run in: the five variables of the pod are set, and the pod's
-- address is not the node's. The configuration has the pod's identity.
pub record Environment (getenv : Str → Str) (cfg : Config) : Type 0 where
  pub named : getenv (text "POD_NAME") ≢ []
  pub placed : getenv (text "POD_NAMESPACE") ≢ []
  pub identified : getenv (text "POD_UID") ≢ []
  pub addressed : getenv (text "POD_IP") ≢ []
  pub hosted : getenv (text "HOST_IP") ≢ []
  pub own_network : getenv (text "POD_IP") ≢ getenv (text "HOST_IP")
  pub name : cfg.pod_name ≡ getenv (text "POD_NAME")
  pub namespace : cfg.pod_namespace ≡ getenv (text "POD_NAMESPACE")
  pub uid : cfg.pod_uid ≡ getenv (text "POD_UID")

-- A --wireguard value: a name without a slash, whose namespace is left open, or a namespace and a name
-- without a slash, neither empty, with a slash between them.
abbrev pub Names : Str → Str → Str → Type 0
Names wireguard name namespace =
    ((wireguard ≢ []) × (wireguard ≡ name) × (namespace ≡ []) × (has_byte b'/' name ≡ false))
    ⊎ ((wireguard ≡ namespace ++ (b'/' ∷ name))
        × (namespace ≢ [])
        × (name ≢ [])
        × (has_byte b'/' name ≡ false))

cut_cases :
    (s : Str)
    → ((cut b'/' s ≡ none) × (has_byte b'/' s ≡ false))
      ⊎ ((a : Str) × (b : Str) × (cut b'/' s ≡ some (a, b)) × (s ≡ a ++ (b'/' ∷ b)))
unfolding cut has_byte
cut_cases [] = inl (refl, refl)
cut_cases (c ∷ s) = elim (Bool-cases (c == b'/')) [
  | inl here ↦ inr ([], s, rw here refl, ap (λ x. x ∷ s) (==→≡ c b'/' here))
  | inr other ↦ elim (cut_cases s) [
    | inl (e, k) ↦ inl (rw (other, e) refl, rw (other, k) refl)
    | inr (a, b, e, k) ↦ inr (c ∷ a, b, rw (other, e) refl, ap (λ x. c ∷ x) k)
  ]
]

filled : (s : Str) → is_empty s ≡ false → s ≢ []
filled s h e = cc (h, ap is_empty e, is_empty_nil)

split_wireguard-Names :
    (wireguard name namespace : Str)
    → is_empty wireguard ≡ false
    → split_wireguard wireguard ≡ some (name, namespace)
    → Names wireguard name namespace
unfolding split_wireguard
split_wireguard-Names wireguard name namespace full h = elim (cut_cases wireguard) [
  | inl (e, k) ↦
      let same : some (wireguard, []) ≡ some (name, namespace) = rw (e, split_wireguard) at h in
      let here : wireguard ≡ name = cc in
      inl (filled wireguard full, here, (cc), subst (λ s. has_byte b'/' s ≡ false) here k)
  | inr (a, b, e, k) ↦
      by_test a b k (is_empty a || is_empty b || has_byte b'/' b) refl
        (rw (e, split_wireguard) at h)
]
  where
    by_test :
        (a b : Str)
        → wireguard ≡ a ++ (b'/' ∷ b)
        → (t : Bool) → (is_empty a || is_empty b || has_byte b'/' b) ≡ t
        → if◌then◌else◌ {A = Option (Str × Str)} t none (some (b, a)) ≡ some (name, namespace)
        → Names wireguard name namespace
    by_test a b k true e j = absurd (cc)
    by_test a b k false e j =
        let same_name : b ≡ name = cc in
        let same_namespace : a ≡ namespace = cc in
        inr (
          cc,
          subst (λ s. s ≢ []) same_namespace (filled a (ground arith)),
          subst (λ s. s ≢ []) same_name (filled b (ground arith)),
          subst (λ s. has_byte b'/' s ≡ false) same_name (ground arith),
        )

missing_names-nil :
    (getenv : Str → Str) (names : List Str)
    → missing_names getenv names ≡ []
    → All (λ name. getenv name ≢ []) names
missing_names-nil getenv [] h = tt
missing_names-nil getenv (name ∷ names) h = elim (Bool-cases (is_empty (getenv name))) [
  | inl empty ↦ absurd (cc (rw empty at h))
  | inr full ↦
      (λ e. cc (full, ap is_empty e, is_empty_nil), missing_names-nil getenv names (rw full at h))
]

with_identity-Environment :
    (key_path : Str) (getenv : Str → Str) (missing : List Str) (parts : Str × Str) (cfg : Config)
    → missing_names getenv required ≡ missing
    → with_identity key_path getenv missing parts ≡ configured cfg
    → Environment getenv cfg × ((cfg.wireguard ≡ parts.0) × (cfg.wireguard_namespace ≡ parts.1))
unfolding with_identity required
with_identity-Environment key_path getenv (m ∷ ms) parts cfg e h = absurd (cc)
with_identity-Environment key_path getenv [] parts cfg e h =
    elim (Bool-cases (str_eq (getenv (text "POD_IP")) (getenv (text "HOST_IP")))) [
      | inl same ↦ absurd (cc (rw same at h))
      | inr apart ↦
          let built = rw apart at h in
          let (a, after_name) = missing_names-nil getenv required e in
          let (b, after_namespace) = after_name in
          let (c, after_uid) = after_namespace in
          let (d, after_ip) = after_uid in
          (
            record {
              named = a;
              placed = b;
              identified = c;
              addressed = d;
              hosted = after_ip.0;
              own_network = λ k.
                  cc (apart, (str_eq_iff (getenv (text "POD_IP")) (getenv (text "HOST_IP"))).1 k);
              name = cc;
              namespace = cc;
              uid = cc;
            },
            (cc, cc),
          )
    ]

-- ConfigFromEnv gives a configuration only when POD_NAME, POD_NAMESPACE, POD_UID, POD_IP and HOST_IP
-- are all set and POD_IP differs from HOST_IP; the configuration has the pod's name, namespace and
-- UID, and the name and the namespace of the --wireguard value, which is a name alone, with the
-- namespace left empty, or a namespace and a name with a slash between them.
pub config_from_env-Environment :
    (wireguard key_path : Str) (getenv : Str → Str) (cfg : Config)
    → config_from_env wireguard key_path getenv ≡ configured cfg
    → Environment getenv cfg × Names wireguard cfg.wireguard cfg.wireguard_namespace
unfolding config_from_env
config_from_env-Environment wireguard key_path getenv cfg h =
    elim (Bool-cases (is_empty wireguard)) [
      | inl empty ↦ absurd (cc (rw (empty, config_from_env) at h))
      | inr full ↦
          let rest = rw (full, config_from_env) at h in
          let (name, namespace, e, k) =
            on_parts (split_wireguard wireguard) key_path getenv (missing_names getenv required) cfg
              rest in
          let (fine, (a, b)) =
            with_identity-Environment key_path getenv _ (name, namespace) cfg refl k in
          (
            fine,
            split_wireguard-Names wireguard cfg.wireguard cfg.wireguard_namespace full
                (e ∙ ap some (cc (a, b))),
          )
    ]
