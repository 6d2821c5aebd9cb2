-- ===== src/Controller/State/Laws.antt =====
-- The rendered state: its order, its peers, and what it does not depend on.
use wireguard_operator.Prelude.{
  ◌≢◌, ◌⊎◌, All, All-map, Ordering, Str, str_compare, true, false, List, [], ◌∷◌, map, inl, inr,
  ◌≡◌, refl, arith, Bool-cases,
}
use wireguard_operator.Prelude.TextOrder.{
  flip, str_compare_self, str_compare→≡, str_compare_trans, str_compare-flip,
}
use wireguard_operator.Prelude.Sort.{Sorted, insert, sort, sort-Sorted}
use mathlib.Core.List.{Perm}
use mathlib.Core.List.Perm
use wireguard_operator.Api.Types.{Wireguard, WireguardPeer, WireguardSpec}
use wireguard_operator.Controller.State.{
  rendered, no_gluetun, by_name, listed_before, desired_state,
}

listed_before_asym : (a b : WireguardPeer) → listed_before a b ≡ true → listed_before b a ≡ false
unfolding listed_before
listed_before_asym a b h =
    ground (arith, str_compare-flip a.name b.name, str_compare-flip a.namespace b.namespace)

lt_trans :
    (s t u : Str) (x y z : Ordering)
    → (x ≡ Ordering.lt → y ≡ Ordering.lt → z ≡ Ordering.lt)
    → by_name (str_compare s t) x ≡ true
    → by_name (str_compare t u) y ≡ true
    → by_name (str_compare s u) z ≡ true
lt_trans s t u x y z f h k = ground (
  arith,
  str_compare_trans s t u,
  str_compare→≡ s t,
  str_compare→≡ t u,
  str_compare_self s,
  str_compare_self u,
)

listed_before_trans :
    (a b c : WireguardPeer)
    → listed_before a b ≡ true
    → listed_before b c ≡ true
    → listed_before a c ≡ true
unfolding listed_before
listed_before_trans a b c h k =
    lt_trans a.name b.name c.name (str_compare a.namespace b.namespace)
      (str_compare b.namespace c.namespace) (str_compare a.namespace c.namespace)
      (str_compare_trans a.namespace b.namespace c.namespace) h k

listed_before_total :
    (a b : WireguardPeer)
    → listed_before a b ≡ false
    → listed_before b a ≡ false
    → (a.name ≡ b.name) × (a.namespace ≡ b.namespace)
unfolding listed_before
listed_before_total a b h k = ground (
  arith,
  str_compare-flip a.name b.name,
  str_compare-flip a.namespace b.namespace,
  str_compare→≡ a.name b.name,
  str_compare→≡ a.namespace b.namespace,
)

same_place :
    (a b c : WireguardPeer)
    → b.name ≡ c.name
    → b.namespace ≡ c.namespace
    → listed_before b a ≡ listed_before c a
unfolding listed_before
same_place a b c e f = cc

-- the order of the peers is total: what is not before can be followed
listed_before_cotrans :
    (a b c : WireguardPeer)
    → listed_before b a ≡ false
    → listed_before c b ≡ false
    → listed_before c a ≡ false
listed_before_cotrans a b c h k = elim (Bool-cases (listed_before b c)) [
  | inl lower ↦ ground (arith, listed_before_trans b c a lower)
  | inr level ↦ let (e, f) = listed_before_total b c level k in ground (arith, same_place a b c e f)
]

insert-perm :
    (a : WireguardPeer) (xs : List WireguardPeer) → Perm (insert listed_before a xs) (a ∷ xs)
unfolding insert
insert-perm a [] = Perm.refl (a ∷ [])
insert-perm a (x ∷ xs) = elim (Bool-cases (listed_before x a)) [
  | inl later ↦ rw later (Perm.trans (Perm.cons x (insert-perm a xs)) (Perm.swap a x xs))
  | inr here ↦ rw here (Perm.refl (a ∷ x ∷ xs))
]

sort-perm : (xs : List WireguardPeer) → Perm (sort listed_before xs) xs
unfolding sort
sort-perm [] = Perm.refl []
sort-perm (x ∷ xs) = Perm.trans (insert-perm x (sort listed_before xs)) (Perm.cons x (sort-perm xs))

-- The peer `q` of the state: of `p` it has the name, the namespace, the key, the reference and the
-- address, and nothing else.
pub record Bare (p q : WireguardPeer) : Type 0 where
  pub identity : (q.name ≡ p.name) × (q.namespace ≡ p.namespace)
  pub metadata : (q.uid ≡ []) × (q.creation_timestamp ≡ 0) × (q.generation ≡ 0)
  pub ownerless : q.owner_references ≡ []
  pub key : q.spec.public_key ≡ p.spec.public_key
  pub reference : q.spec.wireguard_ref ≡ p.spec.wireguard_ref
  pub anywhere : q.spec.wireguard_namespace ≡ []
  pub address : q.status.address ≡ p.status.address
  pub unpublished :
      (q.status.endpoint ≡ []) × (q.status.server_public_key ≡ []) × (q.status.local_cidrs ≡ [])
  pub unreported : (q.status.status ≡ []) × (q.status.message ≡ []) × (q.status.conditions ≡ [])

abbrev pub AllBare : List WireguardPeer → List WireguardPeer → Type 0
AllBare [] [] = Unit
AllBare (p ∷ ps) (q ∷ qs) = Bare p q × AllBare ps qs
AllBare _ _ = ⊥

map-Bare : (ps : List WireguardPeer) → AllBare ps (map rendered ps)
unfolding map rendered
map-Bare [] = tt
map-Bare (p ∷ ps) = (
  record {
    identity = (refl, refl);
    metadata = (refl, refl, refl);
    ownerless = refl;
    key = refl;
    reference = refl;
    anywhere = refl;
    address = refl;
    unpublished = (refl, refl, refl);
    unreported = (refl, refl, refl);
  },
  map-Bare ps,
)

-- by name, and of the same name by namespace
abbrev pub InOrder : WireguardPeer → WireguardPeer → Type 0
InOrder p q =
    (str_compare p.name q.name ≡ Ordering.lt)
    ⊎ ((p.name ≡ q.name) × (str_compare p.namespace q.namespace ≢ Ordering.gt))

listed_before-InOrder : (p q : WireguardPeer) → listed_before q p ≡ false → InOrder p q
unfolding listed_before
listed_before-InOrder p q h =
    by_name_of (str_compare p.name q.name) refl (str_compare-flip p.name q.name)
      (str_compare-flip p.namespace q.namespace)
  where
    by_name_of :
        (x : Ordering)
        → str_compare p.name q.name ≡ x
        → str_compare q.name p.name ≡ flip (str_compare p.name q.name)
        → str_compare q.namespace p.namespace ≡ flip (str_compare p.namespace q.namespace)
        → InOrder p q
    by_name_of Ordering.lt e k l = inl e
    by_name_of Ordering.eq e k l =
        inr (str_compare→≡ p.name q.name e, λ after. cc (rw (k, e, l, after) at h))
    by_name_of Ordering.gt e k l = absurd (cc (rw (k, e) at h))

abbrev pub AllInOrder : List WireguardPeer → Type 0
AllInOrder [] = Unit
AllInOrder (p ∷ ps) = All (InOrder p) ps × AllInOrder ps

Sorted-AllInOrder : (ps : List WireguardPeer) → Sorted listed_before ps → AllInOrder ps
Sorted-AllInOrder [] h = tt
Sorted-AllInOrder (p ∷ ps) (first, h) = (
  All-map (λ q. listed_before q p ≡ false) (InOrder p) (λ q k. listed_before-InOrder p q k) ps
      first,
  Sorted-AllInOrder ps h,
)

-- The rendered state has the peers that are given, each as often, sorted by name and then by
-- namespace. Each has its name, namespace, key, reference and address alone: the rest of its
-- metadata, of its spec and of its status is left empty.
pub desired_state-Sorted :
    (wg : Wireguard) (key : Str) (peers : List WireguardPeer)
    → AllInOrder (desired_state wg key peers).peers
      × ((bare : List WireguardPeer) × AllBare peers bare
          × Perm (desired_state wg key peers).peers bare)
unfolding desired_state
desired_state-Sorted wg key peers = (
  Sorted-AllInOrder (sort listed_before (map rendered peers))
      (sort-Sorted listed_before listed_before_asym listed_before_cotrans (map rendered peers)),
  (map rendered peers, map-Bare peers, sort-perm (map rendered peers)),
)

-- What the state reads of a peer.
abbrev pub Alike : WireguardPeer → WireguardPeer → Type 0
Alike p q =
    (p.name ≡ q.name)
    × (p.namespace ≡ q.namespace)
    × (p.spec.public_key ≡ q.spec.public_key)
    × (p.spec.wireguard_ref ≡ q.spec.wireguard_ref)
    × (p.status.address ≡ q.status.address)

-- The same peers but for what the state does not read.
abbrev pub AllAlike : List WireguardPeer → List WireguardPeer → Type 0
AllAlike [] [] = Unit
AllAlike (p ∷ ps) (q ∷ qs) = Alike p q × AllAlike ps qs
AllAlike _ _ = ⊥

rendered-Alike : (p q : WireguardPeer) → Alike p q → rendered p ≡ rendered q
unfolding rendered
rendered-Alike p q (a, b, c, d, e) = cc

map-rendered : (ps qs : List WireguardPeer) → AllAlike ps qs → map rendered ps ≡ map rendered qs
unfolding map
map-rendered [] [] h = refl
map-rendered [] (q ∷ qs) h = elim h [ ]
map-rendered (p ∷ ps) [] h = elim h [ ]
map-rendered (p ∷ ps) (q ∷ qs) (h, k) = cc (rendered-Alike p q h, map-rendered ps qs k)

abbrev pub without_gluetun : WireguardSpec → WireguardSpec
without_gluetun spec = record spec { gluetun = no_gluetun }

-- Writes to the peers' other status fields, conditions and metadata, and a change of
-- spec.gluetun, of the Wireguard's status or of its annotations, leave the rendered state as it is.
pub desired_state-unchanged :
    (wg wg' : Wireguard) (key : Str) (ps qs : List WireguardPeer)
    → wg.name ≡ wg'.name
    → wg.namespace ≡ wg'.namespace
    → without_gluetun wg.spec ≡ without_gluetun wg'.spec
    → AllAlike ps qs
    → desired_state wg key ps ≡ desired_state wg' key qs
unfolding desired_state
desired_state-unchanged wg wg' key ps qs a b c h = cc (map-rendered ps qs h)
