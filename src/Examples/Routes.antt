-- ===== src/Examples/Routes.antt =====
-- A main table, a run of ensureRoutes over it, and its witness.
use wireguard_operator.Prelude.{
  In, Bool, true, false, not, ◌&&◌, List, [], ◌∷◌, map, ◌≢◌, ◌↔◌, inl, inr, none, some, ◌≡◌, refl,
  sym, ap, ◌∙◌, subst, arith, ◌==◌, ==→≡, ==_refl, Bool-cases, if◌then◌else◌, find?, filter,
}
use wireguard_operator.Netip.Addr.{v4, Prefix, prefix_eq, prefix_from, addr_eq, bits, is_valid}
use wireguard_operator.Netip.Laws.{prefix4, addr_eq→≡, addr_eq_refl}
use wireguard_operator.Wireguard.Address.{prefix_eq→≡}
use wireguard_operator.Api.Exec.{ok, err, other_error, ◌>>=◌}
use wireguard_operator.Sidecar.Tunnel.Device.{unmap}
use wireguard_operator.Sidecar.Routes.{
  Route, plan_routes, gateway_route, leaves_pod, installed_via, is_stale, is_default, has_prefix,
}
use wireguard_operator.Sidecar.RouteTable.{
  NetRoute, NewRoute, RouteTable, to_route, ensure_routes, delete_stale, delete_ipv6_defaults,
  delete_each6, replace_locals,
}
use wireguard_operator.Sidecar.RouteTable.Kernel.{installed, Kernel, IsOwn, prefix_eq_refl}
use wireguard_operator.Sidecar.RouteTable.Stable.{Stable, ensure_routes-Stable}

route_eq : Route → Route → Bool
route_eq a b =
    prefix_eq a.dst b.dst
    && addr_eq a.gw b.gw
    && (a.link_index == b.link_index)
    && (a.priority == b.priority)
    && (a.protocol == b.protocol)
    && (a.scope == b.scope)

route_eq→≡ : (a b : Route) → route_eq a b ≡ true → a ≡ b
unfolding route_eq
route_eq→≡ a b h = cc (
  prefix_eq→≡ a.dst b.dst (ground arith),
  addr_eq→≡ a.gw b.gw (ground arith),
  ==→≡ a.link_index b.link_index (ground arith),
  ==→≡ a.priority b.priority (ground arith),
  ==→≡ a.protocol b.protocol (ground arith),
  ==→≡ a.scope b.scope (ground arith),
)

route_eq_refl : (a : Route) → route_eq a a ≡ true
unfolding route_eq
route_eq_refl a =
    rw
      (
        prefix_eq_refl a.dst,
        addr_eq_refl a.gw,
        ==_refl a.link_index,
        ==_refl a.priority,
        ==_refl a.protocol,
        ==_refl a.scope,
      )
      refl

-- the routes that the test lets through
keep : (Route → Bool) → List NetRoute → List NetRoute
keep f [] = []
keep f (x ∷ xs) = let rest = keep f xs in if f (to_route x) then x ∷ rest else rest

keep-In :
    (f : Route → Bool) (r : Route) (xs : List NetRoute)
    → In r (map to_route (keep f xs)) ↔ (In r (map to_route xs) × (f r ≡ true))
unfolding keep map
keep-In f r [] = (λ m. elim m [ ], λ m. elim m.0 [ ])
keep-In f r (x ∷ xs) = elim (Bool-cases (f (to_route x))) [
  | inl picked ↦ rw picked (
    λ m. elim m [
      | inl e ↦ (inl e, ap f e ∙ picked)
      | inr later ↦ let (there, k) = (keep-In f r xs).0 later in (inr there, k)
    ],
    λ (m, k). elim m [ inl e ↦ inl e | inr later ↦ inr ((keep-In f r xs).1 (later, k)) ],
  )
  | inr out ↦ rw out (
    λ m. let (there, k) = (keep-In f r xs).0 m in (inr there, k),
    λ (m, k). elim m [
      | inl e ↦ absurd (cc (ap f e, k, out))
      | inr later ↦ (keep-In f r xs).1 (later, k)
    ],
  )
]

-- a route as the table holds it after a replace
abbrev stored : NewRoute → NetRoute
stored n = record {
  dst = some (some n.dst.addr, bits n.dst);
  gw = n.gw;
  link_index = n.link_index;
  priority = 0;
  protocol = n.protocol;
  scope = if n.link_scope then 253 else 0;
}

beside : NewRoute → Route → Bool
beside n r = not (prefix_eq r.dst n.dst && r.priority == 0)

other_than : Route → Route → Bool
other_than s r = not (route_eq r s)

-- A table that refuses a destination it could not list again.
abbrev main_table : RouteTable (List NetRoute)
main_table = record {
  list_routes = λ w. (ok w, w);
  list_routes6 = λ w. (ok [], w);
  route_replace = λ n w.
      if route_eq (to_route (stored n)) (installed n)
      then (ok tt, stored n ∷ keep (beside n) w)
      else (err (other_error []), w);
  route_del = λ s w. (ok tt, keep (other_than s) w);
  route_del6 = λ r w. (ok tt, w);
}

abbrev held_routes : List NetRoute → List Route
held_routes w = map to_route w

replaced :
    (n : NewRoute) (w : List NetRoute)
    → (main_table.route_replace n w).0 ≡ ok tt
    → ((main_table.route_replace n w).1 ≡ stored n ∷ keep (beside n) w)
      × (to_route (stored n) ≡ installed n)
replaced n w h = elim (Bool-cases (route_eq (to_route (stored n)) (installed n))) [
  | inl same ↦ (rw same refl, route_eq→≡ (to_route (stored n)) (installed n) same)
  | inr other ↦ absurd (cc (rw other at h))
]

beside_lem : (n : NewRoute) (r : Route) → beside n r ≡ true → ¬ ((r.dst ≡ n.dst) × (r.priority ≡ 0))
unfolding beside
beside_lem n r h (d, z) =
    let same : prefix_eq r.dst n.dst ≡ true =
      subst (λ p. prefix_eq r.dst p ≡ true) d (prefix_eq_refl r.dst) in
    let zero_metric : (r.priority == 0) ≡ true = rw z refl in ground (arith, same, zero_metric)

apart_lem : (n : NewRoute) (r : Route) → r.dst ≢ n.dst → beside n r ≡ true
unfolding beside
apart_lem n r h = elim (Bool-cases (prefix_eq r.dst n.dst)) [
  | inl same ↦ absurd (h (prefix_eq→≡ r.dst n.dst same))
  | inr other ↦ rw other refl
]

other_than_lem : (s r : Route) → (other_than s r ≡ true) ↔ (r ≢ s)
unfolding other_than
other_than_lem s r = (
  λ h e.
      let same : route_eq r s ≡ true = subst (λ x. route_eq r x ≡ true) e (route_eq_refl r) in
      ground (arith, same),
  λ h. elim (Bool-cases (route_eq r s)) [
    | inl same ↦ absurd (h (route_eq→≡ r s same))
    | inr other ↦ rw other refl
  ],
)

table_kernel : Kernel main_table
unfolding map
table_kernel = record {
  held = held_routes;
  list-held = λ w rs h. (cc);
  list-same = λ w. refl;
  replace-held = λ n w r h m.
      let (after, same) = replaced n w h in
      elim (subst (λ x. In r (held_routes x)) after m) [
        | inl e ↦ inl (e ∙ same)
        | inr kept ↦
            let (there, k) = (keep-In (beside n) r w).0 kept in inr (there, beside_lem n r k)
      ];
  replace-new = λ n w h.
      let (after, same) = replaced n w h in
      subst (λ x. In (installed n) (held_routes x)) (sym after) (inl (sym same));
  replace-kept = λ n w r h m d.
      let (after, same) = replaced n w h in
      subst (λ x. In r (held_routes x)) (sym after)
        (inr ((keep-In (beside n) r w).1 (m, apart_lem n r d)));
  del-held = λ s w r h m.
      let (there, k) = (keep-In (other_than s) r w).0 m in (there, (other_than_lem s r).0 k);
  del-kept = λ s w r h m d. (keep-In (other_than s) r w).1 (m, (other_than_lem s r).1 d);
  list6-same = λ w. refl;
  del6-same = λ r w. refl;
}

-- what the network has set up: a default route, and the route of the pod's own network
before_routes : List NetRoute
before_routes =
    record {
      dst = none;
      gw = some (v4 0x0a010001);
      link_index = 2;
      priority = 0;
      protocol = 3;
      scope = 0;
    }
    ∷ record {
      dst = some (some (v4 0x0a010000), 16);
      gw = none;
      link_index = 2;
      priority = 0;
      protocol = 2;
      scope = 253;
    }
    ∷ []

services : Prefix
unfolding prefix4
services = prefix4 0x0a600000 12

held_lem : (r : Route) → In r (held_routes before_routes) → IsOwn r
unfolding before_routes to_route map is_default prefix_from unmap
held_lem r (inl e) = (λ own. cc (ap (λ x. x.protocol) e, own), λ d. ap (λ x. x.dst) e)
held_lem r (inr (inl e)) = (λ own. cc (ap (λ x. x.protocol) e, own), λ d. cc (ap is_default e, d))
held_lem r (inr (inr never)) = elim never [ ]

no_default : (p : Prefix) → In p (services ∷ []) → (p.bits_plus_one == 1) ≡ false
unfolding services
no_default p (inl e) = ap (λ x. x.bits_plus_one == 1) e
no_default p (inr never) = elim never [ ]

routes_run : (ensure_routes main_table 5 (services ∷ []) before_routes).0 ≡ ok tt
unfolding ◌>>=◌ ensure_routes before_routes services plan_routes gateway_route leaves_pod
    installed_via is_stale is_default has_prefix to_route map filter find? prefix_from unmap
    is_valid replace_locals delete_stale delete_ipv6_defaults delete_each6 route_eq keep beside
    other_than prefix_eq addr_eq bits
routes_run = refl

ensure_routes-Stable_example :
    Stable main_table table_kernel 5
      (services ∷ [])
      before_routes
      (ensure_routes main_table 5 (services ∷ []) before_routes).1
unfolding table_kernel
ensure_routes-Stable_example =
    ensure_routes-Stable main_table table_kernel 5 (services ∷ []) before_routes held_lem no_default
      services (inl refl) routes_run
