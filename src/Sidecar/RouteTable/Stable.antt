-- ===== src/Sidecar/RouteTable/Stable.antt =====
-- The main table after ensureRoutes, and the plan that the next pass makes of it.
use wireguard_operator.Prelude.{
  ℕ, In, true, false, List, [], map, ◌≢◌, ◌⊎◌, inl, inr, Option, none, some, ◌≡◌, refl, sym, ap,
  ◌∙◌, subst, ==_refl, arith, ◌==◌, Bool-cases, filter,
}
use wireguard_operator.Netip.Addr.{Addr, v4, is_valid, Prefix, prefix_from}
use wireguard_operator.Netip.Laws.{prefix4}
use wireguard_operator.Sidecar.Tunnel.Device.{unmap}
use wireguard_operator.Api.Exec.{ok, Exec, ◌>>=◌, Leaves, Leaves-then}
use wireguard_operator.Sidecar.Routes.{
  Route, RoutePlan, route_protocol, is_default, is_stale, plan_routes,
}
use wireguard_operator.Sidecar.Routes.Plan.{
  local_route, wg_route, Applied, filter-In, plan_routes-Removable, plan_routes_stable,
  plan_routes-shape,
}
use wireguard_operator.Sidecar.RouteTable.{
  NetRoute, NewRoute, RouteTable, to_route, delete_stale, delete_ipv6_defaults, replace_locals,
  planned, ensure_routes,
}
use wireguard_operator.Sidecar.RouteTable.Kernel.{
  installed, Kernel, IsOwn, has_prefix-In, In-filter, In-has_prefix, read_gateway,
}
use wireguard_operator.Sidecar.RouteTable.Calls.{
  want, replace_locals-held, replace_locals-new, Left, delete_stale-Left, delete_ipv6_defaults-same,
}

-- the default route via wg0 that ensureRoutes installs
abbrev everywhere : ℕ → NewRoute
unfolding prefix_from
everywhere wg = record {
  dst = prefix_from (v4 0) 0;
  gw = none;
  link_index = wg;
  link_scope = true;
  protocol = route_protocol;
}

fresh_local :
    (plan : RoutePlan) (wg : ℕ) (locals : List Prefix) (p : Prefix)
    → In p locals
    → (p.bits_plus_one == 1) ≡ false
    → is_stale wg locals (local_route plan p) ≡ false
unfolding is_stale is_default
fresh_local plan wg locals p m narrow = ground (arith, narrow, In-has_prefix locals p m)

fresh_default : (wg : ℕ) (locals : List Prefix) → is_stale wg locals (wg_route wg) ≡ false
unfolding is_stale is_default
fresh_default wg locals = ground (arith, ==_refl wg)

-- a route of the client that is not stale is one that ensureRoutes puts again
again :
    (wg : ℕ) (locals : List Prefix) (r : Route)
    → IsOwn r
    → r.protocol ≡ route_protocol
    → is_stale wg locals r ≡ false
    → (r.priority ≡ 0) × ((r.dst ≡ prefix4 0 0) ⊎ In r.dst locals)
unfolding is_stale
again wg locals r (metric, whole) own fresh = elim (Bool-cases (is_default r)) [
  | inl default ↦ (metric own, inl (whole default))
  | inr other ↦ (
    metric own,
    inr (
        has_prefix-In locals r.dst
          (ground (arith, fresh, other, subst (λ x. (x == route_protocol) ≡ true) (sym own) refl))),
  )
]

module _ {W : Type 0} (k : RouteTable W) (kernel : Kernel k) where
  -- The table and the next plan after an ensureRoutes for a plan.
  pub record Stable (wg : ℕ) (locals : List Prefix) (w w' : W) : Type 0 where
    pub plan : RoutePlan
    pub planned_first : plan_routes (kernel.held w) wg locals ≡ some plan
    pub default_held : In (wg_route wg) (kernel.held w')
    pub locals_held : (p : Prefix) → In p locals → In (local_route plan p) (kernel.held w')
    pub stale_gone : (r : Route) → In r plan.stale → ¬ In r (kernel.held w')
    pub planned_next :
        plan_routes (kernel.held w') wg locals
        ≡ some (record { gw = plan.gw; gw_link = plan.gw_link; locals = locals; stale = [] })

  module _ (wg : ℕ) (locals : List Prefix) (w : W)
      (own : (r : Route) → In r (kernel.held w) → IsOwn r)
      (narrow : (p : Prefix) → In p locals → (p.bits_plus_one == 1) ≡ false) (one : Prefix)
      (listed : In one locals) where
    StableFrom : Unit {0} → W → Type 0
    StableFrom u w' = Stable wg locals w w'

    -- the part of ensureRoutes after the plan is made, from a state that holds what was planned for
    module _ (gw : Addr) (link : ℕ) (plain : unmap gw ≡ gw) (valid : is_valid gw ≡ true) where
      abbrev stale_routes : List Route
      stale_routes = filter (is_stale wg locals) (kernel.held w)

      abbrev made : RoutePlan
      made = record { gw = gw; gw_link = link; locals = locals; stale = stale_routes }

      shown : (p : Prefix) → installed (want gw link p) ≡ local_route made p
      shown p =
          ap
            (λ g. record {
              dst = p;
              gw = g;
              link_index = link;
              priority = 0;
              protocol = route_protocol;
              scope = 0;
            })
            plain

      default_shown : installed (everywhere wg) ≡ wg_route wg
      unfolding everywhere
      default_shown = refl

      not_stale : (r : Route) → is_stale wg locals r ≡ false → ¬ In r stale_routes
      not_stale r fresh m = cc (fresh, (filter-In (is_stale wg locals) r (kernel.held w) m).1)

      never_default : (p : Prefix) → In p locals → p ≢ (everywhere wg).dst
      unfolding everywhere
      never_default p m e = cc (narrow p m, ap (λ x. x.bits_plus_one == 1) e)

      module _ (w1 w2 : W) (same : kernel.held w1 ≡ kernel.held w)
          (from_locals : (r : Route)
            → In r (kernel.held w2)
            → ((p : Prefix) × In p locals × (r ≡ installed (want gw link p)))
              ⊎ (In r (kernel.held w1)
                  × ((p : Prefix) → In p locals → ¬ ((r.dst ≡ p) × (r.priority ≡ 0)))))
          (set : (k.route_replace (everywhere wg) w2).0 ≡ ok tt) where
        old_route :
            (r : Route)
            → In r (kernel.held w)
            → ¬ In r stale_routes
            → ¬ ((r.dst ≡ (everywhere wg).dst) × (r.priority ≡ 0))
            → ((p : Prefix) → In p locals → ¬ ((r.dst ≡ p) × (r.priority ≡ 0)))
            → Applied made wg r
        unfolding everywhere
        old_route r m out no_default free =
            let fresh : is_stale wg locals r ≡ false = elim (Bool-cases (is_stale wg locals r)) [
              | inr e ↦ e
              | inl e ↦ absurd (out (In-filter (is_stale wg locals) r (kernel.held w) m e))
            ] in
            inr (
              inr (
                fresh,
                λ mine.
                    let (metric, place) = again wg locals r (own r m) mine fresh in
                    elim place [
                      | inl d ↦ no_default (d, metric)
                      | inr there ↦ free r.dst there (refl, metric)
                    ],
              ))

        left_route :
            (r : Route)
            → In r (kernel.held (k.route_replace (everywhere wg) w2).1)
            → ¬ In r stale_routes
            → Applied made wg r
        left_route r m out = elim (kernel.replace-held (everywhere wg) w2 r set m) [
          | inl e ↦ inr (inl (e ∙ default_shown))
          | inr (m2, no_default) ↦ elim (from_locals r m2) [
            | inl (p, there, e) ↦ inl (p, In-has_prefix locals p there, e ∙ shown p)
            | inr (m1, free) ↦ old_route r (subst (In r) same m1) out no_default free
          ]
        ]

      final :
          (w1 w2 w4 w5 : W)
          → kernel.held w1 ≡ kernel.held w
          → plan_routes (kernel.held w) wg locals ≡ some made
          → (replace_locals k gw link locals w1).0 ≡ ok tt
          → (replace_locals k gw link locals w1).1 ≡ w2
          → (k.route_replace (everywhere wg) w2).0 ≡ ok tt
          → Left k kernel stale_routes (k.route_replace (everywhere wg) w2).1 tt w4
          → kernel.held w5 ≡ kernel.held w4
          → Stable wg locals w w5
      final w1 w2 w4 w5 same first put e2 set (back, forth) same5 =
          let from_locals =
            subst
              (λ x.
                (r : Route)
                → In r (kernel.held x)
                → ((p : Prefix) × In p locals × (r ≡ installed (want gw link p)))
                  ⊎ (In r (kernel.held w1)
                      × ((p : Prefix) → In p locals → ¬ ((r.dst ≡ p) × (r.priority ≡ 0)))))
              e2 (replace_locals-held k kernel gw link locals w1 put) in
          let local_held : (p : Prefix) → In p locals → In (local_route made p) (kernel.held w5) =
            λ p m. subst (In (local_route made p)) (sym same5) (
              forth (local_route made p)
                (subst (λ r. In r (kernel.held (k.route_replace (everywhere wg) w2).1)) (shown p)
                  (kernel.replace-kept (everywhere wg) w2 (installed (want gw link p)) set
                    (subst (λ x. In (installed (want gw link p)) (kernel.held x)) e2
                      (replace_locals-new k kernel gw link locals p w1 put m))
                    (never_default p m)))
                (not_stale (local_route made p) (fresh_local made wg locals p m (narrow p m)))) in
          record {
            plan = made;
            planned_first = first;
            default_held = subst (In (wg_route wg)) (sym same5) (
                forth (wg_route wg)
                  (subst (λ r. In r (kernel.held (k.route_replace (everywhere wg) w2).1))
                    default_shown (kernel.replace-new (everywhere wg) w2 set))
                  (not_stale (wg_route wg) (fresh_default wg locals)));
            locals_held = local_held;
            stale_gone = λ r m here. (back r (subst (In r) same5 here)).1 m;
            planned_next =
                plan_routes_stable made wg (λ p h. narrow p (has_prefix-In locals p h))
                  (kernel.held w5) one valid
                  (λ r m.
                    let (m3, out) = back r (subst (In r) same5 m) in
                    left_route w1 w2 same from_locals set r m3 out)
                  (local_held one listed);
          }

      applied_plan :
          (w1 : W)
          → kernel.held w1 ≡ kernel.held w
          → plan_routes (kernel.held w) wg locals ≡ some made
          → Leaves StableFrom
              (replace_locals k gw link locals >>= λ u. k.route_replace (everywhere wg) >>= λ v.
                delete_stale k stale_routes >>= λ x. delete_ipv6_defaults k)
              w1
      unfolding StableFrom
      applied_plan w1 same first =
          Leaves-then StableFrom (replace_locals k gw link locals)
            (λ u. k.route_replace (everywhere wg) >>= λ v.
              delete_stale k stale_routes >>= λ x. delete_ipv6_defaults k)
            w1
            (λ u put.
              let w2 : W = (replace_locals k gw link locals w1).1 in
              Leaves-then StableFrom (k.route_replace (everywhere wg))
                (λ v. delete_stale k stale_routes >>= λ x. delete_ipv6_defaults k) w2
                (λ v set.
                  let w3 : W = (k.route_replace (everywhere wg) w2).1 in
                  Leaves-then StableFrom (delete_stale k stale_routes) (λ x. delete_ipv6_defaults k)
                    w3
                    (λ x done. λ y h.
                      let w4 : W = (delete_stale k stale_routes w3).1 in
                      final w1 w2 w4 (delete_ipv6_defaults k w4).1 same first put refl set
                        (delete_stale-Left k kernel stale_routes w3 x done)
                        (delete_ipv6_defaults-same k kernel (kernel.held w4) w4 refl y h))))

    -- ensureRoutes from the plan on
    abbrev carried_out : RoutePlan → Exec W Unit
    carried_out plan = replace_locals k plan.gw plan.gw_link plan.locals >>= λ u.
        k.route_replace (everywhere wg) >>= λ v.
        delete_stale k plan.stale >>= λ x. delete_ipv6_defaults k

    carried_out-StableFrom :
        (rs : List NetRoute) (w1 : W) (plan : RoutePlan)
        → map to_route rs ≡ kernel.held w
        → kernel.held w1 ≡ kernel.held w
        → plan_routes (map to_route rs) wg locals ≡ some plan
        → Leaves StableFrom (carried_out plan) w1
    carried_out-StableFrom rs w1 plan read same h =
        let ((r, there, gw, link, valid), _) =
          plan_routes-Removable (map to_route rs) wg locals plan h in
        let (own_locals, own_stale) = plan_routes-shape (map to_route rs) wg locals plan h in
        let plain : unmap plan.gw ≡ plan.gw =
          subst (λ a. unmap a ≡ a) (sym gw) (read_gateway rs r there) in
        let fine : is_valid plan.gw ≡ true = ap is_valid gw ∙ valid in
        let stale : plan.stale ≡ filter (is_stale wg locals) (kernel.held w) =
          own_stale ∙ ap (filter (is_stale wg locals)) read in
        let whole : plan ≡ made plan.gw plan.gw_link plain fine = cc (own_locals, stale) in
        subst (λ q. Leaves StableFrom (carried_out q) w1) (sym whole)
          (applied_plan plan.gw plan.gw_link plain fine w1 same (
            subst (λ t. plan_routes t wg locals ≡ some (made plan.gw plan.gw_link plain fine)) read
              (h ∙ ap some whole)))

    -- When ensureRoutes returns no error, the main table holds the default route via wg0 and each
    -- local network's route through the gateway that it planned, and none of the routes that it
    -- planned to delete; planning again over that table gives the same gateway and link, and nothing
    -- to delete. This is for a kernel whose table nothing else writes meanwhile, a table in which the
    -- client's own routes have metric 0 and default routes are 0.0.0.0/0, and a list of local networks
    -- that is not empty and in which none is the default.
    pub ensure_routes-Stable :
        (ensure_routes k wg locals w).0 ≡ ok tt → Stable wg locals w (ensure_routes k wg locals w).1
    unfolding ensure_routes everywhere StableFrom
    ensure_routes-Stable h =
        Leaves-then StableFrom k.list_routes
          (λ rs. planned k (plan_routes (map to_route rs) wg locals) >>= carried_out) w
          (λ rs read.
            let w1 : W = (k.list_routes w).1 in
            Leaves-then StableFrom (planned k (plan_routes (map to_route rs) wg locals)) carried_out
              w1
              (λ plan e.
                by_plan rs plan (kernel.list-held w rs read) (kernel.list-same w)
                  (plan_routes (map to_route rs) wg locals) refl e))
          tt h
      where
        by_plan :
            (rs : List NetRoute) (plan : RoutePlan)
            → map to_route rs ≡ kernel.held w
            → kernel.held (k.list_routes w).1 ≡ kernel.held w
            → (o : Option RoutePlan) → plan_routes (map to_route rs) wg locals ≡ o
            → (planned k o (k.list_routes w).1).0 ≡ ok plan
            → Leaves StableFrom (carried_out plan) (planned k o (k.list_routes w).1).1
        by_plan rs plan read same none e j = absurd (cc)
        by_plan rs plan read same (some q) e j =
            carried_out-StableFrom rs (k.list_routes w).1 plan read same (e ∙ ap some (cc))
