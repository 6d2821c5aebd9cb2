-- ===== src/Sidecar/Routes/Plan.antt =====
-- What planRoutes deletes, what it keeps, and that its plan is stable.
use wireguard_operator.Prelude.{
  ℕ, filter, find?, In, Bool, true, false, List, [], ◌∷◌, ◌≢◌, ◌⊎◌, inl, inr, Option, none, some,
  ◌≡◌, refl, ap, ◌∙◌, subst, arith, ◌==◌, Bool-cases, ==→≡, ==_refl,
}
use wireguard_operator.Netip.Addr.{invalid, Prefix, is_valid}
use wireguard_operator.Netip.Laws.{prefix4}
use wireguard_operator.Sidecar.Routes.{
  Route, RoutePlan, route_protocol, is_default, leaves_pod, installed_via, has_prefix, is_stale,
  or_route, gateway_route, plan_routes,
}

pub filter-In :
    (f : Route → Bool) (r : Route) (rs : List Route) → In r (filter f rs) → In r rs × (f r ≡ true)
unfolding filter
filter-In f r [] h = elim h [ ]
filter-In f r (x ∷ xs) h = elim (Bool-cases (f x)) [
  | inr out ↦ let (there, e) = filter-In f r xs (rw out at h) in (inr there, e)
  | inl picked ↦
      let split : (r ≡ x) ⊎ In r (filter f xs) = rw picked at h in
      elim split [
        | inl e ↦ (inl e, ap f e ∙ picked)
        | inr later ↦ let (there, e) = filter-In f r xs later in (inr there, e)
      ]
]

filter-nil :
    (f : Route → Bool) (rs : List Route) → ((r : Route) → In r rs → f r ≡ false) → filter f rs ≡ []
unfolding filter
filter-nil f [] h = refl
filter-nil f (x ∷ xs) h = rw (h x (inl refl)) (filter-nil f xs (λ r m. h r (inr m)))

find?-In :
    (f : Route → Bool) (r : Route) (rs : List Route) → find? f rs ≡ some r → In r rs × (f r ≡ true)
unfolding find?
find?-In f r [] h = absurd (cc)
find?-In f r (x ∷ xs) h = elim (Bool-cases (f x)) [
  | inr out ↦ let (there, e) = find?-In f r xs (rw out at h) in (inr there, e)
  | inl picked ↦
      let same : some x ≡ some r = rw picked at h in
      (inl (cc), ground (arith, ap f {x = r} {y = x} (cc), picked))
]

find?-none :
    (f : Route → Bool) (rs : List Route) → ((r : Route) → In r rs → f r ≡ false) → find? f rs ≡ none
unfolding find?
find?-none f [] h = refl
find?-none f (x ∷ xs) h = rw (h x (inl refl)) (find?-none f xs (λ r m. h r (inr m)))

find?-some :
    (f : Route → Bool) (r : Route) (rs : List Route)
    → In r rs
    → f r ≡ true
    → (s : Route) × (find? f rs ≡ some s)
unfolding find?
find?-some f r [] m h = elim m [ ]
find?-some f r (x ∷ xs) m h = elim (Bool-cases (f x)) [
  | inl picked ↦ (x, rw picked refl)
  | inr out ↦ elim m [
    | inl e ↦ absurd (cc (ap f e, h, out))
    | inr later ↦ let (s, e) = find?-some f r xs later h in (s, rw out e)
  ]
]

-- A route that the client may delete: a default route beside wg0, or one that it installed for a
-- network that is no longer local.
abbrev pub Removable : ℕ → List Prefix → Route → Type 0
Removable wg locals r =
    ((is_default r ≡ true) × (r.link_index ≢ wg))
    ⊎ ((is_default r ≡ false) × (r.protocol ≡ route_protocol) × (has_prefix locals r.dst ≡ false))

is_stale-Removable :
    (wg : ℕ) (locals : List Prefix) (r : Route)
    → is_stale wg locals r ≡ true
    → Removable wg locals r
unfolding is_stale
is_stale-Removable wg locals r h = elim (Bool-cases (is_default r)) [
  | inl default ↦ inl (default, λ e. ground (arith, ==_refl wg, ap (λ l. l == wg) e))
  | inr other ↦ inr (other, ground (arith, ==→≡ r.protocol route_protocol), ground arith)
]

on_gateway :
    (o : Option Route) (locals : List Prefix) (stale : List Route) (plan : RoutePlan)
    → elim o [
      | none ↦ none
      | some r ↦ some (record { gw = r.gw; gw_link = r.link_index; locals = locals; stale = stale })
    ]
      ≡ some plan
    → (r : Route) × (o ≡ some r)
      × (plan ≡ record { gw = r.gw; gw_link = r.link_index; locals = locals; stale = stale })
on_gateway none locals stale plan h = absurd (cc)
on_gateway (some r) locals stale plan h = (r, refl, cc)

-- the parts of a plan
pub plan_routes-shape :
    (have : List Route) (wg : ℕ) (locals : List Prefix) (plan : RoutePlan)
    → plan_routes have wg locals ≡ some plan
    → (plan.locals ≡ locals) × (plan.stale ≡ filter (is_stale wg locals) have)
unfolding plan_routes
plan_routes-shape have wg locals plan h =
    let (r, e, shape) =
      on_gateway (gateway_route have wg) locals (filter (is_stale wg locals) have) plan h in
    (ap (λ q. q.locals) shape, ap (λ q. q.stale) shape)

or_route-some :
    (o q : Option Route) (r : Route) → or_route o q ≡ some r → (o ≡ some r) ⊎ (q ≡ some r)
or_route-some none q r h = inr h
or_route-some (some x) q r h = inl h

-- A plan that planRoutes makes takes its gateway and link from a route of the table with a valid
-- gateway, and deletes only routes of the table, each a default route beside wg0 or one that the
-- client installed for a network that is not local.
pub plan_routes-Removable :
    (have : List Route) (wg : ℕ) (locals : List Prefix) (plan : RoutePlan)
    → plan_routes have wg locals ≡ some plan
    → ((r : Route) × In r have
        × (plan.gw ≡ r.gw)
        × (plan.gw_link ≡ r.link_index)
        × (is_valid r.gw ≡ true))
      × ((r : Route) → In r plan.stale → In r have × Removable wg locals r)
unfolding plan_routes gateway_route leaves_pod installed_via
plan_routes-Removable have wg locals plan h =
    let (r, e, shape) =
      on_gateway (gateway_route have wg) locals (filter (is_stale wg locals) have) plan h in
    let via : In r have × (is_valid r.gw ≡ true) =
      elim (or_route-some (find? (leaves_pod wg) have) (find? installed_via have) r e) [
        | inl f ↦ let (there, k) = find?-In (leaves_pod wg) r have f in (there, ground arith)
        | inr f ↦ let (there, k) = find?-In installed_via r have f in (there, ground arith)
      ] in
    (
      (r, via.0, ap (λ q. q.gw) shape, ap (λ q. q.gw_link) shape, via.1),
      λ s there.
          let (m, k) =
            filter-In (is_stale wg locals) s have (subst (λ q. In s q.stale) shape there) in
          (m, is_stale-Removable wg locals s k),
    )

-- the route of a local network that ensureRoutes installs
abbrev pub local_route : RoutePlan → Prefix → Route
local_route plan p = record {
  dst = p;
  gw = plan.gw;
  link_index = plan.gw_link;
  priority = 0;
  protocol = route_protocol;
  scope = 0;
}

-- the default route via wg0 that ensureRoutes installs, with scope link
abbrev pub wg_route : ℕ → Route
wg_route wg = record {
  dst = prefix4 0 0;
  gw = invalid;
  link_index = wg;
  priority = 0;
  protocol = route_protocol;
  scope = 253;
}

-- A route that an applied plan leaves: a local network's, the default route via wg0, or one of
-- another owner that the plan keeps.
abbrev pub Applied : RoutePlan → ℕ → Route → Type 0
Applied plan wg r =
    ((p : Prefix) × (has_prefix plan.locals p ≡ true) × (r ≡ local_route plan p))
    ⊎ ((r ≡ wg_route wg) ⊎ ((is_stale wg plan.locals r ≡ false) × (r.protocol ≢ route_protocol)))

not_same : (a b : ℕ) → a ≢ b → (a == b) ≡ false
not_same a b h = elim (Bool-cases (a == b)) [
  | inr differ ↦ differ
  | inl same ↦ absurd (h (==→≡ a b same))
]

gateway_route_installed :
    (have : List Route) (wg : ℕ) (s : Route)
    → find? (leaves_pod wg) have ≡ none
    → find? installed_via have ≡ some s
    → gateway_route have wg ≡ some s
unfolding gateway_route
gateway_route_installed have wg s h k = rw (h, k, gateway_route) refl

plan_routes_from :
    (have : List Route) (wg : ℕ) (locals : List Prefix) (s : Route)
    → gateway_route have wg ≡ some s
    → filter (is_stale wg locals) have ≡ []
    → plan_routes have wg locals
      ≡ some (record { gw = s.gw; gw_link = s.link_index; locals = locals; stale = [] })
unfolding plan_routes
plan_routes_from have wg locals s h k = rw (h, k, plan_routes) refl

module _ (plan : RoutePlan) (wg : ℕ)
    (narrow : (p : Prefix) → has_prefix plan.locals p ≡ true → (p.bits_plus_one == 1) ≡ false) where
  Applied-fresh : (r : Route) → Applied plan wg r → is_stale wg plan.locals r ≡ false
  unfolding is_stale is_default
  Applied-fresh r (inl (p, local, e)) = rw (e, is_stale) (ground (arith, narrow p local, local))
  Applied-fresh r (inr (inl e)) = rw (e, is_stale) (ground (arith, ==_refl wg))
  Applied-fresh r (inr (inr (fresh, _))) = fresh

  Applied-inside : (r : Route) → Applied plan wg r → leaves_pod wg r ≡ false
  unfolding leaves_pod is_stale
  Applied-inside r a = ground (arith, Applied-fresh r a)

  Applied-gateway :
      (r : Route)
      → Applied plan wg r
      → installed_via r ≡ true
      → (r.gw ≡ plan.gw) × (r.link_index ≡ plan.gw_link)
  unfolding installed_via is_valid
  Applied-gateway r (inl (p, local, e)) h = (ap (λ x. x.gw) e, ap (λ x. x.link_index) e)
  Applied-gateway r (inr (inl e)) h = absurd (cc (ap installed_via e, h))
  Applied-gateway r (inr (inr (_, foreign))) h =
      absurd (foreign (ground (arith, ==→≡ r.protocol route_protocol)))

  local_route-installed :
      (p : Prefix) → is_valid plan.gw ≡ true → installed_via (local_route plan p) ≡ true
  unfolding installed_via
  local_route-installed p h = h

  -- Planning again over a table of such routes gives the same gateway and link, and nothing to
  -- delete, when one of the local networks has its route there, no local network is the default, and
  -- the gateway is valid.
  pub plan_routes_stable :
      (after : List Route) (p : Prefix)
      → is_valid plan.gw ≡ true
      → ((r : Route) → In r after → Applied plan wg r)
      → In (local_route plan p) after
      → plan_routes after wg plan.locals
        ≡ some (record { gw = plan.gw; gw_link = plan.gw_link; locals = plan.locals; stale = [] })
  plan_routes_stable after p valid applied installed =
      let (s, found) =
        find?-some installed_via (local_route plan p) after installed
          (local_route-installed p valid) in
      let (there, via) = find?-In installed_via s after found in
      let (gateway, link) = Applied-gateway s (applied s there) via in
      cc (
        plan_routes_from after wg plan.locals s
            (gateway_route_installed after wg s
              (find?-none (leaves_pod wg) after (λ r m. Applied-inside r (applied r m))) found)
            (filter-nil (is_stale wg plan.locals) after (λ r m. Applied-fresh r (applied r m))),
        gateway,
        link,
      )
