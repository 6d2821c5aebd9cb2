-- ===== src/Sidecar/RouteTable/Kernel.antt =====
-- The main table of the kernel, under what is documented of its calls, and what the client reads of it.
use wireguard_operator.Prelude.{
  In, Bool, true, false, List, [], ◌∷◌, map, ◌≢◌, ◌⊎◌, inl, inr, Option, none, some, ◌≡◌, refl, sym,
  ap, ◌∙◌, subst, ◌/◌, ◌^◌, ◌||◌, ==_refl, arith, ◌==◌, Bool-cases, filter, if◌then◌else◌,
}
use wireguard_operator.Netip.Addr.{Addr, invalid, v6, v4, Prefix, prefix_eq}
use wireguard_operator.Netip.Laws.{prefix4, addr_eq_refl}
use wireguard_operator.Sidecar.Tunnel.Device.{unmap}
use wireguard_operator.Wireguard.Address.{prefix_eq→≡}
use wireguard_operator.Api.Exec.{ApiError, Result, ok, err, Exec, pure, fail}
use wireguard_operator.Sidecar.Routes.{Route, route_protocol, is_default, has_prefix}
use wireguard_operator.Sidecar.RouteTable.{
  NetRoute, NetRoute6, NewRoute, RouteTable, gateway_of, to_route, is_gone, gone_ignored,
  gone6_ignored, no_ipv6_stack,
}

-- The route that a replace installs, as it is read back.
abbrev pub installed : NewRoute → Route
installed n = record {
  dst = n.dst;
  gw = gateway_of n.gw;
  link_index = n.link_index;
  priority = 0;
  protocol = n.protocol;
  scope = if n.link_scope then 253 else 0;
}

-- A delete after which the route is not there.
abbrev pub Deleted : Result Unit → Type 0
Deleted (ok u) = Unit
Deleted (err e) = is_gone e ≡ true

-- The main IPv4 table as the client reads it, when nothing else writes it: a replace puts its route in
-- the place of those with its destination and metric 0, a delete takes the route out, and the calls
-- for IPv6 do not touch it.
pub record Kernel {W : Type 0} (k : RouteTable W) : Type 0 where
  pub held : W → List Route
  pub list-held :
      (w : W) (rs : List NetRoute) → (k.list_routes w).0 ≡ ok rs → map to_route rs ≡ held w
  pub list-same : (w : W) → held (k.list_routes w).1 ≡ held w
  pub replace-held :
      (n : NewRoute) (w : W) (r : Route)
      → (k.route_replace n w).0 ≡ ok tt
      → In r (held (k.route_replace n w).1)
      → (r ≡ installed n) ⊎ (In r (held w) × ¬ ((r.dst ≡ n.dst) × (r.priority ≡ 0)))
  pub replace-new :
      (n : NewRoute) (w : W)
      → (k.route_replace n w).0 ≡ ok tt
      → In (installed n) (held (k.route_replace n w).1)
  pub replace-kept :
      (n : NewRoute) (w : W) (r : Route)
      → (k.route_replace n w).0 ≡ ok tt
      → In r (held w)
      → r.dst ≢ n.dst
      → In r (held (k.route_replace n w).1)
  pub del-held :
      (s : Route) (w : W) (r : Route)
      → Deleted (k.route_del s w).0
      → In r (held (k.route_del s w).1)
      → In r (held w) × (r ≢ s)
  pub del-kept :
      (s : Route) (w : W) (r : Route)
      → Deleted (k.route_del s w).0
      → In r (held w)
      → r ≢ s
      → In r (held (k.route_del s w).1)
  pub list6-same : (w : W) → held (k.list_routes6 w).1 ≡ held w
  pub del6-same : (r : NetRoute6) (w : W) → held (k.route_del6 r w).1 ≡ held w

-- The client's own routes have metric 0, as it installs them, and a default route is 0.0.0.0/0.
abbrev pub IsOwn : Route → Type 0
IsOwn r =
    (r.protocol ≡ route_protocol → r.priority ≡ 0) × (is_default r ≡ true → r.dst ≡ prefix4 0 0)

pub has_prefix-In : (ps : List Prefix) (p : Prefix) → has_prefix ps p ≡ true → In p ps
unfolding has_prefix
has_prefix-In [] p h = absurd (cc)
has_prefix-In (q ∷ qs) p h = elim (Bool-cases (prefix_eq p q)) [
  | inl same ↦ inl (prefix_eq→≡ p q same)
  | inr other ↦ inr (has_prefix-In qs p (ground (arith, other)))
]

pub In-filter :
    (f : Route → Bool) (r : Route) (rs : List Route) → In r rs → f r ≡ true → In r (filter f rs)
unfolding filter
In-filter f r [] m h = m
In-filter f r (x ∷ xs) (inl e) h = rw (ap f (sym e) ∙ h) (inl e)
In-filter f r (x ∷ xs) (inr m) h = elim (Bool-cases (f x)) [
  | inl picked ↦ rw picked (inr (In-filter f r xs m h))
  | inr out ↦ rw out (In-filter f r xs m h)
]

pub prefix_eq_refl : (p : Prefix) → prefix_eq p p ≡ true
unfolding prefix_eq
prefix_eq_refl p = rw (addr_eq_refl p.addr, ==_refl p.bits_plus_one) refl

pub not_equal : (p q : Prefix) → prefix_eq p q ≡ false → p ≢ q
not_equal p q h e = cc (ap (prefix_eq p) e, prefix_eq_refl p, h)

pub In-has_prefix : (ps : List Prefix) (p : Prefix) → In p ps → has_prefix ps p ≡ true
unfolding has_prefix
In-has_prefix [] p h = elim h [ ]
In-has_prefix (q ∷ qs) p (inl e) =
    let here : prefix_eq p q ≡ true = subst (λ x. prefix_eq p x ≡ true) e (prefix_eq_refl p) in
    ground (arith, here)
In-has_prefix (q ∷ qs) p (inr later) = ground (arith, In-has_prefix qs p later)

unmap_twice : (a : Addr) → unmap (unmap a) ≡ unmap a
unfolding unmap
unmap_twice invalid = refl
unmap_twice (v4 n) = refl
unmap_twice (v6 n z) = elim (Bool-cases (n / 2 ^ 32 == 65535)) [
  | inl mapped ↦ rw mapped refl
  | inr plain ↦ rw (plain, unmap, plain) refl
]

gateway_of-unmap : (o : Option Addr) → unmap (gateway_of o) ≡ gateway_of o
unfolding unmap
gateway_of-unmap none = refl
gateway_of-unmap (some a) = unmap_twice a

pub read_gateway : (rs : List NetRoute) (r : Route) → In r (map to_route rs) → unmap r.gw ≡ r.gw
unfolding map to_route
read_gateway [] r h = elim h [ ]
read_gateway (x ∷ xs) r (inl e) = subst (λ y. unmap y.gw ≡ y.gw) (sym e) (gateway_of-unmap x.gw)
read_gateway (x ∷ xs) r (inr later) = read_gateway xs r later

module _ {W : Type 0} where
  if_ok :
      (t : Bool) (e : ApiError) (w : W)
      → (if◌then◌else◌ {A = Exec W Unit} t (pure tt) (fail e) w).0 ≡ ok tt
      → t ≡ true
  if_ok true e w h = refl
  if_ok false e w h = absurd (cc)

  if_same :
      (t : Bool) (e : ApiError) (w : W)
      → (if◌then◌else◌ {A = Exec W Unit} t (pure tt) (fail e) w).1 ≡ w
  if_same true e w = refl
  if_same false e w = refl

module _ {W : Type 0} (k : RouteTable W) where
  pub gone_ignored-Deleted : (r : Result Unit) (w : W) → (gone_ignored k r w).0 ≡ ok tt → Deleted r
  gone_ignored-Deleted (ok u) w h = tt
  gone_ignored-Deleted (err e) w h = if_ok (is_gone e) e w h

  pub gone_ignored-same : (r : Result Unit) (w : W) → (gone_ignored k r w).1 ≡ w
  gone_ignored-same (ok u) w = refl
  gone_ignored-same (err e) w = if_same (is_gone e) e w

  pub gone6_ignored-same : (r : Result Unit) (w : W) → (gone6_ignored k r w).1 ≡ w
  gone6_ignored-same (ok u) w = refl
  gone6_ignored-same (err e) w = if_same (is_gone e || no_ipv6_stack e) e w
