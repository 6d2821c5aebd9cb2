-- ===== src/Sidecar/Routes.antt =====
-- internal/sidecar/routes.go: the routes that send the cluster's networks via the CNI gateway and
-- everything else via wg0.
pub mod Plan
use wireguard_operator.Prelude.{
  ℕ, zero, suc, ◌+◌, ◌-◌, ◌*◌, ◌/◌, ◌%◌, ◌^◌, ◌≤◌, ◌<◌, compare, Ordering, String, length,
  get_elem?, filter, any, find?, In, In-append_left, In-append_right, All, All-In, All-of_In,
  All-append, All-map, Str, str_eq→≡, str_eq_refl, str_eq_iff, is_empty→≡, is_empty_nil, text,
  str_eq, is_empty, str_compare, cut, has_byte, join, contains, contains→In, In→contains,
  contains-false, Bool, true, false, not, ◌&&◌, ◌||◌, List, [], ◌∷◌, ◌++◌, map, ◌≢◌, ◌↔◌, ◌⊎◌, inl,
  inr, Option, none, some, ◌≡◌, refl, sym, ap, ◌∙◌, subst, arith, ltb, leb, ◌==◌, if◌then◌else◌,
  Bool-cases, ==→≡, ==_refl, ltb→lt, ltb→le,
}
use wireguard_operator.Netip.Addr.{Addr, Prefix, prefix_eq, bits, is_valid}

-- rtnetlink protocol 151
abbrev pub route_protocol : ℕ
route_protocol = 151

-- route: Scope is a uint8
pub record Route : Type 0 where
  pub dst : Prefix
  pub gw : Addr
  pub link_index : ℕ
  pub priority : ℕ
  pub protocol : ℕ
  pub scope : ℕ

-- routePlan
pub record RoutePlan : Type 0 where
  pub gw : Addr
  pub gw_link : ℕ
  pub locals : List Prefix
  pub stale : List Route

-- isDefault: Bits is 0 for 0.0.0.0/0, and −1 for an invalid prefix
unfoldable pub is_default : Route → Bool
is_default r = r.dst.bits_plus_one == 1

unfoldable pub leaves_pod : ℕ → Route → Bool
unfolding is_default
leaves_pod wg_index r = is_default r && not (r.link_index == wg_index) && is_valid r.gw

unfoldable pub installed_via : Route → Bool
installed_via r = (r.protocol == route_protocol) && is_valid r.gw

-- slices.Contains
unfoldable pub has_prefix : List Prefix → Prefix → Bool
has_prefix [] p = false
has_prefix (q ∷ qs) p = prefix_eq p q || has_prefix qs p

-- a route to be deleted
unfoldable pub is_stale : ℕ → List Prefix → Route → Bool
unfolding has_prefix
is_stale wg_index local_cidrs r =
    if is_default r
    then not (r.link_index == wg_index)
    else (r.protocol == route_protocol) && not (has_prefix local_cidrs r.dst)

abbrev pub or_route : Option Route → Option Route → Option Route
or_route none o = o
or_route (some r) o = some r

-- the route whose gateway planRoutes takes
unfoldable pub gateway_route : List Route → ℕ → Option Route
unfolding leaves_pod installed_via
gateway_route have wg_index = or_route (find? (leaves_pod wg_index) have) (find? installed_via have)

-- planRoutes: `none` is its error
unfoldable pub plan_routes : List Route → ℕ → List Prefix → Option RoutePlan
unfolding gateway_route is_stale
plan_routes have wg_index local_cidrs = elim (gateway_route have wg_index) [
  | none ↦ none
  | some r ↦ some (record {
    gw = r.gw;
    gw_link = r.link_index;
    locals = local_cidrs;
    stale = filter (is_stale wg_index local_cidrs) have;
  })
]
