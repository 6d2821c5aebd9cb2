-- ===== src/Sidecar/RouteTable.antt =====
-- internal/sidecar/routes_linux.go: the pod's main route tables. Of the kernel's errors the code tells
-- apart ESRCH, a route that is already gone (`not_found`), and EOPNOTSUPP or EAFNOSUPPORT, no IPv6
-- stack (`invalid_object`). The errors' texts are left out.
pub mod Kernel
pub mod Calls
pub mod Stable
use wireguard_operator.Prelude.{
  ℕ, Bool, true, false, not, ◌&&◌, ◌||◌, List, [], ◌∷◌, map, Option, none, some, ◌==◌,
  if◌then◌else◌,
}
use wireguard_operator.Netip.Addr.{Addr, invalid, v4, Prefix, zero_prefix, prefix_from}
use wireguard_operator.Api.Exec.{
  ApiError, not_found, conflict, already_exists, invalid_object, other_error, Result, ok, err, Exec,
  pure, fail, attempt, ◌>>=◌, ◌>>◌,
}
use wireguard_operator.Sidecar.Tunnel.Device.{unmap}
use wireguard_operator.Sidecar.Routes.{Route, RoutePlan, plan_routes, route_protocol}

-- A netlink.Route as it is listed: a nil Dst is `none`, and its IP is `none` if it is no address.
pub record NetRoute : Type 0 where
  pub dst : Option (Option Addr × ℕ)
  pub gw : Option Addr
  pub link_index : ℕ
  pub priority : ℕ
  pub protocol : ℕ
  pub scope : ℕ

-- What the code reads of a listed IPv6 route: whether its Dst or its Gw is an IPv4 address, and the
-- length of its Dst, `none` for a nil one.
pub record NetRoute6 : Type 0 where
  pub dst_is4 : Bool
  pub gw_is4 : Bool
  pub dst_ones : Option ℕ
  pub gw : Option Addr
  pub link_index : ℕ
  pub priority : ℕ
  pub scope : ℕ

-- A route to put into the main table.
pub record NewRoute : Type 0 where
  pub dst : Prefix
  pub gw : Option Addr
  pub link_index : ℕ
  pub link_scope : Bool
  pub protocol : ℕ

pub record RouteTable (W : Type 0) : Type 0 where
  pub list_routes : Exec W (List NetRoute)
  pub list_routes6 : Exec W (List NetRoute6)
  pub route_replace : NewRoute → Exec W Unit
  pub route_del : Route → Exec W Unit
  pub route_del6 : NetRoute6 → Exec W Unit

abbrev destination : Option (Option Addr × ℕ) → Prefix
destination none = prefix_from (v4 0) 0
destination (some (none, ones)) = zero_prefix
destination (some (some a, ones)) = prefix_from (unmap a) ones

abbrev pub gateway_of : Option Addr → Addr
gateway_of none = invalid
gateway_of (some a) = unmap a

-- toRoute
unfoldable pub to_route : NetRoute → Route
to_route r = record {
  dst = destination r.dst;
  gw = gateway_of r.gw;
  link_index = r.link_index;
  priority = r.priority;
  protocol = r.protocol;
  scope = r.scope;
}

-- noIPv6Stack
unfoldable pub no_ipv6_stack : ApiError → Bool
no_ipv6_stack invalid_object = true
no_ipv6_stack not_found = false
no_ipv6_stack conflict = false
no_ipv6_stack already_exists = false
no_ipv6_stack (other_error s) = false

unfoldable pub is_gone : ApiError → Bool
is_gone not_found = true
is_gone conflict = false
is_gone already_exists = false
is_gone invalid_object = false
is_gone (other_error s) = false

unfoldable pub is_default6 : NetRoute6 → Bool
is_default6 r =
    not (r.dst_is4 || r.gw_is4) && elim r.dst_ones [ none ↦ true | some ones ↦ ones == 0 ]

module _ {W : Type 0} (k : RouteTable W) where
  abbrev pub gone_ignored : Result Unit → Exec W Unit
  gone_ignored (ok u) = pure tt
  gone_ignored (err e) = if is_gone e then pure tt else fail e

  abbrev pub gone6_ignored : Result Unit → Exec W Unit
  gone6_ignored (ok u) = pure tt
  gone6_ignored (err e) = if is_gone e || no_ipv6_stack e then pure tt else fail e

  -- deleteStale
  unfoldable pub delete_stale : List Route → Exec W Unit
  unfolding ◌>>=◌
  delete_stale [] = pure tt
  delete_stale (r ∷ rs) = do res ← attempt (k.route_del r); gone_ignored res; delete_stale rs

  unfoldable pub delete_each6 : List NetRoute6 → Exec W Unit
  unfolding ◌>>=◌
  delete_each6 [] = pure tt
  delete_each6 (r ∷ rs) =
      if is_default6 r
      then (do res ← attempt (k.route_del6 r); gone6_ignored res; delete_each6 rs)
      else delete_each6 rs

  abbrev pub listed6 : Result (List NetRoute6) → Exec W Unit
  unfolding delete_each6
  listed6 (ok rs) = delete_each6 rs
  listed6 (err e) = if no_ipv6_stack e then pure tt else fail e

  -- deleteIPv6Defaults
  unfoldable pub delete_ipv6_defaults : Exec W Unit
  unfolding ◌>>=◌ listed6
  delete_ipv6_defaults = do r ← attempt k.list_routes6; listed6 r

  -- the loop of ensureRoutes over the localCIDRs
  unfoldable pub replace_locals : Addr → ℕ → List Prefix → Exec W Unit
  unfolding ◌>>=◌
  replace_locals gw gw_link [] = pure tt
  replace_locals gw gw_link (p ∷ ps) = do
    k.route_replace (record {
      dst = p;
      gw = some gw;
      link_index = gw_link;
      link_scope = false;
      protocol = route_protocol;
    })
    replace_locals gw gw_link ps

  abbrev pub planned : Option RoutePlan → Exec W RoutePlan
  planned none = fail (other_error [])
  planned (some plan) = pure plan

  -- ensureRoutes
  unfoldable pub ensure_routes : ℕ → List Prefix → Exec W Unit
  unfolding ◌>>=◌
  ensure_routes wg_index local_cidrs = do
    listed ← k.list_routes
    plan ← planned (plan_routes (map to_route listed) wg_index local_cidrs)
    replace_locals plan.gw plan.gw_link plan.locals
    k.route_replace (record {
      dst = prefix_from (v4 0) 0;
      gw = none;
      link_index = wg_index;
      link_scope = true;
      protocol = route_protocol;
    })
    delete_stale plan.stale
    delete_ipv6_defaults
