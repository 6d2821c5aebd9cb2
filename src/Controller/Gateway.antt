-- ===== src/Controller/Gateway.antt =====
-- internal/controller/gateway.go, with validatePeerCIDR of internal/controller/peers.go and
-- specProblem of internal/controller/wireguard_controller.go: which Wireguard specs the operator
-- renders. The texts of the messages are left out; a problem keeps what its message names.
pub mod Laws
pub mod Rendered
use wireguard_operator.Prelude.{
  ℕ, zero, suc, ◌+◌, ◌-◌, ◌*◌, ◌/◌, ◌%◌, ◌^◌, ◌≤◌, ◌<◌, compare, Ordering, String, length,
  get_elem?, filter, any, find?, In, In-append_left, In-append_right, All, All-In, All-of_In,
  All-append, All-map, Str, str_eq→≡, str_eq_refl, str_eq_iff, is_empty→≡, is_empty_nil, text,
  str_eq, is_empty, str_compare, cut, has_byte, join, contains, contains→In, In→contains,
  contains-false, Bool, true, false, not, ◌&&◌, ◌||◌, List, [], ◌∷◌, ◌++◌, map, ◌≢◌, ◌↔◌, ◌⊎◌, inl,
  inr, Option, none, some, ◌≡◌, refl, sym, ap, ◌∙◌, subst, arith, ltb, leb, ◌==◌, if◌then◌else◌,
  Bool-cases, ==→≡, ==_refl, ltb→lt, ltb→le,
}
use mathlib.Core.Option
use wireguard_operator.Prelude.Sort.{sort}
use wireguard_operator.Api.Types.{Wireguard, NamespacedName, EnvVar, EnvFromSource}
use wireguard_operator.Api.Exec.{
  ApiError, not_found, conflict, already_exists, invalid_object, other_error, Result, ok, err, Exec,
  pure, fail, attempt, ◌>>=◌,
}
use wireguard_operator.Api.Client.{Client, Secret}
use wireguard_operator.Netip.Addr.{
  Addr, v4, is4, Prefix, prefix_eq, bits, zero_prefix, masked, contains_ip, overlaps,
}
use wireguard_operator.Netip.Parse.{parse_addr, parse_prefix}
use wireguard_operator.Resources.{probe_addr, reserved_gluetun_env}
use wireguard_operator.Controller.Reconcile.{effective_peer_cidr4}

-- What is wrong with a prefix.
pub data CidrProblem : Type 0 where
  not_cidr not_ipv4 host_bits too_long : CidrProblem

-- A Degraded reason of specProblem, with what its message names.
pub data SpecProblem : Type 0 where
  invalid_peer_cidr : CidrProblem → SpecProblem
  probe_address_in_peer_cidr : SpecProblem
  invalid_local_cidrs : ℕ → CidrProblem → SpecProblem
  peer_cidr_overlaps_local_cidrs probe_address_in_local_cidrs : ℕ → SpecProblem
  reserved_env : Str → SpecProblem
  reserved_gluetun_secret : Str → ℕ → Str → SpecProblem

-- The reasons' names.
unfoldable pub reason : SpecProblem → Str
unfolding text
reason (invalid_peer_cidr p) = text "InvalidPeerCIDR"
reason probe_address_in_peer_cidr = text "ProbeAddressInPeerCIDR"
reason (invalid_local_cidrs i p) = text "InvalidLocalCIDRs"
reason (peer_cidr_overlaps_local_cidrs i) = text "PeerCIDROverlapsLocalCIDRs"
reason (probe_address_in_local_cidrs i) = text "ProbeAddressInLocalCIDRs"
reason (reserved_env name) = text "ReservedGluetunEnv"
reason (reserved_gluetun_secret secret i name) = text "ReservedGluetunEnv"

unfoldable pub local_rule : Option Prefix → Option CidrProblem
local_rule none = some not_cidr
local_rule (some p) =
    if not (is4 p.addr)
    then some not_ipv4
    else if not (prefix_eq p (masked p))
    then some host_bits
    else none

unfoldable pub peer_rule : Option Prefix → Option CidrProblem
peer_rule none = some not_cidr
peer_rule (some p) =
    if not (is4 p.addr)
    then some not_ipv4
    else if not (prefix_eq p (masked p))
    then some host_bits
    else if ltb 30 (bits p)
    then some too_long
    else none

-- validatePeerCIDR
unfoldable pub validate_peer_cidr : Str → Option CidrProblem
unfolding peer_rule
validate_peer_cidr cidr = peer_rule (parse_prefix cidr)

-- validateLocalCIDRs, from index i
unfoldable pub validate_local_cidrs : ℕ → List Str → Option SpecProblem
unfolding local_rule
validate_local_cidrs i [] = none
validate_local_cidrs i (c ∷ cs) =
    let rest = validate_local_cidrs (suc i) cs in
    elim (local_rule (parse_prefix c)) [ some p ↦ some (invalid_local_cidrs i p) | none ↦ rest ]

-- the value of `p, _ := netip.ParsePrefix(…)`
abbrev pub or_zero : Option Prefix → Prefix
or_zero none = zero_prefix
or_zero (some p) = p

-- peerCIDROverlap, from index i
unfoldable pub peer_cidr_overlap : Str → ℕ → List Str → Option SpecProblem
peer_cidr_overlap peer_cidr i [] = none
peer_cidr_overlap peer_cidr i (c ∷ cs) =
    let rest = peer_cidr_overlap peer_cidr (suc i) cs in
    if overlaps (or_zero (parse_prefix peer_cidr)) (or_zero (parse_prefix c))
    then some (peer_cidr_overlaps_local_cidrs i)
    else rest

-- probeAddressInLocalCIDRs, from index i
unfoldable pub probe_in_local_cidrs : ℕ → List Str → Option SpecProblem
probe_in_local_cidrs i [] = none
probe_in_local_cidrs i (c ∷ cs) =
    let rest = probe_in_local_cidrs (suc i) cs in
    if contains_ip (or_zero (parse_prefix c)) probe_addr
    then some (probe_address_in_local_cidrs i)
    else rest

-- probeAddressInPeerCIDR
unfoldable pub probe_in_peer_cidr : Str → Option SpecProblem
probe_in_peer_cidr cidr =
    if contains_ip (or_zero (parse_prefix cidr)) probe_addr
    then some probe_address_in_peer_cidr
    else none

abbrev pub holds_ip : Option Prefix → Addr → Bool
holds_ip none ip = false
holds_ip (some p) ip = contains_ip p ip

unfoldable pub in_local_cidrs : List Str → Addr → Bool
in_local_cidrs [] ip = false
in_local_cidrs (c ∷ cs) ip = holds_ip (parse_prefix c) ip || in_local_cidrs cs ip

-- clusterIPOutside: true is an error
unfoldable pub cluster_ip_outside : Str → List Str → Bool
cluster_ip_outside cluster_ip local_cidrs = elim (parse_addr cluster_ip) [
  | none ↦ true
  | some ip ↦ not (in_local_cidrs local_cidrs ip)
]

abbrev env_name : EnvVar → Str
env_name e = e.name

-- the names of resources.ReservedGluetunEnv
unfoldable pub reserved_names : List Str
unfolding reserved_gluetun_env
reserved_names = map env_name (reserved_gluetun_env [])

-- isReservedGluetunEnv
unfoldable pub is_reserved_gluetun_env : Str → Bool
unfolding reserved_names
is_reserved_gluetun_env name = contains reserved_names name

-- reservedInEnv: `none` is ""
unfoldable pub reserved_in_env : List EnvVar → Option Str
reserved_in_env [] = none
reserved_in_env (e ∷ es) =
    let rest = reserved_in_env es in if is_reserved_gluetun_env e.name then some e.name else rest

abbrev pub text_before : Str → Str → Bool
text_before s t = elim (str_compare s t) [
  | Ordering.lt ↦ true
  | Ordering.eq ↦ false
  | Ordering.gt ↦ false
]

unfoldable pub first_reserved : Str → List Str → Option Str
first_reserved prefix [] = none
first_reserved prefix (k ∷ ks) =
    let rest = first_reserved prefix ks in
    if is_reserved_gluetun_env (prefix ++ k) then some (prefix ++ k) else rest

-- reservedInKeys
unfoldable pub reserved_in_keys : Str → List Str → Option Str
unfolding first_reserved
reserved_in_keys prefix keys = first_reserved prefix (sort text_before keys)

abbrev pub or_else : {A : Type 0} → Option A → Option A → Option A
or_else none rest = rest
or_else (some a) rest = some a

-- the part of specProblem that reads only the spec
unfoldable pub static_problem : Wireguard → Option SpecProblem
static_problem wg =
    or_else (Option.map invalid_peer_cidr (validate_peer_cidr (effective_peer_cidr4 wg))) (
      or_else (probe_in_peer_cidr (effective_peer_cidr4 wg)) (
        or_else (validate_local_cidrs 0 wg.spec.local_cidrs) (
          or_else (peer_cidr_overlap (effective_peer_cidr4 wg) 0 wg.spec.local_cidrs) (
            or_else (probe_in_local_cidrs 0 wg.spec.local_cidrs)
              (Option.map reserved_env (reserved_in_env wg.spec.gluetun.env))))))

abbrev entry_keys : List (Str × Str) → List Str
entry_keys [] = []
entry_keys ((k, v) ∷ es) = k ∷ entry_keys es

module _ {W : Type 0} (c : Client W) where
  abbrev reserved_then :
      Str → ℕ → Exec W (Option SpecProblem) → Option Str → Exec W (Option SpecProblem)
  reserved_then secret i rest none = rest
  reserved_then secret i rest (some name) = pure (some (reserved_gluetun_secret secret i name))

  -- an absent Secret is skipped, any other failure is returned
  abbrev secret_read :
      EnvFromSource
      → Str
      → ℕ
      → Exec W (Option SpecProblem)
      → Result Secret
      → Exec W (Option SpecProblem)
  secret_read src name i rest (ok s) =
      reserved_then name i rest (reserved_in_keys src.prefix (entry_keys s.entries))
  secret_read src name i rest (err not_found) = rest
  secret_read src name i rest (err conflict) = fail conflict
  secret_read src name i rest (err already_exists) = fail already_exists
  secret_read src name i rest (err invalid_object) = fail invalid_object
  secret_read src name i rest (err (other_error s)) = fail (other_error s)

  abbrev source_problem :
      EnvFromSource
      → Str
      → ℕ
      → Exec W (Option SpecProblem)
      → Option Str
      → Exec W (Option SpecProblem)
  source_problem src ns i rest none = rest
  source_problem src ns i rest (some name) = do
    r ← attempt (c.get_secret (record { namespace = ns; name = name }))
    secret_read src name i rest r

  -- the loop of specProblem over spec.gluetun.envFrom, from index i
  unfoldable pub env_from_problem : Str → ℕ → List EnvFromSource → Exec W (Option SpecProblem)
  unfolding ◌>>=◌
  env_from_problem ns i [] = pure none
  env_from_problem ns i (src ∷ ss) =
      source_problem src ns i (env_from_problem ns (suc i) ss) src.secret_ref

  abbrev pub or_run : Option SpecProblem → Exec W (Option SpecProblem) → Exec W (Option SpecProblem)
  or_run none rest = rest
  or_run (some p) rest = pure (some p)

  -- specProblem
  unfoldable pub spec_problem : Wireguard → Exec W (Option SpecProblem)
  unfolding static_problem env_from_problem
  spec_problem wg =
      or_run (static_problem wg) (env_from_problem wg.namespace 0 wg.spec.gluetun.env_from)
