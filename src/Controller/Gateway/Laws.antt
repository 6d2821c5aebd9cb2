-- ===== src/Controller/Gateway/Laws.antt =====
-- What an accepted Wireguard spec guarantees.
use wireguard_operator.Prelude.{
  ℕ, suc, ◌≤◌, All, Str, true, false, List, [], ◌∷◌, inl, inr, Option, none, some, ◌≡◌, refl, subst,
  arith, Bool-cases,
}
use mathlib.Core.Option
use wireguard_operator.Api.Types.{Wireguard, EnvVar}
use wireguard_operator.Api.Exec.{ok}
use wireguard_operator.Api.Client.{Client}
use wireguard_operator.Netip.Addr.{v4, is4, Prefix, prefix_eq, bits, masked, contains_ip, overlaps}
use wireguard_operator.Netip.Parse.{parse_addr, parse_prefix}
use wireguard_operator.Netip.ParseLaws.{IsPrefix4, parse_prefix-IsPrefix4}
use wireguard_operator.Netip.Laws.{prefix4, overlaps-contains_ip}
use wireguard_operator.Controller.Reconcile.{effective_peer_cidr4}
use wireguard_operator.Resources.{probe_addr}
use wireguard_operator.Controller.Gateway.{
  CidrProblem, SpecProblem, local_rule, peer_rule, validate_peer_cidr, validate_local_cidrs,
  or_zero, peer_cidr_overlap, probe_in_local_cidrs, probe_in_peer_cidr, in_local_cidrs,
  cluster_ip_outside, or_else, or_run, static_problem, spec_problem, is_reserved_gluetun_env,
  reserved_in_env,
}

-- A network of the cluster that the gateway may keep off the tunnel: a canonical IPv4 prefix that
-- holds no address of the peers' prefix, nor the address of the readiness probe.
pub record Apart (peer : Prefix) (cidr : Str) : Type 0 where
  pub network : Prefix
  pub parsed : parse_prefix cidr ≡ some network
  pub is_v4 : is4 network.addr ≡ true
  pub canonical : prefix_eq network (masked network) ≡ true
  pub no_peer : (n : ℕ) → contains_ip peer (v4 n) ≡ true → contains_ip network (v4 n) ≡ false
  pub no_probe : contains_ip network probe_addr ≡ false

-- A spec that the operator renders.
pub record Renderable (wg : Wireguard) : Type 0 where
  pub pool : Prefix
  pub parsed : parse_prefix (effective_peer_cidr4 wg) ≡ some pool
  pub is_v4 : is4 pool.addr ≡ true
  pub canonical : prefix_eq pool (masked pool) ≡ true
  pub room : bits pool ≤ 30
  pub no_probe : contains_ip pool probe_addr ≡ false
  pub apart : All (Apart pool) wg.spec.local_cidrs
  pub free_env : All (λ e. is_reserved_gluetun_env e.name ≡ false) wg.spec.gluetun.env

peer_rule-none :
    (o : Option Prefix)
    → peer_rule o ≡ none
    → (p : Prefix) × (o ≡ some p)
      × (is4 p.addr ≡ true)
      × (prefix_eq p (masked p) ≡ true)
      × (bits p ≤ 30)
unfolding peer_rule
peer_rule-none none h = absurd (cc)
peer_rule-none (some p) h = (p, refl, ground arith, ground arith, ground arith)

local_rule-none :
    (o : Option Prefix)
    → local_rule o ≡ none
    → (p : Prefix) × (o ≡ some p) × (is4 p.addr ≡ true) × (prefix_eq p (masked p) ≡ true)
unfolding local_rule
local_rule-none none h = absurd (cc)
local_rule-none (some p) h = (p, refl, ground arith, ground arith)

or_else-none : {A : Type 0} (x y : Option A) → or_else x y ≡ none → (x ≡ none) × (y ≡ none)
or_else-none none y h = (refl, h)
or_else-none (some a) y h = absurd (cc)

map-none : {A B : Type 0} (f : A → B) (o : Option A) → Option.map f o ≡ none → o ≡ none
unfolding Option.map
map-none f none h = refl
map-none f (some a) h = absurd (cc)

on_local :
    (o : Option CidrProblem) (i : ℕ) (rest : Option SpecProblem)
    → elim o [ some p ↦ some (SpecProblem.invalid_local_cidrs i p) | none ↦ rest ] ≡ none
    → (o ≡ none) × (rest ≡ none)
on_local none i rest h = (refl, h)
on_local (some p) i rest h = absurd (cc)

separate :
    (p q : Prefix) (n : ℕ)
    → IsPrefix4 p
    → IsPrefix4 q
    → overlaps p q ≡ false
    → contains_ip p (v4 n) ≡ true
    → contains_ip q (v4 n) ≡ false
separate p q n (a, b, e, _, short) (c, d, f, _, small) apart inside =
    let here : contains_ip (prefix4 a b) (v4 n) ≡ true =
      subst (λ x. contains_ip x (v4 n) ≡ true) e inside in
    let far : overlaps (prefix4 a b) (prefix4 c d) ≡ false =
      subst (λ x. overlaps (prefix4 a b) x ≡ false) f (subst (λ x. overlaps x q ≡ false) e apart) in
    rw f (overlaps-contains_ip a b c d n short small far here)

module _ (cidr : Str) (pool : Prefix) (parsed : parse_prefix cidr ≡ some pool)
    (family : is4 pool.addr ≡ true) where
  local_cidrs-Apart :
      (i j k : ℕ) (cs : List Str)
      → validate_local_cidrs i cs ≡ none
      → peer_cidr_overlap cidr j cs ≡ none
      → probe_in_local_cidrs k cs ≡ none
      → All (Apart pool) cs
  unfolding validate_local_cidrs peer_cidr_overlap probe_in_local_cidrs
  local_cidrs-Apart i j k [] valid clear hidden = tt
  local_cidrs-Apart i j k (c ∷ cs) valid clear hidden =
      let (fine, later) =
        on_local (local_rule (parse_prefix c)) i (validate_local_cidrs (suc i) cs) valid in
      let (q, e, v, canon) = local_rule-none (parse_prefix c) fine in
      let far : overlaps (or_zero (parse_prefix cidr)) (or_zero (parse_prefix c)) ≡ false =
        ground arith in
      let unseen : contains_ip (or_zero (parse_prefix c)) probe_addr ≡ false = ground arith in
      (
        record {
          network = q;
          parsed = e;
          is_v4 = v;
          canonical = canon;
          no_peer = λ n.
              separate pool q n (parse_prefix-IsPrefix4 cidr pool parsed family)
                (parse_prefix-IsPrefix4 c q e v) (rw (parsed, e) at far);
          no_probe = rw e at unseen;
        },
        local_cidrs-Apart (suc i) (suc j) (suc k) cs later (ground arith) (ground arith),
      )

reserved_in_env-none :
    (es : List EnvVar)
    → reserved_in_env es ≡ none
    → All (λ e. is_reserved_gluetun_env e.name ≡ false) es
unfolding reserved_in_env
reserved_in_env-none [] h = tt
reserved_in_env-none (e ∷ es) h = (ground arith, reserved_in_env-none es (ground arith))

probe_in_peer_cidr-none :
    (cidr : Str) (p : Prefix)
    → parse_prefix cidr ≡ some p
    → probe_in_peer_cidr cidr ≡ none
    → contains_ip p probe_addr ≡ false
unfolding probe_in_peer_cidr
probe_in_peer_cidr-none cidr p e h =
    let unseen : contains_ip (or_zero (parse_prefix cidr)) probe_addr ≡ false = ground arith in
    rw e at unseen

static_problem-Renderable : (wg : Wireguard) → static_problem wg ≡ none → Renderable wg
unfolding static_problem validate_peer_cidr
static_problem-Renderable wg h =
    let (peer_ok, h1) = or_else-none _ _ h in
    let (probe_ok, h2) = or_else-none _ _ h1 in
    let (local_ok, h3) = or_else-none _ _ h2 in
    let (apart_ok, h4) = or_else-none _ _ h3 in
    let (hidden_ok, h5) = or_else-none _ _ h4 in
    let (p, e, v, canon, short) = peer_rule-none _ (map-none _ _ peer_ok) in
    record {
      pool = p;
      parsed = e;
      is_v4 = v;
      canonical = canon;
      room = short;
      no_probe = probe_in_peer_cidr-none _ p e probe_ok;
      apart = local_cidrs-Apart _ p e v 0 0 0 wg.spec.local_cidrs local_ok apart_ok hidden_ok;
      free_env = reserved_in_env-none wg.spec.gluetun.env (map-none _ _ h5);
    }

module _ {W : Type 0} (c : Client W) where
  or_run-none :
      (o : Option SpecProblem) (rest : W → _) (w : W) → (or_run c o rest w).0 ≡ ok none → o ≡ none
  or_run-none none rest w h = refl
  or_run-none (some p) rest w h = absurd (cc)

  -- When specProblem finds nothing, the effective peerCIDR is a canonical IPv4 prefix of /30 or
  -- shorter without the probe address; each localCIDRs entry is a canonical IPv4 prefix that holds
  -- neither the probe address nor any address of peerCIDR; and no entry of spec.gluetun.env is
  -- reserved.
  pub spec_problem-Renderable :
      (wg : Wireguard) (w : W) → (spec_problem c wg w).0 ≡ ok none → Renderable wg
  unfolding spec_problem
  spec_problem-Renderable wg w h =
      static_problem-Renderable wg (or_run-none (static_problem wg) _ w h)

in_local_cidrs-Apart :
    (pool : Prefix) (n : ℕ) (cs : List Str)
    → contains_ip pool (v4 n) ≡ true
    → All (Apart pool) cs
    → in_local_cidrs cs (v4 n) ≡ false
unfolding in_local_cidrs
in_local_cidrs-Apart pool n [] inside h = refl
in_local_cidrs-Apart pool n (c ∷ cs) inside (a, h) =
    rw (a.parsed, a.no_peer n inside, in_local_cidrs-Apart pool n cs inside h) refl

-- In a spec that the operator renders, a ClusterIP that clusterIPOutside accepts is no address of
-- the peers' prefix.
pub cluster_ip_outside_lem :
    (wg : Wireguard) (s : Renderable wg) (ip : Str) (n : ℕ)
    → parse_addr ip ≡ some (v4 n)
    → cluster_ip_outside ip wg.spec.local_cidrs ≡ false
    → contains_ip s.pool (v4 n) ≡ false
unfolding cluster_ip_outside
cluster_ip_outside_lem wg s ip n e h = elim (Bool-cases (contains_ip s.pool (v4 n))) [
  | inr out ↦ out
  | inl inside ↦ cc (
    rw (e, cluster_ip_outside) at h,
    in_local_cidrs-Apart s.pool n wg.spec.local_cidrs inside s.apart,
  )
]
