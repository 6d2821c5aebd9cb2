-- ===== src/Datapath.antt =====
-- internal/datapath: the server pod's forwarding rules (datapath.go), its ip rules (routing_linux.go)
-- and the readiness probe of the peers' path (peerpath.go).
pub mod Laws
pub mod Routing
pub mod Ensure
pub mod Machine
use wireguard_operator.Prelude.{
  ℕ, zero, suc, ◌+◌, ◌-◌, ◌*◌, ◌/◌, ◌%◌, ◌^◌, ◌≤◌, ◌<◌, compare, Ordering, String, length,
  get_elem?, filter, any, find?, In, In-append_left, In-append_right, All, All-In, All-of_In,
  All-append, All-map, Str, str_eq→≡, str_eq_refl, str_eq_iff, is_empty→≡, is_empty_nil, text,
  str_eq, is_empty, str_compare, cut, has_byte, join, contains, contains→In, In→contains,
  contains-false, Bool, true, false, not, ◌&&◌, ◌||◌, List, [], ◌∷◌, ◌++◌, map, ◌≢◌, ◌↔◌, ◌⊎◌, inl,
  inr, Option, none, some, ◌≡◌, refl, sym, ap, ◌∙◌, subst, arith, ltb, leb, ◌==◌, if◌then◌else◌,
  Bool-cases, ==→≡, ==_refl, ltb→lt, ltb→le,
}
use wireguard_operator.Netip.Addr.{Addr, v4, next, Prefix, masked, contains_ip}
use wireguard_operator.Netip.Parse.{parse_prefix}
use wireguard_operator.Netip.Print.{print_prefix}

-- rule: one iptables rule
pub record Rule : Type 0 where
  pub table : Str
  pub chain : Str
  pub spec : List Str

abbrev texts : List String → List Str
texts [] = []
texts (s ∷ ss) = text s ∷ texts ss

-- resources.WgInterface, resources.EgressInterface
unfoldable pub wg_interface : Str
unfolding text
wg_interface = text "wg0"

unfoldable pub egress_interface : Str
unfolding text
egress_interface = text "tun0"

-- rules
unfoldable pub rules : Prefix → List Rule
unfolding text wg_interface egress_interface
rules peer_cidr =
    let cidr : Str = print_prefix peer_cidr in
    record {
      table = text "filter";
      chain = text "FORWARD";
      spec =
          text "-i"
          ∷ wg_interface
          ∷ text "-o"
          ∷ egress_interface
          ∷ text "-s"
          ∷ cidr
          ∷ text "-j"
          ∷ text "ACCEPT"
          ∷ [];
    }
    ∷ record {
      table = text "filter";
      chain = text "FORWARD";
      spec =
          text "-i"
          ∷ egress_interface
          ∷ text "-o"
          ∷ wg_interface
          ∷ text "-m"
          ∷ text "conntrack"
          ∷ text "--ctstate"
          ∷ text "ESTABLISHED,RELATED"
          ∷ text "-j"
          ∷ text "ACCEPT"
          ∷ [];
    }
    ∷ record {
      table = text "mangle";
      chain = text "FORWARD";
      spec =
          text "-o"
          ∷ egress_interface
          ∷ text "-p"
          ∷ text "tcp"
          ∷ text "--tcp-flags"
          ∷ text "SYN,RST"
          ∷ text "SYN"
          ∷ text "-j"
          ∷ text "TCPMSS"
          ∷ text "--clamp-mss-to-pmtu"
          ∷ [];
    }
    ∷ record {
      table = text "nat";
      chain = text "POSTROUTING";
      spec = text "-s" ∷ cidr ∷ text "-o" ∷ egress_interface ∷ text "-j" ∷ text "MASQUERADE" ∷ [];
    }
    ∷ []

-- iptablesArgs
unfoldable pub iptables_args : Rule → Str → List Str
unfolding text
iptables_args r op = text "-w" ∷ text "5" ∷ text "-t" ∷ r.table ∷ op ∷ r.chain ∷ r.spec

unfoldable pub check_op : Str
unfolding text
check_op = text "-C"

unfoldable pub append_op : Str
unfolding text
append_op = text "-A"

unfoldable pub drop_args : List Str
unfolding text
drop_args = text "-w" ∷ text "5" ∷ text "-P" ∷ text "FORWARD" ∷ text "DROP" ∷ []

-- The iptables binary over the kernel's tables `W`: true is a nil error.
abbrev pub Runner : Type 0 → Type 0
Runner W = List Str → W → Bool × W

module _ {W : Type 0} (run : Runner W) where
  abbrev pub appended : Bool × W → (W → Bool × W) → Bool × W
  appended (true, w) k = k w
  appended (false, w) k = (false, w)

  abbrev pub checked : Rule → Bool × W → (W → Bool × W) → Bool × W
  checked r (true, w) k = k w
  checked r (false, w) k = appended (run (iptables_args r append_op) w) k

  -- the loop of ensureIptables
  unfoldable pub ensure_rules : List Rule → W → Bool × W
  ensure_rules [] w = (true, w)
  ensure_rules (r ∷ rs) w = checked r (run (iptables_args r check_op) w) (λ w'. ensure_rules rs w')

  -- ensureIptables
  unfoldable pub ensure_iptables : Prefix → W → Bool × W
  unfolding ensure_rules rules
  ensure_iptables p w = appended (run drop_args w) (λ w'. ensure_rules (rules p) w')

-- What ruleMatches reads of a netlink.Rule; a nil Dst is `none`.
pub record IpRule : Type 0 where
  pub priority : ℕ
  pub table : ℕ
  pub dst : Option Str
  pub iif_name : Str

abbrev pub dst_string : Option Str → Str
dst_string none = []
dst_string (some s) = s

-- ruleMatches
unfoldable pub rule_matches : IpRule → IpRule → Bool
rule_matches have want =
    (have.priority == want.priority)
    && (have.table == want.table)
    && str_eq (dst_string have.dst) (dst_string want.dst)
    && str_eq have.iif_name want.iif_name

unfoldable pub superseded : List IpRule → IpRule → List IpRule
superseded [] want = []
superseded (r ∷ rs) want =
    let rest = superseded rs want in
    if not (r.priority == want.priority)
    then rest
    else if rule_matches r want
    then rest
    else r ∷ rest

unfoldable pub any_matches : List IpRule → IpRule → Bool
any_matches [] want = false
any_matches (r ∷ rs) want =
    (r.priority == want.priority && rule_matches r want) || any_matches rs want

-- ensureRule, when no call fails: the rules it deletes, and whether it adds `want`
unfoldable pub rule_changes : List IpRule → IpRule → List IpRule × Bool
unfolding superseded any_matches
rule_changes have want = (superseded have want, not (any_matches have want))

-- desiredRules: the peers' rule and the blackhole rule
unfoldable pub desired_rules : Prefix → List IpRule
unfolding wg_interface
desired_rules p =
    record { priority = 90; table = 51821; dst = some (print_prefix p); iif_name = [] }
    ∷ record { priority = 102; table = 51822; dst = none; iif_name = wg_interface }
    ∷ []

-- peerProbeSource: the second host
unfoldable pub peer_probe_source : Prefix → Option Addr
peer_probe_source p =
    let src = next (next (masked p).addr) in if not (contains_ip p src) then none else some src

-- The kernel's answer to a route lookup.
pub data Lookup : Type 0 where
  device : Str → Lookup
  einval lookup_failed : Lookup

pub data PathError : Type 0 where
  blackholed lookup_error : PathError
  routes_via : Str → PathError

-- judgePeerPath: `none` is nil
unfoldable pub judge_peer_path : Lookup → Option PathError
judge_peer_path einval = some blackholed
judge_peer_path lookup_failed = some lookup_error
judge_peer_path (device dev) = if str_eq dev egress_interface then none else some (routes_via dev)
