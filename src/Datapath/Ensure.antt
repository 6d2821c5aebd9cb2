-- ===== src/Datapath/Ensure.antt =====
-- Ensure of internal/datapath/datapath.go without its locks, with ensureRouting and ensureRule of
-- routing_linux.go. The errors' texts are left out: what fails is an error.
use wireguard_operator.Prelude.{
  ℕ, Str, Bool, true, false, List, [], ◌∷◌, Option, none, some, if◌then◌else◌,
}
use wireguard_operator.Netip.Addr.{v4, Prefix, masked}
use wireguard_operator.Netip.Parse.{parse_prefix}
use wireguard_operator.Api.Exec.{Result, ok, err, Exec, other_error, pure, ◌>>=◌, ◌>>◌}
use wireguard_operator.Datapath.{
  wg_interface, Runner, ensure_iptables, IpRule, rule_changes, desired_rules,
}

-- netlink.Route, as ensureRouting fills it; no link is 0
pub record TableRoute : Type 0 where
  pub link_index : ℕ
  pub dst : Prefix
  pub table : ℕ
  pub link_scope : Bool
  pub blackhole : Bool

-- The calls of netlink and the iptables command.
pub record Kernel (W : Type 0) : Type 0 where
  pub link_index : Str → Exec W ℕ
  pub route_replace : TableRoute → Exec W Unit
  pub rule_list : Exec W (List IpRule)
  pub rule_del : IpRule → Exec W Unit
  pub rule_add : IpRule → Exec W Unit
  pub iptables : Runner W

-- PeerTable and BlackholeTable
abbrev pub peer_table : ℕ
peer_table = 51821

abbrev pub blackhole_table : ℕ
blackhole_table = 51822

module _ {W : Type 0} (k : Kernel W) where
  unfoldable pub delete_rules : List IpRule → Exec W Unit
  unfolding ◌>>=◌
  delete_rules [] = pure tt
  delete_rules (r ∷ rs) = do k.rule_del r; delete_rules rs

  -- ensureRule
  unfoldable pub ensure_rule : IpRule → Exec W Unit
  unfolding ◌>>=◌
  ensure_rule want = do
    have ← k.rule_list
    let (remove, add) = rule_changes have want
    delete_rules remove
    if add then k.rule_add want else pure tt

  unfoldable pub ensure_all_rules : List IpRule → Exec W Unit
  unfolding ◌>>=◌
  ensure_all_rules [] = pure tt
  ensure_all_rules (r ∷ rs) = do ensure_rule r; ensure_all_rules rs

  -- ensureRouting
  unfoldable pub ensure_routing : Prefix → Exec W Unit
  unfolding ◌>>=◌ wg_interface desired_rules
  ensure_routing p = do
    wg ← k.link_index wg_interface
    k.route_replace (record {
      link_index = wg;
      dst = p;
      table = peer_table;
      link_scope = true;
      blackhole = false;
    })
    k.route_replace (record {
      link_index = 0;
      dst = record { addr = v4 0; bits_plus_one = 1 };
      table = blackhole_table;
      link_scope = false;
      blackhole = true;
    })
    ensure_all_rules (desired_rules p)

  abbrev both : Result Unit → Bool × W → Result Unit × W
  both (ok u) (true, w) = (ok tt, w)
  both (ok u) (false, w) = (err (other_error []), w)
  both (err e) (_, w) = (err e, w)

  abbrev assert_parsed : Option Prefix → Exec W Unit
  assert_parsed none w = (err (other_error []), w)
  assert_parsed (some p) w =
      let (r, w') = ensure_routing (masked p) w in both r (ensure_iptables k.iptables (masked p) w')

  -- what Ensure does between its locks: both passes run, whichever fails
  unfoldable pub assert : Str → Exec W Unit
  unfolding ensure_routing
  assert peer_cidr = assert_parsed (parse_prefix peer_cidr)
