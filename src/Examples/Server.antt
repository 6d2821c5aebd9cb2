-- ===== src/Examples/Server.antt =====
-- Witnesses of the server's theorems: the device's peers, and the forwarding rules.
use wireguard_operator.Prelude.{
  ℕ, ◌+◌, In, All, Str, str_eq→≡, str_eq_refl, text, str_eq, is_empty, cut, Bool, true, false, ◌&&◌,
  ◌||◌, List, [], ◌∷◌, ◌⊎◌, inl, inr, none, some, ◌≡◌, refl, arith, if◌then◌else◌, Bool-cases,
}
use wireguard_operator.Netip.Addr.{v4, addr_eq, addr_prefix, Prefix, prefix_eq}
use wireguard_operator.Netip.Parse.{parse_addr}
use wireguard_operator.Netip.Print.{print_prefix}
use wireguard_operator.Netip.Laws.{prefix4}
use wireguard_operator.Api.Types.{WireguardPeer}
use wireguard_operator.Wireguard.{
  DevicePeer, PeerConfig, addition, removal, update, allowed_ips_equal, create_peers_configuration,
  device_change, state_change, changes, by_key, has_config, state_of, on_device, get_ip, parse_cidr,
}
use wireguard_operator.Wireguard.Covers.{Covered, create_peers_configuration-Covered}
use wireguard_operator.Wireguard.Causes.{Cause, create_peers_configuration-Cause}
use wireguard_operator.Datapath.{
  Rule, rules, iptables_args, check_op, append_op, drop_args, Runner, ensure_rules, ensure_iptables,
}
use wireguard_operator.Datapath.{IpRule, rule_changes, peer_probe_source}
use wireguard_operator.Netip.Addr.{contains_ip, masked}
use wireguard_operator.Datapath.Routing.{Settled, rule_changes-Settled, peer_probe_source-inside}
use wireguard_operator.Datapath.Laws.{Iptables, ensure_iptables-Present}
use wireguard_operator.Examples.Fixtures.{plain_keys, peer}

on_wire : List DevicePeer
unfolding text prefix4
on_wire =
    record { public_key = text "old"; allowed_ips = [] }
    ∷ record { public_key = text "kb"; allowed_ips = prefix4 0x0a080009 32 ∷ [] }
    ∷ []

in_state : List WireguardPeer
unfolding peer text
in_state =
    peer (text "a") 5 (text "ka") (text "10.8.0.2")
    ∷ peer (text "b") 6 (text "kb") (text "10.8.0.3")
    ∷ []

entries : List PeerConfig
unfolding on_wire text prefix4
entries =
    removal (record { public_key = text "old"; allowed_ips = [] })
    ∷ update (record { public_key = text "kb"; allowed_ips = prefix4 0x0a080009 32 ∷ [] })
        (prefix4 0x0a080003 32 ∷ [])
    ∷ addition (text "ka") (prefix4 0x0a080002 32 ∷ [])
    ∷ []

peers_run : create_peers_configuration plain_keys in_state on_wire ≡ some entries
unfolding create_peers_configuration allowed_ips_equal prefix_eq addr_eq prefix4 device_change
    state_change changes by_key has_config state_of on_device get_ip parse_cidr parse_addr
    addr_prefix in_state on_wire entries peer text cut is_empty str_eq
peers_run = refl

create_peers_configuration-Cause_example : All (Cause plain_keys in_state on_wire) entries
create_peers_configuration-Cause_example =
    create_peers_configuration-Cause plain_keys in_state on_wire entries peers_run

-- A firewall: its rules, and whether its policy is DROP.
Firewall : Type 0
Firewall = List Rule × Bool

same_spec : List Str → List Str → Bool
same_spec [] [] = true
same_spec (s ∷ ss) (t ∷ ts) = str_eq s t && same_spec ss ts
same_spec _ _ = false

same_spec→≡ : (ss ts : List Str) → same_spec ss ts ≡ true → ss ≡ ts
unfolding same_spec
same_spec→≡ [] [] h = refl
same_spec→≡ [] (t ∷ ts) h = absurd (cc)
same_spec→≡ (s ∷ ss) [] h = absurd (cc)
same_spec→≡ (s ∷ ss) (t ∷ ts) h = cc (str_eq→≡ s t (ground arith), same_spec→≡ ss ts (ground arith))

has_rule : List Rule → Rule → Bool
unfolding same_spec
has_rule [] r = false
has_rule (q ∷ qs) r =
    (str_eq q.table r.table && str_eq q.chain r.chain && same_spec q.spec r.spec) || has_rule qs r

has_rule-In : (qs : List Rule) (r : Rule) → has_rule qs r ≡ true → In r qs
unfolding has_rule
has_rule-In [] r h = absurd (cc)
has_rule-In (q ∷ qs) r h =
    elim (Bool-cases
      (str_eq q.table r.table && str_eq q.chain r.chain && same_spec q.spec r.spec)) [
        | inl same ↦ inl (
            cc (
              str_eq→≡ q.table r.table (ground arith),
              str_eq→≡ q.chain r.chain (ground arith),
              same_spec→≡ q.spec r.spec (ground arith),
            ))
        | inr differ ↦ inr (has_rule-In qs r (ground (arith, differ)))
      ]

-- a check looks for its rule, an append puts it first, and the one other command sets the policy
on_rule : Str → Rule → List Rule × Bool → Bool × (List Rule × Bool)
unfolding has_rule
on_rule op r (rs, closed) =
    if str_eq op check_op then (has_rule rs r, (rs, closed)) else (true, (r ∷ rs, closed))

iptables : Runner (List Rule × Bool)
unfolding on_rule
iptables (a ∷ b ∷ c ∷ t ∷ op ∷ chain ∷ spec) w =
    on_rule op (record { table = t; chain = chain; spec = spec }) w
iptables [] w = (true, (w.0, true))
iptables (a ∷ []) w = (true, (w.0, true))
iptables (a ∷ b ∷ []) w = (true, (w.0, true))
iptables (a ∷ b ∷ c ∷ []) w = (true, (w.0, true))
iptables (a ∷ b ∷ c ∷ d ∷ []) w = (true, (w.0, true))
iptables (a ∷ b ∷ c ∷ d ∷ e ∷ []) w = (true, (w.0, true))

keeps_rules :
    (r s : Rule) (op : Str) (w : List Rule × Bool)
    → (op ≡ check_op) ⊎ (op ≡ append_op)
    → In r w.0
    → In r (iptables (iptables_args s op) w).1.0
unfolding iptables on_rule iptables_args
keeps_rules r s op w (inl e) h = rw (e, str_eq_refl check_op) h
keeps_rules r s op w (inr e) h = elim (Bool-cases (str_eq op check_op)) [
  | inl c ↦ rw c h
  | inr a ↦ rw a (inr h)
]

keeps_policy :
    (s : Rule) (op : Str) (w : List Rule × Bool)
    → (op ≡ check_op) ⊎ (op ≡ append_op)
    → w.1 ≡ true
    → (iptables (iptables_args s op) w).1.1 ≡ true
unfolding iptables on_rule iptables_args
keeps_policy s op w o h = elim (Bool-cases (str_eq op check_op)) [ inl c ↦ rw c h | inr a ↦ rw a h ]

check_finds :
    (r : Rule) (w : List Rule × Bool)
    → (iptables (iptables_args r check_op) w).0 ≡ true
    → In r (iptables (iptables_args r check_op) w).1.0
unfolding iptables on_rule iptables_args
check_finds r w h = rw (str_eq_refl check_op) (has_rule-In w.0 r (rw (str_eq_refl check_op) at h))

append_leaves :
    (r : Rule) (w : List Rule × Bool)
    → (iptables (iptables_args r append_op) w).0 ≡ true
    → In r (iptables (iptables_args r append_op) w).1.0
unfolding iptables on_rule iptables_args check_op append_op text str_eq
append_leaves r w h = inl refl

drop_closes :
    (w : List Rule × Bool) → (iptables drop_args w).0 ≡ true → (iptables drop_args w).1.1 ≡ true
unfolding iptables drop_args
drop_closes w h = refl

documented : Iptables iptables
unfolding keeps_rules
documented = record {
  Present = λ r w. In r w.0;
  Closed = λ w. w.1 ≡ true;
  check-Present = check_finds;
  append-Present = append_leaves;
  drop-Closed = drop_closes;
  keeps-Present = keeps_rules;
  keeps-Closed = keeps_policy;
}

pool_prefix : Prefix
pool_prefix = prefix4 0x0a080000 24

asserted : (ensure_iptables iptables pool_prefix ([], false)).0 ≡ true
unfolding ensure_iptables ensure_rules rules iptables on_rule has_rule same_spec iptables_args
    check_op append_op drop_args str_eq text print_prefix pool_prefix
asserted = refl

ensure_iptables-Present_example :
    documented.Closed (ensure_iptables iptables pool_prefix ([], false)).1
    × All
        (λ r. documented.Present r (ensure_iptables iptables pool_prefix ([], false)).1)
        (rules pool_prefix)
ensure_iptables-Present_example =
    ensure_iptables-Present iptables documented pool_prefix ([], false) asserted

create_peers_configuration-Covered_example : Covered plain_keys in_state on_wire entries
create_peers_configuration-Covered_example =
    create_peers_configuration-Covered plain_keys in_state on_wire entries peers_run

ip_rules : List IpRule
unfolding text
ip_rules =
    record { priority = 90; table = 254; dst = none; iif_name = [] }
    ∷ record { priority = 102; table = 51822; dst = none; iif_name = text "wg0" }
    ∷ []

blackhole_rule : IpRule
unfolding text
blackhole_rule = record { priority = 102; table = 51822; dst = none; iif_name = text "wg0" }

rule_changes-Settled_example :
    Settled ip_rules blackhole_rule (rule_changes ip_rules blackhole_rule)
rule_changes-Settled_example = rule_changes-Settled ip_rules blackhole_rule

canonical_pool : prefix_eq (prefix4 0x0a080000 24) (masked (prefix4 0x0a080000 24)) ≡ true
unfolding prefix_eq masked addr_eq addr_prefix
canonical_pool = refl

peer_probe_source-inside_example :
    (n : ℕ) × (peer_probe_source (prefix4 0x0a080000 24) ≡ some (v4 n))
    × (contains_ip (prefix4 0x0a080000 24) (v4 n) ≡ true)
    × (n ≡ 0x0a080000 + 2)
peer_probe_source-inside_example =
    peer_probe_source-inside 0x0a080000 24 (omega arith) (omega arith) canonical_pool
