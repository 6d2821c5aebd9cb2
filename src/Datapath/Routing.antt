-- ===== src/Datapath/Routing.antt =====
-- The ip rules of the datapath, and the source address of the readiness probe.
use wireguard_operator.Prelude.{
  ℕ, ◌+◌, ◌-◌, ◌*◌, ◌/◌, ◌^◌, ◌≤◌, ◌<◌, In, Bool, true, false, List, [], ◌∷◌, ◌⊎◌, inl, inr, some,
  ◌≡◌, refl, sym, ap, ◌∙◌, subst, arith, ◌==◌, Bool-cases, ==→≡, ==_refl, ◌↔◌, str_eq→≡,
  str_eq_refl,
}
use native.Mathlib.Nat.{div-eq_of_lt-le, div-lt_iff_lt-mul, div-mul-le_self}
use wireguard_operator.Netip.Addr.{
  v4, next, keep_bits, addr_prefix, addr_eq, prefix_eq, masked, contains_ip, same_network,
}
use wireguard_operator.Netip.Laws.{prefix4, two_pow_pos, pow_add, contains_v4}
use wireguard_operator.Datapath.{
  dst_string, IpRule, rule_matches, superseded, any_matches, rule_changes, peer_probe_source,
}

-- Two rules with the same priority, table, destination and interface.
abbrev pub SameRule : IpRule → IpRule → Type 0
SameRule r want =
    (r.priority ≡ want.priority)
    × (r.table ≡ want.table)
    × (dst_string r.dst ≡ dst_string want.dst)
    × (r.iif_name ≡ want.iif_name)

-- The changes to a table that holds `have`: the rules that are deleted, and whether `want` is added.
pub record Settled (have : List IpRule) (want : IpRule) (change : List IpRule × Bool) : Type 0 where
  pub deleted :
      (r : IpRule) → In r change.0 → In r have × (r.priority ≡ want.priority) × ¬ SameRule r want
  pub kept : (r : IpRule) → In r have → r.priority ≡ want.priority → SameRule r want ⊎ In r change.0
  pub added : (change.1 ≡ false) ↔ ((r : IpRule) × In r have × SameRule r want)

rule_matches-SameRule : (r want : IpRule) → rule_matches r want ≡ true → SameRule r want
unfolding rule_matches
rule_matches-SameRule r want h = (
  ==→≡ r.priority want.priority (ground arith),
  ==→≡ r.table want.table (ground arith),
  str_eq→≡ (dst_string r.dst) (dst_string want.dst) (ground arith),
  str_eq→≡ r.iif_name want.iif_name (ground arith),
)

SameRule-rule_matches : (r want : IpRule) → SameRule r want → rule_matches r want ≡ true
unfolding rule_matches
SameRule-rule_matches r want (p, t, d, i) =
    rw
      (
        p,
        t,
        d,
        i,
        ==_refl want.priority,
        ==_refl want.table,
        str_eq_refl (dst_string want.dst),
        str_eq_refl want.iif_name,
      )
      refl

In-any_matches :
    (have : List IpRule) (want r : IpRule)
    → In r have
    → SameRule r want
    → any_matches have want ≡ true
unfolding any_matches
In-any_matches [] want r h s = elim h [ ]
In-any_matches (x ∷ xs) want r (inl e) s =
    let here : SameRule x want = subst (λ y. SameRule y want) e s in
    let level : (x.priority == want.priority) ≡ true =
      subst (λ p. (p == want.priority) ≡ true) (sym here.0) (==_refl want.priority) in
    ground (arith, level, SameRule-rule_matches x want here)
In-any_matches (x ∷ xs) want r (inr later) s = ground (arith, In-any_matches xs want r later s)

superseded-In :
    (have : List IpRule) (want r : IpRule)
    → In r (superseded have want)
    → In r have × (r.priority ≡ want.priority) × (rule_matches r want ≡ false)
unfolding superseded
superseded-In [] want r h = elim h [ ]
superseded-In (x ∷ xs) want r h = elim (Bool-cases (x.priority == want.priority)) [
  | inr far ↦ let (m, a, b) = superseded-In xs want r (rw far at h) in (inr m, a, b)
  | inl near ↦ elim (Bool-cases (rule_matches x want)) [
    | inl same ↦ let (m, a, b) = superseded-In xs want r (rw (near, same) at h) in (inr m, a, b)
    | inr differ ↦
        let split : (r ≡ x) ⊎ In r (superseded xs want) = rw (near, differ) at h in
        elim split [
          | inl e ↦ (
            inl e,
            ap (λ q. q.priority) e ∙ ==→≡ x.priority want.priority near,
            ap (λ q. rule_matches q want) e ∙ differ,
          )
          | inr later ↦ let (m, a, b) = superseded-In xs want r later in (inr m, a, b)
        ]
  ]
]

In-superseded :
    (have : List IpRule) (want r : IpRule)
    → In r have
    → r.priority ≡ want.priority
    → (rule_matches r want ≡ true) ⊎ In r (superseded have want)
unfolding superseded
In-superseded [] want r h e = elim h [ ]
In-superseded (x ∷ xs) want r h e = elim (Bool-cases (rule_matches r want)) [
  | inl same ↦ inl same
  | inr differ ↦ inr (elim h [
    | inl here ↦
        let near : (x.priority == want.priority) ≡ true =
          subst (λ p. (p == want.priority) ≡ true) (ap (λ q. q.priority) here)
            (subst (λ p. (p == want.priority) ≡ true) (sym e) (==_refl want.priority)) in
        let off : rule_matches x want ≡ false =
          subst (λ q. rule_matches q want ≡ false) here differ in
        rw (near, off) (inl here)
    | inr later ↦ elim (In-superseded xs want r later e) [
      | inl same ↦ absurd (cc (same, differ))
      | inr deep ↦ elim (Bool-cases (x.priority == want.priority)) [
        | inr far ↦ rw far deep
        | inl near ↦ elim (Bool-cases (rule_matches x want)) [
          | inl m ↦ rw (near, m) deep
          | inr m ↦ rw (near, m) (inr deep)
        ]
      ]
    ]
  ])
]

any_matches-In :
    (have : List IpRule) (want : IpRule)
    → any_matches have want ≡ true
    → (r : IpRule) × In r have × (rule_matches r want ≡ true)
unfolding any_matches
any_matches-In [] want h = absurd (cc)
any_matches-In (x ∷ xs) want h = elim (Bool-cases (rule_matches x want)) [
  | inl same ↦ (x, inl refl, same)
  | inr differ ↦ let (r, m, e) = any_matches-In xs want (ground (arith, differ)) in (r, inr m, e)
]

-- ensureRule deletes only rules at the wanted priority that do not match, and each of them, and adds
-- the wanted rule exactly when no rule of the table has its priority, table, destination and
-- interface.
pub rule_changes-Settled :
    (have : List IpRule) (want : IpRule) → Settled have want (rule_changes have want)
unfolding rule_changes
rule_changes-Settled have want = record {
  deleted = λ r m.
      let (there, level, differ) = superseded-In have want r m in
      (there, level, λ s. cc (SameRule-rule_matches r want s, differ));
  kept = λ r m e. elim (In-superseded have want r m e) [
    | inl same ↦ inl (rule_matches-SameRule r want same)
    | inr gone ↦ inr gone
  ];
  added = (
    λ h.
        let (r, there, same) = any_matches-In have want (ground arith) in
        (r, there, rule_matches-SameRule r want same),
    λ (r, there, s). rw (In-any_matches have want r there s) refl,
  );
}

masked_self :
    (n b : ℕ)
    → b ≤ 30
    → prefix_eq (prefix4 n b) (masked (prefix4 n b)) ≡ true
    → n ≡ n / 2 ^ (32 - b) * 2 ^ (32 - b)
unfolding prefix_eq masked addr_prefix addr_eq keep_bits
masked_self n b short h = ground (arith, ==→≡ n (n / 2 ^ (32 - b) * 2 ^ (32 - b)))

four : (b : ℕ) → b ≤ 30 → 4 ≤ 2 ^ (32 - b)
four b short =
    let split : 2 ^ (32 - b) ≡ 2 ^ 2 * 2 ^ (30 - b) =
      ap (λ k. 2 ^ k) {x = 32 - b} {y = 2 + (30 - b)} (omega arith) ∙ pow_add 2 (30 - b) in
    let pos : 0 < 2 ^ (30 - b) = two_pow_pos (30 - b) in
    subst (λ x. 4 ≤ x) (sym split) (omega arith)

block_room :
    (n b : ℕ)
    → b ≤ 30
    → n < 2 ^ 32
    → n ≡ n / 2 ^ (32 - b) * 2 ^ (32 - b)
    → n + 2 ^ (32 - b) ≤ 2 ^ 32
block_room n b short fits whole =
    let k : ℕ = 32 - b in
    let all_bits : 2 ^ 32 ≡ 2 ^ b * 2 ^ k =
      ap (λ x. 2 ^ x) {x = 32} {y = b + k} (omega arith) ∙ pow_add b k in
    let below : n / 2 ^ k < 2 ^ b =
      (div-lt_iff_lt-mul (two_pow_pos k)).1 (subst (λ x. n < x) all_bits fits) in
    let last : n / 2 ^ k * 2 ^ k + 2 ^ k ≤ 2 ^ b * 2 ^ k = grind arith in
    subst (λ x. n + 2 ^ k ≤ x) (sym all_bits)
      (subst (λ m. m + 2 ^ k ≤ 2 ^ b * 2 ^ k) (sym whole) last)

second_host :
    (n b : ℕ)
    → b ≤ 30
    → n < 2 ^ 32
    → n ≡ n / 2 ^ (32 - b) * 2 ^ (32 - b)
    → (n + 2) / 2 ^ (32 - b) ≡ n / 2 ^ (32 - b)
second_host n b short fits whole =
    let big : 4 ≤ 2 ^ (32 - b) = four b short in
    div-eq_of_lt-le (2 ^ (32 - b)) (omega (arith, whole, div-mul-le_self n (2 ^ (32 - b))))
      (grind (arith, whole, big))

agree : (n b m : ℕ) → n / 2 ^ (32 - b) ≡ m / 2 ^ (32 - b) → same_network 32 b n m ≡ true
unfolding same_network
agree n b m e = rw e (==_refl (m / 2 ^ (32 - b)))

masked_v4 : (n b : ℕ) → b ≤ 30 → masked (prefix4 n b) ≡ prefix4 (n / 2 ^ (32 - b) * 2 ^ (32 - b)) b
unfolding masked addr_prefix keep_bits
masked_v4 n b short = ground arith

two_next : (n : ℕ) → n + 4 ≤ 2 ^ 32 → next (next (v4 n)) ≡ v4 (n + 2)
unfolding next
two_next n h = ground arith

-- The source of the readiness probe is the second host of the peers' prefix, and one of its
-- addresses, for a canonical IPv4 prefix of /30 or shorter: every prefix that the spec checks accept.
pub peer_probe_source-inside :
    (n b : ℕ)
    → n < 2 ^ 32
    → b ≤ 30
    → prefix_eq (prefix4 n b) (masked (prefix4 n b)) ≡ true
    → (m : ℕ) × (peer_probe_source (prefix4 n b) ≡ some (v4 m))
      × (contains_ip (prefix4 n b) (v4 m) ≡ true)
      × (m ≡ n + 2)
unfolding peer_probe_source
peer_probe_source-inside n b fits short canonical =
    let whole : n ≡ n / 2 ^ (32 - b) * 2 ^ (32 - b) = masked_self n b short canonical in
    let room = block_room n b short fits whole in
    let first : (masked (prefix4 n b)).addr ≡ v4 n =
      ap (λ p. p.addr) (masked_v4 n b short) ∙ ap v4 (sym whole) in
    let second : next (next (masked (prefix4 n b)).addr) ≡ v4 (n + 2) =
      ap (λ a. next (next a)) first ∙ two_next n (omega (arith, room, four b short)) in
    let inside : contains_ip (prefix4 n b) (v4 (n + 2)) ≡ true =
      contains_v4 n b (n + 2) ∙ agree n b (n + 2) (sym (second_host n b short fits whole)) in
    (n + 2, rw (second, inside, peer_probe_source) refl, inside, refl)
