-- ===== src/Netip/Addr.antt =====
-- `Addr` and `Prefix` of the standard library's net/netip, as far as the operator uses them.
-- An IPv4 address is a 32-bit number; an IPv6 address is a 128-bit number and a zone.
use wireguard_operator.Prelude.{
  ℕ, ◌+◌, ◌-◌, ◌*◌, ◌/◌, ◌^◌, Str, str_eq, is_empty, Bool, true, false, not, ◌&&◌, ◌||◌, [], Option,
  none, some, ltb, leb, ◌==◌, if◌then◌else◌,
}

-- `invalid` is the zero Addr.
pub data Addr : Type 0 where
  invalid : Addr
  v4 : ℕ → Addr
  v6 : ℕ → Str → Addr

unfoldable pub addr_eq : Addr → Addr → Bool
addr_eq invalid invalid = true
addr_eq (v4 m) (v4 n) = m == n
addr_eq (v6 m y) (v6 n z) = (m == n) && str_eq y z
addr_eq _ _ = false

-- Addr.Is4
unfoldable pub is4 : Addr → Bool
is4 (v4 n) = true
is4 _ = false

-- Addr.IsValid
unfoldable pub is_valid : Addr → Bool
is_valid invalid = false
is_valid _ = true

-- Addr.Next: the zero Addr after the last address of the family
unfoldable pub next : Addr → Addr
next invalid = invalid
next (v4 n) = if n + 1 == 2 ^ 32 then invalid else v4 (n + 1)
next (v6 n z) = if n + 1 == 2 ^ 128 then invalid else v6 (n + 1) z

-- A prefix keeps its length plus one, so that the zero Prefix is not valid.
pub record Prefix : Type 0 where
  pub addr : Addr
  pub bits_plus_one : ℕ

unfoldable pub prefix_eq : Prefix → Prefix → Bool
unfolding addr_eq
prefix_eq p q = addr_eq p.addr q.addr && p.bits_plus_one == q.bits_plus_one

-- Prefix.Bits of a valid prefix
unfoldable pub bits : Prefix → ℕ
bits p = p.bits_plus_one - 1

unfoldable pub zero_prefix : Prefix
zero_prefix = record { addr = invalid; bits_plus_one = 0 }

-- PrefixFrom drops a zone, and refuses a length beyond the family's
unfoldable pub prefix_from : Addr → ℕ → Prefix
prefix_from invalid b = zero_prefix
prefix_from (v4 n) b = record { addr = v4 n; bits_plus_one = if leb b 32 then b + 1 else 0 }
prefix_from (v6 n z) b = record { addr = v6 n []; bits_plus_one = if leb b 128 then b + 1 else 0 }

-- the leading b of w bits
unfoldable pub keep_bits : ℕ → ℕ → ℕ → ℕ
keep_bits w b n = n / 2 ^ (w - b) * 2 ^ (w - b)

-- Addr.Prefix: the network of b bits that holds the address
unfoldable pub addr_prefix : Addr → ℕ → Option Prefix
unfolding keep_bits zero_prefix
addr_prefix invalid b = some zero_prefix
addr_prefix (v4 n) b =
    if leb b 32 then some (record { addr = v4 (keep_bits 32 b n); bits_plus_one = b + 1 }) else none
addr_prefix (v6 n z) b =
    if leb b 128
    then some (record { addr = v6 (keep_bits 128 b n) []; bits_plus_one = b + 1 })
    else none

-- Prefix.Masked: an invalid prefix gives the zero Prefix
unfoldable pub masked : Prefix → Prefix
unfolding addr_prefix
masked p =
    if p.bits_plus_one == 0
    then zero_prefix
    else elim (addr_prefix p.addr (p.bits_plus_one - 1)) [ none ↦ zero_prefix | some m ↦ m ]

-- the leading b of w bits agree
unfoldable pub same_network : ℕ → ℕ → ℕ → ℕ → Bool
same_network w b m n = (m / 2 ^ (w - b)) == (n / 2 ^ (w - b))

contains_addr : Addr → ℕ → Addr → Bool
unfolding same_network is_empty
contains_addr (v4 m) b (v4 n) = same_network 32 b m n
contains_addr (v6 m y) b (v6 n z) = is_empty z && same_network 128 b m n
contains_addr _ b _ = false

-- Prefix.Contains
unfoldable pub contains_ip : Prefix → Addr → Bool
unfolding contains_addr
contains_ip p a =
    if p.bits_plus_one == 0 then false else contains_addr p.addr (p.bits_plus_one - 1) a

abbrev bool_eq : Bool → Bool → Bool
bool_eq true b = b
bool_eq false b = not b

abbrev pub min_bits : Prefix → Prefix → ℕ
min_bits p q =
    if ltb p.bits_plus_one q.bits_plus_one then p.bits_plus_one - 1 else q.bits_plus_one - 1

unfoldable pub overlaps_at : Addr → Addr → ℕ → Bool
unfolding addr_prefix addr_eq
overlaps_at a c b = elim (addr_prefix a b) [
  | none ↦ false
  | some p ↦ elim (addr_prefix c b) [ none ↦ false | some q ↦ addr_eq p.addr q.addr ]
]

-- Prefix.Overlaps
unfoldable pub overlaps : Prefix → Prefix → Bool
unfolding prefix_eq is4
overlaps p q =
    if p.bits_plus_one == 0 || q.bits_plus_one == 0
    then false
    else if prefix_eq p q
    then true
    else if not (bool_eq (is4 p.addr) (is4 q.addr))
    then false
    else if min_bits p q == 0
    then true
    else overlaps_at p.addr q.addr (min_bits p q)
