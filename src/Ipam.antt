-- ===== src/Ipam.antt =====
-- internal/ipam/allocator.go: the addresses that peers are given.
pub mod Laws
use wireguard_operator.Prelude.{
  ℕ, zero, suc, ◌+◌, ◌-◌, ◌*◌, ◌/◌, ◌%◌, ◌^◌, ◌≤◌, ◌<◌, compare, Ordering, String, length,
  get_elem?, filter, any, find?, In, In-append_left, In-append_right, All, All-In, All-of_In,
  All-append, All-map, Str, str_eq→≡, str_eq_refl, str_eq_iff, is_empty→≡, is_empty_nil, text,
  str_eq, is_empty, str_compare, cut, has_byte, join, contains, Bool, true, false, not, ◌&&◌, ◌||◌,
  List, [], ◌∷◌, ◌++◌, map, ◌≢◌, ◌↔◌, ◌⊎◌, inl, inr, Option, none, some, ◌≡◌, refl, sym, ap, ◌∙◌,
  subst, arith, ltb, leb, ◌==◌, if◌then◌else◌, Bool-cases, ==→≡, ==_refl, ltb→lt, ltb→le,
}
use wireguard_operator.Netip.Addr.{Addr, Prefix, masked, next, addr_eq, contains_ip}
use wireguard_operator.Netip.Parse.{parse_addr, parse_prefix}
use wireguard_operator.Netip.Print.{print_addr}
use wireguard_operator.Api.Types.{WireguardPeer}
use wireguard_operator.Api.External.{IpNetGen}

-- DefaultPeerCIDR4
unfoldable pub default_peer_cidr4 : Str
unfolding text
default_peer_cidr4 = text "10.8.0.0/24"

-- The outcome of AllocateIP.
pub data Allocation : Type 0 where
  allocated : Str → Allocation
  bad_cidr no_available_ip : Allocation

-- Allocator.isUsed
unfoldable pub is_used : Str → List Str → Bool
is_used ip used = contains used ip

-- the loop of AllocateIP
unfoldable pub first_free : List Addr → List Str → Allocation
unfolding is_used
first_free [] used = no_available_ip
first_free (a ∷ ips) used =
    let rest = first_free ips used in
    if not (is_used (print_addr a) used) then allocated (print_addr a) else rest

-- Allocator.AllocateIP
unfoldable pub allocate_ip : IpNetGen → Str → List Str → Allocation
unfolding first_free
allocate_ip gen cidr used = elim (gen.addresses cidr) [
  | none ↦ bad_cidr
  | some ips ↦ first_free ips used
]

-- deriveReservedIPs
unfoldable pub derive_reserved_ips : Str → List Str
derive_reserved_ips cidr = if is_empty cidr then [] else elim (parse_prefix cidr) [
  | none ↦ []
  | some p ↦ print_addr (masked p).addr ∷ print_addr (next (masked p).addr) ∷ []
]

-- the addresses that peers hold
unfoldable pub held_addresses : List WireguardPeer → List Str
held_addresses [] = []
held_addresses (p ∷ ps) =
    let rest = held_addresses ps in
    if is_empty p.status.address then rest else p.status.address ∷ rest

-- Allocator.GetUsedIPs
unfoldable pub get_used_ips : Str → List WireguardPeer → List Str
unfolding derive_reserved_ips held_addresses
get_used_ips cidr peers = derive_reserved_ips cidr ++ held_addresses peers

-- addressUsable of internal/controller/peers.go
unfoldable pub address_usable : Str → Str → Bool
address_usable addr cidr4 = elim (parse_addr addr) [
  | none ↦ false
  | some a ↦ elim (parse_prefix cidr4) [
    | none ↦ false
    | some p ↦
        contains_ip (masked p) a
        && not (addr_eq a (masked p).addr)
        && not (addr_eq a (next (masked p).addr))
  ]
]
