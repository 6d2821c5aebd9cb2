-- ===== src/Ipam/Laws.antt =====
-- Allocated addresses are free, lie in the pool, and are usable.
use wireguard_operator.Prelude.{
  ℕ, ◌^◌, ◌<◌, In, All-In, Str, is_empty, contains, contains→In, contains-false, Bool, true, false,
  not, ◌&&◌, List, [], ◌∷◌, inl, inr, Option, none, some, ◌≡◌, refl, sym, ap, ◌∙◌, subst, arith,
  Bool-cases,
}
use wireguard_operator.Netip.Addr.{Addr, v4, is4, Prefix, masked, next, addr_eq, contains_ip}
use wireguard_operator.Netip.Parse.{parse_prefix}
use wireguard_operator.Netip.ParseLaws.{parse_prefix-IsPrefix4}
use wireguard_operator.Netip.Print.{print_addr}
use wireguard_operator.Netip.RoundTrip.{parse_addr-print_addr}
use wireguard_operator.Netip.Laws.{addr_eq→≡, contains_ip-masked}
use wireguard_operator.Api.External.{IpNetGen, Inside}
use wireguard_operator.Ipam.{
  allocated, bad_cidr, no_available_ip, first_free, allocate_ip, derive_reserved_ips,
  address_usable,
}

first_free-In :
    (ips : List Addr) (used : List Str) (ip : Str)
    → first_free ips used ≡ allocated ip
    → (a : Addr) × In a ips × (ip ≡ print_addr a) × (¬ In ip used)
unfolding first_free
first_free-In [] used ip h = absurd (cc)
first_free-In (a ∷ ips) used ip h = elim (Bool-cases (contains used (print_addr a))) [
  | inl taken ↦
      let (b, there, e, free) = first_free-In ips used ip (rw taken at h) in (b, inr there, e, free)
  | inr free ↦
      let e : ip ≡ print_addr a = ground arith in
      (a, inl refl, e, λ m. contains-false used (print_addr a) free (subst (λ s. In s used) e m))
]

first_free_none :
    (ips : List Addr) (used : List Str)
    → first_free ips used ≡ no_available_ip
    → (a : Addr) → In a ips
    → In (print_addr a) used
unfolding first_free
first_free_none [] used h a there = elim there [ ]
first_free_none (b ∷ ips) used h a there = elim (Bool-cases (contains used (print_addr b))) [
  | inr free ↦ absurd (ground arith)
  | inl taken ↦ elim there [
    | inl e ↦ subst (λ x. In (print_addr x) used) (sym e) (contains→In used (print_addr b) taken)
    | inr later ↦ first_free_none ips used (rw taken at h) a later
  ]
]

module _ (gen : IpNetGen) (cidr : Str) (used : List Str) where
  on_addresses :
      (o : Option (List Addr)) (ip : Str)
      → elim o [ none ↦ bad_cidr | some ips ↦ first_free ips used ] ≡ allocated ip
      → (ips : List Addr) × (o ≡ some ips) × (first_free ips used ≡ allocated ip)
  on_addresses none ip h = absurd (cc)
  on_addresses (some ips) ip h = (ips, refl, h)

  allocate_ip-In :
      (ip : Str)
      → allocate_ip gen cidr used ≡ allocated ip
      → (ips : List Addr) × (a : Addr) × (gen.addresses cidr ≡ some ips)
        × In a ips
        × (ip ≡ print_addr a)
        × (¬ In ip used)
  unfolding allocate_ip
  allocate_ip-In ip h =
      let (ips, e, first) = on_addresses (gen.addresses cidr) ip h in
      let (a, there, same, free) = first_free-In ips used ip first in (ips, a, e, there, same, free)

  on_exhausted :
      (o : Option (List Addr))
      → elim o [ none ↦ bad_cidr | some ips ↦ first_free ips used ] ≡ no_available_ip
      → (ips : List Addr) × (o ≡ some ips) × (first_free ips used ≡ no_available_ip)
  on_exhausted none h = absurd (cc)
  on_exhausted (some ips) h = (ips, refl, h)

  exhausted_ips :
      allocate_ip gen cidr used ≡ no_available_ip
      → (ips : List Addr) × (gen.addresses cidr ≡ some ips)
        × (first_free ips used ≡ no_available_ip)
  unfolding allocate_ip
  exhausted_ips h = on_exhausted (gen.addresses cidr) h

and_left : (a b : Bool) → (a && b) ≡ true → a ≡ true
and_left a b h = ground arith

parse_prefix-nil : (cidr : Str) (p : Prefix) → parse_prefix cidr ≡ some p → is_empty cidr ≡ false
unfolding parse_prefix is_empty
parse_prefix-nil [] p h = absurd (cc)
parse_prefix-nil (c ∷ s) p h = refl

reserved_lem :
    (cidr : Str) (p : Prefix)
    → parse_prefix cidr ≡ some p
    → derive_reserved_ips cidr ≡ print_addr (masked p).addr ∷ print_addr (next (masked p).addr) ∷ []
unfolding derive_reserved_ips
reserved_lem cidr p h = rw (parse_prefix-nil cidr p h, h)

addr_ne :
    (a b : Addr) (used : List Str)
    → In (print_addr b) used
    → ¬ In (print_addr a) used
    → addr_eq a b ≡ false
addr_ne a b used there free = elim (Bool-cases (addr_eq a b)) [
  | inr differ ↦ differ
  | inl same ↦ absurd (free (subst (λ x. In (print_addr x) used) (sym (addr_eq→≡ a b same)) there))
]

usable_lem :
    (cidr : Str) (p : Prefix) (n : ℕ)
    → parse_prefix cidr ≡ some p
    → n < 2 ^ 32
    → address_usable (print_addr (v4 n)) cidr
      ≡ contains_ip (masked p) (v4 n)
        && not (addr_eq (v4 n) (masked p).addr)
        && not (addr_eq (v4 n) (next (masked p).addr))
unfolding address_usable
usable_lem cidr p n h r = rw (parse_addr-print_addr n r, h, address_usable)

masked_contains :
    (cidr : Str) (p : Prefix) (a : Addr)
    → parse_prefix cidr ≡ some p
    → is4 p.addr ≡ true
    → contains_ip (masked p) a ≡ contains_ip p a
masked_contains cidr p a h f =
    let (n, b, e, _, short) = parse_prefix-IsPrefix4 cidr p h f in
    rw e (contains_ip-masked n b a short)

module _ (gen : IpNetGen) (cidr : Str) (p : Prefix) (used : List Str)
    (parsed : parse_prefix cidr ≡ some p) (family : is4 p.addr ≡ true) where
  -- An address that AllocateIP hands out from an IPv4 peerCIDR, with the network and the gateway
  -- among the used ones, was free and is one that addressUsable accepts.
  pub allocate_ip-usable :
      (ip : Str)
      → ((r : Str) → In r (derive_reserved_ips cidr) → In r used)
      → allocate_ip gen cidr used ≡ allocated ip
      → (¬ In ip used) × (address_usable ip cidr ≡ true)
  allocate_ip-usable ip reserved h =
      let (ips, a, e, there, same, free) = allocate_ip-In gen cidr used ip h in
      let (n, at, fits, inside) =
        All-In (Inside p) ips (gen.addresses-Inside cidr p ips parsed family e) a there in
      let spelled : ip ≡ print_addr (v4 n) = same ∙ ap print_addr at in
      let unused : ¬ In (print_addr (v4 n)) used =
        λ m. free (subst (λ s. In s used) (sym spelled) m) in
      let network : addr_eq (v4 n) (masked p).addr ≡ false =
        addr_ne (v4 n) (masked p).addr used
          (reserved (print_addr (masked p).addr) (rw (reserved_lem cidr p parsed) (inl refl)))
          unused in
      let gateway : addr_eq (v4 n) (next (masked p).addr) ≡ false =
        addr_ne (v4 n) (next (masked p).addr) used
          (reserved (print_addr (next (masked p).addr))
            (rw (reserved_lem cidr p parsed) (inr (inl refl))))
          unused in
      let within : contains_ip (masked p) (v4 n) ≡ true =
        masked_contains cidr p (v4 n) parsed family ∙ sym (ap (contains_ip p) at) ∙ inside in
      (free, rw spelled (usable_lem cidr p n parsed fits ∙ ground arith))

  -- AllocateIP gives up only when every usable address of the pool is in use.
  pub allocate_ip_complete :
      (n : ℕ)
      → allocate_ip gen cidr used ≡ no_available_ip
      → n < 2 ^ 32
      → address_usable (print_addr (v4 n)) cidr ≡ true
      → In (print_addr (v4 n)) used
  allocate_ip_complete n h fits usable =
      let (ips, e, none_free) = exhausted_ips gen cidr used h in
      let inside : contains_ip p (v4 n) ≡ true =
        sym (masked_contains cidr p (v4 n) parsed family)
        ∙ and_left _ _ (and_left _ _ (sym (usable_lem cidr p n parsed fits) ∙ usable)) in
      first_free_none ips used none_free (v4 n)
        (gen.addresses-In cidr p ips (v4 n) parsed e (n, refl, fits, inside))
