-- ===== src/Sidecar/Tunnel.antt =====
-- internal/sidecar/tunnel.go: the client's WireGuard configuration from its peer's status.
pub mod Device
pub mod Laws
use wireguard_operator.Prelude.{
  ℕ, zero, suc, ◌+◌, ◌-◌, ◌*◌, ◌/◌, ◌%◌, ◌^◌, ◌≤◌, ◌<◌, compare, Ordering, String, length,
  get_elem?, filter, any, find?, In, In-append_left, In-append_right, All, All-In, All-of_In,
  All-append, All-map, Str, str_eq→≡, str_eq_refl, str_eq_iff, is_empty→≡, is_empty_nil, text,
  str_eq, is_empty, str_compare, cut, has_byte, join, contains, contains→In, In→contains,
  contains-false, Bool, true, false, not, ◌&&◌, ◌||◌, List, [], ◌∷◌, ◌++◌, map, ◌≢◌, ◌↔◌, ◌⊎◌, inl,
  inr, Option, none, some, ◌≡◌, refl, sym, ap, ◌∙◌, subst, arith, ltb, leb, ◌==◌, if◌then◌else◌,
  Bool-cases, ==→≡, ==_refl, ltb→lt, ltb→le,
}
use wireguard_operator.Netip.Addr.{Addr, v4, is4, Prefix, bits, masked, prefix_from}
use wireguard_operator.Netip.AddrPort.{AddrPort, parse_addr_port}
use wireguard_operator.Netip.Parse.{parse_addr, parse_prefix}
use wireguard_operator.Api.Types.{WireguardPeer}
use wireguard_operator.Api.External.{WgTypes, Key}

-- Tunnel
pub record Tunnel : Type 0 where
  pub address : Prefix
  pub server_key : Key
  pub endpoint : AddrPort
  pub local_cidrs : List Prefix

-- errWaiting with the missing field, or a value that does not parse
pub data TunnelError : Type 0 where
  no_address no_endpoint no_server_public_key no_local_cidrs : TunnelError
  bad_address bad_endpoint bad_server_public_key : TunnelError
  bad_local_cidr covers_everything : Str → TunnelError

-- errors.Is(err, errWaiting)
unfoldable pub is_waiting : TunnelError → Bool
is_waiting no_address = true
is_waiting no_endpoint = true
is_waiting no_server_public_key = true
is_waiting no_local_cidrs = true
is_waiting bad_address = false
is_waiting bad_endpoint = false
is_waiting bad_server_public_key = false
is_waiting (bad_local_cidr c) = false
is_waiting (covers_everything c) = false

pub data Parsed (A : Type 0) : Type 0 where
  good : A → Parsed A
  bad : TunnelError → Parsed A

abbrev pub keep_cidr : Prefix → Parsed (List Prefix) → Parsed (List Prefix)
keep_cidr p (good ps) = good (masked p ∷ ps)
keep_cidr p (bad e) = bad e

abbrev pub add_cidr : Str → Option Prefix → Parsed (List Prefix) → Parsed (List Prefix)
add_cidr c none rest = bad (bad_local_cidr c)
add_cidr c (some p) rest =
    if p.bits_plus_one == 1 then bad (covers_everything c) else keep_cidr p rest

-- parseLocalCIDRs
unfoldable pub parse_local_cidrs : List Str → Parsed (List Prefix)
parse_local_cidrs [] = good []
parse_local_cidrs (c ∷ cs) = add_cidr c (parse_prefix c) (parse_local_cidrs cs)

abbrev pub no_cidrs : List Str → Bool
no_cidrs [] = true
no_cidrs (c ∷ cs) = false

module _ (wgtypes : WgTypes) where
  abbrev pub with_cidrs : Addr → AddrPort → Key → Parsed (List Prefix) → Parsed Tunnel
  with_cidrs addr endpoint key (bad e) = bad e
  with_cidrs addr endpoint key (good cidrs) = good (record {
    address = prefix_from addr 32;
    server_key = key;
    endpoint = endpoint;
    local_cidrs = cidrs;
  })

  abbrev pub with_key : WireguardPeer → Addr → AddrPort → Option Key → Parsed Tunnel
  with_key peer addr endpoint none = bad bad_server_public_key
  with_key peer addr endpoint (some key) =
      with_cidrs addr endpoint key (parse_local_cidrs peer.status.local_cidrs)

  abbrev pub with_endpoint : WireguardPeer → Addr → Option AddrPort → Parsed Tunnel
  with_endpoint peer addr none = bad bad_endpoint
  with_endpoint peer addr (some endpoint) =
      with_key peer addr endpoint (wgtypes.parse_key peer.status.server_public_key)

  abbrev pub with_address : WireguardPeer → Option Addr → Parsed Tunnel
  with_address peer none = bad bad_address
  with_address peer (some addr) =
      if not (is4 addr)
      then bad bad_address
      else with_endpoint peer addr (parse_addr_port peer.status.endpoint)

  -- desiredTunnel
  unfoldable pub desired_tunnel : WireguardPeer → Parsed Tunnel
  unfolding parse_local_cidrs
  desired_tunnel peer =
      if is_empty peer.status.address
      then bad no_address
      else if is_empty peer.status.endpoint
      then bad no_endpoint
      else if is_empty peer.status.server_public_key
      then bad no_server_public_key
      else if no_cidrs peer.status.local_cidrs
      then bad no_local_cidrs
      else with_address peer (parse_addr peer.status.address)
