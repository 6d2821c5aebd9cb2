-- ===== src/Wireguard.antt =====
-- internal/wireguard/wireguard.go: the server's link address and the device's peers.
pub mod Address
pub mod Causes
pub mod Rounds
pub mod Covers
pub mod Netlink
pub mod Link
use wireguard_operator.Prelude.{
  ℕ, zero, suc, ◌+◌, ◌-◌, ◌*◌, ◌/◌, ◌%◌, ◌^◌, ◌≤◌, ◌<◌, compare, Ordering, String, length,
  get_elem?, filter, any, find?, In, In-append_left, In-append_right, All, All-In, All-of_In,
  All-append, All-map, Str, str_eq→≡, str_eq_refl, str_eq_iff, is_empty→≡, is_empty_nil, text,
  str_eq, is_empty, str_compare, cut, has_byte, join, contains, contains→In, In→contains,
  contains-false, Bool, true, false, not, ◌&&◌, ◌||◌, List, [], ◌∷◌, ◌++◌, map, ◌≢◌, ◌↔◌, ◌⊎◌, inl,
  inr, Option, none, some, ◌≡◌, refl, sym, ap, ◌∙◌, subst, arith, ltb, leb, ◌==◌, if◌then◌else◌,
  Bool-cases, ==→≡, ==_refl, ltb→lt, ltb→le,
}
use wireguard_operator.Netip.Addr.{
  Addr, invalid, v4, v6, is4, next, addr_prefix, Prefix, prefix_eq, masked,
}
use wireguard_operator.Netip.Parse.{parse_addr}
use wireguard_operator.Api.Types.{WireguardPeer}
use wireguard_operator.Api.External.{WgTypes, Key}

-- slices.Contains
unfoldable pub has_address : List Prefix → Prefix → Bool
has_address [] want = false
has_address (p ∷ ps) want = prefix_eq p want || has_address ps want

unfoldable pub others : List Prefix → Prefix → List Prefix
others [] want = []
others (p ∷ ps) want = let rest = others ps want in if prefix_eq p want then rest else p ∷ rest

-- addressChanges
unfoldable pub address_changes : List Prefix → Prefix → List Prefix × Bool
unfolding others has_address
address_changes have want = (others have want, not (has_address have want))

-- gatewayIPFromPrefix: the first host of an IPv4 prefix
unfoldable pub gateway_ip_from_prefix : Prefix → Option Addr
gateway_ip_from_prefix p =
    if not (is4 (masked p).addr)
    then none
    else if not (is4 (next (masked p).addr))
    then none
    else some (next (masked p).addr)

mask_digits : Str → ℕ → Option ℕ
mask_digits [] acc = some acc
mask_digits (c ∷ s) acc =
    let rest = mask_digits s (acc * 10 + (c - b'0')) in
    if leb b'0' c && leb c b'9' then rest else none

mask_bits : Str → Option ℕ
unfolding mask_digits
mask_bits [] = none
mask_bits (c ∷ s) = mask_digits (c ∷ s) 0

network : Option Addr → Option ℕ → Option Prefix
network none o = none
network (some a) none = none
network (some invalid) (some b) = none
network (some (v4 n)) (some b) = addr_prefix (v4 n) b
network (some (v6 n z)) (some b) = if is_empty z then addr_prefix (v6 n z) b else none

-- net.ParseCIDR: the network; a zone is refused, and a length may have leading zeros
unfoldable pub parse_cidr : Str → Option Prefix
unfolding mask_bits network
parse_cidr s = elim (cut b'/' s) [
  | none ↦ none
  | some (a, m) ↦ network (parse_addr a) (mask_bits m)
]

-- getIP
unfoldable pub get_ip : Str → Option (List Prefix)
get_ip s = elim (parse_cidr s) [ none ↦ none | some p ↦ some (p ∷ []) ]

-- allowedIPsEqual: the same networks in the same order
unfoldable pub allowed_ips_equal : List Prefix → List Prefix → Bool
allowed_ips_equal [] [] = true
allowed_ips_equal (p ∷ ps) (q ∷ qs) = prefix_eq p q && allowed_ips_equal ps qs
allowed_ips_equal _ _ = false

-- What the server reads of a wgtypes.Peer.
pub record DevicePeer : Type 0 where
  pub public_key : Key
  pub allowed_ips : List Prefix

-- wgtypes.PeerConfig
pub record PeerConfig : Type 0 where
  pub public_key : Key
  pub remove : Bool
  pub update_only : Bool
  pub replace_allowed_ips : Bool
  pub allowed_ips : List Prefix

-- peersState[key]: the last peer with the key
unfoldable pub state_of : List WireguardPeer → Str → Option WireguardPeer
state_of [] key = none
state_of (p ∷ ps) key = elim (state_of ps key) [
  | some q ↦ some q
  | none ↦ if str_eq p.spec.public_key key then some p else none
]

abbrev pub slash_32 : Str
unfolding text
slash_32 = text "/32"

abbrev pub desired_allowed : WireguardPeer → Option (List Prefix)
desired_allowed p =
    if is_empty p.status.address then some [] else get_ip (p.status.address ++ slash_32)

-- What a peer of the device or of the state asks for: an error, nothing, or one entry.
pub data Change : Type 0 where
  failed unchanged : Change
  change : PeerConfig → Change

abbrev pub removal : DevicePeer → PeerConfig
removal d = record {
  public_key = d.public_key;
  remove = true;
  update_only = false;
  replace_allowed_ips = false;
  allowed_ips = d.allowed_ips;
}

abbrev pub update : DevicePeer → List Prefix → PeerConfig
update d ips = record {
  public_key = d.public_key;
  remove = false;
  update_only = true;
  replace_allowed_ips = true;
  allowed_ips = ips;
}

abbrev pub update_to : DevicePeer → Option (List Prefix) → Change
update_to d none = failed
update_to d (some ips) =
    if allowed_ips_equal ips d.allowed_ips then unchanged else change (update d ips)

abbrev pub for_device : DevicePeer → Option WireguardPeer → Change
for_device d none = change (removal d)
for_device d (some p) = update_to d (desired_allowed p)

-- one round of the loop over the device's peers
unfoldable pub device_change : WgTypes → List WireguardPeer → DevicePeer → Change
unfolding for_device
device_change wgtypes state d = for_device d (state_of state (wgtypes.key_text d.public_key))

abbrev pub addition : Key → List Prefix → PeerConfig
addition key ips = record {
  public_key = key;
  remove = false;
  update_only = false;
  replace_allowed_ips = false;
  allowed_ips = ips;
}

unfoldable pub on_device : WgTypes → List DevicePeer → Str → Bool
on_device wgtypes [] key = false
on_device wgtypes (d ∷ ds) key =
    str_eq (wgtypes.key_text d.public_key) key || on_device wgtypes ds key

abbrev pub add_with : Key → Option (List Prefix) → Change
add_with key none = failed
add_with key (some ips) = change (addition key ips)

abbrev pub for_key : WgTypes → List DevicePeer → WireguardPeer → Option Key → Change
for_key wgtypes device p none = failed
for_key wgtypes device p (some key) =
    if on_device wgtypes device (wgtypes.key_text key)
    then unchanged
    else add_with key (get_ip (p.status.address ++ slash_32))

-- one round of the loop over the state's peers
unfoldable pub state_change : WgTypes → List DevicePeer → WireguardPeer → Change
unfolding for_key
state_change wgtypes device p =
    if is_empty p.spec.public_key
    then unchanged
    else if is_empty p.status.address
    then unchanged
    else for_key wgtypes device p (wgtypes.parse_key p.spec.public_key)

abbrev pub add_change : Change → Option (List PeerConfig) → Option (List PeerConfig)
add_change failed rest = none
add_change unchanged rest = rest
add_change (change c) none = none
add_change (change c) (some cs) = some (c ∷ cs)

module _ {A : Type 0} (f : A → Change) where
  unfoldable pub changes : List A → Option (List PeerConfig)
  changes [] = some []
  changes (a ∷ as_list) = add_change (f a) (changes as_list)

unfoldable pub has_config : WgTypes → List PeerConfig → Str → Bool
has_config wgtypes [] key = false
has_config wgtypes (c ∷ cs) key =
    str_eq (wgtypes.key_text c.public_key) key || has_config wgtypes cs key

-- the entries of peerConfigurationByPublicKey: a later entry replaces an earlier one of its key. Go
-- lists them in no fixed order.
unfoldable pub by_key : WgTypes → List PeerConfig → List PeerConfig
unfolding has_config
by_key wgtypes [] = []
by_key wgtypes (c ∷ cs) =
    let rest = by_key wgtypes cs in
    if has_config wgtypes cs (wgtypes.key_text c.public_key) then rest else c ∷ rest

abbrev pub joined :
    WgTypes → Option (List PeerConfig) → Option (List PeerConfig) → Option (List PeerConfig)
joined wgtypes none o = none
joined wgtypes (some cs) none = none
joined wgtypes (some cs) (some ns) = some (by_key wgtypes (cs ++ ns))

-- createPeersConfiguration, from the device's peers: `none` is an error
unfoldable pub create_peers_configuration :
    WgTypes → List WireguardPeer → List DevicePeer → Option (List PeerConfig)
unfolding device_change state_change changes by_key
create_peers_configuration wgtypes state device =
    joined wgtypes (changes (device_change wgtypes state) device)
      (changes (state_change wgtypes device) state)
