-- ===== src/Sidecar/Tunnel/Device.antt =====
-- The device part of internal/sidecar/tunnel.go: when the client reconfigures wg0, and its startup
-- check.
use wireguard_operator.Prelude.{
  ℕ, ◌-◌, ◌/◌, ◌%◌, ◌^◌, ◌<◌, length, str_eq_refl, str_eq, Bool, true, false, ◌&&◌, List, [], ◌∷◌,
  ◌↔◌, inl, inr, Option, none, some, ◌≡◌, refl, ap, arith, leb, ◌==◌, if◌then◌else◌, Bool-cases,
  ==_refl,
}
use wireguard_operator.Netip.Addr.{Addr, v4, v6, addr_eq, Prefix, prefix_eq}
use wireguard_operator.Netip.Laws.{addr_eq_refl, prefix4}
use wireguard_operator.Api.External.{Key}
use wireguard_operator.Netip.AddrPort.{AddrPort}
use wireguard_operator.Sidecar.Tunnel.{Tunnel}

-- resources.Keepalive, in seconds
abbrev pub keepalive : ℕ
keepalive = 25

-- What the client reads of a wgtypes.Peer: an endpoint may be nil, allowed IPs are networks, and the
-- time of the last handshake is `none` for the zero time.
pub record DevicePeer : Type 0 where
  pub public_key : Key
  pub endpoint : Option AddrPort
  pub keepalive_interval : ℕ
  pub allowed_ips : List Prefix
  pub last_handshake : Option ℕ

pub record Device : Type 0 where
  pub private_key : Key
  pub peers : List DevicePeer

-- wgtypes.Config with the one peer that deviceConfig sets; ReplacePeers and ReplaceAllowedIPs are set
pub record DeviceConfig : Type 0 where
  pub private_key : Key
  pub public_key : Key
  pub endpoint : AddrPort
  pub keepalive_interval : ℕ
  pub allowed_ips : List Prefix

-- Addr.Unmap: the IPv4 address of an IPv4-mapped one
unfoldable pub unmap : Addr → Addr
unmap (v6 n z) = if n / 2 ^ 32 == 65535 then v4 (n % 2 ^ 32) else v6 n z
unmap a = a

-- 0.0.0.0/0
abbrev pub everything : Prefix
everything = prefix4 0 0

abbrev endpoint_matches : Option AddrPort → AddrPort → Bool
endpoint_matches none e = false
endpoint_matches (some a) e = addr_eq (unmap a.addr) e.addr && a.port == e.port

abbrev only_everything : List Prefix → Bool
only_everything [] = false
only_everything (p ∷ []) = prefix_eq p everything
only_everything (p ∷ q ∷ ps) = false

abbrev one_matches : List DevicePeer → Tunnel → Bool
one_matches [] t = false
one_matches (p ∷ q ∷ ps) t = false
one_matches (p ∷ []) t =
    str_eq p.public_key t.server_key
    && p.keepalive_interval == keepalive
    && endpoint_matches p.endpoint t.endpoint
    && only_everything p.allowed_ips

-- deviceMatches: `none` is a nil device
unfoldable pub device_matches : Option Device → Key → Tunnel → Bool
unfolding unmap
device_matches none key t = false
device_matches (some dev) key t = str_eq dev.private_key key && one_matches dev.peers t

-- deviceConfig: `none` when the device already matches
unfoldable pub device_config : Option Device → Key → Tunnel → Option DeviceConfig
device_config dev key t =
    if device_matches dev key t
    then none
    else some (record {
      private_key = key;
      public_key = t.server_key;
      endpoint = t.endpoint;
      keepalive_interval = keepalive;
      allowed_ips = everything ∷ [];
    })

-- What the device holds after a configuration that replaces its peers.
abbrev pub Configured : DeviceConfig → Device → Type 0
Configured cfg dev =
    (handshake : Option ℕ) × (dev ≡ record {
      private_key = cfg.private_key;
      peers =
          record {
            public_key = cfg.public_key;
            endpoint = some cfg.endpoint;
            keepalive_interval = cfg.keepalive_interval;
            allowed_ips = cfg.allowed_ips;
            last_handshake = handshake;
          }
          ∷ [];
    })

matches_self :
    (cfg : DeviceConfig) (t : Tunnel) (handshake : Option ℕ)
    → unmap t.endpoint.addr ≡ t.endpoint.addr
    → device_matches
        (some (record {
          private_key = cfg.private_key;
          peers =
              record {
                public_key = t.server_key;
                endpoint = some t.endpoint;
                keepalive_interval = keepalive;
                allowed_ips = everything ∷ [];
                last_handshake = handshake;
              }
              ∷ [];
        }))
        cfg.private_key
        t
      ≡ true
unfolding device_matches unmap prefix_eq addr_eq
matches_self cfg t handshake plain =
    rw (str_eq_refl cfg.private_key, str_eq_refl t.server_key)
      (ground (
        arith,
        ap (λ a. addr_eq a t.endpoint.addr) plain,
        addr_eq_refl t.endpoint.addr,
        ==_refl t.endpoint.port,
      ))

-- A device that holds the configuration which deviceConfig gave is not configured again, so a pass
-- never resets a live session, when the endpoint is not an IPv4-mapped IPv6 address.
pub device_config_stable :
    (before : Option Device) (dev : Device) (key : Key) (t : Tunnel) (cfg : DeviceConfig)
    → unmap t.endpoint.addr ≡ t.endpoint.addr
    → device_config before key t ≡ some cfg
    → Configured cfg dev
    → device_config (some dev) key t ≡ none
unfolding device_config
device_config_stable before dev key t cfg plain h (handshake, e) =
    elim (Bool-cases (device_matches before key t)) [
      | inl same ↦ absurd (cc (rw (same, device_config) at h))
      | inr differ ↦
          let shape = rw (differ, device_config) at h in
          let again = matches_self cfg t handshake plain in cc
    ]

-- Why the startup check fails.
pub data CheckError : Type 0 where
  peer_count : ℕ → CheckError
  no_handshake : CheckError
  stale_handshake : ℕ → CheckError

-- handshakeMaxAge, in seconds
abbrev pub handshake_max_age : ℕ
handshake_max_age = 180

abbrev judge_handshake : Option ℕ → ℕ → Option CheckError
judge_handshake none now = some no_handshake
judge_handshake (some last) now =
    if leb handshake_max_age (now - last) then some (stale_handshake (now - last)) else none

-- checkDevice: times in seconds; an age below zero counts as zero
unfoldable pub check_device : Device → ℕ → Option CheckError
check_device dev now = elim dev.peers [
  | [] ↦ some (peer_count 0)
  | p ∷ ps ↦ elim ps [
    | [] ↦ judge_handshake p.last_handshake now
    | q ∷ qs ↦ some (peer_count (length dev.peers))
  ]
]

-- A device that the startup check accepts.
abbrev pub Connected : Device → ℕ → Type 0
Connected dev now =
    (p : DevicePeer) × (last : ℕ) × (dev.peers ≡ p ∷ [])
    × (p.last_handshake ≡ some last)
    × (now - last < handshake_max_age)

judge_handshake-none :
    (o : Option ℕ) (now : ℕ)
    → judge_handshake o now ≡ none
    → (last : ℕ) × (o ≡ some last) × (now - last < handshake_max_age)
judge_handshake-none none now h = absurd (cc)
judge_handshake-none (some last) now h = (last, refl, ground arith)

abbrev check_peers : List DevicePeer → ℕ → ℕ → Option CheckError
check_peers ps count now = elim ps [
  | [] ↦ some (peer_count 0)
  | p ∷ rest ↦ elim rest [
    | [] ↦ judge_handshake p.last_handshake now
    | q ∷ qs ↦ some (peer_count count)
  ]
]

check_peers-none :
    (ps : List DevicePeer) (count now : ℕ)
    → check_peers ps count now ≡ none
    → (p : DevicePeer) × (last : ℕ) × (ps ≡ p ∷ [])
      × (p.last_handshake ≡ some last)
      × (now - last < handshake_max_age)
check_peers-none [] count now h = absurd (cc)
check_peers-none (p ∷ []) count now h =
    let (last, e, young) = judge_handshake-none p.last_handshake now h in (p, last, refl, e, young)
check_peers-none (p ∷ q ∷ qs) count now h = absurd (cc)

fresh_handshake :
    (last now : ℕ) → now - last < handshake_max_age → judge_handshake (some last) now ≡ none
fresh_handshake last now h = ground arith

-- checkDevice accepts exactly a device with one peer whose last handshake is less than 180 seconds
-- old.
pub check_device_iff : (dev : Device) (now : ℕ) → (check_device dev now ≡ none) ↔ Connected dev now
unfolding check_device
check_device_iff dev now = (
  check_peers-none dev.peers (length dev.peers) now,
  λ c. let (p, last, e, f, young) = c in rw (e, check_device, f) (fresh_handshake last now young),
)
