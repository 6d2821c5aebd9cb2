-- ===== src/Api/External.antt =====
-- The code outside the repository that the operator calls, each package as an interface: its
-- operations, and what its documentation says of them.
use wireguard_operator.Prelude.{
  [], ◌∷◌, ℕ, ◌^◌, ◌<◌, In, All, Str, str_eq, true, List, Option, none, some, ◌≡◌, if◌then◌else◌,
}
use wireguard_operator.Api.Types.{Condition, OwnerReference}
use wireguard_operator.Netip.Addr.{Addr, v4, is4, Prefix, contains_ip}
use wireguard_operator.Netip.Parse.{parse_prefix}

-- k8s.io/apimachinery/pkg/api/meta: a list of conditions is a map keyed by type. The time of the
-- last transition, which the operator never reads, is left out of a condition.
pub record Meta : Type 0 where
  pub find_status_condition : List Condition → Str → Option Condition
  pub set_status_condition : List Condition → Condition → List Condition
  pub remove_status_condition : List Condition → Str → List Condition
  pub find-set :
      (cs : List Condition) (c : Condition) (t : Str)
      → find_status_condition (set_status_condition cs c) t
        ≡ (if str_eq c.type t then some c else find_status_condition cs t)
  pub find-remove :
      (cs : List Condition) (t u : Str)
      → find_status_condition (remove_status_condition cs t) u
        ≡ (if str_eq t u then none else find_status_condition cs u)

-- A WireGuard key: 32 bytes.
abbrev pub Key : Type 0
Key = List ℕ

-- golang.zx2c4.com/wireguard/wgctrl/wgtypes: the base64 form of keys, and the public half of one.
pub record WgTypes : Type 0 where
  pub parse_key : Str → Option Key
  pub key_text : Key → Str
  pub public_key : Key → Key
  pub parse-text : (k : Key) → parse_key (key_text k) ≡ some k

-- An IPv4 address of the prefix.
abbrev pub Inside : Prefix → Addr → Type 0
Inside p a = (n : ℕ) × (a ≡ v4 n) × (n < 2 ^ 32) × (contains_ip p a ≡ true)

-- github.com/korylprince/ipnetgen: New(cidr), then Next until nil; `none` is an error of New. Next
-- runs through the addresses of the subnet, each of them.
pub record IpNetGen : Type 0 where
  pub addresses : Str → Option (List Addr)
  pub addresses-Inside :
      (cidr : Str) (p : Prefix) (ips : List Addr)
      → parse_prefix cidr ≡ some p
      → is4 p.addr ≡ true
      → addresses cidr ≡ some ips
      → All (Inside p) ips
  pub addresses-In :
      (cidr : Str) (p : Prefix) (ips : List Addr) (a : Addr)
      → parse_prefix cidr ≡ some p
      → addresses cidr ≡ some ips
      → Inside p a
      → In a ips

-- metav1.GetControllerOf: the owner that controls an object, if one does; an only owner with its
-- controller bit is it.
pub record Owners : Type 0 where
  pub controller_of : List OwnerReference → Option OwnerReference
  pub controller_of-only :
      (o : OwnerReference) → o.controller ≡ true → controller_of (o ∷ []) ≡ some o
