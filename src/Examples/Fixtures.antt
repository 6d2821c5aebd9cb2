-- ===== src/Examples/Fixtures.antt =====
-- Concrete instances of the interfaces, and a small cluster for the witnesses.
use wireguard_operator.Prelude.{
  ℕ, zero, suc, ◌+◌, ◌-◌, ◌*◌, ◌/◌, ◌^◌, ◌≤◌, ◌<◌, In, All, Str, str_eq_iff, text, str_eq, true,
  List, [], ◌∷◌, inl, inr, Option, none, some, ◌≡◌, refl, sym, ap, ◌∙◌, subst, arith, ◌==◌,
  if◌then◌else◌, Bool-cases, ==→≡, ==_refl,
}
use native.Mathlib.Nat.{div-lt_iff_lt-mul, div-eq_of_lt-le, div-mul-le_self, lt-div-mul-add}
use wireguard_operator.Netip.Addr.{Addr, invalid, v4, v6, is4, Prefix, contains_ip, same_network}
use wireguard_operator.Netip.Parse.{parse_prefix}
use wireguard_operator.Netip.ParseLaws.{parse_prefix-IsPrefix4}
use wireguard_operator.Netip.Laws.{prefix4, contains_v4, pow_add, two_pow_pos}
use wireguard_operator.Api.Types.{Condition, WireguardPeer, Wireguard, NamespacedName, no_resources}
use wireguard_operator.Api.Exec.{ok, err, not_found}
use wireguard_operator.Api.External.{Meta, WgTypes, IpNetGen, Inside}
use wireguard_operator.Api.Client.{Client, Echoes, SamePeer}
use wireguard_operator.Controller.Reconcile.{Packages}

-- conditions as an association list
find : List Condition → Str → Option Condition
find [] t = none
find (c ∷ cs) t = let rest = find cs t in if str_eq c.type t then some c else rest

remove : List Condition → Str → List Condition
remove [] t = []
remove (c ∷ cs) t = let rest = remove cs t in if str_eq c.type t then rest else c ∷ rest

find-remove_lem :
    (cs : List Condition) (t u : Str)
    → find (remove cs t) u ≡ (if str_eq t u then none else find cs u)
unfolding find remove
find-remove_lem [] t u = ground arith
find-remove_lem (c ∷ cs) t u =
    ground (arith, find-remove_lem cs t u, str_eq_iff c.type t, str_eq_iff c.type u, str_eq_iff t u)

find-cons :
    (cs : List Condition) (c : Condition) (t : Str)
    → find (c ∷ cs) t ≡ (if str_eq c.type t then some c else find cs t)
unfolding find
find-cons cs c t = refl

unfoldable pub list_meta : Meta
unfolding find remove find-cons find-remove_lem
list_meta = record {
  find_status_condition = find;
  set_status_condition = λ cs c. c ∷ cs;
  remove_status_condition = remove;
  find-set = find-cons;
  find-remove = find-remove_lem;
}

-- keys whose text is the key itself
abbrev pub plain_keys : WgTypes
plain_keys = record {
  parse_key = λ s. some s;
  key_text = λ k. k;
  public_key = λ k. k;
  parse-text = λ k. refl;
}

-- `count` addresses from `first` on
run_of : ℕ → ℕ → List Addr
run_of first zero = []
run_of first (suc count) = v4 first ∷ run_of (first + 1) count

run_of-In : (first count n : ℕ) → first ≤ n → n < first + count → In (v4 n) (run_of first count)
unfolding run_of
run_of-In first zero n lo hi = absurd (omega arith)
run_of-In first (suc count) n lo hi = elim (Bool-cases (first == n)) [
  | inl same ↦ inl (ap v4 (sym (==→≡ first n same)))
  | inr other ↦ inr (run_of-In (first + 1) count n (ground arith) (omega arith))
]

run_of-All :
    (P : Addr → Type 0) (first count : ℕ)
    → ((n : ℕ) → first ≤ n → n < first + count → P (v4 n))
    → All P (run_of first count)
unfolding run_of
run_of-All P first zero f = tt
run_of-All P first (suc count) f = (
  f first (omega arith) (omega arith),
  run_of-All P (first + 1) count (λ n lo hi. f n (omega arith) (omega arith)),
)

block : ℕ → ℕ
block b = 2 ^ (32 - b)

unfoldable pub pool_of : Prefix → List Addr
unfolding run_of block
pool_of p = elim p.addr [
  | invalid ↦ []
  | v6 n z ↦ []
  | v4 n ↦
      run_of (n / block (p.bits_plus_one - 1) * block (p.bits_plus_one - 1))
        (block (p.bits_plus_one - 1))
]

unfoldable pub pool : Option Prefix → Option (List Addr)
unfolding pool_of
pool none = none
pool (some p) = some (pool_of p)

pool_block : (n b : ℕ) → pool_of (prefix4 n b) ≡ run_of (n / block b * block b) (block b)
unfolding pool_of
pool_block n b = ap (λ k. run_of (n / block k * block k) (block k)) (omega arith)

block_pos : (b : ℕ) → 0 < block b
unfolding block
block_pos b = two_pow_pos (32 - b)

block_fits : (n b : ℕ) → n < 2 ^ 32 → b ≤ 32 → n / block b * block b + block b ≤ 2 ^ 32
unfolding block
block_fits n b fits short =
    let k : ℕ = 32 - b in
    let whole : 2 ^ 32 ≡ 2 ^ b * 2 ^ k =
      ap (λ x. 2 ^ x) {x = 32} {y = b + k} (omega arith) ∙ pow_add b k in
    let below : n / 2 ^ k < 2 ^ b =
      (div-lt_iff_lt-mul (two_pow_pos k)).1 (subst (λ x. n < x) whole fits) in
    subst (λ x. n / 2 ^ k * 2 ^ k + 2 ^ k ≤ x) (sym whole) (grind arith)

block_same :
    (n b m : ℕ)
    → n / block b * block b ≤ m
    → m < n / block b * block b + block b
    → m / block b ≡ n / block b
block_same n b m lo hi = div-eq_of_lt-le (block b) lo (subst (λ x. m < x) (grind arith) hi)

contains_block : (n b m : ℕ) → contains_ip (prefix4 n b) (v4 m) ≡ (n / block b == m / block b)
unfolding same_network block
contains_block n b m = contains_v4 n b m

pool-Inside : (n b : ℕ) → n < 2 ^ 32 → b ≤ 32 → All (Inside (prefix4 n b)) (pool_of (prefix4 n b))
pool-Inside n b fits short = rw pool_block (
    run_of-All (Inside (prefix4 n b)) (n / block b * block b) (block b) (λ m lo hi. (
      m,
      refl,
      omega (arith, block_fits n b fits short),
      contains_block n b m ∙ rw (block_same n b m lo hi) (==_refl (n / block b)),
    )))

pool-In : (n b : ℕ) (a : Addr) → Inside (prefix4 n b) a → In a (pool_of (prefix4 n b))
pool-In n b a (m, e, fits, inside) =
    let same : n / block b ≡ m / block b =
      ==→≡ _ _
        (sym (contains_block n b m) ∙ subst (λ x. contains_ip (prefix4 n b) x ≡ true) e inside) in
    rw (e, pool_block)
      (run_of-In (n / block b * block b) (block b) m (rw same (div-mul-le_self m (block b)))
        (rw same (lt-div-mul-add {a = m} (block_pos b))))

same_pool :
    (cidr : Str) (p : Prefix) (ips : List Addr)
    → parse_prefix cidr ≡ some p
    → pool (parse_prefix cidr) ≡ some ips
    → pool_of p ≡ ips
unfolding pool
same_pool cidr p ips parsed e = cc (ap pool parsed)

-- the pool of a prefix: all its addresses, in order
pub pool-addresses-Inside :
    (cidr : Str) (p : Prefix) (ips : List Addr)
    → parse_prefix cidr ≡ some p
    → is4 p.addr ≡ true
    → pool (parse_prefix cidr) ≡ some ips
    → All (Inside p) ips
unfolding pool
pool-addresses-Inside cidr p ips parsed family e =
    let (n, b, shape, fits, short) = parse_prefix-IsPrefix4 cidr p parsed family in
    subst (All (Inside p)) {x = pool_of p} (same_pool cidr p ips parsed e)
      (rw shape (pool-Inside n b fits short))

only_v4 :
    (x : Addr) (k m : ℕ)
    → contains_ip (record { addr = x; bits_plus_one = k }) (v4 m) ≡ true
    → is4 x ≡ true
unfolding contains_ip is4
only_v4 (v4 n) k m h = refl
only_v4 invalid k m h = ground arith
only_v4 (v6 n z) k m h = ground arith

Inside-family : (p : Prefix) (a : Addr) → Inside p a → is4 p.addr ≡ true
Inside-family p a (m, e, fits, inside) =
    only_v4 p.addr p.bits_plus_one m (subst (λ x. contains_ip p x ≡ true) e inside)

pub pool-addresses-In :
    (cidr : Str) (p : Prefix) (ips : List Addr) (a : Addr)
    → parse_prefix cidr ≡ some p
    → pool (parse_prefix cidr) ≡ some ips
    → Inside p a
    → In a ips
unfolding pool
pool-addresses-In cidr p ips a parsed e inside =
    let (n, b, shape, fits, short) =
      parse_prefix-IsPrefix4 cidr p parsed (Inside-family p a inside) in
    subst (In a) {x = pool_of p} (same_pool cidr p ips parsed e)
      (rw shape (pool-In n b a (subst (λ q. Inside q a) shape inside)))

unfoldable pub pool_gen : IpNetGen
unfolding pool
pool_gen = record {
  addresses = λ cidr. pool (parse_prefix cidr);
  addresses-Inside = pool-addresses-Inside;
  addresses-In = pool-addresses-In;
}

-- A cluster that holds these peers and no Secret, and takes every status write.
abbrev pub cluster : List WireguardPeer → Wireguard → Client Unit
cluster peers wg = record {
  list_peers = λ w. (ok peers, w);
  update_peer_status = λ p w. (ok p, w);
  get_wireguard = λ k w. (ok wg, w);
  update_wireguard_status = λ x w. (ok x, w);
  get_secret = λ k w. (err not_found, w);
}

pub cluster-Echoes : (peers : List WireguardPeer) (wg : Wireguard) → Echoes (cluster peers wg)
cluster-Echoes peers wg p q w h =
    subst (SamePeer p) {x = p} (ground arith)
      (record { same_name = refl; same_namespace = refl; same_spec = refl; same_address = refl })

unfoldable pub packages : Packages
unfolding list_meta pool_gen
packages = record { meta = list_meta; wgtypes = plain_keys; gen = pool_gen; unmarshal = λ s. none }

unfoldable pub peer : Str → ℕ → Str → Str → WireguardPeer
unfolding text
peer name created key address = record {
  name = name;
  namespace = text "apps";
  uid = [];
  creation_timestamp = created;
  generation = 1;
  owner_references = [];
  spec = record { public_key = key; wireguard_ref = text "gw"; wireguard_namespace = text "vpn" };
  status = record {
    status = [];
    message = [];
    address = address;
    endpoint = [];
    server_public_key = [];
    local_cidrs = [];
    conditions = [];
  };
}

unfoldable pub gateway : Wireguard
unfolding text
gateway = record {
  name = text "gw";
  namespace = text "vpn";
  generation = 1;
  annotations = [];
  spec = record {
    peer_cidr = text "10.8.0.0/29";
    local_cidrs = text "10.96.0.0/12" ∷ [];
    gluetun = record { env = []; env_from = []; resources = no_resources };
    node_selector = [];
    tolerations = [];
    agent = record { resources = no_resources };
    allowed_namespaces = none;
  };
  status = record { status = []; message = []; endpoint = []; public_key = []; conditions = [] };
}

unfoldable pub gateway_request : NamespacedName
unfolding text
gateway_request = record { namespace = text "vpn"; name = text "gw" }
