-- ===== src/Examples/Node.antt =====
-- Runs and witnesses of the link's wait, of its address and of the key file.
use wireguard_operator.Prelude.{
  ℕ, zero, suc, ◌+◌, In, All, Str, Bool, true, List, [], ◌∷◌, ◌≢◌, ◌↔◌, ◌⊎◌, inl, inr, Option, none,
  some, ◌≡◌, refl, sym, ap, ◌∙◌, subst, arith, leb, ◌==◌, if◌then◌else◌, Bool-cases, ==→≡, ==_refl,
}
use wireguard_operator.Netip.Addr.{Prefix, addr_eq, prefix_eq}
use wireguard_operator.Netip.Laws.{prefix4}
use wireguard_operator.Api.Exec.{Result, ok, err, not_found, already_exists, other_error, ◌>>=◌}
use wireguard_operator.Api.External.{WgTypes, Key}
use wireguard_operator.Wireguard.{others, address_changes, has_address}
use wireguard_operator.Wireguard.Address.{others-In, others-keeps}
use wireguard_operator.Wireguard.Netlink.{Link, Node, Clock, Addresses}
use wireguard_operator.Wireguard.Link.{found, poll, wait_for_link, sync_address, remove_all}
use wireguard_operator.Wireguard.Link.Waiting.{Ended, wait_for_link-Ended}
use wireguard_operator.Wireguard.Link.Only.{Synced, sync_address-Only}
use wireguard_operator.Sidecar.KeyFile.{KeyDisk, create_key, load_or_create_key, ascii_space}
use wireguard_operator.Sidecar.KeyFile.Kept.{Files, IsPlain, load_or_create_key-Kept}

abbrev wg_link : Link
wg_link = record { index = 7; mtu = 1420 }

-- a node whose state is its clock and the addresses of its one link, which is there from 0.2 s on
abbrev node_at : (ℕ × List Prefix → Bool) → Node (ℕ × List Prefix)
node_at there = record {
  link_by_name = λ iface w. (if there w then ok wg_link else err not_found, w);
  link_add = λ iface mtu w. (err (other_error []), w);
  link_set_mtu = λ link mtu w. (ok tt, w);
  link_set_up = λ link w. (ok tt, w);
  addr_list = λ link w. (ok w.1, w);
  addr_del = λ link p w. (ok tt, (w.0, others w.1 p));
  addr_add = λ link p w. (ok tt, (w.0, p ∷ w.1));
  route_list = λ link w. (ok [], w);
  route_add = λ r w. (ok tt, w);
  mkdir_dev_net = λ w. (ok tt, w);
  stat_tun = λ w. (ok true, w);
  mknod_tun = λ w. (ok tt, w);
  start_command = λ c i w. (ok tt, w);
  now = λ w. (w.0, w);
  sleep = λ d w. (w.0 + d, w.1);
  open_client = λ w. (ok tt, w);
  close_client = λ w. (ok tt, w);
  device_peers = λ iface w. (ok [], w);
  configure_device = λ iface cfg w. (ok tt, w);
}

abbrev appears : ℕ × List Prefix → Bool
appears w = leb 200000000 w.0

abbrev clock : Clock (ℕ × List Prefix) (node_at appears)
clock = record {
  time = λ w. w.0;
  now-time = λ w. (omega arith, omega arith);
  sleep-time = λ d w. omega arith;
  link-time = λ iface w. omega arith;
}

-- the third lookup finds the link
wait_run : wait_for_link (node_at appears) [] 5000000000 (0, []) ≡ (found, (200000000, []))
unfolding wait_for_link poll
wait_run = refl

wait_for_link-Ended_example :
    Ended
      (node_at appears)
      clock
      []
      (0 + 5000000000)
      (wait_for_link (node_at appears) [] 5000000000 (0, []))
wait_for_link-Ended_example = wait_for_link-Ended (node_at appears) clock [] 5000000000 (0, [])

others-sub : (ps : List Prefix) (p q : Prefix) → In q (others ps p) → In q ps
unfolding others
others-sub [] p q m = m
others-sub (r ∷ ps) p q m = elim (Bool-cases (prefix_eq r p)) [
  | inl same ↦ inr (others-sub ps p q (rw same at m))
  | inr other ↦
      let split : (q ≡ r) ⊎ In q (others ps p) = rw other at m in
      elim split [ inl e ↦ inl e | inr later ↦ inr (others-sub ps p q later) ]
]

removed : (ps : List Prefix) (p q : Prefix) → In q (others ps p) ↔ (In q ps × (q ≢ p))
removed ps p q = (
  λ m. (others-sub ps p q m, λ e. others-keeps ps p (subst (λ x. In x (others ps p)) e m)),
  λ (m, k). elim (others-In ps p q m) [ inl e ↦ absurd (k e) | inr there ↦ there ],
)

-- the addresses of each link
abbrev Links : Type 0
Links = ℕ → List Prefix

abbrev put_at : ℕ → List Prefix → Links → Links
put_at n ps w i = if i == n then ps else w i

put_at-same : (n : ℕ) (ps : List Prefix) (w : Links) → put_at n ps w n ≡ ps
put_at-same n ps w = rw (==_refl n) refl

put_at-other : (n : ℕ) (ps : List Prefix) (w : Links) (i : ℕ) → i ≢ n → put_at n ps w i ≡ w i
put_at-other n ps w i h = elim (Bool-cases (i == n)) [
  | inl same ↦ absurd (h (==→≡ i n same))
  | inr other ↦ rw other refl
]

-- a node with a loopback link, 1, and the wireguard link, 7
abbrev two_links : Node Links
two_links = record {
  link_by_name = λ iface w. (ok wg_link, w);
  link_add = λ iface mtu w. (err already_exists, w);
  link_set_mtu = λ link mtu w. (ok tt, w);
  link_set_up = λ link w. (ok tt, w);
  addr_list = λ link w. (ok (w link.index), w);
  addr_del = λ link p w. (ok tt, put_at link.index (others (w link.index) p) w);
  addr_add = λ link p w. (ok tt, put_at link.index (p ∷ w link.index) w);
  route_list = λ link w. (ok [], w);
  route_add = λ r w. (ok tt, w);
  mkdir_dev_net = λ w. (ok tt, w);
  stat_tun = λ w. (ok true, w);
  mknod_tun = λ w. (ok tt, w);
  start_command = λ c i w. (ok tt, w);
  now = λ w. (0, w);
  sleep = λ d w. w;
  open_client = λ w. (ok tt, w);
  close_client = λ w. (ok tt, w);
  device_peers = λ iface w. (ok [], w);
  configure_device = λ iface cfg w. (ok tt, w);
}

addresses : Addresses Links two_links
addresses = record {
  held = λ w. w;
  link-held = λ iface w i. refl;
  list-held = λ link w ps h. (cc);
  list-same = λ link w i. refl;
  del-held = λ link p q w h.
      rw (put_at-same link.index (others (w link.index) p) w) (removed (w link.index) p q);
  del-other = λ link p w i h. put_at-other link.index (others (w link.index) p) w i h;
  add-held = λ link p q w h. rw (put_at-same link.index (p ∷ w link.index) w) (
    λ m. elim m [ inl e ↦ inr e | inr old ↦ inl old ],
    λ m. elim m [ inl old ↦ inr old | inr e ↦ inl e ],
  );
  add-other = λ link p w i h. put_at-other link.index (p ∷ w link.index) w i h;
  up-held = λ link w i. refl;
}

wanted : Prefix
unfolding prefix4
wanted = prefix4 0x0a080001 32

old_address : Prefix
unfolding prefix4
old_address = prefix4 0x0a090001 32

loopback : Prefix
unfolding prefix4
loopback = prefix4 0x7f000001 8

before_sync : Links
unfolding old_address loopback
before_sync = put_at 7 (old_address ∷ []) (put_at 1 (loopback ∷ []) (λ i. []))

sync_address_run : (sync_address two_links [] wanted before_sync).0 ≡ ok tt
unfolding sync_address ◌>>=◌ wanted old_address address_changes others has_address prefix_eq addr_eq
    remove_all before_sync
sync_address_run = refl

sync_address-Only_example :
    Synced two_links addresses wanted [] before_sync tt
      (sync_address two_links [] wanted before_sync).1
sync_address-Only_example =
    sync_address-Only two_links addresses wanted [] before_sync sync_address_run

-- keys whose text is each number in unary, closed by a zero
ones : ℕ → Str → Str
ones zero s = s
ones (suc n) s = 49 ∷ ones n s

unary : Key → Str
unfolding ones
unary [] = []
unary (n ∷ k) = ones n (48 ∷ unary k)

numbers : ℕ → Str → List ℕ
numbers acc [] = []
numbers acc (b ∷ s) =
    let rest = numbers (acc + 1) s in let next = numbers 0 s in if b == 48 then acc ∷ next else rest

numbers-ones : (n acc : ℕ) (s : Str) → numbers acc (ones n (48 ∷ s)) ≡ (acc + n) ∷ numbers 0 s
unfolding numbers ones
numbers-ones zero acc s = ap (λ x. x ∷ numbers 0 s) (omega arith)
numbers-ones (suc n) acc s = numbers-ones n (acc + 1) s ∙ ap (λ x. x ∷ numbers 0 s) (omega arith)

numbers-unary : (k : Key) → numbers 0 (unary k) ≡ k
unfolding unary numbers
numbers-unary [] = refl
numbers-unary (n ∷ k) =
    numbers-ones n 0 (unary k)
    ∙ ap (λ x. (0 + n) ∷ x) (numbers-unary k)
    ∙ ap (λ x. x ∷ k) (omega arith)

unary-text : (k : Key) → some (numbers 0 (unary k)) ≡ some k
unary-text k = ap (λ x. some x) (numbers-unary k)

abbrev unary_keys : WgTypes
unfolding numbers unary unary-text
unary_keys = record {
  parse_key = λ s. some (numbers 0 s);
  key_text = unary;
  public_key = λ k. k;
  parse-text = unary-text;
}

ones-IsPlain : (n : ℕ) (s : Str) → All IsPlain s → All IsPlain (ones n s)
unfolding ones ascii_space
ones-IsPlain zero s h = h
ones-IsPlain (suc n) s h = ((refl, refl), ones-IsPlain n s h)

unary-IsPlain : (k : Key) → All IsPlain (unary k)
unfolding unary ascii_space
unary-IsPlain [] = tt
unary-IsPlain (n ∷ k) = ones-IsPlain n (48 ∷ unary k) ((refl, refl), unary-IsPlain k)

abbrev read_file : Option Str → Result Str
read_file none = err not_found
read_file (some s) = ok s

abbrev created : Option Str → Result Unit × Option Str
created none = (ok tt, some [])
created (some s) = (err already_exists, some s)

-- a disk of one file
abbrev disk : KeyDisk (Option Str)
disk = record {
  read_file = λ path w. (read_file w, w);
  create_exclusive = λ path w. created w;
  write_string = λ path s w. (ok tt, some s);
  close_file = λ path w. (ok tt, w);
  generate_private_key = λ w. (ok (2 ∷ []), w);
}

read-some : (w : Option Str) (s : Str) → read_file w ≡ ok s → (w ≡ some s) × (w ≡ some s)
read-some none s h = absurd (cc)
read-some (some t) s h = ((cc), (cc))

created-empty : (w : Option Str) → (created w).0 ≡ ok tt → (created w).1 ≡ some []
created-empty none h = refl
created-empty (some s) h = absurd (cc)

abbrev files : Files (Option Str) disk
unfolding read-some created-empty
files = record {
  content = λ w path. w;
  read-content = λ path w s h. read-some w s h;
  create-content = λ path w h. created-empty w h;
  write-content = λ path s w e h. refl;
  close-content = λ path w. refl;
}

unary_keys-IsPlain : (key : Key) → All IsPlain (unary_keys.key_text key)
unfolding unary_keys
unary_keys-IsPlain = unary-IsPlain

abbrev first_key : Key
first_key = 2 ∷ []

first_load : load_or_create_key disk unary_keys [] none ≡ (ok first_key, some (49 ∷ 49 ∷ 48 ∷ []))
unfolding load_or_create_key create_key ◌>>=◌ unary_keys unary ones
first_load = refl

load_or_create_key-Kept_example :
    load_or_create_key disk unary_keys [] (some (49 ∷ 49 ∷ 48 ∷ []))
    ≡ (ok first_key, some (49 ∷ 49 ∷ 48 ∷ []))
unfolding files load_or_create_key
load_or_create_key-Kept_example =
    load_or_create_key-Kept disk files unary_keys unary_keys-IsPlain [] none
      (some (49 ∷ 49 ∷ 48 ∷ [])) first_key (49 ∷ 49 ∷ 48 ∷ []) (ap (λ r. r.0) first_load)
      (sym (ap (λ r. r.1) first_load)) refl
