-- ===== src/Controller/Reconcile/Admitted.antt =====
-- What reconcilePeers returns, whatever the API answers.
use wireguard_operator.Prelude.{
  All, All-map, Str, true, List, [], ◌∷◌, map, ◌≢◌, inl, inr, Option, none, some, ◌≡◌, refl, subst,
  arith, Bool-cases,
}
use wireguard_operator.Netip.Addr.{is4, Prefix}
use wireguard_operator.Netip.Parse.{parse_prefix}
use wireguard_operator.Api.Types.{
  WireguardPeer, WireguardPeerSpec, Wireguard, NamespacedName, key_eq,
}
use wireguard_operator.Api.Exec.{ok, Exec, pure, ◌>>=◌, >>=-eq-ok}
use wireguard_operator.Api.External.{Meta, WgTypes}
use wireguard_operator.Api.Client.{Client, Echoes}
use wireguard_operator.Ipam.{get_used_ips, address_usable}
use wireguard_operator.Controller.Peers.{
  NotReady, admission_problem, gateway_key, namespace_not_allowed,
}
use wireguard_operator.Controller.Dedupe.{
  ConflictLoser, address_of, public_key_of, dedupe_addresses, dedupe_public_keys,
}
use wireguard_operator.Controller.Dedupe.Divide.{Distinct, Riffle, done, kept, lost}
use wireguard_operator.Controller.Dedupe.Laws.{dedupe_addresses-Settles, dedupe_public_keys-Settles}
use wireguard_operator.Controller.Reconcile.{
  Packages, effective_peer_cidr4, related_peers, peer_problem, clear_unusable, get_wireguard_peers,
  admit_peers, judged, mark_or_skip, allocate_peers, admitted_keys, reconcile_peers, release_losers,
  address_loser, key_loser,
}
use wireguard_operator.Controller.Reconcile.Served.{Served, allocate_loop-Served}
use wireguard_operator.Controller.Reconcile.Pool.{
  Served-All, Served-Distinct_keys, Served-usable, Served-Distinct_addresses,
}
use wireguard_operator.Controller.Reconcile.Clear.{
  map-clear_unusable, map-clear_unusable_keys, map-clear_unusable-Fit, get_used_ips-Counted,
  get_used_ips-reserved,
}

Riffle-All :
    (P : WireguardPeer → Type 0) {keep peers : List WireguardPeer} {losers : List ConflictLoser}
    → Riffle keep losers peers
    → All P peers
    → All P keep
Riffle-All P done h = tt
Riffle-All P (kept p r) h = (h.0, Riffle-All P r h.1)
Riffle-All P (lost l r) h = Riffle-All P r h.1

Riffle-Distinct :
    (value : WireguardPeer → Str) {keep peers : List WireguardPeer} {losers : List ConflictLoser}
    → Riffle keep losers peers
    → Distinct value peers
    → Distinct value keep
Riffle-Distinct value done h = tt
Riffle-Distinct value (kept p r) h =
    (Riffle-All (λ q. value p ≢ [] → value p ≢ value q) r h.0, Riffle-Distinct value r h.1)
Riffle-Distinct value (lost l r) h = Riffle-Distinct value r h.1

related_peers-All :
    (req : NamespacedName) (ps : List WireguardPeer)
    → All (λ p. key_eq (gateway_key p) req ≡ true) (related_peers req ps)
unfolding related_peers
related_peers-All req [] = tt
related_peers-All req (p ∷ ps) = elim (Bool-cases (key_eq (gateway_key p) req)) [
  | inl attached ↦ rw attached (attached, related_peers-All req ps)
  | inr other ↦ rw other (related_peers-All req ps)
]

module _ {W : Type 0} (c : Client W) (meta : Meta) (wgtypes : WgTypes) (wg : Wireguard) where
  -- The namespace is allowed and the key is usable.
  abbrev pub Welcome : WireguardPeer → Type 0
  Welcome p = peer_problem wgtypes wg p ≡ none

  admit_step :
      (P : WireguardPeer → Type 0) (p : WireguardPeer) (m : Exec W (List WireguardPeer))
      (out : List WireguardPeer) (w : W)
      → ((rest : List WireguardPeer) (w' : W)
          → (m w').0 ≡ ok rest
          → All (λ q. Welcome q × P q) rest)
      → P p
      → (o : Option NotReady) → peer_problem wgtypes wg p ≡ o
      → (judged c meta
          (m >>= λ rest. pure (p ∷ rest))
          (λ nr. mark_or_skip c meta p nr >>= λ _. m)
          o
          w).0
        ≡ ok out
      → All (λ q. Welcome q × P q) out
  admit_step P p m out w ih hp none e h =
      let (rest, f, last) = >>=-eq-ok m (λ rest. pure (p ∷ rest)) w out h in
      subst (All (λ q. Welcome q × P q)) {x = p ∷ rest} (ground arith) ((e, hp), ih rest w f)
  admit_step P p m out w ih hp (some nr) e h =
      let (_, f, last) = >>=-eq-ok (mark_or_skip c meta p nr) (λ _. m) w out h in
      ih out (mark_or_skip c meta p nr w).1 last

  -- admitPeers returns peers that are welcome, and what held of all still holds.
  admit_peers-All :
      (P : WireguardPeer → Type 0) (ps out : List WireguardPeer) (w : W)
      → All P ps
      → (admit_peers c meta wgtypes wg ps w).0 ≡ ok out
      → All (λ q. Welcome q × P q) out
  unfolding admit_peers
  admit_peers-All P [] out w h e = subst (All (λ q. Welcome q × P q)) {x = []} (ground arith) tt
  admit_peers-All P (p ∷ ps) out w h e =
      admit_step P p (admit_peers c meta wgtypes wg ps) out w
        (λ rest w' f. admit_peers-All P ps rest w' h.1 f) h.0 (peer_problem wgtypes wg p) refl e

-- A peer of which only the namespace and the spec are known.
abbrev bare : Str → WireguardPeerSpec → WireguardPeer
bare namespace spec = record {
  name = [];
  namespace = namespace;
  uid = [];
  creation_timestamp = 0;
  generation = 0;
  owner_references = [];
  spec = spec;
  status = record {
    status = [];
    message = [];
    address = [];
    endpoint = [];
    server_public_key = [];
    local_cidrs = [];
    conditions = [];
  };
}

-- admission reads the namespace and the spec alone
peer_problem-bare :
    (wgtypes : WgTypes) (wg : Wireguard) (p : WireguardPeer)
    → peer_problem wgtypes wg p ≡ peer_problem wgtypes wg (bare p.namespace p.spec)
unfolding peer_problem namespace_not_allowed admission_problem
peer_problem-bare wgtypes wg p = refl

gateway_key-bare : (p : WireguardPeer) → gateway_key p ≡ gateway_key (bare p.namespace p.spec)
unfolding gateway_key
gateway_key-bare p = refl

-- What the server lists: each peer names this Wireguard, is allowed to and has a usable key, and
-- holds a usable address; no two have one key, and no two one address.
pub record IsAdmitted (wgtypes : WgTypes) (req : NamespacedName) (wg : Wireguard)
    (out : List WireguardPeer) : Type 0 where
  pub attached : All (λ p. key_eq (gateway_key p) req ≡ true) out
  pub welcome : All (λ p. peer_problem wgtypes wg p ≡ none) out
  pub usable : All (λ p. address_usable p.status.address (effective_peer_cidr4 wg) ≡ true) out
  pub one_key : Distinct public_key_of out
  pub one_address : Distinct address_of out

module _ {W : Type 0} (c : Client W) (pkg : Packages) (req : NamespacedName) (wg : Wireguard) where
  get_wireguard_peers-All :
      (ps : List WireguardPeer) (w : W)
      → (get_wireguard_peers c pkg.meta req w).0 ≡ ok ps
      → All (λ p. key_eq (gateway_key p) req ≡ true) ps
  unfolding get_wireguard_peers
  get_wireguard_peers-All ps w h =
      let (all, e, last) =
        >>=-eq-ok c.list_peers (λ peers. pure (related_peers req peers)) w ps h in
      subst (All (λ p. key_eq (gateway_key p) req ≡ true)) {x = related_peers req all}
        (ground arith) (related_peers-All req all)

  -- What the pass knows of its peers by their namespace and spec.
  abbrev Accepted : Str → Str → WireguardPeerSpec → Type 0
  Accepted _ namespace spec =
      (peer_problem pkg.wgtypes wg (bare namespace spec) ≡ none)
      × (key_eq (gateway_key (bare namespace spec)) req ≡ true)

  -- The last two calls of reconcilePeers, from peers that are accepted and have one key each.
  allocated-IsAdmitted :
      Echoes c
      → (p : Prefix) → parse_prefix (effective_peer_cidr4 wg) ≡ some p
      → is4 p.addr ≡ true
      → (ps out : List WireguardPeer) (w : W) → All (λ q. Accepted q.name q.namespace q.spec) ps
      → Distinct public_key_of ps
      → (allocate_peers c pkg.meta pkg.gen
          (effective_peer_cidr4 wg)
          (dedupe_addresses (map (clear_unusable (effective_peer_cidr4 wg)) ps)).0
          w).0
        ≡ ok out
      → IsAdmitted pkg.wgtypes req wg out
  unfolding allocate_peers
  allocated-IsAdmitted echoes p parsed family ps out w accepted one_key h =
      let cidr4 : Str = effective_peer_cidr4 wg in
      let cleared : List WireguardPeer = map (clear_unusable cidr4) ps in
      let keep : List WireguardPeer = (dedupe_addresses cleared).0 in
      let settled = dedupe_addresses-Settles cleared in
      let s : Served pkg.gen cidr4 (get_used_ips cidr4 keep) keep out =
        allocate_loop-Served c pkg.meta echoes pkg.gen cidr4 (get_used_ips cidr4 keep) keep out w
          h in
      let r = get_used_ips-reserved cidr4 keep in
      let fine : All (λ q. Accepted q.name q.namespace q.spec) out =
        Served-All pkg.gen cidr4 Accepted s (
          Riffle-All (λ q. Accepted q.name q.namespace q.spec) settled.woven
            (map-clear_unusable cidr4 Accepted ps accepted)) in
      record {
        attached =
            All-map _ (λ q. key_eq (gateway_key q) req ≡ true) (λ q a. rw gateway_key-bare a.1) out
              fine;
        welcome =
            All-map _ (λ q. peer_problem pkg.wgtypes wg q ≡ none) (λ q a. rw peer_problem-bare a.0)
              out fine;
        usable =
            Served-usable pkg.gen cidr4 p parsed family s r
              (Riffle-All _ settled.woven (map-clear_unusable-Fit cidr4 ps));
        one_key = Served-Distinct_keys pkg.gen cidr4 s (
            Riffle-Distinct public_key_of settled.woven (map-clear_unusable_keys cidr4 ps one_key));
        one_address =
            Served-Distinct_addresses pkg.gen cidr4 p parsed family s r
              (get_used_ips-Counted cidr4 keep) settled.distinct;
      }

  -- When reconcilePeers returns peers, for a Wireguard whose peerCIDR is an IPv4 prefix, then each
  -- of them names the Wireguard, is in an allowed namespace, has a usable public key and holds an
  -- address that addressUsable accepts; no two of them have the same public key or address. The API
  -- may answer in any way that returns what a successful status write has written.
  pub reconcile_peers-IsAdmitted :
      Echoes c
      → (p : Prefix) → parse_prefix (effective_peer_cidr4 wg) ≡ some p
      → is4 p.addr ≡ true
      → (out : List WireguardPeer) (w : W) → (reconcile_peers c pkg req wg w).0 ≡ ok out
      → IsAdmitted pkg.wgtypes req wg out
  unfolding reconcile_peers
  reconcile_peers-IsAdmitted echoes p parsed family out w h =
      let (current, e1, h1) = >>=-eq-ok (admitted_keys c pkg wg) _ w out h in
      let w1 : W = (admitted_keys c pkg wg w).1 in
      let (peers, e2, h2) = >>=-eq-ok (get_wireguard_peers c pkg.meta req) _ w1 out h1 in
      let w2 : W = (get_wireguard_peers c pkg.meta req w1).1 in
      let (admitted, e3, h3) =
        >>=-eq-ok (admit_peers c pkg.meta pkg.wgtypes wg peers) _ w2 out h2 in
      let w3 : W = (admit_peers c pkg.meta pkg.wgtypes wg peers w2).1 in
      let (one_key, key_losers) = dedupe_public_keys admitted current in
      let keys = dedupe_public_keys-Settles admitted current in
      let (_, e4, h4) = >>=-eq-ok (release_losers c pkg.meta key_loser key_losers) _ w3 out h3 in
      let w4 : W = (release_losers c pkg.meta key_loser key_losers w3).1 in
      let (keep, losers) =
        dedupe_addresses (map (clear_unusable (effective_peer_cidr4 wg)) one_key) in
      let (_, e5, h5) = >>=-eq-ok (release_losers c pkg.meta address_loser losers) _ w4 out h4 in
      let attached = get_wireguard_peers-All peers w1 e2 in
      let welcome =
        admit_peers-All c pkg.meta pkg.wgtypes wg (λ q. key_eq (gateway_key q) req ≡ true) peers
          admitted w2 attached e3 in
      allocated-IsAdmitted echoes p parsed family one_key out
        (release_losers c pkg.meta address_loser losers w4).1
        (All-map _ (λ q. Accepted q.name q.namespace q.spec)
          (λ q a. (rw peer_problem-bare at (a.0), rw gateway_key-bare at (a.1))) one_key
          (Riffle-All _ keys.woven welcome))
        keys.distinct h5
