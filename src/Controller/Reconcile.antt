-- ===== src/Controller/Reconcile.antt =====
-- The peers' part of internal/controller/wireguard_controller.go: reconcilePeers and what it calls.
pub mod Served
pub mod Pool
pub mod Clear
pub mod Admitted
use wireguard_operator.Prelude.{
  ℕ, zero, suc, ◌+◌, ◌-◌, ◌*◌, ◌/◌, ◌%◌, ◌^◌, ◌≤◌, ◌<◌, compare, Ordering, String, length,
  get_elem?, filter, any, find?, In, In-append_left, In-append_right, All, All-In, All-of_In,
  All-append, All-map, Str, str_eq→≡, str_eq_refl, str_eq_iff, is_empty→≡, is_empty_nil, text,
  str_eq, is_empty, str_compare, cut, has_byte, join, contains, contains→In, In→contains,
  contains-false, Bool, true, false, not, ◌&&◌, ◌||◌, List, [], ◌∷◌, ◌++◌, map, ◌≢◌, ◌↔◌, ◌⊎◌, inl,
  inr, Option, none, some, ◌≡◌, refl, sym, ap, ◌∙◌, subst, arith, ltb, leb, ◌==◌, if◌then◌else◌,
  Bool-cases, ==→≡, ==_refl, ltb→lt, ltb→le,
}
use wireguard_operator.Api.Types.{
  WireguardPeer, Wireguard, NamespacedName, Condition, key_eq, peer_key, ready,
}
use wireguard_operator.Api.Exec.{
  ApiError, not_found, conflict, already_exists, invalid_object, other_error, Result, ok, err, Exec,
  pure, fail, attempt, ◌>>=◌, ◌>>◌,
}
use wireguard_operator.Api.External.{Meta, WgTypes, IpNetGen}
use wireguard_operator.Api.Client.{Client, Secret, entry}
use wireguard_operator.Agent.{State}
use wireguard_operator.Ipam.{
  default_peer_cidr4, Allocation, allocated, bad_cidr, no_available_ip, allocate_ip, get_used_ips,
  address_usable,
}
use wireguard_operator.Controller.Peers.{
  NotReady, condition_ready, admission_problem, gateway_key, namespace_not_allowed,
  wireguard_not_found, address_pool_exhausted, address_conflict, public_key_conflict,
  peer_status_matches, not_ready_status,
}
use wireguard_operator.Controller.Dedupe.{ConflictLoser, dedupe_addresses, dedupe_public_keys}

-- effectivePeerCIDR4
unfoldable pub effective_peer_cidr4 : Wireguard → Str
effective_peer_cidr4 wg =
    if not (is_empty wg.spec.peer_cidr) then wg.spec.peer_cidr else default_peer_cidr4

-- skipPeerWrite
unfoldable pub skip_peer_write : ApiError → Bool
skip_peer_write conflict = true
skip_peer_write not_found = true
skip_peer_write already_exists = false
skip_peer_write invalid_object = false
skip_peer_write (other_error s) = false

-- the peers that attach to req, in list order
unfoldable pub related_peers : NamespacedName → List WireguardPeer → List WireguardPeer
related_peers req [] = []
related_peers req (p ∷ ps) =
    let rest = related_peers req ps in if key_eq (gateway_key p) req then p ∷ rest else rest

-- the namespace is judged first, then the key
unfoldable pub peer_problem : WgTypes → Wireguard → WireguardPeer → Option NotReady
peer_problem wgtypes wg peer = elim (namespace_not_allowed wg peer) [
  | some nr ↦ some nr
  | none ↦ admission_problem wgtypes peer
]

-- the peer as allocatePeers writes it, with its address and without a Ready condition
unfoldable pub configured : Meta → WireguardPeer → WireguardPeer
unfolding text
configured meta peer = record peer {
  status = record (peer.status) {
    status = ready;
    message = text "Peer configured";
    conditions = meta.remove_status_condition peer.status.conditions condition_ready;
  };
}

abbrev pub with_address : WireguardPeer → Str → WireguardPeer
with_address peer ip = record peer { status = record (peer.status) { address = ip } }

abbrev absent : Option Condition → Bool
absent none = true
absent (some c) = false

-- already admitted and ready: nothing to write
unfoldable pub is_settled : Meta → WireguardPeer → Bool
is_settled meta peer =
    str_eq peer.status.status ready
    && absent (meta.find_status_condition peer.status.conditions condition_ready)

-- an address that the allocator could not have handed out is treated as unallocated
unfoldable pub clear_unusable : Str → WireguardPeer → WireguardPeer
clear_unusable cidr4 peer =
    if not (is_empty peer.status.address) && not (address_usable peer.status.address cidr4)
    then with_address peer []
    else peer

abbrev pub prepend : Option WireguardPeer → List WireguardPeer → List WireguardPeer
prepend none ps = ps
prepend (some p) ps = p ∷ ps

module _ {W : Type 0} (c : Client W) (meta : Meta) where
  -- getWireguardPeers
  unfoldable pub get_wireguard_peers : NamespacedName → Exec W (List WireguardPeer)
  unfolding ◌>>=◌
  get_wireguard_peers req = do peers ← c.list_peers; pure (related_peers req peers)

  abbrev recorded : Result WireguardPeer → Exec W Unit
  recorded (ok p) = pure tt
  recorded (err invalid_object) = pure tt
  recorded (err not_found) = fail not_found
  recorded (err conflict) = fail conflict
  recorded (err already_exists) = fail already_exists
  recorded (err (other_error s)) = fail (other_error s)

  -- markPeerNotReady
  unfoldable pub mark_peer_not_ready : WireguardPeer → NotReady → Exec W Unit
  unfolding ◌>>=◌
  mark_peer_not_ready peer nr = if peer_status_matches meta peer nr then pure tt else do
    r ← attempt (c.update_peer_status (record peer { status = not_ready_status meta peer nr }))
    recorded r

  abbrev skipping : Result Unit → Exec W Unit
  skipping (ok u) = pure tt
  skipping (err e) = if skip_peer_write e then pure tt else fail e

  -- `if err := markPeerNotReady(…); err != nil && !skipPeerWrite(err) { return err }`
  unfoldable pub mark_or_skip : WireguardPeer → NotReady → Exec W Unit
  unfolding ◌>>=◌
  mark_or_skip peer nr = do r ← attempt (mark_peer_not_ready peer nr); skipping r

  abbrev pub judged :
      Exec W (List WireguardPeer)
      → (NotReady → Exec W (List WireguardPeer))
      → Option NotReady
      → Exec W (List WireguardPeer)
  judged admit refuse none = admit
  judged admit refuse (some nr) = refuse nr

  -- admitPeers
  unfoldable pub admit_peers :
      WgTypes → Wireguard → List WireguardPeer → Exec W (List WireguardPeer)
  unfolding ◌>>=◌
  admit_peers wgtypes wg [] = pure []
  admit_peers wgtypes wg (p ∷ ps) =
      judged (do rest ← admit_peers wgtypes wg ps; pure (p ∷ rest))
        (λ nr. do mark_or_skip p nr; admit_peers wgtypes wg ps) (peer_problem wgtypes wg p)

  -- releaseLosers
  unfoldable pub release_losers : (ConflictLoser → NotReady) → List ConflictLoser → Exec W Unit
  unfolding ◌>>=◌
  release_losers why [] = pure tt
  release_losers why (l ∷ ls) = do mark_or_skip l.peer (why l); release_losers why ls

  -- the outcome of a readiness write: a peer whose write was skipped stays if it held its address
  abbrev pub written : Bool → WireguardPeer → Result WireguardPeer → Exec W (Option WireguardPeer)
  written is_new peer (ok p) = pure (some p)
  written is_new peer (err e) =
      if skip_peer_write e then pure (if is_new then none else some peer) else fail e

  unfoldable pub write_ready : Bool → WireguardPeer → Exec W (Option WireguardPeer)
  unfolding ◌>>=◌
  write_ready is_new peer = do
    r ← attempt (c.update_peer_status (configured meta peer))
    written is_new (configured meta peer) r

  abbrev pub by_allocation :
      (Str → Exec W (List WireguardPeer))
      → Exec W (List WireguardPeer)
      → Allocation
      → Exec W (List WireguardPeer)
  by_allocation fresh exhausted (allocated ip) = fresh ip
  by_allocation fresh exhausted bad_cidr = exhausted
  by_allocation fresh exhausted no_available_ip = exhausted

  module _ (gen : IpNetGen) (cidr4 : Str) where
    -- the loop of allocatePeers, with the addresses in use so far
    unfoldable pub allocate_loop : List Str → List WireguardPeer → Exec W (List WireguardPeer)
    unfolding ◌>>=◌
    allocate_loop used [] = pure []
    allocate_loop used (p ∷ ps) =
        let exhausted : Exec W (List WireguardPeer) = do
          mark_or_skip p (address_pool_exhausted cidr4)
          allocate_loop used ps
        in let settled : Exec W (List WireguardPeer) = do
          rest ← allocate_loop used ps
          pure (p ∷ rest)
          in let held : Exec W (List WireguardPeer) = do
            q ← write_ready false p
            rest ← allocate_loop used ps
            pure (prepend q rest)
            in let fresh : Str → Exec W (List WireguardPeer) = λ ip. do
              q ← write_ready true (with_address p ip)
              rest ← allocate_loop (used ++ (ip ∷ [])) ps
              pure (prepend q rest)
              in if is_empty p.status.address
                then by_allocation fresh exhausted (allocate_ip gen cidr4 used)
                else if is_settled meta p
                then settled
                else held

    -- allocatePeers
    unfoldable pub allocate_peers : List WireguardPeer → Exec W (List WireguardPeer)
    unfolding allocate_loop
    allocate_peers peers = allocate_loop (get_used_ips cidr4 peers) peers

-- namespace/name of each listed peer, with its key; a later entry hides an earlier one
unfoldable pub state_keys :
    List WireguardPeer → List (NamespacedName × Str) → List (NamespacedName × Str)
state_keys [] keys = keys
state_keys (p ∷ ps) keys = state_keys ps ((peer_key p, p.spec.public_key) ∷ keys)

abbrev pub listed_keys : Option State → List (NamespacedName × Str)
listed_keys none = []
listed_keys (some state) = state_keys state.peers []

abbrev pub wireguard_key : Wireguard → NamespacedName
wireguard_key wg = record { namespace = wg.namespace; name = wg.name }

abbrev pub address_loser : ConflictLoser → NotReady
address_loser l = address_conflict l.peer.status.address l.winner

abbrev pub key_loser : ConflictLoser → NotReady
key_loser l = public_key_conflict l.winner

-- The packages that a reconcile calls, with the decoding of state.json.
pub record Packages : Type 0 where
  pub meta : Meta
  pub wgtypes : WgTypes
  pub gen : IpNetGen
  pub unmarshal : Str → Option State

module _ {W : Type 0} (c : Client W) (pkg : Packages) where
  abbrev keys_of : Result Secret → Exec W (List (NamespacedName × Str))
  keys_of (ok s) = pure (listed_keys (pkg.unmarshal (entry s.entries (text "state.json"))))
  keys_of (err not_found) = pure []
  keys_of (err conflict) = fail conflict
  keys_of (err already_exists) = fail already_exists
  keys_of (err invalid_object) = fail invalid_object
  keys_of (err (other_error s)) = fail (other_error s)

  -- admittedKeys
  unfoldable pub admitted_keys : Wireguard → Exec W (List (NamespacedName × Str))
  unfolding ◌>>=◌ text
  admitted_keys wg = do r ← attempt (c.get_secret (wireguard_key wg)); keys_of r

  -- reconcilePeers
  unfoldable pub reconcile_peers : NamespacedName → Wireguard → Exec W (List WireguardPeer)
  unfolding ◌>>=◌
  reconcile_peers req wg = do
    current ← admitted_keys wg
    peers ← get_wireguard_peers c pkg.meta req
    admitted ← admit_peers c pkg.meta pkg.wgtypes wg peers
    let (admitted_one_key, key_losers) = dedupe_public_keys admitted current
    release_losers c pkg.meta key_loser key_losers
    let (keep, losers) =
        dedupe_addresses (map (clear_unusable (effective_peer_cidr4 wg)) admitted_one_key)
    release_losers c pkg.meta address_loser losers
    allocate_peers c pkg.meta pkg.gen (effective_peer_cidr4 wg) keep

  -- the loop of markPeersWireguardNotFound
  unfoldable pub mark_all : NotReady → List WireguardPeer → Exec W Unit
  unfolding ◌>>=◌
  mark_all nr [] = pure tt
  mark_all nr (p ∷ ps) = do mark_or_skip c pkg.meta p nr; mark_all nr ps

  -- markPeersWireguardNotFound
  unfoldable pub mark_peers_wireguard_not_found : NamespacedName → Exec W Unit
  unfolding mark_all
  mark_peers_wireguard_not_found req = do
    peers ← get_wireguard_peers c pkg.meta req
    mark_all (wireguard_not_found req.name req.namespace) peers
