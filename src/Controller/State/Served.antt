-- ===== src/Controller/State/Served.antt =====
-- A reconcile renders a state that the agent serves.
use wireguard_operator.Prelude.{
  length, All, All-map, Str, is_empty_nil, is_empty, true, false, List, [], ◌∷◌, map, ◌≢◌, Option,
  none, some, ◌≡◌, refl, ap, ◌∙◌,
}
use wireguard_operator.Prelude.Sort.{sort-All}
use wireguard_operator.Netip.Addr.{is4, Prefix}
use wireguard_operator.Netip.Parse.{parse_addr, parse_prefix}
use wireguard_operator.Api.Types.{Wireguard, WireguardPeer, NamespacedName}
use wireguard_operator.Api.Exec.{ok}
use wireguard_operator.Api.External.{WgTypes}
use wireguard_operator.Api.Client.{Client, Echoes}
use wireguard_operator.Agent.{is_state_valid}
use wireguard_operator.Agent.Laws.{Servable, is_state_valid_iff}
use wireguard_operator.Ipam.{address_usable}
use wireguard_operator.Controller.Peers.{admission_problem, namespace_not_allowed, NotReady}
use wireguard_operator.Controller.Reconcile.{
  Packages, effective_peer_cidr4, peer_problem, reconcile_peers,
}
use wireguard_operator.Controller.Reconcile.Admitted.{IsAdmitted, reconcile_peers-IsAdmitted}
use wireguard_operator.Controller.State.{rendered, listed_before, desired_state}

no_address_usable : (cidr : Str) → address_usable [] cidr ≡ false
unfolding address_usable parse_addr
no_address_usable cidr = refl

usable-address : (cidr s : Str) → address_usable s cidr ≡ true → s ≢ []
usable-address cidr s h e = cc (ap (λ x. address_usable x cidr) e, no_address_usable cidr, h)

second_none : (x y : Option NotReady) → elim x [ some nr ↦ some nr | none ↦ y ] ≡ none → y ≡ none
second_none none y h = h
second_none (some nr) y h = absurd (cc)

admitted-key :
    (wgtypes : WgTypes) (wg : Wireguard) (p : WireguardPeer)
    → peer_problem wgtypes wg p ≡ none
    → p.spec.public_key ≢ []
unfolding peer_problem admission_problem
admitted-key wgtypes wg p h e =
    let fine : admission_problem wgtypes p ≡ none =
      second_none (namespace_not_allowed wg p) (admission_problem wgtypes p) h in
    let empty : is_empty p.spec.public_key ≡ true = ap is_empty e ∙ is_empty_nil in
    cc (rw (empty, admission_problem) at fine)

map-rendered-All :
    (P : Str → Str → Type 0) (ps : List WireguardPeer)
    → All (λ p. P p.status.address p.spec.public_key) ps
    → All (λ p. P p.status.address p.spec.public_key) (map rendered ps)
unfolding map rendered
map-rendered-All P [] h = tt
map-rendered-All P (p ∷ ps) (a, h) = (a, map-rendered-All P ps h)

desired_state-Servable :
    (wgtypes : WgTypes) (req : NamespacedName) (wg : Wireguard) (key : Str)
    (out : List WireguardPeer)
    → length key ≡ 44
    → IsAdmitted wgtypes req wg out
    → Servable (desired_state wg key out)
unfolding desired_state
desired_state-Servable wgtypes req wg key out long h = record {
  key_length = long;
  addresses =
      sort-All listed_before (λ p. p.status.address ≢ []) (map rendered out)
        (map-rendered-All (λ a _. a ≢ []) out
          (All-map _ (λ p. p.status.address ≢ [])
            (λ p u. usable-address (effective_peer_cidr4 wg) p.status.address u) out h.usable));
  keys =
      sort-All listed_before (λ p. p.spec.public_key ≢ []) (map rendered out)
        (map-rendered-All (λ _ k. k ≢ []) out
          (All-map _ (λ p. p.spec.public_key ≢ []) (λ p w. admitted-key wgtypes wg p w) out
            h.welcome));
}

-- The state that a reconcile renders from the peers of reconcilePeers and a private key of 44 bytes
-- passes the agent's IsStateValid, for a Wireguard whose peerCIDR is an IPv4 prefix and an API that
-- returns what a successful status write has written.
pub desired_state-is_state_valid :
    {W : Type 0} (c : Client W) (pkg : Packages) (req : NamespacedName) (wg : Wireguard)
    → Echoes c
    → (p : Prefix) → parse_prefix (effective_peer_cidr4 wg) ≡ some p
    → is4 p.addr ≡ true
    → (out : List WireguardPeer) (w : W) (key : Str) → (reconcile_peers c pkg req wg w).0 ≡ ok out
    → length key ≡ 44
    → is_state_valid (desired_state wg key out) ≡ none
desired_state-is_state_valid c pkg req wg echoes p parsed family out w key h long =
    (is_state_valid_iff (desired_state wg key out)).1 (
      desired_state-Servable pkg.wgtypes req wg key out long
        (reconcile_peers-IsAdmitted c pkg req wg echoes p parsed family out w h))
