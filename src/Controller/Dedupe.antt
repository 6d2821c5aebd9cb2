-- ===== src/Controller/Dedupe.antt =====
-- dedupeAddresses and dedupePublicKeys of internal/controller/peers.go. Both make the same two
-- passes: `claims` builds the map from a value to its holder, `divide` compares each peer with the
-- holder. Go compares pointers into the slice; here a peer is known by its index.
pub mod Order
pub mod Claims
pub mod Divide
pub mod Laws
use wireguard_operator.Prelude.{
  ℕ, zero, suc, ◌+◌, ◌-◌, ◌*◌, ◌/◌, ◌%◌, ◌^◌, ◌≤◌, ◌<◌, compare, Ordering, String, length,
  get_elem?, filter, any, find?, In, In-append_left, In-append_right, All, All-In, All-of_In,
  All-append, All-map, Str, str_eq→≡, str_eq_refl, str_eq_iff, is_empty→≡, is_empty_nil, text,
  str_eq, is_empty, str_compare, cut, has_byte, join, contains, Bool, true, false, not, ◌&&◌, ◌||◌,
  List, [], ◌∷◌, ◌++◌, map, ◌≢◌, ◌↔◌, ◌⊎◌, inl, inr, Option, none, some, ◌≡◌, refl, sym, ap, ◌∙◌,
  subst, arith, ltb, leb, ◌==◌, if◌then◌else◌, Bool-cases, ==→≡, ==_refl, ltb→lt, ltb→le,
}
use wireguard_operator.Api.Types.{WireguardPeer, NamespacedName, key_eq, key_string, peer_key}
use Order.{older}

-- conflictLoser
pub record ConflictLoser : Type 0 where
  pub peer : WireguardPeer
  pub winner : Str

pub record Holder : Type 0 where
  pub index : ℕ
  pub peer : WireguardPeer

-- map[string]*WireguardPeer
abbrev pub Holders : Type 0
Holders = Str → Option Holder

module _ (value : WireguardPeer → Str) (beats : WireguardPeer → WireguardPeer → Bool) where
  abbrev pub beaten : WireguardPeer → Option Holder → Bool
  beaten p none = true
  beaten p (some h) = beats p h.peer

  -- one round of the first loop
  unfoldable pub claim : ℕ → WireguardPeer → Holders → Holders
  claim i p holder v =
      if not (is_empty (value p)) && beaten p (holder (value p)) && str_eq (value p) v
      then some (record { index = i; peer = p })
      else holder v

  -- the first loop
  unfoldable pub claims : ℕ → List WireguardPeer → Holders → Holders
  unfolding claim
  claims i [] holder = holder
  claims i (p ∷ ps) holder = claims (suc i) ps (claim i p holder)

  abbrev pub Divided : Type 0
  Divided = List WireguardPeer × List ConflictLoser

  abbrev pub place : ℕ → WireguardPeer → Option Holder → Divided → Divided
  place i p none (keep, losers) = (p ∷ keep, losers)
  place i p (some h) (keep, losers) =
      if h.index == i
      then (p ∷ keep, losers)
      else (keep, record { peer = p; winner = key_string (peer_key h.peer) } ∷ losers)

  -- the second loop
  unfoldable pub divide : ℕ → List WireguardPeer → Holders → Divided
  divide i [] holder = ([], [])
  divide i (p ∷ ps) holder = place i p (holder (value p)) (divide (suc i) ps holder)

  unfoldable pub dedupe : List WireguardPeer → Divided
  unfolding claims divide
  dedupe peers = divide 0 peers (claims 0 peers (λ v. none))

abbrev pub address_of : WireguardPeer → Str
address_of p = p.status.address

abbrev pub public_key_of : WireguardPeer → Str
public_key_of p = p.spec.public_key

-- dedupeAddresses
unfoldable pub dedupe_addresses : List WireguardPeer → List WireguardPeer × List ConflictLoser
dedupe_addresses peers = dedupe address_of older peers

-- current[key] of a Go map: the empty text where the key is missing
unfoldable pub current_key : List (NamespacedName × Str) → NamespacedName → Str
current_key [] k = []
current_key ((j, v) ∷ m) k = let rest = current_key m k in if key_eq j k then v else rest

unfoldable pub listed : List (NamespacedName × Str) → WireguardPeer → Bool
listed current p = str_eq (current_key current (peer_key p)) p.spec.public_key

unfoldable pub key_beats : List (NamespacedName × Str) → WireguardPeer → WireguardPeer → Bool
key_beats current a b = elim (listed current a) [
  | true ↦ elim (listed current b) [ true ↦ older a b | false ↦ true ]
  | false ↦ elim (listed current b) [ true ↦ false | false ↦ older a b ]
]

-- dedupePublicKeys
unfoldable pub dedupe_public_keys :
    List WireguardPeer → List (NamespacedName × Str) → List WireguardPeer × List ConflictLoser
unfolding key_beats
dedupe_public_keys peers current = dedupe public_key_of (key_beats current) peers
