-- ===== src/Controller/Dedupe/Laws.antt =====
-- What dedupeAddresses and dedupePublicKeys promise.
use wireguard_operator.Prelude.{
  In, All, All-In, All-of_In, Str, Bool, true, false, List, [], ◌≢◌, ◌⊎◌, inl, inr, none, ◌≡◌, refl,
  sym, ap, ◌∙◌, subst, arith,
}
use wireguard_operator.Api.Types.{WireguardPeer, NamespacedName, key_string, peer_key}
use wireguard_operator.Controller.Dedupe.{
  ConflictLoser, Holders, claims, divide, dedupe, address_of, public_key_of, dedupe_addresses,
  listed, key_beats, dedupe_public_keys,
}
use wireguard_operator.Controller.Dedupe.Order.{older, older_irrefl, older_trans}
use wireguard_operator.Controller.Dedupe.Claims.{
  Unbeaten, claims-nil, claims-Stands, claims-Unbeaten,
}
use wireguard_operator.Controller.Dedupe.Divide.{
  Riffle, kept, lost, done, Distinct, Held, LostTo, divide-Distinct, divide-Riffle, divide-LostTo,
  divide-In,
}

-- The loser gives up a value that a kept peer holds; it does not beat that peer, and names it.
pub record YieldsTo (value : WireguardPeer → Str) (beats : WireguardPeer → WireguardPeer → Bool)
    (keep : List WireguardPeer) (l : ConflictLoser) : Type 0 where
  pub holder : WireguardPeer
  pub is_kept : In holder keep
  pub same_value : value holder ≡ value l.peer
  pub used : value l.peer ≢ []
  pub named : l.winner ≡ key_string (peer_key holder)
  pub unbeaten : beats l.peer holder ≡ false

-- The outcome of a dedupe of `peers`.
pub record Settles (value : WireguardPeer → Str) (beats : WireguardPeer → WireguardPeer → Bool)
    (peers keep : List WireguardPeer) (losers : List ConflictLoser) : Type 0 where
  pub woven : Riffle keep losers peers
  pub distinct : Distinct value keep
  pub yields : All (YieldsTo value beats keep) losers

Riffle-In_loser :
    {keep peers : List WireguardPeer} {losers : List ConflictLoser} (l : ConflictLoser)
    → Riffle keep losers peers
    → In l losers
    → In l.peer peers
Riffle-In_loser l done h = elim h [ ]
Riffle-In_loser l (kept p r) h = inr (Riffle-In_loser l r h)
Riffle-In_loser l (lost g r) (inl e) = inl (ap (λ (x : ConflictLoser). x.peer) e)
Riffle-In_loser l (lost g r) (inr h) = inr (Riffle-In_loser l r h)

-- A peer of the input is kept or is one of the losers.
pub Riffle-sides :
    {keep peers : List WireguardPeer} {losers : List ConflictLoser} (p : WireguardPeer)
    → Riffle keep losers peers
    → In p peers
    → In p keep ⊎ ((l : ConflictLoser) × In l losers × (l.peer ≡ p))
Riffle-sides p done h = elim h [ ]
Riffle-sides p (kept q r) (inl e) = inl (inl e)
Riffle-sides p (kept q r) (inr h) = elim (Riffle-sides p r h) [
  | inl k ↦ inl (inr k)
  | inr (l, there, e) ↦ inr (l, there, e)
]
Riffle-sides p (lost g r) (inl e) = inr (g, inl refl, sym e)
Riffle-sides p (lost g r) (inr h) = elim (Riffle-sides p r h) [
  | inl k ↦ inl k
  | inr (l, there, e) ↦ inr (l, inr there, e)
]

pub Riffle-In_keep :
    {keep peers : List WireguardPeer} {losers : List ConflictLoser} (p : WireguardPeer)
    → Riffle keep losers peers
    → In p keep
    → In p peers
Riffle-In_keep p done h = elim h [ ]
Riffle-In_keep p (kept q r) (inl e) = inl e
Riffle-In_keep p (kept q r) (inr h) = inr (Riffle-In_keep p r h)
Riffle-In_keep p (lost g r) h = inr (Riffle-In_keep p r h)

module _ (value : WireguardPeer → Str) (beats : WireguardPeer → WireguardPeer → Bool)
    (irrefl : (a : WireguardPeer) → beats a a ≡ false)
    (trans : (a b c : WireguardPeer) → beats a b ≡ true → beats b c ≡ true → beats a c ≡ true) where
  abbrev map_of : List WireguardPeer → Holders
  map_of peers = claims value beats 0 peers (λ v. none)

  Held-All : (peers : List WireguardPeer) → All (Held value beats (map_of peers)) peers
  Held-All peers = All-of_In _ peers (λ p there used absent.
      subst (Unbeaten value beats p) absent
        (claims-Unbeaten value beats irrefl trans 0 peers (λ v. none) p there used))

  loser_yields :
      (peers : List WireguardPeer) (l : ConflictLoser)
      → In l (divide value beats 0 peers (map_of peers)).1
      → LostTo value beats (map_of peers) l
      → YieldsTo value beats (divide value beats 0 peers (map_of peers)).0 l
  loser_yields peers l there (h, holds, named) =
      elim (claims-Stands value beats 0 peers (λ v. none) (value l.peer) h holds) [
        | inl none_before ↦ absurd (cc)
        | inr (k, at, stands, same) ↦
            let present : In l.peer peers =
              Riffle-In_loser l (divide-Riffle value beats 0 peers (map_of peers)) there in
            let used : value l.peer ≢ [] =
              λ e. cc (ap (map_of peers) e, claims-nil value beats 0 peers (λ v. none) refl) in
            record {
              holder = h.peer;
              is_kept =
                  divide-In value beats 0 peers (map_of peers) k h stands
                    (ap (map_of peers) same ∙ holds) at;
              same_value = same;
              used = used;
              named = named;
              unbeaten = subst (Unbeaten value beats l.peer) holds (
                  claims-Unbeaten value beats irrefl trans 0 peers (λ v. none) l.peer present used);
            }
      ]

  dedupe-Settles :
      (peers : List WireguardPeer)
      → Settles value beats peers (dedupe value beats peers).0 (dedupe value beats peers).1
  unfolding dedupe
  dedupe-Settles peers = record {
    woven = divide-Riffle value beats 0 peers (map_of peers);
    distinct = divide-Distinct value beats 0 peers (map_of peers) (Held-All peers);
    yields = All-of_In _ (divide value beats 0 peers (map_of peers)).1 (λ l there.
        loser_yields peers l there (
          All-In (LostTo value beats (map_of peers)) _
            (divide-LostTo value beats 0 peers (map_of peers)) l there));
  }

-- dedupeAddresses keeps or releases every peer, in input order; no two kept peers share a non-empty address;
-- and each loser holds a non-empty address that a kept peer holds too, which is named as the winner
-- and which the loser is not older than.
pub dedupe_addresses-Settles :
    (peers : List WireguardPeer)
    → Settles address_of older peers (dedupe_addresses peers).0 (dedupe_addresses peers).1
unfolding dedupe_addresses
dedupe_addresses-Settles peers = dedupe-Settles address_of older older_irrefl older_trans peers

key_beats_irrefl :
    (current : List (NamespacedName × Str)) (a : WireguardPeer) → key_beats current a a ≡ false
unfolding key_beats
key_beats_irrefl current a = ground (arith, older_irrefl a)

key_beats_trans :
    (current : List (NamespacedName × Str)) (a b c : WireguardPeer)
    → key_beats current a b ≡ true
    → key_beats current b c ≡ true
    → key_beats current a c ≡ true
unfolding key_beats
key_beats_trans current a b c h k = ground (arith, older_trans a b c)

-- dedupePublicKeys keeps or releases every peer, in input order; no two kept peers share a non-empty public
-- key; and each loser has a non-empty key that a kept peer has too, which is named as the winner and
-- which the loser does not beat: by being listed under the key in the current state, or else by age.
pub dedupe_public_keys-Settles :
    (peers : List WireguardPeer) (current : List (NamespacedName × Str))
    → Settles public_key_of
        (key_beats current)
        peers
        (dedupe_public_keys peers current).0
        (dedupe_public_keys peers current).1
unfolding dedupe_public_keys
dedupe_public_keys-Settles peers current =
    dedupe-Settles public_key_of (key_beats current) (key_beats_irrefl current)
      (key_beats_trans current) peers

beaten_listed :
    (current : List (NamespacedName × Str)) (a b : WireguardPeer)
    → key_beats current a b ≡ false
    → listed current a ≡ true
    → listed current b ≡ true
unfolding key_beats
beaten_listed current a b h k = ground arith

-- A peer that the current state lists under its key keeps the key, whatever the ages of the others,
-- when no other peer of the input is listed under that key.
pub incumbent_kept :
    (peers : List WireguardPeer) (current : List (NamespacedName × Str)) (p : WireguardPeer)
    → In p peers
    → listed current p ≡ true
    → ((q : WireguardPeer)
        → In q peers
        → public_key_of q ≡ public_key_of p
        → listed current q ≡ true
        → q ≡ p)
    → In p (dedupe_public_keys peers current).0
incumbent_kept peers current p there incumbent only =
    let s = dedupe_public_keys-Settles peers current in
    elim (Riffle-sides p s.woven there) [
      | inl k ↦ k
      | inr (l, among, e) ↦
          let y = All-In _ (dedupe_public_keys peers current).1 s.yields l among in
          let holds : listed current y.holder ≡ true =
            beaten_listed current l.peer y.holder y.unbeaten (ap (listed current) e ∙ incumbent) in
          let same : y.holder ≡ p =
            only y.holder (Riffle-In_keep y.holder s.woven y.is_kept)
              (y.same_value ∙ ap public_key_of e) holds in
          subst (λ q. In q (dedupe_public_keys peers current).0) same y.is_kept
    ]
