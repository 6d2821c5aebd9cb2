-- ===== src/Controller/Reconcile/Pool.antt =====
-- What the loop of allocatePeers keeps: the peers' identities, and the addresses apart.
use wireguard_operator.Prelude.{
  In, In-append_left, In-append_right, All, All-In, All-map, Str, true, List, [], ◌∷◌, ◌++◌, ◌≢◌,
  ◌⊎◌, inl, inr, some, ◌≡◌, refl, sym, ◌∙◌, subst,
}
use wireguard_operator.Netip.Addr.{is4, Prefix}
use wireguard_operator.Netip.Parse.{parse_prefix}
use wireguard_operator.Api.Types.{WireguardPeer, WireguardPeerSpec}
use wireguard_operator.Api.External.{IpNetGen}
use wireguard_operator.Ipam.{allocated, allocate_ip, derive_reserved_ips, address_usable}
use wireguard_operator.Ipam.Laws.{allocate_ip-usable}
use wireguard_operator.Controller.Dedupe.{address_of, public_key_of}
use wireguard_operator.Controller.Dedupe.Divide.{Distinct}
use wireguard_operator.Controller.Reconcile.Served.{
  Served, finished, dropped, kept_on, assigned, reserved,
}

module _ (gen : IpNetGen) (cidr4 : Str) where
  -- What holds of the name, the namespace and the spec of every peer holds of those returned.
  module _ (Q : Str → Str → WireguardPeerSpec → Type 0) where
    abbrev Of : WireguardPeer → Type 0
    Of p = Q p.name p.namespace p.spec

    same :
        (p q : WireguardPeer)
        → q.name ≡ p.name
        → q.namespace ≡ p.namespace
        → q.spec ≡ p.spec
        → Of p
        → Of q
    same p q e f g h = rw (e, f, g) h

    pub Served-All :
        {used : List Str} {ps out : List WireguardPeer}
        → Served gen cidr4 used ps out
        → All Of ps
        → All Of out
    Served-All finished h = tt
    Served-All (dropped p s) h = Served-All s h.1
    Served-All (kept_on p q held e s) h =
        (same p q e.same_name e.same_namespace e.same_spec h.0, Served-All s h.1)
    Served-All (assigned p q ip none_held a e s) h =
        (same p q e.same_name e.same_namespace e.same_spec h.0, Served-All s h.1)
    Served-All (reserved p ip none_held a s) h = Served-All s h.1

  -- No two returned peers share a public key if no two peers of the pass do.
  pub Served-Distinct_keys :
      {used : List Str} {ps out : List WireguardPeer}
      → Served gen cidr4 used ps out
      → Distinct public_key_of ps
      → Distinct public_key_of out
  Served-Distinct_keys finished h = tt
  Served-Distinct_keys (dropped p s) h = Served-Distinct_keys s h.1
  Served-Distinct_keys (kept_on p q held e s) h = (
    rw (e.same_spec) (
        Served-All (λ _ _ spec. p.spec.public_key ≢ [] → p.spec.public_key ≢ spec.public_key) s
          h.0),
    Served-Distinct_keys s h.1,
  )
  Served-Distinct_keys (assigned p q ip none_held a e s) h = (
    rw (e.same_spec) (
        Served-All (λ _ _ spec. p.spec.public_key ≢ [] → p.spec.public_key ≢ spec.public_key) s
          h.0),
    Served-Distinct_keys s h.1,
  )
  Served-Distinct_keys (reserved p ip none_held a s) h = Served-Distinct_keys s h.1

  -- The address is in use.
  abbrev pub Counted : List Str → WireguardPeer → Type 0
  Counted used p = p.status.address ≢ [] → In p.status.address used

  -- The address is one of the peers', or was not in use before.
  abbrev Origin : List Str → List WireguardPeer → WireguardPeer → Type 0
  Origin used ps q =
      ((p : WireguardPeer) × In p ps
        × (p.status.address ≢ [])
        × (q.status.address ≡ p.status.address))
      ⊎ (¬ In q.status.address used)

  later :
      (used : List Str) (p : WireguardPeer) (ps : List WireguardPeer) (q : WireguardPeer)
      → Origin used ps q
      → Origin used (p ∷ ps) q
  later used p ps q (inl (r, there, held, e)) = inl (r, inr there, held, e)
  later used p ps q (inr free) = inr free

  sooner :
      (used : List Str) (ip : Str) (p : WireguardPeer) (ps : List WireguardPeer) (q : WireguardPeer)
      → Origin (used ++ (ip ∷ [])) ps q
      → Origin used (p ∷ ps) q
  sooner used ip p ps q (inl (r, there, held, e)) = inl (r, inr there, held, e)
  sooner used ip p ps q (inr free) =
      inr (λ m. free (In-append_left q.status.address used (ip ∷ []) m))

  grow :
      (used : List Str) (ip : Str) (ps : List WireguardPeer)
      → All (Counted used) ps
      → All (Counted (used ++ (ip ∷ []))) ps
  grow used ip ps h =
      All-map (Counted used) (Counted (used ++ (ip ∷ [])))
        (λ p f held. In-append_left p.status.address used (ip ∷ []) (f held)) ps h

  module _ (p : Prefix) (parsed : parse_prefix cidr4 ≡ some p) (family : is4 p.addr ≡ true) where
    abbrev Reserves : List Str → Type 0
    Reserves used = (r : Str) → In r (derive_reserved_ips cidr4) → In r used

    grow-Reserves : (used : List Str) (ip : Str) → Reserves used → Reserves (used ++ (ip ∷ []))
    grow-Reserves used ip h r m = In-append_left r used (ip ∷ []) (h r m)

    fresh_lem :
        (used : List Str) (ip : Str)
        → Reserves used
        → allocate_ip gen cidr4 used ≡ allocated ip
        → (¬ In ip used) × (address_usable ip cidr4 ≡ true)
    fresh_lem used ip r a = allocate_ip-usable gen cidr4 p used parsed family ip r a

    Served-Origin :
        {used : List Str} {ps out : List WireguardPeer}
        → Served gen cidr4 used ps out
        → Reserves used
        → All (Origin used ps) out
    Served-Origin finished r = tt
    Served-Origin {used} (dropped {ps = ps} {out = out} x s) r =
        All-map (Origin used ps) (Origin used (x ∷ ps)) (later used x ps) out (Served-Origin s r)
    Served-Origin {used} (kept_on {ps = ps} {out = out} x q held e s) r = (
      inl (x, inl refl, held, e.same_address),
      All-map (Origin used ps) (Origin used (x ∷ ps)) (later used x ps) out (Served-Origin s r),
    )
    Served-Origin {used} (assigned {ps = ps} {out = out} x q ip none_held a e s) r = (
      inr (λ m. (fresh_lem used ip r a).0 (subst (λ v. In v used) e.same_address m)),
      All-map (Origin (used ++ (ip ∷ [])) ps) (Origin used (x ∷ ps)) (sooner used ip x ps) out
          (Served-Origin s (grow-Reserves used ip r)),
    )
    Served-Origin {used} (reserved {ps = ps} {out = out} x ip none_held a s) r =
        All-map (Origin (used ++ (ip ∷ [])) ps) (Origin used (x ∷ ps)) (sooner used ip x ps) out
          (Served-Origin s (grow-Reserves used ip r))

    -- Every returned peer holds a usable address if those of the pass hold none or a usable one.
    pub Served-usable :
        {used : List Str} {ps out : List WireguardPeer}
        → Served gen cidr4 used ps out
        → Reserves used
        → All (λ x. x.status.address ≢ [] → address_usable x.status.address cidr4 ≡ true) ps
        → All (λ x. address_usable x.status.address cidr4 ≡ true) out
    Served-usable finished r h = tt
    Served-usable (dropped x s) r h = Served-usable s r h.1
    Served-usable (kept_on x q held e s) r h =
        (rw (e.same_address) (h.0 held), Served-usable s r h.1)
    Served-usable {used} (assigned x q ip none_held a e s) r h = (
      rw (e.same_address) (fresh_lem used ip r a).1,
      Served-usable s (grow-Reserves used ip r) h.1,
    )
    Served-usable {used} (reserved x ip none_held a s) r h =
        Served-usable s (grow-Reserves used ip r) h.1

    apart_from_used :
        (used : List Str) (a : Str) (ps : List WireguardPeer) (q : WireguardPeer)
        → In a used
        → All (λ x. a ≢ [] → a ≢ x.status.address) ps
        → Origin used ps q
        → a ≢ []
        → a ≢ q.status.address
    apart_from_used used a ps q there h (inl (x, m, held, e)) full same =
        All-In (λ x. a ≢ [] → a ≢ x.status.address) ps h x m full (same ∙ e)
    apart_from_used used a ps q there h (inr free) full same =
        free (subst (λ v. In v used) same there)

    apart_from_new :
        (used : List Str) (ip : Str) (ps : List WireguardPeer) (q : WireguardPeer)
        → (¬ In ip used)
        → All (Counted used) ps
        → Origin (used ++ (ip ∷ [])) ps q
        → ip ≢ q.status.address
    apart_from_new used ip ps q free counted (inl (x, m, held, e)) same =
        free (subst (λ v. In v used) (sym (same ∙ e)) (All-In (Counted used) ps counted x m held))
    apart_from_new used ip ps q free counted (inr other) same =
        other (
          subst (λ v. In v (used ++ (ip ∷ []))) same (In-append_right ip used (ip ∷ []) (inl refl)))

    -- No two returned peers share an address.
    pub Served-Distinct_addresses :
        {used : List Str} {ps out : List WireguardPeer}
        → Served gen cidr4 used ps out
        → Reserves used
        → All (Counted used) ps
        → Distinct address_of ps
        → Distinct address_of out
    Served-Distinct_addresses finished r counted h = tt
    Served-Distinct_addresses (dropped x s) r counted h =
        Served-Distinct_addresses s r counted.1 h.1
    Served-Distinct_addresses {used} (kept_on {ps = ps} {out = out} x q held e s) r counted h = (
      rw (e.same_address) (
          All-map (Origin used ps)
            (λ y. x.status.address ≢ [] → x.status.address ≢ y.status.address)
            (λ y o full. apart_from_used used x.status.address ps y (counted.0 full) h.0 o full) out
            (Served-Origin s r)),
      Served-Distinct_addresses s r counted.1 h.1,
    )
    Served-Distinct_addresses {used} (assigned {ps = ps} {out = out} x q ip none_held a e s) r
          counted h =
        (
          rw (e.same_address) (
              All-map (Origin (used ++ (ip ∷ [])) ps) (λ y. ip ≢ [] → ip ≢ y.status.address)
                (λ y o full. apart_from_new used ip ps y (fresh_lem used ip r a).0 counted.1 o) out
                (Served-Origin s (grow-Reserves used ip r))),
          Served-Distinct_addresses s (grow-Reserves used ip r) (grow used ip ps counted.1) h.1,
        )
    Served-Distinct_addresses {used} (reserved {ps = ps} x ip none_held a s) r counted h =
        Served-Distinct_addresses s (grow-Reserves used ip r) (grow used ip ps counted.1) h.1
