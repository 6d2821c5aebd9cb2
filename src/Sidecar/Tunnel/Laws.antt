-- ===== src/Sidecar/Tunnel/Laws.antt =====
-- What a tunnel read from a peer's status guarantees to the routes.
use wireguard_operator.Prelude.{
  ℕ, Str, true, false, List, [], ◌∷◌, ◌≢◌, inl, inr, Option, none, some, ◌≡◌, refl, sym, subst,
  arith, ◌==◌, Bool-cases, ==→≡,
}
use wireguard_operator.Netip.Addr.{
  Addr, invalid, v4, v6, is4, Prefix, prefix_eq, masked, prefix_from, addr_prefix,
}
use wireguard_operator.Netip.AddrPort.{AddrPort, parse_addr_port}
use wireguard_operator.Netip.Parse.{parse_addr, parse_prefix}
use wireguard_operator.Api.Types.{WireguardPeer}
use wireguard_operator.Api.External.{WgTypes, Key}
use wireguard_operator.Sidecar.Routes.{has_prefix}
use wireguard_operator.Sidecar.Tunnel.{
  Tunnel, Parsed, good, bad, keep_cidr, add_cidr, parse_local_cidrs, no_cidrs, with_cidrs, with_key,
  with_endpoint, with_address, desired_tunnel,
}

-- a prefix that is not the whole address space
abbrev pub Narrow : Prefix → Type 0
Narrow p = (p.bits_plus_one == 1) ≡ false

masked_addr :
    (a : Addr) (k : ℕ)
    → Narrow (record { addr = a; bits_plus_one = k })
    → Narrow (masked (record { addr = a; bits_plus_one = k }))
unfolding masked addr_prefix
masked_addr invalid k h = ground arith
masked_addr (v4 n) k h = ground arith
masked_addr (v6 n z) k h = ground arith

keep_cidr-good :
    (p : Prefix) (r : Parsed (List Prefix)) (ps : List Prefix)
    → keep_cidr p r ≡ good ps
    → (qs : List Prefix) × (r ≡ good qs) × (ps ≡ masked p ∷ qs)
keep_cidr-good p (good qs) ps h = (qs, refl, cc)
keep_cidr-good p (bad e) ps h = absurd (cc)

add_cidr-good :
    (c : Str) (o : Option Prefix) (r : Parsed (List Prefix)) (ps : List Prefix)
    → add_cidr c o r ≡ good ps
    → (p : Prefix) × (qs : List Prefix) × (o ≡ some p)
      × Narrow p
      × (r ≡ good qs)
      × (ps ≡ masked p ∷ qs)
add_cidr-good c none r ps h = absurd (cc)
add_cidr-good c (some p) r ps h = elim (Bool-cases (p.bits_plus_one == 1)) [
  | inl whole ↦ absurd (cc (rw whole at h))
  | inr narrow ↦
      let (qs, e, f) = keep_cidr-good p r ps (rw narrow at h) in (p, qs, refl, narrow, e, f)
]

-- each local network is the network of its entry, in order
abbrev pub Networks : List Str → List Prefix → Type 0
Networks [] [] = Unit
Networks (c ∷ cs) (q ∷ qs) =
    ((p : Prefix) × (parse_prefix c ≡ some p) × (q ≡ masked p) × Narrow q) × Networks cs qs
Networks _ _ = ⊥

parse_local_cidrs-Networks :
    (cs : List Str) (ps : List Prefix) → parse_local_cidrs cs ≡ good ps → Networks cs ps
unfolding parse_local_cidrs
parse_local_cidrs-Networks [] ps h = subst (Networks []) {x = []} (cc) tt
parse_local_cidrs-Networks (c ∷ cs) ps h =
    let (p, qs, e, narrow, f, shape) =
      add_cidr-good c (parse_prefix c) (parse_local_cidrs cs) ps h in
    subst (Networks (c ∷ cs)) (sym shape)
      ((p, e, refl, masked_addr p.addr p.bits_plus_one narrow), parse_local_cidrs-Networks cs qs f)

Networks-Narrow :
    (cs : List Str) (ps : List Prefix) (p : Prefix)
    → Networks cs ps
    → has_prefix ps p ≡ true
    → Narrow p
unfolding has_prefix prefix_eq
Networks-Narrow [] [] p h m = absurd (cc)
Networks-Narrow [] (q ∷ qs) p h m = elim h [ ]
Networks-Narrow (c ∷ cs) [] p h m = elim h [ ]
Networks-Narrow (c ∷ cs) (q ∷ qs) p ((r, e, f, narrow), h) m = elim (Bool-cases (prefix_eq p q)) [
  | inl same ↦ ground (arith, narrow, ==→≡ p.bits_plus_one q.bits_plus_one)
  | inr other ↦ Networks-Narrow cs qs p h (ground (arith, other))
]

-- What desiredTunnel reads from a peer's status.
pub record Published (wgtypes : WgTypes) (peer : WireguardPeer) (t : Tunnel) : Type 0 where
  pub host :
      (n : ℕ) × (parse_addr peer.status.address ≡ some (v4 n)) × (t.address ≡ prefix_from (v4 n) 32)
  pub endpoint : parse_addr_port peer.status.endpoint ≡ some t.endpoint
  pub server_key : wgtypes.parse_key peer.status.server_public_key ≡ some t.server_key
  pub networks : Networks peer.status.local_cidrs t.local_cidrs
  pub some_network : peer.status.local_cidrs ≢ []

module _ (wgtypes : WgTypes) (peer : WireguardPeer) (t : Tunnel)
    (filled : peer.status.local_cidrs ≢ []) where
  from_cidrs :
      (n : ℕ) (endpoint : AddrPort) (key : Key) (r : Parsed (List Prefix))
      → parse_addr peer.status.address ≡ some (v4 n)
      → parse_addr_port peer.status.endpoint ≡ some endpoint
      → wgtypes.parse_key peer.status.server_public_key ≡ some key
      → parse_local_cidrs peer.status.local_cidrs ≡ r
      → with_cidrs wgtypes (v4 n) endpoint key r ≡ good t
      → Published wgtypes peer t
  from_cidrs n endpoint key (bad e) a b c d h = absurd (cc)
  from_cidrs n endpoint key (good ps) a b c d h = record {
    host = (n, a, cc);
    endpoint = cc;
    server_key = cc;
    networks =
        subst (Networks peer.status.local_cidrs) {x = ps} (cc)
          (parse_local_cidrs-Networks peer.status.local_cidrs ps d);
    some_network = filled;
  }

  from_key :
      (n : ℕ) (endpoint : AddrPort) (o : Option Key)
      → parse_addr peer.status.address ≡ some (v4 n)
      → parse_addr_port peer.status.endpoint ≡ some endpoint
      → wgtypes.parse_key peer.status.server_public_key ≡ o
      → with_key wgtypes peer (v4 n) endpoint o ≡ good t
      → Published wgtypes peer t
  from_key n endpoint none a b c h = absurd (cc)
  from_key n endpoint (some key) a b c h =
      from_cidrs n endpoint key (parse_local_cidrs peer.status.local_cidrs) a b c refl h

  from_endpoint :
      (n : ℕ) (o : Option AddrPort)
      → parse_addr peer.status.address ≡ some (v4 n)
      → parse_addr_port peer.status.endpoint ≡ o
      → with_endpoint wgtypes peer (v4 n) o ≡ good t
      → Published wgtypes peer t
  from_endpoint n none a b h = absurd (cc)
  from_endpoint n (some endpoint) a b h =
      from_key n endpoint (wgtypes.parse_key peer.status.server_public_key) a b refl h

  from_address :
      (o : Option Addr)
      → parse_addr peer.status.address ≡ o
      → with_address wgtypes peer o ≡ good t
      → Published wgtypes peer t
  unfolding is4
  from_address none a h = absurd (cc)
  from_address (some invalid) a h = absurd (cc)
  from_address (some (v6 n z)) a h = absurd (cc)
  from_address (some (v4 n)) a h = from_endpoint n (parse_addr_port peer.status.endpoint) a refl h

no_cidrs-nil : (cs : List Str) → no_cidrs cs ≡ false → cs ≢ []
no_cidrs-nil [] h e = cc
no_cidrs-nil (c ∷ cs) h e = cc

-- A tunnel that desiredTunnel gives is the one that the peer's status publishes: the /32 of its IPv4
-- address, its endpoint, its server key, and for each entry of a non-empty localCIDRs its network,
-- none of which is the whole address space.
pub desired_tunnel-Published :
    (wgtypes : WgTypes) (peer : WireguardPeer) (t : Tunnel)
    → desired_tunnel wgtypes peer ≡ good t
    → Published wgtypes peer t
unfolding desired_tunnel
desired_tunnel-Published wgtypes peer t h =
    from_address wgtypes peer t (no_cidrs-nil peer.status.local_cidrs (ground arith))
      (parse_addr peer.status.address) refl (ground arith)

-- The networks of such a tunnel meet what the stability of the route plan asks: none is the default.
pub Published-Narrow :
    (wgtypes : WgTypes) (peer : WireguardPeer) (t : Tunnel) (p : Prefix)
    → Published wgtypes peer t
    → has_prefix t.local_cidrs p ≡ true
    → Narrow p
Published-Narrow wgtypes peer t p s h =
    Networks-Narrow peer.status.local_cidrs t.local_cidrs p s.networks h
