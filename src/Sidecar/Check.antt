-- ===== src/Sidecar/Check.antt =====
-- Check of internal/sidecar/check.go, the startup probe, and routesVia of
-- internal/sidecar/routes_linux.go. The errors' texts are left out. The client is closed on every path
-- after it is opened; an error of the close alone is the probe's.
use wireguard_operator.Prelude.{
  ℕ, Str, Bool, true, false, List, [], ◌∷◌, Option, none, some, ◌≡◌, refl, ◌==◌, ==→≡,
  if◌then◌else◌, subst,
}
use wireguard_operator.Netip.Addr.{Addr, v4}
use wireguard_operator.Api.Exec.{
  other_error, Result, ok, err, Exec, pure, fail, attempt, ◌>>=◌, ◌>>◌,
}
use wireguard_operator.Api.Returns.{
  Answered, Returns, Returns-pure, Returns-fail, Returns-if, Returns-then, Returns-attempt,
}
use wireguard_operator.Wireguard.Netlink.{Link, Node}
use wireguard_operator.Sidecar.Tunnel.Device.{
  Device, CheckError, check_device, Connected, check_device_iff,
}

-- What the probe calls: the node, the device of an interface, the clock in seconds, and the output
-- links of the kernel's routes to an address.
pub record Prober (W : Type 0) : Type 0 where
  pub node : Node W
  pub device : Str → Exec W Device
  pub time_now : Exec W ℕ
  pub route_get : Addr → Exec W (List ℕ)

-- probeAddress
abbrev pub probe_address : Addr
probe_address = v4 0x01010101

module _ {W : Type 0} (prober : Prober W) where
  abbrev pub first_is : ℕ → List ℕ → Bool
  first_is link_index [] = false
  first_is link_index (i ∷ is) = i == link_index

  -- routesVia
  unfoldable pub routes_via : Addr → ℕ → Exec W Bool
  unfolding ◌>>=◌
  routes_via dst link_index = do routes ← prober.route_get dst; pure (first_is link_index routes)

  abbrev pub accepted : Option CheckError → Exec W Unit
  accepted none = pure tt
  accepted (some e) = fail (other_error [])

  -- the part of Check after the wgctrl client is opened
  unfoldable pub check_open : Str → Exec W Unit
  unfolding ◌>>=◌
  check_open iface = do
    dev ← prober.device iface
    now ← prober.time_now
    accepted (check_device dev now)
    link ← prober.node.link_by_name iface
    via ← routes_via probe_address link.index
    if via then pure tt else fail (other_error [])

  unfoldable pub check_closing : Result Unit → Exec W Unit
  unfolding ◌>>=◌
  check_closing (ok u) = prober.node.close_client
  check_closing (err e) = do attempt prober.node.close_client; fail e

  -- Check
  unfoldable pub check : Str → Exec W Unit
  unfolding ◌>>=◌ check_closing
  check iface = do prober.node.open_client; r ← attempt (check_open iface); check_closing r

  -- The interface has one peer with a fresh handshake, and the probed address is routed through it.
  pub record IsUp (iface : Str) : Type 0 where
    pub dev : Device
    pub read : Answered (prober.device iface) dev
    pub now : ℕ
    pub clock : Answered prober.time_now now
    pub connected : Connected dev now
    pub link : Link
    pub found : Answered (prober.node.link_by_name iface) link
    pub rest : List ℕ
    pub routed : Answered (prober.route_get probe_address) (link.index ∷ rest)

  Via : ℕ → Type 0
  Via i = (rest : List ℕ) × Answered (prober.route_get probe_address) (i ∷ rest)

  first_is-Via :
      (i : ℕ) (routes : List ℕ)
      → Answered (prober.route_get probe_address) routes
      → first_is i routes ≡ true
      → Via i
  unfolding Via
  first_is-Via i [] h k = absurd (cc)
  first_is-Via i (j ∷ js) h k =
      (js, subst (λ x. Answered (prober.route_get probe_address) (x ∷ js)) (==→≡ j i k) h)

  routes_via-Via : (i : ℕ) → Returns (λ b. b ≡ true → Via i) (routes_via probe_address i)
  unfolding routes_via
  routes_via-Via i =
      Returns-then (λ b. b ≡ true → Via i) (prober.route_get probe_address)
        (λ routes. pure (first_is i routes))
        (λ routes h.
          Returns-pure (λ b. b ≡ true → Via i) (first_is i routes) (first_is-Via i routes h))

  accepted-none : (o : Option CheckError) (w : W) → (accepted o w).0 ≡ ok tt → o ≡ none
  accepted-none none w h = refl
  accepted-none (some e) w h = absurd (cc)

  check_open-IsUp : (iface : Str) → Returns (λ u. IsUp iface) (check_open iface)
  unfolding check_open Via
  check_open-IsUp iface = Returns-then _ (prober.device iface) _ (λ dev read.
      Returns-then _ prober.time_now _ (λ now clock.
        Returns-then _ (accepted (check_device dev now)) _ (λ u (w, good).
          Returns-then _ (prober.node.link_by_name iface) _ (λ link found.
            Returns-then _ (routes_via probe_address link.index) _ (λ via (w', answer).
              Returns-if _ via (pure tt) (fail (other_error []))
                (λ yes. Returns-pure _ tt (
                  let (rest, routed) = routes_via-Via link.index w' via answer yes in
                  record {
                    dev = dev;
                    read = read;
                    now = now;
                    clock = clock;
                    connected =
                        (check_device_iff dev now).0 (accepted-none (check_device dev now) w good);
                    link = link;
                    found = found;
                    rest = rest;
                    routed = routed;
                  }))
                (λ no. Returns-fail _ (other_error [])))))))

  closing-IsUp :
      (iface : Str) (r : Result Unit) (w : W)
      → (check_open iface w).0 ≡ r
      → Returns (λ u. IsUp iface) (check_closing r)
  unfolding check_closing
  closing-IsUp iface (ok u) w h = λ w' v e. check_open-IsUp iface w tt h
  closing-IsUp iface (err e) w h =
      Returns-attempt _ prober.node.close_client (λ r. fail e) (λ r w' e'. Returns-fail _ e)

  -- The startup probe succeeds only if it read a device with exactly one peer, whose last handshake
  -- was less than 180 seconds before the time it read, and the first route that the kernel gave for
  -- the probed address leaves through the interface's link.
  pub check-IsUp : (iface : Str) (w : W) → (check iface w).0 ≡ ok tt → IsUp iface
  unfolding check
  check-IsUp iface w h =
      Returns-then (λ u. IsUp iface) prober.node.open_client _
        (λ c opened.
          Returns-attempt (λ u. IsUp iface) (check_open iface) check_closing (closing-IsUp iface))
        w tt h
