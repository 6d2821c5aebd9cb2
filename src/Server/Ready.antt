-- ===== src/Server/Ready.antt =====
-- What an agent that reports itself ready has checked.
use wireguard_operator.Prelude.{
  Str, str_eq→≡, inl, inr, Option, none, some, ◌≡◌, refl, ap, ◌∙◌, arith, ◌==◌, Bool-cases, ==→≡,
}
use wireguard_operator.Netip.Addr.{Addr, Prefix}
use wireguard_operator.Netip.Parse.{parse_prefix}
use wireguard_operator.Api.Exec.{Result, ok, err, ◌>>=◌, >>=-eq-ok}
use wireguard_operator.Api.Returns.{Answered, Returns, Returns-then}
use wireguard_operator.Agent.{State, peer_cidr, is_state_valid}
use wireguard_operator.Datapath.{
  egress_interface, peer_probe_source, Lookup, device, einval, lookup_failed, judge_peer_path,
}
use wireguard_operator.Resources.{probe_addr}
use wireguard_operator.Server.{
  Process, Options, no_error, present, desired_state_read, sync_device, check_peer_path,
  gluetun_healthy, status, health_checks, health, status_ok,
}

module _ {W : Type 0} (p : Process W) (o : Options) where
  -- The kernel would forward a peer's packet for the probe's address into the tunnel.
  pub record Forwards (cidr : Str) : Type 0 where
    pub prefix : Prefix
    pub parsed : parse_prefix cidr ≡ some prefix
    pub src : Addr
    pub second_host : peer_probe_source prefix ≡ some src
    pub via_tunnel : (at : W) × ((p.lookup_peer_path probe_addr src at).0 ≡ device egress_interface)

  pub record IsReady (state : State) : Type 0 where
    pub valid : is_state_valid state ≡ none
    pub synced : Answered (sync_device p o state) tt
    pub asserted : Answered p.datapath_err tt
    pub forwards : Forwards (peer_cidr state)
    pub gluetun : Answered p.gluetun_get status_ok

  no_error-ok : {E : Type 0} (e : Option E) (w : W) → (no_error p o e w).0 ≡ ok tt → e ≡ none
  no_error-ok none w h = refl
  no_error-ok (some x) w h = absurd (cc)

  present-ok : {A : Type 0} (e : Option A) (w : W) (a : A) → (present p o e w).0 ≡ ok a → e ≡ some a
  present-ok none w a h = absurd (cc)
  present-ok (some x) w a h = cc

  judge_peer_path-none : (l : Lookup) → judge_peer_path l ≡ none → l ≡ device egress_interface
  unfolding judge_peer_path
  judge_peer_path-none einval h = absurd (cc)
  judge_peer_path-none lookup_failed h = absurd (cc)
  judge_peer_path-none (device dev) h = ap device (str_eq→≡ dev egress_interface (ground arith))

  check_peer_path-Forwards :
      (cidr : Str) (w : W) → (check_peer_path p o cidr w).0 ≡ ok tt → Forwards cidr
  unfolding check_peer_path ◌>>=◌
  check_peer_path-Forwards cidr w h =
      let (prefix, e1, h1) = >>=-eq-ok (present p o (parse_prefix cidr)) _ w tt h in
      let w1 : W = (present p o (parse_prefix cidr) w).1 in
      let (src, e2, h2) = >>=-eq-ok (present p o (peer_probe_source prefix)) _ w1 tt h1 in
      let w2 : W = (present p o (peer_probe_source prefix) w1).1 in
      record {
        prefix = prefix;
        parsed = present-ok (parse_prefix cidr) w prefix e1;
        src = src;
        second_host = present-ok (peer_probe_source prefix) w1 src e2;
        via_tunnel = (
          w2,
          judge_peer_path-none (p.lookup_peer_path probe_addr src w2).0
              (no_error-ok (judge_peer_path (p.lookup_peer_path probe_addr src w2).0) _ h2),
        );
      }

  gluetun_healthy-ok :
      (w : W) → (gluetun_healthy p o w).0 ≡ ok tt → Answered p.gluetun_get status_ok
  unfolding gluetun_healthy
  gluetun_healthy-ok w h =
      let (status, e, k) = >>=-eq-ok p.gluetun_get _ w tt h in
      elim (Bool-cases (status == status_ok)) [
        | inl same ↦ (w, e ∙ ap ok (==→≡ status status_ok same))
        | inr other ↦ absurd (cc (rw other at k))
      ]

  abbrev Ready : Type 0
  Ready = (state : State) × Answered (desired_state_read p o) state × IsReady state

  health_checks-IsReady : Returns (λ u. Ready) (health_checks p o)
  unfolding health_checks
  health_checks-IsReady = Returns-then _ (desired_state_read p o) _ (λ state read.
      Returns-then _ (no_error p o (is_state_valid state)) _ (λ a (w, valid).
        Returns-then _ (sync_device p o state) _ (λ b synced.
          Returns-then _ p.datapath_err _ (λ c asserted.
            Returns-then _ (check_peer_path p o (peer_cidr state)) _ (λ d (w', path).
              λ w'' e healthy. (
                state,
                read,
                record {
                  valid = no_error-ok (is_state_valid state) w valid;
                  synced = synced;
                  asserted = asserted;
                  forwards = check_peer_path-Forwards (peer_cidr state) w' path;
                  gluetun = gluetun_healthy-ok w'' healthy;
                },
              ))))))

  status-ok : (r : Result Unit) → status p o r ≡ status_ok → r ≡ ok tt
  status-ok (ok u) h = refl
  status-ok (err e) h = absurd (omega (arith, h))

  -- When /health answers 200, then the state file was read as a state that the agent serves; the
  -- device was synced with it; the last Ensure that Err reports succeeded; the kernel would forward a
  -- peer's packet from the second host of its peerCIDR into the tunnel; and gluetun answered 200.
  pub health-IsReady :
      (w : W)
      → (health p o w).0 ≡ status_ok
      → (state : State) × Answered (desired_state_read p o) state × IsReady state
  unfolding health
  health-IsReady w h = health_checks-IsReady w tt (status-ok (health_checks p o w).0 h)
