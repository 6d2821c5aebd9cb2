-- ===== src/Wireguard/Link/Waiting.antt =====
-- A wait for the link that a userspace implementation creates ends.
use wireguard_operator.Prelude.{
  ℕ, zero, suc, ◌+◌, ◌*◌, ◌/◌, ◌≤◌, ◌<◌, Str, inl, inr, ◌≡◌, refl, subst, arith, ltb, Bool-cases,
  ltb→lt,
}
use wireguard_operator.Api.Exec.{Result, ok, err}
use wireguard_operator.Wireguard.Netlink.{Link, Node, Clock}
use wireguard_operator.Wireguard.Link.{
  Wait, found, timed_out, out_of_fuel, poll_interval, one_poll, poll, wait_for_link,
}

module _ {W : Type 0} (node : Node W) (clock : Clock W node) (iface : Str) where
  -- How a wait with the deadline has ended, in which state: the last lookup has found the link, or
  -- the deadline has passed. It is not cut short.
  abbrev pub Ended : ℕ → Wait × W → Type 0
  Ended deadline (found, w') =
      (w : W) × ((link : Link) × (node.link_by_name iface w ≡ (ok link, w')))
  Ended deadline (timed_out, w') = deadline < clock.time w'
  Ended deadline (out_of_fuel, w') = ⊥

  one_poll-Ended :
      (deadline : ℕ) (rest : W → Wait × W) (w : W) (r : Result Link × W)
      → node.link_by_name iface w ≡ r
      → ((w' : W)
          → clock.time w ≤ deadline
          → clock.time w + poll_interval ≤ clock.time w'
          → Ended deadline (rest w'))
      → Ended deadline (one_poll node deadline rest r)
  one_poll-Ended deadline rest w (ok link, w') e later = (w, (link, e))
  one_poll-Ended deadline rest w (err x, w1) e later =
      let passed : clock.time w ≤ clock.time w1 =
        subst (λ r. clock.time w ≤ clock.time r.1) e (clock.link-time iface w) in
      elim (Bool-cases (ltb deadline (node.now w1).0)) [
        | inl over ↦
            rw over (omega (arith, ltb→lt deadline (node.now w1).0 over, clock.now-time w1))
        | inr going ↦ rw going (
            later (node.sleep poll_interval (node.now w1).1) (ground (arith, clock.now-time w1))
              (omega (arith, clock.now-time w1, clock.sleep-time poll_interval (node.now w1).1)))
      ]

  poll-Ended :
      (fuel deadline : ℕ) (w : W)
      → deadline < clock.time w + poll_interval * fuel
      → Ended deadline (poll node (suc fuel) iface deadline w)
  unfolding poll
  poll-Ended zero deadline w h =
      one_poll-Ended deadline (λ w'. poll node zero iface deadline w') w (node.link_by_name iface w)
        refl (λ w' early later. absurd (omega arith))
  poll-Ended (suc fuel) deadline w h =
      one_poll-Ended deadline (λ w'. poll node (suc fuel) iface deadline w') w
        (node.link_by_name iface w) refl
        (λ w' early later. poll-Ended fuel deadline w' (omega arith))

  -- waitForLink ends: after at most timeout/100 ms + 2 lookups, either one of them has found the
  -- link, or the clock has passed the deadline, for a clock that never runs backwards and whose
  -- sleeps last at least as long as asked.
  pub wait_for_link-Ended :
      (timeout : ℕ) (w : W) → Ended ((node.now w).0 + timeout) (wait_for_link node iface timeout w)
  unfolding wait_for_link
  wait_for_link-Ended timeout w =
      poll-Ended (timeout / poll_interval + 1) ((node.now w).0 + timeout) (node.now w).1
        (omega (arith, clock.now-time w))
