-- ===== src/Server.antt =====
-- cmd/agent/main.go: the agent's readiness handler, its reaction to a new state and its re-assertion,
-- with CheckPeerPath of internal/datapath/peerpath.go and GluetunHealthy of internal/agent/gluetun.go. The log is left out, and errors are kept only as that they occur.
pub mod Ready
use wireguard_operator.Prelude.{
  ℕ, zero, suc, ◌+◌, ◌-◌, ◌*◌, ◌/◌, ◌%◌, ◌^◌, ◌≤◌, ◌<◌, compare, Ordering, String, length,
  get_elem?, filter, any, find?, In, In-append_left, In-append_right, All, All-In, All-of_In,
  All-append, All-map, Str, str_eq→≡, str_eq_refl, str_eq_iff, is_empty→≡, is_empty_nil, text,
  str_eq, is_empty, str_compare, cut, has_byte, join, contains, contains→In, In→contains,
  contains-false, Bool, true, false, not, ◌&&◌, ◌||◌, List, [], ◌∷◌, ◌++◌, map, ◌≢◌, ◌↔◌, ◌⊎◌, inl,
  inr, Option, none, some, ◌≡◌, refl, sym, ap, ◌∙◌, subst, arith, ltb, leb, ◌==◌, if◌then◌else◌,
  Bool-cases, ==→≡, ==_refl, ltb→lt, ltb→le,
}
use wireguard_operator.Netip.Addr.{Addr, Prefix}
use wireguard_operator.Netip.Parse.{parse_prefix}
use wireguard_operator.Api.Exec.{
  ApiError, Result, ok, err, Exec, other_error, pure, fail, attempt, ◌>>=◌, ◌>>◌,
}
use wireguard_operator.Api.External.{WgTypes}
use wireguard_operator.Agent.{State, StateError, peer_cidr, is_state_valid, Read, get_desired_state}
use wireguard_operator.Datapath.{peer_probe_source, Lookup, PathError, judge_peer_path}
use wireguard_operator.Resources.{probe_addr}
use wireguard_operator.Wireguard.Netlink.{Node}
use wireguard_operator.Wireguard.Link.{sync}

-- What the agent's process calls: the node, the state file, the datapath (Ensure and Err), the
-- kernel's route lookup, and one request to gluetun's health server, which answers a status code.
pub record Process (W : Type 0) : Type 0 where
  pub node : Node W
  pub read_state_file : W → Read × W
  pub datapath_ensure : Str → Exec W Unit
  pub datapath_err : Exec W Unit
  pub lookup_peer_path : Addr → Addr → W → Lookup × W
  pub gluetun_get : Exec W ℕ

-- The agent's flags, JSON decoding and SHA-256, and wgtypes.
pub record Options : Type 0 where
  pub iface : Str
  pub listen_port : ℕ
  pub userspace_command : Str
  pub unmarshal : Str → Option State
  pub digest : Str → Str
  pub wgtypes : WgTypes

abbrev pub status_ok : ℕ
status_ok = 200

abbrev pub status_service_unavailable : ℕ
status_service_unavailable = 503

module _ {W : Type 0} (p : Process W) (o : Options) where
  abbrev failed : {A : Type 0} → Exec W A
  failed = fail (other_error [])

  abbrev pub no_error : {E : Type 0} → Option E → Exec W Unit
  no_error none = pure tt
  no_error (some e) = failed

  abbrev pub present : {A : Type 0} → Option A → Exec W A
  present none = failed
  present (some a) = pure a

  abbrev state_of_read : Option (State × Str) → Exec W State
  state_of_read none = failed
  state_of_read (some (state, hash)) = pure state

  -- GetDesiredState, its digest ignored
  unfoldable pub desired_state_read : Exec W State
  desired_state_read w =
      let (r, w') = p.read_state_file w in
      state_of_read (get_desired_state o.unmarshal o.digest r) w'

  -- CheckPeerPath
  unfoldable pub check_peer_path : Str → Exec W Unit
  unfolding ◌>>=◌
  check_peer_path cidr = do
    prefix ← present (parse_prefix cidr)
    src ← present (peer_probe_source prefix)
    answer ← (λ w. let (a, w') = p.lookup_peer_path probe_addr src w in (ok a, w'))
    no_error (judge_peer_path answer)

  -- GluetunHealthy
  unfoldable pub gluetun_healthy : Exec W Unit
  unfolding ◌>>=◌
  gluetun_healthy = do status ← p.gluetun_get; if status == status_ok then pure tt else failed

  unfoldable pub sync_device : State → Exec W Unit
  sync_device state = sync p.node o.wgtypes o.iface o.listen_port o.userspace_command state

  -- the checks of the /health handler, in order
  unfoldable pub health_checks : Exec W Unit
  unfolding ◌>>=◌
  health_checks = do
    state ← desired_state_read
    no_error (is_state_valid state)
    sync_device state
    p.datapath_err
    check_peer_path (peer_cidr state)
    gluetun_healthy

  abbrev pub status : Result Unit → ℕ
  status (ok u) = status_ok
  status (err e) = status_service_unavailable

  -- the /health handler: its status code
  unfoldable pub health : W → ℕ × W
  unfolding health_checks
  health w = let (r, w') = health_checks w in (status r, w')

  -- the callback of OnStateChange: the datapath only for a device that was synced
  unfoldable pub on_state : State → Exec W Unit
  unfolding ◌>>=◌
  on_state state = do sync_device state; p.datapath_ensure (peer_cidr state)

  -- one tick of reassert
  unfoldable pub reassert_once : Exec W Unit
  unfolding ◌>>=◌
  reassert_once = do state ← desired_state_read; p.datapath_ensure (peer_cidr state)
