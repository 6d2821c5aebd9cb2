-- ===== src/Agent.antt =====
-- internal/agent/agent.go: the state file that the operator writes and the agent serves.
pub mod Laws
pub mod Once
use wireguard_operator.Prelude.{
  ℕ, zero, suc, ◌+◌, ◌-◌, ◌*◌, ◌/◌, ◌%◌, ◌^◌, ◌≤◌, ◌<◌, compare, Ordering, String, length,
  get_elem?, filter, any, find?, In, In-append_left, In-append_right, All, All-In, All-of_In,
  All-append, All-map, Str, str_eq→≡, str_eq_refl, str_eq_iff, is_empty→≡, is_empty_nil, text,
  str_eq, is_empty, str_compare, cut, has_byte, join, contains, contains→In, In→contains,
  contains-false, Bool, true, false, not, ◌&&◌, ◌||◌, List, [], ◌∷◌, ◌++◌, map, ◌≢◌, ◌↔◌, ◌⊎◌, inl,
  inr, Option, none, some, ◌≡◌, refl, sym, ap, ◌∙◌, subst, arith, ltb, leb, ◌==◌, if◌then◌else◌,
  Bool-cases, ==→≡, ==_refl, ltb→lt, ltb→le,
}
use wireguard_operator.Api.Types.{Wireguard, WireguardPeer}
use wireguard_operator.Ipam.{default_peer_cidr4}

-- State
pub record State : Type 0 where
  pub server : Wireguard
  pub server_private_key : Str
  pub peers : List WireguardPeer

-- PeerCIDR
unfoldable pub peer_cidr : State → Str
peer_cidr state =
    if is_empty state.server.spec.peer_cidr then default_peer_cidr4 else state.server.spec.peer_cidr

-- Why a state is not served.
pub data StateError : Type 0 where
  no_private_key private_key_length : StateError
  no_address no_public_key : ℕ → StateError

-- the loop of IsStateValid, from index i
unfoldable pub peers_valid : ℕ → List WireguardPeer → Option StateError
peers_valid i [] = none
peers_valid i (p ∷ ps) =
    let rest = peers_valid (suc i) ps in
    if is_empty p.status.address
    then some (no_address i)
    else if is_empty p.spec.public_key
    then some (no_public_key i)
    else rest

-- IsStateValid: `none` is a nil error
unfoldable pub is_state_valid : State → Option StateError
unfolding peers_valid
is_state_valid state =
    if is_empty state.server_private_key
    then some no_private_key
    else if not (length state.server_private_key == 44)
    then some private_key_length
    else peers_valid 0 state.peers

-- The content of the state file: its bytes, or an error of reading it.
pub data Read : Type 0 where
  unreadable : Read
  content : Str → Read

-- GetDesiredState: the parsed state and the digest of the bytes. JSON decoding and SHA-256 are
-- arguments.
unfoldable pub get_desired_state : (Str → Option State) → (Str → Str) → Read → Option (State × Str)
get_desired_state unmarshal digest unreadable = none
get_desired_state unmarshal digest (content bytes) = elim (unmarshal bytes) [
  | none ↦ none
  | some state ↦ some (state, digest bytes)
]

-- What OnStateChange reacts to: a file event with its Write or Create bit and the file's content at
-- that time, or an error of the watcher.
pub data FileEvent : Type 0 where
  changed : Bool → Read → FileEvent
  watcher_error : FileEvent

abbrev pub valid_states : State → List State
valid_states state = elim (is_state_valid state) [ none ↦ state ∷ [] | some e ↦ [] ]

abbrev pub react : Str → Option (State × Str) → Str × List State
react hash none = (hash, [])
react hash (some (state, new_hash)) =
    if str_eq new_hash hash then (hash, []) else (new_hash, valid_states state)

module _ (unmarshal : Str → Option State) (digest : Str → Str) where
  -- one event of the loop of OnStateChange: the remembered digest and the states handed on
  unfoldable pub on_event : Str → FileEvent → Str × List State
  on_event hash watcher_error = (hash, [])
  on_event hash (changed false file) = (hash, [])
  on_event hash (changed true file) = react hash (get_desired_state unmarshal digest file)

  unfoldable pub on_events : Str → List FileEvent → Str × List State
  unfolding on_event
  on_events hash [] = (hash, [])
  on_events hash (e ∷ es) =
      let (hash', first) = on_event hash e in
      let (last, later) = on_events hash' es in (last, first ++ later)

  abbrev pub started : Option (State × Str) → Str × List State
  started none = ([], [])
  started (some (state, hash)) = (hash, valid_states state)

  -- OnStateChange: the first read, before the loop; an unreadable file leaves the empty digest
  unfoldable pub on_state_change : Read → List FileEvent → List State
  unfolding on_events
  on_state_change first events =
      let (hash, handed) = started (get_desired_state unmarshal digest first) in
      handed ++ (on_events hash events).1
