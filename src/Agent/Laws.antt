-- ===== src/Agent/Laws.antt =====
-- What the agent serves: only valid states.
use wireguard_operator.Prelude.{
  ℕ, suc, length, All, All-append, Str, is_empty→≡, is_empty_nil, str_eq, is_empty, true, false,
  List, [], ◌∷◌, ◌≢◌, ◌↔◌, inl, inr, Option, none, some, ◌≡◌, refl, ap, arith, Bool-cases, ==→≡,
}
use wireguard_operator.Api.Types.{WireguardPeer}
use wireguard_operator.Agent.{
  State, StateError, peers_valid, is_state_valid, Read, get_desired_state, FileEvent, changed,
  watcher_error, valid_states, react, on_event, on_events, started, on_state_change,
}

-- What IsStateValid promises.
pub record Servable (state : State) : Type 0 where
  pub key_length : length state.server_private_key ≡ 44
  pub addresses : All (λ p. p.status.address ≢ []) state.peers
  pub keys : All (λ p. p.spec.public_key ≢ []) state.peers

not_empty : (s : Str) → is_empty s ≡ false → s ≢ []
not_empty s h e = cc (h, ap is_empty e, is_empty_nil)

peers_valid-none :
    (i : ℕ) (ps : List WireguardPeer)
    → peers_valid i ps ≡ none
    → All (λ p. p.status.address ≢ []) ps × All (λ p. p.spec.public_key ≢ []) ps
unfolding peers_valid
peers_valid-none i [] h = (tt, tt)
peers_valid-none i (p ∷ ps) h =
    let (first, later) = peers_valid-none (suc i) ps (ground arith) in
    (
      (not_empty p.status.address (ground arith), first),
      (not_empty p.spec.public_key (ground arith), later),
    )

is_state_valid-Servable : (state : State) → is_state_valid state ≡ none → Servable state
unfolding is_state_valid
is_state_valid-Servable state h =
    let (first, later) = peers_valid-none 0 state.peers (ground arith) in
    record {
      key_length = ground (arith, ==→≡ (length state.server_private_key) 44);
      addresses = first;
      keys = later;
    }

has_text : (s : Str) → s ≢ [] → is_empty s ≡ false
has_text s h = elim (Bool-cases (is_empty s)) [
  | inr full ↦ full
  | inl e ↦ absurd (h (is_empty→≡ s e))
]

peers_valid_complete :
    (i : ℕ) (ps : List WireguardPeer)
    → All (λ p. p.status.address ≢ []) ps
    → All (λ p. p.spec.public_key ≢ []) ps
    → peers_valid i ps ≡ none
unfolding peers_valid
peers_valid_complete i [] h k = refl
peers_valid_complete i (p ∷ ps) (a, h) (b, k) =
    rw (has_text p.status.address a, has_text p.spec.public_key b)
      (peers_valid_complete (suc i) ps h k)

long_text : (s : Str) → length s ≡ 44 → is_empty s ≡ false
unfolding is_empty
long_text [] h = absurd (omega arith)
long_text (b ∷ s) h = refl

Servable-is_state_valid : (state : State) → Servable state → is_state_valid state ≡ none
unfolding is_state_valid
Servable-is_state_valid state s =
    rw (long_text state.server_private_key s.key_length, s.key_length)
      (peers_valid_complete 0 state.peers s.addresses s.keys)

-- IsStateValid accepts exactly the states with a private key of 44 bytes, each of whose peers has
-- an address and a public key.
pub is_state_valid_iff : (state : State) → (is_state_valid state ≡ none) ↔ Servable state
is_state_valid_iff state = (is_state_valid-Servable state, Servable-is_state_valid state)

valid_states-All : (state : State) → All (λ s. is_state_valid s ≡ none) (valid_states state)
valid_states-All state = go (is_state_valid state) refl
  where
    go :
        (o : Option StateError)
        → is_state_valid state ≡ o
        → All (λ s. is_state_valid s ≡ none) (elim o [ none ↦ state ∷ [] | some e ↦ [] ])
    go none e = (e, tt)
    go (some x) e = tt

module _ (unmarshal : Str → Option State) (digest : Str → Str) where
  react-All :
      (hash : Str) (o : Option (State × Str)) → All (λ s. is_state_valid s ≡ none) (react hash o).1
  react-All hash none = tt
  react-All hash (some (state, new_hash)) = elim (Bool-cases (str_eq new_hash hash)) [
    | inl same ↦ rw same tt
    | inr fresh ↦ rw fresh (valid_states-All state)
  ]

  on_event-All :
      (hash : Str) (e : FileEvent)
      → All (λ s. is_state_valid s ≡ none) (on_event unmarshal digest hash e).1
  unfolding on_event
  on_event-All hash watcher_error = tt
  on_event-All hash (changed false file) = tt
  on_event-All hash (changed true file) = react-All hash (get_desired_state unmarshal digest file)

  on_events-All :
      (hash : Str) (es : List FileEvent)
      → All (λ s. is_state_valid s ≡ none) (on_events unmarshal digest hash es).1
  unfolding on_events
  on_events-All hash [] = tt
  on_events-All hash (e ∷ es) =
      All-append _ (on_event unmarshal digest hash e).1 _ (on_event-All hash e)
        (on_events-All (on_event unmarshal digest hash e).0 es)

  started-All :
      (o : Option (State × Str)) → All (λ s. is_state_valid s ≡ none) (started unmarshal digest o).1
  started-All none = tt
  started-All (some (state, hash)) = valid_states-All state

  -- Whatever the file holds at the start and at each event, and whatever the watcher reports, every
  -- state that OnStateChange hands on passes IsStateValid.
  pub on_state_change-All :
      (first : Read) (events : List FileEvent)
      → All (λ s. is_state_valid s ≡ none) (on_state_change unmarshal digest first events)
  unfolding on_state_change
  on_state_change-All first events =
      let begin : Str × List State =
        started unmarshal digest (get_desired_state unmarshal digest first) in
      All-append _ begin.1 _ (started-All (get_desired_state unmarshal digest first))
        (on_events-All begin.0 events)
