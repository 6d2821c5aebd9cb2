-- ===== src/Agent/Once.antt =====
-- A content of the state file that is written again is served once.
use wireguard_operator.Prelude.{
  All, Str, str_eq_refl, str_eq, true, false, str_eq→≡, str_eq_iff, sym, ◌∙◌, subst, ◌++◌, List, [],
  ◌∷◌, ◌≢◌, ◌⊎◌, inl, inr, Option, none, some, ◌≡◌, refl, ap, Bool-cases,
}
use wireguard_operator.Agent.{
  State, StateError, is_state_valid, unreadable, content, get_desired_state, FileEvent, changed,
  watcher_error, valid_states, react, on_event, on_events,
}

++-nil : (xs : List State) → xs ++ [] ≡ xs
++-nil [] = refl
++-nil (x ∷ xs) = ap (λ ys. x ∷ ys) (++-nil xs)

module _ (unmarshal : Str → Option State) (digest : Str → Str) where
  -- An event that tells nothing new: no write, an unreadable or unparsable file, or a content with
  -- the remembered digest.
  abbrev pub Quiet : Str → FileEvent → Type 0
  Quiet hash watcher_error = Unit
  Quiet hash (changed false file) = Unit
  Quiet hash (changed true unreadable) = Unit
  Quiet hash (changed true (content bytes)) = (unmarshal bytes ≡ none) ⊎ (digest bytes ≡ hash)

  on_event-Quiet :
      (hash : Str) (e : FileEvent) → Quiet hash e → on_event unmarshal digest hash e ≡ (hash, [])
  unfolding on_event get_desired_state
  on_event-Quiet hash watcher_error h = refl
  on_event-Quiet hash (changed false file) h = refl
  on_event-Quiet hash (changed true unreadable) h = refl
  on_event-Quiet hash (changed true (content bytes)) (inl e) = rw (e, get_desired_state) refl
  on_event-Quiet hash (changed true (content bytes)) (inr e) = go (unmarshal bytes)
    where
      go :
          (o : Option State)
          → react hash (elim o [ none ↦ none | some state ↦ some (state, digest bytes) ])
            ≡ (hash, [])
      go none = refl
      go (some state) = rw (e, str_eq_refl hash) refl

  on_events-Quiet :
      (hash : Str) (es : List FileEvent)
      → All (Quiet hash) es
      → on_events unmarshal digest hash es ≡ (hash, [])
  unfolding on_events
  on_events-Quiet hash [] h = refl
  on_events-Quiet hash (e ∷ es) (q, h) =
      rw (on_event-Quiet hash e q, on_events-Quiet hash es h) refl

  -- An event after the content `bytes` was read: no write, a content that cannot be read or parsed, or
  -- the same bytes again.
  abbrev pub Repeats : Str → FileEvent → Type 0
  Repeats bytes watcher_error = Unit
  Repeats bytes (changed false file) = Unit
  Repeats bytes (changed true unreadable) = Unit
  Repeats bytes (changed true (content again)) = (unmarshal again ≡ none) ⊎ (again ≡ bytes)

  Repeats-Quiet : (bytes : Str) (e : FileEvent) → Repeats bytes e → Quiet (digest bytes) e
  Repeats-Quiet bytes watcher_error h = tt
  Repeats-Quiet bytes (changed false file) h = tt
  Repeats-Quiet bytes (changed true unreadable) h = tt
  Repeats-Quiet bytes (changed true (content again)) h = elim h [
    | inl broken ↦ inl broken
    | inr same ↦ inr (ap digest same)
  ]

  repeated :
      (bytes : Str) (es : List FileEvent) → All (Repeats bytes) es → All (Quiet (digest bytes)) es
  repeated bytes [] h = tt
  repeated bytes (e ∷ es) (q, h) = (Repeats-Quiet bytes e q, repeated bytes es h)

  -- What a written content that parses leads to, with the repeats after it.
  pub record Once (hash bytes : Str) (state : State) (run : Str × List State) : Type 0 where
    pub remembered : run.0 ≡ digest bytes
    pub known : digest bytes ≡ hash → run.1 ≡ []
    pub fresh : digest bytes ≢ hash → is_state_valid state ≡ none → run.1 ≡ state ∷ []
    pub refused : is_state_valid state ≢ none → run.1 ≡ []

  valid_states_lem :
      (state : State)
      → (is_state_valid state ≡ none → valid_states state ≡ state ∷ [])
        × (is_state_valid state ≢ none → valid_states state ≡ [])
  valid_states_lem state = by_value (is_state_valid state) refl
    where
      by_value :
          (o : Option StateError)
          → is_state_valid state ≡ o
          → (is_state_valid state ≡ none → valid_states state ≡ state ∷ [])
            × (is_state_valid state ≢ none → valid_states state ≡ [])
      by_value none e = (λ h. rw (e, valid_states) refl, λ h. absurd (h e))
      by_value (some x) e = (λ h. absurd (cc (e, h)), λ h. rw (e, valid_states) refl)

  written :
      (hash bytes : Str) (state : State)
      → unmarshal bytes ≡ some state
      → Once hash bytes state (on_event unmarshal digest hash (changed true (content bytes)))
  unfolding on_event get_desired_state
  written hash bytes state h =
      let (valid, refused) = valid_states_lem state in
      elim (Bool-cases (str_eq (digest bytes) hash)) [
        | inl same ↦
            let e : digest bytes ≡ hash = str_eq→≡ (digest bytes) hash same in
            rw (h, get_desired_state, same)
              (record {
                remembered = sym e;
                known = λ k. refl;
                fresh = λ k. absurd (k e);
                refused = λ k. refl;
              })
        | inr other ↦
            rw (h, get_desired_state, other)
              (record {
                remembered = refl;
                known = λ k. absurd (cc (other, (str_eq_iff (digest bytes) hash).1 k));
                fresh = λ k. valid;
                refused = refused;
              })
      ]

  -- A content that parses is handed on once, if its digest is new and its state is valid, and never
  -- otherwise, however often the same bytes are written again right after it, with unreadable and
  -- unparsable writes and watcher errors between them; its digest is remembered.
  pub on_events-Once :
      (hash bytes : Str) (state : State) (es : List FileEvent)
      → unmarshal bytes ≡ some state
      → All (Repeats bytes) es
      → Once hash bytes state (on_events unmarshal digest hash (changed true (content bytes) ∷ es))
  unfolding on_events
  on_events-Once hash bytes state es h repeats =
      let first = written hash bytes state h in
      let e : Str × List State = on_event unmarshal digest hash (changed true (content bytes)) in
      let quiet : on_events unmarshal digest e.0 es ≡ (e.0, []) =
        on_events-Quiet e.0 es
          (subst (λ d. All (Quiet d) es) (sym first.remembered) (repeated bytes es repeats)) in
      let end : e.1 ++ [] ≡ e.1 = ++-nil e.1 in
      rw quiet (record {
        remembered = first.remembered;
        known = λ k. end ∙ first.known k;
        fresh = λ k v. end ∙ first.fresh k v;
        refused = λ k. end ∙ first.refused k;
      })
