-- ===== src/Controller/Reconcile/Served.antt =====
-- The loop of allocatePeers as a relation: what becomes of each peer, whatever the API answers.
use wireguard_operator.Prelude.{
  Str, is_empty→≡, is_empty_nil, is_empty, Bool, true, false, List, [], ◌∷◌, ◌++◌, ◌≢◌, inl, inr,
  Option, none, some, ◌≡◌, refl, ap, ◌∙◌, subst, arith, Bool-cases,
}
use wireguard_operator.Api.Types.{WireguardPeer}
use wireguard_operator.Api.Exec.{Result, ok, err, Exec, pure, ◌>>=◌, >>=-eq-ok}
use wireguard_operator.Api.External.{Meta, IpNetGen}
use wireguard_operator.Api.Client.{Client, SamePeer, Echoes}
use wireguard_operator.Ipam.{Allocation, allocated, bad_cidr, no_available_ip, allocate_ip}
use wireguard_operator.Controller.Peers.{address_pool_exhausted}
use wireguard_operator.Controller.Reconcile.{
  configured, with_address, is_settled, prepend, by_allocation, mark_or_skip, written, write_ready,
  allocate_loop,
}

module _ (gen : IpNetGen) (cidr4 : Str) where
  -- From the addresses in use, the peers of the pass are served in order, and the third argument is
  -- returned.
  pub data Served : List Str → List WireguardPeer → List WireguardPeer → Type 0 where
    finished : {used : List Str} → Served used [] []
    dropped :
        {used : List Str} {ps out : List WireguardPeer} (p : WireguardPeer)
        → Served used ps out
        → Served used (p ∷ ps) out
    kept_on :
        {used : List Str} {ps out : List WireguardPeer} (p q : WireguardPeer)
        → p.status.address ≢ []
        → SamePeer p q
        → Served used ps out
        → Served used (p ∷ ps) (q ∷ out)
    assigned :
        {used : List Str} {ps out : List WireguardPeer} (p q : WireguardPeer) (ip : Str)
        → p.status.address ≡ []
        → allocate_ip gen cidr4 used ≡ allocated ip
        → SamePeer (with_address p ip) q
        → Served (used ++ (ip ∷ [])) ps out
        → Served used (p ∷ ps) (q ∷ out)
    reserved :
        {used : List Str} {ps out : List WireguardPeer} (p : WireguardPeer) (ip : Str)
        → p.status.address ≡ []
        → allocate_ip gen cidr4 used ≡ allocated ip
        → Served (used ++ (ip ∷ [])) ps out
        → Served used (p ∷ ps) out

module _ {W : Type 0} (c : Client W) (meta : Meta) where
  SamePeer-configured : (p q : WireguardPeer) → SamePeer (configured meta p) q → SamePeer p q
  unfolding configured
  SamePeer-configured p q s = record {
    same_name = s.same_name;
    same_namespace = s.same_namespace;
    same_spec = s.same_spec;
    same_address = s.same_address;
  }

  same_configured : (p : WireguardPeer) → SamePeer p (configured meta p)
  unfolding configured
  same_configured p = record {
    same_name = refl;
    same_namespace = refl;
    same_spec = refl;
    same_address = refl;
  }

  written-SamePeer :
      (is_new : Bool) (p q : WireguardPeer) (r : Result WireguardPeer) (w : W)
      → ((x : WireguardPeer) → r ≡ ok x → SamePeer (configured meta p) x)
      → (written c meta is_new (configured meta p) r w).0 ≡ ok (some q)
      → SamePeer p q
  written-SamePeer is_new p q (ok x) w echo h =
      SamePeer-configured p q (subst (SamePeer (configured meta p)) (ground arith) (echo x refl))
  written-SamePeer is_new p q (err e) w echo h =
      subst (SamePeer p) (ground arith) (same_configured p)

  write_ready-SamePeer :
      Echoes c
      → (is_new : Bool) (p q : WireguardPeer) (w : W)
      → (write_ready c meta is_new p w).0 ≡ ok (some q)
      → SamePeer p q
  unfolding write_ready ◌>>=◌
  write_ready-SamePeer echoes is_new p q w h =
      written-SamePeer is_new p q (c.update_peer_status (configured meta p) w).0
        (c.update_peer_status (configured meta p) w).1 (λ x e. echoes (configured meta p) x w e) h

  module _ (echoes : Echoes c) (gen : IpNetGen) (cidr4 : Str) where
    prepend-kept_on :
        (used : List Str) (p : WireguardPeer) (ps rest : List WireguardPeer)
        (o : Option WireguardPeer)
        → p.status.address ≢ []
        → ((q : WireguardPeer) → o ≡ some q → SamePeer p q)
        → Served gen cidr4 used ps rest
        → Served gen cidr4 used (p ∷ ps) (prepend o rest)
    prepend-kept_on used p ps rest none h same s = dropped p s
    prepend-kept_on used p ps rest (some q) h same s = kept_on p q h (same q refl) s

    prepend-assigned :
        (used : List Str) (p : WireguardPeer) (ps rest : List WireguardPeer) (ip : Str)
        (o : Option WireguardPeer)
        → p.status.address ≡ []
        → allocate_ip gen cidr4 used ≡ allocated ip
        → ((q : WireguardPeer) → o ≡ some q → SamePeer (with_address p ip) q)
        → Served gen cidr4 (used ++ (ip ∷ [])) ps rest
        → Served gen cidr4 used (p ∷ ps) (prepend o rest)
    prepend-assigned used p ps rest ip none h e same s = reserved p ip h e s
    prepend-assigned used p ps rest ip (some q) h e same s = assigned p q ip h e (same q refl) s

    module _ (used : List Str) (p : WireguardPeer) (ps out : List WireguardPeer) (w : W) where
      abbrev Hypothesis : List Str → Exec W (List WireguardPeer) → Type 0
      Hypothesis u m =
          (rest : List WireguardPeer) (w' : W) → (m w').0 ≡ ok rest → Served gen cidr4 u ps rest

      settled_case :
          (m : Exec W (List WireguardPeer))
          → p.status.address ≢ []
          → Hypothesis used m
          → ((m >>= λ rest. pure (p ∷ rest)) w).0 ≡ ok out
          → Served gen cidr4 used (p ∷ ps) out
      settled_case m held ih h =
          let (rest, e, last) = >>=-eq-ok m (λ rest. pure (p ∷ rest)) w out h in
          subst (Served gen cidr4 used (p ∷ ps)) {x = p ∷ rest} (ground arith) (
            kept_on p p held
              (record {
                same_name = refl;
                same_namespace = refl;
                same_spec = refl;
                same_address = refl;
              })
              (ih rest w e))

      exhausted_case :
          (m : Exec W (List WireguardPeer)) (mark : Exec W Unit)
          → Hypothesis used m
          → ((mark >>= λ _. m) w).0 ≡ ok out
          → Served gen cidr4 used (p ∷ ps) out
      exhausted_case m mark ih h =
          let (_, e, last) = >>=-eq-ok mark (λ _. m) w out h in dropped p (ih out (mark w).1 last)

      held_case :
          (m : Exec W (List WireguardPeer))
          → p.status.address ≢ []
          → Hypothesis used m
          → ((write_ready c meta false p >>= λ q. m >>= λ rest. pure (prepend q rest)) w).0 ≡ ok out
          → Served gen cidr4 used (p ∷ ps) out
      held_case m held ih h =
          let (q, e, tail) =
            >>=-eq-ok (write_ready c meta false p) (λ q. m >>= λ rest. pure (prepend q rest)) w out
              h in
          let w' : W = (write_ready c meta false p w).1 in
          let (rest, f, last) = >>=-eq-ok m (λ rest. pure (prepend q rest)) w' out tail in
          subst (Served gen cidr4 used (p ∷ ps)) {x = prepend q rest} (ground arith) (
            prepend-kept_on used p ps rest q held
              (λ x k. write_ready-SamePeer echoes false p x w (e ∙ ap ok k)) (ih rest w' f))

      fresh_case :
          (m : Exec W (List WireguardPeer)) (ip : Str)
          → p.status.address ≡ []
          → allocate_ip gen cidr4 used ≡ allocated ip
          → Hypothesis (used ++ (ip ∷ [])) m
          → ((write_ready c meta true (with_address p ip) >>= λ q.
                m >>= λ rest. pure (prepend q rest))
              w).0
            ≡ ok out
          → Served gen cidr4 used (p ∷ ps) out
      fresh_case m ip none_held allocation ih h =
          let first : Exec W (Option WireguardPeer) = write_ready c meta true (with_address p ip) in
          let (q, e, tail) = >>=-eq-ok first (λ q. m >>= λ rest. pure (prepend q rest)) w out h in
          let (rest, f, last) = >>=-eq-ok m (λ rest. pure (prepend q rest)) (first w).1 out tail in
          subst (Served gen cidr4 used (p ∷ ps)) {x = prepend q rest} (ground arith) (
            prepend-assigned used p ps rest ip q none_held allocation
              (λ x k. write_ready-SamePeer echoes true (with_address p ip) x w (e ∙ ap ok k))
              (ih rest (first w).1 f))

      allocation_case :
          (fresh : Str → Exec W (List WireguardPeer)) (exhausted : Exec W (List WireguardPeer))
          (a : Allocation)
          → allocate_ip gen cidr4 used ≡ a
          → ((ip : Str)
              → allocate_ip gen cidr4 used ≡ allocated ip
              → (fresh ip w).0 ≡ ok out
              → Served gen cidr4 used (p ∷ ps) out)
          → ((exhausted w).0 ≡ ok out → Served gen cidr4 used (p ∷ ps) out)
          → (by_allocation c meta fresh exhausted a w).0 ≡ ok out
          → Served gen cidr4 used (p ∷ ps) out
      allocation_case fresh exhausted (allocated ip) e f g h = f ip e h
      allocation_case fresh exhausted bad_cidr e f g h = g h
      allocation_case fresh exhausted no_available_ip e f g h = g h

    -- Whatever the loop returns, it has served the peers in order.
    pub allocate_loop-Served :
        (used : List Str) (ps out : List WireguardPeer) (w : W)
        → (allocate_loop c meta gen cidr4 used ps w).0 ≡ ok out
        → Served gen cidr4 used ps out
    unfolding allocate_loop is_empty
    allocate_loop-Served used [] out w h = subst (Served gen cidr4 used []) (ground arith) finished
    allocate_loop-Served used (p ∷ ps) out w h = elim (Bool-cases (is_empty p.status.address)) [
      | inl unallocated ↦
          let none_held : p.status.address ≡ [] = is_empty→≡ p.status.address unallocated in
          allocation_case used p ps out w _ _ (allocate_ip gen cidr4 used) refl
            (λ ip e k.
              fresh_case used p ps out w (allocate_loop c meta gen cidr4 (used ++ (ip ∷ [])) ps) ip
                none_held e (λ rest w' x. allocate_loop-Served (used ++ (ip ∷ [])) ps rest w' x) k)
            (exhausted_case used p ps out w (allocate_loop c meta gen cidr4 used ps)
              (mark_or_skip c meta p (address_pool_exhausted cidr4))
              (λ rest w' x. allocate_loop-Served used ps rest w' x))
            (rw unallocated at h)
      | inr has ↦
          let held : p.status.address ≢ [] = λ e. cc (has, ap is_empty e, is_empty_nil) in
          elim (Bool-cases (is_settled meta p)) [
            | inl done ↦
                settled_case used p ps out w (allocate_loop c meta gen cidr4 used ps) held
                  (λ rest w' x. allocate_loop-Served used ps rest w' x) (rw (has, done) at h)
            | inr busy ↦
                held_case used p ps out w (allocate_loop c meta gen cidr4 used ps) held
                  (λ rest w' x. allocate_loop-Served used ps rest w' x) (rw (has, busy) at h)
          ]
    ]
