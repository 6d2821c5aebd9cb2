-- ===== src/Sidecar/RouteTable/Calls.antt =====
-- What the calls of ensureRoutes leave in the main table.
use wireguard_operator.Prelude.{
  ℕ, In, Bool, true, false, List, [], ◌∷◌, ◌⊎◌, inl, inr, some, ◌≡◌, refl, sym, ap, ◌∙◌, subst,
  Bool-cases, if◌then◌else◌,
}
use wireguard_operator.Netip.Addr.{Addr, Prefix, prefix_eq}
use wireguard_operator.Wireguard.Address.{prefix_eq→≡}
use wireguard_operator.Api.Exec.{
  Result, ok, err, Exec, pure, fail, ◌>>=◌, Leaves, Leaves-then, Leaves-attempt, Leaves-pure,
  Leaves-fail, >>=-eq-run,
}
use wireguard_operator.Sidecar.Routes.{Route, route_protocol}
use wireguard_operator.Sidecar.RouteTable.{
  delete_ipv6_defaults, listed6, NetRoute6, NewRoute, RouteTable, delete_stale, replace_locals,
  gone_ignored, gone6_ignored, no_ipv6_stack, delete_each6, is_default6,
}
use wireguard_operator.Sidecar.RouteTable.Kernel.{
  installed, Deleted, Kernel, not_equal, gone_ignored-Deleted, gone_ignored-same,
  gone6_ignored-same,
}

abbrev pub want : Addr → ℕ → Prefix → NewRoute
want gw link p = record {
  dst = p;
  gw = some gw;
  link_index = link;
  link_scope = false;
  protocol = route_protocol;
}

module _ {W : Type 0} (k : RouteTable W) (kernel : Kernel k) where
  module _ (gw : Addr) (link : ℕ) where
    -- a local network's route stays through the other replaces
    pub replace_locals-kept :
        (ps : List Prefix) (q : Prefix) (w : W)
        → (replace_locals k gw link ps w).0 ≡ ok tt
        → In (installed (want gw link q)) (kernel.held w)
        → In (installed (want gw link q)) (kernel.held (replace_locals k gw link ps w).1)
    unfolding replace_locals
    replace_locals-kept [] q w h m = m
    replace_locals-kept (p ∷ ps) q w h m =
        let (_, set, run) =
          >>=-eq-run (k.route_replace (want gw link p)) (λ u. replace_locals k gw link ps) w tt h in
        let w1 : W = (k.route_replace (want gw link p) w).1 in
        let stays : In (installed (want gw link q)) (kernel.held w1) =
          elim (Bool-cases (prefix_eq q p)) [
            | inl same ↦
                subst (λ x. In (installed (want gw link x)) (kernel.held w1))
                  (sym (prefix_eq→≡ q p same)) (kernel.replace-new (want gw link p) w set)
            | inr other ↦
                kernel.replace-kept (want gw link p) w (installed (want gw link q)) set m
                  (not_equal q p other)
          ] in
        subst (λ x. In (installed (want gw link q)) (kernel.held x.1)) (sym run)
          (replace_locals-kept ps q w1 (ap (λ x. x.0) (sym run) ∙ h) stays)

    pub replace_locals-held :
        (ps : List Prefix) (w : W)
        → (replace_locals k gw link ps w).0 ≡ ok tt
        → (r : Route) → In r (kernel.held (replace_locals k gw link ps w).1)
        → ((p : Prefix) × In p ps × (r ≡ installed (want gw link p)))
          ⊎ (In r (kernel.held w) × ((p : Prefix) → In p ps → ¬ ((r.dst ≡ p) × (r.priority ≡ 0))))
    unfolding replace_locals
    replace_locals-held [] w h r m = inr (m, λ p e. elim e [ ])
    replace_locals-held (p ∷ ps) w h r m =
        let (_, set, run) =
          >>=-eq-run (k.route_replace (want gw link p)) (λ u. replace_locals k gw link ps) w tt h in
        let w1 : W = (k.route_replace (want gw link p) w).1 in
        elim (replace_locals-held ps w1 (ap (λ x. x.0) (sym run) ∙ h) r
          (subst (λ x. In r (kernel.held x.1)) run m)) [
            | inl (q, there, e) ↦ inl (q, inr there, e)
            | inr (m1, free) ↦ elim (kernel.replace-held (want gw link p) w r set m1) [
              | inl e ↦ inl (p, inl refl, e)
              | inr (m0, here) ↦ inr (
                m0,
                λ q there. elim there [
                  | inl e ↦ λ (d, z). here (d ∙ e, z)
                  | inr later ↦ free q later
                ],
              )
            ]
          ]

    pub replace_locals-new :
        (ps : List Prefix) (q : Prefix) (w : W)
        → (replace_locals k gw link ps w).0 ≡ ok tt
        → In q ps
        → In (installed (want gw link q)) (kernel.held (replace_locals k gw link ps w).1)
    unfolding replace_locals
    replace_locals-new [] q w h m = elim m [ ]
    replace_locals-new (p ∷ ps) q w h m =
        let (_, set, run) =
          >>=-eq-run (k.route_replace (want gw link p)) (λ u. replace_locals k gw link ps) w tt h in
        let w1 : W = (k.route_replace (want gw link p) w).1 in
        let fine : (replace_locals k gw link ps w1).0 ≡ ok tt = ap (λ x. x.0) (sym run) ∙ h in
        subst (λ x. In (installed (want gw link q)) (kernel.held x.1)) (sym run)
          (elim m [
            | inl e ↦ replace_locals-kept ps q w1 fine (
                subst (λ x. In (installed (want gw link x)) (kernel.held w1)) (sym e)
                  (kernel.replace-new (want gw link p) w set))
            | inr later ↦ replace_locals-new ps q w1 fine later
          ])

  -- what the deletes of the stale routes leave
  abbrev pub Left : List Route → W → Unit {0} → W → Type 0
  Left rs w u w' =
      ((r : Route) → In r (kernel.held w') → In r (kernel.held w) × ¬ In r rs)
      × ((r : Route) → In r (kernel.held w) → ¬ In r rs → In r (kernel.held w'))

  pub delete_stale-Left : (rs : List Route) (w : W) → Leaves (Left rs w) (delete_stale k rs) w
  unfolding delete_stale
  delete_stale-Left [] w = Leaves-pure (Left [] w) tt w (λ r m. (m, λ e. elim e [ ]), λ r m n. m)
  delete_stale-Left (s ∷ rs) w =
      let w1 : W = (k.route_del s w).1 in
      Leaves-attempt (Left (s ∷ rs) w) (k.route_del s)
        (λ res. gone_ignored k res >>= λ u. delete_stale k rs) w
        (λ res e.
          Leaves-then (Left (s ∷ rs) w) (gone_ignored k res) (λ u. delete_stale k rs) w1
            (λ u fine. λ v h.
              let w2 : W = (gone_ignored k res w1).1 in
              let same : kernel.held w2 ≡ kernel.held w1 =
                ap kernel.held (gone_ignored-same k res w1) in
              let gone = subst Deleted (sym e) (gone_ignored-Deleted k res w1 fine) in
              let (back, forth) = delete_stale-Left rs w2 v h in
              (
                λ r m.
                    let (m2, out) = back r m in
                    let (m0, differ) = kernel.del-held s w r gone (subst (In r) same m2) in
                    (m0, λ x. elim x [ inl e ↦ differ e | inr later ↦ out later ]),
                λ r m n.
                    forth r
                      (subst (In r) (sym same) (kernel.del-kept s w r gone m (λ e. n (inl e))))
                      (λ later. n (inr later)),
              )))

  abbrev pub Same6 : List Route → Unit {0} → W → Type 0
  Same6 rs u w = kernel.held w ≡ rs

  pub delete_each6-same :
      (xs : List NetRoute6) (rs : List Route) (w : W)
      → kernel.held w ≡ rs
      → Leaves (Same6 rs) (delete_each6 k xs) w
  unfolding delete_each6
  delete_each6-same [] rs w e = Leaves-pure (Same6 rs) tt w e
  delete_each6-same (x ∷ xs) rs w e = elim (Bool-cases (is_default6 x)) [
    | inr other ↦ rw other (delete_each6-same xs rs w e)
    | inl default ↦ rw default (
        Leaves-attempt (Same6 rs) (k.route_del6 x)
          (λ res. gone6_ignored k res >>= λ u. delete_each6 k xs) w
          (λ res _.
            Leaves-then (Same6 rs) (gone6_ignored k res) (λ u. delete_each6 k xs) _
              (λ u _.
                delete_each6-same xs rs _
                  (ap kernel.held (gone6_ignored-same k res _) ∙ kernel.del6-same x w ∙ e))))
  ]

  pub delete_ipv6_defaults-same :
      (rs : List Route) (w : W) → kernel.held w ≡ rs → Leaves (Same6 rs) (delete_ipv6_defaults k) w
  unfolding delete_ipv6_defaults
  delete_ipv6_defaults-same rs w e =
      Leaves-attempt (Same6 rs) k.list_routes6 (listed6 k) w (λ r _. by_answer r)
    where
      here : kernel.held (k.list_routes6 w).1 ≡ rs
      here = kernel.list6-same w ∙ e

      by_answer :
          (r : Result (List NetRoute6)) → Leaves (Same6 rs) (listed6 k r) (k.list_routes6 w).1
      by_answer (ok xs) = delete_each6-same xs rs _ here
      by_answer (err x) = by_test (no_ipv6_stack x)
        where
          by_test :
              (t : Bool)
              → Leaves
                  (Same6 rs)
                  (if◌then◌else◌ {A = Exec W Unit} t (pure tt) (fail x))
                  (k.list_routes6 w).1
          by_test true = Leaves-pure (Same6 rs) tt _ here
          by_test false = Leaves-fail (Same6 rs) x _
