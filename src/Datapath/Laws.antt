-- ===== src/Datapath/Laws.antt =====
-- What the datapath asserts.
use wireguard_operator.Prelude.{
  All, Str, Bool, true, false, List, [], ◌∷◌, ◌⊎◌, inl, inr, ◌≡◌, refl, sym, ap, ◌∙◌, subst,
}
use wireguard_operator.Netip.Addr.{Prefix}
use wireguard_operator.Datapath.{
  Rule, rules, iptables_args, check_op, append_op, drop_args, Runner, appended, checked,
  ensure_rules, ensure_iptables,
}

-- What iptables(8) documents of the commands: a check succeeds only if the rule is there, an append
-- leaves it there, setting the policy sets it, and none of them removes a rule or opens the policy.
pub record Iptables {W : Type 0} (run : Runner W) : Type 1 where
  pub Present : Rule → W → Type 0
  pub Closed : W → Type 0
  pub check-Present :
      (r : Rule) (w : W)
      → (run (iptables_args r check_op) w).0 ≡ true
      → Present r (run (iptables_args r check_op) w).1
  pub append-Present :
      (r : Rule) (w : W)
      → (run (iptables_args r append_op) w).0 ≡ true
      → Present r (run (iptables_args r append_op) w).1
  pub drop-Closed : (w : W) → (run drop_args w).0 ≡ true → Closed (run drop_args w).1
  pub keeps-Present :
      (r s : Rule) (op : Str) (w : W)
      → (op ≡ check_op) ⊎ (op ≡ append_op)
      → Present r w
      → Present r (run (iptables_args s op) w).1
  pub keeps-Closed :
      (s : Rule) (op : Str) (w : W)
      → (op ≡ check_op) ⊎ (op ≡ append_op)
      → Closed w
      → Closed (run (iptables_args s op) w).1

module _ {W : Type 0} (run : Runner W) (t : Iptables run) where
  -- a property that commands on rules keep
  abbrev Kept : (W → Type 0) → Type 0
  Kept P =
      (s : Rule) (op : Str) (w : W)
      → (op ≡ check_op) ⊎ (op ≡ append_op)
      → P w
      → P (run (iptables_args s op) w).1

  appended-true :
      (r : Bool × W) (k : W → Bool × W)
      → (appended run r k).0 ≡ true
      → (r.0 ≡ true) × ((k r.1).0 ≡ true) × ((appended run r k).1 ≡ (k r.1).1)
  appended-true (true, w) k h = (refl, h, refl)
  appended-true (false, w) k h = absurd (cc)

  -- the state from which the loop goes on
  step : Rule → W → W
  step r w = elim (run (iptables_args r check_op) w).0 [
    | true ↦ (run (iptables_args r check_op) w).1
    | false ↦ (run (iptables_args r append_op) (run (iptables_args r check_op) w).1).1
  ]

  checked-true :
      (r : Rule) (w : W) (a : Bool) (v : W) (k : W → Bool × W)
      → run (iptables_args r check_op) w ≡ (a, v)
      → (checked run r (a, v) k).0 ≡ true
      → (u : W) × (checked run r (a, v) k ≡ k u)
        × t.Present r u
        × ((P : W → Type 0) → Kept P → P w → P u)
  checked-true r w true v k e h = (
    v,
    refl,
    subst (λ x. t.Present r x.1) e (t.check-Present r w (ap (λ x. x.0) e)),
    λ P kept p. subst (λ x. P x.1) e (kept r check_op w (inl refl) p),
  )
  checked-true r w false v k e h =
      let (done, _, last) = appended-true (run (iptables_args r append_op) v) k h in
      (
        (run (iptables_args r append_op) v).1,
        appended-eq (run (iptables_args r append_op) v) k done,
        t.append-Present r v done,
        λ P kept p.
            kept r append_op v (inr refl) (subst (λ x. P x.1) e (kept r check_op w (inl refl) p)),
      )
    where
      appended-eq : (x : Bool × W) (k : W → Bool × W) → x.0 ≡ true → appended run x k ≡ k x.1
      appended-eq (true, u) k d = refl
      appended-eq (false, u) k d = absurd (cc)

  ensure_rules-Present :
      (rs : List Rule) (w : W)
      → (ensure_rules run rs w).0 ≡ true
      → All (λ r. t.Present r (ensure_rules run rs w).1) rs
        × ((P : W → Type 0) → Kept P → P w → P (ensure_rules run rs w).1)
  unfolding ensure_rules
  ensure_rules-Present [] w h = (tt, λ P kept p. p)
  ensure_rules-Present (r ∷ rs) w h =
      let (u, e, here, keep) =
        checked-true r w (run (iptables_args r check_op) w).0 (run (iptables_args r check_op) w).1
          (λ x. ensure_rules run rs x) refl h in
      let (later, go) = ensure_rules-Present rs u (ap (λ x. x.0) (sym e) ∙ h) in
      (
        subst (λ x. All (λ q. t.Present q x.1) (r ∷ rs)) (sym e)
            (go (t.Present r) (λ s op x o p. t.keeps-Present r s op x o p) here, later),
        λ P kept p. subst (λ x. P x.1) (sym e) (go P kept (keep P kept p)),
      )

  -- When ensureIptables returns no error, the FORWARD policy is DROP and each of the rules for the
  -- peers' prefix is there, for any iptables that does what its manual says of -P, -C and -A.
  pub ensure_iptables-Present :
      (p : Prefix) (w : W)
      → (ensure_iptables run p w).0 ≡ true
      → t.Closed (ensure_iptables run p w).1
        × All (λ r. t.Present r (ensure_iptables run p w).1) (rules p)
  unfolding ensure_iptables
  ensure_iptables-Present p w h =
      let (done, rest, e) = appended-true (run drop_args w) (λ x. ensure_rules run (rules p) x) h in
      let (present, keep) = ensure_rules-Present (rules p) (run drop_args w).1 rest in
      (
        subst t.Closed (sym e) (keep t.Closed t.keeps-Closed (t.drop-Closed w done)),
        subst (λ x. All (λ r. t.Present r x) (rules p)) (sym e) present,
      )
