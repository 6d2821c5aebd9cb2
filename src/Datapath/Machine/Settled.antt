-- ===== src/Datapath/Machine/Settled.antt =====
-- What Err answers between two Ensures, and that Ensures exclude each other.
use wireguard_operator.Prelude.{
  ℕ, Bool, true, false, inl, inr, Option, none, some, ◌≡◌, refl, sym, ap, ◌∙◌, ◌==◌, Bool-cases,
  ==→≡, ==_refl,
}
use wireguard_operator.Api.Exec.{Result}
use wireguard_operator.Datapath.Ensure.{Kernel, assert}
use wireguard_operator.Datapath.Machine.{
  Pc, idle, waiting, asserting, recording, storing, finishing, asking, reading, Sys, set_pc,
  in_ensure, in_error, pending, new, Step, call, enter, run, lock_error, store, leave, ask,
  lock_read, answer, Reach, opening, after,
}
use wireguard_operator.Datapath.Machine.Moves.{
  holds, Owns, Owns-sole, Owns-same, Owns-acquire, Owns-release,
}

-- What is yet to be recorded is the latest result; with nothing to record, that is what Err answers.
abbrev pub Owed : (ℕ → Pc) → Result Unit → Result Unit → Type 0
Owed pc error latest =
    ((u : ℕ) (r : Result Unit) → pending (pc u) ≡ some r → r ≡ latest)
    × (((u : ℕ) → pending (pc u) ≡ none) → error ≡ latest)

pub record Inv {W : Type 0} (s : Sys W) : Type 0 where
  pub ensure_owner : Owns in_ensure s.ensure_lock s.pc
  pub error_owner : Owns in_error s.mu s.pc
  pub owed : Owed s.pc s.error s.latest

pending-in_ensure : (p : Pc) (q : Result Unit) → pending p ≡ some q → in_ensure p ≡ true
unfolding pending in_ensure
pending-in_ensure idle q h = absurd (cc)
pending-in_ensure (waiting c) q h = absurd (cc)
pending-in_ensure (asserting c) q h = refl
pending-in_ensure (recording r) q h = refl
pending-in_ensure (storing r) q h = refl
pending-in_ensure finishing q h = refl
pending-in_ensure asking q h = absurd (cc)
pending-in_ensure reading q h = absurd (cc)

module _ (pc : ℕ → Pc) (t : ℕ) (x : Pc) where
  pending-set_pc : pending x ≡ pending (pc t) → (u : ℕ) → pending (set_pc pc t x u) ≡ pending (pc u)
  unfolding set_pc
  pending-set_pc same u = elim (Bool-cases (t == u)) [
    | inl here ↦ rw here (same ∙ ap (λ v. pending (pc v)) (==→≡ t u here))
    | inr other ↦ rw other refl
  ]

  Owed-same :
      (error latest : Result Unit)
      → pending x ≡ pending (pc t)
      → Owed pc error latest
      → Owed (set_pc pc t x) error latest
  Owed-same error latest same (due, done) = (
    λ u r e. due u r (sym (pending-set_pc same u) ∙ e),
    λ none_due. done (λ u. sym (pending-set_pc same u) ∙ none_due u),
  )

  -- a new result, in the hands of the only thread within Ensure
  Owed-run :
      (lock : Option ℕ) (error r : Result Unit)
      → Owns in_ensure lock pc
      → in_ensure (pc t) ≡ true
      → pending x ≡ some r
      → Owed (set_pc pc t x) error r
  unfolding set_pc
  Owed-run lock error r own within now = (
    λ u q e. elim (Bool-cases (t == u)) [
      | inl here ↦ let e' : pending x ≡ some q = rw here at e in cc
      | inr other ↦
          let e' : pending (pc u) ≡ some q = rw other at e in
          absurd (Owns-sole in_ensure pc lock t u own within (pending-in_ensure (pc u) q e') other)
    ],
    λ none_due. let e : pending x ≡ none = rw (==_refl t) at (none_due t) in absurd (cc),
  )

  -- the result is recorded
  Owed-store :
      (error latest r : Result Unit)
      → Owed pc error latest
      → pending (pc t) ≡ some r
      → pending x ≡ none
      → Owed (set_pc pc t x) r latest
  unfolding set_pc
  Owed-store error latest r (due, done) held gone = (
    λ u q e. elim (Bool-cases (t == u)) [
      | inl here ↦ let e' : pending x ≡ some q = rw here at e in absurd (cc)
      | inr other ↦ due u q (rw other at e)
    ],
    λ none_due. due t r held,
  )

module _ {W : Type 0} (k : Kernel W) where
  -- what a move to `x` keeps of the invariant, in the thread's own terms
  abbrev At : (s : Sys W) → ℕ → Pc → Type 0
  At s t x = s.pc t ≡ x

  keeps_latest :
      (s : Sys W) (t : ℕ) (x y : Pc)
      → Inv s
      → s.pc t ≡ y
      → pending x ≡ pending y
      → Owed (set_pc s.pc t x) s.error s.latest
  keeps_latest s t x y inv here same =
      Owed-same s.pc t x s.error s.latest (same ∙ sym (ap pending here)) inv.owed

  keeps_lock :
      (inside : Pc → Bool) (s : Sys W) (lock : Option ℕ) (t : ℕ) (x y : Pc)
      → Owns inside lock s.pc
      → s.pc t ≡ y
      → inside x ≡ inside y
      → Owns inside lock (set_pc s.pc t x)
  keeps_lock inside s lock t x y own here same =
      Owns-same inside s.pc t x lock own (same ∙ sym (ap inside here))

  Step-Inv : (t : ℕ) (s s' : Sys W) → Step k t s s' → Inv s → Inv s'
  unfolding in_ensure in_error pending
  Step-Inv t _ _ (call s c here) inv = record {
    ensure_owner = keeps_lock in_ensure s s.ensure_lock t _ idle inv.ensure_owner here refl;
    error_owner = keeps_lock in_error s s.mu t _ idle inv.error_owner here refl;
    owed = keeps_latest s t _ idle inv here refl;
  }
  Step-Inv t _ _ (enter s c here free) inv = record {
    ensure_owner = Owns-acquire in_ensure s.pc t _ (rw free at inv.ensure_owner) refl;
    error_owner = keeps_lock in_error s s.mu t _ (waiting c) inv.error_owner here refl;
    owed = keeps_latest s t _ (waiting c) inv here refl;
  }
  Step-Inv t _ _ (run s c here) inv = record {
    ensure_owner =
        keeps_lock in_ensure s s.ensure_lock t _ (asserting c) inv.ensure_owner here refl;
    error_owner = keeps_lock in_error s s.mu t _ (asserting c) inv.error_owner here refl;
    owed =
        Owed-run s.pc t _ s.ensure_lock s.error (assert k c s.kernel).0 inv.ensure_owner
          (ap in_ensure here) refl;
  }
  Step-Inv t _ _ (lock_error s r here free) inv = record {
    ensure_owner =
        keeps_lock in_ensure s s.ensure_lock t _ (recording r) inv.ensure_owner here refl;
    error_owner = Owns-acquire in_error s.pc t _ (rw free at inv.error_owner) refl;
    owed = keeps_latest s t _ (recording r) inv here refl;
  }
  Step-Inv t _ _ (store s r here) inv = record {
    ensure_owner = keeps_lock in_ensure s s.ensure_lock t _ (storing r) inv.ensure_owner here refl;
    error_owner = Owns-release in_error s.pc t _ s.mu inv.error_owner (ap in_error here) refl;
    owed = Owed-store s.pc t _ s.error s.latest r inv.owed (ap pending here) refl;
  }
  Step-Inv t _ _ (leave s here) inv = record {
    ensure_owner =
        Owns-release in_ensure s.pc t _ s.ensure_lock inv.ensure_owner (ap in_ensure here) refl;
    error_owner = keeps_lock in_error s s.mu t _ finishing inv.error_owner here refl;
    owed = keeps_latest s t _ finishing inv here refl;
  }
  Step-Inv t _ _ (ask s here) inv = record {
    ensure_owner = keeps_lock in_ensure s s.ensure_lock t _ idle inv.ensure_owner here refl;
    error_owner = keeps_lock in_error s s.mu t _ idle inv.error_owner here refl;
    owed = keeps_latest s t _ idle inv here refl;
  }
  Step-Inv t _ _ (lock_read s here free) inv = record {
    ensure_owner = keeps_lock in_ensure s s.ensure_lock t _ asking inv.ensure_owner here refl;
    error_owner = Owns-acquire in_error s.pc t _ (rw free at inv.error_owner) refl;
    owed = keeps_latest s t _ asking inv here refl;
  }
  Step-Inv t _ _ (answer s here) inv = record {
    ensure_owner = keeps_lock in_ensure s s.ensure_lock t _ reading inv.ensure_owner here refl;
    error_owner = Owns-release in_error s.pc t _ s.mu inv.error_owner (ap in_error here) refl;
    owed = keeps_latest s t _ reading inv here refl;
  }

  Inv-new : (w : W) → Inv (new w)
  unfolding in_ensure in_error pending holds
  Inv-new w = record {
    ensure_owner = λ u. refl;
    error_owner = λ u. refl;
    owed = (λ u r e. absurd (cc), λ _. refl);
  }

  pub Reach-Inv : (w : W) (s : Sys W) → Reach k w s → Inv s
  Reach-Inv w _ opening = Inv-new w
  Reach-Inv w _ (after s s' t before step) = Step-Inv t s s' step (Reach-Inv w s before)

  no_pending : (p : Pc) → in_ensure p ≡ false → pending p ≡ none
  unfolding in_ensure pending
  no_pending idle h = refl
  no_pending (waiting c) h = refl
  no_pending (asserting c) h = refl
  no_pending (recording r) h = absurd (cc)
  no_pending (storing r) h = absurd (cc)
  no_pending finishing h = refl
  no_pending asking h = refl
  no_pending reading h = refl

  -- However the calls of Ensure and Err interleave, at most one thread is between Ensure's lock and
  -- its unlock; and when none is, Err answers what the last assertion of the routes and rules has
  -- returned, or the error of New before any.
  pub Reach-Settled :
      (w : W) (s : Sys W)
      → Reach k w s
      → ((t u : ℕ) → in_ensure (s.pc t) ≡ true → in_ensure (s.pc u) ≡ true → t ≡ u)
        × (((t : ℕ) → in_ensure (s.pc t) ≡ false) → s.error ≡ s.latest)
  Reach-Settled w s reach =
      let inv = Reach-Inv w s reach in
      (
        λ t u one two. elim (Bool-cases (t == u)) [
          | inl same ↦ ==→≡ t u same
          | inr other ↦
              absurd (Owns-sole in_ensure s.pc s.ensure_lock t u inv.ensure_owner one two other)
        ],
        λ outside. inv.owed.1 (λ u. no_pending (s.pc u) (outside u)),
      )
