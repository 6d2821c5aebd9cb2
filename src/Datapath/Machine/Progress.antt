-- ===== src/Datapath/Machine/Progress.antt =====
-- No call of Ensure or Err is stuck for good: some call can always go on.
use wireguard_operator.Prelude.{ℕ, true, ◌≢◌, Option, none, some, ◌≡◌, refl, sym, ap, ◌∙◌, ==_refl}
use wireguard_operator.Datapath.Ensure.{Kernel}
use wireguard_operator.Datapath.Machine.{
  Pc, idle, waiting, asserting, recording, storing, finishing, asking, reading, Sys, in_ensure,
  in_error, Step, enter, run, lock_error, store, leave, lock_read, answer, Reach,
}
use wireguard_operator.Datapath.Machine.Moves.{holds}
use wireguard_operator.Datapath.Machine.Settled.{Inv, Reach-Inv}

module _ {W : Type 0} (k : Kernel W) where
  -- A thread within a call takes a step.
  abbrev pub GoesOn : Sys W → Type 0
  GoesOn s = (u : ℕ) × ((s.pc u ≢ idle) × ((s' : Sys W) × Step k u s s'))

  busy : (s : Sys W) (u : ℕ) (p : Pc) → s.pc u ≡ p → p ≢ idle → s.pc u ≢ idle
  busy s u p here other e = other (sym here ∙ e)

  -- the holder of the error's lock gives it back
  error_held : (s : Sys W) (u : ℕ) (p : Pc) → s.pc u ≡ p → in_error p ≡ true → GoesOn s
  unfolding in_error
  error_held s u (storing r) here h =
      (u, (busy s u (storing r) here (λ e. cc), (_, store s r here)))
  error_held s u reading here h = (u, (busy s u reading here (λ e. cc), (_, answer s here)))
  error_held s u idle here h = absurd (cc)
  error_held s u (waiting c) here h = absurd (cc)
  error_held s u (asserting c) here h = absurd (cc)
  error_held s u (recording r) here h = absurd (cc)
  error_held s u finishing here h = absurd (cc)
  error_held s u asking here h = absurd (cc)

  -- with that lock free, the holder of Ensure's goes on
  ensure_held :
      (s : Sys W) (u : ℕ) (p : Pc) → s.mu ≡ none → s.pc u ≡ p → in_ensure p ≡ true → GoesOn s
  unfolding in_ensure
  ensure_held s u (asserting c) free here h =
      (u, (busy s u (asserting c) here (λ e. cc), (_, run s c here)))
  ensure_held s u (recording r) free here h =
      (u, (busy s u (recording r) here (λ e. cc), (_, lock_error s r here free)))
  ensure_held s u (storing r) free here h =
      (u, (busy s u (storing r) here (λ e. cc), (_, store s r here)))
  ensure_held s u finishing free here h =
      (u, (busy s u finishing here (λ e. cc), (_, leave s here)))
  ensure_held s u idle free here h = absurd (cc)
  ensure_held s u (waiting c) free here h = absurd (cc)
  ensure_held s u asking free here h = absurd (cc)
  ensure_held s u reading free here h = absurd (cc)

  -- with both locks free, every call goes on
  both_free :
      (s : Sys W) (t : ℕ) (p : Pc)
      → s.mu ≡ none
      → s.ensure_lock ≡ none
      → s.pc t ≡ p
      → p ≢ idle
      → GoesOn s
  both_free s t idle free vacant here h = absurd (h refl)
  both_free s t (waiting c) free vacant here h =
      (t, (busy s t (waiting c) here h, (_, enter s c here vacant)))
  both_free s t (asserting c) free vacant here h =
      (t, (busy s t (asserting c) here h, (_, run s c here)))
  both_free s t (recording r) free vacant here h =
      (t, (busy s t (recording r) here h, (_, lock_error s r here free)))
  both_free s t (storing r) free vacant here h =
      (t, (busy s t (storing r) here h, (_, store s r here)))
  both_free s t finishing free vacant here h = (t, (busy s t finishing here h, (_, leave s here)))
  both_free s t asking free vacant here h =
      (t, (busy s t asking here h, (_, lock_read s here free)))
  both_free s t reading free vacant here h = (t, (busy s t reading here h, (_, answer s here)))

  by_locks :
      (s : Sys W) (t : ℕ) (mu lock : Option ℕ)
      → Inv s
      → s.mu ≡ mu
      → s.ensure_lock ≡ lock
      → s.pc t ≢ idle
      → GoesOn s
  unfolding holds
  by_locks s t (some v) lock inv held vacant h =
      error_held s v (s.pc v) refl (inv.error_owner v ∙ ap (λ o. holds o v) held ∙ ==_refl v)
  by_locks s t none (some v) inv free held h =
      ensure_held s v (s.pc v) free refl (inv.ensure_owner v ∙ ap (λ o. holds o v) held ∙ ==_refl v)
  by_locks s t none none inv free vacant h = both_free s t (s.pc t) free vacant refl h

  -- In every state that a new Datapath reaches under concurrent calls, if some call of Ensure or Err
  -- has not returned, then a thread within such a call can take a step: the two mutexes never
  -- deadlock.
  pub Reach-GoesOn : (w : W) (s : Sys W) (t : ℕ) → Reach k w s → s.pc t ≢ idle → GoesOn s
  Reach-GoesOn w s t reach h = by_locks s t s.mu s.ensure_lock (Reach-Inv k w s reach) refl refl h
