-- ===== src/Datapath/Machine.antt =====
-- The Datapath of internal/datapath/datapath.go under concurrent calls of Ensure and Err: each thread
-- takes the steps of one call, and the two mutexes order them. Steps of threads interleave freely.
pub mod Moves
pub mod Settled
pub mod Progress
use wireguard_operator.Prelude.{
  ℕ, zero, suc, ◌+◌, ◌-◌, ◌*◌, ◌/◌, ◌%◌, ◌^◌, ◌≤◌, ◌<◌, compare, Ordering, String, length,
  get_elem?, filter, any, find?, In, In-append_left, In-append_right, All, All-In, All-of_In,
  All-append, All-map, Str, str_eq→≡, str_eq_refl, str_eq_iff, is_empty→≡, is_empty_nil, text,
  str_eq, is_empty, str_compare, cut, has_byte, join, contains, contains→In, In→contains,
  contains-false, Bool, true, false, not, ◌&&◌, ◌||◌, List, [], ◌∷◌, ◌++◌, map, ◌≢◌, ◌↔◌, ◌⊎◌, inl,
  inr, Option, none, some, ◌≡◌, refl, sym, ap, ◌∙◌, subst, arith, ltb, leb, ◌==◌, if◌then◌else◌,
  Bool-cases, ==→≡, ==_refl, ltb→lt, ltb→le,
}
use wireguard_operator.Api.Exec.{Result, ok, err, other_error}
use wireguard_operator.Datapath.Ensure.{Kernel, assert}

-- Where a thread stands: outside; in Ensure before its lock, with the lock, in record before and with
-- the lock of the error, and after it; in Err before and with that lock.
pub data Pc : Type 0 where
  idle : Pc
  waiting asserting : Str → Pc
  recording storing : Result Unit → Pc
  finishing asking reading : Pc

-- The fields of Datapath and where each thread stands. `latest` is what the last assertion of the
-- routes and rules has returned, and before any the error of New: the code does not keep it.
pub record Sys (W : Type 0) : Type 0 where
  pub kernel : W
  pub ensure_lock : Option ℕ
  pub mu : Option ℕ
  pub error : Result Unit
  pub latest : Result Unit
  pub pc : ℕ → Pc

unfoldable pub set_pc : (ℕ → Pc) → ℕ → Pc → ℕ → Pc
set_pc pc t x u = if t == u then x else pc u

unfoldable pub in_ensure : Pc → Bool
in_ensure idle = false
in_ensure (waiting c) = false
in_ensure (asserting c) = true
in_ensure (recording r) = true
in_ensure (storing r) = true
in_ensure finishing = true
in_ensure asking = false
in_ensure reading = false

unfoldable pub in_error : Pc → Bool
in_error idle = false
in_error (waiting c) = false
in_error (asserting c) = false
in_error (recording r) = false
in_error (storing r) = true
in_error finishing = false
in_error asking = false
in_error reading = true

-- the result that a thread has yet to record
unfoldable pub pending : Pc → Option (Result Unit)
pending idle = none
pending (waiting c) = none
pending (asserting c) = none
pending (recording r) = some r
pending (storing r) = some r
pending finishing = none
pending asking = none
pending reading = none

abbrev pub move : {W : Type 0} → Sys W → ℕ → Pc → Sys W
move s t x = record s { pc = set_pc s.pc t x }

-- New
abbrev pub not_asserted : Result Unit
not_asserted = err (other_error [])

abbrev pub new : {W : Type 0} → W → Sys W
new w = record {
  kernel = w;
  ensure_lock = none;
  mu = none;
  error = not_asserted;
  latest = not_asserted;
  pc = λ t. idle;
}

module _ {W : Type 0} (k : Kernel W) where
  -- One step of the thread `t`.
  pub data Step (t : ℕ) : Sys W → Sys W → Type 0 where
    call : (s : Sys W) (c : Str) → s.pc t ≡ idle → Step t s (move s t (waiting c))
    enter :
        (s : Sys W) (c : Str)
        → s.pc t ≡ waiting c
        → s.ensure_lock ≡ none
        → Step t s (move (record s { ensure_lock = some t }) t (asserting c))
    run :
        (s : Sys W) (c : Str)
        → s.pc t ≡ asserting c
        → Step t s (
            move
              (record s { kernel = (assert k c s.kernel).1; latest = (assert k c s.kernel).0 })
              t
              (recording (assert k c s.kernel).0))
    lock_error :
        (s : Sys W) (r : Result Unit)
        → s.pc t ≡ recording r
        → s.mu ≡ none
        → Step t s (move (record s { mu = some t }) t (storing r))
    store :
        (s : Sys W) (r : Result Unit)
        → s.pc t ≡ storing r
        → Step t s (move (record s { mu = none; error = r }) t finishing)
    leave :
        (s : Sys W) → s.pc t ≡ finishing → Step t s (move (record s { ensure_lock = none }) t idle)
    ask : (s : Sys W) → s.pc t ≡ idle → Step t s (move s t asking)
    lock_read :
        (s : Sys W)
        → s.pc t ≡ asking
        → s.mu ≡ none
        → Step t s (move (record s { mu = some t }) t reading)
    answer : (s : Sys W) → s.pc t ≡ reading → Step t s (move (record s { mu = none }) t idle)

  -- The states that a new Datapath reaches.
  pub data Reach (w : W) : Sys W → Type 0 where
    opening : Reach w (new w)
    after : (s s' : Sys W) (t : ℕ) → Reach w s → Step t s s' → Reach w s'
