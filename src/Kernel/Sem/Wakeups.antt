-- ===== src/Kernel/Sem/Wakeups.antt =====
-- Processes that share one semaphore of ex3/q1/xv6/sem.c, in any order: no wakeup is lost.
use operating_systems_soluti.Base.{
  ℕ, ◌≡◌, Bool, true, false, arith, if◌then◌else◌, update, ℤ, pos, ◌≤ℤ◌, eq_of_parts, int_max,
}
use operating_systems_soluti.Kernel.Sem.{
  Sem, Round, returns, sleeps, sem_wait_round, sem_try_wait, sem_post, reset_count, reset_max,
}

-- The semaphore, and which processes sleep on it.
pub record World : Type 0 where
  pub sem : Sem
  pub asleep : ℕ → Bool

abbrev pub fall_asleep : Round → ℕ → (ℕ → Bool) → ℕ → Bool
fall_asleep (returns z) p f = f
fall_asleep sleeps p f = update f p true

-- `wakeup(s)`, if it is called
abbrev pub wake : Bool → (ℕ → Bool) → ℕ → Bool
wake b f = if b then (λ p. false) else f

-- The two critical sections of `sem_reset` are steps of their own, so others come between them: a count is set only
-- within the maximum of that moment, and a maximum is an int.
pub data Step (w : World) : World → Type 0 where
  wait :
      (p : ℕ) (killed : Bool)
      → w.asleep p ≡ false
      → Step w (record {
        sem = (sem_wait_round killed w.sem).0;
        asleep = fall_asleep (sem_wait_round killed w.sem).1 p w.asleep;
      })
  try_wait : Step w (record w { sem = (sem_try_wait w.sem).0 })
  post : Step w (record { sem = (sem_post w.sem).0; asleep = wake (sem_post w.sem).2 w.asleep })
  set_count :
      (new_val : ℤ)
      → new_val ≤ℤ w.sem.max_val
      → Step w (record {
        sem = (reset_count new_val w.sem).0;
        asleep = wake (reset_count new_val w.sem).1 w.asleep;
      })
  set_max :
      (new_max : ℤ) → new_max ≤ℤ pos int_max → Step w (record w { sem = reset_max new_max w.sem })
  kill : (p : ℕ) → Step w (record w { asleep = update w.asleep p false })

-- A semaphore as `sem_open` creates it, with nobody asleep on it, and what follows.
pub data Reach (s : Sem) : World → Type 0 where
  start : Reach s (record { sem = s; asleep = λ p. false })
  later : {w v : World} → Reach s w → Step w v → Reach s v

pub record IsSound (w : World) : Type 0 where
  pub nonneg : pos 0 ≤ℤ w.sem.count
  pub below : w.sem.count ≤ℤ w.sem.max_val
  pub small : w.sem.max_val ≤ℤ pos int_max
  pub awake : (p : ℕ) → w.asleep p ≡ true → w.sem.count ≤ℤ pos 0

module _ {w : World} (h : IsSound w) where
  open h use {nonneg, below, small, awake}

  wait-IsSound :
      (p : ℕ) (killed : Bool)
      → IsSound (record {
        sem = (sem_wait_round killed w.sem).0;
        asleep = fall_asleep (sem_wait_round killed w.sem).1 p w.asleep;
      })
  unfolding sem_wait_round
  wait-IsSound p killed = record {
    nonneg = ground arith;
    below = ground arith;
    small = ground arith;
    awake = λ q. ground (arith, awake q);
  }

  try_wait-IsSound : IsSound (record w { sem = (sem_try_wait w.sem).0 })
  unfolding sem_try_wait
  try_wait-IsSound = record {
    nonneg = ground arith;
    below = ground arith;
    small = ground arith;
    awake = λ q. ground (arith, awake q);
  }

  post-IsSound :
      IsSound (record { sem = (sem_post w.sem).0; asleep = wake (sem_post w.sem).2 w.asleep })
  unfolding sem_post
  post-IsSound = record {
    nonneg = ground arith;
    below = ground arith;
    small = ground arith;
    awake = λ q. ground (arith, awake q);
  }

  set_max-IsSound :
      (new_max : ℤ) → new_max ≤ℤ pos int_max → IsSound (record w { sem = reset_max new_max w.sem })
  set_max-IsSound new_max fits = record {
    nonneg = ground arith;
    below = ground arith;
    small = ground arith;
    awake = λ q. ground (arith, awake q);
  }

  set_count-IsSound :
      (new_val : ℤ)
      → new_val ≤ℤ w.sem.max_val
      → IsSound (record {
        sem = (reset_count new_val w.sem).0;
        asleep = wake (reset_count new_val w.sem).1 w.asleep;
      })
  set_count-IsSound new_val within = record {
    nonneg = ground arith;
    below = ground arith;
    small = ground arith;
    awake = λ q. ground (arith, awake q);
  }

pub Step-IsSound : {w v : World} → Step w v → IsSound w → IsSound v
Step-IsSound (wait p killed up) h = wait-IsSound h p killed
Step-IsSound try_wait h = try_wait-IsSound h
Step-IsSound post h = post-IsSound h
Step-IsSound (set_count new_val within) h = set_count-IsSound h new_val within
Step-IsSound (set_max new_max fits) h = set_max-IsSound h new_max fits
Step-IsSound (kill p) h = record {
  nonneg = h.nonneg;
  below = h.below;
  small = h.small;
  awake = λ q. ground (arith, h.awake q);
}

Reach-IsSound :
    {s : Sem} {w : World}
    → pos 0 ≤ℤ s.count
    → s.count ≤ℤ s.max_val
    → s.max_val ≤ℤ pos int_max
    → Reach s w
    → IsSound w
Reach-IsSound a b c start = record { nonneg = a; below = b; small = c; awake = λ q e. cc }
Reach-IsSound a b c (later r st) = Step-IsSound st (Reach-IsSound a b c r)

-- No wakeup is lost and no bound is passed: of a semaphore created with a count between 0 and its
-- maximum, and whose count is set by `sem_reset` only to values within the maximum of that moment, every
-- state that waits, tries, posts, kills and the two sections of resets can lead to, in any order, has a count
-- between 0 and the maximum, and a process sleeps on the semaphore only while the count is 0.
pub no_lost_wakeup :
    {s : Sem} {w : World}
    → pos 0 ≤ℤ s.count
    → s.count ≤ℤ s.max_val
    → s.max_val ≤ℤ pos int_max
    → Reach s w
    → (pos 0 ≤ℤ w.sem.count)
      × (w.sem.count ≤ℤ w.sem.max_val)
      × ((p : ℕ) → w.asleep p ≡ true → w.sem.count ≡ pos 0)
no_lost_wakeup {w} a b c r =
    let h = Reach-IsSound a b c r in
    (
      h.nonneg,
      h.below,
      λ p sleeping. eq_of_parts w.sem.count (pos 0) (omega (arith, h.nonneg, h.awake p sleeping)),
    )
