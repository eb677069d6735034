-- ===== src/Kernel/Proc/Lives.antt =====
-- Any sequence of calls on the process table of ex3/q1/xv6/proc.c.
use operating_systems_soluti.Base.{
  ℕ, ◌<◌, ◌≡◌, sym, subst, ◌∙◌, ◌≢◌, Bool, true, Option, none, some, ℤ,
}
use operating_systems_soluti.Kernel.Proc.{
  PTable, nproc, fork, exit, wait_round, kill, schedule, wakeup1,
}
use operating_systems_soluti.Kernel.Proc.Forks.{fork-IsTree}
use operating_systems_soluti.Kernel.Proc.Tree.{
  IsTree, Keeps-IsTree, is_alive, exit-IsTree, wait_round-IsTree, kill-Keeps, schedule-Keeps,
  wakeup1-Keeps,
}

-- A call by a living process `p` of the table, or a choice of the scheduler.
pub data Step (initproc : ℕ) (t : PTable) : PTable → Type 0 where
  forks :
      (kalloc_ok copy_ok : Bool) (p : ℕ)
      → p < nproc
      → is_alive (t.proc p) ≡ true
      → Step initproc t (fork kalloc_ok copy_ok p t).0
  exits :
      (p : ℕ) (u : PTable)
      → p ≢ initproc
      → is_alive (t.proc p) ≡ true
      → exit initproc p t ≡ some u
      → Step initproc t u
  waits : (p : ℕ) → is_alive (t.proc p) ≡ true → Step initproc t (wait_round p t).0
  kills : (pid : ℤ) → Step initproc t (kill pid t).0
  schedules : (p : ℕ) → Step initproc t (schedule p t)
  wakes : (c : Option ℕ) → Step initproc t (wakeup1 c t)

pub data Calls (initproc : ℕ) (t : PTable) : PTable → Type 0 where
  no_call : Calls initproc t t
  and_call : (u v : PTable) → Calls initproc t u → Step initproc u v → Calls initproc t v

Step-IsTree :
    {initproc : ℕ} {t u : PTable} → IsTree initproc t → Step initproc t u → IsTree initproc u
Step-IsTree {initproc} {t} h (forks kalloc_ok copy_ok p lt live) =
    fork-IsTree kalloc_ok copy_ok p t h lt live
Step-IsTree {initproc} {t} h (exits p u ne live e) =
    let (u', e', x, h') = exit-IsTree p t h ne live in
    subst (λ o. elim o [ none ↦ Unit | some v ↦ IsTree initproc v ]) (sym e' ∙ e) h'
Step-IsTree {initproc} {t} h (waits p live) = wait_round-IsTree p t h live
Step-IsTree {initproc} {t} h (kills pid) = Keeps-IsTree (kill-Keeps pid t) h
Step-IsTree {initproc} {t} h (schedules p) = Keeps-IsTree (schedule-Keeps p t) h
Step-IsTree {initproc} {t} h (wakes c) = Keeps-IsTree (wakeup1-Keeps c t) h

-- However living processes fork, wait, wake, kill and exit, the first process never exiting, and the scheduler
-- chooses among them, the first process stays alive, and every other process in use has a living parent, which
-- can wait for it.
pub Calls-IsTree :
    {initproc : ℕ} {t u : PTable} → IsTree initproc t → Calls initproc t u → IsTree initproc u
Calls-IsTree h no_call = h
Calls-IsTree h (and_call u v c s) = Step-IsTree (Calls-IsTree h c) s
