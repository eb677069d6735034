-- ===== src/Kernel/SemCalls/Lives.antt =====
-- Any sequence of the calls of ex3/q1/xv6/syssem.c that change descriptors, and of the loops of `fork` and `exit`.
use operating_systems_soluti.Base.{ℕ, ◌<◌, ◌≡◌, Option, some, arith, ℤ}
use operating_systems_soluti.Kernel.SemCalls.{
  nosem, nproc, Sys, free_descriptor, OpenArgs, sys_sem_open, sys_sem_close, fork_sems, exit_sems,
}
use operating_systems_soluti.Kernel.SemCalls.Refs.{
  IsCounted, IsForking, sys_sem_close-IsCounted, fork_sems-IsCounted, exit_sems-IsCounted,
}
use operating_systems_soluti.Kernel.SemCalls.Leak.{sys_sem_open-IsCounted}

-- A whole call of process `p`, with no other one inside, although `sem_open` gives up `gslock` between its search
-- and what it fills: `sem_open` only with a free descriptor, and `fork` into an entry without any.
pub data Step (s : Sys) : Sys → Type 0 where
  opens :
      (p pid : ℕ) (a : OpenArgs) (sd : ℕ)
      → p < nproc
      → free_descriptor (s.osem p) ≡ some sd
      → Step s (sys_sem_open p pid (some a) s).0
  closes : (p : ℕ) (arg : Option ℤ) → p < nproc → Step s (sys_sem_close p arg s).0
  forks : (p np : ℕ) → IsForking p np 0 s → Step s (fork_sems nosem 0 p np s)
  exits : (p : ℕ) → p < nproc → Step s (exit_sems nosem 0 p s)

pub data Calls (s : Sys) : Sys → Type 0 where
  no_call : Calls s s
  and_call : (t u : Sys) → Calls s t → Step t u → Calls s u

Step-IsCounted : {s t : Sys} → IsCounted s → Step s t → IsCounted t
Step-IsCounted h (opens p pid a sd lt free) = sys_sem_open-IsCounted h p pid a sd lt free
Step-IsCounted h (closes p arg lt) = sys_sem_close-IsCounted p arg h lt
Step-IsCounted h (forks p np f) = fork_sems-IsCounted p np h f
Step-IsCounted h (exits p lt) = exit_sems-IsCounted nosem 0 p h lt (omega arith)

-- Along any sequence of calls, each of which ends before the next one begins, in which processes open semaphores
-- while they have a free descriptor, close them, and fork and exit with them: the reference count of every slot is
-- the number of descriptors of all processes that hold it, and only linked slots have references. Two calls of
-- `sem_open` that run at the same time are no such sequence.
pub Calls-IsCounted : {s t : Sys} → IsCounted s → Calls s t → IsCounted t
Calls-IsCounted h no_call = h
Calls-IsCounted h (and_call t u c s) = Step-IsCounted (Calls-IsCounted h c) s
