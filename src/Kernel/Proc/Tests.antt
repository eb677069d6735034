-- ===== src/Kernel/Proc/Tests.antt =====
-- Runs of ex3/q1/xv6/proc.c, and its theorems at a concrete table.
use operating_systems_soluti.Base.{
  ℕ, ◌≡◌, refl, ◌≢◌, ◌⊎◌, true, false, none, some, arith, ◌==◌, if◌then◌else◌, find_from, pos,
  negsuc,
}
use operating_systems_soluti.Kernel.Proc.{
  unused, runnable, running, Proc, PTable, fork, exit, wait_round, abandon_from, wakeup1,
}
use operating_systems_soluti.Kernel.Proc.Tree.{is_alive, IsTree}
use operating_systems_soluti.Kernel.Proc.Lives.{Calls-IsTree, no_call, and_call, exits, waits}
use operating_systems_soluti.Kernel.Proc.Pids.{IsNumbered, fork-IsNumbered}

abbrev blank : Proc
blank = record { state = unused; pid = pos 0; parent = none; killed = false; chan = none }

-- The first process runs in slot 0 with pid 1; its child, in slot 1, has pid 2.
abbrev two_procs : PTable
two_procs = record {
  proc = λ i.
      if i == 0
      then record blank { state = running; pid = pos 1 }
      else if i == 1
      then record blank { state = runnable; pid = pos 2; parent = some 0 }
      else blank;
  nextpid = pos 3;
}

two_procs-IsTree : IsTree 0 two_procs
two_procs-IsTree = record {
  init_in = omega arith;
  init_alive = refl;
  parented = λ i lt busy ne. (0, ground arith, omega arith, refl);
}

two_procs-IsNumbered : IsNumbered two_procs
two_procs-IsNumbered = record {
  unique = λ i j ui uj e. ground arith;
  below = λ i. ground arith;
  small = omega arith;
}

fork_pid : (fork true true 1 two_procs).1 ≡ pos 3
unfolding fork find_from
fork_pid = refl

-- The child exits, and the first process waits for it.
abbrev after_exit : PTable
after_exit = elim (exit 0 1 two_procs) [ none ↦ two_procs | some u ↦ u ]

has_exited : exit 0 1 two_procs ≡ some after_exit
unfolding exit abandon_from wakeup1
has_exited = refl

still_alive : is_alive (after_exit.proc 0) ≡ true
unfolding exit abandon_from wakeup1
still_alive = refl

Calls-IsTree_example : IsTree 0 (wait_round 0 after_exit).0
Calls-IsTree_example = Calls-IsTree two_procs-IsTree (
    and_call after_exit (wait_round 0 after_exit).0
      (and_call two_procs after_exit no_call (exits 1 after_exit (omega arith) refl has_exited))
      (waits 0 still_alive))

fork-IsNumbered_example :
    IsNumbered (fork true false 1 two_procs).0
    × (((fork true false 1 two_procs).1 ≡ negsuc 0)
        ⊎ ((i : ℕ) → (two_procs.proc i).pid ≢ (fork true false 1 two_procs).1))
fork-IsNumbered_example = fork-IsNumbered true false 1 two_procs two_procs-IsNumbered (omega arith)
