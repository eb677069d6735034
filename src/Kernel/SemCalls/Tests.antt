-- ===== src/Kernel/SemCalls/Tests.antt =====
-- Runs of ex3/q1/xv6/syssem.c, and its theorems at concrete states.
use operating_systems_soluti.Base.{
  ℕ, ◌+◌, ◌≡◌, refl, sym, ap, true, false, none, some, arith, ltb, ◌==◌, if◌then◌else◌, find_from,
  total, pos, negsuc,
}
use operating_systems_soluti.Kernel.Strings.{strncmp}
use operating_systems_soluti.Kernel.Sem.{Sem, scan, scan_from, is_open_as, sem_open}
use operating_systems_soluti.Kernel.SemCalls.{
  nosem, Descriptors, Sys, OpenArgs, free_descriptor, sys_sem_open, fork_sems, exit_sems, install,
}
use operating_systems_soluti.Kernel.SemCalls.Refs.{IsCounted, IsForking, holders}
use operating_systems_soluti.Kernel.SemCalls.Lives.{
  Calls-IsCounted, no_call, and_call, opens, forks, exits,
}
use operating_systems_soluti.Kernel.SemCalls.Leak.{sys_sem_open-leak}

abbrev zeroed : Sem
zeroed = record {
  bytes = λ j. 0;
  count = pos 0;
  ref = pos 0;
  max_val = pos 0;
  linked = false;
  waiting_for_death = false;
}

-- No semaphore, and no descriptor.
abbrev booted : Sys
booted = record { table = λ i. zeroed; osem = λ p sd. none }

no_holders : (i : ℕ) → holders i (λ p sd. none) ≡ 0
unfolding total
no_holders i = refl

booted-IsCounted : IsCounted booted
booted-IsCounted = record { counted = λ i. ap pos (sym (no_holders i)); unlinked = λ i e. refl }

abbrev args : OpenArgs
args = record { name = λ j. if j == 0 then b'w' else 0; init = pos 1; max_val = pos 1 }

first_free : free_descriptor (booted.osem 2) ≡ some 0
unfolding free_descriptor find_from
first_free = refl

forking : IsForking 2 3 0 booted
forking = record {
  apart = omega arith;
  p_in = omega arith;
  np_in = omega arith;
  none_yet = λ d le. refl;
}

-- Process 2 opens a semaphore, shares it with its child 3, and exits.
abbrev opened : Sys
opened = (sys_sem_open 2 5 (some args) booted).0

abbrev shared : Sys
shared = fork_sems nosem 0 2 3 opened

no_descriptor : (d : ℕ) → opened.osem 3 d ≡ none
unfolding sys_sem_open sem_open scan scan_from is_open_as strncmp free_descriptor find_from install
no_descriptor d = refl

sharing : IsForking 2 3 0 opened
sharing = record {
  apart = omega arith;
  p_in = omega arith;
  np_in = omega arith;
  none_yet = λ d le. no_descriptor d;
}

Calls-IsCounted_example : IsCounted (exit_sems nosem 0 2 shared)
Calls-IsCounted_example = Calls-IsCounted booted-IsCounted (
    and_call shared (exit_sems nosem 0 2 shared)
      (and_call opened shared
        (and_call booted opened no_call (opens 2 5 args 0 (omega arith) first_free))
        (forks 2 3 sharing))
      (exits 2 (omega arith)))

-- Process 2 holds slot 1 five times.
abbrev full_row : Descriptors
full_row sd = if ltb sd 5 then some 1 else none

abbrev full_up : Sys
full_up = record {
  table = λ i. if i == 1 then record zeroed { ref = pos 5; linked = true } else zeroed;
  osem = λ p. if p == 2 then full_row else (λ sd. none);
}

full_holders : (i : ℕ) → holders i full_up.osem ≡ (if i == 1 then 5 else 0)
unfolding total
full_holders i = ground arith

full_up-IsCounted : IsCounted full_up
full_up-IsCounted = record {
  counted = λ i. ground (arith, full_holders i);
  unlinked = λ i e. ground arith;
}

none_free : free_descriptor (full_up.osem 2) ≡ none
unfolding free_descriptor find_from
none_free = refl

opens_slot_0 : (sem_open args.name args.init args.max_val 5 full_up.table).1 ≡ some 0
unfolding sem_open scan scan_from is_open_as strncmp
opens_slot_0 = refl

sys_sem_open-leak_example :
    ((sys_sem_open 2 5 (some args) full_up).1 ≡ negsuc 0)
    × ((sys_sem_open 2 5 (some args) full_up).0.osem ≡ full_up.osem)
    × (((sys_sem_open 2 5 (some args) full_up).0.table 0).ref ≡ pos (holders 0 full_up.osem + 1))
sys_sem_open-leak_example = sys_sem_open-leak full_up-IsCounted 2 5 args 0 none_free opens_slot_0
