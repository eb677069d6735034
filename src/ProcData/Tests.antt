-- ===== src/ProcData/Tests.antt =====
-- A process with pid 7 and two children.
use operating_systems_soluti.Base.{
  ℕ, ◌+◌, ◌≡◌, ◌⊎◌, true, false, ◌||◌, none, some, ◌==◌, if◌then◌else◌, pos, negsuc,
}
use operating_systems_soluti.Kernel.Proc.{PTable, unused, running, sleeping, is_state}
use operating_systems_soluti.ProcData.{ProcData, getprocbypid, sys_get_proc_data}
use operating_systems_soluti.ProcData.Children.{Reported, get_proc_data-Reported}

abbrev family : PTable
family = record {
  proc = λ i. record {
    state = if i == 2 then running else if i == 5 || i == 9 then sleeping else unused;
    pid = if i == 2 then pos 7 else if i == 5 || i == 9 then pos (10 + i) else pos 0;
    parent = if i == 5 || i == 9 then some 2 else none;
    killed = false;
    chan = none;
  };
  nextpid = pos 20;
}

abbrev blank : ProcData
blank = record { pid = pos 0; name = λ k. 0; chld_num = 0; pids = λ k. pos 0 }

get_proc_data-Reported_example :
    ((p : ℕ) × (getprocbypid (pos 7) family ≡ some p)
      × (is_state (family.proc p).state unused ≡ false)
      × Reported
          (λ p k. 0)
          family
          blank
          p
          (sys_get_proc_data (λ p k. 0) (some (pos 7)) family blank))
    ⊎ ((sys_get_proc_data (λ p k. 0) (some (pos 7)) family blank ≡ (blank, negsuc 0))
        × ((p : ℕ)
            → getprocbypid (pos 7) family ≡ some p
            → is_state (family.proc p).state unused ≡ true))
get_proc_data-Reported_example = get_proc_data-Reported (λ p k. 0) (pos 7) family blank
