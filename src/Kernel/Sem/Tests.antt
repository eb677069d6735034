-- ===== src/Kernel/Sem/Tests.antt =====
-- Runs of ex3/q1/xv6/sem.c, and its theorems at a concrete table.
use operating_systems_soluti.Base.{
  ℕ, ◌≡◌, refl, ◌≢◌, true, false, some, arith, ltb, ◌==◌, if◌then◌else◌, update, find_from, pos,
  ◌≤ℤ◌,
}
use operating_systems_soluti.Kernel.Strings.{Bytes, strncmp}
use operating_systems_soluti.Kernel.Strings.Compare.{IsText}
use operating_systems_soluti.Kernel.Sem.{
  Sem, Table, is_open_as, scan, scan_from, spot, fill, set_sem, bump_ref, open_first, open_second,
  sem_open, sem_wait_round, find_name, returns,
}
use operating_systems_soluti.Kernel.Sem.Open.{opened, sem_open-reopen, sem_open-duplicates}
use operating_systems_soluti.Kernel.Sem.Wakeups.{World, wait, Reach, start, later, no_lost_wakeup}
use operating_systems_soluti.Kernel.Sem.Race.{sem_open_race}
use operating_systems_soluti.Kernel.Sem.Unlink.{unlinked, unlink_twice}

abbrev zeroed : Sem
zeroed = record {
  bytes = λ j. 0;
  count = pos 0;
  ref = pos 0;
  max_val = pos 0;
  linked = false;
  waiting_for_death = false;
}

abbrev no_sems : Table
no_sems i = zeroed

-- "w"
abbrev short_name : Bytes
short_name j = if j == 0 then b'w' else 0

-- "sem_reset" of ex3/q1/xv6/test.c has nine characters, as this one.
abbrev long_name : Bytes
long_name j = if ltb j 9 then b't' else 0

short_name-IsText : IsText short_name 1
short_name-IsText = record { stop = refl; body = λ j lt. ground arith }

scan-no_sems : scan short_name no_sems ≡ spot 0
unfolding scan scan_from is_open_as strncmp
scan-no_sems = refl

scan-no_sems_long : scan long_name no_sems ≡ spot 0
unfolding scan scan_from is_open_as strncmp
scan-no_sems_long = refl

sem_open-reopen_example :
    sem_open short_name
      (pos 7)
      (pos 9)
      4
      (opened short_name 0 3 (pos 1) (pos 1) no_sems scan-no_sems)
    ≡ (
      set_sem
          (opened short_name 0 3 (pos 1) (pos 1) no_sems scan-no_sems)
          0
          (bump_ref (opened short_name 0 3 (pos 1) (pos 1) no_sems scan-no_sems 0)),
      some 0,
    )
sem_open-reopen_example =
    sem_open-reopen short_name 0 3 (pos 1) (pos 1) no_sems scan-no_sems 1 4 (pos 7) (pos 9)
      short_name-IsText (omega arith)

sem_open-duplicates_example :
    (sem_open long_name
      (pos 0)
      (pos 4)
      6
      (opened long_name 0 6 (pos 0) (pos 4) no_sems scan-no_sems_long)).1
    ≢ some 0
sem_open-duplicates_example =
    sem_open-duplicates long_name 0 6 (pos 0) (pos 4) no_sems scan-no_sems_long 6 (pos 0) (pos 4)
      (λ j lt. ground arith) (omega arith)

sem_open_race_example :
    let (t₁, found) = open_first short_name no_sems in
    let (t₂, found') = open_first long_name t₁ in
    let (t₃, r) = open_second short_name (pos 1) (pos 1) 3 (t₂, found) in
    let (t₄, r') = open_second long_name (pos 2) (pos 2) 4 (t₃, found') in
    (r ≡ some 0)
    × (r' ≡ some 0)
    × (t₄ 0 ≡ fill long_name (pos 2) (pos 2) 4 (fill short_name (pos 1) (pos 1) 3 (no_sems 0)))
    × ((t₄ 0).ref ≡ pos 1)
sem_open_race_example =
    sem_open_race short_name long_name (pos 1) (pos 1) (pos 2) (pos 2) 3 4 0 no_sems scan-no_sems
      (rw scan-no_sems_long)

find-no_sems : find_name (λ j. 0) no_sems ≡ some 0
unfolding find_name strncmp find_from
find-no_sems = refl

unlink_twice_example :
    ((unlinked false no_sems 0).1 ≡ returns (pos 0))
    × (((unlinked false no_sems 0).0 0).linked ≡ false)
    × (find_name (λ j. 0) (unlinked false no_sems 0).0 ≡ some 0)
    × ((unlinked true (unlinked false no_sems 0).0 0).1 ≡ returns (pos 0))
unlink_twice_example = unlink_twice (λ j. 0) false true no_sems 0 find-no_sems refl

-- A mutex that process 1 holds, with process 2 asleep on it.
abbrev mutex : Sem
mutex = record zeroed { count = pos 1; max_val = pos 1; linked = true; ref = pos 2 }

abbrev contended : World
contended = record { sem = record mutex { count = pos 0 }; asleep = update (λ p. false) 2 true }

contended-Reach : Reach mutex contended
unfolding sem_wait_round
contended-Reach = later (later start (wait 1 false refl)) (wait 2 false refl)

no_lost_wakeup_example :
    (pos 0 ≤ℤ contended.sem.count)
    × (contended.sem.count ≤ℤ contended.sem.max_val)
    × ((p : ℕ) → contended.asleep p ≡ true → contended.sem.count ≡ pos 0)
no_lost_wakeup_example = no_lost_wakeup (omega arith) (omega arith) (omega arith) contended-Reach
