-- ===== src/Kernel/Spinlock/Tests.antt =====
-- Runs of ex3/q1/xv6/spinlock.c, and its theorems at a concrete processor.
use operating_systems_soluti.Base.{◌≡◌, refl, true, false, none, some, [], ◌∷◌, arith}
use operating_systems_soluti.Kernel.Spinlock.{Cpu, Lock, panicked, spins, acquire, holding, pushcli}
use operating_systems_soluti.Kernel.Spinlock.Nesting.{
  IsNested, run, depth_after, Follows, run-Follows,
}

abbrev idle : Cpu
idle = record { interrupts = true; ncli = 0; intena = false }

abbrev free_lock : Lock
free_lock = record { locked = false; cpu = none }

-- Another processor spins with its interrupts off, and the owner may not take its lock again.
spinning :
    acquire 1 idle (record { locked = true; cpu = some 0 })
    ≡ spins (record { interrupts = false; ncli = 1; intena = true })
unfolding acquire pushcli holding
spinning = refl

taken_twice : acquire 0 idle (record { locked = true; cpu = some 0 }) ≡ panicked
unfolding acquire holding
taken_twice = refl

idle-IsNested : IsNested true 0 idle
idle-IsNested = record { nesting = refl; flag = refl; saved = λ lt. absurd (omega arith) }

run-Follows_example :
    Follows true (run (true ∷ true ∷ false ∷ []) idle) (depth_after (true ∷ true ∷ false ∷ []) 0)
run-Follows_example = run-Follows (true ∷ true ∷ false ∷ []) true 0 idle idle-IsNested
