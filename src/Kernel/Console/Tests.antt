-- ===== src/Kernel/Console/Tests.antt =====
-- Runs of ex3/q1/xv6/console.c, and its theorems at a concrete run.
use operating_systems_soluti.Base.{◌≡◌, refl, false, List, [], ◌∷◌, arith}
use operating_systems_soluti.Kernel.Console.{returned, asleep}
use operating_systems_soluti.Kernel.Console.Reads.{Event, press, read, run, spec_run, run-spec_run}

-- "ax", backspace, "b", return; a read of ten bytes; "c"; a read that sleeps.
abbrev session : List Event
session =
    press 97
    ∷ press 120
    ∷ press 8
    ∷ press 98
    ∷ press 13
    ∷ read false 10
    ∷ press 99
    ∷ read false 10
    ∷ []

session_results : spec_run session ([], []) ≡ (returned, 97 ∷ 98 ∷ 10 ∷ []) ∷ (asleep, []) ∷ []
unfolding spec_run
session_results = refl

-- The counters wrap in the middle of the session.
run-spec_run_example :
    run session (record { buf = λ k. 0; r = 4294967295; w = 4294967295; e = 4294967295 })
    ≡ spec_run session ([], [])
run-spec_run_example = run-spec_run session (λ k. 0) 4294967295 (omega arith)
