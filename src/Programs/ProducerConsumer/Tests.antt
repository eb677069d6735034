-- ===== src/Programs/ProducerConsumer/Tests.antt =====
-- The theorems on ex3/q1/xv6/pc.c at a concrete run.
use operating_systems_soluti.Base.{
  ℕ, ◌+◌, ◌≤◌, ◌≡◌, refl, ◌⊎◌, true, false, arith, update, total, pos,
}
use operating_systems_soluti.Kernel.Sem.{Sem, sem_wait_round}
use operating_systems_soluti.Programs.ProducerConsumer.{
  ready, slot, trying, World, max_msg, Step, get_slot, Reach, start, later,
}
use operating_systems_soluti.Programs.ProducerConsumer.Sound.{p_critical, c_critical}
use operating_systems_soluti.Programs.ProducerConsumer.Live.{pc_exclusive}
use operating_systems_soluti.Programs.ProducerConsumer.Progress.{IsFinished, pc_no_deadlock}

abbrev sem : ℕ → ℕ → Sem
sem init max_val = record {
  bytes = λ j. 0;
  count = pos init;
  ref = pos 1;
  max_val = pos max_val;
  linked = true;
  waiting_for_death = false;
}

-- `pc 2 1 2`
abbrev begun : World
begun = record {
  buffa = sem 3 3;
  buffb = sem 0 3;
  total_left = sem 4 4;
  write = sem 1 1;
  prod = λ i. ready 2;
  cons = λ i. trying;
}

-- The first producer has a place in the buffer.
abbrev one_slot : World
one_slot = record begun { buffa = sem 2 3; prod = update begun.prod 0 (slot 2) }

begun-Reach : Reach 2 1 2 begun
begun-Reach = start (record {
  buffa_new = (refl, refl);
  buffb_new = (refl, refl);
  total_new = (refl, refl);
  write_new = (refl, refl);
  prod_new = λ i. refl;
  cons_new = λ i. refl;
})

one_slot-Reach : Reach 2 1 2 one_slot
unfolding sem_wait_round
one_slot-Reach = later begun-Reach (get_slot 0 1 (omega arith) refl refl)

pc_no_deadlock_example : ((v : World) × Step 2 1 one_slot v) ⊎ IsFinished 2 1 one_slot
pc_no_deadlock_example = pc_no_deadlock (omega arith) (omega arith) one_slot-Reach

pc_exclusive_example :
    (total p_critical 2 one_slot.prod + total c_critical 1 one_slot.cons ≤ 1)
    × ((a b : ℕ) → one_slot.buffa.count ≡ pos a → one_slot.buffb.count ≡ pos b → a + b ≤ max_msg)
pc_exclusive_example = pc_exclusive one_slot-Reach
