-- ===== src/Kernel/Log/Space.antt =====
-- The space that `begin_op` of ex3/q1/xv6/log.c reserves: no transaction outgrows the log.
use operating_systems_soluti.Base.{
  ℕ, ◌+◌, ◌-◌, ◌≤◌, ◌<◌, ◌≡◌, Bool, true, false, some, List, [], ◌∷◌, ◌++◌, arith, length,
}
use operating_systems_soluti.Kernel.Log.{
  Log, max_op_blocks, log_size, begin_op, end_op, commit_done, absorb, log_write,
}

-- How many blocks the system calls between their `begin_op` and `end_op` may still add, from how many
-- each has written so far.
abbrev pub reserve : List ℕ → ℕ
reserve [] = 0
reserve (k ∷ ks) = (max_op_blocks - k) + reserve ks

-- The log, and the writes of each outstanding call.
pub record World : Type 0 where
  pub log : Log
  pub ops : List ℕ

-- A call makes at most `max_op_blocks` writes.
-- A call makes at most `MAXOPBLOCKS` writes, as `begin_op` reserves; the code does not enforce it.
pub data Step (w : World) : World → Type 0 where
  begin : {l : Log} → begin_op w.log ≡ some l → Step w (record { log = l; ops = 0 ∷ w.ops })
  write :
      {l : Log} (xs ys : List ℕ) (k b : ℕ)
      → w.ops ≡ xs ++ (k ∷ ys)
      → k < max_op_blocks
      → log_write b w.log ≡ some l
      → Step w (record { log = l; ops = xs ++ ((k + 1) ∷ ys) })
  finish :
      {l : Log} {last : Bool} (xs ys : List ℕ) (k : ℕ)
      → w.ops ≡ xs ++ (k ∷ ys)
      → end_op w.log ≡ some (l, last)
      → Step w (record { log = l; ops = xs ++ ys })
  done : w.log.committing ≡ true → Step w (record w { log = commit_done w.log })

abbrev pub init : ℕ → World
init size = record {
  log = record { size = size; outstanding = 0; committing = false; lh = [] };
  ops = [];
}

pub data Reach (size : ℕ) : World → Type 0 where
  start : Reach size (init size)
  later : {w v : World} → Reach size w → Step w v → Reach size v

pub record IsSound (size : ℕ) (w : World) : Type 0 where
  pub fixed : w.log.size ≡ size
  pub count : w.log.outstanding ≡ length w.ops
  pub alone : w.log.committing ≡ true → w.log.outstanding ≡ 0
  pub room : length w.log.lh + reserve w.ops ≤ log_size

pub length-absorb : (b : ℕ) (xs : List ℕ) → length (absorb b xs) ≤ length xs + 1
unfolding absorb
length-absorb b [] = omega arith
length-absorb b (x ∷ xs) = ground (arith, length-absorb b xs)
