-- ===== src/Kernel/Log/Tests.antt =====
-- Runs of ex3/q1/xv6/log.c, and its theorems at a concrete disk.
use operating_systems_soluti.Base.{
  ℕ, ◌+◌, ◌≡◌, refl, inr, false, ◌&&◌, List, [], ◌∷◌, arith, ltb, if◌then◌else◌, length,
}
use operating_systems_soluti.Kernel.Log.{
  Machine, commit, recover_from_log, boots, write_log, install_trans, write_head, bwrite,
}
use operating_systems_soluti.Kernel.Log.Writes.{IsHome, mem}
use operating_systems_soluti.Kernel.Log.Crash.{commit_atomic}
use operating_systems_soluti.Kernel.Log.Space.{World}

-- The log starts at block 2, and every block holds its number; the run stops after `k` writes.
abbrev disk : ℕ → Machine ℕ
disk k = record { block = λ b. b; header = []; left = k }

-- The transaction writes 100 more than the number of the block.
abbrev cache : ℕ → ℕ
cache b = b + 100

abbrev blocks : List ℕ
blocks = 40 ∷ 50 ∷ []

-- Stopped before the header, in the installation, and after all six writes.
stops :
    ((commit 2 cache blocks (disk 2)).block 40 ≡ 40)
    × ((commit 2 cache blocks (disk 4)).block 40 ≡ 140)
    × ((commit 2 cache blocks (disk 4)).block 50 ≡ 50)
    × ((commit 2 cache blocks (disk 6)).block 50 ≡ 150)
    × ((commit 2 cache blocks (disk 6)).header ≡ [])
unfolding commit write_log install_trans write_head bwrite
stops = (refl, refl, refl, refl, refl)

commit_atomic_example :
    let after = boots 2 (1 ∷ []) (commit 2 cache blocks (disk 4)) in
    let final = recover_from_log 2 (record after { left = 9 }) in
    (final.header ≡ [])
    × ((a : ℕ)
        → IsHome 2 (length blocks) a
        → final.block a ≡ (
            if ltb (length blocks) (disk 4).left && mem a blocks
            then cache a
            else (disk 4).block a))
commit_atomic_example =
    commit_atomic 2 cache blocks (disk 4) (1 ∷ []) 9 refl
      (inr (omega arith), (inr (omega arith), tt)) (omega arith)

-- One call has begun and has written nothing.
abbrev one_op : World
one_op = record {
  log = record { size = 31; outstanding = 1; committing = false; lh = [] };
  ops = 0 ∷ [];
}
