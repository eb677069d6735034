-- ===== src/Kernel/Blocks/Tests.antt =====
-- A small disk: the boot block, the superblock, a block of inodes, the bitmap and twelve more blocks.
use operating_systems_soluti.Base.{
  ◌≡◌, refl, ◌⊎◌, true, false, ◌&&◌, none, some, [], arith, ◌==◌, if◌then◌else◌,
}
use operating_systems_soluti.Kernel.Blocks.{
  Superblock, Disk, bitmap_block, is_used, has_bit, balloc, bfree,
}
use operating_systems_soluti.Kernel.Blocks.Alloc.{
  IsLaidOut, Balloc, balloc-Balloc, bfree-Freed, Freed, unmark,
}

abbrev pub small : Superblock
small = record { size = 16; ninodes = 8; inodestart = 2; bmapstart = 3 }

abbrev pub five_used : Disk
five_used = record {
  byte = λ b off. if b == 3 && off == 0 then 31 else if b == 4 then 9 else 0;
  dinode = λ k. record { inum = k; type = 0; nlink = 0; size = 0; addrs = λ j. 0 };
  logged = [];
  outstanding = 1;
  log_blocks = 30;
  stopped = false;
}

pub five_used-IsLaidOut : IsLaidOut small five_used
unfolding is_used has_bit
five_used-IsLaidOut = record {
  bytes = λ b off. ground arith;
  inside = λ b lt. omega arith;
  maps = λ b lt. let e : bitmap_block small b ≡ 3 = omega arith in rw e refl;
}

balloc-Balloc_example : Balloc small five_used five_used-IsLaidOut (balloc small five_used)
balloc-Balloc_example = balloc-Balloc small five_used five_used-IsLaidOut

bfree-Freed_example :
    ((is_used small five_used 4 ≡ true)
      × (bfree small 4 five_used ≡ some (unmark small 4 five_used))
      × Freed small five_used five_used-IsLaidOut 4 (unmark small 4 five_used))
    ⊎ ((is_used small five_used 4 ≡ false) × (bfree small 4 five_used ≡ none))
bfree-Freed_example =
    bfree-Freed small five_used five_used-IsLaidOut 4 (λ b lt e. absurd (omega arith))
