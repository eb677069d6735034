-- ===== src/Kernel/Dirs/Tests.antt =====
-- A directory of two entries in block 4 of the small disk, where every byte is 9, open as the first inode of a
-- cache.
use operating_systems_soluti.Base.{ℕ, ◌/◌, ◌<◌, ◌≡◌, refl, ◌≢◌, true, arith, ◌==◌, if◌then◌else◌}
use operating_systems_soluti.Kernel.Blocks.{Inode}
use operating_systems_soluti.Kernel.Blocks.Tests.{small, five_used}
use operating_systems_soluti.Kernel.Inodes.Pointers.{ptr, slot}
use operating_systems_soluti.Kernel.Inodes.Tests.{note}
use operating_systems_soluti.Kernel.Icache.{Icache}
use operating_systems_soluti.Kernel.Dirs.{dirlookup}
use operating_systems_soluti.Kernel.Dirs.Search.{Found, dirlookup-Found}

abbrev two_entries : Inode
two_entries = record note { type = 1; size = 32 }

abbrev one_dir : Icache
one_dir = record {
  entry = λ i. record { dev = 1; ref = if i == 0 then 1 else 0; valid = true; node = two_entries };
  disk = five_used;
}

no_hole : (k : ℕ) → k < 32 → ptr five_used two_entries (slot (k / 512)) ≢ 0
no_hole k lt = let e : k / 512 ≡ 0 = omega arith in rw e (λ z. omega (arith, z))

dirlookup-Found_example :
    Found 1 (λ k. 9) five_used two_entries one_dir (dirlookup small 0 (λ k. 9) one_dir)
dirlookup-Found_example = dirlookup-Found small (λ k. 9) 0 one_dir no_hole refl (omega arith) refl
