-- ===== src/Kernel/Icache/Tests.antt =====
-- A cache with one inode, to which there is one pointer.
use operating_systems_soluti.Base.{ℕ, ◌≡◌, refl, true, some, arith, ◌==◌, if◌then◌else◌, update}
use operating_systems_soluti.Kernel.Blocks.Tests.{small, five_used}
use operating_systems_soluti.Kernel.Inodes.Tests.{note, note-IsFile, five_used-Writable}
use operating_systems_soluti.Kernel.Icache.{Icache, iget, iput, idup}
use operating_systems_soluti.Kernel.Icache.Unique.{IsCache, Iget, iget-Iget}
use operating_systems_soluti.Kernel.Icache.Uses.{
  Dead, iput-Dead, Uses-IsCache, unchanged, and_step, duplicated,
}

abbrev one_open : Icache
one_open = record {
  entry = λ i. record { dev = 1; ref = if i == 0 then 1 else 0; valid = true; node = note };
  disk = five_used;
}

abbrev one_pointer : ℕ → ℕ
one_pointer i = if i == 0 then 1 else 0

one_open-IsCache : IsCache one_open.entry one_pointer
one_open-IsCache = record {
  refs = λ i lt. refl;
  inside = λ i le. ground arith;
  unique = λ i j li lj pi pj d n. ground arith;
}

iget-Iget_example : Iget 1 8 one_open one_pointer (iget 1 8 one_open)
iget-Iget_example = iget-Iget 1 8 one_open one_open-IsCache

Uses-IsCache_example : IsCache (idup 0 one_open).entry (update one_pointer 0 2)
Uses-IsCache_example = Uses-IsCache small one_open-IsCache (
    and_step one_open (idup 0 one_open) one_pointer (update one_pointer 0 2) unchanged
      (duplicated 0 (omega arith)))

iput-Dead_example : (c : Icache) × (iput small 0 one_open ≡ some c) × Dead small 0 one_open c
iput-Dead_example =
    iput-Dead small 0 one_open note-IsFile refl (omega arith) (five_used-Writable 3 (omega arith))
