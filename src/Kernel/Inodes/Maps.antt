-- ===== src/Kernel/Inodes/Maps.antt =====
-- The pointers in an inode of ex3/q1/xv6/fs.c, as `bmap` fills them.
use operating_systems_soluti.Base.{
  ℕ, ◌+◌, ◌-◌, ◌*◌, ◌≤◌, ◌<◌, ◌≡◌, refl, sym, ◌≢◌, inl, inr, Option, none, some, arith, ltb, ◌==◌,
  if◌then◌else◌, Bool-cases,
}
use operating_systems_soluti.Kernel.Blocks.{Superblock, Disk, bsize}
use operating_systems_soluti.Kernel.Blocks.Space.{Fits, Fits-more, Fits-none}
use operating_systems_soluti.Kernel.Blocks.Alloc.{Claimed, Balloc, allocated, full, balloc-Balloc}
use operating_systems_soluti.Kernel.Blocks.Room.{room, room-full, room-Claimed}
use operating_systems_soluti.Kernel.Inodes.{Inode, read_uint, set_addr, with_addr, map_addr}
use operating_systems_soluti.Kernel.Inodes.Pointers.{
  ptr, slots, file_byte, IsFile, ptr-ne-free, ptr-claimed, claimed-IsData, extended-IsFile,
  extended-file_byte,
}

-- A slot that leads to a block, with the file otherwise as it was, and at most `n` free blocks taken.
pub record Filled (sb : Superblock) (d : Disk) (ip : Inode) (s n : ℕ) (r : Disk × Inode × ℕ)
    : Type 0 where
  pub file : IsFile sb r.0 r.1
  pub block : ptr r.0 r.1 s ≡ r.2
  pub there : r.2 ≢ 0
  pub contents :
      (bn off : ℕ) → bn < 140 → off < bsize → file_byte r.0 r.1 bn off ≡ file_byte d ip bn off
  pub same_size : r.1.size ≡ ip.size
  pub same_inum : r.1.inum ≡ ip.inum
  pub taken : room sb d ≤ room sb r.0 + n
  pub logs : Fits (3 * n) d r.0

-- What mapping a slot comes to: a panic only on a disk with fewer than `n` free blocks.
pub data Mapping (sb : Superblock) (d : Disk) (ip : Inode) (s n : ℕ)
    : Option (Disk × Inode × ℕ) → Type 0 where
  filled : (r : Disk × Inode × ℕ) → Filled sb d ip s n r → Mapping sb d ip s n (some r)
  no_space : room sb d < n → Mapping sb d ip s n none

module _ (sb : Superblock) {d : Disk} {ip : Inode} (h : IsFile sb d ip) where
  -- `balloc` leaves the blocks of the file as they are.
  pub data_kept :
      {d' : Disk} {r : ℕ} (c : Claimed sb d h.laid_out r d') (k off : ℕ)
      → k < slots
      → ptr d ip k ≢ 0
      → d'.byte (ptr d ip k) off ≡ d.byte (ptr d ip k) off
  data_kept {d'} {r} c k off lt nz =
      c.kept (ptr d ip k) off (ptr-ne-free sb h r k c.was_free lt)
        (λ e. (h.blocks k lt nz).no_map r c.in_range (sym e))

  -- The pointers after a direct slot, or that of the indirect block, has been given a zeroed block.
  ptr-set_addr :
      {d' : Disk} {r : ℕ} (c : Claimed sb d h.laid_out r d') (k : ℕ)
      → k ≤ 12
      → ip.addrs k ≡ 0
      → (j : ℕ) → j < slots
      → ptr d' (set_addr k r ip) j ≡ (if j == k then r else ptr d ip j)
  ptr-set_addr {d'} {r} c k le empty j lt = elim (Bool-cases (ltb j 13)) [
    | inl direct ↦ rw direct (ground arith)
    | inr behind ↦ elim (Bool-cases (k == 12)) [
      | inl last ↦
          let e : k ≡ 12 = ground arith in
          let z : ip.addrs 12 ≡ 0 = ground (arith, e, empty) in
          let zero_word : read_uint d' r (j - 13) ≡ 0 = omega (
            arith,
            c.zeroed (4 * (j - 13)) (omega arith),
            c.zeroed (4 * (j - 13) + 1) (omega arith),
            c.zeroed (4 * (j - 13) + 2) (omega arith),
            c.zeroed (4 * (j - 13) + 3) (omega arith),
          ) in
          rw (behind, z) (ground (arith, zero_word, e))
      | inr other ↦ let old = ptr-claimed sb h c j lt in ground (arith, old, other, behind)
    ]
  ]

  map_addr-new :
      (k : ℕ)
      → k ≤ 12
      → ip.addrs k ≡ 0
      → {r : Option (Disk × ℕ)} → Balloc sb d h.laid_out r
      → Mapping sb d ip k 1 (with_addr k ip r)
  map_addr-new k le empty (full all) = no_space (omega (arith, room-full sb d all))
  map_addr-new k le empty (allocated d' a c) =
      let data_block = claimed-IsData sb h c in
      let empty_slot : ptr d ip k ≡ 0 = ground (arith, empty) in
      let ptrs : (j : ℕ)
          → j < slots
          → ptr d' (set_addr k a ip) j ≡ (if j == k then a else ptr d ip j) =
        ptr-set_addr c k le empty in
      filled (d', set_addr k a ip, a)
        (record {
          file =
              extended-IsFile sb h c d' (set_addr k a ip) k (omega arith) empty_slot c.laid_out
                (λ b lt. refl) ptrs;
          block = ground (arith, ptrs k (omega arith));
          there = data_block.not_boot;
          contents =
              extended-file_byte sb h c d' (set_addr k a ip) k (omega arith) empty_slot c.laid_out
                (λ b lt. refl) ptrs (λ j off lt ne nz. data_kept c j off lt nz) c.zeroed;
          same_size = refl;
          same_inum = refl;
          taken = omega (arith, room-Claimed sb c);
          logs = Fits-more d d' 2 3 (omega arith) c.logs;
        })

  pub map_addr-Mapping : (k : ℕ) → k ≤ 12 → Mapping sb d ip k 1 (map_addr sb k ip d)
  unfolding map_addr
  map_addr-Mapping k le = elim (Bool-cases (ip.addrs k == 0)) [
    | inl empty ↦ rw empty (map_addr-new k le (ground arith) (balloc-Balloc sb d h.laid_out))
    | inr taken ↦ rw taken (
        filled (d, ip, ip.addrs k)
          (record {
            file = h;
            block = ground arith;
            there = ground arith;
            contents = λ bn off lb lo. refl;
            same_size = refl;
            same_inum = refl;
            taken = omega arith;
            logs = Fits-none d 3;
          }))
  ]
