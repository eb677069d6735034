-- ===== src/Kernel/Inodes/Entries.antt =====
-- `bmap` of ex3/q1/xv6/fs.c: each block of a file has a disk block of its own, and mapping one changes the
-- contents of none.
use operating_systems_soluti.Base.{
  ℕ, ◌+◌, ◌-◌, ◌*◌, ◌≤◌, ◌<◌, ◌≡◌, refl, sym, ◌∙◌, ◌≢◌, inl, inr, true, false, Option, none, some,
  arith, ltb, ◌==◌, if◌then◌else◌, Bool-cases,
}
use operating_systems_soluti.Kernel.Blocks.Space.{
  Writable, stops, Fits-later, Fits-more, Fits-none, log_block-Fits,
}
use operating_systems_soluti.Kernel.Blocks.{
  Superblock, Disk, bsize, is_used, bitmap_block, log_block,
}
use operating_systems_soluti.Kernel.Blocks.Alloc.{
  IsLaidOut, Claimed, Balloc, allocated, full, balloc-Balloc,
}
use operating_systems_soluti.Kernel.Blocks.Room.{room-full, room-Claimed, room-same}
use operating_systems_soluti.Kernel.Inodes.{
  Inode, ndirect, nindirect, read_uint, write_uint, map_addr, with_entry, map_entry, bmap,
}
use operating_systems_soluti.Kernel.Inodes.Pointers.{
  ptr, slots, slot, IsData, IsFile, read_uint-write_uint, ptr-ne-free, ptr-claimed, claimed-IsData,
  extended-IsFile, extended-file_byte,
}
use operating_systems_soluti.Kernel.Inodes.Maps.{
  Filled, Mapping, filled, no_space, data_kept, map_addr-Mapping,
}

-- The entry of the indirect block, when that block is there.
module _ (sb : Superblock) {d : Disk} {ip : Inode} (h : IsFile sb d ip)
    (there : ip.addrs 12 ≢ 0) where
  abbrev ind : ℕ
  ind = ip.addrs 12

  ind-IsData : IsData sb d ind
  ind-IsData = h.blocks 12 (omega arith) there

  module _ {d' : Disk} {r : ℕ} (c : Claimed sb d h.laid_out r d') (i : ℕ) (lt : i < 128) where
    abbrev entered : Disk
    entered = log_block ind (write_uint ind i r d')

    entered-used : (b : ℕ) → b < sb.size → is_used sb entered b ≡ is_used sb d' b
    unfolding is_used log_block
    entered-used b lb =
        let other : (ind == bitmap_block sb b) ≡ false = ground (arith, ind-IsData.no_map b lb) in
        rw other refl

    entered-IsLaidOut : IsLaidOut sb entered
    unfolding log_block
    entered-IsLaidOut = record {
      bytes = λ b off. ground (arith, c.laid_out.bytes b off, c.laid_out.bytes ind off);
      inside = c.laid_out.inside;
      maps =
          λ b lb. entered-used (bitmap_block sb b) (c.laid_out.inside b lb) ∙ c.laid_out.maps b lb;
    }

    entered-read : (j : ℕ) → read_uint entered ind j ≡ (if j == i then r else read_uint d' ind j)
    unfolding log_block
    entered-read j = read_uint-write_uint ind i r d' j (omega (arith, c.in_range, h.word_size))

    entered-ptr : (j : ℕ) → j < slots → ptr entered ip j ≡ (if j == 13 + i then r else ptr d ip j)
    entered-ptr j lj = elim (Bool-cases (ltb j 13)) [
      | inl direct ↦ ground (arith, direct)
      | inr behind ↦
          let here : (ind == 0) ≡ false = ground (arith, there) in
          let old = ptr-claimed sb h c j lj in
          rw (behind, here)
            (ground (arith, entered-read (j - 13), rw (behind, here) at old, behind))
    ]

    entered-same :
        (k off : ℕ)
        → k < slots
        → k ≢ 12
        → ptr d ip k ≢ 0
        → entered.byte (ptr d ip k) off ≡ d.byte (ptr d ip k) off
    unfolding log_block
    entered-same k off lk nk nz =
        let other : (ind == ptr d ip k) ≡ false =
          ground (arith, h.distinct 12 k (omega arith) lk there) in
        rw other (data_kept sb h c k off lk nz)

    entered-zero : (off : ℕ) → off < bsize → entered.byte r off ≡ 0
    unfolding log_block
    entered-zero off lo =
        let other : (ind == r) ≡ false =
          ground (arith, ptr-ne-free sb h r 12 c.was_free (omega arith)) in
        rw other (c.zeroed off lo)

    entered-Filled : ptr d ip (13 + i) ≡ 0 → Filled sb d ip (13 + i) 1 (entered, ip, r)
    entered-Filled empty = record {
      file =
          extended-IsFile sb h c entered ip (13 + i) (omega arith) empty entered-IsLaidOut
            entered-used entered-ptr;
      block = ground (arith, entered-ptr (13 + i) (omega arith));
      there = (claimed-IsData sb h c).not_boot;
      contents =
          extended-file_byte sb h c entered ip (13 + i) (omega arith) empty entered-IsLaidOut
            entered-used entered-ptr entered-same entered-zero;
      same_size = refl;
      same_inum = refl;
      taken = omega (arith, room-Claimed sb c, room-same sb d' entered entered-used);
      logs = Fits-later d d' entered 2 1 c.logs (log_block-Fits ind (write_uint ind i r d'));
    }

  pub ptr-entry : (i : ℕ) → ptr d ip (13 + i) ≡ read_uint d ind i
  ptr-entry i =
      let behind : ltb (13 + i) 13 ≡ false = ground arith in
      let here : (ind == 0) ≡ false = ground (arith, there) in
      let back : 13 + i - 13 ≡ i = omega arith in rw (behind, here, back) refl

  with_entry-Mapping :
      (i : ℕ)
      → i < 128
      → read_uint d ind i ≡ 0
      → {r : Option (Disk × ℕ)} → Balloc sb d h.laid_out r
      → Mapping sb d ip (13 + i) 1 (with_entry ind i ip r)
  with_entry-Mapping i lt z (full all) = no_space (omega (arith, room-full sb d all))
  with_entry-Mapping i lt z (allocated d' r c) =
      filled (entered c i lt, ip, r) (entered-Filled c i lt (ptr-entry i ∙ z))

  pub map_entry-Mapping :
      (i : ℕ) → i < 128 → Mapping sb d ip (13 + i) 1 (map_entry sb i (some (d, ip, ind)))
  unfolding map_entry
  map_entry-Mapping i lt = elim (Bool-cases (read_uint d ind i == 0)) [
    | inl empty ↦ rw empty (with_entry-Mapping i lt (ground arith) (balloc-Balloc sb d h.laid_out))
    | inr taken ↦ rw taken (
        filled (d, ip, read_uint d ind i)
          (record {
            file = h;
            block = ptr-entry i;
            there = ground arith;
            contents = λ bn off lb lo. refl;
            same_size = refl;
            same_inum = refl;
            taken = omega arith;
            logs = Fits-none d 3;
          }))
  ]

-- A mapping behind another one, of the same file.
Mapping-later :
    {sb : Superblock} {d : Disk} {ip : Inode} (s s' m n : ℕ) {q : Disk × Inode × ℕ}
    {r : Option (Disk × Inode × ℕ)}
    → Filled sb d ip s m q
    → Mapping sb q.0 q.1 s' n r
    → Mapping sb d ip s' (m + n) r
Mapping-later s s' m n f (no_space few) = no_space (omega (arith, f.taken))
Mapping-later {sb} {d} {ip} s s' m n {q} f (filled r g) = filled r (record {
  file = g.file;
  block = g.block;
  there = g.there;
  contents = λ bn off lb lo. g.contents bn off lb lo ∙ f.contents bn off lb lo;
  same_size = g.same_size ∙ f.same_size;
  same_inum = g.same_inum ∙ f.same_inum;
  taken = omega (arith, f.taken, g.taken);
  logs =
      Fits-more d r.0 (3 * m + 3 * n) (3 * (m + n)) (omega arith)
        (Fits-later d q.0 r.0 (3 * m) (3 * n) f.logs g.logs);
})

Mapping-more :
    {sb : Superblock} {d : Disk} {ip : Inode} {s : ℕ} {r : Option (Disk × Inode × ℕ)}
    → Mapping sb d ip s 1 r
    → Mapping sb d ip s 2 r
Mapping-more (no_space few) = no_space (omega arith)
Mapping-more {sb} {d} (filled r f) = filled r (record {
  file = f.file;
  block = f.block;
  there = f.there;
  contents = f.contents;
  same_size = f.same_size;
  same_inum = f.same_inum;
  taken = omega (arith, f.taken);
  logs = Fits-more d r.0 3 6 (omega arith) f.logs;
})

-- All that `bmap` does, with the room in the log that it takes.
pub bmap-Mapping :
    (sb : Superblock) {d : Disk} {ip : Inode} (bn : ℕ)
    → IsFile sb d ip
    → bn < 140
    → Mapping sb d ip (slot bn) 2 (bmap sb bn ip d)
unfolding bmap
bmap-Mapping sb {d} {ip} bn h lt = elim (Bool-cases (ltb bn ndirect)) [
  | inl direct ↦ rw direct (Mapping-more (map_addr-Mapping sb h bn (ground arith)))
  | inr behind ↦
      let below : ltb (bn - ndirect) nindirect ≡ true = ground arith in
      rw (behind, below)
        (go (map_addr sb 12 ip d) (map_addr-Mapping sb h 12 (omega arith)) (ground arith))
]
  where
    go :
        (r : Option (Disk × Inode × ℕ))
        → Mapping sb d ip 12 1 r
        → ndirect ≤ bn
        → Mapping sb d ip (bn + 1) 2 (map_entry sb (bn - ndirect) r)
    go none (no_space few) le = no_space (omega arith)
    go (some (d1, ip1, ind)) (filled _ f) le =
        let e : 13 + (bn - ndirect) ≡ bn + 1 = omega arith in
        let m =
          map_entry-Mapping sb f.file (λ z. f.there (sym f.block ∙ z)) (bn - ndirect)
            (omega arith) in
        Mapping-later 12 (bn + 1) 1 1 f (rw (e, f.block) at m)

-- `bmap` of a block below the largest number, on a file whose blocks are its own, in a transaction whose log has
-- room for six more blocks: it returns the block that the file has there, or gives it a free one, again its own;
-- the contents of the file do not change. `log_write` does not panic, and `balloc` does only on a disk with
-- fewer than two free blocks.
pub bmap-in_transaction :
    (sb : Superblock) {d : Disk} {ip : Inode} (bn : ℕ)
    → IsFile sb d ip
    → bn < 140
    → Writable 6 d
    → Mapping sb d ip (slot bn) 2 (bmap sb bn ip d) × (stops (bmap sb bn ip d) ≡ false)
bmap-in_transaction sb {d} {ip} bn h lt w =
    let done = bmap-Mapping sb bn h lt in (done, go (bmap sb bn ip d) done)
  where
    go : (r : Option (Disk × Inode × ℕ)) → Mapping sb d ip (slot bn) 2 r → stops r ≡ false
    go none (no_space few) = refl
    go (some r) (filled _ m) = (m.logs 0 6 (omega arith) w).running
