-- ===== src/Kernel/Inodes/Truncates.antt =====
-- `itrunc` of ex3/q1/xv6/fs.c gives back the blocks of a file, all of them and no others.
use operating_systems_soluti.Base.{
  ℕ, zero, suc, ◌+◌, ◌≤◌, ◌<◌, ◌≡◌, refl, sym, ap, ◌∙◌, ◌≢◌, inl, inr, Bool, true, false, ◌&&◌,
  ◌||◌, some, arith, ltb, leb, ◌==◌, ==_refl, Bool-cases, update,
}
use operating_systems_soluti.Kernel.Blocks.Space.{Writable, Steady-Writable, log_block-Fits}
use operating_systems_soluti.Kernel.Blocks.{
  bpb, Superblock, Disk, bitmap_block, is_used, log_block, bfree,
}
use operating_systems_soluti.Kernel.Inodes.{
  store_inode, Inode, set_addr, read_uint, free_addrs, free_entries, free_indirect,
  free_indirect_block, emptied, itrunc, inode_block,
}
use operating_systems_soluti.Kernel.Inodes.Pointers.{ptr, slots, IsFile, read_uint-kept}
use operating_systems_soluti.Kernel.Inodes.Entries.{ptr-entry}
use operating_systems_soluti.Kernel.Inodes.Released.{
  Released, none-Released, and_slot, free_if-Released,
}

-- The slots that each part of the function has freed.
abbrev direct : ℕ → ℕ → Bool
direct k j = ltb j k

abbrev entries : ℕ → ℕ → Bool
entries k j = ltb j 12 || leb 13 j && ltb j (13 + k)

-- The addresses of the inode when the loop has passed the first `k`.
record Cleared (ip : Inode) (k : ℕ) (ip' : Inode) : Type 0 where
  pub zero_before : (j : ℕ) → j < k → ip'.addrs j ≡ 0
  pub same_after : (j : ℕ) → k ≤ j → ip'.addrs j ≡ ip.addrs j
  pub same_inum : ip'.inum ≡ ip.inum

Cleared-next : {ip ip' : Inode} {k : ℕ} → Cleared ip k ip' → Cleared ip (k + 1) (set_addr k 0 ip')
Cleared-next {ip} {ip'} {k} c = record {
  zero_before = λ j lt. ground (arith, c.zero_before j);
  same_after = λ j le. ground (arith, c.same_after j);
  same_inum = c.same_inum;
}

same_slots :
    {sb : Superblock} {d d' : Disk} {ip : Inode} (f g : ℕ → Bool)
    → ((j : ℕ) → f j ≡ g j)
    → Released sb d ip f d'
    → Released sb d ip g d'
same_slots f g e r = record {
  laid_out = r.laid_out;
  gone = λ j lj here nz. r.gone j lj (e j ∙ here) nz;
  stays = λ b apart. r.stays b (λ j lj here nz. apart j lj (sym (e j) ∙ here) nz);
  kept = r.kept;
  same_inodes = r.same_inodes;
  logs = r.logs;
}

module _ (sb : Superblock) {d : Disk} {ip : Inode} (h : IsFile sb d ip) (one_map : sb.size ≤ bpb)
    (w : Writable 3 d) where
  free_addrs-Released :
      (n k : ℕ) {d' : Disk} {ip' : Inode}
      → n + k ≡ 12
      → Released sb d ip (direct k) d'
      → Cleared ip k ip'
      → (d2 : Disk) × (ip2 : Inode) × (free_addrs sb n k ip' d' ≡ some (d2, ip2))
        × Released sb d ip (direct 12) d2
        × Cleared ip 12 ip2
  unfolding free_addrs
  free_addrs-Released zero k {d'} {ip'} e r c =
      let s : k ≡ 12 = omega arith in (d', ip', refl, rw s at r, rw s at c)
  free_addrs-Released (suc n) k {d'} {ip'} e r c =
      let (d2, eq, r2) =
        free_if-Released sb h (direct k) r k (omega arith) (ground arith) one_map (ip'.addrs k) (
          c.same_after k (omega arith)
          ∙ (let low : ltb k 13 ≡ true = ground arith in rw low refl)) in
      let (d3, ip3, eq3, r3, c3) =
        free_addrs-Released n (k + 1) (omega arith)
          (same_slots (and_slot sb h (direct k) k) (direct (k + 1)) (λ j. ground arith) r2)
          (Cleared-next c) in
      (d3, ip3, rw (free_addrs, eq) eq3, r3, c3)

  module _ (there : ip.addrs 12 ≢ 0) where
    free_entries-Released :
        (n k : ℕ) {d' : Disk}
        → n + k ≡ 128
        → Released sb d ip (entries k) d'
        → (d2 : Disk) × (free_entries sb n k (ip.addrs 12) d' ≡ some d2)
          × Released sb d ip (entries 128) d2
    unfolding free_entries
    free_entries-Released zero k {d'} e r = let s : k ≡ 128 = omega arith in (d', refl, rw s at r)
    free_entries-Released (suc n) k {d'} e r =
        let ind = h.blocks 12 (omega arith) there in
        let same =
          read_uint-kept d d' (ip.addrs 12) (λ off. r.kept (ip.addrs 12) off ind.no_map) k in
        let (d2, eq, r2) =
          free_if-Released sb h (entries k) r (13 + k) (omega arith) (ground arith) one_map
            (read_uint d' (ip.addrs 12) k) (same ∙ sym (ptr-entry sb h there k)) in
        let (d3, eq3, r3) = free_entries-Released n (k + 1) (omega arith) (
          same_slots (and_slot sb h (entries k) (13 + k)) (entries (k + 1)) (λ j. ground arith)
            r2) in
        (d3, rw (free_entries, eq) eq3, r3)

-- An empty file, whose blocks are free: the blocks of all other files are in use as before; the inode table holds
-- the emptied inode, and the others as before; and no block besides, but those of the bitmap, has other contents.
pub record Emptied (sb : Superblock) (d : Disk) (ip : Inode) (r : Disk × Inode) : Type 0 where
  pub file : IsFile sb r.0 r.1
  pub no_blocks : (k : ℕ) → k < 13 → r.1.addrs k ≡ 0
  pub no_bytes : r.1.size ≡ 0
  pub gone : (j : ℕ) → j < slots → ptr d ip j ≢ 0 → is_used sb r.0 (ptr d ip j) ≡ false
  pub stays :
      (b : ℕ)
      → ((j : ℕ) → j < slots → ptr d ip j ≢ 0 → ptr d ip j ≢ b)
      → is_used sb r.0 b ≡ is_used sb d b
  pub kept :
      (b off : ℕ) → ((k : ℕ) → k < sb.size → bitmap_block sb k ≢ b) → r.0.byte b off ≡ d.byte b off
  pub stored : r.0.dinode r.1.inum ≡ r.1
  pub other_inodes : (n : ℕ) → n ≢ ip.inum → r.0.dinode n ≡ d.dinode n
  pub logs : Writable 1 r.0

module _ (sb : Superblock) {d : Disk} {ip : Inode} (h : IsFile sb d ip) (one_map : sb.size ≤ bpb)
    (w : Writable 3 d) where
  no_ptr :
      (d2 : Disk) (ip2 : Inode) → ((k : ℕ) → k < 13 → ip2.addrs k ≡ 0) → (k : ℕ) → ptr d2 ip2 k ≡ 0
  no_ptr d2 ip2 zero_addrs k = ground (arith, zero_addrs k, zero_addrs 12)

  abbrev last_write : Disk → Inode → Disk × Inode
  last_write d2 ip2 = (store_inode sb (record ip2 { size = 0 }) d2, record ip2 { size = 0 })

  last_write-Emptied :
      (done : ℕ → Bool) (d2 : Disk) (ip2 : Inode)
      → ((j : ℕ) → j < slots → ptr d ip j ≢ 0 → done j ≡ true)
      → Released sb d ip done d2
      → ((k : ℕ) → k < 13 → ip2.addrs k ≡ 0)
      → ip2.inum ≡ ip.inum
      → Emptied sb d ip (last_write d2 ip2)
  unfolding log_block is_used
  last_write-Emptied done d2 ip2 all r zero_addrs same =
      let none_left = no_ptr d2 (record ip2 { size = 0 }) zero_addrs in
      record {
        file = record {
          laid_out = record {
            bytes = r.laid_out.bytes;
            inside = r.laid_out.inside;
            maps = r.laid_out.maps;
          };
          word_size = h.word_size;
          boot = r.stays 0 (λ j lj e nz. nz) ∙ h.boot;
          blocks = λ k lk nz. absurd (nz (none_left k));
          distinct = λ j k lj lk nz e. absurd (nz (none_left j));
        };
        no_blocks = zero_addrs;
        no_bytes = refl;
        gone = λ j lj nz. r.gone j lj (all j lj nz) nz;
        stays = λ b apart. r.stays b (λ j lj e nz. apart j lj nz);
        kept = r.kept;
        other_inodes = λ n ne.
            let other : (ip2.inum == n) ≡ false = ground (arith, same, ne) in
            rw other (ap (λ t. t n) r.same_inodes);
        stored = rw (==_refl ip2.inum) refl;
        logs =
            log_block-Fits (inode_block sb ip2.inum)
              (record d2 { dinode = update d2.dinode ip2.inum (record ip2 { size = 0 }) }) 1 2
              (omega arith) (Steady-Writable sb.bmapstart 2 d2 r.logs);
      }

  -- The indirect block after its entries.
  free_indirect_block-Emptied :
      {d2 : Disk} {ip2 : Inode}
      → ip.addrs 12 ≢ 0
      → Cleared ip 12 ip2
      → Released sb d ip (entries 128) d2
      → (r : Disk × Inode) × (emptied sb (free_indirect_block sb ip2 (some d2)) ≡ some r)
        × Emptied sb d ip r
  free_indirect_block-Emptied {d2} {ip2} there c r =
      let same = c.same_after 12 (omega arith) in
      let nz : (ip2.addrs 12 == 0) ≡ false = ground (arith, same, there) in
      let (d3, eq, r3) =
        free_if-Released sb h (entries 128) r 12 (omega arith) refl one_map (ip2.addrs 12) same in
      let taken : bfree sb (ip2.addrs 12) d2 ≡ some d3 = rw nz at eq in
      (
        last_write d3 (set_addr 12 0 ip2),
        rw (emptied, free_indirect_block, taken) refl,
        last_write-Emptied (and_slot sb h (entries 128) 12) d3 (set_addr 12 0 ip2)
            (λ j lj nz. ground arith) r3 (λ k lk. ground (arith, c.zero_before k)) c.same_inum,
      )

  free_indirect-Emptied :
      {d2 : Disk} {ip2 : Inode}
      → Cleared ip 12 ip2
      → Released sb d ip (direct 12) d2
      → (r : Disk × Inode) × (emptied sb (free_indirect sb (some (d2, ip2))) ≡ some r)
        × Emptied sb d ip r
  free_indirect-Emptied {d2} {ip2} c r =
      let same = c.same_after 12 (omega arith) in
      elim (Bool-cases (ip2.addrs 12 == 0)) [
        | inl nothing ↦
            let z : ip.addrs 12 ≡ 0 = ground (arith, same, nothing) in
            (
              last_write d2 ip2,
              rw nothing refl,
              last_write-Emptied (direct 12) d2 ip2 (λ j lj nz. ground (arith, z)) r
                  (λ k lk. ground (arith, c.zero_before k, same, z)) c.same_inum,
            )
        | inr there ↦
            let nz : ip.addrs 12 ≢ 0 = ground (arith, same, there) in
            let start = same_slots (direct 12) (entries 0) (λ j. ground arith) r in
            let (d3, eq, r3) = free_entries-Released sb h one_map w nz 128 0 refl start in
            rw (there, same, eq) (free_indirect_block-Emptied nz c r3)
      ]

  truncated : (r : Disk × Inode) × (itrunc sb ip d ≡ some r) × Emptied sb d ip r
  unfolding itrunc
  truncated =
      let (d2, ip2, eq, r2, c2) =
        free_addrs-Released sb h one_map w 12 0 {d' = d} {ip' = ip} refl
          (none-Released sb h w (direct 0) (λ j. ground arith))
          (record {
            zero_before = λ j lt. absurd (omega arith);
            same_after = λ j le. refl;
            same_inum = refl;
          }) in
      rw eq (free_indirect-Emptied c2 r2)

  -- `itrunc` of a file whose blocks are its own, on a disk with one block of bitmap, in a transaction whose log
  -- has room for three more blocks: it does not panic, nor does `log_write`; the size is 0 and no address is left,
  -- in memory and in the inode table of the disk; exactly the blocks of the file, the indirect block among them,
  -- are free now; and nothing else on the disk changes but the bitmap.
  pub itrunc-Emptied :
      (r : Disk × Inode) × (itrunc sb ip d ≡ some r) × (r.0.stopped ≡ false) × Emptied sb d ip r
  itrunc-Emptied = let (r, e, m) = truncated in (r, e, m.logs.running, m)
