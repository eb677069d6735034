-- ===== src/Kernel/Inodes/Grown.antt =====
-- What follows the loop of `writei` in ex3/q1/xv6/fs.c, and the whole function.
use operating_systems_soluti.Base.{
  ℕ, ◌+◌, ◌*◌, ◌%◌, ◌^◌, ◌≤◌, ◌<◌, ◌≡◌, refl, inl, inr, false, ◌&&◌, Option, none, some, arith, ltb,
  if◌then◌else◌, Bool-cases, update, ℤ, pos,
}
use operating_systems_soluti.Kernel.Blocks.Space.{
  stops, Writable, Fits, Fits-later, Fits-more, log_block-Fits,
}
use operating_systems_soluti.Kernel.Blocks.{Superblock, Disk, bsize, is_used, log_block}
use operating_systems_soluti.Kernel.Inodes.{store_inode, Inode, maxfile, inode_block, grow, writei}
use operating_systems_soluti.Kernel.Inodes.Pointers.{IsFile}
use operating_systems_soluti.Kernel.Inodes.Spliced.{spliced}
use operating_systems_soluti.Kernel.Inodes.Contents.{file_at}
use operating_systems_soluti.Kernel.Blocks.Room.{room}
use operating_systems_soluti.Kernel.Inodes.Writes.{
  touched, Writing, written, disk_full, write_loop-Writing,
}

-- The outcome of `writei`: it writes the bytes and grows the file to their end, or panics on a full disk.
pub record WriteDone (sb : Superblock) (d : Disk) (ip : Inode) (off n : ℕ) (src : ℕ → ℕ)
    (r : Disk × Inode × ℤ) : Type 0 where
  pub file : IsFile sb r.0 r.1
  pub size : r.1.size ≡ (if ltb 0 n && ltb ip.size (off + n) then off + n else ip.size)
  pub result : r.2 ≡ pos n
  pub taken : room sb d ≤ room sb r.0 + 2 * touched off n
  pub logs : Fits (8 * touched off n + 1) d r.0
  pub contents :
      (k : ℕ) → k < maxfile * bsize → file_at r.0 r.1 k ≡ spliced off n src (file_at d ip) k

pub data Writei (sb : Superblock) (d : Disk) (ip : Inode) (off n : ℕ) (src : ℕ → ℕ)
    : Option (Disk × Inode × ℤ) → Type 0 where
  write_done :
      (r : Disk × Inode × ℤ) → WriteDone sb d ip off n src r → Writei sb d ip off n src (some r)
  write_full : room sb d < 2 * touched off n → Writei sb d ip off n src none

logged-IsFile :
    {sb : Superblock} {d : Disk} {ip : Inode} (b s : ℕ)
    → IsFile sb d ip
    → (t : ℕ → Inode) → IsFile sb (log_block b (record d { dinode = t })) (record ip { size = s })
unfolding log_block is_used
logged-IsFile b s h t = record {
  laid_out = record {
    bytes = h.laid_out.bytes;
    inside = h.laid_out.inside;
    maps = h.laid_out.maps;
  };
  word_size = h.word_size;
  boot = h.boot;
  blocks = λ k lk nz.
      let x = h.blocks k lk nz in
      record { not_boot = x.not_boot; in_range = x.in_range; used = x.used; no_map = x.no_map };
  distinct = h.distinct;
}

-- The inode table with a file that has grown.
abbrev grown : Inode → ℕ → Disk → ℕ → Inode
grown ip s d = update d.dinode ip.inum (record ip { size = s })

logged-room :
    (sb : Superblock) (b : ℕ) (d : Disk) (t : ℕ → Inode)
    → room sb (log_block b (record d { dinode = t })) ≡ room sb d
unfolding log_block is_used
logged-room sb b d t = refl

grow-Writei :
    {sb : Superblock} {d : Disk} {ip : Inode} (off n : ℕ) (src : ℕ → ℕ) {r : Option (Disk × Inode)}
    → Writing sb d ip off n (2 * touched off n) src r
    → Writei sb d ip off n src (grow sb n (off + n) r)
unfolding log_block
grow-Writei off n src (disk_full few) = write_full few
grow-Writei {sb} {d} {ip} off n src (written r w) =
    elim (Bool-cases (ltb 0 n && ltb r.1.size (off + n))) [
      | inl grows ↦ rw grows (
          write_done _ (record {
            file =
                logged-IsFile (inode_block sb r.1.inum) (off + n) w.file (grown r.1 (off + n) r.0);
            size = ground (arith, w.same_size, grows);
            result = refl;
            taken = omega (
              arith,
              w.taken,
              logged-room sb (inode_block sb r.1.inum) r.0 (grown r.1 (off + n) r.0),
            );
            logs =
                Fits-more d (store_inode sb (record (r.1) { size = off + n }) r.0)
                  (4 * (2 * touched off n) + 1) (8 * touched off n + 1) (omega arith)
                  (Fits-later d r.0 (store_inode sb (record (r.1) { size = off + n }) r.0)
                    (4 * (2 * touched off n)) 1 w.logs
                    (log_block-Fits (inode_block sb r.1.inum)
                      (record (r.0) { dinode = grown r.1 (off + n) r.0 })));
            contents = w.contents;
          }))
      | inr stays ↦ rw stays (
          write_done _ (record {
            file = w.file;
            size = ground (arith, w.same_size, stays);
            result = refl;
            taken = w.taken;
            logs =
                Fits-more d r.0 (4 * (2 * touched off n)) (8 * touched off n + 1) (omega arith)
                  w.logs;
            contents = w.contents;
          }))
    ]

-- All that `writei` does, with the room in the log that it takes.
pub writei-Writei :
    (sb : Superblock) (src : ℕ → ℕ) (off n : ℕ) {d : Disk} {ip : Inode}
    → IsFile sb d ip
    → ((k : ℕ) → src k < 256)
    → off ≤ ip.size
    → off + n ≤ maxfile * bsize
    → Writei sb d ip off n src (writei sb ip src off n d)
unfolding writei
writei-Writei sb src off n {d} {ip} h bytes inside top =
    let early : ltb ip.size off ≡ false = ground arith in
    let wraps : (off + n) % 2 ^ 32 ≡ off + n = omega arith in
    let over : ltb (off + n) off ≡ false = ground arith in
    let large : ltb (maxfile * bsize) (off + n) ≡ false = ground arith in
    rw (early, wraps, over, large)
      (grow-Writei off n src (write_loop-Writing sb (n + 1) src off n h bytes top (omega arith)))

-- `writei` of bytes at an offset inside a file, or at its end, within the largest file, in a transaction whose
-- log has room for eight more blocks for each block that the range touches, and for one more: it returns the
-- number of the bytes, the file grows to their end where it was shorter, reads as these bytes in their range and
-- as before outside of it, and its blocks stay its own. `log_write` does not panic, and `balloc` does only where
-- the disk has fewer free blocks than two for each block that the range touches.
pub writei-in_transaction :
    (sb : Superblock) (src : ℕ → ℕ) (off n : ℕ) {d : Disk} {ip : Inode}
    → IsFile sb d ip
    → ((k : ℕ) → src k < 256)
    → off ≤ ip.size
    → off + n ≤ maxfile * bsize
    → Writable (8 * touched off n + 1) d
    → Writei sb d ip off n src (writei sb ip src off n d)
      × (stops (writei sb ip src off n d) ≡ false)
writei-in_transaction sb src off n {d} {ip} h bytes inside top w =
    let done = writei-Writei sb src off n h bytes inside top in
    (done, go (writei sb ip src off n d) done)
  where
    go : (r : Option (Disk × Inode × ℤ)) → Writei sb d ip off n src r → stops r ≡ false
    go none (write_full few) = refl
    go (some r) (write_done _ m) = (m.logs 0 (8 * touched off n + 1) (omega arith) w).running
